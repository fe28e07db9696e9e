-- ===== src/Worker/Action/Leads.antt =====
-- From one property of the world to another: `m` is run where `P` holds, and leaves `Q`.
use allocation_key_simulatio.Base.{◌≡◌, refl, Bool, true, false, if◌then◌else◌, Result, ok, raised}
use allocation_key_simulatio.Worker.World.{World}
use allocation_key_simulatio.Worker.Action.{Exc, Action, gets, modify, ◌>>=◌, proceed}
use allocation_key_simulatio.Worker.Action.Keeps.{Keeps}

pub record Leads {N A : Type 0} (P Q : World N → Type 0) (m : Action N A) : Type 0 where
  pub at : (w : World N) → P w → Q (m w).1

module _ {N A : Type 0} {P Q : World N → Type 0} where
  pub Leads-Keeps : {m : Action N A} → ((w : World N) → P w → Q w) → Keeps P m → Leads P Q m
  Leads-Keeps weaker km = record { at = λ w p. weaker _ (km.at w p) }

  pub Leads-if :
      (b : Bool) {m n : Action N A}
      → (b ≡ true → Leads P Q m)
      → Leads P Q n
      → Leads P Q (if b then m else n)
  Leads-if true lm ln = lm refl
  Leads-if false lm ln = ln

module _ {N : Type 0} {P Q : World N → Type 0} where
  pub Leads-modify :
      (f : World N → World N) → ((w : World N) → P w → Q (f w)) → Leads P Q (modify f)
  unfolding modify
  Leads-modify f h = record { at = h }

module _ {N A B : Type 0} {P Q : World N → Type 0} where
  -- Up to `m` nothing changes.
  pub Leads-bind :
      (m : Action N A) (f : A → Action N B)
      → ((w : World N) → P w → Q w)
      → Keeps P m
      → ((v : A) → Leads P Q (f v))
      → Leads P Q (m >>= f)
  unfolding ◌>>=◌
  Leads-bind m f weaker km lf = record { at = λ w p. continued (m w).0 (m w).1 (km.at w p) }
    where
      continued : (r : Result Exc A) (w' : World N) → P w' → Q (proceed r f w').1
      continued (ok v) w' p = (lf v).at w' p
      continued (raised e) w' p = weaker w' p

  -- `m` makes the change.
  pub Leads-then :
      (m : Action N A) (f : A → Action N B)
      → Leads P Q m
      → ((v : A) → Keeps Q (f v))
      → Leads P Q (m >>= f)
  unfolding ◌>>=◌
  Leads-then m f lm kf = record { at = λ w p. continued (m w).0 (m w).1 (lm.at w p) }
    where
      continued : (r : Result Exc A) (w' : World N) → Q w' → Q (proceed r f w').1
      continued (ok v) w' q = (kf v).at w' q
      continued (raised e) w' q = q

  -- What was read still holds.
  pub Leads-gets :
      (g : World N → A) (f : A → Action N B)
      → ((v : A) → Leads (λ w. P w × (g w ≡ v)) Q (f v))
      → Leads P Q (gets g >>= f)
  unfolding ◌>>=◌ gets
  Leads-gets g f lf = record { at = λ w p. (lf (g w)).at w (p, refl) }

module _ {N A : Type 0} {P : World N → Type 0} where
  pub Keeps-Leads : {m : Action N A} → Leads P P m → Keeps P m
  Keeps-Leads l = record { at = l.at }
