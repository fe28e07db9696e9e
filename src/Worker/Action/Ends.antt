-- ===== src/Worker/Action/Ends.antt =====
-- How an action ends: what holds where it returns, and where it raises.
use allocation_key_simulatio.Base.{
  ℕ, suc, ◌≡◌, refl, Option, none, some, Bool, true, false, if◌then◌else◌, Result, ok, raised,
}
use allocation_key_simulatio.Worker.World.{World}
use allocation_key_simulatio.Worker.Action.{
  Exc, Action, pure, raise, gets, modify, capture, ◌>>=◌, call, proceed, answer,
}
use allocation_key_simulatio.Worker.Action.Keeps.{Keeps}

module _ {N A : Type 0} where
  abbrev pub Post :
      (A → World N → Type 0) → (Exc → World N → Type 0) → Result Exc A → World N → Type 0
  Post Q E (ok v) w = Q v w
  Post Q E (raised e) w = E e w

-- No promise about a raise.
module _ {N : Type 0} where
  abbrev pub Anything : Exc → World N → Type 0
  Anything e w = Unit {0}

pub record Ends {N A : Type 0} (P : World N → Type 0) (Q : A → World N → Type 0)
    (E : Exc → World N → Type 0) (m : Action N A) : Type 0 where
  pub at : (w : World N) → P w → Post Q E (m w).0 (m w).1

module _ {N A : Type 0} {P : World N → Type 0} {Q : A → World N → Type 0}
    {E : Exc → World N → Type 0} where
  pub Ends-pure : (v : A) → ((w : World N) → P w → Q v w) → Ends P Q E (pure v)
  unfolding pure
  Ends-pure v h = record { at = h }

  pub Ends-raise : (e : Exc) → ((w : World N) → P w → E e w) → Ends P Q E (raise e)
  unfolding raise
  Ends-raise e h = record { at = h }

  pub Ends-if :
      (b : Bool) (m n : Action N A)
      → (b ≡ true → Ends P Q E m)
      → (b ≡ false → Ends P Q E n)
      → Ends P Q E (if b then m else n)
  Ends-if true m n lm ln = lm refl
  Ends-if false m n lm ln = ln refl

  pub Ends-capture :
      {E' : Exc → World N → Type 0} (m : Action N A)
      → Ends P Q E m
      → Ends P (Post Q E) E' (capture m)
  unfolding capture
  Ends-capture m l = record { at = l.at }

module _ {N A : Type 0} {P P' : World N → Type 0} {Q : A → World N → Type 0}
    {E : Exc → World N → Type 0} where
  pub Ends-before : {m : Action N A} → ((w : World N) → P w → P' w) → Ends P' Q E m → Ends P Q E m
  Ends-before h l = record { at = λ w p. l.at w (h w p) }

  -- What `m` keeps holds however it ends.
  pub Ends-beside :
      (m : Action N A)
      → Keeps P' m
      → Ends P Q E m
      → Ends (λ w. P w × P' w) (λ v w. Q v w × P' w) (λ e w. E e w × P' w) m
  Ends-beside m k l = record { at = λ w p. both (m w).0 (m w).1 (l.at w p.0) (k.at w p.1) }
    where
      both :
          (r : Result Exc A) (w : World N)
          → Post Q E r w
          → P' w
          → Post (λ v x. Q v x × P' x) (λ e x. E e x × P' x) r w
      both (ok v) w q p = (q, p)
      both (raised e) w q p = (q, p)

module _ {N A B : Type 0} {P : World N → Type 0} {R : A → World N → Type 0}
    {Q : B → World N → Type 0} {E : Exc → World N → Type 0} where
  pub Ends-bind :
      (m : Action N A) (f : A → Action N B)
      → Ends P R E m
      → ((v : A) → Ends (R v) Q E (f v))
      → Ends P Q E (m >>= f)
  unfolding ◌>>=◌
  Ends-bind m f lm lf = record { at = λ w p. continued (m w).0 (m w).1 (lm.at w p) }
    where
      continued :
          (r : Result Exc A) (w : World N)
          → Post R E r w
          → Post Q E (proceed r f w).0 (proceed r f w).1
      continued (ok v) w p = (lf v).at w p
      continued (raised e) w p = p

module _ {N A B : Type 0} {P : World N → Type 0} {Q : B → World N → Type 0}
    {E : Exc → World N → Type 0} where
  -- What was read still holds.
  pub Ends-gets :
      (g : World N → A) (f : A → Action N B)
      → ((v : A) → Ends (λ w. P w × (g w ≡ v)) Q E (f v))
      → Ends P Q E (gets g >>= f)
  unfolding ◌>>=◌ gets
  Ends-gets g f lf = record { at = λ w p. (lf (g w)).at w (p, refl) }

module _ {N : Type 0} {P : World N → Type 0} {Q : Unit {0} → World N → Type 0}
    {E : Exc → World N → Type 0} where
  pub Ends-modify :
      (f : World N → World N) → ((w : World N) → P w → Q tt (f w)) → Ends P Q E (modify f)
  unfolding modify
  Ends-modify f h = record { at = h }

  -- A call that may raise.
  pub Ends-call :
      (fault : ℕ → Option Exc)
      → ((w : World N) → P w → Q tt (record w { clock = suc w.clock }))
      → ((e : Exc) (w : World N) → P w → E e (record w { clock = suc w.clock }))
      → Ends P Q E (call fault)
  unfolding call
  Ends-call fault h g = record { at = λ w p. answered (fault w.clock) w p }
    where
      answered :
          (e : Option Exc) (w : World N)
          → P w
          → Post Q E
              (answer e (record w { clock = suc w.clock })).0
              (answer e (record w { clock = suc w.clock })).1
      answered none w p = h w p
      answered (some e) w p = g e w p

  -- A call that raises what its fault says.
  pub Ends-fault :
      (fault : ℕ → Option Exc)
      → ((w : World N) → P w → Q tt (record w { clock = suc w.clock }))
      → ((t : ℕ) (e : Exc) (w : World N)
          → fault t ≡ some e
          → P w
          → E e (record w { clock = suc w.clock }))
      → Ends P Q E (call fault)
  unfolding call
  Ends-fault fault h g = record { at = λ w p. answered (fault w.clock) w refl p }
    where
      answered :
          (e : Option Exc) (w : World N)
          → fault w.clock ≡ e
          → P w
          → Post Q E
              (answer e (record w { clock = suc w.clock })).0
              (answer e (record w { clock = suc w.clock })).1
      answered none w q p = h w p
      answered (some e) w q p = g w.clock e w q p

  -- A call that does not raise.
  pub Ends-working :
      (fault : ℕ → Option Exc)
      → ((t : ℕ) → fault t ≡ none)
      → ((w : World N) → P w → Q tt (record w { clock = suc w.clock }))
      → Ends P Q E (call fault)
  unfolding call
  Ends-working fault works h = record { at = λ w p. answered (fault w.clock) (works w.clock) w p }
    where
      answered :
          (e : Option Exc)
          → e ≡ none
          → (w : World N) → P w
          → Post Q E
              (answer e (record w { clock = suc w.clock })).0
              (answer e (record w { clock = suc w.clock })).1
      answered none q w p = h w p
      answered (some e) q w p = cc

module _ {N A : Type 0} {P : World N → Type 0} where
  pub Ends-Keeps : {m : Action N A} → Keeps P m → Ends P (λ v. P) (λ e. P) m
  Ends-Keeps {m = m} k = record { at = λ w p. as_post (m w).0 (m w).1 (k.at w p) }
    where
      as_post : (r : Result Exc A) (w : World N) → P w → Post (λ v. P) (λ e. P) r w
      as_post (ok v) w p = p
      as_post (raised e) w p = p

module _ {N A : Type 0} {P : World N → Type 0} {Q : A → World N → Type 0}
    {E E' : Exc → World N → Type 0} where
  -- A weaker promise about a raise.
  pub Ends-after :
      {m : Action N A} → Ends P Q E m → ((e : Exc) (w : World N) → E e w → E' e w) → Ends P Q E' m
  Ends-after {m = m} l h = record { at = λ w p. weaker (m w).0 (m w).1 (l.at w p) }
    where
      weaker : (r : Result Exc A) (w : World N) → Post Q E r w → Post Q E' r w
      weaker (ok v) w q = q
      weaker (raised e) w q = h e w q

module _ {N A : Type 0} {P : World N → Type 0} {Q Q' : A → World N → Type 0}
    {E E' : Exc → World N → Type 0} where
  -- Weaker promises.
  pub Ends-as :
      {m : Action N A}
      → ((v : A) (w : World N) → Q v w → Q' v w)
      → ((e : Exc) (w : World N) → E e w → E' e w)
      → Ends P Q E m
      → Ends P Q' E' m
  Ends-as {m = m} g h l = record { at = λ w p. weaker (m w).0 (m w).1 (l.at w p) }
    where
      weaker : (r : Result Exc A) (w : World N) → Post Q E r w → Post Q' E' r w
      weaker (ok v) w q = g v w q
      weaker (raised e) w q = h e w q
