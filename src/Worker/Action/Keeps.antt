-- ===== src/Worker/Action/Keeps.antt =====
-- Invariants of actions: a rule for each way to build one.
use allocation_key_simulatio.Base.{
  ℕ, suc, Option, none, some, Bool, true, false, if◌then◌else◌, Result, ok, raised,
}
use allocation_key_simulatio.Worker.World.{World}
use allocation_key_simulatio.Worker.Action.{
  Exc, Action, pure, raise, gets, modify, capture, ◌>>=◌, call, proceed, answer,
}

-- `m` keeps `P`, whether it returns or raises.
pub record Keeps {N A : Type 0} (P : World N → Type 0) (m : Action N A) : Type 0 where
  pub at : (w : World N) → P w → P (m w).1

module _ {N A : Type 0} {P : World N → Type 0} where
  pub Keeps-pure : (v : A) → Keeps P (pure v)
  unfolding pure
  Keeps-pure v = record { at = λ w h. h }

  pub Keeps-raise : (e : Exc) → Keeps P (raise {A = A} e)
  unfolding raise
  Keeps-raise e = record { at = λ w h. h }

  pub Keeps-gets : (f : World N → A) → Keeps P (gets f)
  unfolding gets
  Keeps-gets f = record { at = λ w h. h }

  pub Keeps-if :
      (b : Bool) (m n : Action N A) → Keeps P m → Keeps P n → Keeps P (if b then m else n)
  Keeps-if true m n km kn = km
  Keeps-if false m n km kn = kn

module _ {N A : Type 0} {P : World N → Type 0} where
  pub Keeps-capture : (m : Action N A) → Keeps P m → Keeps P (capture m)
  unfolding capture
  Keeps-capture m km = record { at = km.at }

module _ {N : Type 0} {P : World N → Type 0} where
  pub Keeps-modify : (f : World N → World N) → ((w : World N) → P w → P (f w)) → Keeps P (modify f)
  unfolding modify
  Keeps-modify f kf = record { at = kf }

  -- A change that may be lost.
  pub Keeps-unless :
      (lost : Bool) (f : World N → World N)
      → ((w : World N) → P w → P (f w))
      → Keeps P (modify (λ w. if lost then w else f w))
  Keeps-unless true f kf = Keeps-modify _ (λ w p. p)
  Keeps-unless false f kf = Keeps-modify _ kf

  -- A call keeps what does not speak of the clock.
  pub Keeps-call :
      (fault : ℕ → Option Exc)
      → ((w : World N) → P w → P (record w { clock = suc w.clock }))
      → Keeps P (call fault)
  unfolding call
  Keeps-call fault kc = record { at = λ w p. answered (fault w.clock) _ (kc w p) }
    where
      answered : (e : Option Exc) (w' : World N) → P w' → P (answer e w').1
      answered none w' p = p
      answered (some e) w' p = p

module _ {N A B : Type 0} {P : World N → Type 0} where
  pub Keeps-bind :
      (m : Action N A) (f : A → Action N B)
      → Keeps P m
      → ((v : A) → Keeps P (f v))
      → Keeps P (m >>= f)
  unfolding ◌>>=◌
  Keeps-bind m f km kf = record { at = λ w p. continued (m w).0 (m w).1 (km.at w p) }
    where
      continued : (r : Result Exc A) (w' : World N) → P w' → P (proceed r f w').1
      continued (ok v) w' p = (kf v).at w' p
      continued (raised e) w' p = p

pub ruleset keeps_rules = (
  Keeps-pure, Keeps-raise, Keeps-gets, Keeps-if, Keeps-capture, Keeps-bind, Keeps-modify,
  Keeps-call,
)
