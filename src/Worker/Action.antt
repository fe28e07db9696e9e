-- ===== src/Worker/Action.antt =====
-- Code that changes the world and may raise. What was changed before a raise stays changed.
pub mod Keeps
pub mod Ends
pub mod Leads
use allocation_key_simulatio.Base.{
  ℕ, suc, ◌≡◌, Text, [], Option, none, some, Bool, true, false, if◌then◌else◌, Result, ok, raised,
}
use allocation_key_simulatio.Shared.Errors.{Error, ErrorException, error_text}
use allocation_key_simulatio.Worker.World.{World}

-- The exceptions that the handler tells apart; each carries its text.
pub data Exc : Type 0 where
  transient_error solver_crash simulation_input other : Text → Exc
  object_not_found : Exc
  transient_storage : Text → Exc
  error_exception : ErrorException → Exc

-- `str(exc)`; of an ErrorException, its code and key.
unfoldable pub exc_text : Exc → Text
exc_text (transient_error t) = t
exc_text (solver_crash t) = t
exc_text (simulation_input t) = t
exc_text (other t) = t
exc_text object_not_found = []
exc_text (transient_storage t) = t
exc_text (error_exception e) = error_text e

module _ (N : Type 0) where
  abbrev pub Action : Type 0 → Type 0
  Action A = World N → Result Exc A × World N

module _ {N : Type 0} {A : Type 0} where
  unfoldable pub pure : A → Action N A
  pure v w = (ok v, w)

  unfoldable pub raise : Exc → Action N A
  raise e w = (raised e, w)

  unfoldable pub gets : (World N → A) → Action N A
  gets f w = (ok (f w), w)

module _ {N A : Type 0} where
  -- The outcome of `m` as a value, for a `try` with several handlers.
  unfoldable pub capture : Action N A → Action N (Result Exc A)
  capture m w = let (r, w') = m w in (ok r, w')

module _ {N : Type 0} where
  unfoldable pub modify : (World N → World N) → Action N (Unit {0})
  modify f w = (ok tt, f w)

module _ {N A B : Type 0} where
  abbrev pub proceed : Result Exc A → (A → Action N B) → Action N B
  proceed (ok v) f w = f v w
  proceed (raised e) f w = (raised e, w)

  infixl 5 ◌>>=◌ ◌>>◌
  unfoldable pub ◌>>=◌ : Action N A → (A → Action N B) → Action N B
  unfolding pure raise gets modify capture
  ◌>>=◌ m f w = let (r, w') = m w in proceed r f w'

  abbrev pub ◌>>◌ : Action N A → Action N B → Action N B
  m >> n = m >>= λ _. n

module _ {N : Type 0} where
  abbrev pub answer : Option Exc → Action N (Unit {0})
  answer none w = (ok tt, w)
  answer (some e) w = (raised e, w)

  -- A call to something outside, which may raise at this moment.
  unfoldable pub call : (ℕ → Option Exc) → Action N (Unit {0})
  call fault w = answer (fault w.clock) (record w { clock = suc w.clock })
