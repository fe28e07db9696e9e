-- ===== src/Worker/Startup.antt =====
-- The worker's connection to the broker (worker/main.py, `_connect_nats_with_retry`). `init_nats` is
-- a parameter: the exception of each attempt, if it raises.
use allocation_key_simulatio.Base.{
  Bool-cases, sym, subst, inl, inr, ap, ◌∙◌, ==_iff, ℕ, zero, suc, ◌+◌, ◌-◌, ◌*◌, ◌^◌, ◌≤◌, ◌<◌,
  ◌≡◌, refl, Option, none, some, ◌==◌, leb, if◌then◌else◌, arith,
}
use allocation_key_simulatio.Worker.Action.{Exc}

abbrev pub nats_connect_max_attempts : ℕ
nats_connect_max_attempts = 10

abbrev pub nats_connect_base_delay_seconds : ℕ
nats_connect_base_delay_seconds = 2

abbrev pub nats_connect_max_delay_seconds : ℕ
nats_connect_max_delay_seconds = 30

-- `min(base * 2 ** (attempt - 1), max)`
unfoldable pub delay : ℕ → ℕ
delay attempt =
    let backoff = nats_connect_base_delay_seconds * 2 ^ (attempt - 1) in
    if leb backoff nats_connect_max_delay_seconds then backoff else nats_connect_max_delay_seconds

-- Connected at an attempt, raised by the last one, or past the end of the loop.
pub data Connection : Type 0 where
  connected : ℕ → Connection
  aborted : Exc → Connection
  fell_through : Connection

abbrev after_attempt : Option Exc → ℕ → ℕ → Connection × ℕ → Connection × ℕ
after_attempt none attempt slept next = (connected attempt, slept)
after_attempt (some e) attempt slept next =
    if attempt == nats_connect_max_attempts then (aborted e, slept) else next

-- The loop with `k` attempts left, and the seconds slept before.
unfoldable pub connect_from : (ℕ → Option Exc) → ℕ → ℕ → ℕ → Connection × ℕ
connect_from init zero attempt slept = (fell_through, slept)
connect_from init (suc k) attempt slept =
    let next = connect_from init k (suc attempt) (slept + delay attempt) in
    after_attempt (init attempt) attempt slept next

unfoldable pub connect_nats_with_retry : (ℕ → Option Exc) → Connection × ℕ
connect_nats_with_retry init = connect_from init nats_connect_max_attempts 1 0

-- Every attempt before the given one raised.
abbrev pub AllFailed : (ℕ → Option Exc) → ℕ → Type 0
AllFailed init n = (j : ℕ) → 1 ≤ j → j < n → (e : Exc) × (init j ≡ some e)

-- How the start-up may end: at the first attempt that succeeds, or with the last one's exception.
abbrev pub IsStartup : (ℕ → Option Exc) → Connection → Type 0
IsStartup init (connected n) =
    (1 ≤ n) × ((n ≤ nats_connect_max_attempts) × ((init n ≡ none) × AllFailed init n))
IsStartup init (aborted e) =
    (init nats_connect_max_attempts ≡ some e) × AllFailed init nats_connect_max_attempts
IsStartup init fell_through = 1 ≤ 0

-- The seconds slept before an attempt, at most.
slept_before : ℕ → ℕ
slept_before zero = 0
slept_before (suc zero) = 0
slept_before (suc (suc n)) = slept_before (suc n) + delay (suc n)

AllFailed-suc :
    (init : ℕ → Option Exc) (n : ℕ) (e : Exc)
    → AllFailed init n
    → init n ≡ some e
    → AllFailed init (suc n)
AllFailed-suc init n e h q j l u = elim (Bool-cases (j == n)) [
  | inl y ↦ (e, ap init ((==_iff j n).0 y) ∙ q)
  | inr y ↦ h j l (grind (arith, y))
]

-- Up to the last attempt the sleeps make at most three minutes.
slept_before_le : (n k : ℕ) → n + k ≡ 10 → slept_before n ≤ 180
unfolding slept_before delay
slept_before_le n zero h = subst (λ x. slept_before x ≤ 180) {x = 10} (omega arith) (omega arith)
slept_before_le zero (suc k) h = omega arith
slept_before_le (suc n) (suc k) h =
    let ih = slept_before_le (suc (suc n)) k (omega arith) in omega arith

slept_before-suc : (n : ℕ) → 1 ≤ n → slept_before (suc n) ≡ slept_before n + delay n
unfolding slept_before
slept_before-suc zero h = absurd (omega arith)
slept_before-suc (suc n) h = refl

-- One attempt, with what the rest of the loop makes of it.
after_attempt-IsStartup :
    (init : ℕ → Option Exc) (r : Option Exc) (n slept : ℕ) (next : Connection × ℕ)
    → init n ≡ r
    → 1 ≤ n
    → n ≤ nats_connect_max_attempts
    → slept ≤ 180
    → AllFailed init n
    → ((e : Exc)
        → init n ≡ some e
        → n < nats_connect_max_attempts
        → IsStartup init next.0 × (next.1 ≤ 180))
    → IsStartup init (after_attempt r n slept next).0 × ((after_attempt r n slept next).1 ≤ 180)
after_attempt-IsStartup init none n slept next q l u s f h = ((l, (u, (q, f))), s)
after_attempt-IsStartup init (some e) n slept next q l u s f h = elim (Bool-cases (n == 10)) [
  | inl y ↦
      rw (y)
        ((ap init (sym ((==_iff n 10).0 y)) ∙ q, subst (AllFailed init) ((==_iff n 10).0 y) f), s)
  | inr y ↦ rw (y) (h e q (grind (arith, y)))
]

connect_from-IsStartup :
    (init : ℕ → Option Exc) (k n slept : ℕ)
    → 1 ≤ n
    → n + k ≡ 11
    → 1 ≤ k
    → slept ≡ slept_before n
    → AllFailed init n
    → IsStartup init (connect_from init k n slept).0 × ((connect_from init k n slept).1 ≤ 180)
unfolding connect_from
connect_from-IsStartup init zero n slept l s h b f = absurd (omega arith)
connect_from-IsStartup init (suc k) n slept l s h b f =
    let small : slept ≤ 180 = rw b (slept_before_le n (10 - n) (omega arith)) in
    after_attempt-IsStartup init (init n) n slept (connect_from init k (suc n) (slept + delay n))
      refl l (omega arith) small f
      (λ e q u.
        connect_from-IsStartup init k (suc n) (slept + delay n) (omega arith) (omega arith)
          (omega arith) (ap (λ x. x + delay n) b ∙ sym (slept_before-suc n l))
          (AllFailed-suc init n e f q))

-- The worker's start-up ends: with a connection at the first of its ten attempts that does not raise, or
-- with the exception of the tenth where they all raise; and it sleeps at most 180 seconds in all.
pub connect_nats_with_retry-IsStartup :
    (init : ℕ → Option Exc)
    → IsStartup init (connect_nats_with_retry init).0 × ((connect_nats_with_retry init).1 ≤ 180)
unfolding connect_nats_with_retry slept_before
connect_nats_with_retry-IsStartup init =
    connect_from-IsStartup init 10 1 0 (omega arith) (omega arith) (omega arith) refl
      (λ j l u. absurd (omega arith))
