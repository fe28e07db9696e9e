-- ===== src/Shared/Preflight/Verdict.antt =====
-- What the pre-flight's verdict says of a period, and how it splits the key's participants.
use allocation_key_simulatio.Base.{
  ℕ, ◌+◌, ◌*◌, ◌≤◌, ◌≡◌, ◌↔◌, refl, ap, sym, ◌∙◌, ◌&&◌, Text, contains, List, [], ◌∷◌, map, Option,
  All, All-elim, any, same_text, suc, if◌then◌else◌, ◌||◌, none, some, Bool, true, false, not, keep,
  is_empty, length, all, ltb, ◌++◌, arith, Bool-cases, inl, inr, length-map,
}
use allocation_key_simulatio.Simulation.Number.{Arith}
use allocation_key_simulatio.Shared.Errors.{Error}
use allocation_key_simulatio.Shared.Metering.{
  EanCoverage, CrmDataSummary, total_rows, all_eans, duplicate_eans, has_duplicate_rows,
  total_injection_kwh,
}
use allocation_key_simulatio.Shared.ProblemSize.{too_large, max_simulation_cells, too_large-none}
use allocation_key_simulatio.Shared.Preflight.{
  max_reading_rows, normalize_participant, is_ok, block_if, block_oversize, find_blockers, evaluate,
}

is_empty-append {ℓ} :
    {A : Type ℓ} (xs ys : List A)
    → (is_empty (xs ++ ys) ≡ true) ↔ ((is_empty xs ≡ true) × (is_empty ys ≡ true))
is_empty-append [] ys = (λ h. (refl, h), λ h. h.1)
is_empty-append (x ∷ xs) ys = (λ h. cc, λ h. cc)

is_empty-block_if :
    (b : Bool) (e : Error) (d : Text) → (is_empty (block_if b e d) ≡ true) ↔ (b ≡ false)
is_empty-block_if true e d = (λ h. cc, λ h. cc)
is_empty-block_if false e d = (λ h. refl, λ h. refl)

is_empty-block_oversize : (o : Option Text) → (is_empty (block_oversize o) ≡ true) ↔ (o ≡ none)
is_empty-block_oversize none = (λ h. refl, λ h. refl)
is_empty-block_oversize (some d) = (λ h. cc, λ h. cc)

-- Nothing fails a test exactly when everything passes it.
keep-not_empty {ℓ} :
    {A : Type ℓ} (p : A → Bool) (xs : List A)
    → (not (is_empty (keep (λ y. not (p y)) xs)) ≡ false) ↔ (all p xs ≡ true)
keep-not_empty p [] = (λ h. refl, λ h. refl)
keep-not_empty p (y ∷ ys) =
    (λ h. ground (arith, (keep-not_empty p ys).0), λ h. ground (arith, (keep-not_empty p ys).1))

keep_empty {ℓ} :
    {A : Type ℓ} (p : A → Bool) (xs : List A)
    → (not (is_empty (keep p xs)) ≡ false) ↔ (all (λ y. not (p y)) xs ≡ true)
keep_empty p [] = (λ h. refl, λ h. refl)
keep_empty p (y ∷ ys) =
    (λ h. ground (arith, (keep_empty p ys).0), λ h. ground (arith, (keep_empty p ys).1))

is_empty-map {ℓ κ} :
    {A : Type ℓ} {B : Type κ} (f : A → B) (xs : List A) → is_empty (map f xs) ≡ is_empty xs
is_empty-map f [] = refl
is_empty-map f (x ∷ xs) = refl

all-map {ℓ κ} :
    {A : Type ℓ} {B : Type κ} (f : A → B) (p : B → Bool) (xs : List A)
    → all p (map f xs) ≡ all (λ y. p (f y)) xs
all-map f p [] = refl
all-map f p (x ∷ xs) = ap (λ b. p (f x) && b) (all-map f p xs)

-- How often a name stands in a list.
unfoldable pub count : Text → List Text → ℕ
count p [] = 0
count p (q ∷ qs) = let rest = count p qs in if same_text q p then suc rest else rest

count-keep :
    (p : Text) (test : Text → Bool) (xs : List Text)
    → count p (keep test xs) + count p (keep (λ y. not (test y)) xs) ≡ count p xs
unfolding count
count-keep p test [] = omega arith
count-keep p test (y ∷ ys) = ground (arith, count-keep p test ys)

All-keep-test :
    {A : Type 0} (test : A → Bool) (xs : List A) → All (λ x. test x ≡ true) (keep test xs)
All-keep-test test [] = tt
All-keep-test test (x ∷ xs) =
    All-elim (λ y. test y ≡ true) (test x) x (keep test xs) (λ t. t) (All-keep-test test xs)

All-keep-not :
    {A : Type 0} (test : A → Bool) (xs : List A)
    → All (λ x. test x ≡ false) (keep (λ y. not (test y)) xs)
All-keep-not test [] = tt
All-keep-not test (x ∷ xs) =
    All-elim (λ y. test y ≡ false) (not (test x)) x (keep (λ y. not (test y)) xs)
      (λ t. ground (arith, t)) (All-keep-not test xs)

All-of : {A : Type 0} (P : A → Type 0) (xs : List A) → ((x : A) → P x) → All P xs
All-of P [] h = tt
All-of P (x ∷ xs) h = (h x, All-of P xs h)

All-imp {ℓ} :
    {A : Type ℓ} (P Q : A → Type ℓ) (xs : List A) → ((x : A) → P x → Q x) → All P xs → All Q xs
All-imp P Q [] f h = tt
All-imp P Q (x ∷ xs) f h = (f x h.0, All-imp P Q xs f h.1)

contains-any :
    {N : Type 0} (p : Text) (es : List (EanCoverage N))
    → contains p (map (λ e. e.ean) es) ≡ any (λ e. same_text e.ean p) es
unfolding contains
contains-any p [] = refl
contains-any p (e ∷ es) = ap (λ b. same_text e.ean p || b) (contains-any p es)

contains_nothing :
    {N : Type 0} (p : Text) (es : List (EanCoverage N))
    → is_empty es ≡ true
    → any (λ e. same_text e.ean p) es ≡ false
contains_nothing p [] h = refl
contains_nothing p (e ∷ es) h = cc

module _ (a : Arith) where
  open a use {Num, nought, leq}

  -- The five conditions, and that there is any reading.
  pub record IsUsable (summary : CrmDataSummary Num) (names : List Text) (iterations : ℕ)
      : Type 0 where
    pub has_data : is_empty summary.eans ≡ false
    pub readable : total_rows summary ≤ max_reading_rows
    pub fits : length names * summary.grid_size * iterations ≤ max_simulation_cells
    pub no_duplicates : all (λ e. not (has_duplicate_rows e)) summary.eans ≡ true
    pub all_matched : all (λ n. contains (normalize_participant n) (all_eans summary)) names ≡ true
    pub has_injection : leq (total_injection_kwh a summary) nought ≡ false

  find_blockers-empty :
      (summary : CrmDataSummary Num) (names : List Text) (iterations : ℕ)
      → (is_empty (find_blockers a summary (map normalize_participant names) iterations) ≡ true) ↔ (
          (ltb max_reading_rows (total_rows summary) ≡ false)
          × (too_large (length (map normalize_participant names)) summary.grid_size iterations
              ≡ none)
          × (not (is_empty (duplicate_eans summary)) ≡ false)
          × (not (
                is_empty (
                  keep
                    (λ p. not (contains p (all_eans summary)))
                    (map normalize_participant names)))
              ≡ false)
          × (leq (total_injection_kwh a summary) nought ≡ false))
  unfolding find_blockers
  find_blockers-empty summary names iterations = (
    λ h.
        let (h1, r1) = (is_empty-append _ _).0 h in
        let (h2, r2) = (is_empty-append _ _).0 r1 in
        let (h3, r3) = (is_empty-append _ _).0 r2 in
        let (h4, h5) = (is_empty-append _ _).0 r3 in
        (
          (is_empty-block_if _ _ _).0 h1,
          (is_empty-block_oversize _).0 h2,
          (is_empty-block_if _ _ _).0 h3,
          (is_empty-block_if _ _ _).0 h4,
          (is_empty-block_if _ _ _).0 h5,
        ),
    λ h. (is_empty-append _ _).1 (
      (is_empty-block_if _ _ _).1 h.0,
      (is_empty-append _ _).1 (
        (is_empty-block_oversize _).1 h.1,
        (is_empty-append _ _).1 (
          (is_empty-block_if _ _ _).1 h.2,
          (is_empty-append _ _).1
              ((is_empty-block_if _ _ _).1 h.3, (is_empty-block_if _ _ _).1 h.4),
        ),
      ),
    ),
  )

  abbrev known : CrmDataSummary Num → Text → Bool
  known summary p = contains p (all_eans summary)

  -- The pre-flight lets a period through exactly when it has readings, no more than can be read,
  -- a run of at most the allowed cells, no meter with a repeated timestamp, a meter for every
  -- participant of the key (compared trimmed), and some energy injected.
  pub evaluate-is_ok :
      (summary : CrmDataSummary Num) (names : List Text) (iterations : ℕ)
      → (is_ok (evaluate a summary names iterations) ≡ true) ↔ IsUsable summary names iterations
  unfolding evaluate
  evaluate-is_ok summary names iterations = elim (Bool-cases (is_empty summary.eans)) [
    | inl e ↦ rw e (λ h. cc, λ u. absurd (ground (arith, e, u.has_data)))
    | inr e ↦
        let same : length (map normalize_participant names) ≡ length names =
          length-map normalize_participant names in
        rw e (
          λ h.
              let (b1, b2, b3, b4, b5) = (find_blockers-empty summary names iterations).0 h in
              record {
                has_data = e;
                readable = ground arith;
                fits = rw same at ((too_large-none _ _ _).0 b2);
                no_duplicates =
                    (keep_empty has_duplicate_rows summary.eans).0 (rw is_empty-map at b3);
                all_matched =
                    sym (all-map normalize_participant (known summary) names)
                    ∙ (keep-not_empty (known summary) (map normalize_participant names)).0 b4;
                has_injection = b5;
              },
          λ u. (find_blockers-empty summary names iterations).1 (
            ground (arith, u.readable),
            (too_large-none _ _ _).1 (rw same u.fits),
            rw is_empty-map ((keep_empty has_duplicate_rows summary.eans).1 u.no_duplicates),
            (keep-not_empty (known summary) (map normalize_participant names)).1
                (all-map normalize_participant (known summary) names ∙ u.all_matched),
            u.has_injection,
          ),
        )
  ]

  -- A meter of the period reads for this name.
  abbrev pub has_meter : CrmDataSummary Num → Text → Bool
  has_meter summary p = any (λ e. same_text e.ean p) summary.eans

  known-has_meter :
      (summary : CrmDataSummary Num) (p : Text) → known summary p ≡ has_meter summary p
  known-has_meter summary p = contains-any p summary.eans

  -- The participants are the key's names, trimmed; each is matched or unmatched, as often as the
  -- key names it; a matched one has a meter in the period, and an unmatched one has none.
  pub evaluate_splits :
      (summary : CrmDataSummary Num) (names : List Text) (iterations : ℕ)
      → ((evaluate a summary names iterations).participants ≡ map normalize_participant names)
        × ((p : Text)
            → count p (evaluate a summary names iterations).matched
                + count p (evaluate a summary names iterations).unmatched
              ≡ count p (map normalize_participant names))
        × All (λ p. has_meter summary p ≡ true) (evaluate a summary names iterations).matched
        × All (λ p. has_meter summary p ≡ false) (evaluate a summary names iterations).unmatched
  unfolding evaluate
  evaluate_splits summary names iterations = elim (Bool-cases (is_empty summary.eans)) [
    | inl e ↦ rw e (
      refl,
      λ p. unfold count in omega arith,
      tt,
      All-of (λ p. has_meter summary p ≡ false) (map normalize_participant names)
          (λ p. contains_nothing p summary.eans e),
    )
    | inr e ↦
        let participants = map normalize_participant names in
        rw e (
          refl,
          λ p. count-keep p (known summary) (map normalize_participant names),
          All-imp _ _ (keep (known summary) participants)
              (λ p h. sym (known-has_meter summary p) ∙ h)
              (All-keep-test (known summary) participants),
          All-imp _ _ (keep (λ p. not (known summary p)) participants)
              (λ p h. sym (known-has_meter summary p) ∙ h)
              (All-keep-not (known summary) participants),
        )
  ]
