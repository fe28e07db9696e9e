-- ===== src/Core/Queue/Reconciled.antt =====
-- What the broker holds for a durable after `ensure_consumer_config`.
use allocation_key_simulatio.Base.{
  ◌≡◌, refl, sym, ap, subst, ◌∙◌, Text, same_text, same_text_eq, same_text_refl, contains, List, [],
  ◌∷◌, map, keep, none, some, Bool, true, false, not, ◌&&◌, is_empty, inl, inr, Bool-cases,
  if◌then◌else◌, ok, arith,
}
use allocation_key_simulatio.Core.Queue.{
  Value, same_value, ConsumerConfig, get_value, set_fields, drift_of, evolve, Broker,
  declared_consumer_fields, is_reconciled, write_config, update_consumer, reconcile,
  ensure_consumer_config,
}

abbrev pub names : ConsumerConfig → List Text
names config = map (λ f. f.0) config

unfoldable pub distinct : List Text → Bool
distinct [] = true
distinct (t ∷ ts) = not (contains t ts) && distinct ts

same_value-eq : (v w : Value) → same_value v w ≡ true → v ≡ w
unfolding same_value
same_value-eq none none h = refl
same_value-eq none (some t) h = cc
same_value-eq (some s) none h = cc
same_value-eq (some s) (some t) h = ap some (same_text_eq s t h)

get_value-missing :
    (k : Text) (config : ConsumerConfig)
    → contains k (names config) ≡ false
    → get_value k config ≡ none
unfolding get_value contains
get_value-missing k [] h = refl
get_value-missing k ((j, v) ∷ config) h = elim (Bool-cases (same_text j k)) [
  | inl q ↦ ground arith
  | inr q ↦ let ih = get_value-missing k config in ground (arith, ih)
]

get_value-evolve :
    (k : Text) (drift current : ConsumerConfig)
    → contains k (names current) ≡ true
    → get_value k (evolve drift current)
      ≡ (if contains k (names drift) then get_value k drift else get_value k current)
unfolding get_value evolve contains
get_value-evolve k drift [] h = cc
get_value-evolve k drift ((j, v) ∷ current) h = elim (Bool-cases (same_text j k)) [
  | inl q ↦
      rw (same_text_eq j k q, same_text_refl k)
        (elim (Bool-cases (contains k (names drift))) [
          | inl t ↦ rw (t, same_text_refl k) refl
          | inr f ↦ rw (f, same_text_refl k) refl
        ])
  | inr q ↦
      let ih = get_value-evolve k drift current (rw q at h) in
      elim (Bool-cases (contains j (names drift))) [ inl t ↦ rw (t, q) ih | inr f ↦ rw (f, q) ih ]
]

and-true : (a b : Bool) → (a && b) ≡ true → (a ≡ true) × (b ≡ true)
and-true true b h = (refl, h)
and-true false b h = cc

not-true : (b : Bool) → not b ≡ true → b ≡ false
not-true true h = cc
not-true false h = refl

not-false : (b : Bool) → not b ≡ false → b ≡ true
not-false true h = refl
not-false false h = cc

and-false : (a b : Bool) → a ≡ true → (a && b) ≡ false → b ≡ false
and-false true b t h = h
and-false false b t h = cc

-- What stands first is nowhere behind it.
first_only :
    (j k : Text) (ts : List Text)
    → distinct (j ∷ ts) ≡ true
    → same_text j k ≡ true
    → contains k ts ≡ false
unfolding distinct
first_only j k ts h q = rw (sym (same_text_eq j k q)) (not-true _ (and-true _ _ h).0)

distinct-tail : (j : Text) (ts : List Text) → distinct (j ∷ ts) ≡ true → distinct ts ≡ true
unfolding distinct
distinct-tail j ts h = (and-true _ _ h).1

keep-step {ℓ} :
    {A : Type ℓ} (p : A → Bool) (x : A) (xs : List A)
    → keep p (x ∷ xs) ≡ (if p x then x ∷ keep p xs else keep p xs)
keep-step {A} p x xs = joined (p x)
  where
    joined :
        (b : Bool)
        → elim b as (λ c. List A) [ true ↦ x ∷ keep p xs | false ↦ keep p xs ]
          ≡ (if b then x ∷ keep p xs else keep p xs)
    joined true = refl
    joined false = refl

drift-step :
    (j : Text) (v : Value) (declared current : ConsumerConfig)
    → drift_of ((j, v) ∷ declared) current ≡ (
        if not (same_value (get_value j current) v)
        then (j, v) ∷ drift_of declared current
        else drift_of declared current)
unfolding drift_of
drift-step j v declared current =
    keep-step (λ (x : Text × Value). not (same_value (get_value x.0 current) x.1)) (j, v) declared

-- The drift holds the declared values that differ.
drift-contains :
    (k : Text) (declared current : ConsumerConfig)
    → distinct (names declared) ≡ true
    → (contains k (names (drift_of declared current)) ≡ (
        contains k (names declared)
        && not (same_value (get_value k current) (get_value k declared))))
unfolding get_value contains
drift-contains k [] current h = unfold drift_of in refl
drift-contains k ((j, v) ∷ declared) current h =
    let ih = drift-contains k declared current (distinct-tail j (names declared) h) in
    elim (Bool-cases (same_text j k)) [
      | inl q ↦
          let alone = first_only j k (names declared) h q in
          rw (drift-step j v declared current, same_text_eq j k q, same_text_refl k)
            (elim (Bool-cases (same_value (get_value k current) v)) [
              | inl t ↦ rw t (ih ∙ rw alone refl)
              | inr f ↦ rw (f, same_text_refl k) refl
            ])
      | inr q ↦
          rw (drift-step j v declared current, q)
            (elim (Bool-cases (same_value (get_value j current) v)) [
              | inl t ↦ rw t ih
              | inr f ↦ rw (f, q) ih
            ])
    ]

drift-value :
    (k : Text) (declared current : ConsumerConfig)
    → distinct (names declared) ≡ true
    → contains k (names (drift_of declared current)) ≡ true
    → get_value k (drift_of declared current) ≡ get_value k declared
unfolding get_value contains
drift-value k [] current h c = unfold drift_of in refl
drift-value k ((j, v) ∷ declared) current h c =
    let tail = distinct-tail j (names declared) h in
    let c' =
      subst (λ (d : ConsumerConfig). contains k (names d) ≡ true) (drift-step j v declared current)
        c in
    rw (drift-step j v declared current) (elim (Bool-cases (same_value (get_value j current) v)) [
      | inl t ↦
          let later = rw t at c' in
          rw t (elim (Bool-cases (same_text j k)) [
            | inl q ↦
                let alone = first_only j k (names declared) h q in
                let none_left = drift-contains k declared current tail in
                ground (arith, alone, none_left, later)
            | inr q ↦ rw q (drift-value k declared current tail later)
          ])
      | inr f ↦
          let later = rw f at c' in
          rw f (elim (Bool-cases (same_text j k)) [
            | inl q ↦ rw q refl
            | inr q ↦ rw q (drift-value k declared current tail (rw q at later))
          ])
    ])

-- The value of a field of the evolved configuration.
evolved :
    (k : Text) (declared current : ConsumerConfig)
    → distinct (names declared) ≡ true
    → contains k (names current) ≡ true
    → get_value k (evolve (drift_of declared current) current)
      ≡ (if contains k (names declared) then get_value k declared else get_value k current)
evolved k declared current d c =
    let held = drift-contains k declared current d in
    let differs = not (same_value (get_value k current) (get_value k declared)) in
    get_value-evolve k (drift_of declared current) current c
    ∙ elim (Bool-cases (contains k (names (drift_of declared current)))) [
      | inl t ↦
          let both = and-true (contains k (names declared)) differs (sym held ∙ t) in
          rw (t, both.0) (drift-value k declared current d t)
      | inr f ↦ rw f (elim (Bool-cases (contains k (names declared))) [
        | inl t ↦
            let alike =
              not-false (same_value (get_value k current) (get_value k declared))
                (and-false (contains k (names declared)) differs t (sym held ∙ f)) in
            rw t (same_value-eq (get_value k current) (get_value k declared) alike)
        | inr g ↦ rw g refl
      ])
    ]

abbrev pub Holds : Broker → ConsumerConfig → ConsumerConfig → Text → Type 0
Holds b declared current k =
    (after : ConsumerConfig) × (b.consumer ≡ some after)
    × (get_value k after
        ≡ (if contains k (names declared) then get_value k declared else get_value k current))

refused :
    (k : Text) (declared current after : ConsumerConfig) (b : Broker)
    → b.refuses ≡ true
    → (write_config after b).0 ≡ ok tt
    → Holds (write_config after b).1 declared current k
refused k declared current after b t r = let e = rw t at r in cc

updated :
    (k : Text) (declared current drift : ConsumerConfig) (b : Broker)
    → drift ≡ drift_of declared current
    → distinct (names declared) ≡ true
    → contains k (names current) ≡ true
    → b.consumer ≡ some current
    → (update_consumer drift current b).0 ≡ ok tt
    → Holds (update_consumer drift current b).1 declared current k
unfolding contains
updated k declared current [] b e d c h r =
    (current, h, sym (get_value-evolve k [] current c) ∙ rw e (evolved k declared current d c))
updated k declared current (f ∷ drift) b e d c h r = elim (Bool-cases b.refuses) [
  | inl t ↦ refused k declared current (evolve (f ∷ drift) current) b t r
  | inr g ↦ rw g (evolve (f ∷ drift) current, refl, rw e (evolved k declared current d c))
]

-- After a reconciling that returns, an existing durable has the declared value in every field that
-- the configuration sets differently from the defaults, and its old value in every other. The
-- settings name each field once.
pub ensure_consumer_config-Holds :
    (defaults config current : ConsumerConfig) (b : Broker) (k : Text)
    → distinct (names (set_fields defaults config)) ≡ true
    → b.consumer ≡ some current
    → contains k (names current) ≡ true
    → (ensure_consumer_config defaults config b).0 ≡ ok tt
    → Holds (ensure_consumer_config defaults config b).1 (set_fields defaults config) current k
unfolding ensure_consumer_config declared_consumer_fields reconcile
ensure_consumer_config-Holds defaults config current b k d e c h =
    let declared = set_fields defaults config in
    elim (Bool-cases (is_empty (keep (λ (f : Text × Value). not (is_reconciled f)) declared))) [
      | inl t ↦
          rw (t, e)
            (updated k declared current (drift_of declared current) b refl d c e (rw (t, e) at h))
      | inr f ↦ let r = rw f at h in cc
    ]
