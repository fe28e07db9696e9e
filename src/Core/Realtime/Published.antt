-- ===== src/Core/Realtime/Published.antt =====
-- What of a hint is published, and to whom.
use allocation_key_simulatio.Base.{
  ℕ, suc, ◌≤◌, ◌≡◌, ◌⊎◌, refl, sym, ap, subst, ◌∙◌, inl, inr, Text, contains, List, [], ◌∷◌, map,
  take, Option, none, some, Bool, true, false, leb, leb→le, le→leb, is_empty, Bool-cases,
  Option-cases,
}
use allocation_key_simulatio.Worker.Json.{Json}
use allocation_key_simulatio.Core.Realtime.{
  Audience, channels, topics, max_envelope_bytes, all_scalar, HintInput, envelope, Envelopes,
  with_ref, build_envelope, publish_all, emit,
}

no_body : (body : Json) → ◌≡◌ {A = Option Json} none (some body) → ⊥
no_body body h = cc

Option-injective : {x y : Json} → ◌≡◌ {A = Option Json} (some x) (some y) → x ≡ y
Option-injective h = cc

module _ (made : Envelopes) where
  publish_all-take :
      (fails : ℕ → Bool) (n : ℕ) (to : List Text) (body : Json)
      → (k : ℕ) × (publish_all made fails n to body ≡ take k (map (λ (c : Text). (c, body)) to))
        × ((((m : ℕ) → fails m ≡ false))
            → publish_all made fails n to body ≡ map (λ (c : Text). (c, body)) to)
  unfolding publish_all
  publish_all-take fails n [] body = (0, refl, λ h. refl)
  publish_all-take fails n (channel ∷ to) body =
      let (k, e, all_of) = publish_all-take fails (suc n) to body in
      elim (Bool-cases (fails n)) [
        | inl t ↦ (0, rw t refl, λ h. let q = h n in cc)
        | inr f ↦ (
          suc k,
          rw f (ap (λ (r : List (Text × Json)). (channel, body) ∷ r) e),
          λ h. rw f (ap (λ (r : List (Text × Json)). (channel, body) ∷ r) (all_of h)),
        )
      ]

  -- An envelope follows the rules.
  pub record IsAllowed (h : HintInput) (body : Json) : Type 0 where
    pub known : contains h.topic topics ≡ true
    pub about : is_empty h.kind ≡ false
    pub flat : all_scalar h.hint ≡ true
    pub bounded : made.byte_length body ≤ max_envelope_bytes
    pub ref_id : Text
    pub named : h.ref_id ≡ some ref_id
    pub made_of : body ≡ envelope h ref_id made.token_hex made.now

  built :
      (h : HintInput) (r : Option Text) (body : Json)
      → contains h.topic topics ≡ true
      → is_empty h.kind ≡ false
      → h.ref_id ≡ r
      → with_ref made h r ≡ some body
      → IsAllowed h body
  built h none body k a n e = cc
  built h (some ref_id) body k a n e = elim (Bool-cases (all_scalar h.hint)) [
    | inl t ↦
        let e' = rw t at e in
        elim (Bool-cases
          (leb (made.byte_length (envelope h ref_id made.token_hex made.now)) max_envelope_bytes)) [
            | inl l ↦
                let same = Option-injective (rw l at e') in
                record {
                  known = k;
                  about = a;
                  flat = t;
                  bounded =
                      subst (λ (x : Json). made.byte_length x ≤ max_envelope_bytes) same
                        (leb→le _ _ l);
                  ref_id = ref_id;
                  named = n;
                  made_of = sym same;
                }
            | inr l ↦ absurd (no_body body (rw l at e'))
          ]
    | inr f ↦ absurd (no_body body (rw f at e))
  ]

  build_envelope-IsAllowed :
      (h : HintInput) (body : Json) → build_envelope made h ≡ some body → IsAllowed h body
  unfolding build_envelope
  build_envelope-IsAllowed h body e = elim (Bool-cases (contains h.topic topics)) [
    | inl t ↦
        let e' = rw t at e in
        elim (Bool-cases (is_empty h.kind)) [
          | inl q ↦ absurd (no_body body (rw q at e'))
          | inr q ↦ built h h.ref_id body t q refl (rw q at e')
        ]
    | inr f ↦ absurd (no_body body (rw f at e))
  ]

  IsAllowed-build_envelope :
      (h : HintInput) (body : Json) → IsAllowed h body → build_envelope made h ≡ some body
  unfolding build_envelope envelope
  IsAllowed-build_envelope h body a =
      rw (a.known, a.about, a.named, a.flat, sym a.made_of, le→leb _ _ a.bounded) refl

-- Whatever the broker does, `emit` publishes one envelope to the first channels of the audience, in
-- order, and to all of them where no publish fails. The envelope is of a known topic, names what it
-- is about, has flat data only, and is of 1024 bytes at most. Nothing is published only where
-- `emit` is disabled or has no address, or the hint has no such envelope, or the publishes fail.
pub emit-IsAllowed :
    (made : Envelopes) (enabled : Bool) (redis_url : Text) (fails : ℕ → Bool) (audience : Audience)
    (h : HintInput)
    → ((emit made enabled redis_url fails audience h ≡ [])
        × (enabled ≡ true → is_empty redis_url ≡ false → (body : Json) → ¬ IsAllowed made h body))
      ⊎ ((body : Json) × IsAllowed made h body
          × (enabled ≡ true)
          × (is_empty redis_url ≡ false)
          × (k : ℕ) × (emit made enabled redis_url fails audience h
              ≡ take k (map (λ (c : Text). (c, body)) (channels audience)))
          × (((m : ℕ) → fails m ≡ false)
              → emit made enabled redis_url fails audience h
                ≡ map (λ (c : Text). (c, body)) (channels audience)))
unfolding emit
emit-IsAllowed made false redis_url fails audience h = inl (refl, λ e u body i. cc)
emit-IsAllowed made true [] fails audience h = inl (refl, λ e u body i. cc)
emit-IsAllowed made true (c ∷ url) fails audience h = elim (Option-cases (build_envelope made h)) [
  | inl n ↦
      inl (rw n refl, λ e u body i. no_body body (sym n ∙ IsAllowed-build_envelope made h body i))
  | inr (body, e) ↦
      let (k, cut, whole) = publish_all-take made fails 0 (channels audience) body in
      inr (
        body,
        build_envelope-IsAllowed made h body e,
        refl,
        refl,
        k,
        rw e cut,
        λ works. rw e (whole works),
      )
]
