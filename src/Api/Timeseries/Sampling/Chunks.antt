-- ===== src/Api/Timeseries/Sampling/Chunks.antt =====
-- A chart's series do not depend on how storage cuts the document.
use allocation_key_simulatio.Base.{
  ℕ, ◌+◌, suc, ◌≡◌, refl, sym, ap, ◌∙◌, Text, List, [], ◌∷◌, ◌++◌, append-nil, append_assoc, join,
  Option, none, some, ◌==◌, Bool-cases, inl, inr, Result, ok, raised, ◌>>=◌,
}
use allocation_key_simulatio.Shared.Loading.{Bytes}
use allocation_key_simulatio.Api.Timeseries.Pieces.{Piece, pieces}
use allocation_key_simulatio.Api.Timeseries.Pieces.Reference.{
  Symbol, token, byte, bytes, symbols_of,
}
use allocation_key_simulatio.Api.Timeseries.Pieces.Chunks.{pieces-scan}
use allocation_key_simulatio.Api.Timeseries.Sampling.{
  Decoder, ReadError, Reader, collect, brace, braces, run, string, read_piece, read_pieces, start,
  read_iterations,
}

bind_same :
    {A B : Type 0} (s : Result ReadError A) (f g : A → Result ReadError B)
    → ((x : A) → f x ≡ g x)
    → (s >>= f) ≡ (s >>= g)
bind_same (ok x) f g h = h x
bind_same (raised e) f g h = refl

module _ {N : Type 0} (d : Decoder N) (max_points : ℕ) where
  brace-collect :
      (c : ℕ) (m : Option Text) (text : Bytes) (r : Reader N)
      → brace d max_points c (collect d max_points m text r)
        ≡ collect d max_points m text (brace d max_points c r)
  unfolding brace
  brace-collect c none text r = refl
  brace-collect c (some name) text r = elim (Bool-cases (c == b'{')) [
    | inl q ↦ elim (Bool-cases (suc r.opened == r.closed + 2)) [
      | inl t ↦ rw (q, t) refl
      | inr t ↦ rw (q, t) refl
    ]
    | inr q ↦ elim (Bool-cases (c == b'}')) [ inl t ↦ rw (q, t) refl | inr t ↦ rw (q, t) refl ]
  ]

  brace-member : (c : ℕ) (r : Reader N) → (brace d max_points c r).member ≡ r.member
  unfolding brace
  brace-member c r = elim (Bool-cases (c == b'{')) [
    | inl q ↦ elim (Bool-cases (suc r.opened == r.closed + 2)) [
      | inl t ↦ rw (q, t) refl
      | inr t ↦ rw (q, t) refl
    ]
    | inr q ↦ elim (Bool-cases (c == b'}')) [ inl t ↦ rw (q, t) refl | inr t ↦ rw (q, t) refl ]
  ]

  collect-append :
      (m : Option Text) (front back : Bytes) (r : Reader N)
      → collect d max_points m (front ++ back) r
        ≡ collect d max_points m back (collect d max_points m front r)
  collect-append none front back r = refl
  collect-append (some name) front back r = rw (append_assoc r.value front back) refl

  collect-member :
      (m : Option Text) (text : Bytes) (r : Reader N)
      → (collect d max_points m text r).member ≡ r.member
  collect-member none text r = refl
  collect-member (some name) text r = refl

  collect-nil : (m : Option Text) (r : Reader N) → collect d max_points m [] r ≡ r
  collect-nil none r = refl
  collect-nil (some name) r = rw (append-nil r.value) refl

  -- A run is read byte by byte.
  run-cons :
      (c : ℕ) (text : Bytes) (r : Reader N)
      → run d max_points (c ∷ text) r ≡ run d max_points text (run d max_points (c ∷ []) r)
  unfolding run braces
  run-cons c text r =
      let one = collect d max_points r.member (c ∷ []) r in
      let m = r.member in
      ap (λ (x : Reader N). braces d max_points text (brace d max_points c x))
        (collect-append m (c ∷ []) text r)
      ∙ ap (braces d max_points text) (brace-collect c m text one)
      ∙ ap
          (λ (k : Option Text).
            braces d max_points text (collect d max_points k text (brace d max_points c one)))
          (sym (brace-member c one ∙ collect-member m (c ∷ []) r))

  -- The reader over the symbols of the reference.
  unfoldable read_symbols : List Symbol → Reader N → Result ReadError (Reader N)
  read_symbols [] r = ok r
  read_symbols (token t ∷ rest) r = do r' ← string d max_points t r; read_symbols rest r'
  read_symbols (byte c ∷ rest) r = read_symbols rest (run d max_points (c ∷ []) r)

  read_symbols-bytes :
      (text : Bytes) (rest : List Symbol) (r : Reader N)
      → read_symbols (bytes text ++ rest) r ≡ read_symbols rest (run d max_points text r)
  unfolding read_symbols bytes
  read_symbols-bytes [] rest r =
      ap (read_symbols rest) (sym (unfold run braces in collect-nil r.member r))
  read_symbols-bytes (c ∷ text) rest r =
      read_symbols-bytes text rest (run d max_points (c ∷ []) r)
      ∙ ap (read_symbols rest) (sym (run-cons c text r))

  read_pieces-symbols :
      (ps : List Piece) (r : Reader N)
      → read_pieces d max_points ps r ≡ read_symbols (symbols_of ps) r
  unfolding read_pieces read_piece symbols_of read_symbols
  read_pieces-symbols [] r = refl
  read_pieces-symbols (p ∷ ps) r = elim (Bool-cases p.is_string) [
    | inl q ↦
        rw q (bind_same (string d max_points p.content r) _ _ (λ r'. read_pieces-symbols ps r'))
    | inr q ↦ rw q (
        read_pieces-symbols ps (run d max_points p.content r)
        ∙ sym (read_symbols-bytes p.content (symbols_of ps) r))
  ]

  -- However storage cuts a document into chunks, a chart gets the same iterations and stride of it,
  -- or the same error.
  pub read_iterations-chunks :
      (chunks others : List Bytes)
      → join chunks ≡ join others
      → read_iterations d max_points chunks ≡ read_iterations d max_points others
  unfolding read_iterations
  read_iterations-chunks chunks others h =
      rw
        (
          read_pieces-symbols (pieces chunks).yielded (start d max_points),
          read_pieces-symbols (pieces others).yielded (start d max_points),
          (pieces-scan chunks).0,
          (pieces-scan chunks).1,
          (pieces-scan others).0,
          (pieces-scan others).1,
          h,
        )
        refl
