-- ===== src/Api/Timeseries/Response/Rewritten.antt =====
-- The response against a rewriting of the document's tokens that knows no chunks.
use allocation_key_simulatio.Base.{
  ℕ, ◌≡◌, ◌⊎◌, refl, ap, sym, ◌∙◌, List, [], ◌∷◌, ◌++◌, append_assoc, append-nil, join, true, false,
  length, leb, if◌then◌else◌, inl, inr, Bool-cases,
}
use allocation_key_simulatio.Shared.Loading.{Bytes}
use allocation_key_simulatio.Api.Timeseries.Pieces.{Piece, outside, pieces, is_inside}
use allocation_key_simulatio.Api.Timeseries.Pieces.Reference.{
  Symbol, token, byte, scan, bytes, symbols_of,
}
use allocation_key_simulatio.Api.Timeseries.Pieces.Chunks.{pieces-scan}
use allocation_key_simulatio.Api.Timeseries.Response.{
  nulls, is_non_finite, extend, cut, Passing, take_piece, flush, flush_bytes, pass, as_api_response,
  response_prefix, response_suffix,
}
use allocation_key_simulatio.Api.Timeseries.Response.Replacing.{nulls-split, nulls-nil}

-- The tokens with every run between two strings rewritten as a whole; `run` is the run so far.
unfoldable pub rewritten : Bytes → List Symbol → Bytes
rewritten run [] = nulls run
rewritten run (byte c ∷ rest) = rewritten (run ++ c ∷ []) rest
rewritten run (token s ∷ rest) = nulls run ++ s ++ rewritten [] rest

rewritten-append :
    (c : ℕ) (run held : Bytes) (rest : List Symbol)
    → is_non_finite c ≡ false
    → rewritten (run ++ c ∷ held) rest ≡ nulls (run ++ c ∷ []) ++ rewritten held rest
unfolding rewritten
rewritten-append c run held [] h = nulls-split c run held h
rewritten-append c run held (byte d ∷ rest) h =
    rw (append_assoc run (c ∷ held) (d ∷ [])) (rewritten-append c run (held ++ d ∷ []) rest h)
rewritten-append c run held (token s ∷ rest) h =
    rw
      (
        nulls-split c run held h,
        append_assoc (nulls (run ++ c ∷ [])) (nulls held) s,
        append_assoc (nulls (run ++ c ∷ [])) (nulls held ++ s) (rewritten [] rest),
      )
      refl

extend-append :
    (c : ℕ) (front kept : Bytes)
    → (extend c front kept).front ++ (extend c front kept).kept ≡ c ∷ (front ++ kept)
unfolding extend
extend-append c [] kept = elim (Bool-cases (is_non_finite c)) [
  | inl q ↦ rw q refl
  | inr q ↦ rw q refl
]
extend-append c (d ∷ front) kept = refl

cut-append : (run : Bytes) → (cut run).front ++ (cut run).kept ≡ run
unfolding cut
cut-append [] = refl
cut-append (c ∷ run) =
    let rest = cut run in
    extend-append c rest.front rest.kept ∙ ap (λ (r : Bytes). c ∷ r) (cut-append run)

-- Empty, or with a last byte that is in no token.
abbrev IsClosed : Bytes → Type 0
IsClosed front =
    (front ≡ []) ⊎ ((a : Bytes) × (c : ℕ) × (front ≡ a ++ c ∷ []) × (is_non_finite c ≡ false))

extend-IsClosed :
    (c : ℕ) (front kept : Bytes) → IsClosed front → IsClosed (extend c front kept).front
unfolding extend
extend-IsClosed c [] kept i = elim (Bool-cases (is_non_finite c)) [
  | inl q ↦ rw q (inl refl)
  | inr q ↦ rw q (inr ([], c, refl, q))
]
extend-IsClosed c (d ∷ front) kept (inl e) = inl (cc)
extend-IsClosed c (d ∷ front) kept (inr (a, b, e, h)) =
    inr (c ∷ a, b, ap (λ (r : Bytes). c ∷ r) e, h)

cut-IsClosed : (run : Bytes) → IsClosed (cut run).front
unfolding cut
cut-IsClosed [] = inl refl
cut-IsClosed (c ∷ run) = extend-IsClosed c (cut run).front (cut run).kept (cut-IsClosed run)

rewritten-IsClosed :
    (front kept : Bytes) (rest : List Symbol)
    → IsClosed front
    → rewritten (front ++ kept) rest ≡ nulls front ++ rewritten kept rest
rewritten-IsClosed front kept rest (inl e) = rw (e, nulls-nil) refl
rewritten-IsClosed front kept rest (inr (a, c, e, h)) =
    rw (e, append_assoc a (c ∷ []) kept) (rewritten-append c a kept rest h)

rewritten-cut :
    (run : Bytes) (rest : List Symbol)
    → rewritten run rest ≡ nulls (cut run).front ++ rewritten (cut run).kept rest
rewritten-cut run rest =
    ap (λ (r : Bytes). rewritten r rest) (sym (cut-append run))
    ∙ rewritten-IsClosed (cut run).front (cut run).kept rest (cut-IsClosed run)

rewritten-bytes :
    (run piece : Bytes) (rest : List Symbol)
    → rewritten run (bytes piece ++ rest) ≡ rewritten (run ++ piece) rest
unfolding rewritten bytes
rewritten-bytes run [] rest = rw (append-nil run) refl
rewritten-bytes run (c ∷ piece) rest =
    rw (rewritten-bytes (run ++ c ∷ []) piece rest, append_assoc run (c ∷ []) piece) refl

join-append : (xs ys : List Bytes) → join (xs ++ ys) ≡ join xs ++ join ys
join-append [] ys = refl
join-append (x ∷ xs) ys = rw (join-append xs ys, append_assoc x (join xs) (join ys)) refl

abbrev value : Passing → List Symbol → Bytes
value p rest = join p.blocks ++ p.out ++ rewritten p.held rest

value-flush : (p : Passing) (rest : List Symbol) → value (flush p) rest ≡ value p rest
unfolding flush
value-flush p rest = elim (Bool-cases (leb flush_bytes (length p.out))) [
  | inl q ↦
      rw
        (
          q,
          join-append p.blocks (p.out ∷ []),
          append-nil p.out,
          append-nil (join p.blocks ++ p.out),
        )
        refl
  | inr q ↦ rw q refl
]

value-string :
    (p : Passing) (content : Bytes) (rest : List Symbol)
    → value (take_piece p (record { is_string = true; content = content })) rest
      ≡ value p (token content ∷ rest)
unfolding take_piece rewritten
value-string p content rest = simp append_assoc

value-run :
    (p : Passing) (content : Bytes) (rest : List Symbol)
    → value (take_piece p (record { is_string = false; content = content })) rest
      ≡ value p (bytes content ++ rest)
unfolding take_piece
value-run p content rest =
    let c = cut (p.held ++ content) in
    rw (rewritten-bytes p.held content rest, rewritten-cut (p.held ++ content) rest)
      (simp append_assoc)

value-take_piece :
    (p : Passing) (piece : Piece) (rest : List Symbol)
    → value (take_piece p piece) rest
      ≡ value p
          ((if piece.is_string then token piece.content ∷ [] else bytes piece.content) ++ rest)
value-take_piece p piece rest = elim (Bool-cases piece.is_string) [
  | inl q ↦ rw q (value-string p piece.content rest)
  | inr q ↦ rw q (value-run p piece.content rest)
]

value-pass : (ps : List Piece) (p : Passing) → value (pass ps p) [] ≡ value p (symbols_of ps)
unfolding pass symbols_of
value-pass [] p = refl
value-pass (piece ∷ ps) p =
    value-pass ps (flush (take_piece p piece))
    ∙ value-flush (take_piece p piece) (symbols_of ps)
    ∙ value-take_piece p piece (symbols_of ps)

assembled :
    (blocks out held suffix : Bytes)
    → blocks ++ join ((out ++ held ++ suffix) ∷ []) ≡ (blocks ++ out ++ held) ++ suffix
assembled blocks out held suffix = rw (append-nil (out ++ held ++ suffix)) (simp append_assoc)

-- A stored document that does not end inside a string is served as the envelope's prefix, the
-- document with `-Infinity`, `Infinity` and `NaN` replaced by `null` between its strings and
-- nowhere else, and the envelope's suffix, however storage cuts the document into chunks: also
-- where a cut falls inside one of the replaced words. The generator does not raise then.
pub as_api_response-rewritten :
    (chunks : List Bytes)
    → is_inside (scan (join chunks) outside).next ≡ false
    → (join (as_api_response chunks).blocks
        ≡ response_prefix ++ rewritten [] (scan (join chunks) outside).symbols ++ response_suffix)
      × ((as_api_response chunks).raised ≡ false)
unfolding as_api_response rewritten
as_api_response-rewritten chunks h =
    let same = pieces-scan chunks in
    let start : Passing = record { blocks = []; out = response_prefix; held = [] } in
    let p = pass (pieces chunks).yielded start in
    rw (same.1, h)
      (
        join-append p.blocks _
            ∙ assembled (join p.blocks) p.out (nulls p.held) response_suffix
            ∙ ap (λ (r : Bytes). r ++ response_suffix)
                (value-pass (pieces chunks).yielded start
                  ∙ ap (λ (xs : List Symbol). response_prefix ++ rewritten [] xs) same.0),
        refl,
      )
