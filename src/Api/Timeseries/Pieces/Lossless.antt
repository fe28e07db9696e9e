-- ===== src/Api/Timeseries/Pieces/Lossless.antt =====
-- Nothing of the document is lost or added by splitting it.
use allocation_key_simulatio.Base.{
  ℕ, ◌≡◌, refl, ap, sym, ◌∙◌, List, [], ◌∷◌, ◌++◌, append_assoc, append-nil, map, join, Option,
  none, some, Bool, true, false, ◌==◌, if◌then◌else◌, inl, inr, Bool-cases, Option-cases, arith,
  ==_iff,
}
use allocation_key_simulatio.Shared.Loading.{Bytes}
use allocation_key_simulatio.Api.Timeseries.Pieces.{
  Piece, Tokenizer, quote, backslash, outside, pieces, is_inside,
}
use allocation_key_simulatio.Api.Timeseries.Pieces.Reference.{
  Symbol, token, byte, step, scan, bytes, symbols_of,
}
use allocation_key_simulatio.Api.Timeseries.Pieces.Chunks.{pieces-scan}

abbrev text_of : Symbol → Bytes
text_of (token s) = s
text_of (byte c) = c ∷ []

abbrev text : List Symbol → Bytes
text [] = []
text (x ∷ xs) = text_of x ++ text xs

abbrev pending : Option Bytes → Bytes
pending none = []
pending (some s) = s

text-append : (xs ys : List Symbol) → text (xs ++ ys) ≡ text xs ++ text ys
text-append [] ys = refl
text-append (x ∷ xs) ys = rw (text-append xs ys, append_assoc (text_of x) (text xs) (text ys)) refl

-- A byte goes to the symbols or to the string being read.
step-text :
    (c : ℕ) (o : Option Bytes) (e : Bool)
    → text (step c (record { string = o; escaped = e })).symbols
        ++ pending (step c (record { string = o; escaped = e })).next.string
      ≡ pending o ++ c ∷ []
unfolding step
step-text c none e = elim (Bool-cases (c == quote)) [
  | inl q ↦ rw q (ap (λ (d : ℕ). d ∷ []) (sym ((==_iff c quote).0 q)))
  | inr q ↦ rw q refl
]
step-text c (some s) true = refl
step-text c (some s) false = elim (Bool-cases (c == backslash)) [
  | inl b ↦ rw b refl
  | inr b ↦ elim (Bool-cases (c == quote)) [
    | inl q ↦ rw (b, q) (rw (append-nil (s ++ c ∷ []), append-nil (s ++ c ∷ [])) refl)
    | inr q ↦ rw (b, q) refl
  ]
]

scan-text :
    (doc : Bytes) (t : Tokenizer)
    → text (scan doc t).symbols ++ pending (scan doc t).next.string ≡ pending t.string ++ doc
unfolding scan
scan-text [] t = sym (append-nil (pending t.string))
scan-text (c ∷ rest) t =
    let s = step c t in
    let r = scan rest s.next in
    rw
      (
        text-append s.symbols r.symbols,
        append_assoc (text s.symbols) (text r.symbols) (pending r.next.string),
        scan-text rest s.next,
        sym (append_assoc (text s.symbols) (pending s.next.string) rest),
        step-text c t.string t.escaped,
        append_assoc (pending t.string) (c ∷ []) rest,
      )
      refl

text-bytes : (run : Bytes) → text (bytes run) ≡ run
unfolding bytes
text-bytes [] = refl
text-bytes (c ∷ run) = ap (λ (r : Bytes). c ∷ r) (text-bytes run)

piece-text : (b : Bool) (run : Bytes) → text (if b then token run ∷ [] else bytes run) ≡ run
piece-text true run = append-nil run
piece-text false run = text-bytes run

text-symbols_of :
    (ps : List Piece) → text (symbols_of ps) ≡ join (map (λ (p : Piece). p.content) ps)
unfolding symbols_of
text-symbols_of [] = refl
text-symbols_of (p ∷ ps) =
    text-append (if p.is_string then token p.content ∷ [] else bytes p.content) (symbols_of ps)
    ∙ rw (text-symbols_of ps, piece-text p.is_string p.content) refl

pending_of_outside : (t : Tokenizer) → is_inside t ≡ false → pending t.string ≡ []
pending_of_outside t h = elim (Option-cases t.string) [
  | inl n ↦ rw n refl
  | inr (s, n) ↦ ground (arith, n)
]

-- A document that does not end inside a string is the concatenation of the pieces yielded for it.
pub pieces-join :
    (chunks : List Bytes)
    → (pieces chunks).raised ≡ false
    → join (map (λ (p : Piece). p.content) (pieces chunks).yielded) ≡ join chunks
pieces-join chunks h =
    let same = pieces-scan chunks in
    let s = scan (join chunks) outside in
    sym (text-symbols_of (pieces chunks).yielded)
    ∙ rw same.0 (sym (append-nil (text s.symbols)))
    ∙ ap (λ (b : Bytes). text s.symbols ++ b) (sym (pending_of_outside s.next (sym same.1 ∙ h)))
    ∙ scan-text (join chunks) outside
