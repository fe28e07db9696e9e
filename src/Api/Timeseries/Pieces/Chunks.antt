-- ===== src/Api/Timeseries/Pieces/Chunks.antt =====
-- `_pieces` reads the chunks as the reference reads the document that they make up.
use allocation_key_simulatio.Base.{
  ℕ, zero, suc, ◌≡◌, ◌≤◌, refl, ap, sym, List, [], ◌∷◌, ◌++◌, append_assoc, append-nil, ◌∙◌,
  Bool-cases, Option-cases, inl, inr, Option, none, some, Bool, true, false, ◌==◌, length, join,
  if◌then◌else◌, arith,
}
use allocation_key_simulatio.Shared.Loading.{Bytes}
use allocation_key_simulatio.Api.Timeseries.Pieces.{
  Piece, Tokenizer, Yielded, Found, quote, backslash, is_quote, is_stop, find, run_piece, outside,
  between, within, turn, chunk_pieces, all_pieces, pieces, is_inside, emit,
}
use allocation_key_simulatio.Api.Timeseries.Pieces.Reference.{
  Symbol, token, Scanned, prepend, step, scan, bytes, symbols_of, view, jumped, halted, scan-jumped,
  scan-halted, scan-backslash, scan-quote,
}

-- What is found is a byte that passes, with less behind it than there was.
find-is_shorter :
    (p : ℕ → Bool) (chunk : Bytes) (f : Found)
    → find p chunk ≡ some f
    → (p f.byte ≡ true) × (suc (length f.after) ≤ length chunk)
unfolding find
find-is_shorter p [] f e = cc
find-is_shorter p (c ∷ rest) f e = elim (Option-cases (find p rest)) [
  | inl n ↦ ground (arith, n)
  | inr (g, n) ↦ let ih = find-is_shorter p rest g n in ground (arith, n, ih.0, ih.1)
]

prepend_assoc :
    (xs ys : List Symbol) (s : Scanned) → prepend xs (prepend ys s) ≡ prepend (xs ++ ys) s
prepend_assoc xs ys s = rw (append_assoc xs ys s.symbols) refl

symbols_of-append : (ps qs : List Piece) → symbols_of (ps ++ qs) ≡ symbols_of ps ++ symbols_of qs
unfolding symbols_of
symbols_of-append [] qs = refl
symbols_of-append (p ∷ ps) qs =
    rw
      (
        symbols_of-append ps qs,
        append_assoc (if p.is_string then token p.content ∷ [] else bytes p.content) (symbols_of ps)
            (symbols_of qs),
      )
      refl

symbols_of-run_piece : (run : Bytes) → symbols_of (run_piece run) ≡ bytes run
unfolding symbols_of
symbols_of-run_piece [] = refl
symbols_of-run_piece (c ∷ run) = append-nil (bytes (c ∷ run))

view-emit : (ps : List Piece) (y : Yielded) → view (emit ps y) ≡ prepend (symbols_of ps) (view y)
unfolding view
view-emit ps y = rw (symbols_of-append ps y.pieces) refl

module _ (fuel : ℕ) (loop : Bytes → Tokenizer → Yielded)
    (good : (chunk : Bytes) (t : Tokenizer)
      → length chunk ≤ fuel
      → view (loop chunk t) ≡ scan chunk t) where
  between-scan :
      (chunk : Bytes) (o : Option Found) (e : Bool)
      → find is_quote chunk ≡ o
      → length chunk ≤ suc fuel
      → view (between loop chunk o e) ≡ jumped o chunk e
  between-scan chunk none e h l = unfold jumped view in rw (symbols_of-run_piece chunk) refl
  between-scan chunk (some f) e h l =
      let short = find-is_shorter is_quote chunk f h in
      let t : Tokenizer = record { string = some (quote ∷ []); escaped = e } in
      view-emit (run_piece f.before) (loop f.after t)
      ∙ (unfold jumped in
          rw (symbols_of-run_piece f.before, good f.after t (omega (arith, short.1))) refl)

  within-scan :
      (chunk s : Bytes) (o : Option Found)
      → find is_stop chunk ≡ o
      → length chunk ≤ suc fuel
      → view (within loop s chunk o) ≡ halted o s chunk
  within-scan chunk s none h l = unfold halted view symbols_of in refl
  within-scan chunk s (some f) h l =
      let short = find-is_shorter is_stop chunk f h in
      let rest : (t : Tokenizer) → view (loop f.after t) ≡ scan f.after t =
        λ t. good f.after t (omega (arith, short.1)) in
      elim (Bool-cases (f.byte == backslash)) [
        | inl b ↦ unfold halted in rw (b, scan-backslash f.byte f.after (s ++ f.before) b) (rest _)
        | inr b ↦
            unfold halted in
            rw (b, scan-quote f.byte f.after (s ++ f.before) b short.0)
              (unfold view symbols_of in ap (prepend (token _ ∷ [])) (rest outside))
      ]

  turn-scan :
      (chunk : Bytes) (o : Option Bytes) (e : Bool)
      → length chunk ≤ suc fuel
      → view (turn loop chunk (record { string = o; escaped = e }))
        ≡ scan chunk (record { string = o; escaped = e })
  unfolding turn
  turn-scan [] o e l = unfold scan view symbols_of in refl
  turn-scan (c ∷ rest) none e l =
      between-scan (c ∷ rest) _ e refl l ∙ sym (scan-jumped (c ∷ rest) e)
  turn-scan (c ∷ rest) (some s) true l = good rest _ (omega (arith, l)) ∙ (unfold scan step in refl)
  turn-scan (c ∷ rest) (some s) false l =
      within-scan (c ∷ rest) s _ refl l ∙ sym (scan-halted (c ∷ rest) s)

-- One chunk, as the reference reads it, from any state.
chunk_pieces-scan :
    (fuel : ℕ) (chunk : Bytes) (t : Tokenizer)
    → length chunk ≤ fuel
    → view (chunk_pieces fuel chunk t) ≡ scan chunk t
unfolding chunk_pieces
chunk_pieces-scan zero [] t l = unfold scan view symbols_of in refl
chunk_pieces-scan zero (c ∷ rest) t l = absurd (omega (arith, l))
chunk_pieces-scan (suc fuel) chunk t l =
    turn-scan fuel (chunk_pieces fuel) (chunk_pieces-scan fuel) chunk t.string t.escaped l

scan-append :
    (xs ys : Bytes) (t : Tokenizer)
    → scan (xs ++ ys) t ≡ prepend (scan xs t).symbols (scan ys (scan xs t).next)
unfolding scan
scan-append [] ys t = refl
scan-append (c ∷ xs) ys t =
    let s = step c t in
    rw (scan-append xs ys s.next)
      (prepend_assoc s.symbols (scan xs s.next).symbols (scan ys (scan xs s.next).next))

all_pieces-scan :
    (chunks : List Bytes) (t : Tokenizer) → view (all_pieces chunks t) ≡ scan (join chunks) t
unfolding all_pieces
all_pieces-scan [] t = unfold scan view symbols_of in refl
all_pieces-scan (chunk ∷ chunks) t =
    let y = chunk_pieces (length chunk) chunk t in
    let one = chunk_pieces-scan (length chunk) chunk t (omega arith) in
    view-emit y.pieces (all_pieces chunks y.next)
    ∙ rw (all_pieces-scan chunks y.next, scan-append chunk (join chunks) t, sym one)
        (unfold view in refl)

-- Whatever the chunks, the pieces yielded are the tokens that the byte-wise reference finds in the
-- whole document: the same strings, and between them the same bytes in the same order. The
-- generator raises exactly when the document ends inside a string. So how storage cuts the
-- document does not matter.
pub pieces-scan :
    (chunks : List Bytes)
    → (symbols_of (pieces chunks).yielded ≡ (scan (join chunks) outside).symbols)
      × ((pieces chunks).raised ≡ is_inside (scan (join chunks) outside).next)
unfolding pieces view
pieces-scan chunks =
    let e = all_pieces-scan chunks outside in
    (ap (λ (s : Scanned). s.symbols) e, ap (λ (s : Scanned). is_inside s.next) e)
