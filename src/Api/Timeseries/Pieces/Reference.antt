-- ===== src/Api/Timeseries/Pieces/Reference.antt =====
-- A tokenizer of the whole document, byte by byte, against which `_pieces` is compared.
use allocation_key_simulatio.Base.{
  ℕ, ◌≡◌, refl, ap, sym, List, [], ◌∷◌, ◌++◌, append_assoc, append-nil, ◌∙◌, Bool-cases, inl, inr,
  Option, none, some, Bool, true, false, ◌==◌, ◌||◌, if◌then◌else◌,
}
use allocation_key_simulatio.Shared.Loading.{Bytes}
use allocation_key_simulatio.Api.Timeseries.Pieces.{
  Piece, Tokenizer, Yielded, Found, quote, backslash, is_quote, is_stop, find, further, outside,
}

or-false : (a b : Bool) → (a || b) ≡ false → (a ≡ false) × (b ≡ false)
or-false false b h = (refl, h)
or-false true b h = cc

or-left : (a b : Bool) → (a || b) ≡ true → b ≡ false → a ≡ true
or-left true b h e = refl
or-left false b h e = cc

-- A string token, or one byte between two strings.
pub data Symbol : Type 0 where
  token : Bytes → Symbol
  byte : ℕ → Symbol

pub record Scanned : Type 0 where
  pub symbols : List Symbol
  pub next : Tokenizer

abbrev pub prepend : List Symbol → Scanned → Scanned
prepend xs s = record s { symbols = xs ++ s.symbols }

unfoldable pub step : ℕ → Tokenizer → Scanned
step c t = elim t.string [
  | none ↦
      if c == quote
      then record {
        symbols = [];
        next = record { string = some (quote ∷ []); escaped = t.escaped };
      }
      else record { symbols = byte c ∷ []; next = record { string = none; escaped = t.escaped } }
  | some s ↦
      let longer = s ++ c ∷ [] in
      if t.escaped
      then record { symbols = []; next = record { string = some longer; escaped = false } }
      else if c == backslash
      then record { symbols = []; next = record { string = some longer; escaped = true } }
      else if c == quote
      then record { symbols = token longer ∷ []; next = outside }
      else record { symbols = []; next = record { string = some longer; escaped = false } }
]

unfoldable pub scan : Bytes → Tokenizer → Scanned
unfolding step
scan [] t = record { symbols = []; next = t }
scan (c ∷ rest) t = let s = step c t in prepend s.symbols (scan rest s.next)

unfoldable pub bytes : Bytes → List Symbol
bytes [] = []
bytes (c ∷ run) = byte c ∷ bytes run

unfoldable pub symbols_of : List Piece → List Symbol
unfolding bytes
symbols_of [] = []
symbols_of (p ∷ ps) =
    (if p.is_string then token p.content ∷ [] else bytes p.content) ++ symbols_of ps

unfoldable pub view : Yielded → Scanned
unfolding symbols_of
view y = record { symbols = symbols_of y.pieces; next = y.next }

unfoldable pub jumped : Option Found → Bytes → Bool → Scanned
jumped none chunk e = record { symbols = bytes chunk; next = record { string = none; escaped = e } }
jumped (some f) chunk e =
    prepend (bytes f.before) (scan f.after (record { string = some (quote ∷ []); escaped = e }))

jumped-further :
    (o : Option Found) (c : ℕ) (rest : Bytes) (e : Bool)
    → jumped (further c o) (c ∷ rest) e ≡ prepend (byte c ∷ []) (jumped o rest e)
unfolding jumped bytes
jumped-further none c rest e = refl
jumped-further (some f) c rest e = refl

-- Up to the next quote.
pub scan-jumped :
    (chunk : Bytes) (e : Bool)
    → scan chunk (record { string = none; escaped = e }) ≡ jumped (find is_quote chunk) chunk e
unfolding scan step find
scan-jumped [] e = unfold jumped bytes in refl
scan-jumped (c ∷ rest) e = elim (Bool-cases (is_quote c)) [
  | inl q ↦ rw q (unfold jumped bytes in refl)
  | inr q ↦ rw q (
      ap (prepend (byte c ∷ [])) (scan-jumped rest e)
      ∙ sym (jumped-further (find is_quote rest) c rest e))
]

unfoldable pub halted : Option Found → Bytes → Bytes → Scanned
halted none s chunk = record {
  symbols = [];
  next = record { string = some (s ++ chunk); escaped = false };
}
halted (some f) s chunk =
    scan (f.byte ∷ f.after) (record { string = some (s ++ f.before); escaped = false })

halted-further :
    (o : Option Found) (c : ℕ) (s rest : Bytes)
    → halted (further c o) s (c ∷ rest) ≡ halted o (s ++ c ∷ []) rest
unfolding halted
halted-further none c s rest = rw (append_assoc s (c ∷ []) rest) refl
halted-further (some f) c s rest = rw (append_assoc s (c ∷ []) f.before) refl

scan-inside :
    (c : ℕ) (rest s : Bytes)
    → is_stop c ≡ false
    → scan (c ∷ rest) (record { string = some s; escaped = false })
      ≡ scan rest (record { string = some (s ++ c ∷ []); escaped = false })
unfolding scan step
scan-inside c rest s h =
    let ends = or-false (c == quote) (c == backslash) h in rw (ends.0, ends.1) refl

pub scan-backslash :
    (c : ℕ) (rest s : Bytes)
    → c == backslash ≡ true
    → scan (c ∷ rest) (record { string = some s; escaped = false })
      ≡ scan rest (record { string = some (s ++ c ∷ []); escaped = true })
unfolding scan step
scan-backslash c rest s h = rw h refl

pub scan-quote :
    (c : ℕ) (rest s : Bytes)
    → c == backslash ≡ false
    → is_stop c ≡ true
    → scan (c ∷ rest) (record { string = some s; escaped = false })
      ≡ prepend (token (s ++ c ∷ []) ∷ []) (scan rest outside)
unfolding scan step
scan-quote c rest s b h = rw (b, or-left (c == quote) (c == backslash) h b) refl

-- Inside a string, up to the next quote or backslash.
pub scan-halted :
    (chunk s : Bytes)
    → scan chunk (record { string = some s; escaped = false }) ≡ halted (find is_stop chunk) s chunk
unfolding find
scan-halted [] s = unfold halted scan in rw (append-nil s) refl
scan-halted (c ∷ rest) s = elim (Bool-cases (is_stop c)) [
  | inl q ↦ rw q (unfold halted in rw (append-nil s) refl)
  | inr q ↦ rw q (
      scan-inside c rest s q
      ∙ scan-halted rest (s ++ c ∷ [])
      ∙ sym (halted-further (find is_stop rest) c s rest))
]
