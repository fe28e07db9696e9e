-- ===== src/Api/Timeseries/Pieces.antt =====
-- `_pieces` (api/simulation/timeseries_reader.py): a JSON document, read in chunks, split into its
-- strings and what lies between them. `chunk[position:]` is carried instead of `position`.
pub mod Reference
pub mod Chunks
pub mod Lossless
use allocation_key_simulatio.Base.{
  ℕ, zero, suc, List, [], ◌∷◌, ◌++◌, Option, none, some, Bool, true, false, not, ◌==◌, ◌||◌, length,
  is_empty, if◌then◌else◌,
}
use allocation_key_simulatio.Shared.Loading.{Bytes}

-- `(is_string, piece)`
pub record Piece : Type 0 where
  pub is_string : Bool
  pub content : Bytes

-- `string` (from its opening quote) and `escaped`.
pub record Tokenizer : Type 0 where
  pub string : Option Bytes
  pub escaped : Bool

pub record Yielded : Type 0 where
  pub pieces : List Piece
  pub next : Tokenizer

abbrev pub quote : ℕ
quote = b'"'

abbrev pub backslash : ℕ
backslash = b'\\'

-- `_STRING_STOP`
abbrev pub is_stop : ℕ → Bool
is_stop c = c == quote || c == backslash

-- What stands before the first byte that passes the test, and that byte with what follows it.
pub record Found : Type 0 where
  pub before : Bytes
  pub byte : ℕ
  pub after : Bytes

abbrev pub further : ℕ → Option Found → Option Found
further c none = none
further c (some f) = some (record f { before = c ∷ f.before })

-- `bytes.find` and `Pattern.search`, from `position`.
unfoldable pub find : (ℕ → Bool) → Bytes → Option Found
find p [] = none
find p (c ∷ rest) =
    let later = find p rest in
    if p c then some (record { before = []; byte = c; after = rest }) else further c later

abbrev pub is_quote : ℕ → Bool
is_quote c = c == quote

abbrev pub emit : List Piece → Yielded → Yielded
emit ps y = record y { pieces = ps ++ y.pieces }

abbrev pub run_piece : Bytes → List Piece
run_piece [] = []
run_piece (c ∷ run) = record { is_string = false; content = c ∷ run } ∷ []

abbrev pub outside : Tokenizer
outside = record { string = none; escaped = false }

-- `string is None`: up to the next quote.
abbrev pub between : (Bytes → Tokenizer → Yielded) → Bytes → Option Found → Bool → Yielded
between loop chunk none escaped = record {
  pieces = run_piece chunk;
  next = record { string = none; escaped = escaped };
}
between loop chunk (some f) escaped =
    emit (run_piece f.before)
      (loop f.after (record { string = some (quote ∷ []); escaped = escaped }))

-- Inside a string: up to the next quote or backslash.
abbrev pub within : (Bytes → Tokenizer → Yielded) → Bytes → Bytes → Option Found → Yielded
within loop string chunk none = record {
  pieces = [];
  next = record { string = some (string ++ chunk); escaped = false };
}
within loop string chunk (some f) =
    let token = string ++ f.before ++ f.byte ∷ [] in
    let escapes = f.byte == backslash in
    let y =
      loop f.after (if escapes then record { string = some token; escaped = true } else outside) in
    if escapes then y else emit (record { is_string = true; content = token } ∷ []) y

-- The body of `while position < size`; `loop` is the rest of the loop.
unfoldable pub turn : (Bytes → Tokenizer → Yielded) → Bytes → Tokenizer → Yielded
unfolding find
turn loop [] t = record { pieces = []; next = t }
turn loop (c ∷ rest) t = elim t.string [
  | none ↦ between loop (c ∷ rest) (find is_quote (c ∷ rest)) t.escaped
  | some s ↦ elim t.escaped [
    | true ↦ loop rest (record { string = some (s ++ c ∷ []); escaped = false })
    | false ↦ within loop s (c ∷ rest) (find is_stop (c ∷ rest))
  ]
]

-- Every turn moves on by a byte at least, so the chunk's length is enough fuel.
unfoldable pub chunk_pieces : ℕ → Bytes → Tokenizer → Yielded
unfolding turn
chunk_pieces zero chunk t = record { pieces = []; next = t }
chunk_pieces (suc fuel) chunk t = turn (chunk_pieces fuel) chunk t

unfoldable pub all_pieces : List Bytes → Tokenizer → Yielded
unfolding chunk_pieces
all_pieces [] t = record { pieces = []; next = t }
all_pieces (chunk ∷ chunks) t =
    let y = chunk_pieces (length chunk) chunk t in emit y.pieces (all_pieces chunks y.next)

abbrev pub is_inside : Tokenizer → Bool
is_inside t = elim t.string [ none ↦ false | some s ↦ true ]

-- What the generator yields, and whether it then raises the ValueError of an unfinished string.
pub record Stream : Type 0 where
  pub yielded : List Piece
  pub raised : Bool

unfoldable pub pieces : List Bytes → Stream
unfolding all_pieces
pieces chunks =
    let y = all_pieces chunks outside in record { yielded = y.pieces; raised = is_inside y.next }
