-- ===== src/Api/Timeseries/Response.antt =====
-- `as_api_response` (api/simulation/timeseries_reader.py): the stored document passed through as
-- the `data` of an ApiResponse, its non-finite numbers replaced by `null`.
pub mod Replacing
pub mod Rewritten
use allocation_key_simulatio.Base.{
  ℕ, zero, suc, ◌-◌, ◌*◌, List, [], ◌∷◌, ◌++◌, Bool, true, false, not, ◌==◌, ◌&&◌, ◌||◌, length,
  leb, codes, Text, any, if◌then◌else◌,
}
use allocation_key_simulatio.Shared.Loading.{Bytes}
use allocation_key_simulatio.Api.Timeseries.Pieces.{Piece, Stream, pieces}

unfoldable pub starts_with : Bytes → Bytes → Bool
starts_with [] run = true
starts_with (x ∷ xs) [] = false
starts_with (x ∷ xs) (c ∷ run) = x == c && starts_with xs run

-- `run.replace(token, with)` from the left; the number counts the bytes of an occurrence that is
-- being replaced and still stands in front.
unfoldable pub replace_from : Bytes → Bytes → ℕ → Bytes → Bytes
unfolding starts_with
replace_from token by skip [] = []
replace_from token by (suc skip) (c ∷ run) = replace_from token by skip run
replace_from token by zero (c ∷ run) =
    let here = starts_with token (c ∷ run) in
    let rest = replace_from token by (if here then length token - 1 else 0) run in
    if here then by ++ rest else c ∷ rest

unfoldable pub replace : Bytes → Bytes → Bytes → Bytes
unfolding replace_from
replace token by run = replace_from token by zero run

abbrev pub null : Bytes
null = codes "null"

-- `_NON_FINITE`
abbrev pub non_finite : List Bytes
non_finite = codes "-Infinity" ∷ codes "Infinity" ∷ codes "NaN" ∷ []

abbrev pub replace_all : List Bytes → Bytes → Bytes
replace_all [] run = run
replace_all (token ∷ tokens) run = replace_all tokens (replace token null run)

unfoldable pub nulls : Bytes → Bytes
unfolding replace
nulls run = replace_all non_finite run

-- `_NON_FINITE_BYTES`
unfoldable pub is_non_finite : ℕ → Bool
is_non_finite c = any (λ token. any (λ d. c == d) token) non_finite

-- Where a run is cut: what is rewritten now, and the letters kept back.
pub record Cut : Type 0 where
  pub front : Bytes
  pub kept : Bytes

unfoldable pub extend : ℕ → Bytes → Bytes → Cut
extend c [] kept =
    if is_non_finite c
    then record { front = []; kept = c ∷ kept }
    else record { front = c ∷ []; kept = kept }
extend c (d ∷ front) kept = record { front = c ∷ d ∷ front; kept = kept }

-- `cut` walks back over the letters that the run ends with.
unfoldable pub cut : Bytes → Cut
unfolding extend
cut [] = record { front = []; kept = [] }
cut (c ∷ run) = let rest = cut run in extend c rest.front rest.kept

abbrev pub response_prefix : Bytes
response_prefix = codes "{\"data\": "

abbrev pub response_suffix : Bytes
response_suffix = codes ", \"error_code\": 0}"

-- `_FLUSH_BYTES`
unfoldable pub flush_bytes : ℕ
flush_bytes = 1024 * 1024

-- `out`, `held`, and what was yielded so far.
pub record Passing : Type 0 where
  pub blocks : List Bytes
  pub out : Bytes
  pub held : Bytes

unfoldable pub take_piece : Passing → Piece → Passing
take_piece p piece = elim piece.is_string [
  | true ↦ record p { out = p.out ++ nulls p.held ++ piece.content; held = [] }
  | false ↦
      let c = cut (p.held ++ piece.content) in
      record p { out = p.out ++ nulls c.front; held = c.kept }
]

unfoldable pub flush : Passing → Passing
flush p =
    if leb flush_bytes (length p.out)
    then record p { blocks = p.blocks ++ p.out ∷ []; out = [] }
    else p

unfoldable pub pass : List Piece → Passing → Passing
pass [] p = p
pass (piece ∷ rest) p = pass rest (flush (take_piece p piece))

-- What the generator yields, and whether it then raises what `_pieces` raised.
pub record Response : Type 0 where
  pub blocks : List Bytes
  pub raised : Bool

unfoldable pub as_api_response : List Bytes → Response
as_api_response chunks =
    let s = pieces chunks in
    let p = pass s.yielded (record { blocks = []; out = response_prefix; held = [] }) in
    if s.raised then record { blocks = p.blocks; raised = true } else record {
      blocks = p.blocks ++ (p.out ++ nulls p.held ++ response_suffix) ∷ [];
      raised = false;
    }
