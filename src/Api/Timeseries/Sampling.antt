-- ===== src/Api/Timeseries/Sampling.antt =====
-- `_IterationReader` and `read_iterations` (api/simulation/timeseries_reader.py): each iteration's
-- own series, sampled for a chart, from the pieces of a stored document.
pub mod Chunks
pub mod Chart
use allocation_key_simulatio.Base.{
  ℕ, zero, suc, ◌+◌, ◌-◌, Text, codes, same_text, contains, List, [], ◌∷◌, ◌++◌, length, map,
  Option, none, some, Bool, true, false, ◌==◌, ◌||◌, ◌&&◌, leb, is_empty, if◌then◌else◌, ceil_div,
  Result, ok, raised, ◌>>=◌,
}
use allocation_key_simulatio.Shared.Loading.{Bytes}
use allocation_key_simulatio.Api.Timeseries.Pieces.{Piece, pieces}

-- What `raw_decode` reads at the front of a text: an integer, an array of numbers, or another value.
pub data Value (N : Type 0) : Type 0 where
  number : ℕ → Value N
  series : List N → Value N
  other_value : Value N

-- `json.loads` of a string token, `raw_decode` of bytes, `none` where one raises; `math.isfinite`.
pub record Decoder (N : Type 0) : Type 0 where
  pub loads : Bytes → Option Text
  pub raw_decode : Bytes → Option (Value N)
  pub isfinite : N → Bool

pub data ReadError : Type 0 where
  invalid_json invalid_series invalid_iteration unfinished_string : ReadError

-- `_ITERATION_SERIES`
abbrev pub iteration_series_names : List Text
iteration_series_names =
    codes "consumption"
    ∷ codes "energy_allocated"
    ∷ codes "energy_allocated_consumed"
    ∷ codes "residual_volume"
    ∷ codes "surplus"
    ∷ codes "sharing_rate"
    ∷ codes "self_sufficiency_rate"
    ∷ []

-- `bytes.lstrip()`
abbrev pub is_ascii_space : ℕ → Bool
is_ascii_space c = (c == 32) || (leb 9 c && leb c 13)

unfoldable pub lstrip_bytes : Bytes → Bytes
lstrip_bytes [] = []
lstrip_bytes (c ∷ text) =
    let rest = lstrip_bytes text in if is_ascii_space c then rest else c ∷ text

-- The rest of a member's text behind its colon; `none` for one that was no key.
abbrev pub behind_colon : Bytes → Option Bytes
behind_colon [] = none
behind_colon (c ∷ text) = if c == b':' then some (lstrip_bytes text) else none

module _ {A : Type 0} where
  -- `values[::stride]`, with the number of values to leave out first.
  unfoldable pub every : ℕ → ℕ → List A → List A
  every stride skip [] = []
  every stride zero (x ∷ xs) = x ∷ every stride (stride - 1) xs
  every stride (suc skip) (x ∷ xs) = every stride skip xs

  -- `iterations[at][…] = …`
  unfoldable pub change_at : ℕ → (A → A) → List A → List A
  change_at at f [] = []
  change_at zero f (x ∷ xs) = f x ∷ xs
  change_at (suc at) f (x ∷ xs) = x ∷ change_at at f xs

module _ (N : Type 0) where
  pub data Member : Type 0 where
    raw : Value N → Member
    sampled : List (Option N) → Member

  -- A dict: the latest assignment to a name first.
  abbrev pub Members : Type 0
  Members = List (Text × Member)

  -- `depth` is the number of opening braces so far less that of closing ones; `target` is the
  -- position of the iteration that the member belongs to.
  pub record Reader : Type 0 where
    pub stride : Option ℕ
    pub opened : ℕ
    pub closed : ℕ
    pub iterations : List Members
    pub member : Option Text
    pub target : ℕ
    pub value : Bytes  -- the run after its key, so far

module _ {N : Type 0} (d : Decoder N) (max_points : ℕ) where
  abbrev pub stride_for : Option ℕ → ℕ → ℕ
  stride_for (some stride) count = stride
  stride_for none count = let n = ceil_div count max_points in if leb 1 n then n else 1

  abbrev pub finite : N → Option N
  finite x = if d.isfinite x then some x else none

  -- `_sample`
  unfoldable pub sample : ℕ → List N → List (Option N)
  sample stride values = map finite (every stride 0 values)

  abbrev pub put_member : Text → Member N → Reader N → Reader N
  put_member name m r = record r {
    iterations = change_at r.target (λ ms. (name, m) ∷ ms) r.iterations;
  }

  unfoldable pub assign : Text → Value N → Reader N → Result ReadError (Reader N)
  assign name v r =
      if same_text name (codes "number") then ok (put_member name (raw v) r) else assign_series v
    where
      assign_series : Value N → Result ReadError (Reader N)
      assign_series (series values) =
          let stride = stride_for r.stride (length values) in
          ok (put_member name (sampled (sample stride values)) (record r { stride = some stride }))
      assign_series (number n) = raised invalid_series
      assign_series other_value = raised invalid_series

  unfoldable pub decoded : Text → Option Bytes → Reader N → Result ReadError (Reader N)
  unfolding assign
  decoded name none r = ok r
  decoded name (some text) r = elim (d.raw_decode text) [
    | none ↦ raised invalid_json
    | some v ↦ assign name v r
  ]

  -- `_end_member`
  unfoldable pub end_member : Reader N → Result ReadError (Reader N)
  unfolding decoded
  end_member r = elim r.member [
    | none ↦ ok r
    | some name ↦
        decoded name (behind_colon (lstrip_bytes r.value)) (record r { member = none; value = [] })
  ]

  abbrev pub is_at_iteration : Reader N → Bool
  is_at_iteration r = r.opened == r.closed + 2

  unfoldable pub named : Option Text → Reader N → Result ReadError (Reader N)
  named none r = raised invalid_json
  named (some name) r =
      if same_text name (codes "number") || contains name iteration_series_names
      then ok (record r { member = some name; target = length r.iterations - 1 })
      else ok r

  -- `string`
  unfoldable pub string : Bytes → Reader N → Result ReadError (Reader N)
  unfolding end_member named
  string token r = do
    r' ← end_member r
    if is_at_iteration r' && not_empty r'.iterations then named (d.loads token) r' else ok r'
    where
      not_empty : List (Members N) → Bool
      not_empty [] = false
      not_empty (m ∷ ms) = true

  -- One byte of a run: its finds stop at the braces only.
  unfoldable pub brace : ℕ → Reader N → Reader N
  brace c r =
      if c == b'{'
      then open_brace (record r { opened = suc r.opened })
      else if c == b'}'
      then record r { closed = suc r.closed }
      else r
    where
      open_brace : Reader N → Reader N
      open_brace s =
          if is_at_iteration s then record s { iterations = s.iterations ++ [] ∷ [] } else s

  unfoldable pub braces : Bytes → Reader N → Reader N
  unfolding brace
  braces [] r = r
  braces (c ∷ piece) r = braces piece (brace c r)

  abbrev pub collect : Option Text → Bytes → Reader N → Reader N
  collect none piece r = r
  collect (some name) piece r = record r { value = r.value ++ piece }

  -- `run`
  unfoldable pub run : Bytes → Reader N → Reader N
  unfolding braces
  run piece r = braces piece (collect r.member piece r)

  unfoldable pub read_piece : Piece → Reader N → Result ReadError (Reader N)
  unfolding string run
  read_piece p r = if p.is_string then string p.content r else ok (run p.content r)

  unfoldable pub read_pieces : List Piece → Reader N → Result ReadError (Reader N)
  unfolding read_piece
  read_pieces [] r = ok r
  read_pieces (p ∷ ps) r = do r' ← read_piece p r; read_pieces ps r'

  abbrev pub start : Reader N
  start = record {
    stride = none;
    opened = 0;
    closed = 0;
    iterations = [];
    member = none;
    target = 0;
    value = [];
  }

  abbrev pub stride_or_one : Option ℕ → ℕ
  stride_or_one none = 1
  stride_or_one (some s) = s

  -- `finish`, and the ValueError that the pieces end with, if they do.
  unfoldable pub finish : Bool → Reader N → Result ReadError (List (Members N) × ℕ)
  unfolding end_member
  finish true r = raised unfinished_string
  finish false r = do r' ← end_member r; ok (r'.iterations, stride_or_one r'.stride)

  -- `read_iterations` up to the validation of each iteration's members.
  unfoldable pub read_iterations : List Bytes → Result ReadError (List (Members N) × ℕ)
  unfolding read_pieces finish
  read_iterations chunks = do
    let stream = pieces chunks
    r ← read_pieces stream.yielded start
    finish stream.raised r
