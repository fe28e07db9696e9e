-- ===== src/Shared/Preflight.antt =====
-- Whether a CRM period can be simulated against a key (shared/crm_preflight.py).
pub mod Verdict
use allocation_key_simulatio.Base.{
  ℕ, ◌-◌, ◌≡◌, Text, codes, show, contains, ◌++◌, List, [], ◌∷◌, map, reverse, Option, none, some,
  Bool, true, false, not, ◌||◌, ◌&&◌, keep, is_empty, length, ltb, leb, ◌==◌, if◌then◌else◌,
}
use allocation_key_simulatio.Simulation.Number.{Arith}
use allocation_key_simulatio.Shared.Errors.{Error}
use allocation_key_simulatio.Shared.Models.{IncompleteMeter}
use allocation_key_simulatio.Shared.Metering.{
  EanCoverage, CrmDataSummary, total_rows, all_eans, duplicate_eans, incomplete,
  total_injection_kwh,
}
use allocation_key_simulatio.Shared.ProblemSize.{too_large}

abbrev pub max_reading_rows : ℕ
max_reading_rows = 5000000

-- `str.isspace` of one character.
unfoldable pub is_space : ℕ → Bool
is_space c =
    (leb 9 c && leb c 13)
    || (leb 28 c && leb c 32)
    || c == 133
    || c == 160
    || c == 5760
    || (leb 8192 c && leb c 8202)
    || c == 8232
    || c == 8233
    || c == 8239
    || c == 8287
    || c == 12288

unfoldable pub lstrip : Text → Text
lstrip [] = []
lstrip (c ∷ s) = if is_space c then lstrip s else c ∷ s

-- `name.strip()`
unfoldable pub normalize_participant : Text → Text
normalize_participant name = reverse (lstrip (reverse (lstrip name)))

pub record Blocker : Type 0 where
  pub error : Error
  pub detail : Text

pub record Preflight (N : Type 0) : Type 0 where
  pub summary : CrmDataSummary N
  pub participants : List Text
  pub matched : List Text
  pub unmatched : List Text
  pub blockers : List Blocker
  pub warnings : Option (List IncompleteMeter)

-- `Preflight.ok`
abbrev pub is_ok : {N : Type 0} → Preflight N → Bool
is_ok p = is_empty p.blockers

-- `', '.join(names)`
unfoldable pub join : List Text → Text
join [] = []
join (s ∷ []) = s
join (s ∷ t ∷ ss) = s ++ codes ", " ++ join (t ∷ ss)

unfoldable pub too_many_readings : ℕ → Text
too_many_readings rows =
    show rows
    ++ codes " readings exceed the "
    ++ show max_reading_rows
    ++ codes " limit; choose a shorter period"

unfoldable pub duplicated : List Text → Text
duplicated eans =
    codes "the same timestamp appears more than once for meter(s) "
    ++ join eans
    ++ codes " — the data was most likely imported twice"

unfoldable pub not_matched : List Text → Text
not_matched names =
    codes "the key names participant(s) with no matching meter in this period: " ++ join names

abbrev pub block_if : Bool → Error → Text → List Blocker
block_if true error detail = record { error = error; detail = detail } ∷ []
block_if false error detail = []

abbrev pub block_oversize : Option Text → List Blocker
block_oversize none = []
block_oversize (some detail) = record { error = Error.simulation_too_large; detail = detail } ∷ []

module _ (a : Arith) where
  open a use {Num, nought, leq}

  unfoldable pub incomplete_meter : ℕ → EanCoverage Num → IncompleteMeter
  incomplete_meter grid_size e = record {
    ean = e.ean;
    readings = e.distinct_ts;
    expected = grid_size;
    missing = grid_size - e.distinct_ts;
  }

  abbrev warn : List IncompleteMeter → Option (List IncompleteMeter)
  warn [] = none
  warn (m ∷ ms) = some (m ∷ ms)

  unfoldable pub find_blockers : CrmDataSummary Num → List Text → ℕ → List Blocker
  find_blockers summary participants iterations =
      let unmatched = keep (λ p. not (contains p (all_eans summary))) participants in
      let duplicates = duplicate_eans summary in
      block_if (ltb max_reading_rows (total_rows summary)) Error.crm_range_too_large
        (too_many_readings (total_rows summary))
      ++ (block_oversize (too_large (length participants) summary.grid_size iterations)
          ++ (block_if (not (is_empty duplicates)) Error.crm_duplicate_readings
                (duplicated duplicates)
              ++ (block_if (not (is_empty unmatched)) Error.key_consumers_not_matched
                    (not_matched unmatched)
                  ++ block_if (leq (total_injection_kwh a summary) nought) Error.crm_no_injection (
                      codes
                        "no energy was injected over this period — there is nothing to share"))))

  unfoldable pub evaluate : CrmDataSummary Num → List Text → ℕ → Preflight Num
  unfolding find_blockers
  evaluate summary key_consumer_names iterations =
      let participants = map normalize_participant key_consumer_names in
      let matched = keep (λ p. contains p (all_eans summary)) participants in
      let gaps = keep (λ e. contains e.ean matched) (incomplete summary) in
      if is_empty summary.eans
      then record {
        summary = summary;
        participants = participants;
        matched = [];
        unmatched = participants;
        blockers =
            record {
              error = Error.crm_no_data;
              detail = codes "no readings for this sharing operation over this period";
            }
            ∷ [];
        warnings = none;
      }
      else record {
        summary = summary;
        participants = participants;
        matched = matched;
        unmatched = keep (λ p. not (contains p (all_eans summary))) participants;
        blockers = find_blockers summary participants iterations;
        warnings = warn (map (incomplete_meter summary.grid_size) gaps);
      }
