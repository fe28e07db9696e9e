-- ===== src/Api/Tests.antt =====
-- A stored document in two chunks, an uploaded table, a list of one row, the header of a manager,
-- and the result of one iteration.
use allocation_key_simulatio.Base.{
  ℕ, suc, ◌+◌, ◌≤◌, ◌≡◌, ◌++◌, ◌∙◌, refl, codes, List, [], ◌∷◌, map, join, length, All, ceil_div,
  none, some, true, false, leb, if◌then◌else◌, ok, raised, arith,
}
use allocation_key_simulatio.Shared.Errors.{Error}
use allocation_key_simulatio.Shared.Loading.{Bytes}
use allocation_key_simulatio.Shared.Models.{
  SimulationModel, SimulationKeyResultModel, SimulationIterationResultModel,
}
use allocation_key_simulatio.Simulation.Outcome.{IterationSimResult, KeySimResult}
use allocation_key_simulatio.Worker.Persistence.{build_key_result, build_iteration}
use allocation_key_simulatio.Worker.Tests.{waiting}
use allocation_key_simulatio.Api.Timeseries.Pieces.{Piece, pieces, is_inside, outside}
use allocation_key_simulatio.Api.Timeseries.Pieces.Reference.{step, scan, symbols_of}
use allocation_key_simulatio.Api.Timeseries.Pieces.Chunks.{pieces-scan}
use allocation_key_simulatio.Api.Timeseries.Pieces.Lossless.{pieces-join}
use allocation_key_simulatio.Api.Timeseries.Response.{
  as_api_response, response_prefix, response_suffix,
}
use allocation_key_simulatio.Api.Timeseries.Response.Rewritten.{
  rewritten, as_api_response-rewritten,
}
use allocation_key_simulatio.Api.Upload.{
  Formats, read_within_cap, measure_csv, measure_stripped, lstrip_lines, first_line, count_newlines,
  ends_with_newline, drop_returns, count_lines, column_number,
}
use allocation_key_simulatio.Api.Upload.Bounds.{
  nonblank, read_within_cap-join, measure_csv-nonblank,
}
use allocation_key_simulatio.Api.Upload.Columns.{column_letters, column_number-letters}
use allocation_key_simulatio.Api.Repository.{
  Sql, get_param, with_community_scope, filter_name, filter_status, filter_code, sort_clauses,
  clause_of, selected, page_of, get_list_simulations,
}
use allocation_key_simulatio.Api.Repository.Pages.{
  IsOwn, first_pages, first_pages-total, get_list_simulations-IsOwn,
}
use allocation_key_simulatio.Api.Security.{Role, OrgBlock, rank, context_of, require_min_role}
use allocation_key_simulatio.Api.Security.Roles.{grants, require_min_role-grants}
use allocation_key_simulatio.Api.Mappers.{to_key_result_schema, to_iteration_result_schema}
use allocation_key_simulatio.Api.Mappers.Shown.{
  IsAscending, numbers, shown_numbers, shown_with, stored_with, result_of,
  to_key_result_schema-build, to_key_result_schema-IsAscending,
}

-- `{"a": NaN}`, cut inside the number.
abbrev document : List Bytes
document = codes "{\"a\": N" ∷ codes "aN}" ∷ []

pieces-scan_example :
    (symbols_of (pieces document).yielded ≡ (scan (join document) outside).symbols)
    × ((pieces document).raised ≡ is_inside (scan (join document) outside).next)
pieces-scan_example = pieces-scan document

whole : is_inside (scan (join document) outside).next ≡ false
unfolding scan step
whole = refl

not_raised : (pieces document).raised ≡ false
not_raised = pieces-scan_example.1 ∙ whole

pieces-join_example :
    join (map (λ (p : Piece). p.content) (pieces document).yielded) ≡ join document
pieces-join_example = pieces-join document not_raised

as_api_response-rewritten_example :
    (join (as_api_response document).blocks
      ≡ response_prefix ++ rewritten [] (scan (join document) outside).symbols ++ response_suffix)
    × ((as_api_response document).raised ≡ false)
as_api_response-rewritten_example = as_api_response-rewritten document whole

abbrev uploaded_chunks : List Bytes
uploaded_chunks = codes "h,f\n" ∷ codes "1,2\n" ∷ []

read_within_cap-join_example : read_within_cap uploaded_chunks 8 [] ≡ (
    if leb (length (join uploaded_chunks)) 8
    then ok (join uploaded_chunks)
    else raised (record { error = Error.file_too_large; status_code = 413 }))
read_within_cap-join_example = read_within_cap-join uploaded_chunks 8 refl

abbrev formats : Formats
formats = record { decode_text = λ b. b; csv_fields = λ line. some 2; dimension = λ b. none }

measured : measure_csv formats (join uploaded_chunks) ≡ some (record { columns = 2; data_rows = 1 })
unfolding measure_csv measure_stripped lstrip_lines first_line count_newlines ends_with_newline
    drop_returns count_lines
measured = refl

measure_csv-nonblank_example : nonblank false (join uploaded_chunks) ≤ 1 + 1
measure_csv-nonblank_example =
    measure_csv-nonblank formats (join uploaded_chunks) (record { columns = 2; data_rows = 1 })
      measured

column_number-letters_example : column_number (column_letters 28) ≡ 28
column_number-letters_example = column_number-letters 28

abbrev sql : Sql
sql = record {
  ilike = λ s t. true;
  order_by = λ clauses rows. rows;
  parse_int = λ t. none;
  lower = λ t. t;
}

is_selected : selected sql (some 4) [] (waiting ∷ []) ≡ ok (waiting ∷ [])
unfolding selected get_param with_community_scope filter_name filter_status filter_code sort_clauses
    clause_of
is_selected = refl

first_pages-total_example :
    (first_pages sql (some 4) [] (waiting ∷ []) 10 (ceil_div (length (waiting ∷ [])) 10)
      ≡ waiting ∷ [])
    × ((page : ℕ)
        → (shown : List SimulationModel) × (get_list_simulations sql
              (some 4)
              []
              (waiting ∷ [])
              (suc page)
              10
            ≡ ok (shown, 1))
          × (length shown ≤ 10))
first_pages-total_example =
    first_pages-total sql (some 4) [] (waiting ∷ []) (waiting ∷ []) 10 (omega arith) is_selected

is_shown : get_list_simulations sql (some 4) [] (waiting ∷ []) 1 10 ≡ ok (waiting ∷ [], 1)
unfolding get_list_simulations page_of selected get_param with_community_scope filter_name
    filter_status filter_code sort_clauses clause_of
is_shown = refl

get_list_simulations-IsOwn_example : All (IsOwn (some 4)) (waiting ∷ [])
get_list_simulations-IsOwn_example =
    get_list_simulations-IsOwn sql (some 4) [] (waiting ∷ []) 1 10 (waiting ∷ []) 1
      (λ clauses xs h. h) is_shown

abbrev blocks : List OrgBlock
blocks = record { org_id = codes "c"; org_path = codes "/c"; role_list = codes "MANAGER" ∷ [] } ∷ []

require_min_role-grants_example :
    require_min_role Role.manager (
      context_of (record {
        x_user_id = some (codes "u");
        x_community_id = some (codes "c");
        x_user_orgs = some blocks;
      }))
    ≡ (if grants (rank Role.manager) (codes "c") blocks
        then ok (codes "u")
        else raised (record { error = Error.forbidden; status_code = 400 }))
require_min_role-grants_example = require_min_role-grants Role.manager b'u' b'c' [] [] blocks

abbrev computed : IterationSimResult ℕ
computed = record {
  number = 1;
  energy_allocated_percentage = 1;
  consumption = 3 ∷ [];
  consumption_total = 3;
  energy_allocated = 2 ∷ [];
  energy_allocated_total = 2;
  energy_allocated_consumed = 2 ∷ [];
  energy_allocated_consumed_total = 2;
  residual_volume = 1 ∷ [];
  residual_volume_total = 1;
  surplus = 0 ∷ [];
  surplus_total = 0;
  sharing_rate = 1 ∷ [];
  sharing_rate_total = 1;
  self_sufficiency_rate = 0 ∷ [];
  self_sufficiency_rate_total = 0;
  consumers = [];
}

abbrev outcome : KeySimResult ℕ
outcome = record {
  name = codes "k";
  description = [];
  consumption_total = 3;
  energy_allocated_total = 2;
  energy_allocated_consumed_total = 2;
  residual_volume_total = 1;
  surplus_total = 0;
  self_sufficiency_rate_total = 0;
  sharing_rate_total = 1;
  iterations = computed ∷ [];
}

ascending : IsAscending 0 (numbers outcome.iterations)
unfolding numbers
ascending = (omega arith, tt)

to_key_result_schema-build_example :
    to_key_result_schema (build_key_result outcome 1 4) ≡ result_of outcome
to_key_result_schema-build_example = to_key_result_schema-build outcome 1 4 ascending

abbrev unsorted : List (SimulationIterationResultModel ℕ)
unsorted = build_iteration 4 (record computed { number = 2 }) ∷ build_iteration 4 computed ∷ []

abbrev stored_key : SimulationKeyResultModel ℕ
stored_key = record (build_key_result outcome 1 4) { iterations = unsorted }

to_key_result_schema-IsAscending_example :
    IsAscending 0 (shown_numbers (to_key_result_schema stored_key).iterations)
    × ((n : ℕ)
        → shown_with n (to_key_result_schema stored_key).iterations
          ≡ map to_iteration_result_schema (stored_with n stored_key.iterations))
to_key_result_schema-IsAscending_example = to_key_result_schema-IsAscending stored_key
