-- ===== src/Shared/Errors.antt =====
-- The errors of the API (shared/custom_errors.py, core/errors/errors.py): their codes, and the
-- exception that carries one with an HTTP status.
use allocation_key_simulatio.Base.{ℕ, Text, codes, show, ◌++◌}

pub data Error : Type 0 where
  unauthorized forbidden rate_limited authorization_missing : Error
  not_subscribed : Error
  get_simulations get_simulation simulation_not_found key_not_found invalid_file : Error
  storage_upload_failed start_simulation delete_simulation result_not_found get_timeseries : Error
  file_too_large invalid_period sharing_operation_not_found crm_no_data : Error
  crm_duplicate_readings crm_no_injection crm_range_too_large key_consumers_not_matched : Error
  get_crm_preview simulation_too_large timeseries_too_large : Error

unfoldable pub error_code : Error → ℕ
error_code Error.unauthorized = 1
error_code Error.forbidden = 2
error_code Error.rate_limited = 3
error_code Error.authorization_missing = 4
error_code Error.not_subscribed = 1003
error_code Error.get_simulations = 2100
error_code Error.get_simulation = 2101
error_code Error.simulation_not_found = 2102
error_code Error.key_not_found = 2103
error_code Error.invalid_file = 2104
error_code Error.storage_upload_failed = 2105
error_code Error.start_simulation = 2106
error_code Error.delete_simulation = 2107
error_code Error.result_not_found = 2108
error_code Error.get_timeseries = 2109
error_code Error.file_too_large = 2110
error_code Error.invalid_period = 2111
error_code Error.sharing_operation_not_found = 2112
error_code Error.crm_no_data = 2113
error_code Error.crm_duplicate_readings = 2114
error_code Error.crm_no_injection = 2115
error_code Error.crm_range_too_large = 2116
error_code Error.key_consumers_not_matched = 2117
error_code Error.get_crm_preview = 2118
error_code Error.simulation_too_large = 2119
error_code Error.timeseries_too_large = 2120

unfoldable pub error_key : Error → Text
error_key Error.unauthorized = codes "ERRORS.AUTH.UNAUTHORIZED"
error_key Error.forbidden = codes "ERRORS.AUTH.FORBIDDEN"
error_key Error.rate_limited = codes "ERRORS.AUTH.RATE_LIMITED"
error_key Error.authorization_missing = codes "ERRORS.AUTH.AUTHORIZATION_MISSING"
error_key Error.not_subscribed = codes "ERRORS.SUBSCRIPTION.NOT_SUBSCRIBED"
error_key Error.get_simulations = codes "ERRORS.SIMULATION.GET_SIMULATIONS"
error_key Error.get_simulation = codes "ERRORS.SIMULATION.GET_SIMULATION"
error_key Error.simulation_not_found = codes "ERRORS.SIMULATION.SIMULATION_NOT_FOUND"
error_key Error.key_not_found = codes "ERRORS.SIMULATION.KEY_NOT_FOUND"
error_key Error.invalid_file = codes "ERRORS.SIMULATION.INVALID_FILE"
error_key Error.storage_upload_failed = codes "ERRORS.SIMULATION.STORAGE_UPLOAD_FAILED"
error_key Error.start_simulation = codes "ERRORS.SIMULATION.START_SIMULATION"
error_key Error.delete_simulation = codes "ERRORS.SIMULATION.DELETE_SIMULATION"
error_key Error.result_not_found = codes "ERRORS.SIMULATION.RESULT_NOT_FOUND"
error_key Error.get_timeseries = codes "ERRORS.SIMULATION.GET_TIMESERIES"
error_key Error.file_too_large = codes "ERRORS.SIMULATION.FILE_TOO_LARGE"
error_key Error.invalid_period = codes "ERRORS.SIMULATION.INVALID_PERIOD"
error_key Error.sharing_operation_not_found = codes "ERRORS.SIMULATION.SHARING_OPERATION_NOT_FOUND"
error_key Error.crm_no_data = codes "ERRORS.SIMULATION.CRM_NO_DATA"
error_key Error.crm_duplicate_readings = codes "ERRORS.SIMULATION.CRM_DUPLICATE_READINGS"
error_key Error.crm_no_injection = codes "ERRORS.SIMULATION.CRM_NO_INJECTION"
error_key Error.crm_range_too_large = codes "ERRORS.SIMULATION.CRM_RANGE_TOO_LARGE"
error_key Error.key_consumers_not_matched = codes "ERRORS.SIMULATION.KEY_CONSUMERS_NOT_MATCHED"
error_key Error.get_crm_preview = codes "ERRORS.SIMULATION.GET_CRM_PREVIEW"
error_key Error.simulation_too_large = codes "ERRORS.SIMULATION.SIMULATION_TOO_LARGE"
error_key Error.timeseries_too_large = codes "ERRORS.SIMULATION.TIMESERIES_TOO_LARGE"

pub record ErrorException : Type 0 where
  pub error : Error
  pub status_code : ℕ

-- `ErrorException.__str__`
unfoldable pub error_text : ErrorException → Text
error_text e = codes "Error " ++ show (error_code e.error) ++ codes ": " ++ error_key e.error
