-- ===== src/Api/Limits.antt =====
-- The limits on every request (core/middleware/request_limits.py): the body's declared size and the
-- time.
use allocation_key_simulatio.Base.{
  ℕ, ◌*◌, Text, codes, same_text, Option, none, some, ◌&&◌, ltb, if◌then◌else◌,
}
use allocation_key_simulatio.Simulation.Number.Integers.{ℤ, pos, negsuc}
use allocation_key_simulatio.Api.Upload.{upload_max_body_bytes}

-- `MAX_BODY_BYTES`
unfoldable pub max_body_bytes : ℕ
max_body_bytes = 2 * 1024 * 1024

-- The method in upper case, the path, and the Content-Length header as `int` reads it: `none` where
-- it is missing or no number.
pub record Request : Type 0 where
  pub method : Text
  pub path : Text
  pub content_length : Option ℤ

-- `_max_body_for`
unfoldable pub max_body_for : Request → ℕ
max_body_for request =
    if same_text request.method (codes "POST") && same_text request.path (codes "/")
    then upload_max_body_bytes
    else max_body_bytes

-- A response by its status, or what the application answers.
pub data Answer (R : Type 0) : Type 0 where
  payload_too_large : Answer R
  request_timeout : Answer R
  passed_on : R → Answer R

module _ {R : Type 0} where
  -- The application answers in time, or not.
  abbrev pub timed : Option R → Answer R
  timed none = request_timeout
  timed (some response) = passed_on response

  abbrev pub gate : Request → Option ℤ → Option R → Answer R
  gate request none response = timed response
  gate request (some (negsuc n)) response = timed response
  gate request (some (pos n)) response =
      if ltb (max_body_for request) n then payload_too_large else timed response

  -- `RequestLimitsMiddleware.dispatch`
  unfoldable pub dispatch : Request → Option R → Answer R
  dispatch request response = gate request request.content_length response
