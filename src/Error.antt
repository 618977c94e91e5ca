-- ===== src/Error.antt =====
-- backend/src/error.rs: the API's errors, the response that each becomes, and the translation of
-- the database's errors. The log line of an internal error is not modelled, and the trace id of a
-- response is an argument.
pub mod Responses
use arc_admin.Prelude.{Option, Result, String, map_err, none, some, unwrap_or, ℕ}

pub data ApiError : Type 0 where
  unauthorized : ApiError
  forbidden not_found conflict validation : String → ApiError
  csrf_invalid : ApiError
  rate_limited : ℕ → ApiError
  internal : String → ApiError

-- What the code tells apart in a `sqlx::Error`; the text of any other is kept.
pub data SqlError : Type 0 where
  unique_violation foreign_key_violation : SqlError
  other : String → SqlError

-- The calls of the services and the handlers, and those of the repositories.
abbrev pub Api {ℓ} : Type ℓ → Type ℓ
Api A = Result ApiError A

abbrev pub Sql {ℓ} : Type ℓ → Type ℓ
Sql A = Result SqlError A

abbrev pub db_error : SqlError → ApiError
db_error unique_violation = conflict "唯一约束冲突：用户名或角色编码已存在"
db_error foreign_key_violation = validation "关联数据不存在或仍被引用"
db_error (other e) = internal e

-- `… .map_err(db_error)`
abbrev pub from_db {ℓ} : {A : Type ℓ} → Sql A → Api A
from_db = map_err db_error

pub record ErrorBody : Type 0 where
  pub code : String
  pub message : String
  pub trace_id : String

pub record Response : Type 0 where
  pub status : ℕ
  pub body : ErrorBody
  pub retry_after : Option ℕ

status_code : ApiError → ℕ
status_code unauthorized = 401
status_code (forbidden m) = 403
status_code (not_found m) = 404
status_code (conflict m) = 409
status_code (validation m) = 422
status_code csrf_invalid = 403
status_code (rate_limited s) = 429
status_code (internal m) = 500

error_code : ApiError → String
error_code unauthorized = "UNAUTHORIZED"
error_code (forbidden m) = "FORBIDDEN"
error_code (not_found m) = "NOT_FOUND"
error_code (conflict m) = "CONFLICT"
error_code (validation m) = "VALIDATION_ERROR"
error_code csrf_invalid = "CSRF_INVALID"
error_code (rate_limited s) = "RATE_LIMITED"
error_code (internal m) = "INTERNAL_ERROR"

-- What the response says: the error's own text, but for an internal error.
error_message : ApiError → String
error_message unauthorized = "未认证或登录已过期"
error_message (forbidden m) = m
error_message (not_found m) = m
error_message (conflict m) = m
error_message (validation m) = m
error_message csrf_invalid = "CSRF 校验失败，请刷新页面后重试"
error_message (rate_limited s) = "登录尝试过于频繁，请稍后再试"
error_message (internal m) = "服务器内部错误"

abbrev retry_after_header : ApiError → Option ℕ
retry_after_header (rate_limited s) = some s
retry_after_header _ = none

error_response : ℕ → String → String → String → Response
error_response status code message trace_id = record {
  status = status;
  body = record { code = code; message = message; trace_id = trace_id };
  retry_after = none;
}

unfoldable pub into_response : Option String → ApiError → Response
unfolding status_code error_code error_message error_response
into_response current_trace_id e =
    let trace_id = unwrap_or current_trace_id "unavailable" in
    record (error_response (status_code e) (error_code e) (error_message e) trace_id) {
      retry_after = retry_after_header e;
    }

unfoldable pub internal_error_response : Option String → Response
unfolding error_response
internal_error_response current_trace_id =
    error_response 500 "INTERNAL_ERROR" "服务器内部错误" (unwrap_or current_trace_id "unavailable")
