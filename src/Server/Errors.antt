-- ===== src/Server/Errors.antt =====
-- server/Error.go, and `Error` with its shorthands in server/Response.go.
use go_utilities.Base.{
  ℕ, Bool, false, List, [], ◌∷◌, Option, none, some, if◌then◌else◌, ◌==◌, string_eq, ◌||◌, ltb,
  length,
}
use go_utilities.Base.Int.{ℤ, pos}
use go_utilities.Base.Text.{Text, codes, split, text_eq}

-- The constants of `ErrorType`, and any other number of this type.
pub data ErrorType : Type 0 where
  internal_type bad_request unauthorized not_found conflict large_payload : ErrorType
  other_type : ℤ → ErrorType

-- `InternalError` without the error that it wraps.
pub record InternalError : Type 0 where
  pub kind : ErrorType
  pub message : Text
  pub caller_info : Text

pub record ApiError : Type 0 where
  pub code : ℤ
  pub message : Text
  pub trace_id : Text

-- `pgconn.PgError`, as far as it is read.
pub record PgError : Type 0 where
  pub code : Text
  pub constraint_name : Text

-- Go errors: the package's own, with `Original` nil or not, an error of PostgreSQL, an error that
-- wraps another (`%w`), and any other one.
pub data GoError : Type 0 where
  api : ApiError → GoError
  internal : InternalError → GoError
  internal_around : InternalError → GoError → GoError
  postgres : PgError → GoError
  wrapped : Text → GoError → GoError
  plain : Text → GoError

unfoldable pub new_error : Text → ErrorType → Text → Option GoError → GoError
new_error caller kind message none =
    internal (record { kind = kind; message = message; caller_info = caller })
new_error caller kind message (some e) =
    internal_around (record { kind = kind; message = message; caller_info = caller }) e

unfoldable pub to_http_status_code : ErrorType → ℕ
to_http_status_code bad_request = 400
to_http_status_code unauthorized = 401
to_http_status_code not_found = 404
to_http_status_code conflict = 409
to_http_status_code large_payload = 413
to_http_status_code internal_type = 500
to_http_status_code (other_type n) = 500

abbrev pub internal_server_error : Text
internal_server_error = codes "Internal server error"

unfoldable pub to_http_message : InternalError → Text
to_http_message e = elim e.kind [
  | bad_request ↦ e.message
  | unauthorized ↦ codes "Unauthorized"
  | not_found ↦ codes "Not found"
  | conflict ↦ e.message
  | large_payload ↦ codes "Payload too large"
  | internal_type ↦ internal_server_error
  | other_type n ↦ internal_server_error
]

abbrev pub of_internal : Text → InternalError → ApiError
of_internal trace e = record {
  code = pos (to_http_status_code e.kind);
  message = to_http_message e;
  trace_id = trace;
}

abbrev pub unknown_error : Text → ApiError
unknown_error trace = record { code = pos 500; message = internal_server_error; trace_id = trace }

-- `none` is the nil error. The type switch looks at the error itself, not at what it wraps.
unfoldable pub to_api_error : Text → Option GoError → ApiError
to_api_error trace (some (api e)) = if e.trace_id == [] then record e { trace_id = trace } else e
to_api_error trace (some (internal e)) = of_internal trace e
to_api_error trace (some (internal_around e inner)) = of_internal trace e
to_api_error trace (some (postgres e)) = unknown_error trace
to_api_error trace (some (wrapped m e)) = unknown_error trace
to_api_error trace (some (plain m)) = unknown_error trace
to_api_error trace none = unknown_error trace

-- What `Error` writes to the client: the status and the message. The rest goes to the log.
unfoldable pub respond : Text → Option GoError → ℤ × Text
respond trace e = ((to_api_error trace e).code, (to_api_error trace e).message)

unfoldable pub respond_bad_request : Text → Text → Text → ℤ × Text
respond_bad_request trace caller message =
    respond trace (some (new_error caller bad_request message none))

unfoldable pub respond_unauthorized : Text → Text → ℤ × Text
respond_unauthorized trace caller =
    respond trace (some (new_error caller unauthorized (codes "Unauthorized") none))

unfoldable pub respond_not_found : Text → Text → ℤ × Text
respond_not_found trace caller =
    respond trace (some (new_error caller not_found (codes "Not found") none))

unfoldable pub respond_internal_server_error : Text → Text → Option GoError → ℤ × Text
respond_internal_server_error trace caller e =
    respond trace (some (new_error caller internal_type internal_server_error e))

-- `errors.As` for a `*pgconn.PgError`: the first in the chain of `Unwrap`.
unfoldable pub as_pg_error : GoError → Option PgError
as_pg_error (api e) = none
as_pg_error (internal e) = none
as_pg_error (internal_around e inner) = as_pg_error inner
as_pg_error (postgres e) = some e
as_pg_error (wrapped m e) = as_pg_error e
as_pg_error (plain m) = none

abbrev pub has_code : Text → Option PgError → Bool
has_code code none = false
has_code code (some e) = e.code == code

unfoldable pub is_unique_violation : GoError → Bool
is_unique_violation e = has_code (codes "23505") (as_pg_error e)

unfoldable pub is_foreign_key_violation : GoError → Bool
is_foreign_key_violation e = has_code (codes "23503") (as_pg_error e)

unfoldable pub get_constraint_name : GoError → Text
get_constraint_name e = elim (as_pg_error e) [ none ↦ [] | some p ↦ p.constraint_name ]

-- "key", "idx" or "unique"
abbrev pub is_suffix : Text → Bool
is_suffix part = part == codes "key" || (part == codes "idx" || part == codes "unique")

-- What the loop from the last part to the first returns: the last part that is no suffix.
unfoldable pub last_name : List Text → Option Text
last_name [] = none
last_name (part ∷ parts) = elim (last_name parts) [
  | some name ↦ some name
  | none ↦ if is_suffix part then none else some part
]

unfoldable pub parse_unique_violation_field : Text → Text
parse_unique_violation_field name =
    if ltb (length (split b'_' name)) 2
    then name
    else (elim (last_name (split b'_' name)) [ none ↦ name | some part ↦ part ])
