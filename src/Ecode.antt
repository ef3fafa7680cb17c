-- ===== src/Ecode.antt =====
-- internal/ecode/ecode.go: business errors with a code, a message and an optional payload; and the
-- envelope of internal/server/http/render/render.go.
pub mod Envelope
use wenjuandiaocha_backend.Base.{ℕ, Bool, true, false, String, Option, none, some, List}
use wenjuandiaocha_backend.Domain.Validate.{ValidationError}

abbrev pub code_ok : ℕ
code_ok = 0

abbrev pub code_bad_request : ℕ
code_bad_request = 40001

abbrev pub code_unauthorized : ℕ
code_unauthorized = 40101

abbrev pub code_forbidden : ℕ
code_forbidden = 40301

abbrev pub code_not_found : ℕ
code_not_found = 40401

abbrev pub code_validation : ℕ
code_validation = 42201

abbrev pub code_too_many_requests : ℕ
code_too_many_requests = 42901

abbrev pub code_conflict : ℕ
code_conflict = 40901

abbrev pub code_internal : ℕ
code_internal = 50001

-- The only payload is the list of validation errors.
pub record Error : Type 0 where
  pub code : ℕ
  pub msg : String
  pub payload : Option (List ValidationError)

-- The errors of the program: pgx.ErrNoRows, dao.ErrNotFound, a business error, an error of the
-- database driver or of encoding/json, and one wrapped by fmt.Errorf with %w.
pub data GoError : Type 0 where
  no_rows not_found driver bad_json : GoError
  ecode : Error → GoError
  wrapped : String → GoError → GoError

abbrev pub plain : ℕ → String → GoError
plain code msg = GoError.ecode (record { code = code; msg = msg; payload = none })

unfoldable pub not_found_error : String → GoError
not_found_error msg = plain code_not_found msg

unfoldable pub bad_request : String → GoError
bad_request msg = plain code_bad_request msg

unfoldable pub unauthorized : String → GoError
unauthorized msg = plain code_unauthorized msg

unfoldable pub conflict : String → GoError
conflict msg = plain code_conflict msg

unfoldable too_many_requests : String → GoError
too_many_requests msg = plain code_too_many_requests msg

unfoldable pub internal : String → GoError
internal msg = plain code_internal msg

unfoldable pub validation : List ValidationError → GoError
validation payload =
    GoError.ecode (record { code = code_validation; msg = "校验未通过"; payload = some payload })

-- A resource of another owner: the same answer as for one that is missing.
unfoldable pub forbidden : GoError
forbidden = plain code_not_found "不存在"

-- An action that the role may not do.
unfoldable pub forbidden_403 : String → GoError
forbidden_403 msg = plain code_forbidden msg

-- errors.As for a business error.
unfoldable pub as_ecode : GoError → Option Error
as_ecode (GoError.ecode e) = some e
as_ecode (GoError.wrapped _ e) = as_ecode e
as_ecode _ = none

-- errors.Is(err, dao.ErrNotFound)
unfoldable pub is_not_found : GoError → Bool
is_not_found GoError.not_found = true
is_not_found (GoError.wrapped _ e) = is_not_found e
is_not_found _ = false

-- errors.Is(err, pgx.ErrNoRows)
unfoldable pub is_no_rows : GoError → Bool
is_no_rows GoError.no_rows = true
is_no_rows (GoError.wrapped _ e) = is_no_rows e
is_no_rows _ = false

unfoldable pub from_error : GoError → ℕ × String × Bool
unfolding as_ecode
from_error err = elim (as_ecode err) [
  | none ↦ (code_internal, "内部错误", false)
  | some e ↦ (e.code, e.msg, true)
]

unfoldable pub data_from_error : GoError → Option (List ValidationError)
unfolding as_ecode
data_from_error err = elim (as_ecode err) [ none ↦ none | some e ↦ e.payload ]
