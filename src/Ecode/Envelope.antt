-- ===== src/Ecode/Envelope.antt =====
-- internal/server/http/render/render.go: the one way out for results and business errors.
use wenjuandiaocha_backend.Base.{ℕ, String, Option, none, some, List}
use wenjuandiaocha_backend.Domain.Validate.{ValidationError}
use wenjuandiaocha_backend.Ecode.{GoError, code_ok, from_error, data_from_error}

-- The field `data`: the result, the payload of an error, or null.
pub data Content (D : Type 0) : Type 0 where
  result : D → Content D
  errors : List ValidationError → Content D
  no_content : Content D

-- A response: the envelope under HTTP status 200, or a bare error under its own status.
pub data Response (D : Type 0) : Type 0 where
  envelope : (code : ℕ) → (message : String) → (content : Content D) → Response D
  fail : (status : ℕ) → (message : String) → Response D

unfoldable pub payload_content : {D : Type 0} → Option (List ValidationError) → Content D
payload_content none = no_content
payload_content (some es) = errors es

-- render.JSON(c, data, nil) and render.JSON(c, _, err)
unfoldable pub render_data : {D : Type 0} → Content D → Response D
render_data content = envelope code_ok "" content

unfoldable pub render_error : {D : Type 0} → GoError → Response D
unfolding payload_content
render_error err =
    let (code, msg, _) = from_error err in envelope code msg (payload_content (data_from_error err))
