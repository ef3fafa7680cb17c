-- ===== src/Http/Messages.antt =====
-- What the transport of internal/server/http gets and gives, and what it asks of its libraries.
use wenjuandiaocha_backend.Base.{ℕ, ℤ, Bool, String, Option, List}
use wenjuandiaocha_backend.Platform.{Platform}
use wenjuandiaocha_backend.Domain.Schema.{Answers}
use wenjuandiaocha_backend.Domain.Registry.{Registry}
use wenjuandiaocha_backend.Ecode.Envelope.{Response}
use wenjuandiaocha_backend.Dao.Json.{Json}
use wenjuandiaocha_backend.Service.Auth.{AuthUser}
use wenjuandiaocha_backend.Service.Survey.{Stats}
use wenjuandiaocha_backend.Service.Survey.Listing.{ListItem}
use wenjuandiaocha_backend.Service.Submission.{Published}

-- A request, as gin gives it: `query` is c.Query, `cookie` is c.Cookie of the session, `id` is the
-- path's parameter, and `body_failed` tells that reading the body broke off.
pub record Request (pf : Platform) : Type 0 where
  pub method : String
  pub origin : String
  pub client_ip : String
  pub user_agent : String
  pub cookie : Option String
  pub id : String
  pub query : String → String
  pub body : pf.Raw
  pub body_failed : Bool

-- The field `data` of a success.
pub data Payload (pf : Platform) : Type 0 where
  user : AuthUser → Payload pf
  listing : List ListItem → ℕ → Payload pf
  new_id : String → Payload pf
  document : pf.Raw → Payload pf
  release : (version : ℤ) → (unchanged : Bool) → Payload pf
  stats : Stats → Payload pf
  published : Published pf → Payload pf
  rows : ℕ → Payload pf

-- The session cookie: its value, and its MaxAge in seconds. The path is `/`, and it is HttpOnly.
pub record Cookie : Type 0 where
  pub value : String
  pub max_age : ℤ
  pub secure : Bool

pub record Reply (pf : Platform) : Type 0 where
  pub response : Response (Payload pf)
  pub cookie : Option Cookie

-- The libraries, and the configuration. `bind_…` is gin's ShouldBindJSON of one struct, `none` where
-- it returns an error; `atoi` is the value of strconv.Atoi, its error dropped; `ilike` is the ILIKE of
-- Postgres; `check_password` is bcrypt's comparison. The life of a session is in nanoseconds.
pub record Server (pf : Platform) : Type 0 where
  pub json : Json pf
  pub registry : Registry pf
  pub bind_login : pf.Raw → Bool → Option (String × String)
  pub bind_answer_access : pf.Raw → Bool → Option String
  pub bind_display_mode : pf.Raw → Bool → Option String
  pub bind_submit : pf.Raw → Bool → Option (Answers pf × ℤ)
  pub atoi : String → ℤ
  pub ilike : String → String → Bool
  pub format_time : ℕ → String
  pub check_password : (hash plain : String) → Bool
  pub session_ttl : ℕ
  pub cookie_secure : Bool

-- What crypto/rand gives to one request: a session token, if the system gives one, and an id.
pub record Chance : Type 0 where
  pub token : Option String
  pub fresh : String
