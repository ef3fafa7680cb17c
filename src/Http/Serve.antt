-- ===== src/Http/Serve.antt =====
-- A request from the router to its reply: internal/server/http/middleware around the handlers.
pub mod Guards
pub mod Handled
pub mod History
pub mod Lasting
pub mod Told
pub mod Proper
pub mod Ending
pub mod Answered
pub mod SignedOut
pub mod Overlap
use wenjuandiaocha_backend.Base.{
  ℕ, Bool, true, false, String, str_eq, member, Option, none, some, List, [], ◌∷◌, if◌then◌else◌,
}
use wenjuandiaocha_backend.Platform.{Platform}
use wenjuandiaocha_backend.Ecode.Envelope.{
  Response, Content, result, errors, no_content, envelope, fail,
}
use wenjuandiaocha_backend.Dao.Tables.{Db}
use wenjuandiaocha_backend.Dao.Exec.{M, World, Result, ok, err, panic, continue}
use wenjuandiaocha_backend.Service.Metadata.{Metadata, anonymous}
use wenjuandiaocha_backend.Service.Middleware.{Verdict, answered, passed, require_auth}
use wenjuandiaocha_backend.Http.Messages.{Request, Payload, Reply, Server, Chance}
use wenjuandiaocha_backend.Http.Routes.{Endpoint, guard_of}
use wenjuandiaocha_backend.Http.Ratelimit.{Arithmetic, Limiter, allow}
use wenjuandiaocha_backend.Http.Handlers

-- internal/server/http/middleware/cors: the origins of the two front ends, and their headers.
abbrev pub allowed_origins : List String
allowed_origins =
    "http://localhost:5173" ∷ "http://localhost:5174" ∷ "http://127.0.0.1:5173"
    ∷ "http://127.0.0.1:5174" ∷ []

unfoldable pub cors_headers : String → List (String × String)
cors_headers origin =
    if member origin allowed_origins
    then ("Access-Control-Allow-Origin", origin)
      ∷ ("Access-Control-Allow-Credentials", "true")
      ∷ ("Access-Control-Allow-Methods", "GET,POST,PUT,DELETE,OPTIONS")
      ∷ ("Access-Control-Allow-Headers", "Content-Type")
      ∷ []
    else []

-- What a client sees: the headers of CORS, and a reply, an empty 204, gin's own 404, or its redirect
-- to a path with or without a slash at the end (RedirectTrailingSlash, on by default).
pub data Answer (pf : Platform) : Type 0 where
  replied : Reply pf → Answer pf
  no_content_204 : Answer pf
  no_route_404 : Answer pf
  redirected : (status : ℕ) → Answer pf

pub record Output (pf : Platform) : Type 0 where
  pub headers : List (String × String)
  pub answer : Answer pf

module _ (pf : Platform) where
  -- internal/server/http/middleware/clientinfo
  unfoldable pub client_info : Request pf → Metadata
  client_info req = record anonymous { client_ip = req.client_ip; user_agent = req.user_agent }

  -- internal/server/http/middleware/recovery: a handler writes only when it is done, and
  -- renders every error itself.
  unfoldable pub recovered : Result (Reply pf) × World pf → Answer pf × World pf
  recovered (ok reply, w) = (replied reply, w)
  recovered (err e, w) = (replied (Handlers.plain pf (fail 500 "内部错误")), w)
  recovered (panic, w) = (replied (Handlers.plain pf (fail 500 "内部错误")), w)

  -- An answer of the middleware has no payload of its own.
  abbrev pub bare_content : Content (Unit {0}) → Content (Payload pf)
  bare_content (result _) = no_content
  bare_content (errors es) = errors es
  bare_content no_content = no_content

  abbrev pub bare : Response (Unit {0}) → Response (Payload pf)
  bare (envelope code message content) = envelope code message (bare_content content)
  bare (fail status message) = fail status message

  module _ (sv : Server pf) (ch : Chance) (req : Request pf) where
    -- The handler of an endpoint; `allowed` is the word of the rate limit.
    unfoldable pub handle : Endpoint → Bool → Metadata → M pf (Reply pf)
    handle Endpoint.get_public_survey allowed md = Handlers.get_public_survey pf sv ch md req
    handle Endpoint.submit_answers allowed md = Handlers.submit_answers pf sv ch md req allowed
    handle Endpoint.login allowed md = Handlers.login pf sv ch md req
    handle Endpoint.logout allowed md = Handlers.logout pf sv ch md req
    handle Endpoint.me allowed md = Handlers.me pf sv ch md req
    handle Endpoint.list_surveys allowed md = Handlers.list_surveys pf sv ch md req
    handle Endpoint.create_survey allowed md = Handlers.create_survey pf sv ch md req
    handle Endpoint.copy_survey allowed md = Handlers.copy_survey pf sv ch md req
    handle Endpoint.get_survey allowed md = Handlers.get_survey pf sv ch md req
    handle Endpoint.update_survey allowed md = Handlers.update_survey pf sv ch md req
    handle Endpoint.set_answer_access allowed md = Handlers.set_answer_access pf sv ch md req
    handle Endpoint.set_display_mode allowed md = Handlers.set_display_mode pf sv ch md req
    handle Endpoint.publish_survey allowed md = Handlers.publish_survey pf sv ch md req
    handle Endpoint.close_survey allowed md = Handlers.close_survey pf sv ch md req
    handle Endpoint.reopen_survey allowed md = Handlers.reopen_survey pf sv ch md req
    handle Endpoint.survey_stats allowed md = Handlers.survey_stats pf sv ch md req
    handle Endpoint.submit_answers_authed allowed md =
        Handlers.submit_answers_authed pf sv ch md req

    -- The verdict of RequireAuth: its answer, or the handler behind it.
    abbrev pub after_verdict : Endpoint → Bool → Verdict → M pf (Reply pf)
    after_verdict endpoint allowed (answered response) w =
        (ok (Handlers.plain pf (bare response)), w)
    after_verdict endpoint allowed (passed md) w = handle endpoint allowed md w

    abbrev pub behind : Endpoint → Bool → Option String → M pf (Reply pf)
    behind endpoint allowed none w = handle endpoint allowed (client_info req) w
    behind endpoint allowed (some action) w =
        continue (require_auth pf action req.cookie (client_info req) w)
          (after_verdict endpoint allowed)

    unfoldable pub chain : Endpoint → Bool → M pf (Reply pf)
    chain endpoint allowed = behind endpoint allowed (guard_of endpoint)

-- The process: the tables, and the rate limit in its memory.
pub record State (pf : Platform) : Type 0 where
  pub db : Db pf
  pub limiter : Limiter pf

-- One arrival: the request, the endpoint that the router found, or the status of a redirect where it
-- found none, the time, and what may go wrong.
pub record Arrival (pf : Platform) : Type 0 where
  pub request : Request pf
  pub endpoint : Option Endpoint
  pub redirect : Option ℕ
  pub chance : Chance
  pub now : ℕ
  pub faults : List Bool

module _ (pf : Platform) (ar : Arithmetic pf) (sv : Server pf) where
  -- Only the public submission asks the limit.
  abbrev pub permit : Endpoint → String → ℕ → Limiter pf → Bool × Limiter pf
  permit Endpoint.submit_answers ip now l = allow pf ar ip now l
  permit _ ip now l = (true, l)

  abbrev pub run : Arrival pf → Endpoint → Bool → Db pf → Answer pf × World pf
  run a endpoint allowed db = recovered pf (
      chain pf sv a.chance a.request endpoint allowed
        (record { db = db; now = a.now; faults = a.faults }))

  abbrev pub unrouted : Option ℕ → Answer pf
  unrouted none = no_route_404
  unrouted (some status) = redirected status

  abbrev pub routed : Arrival pf → Option Endpoint → State pf → Answer pf × State pf
  routed a none st = (unrouted a.redirect, st)
  routed a (some endpoint) st =
      let (allowed, limiter) = permit endpoint a.request.client_ip a.now st.limiter in
      let (given, w) = run a endpoint allowed st.db in
      (given, record { db = w.db; limiter = limiter })

  -- CORS answers every OPTIONS itself.
  abbrev pub dispatched : Arrival pf → State pf → Answer pf × State pf
  dispatched a st =
      if str_eq a.request.method "OPTIONS" then (no_content_204, st) else routed a a.endpoint st

  -- gin redirects before any middleware, so that CORS adds nothing.
  abbrev pub headers_of : Answer pf → String → List (String × String)
  headers_of (redirected status) origin = []
  headers_of _ origin = cors_headers origin

  unfoldable pub serve : Arrival pf → State pf → Output pf × State pf
  serve a st =
      let (given, after) = dispatched a st in
      (record { headers = headers_of given a.request.origin; answer = given }, after)
