-- ===== src/Http/Serve/Guards.antt =====
-- Requests of strangers: what a guarded route does without a session.
use wenjuandiaocha_backend.Base.{
  Bool, true, false, String, str_eq, Option, none, some, List, [], ◌∷◌, ◌≡◌, refl, ap, Bool-cases,
  inl, inr, ◌⊎◌,
}
use wenjuandiaocha_backend.Platform.{Platform}
use wenjuandiaocha_backend.Ecode.{GoError, unauthorized}
use wenjuandiaocha_backend.Ecode.Envelope.{Response, fail, render_error}
use wenjuandiaocha_backend.Dao.Tables.{Db}
use wenjuandiaocha_backend.Dao.Exec.{Result, ok, err, panic, World, run_statement}
use wenjuandiaocha_backend.Dao.Exec.Laws.{ok-injective}
use wenjuandiaocha_backend.Dao.Store.{get_session, one_row}
use wenjuandiaocha_backend.Service.Metadata.{Metadata}
use wenjuandiaocha_backend.Service.Auth.{validate_session}
use wenjuandiaocha_backend.Service.Middleware.{Verdict, answered, require_auth}
use wenjuandiaocha_backend.Service.Middleware.Guarded.{session_row}
use wenjuandiaocha_backend.Http.Messages.{Request, Payload, Reply, Server, Chance}
use wenjuandiaocha_backend.Http.Routes.{Endpoint, guard_of}
use wenjuandiaocha_backend.Http.Ratelimit.{Arithmetic}
use wenjuandiaocha_backend.Http.Handlers
use wenjuandiaocha_backend.Http.Serve.{
  replied, client_info, recovered, bare, behind, chain, State, Arrival, permit, serve,
}

module _ (pf : Platform) where
  -- A query of one row that is not there fails, with a fault of the driver or without.
  missing_row :
      {A : Type 0} (fs : List Bool) (f : Db pf → Option A) (w : World pf)
      → f w.db ≡ none
      → (e : GoError) × (u : World pf) × (run_statement fs (λ db. (one_row (f db), db)) w
          ≡ (err e, u))
        × (u.db ≡ w.db)
  missing_row [] f w h = (GoError.no_rows, record w { faults = [] }, rw h refl, refl)
  missing_row (true ∷ fs) f w h = (GoError.driver, record w { faults = fs }, refl, refl)
  missing_row (false ∷ fs) f w h = (GoError.no_rows, record w { faults = fs }, rw h refl, refl)

  validate_session-missing :
      (md : Metadata) (w : World pf)
      → session_row pf md.token w.db ≡ none
      → (u : World pf) × (validate_session pf md w ≡ (err (unauthorized "会话无效"), u)) × (u.db ≡ w.db)
  unfolding validate_session get_session
  validate_session-missing md w h =
      let (e, u, failed, same) = missing_row w.faults (session_row pf md.token) w h in
      (u, rw failed refl, same)

  -- No session cookie, an empty one, or one of no session with a user.
  abbrev pub IsStranger : Option String → Db pf → Type 0
  IsStranger none db = Unit
  IsStranger (some token) db = (token ≡ "") ⊎ (session_row pf token db ≡ none)

  -- The two refusals.
  abbrev pub IsRefusal : Response (Payload pf) → Type 0
  IsRefusal response =
      (response ≡ fail 401 "未登录") ⊎ (response ≡ bare pf (render_error (unauthorized "会话无效")))

  abbrev IsTurnedAway : Result Verdict × World pf → Db pf → Type 0
  IsTurnedAway r db =
      (response : Response (Unit {0})) × (u : World pf) × (r ≡ (ok (answered response), u))
      × IsRefusal (bare pf response)
      × (u.db ≡ db)

  require_auth-stranger :
      (action : String) (cookie : Option String) (md : Metadata) (w : World pf)
      → IsStranger cookie w.db
      → IsTurnedAway (require_auth pf action cookie md w) w.db
  unfolding require_auth
  require_auth-stranger action none md w h = (fail 401 "未登录", w, refl, inl refl, refl)
  require_auth-stranger action (some token) md w (inl empty) =
      rw empty (fail 401 "未登录", w, refl, inl refl, refl)
  require_auth-stranger action (some token) md w (inr gone) =
      let known = record md { token = token } in
      let (u, failed, same) = validate_session-missing known w gone in
      elim (Bool-cases (str_eq token "")) [
        | inl nothing ↦ rw nothing (fail 401 "未登录", w, refl, inl refl, refl)
        | inr something ↦
            rw (something, failed) (render_error (unauthorized "会话无效"), u, refl, inr refl, same)
      ]

  module _ (sv : Server pf) (ch : Chance) (req : Request pf) where
    -- The chain ends with a refusal, and the tables are as they were.
    abbrev IsRefused : Result (Reply pf) × World pf → Db pf → Type 0
    IsRefused r db =
        (response : Response (Payload pf)) × (r.0 ≡ ok (Handlers.plain pf response))
        × IsRefusal response
        × (r.1.db ≡ db)

    behind-IsRefused :
        (e : Endpoint) (allowed : Bool) (action : String) (w : World pf)
        → IsStranger req.cookie w.db
        → IsRefused (behind pf sv ch req e allowed (some action) w) w.db
    behind-IsRefused e allowed action w h =
        let (response, u, turned_away, refusal, same) =
          require_auth-stranger action req.cookie (client_info pf req) w h in
        rw turned_away (bare pf response, refl, refusal, same)

    chain-IsRefused :
        (e : Endpoint) (allowed : Bool) (action : String) (w : World pf)
        → guard_of e ≡ some action
        → IsStranger req.cookie w.db
        → IsRefused (chain pf sv ch req e allowed w) w.db
    unfolding chain
    chain-IsRefused e allowed action w g h = rw g (behind-IsRefused e allowed action w h)

  -- A refusal goes out as it is.
  recovered-IsRefused :
      (r : Result (Reply pf) × World pf) (response : Response (Payload pf)) (db : Db pf)
      → r.0 ≡ ok (Handlers.plain pf response)
      → r.1.db ≡ db
      → ((recovered pf r).0 ≡ replied (Handlers.plain pf response)) × ((recovered pf r).1.db ≡ db)
  unfolding recovered
  recovered-IsRefused (ok reply, w) response db h same = (ap replied (ok-injective h), same)
  recovered-IsRefused (err e, w) response db h same = cc
  recovered-IsRefused (panic, w) response db h same = cc

  -- Every route but the two public ones, login and logout answers a stranger (no session cookie, an
  -- empty one, or one of no session with a user) with the status 401 or with the envelope of an
  -- invalid session, runs no handler, and leaves the tables as they were, wherever statements fail.
  pub serve-IsRefusal :
      (ar : Arithmetic pf) (sv : Server pf) (a : Arrival pf) (st : State pf) (e : Endpoint)
      (action : String)
      → str_eq a.request.method "OPTIONS" ≡ false
      → a.endpoint ≡ some e
      → guard_of e ≡ some action
      → IsStranger a.request.cookie st.db
      → (response : Response (Payload pf)) × ((serve pf ar sv a st).0.answer
          ≡ replied (Handlers.plain pf response))
        × IsRefusal response
        × ((serve pf ar sv a st).1.db ≡ st.db)
  unfolding serve
  serve-IsRefusal ar sv a st e action m here g h =
      let w : World pf = record { db = st.db; now = a.now; faults = a.faults } in
      let allowed = (permit pf ar sv e a.request.client_ip a.now st.limiter).0 in
      let (response, outcome, refusal, same) =
        chain-IsRefused sv a.chance a.request e allowed action w g h in
      let (given, kept) =
        recovered-IsRefused (chain pf sv a.chance a.request e allowed w) response st.db outcome
          same in
      rw (m, here) (response, given, refusal, kept)
