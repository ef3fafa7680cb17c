-- ===== src/Http/Serve/Told.antt =====
-- What the reply to a public submission says of the tables.
use wenjuandiaocha_backend.Base.{
  ℕ, ℤ, Bool, true, false, String, str_eq, Option, none, some, List, ◌≡◌, ◌≢◌, refl, sym, ap, ◌∙◌,
  inl, inr, ◌⊎◌,
}
use wenjuandiaocha_backend.Platform.{Platform}
use wenjuandiaocha_backend.Domain.Schema.{Answers}
use wenjuandiaocha_backend.Ecode.{GoError, from_error, data_from_error}
use wenjuandiaocha_backend.Ecode.Envelope.{
  Response, result, errors, no_content, envelope, fail, render_data, render_error, payload_content,
}
use wenjuandiaocha_backend.Domain.Validate.{ValidationError}
use wenjuandiaocha_backend.Dao.Tables.{Db}
use wenjuandiaocha_backend.Dao.Exec.{Result, ok, err, panic, World}
use wenjuandiaocha_backend.Dao.Exec.Laws.{AllOrNothing}
use wenjuandiaocha_backend.Service.Submission.{SubmitReq, submit}
use wenjuandiaocha_backend.Service.Submission.Accepted.{Accepted, submit-AllOrNothing}
use wenjuandiaocha_backend.Http.Messages.{Payload, Server}
use wenjuandiaocha_backend.Http.Routes.{Endpoint, guard_of}
use wenjuandiaocha_backend.Http.Ratelimit.{Arithmetic}
use wenjuandiaocha_backend.Http.Handlers
use wenjuandiaocha_backend.Http.Serve.{
  Answer, replied, no_content_204, no_route_404, redirected, client_info, recovered, handle, chain,
  State, Arrival, permit, serve,
}

module _ (pf : Platform) where
  -- The reply that n rows were stored.
  abbrev pub stored : ℕ → Answer pf
  stored n = replied (Handlers.with_data pf Payload.rows n)

  abbrev has_result : Response (Payload pf) → Bool
  has_result (envelope code message (result _)) = true
  has_result (envelope code message (errors _)) = false
  has_result (envelope code message no_content) = false
  has_result (fail status message) = false

  abbrev says_stored : Answer pf → Bool
  says_stored (replied reply) = has_result reply.response
  says_stored no_content_204 = false
  says_stored no_route_404 = false
  says_stored (redirected status) = false

  no_result :
      (o : Option (List ValidationError)) (code : ℕ) (message : String)
      → has_result (envelope code message (payload_content o)) ≡ false
  unfolding payload_content
  no_result none code message = refl
  no_result (some es) code message = refl

  render_error-no_result : (e : GoError) → has_result (render_error e) ≡ false
  unfolding render_error
  render_error-no_result e = no_result (data_from_error e) (from_error e).0 (from_error e).1

  stored-says : (n : ℕ) → says_stored (stored n) ≡ true
  unfolding render_data
  stored-says n = refl

  silent : (given : Answer pf) → says_stored given ≡ false → (n : ℕ) → given ≢ stored n
  silent given h n e = absurd (cc (sym h ∙ ap says_stored e ∙ stored-says n))

  -- Either the client is told that n rows are stored and they are, or it is told nothing of the kind
  -- and nothing is.
  abbrev pub IsTold : (ℕ → Db pf → Type 0) → Db pf → Answer pf → Db pf → Type 0
  IsTold after before given db =
      ((n : ℕ) × (given ≡ stored n) × after n db) ⊎ (((n : ℕ) → given ≢ stored n) × (db ≡ before))

  rendered-IsTold :
      (after : ℕ → Db pf → Type 0) (before : Db pf) (r : Result ℕ × World pf)
      → AllOrNothing after before r
      → IsTold after before
          (recovered pf (Handlers.rendered pf (Handlers.with_data pf Payload.rows) r)).0
          (recovered pf (Handlers.rendered pf (Handlers.with_data pf Payload.rows) r)).1.db
  unfolding recovered
  rendered-IsTold after before (ok n, w) h = inl (n, refl, h)
  rendered-IsTold after before (err e, w) h = inr (silent _ (render_error-no_result e), h)
  rendered-IsTold after before (panic, w) h = inr (silent _ refl, h)

  refused-IsTold :
      (after : ℕ → Db pf → Type 0) (before : Db pf) (status : ℕ) (message : String) (w : World pf)
      → w.db ≡ before
      → IsTold after before
          (recovered pf (Handlers.refuse pf status message w)).0
          (recovered pf (Handlers.refuse pf status message w)).1.db
  unfolding recovered
  refused-IsTold after before status message w h = inr (silent _ refl, h)

  module _ (ar : Arithmetic pf) (sv : Server pf) where
    -- The submission that an arrival asks for.
    abbrev pub asked : Arrival pf → Answers pf × ℤ → SubmitReq pf
    asked a sheet = record { survey_id = a.request.id; answers = sheet.0; version = sheet.1 }

    limited-IsTold :
        (a : Arrival pf) (db : Db pf) (allowed : Bool) (sheet : Answers pf × ℤ)
        → sv.bind_submit a.request.body a.request.body_failed ≡ some sheet
        → let w : World pf = record { db = db; now = a.now; faults = a.faults } in
          let r = recovered pf (
            Handlers.submit_answers pf sv a.chance
              (client_info pf a.request)
              a.request
              allowed
              w) in
          IsTold
            (Accepted pf sv.json sv.registry
              (client_info pf a.request)
              a.chance.fresh
              (asked a sheet)
              db)
            db
            r.0
            r.1.db
    unfolding Handlers.submit_answers
    limited-IsTold a db false sheet h =
        refused-IsTold
          (Accepted pf sv.json sv.registry (client_info pf a.request) a.chance.fresh (asked a sheet)
            db)
          db 429 "提交过于频繁,请稍后再试" (record { db = db; now = a.now; faults = a.faults }) refl
    limited-IsTold a db true sheet h =
        let w : World pf = record { db = db; now = a.now; faults = a.faults } in
        rw h (
          rendered-IsTold _ db
            (submit pf sv.json sv.registry (client_info pf a.request) a.chance.fresh (asked a sheet)
              w)
            (submit-AllOrNothing pf sv.json sv.registry (client_info pf a.request) a.chance.fresh
              (asked a sheet) w))

    -- A public submission is answered truthfully: if the body is an answer sheet, then either the reply
    -- says that n rows are stored, and the submission has been accepted and stored with n rows as the
    -- service does it; or the reply says nothing of the kind, and the tables are as they were. That
    -- covers the rate limit, every refusal, every fault of a statement, and a panic.
    pub serve-IsTold :
        (a : Arrival pf) (st : State pf) (sheet : Answers pf × ℤ)
        → str_eq a.request.method "OPTIONS" ≡ false
        → a.endpoint ≡ some Endpoint.submit_answers
        → sv.bind_submit a.request.body a.request.body_failed ≡ some sheet
        → IsTold
            (Accepted pf sv.json sv.registry
              (client_info pf a.request)
              a.chance.fresh
              (asked a sheet)
              st.db)
            st.db
            (serve pf ar sv a st).0.answer
            (serve pf ar sv a st).1.db
    unfolding serve chain handle guard_of
    serve-IsTold a st sheet m here h =
        let allowed =
          (permit pf ar sv Endpoint.submit_answers a.request.client_ip a.now st.limiter).0 in
        rw (m, here) (limited-IsTold a st.db allowed sheet h)
