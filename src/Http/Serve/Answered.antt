-- ===== src/Http/Serve/Answered.antt =====
-- Every request is answered, in the proper form.
use wenjuandiaocha_backend.Base.{
  ℕ, Bool, not, ◌&&◌, String, str_eq, Option, none, some, List, ◌≡◌, ◌≢◌, refl, inl, inr, ◌⊎◌,
  arith, Bool-cases,
}
use wenjuandiaocha_backend.Platform.{Platform}
use wenjuandiaocha_backend.Ecode.{GoError, from_error, data_from_error, forbidden_403}
use wenjuandiaocha_backend.Ecode.Envelope.{envelope, fail, render_error, payload_content}
use wenjuandiaocha_backend.Domain.Validate.{ValidationError}
use wenjuandiaocha_backend.Rbac.{can}
use wenjuandiaocha_backend.Dao.Tables.{SurveyMeta, Db}
use wenjuandiaocha_backend.Dao.Exec.{Result, ok, err, panic, World, continue}
use wenjuandiaocha_backend.Dao.Exec.Ends.{IsCoded, Ends, Returns, from_error-IsCoded}
use wenjuandiaocha_backend.Dao.Json.{nil_map}
use wenjuandiaocha_backend.Dao.Store.{find_survey}
use wenjuandiaocha_backend.Service.Auth.{validate_session}
use wenjuandiaocha_backend.Service.Metadata.{Metadata}
use wenjuandiaocha_backend.Service.Middleware.{
  Verdict, answered, passed, check_action, after_session, require_auth,
}
use wenjuandiaocha_backend.Service.Middleware.Guarded.{require_auth-passed}
use wenjuandiaocha_backend.Service.Returns.Callers.{validate_session-Returns}
use wenjuandiaocha_backend.Http.Messages.{Request, Reply, Server, Chance}
use wenjuandiaocha_backend.Http.Routes.{Endpoint, guard_of}
use wenjuandiaocha_backend.Http.Ratelimit.{Arithmetic}
use wenjuandiaocha_backend.Http.Serve.{
  Answer, replied, no_content_204, no_route_404, redirected, client_info, recovered, bare, handle,
  unrouted, routed, after_verdict, behind, chain, State, Arrival, permit, serve,
}
use wenjuandiaocha_backend.Http.Serve.Proper.{IsProper, Replies}
use wenjuandiaocha_backend.Http.Serve.Ending.{Culprit, handle-Replies}

module _ (pf : Platform) where
  -- RequireAuth lets a request pass, or its answer has the proper form.
  abbrev Judges : Result Verdict × World pf → Type 0
  Judges (ok (answered response), w) = IsProper pf (bare pf response)
  Judges (ok (passed md), w) = Unit
  Judges (err e, w) = ⊥
  Judges (panic, w) = ⊥

  bare_payload-IsProper :
      (o : Option (List ValidationError)) (code : ℕ) (message : String)
      → code ≢ 0
      → IsProper pf (bare pf (envelope code message (payload_content o)))
  unfolding payload_content
  bare_payload-IsProper none code message h = inr h
  bare_payload-IsProper (some es) code message h = h

  bare_error-IsProper : (e : GoError) → IsCoded e → IsProper pf (bare pf (render_error e))
  unfolding render_error
  bare_error-IsProper e h =
      bare_payload-IsProper (data_from_error e) (from_error e).0 (from_error e).1
        (from_error-IsCoded e h)

  forbidden_403-IsProper : (msg : String) → IsProper pf (bare pf (render_error (forbidden_403 msg)))
  unfolding forbidden_403
  forbidden_403-IsProper msg = bare_error-IsProper _ (λ z. absurd (omega arith))

  check_action-Judges :
      (action : String) (md : Metadata) (w : World pf) → Judges (ok (check_action pf action md), w)
  unfolding check_action
  check_action-Judges action md w =
      elim (Bool-cases (not (str_eq action "") && not (can md.role action))) [
        | inl refused ↦ rw refused (forbidden_403-IsProper _)
        | inr granted ↦ rw granted tt
      ]

  after_session-Judges :
      (action : String) (md : Metadata) (r : Result (String × String) × World pf)
      → Ends ⊥ r
      → Judges (after_session pf action md r)
  after_session-Judges action md (ok found, w) h = check_action-Judges action _ w
  after_session-Judges action md (err e, w) h = bare_error-IsProper e h
  after_session-Judges action md (panic, w) h = h

  require_auth-Judges :
      (action : String) (cookie : Option String) (md : Metadata) (w : World pf)
      → Judges (require_auth pf action cookie md w)
  unfolding require_auth Returns
  require_auth-Judges action none md w = inr (inl refl)
  require_auth-Judges action (some token) md w = elim (Bool-cases (str_eq token "")) [
    | inl blank ↦ rw blank (inr (inl refl))
    | inr given ↦
        let known = record md { token = token } in
        rw given (
          after_session-Judges action known (validate_session pf known w)
            (validate_session-Returns pf known w))
  ]

  module _ (sv : Server pf) (ch : Chance) (req : Request pf) where
    -- The one request at which the program panics: to publish a survey whose draft is `null`.
    abbrev pub PublishesNull : Option Endpoint → Db pf → Type 0
    PublishesNull o db =
        (o ≡ some Endpoint.publish_survey)
        × ((s : SurveyMeta pf) × (find_survey pf req.id db.surveys ≡ some s)
            × (sv.json.unmarshal_object s.draft_schema ≡ some nil_map))

    Culprit-PublishesNull :
        (e : Endpoint) (md : Metadata) (db : Db pf)
        → Culprit pf sv ch req e md db
        → PublishesNull (some e) db
    Culprit-PublishesNull Endpoint.publish_survey md db (s, (found, may), null) =
        (refl, (s, found, null))
    Culprit-PublishesNull _ md db h = absurd h

    Replies-map :
        (P Q : Type 0) (r : Result (Reply pf) × World pf)
        → (P → Q)
        → Replies pf P r
        → Replies pf Q r
    Replies-map P Q (ok reply, w) k h = h
    Replies-map P Q (err e, w) k h = h
    Replies-map P Q (panic, w) k h = k h

    handled-Replies :
        (e : Endpoint) (allowed : Bool) (md : Metadata) (w : World pf)
        → Replies pf (PublishesNull (some e) w.db) (handle pf sv ch req e allowed md w)
    handled-Replies e allowed md w =
        Replies-map (Culprit pf sv ch req e md w.db) (PublishesNull (some e) w.db)
          (handle pf sv ch req e allowed md w) (Culprit-PublishesNull e md w.db)
          (handle-Replies pf sv ch req e allowed md w)

    judged-Replies :
        (e : Endpoint) (allowed : Bool) (action : String) (w : World pf)
        (r : Result Verdict × World pf)
        → require_auth pf action req.cookie (client_info pf req) w ≡ r
        → Judges r
        → Replies pf
            (PublishesNull (some e) w.db)
            (continue r (after_verdict pf sv ch req e allowed))
    judged-Replies e allowed action w (ok (answered response), u) found h = h
    judged-Replies e allowed action w (ok (passed md), u) found h =
        let (token, cookie, given, (who, live, is_user, may, same)) =
          require_auth-passed pf action req.cookie (client_info pf req) md w u found in
        Replies-map (PublishesNull (some e) u.db) (PublishesNull (some e) w.db)
          (handle pf sv ch req e allowed md u) (λ k. rw same at k) (handled-Replies e allowed md u)
    judged-Replies e allowed action w (err x, u) found h = h
    judged-Replies e allowed action w (panic, u) found h = absurd h

    behind-Replies :
        (e : Endpoint) (allowed : Bool) (o : Option String) (w : World pf)
        → Replies pf (PublishesNull (some e) w.db) (behind pf sv ch req e allowed o w)
    behind-Replies e allowed none w = handled-Replies e allowed (client_info pf req) w
    behind-Replies e allowed (some action) w =
        judged-Replies e allowed action w _ refl
          (require_auth-Judges action req.cookie (client_info pf req) w)

    chain-Replies :
        (e : Endpoint) (allowed : Bool) (w : World pf)
        → Replies pf (PublishesNull (some e) w.db) (chain pf sv ch req e allowed w)
    unfolding chain
    chain-Replies e allowed w = behind-Replies e allowed (guard_of e) w

  -- An answer of the proper form, or the 500 of a panic, which happens only under `P`.
  abbrev pub IsAnswered : Type 0 → Answer pf → Type 0
  IsAnswered P (replied reply) =
      IsProper pf reply.response ⊎ (P × (reply.response ≡ fail 500 "内部错误"))
  IsAnswered P no_content_204 = Unit
  IsAnswered P no_route_404 = Unit
  IsAnswered P (redirected status) = Unit

  recovered-IsAnswered :
      (P : Type 0) (r : Result (Reply pf) × World pf)
      → Replies pf P r
      → IsAnswered P (recovered pf r).0
  unfolding recovered
  recovered-IsAnswered P (ok reply, w) h = inl h
  recovered-IsAnswered P (err e, w) h = absurd h
  recovered-IsAnswered P (panic, w) h = inr (h, refl)

  unrouted-IsAnswered :
      (ar : Arithmetic pf) (sv : Server pf) (P : Type 0) (o : Option ℕ)
      → IsAnswered P (unrouted pf ar sv o)
  unrouted-IsAnswered ar sv P none = tt
  unrouted-IsAnswered ar sv P (some status) = tt

  module _ (ar : Arithmetic pf) (sv : Server pf) (a : Arrival pf) (st : State pf) where
    routed-IsAnswered :
        (o : Option Endpoint)
        → IsAnswered (PublishesNull sv a.chance a.request o st.db) (routed pf ar sv a o st).0
    routed-IsAnswered none = unrouted-IsAnswered ar sv _ a.redirect
    routed-IsAnswered (some e) =
        let w : World pf = record { db = st.db; now = a.now; faults = a.faults } in
        let allowed = (permit pf ar sv e a.request.client_ip a.now st.limiter).0 in
        recovered-IsAnswered (PublishesNull sv a.chance a.request (some e) st.db)
          (chain pf sv a.chance a.request e allowed w)
          (chain-Replies sv a.chance a.request e allowed w)

    -- Every request is answered in the proper form, wherever statements fail: a result comes with
    -- the code 0 and no message, the errors of an answer sheet with another code, and what has
    -- neither with another code or no message; and outside the envelope there are the statuses 400,
    -- 401 and 429, the empty answer to OPTIONS, and gin's 404 or its redirect for no route. No
    -- handler panics, and none is answered with the status 500, but one: to publish a survey whose
    -- draft is the document `null`.
    pub serve-IsAnswered :
        IsAnswered
          (PublishesNull sv a.chance a.request a.endpoint st.db)
          (serve pf ar sv a st).0.answer
    unfolding serve
    serve-IsAnswered = elim (Bool-cases (str_eq a.request.method "OPTIONS")) [
      | inl options ↦ rw options tt
      | inr other ↦ rw other (routed-IsAnswered a.endpoint)
    ]
