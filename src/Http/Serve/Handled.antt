-- ===== src/Http/Serve/Handled.antt =====
-- Every handler, and the middleware in front of it, keeps the tables sound.
use wenjuandiaocha_backend.Base.{
  ℕ, ℤ, Bool, true, false, not, String, str_eq, Option, none, some, if◌then◌else◌,
}
use wenjuandiaocha_backend.Platform.{Platform}
use wenjuandiaocha_backend.Domain.Schema.{Answers}
use wenjuandiaocha_backend.Dao.Tables.{Db}
use wenjuandiaocha_backend.Dao.Exec.{M, World, Result, ok, err, panic}
use wenjuandiaocha_backend.Dao.Sound.{Legal, Legal-refl}
use wenjuandiaocha_backend.Dao.Sound.Calls.{Keeps, if-Keeps}
use wenjuandiaocha_backend.Service.Metadata.{Metadata}
use wenjuandiaocha_backend.Service.Auth
use wenjuandiaocha_backend.Service.Auth.{validate_session}
use wenjuandiaocha_backend.Service.Middleware.{require_auth, after_session}
use wenjuandiaocha_backend.Service.Legal.Releases.{publish-Keeps}
use wenjuandiaocha_backend.Service.Legal.Copies.{get-Keeps, create-Keeps, copy-Keeps, stats-Keeps}
use wenjuandiaocha_backend.Service.Legal.Surveys.{
  close-Keeps, reopen-Keeps, set_access-Keeps, set_display-Keeps, update-Keeps,
}
use wenjuandiaocha_backend.Service.Legal.Callers.{
  login-Keeps, logout-Keeps, me-Keeps, validate_session-Keeps, get_published-Keeps, list-Keeps,
  submit-Keeps,
}
use wenjuandiaocha_backend.Http.Messages.{Request, Reply, Server, Chance}
use wenjuandiaocha_backend.Http.Routes.{Endpoint}
use wenjuandiaocha_backend.Http.Handlers
use wenjuandiaocha_backend.Http.Serve.{recovered, handle}

module _ (pf : Platform) where
  rendered-Legal :
      {A : Type 0} (db : Db pf) (success : A → Reply pf) (r : Result A × World pf)
      → Legal pf db r.1.db
      → Legal pf db (Handlers.rendered pf success r).1.db
  rendered-Legal db success (ok a, w) h = h
  rendered-Legal db success (err e, w) h = h
  rendered-Legal db success (panic, w) h = h

  answer-Keeps :
      {A : Type 0} (success : A → Reply pf) (m : M pf A)
      → Keeps m
      → Keeps (Handlers.answer pf success m)
  unfolding Keeps
  answer-Keeps success m h w = rendered-Legal w.db success (m w) (h w)

  refuse-Keeps : (status : ℕ) (message : String) → Keeps (Handlers.refuse pf status message)
  unfolding Keeps
  refuse-Keeps status message w = Legal-refl pf w.db

  choice-Legal :
      {A : Type 0} (db : Db pf) (b : Bool) (x y : Result A × World pf)
      → Legal pf db x.1.db
      → Legal pf db y.1.db
      → Legal pf db (if◌then◌else◌ {A = Result A × World pf} b x y).1.db
  choice-Legal db true x y hx hy = hx
  choice-Legal db false x y hx hy = hy

  after_session-Legal :
      (db : Db pf) (action : String) (md : Metadata) (r : Result (String × String) × World pf)
      → Legal pf db r.1.db
      → Legal pf db (after_session pf action md r).1.db
  after_session-Legal db action md (ok found, w) h = h
  after_session-Legal db action md (err e, w) h = h
  after_session-Legal db action md (panic, w) h = h

  pub require_auth-Keeps :
      (action : String) (cookie : Option String) (md : Metadata)
      → Keeps (require_auth pf action cookie md)
  unfolding Keeps require_auth
  require_auth-Keeps action none md = λ w. Legal-refl pf w.db
  require_auth-Keeps action (some token) md = λ w.
      let known = record md { token = token } in
      choice-Legal w.db (str_eq token "") _ _ (Legal-refl pf w.db) (
        after_session-Legal w.db action known (validate_session pf known w)
          (validate_session-Keeps pf known w))

  pub recovered-Legal :
      (db : Db pf) (r : Result (Reply pf) × World pf)
      → Legal pf db r.1.db
      → Legal pf db (recovered pf r).1.db
  unfolding recovered
  recovered-Legal db (ok reply, w) h = h
  recovered-Legal db (err e, w) h = h
  recovered-Legal db (panic, w) h = h

module _ (pf : Platform) (sv : Server pf) (ch : Chance) (md : Metadata) (req : Request pf) where
  login_bound-Keeps :
      (o : Option (String × String)) → Keeps (Handlers.login_bound pf sv ch md req o)
  login_bound-Keeps none = refuse-Keeps pf _ _
  login_bound-Keeps (some (account, password)) =
      answer-Keeps pf _ _
        (login-Keeps pf sv.session_ttl sv.check_password ch.token account password)

  logged_out-Legal :
      (db : Db pf) (r : Result (Unit {0}) × World pf)
      → Legal pf db r.1.db
      → Legal pf db (Handlers.logged_out pf sv ch md req r).1.db
  logged_out-Legal db (ok a, w) h = h
  logged_out-Legal db (err e, w) h = h
  logged_out-Legal db (panic, w) h = h

  logout_token-Keeps : (o : Option String) → Keeps (Handlers.logout_token pf sv ch md req o)
  unfolding Keeps
  logout_token-Keeps none = λ w. Legal-refl pf w.db
  logout_token-Keeps (some token) = λ w.
      let known = record md { token = token } in
      choice-Legal pf w.db (not (str_eq token "")) _ _
        (logged_out-Legal w.db (Auth.logout pf known w) (logout-Keeps pf known w))
        (Legal-refl pf w.db)

  access_bound-Keeps : (o : Option String) → Keeps (Handlers.access_bound pf sv ch md req o)
  access_bound-Keeps none = refuse-Keeps pf _ _
  access_bound-Keeps (some access) =
      answer-Keeps pf _ _ (set_access-Keeps pf sv.json md req.id access)

  display_bound-Keeps : (o : Option String) → Keeps (Handlers.display_bound pf sv ch md req o)
  display_bound-Keeps none = refuse-Keeps pf _ _
  display_bound-Keeps (some mode) =
      answer-Keeps pf _ _ (set_display-Keeps pf sv.json md req.id mode)

  submit_bound-Keeps :
      (o : Option (Answers pf × ℤ)) → Keeps (Handlers.submit_bound pf sv ch md req o)
  submit_bound-Keeps none = refuse-Keeps pf _ _
  submit_bound-Keeps (some (answers, version)) =
      answer-Keeps pf _ _ (submit-Keeps pf sv.json sv.registry md ch.fresh _)

module _ (pf : Platform) (sv : Server pf) (ch : Chance) (req : Request pf) where
  pub handle-Keeps :
      (e : Endpoint) (allowed : Bool) (md : Metadata) → Keeps (handle pf sv ch req e allowed md)
  unfolding handle Handlers.get_public_survey Handlers.submit_answers Handlers.login Handlers.logout
      Handlers.me Handlers.list_surveys Handlers.create_survey Handlers.copy_survey
      Handlers.get_survey Handlers.update_survey Handlers.set_answer_access
      Handlers.set_display_mode Handlers.publish_survey Handlers.close_survey Handlers.reopen_survey
      Handlers.survey_stats Handlers.submit_answers_authed
  handle-Keeps Endpoint.get_public_survey allowed md =
      answer-Keeps pf _ _ (get_published-Keeps pf req.id)
  handle-Keeps Endpoint.submit_answers allowed md =
      if-Keeps (not allowed) _ _ (refuse-Keeps pf _ _)
        (submit_bound-Keeps pf sv ch md req (sv.bind_submit req.body req.body_failed))
  handle-Keeps Endpoint.login allowed md =
      login_bound-Keeps pf sv ch md req (sv.bind_login req.body req.body_failed)
  handle-Keeps Endpoint.logout allowed md = logout_token-Keeps pf sv ch md req req.cookie
  handle-Keeps Endpoint.me allowed md = answer-Keeps pf _ _ (me-Keeps pf md)
  handle-Keeps Endpoint.list_surveys allowed md =
      answer-Keeps pf _ _
        (list-Keeps pf sv.ilike sv.format_time md (Handlers.list_req pf sv ch md req))
  handle-Keeps Endpoint.create_survey allowed md =
      answer-Keeps pf _ _ (create-Keeps pf sv.json md ch.fresh req.body)
  handle-Keeps Endpoint.copy_survey allowed md =
      answer-Keeps pf _ _ (copy-Keeps pf sv.json md ch.fresh req.id)
  handle-Keeps Endpoint.get_survey allowed md = answer-Keeps pf _ _ (get-Keeps pf sv.json md req.id)
  handle-Keeps Endpoint.update_survey allowed md =
      if-Keeps req.body_failed _ _ (refuse-Keeps pf _ _)
        (answer-Keeps pf _ _ (update-Keeps pf sv.json md req.id req.body))
  handle-Keeps Endpoint.set_answer_access allowed md =
      access_bound-Keeps pf sv ch md req (sv.bind_answer_access req.body req.body_failed)
  handle-Keeps Endpoint.set_display_mode allowed md =
      display_bound-Keeps pf sv ch md req (sv.bind_display_mode req.body req.body_failed)
  handle-Keeps Endpoint.publish_survey allowed md =
      answer-Keeps pf _ _ (publish-Keeps pf sv.json md req.id)
  handle-Keeps Endpoint.close_survey allowed md =
      answer-Keeps pf _ _ (close-Keeps pf sv.json md req.id)
  handle-Keeps Endpoint.reopen_survey allowed md =
      answer-Keeps pf _ _ (reopen-Keeps pf sv.json md req.id)
  handle-Keeps Endpoint.survey_stats allowed md =
      answer-Keeps pf _ _ (stats-Keeps pf sv.json md req.id)
  handle-Keeps Endpoint.submit_answers_authed allowed md =
      submit_bound-Keeps pf sv ch md req (sv.bind_submit req.body req.body_failed)
