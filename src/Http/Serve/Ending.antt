-- ===== src/Http/Serve/Ending.antt =====
-- Every request ends in an answer of the proper form.
use wenjuandiaocha_backend.Base.{
  ℤ, Bool, not, String, str_eq, Option, none, some, refl, inl, inr, Bool-cases,
}
use wenjuandiaocha_backend.Platform.{Platform}
use wenjuandiaocha_backend.Domain.Schema.{Answers}
use wenjuandiaocha_backend.Ecode.Envelope.{render_data}
use wenjuandiaocha_backend.Dao.Tables.{Db}
use wenjuandiaocha_backend.Dao.Exec.{Result, ok, err, panic, World}
use wenjuandiaocha_backend.Dao.Exec.Ends.{Ends, Ends-weaken, Returns}
use wenjuandiaocha_backend.Service.Auth
use wenjuandiaocha_backend.Service.Auth.{validate_session}
use wenjuandiaocha_backend.Service.Metadata.{Metadata}
use wenjuandiaocha_backend.Service.Returns.Callers.{
  login-Returns, logout-Returns, me-Returns, get_published-Returns, list-Returns, submit-Returns,
}
use wenjuandiaocha_backend.Service.Returns.Studio.{
  create-Returns, copy-Returns, get-Returns, update-Returns, set_access-Returns,
  set_display-Returns, close-Returns, reopen-Returns, stats-Returns,
}
use wenjuandiaocha_backend.Service.Returns.Publishing.{HasNullDraft, publish-Ends}
use wenjuandiaocha_backend.Service.Survey
use wenjuandiaocha_backend.Http.Messages.{Request, Payload, Server, Chance}
use wenjuandiaocha_backend.Http.Routes.{Endpoint}
use wenjuandiaocha_backend.Http.Handlers
use wenjuandiaocha_backend.Http.Serve.{handle}
use wenjuandiaocha_backend.Http.Serve.Proper.{
  Replies, rendered-Replies, with_data-IsProper, data-Replies, no_data-Replies, choice-Replies,
}

module _ (pf : Platform) (sv : Server pf) (ch : Chance) (req : Request pf) where
  module _ (P : Type 0) (md : Metadata) where
    login_bound-Replies :
        (o : Option (String × String)) (w : World pf)
        → Replies pf P (Handlers.login_bound pf sv ch md req o w)
    unfolding Handlers.logged_in render_data Returns
    login_bound-Replies none w = inl refl
    login_bound-Replies (some (account, password)) w =
        let call = Auth.login pf sv.session_ttl sv.check_password ch.token account password in
        rendered-Replies pf P (Handlers.logged_in pf sv ch md req) (call w) (λ resp. (refl, refl))
          (Ends-weaken P (call w)
            (login-Returns pf sv.session_ttl sv.check_password ch.token account password w))

    logged_out-Replies :
        (r : Result (Unit {0}) × World pf)
        → Ends ⊥ r
        → Replies pf P (Handlers.logged_out pf sv ch md req r)
    unfolding render_data
    logged_out-Replies (ok a, w) h = inl (refl, refl)
    logged_out-Replies (err e, w) h = inl (refl, refl)
    logged_out-Replies (panic, w) h = absurd h

    logout_token-Replies :
        (o : Option String) (w : World pf)
        → Replies pf P (Handlers.logout_token pf sv ch md req o w)
    unfolding render_data Returns
    logout_token-Replies none w = inl (refl, refl)
    logout_token-Replies (some token) w = elim (Bool-cases (str_eq token "")) [
      | inl blank ↦ rw blank (inl (refl, refl))
      | inr given ↦ rw given (
          logged_out-Replies (Auth.logout pf (record md { token = token }) w)
            (logout-Returns pf (record md { token = token }) w))
    ]

    access_bound-Replies :
        (o : Option String) (w : World pf)
        → Replies pf P (Handlers.access_bound pf sv ch md req o w)
    access_bound-Replies none w = inl refl
    access_bound-Replies (some access) w =
        no_data-Replies pf P _ w (set_access-Returns pf sv.json md req.id access)

    display_bound-Replies :
        (o : Option String) (w : World pf)
        → Replies pf P (Handlers.display_bound pf sv ch md req o w)
    display_bound-Replies none w = inl refl
    display_bound-Replies (some mode) w =
        no_data-Replies pf P _ w (set_display-Returns pf sv.json md req.id mode)

    submit_bound-Replies :
        (o : Option (Answers pf × ℤ)) (w : World pf)
        → Replies pf P (Handlers.submit_bound pf sv ch md req o w)
    submit_bound-Replies none w = inl refl
    submit_bound-Replies (some (answers, version)) w =
        data-Replies pf P Payload.rows _ w (submit-Returns pf sv.json sv.registry md ch.fresh _)

  -- What a handler may panic at: only Publish, at a draft that is `null`.
  abbrev pub Culprit : Endpoint → Metadata → Db pf → Type 0
  Culprit Endpoint.publish_survey md db = HasNullDraft pf sv.json md req.id db
  Culprit _ md db = ⊥

  pub handle-Replies :
      (e : Endpoint) (allowed : Bool) (md : Metadata) (w : World pf)
      → Replies pf (Culprit e md w.db) (handle pf sv ch req e allowed md w)
  unfolding handle Handlers.get_public_survey Handlers.submit_answers Handlers.login Handlers.logout
      Handlers.me Handlers.list_surveys Handlers.create_survey Handlers.copy_survey
      Handlers.get_survey Handlers.update_survey Handlers.set_answer_access
      Handlers.set_display_mode Handlers.publish_survey Handlers.close_survey Handlers.reopen_survey
      Handlers.survey_stats Handlers.submit_answers_authed
  handle-Replies Endpoint.get_public_survey allowed md w =
      data-Replies pf ⊥ Payload.published _ w (get_published-Returns pf req.id)
  handle-Replies Endpoint.submit_answers allowed md w =
      choice-Replies pf ⊥ (not allowed) _ _ w (inr (inr refl))
        (submit_bound-Replies ⊥ md (sv.bind_submit req.body req.body_failed) w)
  handle-Replies Endpoint.login allowed md w =
      login_bound-Replies ⊥ md (sv.bind_login req.body req.body_failed) w
  handle-Replies Endpoint.logout allowed md w = logout_token-Replies ⊥ md req.cookie w
  handle-Replies Endpoint.me allowed md w = data-Replies pf ⊥ Payload.user _ w (me-Returns pf md)
  handle-Replies Endpoint.list_surveys allowed md w =
      data-Replies pf ⊥ _ _ w
        (list-Returns pf sv.ilike sv.format_time md (Handlers.list_req pf sv ch md req))
  handle-Replies Endpoint.create_survey allowed md w =
      data-Replies pf ⊥ Payload.new_id _ w (create-Returns pf sv.json md ch.fresh req.body)
  handle-Replies Endpoint.copy_survey allowed md w =
      data-Replies pf ⊥ Payload.new_id _ w (copy-Returns pf sv.json md ch.fresh req.id)
  handle-Replies Endpoint.get_survey allowed md w =
      data-Replies pf ⊥ Payload.document _ w (get-Returns pf sv.json md req.id)
  handle-Replies Endpoint.update_survey allowed md w =
      choice-Replies pf ⊥ req.body_failed _ _ w (inl refl)
        (no_data-Replies pf ⊥ _ w (update-Returns pf sv.json md req.id req.body))
  handle-Replies Endpoint.set_answer_access allowed md w =
      access_bound-Replies ⊥ md (sv.bind_answer_access req.body req.body_failed) w
  handle-Replies Endpoint.set_display_mode allowed md w =
      display_bound-Replies ⊥ md (sv.bind_display_mode req.body req.body_failed) w
  handle-Replies Endpoint.publish_survey allowed md w =
      rendered-Replies pf (HasNullDraft pf sv.json md req.id w.db) _
        (Survey.publish pf sv.json md req.id w) (with_data-IsProper pf _)
        (publish-Ends pf sv.json md req.id w)
  handle-Replies Endpoint.close_survey allowed md w =
      no_data-Replies pf ⊥ _ w (close-Returns pf sv.json md req.id)
  handle-Replies Endpoint.reopen_survey allowed md w =
      no_data-Replies pf ⊥ _ w (reopen-Returns pf sv.json md req.id)
  handle-Replies Endpoint.survey_stats allowed md w =
      data-Replies pf ⊥ Payload.stats _ w (stats-Returns pf sv.json md req.id)
  handle-Replies Endpoint.submit_answers_authed allowed md w =
      submit_bound-Replies ⊥ md (sv.bind_submit req.body req.body_failed) w
