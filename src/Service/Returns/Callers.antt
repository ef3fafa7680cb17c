-- ===== src/Service/Returns/Callers.antt =====
-- The calls of internal/service/auth and internal/service/submission, and the list of surveys,
-- return.
use wenjuandiaocha_backend.Base.{
  ℕ, ℤ, pos, ltb_ℤ, ltb, Bool, not, String, str_eq, Option, none, some, List, [], ◌∷◌, ◌+◌, arith,
  Bool-cases, inl, inr,
}
use wenjuandiaocha_backend.Platform.{Platform}
use wenjuandiaocha_backend.Ecode.{
  GoError, unauthorized, internal, bad_request, not_found_error, validation,
}
use wenjuandiaocha_backend.Rbac.{is_admin}
use wenjuandiaocha_backend.Domain.Schema.{SurveySchema}
use wenjuandiaocha_backend.Domain.Registry.{Registry}
use wenjuandiaocha_backend.Domain.Validate.{ValidationError, validate_survey}
use wenjuandiaocha_backend.Dao.Tables.{User, Session, SurveyMeta}
use wenjuandiaocha_backend.Dao.Exec.{M, World, Result, ok, err, panic, pure, throw, ◌>>=◌}
use wenjuandiaocha_backend.Dao.Exec.Ends.{
  IsCoded, Ends, Returns, >>=-Returns, if-Returns, map_error-Returns, pure-Returns, throw-Returns,
}
use wenjuandiaocha_backend.Dao.Json.{Json}
use wenjuandiaocha_backend.Dao.Store.{create_session, delete_session}
use wenjuandiaocha_backend.Service.Metadata.{Metadata}
use wenjuandiaocha_backend.Service.Auth.{
  LoginResp, auth_user, ignore_error, ignored, open_session, login, logout, me, check_expiry,
  validate_session,
}
use wenjuandiaocha_backend.Service.Submission.{
  SubmitReq, get_published, load_schema, gate, pass_gate, save_valid, submit_parsed, submit,
}
use wenjuandiaocha_backend.Service.Survey.Listing.{ListReq, list_params, scoped_rows, list}
use wenjuandiaocha_backend.Service.Returns.Statements.{
  unpublished-IsCoded, stale_version-IsCoded, get_user_by_account-Returns, get_user_by_id-Returns,
  get_session-Returns, get_survey-Returns, get_published_schema-Returns, get_version_schema-Returns,
  create_session-Returns, delete_session-Returns, list_surveys_by_owner-Returns,
  list_all_surveys-Returns, save_submission-Returns,
}

unauthorized-IsCoded : (msg : String) → IsCoded (unauthorized msg)
unfolding unauthorized
unauthorized-IsCoded msg z = absurd (omega arith)

bad_request-IsCoded : (msg : String) → IsCoded (bad_request msg)
unfolding bad_request
bad_request-IsCoded msg z = absurd (omega arith)

internal-IsCoded : (msg : String) → IsCoded (internal msg)
unfolding internal
internal-IsCoded msg z = absurd (omega arith)

module _ (pf : Platform) where
  ignore_error-Ends : (r : Result (Unit {0}) × World pf) → Ends ⊥ r → Ends ⊥ (ignore_error pf r)
  ignore_error-Ends (ok a, u) h = h
  ignore_error-Ends (err e, u) h = tt
  ignore_error-Ends (panic, u) h = h

  ignored-Returns : (m : M pf (Unit {0})) → Returns m → Returns (ignored pf m)
  unfolding Returns
  ignored-Returns m h w = ignore_error-Ends (m w) (h w)

  module _ (ttl : ℕ) (check : (hash plain : String) → Bool) where
    open_session-Returns :
        (u : User) (token : Option String) → Returns (open_session pf ttl check u token)
    unfolding Returns
    open_session-Returns u none = λ w. internal-IsCoded "内部错误"
    open_session-Returns u (some token) = λ w.
        let session : Session = record {
          token = token;
          user_id = u.user_id;
          expires_at = w.now + ttl;
        } in
        let resp : LoginResp = record {
          user = auth_user u;
          token = token;
          expires = w.now + ttl;
        } in
        >>=-Returns (create_session pf session) (λ _. pure resp) (create_session-Returns pf session)
          (λ _. pure-Returns pf resp) w

    pub login-Returns :
        (token : Option String) (account password : String)
        → Returns (login pf ttl check token account password)
    unfolding login
    login-Returns token account password =
        if-Returns (str_eq account "") _ _ (throw-Returns pf _ _ (bad_request-IsCoded _)) (
          >>=-Returns _ _
            (map_error-Returns _ _ (λ e k. unauthorized-IsCoded _)
              (get_user_by_account-Returns pf account))
            (λ u.
              if-Returns (not (check u.password_hash password)) _ _
                (throw-Returns pf _ _ (unauthorized-IsCoded _)) (open_session-Returns u token)))

  pub logout-Returns : (md : Metadata) → Returns (logout pf md)
  unfolding logout
  logout-Returns md =
      if-Returns (str_eq md.token "") _ _ (pure-Returns pf tt)
        (ignored-Returns _ (delete_session-Returns pf md.token))

  pub me-Returns : (md : Metadata) → Returns (me pf md)
  unfolding me
  me-Returns md = >>=-Returns _ _ (get_user_by_id-Returns pf md.user_id) (λ u. pure-Returns pf _)

  check_expiry-Returns :
      (token : String) (found : String × String × ℕ) → Returns (check_expiry pf token found)
  unfolding Returns
  check_expiry-Returns token (user, role, expires) w =
      let expired : GoError = unauthorized "会话已过期" in
      let found : String × String = (user, role) in
      let gone : M pf (String × String) =
        ignored pf (delete_session pf token) >>= (λ _. throw expired) in
      if-Returns (ltb expires w.now) gone (pure found)
        (>>=-Returns (ignored pf (delete_session pf token)) (λ _. throw expired)
          (ignored-Returns _ (delete_session-Returns pf token))
          (λ _. throw-Returns pf (String × String) expired (unauthorized-IsCoded _)))
        (pure-Returns pf found) w

  pub validate_session-Returns : (md : Metadata) → Returns (validate_session pf md)
  unfolding validate_session
  validate_session-Returns md =
      >>=-Returns _ _
        (map_error-Returns _ _ (λ e k. unauthorized-IsCoded _) (get_session-Returns pf md.token))
        (check_expiry-Returns md.token)

  pub get_published-Returns : (id : String) → Returns (get_published pf id)
  unfolding get_published
  get_published-Returns id =
      >>=-Returns _ _
        (map_error-Returns _ _ unpublished-IsCoded (get_published_schema-Returns pf id))
        (λ schema.
          >>=-Returns _ _ (map_error-Returns _ _ unpublished-IsCoded (get_survey-Returns pf id))
            (λ meta. pure-Returns pf _))

  load_schema-Returns : (id : String) (v : ℤ) → Returns (load_schema pf id v)
  unfolding load_schema
  load_schema-Returns id v =
      if-Returns (ltb_ℤ (pos 0) v) _ _
        (map_error-Returns _ _ stale_version-IsCoded (get_version_schema-Returns pf id v))
        (map_error-Returns _ _ unpublished-IsCoded (get_published_schema-Returns pf id))

  gate-Returns :
      (authenticated : Bool) (survey : SurveyMeta pf)
      → Returns (pass_gate pf (gate pf authenticated survey))
  unfolding gate not_found_error unauthorized bad_request
  gate-Returns authenticated survey = elim (Bool-cases (str_eq survey.status "live")) [
    | inr dead ↦ rw dead (throw-Returns pf _ _ (λ z. absurd (omega arith)))
    | inl live ↦ elim (Bool-cases (str_eq survey.answer_access "login_required")) [
      | inl asks ↦ elim (Bool-cases authenticated) [
        | inl known ↦ rw (live, asks, known) (pure-Returns pf tt)
        | inr stranger ↦
            rw (live, asks, stranger) (throw-Returns pf _ _ (λ z. absurd (omega arith)))
      ]
      | inr anonymous ↦ elim (Bool-cases authenticated) [
        | inl known ↦ rw (live, anonymous, known) (throw-Returns pf _ _ (λ z. absurd (omega arith)))
        | inr stranger ↦ rw (live, anonymous, stranger) (pure-Returns pf tt)
      ]
    ]
  ]

  pub list-Returns :
      (ilike : String → String → Bool) (format_time : ℕ → String) (md : Metadata) (req : ListReq)
      → Returns (list pf ilike format_time md req)
  unfolding list scoped_rows
  list-Returns ilike format_time md req =
      >>=-Returns _ _
        (if-Returns (is_admin md.role) _ _ (list_all_surveys-Returns pf ilike (list_params pf req))
          (list_surveys_by_owner-Returns pf ilike md.user_id (list_params pf req)))
        (λ r. pure-Returns pf _)

module _ (pf : Platform) (js : Json pf) (reg : Registry pf) (md : Metadata) where
  save_valid-Returns :
      (resp_id : String) (req : SubmitReq pf) (schema : SurveySchema pf) (es : List ValidationError)
      → Returns (save_valid pf js reg md resp_id req schema es)
  unfolding save_valid validation
  save_valid-Returns resp_id req schema (e ∷ es) = throw-Returns pf _ _ (λ z. absurd (omega arith))
  save_valid-Returns resp_id req schema [] =
      >>=-Returns _ _ (save_submission-Returns pf js resp_id req.survey_id schema.version _ _ _)
        (λ _. pure-Returns pf _)

  submit_parsed-Returns :
      (resp_id : String) (req : SubmitReq pf) (o : Option (SurveySchema pf))
      → Returns (submit_parsed pf js reg md resp_id req o)
  submit_parsed-Returns resp_id req none = throw-Returns pf _ _ tt
  submit_parsed-Returns resp_id req (some schema) =
      save_valid-Returns resp_id req schema (validate_survey pf reg schema req.answers)

  pub submit-Returns :
      (resp_id : String) (req : SubmitReq pf) → Returns (submit pf js reg md resp_id req)
  unfolding submit
  submit-Returns resp_id req =
      >>=-Returns _ _
        (map_error-Returns _ _ unpublished-IsCoded (get_survey-Returns pf req.survey_id))
        (λ survey. >>=-Returns _ _ (gate-Returns pf (not (str_eq md.user_id "")) survey) (λ _.
          >>=-Returns _ _ (load_schema-Returns pf req.survey_id req.version)
            (λ doc. submit_parsed-Returns resp_id req (js.unmarshal_schema doc))))
