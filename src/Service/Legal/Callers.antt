-- ===== src/Service/Legal/Callers.antt =====
-- The calls of internal/service/auth and internal/service/submission, and the list of surveys, keep
-- the tables sound.
use wenjuandiaocha_backend.Base.{
  ℕ, ℤ, pos, ltb_ℤ, ltb, Bool, true, not, String, str_eq, Option, none, some, List, [], ◌∷◌, ◌+◌,
}
use wenjuandiaocha_backend.Platform.{Platform}
use wenjuandiaocha_backend.Ecode.{GoError, unauthorized}
use wenjuandiaocha_backend.Rbac.{is_admin}
use wenjuandiaocha_backend.Domain.Schema.{SurveySchema}
use wenjuandiaocha_backend.Domain.Registry.{Registry}
use wenjuandiaocha_backend.Domain.Validate.{ValidationError, validate_survey}
use wenjuandiaocha_backend.Dao.Tables.{User, Session, SurveyMeta}
use wenjuandiaocha_backend.Dao.Exec.{M, World, Result, ok, err, panic, pure, throw, ◌>>=◌}
use wenjuandiaocha_backend.Dao.Json.{Json}
use wenjuandiaocha_backend.Dao.Store.{
  SurveyListParams, get_user_by_account, get_user_by_id, create_session, get_session, get_survey,
  get_published_schema, get_version_schema, delete_session, list_where, list_rows, count_rows,
  list_all_surveys, list_surveys_by_owner,
}
use wenjuandiaocha_backend.Dao.Sound.{Legal, Legal-refl}
use wenjuandiaocha_backend.Dao.Sound.Calls.{
  Keeps, >>=-Keeps, if-Keeps, map_error-Keeps, pure-Keeps, throw-Keeps, query-Keeps,
}
use wenjuandiaocha_backend.Dao.Sound.Statements.{
  create_session-Keeps, delete_session-Keeps, save_submission-Keeps,
}
use wenjuandiaocha_backend.Service.Metadata.{Metadata}
use wenjuandiaocha_backend.Service.Auth.{
  LoginResp, auth_user, ignore_error, ignored, open_session, login, logout, me, check_expiry,
  validate_session,
}
use wenjuandiaocha_backend.Service.Submission.{
  SubmitReq, get_published, load_schema, gate, pass_gate, save_valid, submit_parsed, submit,
}
use wenjuandiaocha_backend.Service.Survey.Listing.{ListReq, list_params, scoped_rows, list}

module _ (pf : Platform) where
  ignore_error-Legal :
      (w : World pf) (r : Result (Unit {0}) × World pf)
      → Legal pf w.db r.1.db
      → Legal pf w.db (ignore_error pf r).1.db
  ignore_error-Legal w (ok a, u) h = h
  ignore_error-Legal w (err e, u) h = h
  ignore_error-Legal w (panic, u) h = h

  ignored-Keeps : (m : M pf (Unit {0})) → Keeps m → Keeps (ignored pf m)
  unfolding Keeps
  ignored-Keeps m h w = ignore_error-Legal w (m w) (h w)

  module _ (ttl : ℕ) (check : (hash plain : String) → Bool) where
    open_session-Keeps :
        (u : User) (token : Option String) → Keeps (open_session pf ttl check u token)
    unfolding Keeps
    open_session-Keeps u none = λ w. Legal-refl pf w.db
    open_session-Keeps u (some token) = λ w.
        let session : Session = record {
          token = token;
          user_id = u.user_id;
          expires_at = w.now + ttl;
        } in
        let resp : LoginResp = record {
          user = auth_user u;
          token = token;
          expires = w.now + ttl;
        } in
        >>=-Keeps (create_session pf session) (λ _. pure resp) (create_session-Keeps pf session)
          (λ _. pure-Keeps pf resp) w

    pub login-Keeps :
        (token : Option String) (account password : String)
        → Keeps (login pf ttl check token account password)
    unfolding login get_user_by_account
    login-Keeps token account password = if-Keeps (str_eq account "") _ _ (throw-Keeps pf _ _) (
        >>=-Keeps _ _ (map_error-Keeps _ _ (map_error-Keeps _ _ (query-Keeps _))) (λ u.
          if-Keeps (not (check u.password_hash password)) _ _ (throw-Keeps pf _ _)
            (open_session-Keeps u token)))

  pub logout-Keeps : (md : Metadata) → Keeps (logout pf md)
  unfolding logout
  logout-Keeps md =
      if-Keeps (str_eq md.token "") _ _ (pure-Keeps pf tt)
        (ignored-Keeps _ (delete_session-Keeps pf md.token))

  pub me-Keeps : (md : Metadata) → Keeps (me pf md)
  unfolding me get_user_by_id
  me-Keeps md = >>=-Keeps _ _ (map_error-Keeps _ _ (query-Keeps _)) (λ u. pure-Keeps pf _)

  check_expiry-Keeps :
      (token : String) (found : String × String × ℕ) → Keeps (check_expiry pf token found)
  unfolding Keeps
  check_expiry-Keeps token (user, role, expires) w =
      let expired : GoError = unauthorized "会话已过期" in
      let found : String × String = (user, role) in
      let gone : M pf (String × String) =
        ignored pf (delete_session pf token) >>= (λ _. throw expired) in
      if-Keeps (ltb expires w.now) gone (pure found)
        (>>=-Keeps (ignored pf (delete_session pf token)) (λ _. throw expired)
          (ignored-Keeps _ (delete_session-Keeps pf token))
          (λ _. throw-Keeps pf (String × String) expired))
        (pure-Keeps pf found) w

  pub validate_session-Keeps : (md : Metadata) → Keeps (validate_session pf md)
  unfolding validate_session get_session
  validate_session-Keeps md =
      >>=-Keeps _ _ (map_error-Keeps _ _ (map_error-Keeps _ _ (query-Keeps _)))
        (check_expiry-Keeps md.token)

  pub get_published-Keeps : (id : String) → Keeps (get_published pf id)
  unfolding get_published get_published_schema get_survey
  get_published-Keeps id =
      >>=-Keeps _ _ (map_error-Keeps _ _ (map_error-Keeps _ _ (query-Keeps _))) (λ schema.
        >>=-Keeps _ _ (map_error-Keeps _ _ (map_error-Keeps _ _ (query-Keeps _)))
          (λ meta. pure-Keeps pf _))

  load_schema-Keeps : (id : String) (v : ℤ) → Keeps (load_schema pf id v)
  unfolding load_schema get_published_schema get_version_schema
  load_schema-Keeps id v =
      if-Keeps (ltb_ℤ (pos 0) v) _ _ (map_error-Keeps _ _ (map_error-Keeps _ _ (query-Keeps _)))
        (map_error-Keeps _ _ (map_error-Keeps _ _ (query-Keeps _)))

  pass_gate-Keeps : (o : Option GoError) → Keeps (pass_gate pf o)
  pass_gate-Keeps none = pure-Keeps pf tt
  pass_gate-Keeps (some e) = throw-Keeps pf _ e

  list_where-Keeps :
      (ilike : String → String → Bool) (mine : SurveyMeta pf → Bool) (p : SurveyListParams pf)
      → Keeps (list_where pf ilike mine p)
  unfolding list_where list_rows count_rows
  list_where-Keeps ilike mine p =
      >>=-Keeps _ _ (query-Keeps _) (λ rows. >>=-Keeps _ _ (query-Keeps _) (λ n. pure-Keeps pf _))

  pub list-Keeps :
      (ilike : String → String → Bool) (format_time : ℕ → String) (md : Metadata) (req : ListReq)
      → Keeps (list pf ilike format_time md req)
  unfolding list scoped_rows list_all_surveys list_surveys_by_owner
  list-Keeps ilike format_time md req =
      >>=-Keeps _ _
        (if-Keeps (is_admin md.role) _ _ (list_where-Keeps ilike (λ s. true) (list_params pf req))
          (list_where-Keeps ilike (λ s. str_eq s.owner_id md.user_id) (list_params pf req)))
        (λ r. pure-Keeps pf _)

module _ (pf : Platform) (js : Json pf) (reg : Registry pf) (md : Metadata) where
  save_valid-Keeps :
      (resp_id : String) (req : SubmitReq pf) (schema : SurveySchema pf) (es : List ValidationError)
      → Keeps (save_valid pf js reg md resp_id req schema es)
  unfolding save_valid
  save_valid-Keeps resp_id req schema (e ∷ es) = throw-Keeps pf _ _
  save_valid-Keeps resp_id req schema [] =
      >>=-Keeps _ _ (save_submission-Keeps pf js resp_id req.survey_id schema.version _ _ _)
        (λ _. pure-Keeps pf _)

  submit_parsed-Keeps :
      (resp_id : String) (req : SubmitReq pf) (o : Option (SurveySchema pf))
      → Keeps (submit_parsed pf js reg md resp_id req o)
  submit_parsed-Keeps resp_id req none = throw-Keeps pf _ _
  submit_parsed-Keeps resp_id req (some schema) =
      save_valid-Keeps resp_id req schema (validate_survey pf reg schema req.answers)

  pub submit-Keeps :
      (resp_id : String) (req : SubmitReq pf) → Keeps (submit pf js reg md resp_id req)
  unfolding submit get_survey
  submit-Keeps resp_id req =
      >>=-Keeps _ _ (map_error-Keeps _ _ (map_error-Keeps _ _ (query-Keeps _))) (λ survey.
        >>=-Keeps _ _ (pass_gate-Keeps pf (gate pf (not (str_eq md.user_id "")) survey)) (λ _.
          >>=-Keeps _ _ (load_schema-Keeps pf req.survey_id req.version)
            (λ doc. submit_parsed-Keeps resp_id req (js.unmarshal_schema doc))))
