-- ===== src/Service/Returns/Studio.antt =====
-- The calls of internal/service/survey on one survey return, but for Publish of a draft `null`.
use wenjuandiaocha_backend.Base.{
  not, ◌||◌, ◌&&◌, is_some, String, str_eq, Option, none, some, arith,
}
use wenjuandiaocha_backend.Platform.{Platform}
use wenjuandiaocha_backend.Ecode.{forbidden, bad_request, conflict, internal}
use wenjuandiaocha_backend.Rbac.{is_admin}
use wenjuandiaocha_backend.Domain.Schema.{SurveySchema}
use wenjuandiaocha_backend.Dao.Tables.{SurveyMeta}
use wenjuandiaocha_backend.Dao.Exec.Ends.{
  IsCoded, Returns, >>=-Returns, if-Returns, map_error-Returns, pure-Returns, throw-Returns,
}
use wenjuandiaocha_backend.Dao.Json.{Json}
use wenjuandiaocha_backend.Service.Metadata.{Metadata}
use wenjuandiaocha_backend.Service.Survey.{
  owned, create_parsed, parsed_body, create, copy_parsed, copy, get, update_parsed, update,
  set_access, set_display, close, reopen, stats,
}
use wenjuandiaocha_backend.Service.Returns.Statements.{
  missing_as-IsCoded, get_survey-Returns, count_responses-Returns, set_status-Returns,
  set_answer_access-Returns, set_display_mode-Returns, create_survey-Returns, update_draft-Returns,
}

bad_request-IsCoded : (msg : String) → IsCoded (bad_request msg)
unfolding bad_request
bad_request-IsCoded msg z = absurd (omega arith)

conflict-IsCoded : (msg : String) → IsCoded (conflict msg)
unfolding conflict
conflict-IsCoded msg z = absurd (omega arith)

internal-IsCoded : (msg : String) → IsCoded (internal msg)
unfolding internal
internal-IsCoded msg z = absurd (omega arith)

forbidden-IsCoded : IsCoded forbidden
unfolding forbidden
forbidden-IsCoded z = absurd (omega arith)

module _ (pf : Platform) (js : Json pf) (md : Metadata) where
  pub owned-Returns : (id : String) → Returns (owned pf js md id)
  unfolding owned
  owned-Returns id =
      >>=-Returns _ _ (map_error-Returns _ _ (missing_as-IsCoded "不存在") (get_survey-Returns pf id))
        (λ meta.
          if-Returns (is_admin md.role || str_eq meta.owner_id md.user_id) _ _
            (pure-Returns pf meta) (throw-Returns pf _ _ forbidden-IsCoded))

  create_parsed-Returns :
      (newid : String) (o : Option (SurveySchema pf)) → Returns (create_parsed pf js md newid o)
  create_parsed-Returns newid none = throw-Returns pf _ _ (bad_request-IsCoded _)
  create_parsed-Returns newid (some schema) =
      >>=-Returns _ _ (create_survey-Returns pf js newid md.user_id _ _ _ "login_required" "single")
        (λ _. pure-Returns pf newid)

  pub create-Returns : (newid : String) (body : pf.Raw) → Returns (create pf js md newid body)
  unfolding create
  create-Returns newid body = create_parsed-Returns newid (parsed_body pf js md body)

  copy_parsed-Returns :
      (newid : String) (meta : SurveyMeta pf) (o : Option (SurveySchema pf))
      → Returns (copy_parsed pf js md newid meta o)
  copy_parsed-Returns newid meta none = throw-Returns pf _ _ (internal-IsCoded _)
  copy_parsed-Returns newid meta (some schema) =
      >>=-Returns _ _ (create_survey-Returns pf js newid md.user_id _ _ _ _ _)
        (λ _. pure-Returns pf newid)

  pub copy-Returns : (newid id : String) → Returns (copy pf js md newid id)
  unfolding copy
  copy-Returns newid id =
      >>=-Returns _ _ (owned-Returns id)
        (λ meta. copy_parsed-Returns newid meta (js.unmarshal_schema meta.draft_schema))

  pub get-Returns : (id : String) → Returns (get pf js md id)
  unfolding get
  get-Returns id = >>=-Returns _ _ (owned-Returns id) (λ meta. pure-Returns pf _)

  update_parsed-Returns :
      (meta : SurveyMeta pf) (body : pf.Raw) (o : Option (SurveySchema pf))
      → Returns (update_parsed pf js md meta body o)
  update_parsed-Returns meta body none = throw-Returns pf _ _ (bad_request-IsCoded _)
  update_parsed-Returns meta body (some schema) =
      update_draft-Returns pf js meta.survey_id schema.title _ body

  pub update-Returns : (id : String) (body : pf.Raw) → Returns (update pf js md id body)
  unfolding update
  update-Returns id body = >>=-Returns _ _ (owned-Returns id) (λ meta.
      if-Returns (not (str_eq meta.status "draft")) _ _ (throw-Returns pf _ _ (conflict-IsCoded _))
        (update_parsed-Returns meta body (js.unmarshal_schema body)))

  pub set_access-Returns : (id access : String) → Returns (set_access pf js md id access)
  unfolding set_access
  set_access-Returns id access =
      if-Returns (not (str_eq access "anonymous") && not (str_eq access "login_required")) _ _
        (throw-Returns pf _ _ (bad_request-IsCoded _))
        (>>=-Returns _ _ (owned-Returns id)
          (λ meta. set_answer_access-Returns pf meta.survey_id access))

  pub set_display-Returns : (id mode : String) → Returns (set_display pf js md id mode)
  unfolding set_display
  set_display-Returns id mode =
      if-Returns (not (str_eq mode "paged") && not (str_eq mode "single")) _ _
        (throw-Returns pf _ _ (bad_request-IsCoded _))
        (>>=-Returns _ _ (owned-Returns id)
          (λ meta. set_display_mode-Returns pf meta.survey_id mode))

  pub close-Returns : (id : String) → Returns (close pf js md id)
  unfolding close
  close-Returns id = >>=-Returns _ _ (owned-Returns id) (λ meta.
      if-Returns (not (str_eq meta.status "live")) _ _ (throw-Returns pf _ _ (conflict-IsCoded _))
        (set_status-Returns pf meta.survey_id "closed"))

  pub reopen-Returns : (id : String) → Returns (reopen pf js md id)
  unfolding reopen
  reopen-Returns id = >>=-Returns _ _ (owned-Returns id) (λ meta.
      if-Returns (not (str_eq meta.status "closed") || not (is_some meta.published_version)) _ _
        (throw-Returns pf _ _ (conflict-IsCoded _)) (set_status-Returns pf meta.survey_id "live"))

  pub stats-Returns : (id : String) → Returns (stats pf js md id)
  unfolding stats
  stats-Returns id =
      >>=-Returns _ _ (owned-Returns id) (λ meta.
        >>=-Returns _ _ (count_responses-Returns pf meta.survey_id) (λ n. pure-Returns pf _))
