-- ===== src/Service/Submission.antt =====
-- internal/service/submission/submission.go: the published survey, and answer sheets.
pub mod Accepted
use wenjuandiaocha_backend.Base.{
  ℕ, ℤ, pos, ltb_ℤ, Bool, true, false, not, ◌&&◌, String, str_eq, Option, none, some, List, [], ◌∷◌,
  if◌then◌else◌, length,
}
use wenjuandiaocha_backend.Platform.{Platform}
use wenjuandiaocha_backend.Domain.Status.{
  status_live, answer_anonymous, answer_login_required, display_single,
}
use wenjuandiaocha_backend.Domain.Schema.{SurveySchema, Answers, NormalizedRow}
use wenjuandiaocha_backend.Domain.Registry.{Registry}
use wenjuandiaocha_backend.Domain.Validate.{ValidationError, validate_survey}
use wenjuandiaocha_backend.Domain.Normalize.{normalize_survey}
use wenjuandiaocha_backend.Ecode.{
  GoError, not_found_error, bad_request, unauthorized, validation, is_not_found,
}
use wenjuandiaocha_backend.Dao.Tables.{SurveyMeta}
use wenjuandiaocha_backend.Dao.Exec.{M, throw, pure, map_error, ◌>>=◌, ◌>>◌}
use wenjuandiaocha_backend.Dao.Json.{Json}
use wenjuandiaocha_backend.Dao.Store.{get_survey, get_published_schema, get_version_schema}
use wenjuandiaocha_backend.Dao.Submission.{save_submission}
use wenjuandiaocha_backend.Service.Metadata.{Metadata}
use wenjuandiaocha_backend.Service.Survey.{missing_as, or_text}

-- The answer of GetPublished.
pub record Published (pf : Platform) : Type 0 where
  pub schema : pf.Raw
  pub answer_access : String
  pub display_mode : String

pub record SubmitReq (pf : Platform) : Type 0 where
  pub survey_id : String
  pub answers : Answers pf
  pub version : ℤ

unfoldable pub unpublished : GoError → GoError
unpublished = missing_as "问卷不存在或未发布"

unfoldable pub stale_version : GoError → GoError
stale_version e = if is_not_found e then bad_request "问卷版本已失效,请刷新后重新作答" else e

module _ (pf : Platform) where
  unfoldable pub get_published : String → M pf (Published pf)
  get_published id = do
    schema ← map_error unpublished (get_published_schema pf id)
    meta ← map_error unpublished (get_survey pf id)
    pure (record {
      schema = schema;
      answer_access = or_text meta.answer_access answer_anonymous;
      display_mode = or_text meta.display_mode display_single;
    })

  -- A given version, or the one that is published now.
  unfoldable pub load_schema : String → ℤ → M pf pf.Raw
  load_schema id version =
      if ltb_ℤ (pos 0) version
      then map_error stale_version (get_version_schema pf id version)
      else map_error unpublished (get_published_schema pf id)

  -- The gates: the survey is live, and the path fits its answer access.
  unfoldable pub gate : Bool → SurveyMeta pf → Option GoError
  gate authenticated survey =
      if not (str_eq survey.status status_live)
      then some (not_found_error "问卷不存在或未发布")
      else if str_eq survey.answer_access answer_login_required && not authenticated
      then some (unauthorized "该问卷需登录后作答")
      else if not (str_eq survey.answer_access answer_login_required) && authenticated
      then some (bad_request "该问卷为匿名作答,请通过公开链接提交")
      else none

  abbrev pub pass_gate : Option GoError → M pf (Unit {0})
  pass_gate none = pure tt
  pass_gate (some e) = throw e

module _ (pf : Platform) (js : Json pf) (reg : Registry pf) (md : Metadata) where
  -- What is stored: the rows that the back end makes, under the schema's own version.
  unfoldable pub save_valid :
      String → SubmitReq pf → SurveySchema pf → List ValidationError → M pf ℕ
  save_valid resp_id req schema (e ∷ es) = throw (validation (e ∷ es))
  save_valid resp_id req schema [] = do
    let rows = normalize_survey pf reg schema req.answers
    save_submission pf js resp_id req.survey_id schema.version (js.marshal_answers req.answers)
        (js.marshal_meta md.client_ip md.user_agent) rows
    pure (length rows)

  abbrev pub submit_parsed : String → SubmitReq pf → Option (SurveySchema pf) → M pf ℕ
  submit_parsed resp_id req none = throw GoError.bad_json
  submit_parsed resp_id req (some schema) =
      save_valid resp_id req schema (validate_survey pf reg schema req.answers)

  -- `resp_id` is the random id that id.New gives. A caller with a user id has logged in.
  unfoldable pub submit : String → SubmitReq pf → M pf ℕ
  submit resp_id req = do
    survey ← map_error unpublished (get_survey pf req.survey_id)
    pass_gate pf (gate pf (not (str_eq md.user_id "")) survey)
    doc ← load_schema pf req.survey_id req.version
    submit_parsed resp_id req (js.unmarshal_schema doc)
