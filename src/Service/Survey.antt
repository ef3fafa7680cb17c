-- ===== src/Service/Survey.antt =====
-- internal/service/survey/survey.go: the operations of the studio on one survey. The list of surveys
-- is in the child Listing.
pub mod Listing
pub mod Lifecycle
pub mod Released
pub mod Drafted
pub mod Resumed
use wenjuandiaocha_backend.Base.{
  ℕ, ℤ, pos, Bool, true, false, not, ◌&&◌, ◌||◌, String, str_eq, ◌⊹◌, Option, none, some, List, [],
  if◌then◌else◌, eq_ℤ, is_some,
}
use wenjuandiaocha_backend.Platform.{Platform}
use wenjuandiaocha_backend.Domain.Status.{
  status_draft, status_live, status_closed, answer_anonymous, answer_login_required, display_paged,
  display_single,
}
use wenjuandiaocha_backend.Domain.Schema.{SurveyType, SurveySchema}
use wenjuandiaocha_backend.Ecode.{
  GoError, not_found_error, bad_request, conflict, internal, forbidden, is_not_found,
}
use wenjuandiaocha_backend.Rbac.{is_admin}
use wenjuandiaocha_backend.Dao.Tables.{SurveyMeta}
use wenjuandiaocha_backend.Dao.Exec.{M, throw, pure, map_error, ◌>>=◌, ◌>>◌}
use wenjuandiaocha_backend.Dao.Json.{Json}
use wenjuandiaocha_backend.Dao.Store.{
  get_survey, create_survey, update_draft, set_status, set_answer_access, set_display_mode,
  count_responses,
}
use wenjuandiaocha_backend.Dao.Publish
use wenjuandiaocha_backend.Service.Metadata.{Metadata}

-- `errors.Is(err, dao.ErrNotFound)` answers with a message; any other error passes.
unfoldable pub missing_as : String → GoError → GoError
missing_as msg e = if is_not_found e then not_found_error msg else e

-- string(schema.Type)
abbrev pub type_text : SurveyType → String
type_text SurveyType.survey = "survey"
type_text SurveyType.exam = "exam"
type_text SurveyType.vote = "vote"
type_text SurveyType.signup = "signup"
type_text SurveyType.assess = "assess"
type_text SurveyType.review360 = "review360"
type_text (SurveyType.other s) = s

-- The default of an empty text.
abbrev pub or_text : String → String → String
or_text s d = if str_eq s "" then d else s

abbrev pub some_slice {ℓ} : {A : Type ℓ} → Option (List A) → Option (List A)
some_slice none = some []
some_slice (some xs) = some xs

abbrev pub default_type : SurveyType → SurveyType
default_type t = if str_eq (type_text t) "" then SurveyType.survey else t

-- The answer of Stats.
pub record Stats : Type 0 where
  pub status : String
  pub published_version : Option ℤ
  pub response_count : ℕ
  pub answer_access : String
  pub display_mode : String

module _ (pf : Platform) (js : Json pf) (md : Metadata) where
  -- The second layer: the owner, or an administrator. Others learn only that there is nothing.
  unfoldable pub owned : String → M pf (SurveyMeta pf)
  owned id = do
    meta ← map_error (missing_as "不存在") (get_survey pf id)
    if is_admin md.role || str_eq meta.owner_id md.user_id then pure meta else throw forbidden

  -- The zero SurveySchema, which an empty body leaves.
  abbrev pub empty_schema : pf.Raw → SurveySchema pf
  empty_schema absent = record {
    id = "";
    type = SurveyType.other "";
    title = "";
    version = pos 0;
    questions = none;
    rules = none;
    welcome = absent;
  }

  abbrev pub parsed_body : pf.Raw → Option (SurveySchema pf)
  parsed_body body =
      if pf.is_absent body then some (empty_schema body) else js.unmarshal_schema body

  -- The defaults of Create, with the id that the back end gives.
  unfoldable pub with_defaults : String → SurveySchema pf → SurveySchema pf
  with_defaults newid schema = record {
    id = newid;
    type = default_type schema.type;
    title = or_text schema.title "未命名问卷";
    version = if eq_ℤ schema.version (pos 0) then pos 1 else schema.version;
    questions = some_slice schema.questions;
    rules = some_slice schema.rules;
    welcome = schema.welcome;
  }

  abbrev pub create_parsed : String → Option (SurveySchema pf) → M pf String
  create_parsed newid none = throw (bad_request "schema 格式错误")
  create_parsed newid (some schema) = do
    let s = with_defaults newid schema
    create_survey pf js newid md.user_id (type_text s.type) s.title (js.marshal_schema s)
        answer_login_required display_single
    pure newid

  -- `newid` is the random id that id.New gives.
  unfoldable pub create : String → pf.Raw → M pf String
  create newid body = create_parsed newid (parsed_body body)

  -- The copy's schema: a new id, a marked title, the first version.
  unfoldable pub as_copy : String → SurveySchema pf → SurveySchema pf
  as_copy newid schema = record schema {
    id = newid;
    title = schema.title ⊹ "（副本）";
    version = pos 1;
    questions = some_slice schema.questions;
    rules = some_slice schema.rules;
  }

  abbrev pub copy_parsed : String → SurveyMeta pf → Option (SurveySchema pf) → M pf String
  copy_parsed newid meta none = throw (internal "源问卷数据损坏")
  copy_parsed newid meta (some schema) = do
    let s = as_copy newid schema
    create_survey pf js newid md.user_id (type_text s.type) s.title (js.marshal_schema s)
        (or_text meta.answer_access answer_anonymous) (or_text meta.display_mode display_single)
    pure newid

  abbrev pub copy_owned : String → SurveyMeta pf → M pf String
  copy_owned newid meta = copy_parsed newid meta (js.unmarshal_schema meta.draft_schema)

  unfoldable pub copy : String → String → M pf String
  copy newid id = do meta ← owned id; copy_owned newid meta

  unfoldable pub get : String → M pf pf.Raw
  get id = do meta ← owned id; pure meta.draft_schema

  abbrev pub update_parsed : SurveyMeta pf → pf.Raw → Option (SurveySchema pf) → M pf (Unit {0})
  update_parsed meta body none = throw (bad_request "schema 格式错误")
  update_parsed meta body (some schema) =
      update_draft pf js meta.survey_id schema.title (type_text schema.type) body

  -- Only a draft may be edited.
  abbrev pub update_owned : pf.Raw → SurveyMeta pf → M pf (Unit {0})
  update_owned body meta =
      if not (str_eq meta.status status_draft)
      then throw (conflict "已发布的问卷不可编辑")
      else update_parsed meta body (js.unmarshal_schema body)

  unfoldable pub update : String → pf.Raw → M pf (Unit {0})
  update id body = do meta ← owned id; update_owned body meta

  abbrev pub publish_owned : SurveyMeta pf → M pf (ℤ × Bool)
  publish_owned meta = Publish.publish pf js meta.survey_id meta.draft_schema

  unfoldable pub publish : String → M pf (ℤ × Bool)
  publish id = do meta ← owned id; publish_owned meta

  unfoldable pub set_access : String → String → M pf (Unit {0})
  set_access id access =
      if not (str_eq access answer_anonymous) && not (str_eq access answer_login_required)
      then throw (bad_request "作答访问模式非法")
      else (do meta ← owned id; set_answer_access pf meta.survey_id access)

  unfoldable pub set_display : String → String → M pf (Unit {0})
  set_display id mode =
      if not (str_eq mode display_paged) && not (str_eq mode display_single)
      then throw (bad_request "作答页展示模式非法")
      else (do meta ← owned id; set_display_mode pf meta.survey_id mode)

  -- live to closed
  abbrev pub close_owned : SurveyMeta pf → M pf (Unit {0})
  close_owned meta =
      if not (str_eq meta.status status_live)
      then throw (conflict "仅进行中的问卷可结束")
      else set_status pf meta.survey_id status_closed

  unfoldable pub close : String → M pf (Unit {0})
  close id = do meta ← owned id; close_owned meta

  -- closed to live, for a survey that was published once.
  abbrev pub reopen_owned : SurveyMeta pf → M pf (Unit {0})
  reopen_owned meta =
      if not (str_eq meta.status status_closed) || not (is_some meta.published_version)
      then throw (conflict "仅已结束且曾发布过的问卷可重新打开")
      else set_status pf meta.survey_id status_live

  unfoldable pub reopen : String → M pf (Unit {0})
  reopen id = do meta ← owned id; reopen_owned meta

  unfoldable pub stats : String → M pf Stats
  stats id = do
    meta ← owned id
    count ← count_responses pf meta.survey_id
    pure (record {
      status = meta.status;
      published_version = meta.published_version;
      response_count = count;
      answer_access = or_text meta.answer_access answer_anonymous;
      display_mode = or_text meta.display_mode display_single;
    })
