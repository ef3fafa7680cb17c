-- ===== src/Dao/Store.antt =====
-- internal/dao/methods.go: the business methods over the queries, with pgx.ErrNoRows made ErrNotFound.
use wenjuandiaocha_backend.Base.{ℕ, ℤ, Bool, true, String, str_eq, List, if◌then◌else◌}
use wenjuandiaocha_backend.Platform.{Platform}
use wenjuandiaocha_backend.Ecode.{GoError, is_no_rows}
use wenjuandiaocha_backend.Dao.Tables.{User, Session, SurveyMeta}
use wenjuandiaocha_backend.Dao.Exec.{M, map_error, pure, ◌>>=◌}
use wenjuandiaocha_backend.Dao.Json.{Json}
unfoldable pub use wenjuandiaocha_backend.Dao.Gen.Rows.{
  one_row, find, update_where, keep, take, drop,
}
unfoldable pub use wenjuandiaocha_backend.Dao.Gen.Sessions.{with_role}
unfoldable pub use wenjuandiaocha_backend.Dao.Gen.Surveys.{
  find_survey, set_survey, schema_of, version_schema, pointed_schema, published_schema, with_jsonb,
}
pub use wenjuandiaocha_backend.Dao.Gen.Listing.{SurveyListParams}
unfoldable pub use wenjuandiaocha_backend.Dao.Gen.Listing.{
  passes, is_listed, page_of, list_rows, count_rows,
}
use wenjuandiaocha_backend.Dao.Gen.Users
use wenjuandiaocha_backend.Dao.Gen.Sessions
use wenjuandiaocha_backend.Dao.Gen.Surveys
use wenjuandiaocha_backend.Dao.Gen.Responses

-- pgx.ErrNoRows becomes ErrNotFound.
unfoldable pub to_not_found : GoError → GoError
unfolding is_no_rows
to_not_found e = if is_no_rows e then GoError.not_found else e

module _ (pf : Platform) where
  unfoldable pub create_user : User → M pf (Unit {0})
  create_user u = Users.create_user pf u

  unfoldable pub get_user_by_account : String → M pf User
  get_user_by_account account = map_error to_not_found (Users.get_user_by_account pf account)

  unfoldable pub get_user_by_id : String → M pf User
  get_user_by_id id = map_error to_not_found (Users.get_user_by_id pf id)

  unfoldable pub create_session : Session → M pf (Unit {0})
  create_session s = Sessions.create_session pf s

  unfoldable pub get_session : String → M pf (String × String × ℕ)
  get_session token = map_error to_not_found (Sessions.get_session pf token)

  unfoldable pub delete_session : String → M pf (Unit {0})
  delete_session token = Sessions.delete_session pf token

  unfoldable pub get_survey : String → M pf (SurveyMeta pf)
  get_survey id = map_error to_not_found (Surveys.get_survey pf id)

  unfoldable pub set_status : String → String → M pf (Unit {0})
  set_status id status = Surveys.set_status pf id status

  unfoldable pub set_answer_access : String → String → M pf (Unit {0})
  set_answer_access id access = Surveys.set_answer_access pf id access

  unfoldable pub set_display_mode : String → String → M pf (Unit {0})
  set_display_mode id mode = Surveys.set_display_mode pf id mode

  unfoldable pub get_published_schema : String → M pf pf.Raw
  get_published_schema id = map_error to_not_found (Surveys.get_published_schema pf id)

  unfoldable pub get_version_schema : String → ℤ → M pf pf.Raw
  get_version_schema id v = map_error to_not_found (Surveys.get_version_schema pf id v)

  unfoldable pub count_responses : String → M pf ℕ
  count_responses id = Responses.count_responses pf id

  -- The page and the count, by two statements. `ilike` is the ILIKE of Postgres.
  unfoldable pub list_where :
      (String → String → Bool)
      → (SurveyMeta pf → Bool)
      → SurveyListParams pf
      → M pf (List (SurveyMeta pf) × ℕ)
  unfolding list_rows count_rows
  list_where ilike mine p = do
    rows ← list_rows pf ilike mine p
    total ← count_rows pf ilike mine p
    pure (rows, total)

  unfoldable pub list_surveys_by_owner :
      (String → String → Bool) → String → SurveyListParams pf → M pf (List (SurveyMeta pf) × ℕ)
  unfolding list_where
  list_surveys_by_owner ilike owner p = list_where ilike (λ s. str_eq s.owner_id owner) p

  unfoldable pub list_all_surveys :
      (String → String → Bool) → SurveyListParams pf → M pf (List (SurveyMeta pf) × ℕ)
  unfolding list_where
  list_all_surveys ilike p = list_where ilike (λ s. true) p

module _ (pf : Platform) (js : Json pf) where
  unfoldable pub create_survey :
      (id owner type title : String)
      → pf.Raw
      → (answer_access display_mode : String) → M pf (Unit {0})
  create_survey id owner type title draft access display =
      Surveys.create_survey pf js id owner type title draft access display

  unfoldable pub update_draft : (id title type : String) → pf.Raw → M pf (Unit {0})
  update_draft id title type draft = Surveys.update_draft pf js id title type draft
