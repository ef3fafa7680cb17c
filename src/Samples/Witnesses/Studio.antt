-- ===== src/Samples/Witnesses/Studio.antt =====
-- The theorems on the tables, the services and the roles, at work on the sample world.
use wenjuandiaocha_backend.Dao.Publish
use wenjuandiaocha_backend.Base.{
  pos, true, String, List, [], ◌∷◌, none, some, is_some, length, leb, All, ◌≡◌, ◌≢◌, refl,
  trim_space, str_eq, ne-nil,
}
use wenjuandiaocha_backend.Domain.Schema.{SurveySchema, NormalizedRow, Scalar}
use wenjuandiaocha_backend.Rbac.{can, is_admin}
use wenjuandiaocha_backend.Dao.Tables.{SurveyMeta}
use wenjuandiaocha_backend.Dao.Exec.Laws.{AllOrNothing}
use wenjuandiaocha_backend.Dao.Submission.{save_submission}
use wenjuandiaocha_backend.Dao.Submission.Atomic.{IsSaved, save_submission-AllOrNothing}
use wenjuandiaocha_backend.Dao.Publish.Atomic.{IsPublished}
use wenjuandiaocha_backend.Service.Submission.{submit}
use wenjuandiaocha_backend.Service.Submission.Accepted.{Accepted, submit-AllOrNothing}
use wenjuandiaocha_backend.Service.Survey.{publish, type_text, reopen, update}
use wenjuandiaocha_backend.Service.Survey.Lifecycle.{
  MayEdit, Changes, reopen-AllOrNothing, update-Draft,
}
use wenjuandiaocha_backend.Service.Survey.Listing.Scope.{scoped_rows-Own}
use wenjuandiaocha_backend.Service.Middleware.Guarded.{IsLetIn, require_auth-passed}
use wenjuandiaocha_backend.Service.Survey.Released.{publish-MayEdit}
use wenjuandiaocha_backend.Service.Auth.{login, logout, me, validate_session}
use wenjuandiaocha_backend.Service.Auth.Answers.{login-IsRefused}
use wenjuandiaocha_backend.Service.Survey.Listing.{
  page_offset, trim_to_ptr, escape_like, page_size, pages_before, list_params, scoped_rows, list,
}
use wenjuandiaocha_backend.Service.Survey.Listing.Offset.{
  on_page, page_rows, first_pages, first_pages-take,
}
use wenjuandiaocha_backend.Base.{ltb_ℤ, trim_space, ℤ, ℕ}
use wenjuandiaocha_backend.Service.Survey.Listing.{ListReq}
use wenjuandiaocha_backend.Dao.Exec.{World, err}
use wenjuandiaocha_backend.Ecode.{unauthorized}
use wenjuandiaocha_backend.Samples.{
  Doc, survey_doc, answers_doc, meta_doc, schema_in, sample_pf, sample_registry, sample_json,
  sample_request, sample_world, survey_row, visitor, ann, every_survey,
}
use wenjuandiaocha_backend.Service.Middleware.{check_action, require_auth}
use wenjuandiaocha_backend.Dao.Store.{
  to_not_found, create_user, get_user_by_account, get_user_by_id, create_session, get_session,
  delete_session, get_survey, set_status, set_answer_access, set_display_mode, get_published_schema,
  get_version_schema, count_responses, list_where, list_surveys_by_owner, list_all_surveys,
  create_survey, update_draft,
}
use wenjuandiaocha_backend.Dao.Gen.Listing.{is_listed, page_of, list_rows, count_rows}

abbrev sample_rows : List (NormalizedRow sample_pf)
sample_rows =
    record { qid = "q1"; sub_id = ""; value = Scalar.text "a" }
    ∷ record { qid = "q3"; sub_id = "r1"; value = Scalar.number (pos 7) }
    ∷ []

-- Ann's surveys, the newest first.
abbrev ann_rows : List (SurveyMeta sample_pf)
ann_rows =
    survey_row "s3" "u2" "closed" (some (pos 1))
    ∷ survey_row "s2" "u2" "draft" none
    ∷ survey_row "s1" "u2" "live" (some (pos 1))
    ∷ []

submit_example :
    AllOrNothing
      (Accepted sample_pf sample_json sample_registry visitor "p1" sample_request sample_world.db)
      sample_world.db
      (submit sample_pf sample_json sample_registry visitor "p1" sample_request sample_world)
submit_example =
    submit-AllOrNothing sample_pf sample_json sample_registry visitor "p1" sample_request
      sample_world

save_submission_example :
    AllOrNothing
      (λ _ after.
        IsSaved sample_pf sample_json "p1" "s1"
          (pos 1)
          answers_doc
          meta_doc
          sample_rows
          sample_world.db
          after)
      sample_world.db
      (save_submission sample_pf sample_json "p1" "s1"
        (pos 1)
        answers_doc
        meta_doc
        sample_rows
        sample_world)
save_submission_example =
    save_submission-AllOrNothing sample_pf sample_json "p1" "s1" (pos 1) answers_doc meta_doc
      sample_rows sample_world

require_auth_example :
    (token : String) × (some "t2" ≡ some token)
    × (token ≢ "")
    × IsLetIn sample_pf "survey:list" token visitor sample_world
        (record ann { client_ip = "10.0.0.1" })
        sample_world
unfolding check_action require_auth login logout me validate_session to_not_found create_user
    get_user_by_account get_user_by_id create_session get_session delete_session get_survey
    set_status set_answer_access set_display_mode get_published_schema get_version_schema
    count_responses list_where list_surveys_by_owner list_all_surveys create_survey update_draft can
    is_admin
require_auth_example =
    require_auth-passed sample_pf "survey:list" (some "t2") visitor
      (record ann { client_ip = "10.0.0.1" }) sample_world sample_world refl

reopen_example :
    AllOrNothing
      (λ _ after.
        Changes sample_pf sample_json ann "s3"
          (λ s. (s.status ≡ "closed") × (is_some s.published_version ≡ true))
          (λ s. record s { status = "live"; updated_at = sample_world.now })
          sample_world.db
          after)
      sample_world.db
      (reopen sample_pf sample_json ann "s3" sample_world)
reopen_example = reopen-AllOrNothing sample_pf sample_json ann "s3" sample_world

update_example :
    AllOrNothing
      (λ _ after.
        (schema : SurveySchema sample_pf) × (doc : Doc) × (schema_in survey_doc ≡ some schema)
        × (some survey_doc ≡ some doc)
        × Changes sample_pf sample_json ann "s2"
            (λ s. s.status ≡ "draft")
            (λ s. record s {
              draft_schema = doc;
              title = schema.title;
              type = type_text schema.type;
              updated_at = sample_world.now;
            })
            sample_world.db
            after)
      sample_world.db
      (update sample_pf sample_json ann "s2" survey_doc sample_world)
update_example = update-Draft sample_pf sample_json ann "s2" survey_doc sample_world

scoped_rows_example :
    All (λ (s : SurveyMeta sample_pf). s.owner_id ≡ "u2") ann_rows
    × (leb (length ann_rows) 100 ≡ true)
    × (sample_world.db ≡ sample_world.db)
unfolding trim_to_ptr escape_like page_size pages_before page_offset list_params scoped_rows list
    to_not_found create_user get_user_by_account get_user_by_id create_session get_session
    delete_session get_survey set_status set_answer_access set_display_mode get_published_schema
    get_version_schema count_responses list_where list_surveys_by_owner list_all_surveys
    create_survey update_draft is_listed page_of list_rows count_rows can is_admin trim_space
scoped_rows_example =
    scoped_rows-Own sample_pf (λ s p. true) ann every_survey ann_rows 3 sample_world sample_world
      refl refl

publish_draft_example :
    AllOrNothing
      (λ r after.
        (s : SurveyMeta sample_pf) × MayEdit sample_pf sample_json ann "s2" sample_world.db s
        × IsPublished sample_pf sample_json s.survey_id s.draft_schema sample_world.now
            sample_world.db r after)
      sample_world.db
      (publish sample_pf sample_json ann "s2" sample_world)
publish_draft_example = publish-MayEdit sample_pf sample_json ann "s2" sample_world

login_example :
    (end : World sample_pf) × (login sample_pf 60 str_eq (some "t9") "bob" "h1" sample_world
      ≡ (err (unauthorized "账号或密码错误"), end))
    × (end.db ≡ sample_world.db)
login_example =
    login-IsRefused sample_pf 60 str_eq (some "t9") "bob" "h1" sample_world (ne-nil "bob" refl)
      (λ u e. cc e)

abbrev asked : ListReq
asked = record { q = ""; status = ""; type = ""; limit = pos 2; page = pos 1 }

first_pages_example :
    (first_pages sample_pf {A = ℕ} asked 2 (1 ∷ 2 ∷ 3 ∷ 4 ∷ 5 ∷ []) ≡ 1 ∷ 2 ∷ 3 ∷ 4 ∷ [])
    × ((page : ℤ)
        → ltb_ℤ page (pos 1) ≡ true
        → page_rows sample_pf {A = ℕ} (on_page asked page) (1 ∷ 2 ∷ 3 ∷ 4 ∷ 5 ∷ [])
          ≡ page_rows sample_pf {A = ℕ} (on_page asked (pos 1)) (1 ∷ 2 ∷ 3 ∷ 4 ∷ 5 ∷ []))
unfolding page_size trim_to_ptr trim_space
first_pages_example = first_pages-take sample_pf {A = ℕ} asked 2 (1 ∷ 2 ∷ 3 ∷ 4 ∷ 5 ∷ []) refl refl
