-- ===== src/Samples/Overlapping.antt =====
-- Two requests that overlap: Ann edits her draft in one window and publishes it in another.
use wenjuandiaocha_backend.Base.{String, Option, none, some, [], ◌≡◌, refl}
use wenjuandiaocha_backend.Dao.Tables.{SurveyMeta}
use wenjuandiaocha_backend.Dao.Store.{find_survey, get_survey, get_session, update_draft}
use wenjuandiaocha_backend.Dao.Publish.{is_unchanged, publish_next, stamp_version}
use wenjuandiaocha_backend.Dao.Gen.Snapshots.{max_version, add_version, set_published}
use wenjuandiaocha_backend.Rbac.{is_admin, can}
use wenjuandiaocha_backend.Dao.Exec.{ok}
use wenjuandiaocha_backend.Dao.Sound.{IsSound}
use wenjuandiaocha_backend.Dao.Sound.Persists.{Persists}
use wenjuandiaocha_backend.Service.Survey.{owned, publish}
use wenjuandiaocha_backend.Service.Survey.Resumed.{resume, updating}
use wenjuandiaocha_backend.Http.Routes.{Endpoint, guard_of}
use wenjuandiaocha_backend.Http.Serve.{State, serve, recovered, chain, handle}
use wenjuandiaocha_backend.Http.Handlers.{publish_survey}
use wenjuandiaocha_backend.Service.Middleware.{require_auth, check_action}
use wenjuandiaocha_backend.Service.Auth.{validate_session}
use wenjuandiaocha_backend.Http.Serve.Overlap.{
  Overlap, begun, served, resumed, seen, left_by, Overlap-Persists,
}
use wenjuandiaocha_backend.Samples.{sample_pf, sample_json, survey_row, ann, Doc, numbered_doc}
use wenjuandiaocha_backend.Samples.Server.{
  sample_ar, sample_server, sample_state, asks, sample-IsSound,
}

abbrev released_state : State sample_pf
released_state =
    (serve sample_pf sample_ar sample_server (asks "POST" (some "t2") "s2" Endpoint.publish_survey)
      sample_state).1

abbrev read_row : SurveyMeta sample_pf
read_row = survey_row "s2" "u2" "draft" none

abbrev edited_state : State sample_pf
edited_state = left_by sample_pf released_state (
    resume sample_pf sample_json ann (updating numbered_doc) read_row
      (seen sample_pf released_state 60 []))

owned_read :
    (owned sample_pf sample_json ann "s2" (seen sample_pf sample_state 50 [])).0 ≡ ok read_row
unfolding owned get_survey is_admin
owned_read = refl

course : Overlap sample_pf sample_ar sample_server sample_state edited_state
course =
    resumed begun ann "s2" 50 [] read_row owned_read
      (served begun (asks "POST" (some "t2") "s2" Endpoint.publish_survey)) (updating numbered_doc)
      60 []

Overlap_example :
    IsSound sample_pf edited_state.db × Persists sample_pf sample_state.db edited_state.db
Overlap_example =
    Overlap-Persists sample_pf sample_ar sample_server sample_state edited_state sample-IsSound
      course

-- The edit was allowed on the draft, and reaches the live survey.
abbrev status_and_document : Option (SurveyMeta sample_pf) → Option (String × Doc)
status_and_document none = none
status_and_document (some s) = some (s.status, s.draft_schema)

edited_run :
    status_and_document (find_survey sample_pf "s2" edited_state.db.surveys)
    ≡ some ("live", numbered_doc)
unfolding resume update_draft serve recovered chain guard_of require_auth validate_session
    get_session check_action can handle publish_survey publish owned get_survey is_admin
    is_unchanged publish_next stamp_version max_version add_version set_published
    wenjuandiaocha_backend.Dao.Publish.publish
edited_run = refl
