-- ===== src/Http/Routes.antt =====
-- internal/server/http/server.go, Router: the routes, and the action that each asks for.
use wenjuandiaocha_backend.Base.{String, Option, none, some}

pub data Endpoint : Type 0 where
  get_public_survey submit_answers login logout me : Endpoint
  list_surveys create_survey copy_survey get_survey update_survey : Endpoint
  set_answer_access set_display_mode publish_survey close_survey reopen_survey : Endpoint
  survey_stats submit_answers_authed : Endpoint

-- The method and the path under which the endpoint is registered.
abbrev pub route_of : Endpoint → String × String
route_of get_public_survey = ("GET", "/api/public/surveys/:id")
route_of submit_answers = ("POST", "/api/public/surveys/:id/answers")
route_of login = ("POST", "/api/auth/login")
route_of logout = ("POST", "/api/auth/logout")
route_of me = ("GET", "/api/auth/me")
route_of list_surveys = ("GET", "/api/surveys")
route_of create_survey = ("POST", "/api/surveys")
route_of copy_survey = ("POST", "/api/surveys/:id/copy")
route_of get_survey = ("GET", "/api/surveys/:id")
route_of update_survey = ("PUT", "/api/surveys/:id")
route_of set_answer_access = ("PATCH", "/api/surveys/:id/answer-access")
route_of set_display_mode = ("PATCH", "/api/surveys/:id/display-mode")
route_of publish_survey = ("POST", "/api/surveys/:id/publish")
route_of close_survey = ("POST", "/api/surveys/:id/close")
route_of reopen_survey = ("POST", "/api/surveys/:id/reopen")
route_of survey_stats = ("GET", "/api/surveys/:id/stats")
route_of submit_answers_authed = ("POST", "/api/surveys/:id/answers")

-- The action of reqAuth, an empty one for a session alone; `none` for an open route.
unfoldable pub guard_of : Endpoint → Option String
guard_of get_public_survey = none
guard_of submit_answers = none
guard_of login = none
guard_of logout = none
guard_of me = some ""
guard_of list_surveys = some "survey:list"
guard_of create_survey = some "survey:create"
guard_of copy_survey = some "survey:copy"
guard_of get_survey = some "survey:read"
guard_of update_survey = some "survey:update"
guard_of set_answer_access = some "survey:update"
guard_of set_display_mode = some "survey:update"
guard_of publish_survey = some "survey:publish"
guard_of close_survey = some "survey:close"
guard_of reopen_survey = some "survey:reopen"
guard_of survey_stats = some "survey:stats"
guard_of submit_answers_authed = some "answer:submit"
