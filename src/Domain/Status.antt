-- ===== src/Domain/Status.antt =====
-- internal/domain/status.go: the status, the answer access and the display mode of a survey.
use wenjuandiaocha_backend.Base.{String}

-- A draft may be edited, a live survey takes answers, and a closed one rests.
abbrev pub status_draft : String
status_draft = "draft"

abbrev pub status_live : String
status_live = "live"

abbrev pub status_closed : String
status_closed = "closed"

-- Who may answer.
abbrev pub answer_anonymous : String
answer_anonymous = "anonymous"

abbrev pub answer_login_required : String
answer_login_required = "login_required"

-- One question at a time, or all on one page.
abbrev pub display_paged : String
display_paged = "paged"

abbrev pub display_single : String
display_single = "single"
