-- ===== src/Rbac.antt =====
-- internal/rbac/rbac.go: which role may do which kind of action.
pub mod Powers
use wenjuandiaocha_backend.Base.{
  Bool, String, str_eq, Option, none, some, List, [], ◌∷◌, lookup, member,
}

abbrev pub role_admin : String
role_admin = "admin"

abbrev pub role_creator : String
role_creator = "creator"

abbrev pub role_respondent : String
role_respondent = "respondent"

abbrev pub action_submit_answer : String
action_submit_answer = "answer:submit"

abbrev pub action_account_manage : String
action_account_manage = "account:manage"

-- The nine actions on surveys.
abbrev pub survey_actions : List String
survey_actions =
    "survey:list" ∷ "survey:read" ∷ "survey:stats" ∷ "survey:create" ∷ "survey:copy"
    ∷ "survey:update" ∷ "survey:publish" ∷ "survey:close" ∷ "survey:reopen" ∷ []

-- The matrix: the actions that are true for each role.
abbrev pub matrix : List (String × List String)
matrix =
    (
      role_admin,
      "survey:list" ∷ "survey:read" ∷ "survey:stats" ∷ "survey:create" ∷ "survey:copy"
          ∷ "survey:update" ∷ "survey:publish" ∷ "survey:close" ∷ "survey:reopen"
          ∷ action_submit_answer ∷ action_account_manage ∷ [],
    )
    ∷ (role_creator, survey_actions)
    ∷ (role_respondent, action_submit_answer ∷ [])
    ∷ []

-- m[action] of a map that may be nil.
abbrev pub allows : Option (List String) → String → Bool
allows none action = Bool.false
allows (some actions) action = member action actions

-- A role that is missing has no action.
unfoldable pub can : String → String → Bool
can role action = allows (lookup role matrix) action

unfoldable pub is_admin : String → Bool
is_admin role = str_eq role role_admin
