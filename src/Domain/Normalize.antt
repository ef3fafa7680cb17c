-- ===== src/Domain/Normalize.antt =====
-- internal/domain/normalize.go: the rows that an answer sheet is stored as.
pub mod Visible
use wenjuandiaocha_backend.Base.{
  Bool, not, true, false, String, List, [], ◌∷◌, ◌++◌, Option, none, some, lookup, member,
  if◌then◌else◌,
}
use wenjuandiaocha_backend.Platform.{Platform}
use wenjuandiaocha_backend.Domain.Value.{Value}
use wenjuandiaocha_backend.Domain.Schema.{Question, SurveySchema, Answers, NormalizedRow, slice}
use wenjuandiaocha_backend.Domain.Logic.{is_answered, evaluate}
use wenjuandiaocha_backend.Domain.Registry.{Handler, Registry, get_handler}

module _ (pf : Platform) (reg : Registry pf) where
  -- The rows of the handler; an unknown type has none.
  unfoldable pub handler_rows : Question pf → Value pf.F → List (NormalizedRow pf)
  handler_rows q answer = elim (get_handler pf reg q.type) [
    | none ↦ []
    | some h ↦ h.normalize q answer
  ]

  -- The body of the loop for a visible question.
  unfoldable pub question_rows : Question pf → Option (Value pf.F) → List (NormalizedRow pf)
  question_rows q none = []
  question_rows q (some answer) = if not (is_answered pf answer) then [] else handler_rows q answer

  unfoldable pub normalize_questions :
      List String → List (Question pf) → Answers pf → List (NormalizedRow pf)
  normalize_questions hidden [] answers = []
  normalize_questions hidden (q ∷ qs) answers =
      let rest = normalize_questions hidden qs answers in
      if member q.id hidden then rest else question_rows q (lookup q.id answers) ++ rest

  unfoldable pub normalize_survey : SurveySchema pf → Answers pf → List (NormalizedRow pf)
  normalize_survey schema answers =
      normalize_questions (evaluate pf (slice schema.rules) answers) (slice schema.questions)
        answers
