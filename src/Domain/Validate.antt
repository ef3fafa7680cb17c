-- ===== src/Domain/Validate.antt =====
-- internal/domain/validate.go: the errors of an answer sheet.
pub mod Passes
use wenjuandiaocha_backend.Base.{
  Bool, not, ◌&&◌, true, false, String, str_eq, List, [], ◌∷◌, Option, none, some, member,
  if◌then◌else◌,
}
use wenjuandiaocha_backend.Platform.{Platform}
use wenjuandiaocha_backend.Domain.Value.{Value, get_or_null}
use wenjuandiaocha_backend.Domain.Schema.{Question, SurveySchema, Answers, slice}
use wenjuandiaocha_backend.Domain.Logic.{is_answered, evaluate}
use wenjuandiaocha_backend.Domain.Registry.{Handler, Registry, get_handler}

pub record ValidationError : Type 0 where
  pub qid : String
  pub message : String

module _ (pf : Platform) (reg : Registry pf) where
  -- What the handler of the type says of an answer; an unknown type says nothing.
  unfoldable pub handler_message : Question pf → Value pf.F → String
  handler_message q answer = elim (get_handler pf reg q.type) [
    | none ↦ ""
    | some h ↦ h.validate q answer
  ]

  -- The body of the loop for a visible question: the message that it appends, if any.
  unfoldable pub question_message : Question pf → Value pf.F → String
  question_message q answer =
      if q.required && not (is_answered pf answer)
      then "此题为必答"
      else if not (is_answered pf answer)
      then ""
      else handler_message q answer

  unfoldable pub validate_questions :
      List String → List (Question pf) → Answers pf → List ValidationError
  validate_questions hidden [] answers = []
  validate_questions hidden (q ∷ qs) answers =
      let rest = validate_questions hidden qs answers in
      let message = question_message q (get_or_null q.id answers) in
      if member q.id hidden
      then rest
      else if str_eq message ""
      then rest
      else record { qid = q.id; message = message } ∷ rest

  unfoldable pub validate_survey : SurveySchema pf → Answers pf → List ValidationError
  validate_survey schema answers =
      validate_questions (evaluate pf (slice schema.rules) answers) (slice schema.questions) answers
