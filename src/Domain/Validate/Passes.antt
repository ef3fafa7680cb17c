-- ===== src/Domain/Validate/Passes.antt =====
-- When an answer sheet has no error, and which questions an error can name.
use mathlib.Core.Bool.{false≢true}
use wenjuandiaocha_backend.Base.{
  ◌≡◌, ◌≢◌, sym, ◌∙◌, Bool, true, false, not, ◌&&◌, ◌↔◌, ◌⊎◌, inl, inr, String, str_eq, eq_iff,
  List, [], ◌∷◌, member, All, arith, Bool-cases, if◌then◌else◌,
}
use wenjuandiaocha_backend.Platform.{Platform}
use wenjuandiaocha_backend.Domain.Value.{Value, get_or_null}
use wenjuandiaocha_backend.Domain.Schema.{Question, SurveySchema, Answers, slice}
use wenjuandiaocha_backend.Domain.Logic.{is_answered, evaluate}
use wenjuandiaocha_backend.Domain.Registry.{Registry}
use wenjuandiaocha_backend.Domain.Validate.{
  ValidationError, handler_message, question_message, validate_questions, validate_survey,
}

-- The two tests of the loop's body, over the flags `required` and `answered`.
message_iff :
    (required answered : Bool) (m : String)
    → ((if required && not answered then "此题为必答" else if not answered then "" else m) ≡ "")
      ↔ (((answered ≡ false) × (required ≡ false)) ⊎ ((answered ≡ true) × (m ≡ "")))
message_iff true true m = ground arith
message_iff true false m = (λ e. cc, ground arith)
message_iff false true m = ground arith
message_iff false false m = ground arith

module _ (pf : Platform) (reg : Registry pf) where
  -- A visible question passes: left open where that is allowed, or answered to its handler's liking.
  abbrev pub Passes : Question pf → Value pf.F → Type 0
  Passes q answer =
      ((is_answered pf answer ≡ false) × (q.required ≡ false))
      ⊎ ((is_answered pf answer ≡ true) × (handler_message pf reg q answer ≡ ""))

  -- Hidden questions are not asked.
  abbrev pub HiddenOrPasses : List String → Answers pf → Question pf → Type 0
  HiddenOrPasses hidden answers q =
      (member q.id hidden ≡ true) ⊎ Passes q (get_or_null q.id answers)

  question_message-Passes :
      (q : Question pf) (a : Value pf.F) → (question_message pf reg q a ≡ "") ↔ Passes q a
  unfolding question_message
  question_message-Passes q a =
      message_iff q.required (is_answered pf a) (handler_message pf reg q a)

  validate_questions-nil_iff :
      (hidden : List String) (qs : List (Question pf)) (answers : Answers pf)
      → (validate_questions pf reg hidden qs answers ≡ []) ↔ All (HiddenOrPasses hidden answers) qs
  unfolding validate_questions
  validate_questions-nil_iff hidden [] answers = ground arith
  validate_questions-nil_iff hidden (q ∷ qs) answers = ground (
    arith,
    validate_questions-nil_iff hidden qs answers,
    question_message-Passes q (get_or_null q.id answers),
    eq_iff (question_message pf reg q (get_or_null q.id answers)) "",
  )

  -- An answer sheet has no error exactly when every question that the rules leave visible passes:
  -- it is unanswered and not required, or answered and its handler has no message.
  pub validate_survey-nil_iff :
      (schema : SurveySchema pf) (answers : Answers pf)
      → (validate_survey pf reg schema answers ≡ [])
        ↔ All
            (HiddenOrPasses (evaluate pf (slice schema.rules) answers) answers)
            (slice schema.questions)
  unfolding validate_survey
  validate_survey-nil_iff schema answers =
      validate_questions-nil_iff (evaluate pf (slice schema.rules) answers) (slice schema.questions)
        answers

  -- An error names a visible question, and has a message.
  abbrev IsReported : List String → ValidationError → Type 0
  IsReported hidden e = (member e.qid hidden ≡ false) × (e.message ≢ "")

  validate_questions-IsReported :
      (hidden : List String) (qs : List (Question pf)) (answers : Answers pf)
      → All (IsReported hidden) (validate_questions pf reg hidden qs answers)
  unfolding validate_questions
  validate_questions-IsReported hidden [] answers = tt
  validate_questions-IsReported hidden (q ∷ qs) answers =
      let ih = validate_questions-IsReported hidden qs answers in
      let message = question_message pf reg q (get_or_null q.id answers) in
      elim (Bool-cases (member q.id hidden)) [
        | inl gone ↦ rw gone ih
        | inr seen ↦ elim (Bool-cases (str_eq message "")) [
          | inl fine ↦ rw (seen, fine) ih
          | inr bad ↦ rw (seen, bad) ((seen, λ e. false≢true (sym bad ∙ (eq_iff _ _).1 e)), ih)
        ]
      ]

  -- No hidden question is ever reported, and every report has a message.
  validate_survey-IsReported :
      (schema : SurveySchema pf) (answers : Answers pf)
      → All
          (IsReported (evaluate pf (slice schema.rules) answers))
          (validate_survey pf reg schema answers)
  unfolding validate_survey
  validate_survey-IsReported schema answers =
      validate_questions-IsReported (evaluate pf (slice schema.rules) answers)
        (slice schema.questions) answers
