-- ===== src/Dao/Submission.antt =====
-- internal/dao/dao.go, SaveSubmission: an answer sheet and its rows, in one transaction.
pub mod Atomic
use wenjuandiaocha_backend.Base.{
  int32_of, ℤ, Bool, true, false, not, ◌||◌, String, str_eq, Option, none, some, List, [], ◌∷◌,
  ◌++◌, any, if◌then◌else◌,
}
use wenjuandiaocha_backend.Platform.{Platform}
use wenjuandiaocha_backend.Domain.Schema.{NormalizedRow, Scalar}
use wenjuandiaocha_backend.Ecode.{GoError}
use wenjuandiaocha_backend.Dao.Tables.{SurveyMeta, Response, AnswerRow, Db}
use wenjuandiaocha_backend.Dao.Exec.{
  Result, ok, err, M, statement, context, driver_step, transaction, pure, ◌>>=◌, ◌>>◌,
}
use wenjuandiaocha_backend.Dao.Json.{Json}
unfoldable pub use wenjuandiaocha_backend.Dao.Gen.Responses.{
  insert_answer_row, add_response, insert_response,
}

module _ (pf : Platform) where
  abbrev pub text_part : Scalar pf → Option String
  text_part (Scalar.text s) = some s
  text_part (Scalar.number n) = none

  abbrev pub num_part : Scalar pf → Option pf.F
  num_part (Scalar.text s) = none
  num_part (Scalar.number n) = some n

  -- The parameters of one answer row: a number and a text go to columns of their own.
  unfoldable pub answer_row : (resp_id survey_id : String) → ℤ → NormalizedRow pf → AnswerRow pf
  answer_row resp_id survey_id version r = record {
    response_id = resp_id;
    survey_id = survey_id;
    survey_version = int32_of version;
    qid = r.qid;
    sub_id = if str_eq r.sub_id "" then none else some r.sub_id;
    value_text = text_part r.value;
    value_num = num_part r.value;
  }

  -- The loop over the rows.
  unfoldable pub insert_rows :
      (resp_id survey_id : String) → ℤ → List (NormalizedRow pf) → M pf (Unit {0})
  insert_rows resp_id survey_id version [] = pure tt
  insert_rows resp_id survey_id version (r ∷ rs) =
      context "insert answer row" (insert_answer_row pf (answer_row resp_id survey_id version r))
      >>= λ _. insert_rows resp_id survey_id version rs

module _ (pf : Platform) (js : Json pf) where
  unfoldable pub save_body :
      (resp_id survey_id : String)
      → ℤ
      → (raw meta : pf.Raw) → List (NormalizedRow pf)
      → M pf (Unit {0})
  save_body resp_id survey_id version raw meta rows = do
    context "insert response" (
        insert_response pf js (record {
          response_id = resp_id;
          survey_id = survey_id;
          survey_version = int32_of version;
          raw = raw;
          meta = meta;
        }))
    insert_rows pf resp_id survey_id version rows
    driver_step

  unfoldable pub save_submission :
      (resp_id survey_id : String)
      → ℤ
      → (raw meta : pf.Raw) → List (NormalizedRow pf)
      → M pf (Unit {0})
  save_submission resp_id survey_id version raw meta rows =
      transaction (save_body resp_id survey_id version raw meta rows)
