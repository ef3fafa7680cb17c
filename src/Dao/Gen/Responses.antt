-- ===== src/Dao/Gen/Responses.antt =====
-- internal/dao/gen/responses.sql.go: answer sheets and answer rows.
use wenjuandiaocha_backend.Base.{
  ℕ, not, ◌||◌, String, str_eq, Option, some, [], ◌∷◌, ◌++◌, any, length, if◌then◌else◌,
}
use wenjuandiaocha_backend.Platform.{Platform}
use wenjuandiaocha_backend.Ecode.{GoError}
use wenjuandiaocha_backend.Dao.Tables.{SurveyMeta, Response, AnswerRow, Db}
use wenjuandiaocha_backend.Dao.Exec.{Result, ok, err, M, statement, query}
use wenjuandiaocha_backend.Dao.Gen.Rows.{keep}
use wenjuandiaocha_backend.Dao.Json.{Json}

module _ (pf : Platform) where
  abbrev pub count_responses : String → M pf ℕ
  count_responses id =
      query (λ db. ok (length (keep (λ (r : Response pf). str_eq r.survey_id id) db.responses)))

  -- INSERT INTO answer_rows: the answer sheet must be there.
  unfoldable pub insert_answer_row : AnswerRow pf → M pf (Unit {0})
  insert_answer_row row = statement (λ db.
      if not (any (λ (p : Response pf). str_eq p.response_id row.response_id) db.responses)
      then (err GoError.driver, db)
      else (ok tt, record db { answer_rows = db.answer_rows ++ (row ∷ []) }))

  -- INSERT INTO responses: a fresh id, a survey that exists, documents that Postgres takes.
  unfoldable pub add_response :
      Response pf → Option pf.Raw → Option pf.Raw → Db pf → Result (Unit {0}) × Db pf
  add_response p (some raw) (some meta) db =
      if any (λ (o : Response pf). str_eq o.response_id p.response_id) db.responses
        || not (any (λ (s : SurveyMeta pf). str_eq s.survey_id p.survey_id) db.surveys)
      then (err GoError.driver, db)
      else (
        ok tt,
        record db { responses = db.responses ++ (record p { raw = raw; meta = meta } ∷ []) },
      )
  add_response p _ _ db = (err GoError.driver, db)

module _ (pf : Platform) (js : Json pf) where
  unfoldable pub insert_response : Response pf → M pf (Unit {0})
  insert_response p = statement (add_response pf p (js.jsonb p.raw) (js.jsonb p.meta))
