-- ===== src/Dao/Submission/Atomic.antt =====
-- internal/dao/dao.go, SaveSubmission: what a stored sheet is, and its steps.
use mathlib.Core.List.{append_assoc, append-nil}
use wenjuandiaocha_backend.Base.{
  int32_of, ℤ, true, false, not, ◌||◌, String, str_eq, Option, none, some, List, [], ◌∷◌, ◌++◌, map,
  any, ◌≡◌, refl, sym, ap, ◌∙◌,
}
use wenjuandiaocha_backend.Platform.{Platform}
use wenjuandiaocha_backend.Domain.Schema.{NormalizedRow}
use wenjuandiaocha_backend.Ecode.{GoError}
use wenjuandiaocha_backend.Dao.Tables.{SurveyMeta, Response, AnswerRow, Db}
use wenjuandiaocha_backend.Dao.Exec.{ok, World, context, driver_step}
use wenjuandiaocha_backend.Dao.Exec.Laws.{
  >>=-ok, guarded-ok, or-not-false, map_error-ok, statement-ok, driver_step-ok, AllOrNothing,
  transaction-AllOrNothing,
}
use wenjuandiaocha_backend.Dao.Json.{Json}
use wenjuandiaocha_backend.Dao.Submission.{
  answer_row, insert_answer_row, insert_rows, add_response, insert_response, save_body,
  save_submission,
}

module _ (pf : Platform) where
  abbrev pub add_rows : List (AnswerRow pf) → Db pf → Db pf
  add_rows rows db = record db { answer_rows = db.answer_rows ++ rows }

  add_rows-nil : (db : Db pf) → add_rows [] db ≡ db
  add_rows-nil db = rw append-nil

  add_rows-append :
      (xs ys : List (AnswerRow pf)) (db : Db pf)
      → add_rows ys (add_rows xs db) ≡ add_rows (xs ++ ys) db
  add_rows-append xs ys db = rw append_assoc

  insert_answer_row-ok :
      (row : AnswerRow pf) (w w' : World pf)
      → insert_answer_row pf row w ≡ (ok tt, w')
      → w'.db ≡ add_rows (row ∷ []) w.db
  unfolding insert_answer_row
  insert_answer_row-ok row w w' h =
      (guarded-ok
        (not (any (λ (p : Response pf). str_eq p.response_id row.response_id) w.db.responses)) w.db
        _ tt (statement-ok _ w h).0).1

  insert_rows-ok :
      (resp_id survey_id : String) (v : ℤ) (rows : List (NormalizedRow pf)) (w w' : World pf)
      → insert_rows pf resp_id survey_id v rows w ≡ (ok tt, w')
      → w'.db ≡ add_rows (map (answer_row pf resp_id survey_id v) rows) w.db
  unfolding insert_rows
  insert_rows-ok resp_id survey_id v [] w w' h = ap (λ p. p.1.db) (sym h) ∙ sym (add_rows-nil w.db)
  insert_rows-ok resp_id survey_id v (r ∷ rs) w w' h =
      let (_, u, first, rest) =
        >>=-ok
          (context "insert answer row" (insert_answer_row pf (answer_row pf resp_id survey_id v r)))
          _ w h in
      let e = insert_answer_row-ok (answer_row pf resp_id survey_id v r) w u (
        map_error-ok (GoError.wrapped "insert answer row")
          (insert_answer_row pf (answer_row pf resp_id survey_id v r)) w first) in
      let ih = insert_rows-ok resp_id survey_id v rs u w' rest in
      ih ∙ ap (add_rows (map (answer_row pf resp_id survey_id v) rs)) e ∙ add_rows-append _ _ w.db

module _ (pf : Platform) (js : Json pf) where
  -- The answer sheet and its rows are in the tables, behind what was there.
  abbrev pub sheet : (resp_id survey_id : String) → ℤ → (raw meta : pf.Raw) → Response pf
  sheet resp_id survey_id v raw meta = record {
    response_id = resp_id;
    survey_id = survey_id;
    survey_version = int32_of v;
    raw = raw;
    meta = meta;
  }

  abbrev pub saved :
      (resp_id survey_id : String)
      → ℤ
      → (raw meta : pf.Raw) → List (NormalizedRow pf)
      → Db pf
      → Db pf
  saved resp_id survey_id v raw meta rows before = record before {
    responses = before.responses ++ (sheet resp_id survey_id v raw meta ∷ []);
    answer_rows = before.answer_rows ++ map (answer_row pf resp_id survey_id v) rows;
  }

  -- The tables before had no such answer sheet, and had the survey.
  abbrev pub CanSave : String → String → Db pf → Type 0
  CanSave resp_id survey_id db =
      (any (λ (o : Response pf). str_eq o.response_id resp_id) db.responses ≡ false)
      × (any (λ (s : SurveyMeta pf). str_eq s.survey_id survey_id) db.surveys ≡ true)

  add_response-ok :
      (p : Response pf) (raw meta : Option pf.Raw) (db after : Db pf)
      → add_response pf p raw meta db ≡ (ok tt, after)
      → (r m : pf.Raw) × (raw ≡ some r)
        × (meta ≡ some m)
        × CanSave p.response_id p.survey_id db
        × (after ≡ record db { responses = db.responses ++ (record p { raw = r; meta = m } ∷ []) })
  unfolding add_response
  add_response-ok p (some r) (some m) db after h =
      let (fine, e) =
        guarded-ok
          (any (λ (o : Response pf). str_eq o.response_id p.response_id) db.responses
            || not (any (λ (s : SurveyMeta pf). str_eq s.survey_id p.survey_id) db.surveys))
          db _ tt h in
      let (fresh, known) = or-not-false _ _ fine in (r, m, refl, refl, (fresh, known), e)
  add_response-ok p none m db after h = cc (ap (λ p. p.0) h)
  add_response-ok p (some r) none db after h = cc (ap (λ p. p.0) h)

  insert_response-ok :
      (p : Response pf) (w w' : World pf)
      → insert_response pf js p w ≡ (ok tt, w')
      → (r m : pf.Raw) × (js.jsonb p.raw ≡ some r)
        × (js.jsonb p.meta ≡ some m)
        × CanSave p.response_id p.survey_id w.db
        × (w'.db
            ≡ record w.db { responses = w.db.responses ++ (record p { raw = r; meta = m } ∷ []) })
  unfolding insert_response
  insert_response-ok p w w' h =
      add_response-ok p (js.jsonb p.raw) (js.jsonb p.meta) w.db w'.db (statement-ok _ w h).0

  -- What success leaves: the sheet and its rows, stored as Postgres keeps the two documents.
  abbrev pub IsSaved :
      (resp_id survey_id : String)
      → ℤ
      → (raw meta : pf.Raw) → List (NormalizedRow pf)
      → Db pf
      → Db pf
      → Type 0
  IsSaved resp_id survey_id v raw meta rows before after =
      (r m : pf.Raw) × (js.jsonb raw ≡ some r)
      × (js.jsonb meta ≡ some m)
      × CanSave resp_id survey_id before
      × (after ≡ saved resp_id survey_id v r m rows before)

  save_body-ok :
      (resp_id survey_id : String) (v : ℤ) (raw meta : pf.Raw) (rows : List (NormalizedRow pf))
      (w w' : World pf)
      → save_body pf js resp_id survey_id v raw meta rows w ≡ (ok tt, w')
      → IsSaved resp_id survey_id v raw meta rows w.db w'.db
  unfolding save_body
  save_body-ok resp_id survey_id v raw meta rows w w' h =
      let p = sheet resp_id survey_id v raw meta in
      let (_, u, first, rest) =
        >>=-ok (context "insert response" (insert_response pf js p)) _ w h in
      let (r, m, e, f, can, g) =
        insert_response-ok p w u
          (map_error-ok (GoError.wrapped "insert response") (insert_response pf js p) w first) in
      let (_, x, loop, done) =
        >>=-ok (insert_rows pf resp_id survey_id v rows) (λ _. driver_step) u rest in
      let k = insert_rows-ok pf resp_id survey_id v rows u x loop in
      let (same, _) = driver_step-ok x done in
      (
        r,
        m,
        e,
        f,
        can,
        same ∙ k ∙ ap (add_rows pf (map (answer_row pf resp_id survey_id v) rows)) g,
      )

  -- SaveSubmission is atomic. If it succeeds, the sheet had a new id and a survey that exists, and
  -- the tables hold the sheet and one answer row for each normalised row, in their order, behind
  -- what they held. If it fails anywhere, the tables are as they were.
  pub save_submission-AllOrNothing :
      (resp_id survey_id : String) (v : ℤ) (raw meta : pf.Raw) (rows : List (NormalizedRow pf))
      (w : World pf)
      → AllOrNothing
          (λ _ after. IsSaved resp_id survey_id v raw meta rows w.db after)
          w.db
          (save_submission pf js resp_id survey_id v raw meta rows w)
  unfolding save_submission
  save_submission-AllOrNothing resp_id survey_id v raw meta rows w =
      transaction-AllOrNothing (λ _ after. IsSaved resp_id survey_id v raw meta rows w.db after)
        (save_body pf js resp_id survey_id v raw meta rows) w
        (λ u same now a w' e. rw same at (save_body-ok resp_id survey_id v raw meta rows u w' e))
