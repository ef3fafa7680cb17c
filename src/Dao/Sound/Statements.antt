-- ===== src/Dao/Sound/Statements.antt =====
-- The statements of the program keep the tables sound.
use wenjuandiaocha_backend.Base.{
  ℤ, String, Option, none, some, List, [], ◌∷◌, ◌++◌, refl, arith, inl, inr, Option-cases, not,
  is_some, ◌≡◌, Bool-cases, str_eq, ne-nil, some_injective,
}
use wenjuandiaocha_backend.Platform.{Platform}
use wenjuandiaocha_backend.Ecode.{GoError}
use wenjuandiaocha_backend.Domain.Schema.{NormalizedRow, Scalar}
use wenjuandiaocha_backend.Dao.Tables.{User, Session, Response, AnswerRow, Db}
use wenjuandiaocha_backend.Dao.Exec.{context}
use wenjuandiaocha_backend.Dao.Json.{Json}
use wenjuandiaocha_backend.Dao.Store.{create_survey, create_session, delete_session, create_user}
use wenjuandiaocha_backend.Dao.Submission.{
  insert_answer_row, add_response, insert_response, insert_rows, answer_row, save_body, text_part,
  num_part, save_submission,
}
use wenjuandiaocha_backend.Dao.Sound.Lifecycle.{no_step}
use wenjuandiaocha_backend.Dao.Sound.{Legal, Legal-refl, RowsEvolve-refl, Extends-refl, IsTyped}
use wenjuandiaocha_backend.Dao.Sound.Inserts.{add_survey-Legal, add_response-Legal, add_row-Legal}
use wenjuandiaocha_backend.Dao.Sound.Calls.{
  Keeps, statement-Legal, rescued-Legal, >>=-Keeps, driver_step-Keeps, transaction-Keeps,
  guarded-Legal,
}

-- The tables that no law of a survey speaks of.
module _ (pf : Platform) where
  other_tables-Legal :
      (db : Db pf) (us : List User) (ss : List Session)
      → Legal pf db (record db { users = us; sessions = ss })
  other_tables-Legal db us ss h = (
    record {
      distinct = h.distinct;
      rows = h.rows;
      numbered = h.numbered;
      sheets = h.sheets;
      typed = h.typed;
    },
    record {
      surveys = RowsEvolve-refl pf db.surveys;
      lifecycle = no_step;
      versions = Extends-refl pf db.versions;
      responses = Extends-refl pf db.responses;
      answer_rows = Extends-refl pf db.answer_rows;
    },
  )

  pub create_session-Keeps : (s : Session) → Keeps (create_session pf s)
  unfolding create_session Keeps
  create_session-Keeps s w = statement-Legal _ w (
      guarded-Legal _ _ _ w.db _
        (λ _. other_tables-Legal w.db w.db.users (w.db.sessions ++ (s ∷ []))))

  pub delete_session-Keeps : (token : String) → Keeps (delete_session pf token)
  unfolding delete_session Keeps
  delete_session-Keeps token w = statement-Legal _ w (other_tables-Legal w.db w.db.users _)

  pub create_user-Keeps : (u : User) → Keeps (create_user pf u)
  unfolding create_user Keeps
  create_user-Keeps u w = statement-Legal _ w (
      guarded-Legal _ _ _ w.db _
        (λ _. other_tables-Legal w.db (w.db.users ++ (u ∷ [])) w.db.sessions))

  insert_answer_row-Keeps : (row : AnswerRow pf) → IsTyped pf row → Keeps (insert_answer_row pf row)
  unfolding insert_answer_row Keeps
  insert_answer_row-Keeps row typed w =
      statement-Legal _ w
        (guarded-Legal _ _ _ w.db _ (λ has. add_row-Legal pf w.db row (ground (arith, has)) typed))

  add_response-Legal_all :
      (p : Response pf) (raw meta : Option pf.Raw) (db : Db pf)
      → Legal pf db (add_response pf p raw meta db).1
  unfolding add_response
  add_response-Legal_all p none meta db = Legal-refl pf db
  add_response-Legal_all p (some raw) none db = Legal-refl pf db
  add_response-Legal_all p (some raw) (some meta) db =
      guarded-Legal _ _ _ db _
        (λ fresh. add_response-Legal pf db (record p { raw = raw; meta = meta }))

  Scalar-typed : (v : Scalar pf) → is_some (text_part pf v) ≡ not (is_some (num_part pf v))
  Scalar-typed (Scalar.text s) = refl
  Scalar-typed (Scalar.number n) = refl

  answer_row-IsTyped :
      (resp_id survey_id : String) (v : ℤ) (r : NormalizedRow pf)
      → IsTyped pf (answer_row pf resp_id survey_id v r)
  unfolding answer_row
  answer_row-IsTyped resp_id survey_id v r = (
    Scalar-typed r.value,
    elim (Bool-cases (str_eq r.sub_id "")) [
      | inl blank ↦ rw blank (λ e. cc e)
      | inr named ↦ rw named (λ e. ne-nil r.sub_id named (some_injective e))
    ],
  )

  insert_rows-Keeps :
      (resp_id survey_id : String) (v : ℤ) (rows : List (NormalizedRow pf))
      → Keeps (insert_rows pf resp_id survey_id v rows)
  unfolding insert_rows Keeps
  insert_rows-Keeps resp_id survey_id v [] = λ w. Legal-refl pf w.db
  insert_rows-Keeps resp_id survey_id v (r ∷ rs) =
      let insert = insert_answer_row pf (answer_row pf resp_id survey_id v r) in
      >>=-Keeps (context "insert answer row" insert) (λ _. insert_rows pf resp_id survey_id v rs)
        (λ u. rescued-Legal u.db (GoError.wrapped "insert answer row") (insert u) (
          insert_answer_row-Keeps (answer_row pf resp_id survey_id v r)
            (answer_row-IsTyped resp_id survey_id v r) u))
        (λ _. insert_rows-Keeps resp_id survey_id v rs)

module _ (pf : Platform) (js : Json pf) where
  insert_response-Keeps : (p : Response pf) → Keeps (insert_response pf js p)
  unfolding insert_response Keeps
  insert_response-Keeps p w =
      statement-Legal _ w (add_response-Legal_all pf p (js.jsonb p.raw) (js.jsonb p.meta) w.db)

  pub save_submission-Keeps :
      (resp_id survey_id : String) (v : ℤ) (raw meta : pf.Raw) (rows : List (NormalizedRow pf))
      → Keeps (save_submission pf js resp_id survey_id v raw meta rows)
  unfolding save_submission save_body Keeps
  save_submission-Keeps resp_id survey_id v raw meta rows = transaction-Keeps _ (
      >>=-Keeps (context "insert response" (insert_response pf js _)) _
        (λ u. rescued-Legal u.db _ (insert_response pf js _ u) (insert_response-Keeps _ u))
        (λ _.
          >>=-Keeps (insert_rows pf resp_id survey_id v rows) _
            (insert_rows-Keeps pf resp_id survey_id v rows) (λ _. driver_step-Keeps pf)))

  pub create_survey-Keeps :
      (id owner type title : String) (draft : pf.Raw) (access display : String)
      → Keeps (create_survey pf js id owner type title draft access display)
  unfolding create_survey Keeps
  create_survey-Keeps id owner type title draft access display w =
      elim (Option-cases (js.jsonb draft)) [
        | inl refused ↦ rw refused (statement-Legal _ w (Legal-refl pf w.db))
        | inr (doc, kept) ↦ rw kept (
            statement-Legal _ w (
              guarded-Legal _ _ _ w.db _ (λ fresh.
                add_survey-Legal pf w.db
                  (record {
                    survey_id = id;
                    owner_id = owner;
                    type = type;
                    title = title;
                    status = "draft";
                    draft_schema = doc;
                    published_version = none;
                    answer_access = access;
                    display_mode = display;
                    updated_at = w.now;
                  })
                  (ground (arith, fresh)) refl refl)))
      ]
