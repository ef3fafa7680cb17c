-- ===== src/Service/Returns/Statements.antt =====
-- The statements of internal/dao return, and the services' error handlers give codes.
use mathlib.Core.List.{reverse}
use wenjuandiaocha_backend.Base.{
  ℤ, pos, Bool, ltb_ℤ, Option-cases, ◌||◌, ◌&&◌, true, String, str_eq, Option, none, some, List, [],
  ◌∷◌, arith, Bool-cases, inl, inr,
}
use wenjuandiaocha_backend.Platform.{Platform}
use wenjuandiaocha_backend.Ecode.{GoError, is_no_rows, is_not_found, not_found_error, bad_request}
use wenjuandiaocha_backend.Domain.Schema.{NormalizedRow}
use wenjuandiaocha_backend.Dao.Tables.{Session, SurveyMeta, Response, Db}
use wenjuandiaocha_backend.Dao.Exec.{context, map_error, query}
use wenjuandiaocha_backend.Dao.Exec.Ends.{
  IsCoded, EndsIn, Returns, statement-Ends, query-Returns, >>=-Returns, map_error-Returns,
  context-Returns, pure-Returns, driver_step-Returns, transaction-Returns, guarded-Ends,
  guarded-Returns,
}
use wenjuandiaocha_backend.Dao.Json.{Json}
use wenjuandiaocha_backend.Dao.Store.{
  SurveyListParams, is_listed, keep, one_row, to_not_found, get_user_by_account, get_user_by_id,
  create_session, get_session, delete_session, get_survey, set_status, set_answer_access,
  set_display_mode, get_published_schema, get_version_schema, count_responses, page_of, list_rows,
  count_rows, list_where, list_surveys_by_owner, list_all_surveys, create_survey, update_draft,
}
use wenjuandiaocha_backend.Dao.Submission.{
  insert_answer_row, add_response, insert_response, insert_rows, answer_row, save_body,
  save_submission,
}
use wenjuandiaocha_backend.Service.Survey.{missing_as}
use wenjuandiaocha_backend.Service.Submission.{unpublished, stale_version}

pub to_not_found-IsCoded : (e : GoError) → IsCoded e → IsCoded (to_not_found e)
unfolding to_not_found
to_not_found-IsCoded e h = elim (Bool-cases (is_no_rows e)) [
  | inl missing ↦ rw missing tt
  | inr other ↦ rw other h
]

pub missing_as-IsCoded : (msg : String) (e : GoError) → IsCoded e → IsCoded (missing_as msg e)
unfolding missing_as not_found_error
missing_as-IsCoded msg e h = elim (Bool-cases (is_not_found e)) [
  | inl missing ↦ rw missing (λ z. absurd (omega arith))
  | inr other ↦ rw other h
]

pub unpublished-IsCoded : (e : GoError) → IsCoded e → IsCoded (unpublished e)
unfolding unpublished
unpublished-IsCoded e h = missing_as-IsCoded "问卷不存在或未发布" e h

pub stale_version-IsCoded : (e : GoError) → IsCoded e → IsCoded (stale_version e)
unfolding stale_version bad_request
stale_version-IsCoded e h = elim (Bool-cases (is_not_found e)) [
  | inl missing ↦ rw missing (λ z. absurd (omega arith))
  | inr other ↦ rw other h
]

pub one_row-EndsIn : {A : Type 0} (o : Option A) → EndsIn ⊥ (one_row o)
one_row-EndsIn none = tt
one_row-EndsIn (some a) = tt

module _ (pf : Platform) where
  -- A query for one row, with pgx.ErrNoRows made ErrNotFound.
  found-Returns :
      {A : Type 0} (f : Db pf → Option A)
      → Returns {pf = pf} (map_error to_not_found (query (λ db. one_row (f db))))
  found-Returns f =
      map_error-Returns to_not_found (query (λ db. one_row (f db))) to_not_found-IsCoded
        (query-Returns (λ db. one_row (f db)) (λ db. one_row-EndsIn (f db)))

  pub get_user_by_account-Returns : (account : String) → Returns (get_user_by_account pf account)
  unfolding get_user_by_account
  get_user_by_account-Returns account = found-Returns _

  pub get_user_by_id-Returns : (id : String) → Returns (get_user_by_id pf id)
  unfolding get_user_by_id
  get_user_by_id-Returns id = found-Returns _

  pub get_session-Returns : (token : String) → Returns (get_session pf token)
  unfolding get_session
  get_session-Returns token = found-Returns _

  pub get_survey-Returns : (id : String) → Returns (get_survey pf id)
  unfolding get_survey
  get_survey-Returns id = found-Returns _

  pub get_published_schema-Returns : (id : String) → Returns (get_published_schema pf id)
  unfolding get_published_schema
  get_published_schema-Returns id = found-Returns _

  pub get_version_schema-Returns : (id : String) (v : ℤ) → Returns (get_version_schema pf id v)
  unfolding get_version_schema
  get_version_schema-Returns id v = found-Returns _

  pub count_responses-Returns : (id : String) → Returns (count_responses pf id)
  unfolding count_responses
  count_responses-Returns id = query-Returns _ (λ db. tt)

  pub create_session-Returns : (s : Session) → Returns (create_session pf s)
  unfolding create_session
  create_session-Returns s = guarded-Returns _ _

  pub delete_session-Returns : (token : String) → Returns (delete_session pf token)
  unfolding delete_session Returns
  delete_session-Returns token w = statement-Ends _ w tt

  pub set_status-Returns : (id status : String) → Returns (set_status pf id status)
  unfolding set_status Returns
  set_status-Returns id status w = statement-Ends _ w tt

  pub set_answer_access-Returns : (id access : String) → Returns (set_answer_access pf id access)
  unfolding set_answer_access Returns
  set_answer_access-Returns id access w = statement-Ends _ w tt

  pub set_display_mode-Returns : (id mode : String) → Returns (set_display_mode pf id mode)
  unfolding set_display_mode Returns
  set_display_mode-Returns id mode w = statement-Ends _ w tt

  page_of-EndsIn :
      {A : Type 0} (limit offset : ℤ) (rows : List A) → EndsIn ⊥ (page_of pf limit offset rows)
  unfolding page_of
  page_of-EndsIn limit offset rows =
      elim (Bool-cases (ltb_ℤ limit (pos 0) || ltb_ℤ offset (pos 0))) [
        | inl bad ↦ rw bad tt
        | inr good ↦ rw good tt
      ]

  list_where-Returns :
      (ilike : String → String → Bool) (mine : SurveyMeta pf → Bool) (p : SurveyListParams pf)
      → Returns (list_where pf ilike mine p)
  unfolding list_where list_rows count_rows
  list_where-Returns ilike mine p =
      >>=-Returns _ _
        (query-Returns _ (λ db.
          page_of-EndsIn p.limit p.offset
            (reverse (keep (λ s. mine s && is_listed pf ilike p s) db.surveys))))
        (λ rows. >>=-Returns _ _ (query-Returns _ (λ db. tt)) (λ n. pure-Returns pf _))

  pub list_surveys_by_owner-Returns :
      (ilike : String → String → Bool) (owner : String) (p : SurveyListParams pf)
      → Returns (list_surveys_by_owner pf ilike owner p)
  unfolding list_surveys_by_owner
  list_surveys_by_owner-Returns ilike owner p =
      list_where-Returns ilike (λ s. str_eq s.owner_id owner) p

  pub list_all_surveys-Returns :
      (ilike : String → String → Bool) (p : SurveyListParams pf)
      → Returns (list_all_surveys pf ilike p)
  unfolding list_all_surveys
  list_all_surveys-Returns ilike p = list_where-Returns ilike (λ s. true) p

  insert_rows-Returns :
      (resp_id survey_id : String) (v : ℤ) (rows : List (NormalizedRow pf))
      → Returns (insert_rows pf resp_id survey_id v rows)
  unfolding insert_rows insert_answer_row
  insert_rows-Returns resp_id survey_id v [] = pure-Returns pf tt
  insert_rows-Returns resp_id survey_id v (r ∷ rs) =
      let insert = insert_answer_row pf (answer_row pf resp_id survey_id v r) in
      >>=-Returns (context "insert answer row" insert) (λ _. insert_rows pf resp_id survey_id v rs)
        (context-Returns "insert answer row" insert (guarded-Returns _ _))
        (λ _. insert_rows-Returns resp_id survey_id v rs)

  add_response-EndsIn :
      (p : Response pf) (raw meta : Option pf.Raw) (db : Db pf)
      → EndsIn ⊥ (add_response pf p raw meta db).0
  unfolding add_response
  add_response-EndsIn p none meta db = tt
  add_response-EndsIn p (some raw) none db = tt
  add_response-EndsIn p (some raw) (some meta) db = guarded-Ends _ db _

module _ (pf : Platform) (js : Json pf) where
  insert_response-Returns : (p : Response pf) → Returns (insert_response pf js p)
  unfolding insert_response Returns
  insert_response-Returns p w =
      statement-Ends _ w (add_response-EndsIn pf p (js.jsonb p.raw) (js.jsonb p.meta) w.db)

  pub save_submission-Returns :
      (resp_id survey_id : String) (v : ℤ) (raw meta : pf.Raw) (rows : List (NormalizedRow pf))
      → Returns (save_submission pf js resp_id survey_id v raw meta rows)
  unfolding save_submission save_body
  save_submission-Returns resp_id survey_id v raw meta rows = transaction-Returns _ (
      >>=-Returns (context "insert response" (insert_response pf js _)) _
        (context-Returns "insert response" _ (insert_response-Returns _))
        (λ _.
          >>=-Returns (insert_rows pf resp_id survey_id v rows) _
            (insert_rows-Returns pf resp_id survey_id v rows) (λ _. driver_step-Returns pf)))

  pub create_survey-Returns :
      (id owner type title : String) (draft : pf.Raw) (access display : String)
      → Returns (create_survey pf js id owner type title draft access display)
  unfolding create_survey Returns
  create_survey-Returns id owner type title draft access display w =
      elim (Option-cases (js.jsonb draft)) [
        | inl refused ↦ rw refused (statement-Ends _ w tt)
        | inr (doc, kept) ↦ rw kept (statement-Ends _ w (guarded-Ends _ w.db _))
      ]

  pub update_draft-Returns :
      (id title type : String) (draft : pf.Raw) → Returns (update_draft pf js id title type draft)
  unfolding update_draft Returns
  update_draft-Returns id title type draft w = elim (Option-cases (js.jsonb draft)) [
    | inl refused ↦ rw refused (statement-Ends _ w tt)
    | inr (doc, kept) ↦ rw kept (statement-Ends _ w tt)
  ]
