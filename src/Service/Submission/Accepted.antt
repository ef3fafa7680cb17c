-- ===== src/Service/Submission/Accepted.antt =====
-- What it takes to submit an answer sheet, and what is stored of it.
use text.Mathlib.TextEquality.{eq_iff}
use wenjuandiaocha_backend.Base.{
  ℕ, ℤ, pos, ltb_ℤ, Bool, true, false, not, ◌&&◌, String, str_eq, Option, none, some, List, [], ◌∷◌,
  if◌then◌else◌, length, ◌≡◌, refl, Bool-cases, Option-cases, inl, inr, arith,
}
use wenjuandiaocha_backend.Platform.{Platform}
use wenjuandiaocha_backend.Domain.Schema.{SurveySchema}
use wenjuandiaocha_backend.Domain.Registry.{Registry}
use wenjuandiaocha_backend.Domain.Validate.{ValidationError, validate_survey}
use wenjuandiaocha_backend.Domain.Normalize.{normalize_survey}
use wenjuandiaocha_backend.Ecode.{GoError}
use wenjuandiaocha_backend.Dao.Tables.{SurveyMeta, Db}
use wenjuandiaocha_backend.Dao.Exec.{
  Result, ok, err, panic, World, M, continue, pure, map_error, query, ◌>>◌,
}
use wenjuandiaocha_backend.Dao.Exec.Laws.{AllOrNothing, AllOrNothing-map}
use wenjuandiaocha_backend.Dao.Exec.Reads.{Reads, row-Reads, map_error-Reads, >>=-AllOrNothing}
use wenjuandiaocha_backend.Dao.Json.{Json}
use wenjuandiaocha_backend.Dao.Store.{
  to_not_found, one_row, find_survey, get_survey, version_schema, published_schema,
  get_published_schema, get_version_schema,
}
use wenjuandiaocha_backend.Dao.Submission.Atomic.{IsSaved, save_submission-AllOrNothing}
use wenjuandiaocha_backend.Service.Metadata.{Metadata}
use wenjuandiaocha_backend.Service.Submission.{
  SubmitReq, unpublished, stale_version, load_schema, gate, pass_gate, save_valid, submit_parsed,
  submit,
}

-- A value that is given once a call has succeeded.
continue-pure-AllOrNothing :
    {pf : Platform} {B : Type 0} (P : Db pf → Type 0) (Q : B → Db pf → Type 0) (before : Db pf)
    (b : B) (r : Result (Unit {0}) × World pf)
    → AllOrNothing (λ _ db. P db) before r
    → ((db : Db pf) → P db → Q b db)
    → AllOrNothing Q before (continue r (λ _. pure b))
continue-pure-AllOrNothing P Q before b (ok tt, w) h k = k w.db h
continue-pure-AllOrNothing P Q before b (err e, w) h k = h
continue-pure-AllOrNothing P Q before b (panic, w) h k = h

gate_cases :
    (live login authenticated : Bool) (e f g : GoError)
    → (if not live
        then some e
        else if login && not authenticated
        then some f
        else if not login && authenticated
        then some g
        else none)
      ≡ none
    → (live ≡ true) × (login ≡ authenticated)
gate_cases true true true e f g h = (refl, refl)
gate_cases true false false e f g h = (refl, refl)
gate_cases false login authenticated e f g h = cc h
gate_cases true true false e f g h = cc h
gate_cases true false true e f g h = cc h

module _ (pf : Platform) where
  -- The snapshot that the sheet is checked against: that of the version given, or the live one.
  abbrev pub chosen_schema : String → ℤ → Db pf → Option pf.Raw
  chosen_schema id version db =
      if ltb_ℤ (pos 0) version
      then version_schema pf id version db.versions
      else published_schema pf db.versions (find_survey pf id db.surveys)

  load_schema-Reads :
      (id : String) (version : ℤ)
      → Reads (λ db doc. chosen_schema id version db ≡ some doc) (load_schema pf id version)
  unfolding load_schema get_version_schema get_published_schema
  load_schema-Reads id version = elim (Bool-cases (ltb_ℤ (pos 0) version)) [
    | inl given ↦ rw given (
        map_error-Reads _ stale_version (get_version_schema pf id version) (
          map_error-Reads _ to_not_found
            (query (λ db. one_row (version_schema pf id version db.versions)))
            (row-Reads (λ db. version_schema pf id version db.versions))))
    | inr current ↦ rw current (
        map_error-Reads _ unpublished (get_published_schema pf id) (
          map_error-Reads _ to_not_found
            (query (λ db. one_row (published_schema pf db.versions (find_survey pf id db.surveys))))
            (row-Reads (λ db. published_schema pf db.versions (find_survey pf id db.surveys)))))
  ]

  known_survey-Reads :
      (id : String)
      → Reads
          (λ (db : Db pf) s. find_survey pf id db.surveys ≡ some s)
          (map_error unpublished (get_survey pf id))
  unfolding get_survey
  known_survey-Reads id = map_error-Reads _ unpublished (get_survey pf id) (
      map_error-Reads _ to_not_found (query (λ db. one_row (find_survey pf id db.surveys)))
        (row-Reads (λ db. find_survey pf id db.surveys)))

  gate-none :
      (authenticated : Bool) (s : SurveyMeta pf)
      → gate pf authenticated s ≡ none
      → (s.status ≡ "live") × (str_eq s.answer_access "login_required" ≡ authenticated)
  unfolding gate
  gate-none authenticated s h =
      let (live, fits) =
        gate_cases (str_eq s.status "live") (str_eq s.answer_access "login_required") authenticated
          _ _ _ h in
      (ground (arith, eq_iff s.status "live"), fits)

module _ (pf : Platform) (js : Json pf) (reg : Registry pf) (md : Metadata) where
  -- The sheet passes the schema's validation, and its normalised rows are stored.
  abbrev pub Stored : String → SubmitReq pf → SurveySchema pf → Db pf → ℕ → Db pf → Type 0
  Stored resp_id req schema before n after =
      (validate_survey pf reg schema req.answers ≡ [])
      × (n ≡ length (normalize_survey pf reg schema req.answers))
      × IsSaved pf js resp_id req.survey_id schema.version (js.marshal_answers req.answers)
          (js.marshal_meta md.client_ip md.user_agent) (normalize_survey pf reg schema req.answers)
          before after

  abbrev pub Accepted : String → SubmitReq pf → Db pf → ℕ → Db pf → Type 0
  Accepted resp_id req before n after =
      ((s : SurveyMeta pf) × (find_survey pf req.survey_id before.surveys ≡ some s)
        × (s.status ≡ "live")
        × (str_eq s.answer_access "login_required" ≡ not (str_eq md.user_id "")))
      × ((doc : pf.Raw) × (schema : SurveySchema pf) × (chosen_schema pf req.survey_id req.version
              before
            ≡ some doc)
          × (js.unmarshal_schema doc ≡ some schema)
          × Stored resp_id req schema before n after)

  save_valid-AllOrNothing :
      (resp_id : String) (req : SubmitReq pf) (schema : SurveySchema pf) (es : List ValidationError)
      (w : World pf)
      → validate_survey pf reg schema req.answers ≡ es
      → AllOrNothing
          (Stored resp_id req schema w.db)
          w.db
          (save_valid pf js reg md resp_id req schema es w)
  unfolding save_valid
  save_valid-AllOrNothing resp_id req schema (e ∷ es) w h = refl
  save_valid-AllOrNothing resp_id req schema [] w h =
      let rows = normalize_survey pf reg schema req.answers in
      continue-pure-AllOrNothing
        (IsSaved pf js resp_id req.survey_id schema.version (js.marshal_answers req.answers)
          (js.marshal_meta md.client_ip md.user_agent) rows w.db)
        (Stored resp_id req schema w.db) w.db (length rows) _
        (save_submission-AllOrNothing pf js resp_id req.survey_id schema.version
          (js.marshal_answers req.answers) (js.marshal_meta md.client_ip md.user_agent) rows w)
        (λ db saved. (h, refl, saved))

  -- The sheet against the schema of the snapshot.
  submit_parsed-AllOrNothing :
      (resp_id : String) (req : SubmitReq pf) (doc : pf.Raw) (Q : ℕ → Db pf → Type 0) (w : World pf)
      → ((schema : SurveySchema pf) (n : ℕ) (after : Db pf)
          → js.unmarshal_schema doc ≡ some schema
          → Stored resp_id req schema w.db n after
          → Q n after)
      → AllOrNothing Q w.db (submit_parsed pf js reg md resp_id req (js.unmarshal_schema doc) w)
  submit_parsed-AllOrNothing resp_id req doc Q w h = elim (Option-cases (js.unmarshal_schema doc)) [
    | inl bad ↦ rw bad refl
    | inr (schema, good) ↦ rw good (
        AllOrNothing-map (Stored resp_id req schema w.db) Q w.db _
          (λ n after stored. h schema n after good stored)
          (save_valid-AllOrNothing resp_id req schema (validate_survey pf reg schema req.answers) w
            refl))
  ]

  pass_gate-AllOrNothing :
      (o : Option GoError) (Q : ℕ → Db pf → Type 0) (m : M pf ℕ) (w : World pf)
      → (o ≡ none → AllOrNothing Q w.db (m w))
      → AllOrNothing Q w.db ((pass_gate pf o >> m) w)
  pass_gate-AllOrNothing none Q m w h = h refl
  pass_gate-AllOrNothing (some e) Q m w h = refl

  -- Submit is atomic, whatever fails. If it succeeds with the number n, then: the survey exists, is
  -- live, and asks for a login exactly when the caller has one; the snapshot of the version given, or
  -- else the live one, is a schema; the validation of the answers against it finds no error; n is the
  -- number of the normalised rows; and the tables hold one new answer sheet and these rows behind
  -- what they held, under the version that the schema names. If it fails, the tables are as they were.
  pub submit-AllOrNothing :
      (resp_id : String) (req : SubmitReq pf) (w : World pf)
      → AllOrNothing (Accepted resp_id req w.db) w.db (submit pf js reg md resp_id req w)
  unfolding submit
  submit-AllOrNothing resp_id req w =
      >>=-AllOrNothing (λ db s. find_survey pf req.survey_id db.surveys ≡ some s) _
        (map_error unpublished (get_survey pf req.survey_id)) _ w
        (known_survey-Reads pf req.survey_id)
        (λ s u found same now.
          pass_gate-AllOrNothing (gate pf (not (str_eq md.user_id "")) s) _ _ u (λ opened.
            >>=-AllOrNothing (λ db doc. chosen_schema pf req.survey_id req.version db ≡ some doc) _
              (load_schema pf req.survey_id req.version) _ u
              (load_schema-Reads pf req.survey_id req.version)
              (λ doc x chosen same' now'.
                let (live, fits) = gate-none pf (not (str_eq md.user_id "")) s opened in
                submit_parsed-AllOrNothing resp_id req doc _ x (λ schema n after good stored. (
                  (s, found, live, fits),
                  (doc, schema, rw same at chosen, good, rw (same', same) at stored),
                )))))
