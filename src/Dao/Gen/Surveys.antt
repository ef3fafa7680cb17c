-- ===== src/Dao/Gen/Surveys.antt =====
-- internal/dao/gen/surveys.sql.go, without the lists: surveys and their published snapshots.
use wenjuandiaocha_backend.Base.{
  ℤ, not, ◌&&◌, ◌||◌, String, str_eq, Option, none, some, List, [], ◌∷◌, ◌++◌, any, member,
  if◌then◌else◌, eq_ℤ,
}
use wenjuandiaocha_backend.Platform.{Platform}
use wenjuandiaocha_backend.Ecode.{GoError}
use wenjuandiaocha_backend.Dao.Tables.{User, SurveyMeta, Version, Db}
use wenjuandiaocha_backend.Dao.Exec.{Result, ok, err, M, statement, query}
use wenjuandiaocha_backend.Dao.Gen.Rows.{one_row, find, update_where}
use wenjuandiaocha_backend.Dao.Json.{Json}

module _ (pf : Platform) where
  abbrev pub find_survey : String → List (SurveyMeta pf) → Option (SurveyMeta pf)
  find_survey id = find (λ (s : SurveyMeta pf). str_eq s.survey_id id)

  abbrev pub get_survey : String → M pf (SurveyMeta pf)
  get_survey id = query (λ db. one_row (find_survey id db.surveys))

  -- UPDATE surveys SET … WHERE survey_id = $1
  abbrev pub set_survey : String → (SurveyMeta pf → SurveyMeta pf) → Db pf → Db pf
  set_survey id f db = record db {
    surveys = update_where (λ (s : SurveyMeta pf). str_eq s.survey_id id) f db.surveys;
  }

  abbrev pub set_status : String → String → M pf (Unit {0})
  set_status id status w =
      statement
        (λ db. (ok tt, set_survey id (λ s. record s { status = status; updated_at = w.now }) db)) w

  abbrev pub set_answer_access : String → String → M pf (Unit {0})
  set_answer_access id access w =
      statement
        (λ db.
          (ok tt, set_survey id (λ s. record s { answer_access = access; updated_at = w.now }) db))
        w

  abbrev pub set_display_mode : String → String → M pf (Unit {0})
  set_display_mode id mode w =
      statement
        (λ db.
          (ok tt, set_survey id (λ s. record s { display_mode = mode; updated_at = w.now }) db))
        w

  abbrev pub schema_of : Option (Version pf) → Option pf.Raw
  schema_of none = none
  schema_of (some v) = some v.schema

  abbrev pub version_schema : String → ℤ → List (Version pf) → Option pf.Raw
  version_schema id v versions =
      schema_of (find (λ (r : Version pf). str_eq r.survey_id id && eq_ℤ r.version v) versions)

  -- The snapshot that the survey points at, while it is live.
  abbrev pub pointed_schema : String → Option ℤ → List (Version pf) → Option pf.Raw
  pointed_schema id none versions = none
  pointed_schema id (some v) versions = version_schema id v versions

  abbrev pub published_schema : List (Version pf) → Option (SurveyMeta pf) → Option pf.Raw
  published_schema versions none = none
  published_schema versions (some s) =
      if str_eq s.status "live"
      then pointed_schema s.survey_id s.published_version versions
      else none

  abbrev pub get_published_schema : String → M pf pf.Raw
  get_published_schema id =
      query (λ db. one_row (published_schema db.versions (find_survey id db.surveys)))

  abbrev pub get_version_schema : String → ℤ → M pf pf.Raw
  get_version_schema id v = query (λ db. one_row (version_schema id v db.versions))

module _ (pf : Platform) (js : Json pf) where
  -- A stored document; a text that Postgres refuses is an error.
  abbrev pub with_jsonb :
      Option pf.Raw
      → (pf.Raw → Db pf → Result (Unit {0}) × Db pf)
      → Db pf
      → Result (Unit {0}) × Db pf
  with_jsonb none f db = (err GoError.driver, db)
  with_jsonb (some doc) f db = f doc db

  abbrev pub create_survey :
      (id owner type title : String)
      → pf.Raw
      → (answer_access display_mode : String) → M pf (Unit {0})
  create_survey id owner type title draft access display w =
      statement
        (with_jsonb (js.jsonb draft) (λ doc db.
          if any (λ (s : SurveyMeta pf). str_eq s.survey_id id) db.surveys
            || not (any (λ (u : User). str_eq u.user_id owner) db.users)
            || not (member access ("anonymous" ∷ "login_required" ∷ []))
            || not (member display ("paged" ∷ "single" ∷ []))
          then (err GoError.driver, db)
          else (
            ok tt,
            record db {
              surveys =
                  db.surveys
                  ++ (record {
                    survey_id = id;
                    owner_id = owner;
                    type = type;
                    title = title;
                    status = "draft";
                    draft_schema = doc;
                    published_version = none;
                    answer_access = access;
                    display_mode = display;
                    updated_at = w.now;
                  }
                      ∷ []);
            },
          )))
        w

  abbrev pub update_draft : (id title type : String) → pf.Raw → M pf (Unit {0})
  update_draft id title type draft w =
      statement
        (with_jsonb (js.jsonb draft) (λ doc db. (
          ok tt,
          set_survey pf id
              (λ s. record s { draft_schema = doc; title = title; type = type; updated_at = w.now })
              db,
        )))
        w
