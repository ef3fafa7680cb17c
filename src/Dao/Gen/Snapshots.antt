-- ===== src/Dao/Gen/Snapshots.antt =====
-- internal/dao/gen/surveys.sql.go: MaxVersion, InsertVersion and SetPublished.
use wenjuandiaocha_backend.Base.{
  ℤ, pos, not, ◌&&◌, ◌||◌, String, str_eq, Option, none, some, List, [], ◌∷◌, ◌++◌, any,
  if◌then◌else◌, ltb_ℤ, eq_ℤ,
}
use wenjuandiaocha_backend.Platform.{Platform}
use wenjuandiaocha_backend.Ecode.{GoError}
use wenjuandiaocha_backend.Dao.Tables.{SurveyMeta, Version, Db}
use wenjuandiaocha_backend.Dao.Exec.{Result, ok, err, M, statement}
use wenjuandiaocha_backend.Dao.Gen.Surveys.{set_survey}

-- SELECT COALESCE(MAX(version), 0) of one survey.
abbrev pub larger : Option ℤ → ℤ → ℤ
larger none v = v
larger (some u) v = if ltb_ℤ u v then v else u

abbrev pub coalesce : Option ℤ → ℤ
coalesce none = pos 0
coalesce (some v) = v

module _ (pf : Platform) where
  abbrev pub max_seen : String → Option ℤ → List (Version pf) → Option ℤ
  max_seen id seen [] = seen
  max_seen id seen (v ∷ vs) =
      max_seen id (if str_eq v.survey_id id then some (larger seen v.version) else seen) vs

  unfoldable pub max_version : String → List (Version pf) → ℤ
  max_version id versions = coalesce (max_seen id none versions)

  -- INSERT INTO survey_versions: one row for each survey and version, of a survey that exists.
  unfoldable pub add_version : String → ℤ → Option pf.Raw → Db pf → Result (Unit {0}) × Db pf
  add_version id v none db = (err GoError.driver, db)
  add_version id v (some doc) db =
      if any (λ (r : Version pf). str_eq r.survey_id id && eq_ℤ r.version v) db.versions
        || not (any (λ (s : SurveyMeta pf). str_eq s.survey_id id) db.surveys)
      then (err GoError.driver, db)
      else (
        ok tt,
        record db {
          versions = db.versions ++ (record { survey_id = id; version = v; schema = doc } ∷ []);
        },
      )

  unfoldable pub set_published : String → ℤ → M pf (Unit {0})
  set_published id v w =
      statement
        (λ db. (
          ok tt,
          set_survey pf id
              (λ s. record s { published_version = some v; status = "live"; updated_at = w.now })
              db,
        ))
        w
