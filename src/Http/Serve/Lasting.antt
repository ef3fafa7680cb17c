-- ===== src/Http/Serve/Lasting.antt =====
-- What sound tables and their history give to those who answer surveys.
use mathlib.Core.Path.{subst}
use wenjuandiaocha_backend.Base.{
  some_injective, ℤ, Bool, true, ◌&&◌, String, str_eq, eq_ℤ, Option, none, some, is_some, List, [],
  ◌∷◌, ◌++◌, any, ℕ, ◌≡◌, ◌<◌, ◌⊎◌, lookup, refl, sym, arith, Bool-cases, inl, inr,
}
use wenjuandiaocha_backend.Platform.{Platform}
use wenjuandiaocha_backend.Dao.Tables.{SurveyMeta, Version, Db}
use wenjuandiaocha_backend.Dao.Exec.{ok}
use wenjuandiaocha_backend.Dao.Store.{
  find, find_survey, schema_of, version_schema, published_schema, get_survey, get_published_schema,
}
use wenjuandiaocha_backend.Dao.Sound.Lifecycle.{Steps}
use wenjuandiaocha_backend.Dao.Sound.Rows.{found_row}
use wenjuandiaocha_backend.Dao.Sound.{statuses, snapshot_keys, life, IsSound}
use wenjuandiaocha_backend.Dao.Sound.Publications.{count_keys, Steps-Grows}
use wenjuandiaocha_backend.Service.Submission.{get_published}
use wenjuandiaocha_backend.Service.Survey.{or_text}
use wenjuandiaocha_backend.Http.Messages.{Server}
use wenjuandiaocha_backend.Http.Ratelimit.{Arithmetic}
use wenjuandiaocha_backend.Http.Serve.{State}
use wenjuandiaocha_backend.Http.Serve.History.{Reach, Reach-Evolves}

find-append :
    {A : Type 0} (p : A → Bool) (xs ys : List A) (x : A)
    → find p xs ≡ some x
    → find p (xs ++ ys) ≡ some x
find-append p [] ys x h = absurd (cc)
find-append p (z ∷ xs) ys x h = elim (Bool-cases (p z)) [
  | inl hit ↦ rw hit (rw hit at h)
  | inr miss ↦ rw miss (find-append p xs ys x (rw miss at h))
]

find-any : {A : Type 0} (p : A → Bool) (xs : List A) → any p xs ≡ true → is_some (find p xs) ≡ true
find-any p [] h = absurd (cc)
find-any p (x ∷ xs) h = elim (Bool-cases (p x)) [
  | inl hit ↦ rw hit refl
  | inr miss ↦ rw miss (find-any p xs (ground arith))
]

is_some-true : {A : Type 0} (o : Option A) → is_some o ≡ true → (a : A) × (o ≡ some a)
is_some-true none h = absurd (cc)
is_some-true (some a) h = (a, refl)

module _ (pf : Platform) where
  -- The snapshots of one survey under one number.
  abbrev is_version : String → ℤ → Version pf → Bool
  is_version id v r = str_eq r.survey_id id && eq_ℤ r.version v

  schema_of-some :
      (o : Option (Version pf)) (doc : pf.Raw)
      → schema_of pf o ≡ some doc
      → (r : Version pf) × (o ≡ some r) × (r.schema ≡ doc)
  schema_of-some none doc h = absurd (cc)
  schema_of-some (some r) doc h = (r, refl, some_injective h)

  version_schema-append :
      (id : String) (v : ℤ) (vs new : List (Version pf)) (doc : pf.Raw)
      → version_schema pf id v vs ≡ some doc
      → version_schema pf id v (vs ++ new) ≡ some doc
  version_schema-append id v vs new doc h =
      let (r, found, same) = schema_of-some (find (is_version id v) vs) doc h in
      rw (find-append (is_version id v) vs new r found, same) refl

  -- A snapshot that has been published once can be read under its survey and number for ever after,
  -- and is the same document, whatever requests are served and accounts are seeded meanwhile. The
  -- tables were sound.
  pub version_schema-Reach :
      (ar : Arithmetic pf) (sv : Server pf) (start st : State pf) (id : String) (v : ℤ)
      (doc : pf.Raw)
      → IsSound pf start.db
      → Reach pf ar sv start st
      → version_schema pf id v start.db.versions ≡ some doc
      → version_schema pf id v st.db.versions ≡ some doc
  version_schema-Reach ar sv start st id v doc sound reach h =
      let (new, e) = (Reach-Evolves pf ar sv start st sound reach).1.versions in
      subst (λ vs. version_schema pf id v vs ≡ some doc) (sym e)
        (version_schema-append id v start.db.versions new doc h)

  -- The code refines the lifecycle of surveys: from sound tables, whatever requests are served and
  -- accounts are seeded, the statuses of the surveys by id and the keys of the snapshots go from what
  -- they were to what they are by steps of a state machine (a new survey is a draft; a publication
  -- adds a snapshot under a new number and makes its survey live; only a live survey is closed, and
  -- only a closed one goes back to live without a new snapshot). So a survey that was a draft at the
  -- start either is one still, or has more snapshots than it had.
  pub life-Reach :
      (ar : Arithmetic pf) (sv : Server pf) (start st : State pf)
      → IsSound pf start.db
      → Reach pf ar sv start st
      → Steps (life pf start.db) (life pf st.db)
        × ((id : String)
            → lookup id (statuses pf start.db) ≡ some "draft"
            → (lookup id (statuses pf st.db) ≡ some "draft")
              ⊎ (count_keys id (snapshot_keys pf start.db.versions)
                  < count_keys id (snapshot_keys pf st.db.versions)))
  life-Reach ar sv start st sound reach =
      let steps = (Reach-Evolves pf ar sv start st sound reach).1.lifecycle in
      (steps, λ id. (Steps-Grows id steps).1)

  -- A live survey in sound tables has its snapshot.
  live-snapshot :
      (id : String) (db : Db pf) (s : SurveyMeta pf)
      → IsSound pf db
      → find_survey pf id db.surveys ≡ some s
      → s.status ≡ "live"
      → (v : ℤ) × (doc : pf.Raw) × (s.published_version ≡ some v)
        × (version_schema pf s.survey_id v db.versions ≡ some doc)
  live-snapshot id db s sound found live =
      let (points, has, known) = found_row pf id db.versions db.surveys s sound.rows found in
      let (v, pointer) = is_some-true s.published_version (points live) in
      let (r, hit) =
        is_some-true _ (find-any (is_version s.survey_id v) db.versions (has v pointer)) in
      (v, r.schema, pointer, rw hit refl)

  -- A live survey can be answered: in sound tables, if no statement fails, the public page of a live
  -- survey loads, with the snapshot that the survey points at and its two modes.
  pub get_published-Live :
      (id : String) (db : Db pf) (now : ℕ) (s : SurveyMeta pf)
      → IsSound pf db
      → find_survey pf id db.surveys ≡ some s
      → s.status ≡ "live"
      → (v : ℤ) × (doc : pf.Raw) × (s.published_version ≡ some v)
        × (version_schema pf s.survey_id v db.versions ≡ some doc)
        × (get_published pf id (record { db = db; now = now; faults = [] }) ≡ (
          ok (record {
            schema = doc;
            answer_access = or_text s.answer_access "anonymous";
            display_mode = or_text s.display_mode "single";
          }),
          record { db = db; now = now; faults = [] },
        ))
  unfolding get_published get_published_schema get_survey
  get_published-Live id db now s sound found live =
      let (v, doc, pointer, snapshot) = live-snapshot id db s sound found live in
      let published : published_schema pf db.versions (find_survey pf id db.surveys) ≡ some doc =
        rw (found, live, pointer) snapshot in
      (v, doc, pointer, snapshot, rw (published, found) refl)
