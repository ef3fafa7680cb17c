-- ===== src/Dao/Sound/Rows.antt =====
-- Sound tables under one UPDATE of a survey.
use mathlib.Core.Path.{subst}
use wenjuandiaocha_backend.Base.{
  map, lookup, some_injective, Bool, true, false, String, str_eq, eq_iff, some, List, [], ◌∷◌, All,
  All-map, if◌then◌else◌, ◌≡◌, refl, sym, ◌∙◌, arith, Bool-cases, inl, inr, ap,
}
use wenjuandiaocha_backend.Platform.{Platform}
use wenjuandiaocha_backend.Dao.Tables.{SurveyMeta, Version, Db}
use wenjuandiaocha_backend.Dao.Store.{find_survey, update_where, set_survey}
use wenjuandiaocha_backend.Dao.Sound.Lifecycle.{moved, Step, Steps, no_step, a_step}
use wenjuandiaocha_backend.Dao.Sound.{
  status_entry, statuses, snapshot_keys, life, has_survey, IsSoundRow, IsDistinct, IsSound, RowStep,
  RowsEvolve, Legal, RowStep-refl, Extends-refl,
}

clash : {A : Type 0} (b : Bool) → b ≡ false → b ≡ true → A
clash b f t = absurd (ground arith)

module _ (pf : Platform) where
  unmatched :
      (id : String) (ss : List (SurveyMeta pf))
      → has_survey pf id ss ≡ false
      → All (λ (r : SurveyMeta pf). str_eq r.survey_id id ≡ false) ss
  unmatched id [] h = tt
  unmatched id (r ∷ ss) h = (ground (arith, h), unmatched id ss (ground (arith, h)))

  -- The row that a lookup by id finds is the only one with that id.
  only_row :
      (id : String) (ss : List (SurveyMeta pf)) (s : SurveyMeta pf)
      → IsDistinct pf ss
      → find_survey pf id ss ≡ some s
      → All (λ (r : SurveyMeta pf). str_eq r.survey_id id ≡ true → r ≡ s) ss
  only_row id [] s d e = tt
  only_row id (r ∷ ss) s (fresh, d) e = elim (Bool-cases (str_eq r.survey_id id)) [
    | inl hit ↦ (
      λ _. some_injective (rw hit at e),
      All-map {Q = λ (q : SurveyMeta pf). str_eq q.survey_id id ≡ true → q ≡ s}
          (λ q miss hits. clash (str_eq q.survey_id id) miss hits) ss
          (unmatched id ss
            (subst (λ k. has_survey pf k ss ≡ false) ((eq_iff r.survey_id id).0 hit) fresh)),
    )
    | inr miss ↦ (clash (str_eq r.survey_id id) miss, only_row id ss s d (rw miss at e))
  ]

  module _ (f : SurveyMeta pf → SurveyMeta pf) where
    -- A row that the UPDATE reaches, or not.
    choice_id :
        (b : Bool) (r : SurveyMeta pf)
        → (f r).survey_id ≡ r.survey_id
        → (if b then f r else r).survey_id ≡ r.survey_id
    choice_id true r e = e
    choice_id false r e = refl

    choice_step :
        (b : Bool) (r : SurveyMeta pf)
        → (b ≡ true → RowStep pf r (f r))
        → RowStep pf r (if b then f r else r)
    choice_step true r h = h refl
    choice_step false r h = RowStep-refl pf r

    choice_sound :
        (vs : List (Version pf)) (b : Bool) (r : SurveyMeta pf)
        → (b ≡ true → IsSoundRow pf vs r → IsSoundRow pf vs (f r))
        → IsSoundRow pf vs r
        → IsSoundRow pf vs (if b then f r else r)
    choice_sound vs true r h s = h refl s
    choice_sound vs false r h s = s

  module _ (id : String) (f : SurveyMeta pf → SurveyMeta pf)
      (keeps : (r : SurveyMeta pf) → (f r).survey_id ≡ r.survey_id) where
    abbrev updated : List (SurveyMeta pf) → List (SurveyMeta pf)
    updated = update_where (λ (s : SurveyMeta pf). str_eq s.survey_id id) f

    has_survey-updated :
        (k : String) (ss : List (SurveyMeta pf)) → has_survey pf k (updated ss) ≡ has_survey pf k ss
    has_survey-updated k [] = refl
    has_survey-updated k (r ∷ ss) =
        rw (choice_id f (str_eq r.survey_id id) r (keeps r), has_survey-updated k ss) refl

    pub IsDistinct-updated :
        (ss : List (SurveyMeta pf)) → IsDistinct pf ss → IsDistinct pf (updated ss)
    IsDistinct-updated [] d = tt
    IsDistinct-updated (r ∷ ss) (fresh, d) = (
      rw (choice_id f (str_eq r.survey_id id) r (keeps r))
          (has_survey-updated r.survey_id ss ∙ fresh),
      IsDistinct-updated ss d,
    )

    -- What the UPDATE must do with a row.
    abbrev Fits : List (Version pf) → SurveyMeta pf → Type 0
    Fits vs r =
        str_eq r.survey_id id ≡ true
        → RowStep pf r (f r) × (IsSoundRow pf vs r → IsSoundRow pf vs (f r))

    IsSoundRow-updated :
        (vs : List (Version pf)) (ss : List (SurveyMeta pf))
        → All (Fits vs) ss
        → All (IsSoundRow pf vs) ss
        → All (IsSoundRow pf vs) (updated ss)
    IsSoundRow-updated vs [] hs ps = tt
    IsSoundRow-updated vs (r ∷ ss) (h, hs) (p, ps) = (
      choice_sound f vs (str_eq r.survey_id id) r (λ e. (h e).1) p,
      IsSoundRow-updated vs ss hs ps,
    )

    RowsEvolve-updated :
        (vs : List (Version pf)) (ss : List (SurveyMeta pf))
        → All (Fits vs) ss
        → RowsEvolve pf ss (updated ss)
    RowsEvolve-updated vs [] hs = tt
    RowsEvolve-updated vs (r ∷ ss) (h, hs) =
        (choice_step f (str_eq r.survey_id id) r (λ e. (h e).0), RowsEvolve-updated vs ss hs)

    -- An UPDATE of the row that a lookup has found.
    pub set_survey-IsSound :
        (db : Db pf) (s : SurveyMeta pf)
        → find_survey pf id db.surveys ≡ some s
        → RowStep pf s (f s)
        → (IsSoundRow pf db.versions s → IsSoundRow pf db.versions (f s))
        → IsSound pf db
        → IsSound pf (set_survey pf id f db)
          × RowsEvolve pf db.surveys (set_survey pf id f db).surveys
    set_survey-IsSound db s found step kept sound =
        let fits =
          All-map {Q = Fits db.versions}
            (λ r one e.
              subst
                (λ k.
                  RowStep pf k (f k)
                  × (IsSoundRow pf db.versions k → IsSoundRow pf db.versions (f k)))
                (sym (one e)) (step, kept))
            db.surveys (only_row id db.surveys s sound.distinct found) in
        (
          record {
            distinct = IsDistinct-updated db.surveys sound.distinct;
            rows = IsSoundRow-updated db.versions db.surveys fits sound.rows;
            numbered = sound.numbered;
            sheets = sound.sheets;
            typed = sound.typed;
          },
          RowsEvolve-updated db.versions db.surveys fits,
        )

    pub set_survey-Legal :
        (db : Db pf) (s : SurveyMeta pf)
        → find_survey pf id db.surveys ≡ some s
        → Steps (life pf db) (life pf (set_survey pf id f db))
        → RowStep pf s (f s)
        → (IsSoundRow pf db.versions s → IsSoundRow pf db.versions (f s))
        → Legal pf db (set_survey pf id f db)
    set_survey-Legal db s found steps step kept sound =
        let (now_sound, rows) = set_survey-IsSound db s found step kept sound in
        (
          now_sound,
          record {
            lifecycle = steps;
            surveys = rows;
            versions = Extends-refl pf db.versions;
            responses = Extends-refl pf db.responses;
            answer_rows = Extends-refl pf db.answer_rows;
          },
        )

    statuses-kept :
        (ss : List (SurveyMeta pf))
        → ((r : SurveyMeta pf) → (f r).status ≡ r.status)
        → map (status_entry pf) (updated ss) ≡ map (status_entry pf) ss
    statuses-kept [] h = refl
    statuses-kept (r ∷ ss) h = elim (Bool-cases (str_eq r.survey_id id)) [
      | inl hit ↦ rw (hit, keeps r, h r, statuses-kept ss h) refl
      | inr miss ↦ rw (miss, statuses-kept ss h) refl
    ]

    -- An UPDATE of one row that has its status already.
    statuses-still :
        (ss : List (SurveyMeta pf))
        → All (λ (r : SurveyMeta pf). str_eq r.survey_id id ≡ true → (f r).status ≡ r.status) ss
        → map (status_entry pf) (updated ss) ≡ map (status_entry pf) ss
    statuses-still [] h = refl
    statuses-still (r ∷ ss) (h, hs) = elim (Bool-cases (str_eq r.survey_id id)) [
      | inl hit ↦ rw (hit, keeps r, h hit, statuses-still ss hs) refl
      | inr miss ↦ rw (miss, statuses-still ss hs) refl
    ]

    pub still-Steps :
        (db : Db pf) (s : SurveyMeta pf)
        → IsSound pf db
        → find_survey pf id db.surveys ≡ some s
        → (f s).status ≡ s.status
        → Steps (life pf db) (life pf (set_survey pf id f db))
    still-Steps db s sound found h =
        let still = statuses-still db.surveys (
          All-map
            {Q = λ (r : SurveyMeta pf). str_eq r.survey_id id ≡ true → (f r).status ≡ r.status}
            (λ r one e. subst (λ k. (f k).status ≡ k.status) (sym (one e)) h) db.surveys
            (only_row id db.surveys s sound.distinct found)) in
        subst (λ l. Steps (life pf db) (l, snapshot_keys pf db.versions)) (sym still) no_step

    pub statuses-moved :
        (status : String) (ss : List (SurveyMeta pf))
        → ((r : SurveyMeta pf) → (f r).status ≡ status)
        → map (status_entry pf) (updated ss) ≡ moved id status (map (status_entry pf) ss)
    statuses-moved status [] h = refl
    statuses-moved status (r ∷ ss) h = elim (Bool-cases (str_eq r.survey_id id)) [
      | inl hit ↦ rw (hit, keeps r, h r, statuses-moved status ss h) refl
      | inr miss ↦ rw (miss, statuses-moved status ss h) refl
    ]

    -- An UPDATE that leaves the status, and one that sets it.
    pub kept-Steps :
        (db : Db pf)
        → ((r : SurveyMeta pf) → (f r).status ≡ r.status)
        → Steps (life pf db) (life pf (set_survey pf id f db))
    kept-Steps db h =
        subst (λ l. Steps (life pf db) (l, snapshot_keys pf db.versions))
          (sym (statuses-kept db.surveys h)) no_step

    pub moved-Steps :
        (status : String) (db : Db pf)
        → ((r : SurveyMeta pf) → (f r).status ≡ status)
        → Step (life pf db) (moved id status (statuses pf db), snapshot_keys pf db.versions)
        → Steps (life pf db) (life pf (set_survey pf id f db))
    moved-Steps status db h step =
        subst (λ l. Steps (life pf db) (l, snapshot_keys pf db.versions))
          (sym (statuses-moved status db.surveys h)) (a_step no_step step)

  pub lookup-statuses :
      (id : String) (ss : List (SurveyMeta pf)) (s : SurveyMeta pf)
      → find_survey pf id ss ≡ some s
      → lookup id (map (status_entry pf) ss) ≡ some s.status
  lookup-statuses id [] s e = absurd (cc)
  lookup-statuses id (r ∷ ss) s e = elim (Bool-cases (str_eq r.survey_id id)) [
    | inl hit ↦ rw hit (ap (λ (k : SurveyMeta pf). some k.status) (some_injective (rw hit at e)))
    | inr miss ↦ rw miss (lookup-statuses id ss s (rw miss at e))
  ]

  pub found_row :
      (id : String) (vs : List (Version pf)) (ss : List (SurveyMeta pf)) (s : SurveyMeta pf)
      → All (IsSoundRow pf vs) ss
      → find_survey pf id ss ≡ some s
      → IsSoundRow pf vs s
  found_row id vs [] s h e = absurd (cc)
  found_row id vs (r ∷ ss) s (h, hs) e = elim (Bool-cases (str_eq r.survey_id id)) [
    | inl hit ↦ subst (IsSoundRow pf vs) (some_injective (rw hit at e)) h
    | inr miss ↦ found_row id vs ss s hs (rw miss at e)
  ]
