-- ===== src/Dao/Sound/Inserts.antt =====
-- Sound tables under one INSERT.
use mathlib.Core.Path.{subst}
use wenjuandiaocha_backend.Base.{
  ℤ, str_eq, eq_ℤ, ◌&&◌, map, lookup, Bool, true, false, ◌||◌, eq_iff, none, List, [], ◌∷◌, ◌++◌,
  any, eq_ℤ_iff, All-append, All-map, ◌≡◌, refl, arith, String, ap, ◌∙◌, sym,
}
use wenjuandiaocha_backend.Platform.{Platform}
use wenjuandiaocha_backend.Dao.Tables.{SurveyMeta, Version, Response, AnswerRow, Db}
use wenjuandiaocha_backend.Dao.Sound.Lifecycle.{has_key, Step, created, no_step, a_step}
use wenjuandiaocha_backend.Dao.Sound.{
  IsSound, version_key, snapshot_keys, life, has_version, status_entry, statuses, has_survey,
  IsSoundRow, IsDistinct, IsNumbered, HasSheet, IsTyped, RowsEvolve, RowStep-refl, RowsEvolve-refl,
  Legal, Extends-refl,
}

any-append :
    {A : Type 0} (p : A → Bool) (xs ys : List A) → any p (xs ++ ys) ≡ (any p xs || any p ys)
any-append p [] ys = refl
any-append p (x ∷ xs) ys = ground (arith, any-append p xs ys)

-- What a table has, it still has with more rows.
any-kept : {A : Type 0} (p : A → Bool) (xs ys : List A) → any p xs ≡ true → any p (xs ++ ys) ≡ true
any-kept p xs ys h = ground (arith, any-append p xs ys)

-- A table has the row that was just added.
pub any-snoc :
    {A : Type 0} (p : A → Bool) (xs : List A) (x : A) → p x ≡ true → any p (xs ++ (x ∷ [])) ≡ true
any-snoc p xs x h = ground (arith, any-append p xs (x ∷ []), h)

none-snoc :
    {A : Type 0} (p : A → Bool) (xs : List A) (x : A)
    → any p xs ≡ false
    → p x ≡ false
    → any p (xs ++ (x ∷ [])) ≡ false
none-snoc p xs x h k = ground (arith, any-append p xs (x ∷ []))

module _ (pf : Platform) where
  IsDistinct-snoc :
      (ss : List (SurveyMeta pf)) (s : SurveyMeta pf)
      → IsDistinct pf ss
      → has_survey pf s.survey_id ss ≡ false
      → IsDistinct pf (ss ++ (s ∷ []))
  IsDistinct-snoc [] s d h = (refl, tt)
  IsDistinct-snoc (r ∷ ss) s (fresh, d) h = (
    none-snoc _ ss s fresh
        (ground (arith, eq_iff r.survey_id s.survey_id, eq_iff s.survey_id r.survey_id)),
    IsDistinct-snoc ss s d (ground arith),
  )

  IsNumbered-snoc :
      (vs : List (Version pf)) (v : Version pf)
      → IsNumbered pf vs
      → has_version pf v.survey_id v.version vs ≡ false
      → IsNumbered pf (vs ++ (v ∷ []))
  IsNumbered-snoc [] v d h = (refl, tt)
  IsNumbered-snoc (r ∷ vs) v (fresh, d) h = (
    none-snoc _ vs v fresh (
        ground (
          arith,
          eq_iff r.survey_id v.survey_id,
          eq_iff v.survey_id r.survey_id,
          eq_ℤ_iff r.version v.version,
          eq_ℤ_iff v.version r.version,
        )),
    IsNumbered-snoc vs v d (ground arith),
  )

  RowsEvolve-snoc : (ss new : List (SurveyMeta pf)) → RowsEvolve pf ss (ss ++ new)
  RowsEvolve-snoc [] new = tt
  RowsEvolve-snoc (s ∷ ss) new = (RowStep-refl pf s, RowsEvolve-snoc ss new)

  IsSoundRow-kept :
      (vs new : List (Version pf)) (s : SurveyMeta pf)
      → IsSoundRow pf vs s
      → IsSoundRow pf (vs ++ new) s
  IsSoundRow-kept vs new s (live, has, known) = (live, λ v e. any-kept _ vs new (has v e), known)

  lookup-fresh :
      (id : String) (ss : List (SurveyMeta pf))
      → has_survey pf id ss ≡ false
      → lookup id (map (status_entry pf) ss) ≡ none
  lookup-fresh id [] h = refl
  lookup-fresh id (s ∷ ss) h = ground (arith, h, lookup-fresh id ss)

  statuses-snoc :
      (ss : List (SurveyMeta pf)) (s : SurveyMeta pf)
      → map (status_entry pf) (ss ++ (s ∷ []))
        ≡ map (status_entry pf) ss ++ (status_entry pf s ∷ [])
  statuses-snoc [] s = refl
  statuses-snoc (r ∷ ss) s = ap (λ l. status_entry pf r ∷ l) (statuses-snoc ss s)

  -- A fresh draft.
  pub add_survey-Legal :
      (db : Db pf) (s : SurveyMeta pf)
      → has_survey pf s.survey_id db.surveys ≡ false
      → s.status ≡ "draft"
      → s.published_version ≡ none
      → Legal pf db (record db { surveys = db.surveys ++ (s ∷ []) })
  add_survey-Legal db s fresh draft unpublished h = (
    record {
      distinct = IsDistinct-snoc db.surveys s h.distinct fresh;
      rows =
          All-append (IsSoundRow pf db.versions) db.surveys (s ∷ []) h.rows
            ((λ e. absurd (cc), λ v e. absurd (cc), rw draft refl), tt);
      numbered = h.numbered;
      sheets = h.sheets;
      typed = h.typed;
    },
    record {
      surveys = RowsEvolve-snoc db.surveys (s ∷ []);
      lifecycle = a_step no_step (
          subst (λ l. Step (life pf db) (l, snapshot_keys pf db.versions))
            (ap (λ status. statuses pf db ++ ((s.survey_id, status) ∷ [])) (sym draft)
              ∙ sym (statuses-snoc db.surveys s))
            (created s.survey_id (lookup-fresh s.survey_id db.surveys fresh)));
      versions = Extends-refl pf db.versions;
      responses = Extends-refl pf db.responses;
      answer_rows = Extends-refl pf db.answer_rows;
    },
  )

  -- A snapshot under a new number.
  pub add_version-IsSound :
      (db : Db pf) (v : Version pf)
      → has_version pf v.survey_id v.version db.versions ≡ false
      → IsSound pf db
      → IsSound pf (record db { versions = db.versions ++ (v ∷ []) })
  add_version-IsSound db v fresh h = record {
    distinct = h.distinct;
    rows =
        All-map {Q = IsSoundRow pf (db.versions ++ (v ∷ []))}
          (λ s k. IsSoundRow-kept db.versions (v ∷ []) s k) db.surveys h.rows;
    numbered = IsNumbered-snoc db.versions v h.numbered fresh;
    sheets = h.sheets;
    typed = h.typed;
  }

  pub snapshot_keys-snoc :
      (vs : List (Version pf)) (v : Version pf)
      → snapshot_keys pf (vs ++ (v ∷ [])) ≡ snapshot_keys pf vs ++ (version_key pf v ∷ [])
  snapshot_keys-snoc [] v = refl
  snapshot_keys-snoc (u ∷ vs) v = ap (λ l. version_key pf u ∷ l) (snapshot_keys-snoc vs v)

  pub has_key-snapshot_keys :
      (id : String) (n : ℤ) (vs : List (Version pf))
      → has_key id n (snapshot_keys pf vs) ≡ has_version pf id n vs
  has_key-snapshot_keys id n [] = refl
  has_key-snapshot_keys id n (v ∷ vs) =
      ap (λ b. (str_eq v.survey_id id && eq_ℤ v.version n) || b) (has_key-snapshot_keys id n vs)

  -- An answer sheet.
  pub add_response-Legal :
      (db : Db pf) (p : Response pf)
      → Legal pf db (record db { responses = db.responses ++ (p ∷ []) })
  add_response-Legal db p h = (
    record {
      distinct = h.distinct;
      rows = h.rows;
      numbered = h.numbered;
      sheets =
          All-map {Q = HasSheet pf (db.responses ++ (p ∷ []))}
            (λ a k. any-kept _ db.responses (p ∷ []) k) db.answer_rows h.sheets;
      typed = h.typed;
    },
    record {
      surveys = RowsEvolve-refl pf db.surveys;
      lifecycle = no_step;
      versions = Extends-refl pf db.versions;
      responses = (p ∷ [], refl);
      answer_rows = Extends-refl pf db.answer_rows;
    },
  )

  -- An answer row of a sheet that is there.
  pub add_row-Legal :
      (db : Db pf) (a : AnswerRow pf)
      → HasSheet pf db.responses a
      → IsTyped pf a
      → Legal pf db (record db { answer_rows = db.answer_rows ++ (a ∷ []) })
  add_row-Legal db a has typed h = (
    record {
      distinct = h.distinct;
      rows = h.rows;
      numbered = h.numbered;
      sheets = All-append (HasSheet pf db.responses) db.answer_rows (a ∷ []) h.sheets (has, tt);
      typed = All-append (IsTyped pf) db.answer_rows (a ∷ []) h.typed (typed, tt);
    },
    record {
      surveys = RowsEvolve-refl pf db.surveys;
      lifecycle = no_step;
      versions = Extends-refl pf db.versions;
      responses = Extends-refl pf db.responses;
      answer_rows = (a ∷ [], refl);
    },
  )
