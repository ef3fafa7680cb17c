-- ===== src/Dao/Sound/Persists.antt =====
-- What of the tables outlasts calls that overlap: all of Dao/Sound but the document of a survey.
use mathlib.Core.Path.{subst}
use wenjuandiaocha_backend.Base.{
  true, false, String, str_eq, some, is_some, List, [], ◌∷◌, All, Bool, ◌≡◌, refl, ◌∙◌, Bool-cases,
  inl, inr, some_injective, if◌then◌else◌,
}
use wenjuandiaocha_backend.Platform.{Platform}
use wenjuandiaocha_backend.Dao.Tables.{SurveyMeta, Version, Db}
use wenjuandiaocha_backend.Dao.Store.{find_survey, update_where, set_survey}
use wenjuandiaocha_backend.Dao.Sound.{
  life, Extends, Extends-refl, Extends-trans, RowStep, RowsEvolve, Evolves, Evolves-refl, IsSound,
  IsSoundRow, Legal,
}
use wenjuandiaocha_backend.Dao.Sound.Lifecycle.{Steps, Steps-trans}
use wenjuandiaocha_backend.Dao.Sound.Rows.{IsDistinct-updated, kept-Steps}

module _ (pf : Platform) where
  -- A survey keeps its id and its owner, never goes back to a draft, and stays published once it was.
  pub record RowPersists (s t : SurveyMeta pf) : Type 0 where
    pub same_id : t.survey_id ≡ s.survey_id
    pub same_owner : t.owner_id ≡ s.owner_id
    pub no_way_back : t.status ≡ "draft" → s.status ≡ "draft"
    pub still_published : is_some s.published_version ≡ true → is_some t.published_version ≡ true

  abbrev pub RowsPersist : List (SurveyMeta pf) → List (SurveyMeta pf) → Type 0
  RowsPersist [] ts = Unit
  RowsPersist (s ∷ ss) [] = ⊥
  RowsPersist (s ∷ ss) (t ∷ ts) = RowPersists s t × RowsPersist ss ts

  pub record Persists (db after : Db pf) : Type 0 where
    pub surveys : RowsPersist db.surveys after.surveys
    pub lifecycle : Steps (life pf db) (life pf after)
    pub versions : Extends pf db.versions after.versions
    pub responses : Extends pf db.responses after.responses
    pub answer_rows : Extends pf db.answer_rows after.answer_rows

  -- A change that keeps the tables sound, and all but the documents of surveys.
  abbrev pub Tolerable : Db pf → Db pf → Type 0
  Tolerable db after = IsSound pf db → IsSound pf after × Persists db after

  RowStep-Persists : (s t : SurveyMeta pf) → RowStep pf s t → RowPersists s t
  RowStep-Persists s t p = record {
    same_id = p.same_id;
    same_owner = p.same_owner;
    no_way_back = p.no_way_back;
    still_published = p.still_published;
  }

  RowsEvolve-Persist : (ss ts : List (SurveyMeta pf)) → RowsEvolve pf ss ts → RowsPersist ss ts
  RowsEvolve-Persist [] ts h = tt
  RowsEvolve-Persist (s ∷ ss) [] h = absurd h
  RowsEvolve-Persist (s ∷ ss) (t ∷ ts) (p, ps) =
      (RowStep-Persists s t p, RowsEvolve-Persist ss ts ps)

  pub Evolves-Persists : (db after : Db pf) → Evolves pf db after → Persists db after
  Evolves-Persists db after p = record {
    surveys = RowsEvolve-Persist db.surveys after.surveys p.surveys;
    lifecycle = p.lifecycle;
    versions = p.versions;
    responses = p.responses;
    answer_rows = p.answer_rows;
  }

  pub Legal-Tolerable : (db after : Db pf) → Legal pf db after → Tolerable db after
  Legal-Tolerable db after legal sound =
      let (kept, p) = legal sound in (kept, Evolves-Persists db after p)

  pub Tolerable-refl : (db : Db pf) → Tolerable db db
  Tolerable-refl db sound = (sound, Evolves-Persists db db (Evolves-refl pf db))

  RowPersists-trans : (s t u : SurveyMeta pf) → RowPersists s t → RowPersists t u → RowPersists s u
  RowPersists-trans s t u p q = record {
    same_id = q.same_id ∙ p.same_id;
    same_owner = q.same_owner ∙ p.same_owner;
    no_way_back = λ e. p.no_way_back (q.no_way_back e);
    still_published = λ e. q.still_published (p.still_published e);
  }

  RowsPersist-trans :
      (ss ts us : List (SurveyMeta pf)) → RowsPersist ss ts → RowsPersist ts us → RowsPersist ss us
  RowsPersist-trans [] ts us p q = tt
  RowsPersist-trans (s ∷ ss) [] us p q = absurd p
  RowsPersist-trans (s ∷ ss) (t ∷ ts) [] p q = absurd q
  RowsPersist-trans (s ∷ ss) (t ∷ ts) (u ∷ us) (p, ps) (q, qs) =
      (RowPersists-trans s t u p q, RowsPersist-trans ss ts us ps qs)

  Persists-trans : (a b c : Db pf) → Persists a b → Persists b c → Persists a c
  Persists-trans a b c p q = record {
    surveys = RowsPersist-trans a.surveys b.surveys c.surveys p.surveys q.surveys;
    lifecycle = Steps-trans p.lifecycle q.lifecycle;
    versions = Extends-trans pf a.versions b.versions c.versions p.versions q.versions;
    responses = Extends-trans pf a.responses b.responses c.responses p.responses q.responses;
    answer_rows =
        Extends-trans pf a.answer_rows b.answer_rows c.answer_rows p.answer_rows q.answer_rows;
  }

  pub Tolerable-trans : (a b c : Db pf) → Tolerable a b → Tolerable b c → Tolerable a c
  Tolerable-trans a b c p q sound =
      let (hb, ab) = p sound in let (hc, bc) = q hb in (hc, Persists-trans a b c ab bc)

  -- A survey that was found once is found later, with what persists of it.
  pub find_survey-Persists :
      (id : String) (ss ts : List (SurveyMeta pf)) (s : SurveyMeta pf)
      → RowsPersist ss ts
      → find_survey pf id ss ≡ some s
      → (t : SurveyMeta pf) × (find_survey pf id ts ≡ some t) × RowPersists s t
  find_survey-Persists id [] ts s h e = absurd (cc)
  find_survey-Persists id (r ∷ ss) [] s h e = absurd h
  find_survey-Persists id (r ∷ ss) (t ∷ ts) s (p, ps) e =
      elim (Bool-cases (str_eq r.survey_id id)) [
        | inl hit ↦ (
          t,
          rw (p.same_id, hit) refl,
          subst (λ k. RowPersists k t) (some_injective (rw hit at e)) p,
        )
        | inr miss ↦
            let (u, found, q) = find_survey-Persists id ss ts s ps (rw miss at e) in
            (u, rw (p.same_id, miss) found, q)
      ]

  -- An UPDATE of columns that soundness does not speak of.
  module _ (id : String) (f : SurveyMeta pf → SurveyMeta pf)
      (keeps : (r : SurveyMeta pf) → (f r).survey_id ≡ r.survey_id)
      (owner : (r : SurveyMeta pf) → (f r).owner_id ≡ r.owner_id)
      (status : (r : SurveyMeta pf) → (f r).status ≡ r.status)
      (points : (r : SurveyMeta pf) → (f r).published_version ≡ r.published_version) where
    choice-Persists : (b : Bool) (r : SurveyMeta pf) → RowPersists r (if b then f r else r)
    choice-Persists true r = record {
      same_id = keeps r;
      same_owner = owner r;
      no_way_back = λ h. rw (status r) at h;
      still_published = λ h. rw (points r) h;
    }
    choice-Persists false r = record {
      same_id = refl;
      same_owner = refl;
      no_way_back = λ h. h;
      still_published = λ h. h;
    }

    choice-IsSoundRow :
        (vs : List (Version pf)) (b : Bool) (r : SurveyMeta pf)
        → IsSoundRow pf vs r
        → IsSoundRow pf vs (if b then f r else r)
    choice-IsSoundRow vs true r h = rw (keeps r, status r, points r) h
    choice-IsSoundRow vs false r h = h

    RowsPersist-updated :
        (ss : List (SurveyMeta pf))
        → RowsPersist ss (update_where (λ (s : SurveyMeta pf). str_eq s.survey_id id) f ss)
    RowsPersist-updated [] = tt
    RowsPersist-updated (r ∷ ss) =
        (choice-Persists (str_eq r.survey_id id) r, RowsPersist-updated ss)

    rows-updated :
        (vs : List (Version pf)) (ss : List (SurveyMeta pf))
        → All (IsSoundRow pf vs) ss
        → All (IsSoundRow pf vs) (update_where (λ (s : SurveyMeta pf). str_eq s.survey_id id) f ss)
    rows-updated vs [] h = tt
    rows-updated vs (r ∷ ss) (h, hs) =
        (choice-IsSoundRow vs (str_eq r.survey_id id) r h, rows-updated vs ss hs)

    pub set_survey-Tolerable : (db : Db pf) → Tolerable db (set_survey pf id f db)
    set_survey-Tolerable db sound = (
      record {
        distinct = IsDistinct-updated pf id f keeps db.surveys sound.distinct;
        rows = rows-updated db.versions db.surveys sound.rows;
        numbered = sound.numbered;
        sheets = sound.sheets;
        typed = sound.typed;
      },
      record {
        surveys = RowsPersist-updated db.surveys;
        lifecycle = kept-Steps pf id f keeps db status;
        versions = Extends-refl pf db.versions;
        responses = Extends-refl pf db.responses;
        answer_rows = Extends-refl pf db.answer_rows;
      },
    )
