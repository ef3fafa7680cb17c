-- ===== src/Dao/Sound.antt =====
-- The tables of internal/dao over time: what always holds of them, and how they may change.

pub mod Lifecycle
pub mod Rows
pub mod Inserts
pub mod Calls
pub mod Statements
pub mod Persists
pub mod Publications
use wenjuandiaocha_backend.Base.{
  map, ℤ, Bool, true, false, not, ◌&&◌, ◌||◌, String, str_eq, Option, some, List, [], ◌∷◌, ◌++◌,
  any, eq_ℤ, is_some, member, All, ◌≡◌, ◌≢◌, refl, sym, ap, ◌∙◌, arith,
}
use mathlib.Core.List.{append_assoc, append-nil}
use wenjuandiaocha_backend.Platform.{Platform}
use wenjuandiaocha_backend.Dao.Sound.Lifecycle.{Life, Steps, no_step, Steps-trans}
use wenjuandiaocha_backend.Dao.Tables.{SurveyMeta, Version, Response, AnswerRow, Db}

module _ (pf : Platform) where
  abbrev pub has_version : String → ℤ → List (Version pf) → Bool
  has_version id v = any (λ (r : Version pf). str_eq r.survey_id id && eq_ℤ r.version v)

  abbrev pub has_survey : String → List (SurveyMeta pf) → Bool
  has_survey id = any (λ (s : SurveyMeta pf). str_eq s.survey_id id)

  abbrev pub has_response : String → List (Response pf) → Bool
  has_response id = any (λ (p : Response pf). str_eq p.response_id id)

  -- A live survey points at a snapshot, a pointer has its snapshot, and the status is one of three.
  abbrev pub IsSoundRow : List (Version pf) → SurveyMeta pf → Type 0
  IsSoundRow versions s =
      (s.status ≡ "live" → is_some s.published_version ≡ true)
      × ((v : ℤ) → s.published_version ≡ some v → has_version s.survey_id v versions ≡ true)
      × (member s.status ("draft" ∷ "live" ∷ "closed" ∷ []) ≡ true)

  -- No two surveys have one id, and no two snapshots of a survey one number.
  abbrev pub IsDistinct : List (SurveyMeta pf) → Type 0
  IsDistinct [] = Unit
  IsDistinct (s ∷ ss) = (has_survey s.survey_id ss ≡ false) × IsDistinct ss

  abbrev pub IsNumbered : List (Version pf) → Type 0
  IsNumbered [] = Unit
  IsNumbered (v ∷ vs) = (has_version v.survey_id v.version vs ≡ false) × IsNumbered vs

  -- Every answer row belongs to an answer sheet.
  abbrev pub HasSheet : List (Response pf) → AnswerRow pf → Type 0
  HasSheet responses a = has_response a.response_id responses ≡ true

  -- An answer row holds a text or a number, one of the two, and no empty name of a part.
  abbrev pub IsTyped : AnswerRow pf → Type 0
  IsTyped a = (is_some a.value_text ≡ not (is_some a.value_num)) × (a.sub_id ≢ some "")

  pub record IsSound (db : Db pf) : Type 0 where
    pub distinct : IsDistinct db.surveys
    pub rows : All (IsSoundRow db.versions) db.surveys
    pub numbered : IsNumbered db.versions
    pub sheets : All (HasSheet db.responses) db.answer_rows
    pub typed : All IsTyped db.answer_rows

  -- A survey keeps its id and its owner, never goes back to a draft, stays published once it was,
  -- and keeps its document, title and type once it is no draft.
  pub record RowStep (s t : SurveyMeta pf) : Type 0 where
    pub same_id : t.survey_id ≡ s.survey_id
    pub same_owner : t.owner_id ≡ s.owner_id
    pub no_way_back : t.status ≡ "draft" → s.status ≡ "draft"
    pub still_published : is_some s.published_version ≡ true → is_some t.published_version ≡ true
    pub frozen :
        s.status ≢ "draft"
        → (t.draft_schema ≡ s.draft_schema) × (t.title ≡ s.title) × (t.type ≡ s.type)

  -- Surveys are never removed; new ones come behind.
  abbrev pub RowsEvolve : List (SurveyMeta pf) → List (SurveyMeta pf) → Type 0
  RowsEvolve [] ts = Unit
  RowsEvolve (s ∷ ss) [] = ⊥
  RowsEvolve (s ∷ ss) (t ∷ ts) = RowStep s t × RowsEvolve ss ts

  -- The statuses of all surveys, by id: what the lifecycle speaks of.
  abbrev pub status_entry : SurveyMeta pf → String × String
  status_entry s = (s.survey_id, s.status)

  abbrev pub statuses : Db pf → List (String × String)
  statuses db = map status_entry db.surveys

  -- The keys of the snapshots.
  abbrev pub version_key : Version pf → String × ℤ
  version_key v = (v.survey_id, v.version)

  abbrev pub snapshot_keys : List (Version pf) → List (String × ℤ)
  snapshot_keys = map version_key

  abbrev pub life : Db pf → Life
  life db = (statuses db, snapshot_keys db.versions)

  -- Rows are only added.
  abbrev pub Extends {ℓ} : {A : Type ℓ} → List A → List A → Type ℓ
  Extends {A = A} xs ys = (new : List A) × (ys ≡ xs ++ new)

  pub record Evolves (db after : Db pf) : Type 0 where
    pub surveys : RowsEvolve db.surveys after.surveys
    pub lifecycle : Steps (life db) (life after)
    pub versions : Extends db.versions after.versions
    pub responses : Extends db.responses after.responses
    pub answer_rows : Extends db.answer_rows after.answer_rows

  -- A change that keeps the tables sound and only evolves them.
  abbrev pub Legal : Db pf → Db pf → Type 0
  Legal db after = IsSound db → IsSound after × Evolves db after

  pub RowStep-refl : (s : SurveyMeta pf) → RowStep s s
  RowStep-refl s = record {
    same_id = refl;
    same_owner = refl;
    no_way_back = λ e. e;
    still_published = λ e. e;
    frozen = λ h. (refl, refl, refl);
  }

  RowStep-trans : (s t u : SurveyMeta pf) → RowStep s t → RowStep t u → RowStep s u
  RowStep-trans s t u p q = record {
    same_id = q.same_id ∙ p.same_id;
    same_owner = q.same_owner ∙ p.same_owner;
    no_way_back = λ e. p.no_way_back (q.no_way_back e);
    still_published = λ e. q.still_published (p.still_published e);
    frozen = λ h.
        let (a, b, c) = p.frozen h in
        let (x, y, z) = q.frozen (λ e. h (p.no_way_back e)) in (x ∙ a, y ∙ b, z ∙ c);
  }

  pub RowsEvolve-refl : (ss : List (SurveyMeta pf)) → RowsEvolve ss ss
  RowsEvolve-refl [] = tt
  RowsEvolve-refl (s ∷ ss) = (RowStep-refl s, RowsEvolve-refl ss)

  RowsEvolve-trans :
      (ss ts us : List (SurveyMeta pf)) → RowsEvolve ss ts → RowsEvolve ts us → RowsEvolve ss us
  RowsEvolve-trans [] ts us p q = tt
  RowsEvolve-trans (s ∷ ss) [] us p q = absurd p
  RowsEvolve-trans (s ∷ ss) (t ∷ ts) [] p q = absurd q
  RowsEvolve-trans (s ∷ ss) (t ∷ ts) (u ∷ us) (p, ps) (q, qs) =
      (RowStep-trans s t u p q, RowsEvolve-trans ss ts us ps qs)

  pub Extends-refl : {A : Type 0} (xs : List A) → Extends xs xs
  Extends-refl xs = ([], sym (append-nil xs))

  pub Extends-trans :
      {A : Type 0} (xs ys zs : List A) → Extends xs ys → Extends ys zs → Extends xs zs
  Extends-trans xs ys zs (a, e) (b, f) = (a ++ b, f ∙ ap (λ l. l ++ b) e ∙ append_assoc xs a b)

  pub Evolves-refl : (db : Db pf) → Evolves db db
  Evolves-refl db = record {
    surveys = RowsEvolve-refl db.surveys;
    lifecycle = no_step;
    versions = Extends-refl db.versions;
    responses = Extends-refl db.responses;
    answer_rows = Extends-refl db.answer_rows;
  }

  pub Evolves-trans : (a b c : Db pf) → Evolves a b → Evolves b c → Evolves a c
  Evolves-trans a b c p q = record {
    surveys = RowsEvolve-trans a.surveys b.surveys c.surveys p.surveys q.surveys;
    lifecycle = Steps-trans p.lifecycle q.lifecycle;
    versions = Extends-trans a.versions b.versions c.versions p.versions q.versions;
    responses = Extends-trans a.responses b.responses c.responses p.responses q.responses;
    answer_rows =
        Extends-trans a.answer_rows b.answer_rows c.answer_rows p.answer_rows q.answer_rows;
  }

  pub Legal-refl : (db : Db pf) → Legal db db
  Legal-refl db h = (h, Evolves-refl db)

  pub Legal-trans : (a b c : Db pf) → Legal a b → Legal b c → Legal a c
  Legal-trans a b c p q h =
      let (hb, ab) = p h in let (hc, bc) = q hb in (hc, Evolves-trans a b c ab bc)
