-- ===== src/Service/Legal/Surveys.antt =====
-- internal/service/survey, the calls that change one row of `surveys`: they keep the tables sound.
use mathlib.Core.Path.{subst}
use wenjuandiaocha_backend.Base.{
  lookup, some_injective, ℕ, true, String, str_eq, eq_iff, some, is_some, List, [], ◌∷◌, ◌≡◌, refl,
  sym, ap, ◌∙◌, Bool-cases, inl, inr,
}
use wenjuandiaocha_backend.Platform.{Platform}
use wenjuandiaocha_backend.Dao.Tables.{SurveyMeta, Db}
use wenjuandiaocha_backend.Dao.Json.{Json}
use wenjuandiaocha_backend.Dao.Store.{set_survey, find_survey}
use wenjuandiaocha_backend.Dao.Sound.{life, statuses, IsSoundRow, RowStep, Legal}
use wenjuandiaocha_backend.Dao.Sound.Lifecycle.{Step, Steps}
use wenjuandiaocha_backend.Dao.Sound.Rows.{
  set_survey-Legal, lookup-statuses, kept-Steps, moved-Steps,
}
use wenjuandiaocha_backend.Dao.Sound.Calls.{Keeps, AllOrNothing-Legal}
use wenjuandiaocha_backend.Service.Metadata.{Metadata}
use wenjuandiaocha_backend.Service.Survey.{
  close, reopen, set_access, set_display, update, type_text,
}
use wenjuandiaocha_backend.Service.Survey.Lifecycle.{
  Changes, close-AllOrNothing, reopen-AllOrNothing, set_access-AllOrNothing, update-Draft,
}
use wenjuandiaocha_backend.Service.Survey.Released.{set_display-AllOrNothing}

pub live_or_draft : {A : Type 0} → ◌≡◌ {A = String} "live" "draft" → A
live_or_draft h = absurd (cc)

pub closed_or_draft : {A : Type 0} → ◌≡◌ {A = String} "closed" "draft" → A
closed_or_draft h = absurd (cc)

pub closed_or_live : {A : Type 0} → ◌≡◌ {A = String} "closed" "live" → A
closed_or_live h = absurd (cc)

module _ (pf : Platform) where
  -- The row that a lookup finds has the id, and is found by its own id.
  pub found_again :
      (id : String) (ss : List (SurveyMeta pf)) (s : SurveyMeta pf)
      → find_survey pf id ss ≡ some s
      → find_survey pf s.survey_id ss ≡ some s
  found_again id ss s e = subst (λ k. find_survey pf k ss ≡ some s) (sym (same_id id ss s e)) e
    where
      same_id :
          (id : String) (ss : List (SurveyMeta pf)) (s : SurveyMeta pf)
          → find_survey pf id ss ≡ some s
          → s.survey_id ≡ id
      same_id id [] s e = absurd (cc)
      same_id id (r ∷ ss) s e = elim (Bool-cases (str_eq r.survey_id id)) [
        | inl hit ↦
            ap (λ k. k.survey_id) (some_injective (sym (rw hit at e)))
            ∙ (eq_iff r.survey_id id).0 hit
        | inr miss ↦ same_id id ss s (rw miss at e)
      ]

module _ (pf : Platform) (js : Json pf) (md : Metadata) where
  -- One UPDATE of the caller's row.
  Changes-Legal :
      (id : String) (P : SurveyMeta pf → Type 0) (f : SurveyMeta pf → SurveyMeta pf)
      (before after : Db pf)
      → ((r : SurveyMeta pf) → (f r).survey_id ≡ r.survey_id)
      → ((s : SurveyMeta pf)
          → P s
          → lookup s.survey_id (statuses pf before) ≡ some s.status
          → Steps (life pf before) (life pf (set_survey pf s.survey_id f before)))
      → ((s : SurveyMeta pf) → P s → RowStep pf s (f s))
      → ((s : SurveyMeta pf)
          → P s
          → IsSoundRow pf before.versions s
          → IsSoundRow pf before.versions (f s))
      → Changes pf js md id P f before after
      → Legal pf before after
  Changes-Legal id P f before after keeps life step sound (s, may, p, e) =
      let found = found_again pf id before.surveys s may.0 in
      subst (Legal pf before) (sym e) (
        set_survey-Legal pf s.survey_id f keeps before s found
          (life s p (lookup-statuses pf s.survey_id before.surveys s found)) (step s p) (sound s p))

  -- A new status, with the rest of the row.
  abbrev pub with_status : String → ℕ → SurveyMeta pf → SurveyMeta pf
  with_status status now s = record s { status = status; updated_at = now }

  pub with_status-RowStep :
      (status : String) (now : ℕ) (s : SurveyMeta pf)
      → (status ≡ "draft" → s.status ≡ "draft")
      → RowStep pf s (with_status status now s)
  with_status-RowStep status now s h = record {
    same_id = refl;
    same_owner = refl;
    no_way_back = h;
    still_published = λ e. e;
    frozen = λ _. (refl, refl, refl);
  }

  pub close-Keeps : (id : String) → Keeps (close pf js md id)
  unfolding Keeps
  close-Keeps id w =
      AllOrNothing-Legal _ w.db (close pf js md id w)
        (λ _ after change.
          Changes-Legal id (λ s. s.status ≡ "live") (with_status "closed" w.now) w.db after
            (λ r. refl)
            (λ s live here.
              moved-Steps pf s.survey_id (with_status "closed" w.now) (λ r. refl) "closed" w.db
                (λ r. refl) (Step.closed s.survey_id (here ∙ ap some live)))
            (λ s live. with_status-RowStep "closed" w.now s closed_or_draft)
            (λ s live (points, has, known). (closed_or_live, has, refl)) change)
        (close-AllOrNothing pf js md id w)

  pub reopen-Keeps : (id : String) → Keeps (reopen pf js md id)
  unfolding Keeps
  reopen-Keeps id w =
      AllOrNothing-Legal _ w.db (reopen pf js md id w)
        (λ _ after change.
          Changes-Legal id (λ s. (s.status ≡ "closed") × (is_some s.published_version ≡ true))
            (with_status "live" w.now) w.db after (λ r. refl)
            (λ s was here.
              moved-Steps pf s.survey_id (with_status "live" w.now) (λ r. refl) "live" w.db
                (λ r. refl) (Step.reopened s.survey_id (here ∙ ap some was.0)))
            (λ s was. with_status-RowStep "live" w.now s live_or_draft)
            (λ s (closed, released) (points, has, known). (λ e. released, has, refl)) change)
        (reopen-AllOrNothing pf js md id w)

  -- An UPDATE of a column that no law speaks of.
  pub aside-RowStep :
      (s t : SurveyMeta pf)
      → t.survey_id ≡ s.survey_id
      → t.owner_id ≡ s.owner_id
      → t.status ≡ s.status
      → t.published_version ≡ s.published_version
      → (t.draft_schema ≡ s.draft_schema) × (t.title ≡ s.title) × (t.type ≡ s.type)
      → RowStep pf s t
  aside-RowStep s t a b c d e = record {
    same_id = a;
    same_owner = b;
    no_way_back = λ h. sym c ∙ h;
    still_published = λ h. rw d h;
    frozen = λ h. e;
  }

  pub set_access-Keeps : (id access : String) → Keeps (set_access pf js md id access)
  unfolding Keeps
  set_access-Keeps id access w =
      AllOrNothing-Legal _ w.db (set_access pf js md id access w)
        (λ _ after (known, change).
          Changes-Legal id (λ s. Unit {0})
            (λ s. record s { answer_access = access; updated_at = w.now }) w.db after (λ r. refl)
            (λ s _ _.
              kept-Steps pf s.survey_id
                (λ (r : SurveyMeta pf). record r { answer_access = access; updated_at = w.now })
                (λ r. refl) w.db (λ r. refl))
            (λ s _. aside-RowStep s _ refl refl refl refl (refl, refl, refl)) (λ s _ sound. sound)
            change)
        (set_access-AllOrNothing pf js md id access w)

  pub set_display-Keeps : (id mode : String) → Keeps (set_display pf js md id mode)
  unfolding Keeps
  set_display-Keeps id mode w =
      AllOrNothing-Legal _ w.db (set_display pf js md id mode w)
        (λ _ after (known, change).
          Changes-Legal id (λ s. Unit {0})
            (λ s. record s { display_mode = mode; updated_at = w.now }) w.db after (λ r. refl)
            (λ s _ _.
              kept-Steps pf s.survey_id
                (λ (r : SurveyMeta pf). record r { display_mode = mode; updated_at = w.now })
                (λ r. refl) w.db (λ r. refl))
            (λ s _. aside-RowStep s _ refl refl refl refl (refl, refl, refl)) (λ s _ sound. sound)
            change)
        (set_display-AllOrNothing pf js md id mode w)

  pub update-Keeps : (id : String) (body : pf.Raw) → Keeps (update pf js md id body)
  unfolding Keeps
  update-Keeps id body w =
      AllOrNothing-Legal _ w.db (update pf js md id body w)
        (λ _ after (schema, doc, parsed, kept, change).
          Changes-Legal id (λ s. s.status ≡ "draft")
            (λ s. record s {
              draft_schema = doc;
              title = schema.title;
              type = type_text schema.type;
              updated_at = w.now;
            })
            w.db after (λ r. refl)
            (λ s _ _.
              kept-Steps pf s.survey_id
                (λ (r : SurveyMeta pf). record r {
                  draft_schema = doc;
                  title = schema.title;
                  type = type_text schema.type;
                  updated_at = w.now;
                })
                (λ r. refl) w.db (λ r. refl))
            (λ s draft. record {
              same_id = refl;
              same_owner = refl;
              no_way_back = λ e. e;
              still_published = λ e. e;
              frozen = λ h. absurd (h draft);
            })
            (λ s _ sound. sound) change)
        (update-Draft pf js md id body w)
