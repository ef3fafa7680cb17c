-- ===== src/Service/Legal/Releases.antt =====
-- internal/service/survey, Publish: it keeps the tables sound.
use mathlib.Core.Path.{subst}
use wenjuandiaocha_backend.Base.{
  some_injective, ℕ, ℤ, int32_of, Bool, true, false, ◌&&◌, String, str_eq, eq_iff, some, eq_ℤ,
  eq_ℤ_iff, [], ◌∷◌, ◌++◌, ◌∙◌, ◌≡◌, refl, sym,
}
use wenjuandiaocha_backend.Platform.{Platform}
use wenjuandiaocha_backend.Dao.Tables.{SurveyMeta, Version, Db}
use wenjuandiaocha_backend.Dao.Json.{Json}
use wenjuandiaocha_backend.Dao.Store.{find_survey, set_survey}
use wenjuandiaocha_backend.Dao.Publish.Atomic.{IsPublished, Advanced, with_version}
use wenjuandiaocha_backend.Dao.Sound.{has_version, Legal, Legal-refl, life, Extends-refl}
use wenjuandiaocha_backend.Dao.Sound.Lifecycle.{Step, Steps, no_step, a_step}
use wenjuandiaocha_backend.Dao.Sound.Rows.{set_survey-IsSound, statuses-moved, lookup-statuses}
use wenjuandiaocha_backend.Dao.Sound.Inserts.{
  add_version-IsSound, snapshot_keys-snoc, has_key-snapshot_keys, any-snoc,
}
use wenjuandiaocha_backend.Dao.Sound.Calls.{Keeps, AllOrNothing-Legal}
use wenjuandiaocha_backend.Service.Metadata.{Metadata}
use wenjuandiaocha_backend.Service.Survey.{publish}
use wenjuandiaocha_backend.Service.Survey.Released.{publish-MayEdit}
use wenjuandiaocha_backend.Service.Legal.Surveys.{live_or_draft, found_again}

own_key : (id : String) (v : ℤ) → (str_eq id id && eq_ℤ v v) ≡ true
own_key id v = rw ((eq_iff id id).1 refl, (eq_ℤ_iff v v).1 refl) refl

-- A snapshot and its pointer are one step of the lifecycle.
released-Steps :
    (pf : Platform) (s : SurveyMeta pf) (snapshot : Version pf) (f : SurveyMeta pf → SurveyMeta pf)
    → ((r : SurveyMeta pf) → (f r).survey_id ≡ r.survey_id)
    → ((r : SurveyMeta pf) → (f r).status ≡ "live")
    → (before : Db pf) → find_survey pf snapshot.survey_id before.surveys ≡ some s
    → has_version pf snapshot.survey_id snapshot.version before.versions ≡ false
    → Steps (life pf before) (
        life pf (
          set_survey pf snapshot.survey_id f
            (record before { versions = before.versions ++ (snapshot ∷ []) })))
released-Steps pf s snapshot f keeps live before found fresh =
    let id = snapshot.survey_id in
    let moves = statuses-moved pf id f keeps "live" before.surveys live in
    let grows = snapshot_keys-snoc pf before.versions snapshot in
    subst (Steps (life pf before)) (λ i. (sym moves i, sym grows i))
      (a_step no_step (
        Step.published id s.status snapshot.version (lookup-statuses pf id before.surveys s found)
          (has_key-snapshot_keys pf id snapshot.version before.versions ∙ fresh)))

module _ (pf : Platform) (js : Json pf) (md : Metadata) where
  -- A release: one more snapshot, and its survey live at it.
  Advanced-Legal :
      (s : SurveyMeta pf) (draft : pf.Raw) (v : ℤ) (now : ℕ) (before after : Db pf)
      → find_survey pf s.survey_id before.surveys ≡ some s
      → Advanced pf js s.survey_id draft v now before after
      → Legal pf before after
  Advanced-Legal s draft v now before after found
        (next, (doc, kept, stamped, stored, fresh, known, e)) =
      let snapshot : Version pf = record {
        survey_id = s.survey_id;
        version = int32_of v;
        schema = kept;
      } in
      let point : SurveyMeta pf → SurveyMeta pf = λ r. record r {
        published_version = some (int32_of v);
        status = "live";
        updated_at = now;
      } in
      let one_more = with_version pf s.survey_id (int32_of v) kept before in
      subst (Legal pf before) (sym e) (λ sound.
        let (now_sound, rows) =
          set_survey-IsSound pf s.survey_id point (λ r. refl) one_more s found
            (record {
              same_id = refl;
              same_owner = refl;
              no_way_back = live_or_draft;
              still_published = λ h. refl;
              frozen = λ h. (refl, refl, refl);
            })
            (λ was. (
              λ h. refl,
              λ u h.
                  subst (λ k. has_version pf s.survey_id k one_more.versions ≡ true)
                    (some_injective h)
                    (any-snoc _ before.versions snapshot (own_key s.survey_id (int32_of v))),
              refl,
            ))
            (add_version-IsSound pf before snapshot fresh sound) in
        (
          now_sound,
          record {
            surveys = rows;
            lifecycle =
                released-Steps pf s snapshot point (λ r. refl) (λ r. refl) before found fresh;
            versions = (snapshot ∷ [], refl);
            responses = Extends-refl pf before.responses;
            answer_rows = Extends-refl pf before.answer_rows;
          },
        ))

  pub IsPublished-Legal :
      (s : SurveyMeta pf) (draft : pf.Raw) (now : ℕ) (before after : Db pf) (r : ℤ × Bool)
      → find_survey pf s.survey_id before.surveys ≡ some s
      → IsPublished pf js s.survey_id draft now before r after
      → Legal pf before after
  IsPublished-Legal s draft now before after (v, true) found (equal, same) =
      subst (Legal pf before) (sym same) (Legal-refl pf before)
  IsPublished-Legal s draft now before after (v, false) found released =
      Advanced-Legal s draft v now before after found released

  pub publish-Keeps : (id : String) → Keeps (publish pf js md id)
  unfolding Keeps
  publish-Keeps id w =
      AllOrNothing-Legal _ w.db (publish pf js md id w)
        (λ r after (s, may, released).
          IsPublished-Legal s s.draft_schema w.now w.db after r
            (found_again pf id w.db.surveys s may.0) released)
        (publish-MayEdit pf js md id w)
