-- ===== src/Service/Legal/Late.antt =====
-- The rest of a call of internal/service/survey on tables that have changed since its read.
use mathlib.Core.Path.{subst}
use wenjuandiaocha_backend.Base.{
  lookup, true, false, Bool, not, ◌||◌, String, str_eq, eq_iff, Option, none, some, is_some, List,
  [], ◌∷◌, member, ◌≡◌, ◌≢◌, ◌⊎◌, refl, sym, ap, ◌∙◌, arith, Bool-cases, Option-cases, inl, inr,
}
use wenjuandiaocha_backend.Platform.{Platform}
use wenjuandiaocha_backend.Domain.Schema.{SurveySchema}
use wenjuandiaocha_backend.Dao.Tables.{SurveyMeta, Db}
use wenjuandiaocha_backend.Dao.Exec.{World, Result, run_statement}
use wenjuandiaocha_backend.Dao.Json.{Json}
use wenjuandiaocha_backend.Dao.Store.{
  find_survey, set_survey, set_status, set_answer_access, set_display_mode, update_draft,
}
use wenjuandiaocha_backend.Dao.Publish
use wenjuandiaocha_backend.Dao.Publish.Atomic.{publish-AllOrNothing}
use wenjuandiaocha_backend.Dao.Sound.{
  Legal, Legal-refl, IsSound, IsSoundRow, RowStep, statuses, snapshot_keys, life,
}
use wenjuandiaocha_backend.Dao.Sound.Lifecycle.{moved, Step, Steps}
use wenjuandiaocha_backend.Dao.Sound.Rows.{
  set_survey-Legal, lookup-statuses, kept-Steps, moved-Steps, still-Steps, found_row,
}
use wenjuandiaocha_backend.Dao.Sound.Calls.{Keeps, statement-Legal, AllOrNothing-Legal}
use wenjuandiaocha_backend.Dao.Sound.Persists.{
  RowPersists, Tolerable, Tolerable-refl, Legal-Tolerable, set_survey-Tolerable,
}
use wenjuandiaocha_backend.Service.Metadata.{Metadata}
use wenjuandiaocha_backend.Service.Survey.{type_text, update_parsed}
use wenjuandiaocha_backend.Service.Survey.Resumed.{
  Rest, updating, copying, publishing, closing, reopening, setting_access, setting_display, resume,
}
use wenjuandiaocha_backend.Service.Legal.Surveys.{
  live_or_draft, closed_or_draft, closed_or_live, found_again, with_status, with_status-RowStep,
  aside-RowStep,
}
use wenjuandiaocha_backend.Service.Legal.Releases.{IsPublished-Legal}
use wenjuandiaocha_backend.Service.Legal.Copies.{copy_parsed-Keeps}

live_or_closed :
    (x : String)
    → member x ("draft" ∷ "live" ∷ "closed" ∷ []) ≡ true
    → x ≢ "draft"
    → (x ≡ "live") ⊎ (x ≡ "closed")
live_or_closed x known h = ground (arith, eq_iff "draft" x, eq_iff "live" x, eq_iff "closed" x)

module _ (pf : Platform) where
  run_statement-Tolerable :
      {A : Type 0} (fs : List Bool) (f : Db pf → Result A × Db pf) (w : World pf)
      → Tolerable pf w.db (f w.db).1
      → Tolerable pf w.db (run_statement fs f w).1.db
  run_statement-Tolerable [] f w h = h
  run_statement-Tolerable (true ∷ fs) f w h = Tolerable-refl pf w.db
  run_statement-Tolerable (false ∷ fs) f w h = h

module _ (pf : Platform) (js : Json pf) (md : Metadata) (meta t : SurveyMeta pf) (w : World pf)
    (found : find_survey pf meta.survey_id w.db.surveys ≡ some t) (p : RowPersists pf meta t) where
  -- A late change of the status: to the next one, or to the one that it has.
  move-Legal :
      (status : String)
      → status ≢ "draft"
      → member status ("draft" ∷ "live" ∷ "closed" ∷ []) ≡ true
      → (t.status ≡ status)
        ⊎ Step
            (life pf w.db)
            (moved meta.survey_id status (statuses pf w.db), snapshot_keys pf w.db.versions)
      → (status ≡ "live" → is_some t.published_version ≡ true)
      → Legal pf w.db (set_survey pf meta.survey_id (with_status pf js md status w.now) w.db)
  move-Legal status no_draft known move points sound =
      let id = meta.survey_id in
      let f = with_status pf js md status w.now in
      let steps : Steps (life pf w.db) (life pf (set_survey pf id f w.db)) = elim move [
        | inl same ↦ still-Steps pf id f (λ r. refl) w.db t sound found (sym same)
        | inr step ↦ moved-Steps pf id f (λ r. refl) status w.db (λ r. refl) step
      ] in
      set_survey-Legal pf id f (λ r. refl) w.db t found steps
        (with_status-RowStep pf js md status w.now t (λ e. absurd (no_draft e)))
        (λ (_, has, _). (points, has, known)) sound

  status_now : IsSound pf w.db → meta.status ≢ "draft" → (t.status ≡ "live") ⊎ (t.status ≡ "closed")
  status_now sound no_draft =
      let (points, has, known) =
        found_row pf meta.survey_id w.db.versions w.db.surveys t sound.rows found in
      live_or_closed t.status known (λ e. no_draft (p.no_way_back e))

  here : lookup meta.survey_id (statuses pf w.db) ≡ some t.status
  here = lookup-statuses pf meta.survey_id w.db.surveys t found

  close-Legal : Legal pf w.db (resume pf js md closing meta w).db
  unfolding resume set_status
  close-Legal sound = elim (Bool-cases (str_eq meta.status "live")) [
    | inr other ↦ rw (resume, other) (Legal-refl pf w.db sound)
    | inl live ↦
        rw (resume, live)
          (statement-Legal _ w
            (move-Legal "closed" closed_or_draft refl
              (elim (status_now sound (λ e. live_or_draft (sym ((eq_iff _ _).0 live) ∙ e))) [
                | inl now_live ↦ inr (Step.closed meta.survey_id (here ∙ ap some now_live))
                | inr now_closed ↦ inl now_closed
              ])
              closed_or_live)
            sound)
  ]

  reopen-Legal : Legal pf w.db (resume pf js md reopening meta w).db
  unfolding resume set_status
  reopen-Legal sound =
      elim (Bool-cases
        (not (str_eq meta.status "closed") || not (is_some meta.published_version))) [
          | inl refused ↦ rw (resume, refused) (Legal-refl pf w.db sound)
          | inr good ↦
              let closed : meta.status ≡ "closed" = ground (arith, eq_iff meta.status "closed") in
              rw (resume, good)
                (statement-Legal _ w
                  (move-Legal "live" live_or_draft refl
                    (elim (status_now sound (λ e. closed_or_draft (sym closed ∙ e))) [
                      | inl now_live ↦ inl now_live
                      | inr now_closed ↦
                          inr (Step.reopened meta.survey_id (here ∙ ap some now_closed))
                    ])
                    (λ _. p.still_published (ground arith)))
                  sound)
        ]

  -- A late publication takes the document as it was read.
  publish-Legal : Legal pf w.db (resume pf js md publishing meta w).db
  unfolding resume
  publish-Legal =
      subst (λ k. Legal pf w.db (Publish.publish pf js k meta.draft_schema w).1.db) p.same_id
        (AllOrNothing-Legal _ w.db (Publish.publish pf js t.survey_id meta.draft_schema w)
          (λ r after released.
            IsPublished-Legal pf js md t meta.draft_schema w.now w.db after r
              (found_again pf meta.survey_id w.db.surveys t found) released)
          (publish-AllOrNothing pf js t.survey_id meta.draft_schema w))

  aside-Legal :
      (f : SurveyMeta pf → SurveyMeta pf)
      → ((r : SurveyMeta pf) → (f r).survey_id ≡ r.survey_id)
      → ((r : SurveyMeta pf) → (f r).status ≡ r.status)
      → RowStep pf t (f t)
      → (IsSoundRow pf w.db.versions t → IsSoundRow pf w.db.versions (f t))
      → Legal pf w.db (set_survey pf meta.survey_id f w.db)
  aside-Legal f keeps same step sound =
      set_survey-Legal pf meta.survey_id f keeps w.db t found
        (kept-Steps pf meta.survey_id f keeps w.db same) step sound

  -- A late edit may reach a survey that was published meanwhile.
  update_parsed-Tolerable :
      (body : pf.Raw) (o : Option (SurveySchema pf))
      → Tolerable pf w.db (update_parsed pf js md meta body o w).1.db
  unfolding update_draft
  update_parsed-Tolerable body none = Tolerable-refl pf w.db
  update_parsed-Tolerable body (some schema) = elim (Option-cases (js.jsonb body)) [
    | inl refused ↦ rw refused (run_statement-Tolerable pf w.faults _ w (Tolerable-refl pf w.db))
    | inr (doc, kept) ↦ rw kept (
        run_statement-Tolerable pf w.faults _ w (
          set_survey-Tolerable pf meta.survey_id
            (λ s. record s {
              draft_schema = doc;
              title = schema.title;
              type = type_text schema.type;
              updated_at = w.now;
            })
            (λ r. refl) (λ r. refl) (λ r. refl) (λ r. refl) w.db))
  ]

  update-Tolerable : (body : pf.Raw) → Tolerable pf w.db (resume pf js md (updating body) meta w).db
  unfolding resume
  update-Tolerable body = elim (Bool-cases (str_eq meta.status "draft")) [
    | inl draft ↦ rw (resume, draft) (update_parsed-Tolerable body (js.unmarshal_schema body))
    | inr other ↦ rw (resume, other) (Tolerable-refl pf w.db)
  ]

  pub resume-Tolerable : (r : Rest pf) → Tolerable pf w.db (resume pf js md r meta w).db
  unfolding resume Keeps set_answer_access set_display_mode
  resume-Tolerable (updating body) = update-Tolerable body
  resume-Tolerable (copying newid) =
      Legal-Tolerable pf w.db _
        (copy_parsed-Keeps pf js md newid meta (js.unmarshal_schema meta.draft_schema) w)
  resume-Tolerable publishing = Legal-Tolerable pf w.db _ publish-Legal
  resume-Tolerable closing = Legal-Tolerable pf w.db _ close-Legal
  resume-Tolerable reopening = Legal-Tolerable pf w.db _ reopen-Legal
  resume-Tolerable (setting_access access) = Legal-Tolerable pf w.db _ (
      statement-Legal _ w (
        aside-Legal (λ s. record s { answer_access = access; updated_at = w.now }) (λ r. refl)
          (λ r. refl) (aside-RowStep pf js md t _ refl refl refl refl (refl, refl, refl)) (λ s. s)))
  resume-Tolerable (setting_display mode) = Legal-Tolerable pf w.db _ (
      statement-Legal _ w (
        aside-Legal (λ s. record s { display_mode = mode; updated_at = w.now }) (λ r. refl)
          (λ r. refl) (aside-RowStep pf js md t _ refl refl refl refl (refl, refl, refl)) (λ s. s)))
