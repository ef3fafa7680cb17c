-- ===== src/Service/Survey/Released.antt =====
-- Publishing and display through the studio: the owner's check in front of the data access.
use wenjuandiaocha_backend.Base.{
  true, not, ◌&&◌, String, str_eq, [], ◌∷◌, member, ◌≡◌, refl, arith, eq_iff,
}
use wenjuandiaocha_backend.Platform.{Platform}
use wenjuandiaocha_backend.Dao.Tables.{SurveyMeta}
use wenjuandiaocha_backend.Dao.Exec.{World}
use wenjuandiaocha_backend.Dao.Exec.Laws.{AllOrNothing, AllOrNothing-map}
use wenjuandiaocha_backend.Dao.Exec.Reads.{>>=-AllOrNothing, update-AllOrNothing}
use wenjuandiaocha_backend.Dao.Json.{Json}
use wenjuandiaocha_backend.Dao.Store.{set_display_mode}
use wenjuandiaocha_backend.Dao.Publish.Atomic.{IsPublished, publish-AllOrNothing}
use wenjuandiaocha_backend.Service.Metadata.{Metadata}
use wenjuandiaocha_backend.Service.Survey.{owned, publish, set_display}
use wenjuandiaocha_backend.Service.Survey.Lifecycle.{
  MayEdit, Changes, owned-Reads, guarded-AllOrNothing,
}

module _ (pf : Platform) (js : Json pf) (md : Metadata) where
  -- Publish of the studio releases the stored draft, never a document of the caller: if it succeeds,
  -- the survey is the caller's own or the caller is an administrator, and the draft of that survey has
  -- been published, or found equal to the last snapshot, as the data access does it. Otherwise the
  -- tables are as they were.
  pub publish-MayEdit :
      (id : String) (w : World pf)
      → AllOrNothing
          (λ r after.
            (s : SurveyMeta pf) × MayEdit pf js md id w.db s
            × IsPublished pf js s.survey_id s.draft_schema w.now w.db r after)
          w.db
          (publish pf js md id w)
  unfolding publish
  publish-MayEdit id w =
      >>=-AllOrNothing (MayEdit pf js md id) _ (owned pf js md id) _ w (owned-Reads pf js md id)
        (λ s u may same now.
          AllOrNothing-map (IsPublished pf js s.survey_id s.draft_schema u.now u.db) _ u.db _
            (λ r after released. (s, may, rw (same, now) at released))
            (publish-AllOrNothing pf js s.survey_id s.draft_schema u))

  -- SetDisplayMode writes one of the two modes into the survey, and changes nothing else, in any
  -- status of the survey. It needs the owner or an administrator; otherwise, and for any other mode,
  -- the tables are as they were.
  pub set_display-AllOrNothing :
      (id mode : String) (w : World pf)
      → AllOrNothing
          (λ _ after.
            (member mode ("paged" ∷ "single" ∷ []) ≡ true)
            × Changes pf js md id
                (λ s. Unit {0})
                (λ s. record s { display_mode = mode; updated_at = w.now })
                w.db
                after)
          w.db
          (set_display pf js md id mode w)
  unfolding set_display set_display_mode
  set_display-AllOrNothing id mode w =
      guarded-AllOrNothing pf js md (not (str_eq mode "paged") && not (str_eq mode "single")) _ _ _
        w
        (λ known.
          >>=-AllOrNothing (MayEdit pf js md id) _ (owned pf js md id) _ w (owned-Reads pf js md id)
            (λ s u may same now. update-AllOrNothing _ _ u (
              ground (
                arith,
                eq_iff mode "paged",
                eq_iff mode "single",
                eq_iff "paged" mode,
                eq_iff "single" mode,
              ),
              (s, may, tt, rw (same, now) refl),
            )))
