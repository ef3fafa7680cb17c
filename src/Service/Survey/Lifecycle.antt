-- ===== src/Service/Survey/Lifecycle.antt =====
-- The states of a survey: who may change what, and when.
use text.Mathlib.TextEquality.{eq_iff}
use wenjuandiaocha_backend.Base.{
  Bool, true, false, not, ◌&&◌, ◌||◌, String, str_eq, some, if◌then◌else◌, is_some, ◌≡◌, refl,
  Bool-cases, Option-cases, member, [], ◌∷◌, inl, inr, arith,
}
use wenjuandiaocha_backend.Platform.{Platform}
use wenjuandiaocha_backend.Domain.Schema.{SurveySchema}
use wenjuandiaocha_backend.Ecode.{GoError, forbidden}
use wenjuandiaocha_backend.Rbac.{is_admin}
use wenjuandiaocha_backend.Dao.Tables.{SurveyMeta, Db}
use wenjuandiaocha_backend.Dao.Exec.{World, M, throw, pure, map_error, query}
use wenjuandiaocha_backend.Dao.Exec.Laws.{AllOrNothing}
use wenjuandiaocha_backend.Dao.Exec.Reads.{
  Reads, row-Reads, map_error-Reads, >>=-Reads, >>=-AllOrNothing, update-AllOrNothing,
  refused-AllOrNothing,
}
use wenjuandiaocha_backend.Dao.Json.{Json}
use wenjuandiaocha_backend.Dao.Store.{
  to_not_found, one_row, find_survey, get_survey, set_survey, set_status, set_answer_access,
  update_draft,
}
use wenjuandiaocha_backend.Service.Metadata.{Metadata}
use wenjuandiaocha_backend.Service.Survey.{
  missing_as, owned, close, reopen, set_access, update, type_text,
}

module _ (pf : Platform) (js : Json pf) (md : Metadata) where
  -- The caller may work on this row: it is in the table, and it is the caller's own or the caller
  -- is an administrator.
  abbrev pub MayEdit : String → Db pf → SurveyMeta pf → Type 0
  MayEdit id db s =
      (find_survey pf id db.surveys ≡ some s)
      × ((is_admin md.role || str_eq s.owner_id md.user_id) ≡ true)

  get_survey-Reads :
      (id : String)
      → Reads (λ (db : Db pf) s. find_survey pf id db.surveys ≡ some s) (get_survey pf id)
  unfolding get_survey
  get_survey-Reads id =
      map_error-Reads _ to_not_found (query (λ db. one_row (find_survey pf id db.surveys)))
        (row-Reads (λ db. find_survey pf id db.surveys))

  pub owned-Reads : (id : String) → Reads (MayEdit id) (owned pf js md id)
  unfolding owned
  owned-Reads id =
      >>=-Reads (λ db s. find_survey pf id db.surveys ≡ some s) (MayEdit id)
        (map_error (missing_as "不存在") (get_survey pf id))
        (λ s. if is_admin md.role || str_eq s.owner_id md.user_id then pure s else throw forbidden)
        (map_error-Reads _ (missing_as "不存在") (get_survey pf id) (get_survey-Reads id))
        (λ db s found u. elim (Bool-cases (is_admin md.role || str_eq s.owner_id md.user_id)) [
          | inl may ↦ rw may (λ e. (found, may), refl, refl)
          | inr not_may ↦ rw not_may refl
        ])

  -- A guard in front of a change of the tables.
  pub guarded-AllOrNothing :
      (b : Bool) (e : GoError) (after : Unit {0} → Db pf → Type 0) (m : M pf (Unit {0}))
      (w : World pf)
      → (b ≡ false → AllOrNothing after w.db (m w))
      → AllOrNothing after w.db ((if b then throw e else m) w)
  guarded-AllOrNothing true e after m w h = refl
  guarded-AllOrNothing false e after m w h = h refl

  -- The row that the caller may edit has a property, and the tables change by one UPDATE of it.
  abbrev pub Changes :
      String → (SurveyMeta pf → Type 0) → (SurveyMeta pf → SurveyMeta pf) → Db pf → Db pf → Type 0
  Changes id P f before after =
      (s : SurveyMeta pf) × MayEdit id before s × P s × (after ≡ set_survey pf s.survey_id f before)

  -- Close takes a survey from live to closed, and changes nothing else. It needs a live survey that
  -- the caller owns, or an administrator; otherwise the tables are as they were.
  pub close-AllOrNothing :
      (id : String) (w : World pf)
      → AllOrNothing
          (λ _ after.
            Changes id
              (λ s. s.status ≡ "live")
              (λ s. record s { status = "closed"; updated_at = w.now })
              w.db
              after)
          w.db
          (close pf js md id w)
  unfolding close set_status
  close-AllOrNothing id w =
      >>=-AllOrNothing (MayEdit id) _ (owned pf js md id) _ w (owned-Reads id) (λ s u may same now.
        guarded-AllOrNothing (not (str_eq s.status "live")) _ _ _ u (λ live.
          update-AllOrNothing _ _ u
            (s, may, ground (arith, eq_iff s.status "live"), rw (same, now) refl)))

  -- Reopen takes a survey from closed back to live, and changes nothing else: it keeps its snapshot.
  -- It needs a closed survey with a published version that the caller owns, or an administrator;
  -- otherwise the tables are as they were.
  pub reopen-AllOrNothing :
      (id : String) (w : World pf)
      → AllOrNothing
          (λ _ after.
            Changes id
              (λ s. (s.status ≡ "closed") × (is_some s.published_version ≡ true))
              (λ s. record s { status = "live"; updated_at = w.now })
              w.db
              after)
          w.db
          (reopen pf js md id w)
  unfolding reopen set_status
  reopen-AllOrNothing id w =
      >>=-AllOrNothing (MayEdit id) _ (owned pf js md id) _ w (owned-Reads id) (λ s u may same now.
        guarded-AllOrNothing (not (str_eq s.status "closed") || not (is_some s.published_version)) _
          _ _ u
          (λ good. update-AllOrNothing _ _ u (
            s,
            may,
            (ground (arith, eq_iff s.status "closed"), ground arith),
            rw (same, now) refl,
          )))

  -- SetAnswerAccess writes one of the two modes into the survey, and changes nothing else, in any
  -- status of the survey. It needs the owner or an administrator; otherwise, and for any other mode,
  -- the tables are as they were.
  pub set_access-AllOrNothing :
      (id access : String) (w : World pf)
      → AllOrNothing
          (λ _ after.
            (member access ("anonymous" ∷ "login_required" ∷ []) ≡ true)
            × Changes id
                (λ s. Unit {0})
                (λ s. record s { answer_access = access; updated_at = w.now })
                w.db
                after)
          w.db
          (set_access pf js md id access w)
  unfolding set_access set_answer_access
  set_access-AllOrNothing id access w =
      guarded-AllOrNothing (not (str_eq access "anonymous") && not (str_eq access "login_required"))
        _ _ _ w
        (λ known.
          >>=-AllOrNothing (MayEdit id) _ (owned pf js md id) _ w (owned-Reads id)
            (λ s u may same now. update-AllOrNothing _ _ u (
              ground (
                arith,
                eq_iff access "anonymous",
                eq_iff access "login_required",
                eq_iff "anonymous" access,
                eq_iff "login_required" access,
              ),
              (s, may, tt, rw (same, now) refl),
            )))

  -- Update replaces the draft of a survey, with its title and type, by the body as Postgres keeps it,
  -- and changes nothing else. It needs a survey still in draft that the caller owns, or an
  -- administrator, and a body that is a survey; otherwise the tables are as they were.
  pub update-Draft :
      (id : String) (body : pf.Raw) (w : World pf)
      → AllOrNothing
          (λ _ after.
            (schema : SurveySchema pf) × (doc : pf.Raw) × (js.unmarshal_schema body ≡ some schema)
            × (js.jsonb body ≡ some doc)
            × Changes id
                (λ s. s.status ≡ "draft")
                (λ s. record s {
                  draft_schema = doc;
                  title = schema.title;
                  type = type_text schema.type;
                  updated_at = w.now;
                })
                w.db
                after)
          w.db
          (update pf js md id body w)
  unfolding update update_draft
  update-Draft id body w =
      >>=-AllOrNothing (MayEdit id) _ (owned pf js md id) _ w (owned-Reads id) (λ s u may same now.
        guarded-AllOrNothing (not (str_eq s.status "draft")) _ _ _ u (λ draft.
          elim (Option-cases (js.unmarshal_schema body)) [
            | inl bad ↦ rw bad refl
            | inr (schema, good) ↦ elim (Option-cases (js.jsonb body)) [
              | inl refused ↦ rw (good, refused) (refused-AllOrNothing GoError.driver _ u)
              | inr (doc, kept) ↦
                  rw (good, kept)
                    (update-AllOrNothing _ _ u (
                      schema,
                      doc,
                      refl,
                      refl,
                      (s, may, ground (arith, eq_iff s.status "draft"), rw (same, now) refl),
                    ))
            ]
          ]))
