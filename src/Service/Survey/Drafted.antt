-- ===== src/Service/Survey/Drafted.antt =====
-- What Create and Copy store.
use wenjuandiaocha_backend.Base.{
  Bool, true, false, String, str_eq, none, some, List, [], ◌∷◌, ◌++◌, any, ℕ, if◌then◌else◌, ◌≡◌,
  refl, Option-cases, inl, inr, arith, Option, ◌⊎◌, ◌≢◌, ◌⊹◌, Bool-cases, ne-nil, eq_iff, eq_ℤ,
  eq_ℤ_iff, pos, sym, some_injective,
}
use wenjuandiaocha_backend.Platform.{Platform}
use wenjuandiaocha_backend.Ecode.{GoError}
use wenjuandiaocha_backend.Domain.Schema.{SurveyType, SurveySchema}
use wenjuandiaocha_backend.Dao.Tables.{SurveyMeta, Db}
use wenjuandiaocha_backend.Dao.Exec.{World, Result, ok, err, panic, run_statement, continue, pure}
use wenjuandiaocha_backend.Dao.Exec.Laws.{AllOrNothing, AllOrNothing-map}
use wenjuandiaocha_backend.Dao.Exec.Reads.{>>=-AllOrNothing, refused-AllOrNothing}
use wenjuandiaocha_backend.Dao.Json.{Json}
use wenjuandiaocha_backend.Dao.Store.{create_survey}
use wenjuandiaocha_backend.Service.Metadata.{Metadata}
use wenjuandiaocha_backend.Service.Survey.{
  or_text, type_text, some_slice, default_type, owned, parsed_body, with_defaults, create, as_copy,
  copy,
}
use wenjuandiaocha_backend.Service.Survey.Lifecycle.{MayEdit, owned-Reads}

module _ {pf : Platform} where
  run_guarded-AllOrNothing :
      (fs : List Bool) (b : Db pf → Bool) (f : Db pf → Db pf) (after : Unit {0} → Db pf → Type 0)
      (w : World pf) (c : Bool)
      → b w.db ≡ c
      → (c ≡ false → after tt (f w.db))
      → AllOrNothing after w.db
          (run_statement fs (λ db. if b db then (err GoError.driver, db) else (ok tt, f db)) w)
  run_guarded-AllOrNothing [] b f after w true e h = rw e refl
  run_guarded-AllOrNothing [] b f after w false e h = rw e (h refl)
  run_guarded-AllOrNothing (true ∷ fs) b f after w c e h = refl
  run_guarded-AllOrNothing (false ∷ fs) b f after w true e h = rw e refl
  run_guarded-AllOrNothing (false ∷ fs) b f after w false e h = rw e (h refl)

  -- The value that follows a call.
  then-AllOrNothing :
      {A : Type 0} (P : Unit {0} → Db pf → Type 0) (a : A) (before : Db pf)
      (r : Result (Unit {0}) × World pf)
      → AllOrNothing P before r
      → AllOrNothing (λ b db. (b ≡ a) × P tt db) before (continue r (λ _. pure a))
  then-AllOrNothing P a before (ok u, w) h = (refl, h)
  then-AllOrNothing P a before (err e, w) h = h
  then-AllOrNothing P a before (panic, w) h = h

module _ (pf : Platform) (js : Json pf) (md : Metadata) where
  -- One survey more: a draft of the caller's, under an id that no survey had, with the document as
  -- Postgres keeps it.
  abbrev pub Drafted :
      String → SurveySchema pf → (access display : String) → ℕ → Db pf → Db pf → Type 0
  Drafted newid schema access display now before after =
      (doc : pf.Raw) × (js.jsonb (js.marshal_schema schema) ≡ some doc)
      × (any (λ (s : SurveyMeta pf). str_eq s.survey_id newid) before.surveys ≡ false)
      × (after ≡ record before {
        surveys =
            before.surveys
            ++ (record {
              survey_id = newid;
              owner_id = md.user_id;
              type = type_text schema.type;
              title = schema.title;
              status = "draft";
              draft_schema = doc;
              published_version = none;
              answer_access = access;
              display_mode = display;
              updated_at = now;
            }
                ∷ []);
      })

  drafting-AllOrNothing :
      (newid : String) (schema : SurveySchema pf) (access display : String) (w : World pf)
      → AllOrNothing
          (λ _ after. Drafted newid schema access display w.now w.db after)
          w.db
          (create_survey pf js newid md.user_id
            (type_text schema.type)
            schema.title
            (js.marshal_schema schema)
            access
            display
            w)
  unfolding create_survey
  drafting-AllOrNothing newid schema access display w =
      elim (Option-cases (js.jsonb (js.marshal_schema schema))) [
        | inl refused ↦ rw refused (refused-AllOrNothing GoError.driver _ w)
        | inr (doc, kept) ↦ rw kept (
            run_guarded-AllOrNothing w.faults _ _ _ w _ refl
              (λ free. (doc, refl, ground (arith, free), refl)))
      ]

  -- The statement, and the id as the answer.
  stored-AllOrNothing :
      (newid : String) (schema : SurveySchema pf) (access display : String) (w : World pf)
      → AllOrNothing
          (λ id after. (id ≡ newid) × Drafted newid schema access display w.now w.db after)
          w.db
          (continue
            (create_survey pf js newid md.user_id
              (type_text schema.type)
              schema.title
              (js.marshal_schema schema)
              access
              display
              w)
            (λ _. pure newid))
  stored-AllOrNothing newid schema access display w =
      then-AllOrNothing (λ _ after. Drafted newid schema access display w.now w.db after) newid w.db
        _ (drafting-AllOrNothing newid schema access display w)

  -- A text, or its default where it is empty.
  abbrev pub OrElse : (given default taken : String) → Type 0
  OrElse given default taken = (given ≡ "" → taken ≡ default) × (given ≢ "" → taken ≡ given)

  -- A list that is there, where the body has none or the same one.
  abbrev pub IsThere : {A : Type 0} → Option (List A) → Option (List A) → Type 0
  IsThere none taken = taken ≡ some []
  IsThere (some xs) taken = taken ≡ some xs

  -- The survey that a body asks for: the one that it is, or a blank one if it is empty.
  abbrev pub AsksFor : pf.Raw → SurveySchema pf → Type 0
  AsksFor body schema =
      ((pf.is_absent body ≡ false) × (js.unmarshal_schema body ≡ some schema))
      ⊎ ((pf.is_absent body ≡ true)
          × (schema ≡ record {
            id = "";
            type = SurveyType.other "";
            title = "";
            version = pos 0;
            questions = none;
            rules = none;
            welcome = body;
          }))

  -- The document that Create makes of a survey: the new id, the title, the type and the version or
  -- their defaults, lists that are there, and the same welcome page.
  abbrev pub IsCreated : String → SurveySchema pf → SurveySchema pf → Type 0
  IsCreated newid schema s =
      (s.id ≡ newid)
      × OrElse schema.title "未命名问卷" s.title
      × OrElse (type_text schema.type) "survey" (type_text s.type)
      × (schema.version ≡ pos 0 → s.version ≡ pos 1)
      × (schema.version ≢ pos 0 → s.version ≡ schema.version)
      × IsThere schema.questions s.questions
      × IsThere schema.rules s.rules
      × (s.welcome ≡ schema.welcome)

  -- The document that Copy makes of a survey: the new id, the marked title, the first version, and
  -- the rest of the survey.
  abbrev pub IsCopied : String → SurveySchema pf → SurveySchema pf → Type 0
  IsCopied newid schema s =
      (s.id ≡ newid)
      × (s.title ≡ schema.title ⊹ "（副本）")
      × (s.version ≡ pos 1)
      × (s.type ≡ schema.type)
      × IsThere schema.questions s.questions
      × IsThere schema.rules s.rules
      × (s.welcome ≡ schema.welcome)

  or_text-OrElse : (given default : String) → OrElse given default (or_text given default)
  or_text-OrElse given default = elim (Bool-cases (str_eq given "")) [
    | inl blank ↦
        let e = (eq_iff given "").0 blank in rw blank (λ _. refl, λ some_text. absurd (some_text e))
    | inr given_text ↦ rw given_text (λ e. absurd (ne-nil given given_text e), λ _. refl)
  ]

  some_slice-IsThere : {A : Type 0} (xs : Option (List A)) → IsThere xs (some_slice xs)
  some_slice-IsThere none = refl
  some_slice-IsThere (some xs) = refl

  default_type-OrElse :
      (t : SurveyType) → OrElse (type_text t) "survey" (type_text (default_type t))
  default_type-OrElse t = elim (Bool-cases (str_eq (type_text t) "")) [
    | inl blank ↦
        let e = (eq_iff (type_text t) "").0 blank in
        rw blank (λ _. refl, λ some_text. absurd (some_text e))
    | inr given ↦ rw given (λ e. absurd (ne-nil (type_text t) given e), λ _. refl)
  ]

  with_defaults-IsCreated :
      (newid : String) (schema : SurveySchema pf)
      → IsCreated newid schema (with_defaults pf js md newid schema)
  unfolding with_defaults
  with_defaults-IsCreated newid schema = (
    refl,
    or_text-OrElse schema.title "未命名问卷",
    default_type-OrElse schema.type,
    λ none_given. rw none_given refl,
    λ given. elim (Bool-cases (eq_ℤ schema.version (pos 0))) [
      | inl zero_given ↦ absurd (given ((eq_ℤ_iff schema.version (pos 0)).0 zero_given))
      | inr other ↦ rw other refl
    ],
    some_slice-IsThere schema.questions,
    some_slice-IsThere schema.rules,
    refl,
  )

  as_copy-IsCopied :
      (newid : String) (schema : SurveySchema pf)
      → IsCopied newid schema (as_copy pf js md newid schema)
  unfolding as_copy
  as_copy-IsCopied newid schema = (
    refl,
    refl,
    refl,
    refl,
    some_slice-IsThere schema.questions,
    some_slice-IsThere schema.rules,
    refl,
  )

  parsed_body-AsksFor :
      (body : pf.Raw) (schema : SurveySchema pf)
      → parsed_body pf js md body ≡ some schema
      → AsksFor body schema
  parsed_body-AsksFor body schema h = elim (Bool-cases (pf.is_absent body)) [
    | inl absent ↦ inr (absent, sym (some_injective (rw absent at h)))
    | inr given ↦ inl (given, rw given at h)
  ]

  -- Create stores one new draft, the caller's own, under the id that the back end gives, whatever id
  -- the body names; the stored document has this id too, the body's title and type or the defaults
  -- 未命名问卷 and survey for empty ones, its version or 1 for 0, its questions and rules or empty
  -- lists, and its welcome page. It is for callers who log in, and on one page. Nothing else
  -- changes. It needs a body that is a survey or empty, which is a blank survey; otherwise, and if
  -- the tables refuse the draft, they are as they were.
  pub create-Drafted :
      (newid : String) (body : pf.Raw) (w : World pf)
      → AllOrNothing
          (λ id after.
            (schema s : SurveySchema pf) × AsksFor body schema
            × IsCreated newid schema s
            × (id ≡ newid)
            × Drafted newid s "login_required" "single" w.now w.db after)
          w.db
          (create pf js md newid body w)
  unfolding create
  create-Drafted newid body w = elim (Option-cases (parsed_body pf js md body)) [
    | inl bad ↦ rw bad refl
    | inr (schema, good) ↦ rw good (
        let s = with_defaults pf js md newid schema in
        AllOrNothing-map
          (λ id after. (id ≡ newid) × Drafted newid s "login_required" "single" w.now w.db after) _
          w.db _
          (λ id after (same, stored). (
            schema,
            s,
            parsed_body-AsksFor body schema good,
            with_defaults-IsCreated newid schema,
            same,
            stored,
          ))
          (stored-AllOrNothing newid s "login_required" "single" w))
  ]

  -- Copy stores one new draft, the caller's own, under the id that the back end gives: its document
  -- has this id, the title of the source's draft marked with （副本）, the version 1, and the type,
  -- the questions, the rules (empty lists for none) and the welcome page of that draft. It has the
  -- source's access and display, or the defaults anonymous and single for empty ones. Nothing else
  -- changes, the source neither. It needs a source that the caller owns, or an administrator, with
  -- a draft that is a survey; otherwise, and if the tables refuse the draft, they are as they were.
  pub copy-Drafted :
      (newid id : String) (w : World pf)
      → AllOrNothing
          (λ given after.
            (source : SurveyMeta pf) × (schema s : SurveySchema pf) × (access display : String)
            × MayEdit pf js md id w.db source
            × (js.unmarshal_schema source.draft_schema ≡ some schema)
            × IsCopied newid schema s
            × OrElse source.answer_access "anonymous" access
            × OrElse source.display_mode "single" display
            × (given ≡ newid)
            × Drafted newid s access display w.now w.db after)
          w.db
          (copy pf js md newid id w)
  unfolding copy
  copy-Drafted newid id w =
      >>=-AllOrNothing (MayEdit pf js md id) _ (owned pf js md id) _ w (owned-Reads pf js md id)
        (λ source u may same now. elim (Option-cases (js.unmarshal_schema source.draft_schema)) [
          | inl bad ↦ rw bad refl
          | inr (schema, good) ↦ rw good (
              let s = as_copy pf js md newid schema in
              let access = or_text source.answer_access "anonymous" in
              let display = or_text source.display_mode "single" in
              AllOrNothing-map
                (λ given after. (given ≡ newid) × Drafted newid s access display u.now u.db after) _
                u.db _
                (λ given after (is_new, stored). (
                  source,
                  schema,
                  s,
                  access,
                  display,
                  may,
                  good,
                  as_copy-IsCopied newid schema,
                  or_text-OrElse source.answer_access "anonymous",
                  or_text-OrElse source.display_mode "single",
                  is_new,
                  rw (same, now) at stored,
                ))
                (stored-AllOrNothing newid s access display u))
        ])
