-- ===== src/Service/Returns/Publishing.antt =====
-- Publish returns, unless the draft is the document `null`.
use mathlib.Core.Path.{subst}
use wenjuandiaocha_backend.Base.{
  ℤ, pos, ltb_ℤ, int32_of, if◌then◌else◌, Bool, true, false, String, Option, none, some, ◌≡◌, refl,
}
use wenjuandiaocha_backend.Platform.{Platform}
use wenjuandiaocha_backend.Ecode.{GoError}
use wenjuandiaocha_backend.Dao.Tables.{SurveyMeta, Db}
use wenjuandiaocha_backend.Dao.Exec.{
  M, World, ok, context, query, statement, driver_step, pure, ◌>>◌,
}
use wenjuandiaocha_backend.Dao.Exec.Ends.{
  EndsIn, Ends, Ends-map, Ends-weaken, Returns, continue-Ends, rescued-Ends, >>=-Returns,
  if-Returns, context-Returns, query-Returns, pure-Returns, driver_step-Returns, statement-Ends,
  guarded-Ends, transaction-Ends,
}
use wenjuandiaocha_backend.Dao.Exec.Reads.{ReadsAt}
use wenjuandiaocha_backend.Dao.Json.{Json, Object, nil_map, entries}
use wenjuandiaocha_backend.Dao.Store.{one_row, version_schema}
use wenjuandiaocha_backend.Dao.Publish
use wenjuandiaocha_backend.Dao.Publish.{
  compare_objects, schema_equal_ignoring_version, stamped, stamp_version, lift, is_unchanged,
  publish_next, publish_body, max_version, add_version, set_published,
}
use wenjuandiaocha_backend.Service.Metadata.{Metadata}
use wenjuandiaocha_backend.Service.Survey.{owned, publish}
use wenjuandiaocha_backend.Service.Survey.Lifecycle.{MayEdit, owned-Reads}
use wenjuandiaocha_backend.Service.Returns.Statements.{one_row-EndsIn}
use wenjuandiaocha_backend.Service.Returns.Studio.{owned-Returns}

module _ (pf : Platform) (js : Json pf) where
  -- The draft is `null`, which json.Unmarshal makes a nil map.
  abbrev IsNull : pf.Raw → Type 0
  IsNull draft = js.unmarshal_object draft ≡ some nil_map

  compare_objects-EndsIn : (a b : Option (Object pf)) → EndsIn ⊥ (compare_objects pf js a b)
  compare_objects-EndsIn none b = tt
  compare_objects-EndsIn (some a) none = tt
  compare_objects-EndsIn (some a) (some b) = tt

  compare-Returns :
      (draft curr : pf.Raw) → Returns (lift pf js (schema_equal_ignoring_version pf js draft curr))
  unfolding schema_equal_ignoring_version Returns
  compare-Returns draft curr w =
      compare_objects-EndsIn (js.unmarshal_object draft) (js.unmarshal_object curr)

  is_unchanged-Returns :
      (id : String) (draft : pf.Raw) (v : ℤ) → Returns (is_unchanged pf js id draft v)
  unfolding is_unchanged
  is_unchanged-Returns id draft v =
      let curr = query (λ (db : Db pf). one_row (version_schema pf id v db.versions)) in
      if-Returns (ltb_ℤ (pos 0) v) _ _
        (>>=-Returns (context "get current version" curr) _
          (context-Returns "get current version" curr
            (query-Returns _ (λ db. one_row-EndsIn (version_schema pf id v db.versions))))
          (λ doc. context-Returns "compare schema" _ (compare-Returns draft doc)))
        (pure-Returns pf false)

  stamped-EndsIn : (o : Option (Object pf)) (v : ℤ) → EndsIn (o ≡ some nil_map) (stamped pf js o v)
  stamped-EndsIn none v = tt
  stamped-EndsIn (some nil_map) v = refl
  stamped-EndsIn (some (entries m)) v = tt

  add_version-Returns :
      (id : String) (v : ℤ) (o : Option pf.Raw) → Returns (statement (add_version pf id v o))
  unfolding add_version Returns
  add_version-Returns id v none w = statement-Ends _ w tt
  add_version-Returns id v (some doc) w = statement-Ends _ w (guarded-Ends _ w.db _)

  set_published-Returns : (id : String) (v : ℤ) → Returns (set_published pf id v)
  unfolding set_published Returns
  set_published-Returns id v w = statement-Ends _ w tt

  -- What follows the stamping.
  abbrev stored : String → ℤ → pf.Raw → M pf (ℤ × Bool)
  stored id next doc = do
    context "insert version" (statement (add_version pf id (int32_of next) (js.jsonb doc)))
    context "set published" (set_published pf id (int32_of next))
    driver_step
    pure (next, false)

  stored-Returns : (id : String) (next : ℤ) (doc : pf.Raw) → Returns (stored id next doc)
  stored-Returns id next doc =
      >>=-Returns _ _
        (context-Returns "insert version" _ (add_version-Returns id (int32_of next) (js.jsonb doc)))
        (λ _.
          >>=-Returns _ _
            (context-Returns "set published" _ (set_published-Returns id (int32_of next)))
            (λ _. >>=-Returns driver_step _ (driver_step-Returns pf) (λ _. pure-Returns pf _)))

  publish_next-Ends :
      (id : String) (draft : pf.Raw) (next : ℤ) (w : World pf)
      → Ends (IsNull draft) (publish_next pf js id draft next w)
  unfolding publish_next stamp_version Returns
  publish_next-Ends id draft next w =
      let stamp = lift pf js (stamp_version pf js draft next) in
      continue-Ends (IsNull draft) (context "stamp version" stamp w) (stored id next)
        (rescued-Ends (IsNull draft) (GoError.wrapped "stamp version") (stamp w) (λ e k. k)
          (stamped-EndsIn (js.unmarshal_object draft) next))
        (λ doc u e.
          Ends-weaken (IsNull draft) (stored id next doc u) (stored-Returns id next doc u))

  choice-Ends :
      {A : Type 0} (P : Type 0) (b : Bool) (m k : M pf A) (w : World pf)
      → Ends P (m w)
      → Ends P (k w)
      → Ends P ((if b then m else k) w)
  choice-Ends P true m k w hm hk = hm
  choice-Ends P false m k w hm hk = hk

  publish_body-Ends :
      (id : String) (draft : pf.Raw) (w : World pf)
      → Ends (IsNull draft) (publish_body pf js id draft w)
  unfolding publish_body Returns
  publish_body-Ends id draft w =
      let seen = query (λ (db : Db pf). ok (max_version pf id db.versions)) in
      continue-Ends (IsNull draft) (context "max version" seen w) _
        (Ends-weaken (IsNull draft) (context "max version" seen w)
          (context-Returns "max version" seen (query-Returns _ (λ db. tt)) w))
        (λ v u e.
          continue-Ends (IsNull draft) (is_unchanged pf js id draft v u) _
            (Ends-weaken (IsNull draft) (is_unchanged pf js id draft v u)
              (is_unchanged-Returns id draft v u))
            (λ same x f.
              choice-Ends (IsNull draft) same (pure (v, true)) _ x tt
                (publish_next-Ends id draft _ x)))

  released-Ends :
      (id : String) (draft : pf.Raw) (w : World pf)
      → Ends (IsNull draft) (Publish.publish pf js id draft w)
  unfolding Publish.publish
  released-Ends id draft w =
      transaction-Ends (IsNull draft) (publish_body pf js id draft) w (publish_body-Ends id draft)

  module _ (md : Metadata) where
    -- A survey of the id whose draft is `null`, and which the caller may edit.
    abbrev pub HasNullDraft : String → Db pf → Type 0
    HasNullDraft id db = (s : SurveyMeta pf) × MayEdit pf js md id db s × IsNull s.draft_schema

    -- Publish ends in a value, or in an error with a code of its own, wherever statements fail; it
    -- panics only for a survey that the caller may edit and whose draft is the document `null`.
    pub publish-Ends :
        (id : String) (w : World pf) → Ends (HasNullDraft id w.db) (publish pf js md id w)
    unfolding publish Returns
    publish-Ends id w =
        continue-Ends (HasNullDraft id w.db) (owned pf js md id w) _
          (Ends-weaken (HasNullDraft id w.db) (owned pf js md id w) (owned-Returns pf js md id w))
          (λ s u e.
            let (may, same, now) =
              subst (ReadsAt (MayEdit pf js md id) w) e (owned-Reads pf js md id w) in
            Ends-map (IsNull s.draft_schema) (HasNullDraft id w.db)
              (Publish.publish pf js s.survey_id s.draft_schema u) (λ null. (s, may, null))
              (released-Ends s.survey_id s.draft_schema u))
