-- ===== src/Dao/Publish.antt =====
-- internal/dao/dao.go, Publish: a draft becomes a numbered snapshot, unless it equals the last one.
pub mod Atomic
use wenjuandiaocha_backend.Base.{
  int32_of, ℕ, ◌+◌, ℤ, pos, negsuc, ltb_ℤ, eq_ℤ, int32, Bool, true, false, not, ◌&&◌, ◌||◌, String,
  str_eq, Option, none, some, List, [], ◌∷◌, ◌++◌, any, if◌then◌else◌, suc, zero, assign,
}
use wenjuandiaocha_backend.Platform.{Platform}
use wenjuandiaocha_backend.Domain.Value.{Value}
use wenjuandiaocha_backend.Ecode.{GoError}
use wenjuandiaocha_backend.Dao.Tables.{SurveyMeta, Version, Db}
use wenjuandiaocha_backend.Dao.Exec.{
  Result, ok, err, panic, M, statement, query, context, driver_step, transaction, pure, ◌>>=◌, ◌>>◌,
}
use wenjuandiaocha_backend.Dao.Json.{Json, Object, nil_map, entries}
use wenjuandiaocha_backend.Dao.Store.{one_row, version_schema, set_survey}
unfoldable pub use wenjuandiaocha_backend.Dao.Gen.Snapshots.{
  larger, coalesce, max_seen, max_version, add_version, set_published,
}

-- v + 1
abbrev pub next_ℤ : ℤ → ℤ
next_ℤ (pos n) = pos (n + 1)
next_ℤ (negsuc zero) = pos 0
next_ℤ (negsuc (suc n)) = negsuc n

-- delete(m, k)
abbrev pub delete {ℓ} : {V : Type ℓ} → String → List (String × V) → List (String × V)
delete k [] = []
delete k ((j, v) ∷ m) = if str_eq j k then delete k m else (j, v) ∷ delete k m

module _ (pf : Platform) (js : Json pf) where
  -- reflect.DeepEqual of two objects without their field `version`; a nil map equals no other.
  abbrev pub same_objects : Object pf → Object pf → Bool
  same_objects nil_map nil_map = true
  same_objects (entries a) (entries b) = js.deep_equal (delete "version" a) (delete "version" b)
  same_objects _ _ = false

  abbrev pub compare_objects : Option (Object pf) → Option (Object pf) → Result Bool
  compare_objects none b = err GoError.bad_json
  compare_objects (some a) none = err GoError.bad_json
  compare_objects (some a) (some b) = ok (same_objects a b)

  unfoldable pub schema_equal_ignoring_version : pf.Raw → pf.Raw → Result Bool
  schema_equal_ignoring_version a b =
      compare_objects (js.unmarshal_object a) (js.unmarshal_object b)

  -- A write to a nil map is a panic.
  abbrev pub stamped : Option (Object pf) → ℤ → Result pf.Raw
  stamped none v = err GoError.bad_json
  stamped (some nil_map) v = panic
  stamped (some (entries m)) v = ok (js.marshal_object (assign "version" (Value.int v) m))

  unfoldable pub stamp_version : pf.Raw → ℤ → Result pf.Raw
  stamp_version doc v = stamped (js.unmarshal_object doc) v

  -- A call that touches no database.
  abbrev pub lift : {A : Type 0} → Result A → M pf A
  lift r w = (r, w)

  -- Whether the draft equals the last snapshot; the first publication asks for none.
  unfoldable pub is_unchanged : String → pf.Raw → ℤ → M pf Bool
  is_unchanged id draft max_v =
      if ltb_ℤ (pos 0) max_v
      then (do
        curr ←
            context "get current version"
              (query (λ db. one_row (version_schema pf id max_v db.versions)))
        context "compare schema" (lift (schema_equal_ignoring_version draft curr)))
      else pure false

  -- The new snapshot, its pointer, and the commit.
  unfoldable pub publish_next : String → pf.Raw → ℤ → M pf (ℤ × Bool)
  publish_next id draft next = do
    doc ← context "stamp version" (lift (stamp_version draft next))
    context "insert version" (statement (add_version pf id (int32_of next) (js.jsonb doc)))
    context "set published" (set_published pf id (int32_of next))
    driver_step
    pure (next, false)

  unfoldable pub publish_body : String → pf.Raw → M pf (ℤ × Bool)
  publish_body id draft = do
    max_v ← context "max version" (query (λ db. ok (max_version pf id db.versions)))
    same ← is_unchanged id draft max_v
    if same then pure (max_v, true) else publish_next id draft (next_ℤ max_v)

  -- The version number, and whether nothing was published.
  unfoldable pub publish : String → pf.Raw → M pf (ℤ × Bool)
  unfolding publish_body
  publish id draft = transaction (publish_body id draft)
