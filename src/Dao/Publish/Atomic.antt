-- ===== src/Dao/Publish/Atomic.antt =====
-- internal/dao/dao.go, Publish: what a publication is, and its steps.
use mathlib.Core.Path.{subst}
use wenjuandiaocha_backend.Base.{
  int32_of, ℕ, ℤ, pos, ltb_ℤ, Bool, true, false, not, ◌||◌, String, Option, none, some, [], ◌∷◌,
  ◌++◌, if◌then◌else◌, ◌≡◌, refl, sym, ap, ◌∙◌, Bool-cases, inl, inr,
}
use wenjuandiaocha_backend.Platform.{Platform}
use wenjuandiaocha_backend.Ecode.{GoError}
use wenjuandiaocha_backend.Dao.Tables.{Db}
use wenjuandiaocha_backend.Dao.Exec.{ok, World, context, query, statement, driver_step, pure}
use wenjuandiaocha_backend.Dao.Exec.Laws.{
  >>=-ok, guarded-ok, or-not-false, map_error-ok, statement-ok, query-ok, driver_step-ok,
  ok-injective, pure-ok, AllOrNothing, transaction-AllOrNothing,
}
use wenjuandiaocha_backend.Dao.Sound.{has_version, has_survey}
use wenjuandiaocha_backend.Dao.Json.{Json}
use wenjuandiaocha_backend.Dao.Store.{one_row, version_schema, set_survey}
use wenjuandiaocha_backend.Dao.Publish.{
  next_ℤ, max_version, add_version, set_published, schema_equal_ignoring_version, stamp_version,
  lift, is_unchanged, publish_next, publish_body, publish,
}

module _ (pf : Platform) where
  -- The tables with one more snapshot, and with the survey live at that version.
  abbrev pub with_version : String → ℤ → pf.Raw → Db pf → Db pf
  with_version id v doc db = record db {
    versions = db.versions ++ (record { survey_id = id; version = v; schema = doc } ∷ []);
  }

  abbrev pub pointed_at : String → ℤ → ℕ → Db pf → Db pf
  pointed_at id v now =
      set_survey pf id
        (λ s. record s { published_version = some v; status = "live"; updated_at = now })

  add_version-ok :
      (id : String) (v : ℤ) (o : Option pf.Raw) (db after : Db pf)
      → add_version pf id v o db ≡ (ok tt, after)
      → (doc : pf.Raw) × (o ≡ some doc)
        × (has_version pf id v db.versions ≡ false)
        × (has_survey pf id db.surveys ≡ true)
        × (after ≡ with_version id v doc db)
  unfolding add_version
  add_version-ok id v none db after h = cc (ap (λ p. p.0) h)
  add_version-ok id v (some doc) db after h =
      let (fine, e) =
        guarded-ok (has_version pf id v db.versions || not (has_survey pf id db.surveys)) db _ tt
          h in
      let (fresh, known) = or-not-false _ _ fine in (doc, refl, fresh, known, e)

  set_published-ok :
      (id : String) (v : ℤ) (w w' : World pf)
      → set_published pf id v w ≡ (ok tt, w')
      → w'.db ≡ pointed_at id v w.now w.db
  unfolding set_published
  set_published-ok id v w w' h = sym (ap (λ p. p.1) (statement-ok _ w h).0)

  one_row-ok : {A : Type 0} (o : Option A) {a : A} → one_row o ≡ ok a → o ≡ some a
  one_row-ok none h = cc
  one_row-ok (some b) h = cc

module _ (pf : Platform) (js : Json pf) where
  -- Nothing was published: the draft equals the snapshot of the largest version.
  abbrev pub Unchanged : String → pf.Raw → ℤ → Db pf → Type 0
  Unchanged id draft v db =
      (v ≡ max_version pf id db.versions)
      × (ltb_ℤ (pos 0) v ≡ true)
      × ((curr : pf.Raw) × (version_schema pf id v db.versions ≡ some curr)
          × (schema_equal_ignoring_version pf js draft curr ≡ ok true))

  -- A new snapshot: the draft with the next number stamped into it, under that number.
  abbrev pub Advanced : String → pf.Raw → ℤ → ℕ → Db pf → Db pf → Type 0
  Advanced id draft v now before after =
      (v ≡ next_ℤ (max_version pf id before.versions))
      × ((doc kept : pf.Raw) × (stamp_version pf js draft v ≡ ok doc)
          × (js.jsonb doc ≡ some kept)
          × (has_version pf id (int32_of v) before.versions ≡ false)
          × (has_survey pf id before.surveys ≡ true)
          × (after
              ≡ pointed_at pf id (int32_of v) now (with_version pf id (int32_of v) kept before)))

  abbrev pub IsPublished : String → pf.Raw → ℕ → Db pf → ℤ × Bool → Db pf → Type 0
  IsPublished id draft now before (v, true) after = Unchanged id draft v before × (after ≡ before)
  IsPublished id draft now before (v, false) after = Advanced id draft v now before after

  is_unchanged-ok :
      (id : String) (draft : pf.Raw) (v : ℤ) (b : Bool) (w w' : World pf)
      → is_unchanged pf js id draft v w ≡ (ok b, w')
      → (w'.db ≡ w.db)
        × (w'.now ≡ w.now)
        × (b ≡ true
            → (ltb_ℤ (pos 0) v ≡ true)
              × ((curr : pf.Raw) × (version_schema pf id v w.db.versions ≡ some curr)
                  × (schema_equal_ignoring_version pf js draft curr ≡ ok true)))
  unfolding is_unchanged
  is_unchanged-ok id draft v b w w' h = elim (Bool-cases (ltb_ℤ (pos 0) v)) [
    | inl old ↦
        let look = query (λ db. one_row (version_schema pf id v db.versions)) in
        let (curr, u, found, compared) =
          >>=-ok (context "get current version" look)
            (λ curr.
              context "compare schema"
                (lift pf js (schema_equal_ignoring_version pf js draft curr)))
            w (rw old at h) in
        let (row, same, now) =
          query-ok _ w (map_error-ok (GoError.wrapped "get current version") look w found) in
        let e =
          map_error-ok (GoError.wrapped "compare schema")
            (lift pf js (schema_equal_ignoring_version pf js draft curr)) u compared in
        (
          ap (λ p. p.1.db) (sym e) ∙ same,
          ap (λ p. p.1.now) (sym e) ∙ now,
          λ yes_same. (old, (curr, one_row-ok pf _ row, ap (λ p. p.0) e ∙ ap ok yes_same)),
        )
    | inr first ↦
        let e = pure-ok false (rw first at h) in
        (ap (λ p. p.db) (sym e.1), ap (λ p. p.now) (sym e.1), λ same. cc e.0)
  ]

  publish_next-ok :
      (id : String) (draft : pf.Raw) (next : ℤ) (r : ℤ × Bool) (w w' : World pf)
      → publish_next pf js id draft next w ≡ (ok r, w')
      → (r ≡ (next, false))
        × ((doc kept : pf.Raw) × (stamp_version pf js draft next ≡ ok doc)
            × (js.jsonb doc ≡ some kept)
            × (has_version pf id (int32_of next) w.db.versions ≡ false)
            × (has_survey pf id w.db.surveys ≡ true)
            × (w'.db
                ≡ pointed_at pf id
                    (int32_of next)
                    w.now
                    (with_version pf id (int32_of next) kept w.db)))
  unfolding publish_next
  publish_next-ok id draft next r w w' h =
      let (doc, w1, s1, h1) =
        >>=-ok (context "stamp version" (lift pf js (stamp_version pf js draft next))) _ w h in
      let e1 =
        map_error-ok (GoError.wrapped "stamp version") (lift pf js (stamp_version pf js draft next))
          w s1 in
      let insert = statement (add_version pf id (int32_of next) (js.jsonb doc)) in
      let (_, w2, s2, h2) = >>=-ok (context "insert version" insert) _ w1 h1 in
      let (e2, now2) =
        statement-ok _ w1 (map_error-ok (GoError.wrapped "insert version") insert w1 s2) in
      let (kept, stored, fresh, known, db2) =
        add_version-ok pf id (int32_of next) (js.jsonb doc) w1.db w2.db e2 in
      let (_, w3, s3, h3) =
        >>=-ok (context "set published" (set_published pf id (int32_of next))) _ w2 h2 in
      let db3 = set_published-ok pf id (int32_of next) w2 w3 (
        map_error-ok (GoError.wrapped "set published") (set_published pf id (int32_of next)) w2
          s3) in
      let (_, w4, s4, h4) = >>=-ok driver_step _ w3 h3 in
      let (db4, _) = driver_step-ok w3 s4 in
      let start : w1 ≡ w = ap (λ p. p.1) (sym e1) in
      let e5 = pure-ok (next, false) h4 in
      let new_number =
        subst (λ (u : World pf). has_version pf id (int32_of next) u.db.versions ≡ false) start
          fresh in
      let kept_survey =
        subst (λ (u : World pf). has_survey pf id u.db.surveys ≡ true) start known in
      let filled = ap (λ (u : World pf). u.db) (sym e5.1) ∙ db4 ∙ db3 in
      (
        sym e5.0,
        (
          doc,
          kept,
          ap (λ p. p.0) e1,
          stored,
          new_number,
          kept_survey,
          filled
              ∙ ap (λ n. pointed_at pf id (int32_of next) n w2.db)
                  (now2 ∙ ap (λ (u : World pf). u.now) start)
              ∙ ap (pointed_at pf id (int32_of next) w.now)
                  (db2 ∙ ap (λ (u : World pf). with_version pf id (int32_of next) kept u.db) start),
        ),
      )

  -- Both ends of a publication, once the draft has been compared.
  IsPublished-branches :
      (id : String) (draft : pf.Raw) (top : ℤ) (b : Bool) (r : ℤ × Bool) (w x w' : World pf)
      → top ≡ max_version pf id w.db.versions
      → x.db ≡ w.db
      → x.now ≡ w.now
      → (b ≡ true
          → (ltb_ℤ (pos 0) top ≡ true)
            × ((curr : pf.Raw) × (version_schema pf id top w.db.versions ≡ some curr)
                × (schema_equal_ignoring_version pf js draft curr ≡ ok true)))
      → (if b then pure (top, true) else publish_next pf js id draft (next_ℤ top)) x ≡ (ok r, w')
      → IsPublished id draft w.now w.db r w'.db
  IsPublished-branches id draft top true r w x w' most same now equal h =
      let e = pure-ok (top, true) h in
      let (old, rest) = equal refl in
      subst (λ q. IsPublished id draft w.now w.db q w'.db) e.0
        ((most, old, rest), ap (λ (u : World pf). u.db) (sym e.1) ∙ same)
  IsPublished-branches id draft top false r w x w' most same now equal h =
      let (e, next) = publish_next-ok id draft (next_ℤ top) r x w' h in
      subst (λ q. IsPublished id draft w.now w.db q w'.db) (sym e)
        (ap next_ℤ most, rw (same, now) at next)

  publish_body-ok :
      (id : String) (draft : pf.Raw) (r : ℤ × Bool) (w w' : World pf)
      → publish_body pf js id draft w ≡ (ok r, w')
      → IsPublished id draft w.now w.db r w'.db
  unfolding publish_body
  publish_body-ok id draft r w w' h =
      let look = query (λ db. ok (max_version pf id db.versions)) in
      let (top, u, found, rest) = >>=-ok (context "max version" look) _ w h in
      let (most, same_db, same_now) =
        query-ok _ w (map_error-ok (GoError.wrapped "max version") look w found) in
      let (b, x, compared, last) = >>=-ok (is_unchanged pf js id draft top) _ u rest in
      let (same_x, now_x, equal) = is_unchanged-ok id draft top b u x compared in
      IsPublished-branches id draft top b r w x w' (sym (ok-injective most)) (same_x ∙ same_db)
        (now_x ∙ same_now) (λ e. rw same_db at (equal e)) last

  pub publish-AllOrNothing :
      (id : String) (draft : pf.Raw) (w : World pf)
      → AllOrNothing (IsPublished id draft w.now w.db) w.db (publish pf js id draft w)
  unfolding publish
  publish-AllOrNothing id draft w =
      transaction-AllOrNothing (IsPublished id draft w.now w.db) (publish_body pf js id draft) w
        (λ u same now a w' e. rw (same, now) at (publish_body-ok id draft a u w' e))
