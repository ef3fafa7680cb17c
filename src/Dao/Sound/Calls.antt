-- ===== src/Dao/Sound/Calls.antt =====
-- Calls that keep the tables sound, whatever their outcome.
use wenjuandiaocha_backend.Base.{Bool, true, false, List, [], ◌∷◌, if◌then◌else◌, ◌≡◌, refl}
use wenjuandiaocha_backend.Platform.{Platform}
use wenjuandiaocha_backend.Ecode.{GoError}
use wenjuandiaocha_backend.Dao.Tables.{Db}
use wenjuandiaocha_backend.Dao.Exec.{
  Result, ok, err, panic, World, M, continue, ◌>>=◌, rescued, map_error, context, run_statement,
  statement, query, pure, throw, driver_step, closed, transaction,
}
use wenjuandiaocha_backend.Dao.Exec.Laws.{AllOrNothing}
use wenjuandiaocha_backend.Dao.Exec.Reads.{ReadsAt, Reads}
use wenjuandiaocha_backend.Dao.Sound.{Legal, Legal-refl, Legal-trans}

module _ {pf : Platform} where
  unfoldable pub Keeps : {A : Type 0} → M pf A → Type 0
  Keeps m = (w : World pf) → Legal pf w.db (m w).1.db

  module _ {A : Type 0} where
    run_statement-Legal :
        (fs : List Bool) (f : Db pf → Result A × Db pf) (w : World pf)
        → Legal pf w.db (f w.db).1
        → Legal pf w.db (run_statement fs f w).1.db
    run_statement-Legal [] f w h = h
    run_statement-Legal (true ∷ fs) f w h = Legal-refl pf w.db
    run_statement-Legal (false ∷ fs) f w h = h

    pub statement-Legal :
        (f : Db pf → Result A × Db pf) (w : World pf)
        → Legal pf w.db (f w.db).1
        → Legal pf w.db (statement f w).1.db
    statement-Legal f w h = run_statement-Legal w.faults f w h

    pub rescued-Legal :
        (db : Db pf) (g : GoError → GoError) (r : Result A × World pf)
        → Legal pf db r.1.db
        → Legal pf db (rescued g r).1.db
    rescued-Legal db g (ok a, w) h = h
    rescued-Legal db g (err e, w) h = h
    rescued-Legal db g (panic, w) h = h

    pub continue-Legal :
        {B : Type 0} (db : Db pf) (k : A → M pf B) (r : Result A × World pf)
        → Legal pf db r.1.db
        → ((a : A) → Keeps (k a))
        → Legal pf db (continue r k).1.db
    unfolding Keeps
    continue-Legal db k (ok a, w) h c = Legal-trans pf db w.db (k a w).1.db h (c a w)
    continue-Legal db k (err e, w) h c = h
    continue-Legal db k (panic, w) h c = h

    pub >>=-Keeps :
        {B : Type 0} (m : M pf A) (k : A → M pf B)
        → Keeps m
        → ((a : A) → Keeps (k a))
        → Keeps (m >>= k)
    unfolding Keeps
    >>=-Keeps m k h c w = continue-Legal w.db k (m w) (h w) c

    closed-Legal :
        (before : Db pf) (r : Result A × World pf)
        → Legal pf before r.1.db
        → Legal pf before (closed before r).1.db
    closed-Legal before (ok a, w) h = h
    closed-Legal before (err e, w) h = Legal-refl pf before
    closed-Legal before (panic, w) h = Legal-refl pf before

module _ (pf : Platform) where
  pub driver_step-Keeps : Keeps {pf = pf} driver_step
  unfolding Keeps
  driver_step-Keeps w = statement-Legal (λ db. (ok tt, db)) w (Legal-refl pf w.db)

  pub pure-Keeps : {A : Type 0} (a : A) → Keeps {pf = pf} (pure a)
  unfolding Keeps
  pure-Keeps a w = Legal-refl pf w.db

  pub throw-Keeps : (A : Type 0) (e : GoError) → Keeps {pf = pf} {A = A} (throw e)
  unfolding Keeps
  throw-Keeps A e w = Legal-refl pf w.db

module _ {pf : Platform} where
  module _ {A : Type 0} where
    pub transaction-Keeps : (body : M pf A) → Keeps body → Keeps (transaction body)
    unfolding Keeps
    transaction-Keeps body h w = closed-Legal w.db _ (
        >>=-Keeps (context "begin tx" driver_step) (λ _. body)
          (λ u.
            rescued-Legal u.db (GoError.wrapped "begin tx") (driver_step u)
              (driver_step-Keeps pf u))
          (λ _. h) w)

    pub if-Keeps : (b : Bool) (m k : M pf A) → Keeps m → Keeps k → Keeps (if b then m else k)
    unfolding Keeps
    if-Keeps true m k hm hk = hm
    if-Keeps false m k hm hk = hk

    pub map_error-Keeps : (g : GoError → GoError) (m : M pf A) → Keeps m → Keeps (map_error g m)
    unfolding Keeps
    map_error-Keeps g m h w = rescued-Legal w.db g (m w) (h w)

    -- A query.
    pub query-Keeps : (f : Db pf → Result A) → Keeps (query f)
    unfolding Keeps
    query-Keeps f w = statement-Legal (λ db. (f db, db)) w (Legal-refl pf w.db)

    -- A call that only reads, and one that does all or nothing.
    ReadsAt-Legal :
        (P : Db pf → A → Type 0) (w : World pf) (r : Result A × World pf)
        → ReadsAt P w r
        → Legal pf w.db r.1.db
    ReadsAt-Legal P w (ok a, u) (p, same, now) = rw same (Legal-refl pf w.db)
    ReadsAt-Legal P w (err e, u) same = rw same (Legal-refl pf w.db)
    ReadsAt-Legal P w (panic, u) same = rw same (Legal-refl pf w.db)

    pub Reads-Keeps : (P : Db pf → A → Type 0) (m : M pf A) → Reads P m → Keeps m
    unfolding Keeps
    Reads-Keeps P m h w = ReadsAt-Legal P w (m w) (h w)

    pub AllOrNothing-Legal :
        (after : A → Db pf → Type 0) (before : Db pf) (r : Result A × World pf)
        → ((a : A) (db : Db pf) → after a db → Legal pf before db)
        → AllOrNothing after before r
        → Legal pf before r.1.db
    AllOrNothing-Legal after before (ok a, w) h p = h a w.db p
    AllOrNothing-Legal after before (err e, w) h same = rw same (Legal-refl pf before)
    AllOrNothing-Legal after before (panic, w) h same = rw same (Legal-refl pf before)

  -- A guarded statement.
  pub guarded-Legal :
      (b : Bool) (e o : Result (Unit {0})) (before after : Db pf)
      → (b ≡ false → Legal pf before after)
      → Legal pf before (if◌then◌else◌ {A = Result (Unit {0}) × Db pf} b (e, before) (o, after)).1
  guarded-Legal true e o before after h = Legal-refl pf before
  guarded-Legal false e o before after h = h refl
