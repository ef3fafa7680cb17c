-- ===== src/Dao/Exec/Laws.antt =====
-- What a successful, and a failed, run of statements says of the database.
use wenjuandiaocha_backend.Base.{
  Bool, true, false, not, ◌||◌, if◌then◌else◌, List, [], ◌∷◌, ◌≡◌, refl, sym, ap, arith,
}
use wenjuandiaocha_backend.Ecode.{GoError}
use wenjuandiaocha_backend.Platform.{Platform}
use wenjuandiaocha_backend.Dao.Tables.{Db}
use wenjuandiaocha_backend.Dao.Exec.{
  Result, ok, err, panic, World, M, continue, ◌>>=◌, rescued, map_error, context, run_statement,
  statement, query, driver_step, closed, transaction,
}

module _ {pf : Platform} {A : Type 0} where
  continue-ok :
      {B : Type 0} (r : Result A × World pf) (k : A → M pf B) {b : B} {w' : World pf}
      → continue r k ≡ (ok b, w')
      → (a : A) × (u : World pf) × (r ≡ (ok a, u)) × (k a u ≡ (ok b, w'))
  continue-ok (ok a, u) k h = (a, u, refl, h)
  continue-ok (err e, u) k h = cc (ap (λ p. p.0) h)
  continue-ok (panic, u) k h = cc (ap (λ p. p.0) h)

  -- A sequence succeeds when both parts do.
  pub >>=-ok :
      {B : Type 0} (m : M pf A) (k : A → M pf B) (w : World pf) {b : B} {w' : World pf}
      → (m >>= k) w ≡ (ok b, w')
      → (a : A) × (u : World pf) × (m w ≡ (ok a, u)) × (k a u ≡ (ok b, w'))
  >>=-ok m k w h = continue-ok (m w) k h

  rescued-ok :
      (f : GoError → GoError) (r : Result A × World pf) {a : A} {w' : World pf}
      → rescued f r ≡ (ok a, w')
      → r ≡ (ok a, w')
  rescued-ok f (ok a, u) h = h
  rescued-ok f (err e, u) h = cc (ap (λ p. p.0) h)
  rescued-ok f (panic, u) h = cc (ap (λ p. p.0) h)

  pub map_error-ok :
      (f : GoError → GoError) (m : M pf A) (w : World pf) {a : A} {w' : World pf}
      → map_error f m w ≡ (ok a, w')
      → m w ≡ (ok a, w')
  map_error-ok f m w h = rescued-ok f (m w) h

  run_statement-ok :
      (fs : List Bool) (f : Db pf → Result A × Db pf) (w : World pf) {a : A} {w' : World pf}
      → run_statement fs f w ≡ (ok a, w')
      → (f w.db ≡ (ok a, w'.db)) × (w'.now ≡ w.now)
  run_statement-ok [] f w h = (λ i. ((h i).0, (h i).1.db), λ i. (sym h i).1.now)
  run_statement-ok (true ∷ fs) f w h = cc (ap (λ p. p.0) h)
  run_statement-ok (false ∷ fs) f w h = (λ i. ((h i).0, (h i).1.db), λ i. (sym h i).1.now)

  -- A statement that succeeds has done its work.
  pub statement-ok :
      (f : Db pf → Result A × Db pf) (w : World pf) {a : A} {w' : World pf}
      → statement f w ≡ (ok a, w')
      → (f w.db ≡ (ok a, w'.db)) × (w'.now ≡ w.now)
  statement-ok f w h = run_statement-ok w.faults f w h

  pub query-ok :
      (f : Db pf → Result A) (w : World pf) {a : A} {w' : World pf}
      → query f w ≡ (ok a, w')
      → (f w.db ≡ ok a) × (w'.db ≡ w.db) × (w'.now ≡ w.now)
  query-ok f w h =
      let (e, n) = statement-ok (λ db. (f db, db)) w h in
      (ap (λ p. p.0) e, sym (ap (λ p. p.1) e), n)

  -- What a result leaves in the database: `after` on success, and otherwise `before`.
  abbrev pub AllOrNothing : (A → Db pf → Type 0) → Db pf → Result A × World pf → Type 0
  AllOrNothing after before (ok a, w) = after a w.db
  AllOrNothing after before (_, w) = w.db ≡ before

  closed-AllOrNothing :
      (after : A → Db pf → Type 0) (before : Db pf) (r : Result A × World pf)
      → ((a : A) (w : World pf) → r ≡ (ok a, w) → after a w.db)
      → AllOrNothing after before (closed before r)
  closed-AllOrNothing after before (ok a, w) h = h a w refl
  closed-AllOrNothing after before (err e, w) h = refl
  closed-AllOrNothing after before (panic, w) h = refl

-- A guarded change that succeeds has passed its guard.
pub guarded-ok :
    {pf : Platform} {A : Type 0} (b : Bool) (db after : Db pf) (x : A) {a : A} {db' : Db pf}
    → ◌≡◌ {A = Result A × Db pf} (if b then (err GoError.driver, db) else (ok x, after)) (ok a, db')
    → (b ≡ false) × (db' ≡ after)
guarded-ok true db after x h = cc (ap (λ p. p.0) h)
guarded-ok false db after x h = (refl, sym (ap (λ p. p.1) h))

pub or-not-false : (a b : Bool) → (a || not b) ≡ false → (a ≡ false) × (b ≡ true)
or-not-false a b h = ground arith

-- Begin changes nothing.
pub driver_step-ok :
    {pf : Platform} (w : World pf) {w' : World pf}
    → driver_step w ≡ (ok tt, w')
    → (w'.db ≡ w.db) × (w'.now ≡ w.now)
driver_step-ok w h = let (e, n) = statement-ok (λ db. (ok tt, db)) w h in (sym (ap (λ p. p.1) e), n)

-- A transaction does all that its body does, or nothing.
pub transaction-AllOrNothing :
    {pf : Platform} {A : Type 0} (after : A → Db pf → Type 0) (body : M pf A) (w : World pf)
    → ((u : World pf)
        → u.db ≡ w.db
        → u.now ≡ w.now
        → (a : A) (w' : World pf) → body u ≡ (ok a, w')
        → after a w'.db)
    → AllOrNothing after w.db (transaction body w)
transaction-AllOrNothing after body w h = closed-AllOrNothing after w.db _ (λ a w' e.
    let (b, u, begun, rest) = >>=-ok (context "begin tx" driver_step) (λ _. body) w e in
    let (same, now) =
      driver_step-ok w (map_error-ok (GoError.wrapped "begin tx") driver_step w begun) in
    h u same now a w' rest)

pub ok-injective : {A : Type 0} {a b : A} → ok a ≡ ok b → a ≡ b
ok-injective h = cc

pub pure-ok :
    {pf : Platform} {A : Type 0} (a : A) {b : A} {w w' : World pf}
    → ◌≡◌ {A = Result A × World pf} (ok a, w) (ok b, w')
    → (a ≡ b) × (w ≡ w')
pure-ok a h = (ok-injective (ap (λ p. p.0) h), ap (λ p. p.1) h)

pub AllOrNothing-map :
    {pf : Platform} {A : Type 0} (P Q : A → Db pf → Type 0) (before : Db pf)
    (r : Result A × World pf)
    → ((a : A) (db : Db pf) → P a db → Q a db)
    → AllOrNothing P before r
    → AllOrNothing Q before r
AllOrNothing-map P Q before (ok a, w) k h = k a w.db h
AllOrNothing-map P Q before (err e, w) k h = h
AllOrNothing-map P Q before (panic, w) k h = h
