-- ===== src/Dao/Exec/Reads.antt =====
-- Calls that only read: what they find, and that they leave the tables alone.
use mathlib.Core.Path.{subst}
use wenjuandiaocha_backend.Base.{
  Bool, true, false, List, [], ◌∷◌, Option, none, some, ◌≡◌, refl, sym, ◌∙◌,
}
use wenjuandiaocha_backend.Ecode.{GoError}
use wenjuandiaocha_backend.Platform.{Platform}
use wenjuandiaocha_backend.Dao.Tables.{Db}
use wenjuandiaocha_backend.Dao.Exec.{
  Result, ok, err, panic, World, M, continue, ◌>>=◌, rescued, map_error, run_statement, statement,
  query,
}
use wenjuandiaocha_backend.Dao.Exec.Laws.{AllOrNothing}
use wenjuandiaocha_backend.Dao.Store.{one_row}

one_row_ok : {A : Type 0} {a : A} (o : Option A) → one_row o ≡ ok a → o ≡ some a
one_row_ok none h = cc
one_row_ok (some b) h = cc

module _ {pf : Platform} {A : Type 0} where
  -- The outcome leaves the tables and the clock, and a value has the property.
  abbrev pub ReadsAt : (Db pf → A → Type 0) → World pf → Result A × World pf → Type 0
  ReadsAt P w (ok a, u) = P w.db a × (u.db ≡ w.db) × (u.now ≡ w.now)
  ReadsAt P w (_, u) = u.db ≡ w.db

  abbrev pub Reads : (Db pf → A → Type 0) → M pf A → Type 0
  Reads P m = (w : World pf) → ReadsAt P w (m w)

  run_query-ReadsAt :
      (fs : List Bool) (f : Db pf → Result A) (w : World pf) (r : Result A)
      → r ≡ f w.db
      → ReadsAt (λ db a. f db ≡ ok a) w (run_statement fs (λ db. (r, db)) w)
  run_query-ReadsAt [] f w (ok a) e = (sym e, refl, refl)
  run_query-ReadsAt [] f w (err x) e = refl
  run_query-ReadsAt [] f w panic e = refl
  run_query-ReadsAt (true ∷ fs) f w r e = refl
  run_query-ReadsAt (false ∷ fs) f w (ok a) e = (sym e, refl, refl)
  run_query-ReadsAt (false ∷ fs) f w (err x) e = refl
  run_query-ReadsAt (false ∷ fs) f w panic e = refl

  run_query_lem :
      (fs : List Bool) (f : Db pf → Result A) (w : World pf)
      → run_statement fs (λ db. (f db, db)) w ≡ run_statement fs (λ db. (f w.db, db)) w
  run_query_lem [] f w = refl
  run_query_lem (true ∷ fs) f w = refl
  run_query_lem (false ∷ fs) f w = refl

  pub query-Reads : (f : Db pf → Result A) → Reads (λ db a. f db ≡ ok a) (query f)
  query-Reads f w =
      subst (ReadsAt (λ db a. f db ≡ ok a) w) (sym (run_query_lem w.faults f w))
        (run_query-ReadsAt w.faults f w (f w.db) refl)

  rescued-ReadsAt :
      (P : Db pf → A → Type 0) (g : GoError → GoError) (w : World pf) (r : Result A × World pf)
      → ReadsAt P w r
      → ReadsAt P w (rescued g r)
  rescued-ReadsAt P g w (ok a, u) h = h
  rescued-ReadsAt P g w (err e, u) h = h
  rescued-ReadsAt P g w (panic, u) h = h

  pub map_error-Reads :
      (P : Db pf → A → Type 0) (g : GoError → GoError) (m : M pf A)
      → Reads P m
      → Reads P (map_error g m)
  map_error-Reads P g m h w = rescued-ReadsAt P g w (m w) (h w)

  weaken-ReadsAt :
      (P Q : Db pf → A → Type 0) (w : World pf) (r : Result A × World pf)
      → ((a : A) → P w.db a → Q w.db a)
      → ReadsAt P w r
      → ReadsAt Q w r
  weaken-ReadsAt P Q w (ok a, u) k (p, same, now) = (k a p, same, now)
  weaken-ReadsAt P Q w (err e, u) k h = h
  weaken-ReadsAt P Q w (panic, u) k h = h

  pub Reads-weaken :
      (P Q : Db pf → A → Type 0) (m : M pf A)
      → ((db : Db pf) (a : A) → P db a → Q db a)
      → Reads P m
      → Reads Q m
  Reads-weaken P Q m k h w = weaken-ReadsAt P Q w (m w) (k w.db) (h w)

  -- A query of one row finds that row.
  pub row-Reads :
      (f : Db pf → Option A) → Reads (λ db a. f db ≡ some a) (query (λ db. one_row (f db)))
  row-Reads f =
      Reads-weaken (λ db a. one_row (f db) ≡ ok a) (λ db a. f db ≡ some a)
        (query (λ db. one_row (f db))) (λ db a e. one_row_ok (f db) e)
        (query-Reads (λ db. one_row (f db)))

module _ {pf : Platform} {A B : Type 0} where
  continue-AllOrNothing :
      (P : Db pf → A → Type 0) (after : B → Db pf → Type 0) (k : A → M pf B) (w : World pf)
      (r : Result A × World pf)
      → ReadsAt P w r
      → ((a : A) (u : World pf)
          → P w.db a
          → u.db ≡ w.db
          → u.now ≡ w.now
          → AllOrNothing after u.db (k a u))
      → AllOrNothing after w.db (continue r k)
  continue-AllOrNothing P after k w (ok a, u) (p, same, now) h =
      subst (λ db. AllOrNothing after db (k a u)) same (h a u p same now)
  continue-AllOrNothing P after k w (err e, u) same h = same
  continue-AllOrNothing P after k w (panic, u) same h = same

  -- After calls that only read, all or nothing is a matter of the rest.
  pub >>=-AllOrNothing :
      (P : Db pf → A → Type 0) (after : B → Db pf → Type 0) (m : M pf A) (k : A → M pf B)
      (w : World pf)
      → Reads P m
      → ((a : A) (u : World pf)
          → P w.db a
          → u.db ≡ w.db
          → u.now ≡ w.now
          → AllOrNothing after u.db (k a u))
      → AllOrNothing after w.db ((m >>= k) w)
  >>=-AllOrNothing P after m k w reads h = continue-AllOrNothing P after k w (m w) (reads w) h

  continue-ReadsAt :
      (P : Db pf → A → Type 0) (Q : Db pf → B → Type 0) (k : A → M pf B) (w : World pf)
      (r : Result A × World pf)
      → ReadsAt P w r
      → ((a : A) → P w.db a → Reads (λ db b. db ≡ w.db → Q w.db b) (k a))
      → ReadsAt Q w (continue r k)
  continue-ReadsAt P Q k w (ok a, u) (p, same, now) h = next (k a u) (h a p u)
    where
      next : (r : Result B × World pf) → ReadsAt (λ db b. db ≡ w.db → Q w.db b) u r → ReadsAt Q w r
      next (ok b, x) (q, s, n) = (q same, s ∙ same, n ∙ now)
      next (err e, x) s = s ∙ same
      next (panic, x) s = s ∙ same
  continue-ReadsAt P Q k w (err e, u) same h = same
  continue-ReadsAt P Q k w (panic, u) same h = same

  pub >>=-Reads :
      (P : Db pf → A → Type 0) (Q : Db pf → B → Type 0) (m : M pf A) (k : A → M pf B)
      → Reads P m
      → ((db : Db pf) (a : A) → P db a → Reads (λ now b. now ≡ db → Q db b) (k a))
      → Reads Q (m >>= k)
  >>=-Reads P Q m k reads h w = continue-ReadsAt P Q k w (m w) (reads w) (h w.db)

module _ {pf : Platform} where
  run_update-AllOrNothing :
      (fs : List Bool) (f : Db pf → Db pf) (after : Unit {0} → Db pf → Type 0) (w : World pf)
      → after tt (f w.db)
      → AllOrNothing after w.db (run_statement fs (λ db. (ok tt, f db)) w)
  run_update-AllOrNothing [] f after w h = h
  run_update-AllOrNothing (true ∷ fs) f after w h = refl
  run_update-AllOrNothing (false ∷ fs) f after w h = h

  -- One UPDATE happens, or fails at the driver.
  pub update-AllOrNothing :
      (f : Db pf → Db pf) (after : Unit {0} → Db pf → Type 0) (w : World pf)
      → after tt (f w.db)
      → AllOrNothing after w.db (statement (λ db. (ok tt, f db)) w)
  update-AllOrNothing f after w h = run_update-AllOrNothing w.faults f after w h

  run_refused-AllOrNothing :
      (fs : List Bool) (e : GoError) (after : Unit {0} → Db pf → Type 0) (w : World pf)
      → AllOrNothing after w.db (run_statement fs (λ db. (err e, db)) w)
  run_refused-AllOrNothing [] e after w = refl
  run_refused-AllOrNothing (true ∷ fs) e after w = refl
  run_refused-AllOrNothing (false ∷ fs) e after w = refl

  -- A statement that the tables refuse.
  pub refused-AllOrNothing :
      (e : GoError) (after : Unit {0} → Db pf → Type 0) (w : World pf)
      → AllOrNothing after w.db (statement (λ db. (err e, db)) w)
  refused-AllOrNothing e after w = run_refused-AllOrNothing w.faults e after w

-- What a successful call that only reads says.
pub Reads-ok :
    {pf : Platform} {A : Type 0} (P : Db pf → A → Type 0) (m : M pf A) (w : World pf) {a : A}
    {u : World pf}
    → Reads P m
    → m w ≡ (ok a, u)
    → P w.db a × (u.db ≡ w.db) × (u.now ≡ w.now)
Reads-ok P m w reads e = subst (ReadsAt P w) e (reads w)
