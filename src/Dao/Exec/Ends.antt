-- ===== src/Dao/Exec/Ends.antt =====
-- How a call ends: with a value, with an error that has a code of its own, or in a panic.
use wenjuandiaocha_backend.Base.{
  Bool, true, false, List, [], ◌∷◌, String, if◌then◌else◌, ◌≡◌, ◌≢◌, refl, arith,
}
use wenjuandiaocha_backend.Ecode.{GoError, from_error}
use wenjuandiaocha_backend.Platform.{Platform}
use wenjuandiaocha_backend.Dao.Tables.{Db}
use wenjuandiaocha_backend.Dao.Exec.{
  Result, ok, err, panic, World, M, continue, ◌>>=◌, rescued, map_error, context, run_statement,
  statement, query, driver_step, pure, throw, closed, transaction,
}

-- The code that a client will see is not the one of a success.
abbrev pub IsCoded : GoError → Type 0
IsCoded (GoError.ecode e) = e.code ≢ 0
IsCoded (GoError.wrapped what e) = IsCoded e
IsCoded _ = Unit {0}

pub from_error-IsCoded : (e : GoError) → IsCoded e → (from_error e).0 ≢ 0
unfolding from_error
from_error-IsCoded GoError.no_rows h = λ z. absurd (omega arith)
from_error-IsCoded GoError.not_found h = λ z. absurd (omega arith)
from_error-IsCoded GoError.driver h = λ z. absurd (omega arith)
from_error-IsCoded GoError.bad_json h = λ z. absurd (omega arith)
from_error-IsCoded (GoError.ecode e) h = h
from_error-IsCoded (GoError.wrapped what e) h = from_error-IsCoded e h

-- An outcome; a panic happens only under `P`.
abbrev pub EndsIn : {A : Type 0} → Type 0 → Result A → Type 0
EndsIn P (ok a) = Unit {0}
EndsIn P (err e) = IsCoded e
EndsIn P panic = P

abbrev pub Ends : {pf : Platform} {A : Type 0} → Type 0 → Result A × World pf → Type 0
Ends P r = EndsIn P r.0

module _ {pf : Platform} where
  -- A call that never panics, wherever statements fail.
  unfoldable pub Returns : {A : Type 0} → M pf A → Type 0
  Returns m = (w : World pf) → Ends ⊥ (m w)

  module _ {A : Type 0} where
    run_statement-Ends :
        (fs : List Bool) (f : Db pf → Result A × Db pf) (w : World pf)
        → EndsIn ⊥ (f w.db).0
        → Ends ⊥ (run_statement fs f w)
    run_statement-Ends [] f w h = h
    run_statement-Ends (true ∷ fs) f w h = tt
    run_statement-Ends (false ∷ fs) f w h = h

    pub statement-Ends :
        (f : Db pf → Result A × Db pf) (w : World pf) → EndsIn ⊥ (f w.db).0 → Ends ⊥ (statement f w)
    statement-Ends f w h = run_statement-Ends w.faults f w h

    pub query-Returns :
        (f : Db pf → Result A) → ((db : Db pf) → EndsIn ⊥ (f db)) → Returns (query f)
    unfolding Returns
    query-Returns f h w = statement-Ends (λ db. (f db, db)) w (h w.db)

    pub Ends-map : (P Q : Type 0) (r : Result A × World pf) → (P → Q) → Ends P r → Ends Q r
    Ends-map P Q (ok a, w) k h = h
    Ends-map P Q (err e, w) k h = h
    Ends-map P Q (panic, w) k h = k h

    pub Ends-weaken : (P : Type 0) (r : Result A × World pf) → Ends ⊥ r → Ends P r
    Ends-weaken P r h = Ends-map ⊥ P r (λ e. absurd e) h

    pub rescued-Ends :
        (P : Type 0) (g : GoError → GoError) (r : Result A × World pf)
        → ((e : GoError) → IsCoded e → IsCoded (g e))
        → Ends P r
        → Ends P (rescued g r)
    rescued-Ends P g (ok a, w) k h = h
    rescued-Ends P g (err e, w) k h = k e h
    rescued-Ends P g (panic, w) k h = h

    pub continue-Ends :
        (P : Type 0) {B : Type 0} (r : Result A × World pf) (k : A → M pf B)
        → Ends P r
        → ((a : A) (u : World pf) → r ≡ (ok a, u) → Ends P (k a u))
        → Ends P (continue r k)
    continue-Ends P (ok a, w) k h c = c a w refl
    continue-Ends P (err e, w) k h c = h
    continue-Ends P (panic, w) k h c = h

    pub closed-Ends :
        (P : Type 0) (before : Db pf) (r : Result A × World pf)
        → Ends P r
        → Ends P (closed before r)
    closed-Ends P before (ok a, w) h = h
    closed-Ends P before (err e, w) h = h
    closed-Ends P before (panic, w) h = h

    pub >>=-Returns :
        {B : Type 0} (m : M pf A) (k : A → M pf B)
        → Returns m
        → ((a : A) → Returns (k a))
        → Returns (m >>= k)
    unfolding Returns
    >>=-Returns m k h c w = continue-Ends ⊥ (m w) k (h w) (λ a u e. c a u)

    pub if-Returns :
        (b : Bool) (m k : M pf A) → Returns m → Returns k → Returns (if b then m else k)
    unfolding Returns
    if-Returns true m k hm hk = hm
    if-Returns false m k hm hk = hk

    pub map_error-Returns :
        (g : GoError → GoError) (m : M pf A)
        → ((e : GoError) → IsCoded e → IsCoded (g e))
        → Returns m
        → Returns (map_error g m)
    unfolding Returns
    map_error-Returns g m k h w = rescued-Ends ⊥ g (m w) k (h w)

    -- fmt.Errorf keeps the code of what it wraps.
    pub context-Returns : (what : String) (m : M pf A) → Returns m → Returns (context what m)
    context-Returns what m h = map_error-Returns (GoError.wrapped what) m (λ e k. k) h

module _ (pf : Platform) where
  pub pure-Returns : {A : Type 0} (a : A) → Returns {pf = pf} (pure a)
  unfolding Returns
  pure-Returns a w = tt

  pub throw-Returns : (A : Type 0) (e : GoError) → IsCoded e → Returns {pf = pf} {A = A} (throw e)
  unfolding Returns
  throw-Returns A e h w = h

  pub driver_step-Returns : Returns {pf = pf} driver_step
  unfolding Returns
  driver_step-Returns w = statement-Ends (λ db. (ok tt, db)) w tt

-- A transaction ends as its body does.
pub transaction-Ends :
    {pf : Platform} {A : Type 0} (P : Type 0) (body : M pf A) (w : World pf)
    → ((u : World pf) → Ends P (body u))
    → Ends P (transaction body w)
unfolding Returns
transaction-Ends {pf} P body w h =
    let begin : M pf (Unit {0}) = context "begin tx" driver_step in
    closed-Ends P w.db (continue (begin w) (λ _. body)) (
      continue-Ends P (begin w) (λ _. body)
        (Ends-weaken P (begin w)
          (context-Returns "begin tx" driver_step (driver_step-Returns pf) w))
        (λ a u e. h u))

pub transaction-Returns :
    {pf : Platform} {A : Type 0} (body : M pf A) → Returns body → Returns (transaction body)
unfolding Returns
transaction-Returns body h w = transaction-Ends ⊥ body w h

-- A guarded statement.
module _ {pf : Platform} where
  pub guarded-Ends :
      (b : Bool) (db after : Db pf)
      → EndsIn {A = Unit {0}} ⊥
          (if◌then◌else◌ {A = Result (Unit {0}) × Db pf} b
            (err GoError.driver, db)
            (ok tt, after)).0
  guarded-Ends true db after = tt
  guarded-Ends false db after = tt

  pub guarded-Returns :
      (b : Db pf → Bool) (after : Db pf → Db pf)
      → Returns {A = Unit {0}}
          (statement (λ db. if b db then (err GoError.driver, db) else (ok tt, after db)))
  unfolding Returns
  guarded-Returns b after w = statement-Ends _ w (guarded-Ends (b w.db) w.db (after w.db))
