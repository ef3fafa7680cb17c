-- ===== src/Dao/Exec.antt =====
-- How the program runs statements: each may fail at the driver, a transaction that fails leaves no
-- trace, and a panic ends the request.
pub mod Laws
pub mod Reads
pub mod Ends
use wenjuandiaocha_backend.Base.{
  ℕ, Bool, true, false, List, [], ◌∷◌, String, Option, none, some, if◌then◌else◌, ◌≡◌, refl,
}
use wenjuandiaocha_backend.Ecode.{GoError}
use wenjuandiaocha_backend.Platform.{Platform}
use wenjuandiaocha_backend.Dao.Tables.{Db}

-- The outcome of a call: its value, its error, or a panic.
pub data Result {ℓ} (A : Type ℓ) : Type ℓ where
  ok : A → Result A
  err : GoError → Result A
  panic : Result A

-- The database, the time of the request, and which of the coming statements fail at the driver.
pub record World (pf : Platform) : Type 0 where
  pub db : Db pf
  pub now : ℕ
  pub faults : List Bool

abbrev pub M : Platform → Type 0 → Type 0
M pf A = World pf → Result A × World pf

-- How a call goes on after another one.
abbrev pub continue :
    {pf : Platform} {A B : Type 0} → Result A × World pf → (A → M pf B) → Result B × World pf
continue (ok a, w) k = k a w
continue (err e, w) k = (err e, w)
continue (panic, w) k = (panic, w)

infixl 5 ◌>>=◌ ◌>>◌
abbrev pub ◌>>=◌ : {pf : Platform} {A B : Type 0} → M pf A → (A → M pf B) → M pf B
◌>>=◌ m k w = continue (m w) k

abbrev pub ◌>>◌ : {pf : Platform} {B : Type 0} → M pf (Unit {0}) → M pf B → M pf B
m >> k = m >>= λ _. k

module _ {pf : Platform} where
  abbrev pub pure : {A : Type 0} → A → M pf A
  pure a w = (ok a, w)

  abbrev pub throw : {A : Type 0} → GoError → M pf A
  throw e w = (err e, w)

  -- An error handler: `if err != nil { return handle(err) }` with the error at hand.
  abbrev pub rescued :
      {A : Type 0} → (GoError → GoError) → Result A × World pf → Result A × World pf
  rescued h (ok a, w) = (ok a, w)
  rescued h (err e, w) = (err (h e), w)
  rescued h (panic, w) = (panic, w)

  abbrev pub map_error : {A : Type 0} → (GoError → GoError) → M pf A → M pf A
  map_error h m w = rescued h (m w)

  -- fmt.Errorf("what: %w", err)
  abbrev pub context : {A : Type 0} → String → M pf A → M pf A
  context what m = map_error (GoError.wrapped what) m

  -- A statement over the database: at a fault the driver's error, and nothing has changed.
  abbrev pub run_statement : {A : Type 0} → List Bool → (Db pf → Result A × Db pf) → M pf A
  run_statement [] f w = let (r, db) = f w.db in (r, record w { db = db; faults = [] })
  run_statement (true ∷ fs) f w = (err GoError.driver, record w { faults = fs })
  run_statement (false ∷ fs) f w = let (r, db) = f w.db in (r, record w { db = db; faults = fs })

  abbrev pub statement : {A : Type 0} → (Db pf → Result A × Db pf) → M pf A
  statement f w = run_statement w.faults f w

  -- A query changes nothing.
  abbrev pub query : {A : Type 0} → (Db pf → Result A) → M pf A
  query f = statement (λ db. (f db, db))

  -- A lone step of the driver, such as Begin or Commit.
  abbrev pub driver_step : M pf (Unit {0})
  driver_step = statement (λ db. (ok tt, db))

  -- The end of a transaction that began on `before`: anything but success rolls back.
  abbrev pub closed : {A : Type 0} → Db pf → Result A × World pf → Result A × World pf
  closed before (ok a, w) = (ok a, w)
  closed before (err e, w) = (err e, record w { db = before })
  closed before (panic, w) = (panic, record w { db = before })

  -- Begin, the body with its own Commit, and the deferred Rollback.
  abbrev pub transaction : {A : Type 0} → M pf A → M pf A
  transaction body w = closed w.db ((context "begin tx" driver_step >>= λ _. body) w)
