-- ===== src/Start/Seed.antt =====
-- cmd/seed/main.go: one account, unless it is there.
use mathlib.Core.Path.{subst}
use wenjuandiaocha_backend.Base.{
  sym, Bool, true, false, ◌||◌, String, str_eq, ◌⊹◌, Option, none, some, List, [], ◌∷◌, any, ◌≡◌,
  refl, ◌∙◌, arith, Bool-cases, inl, inr,
}
use wenjuandiaocha_backend.Platform.{Platform}
use wenjuandiaocha_backend.Dao.Tables.{User, Db}
use wenjuandiaocha_backend.Dao.Exec.{M, World, Result, ok, err, panic, run_statement}
use wenjuandiaocha_backend.Dao.Gen.Users
use wenjuandiaocha_backend.Dao.Sound.{Legal, Legal-refl, Legal-trans}
use wenjuandiaocha_backend.Dao.Sound.Calls.{Keeps, map_error-Keeps, query-Keeps}
use wenjuandiaocha_backend.Dao.Sound.Statements.{create_user-Keeps}
use wenjuandiaocha_backend.Dao.Store.{to_not_found, find, create_user, get_user_by_account}

-- What the tool says at its end: skipped, made, or an exit with status 1.
pub data Outcome : Type 0 where
  skipped made failed : Outcome

-- The flags, the random suffix, and the hash of bcrypt, if it gives one.
pub record Flags : Type 0 where
  pub account : String
  pub name : String
  pub role : String
  pub suffix : String
  pub hash : Option String

any-or :
    {A : Type 0} (p q : A → Bool) (xs : List A) → any q xs ≡ true → any (λ x. p x || q x) xs ≡ true
any-or p q [] h = h
any-or p q (x ∷ xs) h = elim (Bool-cases (q x)) [
  | inl now ↦ ground arith
  | inr later ↦ let rest = any-or p q xs (ground arith) in ground arith
]

module _ (pf : Platform) where
  abbrev pub after_create : Result (Unit {0}) × World pf → Result Outcome × World pf
  after_create (ok _, w) = (ok made, w)
  after_create (err e, w) = (ok failed, w)
  after_create (panic, w) = (panic, w)

  abbrev pub created_user : Flags → String → User
  created_user f hash = record {
    user_id = "u_" ⊹ f.suffix;
    account = f.account;
    password_hash = hash;
    name = f.name;
    role = f.role;
  }

  abbrev pub create_hashed : Flags → Option String → M pf Outcome
  create_hashed f none w = (ok failed, w)
  create_hashed f (some hash) w = after_create (create_user pf (created_user f hash) w)

  -- Any error of the lookup, not only a missing account, goes on to the creation.
  abbrev pub after_lookup : Flags → Result User × World pf → Result Outcome × World pf
  after_lookup f (ok u, w) = (ok skipped, w)
  after_lookup f (err e, w) = create_hashed f f.hash w
  after_lookup f (panic, w) = (panic, w)

  unfoldable pub seed : Flags → M pf Outcome
  seed f w = after_lookup f (get_user_by_account pf f.account w)

  -- The account exists.
  abbrev pub has_account : String → Db pf → Bool
  has_account account db = any (λ (u : User). str_eq u.account account) db.users

  run_statement-db :
      (fs : List Bool) (g : Db pf → Result (Unit {0}) × Db pf) (w : World pf)
      → (g w.db).1 ≡ w.db
      → (run_statement fs g w).1.db ≡ w.db
  run_statement-db [] g w h = h
  run_statement-db (true ∷ fs) g w h = refl
  run_statement-db (false ∷ fs) g w h = h

  after_create-db : (r : Result (Unit {0}) × World pf) → (after_create r).1.db ≡ r.1.db
  after_create-db (ok a, w) = refl
  after_create-db (err e, w) = refl
  after_create-db (panic, w) = refl

  create_hashed-keeps :
      (f : Flags) (o : Option String) (w : World pf)
      → has_account f.account w.db ≡ true
      → (create_hashed f o w).1.db ≡ w.db
  unfolding create_user
  create_hashed-keeps f none w h = refl
  create_hashed-keeps f (some hash) w h =
      let taken =
        any-or (λ (v : User). str_eq v.user_id ("u_" ⊹ f.suffix)) (λ v. str_eq v.account f.account)
          w.db.users h in
      after_create-db _ ∙ run_statement-db w.faults _ w (rw taken refl)

  find_account :
      (account : String) (us : List User)
      → any (λ (u : User). str_eq u.account account) us ≡ true
      → (u : User) × (find (λ (u : User). str_eq u.account account) us ≡ some u)
  find_account account [] h = absurd (cc)
  find_account account (u ∷ us) h = elim (Bool-cases (str_eq u.account account)) [
    | inl hit ↦ (u, rw hit refl)
    | inr miss ↦ let (v, found) = find_account account us (ground arith) in (v, rw miss found)
  ]

  seed_run :
      (f : Flags) (fs : List Bool) (w : World pf)
      → has_account f.account w.db ≡ true
      → (seed f (record w { faults = fs })).1.db ≡ w.db
  unfolding seed get_user_by_account
  seed_run f [] w h = let (u, found) = find_account f.account w.db.users h in rw found refl
  seed_run f (false ∷ fs) w h =
      let (u, found) = find_account f.account w.db.users h in rw found refl
  seed_run f (true ∷ fs) w h = create_hashed-keeps f f.hash (record w { faults = fs }) h

  -- Seeding an account that exists changes nothing, wherever statements fail: the lookup finds it, or,
  -- if the lookup fails, the table refuses a second user of the account.
  pub seed-keeps :
      (f : Flags) (w : World pf) → has_account f.account w.db ≡ true → (seed f w).1.db ≡ w.db
  seed-keeps f w h = seed_run f w.faults w h

  create_hashed-Legal :
      (f : Flags) (o : Option String) (w : World pf) → Legal pf w.db (create_hashed f o w).1.db
  unfolding Keeps
  create_hashed-Legal f none w = Legal-refl pf w.db
  create_hashed-Legal f (some hash) w =
      subst (Legal pf w.db) (sym (after_create-db (create_user pf (created_user f hash) w)))
        (create_user-Keeps pf (created_user f hash) w)

  after_lookup-Legal :
      (f : Flags) (db : Db pf) (r : Result User × World pf)
      → Legal pf db r.1.db
      → Legal pf db (after_lookup f r).1.db
  after_lookup-Legal f db (ok u, w) h = h
  after_lookup-Legal f db (err e, w) h =
      Legal-trans pf db w.db (create_hashed f f.hash w).1.db h (create_hashed-Legal f f.hash w)
  after_lookup-Legal f db (panic, w) h = h

  -- The tool keeps the tables sound.
  pub seed-Keeps : (f : Flags) → Keeps (seed f)
  unfolding Keeps seed get_user_by_account
  seed-Keeps f w =
      after_lookup-Legal f w.db (get_user_by_account pf f.account w)
        (map_error-Keeps to_not_found (Users.get_user_by_account pf f.account) (query-Keeps _) w)
