-- ===== src/Service/Auth/Answers.antt =====
-- What a failed login tells the caller.
use text.Mathlib.TextEquality.{eq_iff}
use wenjuandiaocha_backend.Base.{
  ℕ, Bool, true, false, not, String, str_eq, Option, none, some, List, [], ◌∷◌, if◌then◌else◌, ◌≡◌,
  ◌≢◌, refl, Bool-cases, inl, inr,
}
use wenjuandiaocha_backend.Platform.{Platform}
use wenjuandiaocha_backend.Ecode.{GoError, unauthorized}
use wenjuandiaocha_backend.Dao.Tables.{User, Db}
use wenjuandiaocha_backend.Dao.Exec.{
  Result, ok, err, panic, World, continue, rescued, run_statement, throw,
}
use wenjuandiaocha_backend.Dao.Store.{to_not_found, one_row, find, get_user_by_account}
use wenjuandiaocha_backend.Service.Auth.{open_session, login}

module _ (pf : Platform) where
  abbrev pub account_of : String → Db pf → Option User
  account_of account db = find (λ (u : User). str_eq u.account account) db.users

  -- No account of that name has that password.
  abbrev pub IsRefused :
      ((hash plain : String) → Bool) → (account password : String) → Db pf → Type 0
  IsRefused check account password db =
      (u : User) → account_of account db ≡ some u → check u.password_hash password ≡ false

  -- The account's row, or an error; never a panic. The tables stay.
  abbrev Finds : String → World pf → Result User × World pf → Type 0
  Finds account w (ok u, x) = (account_of account w.db ≡ some u) × (x.db ≡ w.db)
  Finds account w (err e, x) = x.db ≡ w.db
  Finds account w (panic, x) = ⊥

  one_row-Finds :
      (account : String) (w x : World pf) (o : Option User)
      → account_of account w.db ≡ o
      → x.db ≡ w.db
      → Finds account w (one_row o, x)
  one_row-Finds account w x none e same = same
  one_row-Finds account w x (some u) e same = (e, same)

  run_query-Finds :
      (account : String) (fs : List Bool) (w : World pf)
      → Finds account w (run_statement fs (λ db. (one_row (account_of account db), db)) w)
  run_query-Finds account [] w = one_row-Finds account w _ (account_of account w.db) refl refl
  run_query-Finds account (true ∷ fs) w = refl
  run_query-Finds account (false ∷ fs) w =
      one_row-Finds account w _ (account_of account w.db) refl refl

  rescued-Finds :
      (account : String) (g : GoError → GoError) (w : World pf) (r : Result User × World pf)
      → Finds account w r
      → Finds account w (rescued g r)
  rescued-Finds account g w (ok u, x) h = h
  rescued-Finds account g w (err e, x) h = h
  rescued-Finds account g w (panic, x) h = h

  get_user-Finds :
      (account : String) (w : World pf) → Finds account w (get_user_by_account pf account w)
  unfolding get_user_by_account
  get_user-Finds account w =
      rescued-Finds account to_not_found w _ (run_query-Finds account w.faults w)

  -- The rest of `login` once the account has been looked up.
  refused :
      (ttl : ℕ) (check : (hash plain : String) → Bool) (token : Option String)
      (account password : String) (w : World pf) (r : Result User × World pf)
      → Finds account w r
      → IsRefused check account password w.db
      → (end : World pf) × (continue (rescued (λ e. unauthorized "账号或密码错误") r) (λ u.
            if not (check u.password_hash password)
            then throw (unauthorized "账号或密码错误")
            else open_session pf ttl check u token)
          ≡ (err (unauthorized "账号或密码错误"), end))
        × (end.db ≡ w.db)
  refused ttl check token account password w (ok u, x) (found, same) h =
      (x, rw (h u found) refl, same)
  refused ttl check token account password w (err e, x) same h = (x, refl, same)
  refused ttl check token account password w (panic, x) h k = absurd h

  -- A login with a name that no account has, and one with a wrong password, get the very same error,
  -- whatever statement fails, and open no session: the tables are as they were. So the answer does not
  -- tell which accounts exist.
  pub login-IsRefused :
      (ttl : ℕ) (check : (hash plain : String) → Bool) (token : Option String)
      (account password : String) (w : World pf)
      → account ≢ ""
      → IsRefused check account password w.db
      → (end : World pf) × (login pf ttl check token account password w
          ≡ (err (unauthorized "账号或密码错误"), end))
        × (end.db ≡ w.db)
  unfolding login
  login-IsRefused ttl check token account password w named h =
      elim (Bool-cases (str_eq account "")) [
        | inl blank ↦ absurd (named ((eq_iff account "").0 blank))
        | inr given ↦
            rw given (refused ttl check token account password w _ (get_user-Finds account w) h)
      ]
