-- ===== src/Dao/Gen/Users.antt =====
-- internal/dao/gen/users.sql.go
use wenjuandiaocha_backend.Base.{
  not, ◌||◌, String, str_eq, [], ◌∷◌, ◌++◌, any, member, if◌then◌else◌,
}
use wenjuandiaocha_backend.Platform.{Platform}
use wenjuandiaocha_backend.Ecode.{GoError}
use wenjuandiaocha_backend.Dao.Tables.{User}
use wenjuandiaocha_backend.Dao.Exec.{ok, err, M, statement, query}
use wenjuandiaocha_backend.Dao.Gen.Rows.{one_row, find}

module _ (pf : Platform) where
  -- INSERT INTO users: a fresh id and account, and one of the three roles.
  abbrev pub create_user : User → M pf (Unit {0})
  create_user u = statement (λ db.
      if any (λ (v : User). str_eq v.user_id u.user_id || str_eq v.account u.account) db.users
        || not (member u.role ("admin" ∷ "creator" ∷ "respondent" ∷ []))
      then (err GoError.driver, db)
      else (ok tt, record db { users = db.users ++ (u ∷ []) }))

  abbrev pub get_user_by_account : String → M pf User
  get_user_by_account account =
      query (λ db. one_row (find (λ (u : User). str_eq u.account account) db.users))

  abbrev pub get_user_by_id : String → M pf User
  get_user_by_id id = query (λ db. one_row (find (λ (u : User). str_eq u.user_id id) db.users))
