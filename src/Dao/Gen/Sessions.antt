-- ===== src/Dao/Gen/Sessions.antt =====
-- internal/dao/gen/sessions.sql.go
use wenjuandiaocha_backend.Base.{
  ℕ, not, ◌||◌, String, str_eq, Option, none, some, List, [], ◌∷◌, ◌++◌, any, if◌then◌else◌, ltb,
}
use wenjuandiaocha_backend.Platform.{Platform}
use wenjuandiaocha_backend.Ecode.{GoError}
use wenjuandiaocha_backend.Dao.Tables.{User, Session}
use wenjuandiaocha_backend.Dao.Exec.{ok, err, M, statement, query}
use wenjuandiaocha_backend.Dao.Gen.Rows.{one_row, find, keep}

module _ (pf : Platform) where
  -- INSERT INTO sessions: a fresh token, of a user that exists.
  abbrev pub create_session : Session → M pf (Unit {0})
  create_session s = statement (λ db.
      if any (λ (t : Session). str_eq t.token s.token) db.sessions
        || not (any (λ (u : User). str_eq u.user_id s.user_id) db.users)
      then (err GoError.driver, db)
      else (ok tt, record db { sessions = db.sessions ++ (s ∷ []) }))

  abbrev pub delete_session : String → M pf (Unit {0})
  delete_session token = statement (λ db. (
    ok tt,
    record db { sessions = keep (λ (s : Session). not (str_eq s.token token)) db.sessions },
  ))

  -- DELETE FROM sessions WHERE expires_at < now(); the program has no call of it.
  unfoldable pub delete_expired_sessions : M pf (Unit {0})
  delete_expired_sessions w =
      statement
        (λ db. (
          ok tt,
          record db { sessions = keep (λ (s : Session). not (ltb s.expires_at w.now)) db.sessions },
        ))
        w

  abbrev pub joined : Session → Option User → Option (String × String × ℕ)
  joined s none = none
  joined s (some u) = some (s.user_id, u.role, s.expires_at)

  -- The join of a session with its user: the user's id and role, and the expiry.
  abbrev pub with_role : List User → Option Session → Option (String × String × ℕ)
  with_role users none = none
  with_role users (some s) = joined s (find (λ (u : User). str_eq u.user_id s.user_id) users)

  abbrev pub get_session : String → M pf (String × String × ℕ)
  get_session token = query (λ db.
      one_row (with_role db.users (find (λ (s : Session). str_eq s.token token) db.sessions)))
