-- ===== src/Service/Auth.antt =====
-- internal/service/auth/auth.go: login, logout, the current user, and the check of a session.
pub mod Answers
pub mod Sessions
use wenjuandiaocha_backend.Base.{
  ℕ, ◌+◌, ltb, Bool, not, String, str_eq, Option, none, some, if◌then◌else◌,
}
use wenjuandiaocha_backend.Platform.{Platform}
use wenjuandiaocha_backend.Ecode.{bad_request, unauthorized, internal}
use wenjuandiaocha_backend.Dao.Tables.{User}
use wenjuandiaocha_backend.Dao.Exec.{M, World, Result, ok, err, throw, pure, map_error, ◌>>=◌, ◌>>◌}
use wenjuandiaocha_backend.Dao.Store.{
  get_user_by_account, get_user_by_id, create_session, get_session, delete_session,
}
use wenjuandiaocha_backend.Service.Metadata.{Metadata}

pub record AuthUser : Type 0 where
  pub id : String
  pub name : String
  pub role : String

pub record LoginResp : Type 0 where
  pub user : AuthUser
  pub token : String
  pub expires : ℕ

abbrev pub auth_user : User → AuthUser
auth_user u = record { id = u.user_id; name = u.name; role = u.role }

module _ (pf : Platform) where
  -- The call's error is dropped, `_ = f()`; a panic is not.
  abbrev pub ignore_error : Result (Unit {0}) × World pf → Result (Unit {0}) × World pf
  ignore_error (err e, w) = (ok tt, w)
  ignore_error (r, w) = (r, w)

  abbrev pub ignored : M pf (Unit {0}) → M pf (Unit {0})
  ignored m w = ignore_error (m w)

  -- `ttl` is the life of a session. `check` is bcrypt's comparison of a hash with a password, and
  -- `token` the random token, if the system gives one.
  module _ (ttl : ℕ) (check : (hash plain : String) → Bool) where
    abbrev pub open_session : User → Option String → M pf LoginResp
    open_session u none w = throw (internal "内部错误") w
    open_session u (some token) w =
        (do
          create_session pf
              (record { token = token; user_id = u.user_id; expires_at = w.now + ttl })
          pure (record { user = auth_user u; token = token; expires = w.now + ttl }))
          w

    -- A missing account and a wrong password have one answer.
    unfoldable pub login : Option String → (account password : String) → M pf LoginResp
    login token account password = if str_eq account "" then throw (bad_request "账号或密码缺失") else (do
      u ← map_error (λ e. unauthorized "账号或密码错误") (get_user_by_account pf account)
      if not (check u.password_hash password)
          then throw (unauthorized "账号或密码错误")
          else open_session u token)

  unfoldable pub logout : Metadata → M pf (Unit {0})
  logout md = if str_eq md.token "" then pure tt else ignored (delete_session pf md.token)

  unfoldable pub me : Metadata → M pf AuthUser
  me md = do u ← get_user_by_id pf md.user_id; pure (auth_user u)

  -- time.Now().After(expires): the session is deleted.
  abbrev pub check_expiry : String → String × String × ℕ → M pf (String × String)
  check_expiry token (user, role, expires) w =
      (if ltb expires w.now
          then (do ignored (delete_session pf token); throw (unauthorized "会话已过期"))
          else pure (user, role))
        w

  -- The user and the role of a session.
  unfoldable pub validate_session : Metadata → M pf (String × String)
  validate_session md = do
    session ← map_error (λ e. unauthorized "会话无效") (get_session pf md.token)
    check_expiry md.token session
