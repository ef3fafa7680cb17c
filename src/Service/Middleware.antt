-- ===== src/Service/Middleware.antt =====
-- internal/server/http/middleware/auth/auth.go, RequireAuth.
pub mod Guarded
use wenjuandiaocha_backend.Base.{
  ℕ, Bool, true, false, not, ◌&&◌, String, str_eq, List, [], ◌∷◌, Option, none, some, if◌then◌else◌,
}
use wenjuandiaocha_backend.Platform.{Platform}
use wenjuandiaocha_backend.Ecode.{GoError, forbidden_403}
use wenjuandiaocha_backend.Ecode.Envelope.{Response, Content, fail, render_error}
use wenjuandiaocha_backend.Rbac.{can}
use wenjuandiaocha_backend.Dao.Exec.{M, World, Result, ok, err, panic}
use wenjuandiaocha_backend.Service.Metadata.{Metadata}
use wenjuandiaocha_backend.Service.Auth.{validate_session}

-- What the middleware does with a request: it answers itself, or it lets the handler run.
pub data Verdict : Type 0 where
  answered : Response (Unit {0}) → Verdict
  passed : Metadata → Verdict

module _ (pf : Platform) where
  -- The capability test after a session was found.
  unfoldable pub check_action : String → Metadata → Verdict
  check_action action md =
      if not (str_eq action "") && not (can md.role action)
      then answered (render_error (forbidden_403 "无权执行此操作"))
      else passed md

  abbrev pub with_user : Metadata → String × String → Metadata
  with_user md (user, role) = record md { user_id = user; role = role }

  abbrev pub after_session :
      String → Metadata → Result (String × String) × World pf → Result Verdict × World pf
  after_session action md (ok found, w) = (ok (check_action action (with_user md found)), w)
  after_session action md (err e, w) = (ok (answered (render_error e)), w)
  after_session action md (panic, w) = (panic, w)

  -- `cookie` is the session cookie, `none` where the request has none.
  unfoldable pub require_auth : String → Option String → Metadata → M pf Verdict
  require_auth action none md w = (ok (answered (fail 401 "未登录")), w)
  require_auth action (some token) md w =
      if str_eq token ""
      then (ok (answered (fail 401 "未登录")), w)
      else after_session action (record md { token = token })
          (validate_session pf (record md { token = token }) w)
