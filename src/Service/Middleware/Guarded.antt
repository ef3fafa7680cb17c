-- ===== src/Service/Middleware/Guarded.antt =====
-- RequireAuth, and the check of the session behind it: the cases in which a handler runs.
use text.Mathlib.TextEquality.{eq_iff}
use wenjuandiaocha_backend.Base.{
  ℕ, true, false, not, ◌&&◌, ◌||◌, ltb, String, str_eq, Option, none, some, ◌≡◌, ◌≢◌, refl, sym, ap,
  ◌∙◌, Bool-cases, inl, inr, arith,
}
use wenjuandiaocha_backend.Platform.{Platform}
use wenjuandiaocha_backend.Ecode.{GoError, unauthorized}
use wenjuandiaocha_backend.Ecode.Envelope.{fail, render_error}
use wenjuandiaocha_backend.Rbac.{can}
use wenjuandiaocha_backend.Dao.Tables.{Session, Db}
use wenjuandiaocha_backend.Dao.Exec.{
  Result, ok, err, panic, World, continue, throw, map_error, query,
}
use wenjuandiaocha_backend.Dao.Exec.Laws.{>>=-ok, pure-ok}
use wenjuandiaocha_backend.Dao.Exec.Reads.{Reads, row-Reads, map_error-Reads, Reads-ok}
use wenjuandiaocha_backend.Dao.Store.{
  to_not_found, one_row, find, with_role, get_session, delete_session,
}
use wenjuandiaocha_backend.Service.Metadata.{Metadata}
use wenjuandiaocha_backend.Service.Auth.{ignored, check_expiry, validate_session}
use wenjuandiaocha_backend.Service.Middleware.{
  answered, passed, check_action, with_user, after_session, require_auth,
}

passed-injective : {a b : Metadata} → passed a ≡ passed b → a ≡ b
passed-injective h = cc

module _ (pf : Platform) where
  -- The join of the session with its user.
  abbrev pub session_row : String → Db pf → Option (String × String × ℕ)
  session_row token db =
      with_role pf db.users (find (λ (s : Session). str_eq s.token token) db.sessions)

  session-Reads :
      (token : String)
      → Reads
          (λ db row. session_row token db ≡ some row)
          (map_error (λ e. unauthorized "会话无效") (get_session pf token))
  unfolding get_session
  session-Reads token =
      map_error-Reads _ (λ e. unauthorized "会话无效") (get_session pf token)
        (map_error-Reads _ to_not_found (query (λ db. one_row (session_row token db)))
          (row-Reads (λ db. session_row token db)))

  never_ok :
      {A : Type 0} (r : Result (Unit {0}) × World pf) (e : GoError) {a : A} {w : World pf}
      → ◌≢◌ {A = Result A × World pf} (continue r (λ _. throw e)) (ok a, w)
  never_ok (ok tt, u) e h = cc (ap (λ p. p.0) h)
  never_ok (err x, u) e h = cc (ap (λ p. p.0) h)
  never_ok (panic, u) e h = cc (ap (λ p. p.0) h)

  -- The session is in the tables, with its user, and has not expired.
  abbrev pub IsLive : String → String × String → World pf → Type 0
  IsLive token (user, role) w =
      (expires : ℕ) × (session_row token w.db ≡ some (user, role, expires))
      × (ltb expires w.now ≡ false)

  check_expiry-ok :
      (token : String) (row : String × String × ℕ) (found : String × String) (w w' : World pf)
      → check_expiry pf token row w ≡ (ok found, w')
      → (ltb row.2 w.now ≡ false) × (found ≡ (row.0, row.1)) × (w' ≡ w)
  check_expiry-ok token (user, role, expires) found w w' h = elim (Bool-cases (ltb expires w.now)) [
    | inl expired ↦ absurd (never_ok (ignored pf (delete_session pf token) w) _ (rw expired at h))
    | inr still ↦ let e = pure-ok (user, role) (rw still at h) in (still, sym e.0, sym e.1)
  ]

  validate_session-ok :
      (md : Metadata) (found : String × String) (w w' : World pf)
      → validate_session pf md w ≡ (ok found, w')
      → IsLive md.token found w × (w'.db ≡ w.db)
  unfolding validate_session
  validate_session-ok md found w w' h =
      let (row, u, got, rest) =
        >>=-ok (map_error (λ e. unauthorized "会话无效") (get_session pf md.token))
          (check_expiry pf md.token) w h in
      let (stored, same, now) =
        Reads-ok (λ db r. session_row md.token db ≡ some r) _ w (session-Reads md.token) got in
      let (still, who, kept) = check_expiry-ok md.token row found u w' rest in
      (
        (
          row.2,
          stored ∙ ap (λ (p : String × String). some (p.0, p.1, row.2)) (sym who),
          rw now at still,
        ),
        ap (λ (x : World pf). x.db) kept ∙ same,
      )

  check_action-passed :
      (action : String) (md md' : Metadata)
      → check_action pf action md ≡ passed md'
      → (md' ≡ md) × ((str_eq action "" || can md.role action) ≡ true)
  unfolding check_action
  check_action-passed action md md' h =
      elim (Bool-cases (not (str_eq action "") && not (can md.role action))) [
        | inl refused ↦ cc (rw refused at h)
        | inr granted ↦ (passed-injective (sym (rw granted at h)), ground arith)
      ]

  -- The session's user and role are put into the metadata, the role may do the action, and nothing
  -- has changed in the tables.
  abbrev pub IsLetIn : String → String → Metadata → World pf → Metadata → World pf → Type 0
  IsLetIn action token md w md' w' =
      (found : String × String) × IsLive token found w
      × (md' ≡ with_user pf (record md { token = token }) found)
      × ((str_eq action "" || can found.1 action) ≡ true)
      × (w'.db ≡ w.db)

  after_session-passed :
      (action token : String) (md md' : Metadata) (w w' : World pf)
      (r : Result (String × String) × World pf)
      → validate_session pf (record md { token = token }) w ≡ r
      → after_session pf action (record md { token = token }) r ≡ (ok (passed md'), w')
      → IsLetIn action token md w md' w'
  after_session-passed action token md md' w w' (ok found, u) e h =
      let (live, same) = validate_session-ok (record md { token = token }) found w u e in
      let (verdict, at_end) =
        pure-ok (check_action pf action (with_user pf (record md { token = token }) found)) h in
      let (who, may) = check_action-passed action _ md' verdict in
      (found, live, who, may, ap (λ (x : World pf). x.db) (sym at_end) ∙ same)
  after_session-passed action token md md' w w' (err x, u) e h =
      cc (pure-ok (answered (render_error x)) h).0
  after_session-passed action token md md' w w' (panic, u) e h = cc (ap (λ p. p.0) h)

  -- RequireAuth runs the handler only if the request has a session cookie, its session is in the
  -- tables with a user and has not expired, and the user's role is granted the route's action (an
  -- empty action asks for none). The handler then sees that user, role and token, and the tables are
  -- as they were.
  pub require_auth-passed :
      (action : String) (cookie : Option String) (md md' : Metadata) (w w' : World pf)
      → require_auth pf action cookie md w ≡ (ok (passed md'), w')
      → (token : String) × (cookie ≡ some token) × (token ≢ "") × IsLetIn action token md w md' w'
  unfolding require_auth
  require_auth-passed action none md md' w w' h = cc (pure-ok (answered (fail 401 "未登录")) h).0
  require_auth-passed action (some token) md md' w w' h = elim (Bool-cases (str_eq token "")) [
    | inl blank ↦ cc (pure-ok (answered (fail 401 "未登录")) (rw blank at h)).0
    | inr given ↦ (
      token,
      refl,
      ground (arith, eq_iff token ""),
      after_session-passed action token md md' w w' _ refl (rw given at h),
    )
  ]
