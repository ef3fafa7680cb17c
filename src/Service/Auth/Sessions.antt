-- ===== src/Service/Auth/Sessions.antt =====
-- From a login to the requests after it.
use wenjuandiaocha_backend.Base.{
  ℕ, ◌+◌, ltb, Bool, true, false, String, str_eq, eq_iff, some, List, [], ◌∷◌, ◌++◌, any, ◌≡◌, refl,
  arith, Bool-cases, inl, inr,
}
use wenjuandiaocha_backend.Platform.{Platform}
use wenjuandiaocha_backend.Dao.Tables.{User, Session, Db}
use wenjuandiaocha_backend.Dao.Exec.{ok}
use wenjuandiaocha_backend.Dao.Store.{find, get_user_by_account, create_session, get_session}
use wenjuandiaocha_backend.Service.Metadata.{Metadata}
use wenjuandiaocha_backend.Service.Auth.{auth_user, login, validate_session}

find-snoc :
    {A : Type 0} (p : A → Bool) (xs : List A) (x : A)
    → any p xs ≡ false
    → p x ≡ true
    → find p (xs ++ (x ∷ [])) ≡ some x
find-snoc p [] x h hit = rw hit refl
find-snoc p (y ∷ xs) x h hit =
    let miss : p y ≡ false = ground (arith, h) in
    let rest : any p xs ≡ false = ground (arith, h) in rw miss (find-snoc p xs x rest hit)

find-any : {A : Type 0} (p : A → Bool) (xs : List A) (x : A) → find p xs ≡ some x → any p xs ≡ true
find-any p [] x h = absurd (cc)
find-any p (y ∷ xs) x h = elim (Bool-cases (p y)) [
  | inl hit ↦ rw hit refl
  | inr miss ↦ rw miss (find-any p xs x (rw miss at h))
]

module _ (pf : Platform) (ttl : ℕ) (check : (hash plain : String) → Bool) where
  abbrev pub opened : User → String → ℕ → Session
  opened u token now = record { token = token; user_id = u.user_id; expires_at = now + ttl }

  abbrev pub with_session : Session → Db pf → Db pf
  with_session s db = record db { sessions = db.sessions ++ (s ∷ []) }

  -- A login opens a session that lasts: for an account with its right password and a token that no
  -- session has, if no statement fails, the login gives the user, the token and the time of expiry; and
  -- until that time the check of the session by the token finds that user and role, and changes
  -- nothing. The user is the one that the table has under its id.
  pub validate_session-login :
      (md : Metadata) (db : Db pf) (u : User) (account password token : String) (now later : ℕ)
      → str_eq account "" ≡ false
      → find (λ (v : User). str_eq v.account account) db.users ≡ some u
      → find (λ (v : User). str_eq v.user_id u.user_id) db.users ≡ some u
      → check u.password_hash password ≡ true
      → any (λ (s : Session). str_eq s.token token) db.sessions ≡ false
      → ltb (now + ttl) later ≡ false
      → (login pf ttl check
            (some token)
            account
            password
            (record { db = db; now = now; faults = [] })
          ≡ (
            ok (record { user = auth_user u; token = token; expires = now + ttl }),
            record { db = with_session (opened u token now) db; now = now; faults = [] },
          ))
        × (validate_session pf
              (record md { token = token })
              (record { db = with_session (opened u token now) db; now = later; faults = [] })
            ≡ (
              ok (u.user_id, u.role),
              record { db = with_session (opened u token now) db; now = later; faults = [] },
            ))
  unfolding login get_user_by_account create_session validate_session get_session
  validate_session-login md db u account password token now later named found own right fresh
        still =
      let known = find-any (λ (v : User). str_eq v.user_id u.user_id) db.users u own in
      let stored =
        find-snoc (λ (s : Session). str_eq s.token token) db.sessions (opened u token now) fresh
          ((eq_iff token token).1 refl) in
      (rw (named, found, right, fresh, known) refl, rw (stored, own, still) refl)
