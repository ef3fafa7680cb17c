-- ===== src/Http/Serve/SignedOut.antt =====
-- What a logout leaves behind.
use wenjuandiaocha_backend.Base.{
  Bool, negsuc, false, not, String, str_eq, none, some, List, [], ◌∷◌, ◌≡◌, refl, Bool-cases, inl,
  inr,
}
use wenjuandiaocha_backend.Platform.{Platform}
use wenjuandiaocha_backend.Dao.Tables.{Session}
use wenjuandiaocha_backend.Dao.Store.{find, keep, delete_session}
use wenjuandiaocha_backend.Service.Auth
use wenjuandiaocha_backend.Ecode.Envelope.{envelope, no_content, render_data}
use wenjuandiaocha_backend.Http.Messages.{Server}
use wenjuandiaocha_backend.Http.Routes.{Endpoint, guard_of}
use wenjuandiaocha_backend.Http.Ratelimit.{Arithmetic}
use wenjuandiaocha_backend.Http.Handlers
use wenjuandiaocha_backend.Http.Serve.{replied, recovered, handle, chain, State, Arrival, serve}

module _ {A : Type 0} (p : A → Bool) where
  -- What is not kept is not found.
  find-keep : (xs : List A) → find p (keep (λ x. not (p x)) xs) ≡ none
  find-keep [] = refl
  find-keep (x ∷ xs) = elim (Bool-cases (p x)) [
    | inl gone ↦ rw gone (find-keep xs)
    | inr kept ↦ rw kept (rw kept (find-keep xs))
  ]

module _ (pf : Platform) (ar : Arithmetic pf) (sv : Server pf) where
  -- After a logout with a session cookie, if no statement fails, the reply is a success without data
  -- whose cookie is empty and has the MaxAge -1, which deletes it, and the token has no session any
  -- more: it is a stranger's.
  pub serve-logout :
      (a : Arrival pf) (st : State pf) (token : String)
      → str_eq a.request.method "OPTIONS" ≡ false
      → a.endpoint ≡ some Endpoint.logout
      → a.request.cookie ≡ some token
      → str_eq token "" ≡ false
      → a.faults ≡ []
      → ((serve pf ar sv a st).0.answer
          ≡ replied (record {
            response = envelope 0 "" no_content;
            cookie = some (record { value = ""; max_age = negsuc 0; secure = sv.cookie_secure });
          }))
        × (find (λ (s : Session). str_eq s.token token) (serve pf ar sv a st).1.db.sessions ≡ none)
  unfolding render_data serve chain handle guard_of recovered Handlers.logout Auth.logout
      delete_session
  serve-logout a st token m here cookie some_token calm =
      rw (m, here, cookie, some_token, calm)
        (refl, find-keep (λ (s : Session). str_eq s.token token) st.db.sessions)
