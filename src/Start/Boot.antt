-- ===== src/Start/Boot.antt =====
-- cmd/server/main.go over internal/di, with New of internal/dao/dao.go, and the frame of
-- cmd/seed/main.go: how the processes start and end, and what becomes of their pools.
use wenjuandiaocha_backend.Base.{
  ℕ, ℤ, Bool, true, false, String, Option, none, some, List, [], ◌∷◌, ◌++◌, if◌then◌else◌, ◌&&◌,
  ◌≡◌, refl, inl, inr, ◌⊎◌, Bool-cases, arith,
}
use wenjuandiaocha_backend.Start.Config.{Config}
use wenjuandiaocha_backend.Start.Seed.{Outcome, skipped, made, failed}

-- What the server takes from the configuration: Addr, the life of sessions, and the cookie's flag.
pub record App : Type 0 where
  pub addr : String
  pub session_ttl : ℤ
  pub cookie_secure : Bool

-- What a process does outside its functions: it registers the question types (RegisterAll, which
-- Qtype/Register models), opens and closes a pool of connections, listens, and exits early with a
-- status.
pub data Event : Type 0 where
  registered opened closed : Event
  listening : App → Event
  exited : ℕ → Event

-- What pgx and gin do: whether a pool is made, whether it answers the ping, and whether Run ends with
-- an error.
pub record Outside : Type 0 where
  pub makes_pool : Bool
  pub answers : Bool
  pub run_fails : Bool

-- New of internal/dao: what happens, and the cleanup of the store if there is one. A pool that does
-- not answer is closed.
abbrev pub new_store : (makes_pool answers : Bool) → List Event × Option (List Event)
new_store false answers = ([], none)
new_store true false = (opened ∷ closed ∷ [], none)
new_store true true = (opened ∷ [], some (closed ∷ []))

abbrev pub provide_session_ttl : Config → ℤ
provide_session_ttl cfg = cfg.session_ttl

abbrev pub new_server : Config → App
new_server cfg = record {
  addr = cfg.http_addr;
  session_ttl = provide_session_ttl cfg;
  cookie_secure = cfg.cookie_secure;
}

abbrev pub injected :
    Config → List Event × Option (List Event) → List Event × Option (App × List Event)
injected cfg (events, none) = (events, none)
injected cfg (events, some cleanup) = (events, some (new_server cfg, cleanup))

-- InitServer, of what config.Load gives.
unfoldable pub init_server : Option Config → Outside → List Event × Option (App × List Event)
init_server none out = ([], none)
init_server (some cfg) out = injected cfg (new_store out.makes_pool out.answers)

-- os.Exit runs no deferred call, so that the pool is closed only if Run returns without an error.
abbrev pub after_init : Bool → List Event × Option (App × List Event) → List Event
after_init run_fails (events, none) = events ++ (exited 1 ∷ [])
after_init run_fails (events, some (app, cleanup)) =
    events ++ (listening app ∷ (if run_fails then exited 1 ∷ [] else cleanup))

unfoldable pub main : Option Config → Outside → List Event
unfolding init_server
main cfg out = registered ∷ after_init out.run_fails (init_server cfg out)

-- The end of the tool, by what it did.
abbrev pub seed_ends : Outcome → List Event → List Event
seed_ends skipped cleanup = cleanup
seed_ends made cleanup = cleanup
seed_ends failed cleanup = exited 1 ∷ []

abbrev pub seed_with : Outcome → List Event × Option (List Event) → List Event
seed_with outcome (events, none) = events ++ (exited 1 ∷ [])
seed_with outcome (events, some cleanup) = events ++ seed_ends outcome cleanup

unfoldable pub seed_main : Option Config → Outside → Outcome → List Event
seed_main none out outcome = exited 1 ∷ []
seed_main (some cfg) out outcome = seed_with outcome (new_store out.makes_pool out.answers)

-- A pool is open after the events.
abbrev pub is_open : Bool → List Event → Bool
is_open now [] = now
is_open now (registered ∷ es) = is_open now es
is_open now (opened ∷ es) = is_open true es
is_open now (closed ∷ es) = is_open false es
is_open now (listening app ∷ es) = is_open now es
is_open now (exited status ∷ es) = is_open now es

-- The server that listened while the question types were registered and a pool was open.
abbrev pub served : (types pool : Bool) → List Event → Option App
served types pool [] = none
served types pool (registered ∷ es) = served true pool es
served types pool (opened ∷ es) = served types true es
served types pool (closed ∷ es) = served types false es
served types pool (listening app ∷ es) = if types && pool then some app else none
served types pool (exited status ∷ es) = none

-- os.Exit with a status, or the end of main with 0.
abbrev pub exit_status : List Event → ℕ
exit_status [] = 0
exit_status (registered ∷ es) = exit_status es
exit_status (opened ∷ es) = exit_status es
exit_status (closed ∷ es) = exit_status es
exit_status (listening app ∷ es) = exit_status es
exit_status (exited status ∷ es) = status

-- The process could not start.
abbrev pub CannotStart : Option Config → Outside → Type 0
CannotStart cfg out = (cfg ≡ none) ⊎ (out.makes_pool ≡ false) ⊎ (out.answers ≡ false)

abbrev pub GivesUp : List Event → Type 0
GivesUp es = (served false false es ≡ none) × (exit_status es ≡ 1) × (is_open false es ≡ false)

abbrev pub Serves : Config → Bool → List Event → Type 0
Serves c run_fails es =
    (served false false es
      ≡ some (record {
        addr = c.http_addr;
        session_ttl = c.session_ttl;
        cookie_secure = c.cookie_secure;
      }))
    × (exit_status es ≡ (if run_fails then 1 else 0))
    × (is_open false es ≡ run_fails)

-- The process either does not serve: then the configuration is missing, or no pool is made or it
-- does not answer; the process exits with 1 and leaves no pool open. Or all three are there: then it
-- serves with the question types registered, over an open pool, with the address, the life of
-- sessions and the cookie's flag of the configuration; and if that ends without an error, the pool
-- is closed and the status is 0, else the status is 1 and the pool is left to the end of the process.
pub main-Ends :
    (cfg : Option Config) (out : Outside)
    → (CannotStart cfg out × GivesUp (main cfg out))
      ⊎ ((c : Config) × (cfg ≡ some c)
          × (out.makes_pool ≡ true)
          × (out.answers ≡ true)
          × Serves c out.run_fails (main cfg out))
unfolding main
main-Ends none out = inl (inl refl, (refl, refl, refl))
main-Ends (some c) out = elim (Bool-cases out.makes_pool) [
  | inr no_pool ↦ rw no_pool (inl (inr (inl refl), (refl, refl, refl)))
  | inl pool ↦ elim (Bool-cases out.answers) [
    | inr silent ↦ rw (pool, silent) (inl (inr (inr refl), (refl, refl, refl)))
    | inl up ↦ elim (Bool-cases out.run_fails) [
      | inl broke ↦ rw (pool, up, broke) (inr (c, refl, refl, refl, (refl, refl, refl)))
      | inr done ↦ rw (pool, up, done) (inr (c, refl, refl, refl, (refl, refl, refl)))
    ]
  ]
]

seed_with-closes :
    (makes_pool answers : Bool) (outcome : Outcome)
    → exit_status (seed_with outcome (new_store makes_pool answers)) ≡ 0
    → is_open false (seed_with outcome (new_store makes_pool answers)) ≡ false
seed_with-closes false answers outcome h = refl
seed_with-closes true false outcome h = refl
seed_with-closes true true skipped h = refl
seed_with-closes true true made h = refl
seed_with-closes true true failed h = absurd (omega arith)

-- The tool leaves no pool open, unless it exits with 1.
seed_main-closes :
    (cfg : Option Config) (out : Outside) (outcome : Outcome)
    → exit_status (seed_main cfg out outcome) ≡ 0
    → is_open false (seed_main cfg out outcome) ≡ false
unfolding seed_main
seed_main-closes none out outcome h = refl
seed_main-closes (some c) out outcome h = seed_with-closes out.makes_pool out.answers outcome h
