-- ===== src/Http/Serve/History.antt =====
-- What the tables go through while the process serves requests.
use wenjuandiaocha_backend.Base.{
  Bool, true, false, String, str_eq, Option, none, some, if◌then◌else◌, ℕ, List,
}
use wenjuandiaocha_backend.Platform.{Platform}
use wenjuandiaocha_backend.Dao.Sound.{IsSound, Evolves, Legal, Legal-refl, Legal-trans}
use wenjuandiaocha_backend.Dao.Sound.Calls.{Keeps, continue-Legal}
use wenjuandiaocha_backend.Service.Middleware.{Verdict, answered, passed, require_auth}
use wenjuandiaocha_backend.Http.Messages.{Request, Server, Chance}
use wenjuandiaocha_backend.Http.Routes.{Endpoint, guard_of}
use wenjuandiaocha_backend.Http.Ratelimit.{Arithmetic}
use wenjuandiaocha_backend.Start.Seed.{Flags, seed, seed-Keeps}
use wenjuandiaocha_backend.Http.Serve.{
  Answer, client_info, after_verdict, behind, chain, State, Arrival, routed, serve,
}
use wenjuandiaocha_backend.Http.Serve.Handled.{handle-Keeps, require_auth-Keeps, recovered-Legal}

module _ (pf : Platform) (sv : Server pf) (ch : Chance) (req : Request pf) where
  after_verdict-Keeps :
      (e : Endpoint) (allowed : Bool) (v : Verdict) → Keeps (after_verdict pf sv ch req e allowed v)
  unfolding Keeps
  after_verdict-Keeps e allowed (answered response) = λ w. Legal-refl pf w.db
  after_verdict-Keeps e allowed (passed md) = λ w. handle-Keeps pf sv ch req e allowed md w

  behind-Keeps :
      (e : Endpoint) (allowed : Bool) (o : Option String) → Keeps (behind pf sv ch req e allowed o)
  unfolding Keeps
  behind-Keeps e allowed none = λ w. handle-Keeps pf sv ch req e allowed (client_info pf req) w
  behind-Keeps e allowed (some action) = λ w.
      continue-Legal w.db (after_verdict pf sv ch req e allowed)
        (require_auth pf action req.cookie (client_info pf req) w)
        (require_auth-Keeps pf action req.cookie (client_info pf req) w)
        (after_verdict-Keeps e allowed)

  chain-Keeps : (e : Endpoint) (allowed : Bool) → Keeps (chain pf sv ch req e allowed)
  unfolding chain
  chain-Keeps e allowed = behind-Keeps e allowed (guard_of e)

module _ (pf : Platform) (ar : Arithmetic pf) (sv : Server pf) where
  routed-Legal :
      (a : Arrival pf) (o : Option Endpoint) (st : State pf)
      → Legal pf st.db (routed pf ar sv a o st).1.db
  unfolding Keeps
  routed-Legal a none st = Legal-refl pf st.db
  routed-Legal a (some e) st = recovered-Legal pf st.db _ (
      chain-Keeps pf sv a.chance a.request e _
        (record { db = st.db; now = a.now; faults = a.faults }))

  options-Legal :
      (b : Bool) (st : State pf) (x y : Answer pf × State pf)
      → Legal pf st.db x.1.db
      → Legal pf st.db y.1.db
      → Legal pf st.db (if◌then◌else◌ {A = Answer pf × State pf} b x y).1.db
  options-Legal true st x y hx hy = hx
  options-Legal false st x y hx hy = hy

  pub serve-Legal : (a : Arrival pf) (st : State pf) → Legal pf st.db (serve pf ar sv a st).1.db
  unfolding serve
  serve-Legal a st =
      options-Legal (str_eq a.request.method "OPTIONS") st _ _ (Legal-refl pf st.db)
        (routed-Legal a a.endpoint st)

  -- One request, whatever it is and wherever a statement of it fails: if the tables were sound (the
  -- ids of surveys and the numbers of a survey's snapshots are distinct, a live survey points at a
  -- snapshot, a pointer has its snapshot, a status is one of the three, an answer row has its sheet
  -- and holds a text or a number, one of the two), they are so afterwards. No survey, snapshot,
  -- sheet or answer row has gone or, but for surveys, changed; a survey keeps its id and owner,
  -- never becomes a draft again, stays published, and has changed its document, title or type only
  -- if it was a draft.
  serve-Evolves :
      (a : Arrival pf) (st : State pf)
      → IsSound pf st.db
      → IsSound pf (serve pf ar sv a st).1.db × Evolves pf st.db (serve pf ar sv a st).1.db
  serve-Evolves a st sound = serve-Legal a st sound

  -- The tool cmd/seed at work on the tables.
  abbrev pub with_account : Flags → ℕ → List Bool → State pf → State pf
  with_account f now faults st = record st {
    db = (seed pf f (record { db = st.db; now = now; faults = faults })).1.db;
  }

  pub seed-Legal :
      (f : Flags) (now : ℕ) (faults : List Bool) (st : State pf)
      → Legal pf st.db (with_account f now faults st).db
  unfolding Keeps
  seed-Legal f now faults st = seed-Keeps pf f (record { db = st.db; now = now; faults = faults })

  -- The states that a process goes through from a start, by requests and by accounts that are seeded.
  pub data Reach (start : State pf) : State pf → Type 0 where
    started : Reach start start
    served :
        {st : State pf} → Reach start st → (a : Arrival pf) → Reach start (serve pf ar sv a st).1
    seeded :
        {st : State pf}
        → Reach start st
        → (f : Flags) → (now : ℕ) → (faults : List Bool)
        → Reach start (with_account f now faults st)

  Reach-Legal : (start st : State pf) → Reach start st → Legal pf start.db st.db
  Reach-Legal start st started = Legal-refl pf start.db
  Reach-Legal start st (served {st = before} h a) =
      Legal-trans pf start.db before.db (serve pf ar sv a before).1.db (Reach-Legal start before h)
        (serve-Legal a before)
  Reach-Legal start st (seeded {st = before} h f now faults) =
      Legal-trans pf start.db before.db (with_account f now faults before).db
        (Reach-Legal start before h) (seed-Legal f now faults before)

  -- Tables are sound if the ids of surveys and the numbers of a survey's snapshots are distinct, a
  -- live survey points at a snapshot, a pointer has its snapshot, a status is one of the three, and
  -- an answer row has its sheet and holds a text or a number, one of the two. From sound tables,
  -- any sequence of requests and of accounts that the tool cmd/seed makes leads to sound tables,
  -- and all that was published or answered is still there as it was: snapshots, sheets and answer
  -- rows are the same with others behind them. A survey of the start is still there with its id and
  -- owner, is no draft unless it was one then, is published if it was, and has the same document,
  -- title and type unless it was a draft.
  pub Reach-Evolves :
      (start st : State pf)
      → IsSound pf start.db
      → Reach start st
      → IsSound pf st.db × Evolves pf start.db st.db
  Reach-Evolves start st sound reach = Reach-Legal start st reach sound
