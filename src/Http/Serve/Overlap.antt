-- ===== src/Http/Serve/Overlap.antt =====
-- What the tables go through while requests overlap. A call of the studio reads its survey in one
-- step and goes on in another, with any steps of other requests between; a statement and a
-- transaction are one step each.
use wenjuandiaocha_backend.Base.{ℕ, ℤ, Bool, String, Option, List, ◌≡◌, ap}
use wenjuandiaocha_backend.Platform.{Platform}
use wenjuandiaocha_backend.Domain.Schema.{NormalizedRow}
use wenjuandiaocha_backend.Dao.Tables.{SurveyMeta, Session}
use wenjuandiaocha_backend.Dao.Exec.{World, ok}
use wenjuandiaocha_backend.Dao.Exec.Reads.{Reads-ok}
use wenjuandiaocha_backend.Dao.Store.{create_session}
use wenjuandiaocha_backend.Dao.Submission.{save_submission}
use wenjuandiaocha_backend.Dao.Sound.{IsSound}
use wenjuandiaocha_backend.Dao.Sound.Calls.{Keeps}
use wenjuandiaocha_backend.Dao.Sound.Statements.{save_submission-Keeps, create_session-Keeps}
use wenjuandiaocha_backend.Dao.Sound.Persists.{
  Persists, Tolerable, Tolerable-refl, Tolerable-trans, Legal-Tolerable, find_survey-Persists,
}
use wenjuandiaocha_backend.Service.Metadata.{Metadata}
use wenjuandiaocha_backend.Service.Middleware.{require_auth}
use wenjuandiaocha_backend.Service.Survey.{owned}
use wenjuandiaocha_backend.Service.Survey.Lifecycle.{MayEdit, owned-Reads}
use wenjuandiaocha_backend.Service.Survey.Resumed.{Rest, resume}
use wenjuandiaocha_backend.Service.Legal.Surveys.{found_again}
use wenjuandiaocha_backend.Service.Legal.Late.{resume-Tolerable}
use wenjuandiaocha_backend.Http.Messages.{Request, Server, Chance}
use wenjuandiaocha_backend.Http.Routes.{Endpoint}
use wenjuandiaocha_backend.Http.Ratelimit.{Arithmetic}
use wenjuandiaocha_backend.Start.Seed.{Flags}
use wenjuandiaocha_backend.Http.Serve.{State, Arrival, serve, handle}
use wenjuandiaocha_backend.Http.Serve.Handled.{require_auth-Keeps, handle-Keeps}
use wenjuandiaocha_backend.Http.Serve.History.{with_account, serve-Legal, seed-Legal}

module _ (pf : Platform) where
  -- The tables of a state, seen by a step at a time.
  abbrev pub seen : State pf → ℕ → List Bool → World pf
  seen st now faults = record { db = st.db; now = now; faults = faults }

  -- The state after a step.
  abbrev pub left_by : State pf → World pf → State pf
  left_by st w = record st { db = w.db }

module _ (pf : Platform) (ar : Arithmetic pf) (sv : Server pf) where
  -- The ways of the tables: requests that nothing interrupts, accounts that are seeded, the check of
  -- a session (RequireAuth), a handler for any caller, the start of a session (Login after its
  -- read), the transaction that saves a sheet (Submit after its reads), and the rest of a call of
  -- the studio, which goes on from a row that it read at an earlier state.
  pub data Overlap : State pf → State pf → Type 0 where
    begun : {s : State pf} → Overlap s s
    served : {s t : State pf} → Overlap s t → (a : Arrival pf) → Overlap s (serve pf ar sv a t).1
    seeded :
        {s t : State pf}
        → Overlap s t
        → (f : Flags) → (now : ℕ) → (faults : List Bool)
        → Overlap s (with_account pf ar sv f now faults t)
    checked :
        {s t : State pf}
        → Overlap s t
        → (action : String) → (cookie : Option String) → (md : Metadata) → (now : ℕ)
        → (faults : List Bool)
        → Overlap s (left_by pf t (require_auth pf action cookie md (seen pf t now faults)).1)
    handled :
        {s t : State pf}
        → Overlap s t
        → (ch : Chance) → (req : Request pf) → (e : Endpoint) → (allowed : Bool) → (md : Metadata)
        → (now : ℕ) → (faults : List Bool)
        → Overlap s (left_by pf t (handle pf sv ch req e allowed md (seen pf t now faults)).1)
    opened :
        {s t : State pf}
        → Overlap s t
        → (session : Session) → (now : ℕ) → (faults : List Bool)
        → Overlap s (left_by pf t (create_session pf session (seen pf t now faults)).1)
    saved :
        {s t : State pf}
        → Overlap s t
        → (resp_id survey_id : String) → (v : ℤ) → (raw meta : pf.Raw)
        → (rows : List (NormalizedRow pf)) → (now : ℕ) → (faults : List Bool)
        → Overlap s (
            left_by pf t
              (save_submission pf sv.json resp_id survey_id v raw meta rows
                (seen pf t now faults)).1)
    resumed :
        {s t u : State pf}
        → Overlap s t
        → (md : Metadata) → (id : String) → (now : ℕ) → (faults : List Bool)
        → (meta : SurveyMeta pf) → (owned pf sv.json md id (seen pf t now faults)).0 ≡ ok meta
        → Overlap t u
        → (r : Rest pf) → (later : ℕ) → (more : List Bool)
        → Overlap s (left_by pf u (resume pf sv.json md r meta (seen pf u later more)))

  resumed-Tolerable :
      (t u : State pf) (md : Metadata) (id : String) (now : ℕ) (faults : List Bool)
      (meta : SurveyMeta pf) (r : Rest pf) (w : World pf)
      → (owned pf sv.json md id (seen pf t now faults)).0 ≡ ok meta
      → Tolerable pf t.db w.db
      → Tolerable pf t.db (resume pf sv.json md r meta w).db
  resumed-Tolerable t u md id now faults meta r w read between sound =
      let before = seen pf t now faults in
      let (may, same, clock) =
        Reads-ok (MayEdit pf sv.json md id) (owned pf sv.json md id) before
          (owned-Reads pf sv.json md id) (ap (λ x. (x, (owned pf sv.json md id before).1)) read) in
      let (now_sound, kept) = between sound in
      let (row, found, p) =
        find_survey-Persists pf meta.survey_id t.db.surveys w.db.surveys meta kept.surveys
          (found_again pf id t.db.surveys meta may.0) in
      Tolerable-trans pf t.db w.db _ between (resume-Tolerable pf sv.json md meta row w found p r)
        sound

  Overlap-Tolerable : (s t : State pf) → Overlap s t → Tolerable pf s.db t.db
  unfolding Keeps
  Overlap-Tolerable s t begun = Tolerable-refl pf s.db
  Overlap-Tolerable s t (served {t = m} h a) =
      Tolerable-trans pf s.db m.db _ (Overlap-Tolerable s m h)
        (Legal-Tolerable pf m.db _ (serve-Legal pf ar sv a m))
  Overlap-Tolerable s t (seeded {t = m} h f now faults) =
      Tolerable-trans pf s.db m.db _ (Overlap-Tolerable s m h)
        (Legal-Tolerable pf m.db _ (seed-Legal pf ar sv f now faults m))
  Overlap-Tolerable s t (checked {t = m} h action cookie md now faults) =
      Tolerable-trans pf s.db m.db _ (Overlap-Tolerable s m h)
        (Legal-Tolerable pf m.db _ (require_auth-Keeps pf action cookie md (seen pf m now faults)))
  Overlap-Tolerable s t (handled {t = m} h ch req e allowed md now faults) =
      Tolerable-trans pf s.db m.db _ (Overlap-Tolerable s m h)
        (Legal-Tolerable pf m.db _ (handle-Keeps pf sv ch req e allowed md (seen pf m now faults)))
  Overlap-Tolerable s t (opened {t = m} h session now faults) =
      Tolerable-trans pf s.db m.db _ (Overlap-Tolerable s m h)
        (Legal-Tolerable pf m.db _ (create_session-Keeps pf session (seen pf m now faults)))
  Overlap-Tolerable s t (saved {t = m} h resp_id survey_id v raw meta rows now faults) =
      Tolerable-trans pf s.db m.db _ (Overlap-Tolerable s m h) (
        Legal-Tolerable pf m.db _ (
          save_submission-Keeps pf sv.json resp_id survey_id v raw meta rows
            (seen pf m now faults)))
  Overlap-Tolerable s t
        (resumed {t = m} {u = u} h md id now faults meta read between r later more) =
      Tolerable-trans pf s.db m.db _ (Overlap-Tolerable s m h) (
        resumed-Tolerable m u md id now faults meta r (seen pf u later more) read
          (Overlap-Tolerable m u between))

  -- Requests may overlap: between the check of its session and its handler, between the row that a
  -- call of the studio reads and what the call does on from it, and before the last write of a login
  -- or a submission, any steps of other requests may come, each statement and each transaction being
  -- one step, and so may accounts that are seeded. From sound tables (distinct ids of surveys and
  -- numbers of a survey's snapshots, a live survey points at a snapshot, a pointer has its snapshot,
  -- a status is one of the three, an answer row has its sheet and holds a text or a number, one of
  -- the two) any such course leads to sound tables. A survey of the start is still there with its id
  -- and owner, is no draft unless it was one then, and is published if it was; the statuses have
  -- changed by steps of the lifecycle only; and snapshots, sheets and answer rows are the same with
  -- others behind them.
  pub Overlap-Persists :
      (start st : State pf)
      → IsSound pf start.db
      → Overlap start st
      → IsSound pf st.db × Persists pf start.db st.db
  Overlap-Persists start st sound course = Overlap-Tolerable start st course sound
