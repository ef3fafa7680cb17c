-- ===== src/Lib.antt =====
-- The questionnaire back end: surveys with question types and logic rules, their publication as
-- numbered snapshots, and the answer sheets that are checked against a snapshot and stored as rows.
--
-- A request comes through the router (internal/server/http), which lets a guarded route run only for
-- a live session whose role may do the route's action. The services (internal/service) hold the
-- rules of the studio and of submission, the core (internal/domain) checks and normalises answers,
-- and the data access (internal/dao) runs SQL statements and two transactions. Errors that a caller
-- may see are codes of internal/ecode, which the envelope of internal/server/http/render carries.
--
-- Which file models what:
--   Regex            regular expressions of Go's package regexp, by derivatives, with their language
--   Platform         float64 and the decoding of props, parameters of the model
--   Domain/Status    internal/domain/status.go
--   Domain/Value     values of type any that encoding/json gives, Go maps and slices
--   Domain/Schema    internal/domain/schema.go
--   Domain/Logic     internal/domain/logic.go: isAnswered, pickComparable, evalCondition, Evaluate
--   Domain/Registry  internal/domain/registry.go
--   Domain/Validate  internal/domain/validate.go: ValidateSurvey
--   Domain/Normalize internal/domain/normalize.go: NormalizeSurvey
--   Qtype            internal/domain/qtype: one file for each group of question types, Format for
--                    textformat.go and provinces.go, Register for RegisterAll
--   Ecode            internal/ecode/ecode.go, with internal/server/http/render/render.go as Envelope
--   Rbac             internal/rbac/rbac.go
--   Dao/Tables       the rows of db/migrations/001_init.sql
--   Dao/Exec         how statements and transactions run
--   Dao/Gen          internal/dao/gen: the queries that sqlc generates from internal/dao/queries
--   Dao/Store        internal/dao/methods.go
--   Dao/Sound        what always holds of the tables, and how they may change
--   Dao/Submission   internal/dao/dao.go, SaveSubmission
--   Dao/Publish      internal/dao/dao.go, Publish, schemaEqualIgnoringVersion, stampVersion
--   Service          internal/service, lib/metadata, and RequireAuth of
--                    internal/server/http/middleware/auth/auth.go as Service/Middleware
--   Service/Legal    the service calls against Dao/Sound, with Late for calls that overlap
--   Service/Returns  how the service calls end: a value, an error with its code, or a panic
--   Http             internal/server/http: Messages for requests and replies, Routes, Handlers for
--                    auth.go, public.go and surveys.go, Ratelimit for internal/lib/ratelimit, Log for
--                    middleware/requestid and middleware/logger, and Serve for the way of a request
--                    through the middleware
--   Start            Config for internal/config/config.go, Ids for internal/lib/id/id.go, Hex for the
--                    ids of requests and files, Seed for cmd/seed/main.go, and Boot for
--                    cmd/server/main.go with internal/di
--   Samples          a small world, runs of the model, and each theorem at work on it
--
-- State. The database is a record of tables, each a list in the order of insertion. A call is a
-- function from a world to a result and a world, where the world holds the database, the time of the
-- request, and for each coming statement whether it fails at the driver. A result is a value, an
-- error or a panic. So every error path of a call is a run of the model, whatever statement fails.
-- A statement that a constraint of the tables forbids is an error of the driver. A transaction that
-- does not succeed puts the tables back.
--
-- Numbers. Integers are unbounded, with the conversions to int32 and the products of int64 written
-- out where the code has them. There is no fuel: every loop of the code runs over a list. A loop
-- over a Go map meets the entries in the order in which the model lists them.
--
-- A served process is a state, its tables and its rate limit, that each arrival of a request takes
-- to the next one; the arrival brings the request, the route that gin found or the redirect that it
-- answers with, the time, and the random texts. What holds after any sequence of requests is proved
-- by induction on it. Requests that overlap are courses of smaller steps (Http/Serve/Overlap): a
-- call of the studio reads a survey in one step, and its rest (Service/Survey/Resumed) is another,
-- on whatever tables it then finds.
--
-- Parameters: float64 and its printing, encoding/json and gin's binding of bodies, gin's router
-- with its redirects, the JSONB columns of Postgres, ILIKE, bcrypt, strconv.Atoi, the environment,
-- the random bytes of ids, and the session tokens of internal/lib/auth/auth.go, which the library
-- makes. Nothing is assumed of them, but for the rate limit, whose theorems name what they
-- need of float64 on small whole numbers, and of its order.
--
-- Not modelled: what two transactions do at the same time inside Postgres, since each is one step;
-- a life of sessions below zero; the json tags of api/io.go, since the decoding of bodies and the
-- printing of JSON are the library's; and the text of a line of the log.
pub mod Base
pub mod Regex
pub mod Platform
pub mod Domain
pub mod Qtype
pub mod Ecode
pub mod Rbac
pub mod Dao
pub mod Service
pub mod Http
pub mod Start
pub mod Samples
