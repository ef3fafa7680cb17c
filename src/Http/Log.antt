-- ===== src/Http/Log.antt =====
-- internal/server/http/middleware/requestid and logger: the id of a request, and the access log.
use wenjuandiaocha_backend.Base.{ℕ, String, List, Option, none, some}
use wenjuandiaocha_backend.Platform.{Platform}
use wenjuandiaocha_backend.Ecode.Envelope.{Response, envelope, fail}
use wenjuandiaocha_backend.Dao.Exec.{Result, ok, err, panic}
use wenjuandiaocha_backend.Http.Messages.{Request, Payload, Reply}
use wenjuandiaocha_backend.Start.Hex.{hex}

-- New of requestid, over its eight random bytes.
unfoldable pub request_id : List ℕ → String
request_id bytes = hex bytes

-- A line of the access log.
pub record Entry : Type 0 where
  pub method : String
  pub path : String
  pub status : ℕ
  pub duration : String
  pub request_id : String

module _ (pf : Platform) where
  abbrev pub status_of : Response (Payload pf) → ℕ
  status_of (envelope code message _) = 200
  status_of (fail status message) = status

  -- New of logger: the line comes after c.Next, so that a handler that panics leaves none; the
  -- recovery in front of it writes its own.
  unfoldable pub access_log :
      Request pf → (path duration reqid : String) → Result (Reply pf) → Option Entry
  access_log req path duration reqid (ok reply) = some (record {
    method = req.method;
    path = path;
    status = status_of reply.response;
    duration = duration;
    request_id = reqid;
  })
  access_log req path duration reqid (err e) = none
  access_log req path duration reqid panic = none
