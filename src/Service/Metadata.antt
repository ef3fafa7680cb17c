-- ===== src/Service/Metadata.antt =====
-- internal/lib/metadata/metadata.go: what the transport knows of the caller. An empty user is none.
use wenjuandiaocha_backend.Base.{String}

pub record Metadata : Type 0 where
  pub user_id : String
  pub role : String
  pub token : String
  pub client_ip : String
  pub user_agent : String

-- From of a context that holds none.
abbrev pub anonymous : Metadata
anonymous = record { user_id = ""; role = ""; token = ""; client_ip = ""; user_agent = "" }
