-- ===== src/Dao/Json.antt =====
-- encoding/json over whole documents, and what Postgres does to a JSONB column: outside the source.
use wenjuandiaocha_backend.Base.{Bool, String, Option, List}
use wenjuandiaocha_backend.Platform.{Platform}
use wenjuandiaocha_backend.Domain.Value.{Value}
use wenjuandiaocha_backend.Domain.Schema.{SurveySchema, Answers}

-- An object document: json.Unmarshal into map[string]any gives a nil map for the text `null`.
pub data Object (pf : Platform) : Type 0 where
  nil_map : Object pf
  entries : List (String × Value pf.F) → Object pf

pub record Json (pf : Platform) : Type 0 where
  -- json.Unmarshal into a SurveySchema; `none` is an error.
  pub unmarshal_schema : pf.Raw → Option (SurveySchema pf)
  pub marshal_schema : SurveySchema pf → pf.Raw
  pub unmarshal_object : pf.Raw → Option (Object pf)
  pub marshal_object : List (String × Value pf.F) → pf.Raw
  -- json.Marshal of the submitted answers, and of the client's address and agent.
  pub marshal_answers : Answers pf → pf.Raw
  pub marshal_meta : (ip user_agent : String) → pf.Raw
  -- A text stored as JSONB and read back; `none` where Postgres refuses it.
  pub jsonb : pf.Raw → Option pf.Raw
  -- reflect.DeepEqual of two maps.
  pub deep_equal : List (String × Value pf.F) → List (String × Value pf.F) → Bool
