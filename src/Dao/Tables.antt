-- ===== src/Dao/Tables.antt =====
-- db/migrations/001_init.sql and internal/dao/gen/models.go: the rows of the tables.
use wenjuandiaocha_backend.Base.{ℕ, ℤ, String, Option, List}
use wenjuandiaocha_backend.Platform.{Platform}

pub record User : Type 0 where
  pub user_id : String
  pub account : String
  pub password_hash : String
  pub name : String
  pub role : String

pub record Session : Type 0 where
  pub token : String
  pub user_id : String
  pub expires_at : ℕ

-- A row of `surveys`, with the columns that GetSurvey and the lists read. The table keeps the order
-- of insertion, which is that of `created_at` and of the surrogate key.
pub record SurveyMeta (pf : Platform) : Type 0 where
  pub survey_id : String
  pub owner_id : String
  pub type : String
  pub title : String
  pub status : String
  pub draft_schema : pf.Raw
  pub published_version : Option ℤ
  pub answer_access : String
  pub display_mode : String
  pub updated_at : ℕ

pub record Version (pf : Platform) : Type 0 where
  pub survey_id : String
  pub version : ℤ
  pub schema : pf.Raw

pub record Response (pf : Platform) : Type 0 where
  pub response_id : String
  pub survey_id : String
  pub survey_version : ℤ
  pub raw : pf.Raw
  pub meta : pf.Raw

pub record AnswerRow (pf : Platform) : Type 0 where
  pub response_id : String
  pub survey_id : String
  pub survey_version : ℤ
  pub qid : String
  pub sub_id : Option String
  pub value_text : Option String
  pub value_num : Option pf.F

pub record Db (pf : Platform) : Type 0 where
  pub users : List User
  pub sessions : List Session
  pub surveys : List (SurveyMeta pf)
  pub versions : List (Version pf)
  pub responses : List (Response pf)
  pub answer_rows : List (AnswerRow pf)
