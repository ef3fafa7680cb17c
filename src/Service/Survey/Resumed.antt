-- ===== src/Service/Survey/Resumed.antt =====
-- internal/service/survey/survey.go while requests overlap: a call first reads its survey (owned), and
-- what it does then is another step, which may find other tables.
use wenjuandiaocha_backend.Base.{String}
use wenjuandiaocha_backend.Platform.{Platform}
use wenjuandiaocha_backend.Dao.Tables.{SurveyMeta}
use wenjuandiaocha_backend.Dao.Exec.{World}
use wenjuandiaocha_backend.Dao.Json.{Json}
use wenjuandiaocha_backend.Dao.Store.{set_answer_access, set_display_mode}
use wenjuandiaocha_backend.Service.Metadata.{Metadata}
use wenjuandiaocha_backend.Service.Survey.{
  update_owned, copy_owned, publish_owned, close_owned, reopen_owned,
}

-- The rest of a call, with its own arguments.
pub data Rest (pf : Platform) : Type 0 where
  updating : (body : pf.Raw) → Rest pf
  copying : (newid : String) → Rest pf
  publishing : Rest pf
  closing : Rest pf
  reopening : Rest pf
  setting_access : (access : String) → Rest pf
  setting_display : (mode : String) → Rest pf

-- The world after the rest, which goes on from the row that was read.
unfoldable pub resume :
    (pf : Platform) → Json pf → Metadata → Rest pf → SurveyMeta pf → World pf → World pf
resume pf js md (updating body) meta w = (update_owned pf js md body meta w).1
resume pf js md (copying newid) meta w = (copy_owned pf js md newid meta w).1
resume pf js md publishing meta w = (publish_owned pf js md meta w).1
resume pf js md closing meta w = (close_owned pf js md meta w).1
resume pf js md reopening meta w = (reopen_owned pf js md meta w).1
resume pf js md (setting_access access) meta w = (set_answer_access pf meta.survey_id access w).1
resume pf js md (setting_display mode) meta w = (set_display_mode pf meta.survey_id mode w).1
