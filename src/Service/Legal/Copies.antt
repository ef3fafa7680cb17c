-- ===== src/Service/Legal/Copies.antt =====
-- internal/service/survey, the calls that read or add a survey: they keep the tables sound.
use wenjuandiaocha_backend.Base.{String, Option, none, some}
use wenjuandiaocha_backend.Platform.{Platform}
use wenjuandiaocha_backend.Domain.Schema.{SurveySchema}
use wenjuandiaocha_backend.Dao.Tables.{SurveyMeta}
use wenjuandiaocha_backend.Dao.Json.{Json}
use wenjuandiaocha_backend.Dao.Store.{count_responses}
use wenjuandiaocha_backend.Dao.Sound.{Legal-refl}
use wenjuandiaocha_backend.Dao.Sound.Calls.{Keeps, >>=-Keeps, Reads-Keeps, statement-Legal}
use wenjuandiaocha_backend.Dao.Sound.Statements.{create_survey-Keeps}
use wenjuandiaocha_backend.Service.Metadata.{Metadata}
use wenjuandiaocha_backend.Service.Survey.{
  owned, create, copy, get, stats, create_parsed, copy_parsed, parsed_body,
}
use wenjuandiaocha_backend.Service.Survey.Lifecycle.{MayEdit, owned-Reads}

module _ (pf : Platform) (js : Json pf) (md : Metadata) where
  owned-Keeps : (id : String) → Keeps (owned pf js md id)
  unfolding Keeps
  owned-Keeps id = Reads-Keeps (MayEdit pf js md id) (owned pf js md id) (owned-Reads pf js md id)

  pub get-Keeps : (id : String) → Keeps (get pf js md id)
  unfolding get Keeps
  get-Keeps id = >>=-Keeps (owned pf js md id) _ (owned-Keeps id) (λ s w. Legal-refl pf w.db)

  create_parsed-Keeps :
      (newid : String) (o : Option (SurveySchema pf)) → Keeps (create_parsed pf js md newid o)
  unfolding Keeps
  create_parsed-Keeps newid none = λ w. Legal-refl pf w.db
  create_parsed-Keeps newid (some schema) =
      >>=-Keeps _ _ (create_survey-Keeps pf js newid md.user_id _ _ _ "login_required" "single")
        (λ _ w. Legal-refl pf w.db)

  pub create-Keeps : (newid : String) (body : pf.Raw) → Keeps (create pf js md newid body)
  unfolding create Keeps
  create-Keeps newid body = create_parsed-Keeps newid (parsed_body pf js md body)

  pub copy_parsed-Keeps :
      (newid : String) (s : SurveyMeta pf) (o : Option (SurveySchema pf))
      → Keeps (copy_parsed pf js md newid s o)
  unfolding Keeps
  copy_parsed-Keeps newid s none = λ w. Legal-refl pf w.db
  copy_parsed-Keeps newid s (some schema) =
      >>=-Keeps _ _ (create_survey-Keeps pf js newid md.user_id _ _ _ _ _)
        (λ _ w. Legal-refl pf w.db)

  pub copy-Keeps : (newid id : String) → Keeps (copy pf js md newid id)
  unfolding copy Keeps
  copy-Keeps newid id =
      >>=-Keeps (owned pf js md id) _ (owned-Keeps id)
        (λ s. copy_parsed-Keeps newid s (js.unmarshal_schema s.draft_schema))

  pub stats-Keeps : (id : String) → Keeps (stats pf js md id)
  unfolding stats count_responses Keeps
  stats-Keeps id = >>=-Keeps (owned pf js md id) _ (owned-Keeps id) (λ s.
      >>=-Keeps (count_responses pf s.survey_id) _ (λ w. statement-Legal _ w (Legal-refl pf w.db))
        (λ n w. Legal-refl pf w.db))
