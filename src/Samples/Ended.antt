-- ===== src/Samples/Ended.antt =====
-- The theorems on how calls and processes end, and on what is made up, at work on the samples.
use wenjuandiaocha_backend.Base.{pos, true, false, codes, some, ◌≡◌, refl, ◌⊎◌, arith}
use wenjuandiaocha_backend.Domain.Schema.{SurveySchema}
use wenjuandiaocha_backend.Dao.Tables.{SurveyMeta}
use wenjuandiaocha_backend.Dao.Exec.Laws.{AllOrNothing}
use wenjuandiaocha_backend.Dao.Exec.Ends.{Ends}
use wenjuandiaocha_backend.Service.Survey.{create, copy, publish}
use wenjuandiaocha_backend.Service.Survey.Lifecycle.{MayEdit}
use wenjuandiaocha_backend.Service.Survey.Drafted.{
  Drafted, create-Drafted, copy-Drafted, AsksFor, IsCreated, IsCopied, OrElse,
}
use wenjuandiaocha_backend.Service.Returns.Publishing.{HasNullDraft, publish-Ends}
use wenjuandiaocha_backend.Http.Routes.{Endpoint}
use wenjuandiaocha_backend.Http.Serve.{Arrival, serve}
use wenjuandiaocha_backend.Http.Serve.Answered.{PublishesNull, IsAnswered, serve-IsAnswered}
use wenjuandiaocha_backend.Qtype.Format.{is_valid_idcard}
use wenjuandiaocha_backend.Qtype.Format.Idcard.{is_valid_idcard-Detects}
use wenjuandiaocha_backend.Start.Config.{Config}
use wenjuandiaocha_backend.Start.Boot.{Outside, CannotStart, GivesUp, Serves, main, main-Ends}
use wenjuandiaocha_backend.Base.{String}
use wenjuandiaocha_backend.Samples.{
  survey_doc, ann, sample_pf, sample_json, sample_world, schema_in,
}
use wenjuandiaocha_backend.Samples.Server.{sample_ar, sample_server, sample_state, asks}

-- Ann publishes her draft.
abbrev publishing : Arrival sample_pf
publishing = asks "POST" (some "t2") "s2" Endpoint.publish_survey

IsAnswered-example :
    IsAnswered sample_pf
      (PublishesNull sample_pf sample_server publishing.chance publishing.request
        publishing.endpoint sample_state.db)
      (serve sample_pf sample_ar sample_server publishing sample_state).0.answer
IsAnswered-example = serve-IsAnswered sample_pf sample_ar sample_server publishing sample_state

publish-Ends_example :
    Ends
      (HasNullDraft sample_pf sample_json ann "s2" sample_world.db)
      (publish sample_pf sample_json ann "s2" sample_world)
publish-Ends_example = publish-Ends sample_pf sample_json ann "s2" sample_world

create_example :
    AllOrNothing
      (λ id after.
        (schema s : SurveySchema sample_pf) × AsksFor sample_pf sample_json ann survey_doc schema
        × IsCreated sample_pf sample_json ann "n1" schema s
        × (id ≡ "n1")
        × Drafted sample_pf sample_json ann "n1" s "login_required" "single" sample_world.now
            sample_world.db after)
      sample_world.db
      (create sample_pf sample_json ann "n1" survey_doc sample_world)
create_example = create-Drafted sample_pf sample_json ann "n1" survey_doc sample_world

copy_example :
    AllOrNothing
      (λ given after.
        (source : SurveyMeta sample_pf) × (schema s : SurveySchema sample_pf) × (access
          display : String)
        × MayEdit sample_pf sample_json ann "s2" sample_world.db source
        × (schema_in source.draft_schema ≡ some schema)
        × IsCopied sample_pf sample_json ann "n1" schema s
        × OrElse sample_pf sample_json ann source.answer_access "anonymous" access
        × OrElse sample_pf sample_json ann source.display_mode "single" display
        × (given ≡ "n1")
        × Drafted sample_pf sample_json ann "n1" s access display sample_world.now sample_world.db
            after)
      sample_world.db
      (copy sample_pf sample_json ann "n1" "s2" sample_world)
copy_example = copy-Drafted sample_pf sample_json ann "n1" "s2" sample_world

idcard_example : is_valid_idcard "11010519491231102X" ≡ false
unfolding is_valid_idcard
idcard_example =
    is_valid_idcard-Detects "11010519491231002X" "11010519491231102X" (codes "11010519491231")
      (codes "02X") b'0' b'1' refl refl (omega arith) refl refl (λ e. absurd (omega arith)) refl

abbrev settings : Config
settings = record {
  database_url = "postgres://db";
  http_addr = ":8089";
  session_ttl = pos 604800000000000;
  cookie_secure = false;
}

abbrev all_well : Outside
all_well = record { makes_pool = true; answers = true; run_fails = false }

main_example :
    (CannotStart (some settings) all_well × GivesUp (main (some settings) all_well))
    ⊎ ((c : Config) × (some settings ≡ some c)
        × (all_well.makes_pool ≡ true)
        × (all_well.answers ≡ true)
        × Serves c all_well.run_fails (main (some settings) all_well))
main_example = main-Ends (some settings) all_well
