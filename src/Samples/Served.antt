-- ===== src/Samples/Served.antt =====
-- The theorems on requests, the rate limit and the start of the process, at work on the sample world.
use wenjuandiaocha_backend.Base.{
  ℤ, pos, negsuc, false, str_eq, none, some, [], arith, ◌≡◌, refl, inr,
}
use wenjuandiaocha_backend.Ecode.Envelope.{Response, envelope, no_content}
use wenjuandiaocha_backend.Dao.Exec.{ok}
use wenjuandiaocha_backend.Dao.Store.{find, version_schema}
use wenjuandiaocha_backend.Dao.Sound.Lifecycle.{Steps}
use wenjuandiaocha_backend.Dao.Sound.{statuses, snapshot_keys, life, IsSound, Evolves}
use wenjuandiaocha_backend.Dao.Sound.Publications.{count_keys}
use wenjuandiaocha_backend.Base.{String, ◌<◌, ◌⊎◌, lookup}
use wenjuandiaocha_backend.Service.Submission.{get_published}
use wenjuandiaocha_backend.Service.Survey.{or_text}
use wenjuandiaocha_backend.Http.Messages.{Payload}
use wenjuandiaocha_backend.Http.Routes.{Endpoint, guard_of}
use wenjuandiaocha_backend.Http.Ratelimit.{allow}
use wenjuandiaocha_backend.Http.Ratelimit.Burst.{burst, burst-fresh}
use wenjuandiaocha_backend.Http.Ratelimit.Capacity.{IsWithin, allow-IsWithin}
use wenjuandiaocha_backend.Http.Handlers
use wenjuandiaocha_backend.Http.Serve.{client_info, State, Arrival, replied, serve}
use wenjuandiaocha_backend.Http.Serve.Guards.{IsRefusal, serve-IsRefusal}
use wenjuandiaocha_backend.Http.Serve.History.{Reach, started, served, Reach-Evolves}
use wenjuandiaocha_backend.Http.Serve.Lasting.{life-Reach, version_schema-Reach, get_published-Live}
use wenjuandiaocha_backend.Start.Seed.{Flags, seed, seed-keeps}
use wenjuandiaocha_backend.Service.Survey.Listing.{escape_like}
use wenjuandiaocha_backend.Service.Survey.Listing.Pattern.{literal_of, literal-escape_like}
use wenjuandiaocha_backend.Http.Serve.Told.{IsTold, asked, serve-IsTold}
use wenjuandiaocha_backend.Http.Serve.SignedOut.{serve-logout}
use wenjuandiaocha_backend.Service.Auth.{auth_user, login, validate_session}
use wenjuandiaocha_backend.Service.Auth.Sessions.{with_session, opened, validate_session-login}
use wenjuandiaocha_backend.Service.Submission.Accepted.{Accepted}
use wenjuandiaocha_backend.Dao.Tables.{User, Session, Db}
use wenjuandiaocha_backend.Samples.{
  sample_json, sample_registry, sample_answers, visitor, Doc, numbered_doc, sample_pf, sample_world,
  survey_row,
}
use wenjuandiaocha_backend.Samples.Server.{
  sample_ar, sample_server, sample_limiter, sample_state, asks, sample-IsSound, sample-IsExact,
  sample-IsOrdered,
}

-- Ann publishes her draft, and a visitor asks for a public page.
abbrev publishing : Arrival sample_pf
publishing = asks "POST" (some "t2") "s2" Endpoint.publish_survey

abbrev looking : Arrival sample_pf
looking = asks "GET" none "s1" Endpoint.get_public_survey

abbrev published_state : State sample_pf
published_state = (serve sample_pf sample_ar sample_server publishing sample_state).1

abbrev later_state : State sample_pf
later_state = (serve sample_pf sample_ar sample_server looking published_state).1

both : Reach sample_pf sample_ar sample_server sample_state later_state
both = served (served started publishing) looking

Reach_example : IsSound sample_pf later_state.db × Evolves sample_pf sample_state.db later_state.db
Reach_example =
    Reach-Evolves sample_pf sample_ar sample_server sample_state later_state sample-IsSound both

life_example :
    Steps (life sample_pf sample_state.db) (life sample_pf later_state.db)
    × ((id : String)
        → lookup id (statuses sample_pf sample_state.db) ≡ some "draft"
        → (lookup id (statuses sample_pf later_state.db) ≡ some "draft")
          ⊎ (count_keys id (snapshot_keys sample_pf sample_state.db.versions)
              < count_keys id (snapshot_keys sample_pf later_state.db.versions)))
life_example =
    life-Reach sample_pf sample_ar sample_server sample_state later_state sample-IsSound both

version_schema_example :
    version_schema sample_pf "s1" (pos 1) later_state.db.versions ≡ some numbered_doc
version_schema_example =
    version_schema-Reach sample_pf sample_ar sample_server sample_state later_state "s1" (pos 1)
      numbered_doc sample-IsSound both refl

get_published_example :
    (v : ℤ) × (doc : Doc) × (some (pos 1) ≡ some v)
    × (version_schema sample_pf "s1" v sample_world.db.versions ≡ some doc)
    × (get_published sample_pf "s1" (record { db = sample_world.db; now = 50; faults = [] }) ≡ (
      ok (record {
        schema = doc;
        answer_access = or_text "anonymous" "anonymous";
        display_mode = or_text "single" "single";
      }),
      record { db = sample_world.db; now = 50; faults = [] },
    ))
get_published_example =
    get_published-Live sample_pf "s1" sample_world.db 50
      (survey_row "s1" "u2" "live" (some (pos 1))) sample-IsSound refl refl

-- A cookie that no session has.
abbrev stranger : Arrival sample_pf
stranger = asks "POST" (some "t7") "s1" Endpoint.close_survey

IsRefusal-example :
    (response : Response (Payload sample_pf)) × ((serve sample_pf sample_ar sample_server stranger
        sample_state).0.answer
      ≡ replied (Handlers.plain sample_pf response))
    × IsRefusal sample_pf response
    × ((serve sample_pf sample_ar sample_server stranger sample_state).1.db ≡ sample_state.db)
unfolding guard_of
IsRefusal-example =
    serve-IsRefusal sample_pf sample_ar sample_server stranger sample_state Endpoint.close_survey
      "survey:close" refl refl refl (inr refl)

burst_example : (burst sample_pf sample_ar 12 "10.0.0.1" 50 sample_limiter).0 ≡ 10
burst_example =
    burst-fresh sample_pf sample_ar 10 12 50 "10.0.0.1" sample_limiter (sample-IsExact 10 (pos 1))
      (omega arith) refl refl

IsWithin-example :
    IsWithin sample_pf sample_ar (allow sample_pf sample_ar "10.0.0.1" 50 sample_limiter).1
IsWithin-example =
    allow-IsWithin sample_pf sample_ar "10.0.0.1" 50 sample_limiter sample-IsOrdered tt

escape_like_example : literal_of false (escape_like "50%") ≡ some "50%"
escape_like_example = literal-escape_like "50%"

abbrev ann_flags : Flags
ann_flags = record {
  account = "ann";
  name = "Ann";
  role = "admin";
  suffix = "00";
  hash = some "h3";
}

seed_example : (seed sample_pf ann_flags sample_world).1.db ≡ sample_world.db
seed_example = seed-keeps sample_pf ann_flags sample_world refl

-- A sheet for the live survey, a logout of Ann, and her login.
abbrev answering : Arrival sample_pf
answering = asks "POST" none "s1" Endpoint.submit_answers

IsTold-example :
    IsTold sample_pf
      (Accepted sample_pf sample_json sample_registry
        (client_info sample_pf answering.request)
        "p1"
        (asked sample_pf sample_ar sample_server answering (sample_answers, pos 0))
        sample_state.db)
      sample_state.db
      (serve sample_pf sample_ar sample_server answering sample_state).0.answer
      (serve sample_pf sample_ar sample_server answering sample_state).1.db
IsTold-example =
    serve-IsTold sample_pf sample_ar sample_server answering sample_state (sample_answers, pos 0)
      refl refl refl

abbrev leaving : Arrival sample_pf
leaving = asks "POST" (some "t2") "" Endpoint.logout

logout_example :
    ((serve sample_pf sample_ar sample_server leaving sample_state).0.answer
      ≡ replied (record {
        response = envelope 0 "" no_content;
        cookie = some (record { value = ""; max_age = negsuc 0; secure = false });
      }))
    × (find
          (λ (s : Session). str_eq s.token "t2")
          (serve sample_pf sample_ar sample_server leaving sample_state).1.db.sessions
        ≡ none)
logout_example =
    serve-logout sample_pf sample_ar sample_server leaving sample_state "t2" refl refl refl refl
      refl

abbrev ann_user : User
ann_user = record {
  user_id = "u2";
  account = "ann";
  password_hash = "h2";
  name = "Ann";
  role = "creator";
}

abbrev ann_in : Db sample_pf
ann_in =
    with_session sample_pf 60 str_eq (opened sample_pf 60 str_eq ann_user "t9" 50) sample_world.db

validate_session_example :
    (login sample_pf 60 str_eq
        (some "t9")
        "ann"
        "h2"
        (record { db = sample_world.db; now = 50; faults = [] })
      ≡ (
        ok (record { user = auth_user ann_user; token = "t9"; expires = 110 }),
        record { db = ann_in; now = 50; faults = [] },
      ))
    × (validate_session sample_pf
          (record visitor { token = "t9" })
          (record { db = ann_in; now = 100; faults = [] })
        ≡ (ok ("u2", "creator"), record { db = ann_in; now = 100; faults = [] }))
validate_session_example =
    validate_session-login sample_pf 60 str_eq visitor sample_world.db ann_user "ann" "h2" "t9" 50
      100 refl refl refl refl refl refl
