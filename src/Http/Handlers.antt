-- ===== src/Http/Handlers.antt =====
-- internal/server/http/{auth,public,surveys}.go: each handler binds, calls its service and renders.
use wenjuandiaocha_backend.Base.{
  ℕ, ℤ, pos, negsuc, Bool, not, String, str_eq, Option, none, some, if◌then◌else◌, ◌/◌, List,
}
use wenjuandiaocha_backend.Platform.{Platform}
use wenjuandiaocha_backend.Domain.Schema.{Answers}
use wenjuandiaocha_backend.Ecode.Envelope.{
  Response, result, no_content, fail, render_data, render_error,
}
use wenjuandiaocha_backend.Dao.Exec.{M, World, Result, ok, err, panic}
use wenjuandiaocha_backend.Service.Metadata.{Metadata}
use wenjuandiaocha_backend.Service.Auth
use wenjuandiaocha_backend.Service.Survey
use wenjuandiaocha_backend.Service.Survey.Listing
use wenjuandiaocha_backend.Service.Submission
use wenjuandiaocha_backend.Service.Submission.{SubmitReq}
use wenjuandiaocha_backend.Http.Messages.{Request, Payload, Cookie, Reply, Server, Chance}

module _ (pf : Platform) where
  abbrev pub plain : Response (Payload pf) → Reply pf
  plain response = record { response = response; cookie = none }

  abbrev pub failed : ℕ → String → Reply pf
  failed status message = plain (fail status message)

  -- render.JSON after a call: the data of a success, or the error.
  abbrev pub rendered :
      {A : Type 0} → (A → Reply pf) → Result A × World pf → Result (Reply pf) × World pf
  rendered success (ok a, w) = (ok (success a), w)
  rendered success (err e, w) = (ok (plain (render_error e)), w)
  rendered success (panic, w) = (panic, w)

  abbrev pub answer : {A : Type 0} → (A → Reply pf) → M pf A → M pf (Reply pf)
  answer success m w = rendered success (m w)

  abbrev pub with_data : {A : Type 0} → (A → Payload pf) → A → Reply pf
  with_data payload a = plain (render_data (result (payload a)))

  abbrev pub without_data : {A : Type 0} → A → Reply pf
  without_data a = plain (render_data no_content)

  -- render.Fail: no call was made.
  abbrev pub refuse : ℕ → String → M pf (Reply pf)
  refuse status message w = (ok (failed status message), w)

  module _ (sv : Server pf) (ch : Chance) (md : Metadata) (req : Request pf) where
    abbrev pub session_cookie : String → ℤ → Cookie
    session_cookie value max_age = record {
      value = value;
      max_age = max_age;
      secure = sv.cookie_secure;
    }

    -- int(s.cfg.SessionTTL.Seconds())
    unfoldable pub logged_in : Auth.LoginResp → Reply pf
    logged_in resp = record {
      response = render_data (result (Payload.user resp.user));
      cookie = some (session_cookie resp.token (pos (sv.session_ttl / 1000000000)));
    }

    abbrev pub login_bound : Option (String × String) → M pf (Reply pf)
    login_bound none = refuse 400 "账号或密码缺失"
    login_bound (some (account, password)) =
        answer logged_in (Auth.login pf sv.session_ttl sv.check_password ch.token account password)

    unfoldable pub login : M pf (Reply pf)
    login = login_bound (sv.bind_login req.body req.body_failed)

    abbrev pub cleared : Reply pf
    cleared = record {
      response = render_data no_content;
      cookie = some (session_cookie "" (negsuc 0));
    }

    -- `_ = s.auth.Logout(…)`, and the cookie is cleared in any case.
    abbrev pub logged_out : Result (Unit {0}) × World pf → Result (Reply pf) × World pf
    logged_out (panic, w) = (panic, w)
    logged_out (_, w) = (ok cleared, w)

    abbrev pub logout_token : Option String → M pf (Reply pf)
    logout_token none w = (ok cleared, w)
    logout_token (some token) w =
        if not (str_eq token "")
        then logged_out (Auth.logout pf (record md { token = token }) w)
        else (ok cleared, w)

    unfoldable pub logout : M pf (Reply pf)
    logout = logout_token req.cookie

    unfoldable pub me : M pf (Reply pf)
    me = answer (with_data Payload.user) (Auth.me pf md)

    unfoldable pub list_req : Listing.ListReq
    list_req = record {
      q = req.query "q";
      status = req.query "status";
      type = req.query "type";
      limit = sv.atoi (req.query "limit");
      page = sv.atoi (req.query "page");
    }

    unfoldable pub list_surveys : M pf (Reply pf)
    list_surveys =
        answer (with_data (λ (r : List Listing.ListItem × ℕ). Payload.listing r.0 r.1))
          (Listing.list pf sv.ilike sv.format_time md list_req)

    -- The error of reading the body is dropped.
    unfoldable pub create_survey : M pf (Reply pf)
    create_survey =
        answer (with_data Payload.new_id) (Survey.create pf sv.json md ch.fresh req.body)

    unfoldable pub copy_survey : M pf (Reply pf)
    copy_survey = answer (with_data Payload.new_id) (Survey.copy pf sv.json md ch.fresh req.id)

    unfoldable pub get_survey : M pf (Reply pf)
    get_survey = answer (with_data Payload.document) (Survey.get pf sv.json md req.id)

    unfoldable pub update_survey : M pf (Reply pf)
    update_survey =
        if req.body_failed
        then refuse 400 "读请求体失败"
        else answer without_data (Survey.update pf sv.json md req.id req.body)

    unfoldable pub publish_survey : M pf (Reply pf)
    publish_survey =
        answer (with_data (λ (r : ℤ × Bool). Payload.release r.0 r.1))
          (Survey.publish pf sv.json md req.id)

    abbrev pub access_bound : Option String → M pf (Reply pf)
    access_bound none = refuse 400 "请求体格式错误"
    access_bound (some access) = answer without_data (Survey.set_access pf sv.json md req.id access)

    unfoldable pub set_answer_access : M pf (Reply pf)
    set_answer_access = access_bound (sv.bind_answer_access req.body req.body_failed)

    abbrev pub display_bound : Option String → M pf (Reply pf)
    display_bound none = refuse 400 "请求体格式错误"
    display_bound (some mode) = answer without_data (Survey.set_display pf sv.json md req.id mode)

    unfoldable pub set_display_mode : M pf (Reply pf)
    set_display_mode = display_bound (sv.bind_display_mode req.body req.body_failed)

    unfoldable pub close_survey : M pf (Reply pf)
    close_survey = answer without_data (Survey.close pf sv.json md req.id)

    unfoldable pub reopen_survey : M pf (Reply pf)
    reopen_survey = answer without_data (Survey.reopen pf sv.json md req.id)

    unfoldable pub survey_stats : M pf (Reply pf)
    survey_stats = answer (with_data Payload.stats) (Survey.stats pf sv.json md req.id)

    abbrev pub submit_bound : Option (Answers pf × ℤ) → M pf (Reply pf)
    submit_bound none = refuse 400 "请求体格式错误"
    submit_bound (some (answers, version)) = answer (with_data Payload.rows) (
        Submission.submit pf sv.json sv.registry md ch.fresh
          (record { survey_id = req.id; answers = answers; version = version }))

    unfoldable pub submit_answers_authed : M pf (Reply pf)
    submit_answers_authed = submit_bound (sv.bind_submit req.body req.body_failed)

    unfoldable pub get_public_survey : M pf (Reply pf)
    get_public_survey = answer (with_data Payload.published) (Submission.get_published pf req.id)

    -- `allowed` is what the rate limit said.
    unfoldable pub submit_answers : Bool → M pf (Reply pf)
    submit_answers allowed =
        if not allowed
        then refuse 429 "提交过于频繁,请稍后再试"
        else submit_bound (sv.bind_submit req.body req.body_failed)
