-- ===== src/Start/Config.antt =====
-- internal/config/config.go: the configuration from environment variables.
use wenjuandiaocha_backend.Base.{
  ℕ, suc, ◌-◌, ◌*◌, ◌%◌, ◌^◌, ltb, ℤ, pos, negsuc, int64, signed, Bool, true, false, String, str_eq,
  ◌⊹◌, Option, none, some, if◌then◌else◌, ◌≡◌, refl,
}
use wenjuandiaocha_backend.Service.Survey.Listing.Offset.{int64-small}

pub record Config : Type 0 where
  pub database_url : String
  pub http_addr : String
  pub session_ttl : ℤ
  pub cookie_secure : Bool

-- time.Duration(n) * time.Hour: nanoseconds, with the wrap-around of int64.
unfoldable pub hours : ℤ → ℤ
hours (pos n) = int64 (n * 3600000000000)
hours (negsuc n) = signed 64 (2 ^ 64 - 1 - (suc n * 3600000000000 - 1) % 2 ^ 64)

-- `env` is os.Getenv, empty for a variable that is not set; `atoi` is strconv.Atoi, `none` for an
-- error.
module _ (env : String → String) (atoi : String → Option ℤ) where
  unfoldable pub getenv : String → String → String
  getenv k def = if str_eq (env k) "" then def else env k

  abbrev pub or_week : Option ℤ → ℤ
  or_week none = pos 168
  or_week (some n) = n

  unfoldable pub ttl_hours : ℤ
  ttl_hours = let v = env "SESSION_TTL_HOURS" in if str_eq v "" then pos 168 else or_week (atoi v)

  -- `none` is the error of a missing DATABASE_URL.
  unfoldable pub load : Option Config
  load =
      if str_eq (env "DATABASE_URL") ""
      then none
      else some (record {
        database_url = env "DATABASE_URL";
        http_addr = ":" ⊹ getenv "HTTP_PORT" "8089";
        session_ttl = hours ttl_hours;
        cookie_secure = str_eq (env "COOKIE_SECURE") "true";
      })

  -- With a database and a life of sessions that is not negative and fits an int64 of nanoseconds
  -- (some 292 years), the configuration loads and sessions live for exactly that many hours, which
  -- are 168 where the variable is unset or no number.
  load-session_ttl :
      (n : ℕ)
      → str_eq (env "DATABASE_URL") "" ≡ false
      → (if str_eq (env "SESSION_TTL_HOURS") ""
          then pos 168
          else or_week (atoi (env "SESSION_TTL_HOURS")))
        ≡ pos n
      → ltb (n * 3600000000000) (2 ^ 63) ≡ true
      → (c : Config) × (load ≡ some c) × (c.session_ttl ≡ pos (n * 3600000000000))
  unfolding load hours ttl_hours
  load-session_ttl n set h fits = rw (set, h) (_, refl, int64-small (n * 3600000000000) fits)
