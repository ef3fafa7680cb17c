-- ===== src/Samples/Server.antt =====
-- A server on the sample world, with whole numbers for its clock, and two requests.
use mathlib.Core.Path.{subst}
use wenjuandiaocha_backend.Base.{
  some_injective, ℕ, ◌+◌, ◌-◌, ◌*◌, ltb, ltb_ℤ, ℤ, pos, negsuc, pos_part, neg_part, true, false,
  String, str_eq, Option, none, some, [], if◌then◌else◌, ◌≡◌, refl, arith,
}
use wenjuandiaocha_backend.Dao.Sound.{has_version, IsSound}
use wenjuandiaocha_backend.Http.Messages.{Server}
use wenjuandiaocha_backend.Http.Routes.{Endpoint}
use wenjuandiaocha_backend.Http.Ratelimit.{Arithmetic, Limiter}
use wenjuandiaocha_backend.Http.Ratelimit.Burst.{IsExact}
use wenjuandiaocha_backend.Http.Ratelimit.Capacity.{IsOrdered}
use wenjuandiaocha_backend.Http.Serve.{State, Arrival}
use wenjuandiaocha_backend.Samples.{
  no_bytes, sample_pf, sample_json, sample_registry, sample_answers, sample_world,
}

abbrev difference : ℕ → ℕ → ℤ
difference a b = if ltb a b then negsuc (b - a - 1) else pos (a - b)

abbrev pub minus : ℤ → ℤ → ℤ
minus x y = difference (pos_part x + neg_part y) (neg_part x + pos_part y)

abbrev pub plus : ℤ → ℤ → ℤ
plus x y = difference (pos_part x + pos_part y) (neg_part x + neg_part y)

abbrev pub times : ℤ → ℤ → ℤ
times x y =
    difference (pos_part x * pos_part y + neg_part x * neg_part y)
      (pos_part x * neg_part y + neg_part x * pos_part y)

abbrev pub sample_ar : Arithmetic sample_pf
sample_ar = record { add = plus; sub = minus; mul = times; seconds = difference }

nothing_left : (n : ℕ) → difference n n ≡ pos 0
nothing_left n = ground arith

nothing_times : (rate : ℤ) → times (pos 0) rate ≡ pos 0
nothing_times rate = ground arith

at_rest : (n now : ℕ) (rate : ℤ) → plus (pos n) (times (difference now now) rate) ≡ pos n
at_rest n now rate = rw (nothing_left now, nothing_times rate) (ground arith)

one_less : (c t : ℤ) → ltb_ℤ c t ≡ false → ltb_ℤ c (minus t (pos 1)) ≡ false
one_less (pos c) (pos t) h = ground arith
one_less (pos c) (negsuc t) h = ground arith
one_less (negsuc c) (pos t) h = ground arith
one_less (negsuc c) (negsuc t) h = ground arith

pub sample-IsExact : (bound : ℕ) (rate : ℤ) → IsExact sample_pf sample_ar bound rate
sample-IsExact bound rate = record {
  less = λ m n _ _. ground arith;
  minus = λ n _. ground arith;
  still = λ n now _. at_rest n now rate;
}

pub sample-IsOrdered : IsOrdered sample_pf sample_ar
sample-IsOrdered = record { irreflexive = λ x. ground arith; below = λ c t h. one_less c t h }

abbrev pub sample_server : Server sample_pf
sample_server = record {
  json = sample_json;
  registry = sample_registry;
  bind_login = λ body bad. some ("ann", "h2");
  bind_answer_access = λ body bad. some "anonymous";
  bind_display_mode = λ body bad. some "paged";
  bind_submit = λ body bad. some (sample_answers, pos 0);
  atoi = λ s. pos 0;
  ilike = λ s p. true;
  format_time = λ n. "";
  check_password = str_eq;
  session_ttl = 60;
  cookie_secure = false;
}

-- Requests from one address, with a cookie or without.
abbrev pub asks : (method : String) → Option String → (id : String) → Endpoint → Arrival sample_pf
asks method cookie id endpoint = record {
  request = record {
    method = method;
    origin = "http://localhost:5173";
    client_ip = "10.0.0.1";
    user_agent = "curl";
    cookie = cookie;
    id = id;
    query = λ k. "";
    body = no_bytes;
    body_failed = false;
  };
  endpoint = some endpoint;
  redirect = none;
  chance = record { token = some "t9"; fresh = "p1" };
  now = 50;
  faults = [];
}

abbrev pub sample_limiter : Limiter sample_pf
sample_limiter = record { buckets = []; rate = pos 1; capacity = pos 10 }

abbrev pub sample_state : State sample_pf
sample_state = record { db = sample_world.db; limiter = sample_limiter }

snapshot_of :
    (id : String) (v : ℤ)
    → has_version sample_pf id (pos 1) sample_world.db.versions ≡ true
    → some (pos 1) ≡ some v
    → has_version sample_pf id v sample_world.db.versions ≡ true
snapshot_of id v h e =
    subst (λ k. has_version sample_pf id k sample_world.db.versions ≡ true) (some_injective e) h

pub sample-IsSound : IsSound sample_pf sample_world.db
sample-IsSound = record {
  distinct = (refl, (refl, (refl, (refl, tt))));
  rows = (
    (λ _. refl, λ v e. snapshot_of "s1" v refl e, refl),
    (
      (λ e. absurd (cc e), λ v e. absurd (cc e), refl),
      (
        (λ e. absurd (cc e), λ v e. snapshot_of "s3" v refl e, refl),
        ((λ e. absurd (cc e), λ v e. absurd (cc e), refl), tt),
      ),
    ),
  );
  numbered = (refl, (refl, tt));
  sheets = tt;
  typed = tt;
}
