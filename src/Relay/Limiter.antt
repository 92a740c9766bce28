-- ===== src/Relay/Limiter.antt =====
-- components/wisp_relay/rate_limiter.c: the buckets of the connections.
use tollgate_esp.Prelude.{
  ℕ, zero, suc, ◌+◌, ◌-◌, ◌%◌, Bool, true, false, not, ◌&&◌, Option, none, some, List, [], ◌∷◌, leb,
  ltb, ◌==◌, if◌then◌else◌, get_elem?, modify, replicate, find_index,
}
pub mod Window
pub mod Limit

-- RATE_LIMITER_MAX_BUCKETS.
abbrev pub max_buckets : ℕ
max_buckets = 16

-- rate_type_t.
pub data RateType : Type 0 where
  event : RateType
  req : RateType

-- rate_config_t.
pub record RateConfig : Type 0 where
  pub events_per_minute : ℕ
  pub reqs_per_minute : ℕ

-- rate_bucket_t; a descriptor is a number, since the relay's are sockets that were opened.
pub record RateBucket : Type 0 where
  pub fd : ℕ
  pub event_count : ℕ
  pub req_count : ℕ
  pub window_start : ℕ
  pub active : Bool

-- rate_limiter_t.
pub record RateLimiter : Type 0 where
  pub config : RateConfig
  pub buckets : List RateBucket

-- A bucket after memset.
abbrev pub blank_bucket : RateBucket
blank_bucket = record { fd = 0; event_count = 0; req_count = 0; window_start = 0; active = false }

or_default : Option RateConfig → RateConfig
or_default none = record { events_per_minute = 30; reqs_per_minute = 60 }
or_default (some config) = config

-- rate_limiter_init; `none` is the configuration NULL.
unfoldable pub init : Option RateConfig → RateLimiter
unfolding or_default
init config = record { config = or_default config; buckets = replicate max_buckets blank_bucket }

-- The test of the loops that look a connection up.
unfoldable pub is_of : ℕ → RateBucket → Bool
is_of fd b = b.active && b.fd == fd

unfoldable pub is_unused : RateBucket → Bool
is_unused b = not b.active

-- The fields that get_bucket sets in an unused bucket.
pub taken : ℕ → ℕ → RateBucket → RateBucket
taken fd now b = record {
  fd = fd;
  event_count = 0;
  req_count = 0;
  window_start = now;
  active = true;
}

-- The seconds of esp_timer_get_time, as the uint32_t that they are kept in.
seconds : ℕ → ℕ
seconds s = s % 4294967296

take_unused : ℕ → ℕ → Option ℕ → RateLimiter → RateLimiter × Option ℕ
take_unused fd now none rl = (rl, none)
take_unused fd now (some i) rl =
    (record rl { buckets = modify rl.buckets i (taken fd now) }, some i)

get_found : ℕ → ℕ → Option ℕ → RateLimiter → RateLimiter × Option ℕ
unfolding take_unused is_unused
get_found fd now (some i) rl = (rl, some i)
get_found fd now none rl = take_unused fd now (find_index is_unused rl.buckets) rl

-- get_bucket: the buckets, and the index of the connection's.
get_bucket : ℕ → ℕ → RateLimiter → RateLimiter × Option ℕ
unfolding get_found is_of
get_bucket fd now rl = get_found fd now (find_index (is_of fd) rl.buckets) rl

-- The counters restart after 60 seconds; the difference is of two uint32_t.
renewed : ℕ → RateBucket → RateBucket
renewed now b =
    if leb 60 ((now + 4294967296 - b.window_start) % 4294967296)
    then record b { event_count = 0; req_count = 0; window_start = now }
    else b

-- The counting of one request, and whether it is allowed.
counted : RateConfig → RateType → RateBucket → RateBucket × Bool
counted config event b =
    if leb config.events_per_minute b.event_count
    then (b, false)
    else (record b { event_count = (b.event_count + 1) % 65536 }, true)
counted config req b =
    if leb config.reqs_per_minute b.req_count
    then (b, false)
    else (record b { req_count = (b.req_count + 1) % 65536 }, true)

-- What rate_limiter_check does to the bucket that it found.
pub admit : RateConfig → RateType → ℕ → RateBucket → RateBucket × Bool
unfolding renewed counted
admit config type now b = counted config type (renewed now b)

check_at : RateType → ℕ → RateLimiter × Option ℕ → RateLimiter × Bool
unfolding admit
check_at type now (rl, none) = (rl, false)
check_at type now (rl, some i) = elim (get_elem? rl.buckets i) [
  | none ↦ (rl, false)
  | some b ↦ (
    record rl { buckets = modify rl.buckets i (λ b. (admit rl.config type now b).0) },
    (admit rl.config type now b).1,
  )
]

-- rate_limiter_check at a time in seconds.
unfoldable pub check : ℕ → RateType → ℕ → RateLimiter → RateLimiter × Bool
unfolding check_at get_bucket seconds
check fd type s rl = check_at type (seconds s) (get_bucket fd (seconds s) rl)

reset_found : Option ℕ → RateLimiter → RateLimiter
reset_found none rl = rl
reset_found (some i) rl = record rl {
  buckets = modify rl.buckets i (λ b. record b { active = false });
}

-- rate_limiter_reset.
reset : ℕ → RateLimiter → RateLimiter
unfolding reset_found is_of
reset fd rl = reset_found (find_index (is_of fd) rl.buckets) rl
