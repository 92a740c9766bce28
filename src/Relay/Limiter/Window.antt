-- ===== src/Relay/Limiter/Window.antt =====
-- components/wisp_relay/rate_limiter.c: how much is allowed in a window.
use tollgate_esp.Prelude.{
  ℕ, suc, ◌+◌, ◌-◌, ◌≤◌, ◌<◌, ◌≡◌, Bool, true, ◌&&◌, List, [], ◌∷◌, leb, ltb, if◌then◌else◌, arith,
  length,
}
use tollgate_esp.Relay.Limiter.{
  RateType, event, req, RateConfig, RateBucket, taken, renewed, counted, admit,
}

-- The requests of one kind, at these times, to one bucket: the bucket, and how many were allowed.
unfoldable pub admitted : RateConfig → RateType → List ℕ → RateBucket → RateBucket × ℕ
admitted config type [] b = (b, 0)
admitted config type (now ∷ times) b =
    let rest = admitted config type times (admit config type now b).0 in
    (rest.0, if (admit config type now b).1 then suc rest.1 else rest.1)

-- The times that lie in the window of 60 seconds that began at a start.
unfoldable pub in_window : ℕ → List ℕ → Bool
in_window start [] = true
in_window start (now ∷ times) = leb start now && ltb now (start + 60) && in_window start times

abbrev pub limit_of : RateConfig → RateType → ℕ
limit_of config event = config.events_per_minute
limit_of config req = config.reqs_per_minute

abbrev pub count_of : RateType → RateBucket → ℕ
count_of event b = b.event_count
count_of req b = b.req_count

abbrev pub min : ℕ → ℕ → ℕ
min a b = if leb a b then a else b

admitted-from :
    (config : RateConfig) (type : RateType) (times : List ℕ) (b : RateBucket)
    → limit_of config type < 65536
    → b.window_start < 4294967236
    → count_of type b ≤ limit_of config type
    → in_window b.window_start times ≡ true
    → (admitted config type times b).1 ≡ min (length times) (limit_of config type - count_of type b)
unfolding admitted in_window admit renewed counted
admitted-from config event [] b word early within inside = ground arith
admitted-from config req [] b word early within inside = ground arith
admitted-from config event (now ∷ times) b word early within inside =
    ground (arith, admitted-from config event times (admit config event now b).0)
admitted-from config req (now ∷ times) b word early within inside =
    ground (arith, admitted-from config req times (admit config req now b).0)

-- A connection that gets a bucket is allowed, in the 60 seconds from there, as many
-- requests of a kind as it makes, up to the configured limit; the clock is within its 32 bits.
pub admitted_lem :
    (config : RateConfig) (type : RateType) (fd start : ℕ) (times : List ℕ) (b : RateBucket)
    → limit_of config type < 65536
    → start < 4294967236
    → in_window start times ≡ true
    → (admitted config type times (taken fd start b)).1 ≡ min (length times) (limit_of config type)
unfolding taken
admitted_lem config event fd start times b word early inside =
    ground
      (arith, admitted-from config event times (taken fd start b) word early (omega arith) inside)
admitted_lem config req fd start times b word early inside =
    ground
      (arith, admitted-from config req times (taken fd start b) word early (omega arith) inside)
