-- ===== src/RateLimiter.antt =====
-- `RateLimiter` of packages/core/src/rate-limiter.ts. The clock is an argument, in milliseconds.
pub mod Branches
pub mod Bounds
pub mod Collection
pub mod Window
mod Tests
use zonzon.Base.{
  ℕ, zero, suc, ◌+◌, Bool, true, false, Option, none, some, List, [], ◌∷◌, leb, if◌then◌else◌,
  length,
}
use zonzon.Base.Text.{Text}
use zonzon.Base.OrderedMap.{OrderedMap, get, set_key, delete, delete_oldest, maps}

pub record RateLimiterOptions : Type 0 where
  pub max_requests : ℕ
  pub window_ms : ℕ
  pub max_tracked_ips : Option ℕ

pub record IpBucket : Type 0 where
  pub count : ℕ
  pub reset_time : ℕ

pub record RateLimiter : Type 0 where
  pub options : RateLimiterOptions
  pub buckets : OrderedMap IpBucket
  pub max_tracked_ips : ℕ

abbrev or_default : Option ℕ → ℕ
or_default none = 100000
or_default (some n) = n

-- the constructor; the timer that calls `garbage_collect` belongs to the event loop
unfoldable pub init : RateLimiterOptions → RateLimiter
init options = record {
  options = options;
  buckets = [];
  max_tracked_ips = or_default options.max_tracked_ips;
}

-- the loop over `entries`
unfoldable pub collect : ℕ → OrderedMap IpBucket → OrderedMap IpBucket → OrderedMap IpBucket
collect now [] m = m
collect now ((ip, bucket) ∷ entries) m =
    collect now entries (if leb bucket.reset_time now then delete ip m else m)

unfoldable pub garbage_collect : ℕ → RateLimiter → RateLimiter
unfolding collect
garbage_collect now r = record r { buckets = collect now r.buckets r.buckets }

unfoldable pub destroy : RateLimiter → RateLimiter
destroy r = record r { buckets = [] }

-- a full map loses its oldest key
unfoldable pub make_room : RateLimiter → OrderedMap IpBucket
make_room r =
    if leb r.max_tracked_ips (length r.buckets) then delete_oldest r.buckets else r.buckets

-- the branch of a missing or expired bucket
unfoldable pub open_window : ℕ → Text → RateLimiter → RateLimiter
unfolding make_room
open_window now ip r = record r {
  buckets = set_key ip (record { count = 1; reset_time = now + r.options.window_ms }) (make_room r);
}

unfoldable pub allow : ℕ → Text → RateLimiter → RateLimiter × Bool
allow now ip r = elim (get ip r.buckets) [
  | none ↦ (open_window now ip r, true)
  | some bucket ↦
      if leb bucket.reset_time now
      then (open_window now ip r, true)
      else if leb r.options.max_requests bucket.count
      then (r, false)
      else (
        record r { buckets = set_key ip (record bucket { count = bucket.count + 1 }) r.buckets },
        true,
      )
]

unfoldable pub get_request_count : ℕ → Text → RateLimiter → ℕ
get_request_count now ip r = elim (get ip r.buckets) [
  | none ↦ 0
  | some bucket ↦ if leb bucket.reset_time now then 0 else bucket.count
]

unfoldable pub limiter : Unit {0}
unfolding maps init garbage_collect destroy open_window allow get_request_count
limiter = tt
