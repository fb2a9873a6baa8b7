-- ===== src/RateLimiter/Tests.antt =====
-- A limiter of two requests a second that tracks three addresses.
use zonzon.Base.{ℕ, ◌≡◌, refl, min, true, false, some, [], ◌∷◌, arith}
use zonzon.Base.Text.{codes}
use zonzon.Base.OrderedMap.{OrderedMap, Distinct, maps}
use zonzon.RateLimiter.{IpBucket, RateLimiter, allow, limiter}
use zonzon.RateLimiter.Bounds.{IsValid}
use zonzon.RateLimiter.Window.{Calls, requests, admitted, admitted_exact}

abbrev bucket : ℕ → ℕ → IpBucket
bucket n end = record { count = n; reset_time = end }

abbrev kept : OrderedMap IpBucket
kept = (codes "a", bucket 1 1500) ∷ (codes "b", bucket 2 900) ∷ []

abbrev two_a_second : RateLimiter
two_a_second = record {
  options = record { max_requests = 2; window_ms = 1000; max_tracked_ips = some 3 };
  buckets = kept;
  max_tracked_ips = 3;
}

kept-Distinct : Distinct kept
unfolding maps
kept-Distinct = (refl, (refl, tt))

two_a_second-IsValid : IsValid two_a_second
two_a_second-IsValid = record {
  tracked = omega arith;
  positive = omega arith;
  bounded = omega arith;
  distinct = kept-Distinct;
  limited = (omega arith, (omega arith, tt));
}

-- the second request is allowed, the third is not
second_allowed : (allow 1000 (codes "a") two_a_second).1 ≡ true
unfolding limiter
second_allowed = refl

third_refused : (allow 1000 (codes "a") (allow 1000 (codes "a") two_a_second).0).1 ≡ false
unfolding limiter
third_refused = refl

-- Windows do not slide: of the four, three are within 1000 milliseconds of the last.
burst_allowed :
    admitted
      (codes "c")
      two_a_second
      ((0, codes "c") ∷ (999, codes "c") ∷ (1000, codes "c") ∷ (1001, codes "c") ∷ [])
    ≡ 4
unfolding limiter admitted
burst_allowed = refl

abbrev calls : Calls
calls = (1000, codes "a") ∷ []

admitted_exact_example :
    admitted (codes "a") two_a_second calls ≡ min (requests (codes "a") calls) 1
unfolding limiter
admitted_exact_example =
    admitted_exact (codes "a") calls two_a_second (bucket 1 1500) refl (omega arith, tt)
      (omega arith)
