-- ===== src/RateLimiter/Branches.antt =====
-- The branches of `allow` and `getRequestCount` by the live bucket of an address: the one that is
-- kept and not expired.
use zonzon.Base.{
  ℕ, ◌+◌, ◌≤◌, ◌<◌, ◌≡◌, refl, true, false, Option, none, some, arith, leb, if◌then◌else◌,
  Option-cases, inl, inr, Bool-cases,
}
use zonzon.Base.Text.{Text}
use zonzon.Base.OrderedMap.{OrderedMap, get, set_key}
use zonzon.RateLimiter.{IpBucket, RateLimiter, open_window, allow, get_request_count}

abbrev pub unexpired : ℕ → Option IpBucket → Option IpBucket
unexpired now none = none
unexpired now (some bucket) = if leb bucket.reset_time now then none else some bucket

abbrev pub live : ℕ → Text → OrderedMap IpBucket → Option IpBucket
live now ip m = unexpired now (get ip m)

-- the bucket after one more request
abbrev pub count_up : Text → IpBucket → RateLimiter → RateLimiter
count_up ip bucket r = record r {
  buckets = set_key ip (record bucket { count = bucket.count + 1 }) r.buckets;
}

abbrev pub live_count : Option IpBucket → ℕ
live_count none = 0
live_count (some bucket) = bucket.count

module _ (now : ℕ) (ip : Text) (r : RateLimiter) where
  pub allow_opens : live now ip r.buckets ≡ none → allow now ip r ≡ (open_window now ip r, true)
  unfolding allow
  allow_opens h = elim (Option-cases (get ip r.buckets)) [
    | inl e ↦ rw (e, allow) refl
    | inr (bucket, e) ↦ elim (Bool-cases (leb bucket.reset_time now)) [
      | inl t ↦ rw (e, t, allow) refl
      | inr f ↦ absurd (ground (arith, e, f, h))
    ]
  ]

  module _ (bucket : IpBucket) (h : live now ip r.buckets ≡ some bucket) where
    pub live-get : (get ip r.buckets ≡ some bucket) × (now < bucket.reset_time)
    live-get = ground (arith, h)

    pub allow_refuses : r.options.max_requests ≤ bucket.count → allow now ip r ≡ (r, false)
    unfolding allow
    allow_refuses full =
        let (e, o) = live-get in
        let shut : leb bucket.reset_time now ≡ false = ground arith in
        let most : leb r.options.max_requests bucket.count ≡ true = ground arith in
        rw (e, shut, most, allow) refl

    pub allow_counts :
        bucket.count < r.options.max_requests → allow now ip r ≡ (count_up ip bucket r, true)
    unfolding allow
    allow_counts free =
        let (e, o) = live-get in
        let shut : leb bucket.reset_time now ≡ false = ground arith in
        let less : leb r.options.max_requests bucket.count ≡ false = ground arith in
        rw (e, shut, less, allow) refl

  pub get_request_count-live : get_request_count now ip r ≡ live_count (live now ip r.buckets)
  unfolding get_request_count
  get_request_count-live = ground arith
