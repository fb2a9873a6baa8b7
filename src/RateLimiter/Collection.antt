-- ===== src/RateLimiter/Collection.antt =====
-- `garbageCollect` against the calls that come after it.
use zonzon.Base.{
  ℕ, ◌≤◌, ◌≡◌, ◌∙◌, refl, sym, ap, none, [], ◌∷◌, ◌⊎◌, arith, leb, Option-cases, inl, inr,
  Bool-cases,
}
use zonzon.Base.Text.{Text, text_eq, text_eq_iff}
use zonzon.Base.OrderedMap.{OrderedMap, get, delete, get-delete, Distinct}
use zonzon.RateLimiter.{IpBucket, RateLimiter, collect, garbage_collect, allow, get_request_count}
use zonzon.RateLimiter.Branches.{
  live, live_count, allow_opens, allow_refuses, allow_counts, get_request_count-live,
}

live-collect :
    (now later : ℕ) (ip : Text) (entries m : OrderedMap IpBucket)
    → now ≤ later
    → Distinct entries
    → (get ip entries ≡ get ip m) ⊎ (get ip entries ≡ none)
    → live later ip (collect now entries m) ≡ live later ip m
unfolding collect get
live-collect now later ip [] m le d h = refl
live-collect now later ip ((j, bucket) ∷ entries) m le (absent, d) h =
    elim (Bool-cases (text_eq j ip)) [
      | inr other ↦ elim (Bool-cases (leb bucket.reset_time now)) [
        | inl gone ↦ rw gone (
            ground (
              arith,
              other,
              get-delete j ip m,
              live-collect now later ip entries (delete j m) le d,
            ))
        | inr stays ↦ rw stays (ground (arith, other, live-collect now later ip entries m le d))
      ]
      | inl same ↦ elim (Bool-cases (leb bucket.reset_time now)) [
        | inl gone ↦ rw gone (
            ground (
              arith,
              same,
              absent,
              text_eq_iff j ip,
              get-delete j ip m,
              live-collect now later ip entries (delete j m) le d,
            ))
        | inr stays ↦ rw stays (
            live-collect now later ip entries m le d
              (inr (ground (arith, same, absent, text_eq_iff j ip))))
      ]
    ]

module _ (now later : ℕ) (ip : Text) (r : RateLimiter) (le : now ≤ later)
    (d : Distinct r.buckets) where
  same_live : live later ip (garbage_collect now r).buckets ≡ live later ip r.buckets
  unfolding garbage_collect
  same_live = live-collect now later ip r.buckets r.buckets le d (inl refl)

  same_options : (garbage_collect now r).options ≡ r.options
  unfolding garbage_collect
  same_options = refl

  answer : (allow later ip (garbage_collect now r)).1 ≡ (allow later ip r).1
  answer = elim (Option-cases (live later ip r.buckets)) [
    | inl e ↦
        rw (allow_opens later ip r e, allow_opens later ip (garbage_collect now r) (same_live ∙ e))
          refl
    | inr (bucket, e) ↦ elim (Bool-cases (leb r.options.max_requests bucket.count)) [
      | inl full ↦
          rw
            (
              allow_refuses later ip r bucket e (ground arith),
              allow_refuses later ip (garbage_collect now r) bucket (same_live ∙ e)
                  (rw same_options (ground arith)),
            )
            refl
      | inr free ↦
          rw
            (
              allow_counts later ip r bucket e (ground arith),
              allow_counts later ip (garbage_collect now r) bucket (same_live ∙ e)
                  (rw same_options (ground arith)),
            )
            refl
    ]
  ]

  -- The collection of expired buckets is never seen by a later call: `getRequestCount` gives the
  -- same count and `allow` the same answer for every address, when each key stands once.
  pub garbage_collect_unseen :
      (get_request_count later ip (garbage_collect now r) ≡ get_request_count later ip r)
      × ((allow later ip (garbage_collect now r)).1 ≡ (allow later ip r).1)
  garbage_collect_unseen = (
    get_request_count-live later ip (garbage_collect now r)
        ∙ ap live_count same_live
        ∙ sym (get_request_count-live later ip r),
    answer,
  )
