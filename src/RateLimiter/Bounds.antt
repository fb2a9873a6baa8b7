-- ===== src/RateLimiter/Bounds.antt =====
-- The invariant of the limiter: its map is bounded, has each key once, and counts within the limit.
use zonzon.Base.{
  ℕ, ◌+◌, ◌≤◌, ◌<◌, ◌≡◌, some, [], ◌∷◌, arith, leb, length, Option-cases, inl, inr, Bool-cases,
  if◌then◌else◌,
}
use zonzon.Base.Text.{Text}
use zonzon.Base.OrderedMap.{
  OrderedMap, get, delete, delete_oldest, Distinct, Values, length-set_key-le, length-delete_oldest,
  delete_oldest-Distinct, length-delete-le, length-set_key, set_key-Distinct, delete-Distinct,
  set_key-Values, delete-Values,
}
use zonzon.RateLimiter.Branches.{live, live-get, count_up, allow_opens, allow_refuses, allow_counts}
use zonzon.RateLimiter.{
  IpBucket, RateLimiter, make_room, open_window, allow, collect, garbage_collect,
}

abbrev pub InLimit : ℕ → IpBucket → Type 0
InLimit most bucket = bucket.count ≤ most

pub record IsValid (r : RateLimiter) : Type 0 where
  pub tracked : 1 ≤ r.max_tracked_ips
  pub positive : 1 ≤ r.options.max_requests
  pub bounded : length r.buckets ≤ r.max_tracked_ips
  pub distinct : Distinct r.buckets
  pub limited : Values (InLimit r.options.max_requests) r.buckets

delete_oldest-Values {ℓ κ} :
    {V : Type ℓ} (P : V → Type κ) (m : OrderedMap V) → Values P m → Values P (delete_oldest m)
unfolding delete_oldest
delete_oldest-Values P [] h = tt
delete_oldest-Values P ((k, v) ∷ m) h = delete-Values P k ((k, v) ∷ m) h

module _ (r : RateLimiter) (v : IsValid r) where
  make_room-length : length (make_room r) < r.max_tracked_ips
  unfolding make_room
  make_room-length = ground (arith, length-delete_oldest r.buckets, v.tracked)

  make_room-Distinct : Distinct (make_room r)
  unfolding make_room
  make_room-Distinct = ground (arith, delete_oldest-Distinct r.buckets v.distinct)

  make_room-Values : Values (InLimit r.options.max_requests) (make_room r)
  unfolding make_room
  make_room-Values =
      ground (arith, delete_oldest-Values (InLimit r.options.max_requests) r.buckets v.limited)

  open_window-IsValid : (now : ℕ) (ip : Text) → IsValid (open_window now ip r)
  unfolding open_window
  open_window-IsValid now ip =
      let fresh : IpBucket = record { count = 1; reset_time = now + r.options.window_ms } in
      record {
        tracked = v.tracked;
        positive = v.positive;
        bounded = omega (arith, length-set_key-le ip fresh (make_room r), make_room-length);
        distinct = set_key-Distinct ip fresh (make_room r) make_room-Distinct;
        limited =
            set_key-Values (InLimit r.options.max_requests) ip fresh (make_room r) v.positive
              make_room-Values;
      }

  count_up-IsValid :
      (ip : Text) (bucket : IpBucket)
      → bucket.count < r.options.max_requests
      → get ip r.buckets ≡ some bucket
      → IsValid (count_up ip bucket r)
  count_up-IsValid ip bucket less e =
      let more : IpBucket = record bucket { count = bucket.count + 1 } in
      record {
        tracked = v.tracked;
        positive = v.positive;
        bounded = omega (arith, length-set_key ip more bucket r.buckets e, v.bounded);
        distinct = set_key-Distinct ip more r.buckets v.distinct;
        limited =
            set_key-Values (InLimit r.options.max_requests) ip more r.buckets (omega arith)
              v.limited;
      }

  -- A call of `allow` keeps the invariant: at most the tracked number of addresses, each once, and
  -- no bucket above the limit, whichever branch the call takes.
  pub allow-IsValid : (now : ℕ) (ip : Text) → IsValid (allow now ip r).0
  allow-IsValid now ip = elim (Option-cases (live now ip r.buckets)) [
    | inl e ↦ rw (allow_opens now ip r e) (open_window-IsValid now ip)
    | inr (bucket, e) ↦ elim (Bool-cases (leb r.options.max_requests bucket.count)) [
      | inl full ↦ rw (allow_refuses now ip r bucket e (ground arith)) v
      | inr free ↦
          rw (allow_counts now ip r bucket e (ground arith))
            (count_up-IsValid ip bucket (ground arith) (live-get now ip r bucket e).0)
    ]
  ]

module _ {ℓ} (P : OrderedMap IpBucket → Type ℓ)
    (kept : (ip : Text) (m : OrderedMap IpBucket) → P m → P (delete ip m)) where
  collect-keeps : (now : ℕ) (entries m : OrderedMap IpBucket) → P m → P (collect now entries m)
  unfolding collect
  collect-keeps now [] m p = p
  collect-keeps now ((ip, bucket) ∷ entries) m p =
      collect-keeps now entries (if leb bucket.reset_time now then delete ip m else m)
        (elim (Bool-cases (leb bucket.reset_time now)) [
          | inl t ↦ rw t (kept ip m p)
          | inr f ↦ rw f p
        ])

-- The collection of expired buckets keeps the invariant.
pub garbage_collect-IsValid :
    (now : ℕ) (r : RateLimiter) → IsValid r → IsValid (garbage_collect now r)
unfolding garbage_collect
garbage_collect-IsValid now r v = record {
  tracked = v.tracked;
  positive = v.positive;
  bounded =
      collect-keeps (λ m. length m ≤ r.max_tracked_ips)
        (λ ip m h. omega (arith, length-delete-le ip m)) now r.buckets r.buckets v.bounded;
  distinct = collect-keeps Distinct delete-Distinct now r.buckets r.buckets v.distinct;
  limited =
      collect-keeps (Values (InLimit r.options.max_requests))
        (delete-Values (InLimit r.options.max_requests)) now r.buckets r.buckets v.limited;
}
