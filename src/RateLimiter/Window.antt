-- ===== src/RateLimiter/Window.antt =====
-- What a client gets within one window of `allow`.
use zonzon.Base.{
  ℕ, ◌+◌, ◌-◌, ◌≤◌, ◌<◌, min, ◌≡◌, ◌∙◌, refl, ap, false, some, List, [], ◌∷◌, arith, leb, length,
  if◌then◌else◌, All, Option-cases, inl, inr, Bool-cases,
}
use zonzon.Base.Text.{Text, text_eq, text_eq_iff}
use zonzon.Base.OrderedMap.{OrderedMap, get, get-set_key, length-set_key-le, length-set_key}
use zonzon.RateLimiter.{IpBucket, RateLimiter, make_room, open_window, allow}
use zonzon.RateLimiter.Branches.{live, live-get, count_up, allow_opens, allow_refuses, allow_counts}

-- the calls of `allow`, each with its time
abbrev pub Calls : Type 0
Calls = List (ℕ × Text)

abbrev pub requests : Text → Calls → ℕ
requests ip [] = 0
requests ip ((now, j) ∷ calls) = (if text_eq j ip then 1 else 0) + requests ip calls

-- how many of the calls for `ip` are allowed
unfoldable pub admitted : Text → RateLimiter → Calls → ℕ
admitted ip r [] = 0
admitted ip r ((now, j) ∷ calls) =
    (if text_eq j ip then (if (allow now j r).1 then 1 else 0) else 0)
    + admitted ip (allow now j r).0 calls

abbrev pub Before : ℕ → (ℕ × Text) → Type 0
Before end (now, j) = now < end

-- What `allow` leaves alone while there is room for one more address.
record Frame (ip j : Text) (r s : RateLimiter) : Type 0 where
  pub options : s.options ≡ r.options
  pub tracked : s.max_tracked_ips ≡ r.max_tracked_ips
  pub grown : length s.buckets ≤ length r.buckets + 1
  pub kept : text_eq j ip ≡ false → get ip s.buckets ≡ get ip r.buckets

module _ (ip : Text) (r : RateLimiter) where
  Frame-refl : (j : Text) → Frame ip j r r
  Frame-refl j = record { options = refl; tracked = refl; grown = omega arith; kept = λ _. refl }

  make_room-id : length r.buckets < r.max_tracked_ips → make_room r ≡ r.buckets
  unfolding make_room
  make_room-id room = ground arith

  open_window-Frame :
      (now : ℕ) (j : Text)
      → length r.buckets < r.max_tracked_ips
      → Frame ip j r (open_window now j r)
  unfolding open_window
  open_window-Frame now j room =
      let fresh : IpBucket = record { count = 1; reset_time = now + r.options.window_ms } in
      record {
        options = refl;
        tracked = refl;
        grown = rw (make_room-id room) (length-set_key-le j fresh r.buckets);
        kept = λ other. rw (make_room-id room) (rw (get-set_key j ip fresh r.buckets, other) refl);
      }

  count_up-Frame : (j : Text) (bucket : IpBucket) → Frame ip j r (count_up j bucket r)
  count_up-Frame j bucket =
      let more : IpBucket = record bucket { count = bucket.count + 1 } in
      record {
        options = refl;
        tracked = refl;
        grown = length-set_key-le j more r.buckets;
        kept = λ other. rw (get-set_key j ip more r.buckets, other) refl;
      }

  allow-Frame :
      (now : ℕ) (j : Text) → length r.buckets < r.max_tracked_ips → Frame ip j r (allow now j r).0
  allow-Frame now j room = elim (Option-cases (live now j r.buckets)) [
    | inl e ↦ rw (allow_opens now j r e) (open_window-Frame now j room)
    | inr (bucket, e) ↦ elim (Bool-cases (leb r.options.max_requests bucket.count)) [
      | inl full ↦ rw (allow_refuses now j r bucket e (ground arith)) (Frame-refl j)
      | inr free ↦ rw (allow_counts now j r bucket e (ground arith)) (count_up-Frame j bucket)
    ]
  ]

live_before :
    (now : ℕ) (ip : Text) (m : OrderedMap IpBucket) (bucket : IpBucket)
    → get ip m ≡ some bucket
    → now < bucket.reset_time
    → live now ip m ≡ some bucket
live_before now ip m bucket e h =
    let not_yet : leb bucket.reset_time now ≡ false = ground arith in rw (e, not_yet) refl

-- The windows are fixed ones: a bucket's begins with the request that opens it, and what was allowed
-- before that does not count. While an address has a bucket, all the calls come before its end and
-- there is room for every address that may be new, the limiter allows exactly as many of its
-- requests as the limit leaves over: `min (requests ip calls) (max_requests - count)`, whatever
-- other addresses do in between.
pub admitted_exact :
    (ip : Text) (calls : Calls) (r : RateLimiter) (bucket : IpBucket)
    → get ip r.buckets ≡ some bucket
    → All (Before bucket.reset_time) calls
    → length r.buckets + length calls ≤ r.max_tracked_ips
    → admitted ip r calls ≡ min (requests ip calls) (r.options.max_requests - bucket.count)
unfolding admitted
admitted_exact ip [] r bucket e h room = omega arith
admitted_exact ip ((now, j) ∷ calls) r bucket e h room =
    let frame = allow-Frame ip r now j (omega arith) in
    let most : (allow now j r).0.options.max_requests ≡ r.options.max_requests =
      ap (λ o. o.max_requests) frame.options in
    elim (Bool-cases (text_eq j ip)) [
      | inr other ↦
          let ih =
            admitted_exact ip calls (allow now j r).0 bucket (frame.kept other ∙ e) h.1
              (omega (arith, frame.grown, frame.tracked)) in
          rw other (omega (arith, ih, most))
      | inl same ↦
          let found : live now j r.buckets ≡ some bucket =
            live_before now j r.buckets bucket (ground (arith, text_eq_iff j ip, e)) h.0 in
          elim (Bool-cases (leb r.options.max_requests bucket.count)) [
            | inl full ↦
                let ih = admitted_exact ip calls r bucket e h.1 (omega arith) in
                rw (same, allow_refuses now j r bucket found (ground arith)) (ground (arith, ih))
            | inr free ↦
                let more : IpBucket = record bucket { count = bucket.count + 1 } in
                let ih =
                  admitted_exact ip calls (count_up j bucket r) more
                    (rw (get-set_key j ip more r.buckets, same) refl) h.1
                    (omega (
                      arith,
                      length-set_key j more bucket r.buckets (live-get now j r bucket found).0,
                    )) in
                rw (same, allow_counts now j r bucket found (ground arith))
                  (ground (arith, ih, free))
          ]
    ]
