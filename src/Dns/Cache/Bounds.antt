-- ===== src/Dns/Cache/Bounds.antt =====
-- The size of the cache, and the loop that keeps it.
use zonzon.Base.{
  ℕ, zero, suc, ◌+◌, ◌≢◌, ltb, ◌==◌, ◌/◌, max, ◌≤◌, ◌<◌, ◌≡◌, ◌∙◌, sym, refl, none, some, arith,
  leb, length, Option-cases, Bool-cases, inl, inr, some-eq-some,
}
use zonzon.Base.Text.{Text}
use zonzon.Base.Bytes.{Bytes, byte_at}
use zonzon.Wire.{is_pointer}
use zonzon.Base.OrderedMap.{
  OrderedMap, get, set_key, delete, delete_oldest, length-delete-le, length-delete-lt,
  length-set_key-le, length-delete_oldest, delete-Distinct, delete_oldest-Distinct,
  set_key-Distinct, Distinct,
}
use zonzon.Dns.Cache.{
  ended, gave_up, out_of_fuel, skip_name, CacheEntry, DevDnsServer, evict_loop, get_from_cache,
  add_to_cache, rewrite_response_ttl, is_expired, refreshed,
}

pub record IsValid (s : DevDnsServer) : Type 0 where
  pub positive : 1 ≤ s.dns_cache_max_size
  pub bounded : length s.cache_map ≤ s.dns_cache_max_size
  pub distinct : Distinct s.cache_map

-- The eviction loop ends when the size allowed is at least 1: as many rounds as there are entries
-- are enough, and they leave room for one more entry, in a map that still has each key once.
pub evict_loop_ends :
    (fuel most : ℕ) (m : OrderedMap CacheEntry)
    → 1 ≤ most
    → length m ≤ fuel
    → Distinct m
    → (m' : OrderedMap CacheEntry) × (evict_loop fuel most m ≡ some m')
      × (length m' < most)
      × Distinct m'
unfolding evict_loop
evict_loop_ends zero most m pos h d = (m, ground arith, ground arith, d)
evict_loop_ends (suc fuel) most m pos h d = elim (Bool-cases (leb most (length m))) [
  | inr small ↦ (m, rw small refl, ground arith, d)
  | inl big ↦
      let (m', e, less, d') =
        evict_loop_ends fuel most (delete_oldest m) pos (ground (arith, length-delete_oldest m))
          (delete_oldest-Distinct m d) in
      (m', rw big e, less, d')
]

-- With a size of 0 the eviction loop never ends, however many rounds it is given.
pub evict_loop_stuck : (fuel : ℕ) (m : OrderedMap CacheEntry) → evict_loop fuel 0 m ≡ none
unfolding evict_loop
evict_loop_stuck zero m = ground arith
evict_loop_stuck (suc fuel) m = ground (arith, evict_loop_stuck fuel (delete_oldest m))

ended_apart : (o : ℕ) → ended o ≢ out_of_fuel
ended_apart o e = cc

gave_up_apart : gave_up ≢ out_of_fuel
gave_up_apart e = cc

-- The loop over a name does not run out of its fuel.
skip_name_ends :
    (fuel : ℕ) (buffer : Bytes) (offset : ℕ)
    → offset ≤ length buffer
    → length buffer < offset + fuel
    → skip_name fuel buffer offset ≢ out_of_fuel
unfolding skip_name
skip_name_ends zero buffer offset far h e = absurd (omega arith)
skip_name_ends (suc fuel) buffer offset far h e =
    let len = byte_at buffer offset in
    let rest = skip_name_ends fuel buffer (offset + 1 + len) in
    elim (Bool-cases (leb (length buffer) offset)) [
      | inl end ↦ absurd (ended_apart offset (rw end at e))
      | inr inside ↦ elim (Bool-cases (len == 0)) [
        | inl root ↦ absurd (ended_apart (offset + 1) (rw (inside, root) at e))
        | inr more ↦ elim (Bool-cases (is_pointer len)) [
          | inl pointer ↦ elim (Bool-cases (leb (length buffer) (offset + 1))) [
            | inl cut ↦ absurd (gave_up_apart (rw (inside, more, pointer, cut) at e))
            | inr whole ↦ absurd (ended_apart (offset + 2) (rw (inside, more, pointer, whole) at e))
          ]
          | inr label ↦ elim (Bool-cases (ltb (length buffer) (offset + 1 + len))) [
            | inl cut ↦ absurd (gave_up_apart (rw (inside, more, label, cut) at e))
            | inr fits ↦ rest (ground arith) (omega arith) (rw (inside, more, label, fits) at e)
          ]
        ]
      ]
    ]

move-length :
    (key : Text) (entry old : CacheEntry) (m : OrderedMap CacheEntry)
    → get key m ≡ some old
    → length (set_key key entry (delete key m)) ≤ length m
move-length key entry old m e =
    omega (arith, length-set_key-le key entry (delete key m), length-delete-lt key old m e)

move-Distinct :
    (key : Text) (entry : CacheEntry) (m : OrderedMap CacheEntry)
    → Distinct m
    → Distinct (set_key key entry (delete key m))
move-Distinct key entry m d = set_key-Distinct key entry (delete key m) (delete-Distinct key m d)

module _ (now : ℕ) (key : Text) (s : DevDnsServer) (v : IsValid s) where
  -- A look-up keeps the invariant of the cache on a miss, on an expired entry and on a hit.
  pub get_from_cache-IsValid : IsValid (get_from_cache now key s).1
  unfolding get_from_cache
  get_from_cache-IsValid = elim (Option-cases (get key s.cache_map)) [
    | inl e ↦ rw (e, get_from_cache) v
    | inr (entry, e) ↦ elim (Bool-cases (is_expired now s entry)) [
      | inl old ↦
          rw (e, old, get_from_cache)
            (record {
              positive = v.positive;
              bounded = omega (arith, length-delete-le key s.cache_map, v.bounded);
              distinct = delete-Distinct key s.cache_map v.distinct;
            })
      | inr good ↦
          rw (e, good, get_from_cache)
            (record {
              positive = v.positive;
              bounded =
                  omega
                    (arith, move-length key (refreshed now s entry) entry s.cache_map e, v.bounded);
              distinct = move-Distinct key (refreshed now s entry) s.cache_map v.distinct;
            })
    ]
  ]

  -- Adding a response whose TTLs can be rewritten succeeds and keeps the invariant: the cache never
  -- holds more entries than its configured size.
  pub add_to_cache-IsValid :
      (response modified : Bytes)
      → rewrite_response_ttl response (max 1 (s.dns_cache_ttl_ms / 1000)) ≡ some modified
      → (s' : DevDnsServer) × (add_to_cache now key response s ≡ some s') × IsValid s'
  unfolding add_to_cache
  add_to_cache-IsValid response modified r = elim (Bool-cases (leb s.dns_cache_ttl_ms 0)) [
    | inl off ↦ (s, rw off refl, v)
    | inr on ↦
        let (m, e, less, d) =
          evict_loop_ends (length s.cache_map) s.dns_cache_max_size s.cache_map v.positive
            (omega arith) v.distinct in
        let entry : CacheEntry = record {
          response = modified;
          inserted_at = now;
          ttl_ms = s.dns_cache_ttl_ms;
        } in
        (
          record s { cache_map = set_key key entry (delete key m) },
          rw (on, e, r) refl,
          record {
            positive = v.positive;
            bounded =
                omega (arith, length-set_key-le key entry (delete key m), length-delete-le key m);
            distinct = move-Distinct key entry m d;
          },
        )
  ]

  pub add_to_cache_kept :
      (response : Bytes) (s' : DevDnsServer)
      → add_to_cache now key response s ≡ some s'
      → IsValid s'
  unfolding add_to_cache
  add_to_cache_kept response s' e =
      elim (Option-cases (rewrite_response_ttl response (max 1 (s.dns_cache_ttl_ms / 1000)))) [
        | inr (modified, r) ↦
            let (t, e', v') = add_to_cache-IsValid response modified r in
            rw (← some-eq-some (sym e' ∙ e)) v'
        | inl r ↦ elim (Bool-cases (leb s.dns_cache_ttl_ms 0)) [
          | inl off ↦ rw (← some-eq-some (rw off at e)) v
          | inr on ↦
              let (m, evicted, less, d) =
                evict_loop_ends (length s.cache_map) s.dns_cache_max_size s.cache_map v.positive
                  (omega arith) v.distinct in
              absurd (ground (arith, rw (on, evicted, r) at e))
        ]
      ]
