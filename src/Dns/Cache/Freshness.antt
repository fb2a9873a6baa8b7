-- ===== src/Dns/Cache/Freshness.antt =====
-- What the cache hands out, and until when.
use zonzon.Base.{
  ℕ, ◌+◌, ◌/◌, max, ◌<◌, ◌≡◌, ◌∙◌, refl, sym, ap, true, false, none, some, ◌↔◌, arith, leb, length,
  Option-cases, Bool-cases, inl, inr, some-eq-some,
}
use zonzon.Base.Text.{Text, text_eq_refl}
use zonzon.Base.Bytes.{Bytes}
use zonzon.Base.OrderedMap.{OrderedMap, get, set_key, delete, get-set_key}
use zonzon.Dns.Cache.{
  CacheEntry, DevDnsServer, get_from_cache, add_to_cache, rewrite_response_ttl, is_expired,
  refreshed, evict_loop,
}

module _ (now : ℕ) (key : Text) (s : DevDnsServer) where
  pub get_fresh :
      (entry : CacheEntry)
      → get key s.cache_map ≡ some entry
      → is_expired now s entry ≡ false
      → (get_from_cache now key s).0 ≡ some (refreshed now s entry)
  unfolding get_from_cache
  get_fresh entry e good = rw (e, good, get_from_cache) refl

  pub get_expired :
      (entry : CacheEntry)
      → get key s.cache_map ≡ some entry
      → is_expired now s entry ≡ true
      → (get_from_cache now key s).0 ≡ none
  unfolding get_from_cache
  get_expired entry e old = rw (e, old, get_from_cache) refl

  pub get_missing : get key s.cache_map ≡ none → (get_from_cache now key s).0 ≡ none
  unfolding get_from_cache
  get_missing e = rw (e, get_from_cache) refl

  -- A look-up gives an entry exactly when one is stored under the key and its time is not over, and
  -- then it is the stored response.
  pub get_from_cache_iff :
      (response : Bytes)
      → ((e : CacheEntry) × ((get_from_cache now key s).0 ≡ some e) × (e.response ≡ response)) ↔ (
          (e : CacheEntry) × (get key s.cache_map ≡ some e)
          × (is_expired now s e ≡ false)
          × (e.response ≡ response))
  get_from_cache_iff response = (
    λ (e, found, same). elim (Option-cases (get key s.cache_map)) [
      | inl missing ↦ absurd (ground (arith, found, get_missing missing))
      | inr (entry, kept) ↦ elim (Bool-cases (is_expired now s entry)) [
        | inl old ↦ absurd (ground (arith, found, get_expired entry kept old))
        | inr good ↦ (
          entry,
          kept,
          good,
          ap (λ c. c.response) (some-eq-some (sym (get_fresh entry kept good) ∙ found)) ∙ same,
        )
      ]
    ],
    λ (e, kept, good, same). (refreshed now s e, get_fresh e kept good, same),
  )

module _ (now later : ℕ) (key : Text) (response modified : Bytes) (s s' : DevDnsServer)
    (on : 0 < s.dns_cache_ttl_ms)
    (rewritten : rewrite_response_ttl response (max 1 (s.dns_cache_ttl_ms / 1000)) ≡ some modified)
    (added : add_to_cache now key response s ≡ some s') where
  abbrev stored : CacheEntry
  stored = record { response = modified; inserted_at = now; ttl_ms = s.dns_cache_ttl_ms }

  abbrev after : OrderedMap CacheEntry → DevDnsServer
  after m = record s { cache_map = set_key key stored (delete key m) }

  after-stored : (m : OrderedMap CacheEntry) → get key (after m).cache_map ≡ some stored
  after-stored m = rw (get-set_key key key stored (delete key m), text_eq_refl key) refl

  add-stored : (get key s'.cache_map ≡ some stored) × (s'.dns_cache_ttl_ms ≡ s.dns_cache_ttl_ms)
  unfolding add_to_cache
  add-stored =
      let cut : leb s.dns_cache_ttl_ms 0 ≡ false = ground arith in
      elim (Option-cases (evict_loop (length s.cache_map) s.dns_cache_max_size s.cache_map)) [
        | inl e ↦ absurd (ground (arith, e, cut, added))
        | inr (m, e) ↦
            let same : after m ≡ s' = some-eq-some (sym (rw (cut, e, rewritten) refl) ∙ added) in
            rw (sym same) (after-stored m, refl)
      ]

  -- A response that was added is found again until its time is over, with its TTLs rewritten, and
  -- from then on it is not: the look-up at `later` succeeds exactly when
  -- `later < now + dns_cache_ttl_ms`.
  pub get_from_cache-add_to_cache :
      ((e : CacheEntry) × ((get_from_cache later key s').0 ≡ some e) × (e.response ≡ modified))
      ↔ (later < now + s.dns_cache_ttl_ms)
  get_from_cache-add_to_cache =
      let (kept, same) = add-stored in
      (
        λ h.
            let (e, k, good, _) = (get_from_cache_iff later key s' modified).0 h in
            ground (arith, k, kept, good, same),
        λ h.
            (get_from_cache_iff later key s' modified).1
              (stored, kept, ground (arith, same, h), refl),
      )
