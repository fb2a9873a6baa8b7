-- ===== src/Dns/Cache.antt =====
-- The cache of `DevDnsServer` (packages/core/src/dns-service.ts): an insertion-ordered map, its
-- oldest entry first. The clock, in milliseconds, stands still within a call.
pub mod Bounds
pub mod Freshness
pub mod Lifetime
mod Tests
use zonzon.Base.{
  ℕ, zero, suc, ◌+◌, ◌-◌, ◌/◌, max, Bool, ◌&&◌, Option, none, some, List, [], ◌∷◌, leb, ltb, ◌==◌,
  if◌then◌else◌, ◌>>=◌, length,
}
use zonzon.Base.Text.{Text}
use zonzon.Base.Bytes.{Bytes, byte_at, u16_at, be32, blit}
use zonzon.Base.OrderedMap.{OrderedMap, get, set_key, delete, delete_oldest, maps}
use zonzon.Types.{ServerConfig}
use zonzon.Wire.{is_pointer}

pub record CacheEntry : Type 0 where
  pub response : Bytes
  pub inserted_at : ℕ
  pub ttl_ms : ℕ

pub record DevDnsServer : Type 0 where
  pub config : ServerConfig
  pub cache_map : OrderedMap CacheEntry
  pub dns_cache_max_size : ℕ
  pub dns_cache_ttl_ms : ℕ

abbrev or_default : ℕ → Option ℕ → ℕ
or_default d none = d
or_default d (some n) = n

-- the constructor
unfoldable pub init : ServerConfig → DevDnsServer
init config = record {
  config = config;
  cache_map = [];
  dns_cache_max_size = or_default 1024 config.dns_cache_max_size;
  dns_cache_ttl_ms = or_default 0 config.dns_cache_ttl_ms;
}

abbrev pub is_expired : ℕ → DevDnsServer → CacheEntry → Bool
is_expired now s entry =
    ltb 0 s.dns_cache_ttl_ms && leb (entry.inserted_at + s.dns_cache_ttl_ms) now

-- the entry as it is handed out, with what is left of its time
abbrev pub refreshed : ℕ → DevDnsServer → CacheEntry → CacheEntry
refreshed now s entry = record entry { ttl_ms = s.dns_cache_ttl_ms + entry.inserted_at - now }

-- a hit moves its entry to the end of the map
unfoldable pub get_from_cache : ℕ → Text → DevDnsServer → Option CacheEntry × DevDnsServer
get_from_cache now key s = elim (get key s.cache_map) [
  | none ↦ (none, s)
  | some entry ↦
      if is_expired now s entry then (none, record s { cache_map = delete key s.cache_map }) else (
        some (refreshed now s entry),
        record s { cache_map = set_key key (refreshed now s entry) (delete key s.cache_map) },
      )
]

-- `while (size >= max) evictCacheEntry()`: `none` when the fuel runs out
unfoldable pub evict_loop : ℕ → ℕ → OrderedMap CacheEntry → Option (OrderedMap CacheEntry)
unfolding delete_oldest
evict_loop zero most m = if leb most (length m) then none else some m
evict_loop (suc fuel) most m =
    let evicted = evict_loop fuel most (delete_oldest m) in
    if leb most (length m) then evicted else some m

pub data Skip : Type 0 where
  ended : ℕ → Skip
  gave_up : Skip
  out_of_fuel : Skip

-- the loop of `skipQuestionSection` over a name
unfoldable pub skip_name : ℕ → Bytes → ℕ → Skip
skip_name zero buffer offset = out_of_fuel
skip_name (suc fuel) buffer offset =
    let len = byte_at buffer offset in
    let rest = skip_name fuel buffer (offset + 1 + len) in
    if leb (length buffer) offset
    then ended offset
    else if len == 0
    then ended (offset + 1)
    else if is_pointer len
    then (if leb (length buffer) (offset + 1) then gave_up else ended (offset + 2))
    else if ltb (length buffer) (offset + 1 + len)
    then gave_up
    else rest

-- the fixed part of a question behind its name; `offset` where there is no whole question
abbrev pub after_name : Bytes → ℕ → Skip → ℕ
after_name buffer offset (ended o) = if ltb (length buffer) (o + 4) then offset else o + 4
after_name buffer offset gave_up = offset
after_name buffer offset out_of_fuel = offset

abbrev pub skip_fuel : Bytes → ℕ
skip_fuel buffer = suc (length buffer)

unfoldable pub skip_question_section : Bytes → ℕ → ℕ
skip_question_section buffer offset =
    after_name buffer offset (skip_name (skip_fuel buffer) buffer offset)

unfoldable pub skip_questions : ℕ → Bytes → ℕ → ℕ
skip_questions zero response offset = offset
skip_questions (suc n) response offset =
    let next = skip_question_section response offset in
    let rest = skip_questions n response next in if next == offset then offset else rest

-- The loop over the answers; `result` is the copy that is written. `none` is a RangeError.
unfoldable pub ttl_loop : ℕ → ℕ → Bytes → ℕ → Bytes → Option Bytes
ttl_loop zero ttl response offset result = some result
ttl_loop (suc n) ttl response offset result =
    let rest =
      ttl_loop n ttl response (offset + 12 + u16_at response (offset + 10))
        (blit result (offset + 6) (be32 ttl)) in
    if ltb (length response) (offset + 12)
    then some result
    else if ltb ttl 4294967296
    then rest
    else none

unfoldable pub rewrite_response_ttl : Bytes → ℕ → Option Bytes
rewrite_response_ttl response ttl =
    if ltb (length response) 12
    then some response
    else ttl_loop (u16_at response 6) ttl response (skip_questions (u16_at response 4) response 12)
        response

-- `none` is a RangeError, or a loop that does not end
unfoldable pub add_to_cache : ℕ → Text → Bytes → DevDnsServer → Option DevDnsServer
add_to_cache now key response s = if leb s.dns_cache_ttl_ms 0 then some s else (do
  m ← evict_loop (length s.cache_map) s.dns_cache_max_size s.cache_map
  modified ← rewrite_response_ttl response (max 1 (s.dns_cache_ttl_ms / 1000))
  some (record s {
    cache_map =
        set_key key (record { response = modified; inserted_at = now; ttl_ms = s.dns_cache_ttl_ms })
          (delete key m);
  }))

unfoldable pub caching : Unit {0}
unfolding maps init is_pointer get_from_cache evict_loop skip_name skip_question_section
    skip_questions ttl_loop rewrite_response_ttl add_to_cache
caching = tt
