-- ===== src/Dns/Cache/Tests.antt =====
-- A cache of two entries with a lifetime of five seconds.
use zonzon.Base.{ℕ, ◌<◌, ◌≡◌, refl, none, some, [], ◌∷◌, ◌++◌, map, arith, length}
use zonzon.Base.Text.{Text, codes}
use zonzon.Base.Bytes.{Bytes}
use zonzon.Base.OrderedMap.{OrderedMap, Distinct, maps}
use zonzon.Types.{ServerConfig}
use zonzon.Wire.{wire}
use zonzon.Dns.Packet.Errors.{message}
use zonzon.Dns.Packet.Answers.{answers_bytes}
use zonzon.Dns.Packet.Tests.{asked, asked-IsQuestion, answers, answers-IsAnswer}
use zonzon.Dns.Cache.{
  CacheEntry, DevDnsServer, get_from_cache, add_to_cache, rewrite_response_ttl, evict_loop, caching,
}
use zonzon.Dns.Cache.Bounds.{IsValid, evict_loop_ends}
use zonzon.Dns.Cache.Lifetime.{with_ttl, rewrite_response_ttl-message}

abbrev config : ServerConfig
config = record {
  port = 53;
  http_port = none;
  https_port = none;
  tls = none;
  dot_port = none;
  doh_port = none;
  fallback_dns = none;
  firewall = none;
  dns_cache_max_size = some 2;
  dns_cache_ttl_ms = some 5000;
  max_tcp_connections = none;
  tcp_idle_timeout_ms = none;
  rate_limit_max_requests = none;
  rate_limit_window_ms = none;
  hosts = [];
}

abbrev response : Bytes
response = message 7 0x8400 1 asked ++ answers_bytes answers

-- five seconds
abbrev shortened : Bytes
shortened = message 7 0x8400 1 asked ++ answers_bytes (map (with_ttl 5) answers)

abbrev entry_at : ℕ → CacheEntry
entry_at now = record { response = shortened; inserted_at = now; ttl_ms = 5000 }

abbrev key : Text
key = codes "k"

abbrev full_map : OrderedMap CacheEntry
full_map = (codes "a", entry_at 1) ∷ (codes "b", entry_at 2) ∷ []

abbrev server : DevDnsServer
server = record {
  config = config;
  cache_map = full_map;
  dns_cache_max_size = 2;
  dns_cache_ttl_ms = 5000;
}

-- the oldest entry has gone
abbrev server_after : DevDnsServer
server_after = record server { cache_map = (codes "b", entry_at 2) ∷ (key, entry_at 100) ∷ [] }

full_map-Distinct : Distinct full_map
unfolding maps
full_map-Distinct = (refl, (refl, tt))

server-IsValid : IsValid server
server-IsValid = record {
  positive = omega arith;
  bounded = omega arith;
  distinct = full_map-Distinct;
}

shortened_lem : rewrite_response_ttl response 5 ≡ some shortened
unfolding caching wire
shortened_lem = refl

added : add_to_cache 100 key response server ≡ some server_after
unfolding caching wire
added = refl

-- a hit moves its entry to the end
hit_moves :
    (get_from_cache 1000 (codes "a") server).1.cache_map
    ≡ (codes "b", entry_at 2)
      ∷ (codes "a", record { response = shortened; inserted_at = 1; ttl_ms = 4001 })
      ∷ []
unfolding caching wire
hit_moves = refl

rewrite_response_ttl-message_example :
    rewrite_response_ttl (message 7 0x8400 1 asked ++ answers_bytes answers) 5
    ≡ some (message 7 0x8400 1 asked ++ answers_bytes (map (with_ttl 5) answers))
rewrite_response_ttl-message_example =
    rewrite_response_ttl-message 7 0x8400 5 asked answers (omega arith) (omega arith) (omega arith)
      asked-IsQuestion answers-IsAnswer

evict_loop_ends_example :
    (m' : OrderedMap CacheEntry) × (evict_loop 2 1 full_map ≡ some m')
    × (length m' < 1)
    × Distinct m'
evict_loop_ends_example = evict_loop_ends 2 1 full_map (omega arith) (omega arith) full_map-Distinct
