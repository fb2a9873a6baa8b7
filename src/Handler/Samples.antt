-- ===== src/Handler/Samples.antt =====
-- The data of the tests: a handler, a query and its replies.
use zonzon.Base.{ℕ, ◌+◌, false, none, some, [], ◌∷◌, ◌++◌}
use zonzon.Base.Text.{codes}
use zonzon.Base.Bytes.{Bytes, be16, be32}
use zonzon.Types.{ServerConfig, FirewallConfig, allow}
use zonzon.Dns.Cache.{DevDnsServer}
use zonzon.Dnssec.{Crypto}
use zonzon.Handler.{RemoteInfo, DnsHandler}

abbrev pub rules : FirewallConfig
rules = record {
  default_policy = allow;
  allowlist_domains = none;
  blocklist_domains = none;
  allowlist_ranges = none;
  blocklist_ranges = none;
  allowlist_ips = none;
  blocklist_ips = some (codes "10.0.0.2" ∷ []);
}

abbrev pub config : ServerConfig
config = record {
  port = 53;
  http_port = none;
  https_port = none;
  tls = none;
  dot_port = none;
  doh_port = none;
  fallback_dns = some (codes "9.9.9.9");
  firewall = some rules;
  dns_cache_max_size = none;
  dns_cache_ttl_ms = none;
  max_tcp_connections = none;
  tcp_idle_timeout_ms = none;
  rate_limit_max_requests = some 10;
  rate_limit_window_ms = none;
  hosts = [];
}

abbrev pub server : DevDnsServer
server = record { config = config; cache_map = []; dns_cache_max_size = 8; dns_cache_ttl_ms = 0 }

abbrev pub idle : DnsHandler
idle = record {
  server = server;
  config = config;
  fallback_dns = config.fallback_dns;
  max_tcp_connections = 100;
  tcp_idle_timeout_ms = 30000;
  pending_upstream_queries = [];
  forwards = [];
  next_socket = 0;
  rate_limiter = none;
}

abbrev pub client : RemoteInfo
client = record { address = codes "192.168.1.5"; port = 4000 }

-- one question, for the addresses of a name of two letters
abbrev pub packet : ℕ → ℕ → ℕ → Bytes → Bytes
packet id flags ancount name =
    be16 id
    ++ (be16 flags
        ++ (be16 1 ++ (be16 ancount ++ (be32 0 ++ (2 ∷ (name ++ (0 ∷ (be16 1 ++ be16 1))))))))

abbrev pub query : Bytes
query = packet 7 0x0100 0 (codes "ab")

abbrev pub reply_with : ℕ → Bytes → Bytes
reply_with id address =
    packet id 0x8180 1 (codes "aB")
    ++ (0xc0 ∷ 0x0c ∷ (be16 1 ++ (be16 1 ++ (be32 60 ++ (be16 4 ++ address)))))

abbrev pub good : Bytes
good = 10 ∷ 0 ∷ 0 ∷ 1 ∷ []

abbrev pub bad : Bytes
bad = 10 ∷ 0 ∷ 0 ∷ 2 ∷ []

abbrev pub entropy : ℕ → ℕ
entropy at = at + 1

abbrev pub crypto : Crypto
crypto = record {
  rsa_spki = λ exponent modulus. none;
  verify = λ algorithm payload spki p1363 signature. some false;
}
