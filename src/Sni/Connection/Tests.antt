-- ===== src/Sni/Connection/Tests.antt =====
-- A ClientHello in three chunks, its target, and the theorems at them.
use zonzon.Base.{◌≡◌, refl, Option, none, some, List, [], ◌∷◌, arith, take, drop, replicate}
use zonzon.Base.Text.{Text, codes}
use zonzon.Base.Bytes.{Bytes}
use zonzon.Types.{a, txt, HostConfig, ServerConfig, FirewallConfig, allow}
use zonzon.Sni.ClientHello.{hello_bytes}
use zonzon.Sni.Connection.{dropped, tunnel, gathering, decided, route, on_chunks, routing}
use zonzon.Sni.Connection.Gathering.{IsRoutedFrom, on_chunks-routed, on_chunks-whole}

abbrev rules : FirewallConfig
rules = record {
  default_policy = allow;
  allowlist_domains = none;
  blocklist_domains = some (codes "x.y" ∷ []);
  allowlist_ranges = none;
  blocklist_ranges = none;
  allowlist_ips = some (codes "10.0.0.1" ∷ []);
  blocklist_ips = none;
}

abbrev host : HostConfig
host = record {
  records = txt (codes "t" ∷ []) ∷ a (codes "10.0.0.1") ∷ [];
  http_proxy = none;
  tls_proxy = some (record { target_port = some 8443; target_ip = none });
  redirect = none;
}

abbrev config : ServerConfig
config = record {
  port = 53;
  http_port = none;
  https_port = none;
  tls = none;
  dot_port = none;
  doh_port = none;
  fallback_dns = none;
  firewall = some rules;
  dns_cache_max_size = none;
  dns_cache_ttl_ms = none;
  max_tcp_connections = none;
  tcp_idle_timeout_ms = none;
  rate_limit_max_requests = none;
  rate_limit_window_ms = none;
  hosts = (codes "*.b.c", host) ∷ [];
}

abbrev hello : Text → Bytes
hello name = hello_bytes (record {
  head = 0x16 ∷ 3 ∷ 1 ∷ 0 ∷ 61 ∷ 1 ∷ replicate 37 0;
  session = [];
  ciphers = 0x13 ∷ 0x01 ∷ [];
  compression = 0 ∷ [];
  before_name = [];
  name = name;
  behind_name = [];
})

abbrev resolver : Text → Option (List Text)
resolver name = some (codes "127.0.0.1" ∷ [])

abbrev named : Bytes
named = hello (codes "A.b.c")

abbrev chunks : List Bytes
chunks = take 3 named ∷ take 20 (drop 3 named) ∷ drop 23 named ∷ []

tunneled :
    on_chunks config resolver chunks (gathering []) ≡ decided (tunnel (codes "10.0.0.1") 8443)
unfolding routing
tunneled = refl

blocked_name : route config resolver (hello (codes "x.y")) ≡ dropped 403
unfolding routing
blocked_name = refl

blocked_address : route config resolver (hello (codes "d.e")) ≡ dropped 403
unfolding routing
blocked_address = refl

no_name :
    on_chunks config resolver ((0x16 ∷ 3 ∷ 1 ∷ 0 ∷ 0 ∷ []) ∷ []) (gathering [])
    ≡ decided (dropped 400)
unfolding routing
no_name = refl

on_chunks-routed_example : IsRoutedFrom config resolver named (codes "10.0.0.1") 8443
on_chunks-routed_example =
    on_chunks-routed config resolver chunks [] (codes "10.0.0.1") 8443 tunneled

on_chunks-whole_example :
    on_chunks config resolver chunks (gathering []) ≡ decided (route config resolver named)
on_chunks-whole_example =
    on_chunks-whole config resolver named chunks [] (omega arith) refl (omega arith) (omega arith)
      refl
