-- ===== src/HttpProxy/Tests.antt =====
-- A target of each kind, headers, and the theorems at them.
use zonzon.Base.{◌≡◌, ◌≢◌, refl, true, false, Option, none, some, List, [], ◌∷◌, All, if◌then◌else◌}
use zonzon.Base.Text.{Text, codes, text_eq}
use zonzon.Types.{
  a, txt, HostConfig, HttpProxyConfig, ServerConfig, FirewallConfig, ProxiedRequest,
  ModifiedHeaders, allow,
}
use zonzon.Sni.Connection.Routing.{Permits}
use zonzon.HttpProxy.{
  Url, Target, domain_blocked, resolution_fault, restricted_ip, ip_blocked, targets,
  validate_target_firewall, sanitize_header, is_valid_header_name, get_upstream_headers,
  check_redirect, client_headers, proxying,
}
use zonzon.HttpProxy.Targets.{HasTargets, validate_target_firewall_iff}
use zonzon.HttpProxy.Headers.{AreClean, get_upstream_headers-AreClean}

abbrev pub rules : FirewallConfig
rules = record {
  default_policy = allow;
  allowlist_domains = none;
  blocklist_domains = some (codes "x.y" ∷ []);
  allowlist_ranges = none;
  blocklist_ranges = none;
  allowlist_ips = some (codes "10.0.0.1" ∷ []);
  blocklist_ips = some (codes "9.9.9.9" ∷ []);
}

abbrev proxy : HttpProxyConfig
proxy = record {
  enabled = true;
  upstream = some (codes "http://b.c");
  headers = (codes "X-Key", codes "secret") ∷ (codes "X-Split", codes "a\r\nb") ∷ [];
  forward_request_body = some true;
  max_request_body_bytes = none;
  client_tls = none;
}

abbrev pub host : HostConfig
host = record {
  records = txt (codes "t" ∷ []) ∷ a (codes "10.0.0.1") ∷ [];
  http_proxy = some proxy;
  tls_proxy = none;
  redirect = none;
}

abbrev pub config : ServerConfig
config = record {
  port = 53;
  http_port = none;
  https_port = none;
  tls = none;
  dot_port = none;
  doh_port = none;
  fallback_dns = none;
  firewall = some rules;
  dns_cache_max_size = none;
  dns_cache_ttl_ms = none;
  max_tcp_connections = none;
  tcp_idle_timeout_ms = none;
  rate_limit_max_requests = none;
  rate_limit_window_ms = none;
  hosts = (codes "b.c", host) ∷ [];
}

abbrev pub url_of : Text → Url
url_of name = record {
  protocol = codes "http:";
  host = name;
  hostname = name;
  port = [];
  pathname = codes "/";
  search = [];
  href = name;
}

-- here a URL is its host name
abbrev pub parse_url : Text → Option Url
parse_url [] = none
parse_url (c ∷ name) = some (url_of (c ∷ name))

abbrev pub resolver : Text → Option (List Text)
resolver name = if text_eq name (codes "gone") then none else some (codes "127.0.0.1" ∷ [])

abbrev validate : Text → Target
validate = validate_target_firewall config resolver parse_url

hosted : validate (codes "b.c") ≡ targets (codes "10.0.0.1" ∷ [])
unfolding proxying
hosted = refl

denied_name : validate (codes "x.y") ≡ domain_blocked (codes "x.y")
unfolding proxying
denied_name = refl

loopback : validate (codes "d.e") ≡ restricted_ip (codes "127.0.0.1")
unfolding proxying
loopback = refl

denied_address : validate (codes "9.9.9.9") ≡ ip_blocked (codes "9.9.9.9")
unfolding proxying
denied_address = refl

unresolved : validate (codes "gone") ≡ resolution_fault (codes "gone")
unfolding proxying
unresolved = refl

abbrev req : ProxiedRequest
req = record {
  hostname = codes "b.c";
  original_url = codes "/";
  headers = (codes "content-length", codes "3") ∷ [];
  method = codes "POST";
  body = none;
}

abbrev added : ModifiedHeaders
added = record {
  upstream_headers =
      (codes "X-Key", codes "secret")
      ∷ (codes "X-Body-Forwarded", codes "true")
      ∷ (codes "X-Body-Size", codes "3")
      ∷ [];
  client_response_headers = client_headers;
}

headers_added : get_upstream_headers some host req ≡ some added
unfolding proxying
headers_added = refl

encoded : sanitize_header (codes "a%0Db") ≡ none
unfolding proxying
encoded = refl

names :
    (is_valid_header_name (codes "X-Key_1") ≡ true) × (is_valid_header_name (codes "X Key") ≡ false)
unfolding proxying
names = (refl, refl)

moved :
    check_redirect parse_url (record host {
      redirect = some (record { enabled = true; code = 308; target = codes "d.e" });
    })
    ≡ some (308, codes "d.e")
unfolding proxying
moved = refl

abbrev Passed : Text → List Text → Type 0
Passed url ips =
    (u : Url) × (parse_url url ≡ some u)
    × HasTargets config resolver u.hostname ips
    × (ips ≢ [])
    × All (Permits config) ips

validate_target_firewall_iff_example : Passed (codes "b.c") (codes "10.0.0.1" ∷ [])
validate_target_firewall_iff_example =
    (validate_target_firewall_iff config resolver parse_url (codes "b.c") (codes "10.0.0.1" ∷ [])).0
      hosted

get_upstream_headers-AreClean_example : AreClean req added.upstream_headers
get_upstream_headers-AreClean_example =
    get_upstream_headers-AreClean some req host added headers_added
