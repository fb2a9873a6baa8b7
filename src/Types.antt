-- ===== src/Types.antt =====
-- packages/core/src/types.ts: the records, the configuration and the DNS constants. Optional
-- fields are `Option`; a `Record<string, T>` is the list of its entries in their order.
use zonzon.Base.{ℕ, Bool, Option, List}
use zonzon.Base.Text.{Text}

pub data DnsRecord : Type 0 where
  a : Text → DnsRecord
  aaaa : Text → DnsRecord
  cname : Text → DnsRecord
  txt : List Text → DnsRecord
  mx : ℕ → Text → DnsRecord
  ns : Text → DnsRecord
  srv : ℕ → ℕ → ℕ → Text → DnsRecord
  ptr : Text → DnsRecord

pub record TlsConfig : Type 0 where
  pub cert : Text
  pub key : Text
  pub ca : Option Text
  pub server_name : Option Text

pub record HttpProxyConfig : Type 0 where
  pub enabled : Bool
  pub upstream : Option Text
  pub headers : List (Text × Text)
  pub forward_request_body : Option Bool
  pub max_request_body_bytes : Option ℕ
  pub client_tls : Option TlsConfig

pub record TlsProxyConfig : Type 0 where
  pub target_port : Option ℕ
  pub target_ip : Option Text

pub record RedirectConfig : Type 0 where
  pub enabled : Bool
  pub code : ℕ
  pub target : Text

pub record HostConfig : Type 0 where
  pub records : List DnsRecord
  pub http_proxy : Option HttpProxyConfig
  pub tls_proxy : Option TlsProxyConfig
  pub redirect : Option RedirectConfig

pub data Policy : Type 0 where
  allow deny : Policy

pub record FirewallConfig : Type 0 where
  pub default_policy : Policy
  pub allowlist_domains : Option (List Text)
  pub blocklist_domains : Option (List Text)
  pub allowlist_ranges : Option (List Text)
  pub blocklist_ranges : Option (List Text)
  pub allowlist_ips : Option (List Text)
  pub blocklist_ips : Option (List Text)

abbrev pub Hosts : Type 0
Hosts = List (Text × HostConfig)

-- `ServerConfig` without `controlPlane`.
pub record ServerConfig : Type 0 where
  pub port : ℕ
  pub http_port : Option ℕ
  pub https_port : Option ℕ
  pub tls : Option TlsConfig
  pub dot_port : Option ℕ
  pub doh_port : Option ℕ
  pub fallback_dns : Option Text
  pub firewall : Option FirewallConfig
  pub dns_cache_max_size : Option ℕ
  pub dns_cache_ttl_ms : Option ℕ
  pub max_tcp_connections : Option ℕ
  pub tcp_idle_timeout_ms : Option ℕ
  pub rate_limit_max_requests : Option ℕ
  pub rate_limit_window_ms : Option ℕ
  pub hosts : Hosts

pub record ProxiedRequest : Type 0 where
  pub hostname : Text
  pub original_url : Text
  pub headers : List (Text × Text)
  pub method : Text
  pub body : Option (List ℕ)

pub record ModifiedHeaders : Type 0 where
  pub upstream_headers : List (Text × Text)
  pub client_response_headers : List (Text × Text)

-- `DNS_CLASSES`, `DNS_TYPES`, `DNS_RCODE` and `RESPONSE_FLAGS`
abbrev pub class_in : ℕ
class_in = 1

abbrev pub type_a : ℕ
type_a = 1

abbrev pub type_ns : ℕ
type_ns = 2

abbrev pub type_cname : ℕ
type_cname = 5

abbrev pub type_ptr : ℕ
type_ptr = 12

abbrev pub type_mx : ℕ
type_mx = 15

abbrev pub type_txt : ℕ
type_txt = 16

abbrev pub type_aaaa : ℕ
type_aaaa = 28

abbrev pub type_srv : ℕ
type_srv = 33

abbrev pub type_opt : ℕ
type_opt = 41

abbrev pub type_rrsig : ℕ
type_rrsig = 46

abbrev pub type_dnskey : ℕ
type_dnskey = 48

abbrev pub rcode_noerror : ℕ
rcode_noerror = 0

abbrev pub rcode_servfail : ℕ
rcode_servfail = 2

abbrev pub rcode_nxdomain : ℕ
rcode_nxdomain = 3

abbrev pub rcode_refused : ℕ
rcode_refused = 5

abbrev pub flag_qr : ℕ
flag_qr = 0x8000

abbrev pub flag_aa : ℕ
flag_aa = 0x400
