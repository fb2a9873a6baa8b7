-- ===== src/Handler.antt =====
-- `DnsHandler` of packages/core/src/dns-handler.ts, the part that its transports share. `none` is a
-- throw; the log lines are left out.
pub mod Replies
pub mod Samples
pub mod Udp
pub mod Tcp
pub mod Doh
use zonzon.Base.{
  ℕ, zero, suc, ◌+◌, Bool, true, false, ◌&&◌, ◌||◌, not, Option, none, some, List, [], ◌∷◌, ltb,
  leb, ◌==◌, if◌then◌else◌, length, find, get_or,
}
use zonzon.Base.Text.{Text, codes, text_eq, to_lower, lower, starts_with, join}
use zonzon.Base.Bytes.{Bytes, byte_at}
use zonzon.Types.{ServerConfig, FirewallConfig, type_a}
use zonzon.Wire.{DnsWireFormat, read_domain_name, read_uint16, wire}
use zonzon.Firewall.{evaluate_ip, octets, lists, firewall}
use zonzon.Firewall.Address.{show_octet, is_ipv4, is_ipv6, addresses}
use zonzon.RateLimiter.{RateLimiter, allow, limiter}
use zonzon.RateLimiter
use zonzon.Dns.Question.{ParsedQuestion}
use zonzon.Dns.Cache.{DevDnsServer}
use zonzon.Dns.Server.{is_block}
use zonzon.Dnssec.{skip_questions}
use zonzon.Dnssec.Validation.{validating}

pub record RemoteInfo : Type 0 where
  pub address : Text
  pub port : ℕ

-- the timer of the entry belongs to the event loop
pub record PendingUdpQuery : Type 0 where
  pub rinfo : RemoteInfo
  pub original_id : ℕ

-- What one call of `forwardUdpQuery` leaves behind: an open socket with the variables that its
-- callbacks read.
pub record Forward : Type 0 where
  pub socket : ℕ
  pub query : Bytes
  pub client_info : RemoteInfo
  pub original_id : ℕ
  pub ephemeral_id : ℕ
  pub tracking_id : ℕ
  pub expected_names : List Text

abbrev pub Pending : Type 0
Pending = List (ℕ × PendingUdpQuery)

pub record DnsHandler : Type 0 where
  pub server : DevDnsServer
  pub config : ServerConfig
  pub fallback_dns : Option Text
  pub max_tcp_connections : ℕ
  pub tcp_idle_timeout_ms : ℕ
  pub pending_upstream_queries : Pending
  pub forwards : List Forward
  pub next_socket : ℕ
  pub rate_limiter : Option RateLimiter

abbrev pub max_concurrent_udp_forwards : ℕ
max_concurrent_udp_forwards = 2000

abbrev or_default : ℕ → Option ℕ → ℕ
or_default d none = d
or_default d (some n) = n

-- `config.rateLimitMaxRequests && config.rateLimitMaxRequests > 0`
unfoldable pub make_limiter : Option ℕ → Option ℕ → Option RateLimiter
make_limiter none window = none
make_limiter (some zero) window = none
make_limiter (some (suc n)) window = some (
    RateLimiter.init
      (record { max_requests = suc n; window_ms = or_default 1000 window; max_tracked_ips = none }))

-- the constructor
unfoldable pub init : DevDnsServer → ServerConfig → DnsHandler
unfolding make_limiter
init server config = record {
  server = server;
  config = config;
  fallback_dns = config.fallback_dns;
  max_tcp_connections = or_default 100 config.max_tcp_connections;
  tcp_idle_timeout_ms = or_default 30000 config.tcp_idle_timeout_ms;
  pending_upstream_queries = [];
  forwards = [];
  next_socket = 0;
  rate_limiter = make_limiter config.rate_limit_max_requests config.rate_limit_window_ms;
}

-- with the limiter, if there is one
unfoldable pub count_request : ℕ → Text → DnsHandler → Option RateLimiter → DnsHandler × Bool
count_request now ip h none = (h, false)
count_request now ip h (some limiter) =
    let (limiter', allowed) = allow now ip limiter in
    (record h { rate_limiter = some limiter' }, not allowed)

unfoldable pub is_rate_limited : ℕ → Text → DnsHandler → DnsHandler × Bool
is_rate_limited now ip h = count_request now ip h h.rate_limiter

-- `${resp[at]}`
abbrev pub show_byte : Bytes → ℕ → Text
show_byte resp at = if ltb at (length resp) then show_octet (byte_at resp at) else codes "undefined"

unfoldable pub show_address : Bytes → ℕ → Text
show_address resp at = join b'.' (
    show_byte resp at
    ∷ show_byte resp (at + 1)
    ∷ show_byte resp (at + 2)
    ∷ show_byte resp (at + 3)
    ∷ [])

-- the loop over the answers
unfoldable pub resolved_loop : ℕ → DnsWireFormat → List Text
resolved_loop zero f = []
resolved_loop (suc n) f =
    let (name, f1) = read_domain_name f in
    let (type, f2) = read_uint16 f1 in
    let (len, f3) = read_uint16 (record f2 { offset = f2.offset + 6 }) in
    let ips = resolved_loop n (record f3 { offset = f3.offset + len }) in
    if type == type_a && len == 4 then show_address f3.buf f3.offset ∷ ips else ips

unfoldable pub parse_resolved_ipv4s : Bytes → List Text
parse_resolved_ipv4s resp =
    let (qd, f1) = read_uint16 (record { buf = resp; offset = 4 }) in
    let (an, f2) = read_uint16 f1 in
    resolved_loop an (skip_questions qd (record f2 { offset = f2.offset + 4 }))

-- the first address of a reply that the firewall denies
unfoldable pub blocked_ip : Option FirewallConfig → List Text → Option Text
blocked_ip fw ips = find (λ ip. is_block (evaluate_ip ip fw)) ips

-- the loop over `expectedNames`
unfoldable pub same_names : List Text → List ParsedQuestion → Bool
same_names [] qs = true
same_names (name ∷ names) [] = false
same_names (name ∷ names) (q ∷ qs) = text_eq q.name name && same_names names qs

unfoldable pub valid_0x20 : List Text → List ParsedQuestion → Bool
valid_0x20 names qs = length names == length qs && same_names names qs

-- the tests on `parts[0]` and `parts[1]`
unfoldable pub is_private_octets : ℕ → ℕ → Bool
is_private_octets p0 p1 =
    p0 == 10 || p0 == 127 || (p0 == 172 && leb 16 p1 && leb p1 31) || (p0 == 192 && p1 == 168)

unfoldable pub is_private_ip : Text → Bool
is_private_ip ip =
    let normalized = to_lower ip in
    if not (is_ipv4 ip) && not (is_ipv6 ip)
    then false
    else if is_ipv6 ip
    then text_eq normalized (codes "::1")
      || starts_with normalized (codes "fe80:")
      || starts_with normalized (codes "fc00:")
      || starts_with normalized (codes "fd")
    else is_private_octets (get_or (octets ip) 0 0) (get_or (octets ip) 1 0)

-- whom a query is forwarded for: with a firewall, only a private or listed address
unfoldable pub may_forward : Option FirewallConfig → Text → Bool
may_forward none address = true
may_forward (some fw) address = is_private_ip address || lists fw.allowlist_ips address

unfoldable pub handling : Unit {0}
unfolding validating firewall limiter lower count_request is_rate_limited show_address resolved_loop
    parse_resolved_ipv4s blocked_ip same_names valid_0x20 is_private_octets is_private_ip
    may_forward make_limiter init
handling = tt
