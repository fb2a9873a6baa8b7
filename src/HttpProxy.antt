-- ===== src/HttpProxy.antt =====
-- `HttpProxyService` of packages/core/src/http-proxy.ts. `parse_url` is the constructor of `URL`,
-- `none` where it throws; `dns_resolve` is `resolve` of node:dns/promises, the strings that it gives,
-- or `none` where it rejects; `decrypt_secret` is that of crypto.ts, `none` where it throws.
pub mod Targets
pub mod Headers
pub mod Tests
use zonzon.Base.{
  ℕ, zero, suc, ◌+◌, ◌*◌, Bool, true, false, ◌&&◌, ◌||◌, not, Option, none, some, List, [], ◌∷◌,
  ltb, leb, ◌==◌, if◌then◌else◌, ◌>>=◌, length, any, all, min, max,
}
use zonzon.Base.Text.{Text, codes, text_eq, has_part, lower}
use zonzon.Base.OrderedMap.{get, set_key, maps}
use zonzon.Types.{
  HttpProxyConfig, RedirectConfig, HostConfig, FirewallConfig, ServerConfig, ProxiedRequest,
  ModifiedHeaders,
}
use zonzon.Firewall.{Verdict, permit, evaluate_domain, evaluate_outbound, evaluate_ip, firewall}
use zonzon.Firewall.Address.{is_ipv4, is_ipv6}
use zonzon.Dns.Server.{is_block, is_set, decimal}
use zonzon.Base.Text.{normalize_host}
use zonzon.Http.{faulting}
use zonzon.Sni.Connection.{find_host, records_of, if_none, routing}

-- what the code reads of a `URL`
pub record Url : Type 0 where
  pub protocol : Text
  pub host : Text
  pub hostname : Text
  pub port : Text
  pub pathname : Text
  pub search : Text
  pub href : Text

-- what `validateTargetFirewall` returns, or what it throws
pub data Target : Type 0 where
  invalid_url : Target
  domain_blocked : Text → Target
  resolution_fault : Text → Target
  nxdomain : Text → Target
  restricted_ip : Text → Target
  ip_blocked : Text → Target
  targets : List Text → Target

-- `net.isIP(host) !== 0`
abbrev pub is_ip : Text → Bool
is_ip host = is_ipv4 host || is_ipv6 host

-- a verdict that is only asked where there is a firewall
abbrev pub if_firewall : (Option FirewallConfig → Verdict) → Option FirewallConfig → Verdict
if_firewall verdict none = permit
if_firewall verdict (some fw) = verdict (some fw)

module _ (config : ServerConfig) where
  -- the loop over the addresses: all of them, or the first fault
  unfoldable pub check_ips : List Text → List Text → Target
  check_ips ips [] = targets ips
  check_ips ips (ip ∷ rest) =
      let others = check_ips ips rest in
      if is_block (evaluate_outbound ip config.firewall)
      then restricted_ip ip
      else if is_block (if_firewall (evaluate_ip ip) config.firewall)
      then ip_blocked ip
      else others

  -- from the addresses of a host on
  unfoldable pub check_targets : Text → Option (List Text) → Target
  check_targets host none = resolution_fault host
  check_targets host (some []) = nxdomain host
  check_targets host (some (ip ∷ ips)) = check_ips (ip ∷ ips) (ip ∷ ips)

  module _ (dns_resolve : Text → Option (List Text)) where
    abbrev or_resolved : Text → List Text → Option (List Text)
    or_resolved hostname [] = dns_resolve hostname
    or_resolved hostname (ip ∷ ips) = some (ip ∷ ips)

    -- the addresses of the host's records, and else those of `dns_resolve`
    unfoldable pub resolve_host : Text → Option (List Text)
    resolve_host hostname =
        or_resolved hostname (records_of (find_host (normalize_host hostname) config.hosts))

    unfoldable pub check_host : Text → Target
    check_host host =
        if is_ip host
        then check_targets host (some (host ∷ []))
        else if is_block (if_firewall (evaluate_domain host) config.firewall)
        then domain_blocked host
        else check_targets host (resolve_host host)

    abbrev pub check_url : Option Url → Target
    check_url none = invalid_url
    check_url (some u) = check_host u.hostname

    unfoldable pub validate_target_firewall : (Text → Option Url) → Text → Target
    validate_target_firewall parse_url target_url = check_url (parse_url target_url)

abbrev pub is_control : ℕ → Bool
is_control c = leb c 0x8 || c == 0xb || c == 0xc || (leb 0xe c && leb c 0x1f)

unfoldable pub sanitize_header : Text → Option Text
sanitize_header value =
    if any (λ c. c == 0xd || c == 0xa || c == 0x9) value
    then none
    else if any is_control value
    then none
    else if has_part value (codes "%0d")
        || has_part value (codes "%0D")
        || has_part value (codes "%0a")
        || has_part value (codes "%0A")
    then none
    else if ltb 8192 (length value)
    then none
    else some value

abbrev is_token : ℕ → Bool
is_token c =
    (leb b'a' c && leb c b'z')
    || (leb b'A' c && leb c b'Z')
    || (leb b'0' c && leb c b'9')
    || any (λ d. d == c) (codes "!#$%&'*+-.^_`|~")

unfoldable pub is_valid_header_name : Text → Bool
is_valid_header_name [] = false
is_valid_header_name (c ∷ name) =
    if ltb 256 (length (c ∷ name)) then false else all is_token (c ∷ name)

abbrev pub hop_by_hop_headers : List Text
hop_by_hop_headers =
    codes "connection"
    ∷ codes "keep-alive"
    ∷ codes "proxy-authenticate"
    ∷ codes "proxy-authorization"
    ∷ codes "te"
    ∷ codes "trailer"
    ∷ codes "transfer-encoding"
    ∷ codes "upgrade"
    ∷ []

-- the headers that the client gets
abbrev pub client_headers : List (Text × Text)
client_headers =
    (codes "X-Proxy", codes "zonzon")
    ∷ (codes "Strict-Transport-Security", codes "max-age=63072000; includeSubDomains; preload")
    ∷ (codes "X-Content-Type-Options", codes "nosniff")
    ∷ (codes "X-Frame-Options", codes "DENY")
    ∷ (codes "X-XSS-Protection", codes "1; mode=block")
    ∷ []

-- `if (sanitized)` and the assignment
abbrev pub assign : Text → Option Text → List (Text × Text) → List (Text × Text)
assign key none out = out
assign key (some []) out = out
assign key (some (c ∷ value)) out = set_key key (c ∷ value) out

abbrev pub or_five_mib : Option ℕ → ℕ
or_five_mib none = 5 * 1024 * 1024
or_five_mib (some n) = n

-- `config.http_proxy.forwardRequestBody`
abbrev pub is_true : Option Bool → Bool
is_true none = false
is_true (some b) = b

-- the size that the request itself gives
abbrev pub given_size : Option Text → List (Text × Text) → List (Text × Text)
given_size none out = out
given_size (some []) out = out
given_size (some (c ∷ size)) out = set_key (codes "X-Body-Size") (c ∷ size) out

-- the headers that tell of the body
unfoldable pub body_headers :
    HttpProxyConfig
    → ProxiedRequest
    → Option (List ℕ)
    → List (Text × Text)
    → Option (List (Text × Text))
body_headers proxy req none out = some (
    given_size (get (codes "content-length") req.headers)
      (set_key (codes "X-Body-Forwarded") (codes "true") out))
body_headers proxy req (some body) out =
    if leb (length body) (or_five_mib proxy.max_request_body_bytes)
    then some (
        set_key (codes "X-Body-Size") (decimal (suc (length body)) (length body))
          (set_key (codes "X-Body-Forwarded") (codes "true") out))
    else none

-- `if (config.http_proxy.forwardRequestBody)`
abbrev pub with_body :
    HttpProxyConfig → ProxiedRequest → List (Text × Text) → Bool → Option (List (Text × Text))
with_body proxy req out true = body_headers proxy req req.body out
with_body proxy req out false = some out

abbrev pub no_headers : ModifiedHeaders
no_headers = record { upstream_headers = []; client_response_headers = [] }

module _ (decrypt_secret : Text → Option Text) where
  -- the loop over the configured headers
  unfoldable pub decrypt_headers :
      List (Text × Text) → List (Text × Text) → Option (List (Text × Text))
  decrypt_headers [] out = some out
  decrypt_headers ((key, value) ∷ headers) out = do
    decrypted ← decrypt_secret value
    decrypt_headers headers (assign key (sanitize_header decrypted) out)

  unfoldable pub proxy_headers : HttpProxyConfig → ProxiedRequest → Option ModifiedHeaders
  proxy_headers proxy req = do
    decrypted ← decrypt_headers proxy.headers []
    out ← with_body proxy req decrypted (is_true proxy.forward_request_body)
    some (record { upstream_headers = out; client_response_headers = client_headers })

  abbrev pub of_proxy : Option HttpProxyConfig → ProxiedRequest → Option ModifiedHeaders
  of_proxy none req = some no_headers
  of_proxy (some proxy) req = if proxy.enabled then proxy_headers proxy req else some no_headers

  -- `none` is a throw
  unfoldable pub get_upstream_headers : HostConfig → ProxiedRequest → Option ModifiedHeaders
  get_upstream_headers config original_request = of_proxy config.http_proxy original_request

module _ (parse_url : Text → Option Url) where
  abbrev pub has_host : Option Url → Bool
  has_host none = false
  has_host (some u) = is_set (some u.protocol) && is_set (some u.hostname)

  abbrev pub of_redirect : Option RedirectConfig → Option (ℕ × Text)
  of_redirect none = none
  of_redirect (some redirect) =
      if not redirect.enabled
      then none
      else if not (any (λ code. code == redirect.code) (301 ∷ 302 ∷ 303 ∷ 307 ∷ 308 ∷ []))
      then none
      else if has_host (parse_url redirect.target)
      then some (redirect.code, redirect.target)
      else none

  unfoldable pub check_redirect : HostConfig → Option (ℕ × Text)
  check_redirect config = of_redirect config.redirect

abbrev is_enabled : Option HttpProxyConfig → Bool
is_enabled none = false
is_enabled (some proxy) = proxy.enabled

unfoldable pub calculate_timeout : HostConfig → ℕ
calculate_timeout config = if is_enabled config.http_proxy then max 1000 (min 30000 5000) else 0

unfoldable pub proxying : Unit {0}
unfolding routing firewall maps has_part check_ips check_targets resolve_host check_host
    validate_target_firewall sanitize_header is_valid_header_name decrypt_headers body_headers
    proxy_headers get_upstream_headers check_redirect calculate_timeout
proxying = tt
