-- ===== src/Http/Requests/Routes.antt =====
-- `handleConnect`, `handleForwardProxy` and `handleRequest` of packages/core/src/http-handler.ts: what
-- a request comes to. `status 500` is the reply to an error that nothing else catches.
use zonzon.Base.{
  ℕ, suc, ◌*◌, Bool, ◌&&◌, not, Option, none, some, List, [], ◌∷◌, ◌++◌, ◌==◌, if◌then◌else◌,
}
use zonzon.Base.Text.{Text, codes, starts_with, has_part, split}
use zonzon.Base.OrderedMap.{get}
use zonzon.Types.{TlsConfig, HttpProxyConfig, HostConfig, ServerConfig, ModifiedHeaders}
use zonzon.Firewall.{evaluate_domain, evaluate_outbound, evaluate_ip}
use zonzon.Firewall.Address.{Number, nan, pos, neg, parse_int}
use zonzon.Dns.Server.{is_block, decimal}
use zonzon.Sni.Connection.{or_else}
use zonzon.Http.{find_wildcard_host}
use zonzon.HttpProxy.{
  Url, Target, targets, is_ip, resolve_host, validate_target_firewall, get_upstream_headers,
  check_redirect, or_five_mib, is_true, no_headers,
}
use zonzon.Http.Requests.{
  Runtime, HeaderValue, Request, value_text, header, text_or_empty, is_bodiless, Material, pem,
  file, TlsMaterial, Handling, status, location, proxied, fault, invalid_url_fault, nxdomain_fault,
  full_path, is_looped, out_request, requesting,
}

-- `validatedIps[0]`; a target has at least one address
unfoldable pub first_target : Target → Option Text
first_target (targets (ip ∷ ips)) = some ip
first_target other = none

-- a tunnel to an address and a port, or a refusal with 403
pub data Tunnel : Type 0 where
  opened : Text → Number → Tunnel
  refused : Tunnel

abbrev show_number : Number → Text
show_number nan = codes "NaN"
show_number (pos n) = decimal (suc n) n
show_number (neg n) = codes "-" ++ decimal (suc n) n

-- `portStr ? parseInt(portStr, 10) : 443`
unfoldable pub connect_port : List Text → Number
connect_port [] = pos 443
connect_port ([] ∷ parts) = pos 443
connect_port ((c ∷ port) ∷ parts) = parse_int 10 (c ∷ port)

abbrev pub to_tunnel : Number → Option Text → Tunnel
to_tunnel port none = refused
to_tunnel port (some ip) = opened ip port

-- the host name of the `Host` header, from behind its `[` on
unfoldable pub before_bracket : Text → Option Text
before_bracket [] = none
before_bracket (c ∷ s) =
    if c == b']' then some [] else elim (before_bracket s) [ none ↦ none | some t ↦ some (c ∷ t) ]

abbrev or_whole : Text → Option Text → Text
or_whole raw none = raw
or_whole raw (some t) = t

abbrev first_part : List Text → Text
first_part [] = []
first_part (part ∷ parts) = part

unfoldable pub host_name_of : Text → Text
host_name_of [] = []
host_name_of (c ∷ raw) =
    if c == b'[' then or_whole (c ∷ raw) (before_bracket raw) else first_part (split b':' (c ∷ raw))

-- a header whose values are one text
abbrev flat : List (Text × HeaderValue) → List (Text × Text)
flat [] = []
flat ((k, v) ∷ headers) = (k, value_text v) ∷ flat headers

-- what the `try` around `getUpstreamHeaders` makes of a throw
abbrev pub or_no_headers : Option ModifiedHeaders → ModifiedHeaders
or_no_headers none = no_headers
or_no_headers (some headers) = headers

module _ (config : ServerConfig) (rt : Runtime) where
  abbrev pub validated : Text → Option Text
  validated url = first_target (validate_target_firewall config rt.dns_resolve rt.parse_url url)

  abbrev pub tunnel_to : Text → Number → Tunnel
  tunnel_to hostname port =
      to_tunnel port (validated (codes "https://" ++ (hostname ++ (codes ":" ++ show_number port))))

  abbrev pub tunnel_of : List Text → Tunnel
  tunnel_of [] = tunnel_to [] (pos 443)
  tunnel_of (hostname ∷ rest) = tunnel_to hostname (connect_port rest)

  -- where a CONNECT goes
  unfoldable pub handle_connect : Text → Tunnel
  handle_connect target_url = tunnel_of (split b':' target_url)

  unfoldable pub resolve_tls_material : Text → Option Material
  resolve_tls_material data_ =
      if has_part data_ (codes "-----BEGIN")
      then some (pem data_)
      else elim (rt.read_file data_) [ none ↦ none | some content ↦ some (file content) ]

  module _ (now : ℕ) (req : Request) where
    abbrev pub streams : Bool
    streams = not (is_bodiless req.method)

    abbrev pub forward_to : Url → Option Text → Handling
    forward_to u none = status 403
    forward_to u (some ip) =
        proxied u.hostname
          (out_request rt now req u ip u.hostname streams [] [] (5 * 1024 * 1024) none)

    abbrev pub forward_url : Option Url → Handling
    forward_url none = status 500
    forward_url (some u) = forward_to u (validated u.href)

    unfoldable pub handle_forward_proxy : Handling
    handle_forward_proxy = forward_url (rt.parse_url req.url)

    abbrev pub redirect_to : ℕ → Text → Option Text → Handling
    redirect_to code target none = status 403
    redirect_to code target (some ip) = location code target

    -- `safePath`
    abbrev pub path_of : Option Url → Text
    path_of none = codes "/"
    path_of (some u) = full_path u

    -- a certificate or a key; a file that cannot be read is a fault
    abbrev pub or_fault : Text → (Material → Handling) → Option Material → Handling
    or_fault data_ k none = fault (rt.file_fault data_)
    or_fault data_ k (some material) = k material

    abbrev pub with_material : Text → (Material → Handling) → Handling
    with_material data_ k = or_fault data_ k (resolve_tls_material data_)

    abbrev pub with_ca : Option Text → (Option Material → Handling) → Handling
    with_ca none k = k none
    with_ca (some []) k = k none
    with_ca (some (c ∷ ca)) k = with_material (c ∷ ca) (λ material. k (some material))

    abbrev pub with_client_tls : (Option TlsMaterial → Handling) → Option TlsConfig → Handling
    with_client_tls k none = k none
    with_client_tls k (some tls) = with_material tls.cert (λ cert. with_material tls.key (λ key.
        with_ca tls.ca (λ ca.
          k (some (record { cert = cert; key = key; ca = ca; server_name = tls.server_name })))))

    -- the headers for the upstream and the client
    abbrev added_headers : HostConfig → Text → ModifiedHeaders
    added_headers host hostname = or_no_headers (
        get_upstream_headers rt.decrypt_secret host (record {
          hostname = hostname;
          original_url = req.url;
          headers = flat req.headers;
          method = req.method;
          body = none;
        }))

    abbrev pub upstream_request :
        HostConfig → HttpProxyConfig → Text → Text → Url → Option TlsMaterial → Handling
    upstream_request host proxy hostname ip u client_tls = proxied u.hostname (
        out_request rt now req u ip u.hostname (is_true proxy.forward_request_body && streams)
          (added_headers host hostname).upstream_headers
          (added_headers host hostname).client_response_headers
          (or_five_mib proxy.max_request_body_bytes) client_tls)

    abbrev pub send_upstream : HostConfig → HttpProxyConfig → Text → Text → Option Url → Handling
    send_upstream host proxy hostname ip none = fault invalid_url_fault
    send_upstream host proxy hostname ip (some u) =
        with_client_tls (upstream_request host proxy hostname ip u) proxy.client_tls

    abbrev pub upstream_at : HostConfig → HttpProxyConfig → Text → Url → Option Text → Handling
    upstream_at host proxy hostname base none = status 403
    upstream_at host proxy hostname base (some ip) = send_upstream host proxy hostname ip (
        rt.parse_relative (path_of (rt.parse_relative req.url (codes "http://safe.local")))
          base.href)

    unfoldable pub to_upstream : HostConfig → HttpProxyConfig → Text → Option Url → Handling
    to_upstream host proxy hostname none = fault invalid_url_fault
    to_upstream host proxy hostname (some base) =
        upstream_at host proxy hostname base (validated base.href)

    abbrev pub max_body_of : Option HostConfig → ℕ
    max_body_of none = 5 * 1024 * 1024
    max_body_of (some host) = elim host.http_proxy [
      | none ↦ 5 * 1024 * 1024
      | some proxy ↦ or_five_mib proxy.max_request_body_bytes
    ]

    abbrev pub send_direct : Text → Text → Option Url → Handling
    send_direct hostname ip none = fault invalid_url_fault
    send_direct hostname ip (some u) = proxied hostname (
        out_request rt now req u ip hostname streams [] [] (max_body_of (get hostname config.hosts))
          none)

    -- from the address on
    unfoldable pub to_address : Text → Text → Text → Handling
    to_address raw_host hostname ip =
        if is_block (evaluate_ip ip config.firewall)
        then status 403
        else if is_block (evaluate_outbound ip config.firewall)
        then status 403
        else send_direct hostname ip (rt.parse_relative req.url (codes "http://" ++ raw_host))

    abbrev pub to_first : Text → Text → Option (List Text) → Handling
    to_first raw_host hostname none = fault (rt.dns_fault hostname)
    to_first raw_host hostname (some []) = fault nxdomain_fault
    to_first raw_host hostname (some (ip ∷ ips)) = to_address raw_host hostname ip

    -- a host that has no upstream
    unfoldable pub handle_direct : Text → Text → Handling
    handle_direct raw_host hostname =
        if is_ip hostname
        then (if is_block (evaluate_ip hostname config.firewall)
            then status 403
            else to_address raw_host hostname hostname)
        else if is_block (evaluate_domain hostname config.firewall)
        then status 403
        else to_first raw_host hostname (resolve_host config rt.dns_resolve hostname)

    abbrev pub with_upstream : Text → Text → HostConfig → HttpProxyConfig → Option Text → Handling
    with_upstream raw_host hostname host proxy none = handle_direct raw_host hostname
    with_upstream raw_host hostname host proxy (some []) = handle_direct raw_host hostname
    with_upstream raw_host hostname host proxy (some (c ∷ upstream)) =
        if proxy.enabled
        then to_upstream host proxy hostname (rt.parse_url (c ∷ upstream))
        else handle_direct raw_host hostname

    abbrev pub with_proxy : Text → Text → HostConfig → Option HttpProxyConfig → Handling
    with_proxy raw_host hostname host none = handle_direct raw_host hostname
    with_proxy raw_host hostname host (some proxy) =
        with_upstream raw_host hostname host proxy proxy.upstream

    abbrev pub with_redirect : Text → Text → HostConfig → Option (ℕ × Text) → Handling
    with_redirect raw_host hostname host none = with_proxy raw_host hostname host host.http_proxy
    with_redirect raw_host hostname host (some (code, target)) =
        redirect_to code target (validated target)

    abbrev pub with_host : Text → Text → Option HostConfig → Handling
    with_host raw_host hostname none = handle_direct raw_host hostname
    with_host raw_host hostname (some host) =
        with_redirect raw_host hostname host (check_redirect rt.parse_url host)

    unfoldable pub handle_host : Text → Text → Handling
    handle_host raw_host [] = status 400
    handle_host raw_host (c ∷ name) =
        with_host raw_host (c ∷ name)
          (or_else (get (c ∷ name) config.hosts) (find_wildcard_host config.hosts (c ∷ name)))

    unfoldable pub handle_request : Handling
    handle_request =
        let raw_host = text_or_empty (header (codes "host") req.headers) in
        if is_looped rt now req
        then status 508
        else if starts_with req.url (codes "http://")
        then handle_forward_proxy
        else handle_host raw_host (host_name_of raw_host)

unfoldable pub routes : Unit {0}
unfolding requesting first_target connect_port before_bracket host_name_of handle_connect
    resolve_tls_material handle_forward_proxy to_upstream to_address handle_direct handle_host
    handle_request
routes = tt
