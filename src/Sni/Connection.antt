-- ===== src/Sni/Connection.antt =====
-- `handleConnection` of packages/core/src/sni-proxy.ts: the gathering of the ClientHello and the
-- choice of the target. `dns_resolve` is `resolve` of node:dns/promises: the strings that it gives,
-- or `none` where it rejects. The audit entries are left out but for their status.
pub mod Gathering
pub mod Routing
pub mod Tests
use zonzon.Base.{
  ℕ, zero, suc, ◌+◌, Bool, true, false, not, Option, none, some, List, [], ◌∷◌, ◌++◌, ltb, ◌==◌,
  if◌then◌else◌, length,
}
use zonzon.Base.Text.{Text, codes, split, normalize_host}
use zonzon.Base.Bytes.{Bytes, u16_at}
use zonzon.Base.OrderedMap.{get}
use zonzon.Types.{
  DnsRecord, a, aaaa, cname, txt, mx, ns, srv, ptr, HostConfig, TlsProxyConfig, Hosts, ServerConfig,
}
use zonzon.Firewall.{permit, evaluate_domain, evaluate_outbound, evaluate_ip, firewall}
use zonzon.Dns.Server.{is_block, is_set}
use zonzon.Http.{find_wildcard_labels, faulting}
use zonzon.Sni.{extract_sni, sniffing}

abbrev pub max_client_hello_size : ℕ
max_client_hello_size = 16384

-- the addresses of A and AAAA records
unfoldable pub internal_ips : List DnsRecord → List Text
internal_ips [] = []
internal_ips (a address ∷ records) = address ∷ internal_ips records
internal_ips (aaaa address ∷ records) = address ∷ internal_ips records
internal_ips (cname target ∷ records) = internal_ips records
internal_ips (txt data_ ∷ records) = internal_ips records
internal_ips (mx priority exchange ∷ records) = internal_ips records
internal_ips (ns target ∷ records) = internal_ips records
internal_ips (srv priority weight port target ∷ records) = internal_ips records
internal_ips (ptr target ∷ records) = internal_ips records

-- the first of two that is there
abbrev pub or_else {ℓ} : {A : Type ℓ} → Option A → Option A → Option A
or_else none other = other
or_else (some x) other = some x

-- `config.hosts[name]`, and else the wildcard entries
unfoldable pub find_host : Text → Hosts → Option HostConfig
find_host name hosts = or_else (get name hosts) (find_wildcard_labels (split b'.' name) hosts)

abbrev pub port_config : Option HostConfig → Hosts → Option HostConfig
port_config host hosts = or_else host (get (codes "*") hosts)

abbrev pub proxy_of : Option HostConfig → Option TlsProxyConfig
proxy_of none = none
proxy_of (some host) = host.tls_proxy

abbrev pub target_ip_of : Option TlsProxyConfig → Option Text
target_ip_of none = none
target_ip_of (some proxy) = proxy.target_ip

abbrev target_port_of : Option TlsProxyConfig → Option ℕ
target_port_of none = none
target_port_of (some proxy) = proxy.target_port

abbrev or_443 : Option ℕ → ℕ
or_443 none = 443
or_443 (some port) = port

-- `portConfig?.tls_proxy?.targetPort ?? 443`
abbrev pub target_port : Option HostConfig → ℕ
target_port config = or_443 (target_port_of (proxy_of config))

abbrev pub records_of : Option HostConfig → List Text
records_of none = []
records_of (some host) = internal_ips host.records

-- the text of an option that `is_set`
abbrev text_of : Option Text → List Text
text_of none = []
text_of (some ip) = ip ∷ []

-- the addresses that the configuration gives
unfoldable pub configured_ips : Option HostConfig → Hosts → List Text
configured_ips host hosts =
    let own = target_ip_of (proxy_of (port_config host hosts)) in
    if is_set own then text_of own else records_of host

-- What happens to a connection: it waits for more, it is dropped with a status, or it is tunneled.
pub data Decision : Type 0 where
  wait : Decision
  dropped : ℕ → Decision
  tunnel : Text → ℕ → Decision

-- The connection: the bytes up to now, or a decision, after which chunks are passed over.
pub data Hello : Type 0 where
  gathering : Bytes → Hello
  decided : Decision → Hello

abbrev pub or_nothing : Option (List Text) → List Text
or_nothing none = []
or_nothing (some ips) = ips

module _ (config : ServerConfig) where
  -- from the first target on; no target and a rejection are errors, too
  unfoldable pub to_target : ℕ → List Text → Decision
  to_target port [] = dropped 403
  to_target port (ip ∷ ips) =
      if is_block (evaluate_outbound ip config.firewall)
      then dropped 403
      else if is_block (evaluate_ip ip config.firewall)
      then dropped 403
      else tunnel ip port

  abbrev pub if_none : List Text → List Text → List Text
  if_none [] other = other
  if_none (ip ∷ ips) other = ip ∷ ips

  module _ (dns_resolve : Text → Option (List Text)) where
    -- the addresses that a name is tunneled to, the first of which is taken
    unfoldable pub target_ips : Text → List Text
    target_ips sni =
        if_none (configured_ips (find_host (normalize_host sni) config.hosts) config.hosts)
          (or_nothing (dns_resolve sni))

    unfoldable pub route_name : Text → Decision
    route_name sni =
        let host = find_host (normalize_host sni) config.hosts in
        if is_block (evaluate_domain sni config.firewall)
        then dropped 403
        else to_target (target_port (port_config host config.hosts)) (target_ips sni)

    -- with the name of the ClientHello
    abbrev pub route_sni : Option Text → Decision
    route_sni none = dropped 400
    route_sni (some []) = dropped 400
    route_sni (some (c ∷ s)) = route_name (c ∷ s)

    unfoldable pub route : Bytes → Decision
    route buffer = route_sni (extract_sni buffer)

    unfoldable pub on_chunk : Bytes → Hello → Hello
    on_chunk chunk (decided d) = decided d
    on_chunk chunk (gathering buffer) =
        let combined = buffer ++ chunk in
        if ltb max_client_hello_size (length buffer + length chunk)
        then decided (dropped 413)
        else if ltb (length combined) 5
        then gathering combined
        else if ltb (length combined) (5 + u16_at combined 3)
        then gathering combined
        else decided (route combined)

    unfoldable pub on_chunks : List Bytes → Hello → Hello
    on_chunks [] g = g
    on_chunks (chunk ∷ chunks) g = on_chunks chunks (on_chunk chunk g)

    -- the timer of five seconds
    unfoldable pub on_timeout : Hello → Hello
    on_timeout (decided d) = decided d
    on_timeout (gathering buffer) = decided (dropped 408)

unfoldable pub routing : Unit {0}
unfolding firewall faulting sniffing internal_ips find_host configured_ips to_target target_ips
    route_name route on_chunk on_chunks on_timeout
routing = tt
