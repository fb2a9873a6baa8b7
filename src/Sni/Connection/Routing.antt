-- ===== src/Sni/Connection/Routing.antt =====
-- What a tunnel's target has passed.
use zonzon.Base.{
  ℕ, ◌≡◌, refl, sym, ap, inl, inr, false, Option, none, some, List, [], ◌∷◌, Bool-cases,
}
use zonzon.Base.Text.{Text, normalize_host}
use zonzon.Base.Bytes.{Bytes}
use zonzon.Types.{ServerConfig}
use zonzon.Firewall.{Verdict, permit, block, evaluate_domain, evaluate_outbound, evaluate_ip}
use zonzon.Dns.Server.{is_block}
use zonzon.Sni.{extract_sni}
use zonzon.Sni.Connection.{
  Decision, wait, dropped, tunnel, find_host, port_config, target_port, to_target, target_ips,
  route_name, route_sni, route,
}

pub not_blocked : (v : Verdict) → is_block v ≡ false → v ≡ permit
not_blocked permit h = refl
not_blocked block h = cc

ip_of : Decision → Text
ip_of (tunnel ip port) = ip
ip_of (dropped code) = []
ip_of wait = []

port_of : Decision → ℕ
port_of (tunnel ip port) = port
port_of (dropped code) = 0
port_of wait = 0

module _ (config : ServerConfig) where
  -- The firewall permits connections to the address and the address itself.
  abbrev pub Permits : Text → Type 0
  Permits ip =
      (evaluate_outbound ip config.firewall ≡ permit) × (evaluate_ip ip config.firewall ≡ permit)

  to_target_lem :
      (port k : ℕ) (ips : List Text) (ip : Text)
      → to_target config port ips ≡ tunnel ip k
      → Permits ip × ((rest : List Text) × (ips ≡ ip ∷ rest)) × (k ≡ port)
  unfolding to_target ip_of port_of
  to_target_lem port k [] ip e = cc
  to_target_lem port k (x ∷ ips) ip e =
      elim (Bool-cases (is_block (evaluate_outbound x config.firewall))) [
        | inl out ↦ cc (rw out at e)
        | inr free ↦ elim (Bool-cases (is_block (evaluate_ip x config.firewall))) [
          | inl bad ↦ cc (rw (free, bad) at e)
          | inr good ↦
              let same : x ≡ ip = ap ip_of (rw (free, good) at e) in
              let ports : port ≡ k = ap port_of (rw (free, good) at e) in
              (
                (rw same at (not_blocked _ free), rw same at (not_blocked _ good)),
                (ips, ap (λ t. t ∷ ips) same),
                sym ports,
              )
        ]
      ]

  module _ (dns_resolve : Text → Option (List Text)) where
    -- What a tunnel for a name has passed: the firewall permits the name and the address, which is
    -- the first of the name's addresses, and the port is the configured one.
    abbrev pub IsRouted : Text → Text → ℕ → Type 0
    IsRouted sni ip port =
        (evaluate_domain sni config.firewall ≡ permit)
        × Permits ip
        × ((rest : List Text) × (target_ips config dns_resolve sni ≡ ip ∷ rest))
        × (port
            ≡ target_port (port_config (find_host (normalize_host sni) config.hosts) config.hosts))

    route_name-IsRouted :
        (sni ip : Text) (port : ℕ)
        → route_name config dns_resolve sni ≡ tunnel ip port
        → IsRouted sni ip port
    unfolding route_name
    route_name-IsRouted sni ip port e =
        elim (Bool-cases (is_block (evaluate_domain sni config.firewall))) [
          | inl denied ↦ cc (rw denied at e)
          | inr free ↦
              let (p, first, k) =
                to_target_lem _ port (target_ips config dns_resolve sni) ip (rw free at e) in
              (not_blocked _ free, p, first, k)
        ]

    pub route-IsRouted :
        (buffer : Bytes) (ip : Text) (port : ℕ)
        → route config dns_resolve buffer ≡ tunnel ip port
        → (sni : Text) × (extract_sni buffer ≡ some sni) × IsRouted sni ip port
    unfolding route
    route-IsRouted buffer ip port e = of_name (extract_sni buffer) refl e
      where
        of_name :
            (name : Option Text)
            → extract_sni buffer ≡ name
            → route_sni config dns_resolve name ≡ tunnel ip port
            → (sni : Text) × (extract_sni buffer ≡ some sni) × IsRouted sni ip port
        of_name none at e = cc
        of_name (some []) at e = cc
        of_name (some (c ∷ s)) at e = (c ∷ s, at, route_name-IsRouted (c ∷ s) ip port e)
