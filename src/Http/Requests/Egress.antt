-- ===== src/Http/Requests/Egress.antt =====
-- No request goes out to an address that the firewall does not permit.
use mathlib.Core.Path.{subst}
use zonzon.Base.{
  ℕ, ◌≡◌, refl, ap, ◌∙◌, inl, inr, true, false, Bool, Option, none, some, List, [], ◌∷◌, ◌++◌,
  Bool-cases, some-eq-some, if◌then◌else◌,
}
use zonzon.Base.Text.{Text, codes, starts_with, split}
use zonzon.Types.{TlsConfig, HttpProxyConfig, HostConfig, ServerConfig}
use zonzon.Firewall.{evaluate_domain, evaluate_outbound, evaluate_ip}
use zonzon.Firewall.Address.{Number}
use zonzon.Dns.Server.{is_block}
use zonzon.Sni.Connection.Routing.{Permits, not_blocked}
use zonzon.HttpProxy.{
  Url, Target, invalid_url, domain_blocked, resolution_fault, nxdomain, restricted_ip, ip_blocked,
  targets, is_ip, resolve_host, validate_target_firewall, check_redirect,
}
use zonzon.HttpProxy.Targets.{validate_target_firewall_iff}
use zonzon.Http.Requests.{
  Runtime, Request, Material, TlsMaterial, OutRequest, Handling, status, location, proxied, fault,
  is_looped, out_request,
}
use zonzon.Http.Requests.Routes.{
  first_target, Tunnel, opened, refused, to_tunnel, handle_connect, tunnel_of, validated,
  forward_to, forward_url, handle_forward_proxy, redirect_to, or_fault, resolve_tls_material,
  with_material, with_ca, with_client_tls, upstream_request, send_upstream, upstream_at,
  to_upstream, send_direct, to_address, to_first, handle_direct, with_upstream, with_proxy,
  with_redirect, with_host, handle_host, handle_request,
}

target_of : Handling → Text
target_of (proxied host out) = out.hostname
target_of (status code) = []
target_of (location code target) = []
target_of (fault err) = []

address_of : Tunnel → Text
address_of (opened ip port) = ip
address_of refused = []

module _ (config : ServerConfig) (rt : Runtime) where
  -- What goes out goes to an address that the firewall permits.
  abbrev pub GoesOut : Handling → Type 0
  GoesOut (proxied host out) = Permits config out.hostname
  GoesOut (status code) = Unit
  GoesOut (location code target) = Unit
  GoesOut (fault err) = Unit

  validated-Permits : (url ip : Text) → validated config rt url ≡ some ip → Permits config ip
  unfolding first_target
  validated-Permits url ip e =
      of (validate_target_firewall config rt.dns_resolve rt.parse_url url) refl e
    where
      of :
          (r : Target)
          → validate_target_firewall config rt.dns_resolve rt.parse_url url ≡ r
          → first_target r ≡ some ip
          → Permits config ip
      of (targets (first ∷ ips)) at e =
          let (u, _, _, _, all_) =
            (validate_target_firewall_iff config rt.dns_resolve rt.parse_url url (first ∷ ips)).0
              at in
          subst (Permits config) (some-eq-some e) all_.0
      of (targets []) at e = cc
      of invalid_url at e = cc
      of (domain_blocked host) at e = cc
      of (resolution_fault host) at e = cc
      of (nxdomain host) at e = cc
      of (restricted_ip bad) at e = cc
      of (ip_blocked bad) at e = cc

  -- A CONNECT opens a tunnel only to an address that the firewall permits.
  pub handle_connect-Permits :
      (target_url ip : Text) (port : Number)
      → handle_connect config rt target_url ≡ opened ip port
      → Permits config ip
  unfolding handle_connect address_of
  handle_connect-Permits target_url ip port e = of_parts (split b':' target_url) e
    where
      to :
          (url : Text) (n : Number) (r : Option Text)
          → validated config rt url ≡ r
          → to_tunnel n r ≡ opened ip port
          → Permits config ip
      to url n none at e = cc
      to url n (some first) at e = validated-Permits url ip (at ∙ ap some (ap address_of e))

      of_parts :
          (parts : List Text) → tunnel_of config rt parts ≡ opened ip port → Permits config ip
      of_parts [] e = to _ _ (validated config rt _) refl e
      of_parts (hostname ∷ rest) e = to _ _ (validated config rt _) refl e

  module _ (now : ℕ) (req : Request) where
    address-GoesOut :
        (raw_host hostname ip : Text) → GoesOut (to_address config rt now req raw_host hostname ip)
    unfolding to_address out_request
    address-GoesOut raw_host hostname ip =
        elim (Bool-cases (is_block (evaluate_ip ip config.firewall))) [
          | inl bad ↦ rw bad tt
          | inr good ↦ elim (Bool-cases (is_block (evaluate_outbound ip config.firewall))) [
            | inl bad ↦ rw (good, bad) tt
            | inr fine ↦
                rw (good, fine)
                  (of (not_blocked _ fine, not_blocked _ good)
                    (rt.parse_relative req.url (codes "http://" ++ raw_host)))
          ]
        ]
      where
        of :
            Permits config ip
            → (u : Option Url) → GoesOut (send_direct config rt now req hostname ip u)
        of p none = tt
        of p (some u) = p

    direct-GoesOut :
        (raw_host hostname : Text) → GoesOut (handle_direct config rt now req raw_host hostname)
    unfolding handle_direct
    direct-GoesOut raw_host hostname = elim (Bool-cases (is_ip hostname)) [
      | inl literal ↦ elim (Bool-cases (is_block (evaluate_ip hostname config.firewall))) [
        | inl bad ↦ rw (literal, bad) tt
        | inr good ↦ rw (literal, good) (address-GoesOut raw_host hostname hostname)
      ]
      | inr named ↦ elim (Bool-cases (is_block (evaluate_domain hostname config.firewall))) [
        | inl bad ↦ rw (named, bad) tt
        | inr good ↦ rw (named, good) (of (resolve_host config rt.dns_resolve hostname))
      ]
    ]
      where
        of : (r : Option (List Text)) → GoesOut (to_first config rt now req raw_host hostname r)
        of none = tt
        of (some []) = tt
        of (some (ip ∷ ips)) = address-GoesOut raw_host hostname ip

    material-GoesOut :
        (data_ : Text) (k : Material → Handling)
        → ((m : Material) → GoesOut (k m))
        → GoesOut (with_material config rt now req data_ k)
    material-GoesOut data_ k h = of (resolve_tls_material config rt data_)
      where
        of : (r : Option Material) → GoesOut (or_fault config rt now req data_ k r)
        of none = tt
        of (some m) = h m

    ca-GoesOut :
        (ca : Option Text) (k : Option Material → Handling)
        → ((m : Option Material) → GoesOut (k m))
        → GoesOut (with_ca config rt now req ca k)
    ca-GoesOut none k h = h none
    ca-GoesOut (some []) k h = h none
    ca-GoesOut (some (c ∷ ca)) k h = material-GoesOut (c ∷ ca) _ (λ m. h (some m))

    client_tls-GoesOut :
        (tls : Option TlsConfig) (k : Option TlsMaterial → Handling)
        → ((m : Option TlsMaterial) → GoesOut (k m))
        → GoesOut (with_client_tls config rt now req k tls)
    client_tls-GoesOut none k h = h none
    client_tls-GoesOut (some tls) k h =
        material-GoesOut tls.cert _
          (λ cert. material-GoesOut tls.key _ (λ key. ca-GoesOut tls.ca _ (λ ca. h (some _))))

    upstream-GoesOut :
        (host : HostConfig) (proxy : HttpProxyConfig) (hostname : Text) (base : Option Url)
        → GoesOut (to_upstream config rt now req host proxy hostname base)
    unfolding to_upstream out_request
    upstream-GoesOut host proxy hostname none = tt
    upstream-GoesOut host proxy hostname (some base) = of (validated config rt base.href) refl
      where
        send :
            (ip : Text) (u : Option Url)
            → Permits config ip
            → GoesOut (send_upstream config rt now req host proxy hostname ip u)
        send ip none p = tt
        send ip (some u) p =
            client_tls-GoesOut proxy.client_tls
              (upstream_request config rt now req host proxy hostname ip u) (λ m. p)

        of :
            (r : Option Text)
            → validated config rt base.href ≡ r
            → GoesOut (upstream_at config rt now req host proxy hostname base r)
        of none at = tt
        of (some ip) at = send ip _ (validated-Permits base.href ip at)

    forward-GoesOut : (u : Option Url) → GoesOut (forward_url config rt now req u)
    unfolding out_request
    forward-GoesOut none = tt
    forward-GoesOut (some u) = of (validated config rt u.href) refl
      where
        of :
            (r : Option Text)
            → validated config rt u.href ≡ r
            → GoesOut (forward_to config rt now req u r)
        of none at = tt
        of (some ip) at = validated-Permits u.href ip at

    host-GoesOut :
        (raw_host hostname : Text) (host : Option HostConfig)
        → GoesOut (with_host config rt now req raw_host hostname host)
    host-GoesOut raw_host hostname none = direct-GoesOut raw_host hostname
    host-GoesOut raw_host hostname (some host) = redirected (check_redirect rt.parse_url host)
      where
        asked :
            (proxy : HttpProxyConfig) (upstream : Option Text)
            → GoesOut (with_upstream config rt now req raw_host hostname host proxy upstream)
        asked proxy none = direct-GoesOut raw_host hostname
        asked proxy (some []) = direct-GoesOut raw_host hostname
        asked proxy (some (c ∷ upstream)) = switched proxy.enabled
          where
            switched :
                (b : Bool)
                → GoesOut (
                    if b
                    then to_upstream config rt now req host proxy hostname
                        (rt.parse_url (c ∷ upstream))
                    else handle_direct config rt now req raw_host hostname)
            switched true = upstream-GoesOut host proxy hostname _
            switched false = direct-GoesOut raw_host hostname

        of_proxy :
            (proxy : Option HttpProxyConfig)
            → GoesOut (with_proxy config rt now req raw_host hostname host proxy)
        of_proxy none = direct-GoesOut raw_host hostname
        of_proxy (some proxy) = asked proxy proxy.upstream

        moved :
            (r : Option Text) (code : ℕ) (target : Text)
            → GoesOut (redirect_to config rt now req code target r)
        moved none code target = tt
        moved (some ip) code target = tt

        redirected :
            (r : Option (ℕ × Text))
            → GoesOut (with_redirect config rt now req raw_host hostname host r)
        redirected none = of_proxy host.http_proxy
        redirected (some (code, target)) = moved (validated config rt target) code target

    named-GoesOut :
        (raw_host hostname : Text) → GoesOut (handle_host config rt now req raw_host hostname)
    unfolding handle_host
    named-GoesOut raw_host [] = tt
    named-GoesOut raw_host (c ∷ name) = host-GoesOut raw_host (c ∷ name) _

    request-GoesOut : GoesOut (handle_request config rt now req)
    unfolding handle_request handle_forward_proxy
    request-GoesOut = elim (Bool-cases (is_looped rt now req)) [
      | inl looped ↦ rw looped tt
      | inr fresh ↦ elim (Bool-cases (starts_with req.url (codes "http://"))) [
        | inl absolute ↦ rw (fresh, absolute) (forward-GoesOut (rt.parse_url req.url))
        | inr path ↦ rw (fresh, path) (named-GoesOut _ _)
      ]
    ]

    -- Whatever a request asks for, of a host of the configuration, of another or as a proxy, what
    -- goes out for it goes to an address that the firewall permits, also for connections to the
    -- inside.
    pub handle_request-Permits :
        (host : Text) (out : OutRequest)
        → handle_request config rt now req ≡ proxied host out
        → Permits config out.hostname
    handle_request-Permits host out e = subst GoesOut e request-GoesOut
