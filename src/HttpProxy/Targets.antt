-- ===== src/HttpProxy/Targets.antt =====
-- Which targets `validateTargetFirewall` lets through.
use zonzon.Base.{
  ◌≡◌, ◌≢◌, refl, sym, ap, ◌∙◌, ◌⊎◌, inl, inr, ◌↔◌, true, false, Option, none, some, List, [], ◌∷◌,
  All, Bool-cases, some-eq-some,
}
use mathlib.Core.Path.{subst}
use zonzon.Base.Text.{Text}
use zonzon.Types.{FirewallConfig, ServerConfig}
use zonzon.Firewall.{permit, evaluate_domain, evaluate_outbound, evaluate_ip}
use zonzon.Dns.Server.{is_block}
use zonzon.Sni.Connection.Routing.{Permits, not_blocked}
use zonzon.HttpProxy.{
  Url, Target, invalid_url, domain_blocked, resolution_fault, nxdomain, restricted_ip, ip_blocked,
  targets, is_ip, if_firewall, check_ips, check_targets, resolve_host, check_host, check_url,
  validate_target_firewall,
}

addresses_of : Target → List Text
addresses_of (targets ips) = ips
addresses_of invalid_url = []
addresses_of (domain_blocked host) = []
addresses_of (resolution_fault host) = []
addresses_of (nxdomain host) = []
addresses_of (restricted_ip ip) = []
addresses_of (ip_blocked ip) = []

-- Asking only where there is a firewall makes no difference.
pub if_firewall_ip :
    (ip : Text) (fw : Option FirewallConfig) → if_firewall (evaluate_ip ip) fw ≡ evaluate_ip ip fw
unfolding evaluate_ip
if_firewall_ip ip none = refl
if_firewall_ip ip (some fw) = refl

if_firewall_domain :
    (host : Text) (fw : Option FirewallConfig)
    → if_firewall (evaluate_domain host) fw ≡ evaluate_domain host fw
unfolding evaluate_domain
if_firewall_domain host none = refl
if_firewall_domain host (some fw) = refl

module _ (config : ServerConfig) where
  check_ips_iff :
      (ips rest out : List Text)
      → (check_ips config ips rest ≡ targets out) ↔ ((out ≡ ips) × All (Permits config) rest)
  unfolding check_ips addresses_of
  check_ips_iff ips [] out = ((λ e. (sym (ap addresses_of e), tt)), λ (e, _). ap targets (sym e))
  check_ips_iff ips (ip ∷ rest) out =
      let (to, from) = check_ips_iff ips rest out in
      let same = if_firewall_ip ip config.firewall in
      elim (Bool-cases (is_block (evaluate_outbound ip config.firewall))) [
        | inl bad ↦ ((λ e. cc (rw bad at e)), λ (_, ((p, _), _)). cc (rw p at bad))
        | inr good ↦ elim (Bool-cases (is_block (evaluate_ip ip config.firewall))) [
          | inl bad ↦ ((λ e. cc (rw (good, same, bad) at e)), λ (_, ((_, p), _)). cc (rw p at bad))
          | inr fine ↦ (
            (λ e.
                let (eq, all_) = to (rw (good, same, fine) at e) in
                (eq, ((not_blocked _ good, not_blocked _ fine), all_))),
            λ (eq, (_, all_)). rw (good, same, fine) (from (eq, all_)),
          )
        ]
      ]

  module _ (dns_resolve : Text → Option (List Text)) where
    -- The addresses of a host: itself, if it is one, or those of its records or of `dns_resolve`,
    -- where the firewall permits its name.
    abbrev pub HasTargets : Text → List Text → Type 0
    HasTargets host ips =
        ((is_ip host ≡ true) × (ips ≡ host ∷ []))
        ⊎ ((is_ip host ≡ false)
            × (evaluate_domain host config.firewall ≡ permit)
            × (resolve_host config dns_resolve host ≡ some ips))

    check_targets_iff :
        (host : Text) (found : Option (List Text)) (ips : List Text)
        → (check_targets config host found ≡ targets ips)
          ↔ ((found ≡ some ips) × (ips ≢ []) × All (Permits config) ips)
    unfolding check_targets
    check_targets_iff host none ips = ((λ e. cc), λ (e, _, _). cc)
    check_targets_iff host (some []) ips =
        ((λ e. cc), λ (e, n, _). absurd (n (sym (some-eq-some e))))
    check_targets_iff host (some (ip ∷ rest)) ips =
        let (to, from) = check_ips_iff (ip ∷ rest) (ip ∷ rest) ips in
        (
          (λ e.
              let (eq, all_) = to e in
              (ap some (sym eq), (λ nil. cc), subst (All (Permits config)) (sym eq) all_)),
          λ (e, _, all_).
              from (sym (some-eq-some e), subst (All (Permits config)) (sym (some-eq-some e)) all_),
        )

    check_host_iff :
        (host : Text) (ips : List Text)
        → (check_host config dns_resolve host ≡ targets ips)
          ↔ (HasTargets host ips × (ips ≢ []) × All (Permits config) ips)
    unfolding check_host
    check_host_iff host ips = elim (Bool-cases (is_ip host)) [
      | inl literal ↦
          let (to, from) = check_targets_iff host (some (host ∷ [])) ips in
          (
            (λ e.
                let (eq, n, all_) = to (rw literal at e) in
                (inl (literal, sym (some-eq-some eq)), n, all_)),
            λ (h, n, all_). rw literal (from (itself literal h, n, all_)),
          )
      | inr named ↦
          let (to, from) = check_targets_iff host (resolve_host config dns_resolve host) ips in
          let same = if_firewall_domain host config.firewall in
          elim (Bool-cases (is_block (evaluate_domain host config.firewall))) [
            | inl bad ↦
                ((λ e. cc (rw (named, same, bad) at e)), λ (h, _, _). absurd (denied named bad h))
            | inr good ↦ (
              (λ e.
                  let (eq, n, all_) = to (rw (named, same, good) at e) in
                  (inr (named, not_blocked _ good, eq), n, all_)),
              λ (h, n, all_). rw (named, same, good) (from (resolved named h, n, all_)),
            )
          ]
    ]
      where
        itself : is_ip host ≡ true → HasTargets host ips → some (host ∷ []) ≡ some ips
        itself l (inl (_, e)) = ap some (sym e)
        itself l (inr (n, _, _)) = cc

        denied :
            is_ip host ≡ false
            → is_block (evaluate_domain host config.firewall) ≡ true
            → HasTargets host ips
            → ⊥
        denied n b (inl (l, _)) = cc
        denied n b (inr (_, p, _)) = cc (rw p at b)

        resolved :
            is_ip host ≡ false
            → HasTargets host ips
            → resolve_host config dns_resolve host ≡ some ips
        resolved n (inl (l, _)) = cc
        resolved n (inr (_, _, e)) = e

    -- A URL passes exactly when it parses, its host is an address or a name that the firewall
    -- permits and that has addresses, and the firewall permits every one of them, also for
    -- connections to the inside; the result is all those addresses.
    pub validate_target_firewall_iff :
        (parse_url : Text → Option Url) (target_url : Text) (ips : List Text)
        → (validate_target_firewall config dns_resolve parse_url target_url ≡ targets ips) ↔ (
            (u : Url) × (parse_url target_url ≡ some u)
            × HasTargets u.hostname ips
            × (ips ≢ [])
            × All (Permits config) ips)
    unfolding validate_target_firewall
    validate_target_firewall_iff parse_url target_url ips = parsed (parse_url target_url) refl
      where
        parsed :
            (r : Option Url)
            → parse_url target_url ≡ r
            → (check_url config dns_resolve r ≡ targets ips) ↔ (
                (u : Url) × (parse_url target_url ≡ some u)
                × HasTargets u.hostname ips
                × (ips ≢ [])
                × All (Permits config) ips)
        parsed none at = ((λ e. cc), λ (u, e, _, _, _). cc)
        parsed (some u) at = (
          (λ e. let (h, n, all_) = (check_host_iff u.hostname ips).0 e in (u, at, h, n, all_)),
          λ (v, e, h, n, all_). (check_host_iff u.hostname ips).1 (
            subst (λ t. HasTargets t ips) (ap (λ (t : Url). t.hostname) (some-eq-some (sym e ∙ at)))
                h,
            n,
            all_,
          ),
        )
