-- ===== src/Firewall/Verdicts.antt =====
-- The verdicts of the firewall: which rule decides, in which order, and what is passed on outbound.
use zonzon.Base.{◌≡◌, ◌↔◌, ◌⊎◌, Bool, true, false, Option, none, some, List, [], ◌∷◌, arith, any}
use zonzon.Base.Text.{Text, text_eq_iff, includes}
use zonzon.Types.{allow, FirewallConfig}
use zonzon.Firewall.Address.{is_ipv4, is_ipv6}
use zonzon.Firewall.Cidr.{match_cidr}
use zonzon.Firewall.Domain.{match_domain, Covers, match_domain_iff}
use zonzon.Firewall.{
  permit, normalize_ip, lists, in_ranges, matches_any, is_restricted_outbound, evaluate_outbound,
  evaluate_ip, evaluate_domain,
}

-- Some entry of a list, or of an optional list, has the property.
abbrev pub AnyOf : (Text → Type 0) → List Text → Type 0
AnyOf P [] = ⊥
AnyOf P (t ∷ ts) = P t ⊎ AnyOf P ts

abbrev pub Any : (Text → Type 0) → Option (List Text) → Type 0
Any P none = ⊥
Any P (some l) = AnyOf P l

any_iff :
    (P : Text → Type 0) (p : Text → Bool)
    → ((t : Text) → (p t ≡ true) ↔ P t)
    → (l : List Text) → (any p l ≡ true) ↔ AnyOf P l
any_iff P p each [] = ((λ e. cc), λ e. absurd e)
any_iff P p each (t ∷ ts) = ground (arith, each t, any_iff P p each ts)

includes_iff : (l : List Text) (s : Text) → (includes l s ≡ true) ↔ AnyOf (λ t. t ≡ s) l
includes_iff [] s = ((λ e. cc), λ e. absurd e)
includes_iff (t ∷ ts) s = ground (arith, text_eq_iff t s, includes_iff ts s)

lists_iff : (l : Option (List Text)) (s : Text) → (lists l s ≡ true) ↔ Any (λ t. t ≡ s) l
lists_iff none s = ((λ e. cc), λ e. absurd e)
lists_iff (some l) s = includes_iff l s

matches_any_iff :
    (l : Option (List Text)) (domain : Text)
    → (matches_any l domain ≡ true) ↔ Any (λ pattern. Covers pattern domain) l
matches_any_iff none domain = ((λ e. cc), λ e. absurd e)
matches_any_iff (some l) domain =
    any_iff (λ pattern. Covers pattern domain) (match_domain domain) (match_domain_iff domain) l

-- An address stands in a list of addresses, or is an IPv4 address in one of the ranges.
abbrev pub Listed : Option (List Text) → Option (List Text) → Text → Type 0
Listed ips ranges ip =
    Any (λ t. t ≡ ip) ips ⊎ ((is_ipv4 ip ≡ true) × Any (λ range. match_cidr ip range ≡ true) ranges)

in_ranges_iff :
    (l : Option (List Text)) (ip : Text)
    → (in_ranges l ip ≡ true) ↔ ((is_ipv4 ip ≡ true) × Any (λ range. match_cidr ip range ≡ true) l)
in_ranges_iff none ip = ((λ e. cc), λ e. absurd e.1)
in_ranges_iff (some l) ip = ground (
  arith,
  any_iff (λ range. match_cidr ip range ≡ true) (match_cidr ip) (λ t. ((λ e. e), λ e. e)) l,
)

-- A domain is allowed exactly when no blocked pattern covers it, and an allowed pattern covers it
-- or the default is to allow.
pub evaluate_domain_iff :
    (domain : Text) (fw : FirewallConfig)
    → (evaluate_domain domain (some fw) ≡ permit) ↔ (
        (¬ Any (λ pattern. Covers pattern domain) fw.blocklist_domains)
        × (Any (λ pattern. Covers pattern domain) fw.allowlist_domains
            ⊎ (fw.default_policy ≡ allow)))
unfolding evaluate_domain
evaluate_domain_iff domain fw =
    let b = matches_any_iff fw.blocklist_domains domain in
    let a = matches_any_iff fw.allowlist_domains domain in ground (arith, a, b)

-- An address is allowed exactly when, in its normal form, it is an IP address that is not listed as
-- blocked, and it is listed as allowed or the default is to allow.
pub evaluate_ip_iff :
    (ip : Text) (fw : FirewallConfig)
    → (evaluate_ip ip (some fw) ≡ permit) ↔ (
        ((is_ipv4 (normalize_ip ip) ≡ true) ⊎ (is_ipv6 (normalize_ip ip) ≡ true))
        × (¬ Listed fw.blocklist_ips fw.blocklist_ranges (normalize_ip ip))
        × (Listed fw.allowlist_ips fw.allowlist_ranges (normalize_ip ip)
            ⊎ (fw.default_policy ≡ allow)))
unfolding evaluate_ip
evaluate_ip_iff ip fw =
    let n = normalize_ip ip in
    ground (
      arith,
      lists_iff fw.blocklist_ips n,
      in_ranges_iff fw.blocklist_ranges n,
      lists_iff fw.allowlist_ips n,
      in_ranges_iff fw.allowlist_ranges n,
    )

-- An outbound connection is allowed exactly when the address, in its normal form, is listed as
-- allowed or is not restricted.
pub evaluate_outbound_iff :
    (ip : Text) (fw : FirewallConfig)
    → (evaluate_outbound ip (some fw) ≡ permit) ↔ (
        Listed fw.allowlist_ips fw.allowlist_ranges (normalize_ip ip)
        ⊎ (is_restricted_outbound (normalize_ip ip) ≡ false))
unfolding evaluate_outbound
evaluate_outbound_iff ip fw =
    let n = normalize_ip ip in
    ground (arith, lists_iff fw.allowlist_ips n, in_ranges_iff fw.allowlist_ranges n)
