-- ===== src/Firewall/Tests.antt =====
-- A firewall with ranges and domains of both lists, and the instances of its theorems.
use zonzon.Base.{◌≡◌, refl, true, false, none, some, [], ◌∷◌, arith, any}
use zonzon.Base.Text.{Text, codes}
use zonzon.Types.{FirewallConfig, deny}
use zonzon.Firewall.Cidr.{match_cidr, IsPrefix}
use zonzon.Firewall.{permit, block, is_restricted_outbound, evaluate_ip, evaluate_domain, firewall}
use zonzon.Firewall.Quads.{quad}
use zonzon.Firewall.Reserved.{reserved, is_restricted_outbound-reserved}

abbrev rules : FirewallConfig
rules = record {
  default_policy = deny;
  allowlist_domains = some (codes "*.Good.org." ∷ []);
  blocklist_domains = some (codes "bad.good.org" ∷ []);
  allowlist_ranges = some (codes "10.1.0.0/16" ∷ []);
  blocklist_ranges = some (codes "10.1.2.0/24" ∷ []);
  allowlist_ips = some (codes "10.9.9.9" ∷ []);
  blocklist_ips = none;
}

subdomain_allowed : evaluate_domain (codes "www.good.org") (some rules) ≡ permit
unfolding firewall
subdomain_allowed = refl

blocked_first : evaluate_domain (codes "Bad.Good.Org.") (some rules) ≡ block
unfolding firewall
blocked_first = refl

-- a wildcard does not cover the domain above it
domain_itself : evaluate_domain (codes "good.org") (some rules) ≡ block
unfolding firewall
domain_itself = refl

range_allowed : evaluate_ip (codes "::ffff:10.1.3.4") (some rules) ≡ permit
unfolding firewall
range_allowed = refl

range_blocked : evaluate_ip (codes "10.1.2.3") (some rules) ≡ block
unfolding firewall
range_blocked = refl

-- The mapped form of 127.0.0.1 is restricted with the prefix `::ffff:`, and not when it is spelt
-- out.
mapped_restricted : is_restricted_outbound (codes "::ffff:7f00:1") ≡ true
unfolding firewall
mapped_restricted = refl

spelt_out_unrestricted : is_restricted_outbound (codes "0:0:0:0:0:ffff:7f00:1") ≡ false
unfolding firewall
spelt_out_unrestricted = refl

-- of the link-local addresses only those that begin with `fe80:` are restricted
link_local : is_restricted_outbound (codes "fe90::1") ≡ false
unfolding firewall
link_local = refl

abbrev sixteen : Text
sixteen = codes "10.1.0.0/16"

sixteen-IsPrefix : IsPrefix sixteen (codes "10.1.0.0") 16
unfolding firewall
sixteen-IsPrefix = record {
  bits = codes "16";
  parts = refl;
  given = λ e. cc;
  number = refl;
  most = omega arith;
}

is_restricted_outbound-reserved_example :
    is_restricted_outbound (quad 172 31 0 1) ≡ any (match_cidr (quad 172 31 0 1)) reserved
is_restricted_outbound-reserved_example = is_restricted_outbound-reserved 172 31 0 1 (record {
  first = omega arith;
  second = omega arith;
  third = omega arith;
  fourth = omega arith;
})
