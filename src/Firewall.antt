-- ===== src/Firewall.antt =====
-- `FirewallEngine` of packages/core/src/firewall.ts.
pub mod Address
pub mod Cidr
pub mod Domain
pub mod Quads
pub mod Reserved
pub mod Verdicts
mod Tests
use zonzon.Base.{
  ℕ, zero, suc, ◌+◌, ◌/◌, ◌%◌, Bool, true, false, ◌&&◌, ◌||◌, not, Option, none, some, List, [],
  ◌∷◌, ◌++◌, leb, ◌==◌, if◌then◌else◌, length, drop, any, get_or, map,
}
use zonzon.Base.Text.{
  Text, codes, text_eq, to_lower, lower, split, starts_with, includes, normalize_host, strip_dot,
  join,
}
use zonzon.Types.{Policy, allow, deny, FirewallConfig}
use zonzon.Firewall.Address.{
  Number, nan, parse_int, is_nan, to_uint32, number_of, show_octet, is_ipv4, is_ipv6, addresses,
}
use zonzon.Firewall.Cidr.{match_cidr, ip_to_int, cidr_mask}
use zonzon.Firewall.Domain.{match_domain}

-- "ALLOW" and "DENY"
pub data Verdict : Type 0 where
  permit block : Verdict

-- `${(p1 >> 8) & 255}.${p1 & 255}.${(p2 >> 8) & 255}.${p2 & 255}`
unfoldable pub dotted : ℕ → ℕ → Text
dotted p1 p2 = join b'.' (
    show_octet (p1 / 256 % 256)
    ∷ show_octet (p1 % 256)
    ∷ show_octet (p2 / 256 % 256)
    ∷ show_octet (p2 % 256)
    ∷ [])

mapped_prefix : Text
mapped_prefix = codes "::ffff:"

-- the two hexadecimal chunks behind `::ffff:`
unfoldable pub mapped_chunks : Text → List Text → Text
mapped_chunks ip (c1 ∷ c2 ∷ []) =
    let p1 = parse_int 16 c1 in
    let p2 = parse_int 16 c2 in
    if not (is_nan p1) && not (is_nan p2) then dotted (to_uint32 p1) (to_uint32 p2) else ip
mapped_chunks ip chunks = ip

unfoldable pub normalize_ip : Text → Text
unfolding mapped_prefix
normalize_ip ip =
    if not (is_ipv6 ip)
    then ip
    else (let normalized = to_lower ip in
        if starts_with normalized mapped_prefix
        then (let hex_part = drop 7 normalized in
            if is_ipv4 hex_part then hex_part else mapped_chunks ip (split b':' hex_part))
        else ip)

unfoldable pub is_restricted_ipv6 : Text → Bool
is_restricted_ipv6 ip =
    let normalized = to_lower ip in
    text_eq normalized (codes "::1")
    || text_eq normalized (codes "::")
    || starts_with normalized (codes "fe80:")
    || (starts_with normalized (codes "fc00:") || starts_with normalized (codes "fd"))

-- the tests on `parts[0]` and `parts[1]`
unfoldable pub is_restricted_octets : ℕ → ℕ → Bool
is_restricted_octets p0 p1 =
    p0 == 0
    || p0 == 10
    || p0 == 127
    || (p0 == 100 && leb 64 p1 && leb p1 127)
    || (p0 == 169 && p1 == 254)
    || (p0 == 172 && leb 16 p1 && leb p1 31)
    || (p0 == 192 && p1 == 168)
    || (leb 224 p0 && leb p0 239)
    || (leb 240 p0 && leb p0 255)

-- `ip.split('.').map(Number)`
unfoldable pub octets : Text → List ℕ
octets ip = map number_of (split b'.' ip)

unfoldable pub is_restricted_outbound : Text → Bool
is_restricted_outbound ip =
    let normalized = normalize_ip ip in
    if is_ipv6 normalized
    then is_restricted_ipv6 normalized
    else if not (is_ipv4 normalized)
    then true
    else is_restricted_octets (get_or (octets normalized) 0 0) (get_or (octets normalized) 1 0)

-- `list && list.includes(ip)`
abbrev pub lists : Option (List Text) → Text → Bool
lists none ip = false
lists (some l) ip = includes l ip

-- `for (const range of ranges || [])`, at an IPv4 address
abbrev pub in_ranges : Option (List Text) → Text → Bool
in_ranges none ip = false
in_ranges (some l) ip = is_ipv4 ip && any (match_cidr ip) l

unfoldable pub evaluate_outbound : Text → Option FirewallConfig → Verdict
evaluate_outbound ip none = if is_restricted_outbound (normalize_ip ip) then block else permit
evaluate_outbound ip (some fw) =
    let normalized = normalize_ip ip in
    if lists fw.allowlist_ips normalized
    then permit
    else if in_ranges fw.allowlist_ranges normalized
    then permit
    else if is_restricted_outbound normalized
    then block
    else permit

abbrev pub by_policy : Policy → Verdict
by_policy allow = permit
by_policy deny = block

unfoldable pub evaluate_ip : Text → Option FirewallConfig → Verdict
evaluate_ip ip none = permit
evaluate_ip ip (some fw) =
    let normalized = normalize_ip ip in
    if not (is_ipv4 normalized) && not (is_ipv6 normalized)
    then block
    else if lists fw.blocklist_ips normalized
    then block
    else if in_ranges fw.blocklist_ranges normalized
    then block
    else if lists fw.allowlist_ips normalized
    then permit
    else if in_ranges fw.allowlist_ranges normalized
    then permit
    else by_policy fw.default_policy

abbrev pub matches_any : Option (List Text) → Text → Bool
matches_any none domain = false
matches_any (some l) domain = any (match_domain domain) l

unfoldable pub evaluate_domain : Text → Option FirewallConfig → Verdict
evaluate_domain domain none = permit
evaluate_domain domain (some fw) =
    if matches_any fw.blocklist_domains domain
    then block
    else if matches_any fw.allowlist_domains domain
    then permit
    else by_policy fw.default_policy

unfoldable pub firewall : Unit {0}
unfolding addresses match_cidr ip_to_int cidr_mask match_domain normalize_host strip_dot lower split
    join dotted mapped_chunks normalize_ip is_restricted_ipv6 is_restricted_octets octets
    is_restricted_outbound evaluate_outbound evaluate_ip evaluate_domain
firewall = tt
