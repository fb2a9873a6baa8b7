-- ===== src/Dns/Hosts.antt =====
-- `findHostConfig`, `hasRecord` and `toTypeNumber` of `DevDnsServer`
-- (packages/core/src/dns-service.ts).
pub mod Priority
mod Tests
use zonzon.Base.{
  ℕ, Bool, true, false, not, ◌&&◌, Option, none, some, List, [], ◌∷◌, ◌++◌, any, ◌==◌,
  if◌then◌else◌,
}
use zonzon.Base.Text.{
  Text, codes, text_eq, to_lower, lower, starts_with, split, join, strip_dot, normalize_host,
}
use zonzon.Base.OrderedMap.{get}
use zonzon.Types.{
  DnsRecord, a, aaaa, cname, txt, mx, ns, srv, ptr, HostConfig, Hosts, type_a, type_ns, type_cname,
  type_ptr, type_mx, type_txt, type_aaaa, type_srv,
}

abbrev star : Text
star = codes "*"

abbrev star_dot : Text
star_dot = codes "*."

abbrev pub is_exact_key : Text → Text → Bool
is_exact_key key name =
    not (text_eq key star) && not (starts_with key star_dot) && text_eq (to_lower key) name

-- the first loop
unfoldable pub find_exact : Text → Hosts → Option HostConfig
find_exact name [] = none
find_exact name ((key, value) ∷ hosts) =
    if is_exact_key key name then some value else find_exact name hosts

abbrev pub wildcard_key : List Text → Text
wildcard_key labels = star_dot ++ join b'.' labels

-- the second loop: the labels from the `i`-th on, for each `i`
unfoldable pub find_wildcard : List Text → Hosts → Option HostConfig
find_wildcard [] hosts = none
find_wildcard (label ∷ labels) hosts = elim (get (wildcard_key (label ∷ labels)) hosts) [
  | none ↦ find_wildcard labels hosts
  | some value ↦ some value
]

unfoldable pub find_host_config : Text → Hosts → Option HostConfig
find_host_config name hosts = elim (find_exact name hosts) [
  | some value ↦ some value
  | none ↦ elim (find_wildcard (split b'.' name) hosts) [
    | some value ↦ some value
    | none ↦ get star hosts
  ]
]

unfoldable pub to_type_number : DnsRecord → ℕ
to_type_number (a address) = type_a
to_type_number (aaaa address) = type_aaaa
to_type_number (cname target) = type_cname
to_type_number (txt data_) = type_txt
to_type_number (mx priority exchange) = type_mx
to_type_number (ns target) = type_ns
to_type_number (srv priority weight port target) = type_srv
to_type_number (ptr target) = type_ptr

abbrev some_record : ℕ → Option HostConfig → Bool
some_record type none = false
some_record type (some host) = any (λ r. to_type_number r == type) host.records

unfoldable pub has_record : Text → ℕ → Hosts → Bool
has_record name type hosts = some_record type (find_host_config (normalize_host name) hosts)

unfoldable pub hosting : Unit {0}
unfolding get find_exact find_wildcard find_host_config to_type_number has_record split join lower
    normalize_host strip_dot
hosting = tt
