-- ===== src/Dns/Hosts/Tests.antt =====
-- A configuration with an exact, a wildcard and a catch-all entry.
use zonzon.Base.{◌≡◌, refl, true, none, some, [], ◌∷◌}
use zonzon.Base.Text.{Text, codes}
use zonzon.Types.{a, HostConfig, Hosts}
use zonzon.Dns.Hosts.{find_host_config, has_record, hosting}
use zonzon.Dns.Hosts.Priority.{Source, find_host_config-Source}

abbrev with_address : Text → HostConfig
with_address address = record {
  records = a address ∷ [];
  http_proxy = none;
  tls_proxy = none;
  redirect = none;
}

abbrev hosts : Hosts
hosts =
    (codes "*", with_address (codes "1.1.1.1"))
    ∷ (codes "*.b", with_address (codes "2.2.2.2"))
    ∷ (codes "*.a.b", with_address (codes "3.3.3.3"))
    ∷ (codes "X.a.b", with_address (codes "4.4.4.4"))
    ∷ []

exact_first : find_host_config (codes "x.a.b") hosts ≡ some (with_address (codes "4.4.4.4"))
unfolding hosting
exact_first = refl

longest_wildcard : find_host_config (codes "y.a.b") hosts ≡ some (with_address (codes "3.3.3.3"))
unfolding hosting
longest_wildcard = refl

-- the wildcard entry of a name covers the name itself
wildcard_itself : find_host_config (codes "a.b") hosts ≡ some (with_address (codes "3.3.3.3"))
unfolding hosting
wildcard_itself = refl

address_found : has_record (codes "Z.") 1 hosts ≡ true
unfolding hosting
address_found = refl

find_host_config-Source_example :
    Source (codes "x.a.b") hosts (find_host_config (codes "x.a.b") hosts)
find_host_config-Source_example = find_host_config-Source (codes "x.a.b") hosts
