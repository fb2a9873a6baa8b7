-- ===== src/Http/Tests.antt =====
-- Faults of each kind, and a host that a wildcard entry covers.
use zonzon.Base.{◌≡◌, refl, true, false, none, some, [], ◌∷◌}
use zonzon.Base.Text.{Text, codes}
use zonzon.Types.{HostConfig, Hosts}
use zonzon.Http.{HttpFault, page, end_only, handle_http_fault, find_wildcard_host, faulting}

abbrev fault_of : Text → Text → HttpFault
fault_of code message = record { name = codes "Error"; code = code; message = message }

too_large :
    handle_http_fault (fault_of (codes "UNKNOWN") (codes "Payload size limit exceeded")) true
    ≡ end_only
unfolding faulting
too_large = refl

refused : handle_http_fault (fault_of (codes "ECONNREFUSED") (codes "connect")) false ≡ page 503
unfolding faulting
refused = refl

blocked :
    handle_http_fault (fault_of (codes "UNKNOWN") (codes "Restricted IP: 127.0.0.1")) false
    ≡ page 403
unfolding faulting
blocked = refl

circuit_opened :
    handle_http_fault
      (fault_of (codes "UNKNOWN") (codes "Target Offline (Circuit Breaker OPEN)"))
      false
    ≡ page 503
unfolding faulting
circuit_opened = refl

abbrev empty_host : HostConfig
empty_host = record { records = []; http_proxy = none; tls_proxy = none; redirect = none }

abbrev hosts : Hosts
hosts = (codes "*.b", empty_host) ∷ (codes "*.a.b", empty_host) ∷ []

covered : find_wildcard_host hosts (codes "X.a.B.") ≡ some empty_host
unfolding faulting
covered = refl

-- the last label alone is not tried
top_level : find_wildcard_host hosts (codes "b") ≡ none
unfolding faulting
top_level = refl
