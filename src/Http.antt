-- ===== src/Http.antt =====
-- `findWildcardHost` and `handleHttpFault` of packages/core/src/http-handler.ts. The audit entries
-- and the page of a fault are left out of its reply.
pub mod Requests
mod Tests
use zonzon.Base.{ℕ, Bool, true, false, ◌||◌, Option, none, some, List, [], ◌∷◌, ◌++◌, if◌then◌else◌}
use zonzon.Base.Text.{Text, codes, text_eq, has_part, join, split, normalize_host}
use zonzon.Base.OrderedMap.{get}
use zonzon.Types.{HostConfig, Hosts}
use zonzon.Dns.Hosts.{wildcard_key, hosting}

-- the labels from the `i`-th on, for each `i` but the last
unfoldable pub find_wildcard_labels : List Text → Hosts → Option HostConfig
find_wildcard_labels [] hosts = none
find_wildcard_labels (label ∷ []) hosts = none
find_wildcard_labels (label ∷ next ∷ labels) hosts =
    elim (get (wildcard_key (label ∷ next ∷ labels)) hosts) [
      | none ↦ find_wildcard_labels (next ∷ labels) hosts
      | some value ↦ some value
    ]

unfoldable pub find_wildcard_host : Hosts → Text → Option HostConfig
find_wildcard_host hosts hostname =
    find_wildcard_labels (split b'.' (normalize_host hostname)) hosts

-- an error: its name, its code (`UNKNOWN` where it has none) and its message
pub record HttpFault : Type 0 where
  pub name : Text
  pub code : Text
  pub message : Text

-- what is sent: the head with a status and the end, or only the end of what has begun
pub data FaultReply : Type 0 where
  page : ℕ → FaultReply
  end_only : FaultReply

unfoldable pub is_timeout : HttpFault → Bool
is_timeout err =
    text_eq err.name (codes "AbortError")
    || text_eq err.name (codes "TimeoutError")
    || text_eq err.message (codes "TimeoutError")
    || text_eq err.code (codes "ETIMEDOUT")

unfoldable pub is_unreachable : HttpFault → Bool
is_unreachable err =
    text_eq err.code (codes "ECONNREFUSED")
    || text_eq err.code (codes "EHOSTUNREACH")
    || text_eq err.code (codes "ENOTFOUND")

unfoldable pub is_security_fault : Text → Bool
is_security_fault message =
    has_part message (codes "Security Block")
    || has_part message (codes "Firewall")
    || has_part message (codes "Blocked")
    || has_part message (codes "Restricted IP")
    || has_part message (codes "Domain Blocked")
    || has_part message (codes "Resolution Fault")

unfoldable pub handle_http_fault : HttpFault → Bool → FaultReply
handle_http_fault err headers_sent =
    if has_part err.message (codes "Payload size limit exceeded")
    then (if headers_sent then end_only else page 413)
    else if is_timeout err
    then page 504
    else if is_unreachable err
    then page 503
    else if is_security_fault err.message
    then page 403
    else if has_part err.message (codes "Circuit Breaker OPEN")
    then page 503
    else page 502

unfoldable pub faulting : Unit {0}
unfolding hosting has_part find_wildcard_labels find_wildcard_host is_timeout is_unreachable
    is_security_fault handle_http_fault
faulting = tt
