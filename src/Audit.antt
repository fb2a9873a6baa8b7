-- ===== src/Audit.antt =====
-- The counters of the audit logger (packages/core/src/audit.ts) and their text for Prometheus. The
-- log lines themselves are output.
mod Tests
use zonzon.Base.{
  ℕ, suc, ◌+◌, Bool, true, false, ◌||◌, List, [], ◌∷◌, ◌++◌, ◌==◌, if◌then◌else◌, length,
}
use zonzon.Base.Text.{Text, codes, join}
use zonzon.Types.{rcode_nxdomain, rcode_refused}
use zonzon.Dns.Question.{ParsedQuestion}
use zonzon.Dns.Server.{AuditEvent, dns, denied, decimal}

pub record Metrics : Type 0 where
  pub dns_queries : ℕ
  pub dns_blocked : ℕ
  pub http_requests : ℕ
  pub http_blocked : ℕ
  pub firewall_drops : ℕ
  pub system_events : ℕ
  pub errors : ℕ

abbrev pub no_metrics : Metrics
no_metrics = record {
  dns_queries = 0;
  dns_blocked = 0;
  http_requests = 0;
  http_blocked = 0;
  firewall_drops = 0;
  system_events = 0;
  errors = 0;
}

unfoldable pub count_dns : List ParsedQuestion → ℕ → Metrics → Metrics
count_dns questions rcode m = record m {
  dns_queries = m.dns_queries + length questions;
  dns_blocked =
      if rcode == rcode_refused || rcode == rcode_nxdomain
      then m.dns_blocked + length questions
      else m.dns_blocked;
}

-- `action === "DENY"`
unfoldable pub count_firewall : Bool → Metrics → Metrics
count_firewall false m = m
count_firewall true m = record m { firewall_drops = m.firewall_drops + 1 }

unfoldable pub count_http : ℕ → Metrics → Metrics
count_http status m = record m {
  http_requests = m.http_requests + 1;
  http_blocked =
      if status == 403 || status == 413 || status == 429
      then m.http_blocked + 1
      else m.http_blocked;
}

unfoldable pub count_system : Metrics → Metrics
count_system m = record m { system_events = m.system_events + 1 }

unfoldable pub count_error : Metrics → Metrics
count_error m = record m { errors = m.errors + 1 }

-- what the events of the DNS server count
unfoldable pub count_event : AuditEvent → Metrics → Metrics
count_event (dns ip questions rcode cached) m = count_dns questions rcode m
count_event (denied ip target) m = count_firewall true m

abbrev number : ℕ → Text
number n = decimal (suc n) n

-- `# HELP`, `# TYPE` and the value of a counter
abbrev counter_lines : Text → Text → ℕ → List Text
counter_lines name help n =
    (codes "# HELP " ++ (name ++ (codes " " ++ help)))
    ∷ (codes "# TYPE " ++ (name ++ codes " counter"))
    ∷ (name ++ (codes " " ++ number n))
    ∷ []

unfoldable pub get_metrics_prometheus : Metrics → Text
get_metrics_prometheus m =
    join 10 (
      counter_lines (codes "zonzon_dns_queries_total") (codes "Total DNS queries processed")
        m.dns_queries
      ++ (counter_lines (codes "zonzon_dns_blocked_total")
            (codes "Total DNS queries blocked by policy") m.dns_blocked
          ++ (counter_lines (codes "zonzon_http_requests_total")
                (codes "Total HTTP requests routed") m.http_requests
              ++ (counter_lines (codes "zonzon_http_blocked_total")
                    (codes "Total HTTP requests blocked") m.http_blocked
                  ++ (counter_lines (codes "zonzon_firewall_drops_total")
                        (codes "Total connection drops across L3/L4/L7") m.firewall_drops
                      ++ counter_lines (codes "zonzon_errors_total")
                          (codes "Total system errors encountered") m.errors)))))
    ++ (10 ∷ [])

unfoldable pub auditing : Unit {0}
unfolding decimal join count_dns count_firewall count_http count_system count_error count_event
    get_metrics_prometheus
auditing = tt
