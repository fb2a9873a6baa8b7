-- ===== src/Audit/Tests.antt =====
-- Two events of the DNS server, counted.
use zonzon.Base.{◌≡◌, refl, false, take}
use zonzon.Base.Text.{codes}
use zonzon.Dns.Packet.Tests.{asked}
use zonzon.Dns.Server.{dns, denied}
use zonzon.Audit.{
  Metrics, no_metrics, count_event, count_http, count_system, count_error, get_metrics_prometheus,
  auditing,
}

abbrev counted : Metrics
counted = record no_metrics { dns_queries = 1; dns_blocked = 1; firewall_drops = 1 }

events_counted :
    count_event
      (denied (codes "::1") (codes "x.y"))
      (count_event (dns (codes "::1") asked 3 false) no_metrics)
    ≡ counted
unfolding auditing
events_counted = refl

first_line :
    take 59 (get_metrics_prometheus counted)
    ≡ codes "# HELP zonzon_dns_queries_total Total DNS queries processed"
unfolding auditing
first_line = refl

others_counted :
    count_http 403 (count_http 200 (count_system (count_error no_metrics)))
    ≡ record no_metrics { http_requests = 2; http_blocked = 1; system_events = 1; errors = 1 }
unfolding auditing
others_counted = refl
