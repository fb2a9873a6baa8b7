-- ===== src/Handler/Doh/Tests.antt =====
-- Requests over HTTPS, a reply of the fallback resolver, and the theorems at them.
use zonzon.Base.{◌≡◌, ◌≤◌, refl, false, none, some, [], ◌∷◌, length, take, drop}
use zonzon.Base.Text.{codes}
use zonzon.Dns.Server.{dns}
use zonzon.Handler.Samples.{idle, client, packet, query, reply_with, good, entropy}
use zonzon.Handler.Doh.{
  DohRequest, query_of, doh_query, DohForward, DohAnswer, answered, bare, handle_doh_request,
  secure,
}
use zonzon.Handler.Doh.Queries.{doh_query_iff}

abbrev post : DohRequest
post = record {
  method = codes "POST";
  pathname = codes "/dns-query";
  dns_param = none;
  content_type = some (codes "application/dns-message");
  body = (3, take 5 query) ∷ (4000, drop 5 query) ∷ [];
}

abbrev sent : DohForward
sent = record {
  query = query;
  client_ip = client.address;
  expected_names = codes "aB" ∷ [];
  dnssec_query = packet 7 0x0100 0 (codes "aB");
}

slow_test :
    (handle_doh_request
      (λ s. s)
      (λ s. s)
      0
      entropy
      (record post { body = (5001, query) ∷ [] })
      client.address
      idle).1
    ≡ answered (bare 408)
unfolding secure
slow_test = refl

posted : doh_query (λ s. s) false post ≡ query_of query
unfolding secure
posted = refl

doh_query_iff_example : 12 ≤ length query
doh_query_iff_example = ((doh_query_iff (λ s. s) false post query).0 posted).3

abbrev reply : DohAnswer
reply = record {
  reply = reply_with 500 good;
  events =
      dns client.address (record { name = codes "ab"; type = 1; next_offset = 20 } ∷ []) 0 false
      ∷ [];
}
