-- ===== src/Handler/Udp/Tests.antt =====
-- A query that is forwarded, its reply, and the theorems at them.
use zonzon.Base.{◌≡◌, refl, inl, true, false, some, List, [], ◌∷◌, arith}
use zonzon.Base.Text.{codes}
use zonzon.Base.Bytes.{be16, blit}
use zonzon.Firewall.{permit, evaluate_ip}
use zonzon.Dns.Question.{ParsedQuestion, extract_questions}
use zonzon.Dns.Server.{dns, cached_rcode}
use zonzon.Dnssec.Validation.{verify_response}
use zonzon.Handler.{Forward, DnsHandler, parse_resolved_ipv4s, is_private_ip, handling}
use zonzon.Handler.Samples.{rules, idle, client, query, reply_with, good, bad, entropy, crypto}
use zonzon.Handler.Udp.{
  to_client, close_forward, on_udp_message, handle_udp_message, Event, datagram, message, timeout,
  run, datagrams,
}
use zonzon.Handler.Udp.Relay.{on_udp_message_relays}
use zonzon.Handler.Udp.Timeouts.{IsValid}
use zonzon.Handler.Udp.Progress.{run-IsValid}
use zonzon.Handler.Udp.Drain.{run_drains}

abbrev waiting : Forward
waiting = record {
  socket = 0;
  query = query;
  client_info = client;
  original_id = 7;
  ephemeral_id = 500;
  tracking_id = 9;
  expected_names = codes "aB" ∷ [];
}

abbrev busy : DnsHandler
busy = record idle {
  pending_upstream_queries = (9, record { rinfo = client; original_id = 7 }) ∷ [];
  forwards = waiting ∷ [];
  next_socket = 1;
}

forwarded : (handle_udp_message (λ s. s) 0 entropy 500 9 query client idle).handler ≡ busy
unfolding datagrams
forwarded = refl

addresses_test : parse_resolved_ipv4s (reply_with 7 bad) ≡ codes "10.0.0.2" ∷ []
unfolding handling
addresses_test = refl

private_test : is_private_ip (codes "172.31.0.1") ≡ true
unfolding handling
private_test = refl

restored_test : blit (reply_with 500 good) 0 (be16 7) ≡ reply_with 7 good
restored_test = refl

genuine : verify_response crypto 0 (reply_with 500 good) ≡ some true
unfolding datagrams
genuine = refl

asked :
    extract_questions (reply_with 500 good)
    ≡ some (record { name = codes "aB"; type = 1; next_offset = 20 } ∷ [])
unfolding datagrams
asked = refl

permitted : evaluate_ip (codes "10.0.0.1") (some rules) ≡ permit
unfolding datagrams
permitted = refl

addresses : parse_resolved_ipv4s (reply_with 7 good) ≡ codes "10.0.0.1" ∷ []
unfolding datagrams
addresses = refl

on_udp_message_relays_example :
    (qs : List ParsedQuestion) × (extract_questions (reply_with 7 good) ≡ some qs)
    × (on_udp_message crypto 0 waiting (reply_with 500 good) busy
        ≡ some (record {
          handler = close_forward waiting busy;
          sent = to_client client (reply_with 7 good) ∷ [];
          events = dns client.address qs (cached_rcode (reply_with 7 good)) false ∷ [];
        }))
on_udp_message_relays_example =
    on_udp_message_relays crypto 0 waiting (reply_with 500 good) busy
      (refl, genuine, (record { name = codes "aB"; type = 1; next_offset = 20 } ∷ [], asked, refl))
      (rw addresses (permitted, tt))

busy-IsValid : IsValid busy
busy-IsValid = record {
  bounded = omega arith;
  watched = (inl refl, tt);
  numbered = (omega arith, tt);
}

idle-IsValid : IsValid idle
idle-IsValid = record { bounded = omega arith; watched = tt; numbered = tt }

abbrev history : List Event
history =
    datagram 0 entropy 500 9 query client
    ∷ message 5 0 (reply_with 500 bad)
    ∷ datagram 9 entropy 501 9 query client
    ∷ []

abbrev later : DnsHandler
later = record busy {
  forwards = record waiting { socket = 1; ephemeral_id = 501 } ∷ [];
  next_socket = 2;
}

ran : run (λ s. s) crypto history idle ≡ some later
unfolding datagrams
ran = refl

run-IsValid_example : IsValid later
run-IsValid_example = run-IsValid (λ s. s) crypto history idle later idle-IsValid ran

closed_by_timer : run (λ s. s) crypto (timeout 0 ∷ []) busy ≡ some (record idle { next_socket = 1 })
unfolding datagrams
closed_by_timer = refl

run_drains_example : (idle.pending_upstream_queries ≡ []) × (idle.forwards ≡ [])
run_drains_example =
    run_drains (λ s. s) crypto (timeout 0 ∷ []) busy (record idle { next_socket = 1 }) busy-IsValid
      ((λ e. cc), tt) (refl, tt) closed_by_timer
