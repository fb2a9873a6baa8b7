-- ===== src/Handler/Udp.antt =====
-- The UDP transport of `DnsHandler` (packages/core/src/dns-handler.ts): `handleUdpMessage`,
-- `forwardUdpQuery` and the callbacks of the socket that it opens. `digest` is the hexadecimal
-- SHA-256, `crypto` what DNSSEC uses of node:crypto. A throw in a callback is uncaught: `none`.
pub mod Relay
pub mod Timeouts
pub mod Progress
pub mod Drain
pub mod Tests
use zonzon.Base.{
  ℕ, zero, suc, ◌+◌, Bool, true, false, ◌&&◌, ◌||◌, not, Option, none, some, List, [], ◌∷◌, ◌++◌,
  ltb, leb, ◌==◌, if◌then◌else◌, ◌>>=◌, length, find, filter,
}
use zonzon.Base.Text.{Text}
use zonzon.Base.Bytes.{Bytes, be16, blit, u16_at}
use zonzon.Types.{rcode_servfail, rcode_nxdomain, rcode_refused}
use zonzon.Dns.Question.{ParsedQuestion, extract_questions}
use zonzon.Dns.Packet.{generate_error_response, append_edns0_do_bit, packets}
use zonzon.Dns.Mixing.{apply_0x20_encoding, mixing}
use zonzon.Dns.Server.{AuditEvent, dns, denied, resolve, is_set, cached_rcode, Resolution, serving}
use zonzon.Dnssec.{Crypto}
use zonzon.Dnssec.Validation.{verify_response}
use zonzon.Handler.{
  RemoteInfo, PendingUdpQuery, Forward, Pending, DnsHandler, max_concurrent_udp_forwards,
  is_rate_limited, parse_resolved_ipv4s, blocked_ip, valid_0x20, may_forward, handling,
}

-- a datagram to a client, or to the fallback resolver from a socket
pub data Sent : Type 0 where
  to_client : RemoteInfo → Bytes → Sent
  to_fallback : ℕ → Bytes → Sent

-- the handler after a callback, what it has sent, and what goes to the audit log
pub record Outcome : Type 0 where
  pub handler : DnsHandler
  pub sent : List Sent
  pub events : List AuditEvent

abbrev pub silent : DnsHandler → Outcome
silent h = record { handler = h; sent = []; events = [] }

abbrev pub send : DnsHandler → RemoteInfo → Bytes → Outcome
send h client reply = record { handler = h; sent = to_client client reply ∷ []; events = [] }

-- `map.delete(id)` and `map.set(id, entry)`
unfoldable pub delete_pending : ℕ → Pending → Pending
delete_pending id [] = []
delete_pending id ((other, entry) ∷ m) =
    if other == id then delete_pending id m else (other, entry) ∷ delete_pending id m

unfoldable pub set_pending : ℕ → PendingUdpQuery → Pending → Pending
set_pending id entry [] = (id, entry) ∷ []
set_pending id entry ((other, old) ∷ m) =
    if other == id then (other, entry) ∷ m else (other, old) ∷ set_pending id entry m

-- the variables of the callbacks of a new socket
abbrev pub new_forward :
    (ephemeral_id tracking_id : ℕ) → Bytes → RemoteInfo → DnsHandler → List Text → Forward
new_forward ephemeral_id tracking_id query client_info h expected_names = record {
  socket = h.next_socket;
  query = query;
  client_info = client_info;
  original_id = u16_at query 0;
  ephemeral_id = ephemeral_id;
  tracking_id = tracking_id;
  expected_names = expected_names;
}

-- a query that is forwarded: its entry, its socket and its datagram
unfoldable pub open_forward : Forward → DnsHandler → Bytes → Outcome
open_forward f h dnssec_query = record {
  handler = record h {
    pending_upstream_queries =
        set_pending f.tracking_id (record { rinfo = f.client_info; original_id = f.original_id })
          h.pending_upstream_queries;
    forwards = f ∷ h.forwards;
    next_socket = h.next_socket + 1;
  };
  sent = to_fallback f.socket dnssec_query ∷ [];
  events = [];
}

-- `random` gives the random bytes of the spelling
unfoldable pub forward_udp_query :
    (ℕ → ℕ) → (ephemeral_id tracking_id : ℕ) → Bytes → RemoteInfo → DnsHandler → Option Outcome
forward_udp_query random ephemeral_id tracking_id query client_info h =
    let opened = do
      (encoded, expected_names) ← apply_0x20_encoding random query
      dnssec_query ← append_edns0_do_bit (blit encoded 0 (be16 ephemeral_id))
      some (
          open_forward (new_forward ephemeral_id tracking_id query client_info h expected_names) h
            dnssec_query)
    in if not (is_set h.fallback_dns)
      then some (silent h)
      else if not (may_forward h.config.firewall client_info.address)
      then some (silent h)
      else if leb max_concurrent_udp_forwards (length h.pending_upstream_queries)
      then some (silent h)
      else if ltb (length query) 2
      then some (silent h)
      else opened

-- the entry and the socket of a forwarded query are gone
unfoldable pub close_forward : Forward → DnsHandler → DnsHandler
close_forward f h = record h {
  pending_upstream_queries = delete_pending f.tracking_id h.pending_upstream_queries;
  forwards = filter (λ g. not (g.socket == f.socket)) h.forwards;
}

-- what the client gets, with the first blocked address, if any
unfoldable pub reply_to_client :
    Forward → DnsHandler → Bytes → List ParsedQuestion → Option Text → Option Outcome
reply_to_client f h restored qs none = some (record {
  handler = h;
  sent = to_client f.client_info restored ∷ [];
  events = dns f.client_info.address qs (cached_rcode restored) false ∷ [];
})
reply_to_client f h restored qs (some ip) = do
  reply ← generate_error_response restored rcode_refused
  some (record {
    handler = h;
    sent = to_client f.client_info reply ∷ [];
    events =
        denied f.client_info.address ip ∷ dns f.client_info.address qs rcode_refused false ∷ [];
  })

-- from `parseResolvedIpv4s` on, with the client's id restored
unfoldable pub answer_client : Forward → DnsHandler → Bytes → Option Outcome
answer_client f h restored = do
  qs ← extract_questions restored
  reply_to_client f h restored qs (blocked_ip h.config.firewall (parse_resolved_ipv4s restored))

-- from the test of the names on
unfoldable pub after_names : Forward → DnsHandler → Bytes → Bool → Option Outcome
after_names f h msg false = some (silent h)
after_names f h msg true = answer_client f h (blit msg 0 (be16 f.original_id))

-- from the test of the signatures on
unfoldable pub after_signatures : Forward → DnsHandler → Bytes → Bool → Option Outcome
after_signatures f h msg false = some (silent h)
after_signatures f h msg true = do
  qs ← extract_questions msg
  after_names f h msg (valid_0x20 f.expected_names qs)

module _ (crypto : Crypto) where
  -- the callback for a message on the socket of `f`
  unfoldable pub on_udp_message : ℕ → Forward → Bytes → DnsHandler → Option Outcome
  on_udp_message now f msg h =
      let closed = close_forward f h in
      let checked = verify_response crypto now msg >>= after_signatures f closed msg in
      if ltb (length msg) 2
      then some (silent closed)
      else if not (u16_at msg 0 == f.ephemeral_id)
      then some (silent closed)
      else checked

-- the timer of three seconds
unfoldable pub on_udp_timeout : Forward → DnsHandler → Option Outcome
on_udp_timeout f h = do
  reply ← generate_error_response f.query rcode_servfail
  some (send (close_forward f h) f.client_info reply)

unfoldable pub on_udp_error : Forward → DnsHandler → Option Outcome
on_udp_error f h = some (silent (close_forward f h))

-- What `try` makes of a throw. What a `resolve` that throws has done to the cache is left out.
abbrev pub or_silent : DnsHandler → Option Outcome → Outcome
or_silent h none = silent h
or_silent h (some o) = o

-- behind events that have been logged before
abbrev logged : List AuditEvent → Outcome → Outcome
logged events o = record o { events = events ++ o.events }

-- what is done with the result of `resolve`
unfoldable pub after_resolve :
    (ℕ → ℕ)
    → (ephemeral_id tracking_id : ℕ) → Bytes
    → RemoteInfo
    → DnsHandler
    → List AuditEvent
    → Option Bytes
    → Outcome
after_resolve random ephemeral_id tracking_id query rinfo h events (some []) = record {
  handler = h;
  sent = [];
  events = events;
}
after_resolve random ephemeral_id tracking_id query rinfo h events (some (b ∷ response)) = record {
  handler = h;
  sent = to_client rinfo (b ∷ response) ∷ [];
  events = events;
}
after_resolve random ephemeral_id tracking_id query rinfo h events none =
    if is_set h.fallback_dns
    then logged events
        (or_silent h (forward_udp_query random ephemeral_id tracking_id query rinfo h))
    else logged events (
        or_silent h (generate_error_response query rcode_nxdomain >>= λ nx. some (send h rinfo nx)))

abbrev pub resolved :
    (ℕ → ℕ)
    → (ephemeral_id tracking_id : ℕ) → Bytes
    → RemoteInfo
    → DnsHandler
    → Resolution
    → Outcome
resolved random ephemeral_id tracking_id query rinfo h r =
    after_resolve random ephemeral_id tracking_id query rinfo (record h { server = r.server })
      r.events r.reply

abbrev pub or_unresolved : DnsHandler → (Resolution → Outcome) → Option Resolution → Outcome
or_unresolved h k none = silent h
or_unresolved h k (some r) = k r

module _ (digest : Text → Text) where
  unfoldable pub handle_udp_message :
      ℕ → (ℕ → ℕ) → (ephemeral_id tracking_id : ℕ) → Bytes → RemoteInfo → DnsHandler → Outcome
  handle_udp_message now random ephemeral_id tracking_id query rinfo h =
      let (h1, limited) = is_rate_limited now rinfo.address h in
      if limited
      then silent h1
      else or_unresolved h1 (resolved random ephemeral_id tracking_id query rinfo h1)
          (resolve digest now query rinfo.address h1.server)

-- What happens to the handler. An event of a socket that is closed has no callback.
pub data Event : Type 0 where
  datagram : ℕ → (ℕ → ℕ) → ℕ → ℕ → Bytes → RemoteInfo → Event
  message : ℕ → ℕ → Bytes → Event
  timeout : ℕ → Event
  failure : ℕ → Event

abbrev pub call_back : DnsHandler → (Forward → Option Outcome) → Option Forward → Option Outcome
call_back h callback none = some (silent h)
call_back h callback (some f) = callback f

unfoldable pub at_socket : ℕ → DnsHandler → (Forward → Option Outcome) → Option Outcome
at_socket socket h callback = call_back h callback (find (λ f. f.socket == socket) h.forwards)

module _ (digest : Text → Text) (crypto : Crypto) where
  unfoldable pub step : Event → DnsHandler → Option Outcome
  step (datagram now random ephemeral_id tracking_id query rinfo) h =
      some (handle_udp_message digest now random ephemeral_id tracking_id query rinfo h)
  step (message now socket msg) h = at_socket socket h (λ f. on_udp_message crypto now f msg h)
  step (timeout socket) h = at_socket socket h (λ f. on_udp_timeout f h)
  step (failure socket) h = at_socket socket h (λ f. on_udp_error f h)

  unfoldable pub run : List Event → DnsHandler → Option DnsHandler
  run [] h = some h
  run (e ∷ es) h = do o ← step e h; run es o.handler

unfoldable pub datagrams : Unit {0}
unfolding handling packets mixing serving delete_pending set_pending open_forward forward_udp_query
    close_forward reply_to_client answer_client after_names after_signatures on_udp_message
    on_udp_timeout on_udp_error after_resolve handle_udp_message at_socket step run
datagrams = tt
