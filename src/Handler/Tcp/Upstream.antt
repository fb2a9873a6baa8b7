-- ===== src/Handler/Tcp/Upstream.antt =====
-- The callbacks of the connection that `forwardTcpQuery` of packages/core/src/dns-handler.ts opens
-- to the fallback resolver. A throw in a callback is uncaught: `none`.
pub mod Relay
use zonzon.Base.{
  ℕ, zero, suc, ◌+◌, Bool, true, false, not, Option, none, some, List, [], ◌∷◌, ◌++◌, ltb, ◌==◌,
  if◌then◌else◌, ◌>>=◌, length, take,
}
use zonzon.Base.Text.{Text}
use zonzon.Base.Bytes.{Bytes}
use zonzon.Types.{FirewallConfig, rcode_servfail, rcode_refused}
use zonzon.Dns.Question.{ParsedQuestion, extract_questions}
use zonzon.Dns.Packet.{generate_error_response}
use zonzon.Dns.Server.{AuditEvent, dns, denied, cached_rcode}
use zonzon.Dnssec.{Crypto}
use zonzon.Dnssec.Validation.{verify_response}
use zonzon.Handler.{parse_resolved_ipv4s, blocked_ip, valid_0x20}
use zonzon.Handler.Tcp.{
  Frame, incomplete, zero_length, frame, next_frame, framed, TcpForward, TcpEffect, write, end_,
  Connection, connected, destroyed, tcp_fuel, streams,
}

-- What one message makes: the calls on the client's socket, the events, and whether the loop goes
-- on. The connection upstream is destroyed in each case.
pub record Reply : Type 0 where
  pub calls : List TcpEffect
  pub events : List AuditEvent
  pub goes_on : Bool

-- The connection upstream, and the calls and events up to now.
pub record Upstream : Type 0 where
  pub connection : Connection
  pub calls : List TcpEffect
  pub events : List AuditEvent

-- a length, a message and the end
abbrev pub write_framed : Bytes → Option (List TcpEffect)
write_framed message = framed message >>= λ p. some (write p ∷ end_ ∷ [])

-- `alive`: the client's socket is not destroyed
abbrev pub if_alive : Bool → List TcpEffect → List TcpEffect
if_alive alive calls = if alive then calls else []

abbrev pub drop_reply : Bool → Reply
drop_reply alive = record { calls = if_alive alive (end_ ∷ []); events = []; goes_on = false }

unfoldable pub refuse_client : Bool → Bytes → Option (List TcpEffect)
refuse_client false query = some []
refuse_client true query = generate_error_response query rcode_refused >>= write_framed

-- from the search for a blocked address on
unfoldable pub upstream_answer :
    Bool → TcpForward → (resp resp_data : Bytes) → Option Text → Option Reply
upstream_answer alive f resp resp_data (some ip) = do
  qs ← extract_questions f.query
  calls ← refuse_client alive f.query
  some (record {
    calls = calls;
    events = denied f.peer_addr ip ∷ dns f.peer_addr qs rcode_refused false ∷ [];
    goes_on = true;
  })
upstream_answer alive f resp resp_data none = do
  qs ← extract_questions f.query
  some (record {
    calls = if_alive alive (write resp_data ∷ end_ ∷ []);
    events = dns f.peer_addr qs (cached_rcode resp) false ∷ [];
    goes_on = true;
  })

module _ (fw : Option FirewallConfig) (alive : Bool) (f : TcpForward) where
  unfoldable pub upstream_named : (resp resp_data : Bytes) → Bool → Option Reply
  upstream_named resp resp_data false = some (drop_reply alive)
  upstream_named resp resp_data true =
      upstream_answer alive f resp resp_data (blocked_ip fw (parse_resolved_ipv4s resp))

  unfoldable pub upstream_genuine : (resp resp_data : Bytes) → Bool → Option Reply
  upstream_genuine resp resp_data false = some (drop_reply alive)
  upstream_genuine resp resp_data true = do
    qs ← extract_questions resp
    upstream_named resp resp_data (valid_0x20 f.expected_names qs)

  module _ (crypto : Crypto) (now : ℕ) where
    -- the body of the loop behind the taking of a message
    unfoldable pub upstream_message : (resp resp_data : Bytes) → Option Reply
    upstream_message resp resp_data =
        verify_response crypto now resp >>= upstream_genuine resp resp_data

    abbrev pub after_reply : Reply → Upstream → Upstream
    after_reply r u = record {
      connection = destroyed;
      calls = u.calls ++ r.calls;
      events = u.events ++ r.events;
    }

    -- The loop; `u.connection` is destroyed once a message has been handled. `again` is the next
    -- round.
    abbrev pub after_message :
        (Bytes → Upstream → Option Upstream) → Bytes → Upstream → Reply → Option Upstream
    after_message again rest u r =
        let next = again rest (after_reply r u) in
        if r.goes_on then next else some (after_reply r u)

    abbrev pub upstream_round :
        (Bytes → Upstream → Option Upstream) → Bytes → Upstream → Frame → Option Upstream
    upstream_round again buffer u incomplete = some u
    upstream_round again buffer u zero_length = some (record u { connection = destroyed })
    upstream_round again buffer u (frame resp rest) =
        upstream_message resp (take (2 + length resp) buffer) >>= after_message again rest u

    unfoldable pub upstream_loop : ℕ → Bytes → Upstream → Option Upstream
    upstream_loop zero buffer u = some u
    upstream_loop (suc n) buffer u = upstream_round (upstream_loop n) buffer u (next_frame buffer)

    -- the callback for data
    unfoldable pub on_upstream_data : Bytes → Connection → Option Upstream
    on_upstream_data chunk destroyed =
        some (record { connection = destroyed; calls = []; events = [] })
    on_upstream_data chunk (connected buffer) =
        upstream_loop (tcp_fuel (buffer ++ chunk)) (buffer ++ chunk)
          (record { connection = connected (buffer ++ chunk); calls = []; events = [] })

-- the callbacks for the end and for an error
abbrev pub on_upstream_end : Bool → List TcpEffect
on_upstream_end alive = if_alive alive (end_ ∷ [])

unfoldable pub on_upstream_error : Bool → TcpForward → Option (List TcpEffect)
on_upstream_error false f = some []
on_upstream_error true f = generate_error_response f.query rcode_servfail >>= write_framed

unfoldable pub upstreams : Unit {0}
unfolding streams refuse_client upstream_answer upstream_named upstream_genuine upstream_message
    upstream_loop on_upstream_data on_upstream_error
upstreams = tt
