-- ===== src/Handler/Tcp.antt =====
-- The TCP transport of `DnsHandler` (packages/core/src/dns-handler.ts): the callbacks of a client's
-- connection in `handleTcpConnection`, and `forwardTcpQuery`. Each message stands behind its length
-- in two bytes. DNS over TLS has the same callbacks.
pub mod Frames
pub mod Chunks
pub mod Stream
pub mod Upstream
pub mod Tests
use zonzon.Base.{
  ℕ, zero, suc, ◌+◌, ◌*◌, Bool, true, false, not, Option, none, some, List, [], ◌∷◌, ◌++◌, ltb, leb,
  ◌==◌, if◌then◌else◌, ◌>>=◌, length, take, drop,
}
use zonzon.Base.Text.{Text}
use zonzon.Base.Bytes.{Bytes, be16}
use zonzon.Types.{rcode_servfail, rcode_nxdomain, rcode_refused}
use zonzon.Dns.Question.{ParsedQuestion, extract_questions}
use zonzon.Dns.Packet.{generate_error_response, append_edns0_do_bit, packets}
use zonzon.Dns.Mixing.{apply_0x20_encoding, mixing}
use zonzon.Dns.Server.{AuditEvent, dns, denied, resolve, is_set, cached_rcode, Resolution, serving}
use zonzon.Dnssec.{Crypto}
use zonzon.Dnssec.Validation.{verify_response}
use zonzon.Handler.{
  DnsHandler, is_rate_limited, parse_resolved_ipv4s, blocked_ip, valid_0x20, handling,
}

abbrev pub max_tcp_buffer_size : ℕ
max_tcp_buffer_size = 64 * 1024

-- What stands at the front of a buffer: the test of the loop, its two exits, and a message with
-- what is behind it.
pub data Frame : Type 0 where
  incomplete zero_length : Frame
  frame : Bytes → Bytes → Frame

unfoldable pub next_frame : Bytes → Frame
next_frame [] = incomplete
next_frame (x ∷ []) = incomplete
next_frame (x ∷ y ∷ rest) =
    let size = x * 256 + y in
    if size == 0
    then zero_length
    else if ltb (2 + length rest) (2 + size)
    then incomplete
    else frame (take size rest) (drop size rest)

-- `Buffer.alloc(2 + n)` with the length and the message; `none` where the length does not fit
abbrev pub framed : Bytes → Option Bytes
framed message =
    if ltb 65535 (length message) then none else some (be16 (length message) ++ message)

-- a query on its way to the fallback resolver, with what has come back
pub record TcpForward : Type 0 where
  pub query : Bytes
  pub peer_addr : Text
  pub expected_names : List Text
  pub dnssec_query : Bytes

-- the calls on the client's socket, and of `forwardTcpQuery`
pub data TcpEffect : Type 0 where
  write : Bytes → TcpEffect
  end_ destroy : TcpEffect
  forward : TcpForward → TcpEffect

-- `random` gives the random bytes of the spelling
unfoldable pub forward_tcp_query : (ℕ → ℕ) → Bytes → Text → Option TcpForward
forward_tcp_query random query peer_addr = do
  (encoded, expected_names) ← apply_0x20_encoding random query
  dnssec_query ← append_edns0_do_bit encoded
  some (record {
    query = query;
    peer_addr = peer_addr;
    expected_names = expected_names;
    dnssec_query = dnssec_query;
  })

-- the `catch` ends the connection
abbrev or_end : Option (List TcpEffect) → List TcpEffect
or_end none = end_ ∷ []
or_end (some effects) = effects

-- what is done with the result of `resolve`
unfoldable pub tcp_effects : (ℕ → ℕ) → Bytes → Text → Option Text → Option Bytes → List TcpEffect
tcp_effects random query peer_addr fallback_dns (some []) = end_ ∷ []
tcp_effects random query peer_addr fallback_dns (some (b ∷ response)) =
    or_end (framed (b ∷ response) >>= λ prefixed. some (write prefixed ∷ []))
tcp_effects random query peer_addr fallback_dns none =
    if is_set fallback_dns
    then or_end (forward_tcp_query random query peer_addr >>= λ f. some (forward f ∷ []))
    else or_end (do
      nx ← generate_error_response query rcode_nxdomain
      p ← framed nx
      some (write p ∷ end_ ∷ []))

-- The handler, and the calls and the events up to now.
pub record TcpLog : Type 0 where
  pub handler : DnsHandler
  pub effects : List TcpEffect
  pub events : List AuditEvent

-- with the bytes that are not used up
pub data Connection : Type 0 where
  connected : Bytes → Connection
  destroyed : Connection

pub record TcpState : Type 0 where
  pub connection : Connection
  pub log : TcpLog

abbrev pub destroy_client : TcpLog → TcpState
destroy_client log = record {
  connection = destroyed;
  log = record log { effects = log.effects ++ (destroy ∷ []) };
}

abbrev pub keep_buffer : Bytes → TcpLog → TcpState
keep_buffer buffer log = record { connection = connected buffer; log = log }

-- what a throwing `resolve` has done to the cache is left out
unfoldable pub after_tcp_resolve : (ℕ → ℕ) → Text → Bytes → TcpLog → Option Resolution → TcpLog
after_tcp_resolve random peer_addr query log none = record log {
  effects = log.effects ++ (end_ ∷ []);
}
after_tcp_resolve random peer_addr query log (some r) = record log {
  handler = record log.handler { server = r.server };
  effects = log.effects ++ tcp_effects random query peer_addr log.handler.fallback_dns r.reply;
  events = log.events ++ r.events;
}

-- each message has a byte at least
abbrev pub tcp_fuel : Bytes → ℕ
tcp_fuel buffer = suc (length buffer)

module _ (digest : Text → Text) (now : ℕ) (random : ℕ → ℕ) (peer_addr : Text) where
  -- the body of the loop behind the taking of a message
  unfoldable pub tcp_answer : Bytes → TcpLog → TcpLog
  tcp_answer query log =
      after_tcp_resolve random peer_addr query log
        (resolve digest now query peer_addr log.handler.server)

  -- the loop, over a buffer
  unfoldable pub tcp_loop : ℕ → Bytes → TcpLog → TcpState
  tcp_loop zero buffer log = keep_buffer buffer log
  tcp_loop (suc n) buffer log = elim (next_frame buffer) [
    | incomplete ↦ keep_buffer buffer log
    | zero_length ↦ destroy_client log
    | frame query rest ↦ tcp_loop n rest (tcp_answer query log)
  ]

  -- The callback for data, with what is left of the bytes before. A socket that is destroyed gets
  -- none.
  unfoldable pub receive : Bytes → Connection → TcpLog → TcpState
  receive chunk destroyed log = record { connection = destroyed; log = log }
  receive chunk (connected buffer) log =
      if ltb max_tcp_buffer_size (length buffer + length chunk)
      then destroy_client log
      else tcp_loop (tcp_fuel (buffer ++ chunk)) (buffer ++ chunk) log

  abbrev pub on_tcp_data : Bytes → TcpState → TcpState
  on_tcp_data chunk s = receive chunk s.connection s.log

  -- the chunks one after another
  unfoldable pub on_tcp_chunks : List Bytes → TcpState → TcpState
  on_tcp_chunks [] s = s
  on_tcp_chunks (chunk ∷ chunks) s = on_tcp_chunks chunks (on_tcp_data chunk s)

-- the start of a connection
unfoldable pub handle_tcp_connection : ℕ → Text → DnsHandler → TcpState
handle_tcp_connection now peer_addr h =
    let (h1, limited) = is_rate_limited now peer_addr h in
    let log : TcpLog = record { handler = h1; effects = []; events = [] } in
    if limited then destroy_client log else keep_buffer [] log

unfoldable pub streams : Unit {0}
unfolding handling packets mixing serving next_frame forward_tcp_query tcp_effects after_tcp_resolve
    tcp_answer tcp_loop receive on_tcp_chunks handle_tcp_connection
streams = tt
