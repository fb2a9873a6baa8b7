-- ===== src/Handler/Tcp/Tests.antt =====
-- A stream of two queries in three chunks, a reply of the fallback resolver, and the theorems at
-- them.
use zonzon.Base.{◌≡◌, refl, true, false, some, List, [], ◌∷◌, ◌++◌, arith, take, drop, All}
use zonzon.Base.Text.{codes}
use zonzon.Base.Bytes.{Bytes, be16}
use zonzon.Dns.Server.{dns}
use zonzon.Handler.Samples.{rules, idle, client, packet, query, reply_with, good, entropy, crypto}
use zonzon.Handler.Tcp.{
  TcpForward, write, end_, destroy, TcpLog, connected, destroyed, keep_buffer, on_tcp_chunks,
  streams,
}
use zonzon.Handler.Tcp.Frames.{frames, frame_bytes}
use zonzon.Handler.Tcp.Stream.{tcp_answers, on_tcp_chunks_answers}
use zonzon.Handler.Tcp.Upstream.{Upstream, on_upstream_data, upstreams}
use zonzon.Handler.Tcp.Upstream.Relay.{IsSound, on_upstream_data-IsSound}

abbrev start : TcpLog
start = record { handler = idle; effects = []; events = [] }

abbrev stream : Bytes
stream = frames (query ∷ query ∷ [])

abbrev chunks : List Bytes
chunks = take 1 stream ∷ take 29 (drop 1 stream) ∷ drop 30 stream ∷ []

abbrev sent : TcpForward
sent = record {
  query = query;
  peer_addr = client.address;
  expected_names = codes "aB" ∷ [];
  dnssec_query = packet 7 0x0100 0 (codes "aB");
}

stream_test :
    (on_tcp_chunks
      (λ s. s)
      0
      entropy
      client.address
      ((be16 9 ++ (1 ∷ [])) ∷ be16 0 ∷ [])
      (keep_buffer [] start)).connection
    ≡ connected (be16 9 ++ (1 ∷ be16 0))
unfolding streams
stream_test = refl

zero_length_test :
    (on_tcp_chunks (λ s. s) 0 entropy client.address (be16 0 ∷ be16 1 ∷ []) (keep_buffer [] start))
    ≡ record { connection = destroyed; log = record start { effects = destroy ∷ [] } }
unfolding streams
zero_length_test = refl

on_tcp_chunks_answers_example :
    on_tcp_chunks (λ s. s) 0 entropy client.address chunks (keep_buffer [] start)
    ≡ keep_buffer [] (tcp_answers (λ s. s) 0 entropy client.address (query ∷ query ∷ []) start)
on_tcp_chunks_answers_example =
    on_tcp_chunks_answers (λ s. s) 0 entropy client.address (query ∷ query ∷ []) chunks start
      (omega arith) refl (omega arith)

abbrev relayed : Upstream
relayed = record {
  connection = destroyed;
  calls = write (frame_bytes (reply_with 7 good)) ∷ end_ ∷ [];
  events =
      dns client.address (record { name = codes "ab"; type = 1; next_offset = 20 } ∷ []) 0 false
      ∷ [];
}

relay_test :
    on_upstream_data
      (some rules)
      true
      sent
      crypto
      0
      (frame_bytes (reply_with 7 good))
      (connected [])
    ≡ some relayed
unfolding upstreams
relay_test = refl

on_upstream_data-IsSound_example :
    All
      (IsSound (some rules) true sent crypto 0)
      (write (frame_bytes (reply_with 7 good)) ∷ end_ ∷ [])
on_upstream_data-IsSound_example =
    on_upstream_data-IsSound (some rules) true sent crypto 0 (frame_bytes (reply_with 7 good))
      (connected []) relayed relay_test
