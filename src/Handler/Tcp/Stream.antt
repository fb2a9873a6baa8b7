-- ===== src/Handler/Tcp/Stream.antt =====
-- A stream of messages is answered one after another, however it is cut into chunks.
use zonzon.Base.{
  ℕ, zero, suc, ◌+◌, ◌<◌, ◌≤◌, ◌≡◌, refl, ap, ◌∙◌, false, List, [], ◌∷◌, arith, ltb, length, All,
  length-append,
}
use zonzon.Base.Text.{Text}
use zonzon.Base.Bytes.{Bytes, joined}
use zonzon.Handler.Tcp.{
  incomplete, frame, max_tcp_buffer_size, TcpLog, TcpState, connected, keep_buffer, tcp_fuel,
  tcp_answer, tcp_loop, receive, on_tcp_chunks,
}
use zonzon.Handler.Tcp.Frames.{frame_bytes, frames, IsMessage, next_frame-frame_bytes}
use zonzon.Handler.Tcp.Chunks.{next_frame_nil, kept, round, loop-round, chunks_joined}

module _ (digest : Text → Text) (now : ℕ) (random : ℕ → ℕ) (peer_addr : Text) where
  abbrev loop : ℕ → Bytes → TcpLog → TcpState
  loop = tcp_loop digest now random peer_addr

  -- the messages answered in turn
  abbrev pub tcp_answers : List Bytes → TcpLog → TcpLog
  tcp_answers [] log = log
  tcp_answers (query ∷ queries) log =
      tcp_answers queries (tcp_answer digest now random peer_addr query log)

  loop-frames :
      (n : ℕ) (queries : List Bytes) (log : TcpLog)
      → All IsMessage queries
      → length (frames queries) < n
      → loop n (frames queries) log ≡ keep_buffer [] (tcp_answers queries log)
  unfolding round
  loop-frames zero queries log m h = absurd (omega arith)
  loop-frames (suc n) [] log m h =
      loop-round digest now random peer_addr n [] log incomplete (next_frame_nil)
  loop-frames (suc n) (query ∷ queries) log m h =
      loop-round digest now random peer_addr n (frames (query ∷ queries)) log
        (frame query (frames queries)) (next_frame-frame_bytes query (frames queries) m.0)
      ∙ loop-frames n queries (tcp_answer digest now random peer_addr query log) m.1
          (omega (arith, length-append (frame_bytes query) (frames queries)))

  receive-frames :
      (queries : List Bytes) (log : TcpLog)
      → All IsMessage queries
      → length (frames queries) ≤ max_tcp_buffer_size
      → receive digest now random peer_addr (frames queries) (connected []) log
        ≡ keep_buffer [] (tcp_answers queries log)
  unfolding receive
  receive-frames queries log m h =
      let fits : ltb max_tcp_buffer_size (0 + length (frames queries)) ≡ false = ground arith in
      rw fits (loop-frames (tcp_fuel (frames queries)) queries log m (omega arith))

  -- A client that sends messages of 1 to 65535 bytes, together at most 64 KiB, gets each of them
  -- answered, in their order and as if each had come alone, however its connection cuts them into
  -- chunks; nothing is left in the buffer. The clock stands still.
  pub on_tcp_chunks_answers :
      (queries chunks : List Bytes) (log : TcpLog)
      → All IsMessage queries
      → joined chunks ≡ frames queries
      → length (frames queries) ≤ max_tcp_buffer_size
      → on_tcp_chunks digest now random peer_addr chunks (keep_buffer [] log)
        ≡ keep_buffer [] (tcp_answers queries log)
  unfolding on_tcp_chunks kept
  on_tcp_chunks_answers [] [] log m e h = refl
  on_tcp_chunks_answers (query ∷ queries) [] log m e h =
      absurd (omega (arith, ap length e, length-append (frame_bytes query) (frames queries)))
  on_tcp_chunks_answers queries (chunk ∷ chunks) log m e h =
      chunks_joined digest now random peer_addr chunk chunks (keep_buffer [] log)
        (omega (arith, ap length e))
      ∙ ap (λ t. receive digest now random peer_addr t (connected []) log) e
      ∙ receive-frames queries log m h
