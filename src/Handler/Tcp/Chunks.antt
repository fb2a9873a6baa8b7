-- ===== src/Handler/Tcp/Chunks.antt =====
-- The chunks of a connection do together what they do when they come as one.
use zonzon.Base.{
  ℕ, zero, suc, ◌+◌, ◌<◌, ◌≤◌, ◌≡◌, refl, sym, ap, ◌∙◌, false, List, [], ◌∷◌, ◌++◌, arith, ltb,
  length, length-append, append_assoc, append-nil,
}
use zonzon.Base.Text.{Text}
use zonzon.Base.Bytes.{Bytes, joined}
use zonzon.Handler.Tcp.{
  Frame, incomplete, zero_length, frame, next_frame, max_tcp_buffer_size, TcpLog, TcpState,
  Connection, connected, destroyed, destroy_client, keep_buffer, tcp_fuel, tcp_answer, tcp_loop,
  receive, on_tcp_data, on_tcp_chunks,
}
use zonzon.Handler.Tcp.Frames.{Extends, next_frame-Extends}

pub next_frame_nil : next_frame [] ≡ incomplete
unfolding next_frame
next_frame_nil = refl

module _ (digest : Text → Text) (now : ℕ) (random : ℕ → ℕ) (peer_addr : Text) where
  abbrev loop : ℕ → Bytes → TcpLog → TcpState
  loop = tcp_loop digest now random peer_addr

  answer : Bytes → TcpLog → TcpLog
  answer = tcp_answer digest now random peer_addr

  -- one round, by what stands at the front
  unfoldable pub round : ℕ → Bytes → TcpLog → Frame → TcpState
  round n buffer log incomplete = keep_buffer buffer log
  round n buffer log zero_length = destroy_client log
  round n buffer log (frame query rest) =
      loop n rest (tcp_answer digest now random peer_addr query log)

  pub loop-round :
      (n : ℕ) (buffer : Bytes) (log : TcpLog) (r : Frame)
      → next_frame buffer ≡ r
      → loop (suc n) buffer log ≡ round n buffer log r
  unfolding tcp_loop round
  loop-round n buffer log incomplete e = rw (e, tcp_loop) refl
  loop-round n buffer log zero_length e = rw (e, tcp_loop) refl
  loop-round n buffer log (frame query rest) e = rw (e, tcp_loop) refl

  -- with fuel for each byte, the fuel does not matter
  loop_fuel :
      (n m : ℕ) (buffer : Bytes) (log : TcpLog)
      → length buffer < n
      → length buffer < m
      → loop n buffer log ≡ loop m buffer log
  unfolding round
  loop_fuel zero m buffer log h k = absurd (omega arith)
  loop_fuel (suc n) zero buffer log h k = absurd (omega arith)
  loop_fuel (suc n) (suc m) buffer log h k =
      cases (next_frame buffer) refl (next_frame-Extends buffer [])
        (λ rest log p. loop_fuel n m rest log (omega arith) (omega arith))
    where
      cases :
          (r : Frame)
          → next_frame buffer ≡ r
          → Extends buffer [] r
          → ((rest : Bytes) (log : TcpLog)
              → length rest < length buffer
              → loop n rest log ≡ loop m rest log)
          → loop (suc n) buffer log ≡ loop (suc m) buffer log
      cases incomplete e x ih =
          loop-round n buffer log incomplete e ∙ sym (loop-round m buffer log incomplete e)
      cases zero_length e x ih =
          loop-round n buffer log zero_length e ∙ sym (loop-round m buffer log zero_length e)
      cases (frame query rest) e x ih =
          loop-round n buffer log (frame query rest) e
          ∙ ih rest (tcp_answer digest now random peer_addr query log) (omega (arith, x.1))
          ∙ sym (loop-round m buffer log (frame query rest) e)

  -- more bytes for a connection after its loop
  resume : Bytes → Connection → TcpLog → TcpState
  resume more destroyed log = record { connection = destroyed; log = log }
  resume more (connected buffer) log = loop (tcp_fuel (buffer ++ more)) (buffer ++ more) log

  -- what the loop leaves over is at most what it had
  Leaves : ℕ → Connection → Type 0
  Leaves n destroyed = Unit
  Leaves n (connected buffer) = length buffer ≤ n

  Leaves-mono : (m n : ℕ) (c : Connection) → m ≤ n → Leaves m c → Leaves n c
  unfolding Leaves
  Leaves-mono m n destroyed h l = tt
  Leaves-mono m n (connected buffer) h l = omega arith

  loop_append :
      (n : ℕ) (buffer more : Bytes) (log : TcpLog)
      → length buffer < n
      → (loop (tcp_fuel (buffer ++ more)) (buffer ++ more) log
          ≡ resume more (loop n buffer log).connection (loop n buffer log).log)
        × Leaves (length buffer) (loop n buffer log).connection
  unfolding round resume Leaves
  loop_append zero buffer more log h = absurd (omega arith)
  loop_append (suc n) buffer more log h =
      cases (next_frame buffer) refl (next_frame-Extends buffer more)
        (λ rest log p. loop_append n rest more log (omega arith))
    where
      cases :
          (r : Frame)
          → next_frame buffer ≡ r
          → Extends buffer more r
          → ((rest : Bytes) (log : TcpLog)
              → length rest < length buffer
              → (loop (tcp_fuel (rest ++ more)) (rest ++ more) log
                  ≡ resume more (loop n rest log).connection (loop n rest log).log)
                × Leaves (length rest) (loop n rest log).connection)
          → (loop (tcp_fuel (buffer ++ more)) (buffer ++ more) log
              ≡ resume more (loop (suc n) buffer log).connection (loop (suc n) buffer log).log)
            × Leaves (length buffer) (loop (suc n) buffer log).connection
      cases incomplete e x ih = rw (loop-round n buffer log incomplete e) (refl, omega arith)
      cases zero_length e x ih =
          rw (loop-round n buffer log zero_length e)
            (loop-round _ (buffer ++ more) log zero_length x, tt)
      cases (frame query rest) e x ih =
          let log' = tcp_answer digest now random peer_addr query log in
          let (same, few) = ih rest log' (omega (arith, x.1)) in
          rw (loop-round n buffer log (frame query rest) e) (
            loop-round (length (buffer ++ more)) (buffer ++ more) log (frame query (rest ++ more))
                  x.0
                ∙ loop_fuel (length (buffer ++ more)) (tcp_fuel (rest ++ more)) (rest ++ more) log'
                    (omega (arith, x.1, length-append rest more, length-append buffer more))
                    (omega arith)
                ∙ same,
            Leaves-mono (length rest) (length buffer) (loop n rest log').connection
                (omega (arith, x.1)) few,
          )

  -- the length of what a connection keeps
  unfoldable pub kept : Connection → ℕ
  kept destroyed = 0
  kept (connected buffer) = length buffer

  kept-le : (n : ℕ) (c : Connection) → Leaves n c → kept c ≤ n
  unfolding kept Leaves
  kept-le n destroyed l = omega arith
  kept-le n (connected buffer) l = l

  resume-receive :
      (more : Bytes) (c : Connection) (log : TcpLog)
      → kept c + length more ≤ max_tcp_buffer_size
      → resume more c log ≡ receive digest now random peer_addr more c log
  unfolding kept resume receive
  resume-receive more destroyed log h = refl
  resume-receive more (connected buffer) log h =
      let fits : ltb max_tcp_buffer_size (length buffer + length more) ≡ false = ground arith in
      rw fits refl

  -- Two chunks one after the other do what they do at once.
  receive_append :
      (first second : Bytes) (c : Connection) (log : TcpLog)
      → kept c + length first + length second ≤ max_tcp_buffer_size
      → (receive digest now random peer_addr (first ++ second) c log
          ≡ on_tcp_data digest now random peer_addr second
              (receive digest now random peer_addr first c log))
        × (kept (receive digest now random peer_addr first c log).connection
            ≤ kept c + length first)
  unfolding kept receive
  receive_append first second destroyed log h = (refl, omega arith)
  receive_append first second (connected buffer) log h =
      let whole : ltb max_tcp_buffer_size (length buffer + length (first ++ second)) ≡ false =
        ground (arith, length-append first second) in
      let part : ltb max_tcp_buffer_size (length buffer + length first) ≡ false = ground arith in
      let (same, few) =
        loop_append (tcp_fuel (buffer ++ first)) (buffer ++ first) second log (omega arith) in
      let after = loop (tcp_fuel (buffer ++ first)) (buffer ++ first) log in
      let within = kept-le (length (buffer ++ first)) after.connection few in
      rw (whole, part)
        (
          ap (λ t. loop (tcp_fuel t) t log) (sym (append_assoc buffer first second))
              ∙ same
              ∙ resume-receive second after.connection after.log
                  (omega (arith, within, length-append buffer first)),
          omega (arith, within, length-append buffer first),
        )

  -- Nothing can be taken from what is kept.
  Settled : Connection → Type 0
  Settled destroyed = Unit
  Settled (connected buffer) = next_frame buffer ≡ incomplete

  receive_nil :
      (c : Connection) (log : TcpLog)
      → kept c ≤ max_tcp_buffer_size
      → Settled c
      → receive digest now random peer_addr [] c log ≡ record { connection = c; log = log }
  unfolding kept Settled receive round
  receive_nil destroyed log h e = refl
  receive_nil (connected buffer) log h e =
      let fits : ltb max_tcp_buffer_size (length buffer + 0) ≡ false = ground arith in
      rw (fits, append-nil buffer) (loop-round (length buffer) buffer log incomplete e)

  pub chunks_joined :
      (chunk : Bytes) (chunks : List Bytes) (s : TcpState)
      → kept s.connection + length (joined (chunk ∷ chunks)) ≤ max_tcp_buffer_size
      → on_tcp_chunks digest now random peer_addr (chunk ∷ chunks) s
        ≡ receive digest now random peer_addr (joined (chunk ∷ chunks)) s.connection s.log
  unfolding on_tcp_chunks
  chunks_joined chunk [] s h =
      ap (λ t. receive digest now random peer_addr t s.connection s.log) (sym (append-nil chunk))
  chunks_joined chunk (next ∷ chunks) s h =
      let after = receive digest now random peer_addr chunk s.connection s.log in
      let (same, few) =
        receive_append chunk (joined (next ∷ chunks)) s.connection s.log
          (omega (arith, length-append chunk (joined (next ∷ chunks)))) in
      chunks_joined next chunks after
        (omega (arith, few, length-append chunk (joined (next ∷ chunks))))
      ∙ sym same
