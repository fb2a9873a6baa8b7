-- ===== src/Sni/Connection/Gathering.antt =====
-- A ClientHello that comes in chunks: what is decided, and on which bytes.
use zonzon.Base.{
  ℕ, ◌+◌, ◌<◌, ◌≤◌, ◌≡◌, ◌⊎◌, refl, sym, ap, ◌∙◌, inl, inr, true, false, Option, some, List, [],
  ◌∷◌, ◌++◌, arith, Bool-cases, ltb, ltb_false→le, length, length-append, append_assoc, append-nil,
}
use mathlib.Core.Path.{subst}
use zonzon.Base.Text.{Text}
use zonzon.Base.Bytes.{Bytes, u16_at, joined, u16_at-front}
use zonzon.Types.{ServerConfig}
use zonzon.Sni.{extract_sni}
use zonzon.Sni.Connection.{
  Decision, wait, dropped, tunnel, Hello, gathering, decided, max_client_hello_size, route,
  on_chunk, on_chunks,
}
use zonzon.Sni.Connection.Routing.{IsRouted, route-IsRouted}

nothing_behind : (p q r : Bytes) → p ++ q ≡ r → length r ≤ length p → p ≡ r
nothing_behind p [] r e h = sym (append-nil p) ∙ e
nothing_behind p (x ∷ q) r e h = absurd (omega (arith, ap length e, length-append p (x ∷ q)))

module _ (config : ServerConfig) (dns_resolve : Text → Option (List Text)) where
  -- A record that has come whole and is not too large.
  abbrev pub IsWhole : Bytes → Type 0
  IsWhole buffer = (5 + u16_at buffer 3 ≤ length buffer) × (length buffer ≤ max_client_hello_size)

  -- one chunk: the connection is dropped, or it waits, or the bytes up to now are a whole record
  on_chunk_cases :
      (chunk buffer : Bytes)
      → (on_chunk config dns_resolve chunk (gathering buffer) ≡ decided (dropped 413))
        ⊎ ((on_chunk config dns_resolve chunk (gathering buffer) ≡ gathering (buffer ++ chunk))
            ⊎ (IsWhole (buffer ++ chunk)
                × (on_chunk config dns_resolve chunk (gathering buffer)
                    ≡ decided (route config dns_resolve (buffer ++ chunk)))))
  unfolding on_chunk
  on_chunk_cases chunk buffer =
      elim (Bool-cases (ltb max_client_hello_size (length buffer + length chunk))) [
        | inl large ↦ inl (rw large refl)
        | inr small ↦ elim (Bool-cases (ltb (length (buffer ++ chunk)) 5)) [
          | inl head ↦ inr (inl (rw (small, head) refl))
          | inr headed ↦
              elim (Bool-cases (ltb (length (buffer ++ chunk)) (5 + u16_at (buffer ++ chunk) 3))) [
                | inl part ↦ inr (inl (rw (small, headed, part) refl))
                | inr whole ↦ inr (
                    inr (
                      (ltb_false→le _ _ whole, ground (arith, length-append buffer chunk)),
                      rw (small, headed, whole) refl,
                    ))
              ]
        ]
      ]

  after_decision :
      (chunks : List Bytes) (d : Decision)
      → on_chunks config dns_resolve chunks (decided d) ≡ decided d
  unfolding on_chunks on_chunk
  after_decision [] d = refl
  after_decision (chunk ∷ chunks) d = after_decision chunks d

  -- The bytes that have come begin with a whole record, which has passed to the target.
  abbrev pub IsRoutedFrom : Bytes → Text → ℕ → Type 0
  IsRoutedFrom bytes ip port =
      (whole later : Bytes) × (sni : Text) × (bytes ≡ whole ++ later)
      × IsWhole whole
      × (extract_sni whole ≡ some sni)
      × IsRouted config dns_resolve sni ip port

  decided-eq : {d e : Decision} → decided d ≡ decided e → d ≡ e
  decided-eq {d} {e} q = ap decision q
    where
      decision : Hello → Decision
      decision (decided d) = d
      decision (gathering buffer) = wait

  -- A connection is tunneled only on a whole record of at most 16 KiB at the front of the
  -- bytes that have come, whose ClientHello has a server name that the firewall permits; to the
  -- first address of that name, which the firewall permits too, and to the configured port.
  pub on_chunks-routed :
      (chunks : List Bytes) (buffer : Bytes) (ip : Text) (port : ℕ)
      → on_chunks config dns_resolve chunks (gathering buffer) ≡ decided (tunnel ip port)
      → IsRoutedFrom (buffer ++ joined chunks) ip port
  unfolding on_chunks
  on_chunks-routed [] buffer ip port e = cc
  on_chunks-routed (chunk ∷ chunks) buffer ip port e =
      cases (on_chunk_cases chunk buffer) (λ q. on_chunks-routed chunks (buffer ++ chunk) ip port q)
    where
      cases :
          (on_chunk config dns_resolve chunk (gathering buffer) ≡ decided (dropped 413))
            ⊎ ((on_chunk config dns_resolve chunk (gathering buffer) ≡ gathering (buffer ++ chunk))
                ⊎ (IsWhole (buffer ++ chunk)
                    × (on_chunk config dns_resolve chunk (gathering buffer)
                        ≡ decided (route config dns_resolve (buffer ++ chunk)))))
          → (on_chunks config dns_resolve chunks (gathering (buffer ++ chunk))
                ≡ decided (tunnel ip port)
              → IsRoutedFrom ((buffer ++ chunk) ++ joined chunks) ip port)
          → IsRoutedFrom (buffer ++ joined (chunk ∷ chunks)) ip port
      cases (inl large) ih = cc (sym (after_decision chunks (dropped 413)) ∙ (rw large at e))
      cases (inr (inl more)) ih =
          subst (λ t. IsRoutedFrom t ip port) (append_assoc buffer chunk (joined chunks))
            (ih (rw more at e))
      cases (inr (inr (whole, made))) ih =
          let chosen = decided-eq (sym (after_decision chunks _) ∙ (rw made at e)) in
          let (sni, named, routed) =
            route-IsRouted config dns_resolve (buffer ++ chunk) ip port chosen in
          (
            buffer ++ chunk,
            joined chunks,
            sni,
            sym (append_assoc buffer chunk (joined chunks)),
            whole,
            named,
            routed,
          )

  -- A record that has its size is decided on as a whole, however it is cut into chunks.
  pub on_chunks-whole :
      (record_ : Bytes) (chunks : List Bytes) (buffer : Bytes)
      → 5 ≤ length record_
      → length record_ ≡ 5 + u16_at record_ 3
      → length record_ ≤ max_client_hello_size
      → length buffer < length record_
      → buffer ++ joined chunks ≡ record_
      → on_chunks config dns_resolve chunks (gathering buffer)
        ≡ decided (route config dns_resolve record_)
  unfolding on_chunks on_chunk
  on_chunks-whole record_ [] buffer five size few part e =
      absurd (omega (arith, ap length e, length-append buffer []))
  on_chunks-whole record_ (chunk ∷ chunks) buffer five size few part e =
      let whole : (buffer ++ chunk) ++ joined chunks ≡ record_ =
        append_assoc buffer chunk (joined chunks) ∙ e in
      let sizes = ap length whole in
      let small : ltb max_client_hello_size (length buffer + length chunk) ≡ false = ground (
        arith,
        sizes,
        length-append (buffer ++ chunk) (joined chunks),
        length-append buffer chunk,
      ) in
      elim (Bool-cases (ltb (length (buffer ++ chunk)) (length record_))) [
        | inl short ↦
            let next =
              on_chunks-whole record_ chunks (buffer ++ chunk) five size few (ground arith) whole in
            elim (Bool-cases (ltb (length (buffer ++ chunk)) 5)) [
              | inl head ↦ rw (small, head) next
              | inr headed ↦
                  let same : u16_at record_ 3 ≡ u16_at (buffer ++ chunk) 3 =
                    ap (λ t. u16_at t 3) (sym whole)
                    ∙ u16_at-front (buffer ++ chunk) (joined chunks) 3 (ground arith) in
                  let part : ltb (length (buffer ++ chunk)) (5 + u16_at (buffer ++ chunk) 3)
                      ≡ true =
                    ground (arith, same) in
                  rw (small, headed, part) next
            ]
        | inr done ↦
            let all_ : buffer ++ chunk ≡ record_ =
              nothing_behind (buffer ++ chunk) (joined chunks) record_ whole
                (ltb_false→le _ _ done) in
            let headed : ltb (length record_) 5 ≡ false = ground arith in
            let complete : ltb (length record_) (5 + u16_at record_ 3) ≡ false = ground arith in
            rw (small, all_, headed, complete)
              (after_decision chunks (route config dns_resolve record_))
      ]
