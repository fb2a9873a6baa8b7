-- ===== src/Handler/Tcp/Upstream/Relay.antt =====
-- What a client can get over TCP from the fallback resolver.
use zonzon.Base.{
  ℕ, zero, suc, ◌+◌, ◌*◌, ◌≡◌, refl, sym, ap, ◌⊎◌, inl, inr, Bool, true, false, Option, none, some,
  List, [], ◌∷◌, ◌++◌, arith, ltb, ◌==◌, Bool-cases, >>=-eq-some, some-eq-some, length, take, drop,
  All, All-append, length-take,
}
use mathlib.Core.Path.{subst}
use zonzon.Base.Text.{Text}
use zonzon.Base.Bytes.{Bytes}
use zonzon.Types.{FirewallConfig, rcode_refused}
use zonzon.Firewall.{permit, evaluate_ip}
use zonzon.Dns.Question.{ParsedQuestion, extract_questions}
use zonzon.Dns.Packet.{generate_error_response}
use zonzon.Dnssec.{Crypto}
use zonzon.Dnssec.Validation.{verify_response}
use zonzon.Handler.{parse_resolved_ipv4s, blocked_ip, valid_0x20}
use zonzon.Handler.Replies.{names_of, valid_0x20_iff, blocked_ip-none}
use zonzon.Handler.Tcp.{
  Frame, incomplete, zero_length, frame, next_frame, framed, TcpForward, TcpEffect, write, end_,
  destroy, forward, Connection, connected, destroyed, tcp_fuel,
}
use zonzon.Handler.Tcp.Upstream.{
  Reply, Upstream, write_framed, if_alive, drop_reply, refuse_client, upstream_answer,
  upstream_named, upstream_genuine, upstream_message, after_reply, after_message, upstream_round,
  upstream_loop, on_upstream_data,
}

message_of : Frame → Bytes
message_of (frame message rest) = message
message_of incomplete = []
message_of zero_length = []

-- a message behind its length, as it came
message_behind :
    (buffer resp rest : Bytes)
    → next_frame buffer ≡ frame resp rest
    → drop 2 (take (2 + length resp) buffer) ≡ resp
unfolding next_frame message_of
message_behind [] resp rest e = cc
message_behind (x ∷ []) resp rest e = cc
message_behind (x ∷ y ∷ more) resp rest e = elim (Bool-cases (x * 256 + y == 0)) [
  | inl none_ ↦ cc (rw (none_, next_frame) at e)
  | inr some_ ↦ elim (Bool-cases (ltb (2 + length more) (2 + (x * 256 + y)))) [
    | inl short ↦ cc (rw (some_, short, next_frame) at e)
    | inr long ↦
        let taken : take (x * 256 + y) more ≡ resp =
          ap message_of (rw (some_, long, next_frame) at e) in
        let size : length resp ≡ x * 256 + y =
          ground (arith, ap length taken, length-take (x * 256 + y) more) in
        let two : 2 + length resp ≡ suc (suc (x * 256 + y)) = omega arith in rw two taken
  ]
]

module _ (fw : Option FirewallConfig) (alive : Bool) (f : TcpForward) (crypto : Crypto)
    (now : ℕ) where
  -- No signature in the message is bad, its questions have the names of the query in the spelling
  -- that was drawn, and the firewall permits each IPv4 address in its answers.
  abbrev pub IsVetted : Bytes → Type 0
  IsVetted resp =
      (verify_response crypto now resp ≡ some true)
      × ((qs : List ParsedQuestion) × (extract_questions resp ≡ some qs)
          × (names_of qs ≡ f.expected_names))
      × All (λ ip. evaluate_ip ip fw ≡ permit) (parse_resolved_ipv4s resp)

  -- What is written is a vetted message behind its length, or a refusal of the query.
  abbrev pub IsSound : TcpEffect → Type 0
  IsSound (write p) =
      IsVetted (drop 2 p)
      ⊎ ((reply : Bytes) × (generate_error_response f.query rcode_refused ≡ some reply)
          × (framed reply ≡ some p))
  IsSound end_ = Unit
  IsSound destroy = Unit
  IsSound (forward g) = ⊥

  refuse_client-IsSound :
      (alive : Bool) (calls : List TcpEffect)
      → refuse_client alive f.query ≡ some calls
      → All IsSound calls
  unfolding refuse_client
  refuse_client-IsSound false calls e = subst (All IsSound) (some-eq-some e) tt
  refuse_client-IsSound true calls e =
      let (reply, refusal, rest) =
        >>=-eq-some (generate_error_response f.query rcode_refused) write_framed e in
      let (p, made, last) = >>=-eq-some (framed reply) (λ p. some (write p ∷ end_ ∷ [])) rest in
      subst (All IsSound) (some-eq-some last) (inr (reply, refusal, made), (tt, tt))

  if_alive-IsSound :
      (alive : Bool) (calls : List TcpEffect)
      → All IsSound calls
      → All IsSound (if_alive alive calls)
  if_alive-IsSound false calls s = tt
  if_alive-IsSound true calls s = s

  upstream_answer-IsSound :
      (resp resp_data : Bytes) (ip : Option Text) (r : Reply) (qs : List ParsedQuestion)
      → drop 2 resp_data ≡ resp
      → verify_response crypto now resp ≡ some true
      → extract_questions resp ≡ some qs
      → names_of qs ≡ f.expected_names
      → blocked_ip fw (parse_resolved_ipv4s resp) ≡ ip
      → upstream_answer alive f resp resp_data ip ≡ some r
      → All IsSound r.calls
  unfolding upstream_answer
  upstream_answer-IsSound resp resp_data none r qs behind genuine asked names found e =
      let (own, _, rest) = >>=-eq-some (extract_questions f.query) _ e in
      subst (λ (t : Reply). All IsSound t.calls) (some-eq-some rest)
        (if_alive-IsSound alive (write resp_data ∷ end_ ∷ []) (
          inl (
              subst IsVetted (sym behind)
                (genuine, (qs, asked, names), (blocked_ip-none _ _).0 found)),
          (tt, tt),
        ))
  upstream_answer-IsSound resp resp_data (some ip) r qs behind genuine asked names found e =
      let (own, _, rest) = >>=-eq-some (extract_questions f.query) _ e in
      let (calls, refusal, last) = >>=-eq-some (refuse_client alive f.query) _ rest in
      subst (λ (t : Reply). All IsSound t.calls) (some-eq-some last)
        (refuse_client-IsSound alive calls refusal)

  dropped-IsSound : (r : Reply) → some (drop_reply alive) ≡ some r → All IsSound r.calls
  dropped-IsSound r e =
      subst (λ (t : Reply). All IsSound t.calls) (some-eq-some e)
        (if_alive-IsSound alive (end_ ∷ []) (tt, tt))

  upstream_named-IsSound :
      (resp resp_data : Bytes) (valid : Bool) (r : Reply) (qs : List ParsedQuestion)
      → drop 2 resp_data ≡ resp
      → verify_response crypto now resp ≡ some true
      → extract_questions resp ≡ some qs
      → valid_0x20 f.expected_names qs ≡ valid
      → upstream_named fw alive f resp resp_data valid ≡ some r
      → All IsSound r.calls
  unfolding upstream_named
  upstream_named-IsSound resp resp_data false r qs behind genuine asked v e = dropped-IsSound r e
  upstream_named-IsSound resp resp_data true r qs behind genuine asked v e =
      upstream_answer-IsSound resp resp_data _ r qs behind genuine asked ((valid_0x20_iff _ _).0 v)
        refl e

  upstream_genuine-IsSound :
      (resp resp_data : Bytes) (genuine : Bool) (r : Reply)
      → drop 2 resp_data ≡ resp
      → verify_response crypto now resp ≡ some genuine
      → upstream_genuine fw alive f resp resp_data genuine ≡ some r
      → All IsSound r.calls
  unfolding upstream_genuine
  upstream_genuine-IsSound resp resp_data false r behind v e = dropped-IsSound r e
  upstream_genuine-IsSound resp resp_data true r behind v e =
      let (qs, asked, rest) = >>=-eq-some (extract_questions resp) _ e in
      upstream_named-IsSound resp resp_data _ r qs behind v asked refl rest

  upstream_message-IsSound :
      (resp resp_data : Bytes) (r : Reply)
      → drop 2 resp_data ≡ resp
      → upstream_message fw alive f crypto now resp resp_data ≡ some r
      → All IsSound r.calls
  unfolding upstream_message
  upstream_message-IsSound resp resp_data r behind e =
      let (genuine, v, rest) = >>=-eq-some (verify_response crypto now resp) _ e in
      upstream_genuine-IsSound resp resp_data genuine r behind v rest

  -- what holds of the rounds to come holds of all
  upstream_round-IsSound :
      (again : Bytes → Upstream → Option Upstream) (buffer : Bytes) (u v : Upstream) (r : Frame)
      → ((rest : Bytes) (u : Upstream)
          → All IsSound u.calls
          → again rest u ≡ some v
          → All IsSound v.calls)
      → All IsSound u.calls
      → next_frame buffer ≡ r
      → upstream_round fw alive f crypto now again buffer u r ≡ some v
      → All IsSound v.calls
  upstream_round-IsSound again buffer u v incomplete ih s at e =
      subst (λ (t : Upstream). All IsSound t.calls) (some-eq-some e) s
  upstream_round-IsSound again buffer u v zero_length ih s at e =
      subst (λ (t : Upstream). All IsSound t.calls) (some-eq-some e) s
  upstream_round-IsSound again buffer u v (frame resp rest) ih s at e =
      let (r, made, e1) =
        >>=-eq-some (upstream_message fw alive f crypto now resp (take (2 + length resp) buffer))
          (after_message fw alive f crypto now again rest u) e in
      let sound =
        upstream_message-IsSound resp (take (2 + length resp) buffer) r
          (message_behind buffer resp rest at) made in
      let calls = All-append IsSound u.calls r.calls s sound in
      elim (Bool-cases r.goes_on) [
        | inl on ↦ ih rest (after_reply fw alive f crypto now r u) calls (rw on at e1)
        | inr off ↦
            subst (λ (t : Upstream). All IsSound t.calls)
              {x = after_reply fw alive f crypto now r u} (some-eq-some (rw off at e1)) calls
      ]

  upstream_loop-IsSound :
      (n : ℕ) (buffer : Bytes) (u v : Upstream)
      → All IsSound u.calls
      → upstream_loop fw alive f crypto now n buffer u ≡ some v
      → All IsSound v.calls
  unfolding upstream_loop
  upstream_loop-IsSound zero buffer u v s e =
      subst (λ (t : Upstream). All IsSound t.calls) (some-eq-some e) s
  upstream_loop-IsSound (suc n) buffer u v s e =
      upstream_round-IsSound (upstream_loop fw alive f crypto now n) buffer u v (next_frame buffer)
        (λ rest u s e. upstream_loop-IsSound n rest u v s e) s refl e

  -- Whatever comes back, each message that is written to the client is a vetted reply or an error
  -- reply with REFUSED to its own query.
  pub on_upstream_data-IsSound :
      (chunk : Bytes) (c : Connection) (u : Upstream)
      → on_upstream_data fw alive f crypto now chunk c ≡ some u
      → All IsSound u.calls
  unfolding on_upstream_data
  on_upstream_data-IsSound chunk destroyed u e =
      subst (λ (t : Upstream). All IsSound t.calls) (some-eq-some e) tt
  on_upstream_data-IsSound chunk (connected buffer) u e =
      upstream_loop-IsSound (tcp_fuel (buffer ++ chunk)) (buffer ++ chunk)
        (record { connection = connected (buffer ++ chunk); calls = []; events = [] }) u tt e
