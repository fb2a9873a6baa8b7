-- ===== src/Handler/Udp/Relay.antt =====
-- Which replies of the fallback resolver a client gets over UDP.
use zonzon.Base.{
  ℕ, zero, suc, ◌≡◌, refl, sym, ap, ◌⊎◌, inl, inr, Bool, true, false, Option, none, some, List, [],
  ◌∷◌, arith, ltb, ◌==◌, ==_iff, Bool-cases, >>=-eq-some, some-eq-some, length, All,
}
use zonzon.Base.Text.{Text}
use zonzon.Base.Bytes.{Bytes, be16, blit, u16_at}
use zonzon.Types.{rcode_refused}
use zonzon.Firewall.{permit, block, evaluate_ip}
use zonzon.Dns.Question.{ParsedQuestion, question_loop, extract_questions}
use zonzon.Dns.Packet.{generate_error_response}
use zonzon.Dns.Server.{dns, cached_rcode}
use zonzon.Dnssec.{Crypto}
use zonzon.Dnssec.Validation.{verify_response}
use zonzon.Handler.{Forward, DnsHandler, parse_resolved_ipv4s, blocked_ip, valid_0x20}
use zonzon.Handler.Replies.{names_of, valid_0x20_iff, blocked_ip-none, blocked_ip-some}
use zonzon.Handler.Udp.{
  to_client, Outcome, silent, close_forward, reply_to_client, answer_client, after_names,
  after_signatures, on_udp_message,
}

-- the client gets the reply, or a refusal because of an address in it
abbrev pub Answers : Forward → DnsHandler → Bytes → Outcome → Type 0
Answers f h restored o =
    (All (λ ip. evaluate_ip ip h.config.firewall ≡ permit) (parse_resolved_ipv4s restored)
      × (o.sent ≡ to_client f.client_info restored ∷ []))
    ⊎ ((ip : Text) × (reply : Bytes) × (evaluate_ip ip h.config.firewall ≡ block)
        × (generate_error_response restored rcode_refused ≡ some reply)
        × (o.sent ≡ to_client f.client_info reply ∷ []))

reply_to_client-Answers :
    (f : Forward) (h : DnsHandler) (restored : Bytes) (qs : List ParsedQuestion) (ip : Option Text)
    (o : Outcome)
    → blocked_ip h.config.firewall (parse_resolved_ipv4s restored) ≡ ip
    → reply_to_client f h restored qs ip ≡ some o
    → (o.handler ≡ h) × Answers f h restored o
unfolding reply_to_client
reply_to_client-Answers f h restored qs none o found e =
    let made = some-eq-some e in
    (
      sym (ap (λ (t : Outcome). t.handler) made),
      inl ((blocked_ip-none _ _).0 found, sym (ap (λ (t : Outcome). t.sent) made)),
    )
reply_to_client-Answers f h restored qs (some ip) o found e =
    let (reply, refusal, rest) = >>=-eq-some (generate_error_response restored rcode_refused) _ e in
    let made = some-eq-some rest in
    (
      sym (ap (λ (t : Outcome). t.handler) made),
      inr (
        ip,
        reply,
        blocked_ip-some _ _ ip found,
        refusal,
        sym (ap (λ (t : Outcome). t.sent) made),
      ),
    )

answer_client-Answers :
    (f : Forward) (h : DnsHandler) (restored : Bytes) (o : Outcome)
    → answer_client f h restored ≡ some o
    → (o.handler ≡ h) × Answers f h restored o
unfolding answer_client
answer_client-Answers f h restored o e =
    let (qs, _, rest) = >>=-eq-some (extract_questions restored) _ e in
    reply_to_client-Answers f h restored qs _ o refl rest

silent_eq :
    (h : DnsHandler) (o : Outcome) → some (silent h) ≡ some o → (o.handler ≡ h) × (o.sent ≡ [])
silent_eq h o e =
    let made = some-eq-some e in
    (sym (ap (λ (t : Outcome). t.handler) made), sym (ap (λ (t : Outcome). t.sent) made))

length-blit : (buf d : Bytes) (i : ℕ) → length (blit buf i d) ≡ length buf
length-blit [] d i = refl
length-blit (b ∷ buf) [] zero = refl
length-blit (b ∷ buf) (x ∷ d) zero = ap suc (length-blit buf d zero)
length-blit (b ∷ buf) d (suc i) = ap suc (length-blit buf d i)

-- the questions can be read behind another id, though not always the same ones
asked_again :
    (msg : Bytes) (id : ℕ) (qs : List ParsedQuestion)
    → extract_questions msg ≡ some qs
    → (rs : List ParsedQuestion) × (extract_questions (blit msg 0 (be16 id)) ≡ some rs)
unfolding extract_questions
asked_again msg id qs e = elim (Bool-cases (ltb (length msg) 6)) [
  | inl short ↦ cc (rw (short, extract_questions) at e)
  | inr long ↦
      let other = blit msg 0 (be16 id) in
      (
        question_loop (u16_at other 4) other 12,
        rw (length-blit msg (be16 id) 0, long, extract_questions) refl,
      )
]

long_enough :
    (msg : Bytes) (qs : List ParsedQuestion)
    → extract_questions msg ≡ some qs
    → ltb (length msg) 2 ≡ false
unfolding extract_questions
long_enough msg qs e = elim (Bool-cases (ltb (length msg) 6)) [
  | inl short ↦ cc (rw (short, extract_questions) at e)
  | inr long ↦ ground arith
]

module _ (crypto : Crypto) (now : ℕ) where
  -- The reply has the id that was drawn for the query, no signature in it is bad, and its questions
  -- have the names of the query, in the spelling that was drawn.
  abbrev pub IsVetted : Forward → Bytes → Type 0
  IsVetted f msg =
      (u16_at msg 0 ≡ f.ephemeral_id)
      × (verify_response crypto now msg ≡ some true)
      × ((qs : List ParsedQuestion) × (extract_questions msg ≡ some qs)
          × (names_of qs ≡ f.expected_names))

  -- what a message that is not answered leaves, or one that is
  abbrev Handles : Forward → Bytes → DnsHandler → Outcome → Type 0
  Handles f msg h o =
      (o.handler ≡ h)
      × ((o.sent ≡ []) ⊎ (IsVetted f msg × Answers f h (blit msg 0 (be16 f.original_id)) o))

  quiet :
      (f : Forward) (msg : Bytes) (h : DnsHandler) (o : Outcome)
      → some (silent h) ≡ some o
      → Handles f msg h o
  quiet f msg h o e = let (a, b) = silent_eq h o e in (a, inl b)

  after_names-Handles :
      (f : Forward) (msg : Bytes) (h : DnsHandler) (o : Outcome) (qs : List ParsedQuestion)
      (valid : Bool)
      → u16_at msg 0 ≡ f.ephemeral_id
      → verify_response crypto now msg ≡ some true
      → extract_questions msg ≡ some qs
      → valid_0x20 f.expected_names qs ≡ valid
      → after_names f h msg valid ≡ some o
      → Handles f msg h o
  unfolding after_names
  after_names-Handles f msg h o qs false same genuine asked v e = quiet f msg h o e
  after_names-Handles f msg h o qs true same genuine asked v e =
      let (kept, answers) = answer_client-Answers f h (blit msg 0 (be16 f.original_id)) o e in
      (kept, inr ((same, genuine, (qs, asked, (valid_0x20_iff _ _).0 v)), answers))

  after_signatures-Handles :
      (f : Forward) (msg : Bytes) (h : DnsHandler) (o : Outcome) (genuine : Bool)
      → u16_at msg 0 ≡ f.ephemeral_id
      → verify_response crypto now msg ≡ some genuine
      → after_signatures f h msg genuine ≡ some o
      → Handles f msg h o
  unfolding after_signatures
  after_signatures-Handles f msg h o false same v e = quiet f msg h o e
  after_signatures-Handles f msg h o true same v e =
      let (qs, asked, rest) = >>=-eq-some (extract_questions msg) _ e in
      after_names-Handles f msg h o qs _ same v asked refl rest

  pub on_udp_message_lem :
      (f : Forward) (msg : Bytes) (h : DnsHandler) (o : Outcome)
      → on_udp_message crypto now f msg h ≡ some o
      → (o.handler ≡ close_forward f h)
        × ((o.sent ≡ []) ⊎ (IsVetted f msg × Answers f h (blit msg 0 (be16 f.original_id)) o))
  unfolding on_udp_message close_forward
  on_udp_message_lem f msg h o e = elim (Bool-cases (ltb (length msg) 2)) [
    | inl short ↦ quiet f msg (close_forward f h) o (rw short at e)
    | inr long ↦ elim (Bool-cases (u16_at msg 0 == f.ephemeral_id)) [
      | inr other ↦ quiet f msg (close_forward f h) o (rw (long, other) at e)
      | inl same ↦
          let (genuine, v, rest) =
            >>=-eq-some (verify_response crypto now msg) _ (rw (long, same) at e) in
          after_signatures-Handles f msg (close_forward f h) o genuine ((==_iff _ _).0 same) v rest
    ]
  ]

  -- A vetted message with only permitted addresses does reach the client, under its own id, and its
  -- names and result code are logged.
  pub on_udp_message_relays :
      (f : Forward) (msg : Bytes) (h : DnsHandler)
      → IsVetted f msg
      → All
          (λ ip. evaluate_ip ip h.config.firewall ≡ permit)
          (parse_resolved_ipv4s (blit msg 0 (be16 f.original_id)))
      → (qs : List ParsedQuestion) × (extract_questions (blit msg 0 (be16 f.original_id)) ≡ some qs)
        × (on_udp_message crypto now f msg h
            ≡ some (record {
              handler = close_forward f h;
              sent = to_client f.client_info (blit msg 0 (be16 f.original_id)) ∷ [];
              events =
                  dns f.client_info.address qs
                    (cached_rcode (blit msg 0 (be16 f.original_id)))
                    false
                  ∷ [];
            }))
  unfolding on_udp_message close_forward after_signatures after_names answer_client reply_to_client
  on_udp_message_relays f msg h (same, genuine, (qs, asked, names)) permitted =
      let restored = blit msg 0 (be16 f.original_id) in
      let (rs, again) = asked_again msg f.original_id qs asked in
      (
        rs,
        again,
        rw
            (
              long_enough msg qs asked,
              (==_iff _ _).1 same,
              genuine,
              asked,
              (valid_0x20_iff _ _).1 names,
              again,
              (blocked_ip-none h.config.firewall (parse_resolved_ipv4s restored)).1 permitted,
            )
            refl,
      )
