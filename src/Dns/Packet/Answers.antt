-- ===== src/Dns/Packet/Answers.antt =====
-- The answers of `buildResponsePacket`.
use zonzon.Base.{
  ℕ, ◌+◌, ◌≤◌, ◌<◌, ◌≡◌, refl, ap, sym, ◌∙◌, true, false, Option, some, List, [], ◌∷◌, ◌++◌, arith,
  length, All, take, drop, append-nil, length-append, length-drop, take_of_length, map, ◌>>=◌, ltb,
  if◌then◌else◌, length-replicate, replicate, Bool-cases, inl, inr,
}
use zonzon.Base.Bytes.{Bytes, be16, be32}
use zonzon.Wire.{
  DnsWireFormat, over, allocated, write_uint8, write_uint16, write_uint32, write_bytes, read_uint16,
  read_uint32,
}
use zonzon.Wire.Encoding.{
  Holds, Holds-join, Appends, Appends-bind, write_uint8-Appends, write_uint16-Appends,
  write_uint32-Appends, write_bytes-Appends, finish-Holds,
}
use zonzon.Dns.Question.{ParsedQuestion}
use zonzon.Dns.Question.RoundTrip.{questions_bytes}
use zonzon.Dns.Packet.{combined_flags, write_answer, write_answers, build_response_packet}
use zonzon.Dns.Packet.Message.{poke-Holds}
use zonzon.Dns.Packet.Errors.{message, Replies, head_fresh}

-- A resource record without its name, and the bytes of one.
pub record Answer : Type 0 where
  pub type : ℕ
  pub dclass : ℕ
  pub ttl : ℕ
  pub rdata : Bytes

abbrev pub entry_bytes : Answer → Bytes
entry_bytes a = be16 a.type ++ (be16 a.dclass ++ (be32 a.ttl ++ (be16 (length a.rdata) ++ a.rdata)))

take_all : (xs : Bytes) → take (length xs) xs ≡ xs
take_all xs = ap (λ t. take (length xs) t) (sym (append-nil xs)) ∙ take_of_length xs []

-- With the pointer to byte 12 for its name.
abbrev pub answer_bytes : Answer → Bytes
answer_bytes a = 0xc0 ∷ 0x0c ∷ entry_bytes a

abbrev pub answers_bytes : List Answer → Bytes
answers_bytes [] = []
answers_bytes (a ∷ rest) = answer_bytes a ++ answers_bytes rest

pub record IsAnswer (a : Answer) : Type 0 where
  pub type : a.type < 65536
  pub dclass : a.dclass < 65536
  pub ttl : a.ttl < 4294967296
  pub short : length a.rdata < 65536

module _ (a : Answer) (h : IsAnswer a) where
  read_head :
      (d1 d2 d3 : DnsWireFormat) × (read_uint16 (over (entry_bytes a)) ≡ (a.type, d1))
      × (read_uint16 d1 ≡ (a.dclass, d2))
      × (read_uint32 d2 ≡ (a.ttl, d3))
      × (read_uint16 d3 ≡ (length a.rdata, record { buf = entry_bytes a; offset = 10 }))
  unfolding read_uint16 read_uint32
  read_head =
      let at : ℕ → DnsWireFormat = λ n. record { buf = entry_bytes a; offset = n } in
      (
        at 2,
        at 4,
        at 8,
        ground (arith, h.type),
        ground (arith, h.dclass),
        ground (arith, h.ttl),
        ground (arith, h.short),
      )

  -- what is written once the head has been read
  abbrev answer_writer : DnsWireFormat → Option DnsWireFormat
  answer_writer w = do
    w1 ← write_uint8 0xc0 w
    w2 ← write_uint8 0x0c w1
    w3 ← write_uint16 a.type w2
    w4 ← write_uint16 a.dclass w3
    w5 ← write_uint32 a.ttl w4
    w6 ← write_uint16 (length a.rdata) w5
    write_bytes a.rdata w6

  write_answer-answer_writer :
      (w : DnsWireFormat) → write_answer (entry_bytes a) w ≡ answer_writer w
  unfolding write_answer
  write_answer-answer_writer w =
      let (d1, d2, d3, r1, r2, r3, r4) = read_head in
      let inside : ltb (length (entry_bytes a)) (10 + length a.rdata) ≡ false = ground arith in
      rw (r1, r2, r3, r4, inside, take_all a.rdata) refl

  write_answer-Appends : Appends (write_answer (entry_bytes a)) (answer_bytes a)
  write_answer-Appends w out room held k = rw (write_answer-answer_writer w) (
      Appends-bind (write_uint8 0xc0) _ (0xc0 ∷ []) _ (write_uint8-Appends 0xc0 (omega arith))
        (Appends-bind (write_uint8 0x0c) _ (0x0c ∷ []) _ (write_uint8-Appends 0x0c (omega arith)) (
          Appends-bind (write_uint16 a.type) _ (be16 a.type) _ (write_uint16-Appends a.type h.type)
            (Appends-bind (write_uint16 a.dclass) _ (be16 a.dclass) _
              (write_uint16-Appends a.dclass h.dclass)
              (Appends-bind (write_uint32 a.ttl) _ (be32 a.ttl) _ (write_uint32-Appends a.ttl h.ttl)
                (Appends-bind (write_uint16 (length a.rdata)) (write_bytes a.rdata)
                  (be16 (length a.rdata)) a.rdata (write_uint16-Appends (length a.rdata) h.short)
                  (write_bytes-Appends a.rdata))))))
        w out room held k)

-- The answers whose data is at least two bytes long: the others are passed over.
abbrev pub kept : List Answer → List Answer
kept [] = []
kept (a ∷ rest) = if ltb (length a.rdata) 2 then kept rest else a ∷ kept rest

pub answers_count : (answers : List Answer) → length answers ≤ length (answers_bytes answers)
answers_count [] = omega arith
answers_count (a ∷ rest) =
    omega (arith, answers_count rest, length-append (answer_bytes a) (answers_bytes rest))

write_answers-kept :
    (rest : List Answer) (n : ℕ) (w : DnsWireFormat) (out room : Bytes)
    → All IsAnswer rest
    → Holds w out room
    → length (answers_bytes (kept rest)) ≤ length room
    → (w' : DnsWireFormat) × (write_answers (map entry_bytes rest) n w
        ≡ some (n + length (kept rest), w'))
      × Holds w' (out ++ answers_bytes (kept rest)) (drop (length (answers_bytes (kept rest))) room)
unfolding write_answers
write_answers-kept [] n w out room v h k = (w, ap (λ x. some (x, w)) (omega arith), rw append-nil h)
write_answers-kept (a ∷ rest) n w out room v h k = elim (Bool-cases (ltb (length a.rdata) 2)) [
  | inl small ↦
      let (w', e, h') = write_answers-kept rest n w out room v.1 h (rw small at k) in
      let short : ltb (length (entry_bytes a)) 12 ≡ true = ground arith in
      rw (small, short) (w', e, h')
  | inr big ↦
      let k' : length (answer_bytes a ++ answers_bytes (kept rest)) ≤ length room = rw big at k in
      let both = length-append (answer_bytes a) (answers_bytes (kept rest)) in
      let (w1, e1, h1) = write_answer-Appends a v.0 w out room h (omega (arith, both)) in
      let (w2, e2, h2) =
        write_answers-kept rest (n + 1) w1 _ _ v.1 h1
          (omega (arith, both, length-drop (length (answer_bytes a)) room)) in
      let long : ltb (length (entry_bytes a)) 12 ≡ false = ground arith in
      rw (big, long, e1, e2)
        (
          w2,
          ap (λ x. some (x, w2)) (omega arith),
          Holds-join w2 out (answer_bytes a) (answers_bytes (kept rest)) room h2,
        )
]

-- A response packet, when its questions and answers fit into the buffer, is the header with the
-- count of the answers, the questions, and the answers in their order, each with a pointer to
-- byte 12 for its name. An answer with less than two bytes of data is left out.
pub build_response_packet-message :
    (id flags rcode : ℕ) (qs : List ParsedQuestion) (answers : List Answer)
    → rcode < 16
    → Replies id flags qs
    → All IsAnswer answers
    → 12 + length (questions_bytes qs) + length (answers_bytes (kept answers)) ≤ allocated
    → build_response_packet id flags rcode (length qs) qs (map entry_bytes answers)
      ≡ some (
          message id (combined_flags flags rcode) (length (kept answers)) qs
          ++ answers_bytes (kept answers))
unfolding build_response_packet
build_response_packet-message id flags rcode qs answers k r v room =
    let (w1, w2, e1, e2, h2) = head_fresh id flags qs r rcode k in
    let (w3, e3, h3) = write_answers-kept answers 0 w2 _ _ v h2 (
      omega (
        arith,
        room,
        length-drop (length (message id (combined_flags flags rcode) 0 qs))
            (replicate {A = ℕ} allocated 0),
        length-replicate {0} {A = ℕ} allocated 0,
      )) in
    let counted : 0 + length (kept answers) ≡ length (kept answers) = omega arith in
    let (w4, e4, h4) =
      poke-Holds w3 id (combined_flags flags rcode) (length qs) 0 (length (kept answers))
        (questions_bytes qs ++ answers_bytes (kept answers)) _
        (omega (arith, answers_count (kept answers), room)) h3 in
    rw (e1, e2, e3 ∙ ap (λ n. some (n, w3)) counted, e4) (ap some (finish-Holds w4 _ _ h4))
