-- ===== src/Dns/Packet/Message.antt =====
-- What the packet writers put into a fresh buffer, as one byte string.
use zonzon.Base.{
  ℕ, ◌<◌, ◌≡◌, refl, ap, some, List, [], ◌∷◌, ◌++◌, arith, length, All, ◌>>=◌, bit_and, bit_or,
}
use zonzon.Base.Bits.{bit, bit-bit_or, bit-le, bit_or-lt, bit_and-le_left}
use zonzon.Base.Text.{split, to_lower}
use zonzon.Base.Bytes.{Bytes, be16, blit}
use zonzon.Types.{class_in}
use zonzon.Wire.{DnsWireFormat, write_uint16, write_domain_name}
use zonzon.Wire.Encoding.{
  Holds, Holds-blit, Holds-room, Appends, Appends-bind, Appends-id, Short, write_uint16-Appends,
  write_domain_name-Appends,
}
use zonzon.Dns.Question.{ParsedQuestion}
use zonzon.Dns.Question.RoundTrip.{question_bytes, questions_bytes}
use zonzon.Dns.Packet.{
  combined_flags, poke_uint16, reserve_uint16, write_header, write_question, write_questions,
  answer_count_offset,
}

-- The reply's flag word is a 16-bit word with the response bit set.
pub combined_flags-lt :
    (flags rcode : ℕ) → flags < 65536 → rcode < 16 → combined_flags flags rcode < 65536
unfolding combined_flags
combined_flags-lt flags rcode h k =
    let kept = bit_and flags 0xffff7fff in
    let low : kept < 65536 = omega (arith, bit_and-le_left flags flags 0xffff7fff (omega arith)) in
    bit_or-lt 16 (bit_or (bit_or kept 0x8000) 0x400) rcode
      (bit_or-lt 16 (bit_or kept 0x8000) 0x400 (bit_or-lt 16 kept 0x8000 low (omega arith))
        (omega arith))
      (omega arith)

pub combined_flags_qr : (flags rcode : ℕ) → bit 15 (combined_flags flags rcode) ≡ 1
unfolding combined_flags
combined_flags_qr flags rcode =
    let kept = bit_and flags 0xffff7fff in
    omega (
      arith,
      bit-bit_or 15 (bit_or (bit_or kept 0x8000) 0x400) rcode,
      bit-bit_or 15 (bit_or kept 0x8000) 0x400,
      bit-bit_or 15 kept 0x8000,
      bit-le 15 (bit_or (bit_or (bit_or kept 0x8000) 0x400) rcode),
    )

reserve_uint16-Appends : Appends reserve_uint16 (0 ∷ 0 ∷ [])
unfolding reserve_uint16 poke_uint16
reserve_uint16-Appends w out room h k =
    (_, ground (arith, Holds-room w out room h), Holds-blit w out room (0 ∷ 0 ∷ []) h k)

-- The 12 bytes of a header.
abbrev pub header_bytes : ℕ → ℕ → ℕ → ℕ → Bytes
header_bytes id flags qdcount ancount =
    be16 id ++ (be16 flags ++ (be16 qdcount ++ (be16 ancount ++ (be16 0 ++ be16 0))))

write_header-Appends :
    (id flags qdcount : ℕ)
    → id < 65536
    → flags < 65536
    → qdcount < 65536
    → Appends (write_header id flags qdcount) (header_bytes id flags qdcount 0)
unfolding write_header
write_header-Appends id flags qdcount p q r =
    Appends-bind (write_uint16 id) _ (be16 id) _ (write_uint16-Appends id p) (
      Appends-bind (write_uint16 flags) _ (be16 flags) _ (write_uint16-Appends flags q) (
        Appends-bind (write_uint16 qdcount) _ (be16 qdcount) _ (write_uint16-Appends qdcount r) (
          Appends-bind reserve_uint16 _ (be16 0) _ reserve_uint16-Appends (
            Appends-bind (write_uint16 0) (write_uint16 0) (be16 0) (be16 0)
              (write_uint16-Appends 0 (omega arith)) (write_uint16-Appends 0 (omega arith))))))

-- A question whose labels have fewer than 256 code units, and whose type is a 16-bit word.
pub record Fits (q : ParsedQuestion) : Type 0 where
  pub short : All Short (split b'.' (to_lower q.name))
  pub word : q.type < 65536

write_question-Appends :
    (q : ParsedQuestion) → Fits q → Appends (write_question q) (question_bytes q)
unfolding write_question
write_question-Appends q f =
    Appends-bind (write_domain_name q.name) _ _ _ (write_domain_name-Appends q.name f.short) (
      Appends-bind (write_uint16 q.type) (write_uint16 class_in) (be16 q.type) (be16 class_in)
        (write_uint16-Appends q.type f.word) (write_uint16-Appends class_in (omega arith)))

write_questions-Appends :
    (qs : List ParsedQuestion) → All Fits qs → Appends (write_questions qs) (questions_bytes qs)
unfolding write_questions
write_questions-Appends [] f = Appends-id
write_questions-Appends (q ∷ qs) f =
    Appends-bind (write_question q) (write_questions qs) (question_bytes q) (questions_bytes qs)
      (write_question-Appends q f.0) (write_questions-Appends qs f.1)

-- The header and the questions.
pub head-Appends :
    (id flags : ℕ) (qs : List ParsedQuestion)
    → id < 65536
    → flags < 65536
    → length qs < 65536
    → All Fits qs
    → Appends
        (λ w. write_header id flags (length qs) w >>= write_questions qs)
        (header_bytes id flags (length qs) 0 ++ questions_bytes qs)
head-Appends id flags qs p q r f =
    Appends-bind (write_header id flags (length qs)) (write_questions qs) _ _
      (write_header-Appends id flags (length qs) p q r) (write_questions-Appends qs f)

-- Filling in the count of answers.
pub poke-Holds :
    (w : DnsWireFormat) (id flags qd an v : ℕ) (body room : Bytes)
    → v < 65536
    → Holds w (header_bytes id flags qd an ++ body) room
    → (w' : DnsWireFormat) × (poke_uint16 v answer_count_offset w ≡ some w')
      × Holds w' (header_bytes id flags qd v ++ body) room
unfolding poke_uint16
poke-Holds w id flags qd an v body room p h = (
  record w { buf = header_bytes id flags qd v ++ (body ++ room) },
  ground (arith, ap length h.content, ap (λ t. blit t 6 (be16 v)) h.content),
  record { content = refl; cursor = h.cursor },
)
