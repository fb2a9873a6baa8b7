-- ===== src/Dns/Packet.antt =====
-- The response packets of packages/core/src/dns-service.ts: `buildResponsePacket`,
-- `buildNoErrorResponse`, `generateErrorResponse`, `appendEdns0DoBit`. `none` is a thrown
-- RangeError.
pub mod Message
pub mod Errors
pub mod Answers
pub mod Tests
use zonzon.Base.{
  ℕ, zero, suc, ◌+◌, Bool, ◌&&◌, Option, none, some, List, [], ◌∷◌, ltb, leb, ◌==◌, if◌then◌else◌,
  ◌>>=◌, length, take, drop, bit_and, bit_or,
}
use zonzon.Base.Text.{Text}
use zonzon.Base.Bytes.{Bytes, be16, blit, u16_at}
use zonzon.Types.{class_in, flag_qr, flag_aa, rcode_noerror, type_opt}
use zonzon.Wire.{
  DnsWireFormat, over, fresh, finish, write_uint8, write_uint16, write_uint32, write_bytes,
  write_domain_name, read_uint16, read_uint32, wire,
}
use zonzon.Dns.Question.{ParsedQuestion, extract_questions, questions}

-- `(flags & ~0x8000) | QR | AA | rcode`
unfoldable pub combined_flags : ℕ → ℕ → ℕ
combined_flags flags rcode =
    bit_or (bit_or (bit_or (bit_and flags 0xffff7fff) flag_qr) flag_aa) rcode

-- `encoder.buf.writeUInt16BE(v, at)`
unfoldable pub poke_uint16 : ℕ → ℕ → DnsWireFormat → Option DnsWireFormat
poke_uint16 v at w =
    if leb (at + 2) (length w.buf) && ltb v 65536
    then some (record w { buf = blit w.buf at (be16 v) })
    else none

-- a count that is filled in later: `writeUInt16BE(0, offset)`, `offset += 2`
unfoldable pub reserve_uint16 : DnsWireFormat → Option DnsWireFormat
reserve_uint16 w = do w1 ← poke_uint16 0 w.offset w; some (record w1 { offset = w1.offset + 2 })

unfoldable pub write_header : ℕ → ℕ → ℕ → DnsWireFormat → Option DnsWireFormat
write_header id flags qdcount w = do
  w1 ← write_uint16 id w
  w2 ← write_uint16 flags w1
  w3 ← write_uint16 qdcount w2
  w4 ← reserve_uint16 w3
  w5 ← write_uint16 0 w4
  write_uint16 0 w5

unfoldable pub write_question : ParsedQuestion → DnsWireFormat → Option DnsWireFormat
write_question q w = do
  w1 ← write_domain_name q.name w
  w2 ← write_uint16 q.type w1
  write_uint16 class_in w2

unfoldable pub write_questions : List ParsedQuestion → DnsWireFormat → Option DnsWireFormat
write_questions [] w = some w
write_questions (q ∷ qs) w = do w1 ← write_question q w; write_questions qs w1

-- where the count of answers stands
abbrev pub answer_count_offset : ℕ
answer_count_offset = 6

-- One answer of `buildResponsePacket`: its head is read back from the buffer, and its name becomes
-- a pointer to byte 12. The typed array over a buffer that is too short is a RangeError.
unfoldable pub write_answer : Bytes → DnsWireFormat → Option DnsWireFormat
write_answer answer w =
    let (record_type, d1) = read_uint16 (over answer) in
    let (record_class, d2) = read_uint16 d1 in
    let (ttl, d3) = read_uint32 d2 in
    let (rdlength, d4) = read_uint16 d3 in
    do
      w1 ← write_uint8 0xc0 w
      w2 ← write_uint8 0x0c w1
      w3 ← write_uint16 record_type w2
      w4 ← write_uint16 record_class w3
      w5 ← write_uint32 ttl w4
      w6 ← write_uint16 rdlength w5
      if ltb (length answer) (d4.offset + rdlength)
          then none
          else write_bytes (take rdlength (drop d4.offset answer)) w6

-- the loop over the answers; those of less than 12 bytes are passed over
unfoldable pub write_answers : List Bytes → ℕ → DnsWireFormat → Option (ℕ × DnsWireFormat)
write_answers [] ancount w = some (ancount, w)
write_answers (answer ∷ answers) ancount w =
    let skipped = write_answers answers ancount w in
    let written = write_answer answer w >>= λ w1. write_answers answers (ancount + 1) w1 in
    if ltb (length answer) 12 then skipped else written

unfoldable pub build_response_packet :
    ℕ → ℕ → ℕ → ℕ → List ParsedQuestion → List Bytes → Option Bytes
build_response_packet id flags rcode qdcount qs answers = do
  w1 ← write_header id (combined_flags flags rcode) qdcount fresh
  w2 ← write_questions qs w1
  (ancount, w3) ← write_answers answers 0 w2
  w4 ← poke_uint16 ancount answer_count_offset w3
  some (finish w4)

unfoldable pub build_no_error_response : ℕ → ℕ → List ParsedQuestion → Option Bytes
build_no_error_response id flags qs = do
  w1 ← write_header id (combined_flags flags rcode_noerror) (length qs) fresh
  w2 ← write_questions qs w1
  w3 ← poke_uint16 0 answer_count_offset w2
  some (finish w3)

-- the body of `generateErrorResponse` once the query has been read
unfoldable pub error_response : ℕ → ℕ → ℕ → List ParsedQuestion → Option Bytes
error_response id flags rcode qs = do
  w1 ← write_header id (combined_flags flags rcode) (length qs) fresh
  w2 ← write_questions qs w1
  w3 ← poke_uint16 0 answer_count_offset w2
  some (finish w3)

unfoldable pub generate_error_response : Bytes → ℕ → Option Bytes
generate_error_response query rcode = if ltb (length query) 12 then some [] else (do
  qs ← extract_questions query
  error_response (u16_at query 0) (u16_at query 2) rcode qs)

-- `appendEdns0DoBit`
unfoldable pub append_edns0_do_bit : Bytes → Option Bytes
append_edns0_do_bit query =
    if ltb (length query) 12
    then some query
    else if ltb 0 (u16_at query 10)
    then some query
    else (do
      w1 ← write_bytes query fresh
      w2 ← poke_uint16 1 10 w1
      w3 ← write_uint8 0 w2
      w4 ← write_uint16 type_opt w3
      w5 ← write_uint16 4096 w4
      w6 ← write_uint32 0x00008000 w5
      w7 ← write_uint16 0 w6
      some (finish w7))

unfoldable pub packets : Unit {0}
unfolding wire questions combined_flags poke_uint16 reserve_uint16 write_header write_question
    write_questions write_answer write_answers build_response_packet build_no_error_response
    error_response generate_error_response append_edns0_do_bit
packets = tt
