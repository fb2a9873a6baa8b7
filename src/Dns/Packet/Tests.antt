-- ===== src/Dns/Packet/Tests.antt =====
-- A query for `A.b`, its questions, and the replies to it.
use zonzon.Base.{◌≡◌, refl, some, List, [], ◌∷◌, ◌++◌, map, arith, All}
use zonzon.Base.Bits.{bit}
use zonzon.Base.Text.{codes}
use zonzon.Base.Bytes.{Bytes, u16_at}
use zonzon.Types.{rcode_noerror, rcode_nxdomain}
use zonzon.Wire.{wire}
use zonzon.Dns.Question.{ParsedQuestion, extract_questions, questions}
use zonzon.Dns.Question.RoundTrip.{
  IsQuestion, IsSpelled, reread, wires_bytes, placed, extract_questions-wires_bytes,
}
use zonzon.Dns.Packet.{
  combined_flags, generate_error_response, build_response_packet, append_edns0_do_bit, packets,
}
use zonzon.Dns.Packet.Message.{header_bytes}
use zonzon.Dns.Packet.Errors.{message, Replies, generate_error_response_parsed}
use zonzon.Dns.Packet.Answers.{
  Answer, IsAnswer, entry_bytes, answers_bytes, build_response_packet-message,
}

abbrev pub query : Bytes
query =
    0x12 ∷ 0x34 ∷ 1 ∷ 0 ∷ 0 ∷ 1 ∷ 0 ∷ 0 ∷ 0 ∷ 0 ∷ 0 ∷ 0 ∷ 1 ∷ b'A' ∷ 1 ∷ b'b' ∷ 0 ∷ 0 ∷ 1 ∷ 0 ∷ 1
    ∷ []

abbrev pub asked : List ParsedQuestion
asked = record { name = codes "A.b"; type = 1; next_offset = 21 } ∷ []

pub query_parsed : extract_questions query ≡ some asked
unfolding questions
query_parsed = refl

-- the reply: NXDOMAIN, with the name in lower case
nxdomain_reply :
    generate_error_response query rcode_nxdomain
    ≡ some (
        0x12 ∷ 0x34 ∷ 0x85 ∷ 3 ∷ 0 ∷ 1 ∷ 0 ∷ 0 ∷ 0 ∷ 0 ∷ 0 ∷ 0 ∷ 1 ∷ b'a' ∷ 1 ∷ b'b' ∷ 0 ∷ 0 ∷ 1 ∷ 0
        ∷ 1 ∷ [])
unfolding packets
nxdomain_reply = refl

-- an OPT record of 11 bytes behind the query, counted in bytes 10 and 11
edns0_added :
    append_edns0_do_bit query
    ≡ some (
        0x12 ∷ 0x34 ∷ 1 ∷ 0 ∷ 0 ∷ 1 ∷ 0 ∷ 0 ∷ 0 ∷ 0 ∷ 0 ∷ 1 ∷ 1 ∷ b'A' ∷ 1 ∷ b'b' ∷ 0 ∷ 0 ∷ 1 ∷ 0
        ∷ 1 ∷ 0 ∷ 0 ∷ 41 ∷ 16 ∷ 0 ∷ 0 ∷ 0 ∷ 128 ∷ 0 ∷ 0 ∷ 0 ∷ [])
unfolding packets
edns0_added = refl

pub asked-IsQuestion : All IsQuestion asked
unfolding wire
asked-IsQuestion = (
  (
    record { some_units = omega arith; few = omega arith; ascii = (omega arith, tt) },
    (record { some_units = omega arith; few = omega arith; ascii = (omega arith, tt) }, tt),
  ),
  tt,
)

pub asked-Replies : Replies 0x1234 0x100 asked
unfolding wire
asked-Replies = record {
  id_word = omega arith;
  flags_word = omega arith;
  fits = (record { short = (omega arith, (omega arith, tt)); word = omega arith }, tt);
  room = omega arith;
}

abbrev pub octets_answer : Answer
octets_answer = record { type = 1; dclass = 1; ttl = 300; rdata = 1 ∷ 2 ∷ 3 ∷ 4 ∷ [] }

abbrev pub answers : List Answer
answers = octets_answer ∷ []

pub answers-IsAnswer : All IsAnswer answers
answers-IsAnswer = (
  record { type = omega arith; dclass = omega arith; ttl = omega arith; short = omega arith },
  tt,
)

asked-IsSpelled : All IsSpelled asked
unfolding wire
asked-IsSpelled = (
  (
    record { some_units = omega arith; few = omega arith; ascii = (omega arith, tt) },
    (record { some_units = omega arith; few = omega arith; ascii = (omega arith, tt) }, tt),
  ),
  tt,
)

extract_questions-wires_bytes_example :
    extract_questions (header_bytes 7 256 1 0 ++ (wires_bytes asked ++ [])) ≡ some (placed 12 asked)
unfolding wire
extract_questions-wires_bytes_example =
    extract_questions-wires_bytes (header_bytes 7 256 1 0) [] asked refl refl asked-IsSpelled

generate_error_response_parsed_example :
    (reply : Bytes) × (generate_error_response query rcode_nxdomain ≡ some reply)
    × (u16_at reply 0 ≡ 0x1234)
    × (bit 15 (u16_at reply 2) ≡ 1)
    × (u16_at reply 6 ≡ 0)
    × (extract_questions reply ≡ some (reread 12 asked))
generate_error_response_parsed_example =
    generate_error_response_parsed query rcode_nxdomain asked (omega arith) (omega arith)
      query_parsed asked-Replies asked-IsQuestion

build_response_packet-message_example :
    build_response_packet 0x1234 0x100 rcode_noerror 1 asked (map entry_bytes answers)
    ≡ some (message 0x1234 (combined_flags 0x100 0) 1 asked ++ answers_bytes answers)
unfolding wire
build_response_packet-message_example =
    build_response_packet-message 0x1234 0x100 rcode_noerror asked answers (omega arith)
      asked-Replies answers-IsAnswer (omega arith)
