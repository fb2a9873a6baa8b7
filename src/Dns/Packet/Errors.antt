-- ===== src/Dns/Packet/Errors.antt =====
-- The replies of `generateErrorResponse` and `buildNoErrorResponse`: their bytes, and what a
-- client reads in them.
use zonzon.Base.{
  ℕ, ◌+◌, ◌≤◌, ◌<◌, ◌≡◌, refl, ap, some, List, [], ◌∷◌, ◌++◌, arith, length, All, drop, append-nil,
  length-append, >>=-eq-some, length-replicate, replicate,
}
use zonzon.Base.Bits.{bit}
use zonzon.Base.Bytes.{Bytes, be16, u16_at}
use zonzon.Types.{rcode_noerror, class_in}
use zonzon.Wire.{DnsWireFormat, fresh, allocated}
use zonzon.Wire.Encoding.{name_bytes, Holds, fresh-Holds, finish-Holds}
use zonzon.Dns.Question.{ParsedQuestion, extract_questions}
use zonzon.Dns.Question.RoundTrip.{
  question_bytes, questions_bytes, IsQuestion, reread, extract-questions_bytes,
}
use zonzon.Dns.Packet.{
  combined_flags, write_header, write_questions, build_no_error_response, error_response,
  generate_error_response,
}
use zonzon.Dns.Packet.Message.{
  header_bytes, Fits, head-Appends, poke-Holds, combined_flags-lt, combined_flags_qr,
}

abbrev pub message : ℕ → ℕ → ℕ → List ParsedQuestion → Bytes
message id flags ancount qs = header_bytes id flags (length qs) ancount ++ questions_bytes qs

pub questions_count : (qs : List ParsedQuestion) → length qs ≤ length (questions_bytes qs)
questions_count [] = omega arith
questions_count (q ∷ qs) =
    let four = length-append (name_bytes q.name) (be16 q.type ++ be16 class_in) in
    omega (arith, questions_count qs, length-append (question_bytes q) (questions_bytes qs), four)

-- What the questions of a reply need: they fit into the buffer, label by label and in all.
pub record Replies (id flags : ℕ) (qs : List ParsedQuestion) : Type 0 where
  pub id_word : id < 65536
  pub flags_word : flags < 65536
  pub fits : All Fits qs
  pub room : 12 + length (questions_bytes qs) ≤ allocated

module _ (id flags : ℕ) (qs : List ParsedQuestion) (r : Replies id flags qs) where
  -- The header and the questions of a reply, in a fresh buffer.
  pub head_fresh :
      (rcode : ℕ)
      → rcode < 16
      → (w1 w2 : DnsWireFormat) × (write_header id (combined_flags flags rcode) (length qs) fresh
          ≡ some w1)
        × (write_questions qs w1 ≡ some w2)
        × Holds w2
            (message id (combined_flags flags rcode) 0 qs)
            (drop (length (message id (combined_flags flags rcode) 0 qs)) (replicate allocated 0))
  head_fresh rcode k =
      let f = combined_flags flags rcode in
      let few : length qs < 65536 = omega (arith, questions_count qs, r.room) in
      let (w2, e, h) =
        head-Appends id f qs r.id_word (combined_flags-lt flags rcode r.flags_word k) few r.fits
          fresh [] (replicate allocated 0) fresh-Holds
          (omega (arith, r.room, length-replicate {0} {A = ℕ} allocated 0)) in
      let (w1, e1, e2) = >>=-eq-some (write_header id f (length qs) fresh) (write_questions qs) e in
      (w1, w2, e1, e2, h)

  error_response-message :
      (rcode : ℕ)
      → rcode < 16
      → error_response id flags rcode qs ≡ some (message id (combined_flags flags rcode) 0 qs)
  unfolding error_response
  error_response-message rcode k =
      let f = combined_flags flags rcode in
      let (w1, w2, e1, e2, h2) = head_fresh rcode k in
      let (w3, e3, h3) =
        poke-Holds w2 id f (length qs) 0 0 (questions_bytes qs) _ (omega arith) h2 in
      rw (e1, e2, e3) (ap some (finish-Holds w3 _ _ h3))

  build_no_error_response-error_response :
      build_no_error_response id flags qs ≡ error_response id flags rcode_noerror qs
  unfolding build_no_error_response error_response
  build_no_error_response-error_response = refl

-- For a query of at least 12 bytes whose questions fit into the reply buffer, the error reply is
-- the 12-byte header with the query's id, the response flags and code, and the count of the
-- questions, and then the questions.
pub generate_error_response-message :
    (query : Bytes) (rcode : ℕ) (qs : List ParsedQuestion)
    → 12 ≤ length query
    → rcode < 16
    → extract_questions query ≡ some qs
    → Replies (u16_at query 0) (u16_at query 2) qs
    → generate_error_response query rcode
      ≡ some (message (u16_at query 0) (combined_flags (u16_at query 2) rcode) 0 qs)
unfolding generate_error_response
generate_error_response-message query rcode qs h k e r =
    ground (arith, error_response-message (u16_at query 0) (u16_at query 2) qs r rcode k)

-- A client that parses the error reply finds the query's id, the response bit, no answers, and the
-- questions of the query with their names in lower case.
pub generate_error_response_parsed :
    (query : Bytes) (rcode : ℕ) (qs : List ParsedQuestion)
    → 12 ≤ length query
    → rcode < 16
    → extract_questions query ≡ some qs
    → Replies (u16_at query 0) (u16_at query 2) qs
    → All IsQuestion qs
    → (reply : Bytes) × (generate_error_response query rcode ≡ some reply)
      × (u16_at reply 0 ≡ u16_at query 0)
      × (bit 15 (u16_at reply 2) ≡ 1)
      × (u16_at reply 6 ≡ 0)
      × (extract_questions reply ≡ some (reread 12 qs))
generate_error_response_parsed query rcode qs h k e r v =
    let f = combined_flags (u16_at query 2) rcode in
    let reply = message (u16_at query 0) f 0 qs in
    let words : u16_at reply 2 ≡ f = omega arith in
    let parsed =
      extract-questions_bytes (header_bytes (u16_at query 0) f (length qs) 0) [] qs refl
        (omega arith) v in
    (
      reply,
      generate_error_response-message query rcode qs h k e r,
      omega arith,
      rw words (combined_flags_qr (u16_at query 2) rcode),
      omega arith,
      rw append-nil at parsed,
    )
