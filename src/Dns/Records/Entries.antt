-- ===== src/Dns/Records/Entries.antt =====
-- What the encoders give, as entries of an answer section.
use zonzon.Base.{
  ℕ, ◌+◌, ◌≤◌, ◌<◌, ◌≡◌, refl, some, List, [], ◌∷◌, ◌++◌, arith, length, All, ltb, ◌==◌, ◌>>=◌,
  true, Bool-cases, inl, inr, some-eq-some, >>=-eq-some,
}
use zonzon.Base.Text.{Text, split, to_lower}
use zonzon.Base.Bytes.{Bytes, be16}
use zonzon.Types.{DnsRecord, cname, ns, mx, ptr, class_in}
use zonzon.Wire.{allocated, fresh, write_uint16, write_domain_name}
use zonzon.Wire.Encoding.{
  Short, name_bytes, Appends-bind, write_uint16-Appends, write_domain_name-Appends, finish-Appends,
}
use zonzon.Firewall.Quads.{quad, IsQuad, split-quad, show_octet-IsShown}
use zonzon.Dns.Packet.{write_answers, build_response_packet}
use zonzon.Dns.Question.{ParsedQuestion}
use zonzon.Dns.Packet.Answers.{Answer, entry_bytes}
use zonzon.Dns.Hosts.{to_type_number}
use zonzon.Dns.Records.{
  encode_a_record, encode_name, encode_mx, record_data, answer_ttl, build_single_answer,
  build_answers,
}

-- The answer for a record with the given data.
abbrev pub answer_for : DnsRecord → Bytes → Answer
answer_for r data_ = record {
  type = to_type_number r;
  dclass = class_in;
  ttl = answer_ttl;
  rdata = data_;
}

-- The target of a CNAME, NS or PTR record in the wire format of names.
encode_name-name_bytes :
    (target : Text)
    → All Short (split b'.' (to_lower target))
    → length (name_bytes target) ≤ allocated
    → encode_name target ≡ some (name_bytes target)
unfolding encode_name
encode_name-name_bytes target short room =
    let (w, e, f) =
      finish-Appends (write_domain_name target) (name_bytes target)
        (write_domain_name-Appends target short) room in
    rw (e, f) refl

encode_mx-bytes :
    (priority : ℕ) (exchange : Text)
    → priority < 65536
    → All Short (split b'.' (to_lower exchange))
    → 2 + length (name_bytes exchange) ≤ allocated
    → encode_mx priority exchange ≡ some (be16 priority ++ name_bytes exchange)
unfolding encode_mx
encode_mx-bytes priority exchange word short room =
    let (w, e, f) =
      finish-Appends (λ v. write_uint16 priority v >>= write_domain_name exchange)
        (be16 priority ++ name_bytes exchange)
        (Appends-bind (write_uint16 priority) (write_domain_name exchange) (be16 priority)
          (name_bytes exchange) (write_uint16-Appends priority word)
          (write_domain_name-Appends exchange short))
        (omega arith) in
    let (w1, e1, e2) = >>=-eq-some (write_uint16 priority fresh) (write_domain_name exchange) e in
    rw (e1, e2, f) refl

build_single_answer-entry_bytes :
    (r : DnsRecord) (data_ : Bytes)
    → record_data r ≡ some data_
    → length data_ < 65536
    → build_single_answer r ≡ some (entry_bytes (answer_for r data_))
unfolding build_single_answer
build_single_answer-entry_bytes r data_ e short =
    let fits : ltb (length data_) 65536 ≡ true = ground arith in rw (e, fits) refl

-- The entries of CNAME, NS and MX records carry their target in the wire format of names, behind
-- the priority for MX, when its labels have fewer than 256 code units and the data fit.
pub target_entries :
    (target : Text) (priority : ℕ)
    → All Short (split b'.' (to_lower target))
    → 2 + length (name_bytes target) ≤ allocated
    → priority < 65536
    → (build_single_answer (cname target)
        ≡ some (entry_bytes (answer_for (cname target) (name_bytes target))))
      × (build_single_answer (ns target)
          ≡ some (entry_bytes (answer_for (ns target) (name_bytes target))))
      × (build_single_answer (mx priority target)
          ≡ some
              (entry_bytes (answer_for (mx priority target) (be16 priority ++ name_bytes target))))
unfolding record_data
target_entries target priority short room word =
    let name = encode_name-name_bytes target short (omega arith) in
    (
      build_single_answer-entry_bytes (cname target) (name_bytes target) name (omega arith),
      build_single_answer-entry_bytes (ns target) (name_bytes target) name (omega arith),
      build_single_answer-entry_bytes (mx priority target) (be16 priority ++ name_bytes target)
          (encode_mx-bytes priority target word short room) (omega arith),
    )

module _ (w x y z : ℕ) (q : IsQuad w x y z) where
  -- The data of an A record are the four octets of its address.
  pub encode_a_record-quad : encode_a_record (quad w x y z) ≡ w ∷ x ∷ y ∷ z ∷ []
  unfolding encode_a_record
  encode_a_record-quad = ground (
    arith,
    split-quad w x y z q,
    (show_octet-IsShown w q.first).number,
    (show_octet-IsShown x q.second).number,
    (show_octet-IsShown y q.third).number,
    (show_octet-IsShown z q.fourth).number,
  )

-- A PTR record is never answered: its entry has no data, and the response packet with the entry is
-- the response packet without it.
pub ptr_left_out :
    (target : Text) (id flags rcode qdcount : ℕ) (qs : List ParsedQuestion) (answers : List Bytes)
    → (entry : Bytes) × (build_single_answer (ptr target) ≡ some entry)
      × (build_response_packet id flags rcode qdcount qs (entry ∷ answers)
          ≡ build_response_packet id flags rcode qdcount qs answers)
unfolding build_single_answer record_data build_response_packet write_answers to_type_number
ptr_left_out target id flags rcode qdcount qs answers = (_, refl, refl)

-- Every answer that a lookup yields is the entry of a record of the type asked for.
pub build_answers-entries :
    (records : List DnsRecord) (type : ℕ) (out : List Bytes)
    → build_answers records type ≡ some out
    → All (λ e. (r : DnsRecord) × (to_type_number r ≡ type) × (build_single_answer r ≡ some e)) out
unfolding build_answers
build_answers-entries [] type out e = rw (← some-eq-some e) tt
build_answers-entries (r ∷ records) type out e = elim (Bool-cases (to_type_number r == type)) [
  | inr other ↦ build_answers-entries records type out (ground (arith, other, e))
  | inl same ↦
      let (answer, e1, e2) = >>=-eq-some (build_single_answer r) _ (rw same at e) in
      let (more, e3, e4) = >>=-eq-some (build_answers records type) _ e2 in
      rw (← some-eq-some e4) ((r, ground arith, e1), build_answers-entries records type more e3)
]
