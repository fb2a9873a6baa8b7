-- ===== src/Dns/Records.antt =====
-- The encoders of record data, `buildSingleAnswer` and `buildAnswers` of
-- packages/core/src/dns-service.ts. The addresses are those that the configuration's schema lets
-- through: the parts of an IPv4 address are decimal. `none` is a RangeError.
pub mod Entries
mod Tests
use zonzon.Base.{
  ℕ, zero, suc, ◌+◌, ◌-◌, ◌/◌, ◌%◌, Option, none, some, List, [], ◌∷◌, ◌++◌, map, ltb, ◌==◌,
  if◌then◌else◌, ◌>>=◌, length, replicate,
}
use zonzon.Base.Text.{Text, split, join}
use zonzon.Base.Bytes.{Bytes, be16, be32, utf8}
use zonzon.Types.{DnsRecord, a, aaaa, cname, txt, mx, ns, srv, ptr, HostConfig, class_in}
use zonzon.Wire.{
  DnsWireFormat, fresh, finish, write_uint8, write_uint16, write_bytes, write_domain_name, wire,
}
use zonzon.Firewall.Address.{Number, nan, pos, neg, number_of, parse_int, split_double, addresses}
use zonzon.Dns.Hosts.{to_type_number, hosting}

-- `Buffer.from(parts.map(Number))`
unfoldable pub encode_a_record : Text → Bytes
encode_a_record address = map (λ part. number_of part % 256) (split b'.' address)

-- `left ? left.split(":") : []`
abbrev parts_of : Text → List Text
parts_of [] = []
parts_of (c ∷ s) = split b':' (c ∷ s)

-- what `split("::")` puts into its first two parts
abbrev before_double : Text → Option (Text × Text) → Text
before_double s none = s
before_double s (some (l, r)) = l

abbrev pad_start : Text → Text
pad_start part = replicate (4 - length part) b'0' ++ part

unfoldable pub expand : Text → Text
expand address = elim (split_double address) [
  | none ↦ address
  | some (l, r) ↦
      let left = parts_of l in
      let right = parts_of (before_double r (split_double r)) in
      let missing = 8 - length left - length right in
      join b':' (map pad_start (left ++ (replicate missing (b'0' ∷ []) ++ right)))
]

-- `Buffer.from([Math.floor(val / 256), val % 256])`
abbrev pub segment_bytes : Number → Bytes
segment_bytes nan = 0 ∷ 0 ∷ []
segment_bytes (pos n) = n / 256 % 256 ∷ n % 256 ∷ []
segment_bytes (neg n) = (256 - (n + 255) / 256 % 256) % 256 ∷ (256 - n % 256) % 256 ∷ []

unfoldable pub concat_segments : List Text → Bytes
concat_segments [] = []
concat_segments (segment ∷ segments) =
    segment_bytes (parse_int 16 segment) ++ concat_segments segments

unfoldable pub encode_aaaa_record : Text → Bytes
encode_aaaa_record address = concat_segments (split b':' (expand address))

-- `encodeCNAME`, `encodeNS` and `encodePTR` have the same body.
unfoldable pub encode_name : Text → Option Bytes
encode_name target = do w ← write_domain_name target fresh; some (finish w)

unfoldable pub write_strings : List Text → DnsWireFormat → Option DnsWireFormat
write_strings [] w = some w
write_strings (s ∷ strings) w = do
  w1 ← write_uint8 (length (utf8 s)) w
  w2 ← write_bytes (utf8 s) w1
  write_strings strings w2

unfoldable pub encode_txt : List Text → Option Bytes
encode_txt strings = do w ← write_strings strings fresh; some (finish w)

unfoldable pub encode_mx : ℕ → Text → Option Bytes
encode_mx priority exchange = do
  w1 ← write_uint16 priority fresh
  w2 ← write_domain_name exchange w1
  some (finish w2)

unfoldable pub encode_srv : ℕ → ℕ → ℕ → Text → Option Bytes
encode_srv priority weight port target = do
  w1 ← write_uint16 priority fresh
  w2 ← write_uint16 weight w1
  w3 ← write_uint16 port w2
  w4 ← write_domain_name target w3
  some (finish w4)

-- the `switch`; it has no case for PTR, which keeps the empty buffer
unfoldable pub record_data : DnsRecord → Option Bytes
record_data (a address) = some (encode_a_record address)
record_data (aaaa address) = some (encode_aaaa_record address)
record_data (cname target) = encode_name target
record_data (txt strings) = encode_txt strings
record_data (mx priority exchange) = encode_mx priority exchange
record_data (ns target) = encode_name target
record_data (srv priority weight port target) = encode_srv priority weight port target
record_data (ptr target) = some []

abbrev pub answer_ttl : ℕ
answer_ttl = 300

unfoldable pub build_single_answer : DnsRecord → Option Bytes
build_single_answer r = do
  rdata ← record_data r
  if ltb (length rdata) 65536
      then some (
          be16 (to_type_number r)
          ++ (be16 class_in ++ (be32 answer_ttl ++ (be16 (length rdata) ++ rdata))))
      else none

-- the loop over the records
unfoldable pub build_answers : List DnsRecord → ℕ → Option (List Bytes)
build_answers [] type = some []
build_answers (r ∷ records) type =
    let rest = build_answers records type in
    let with_answer = build_single_answer r >>= λ answer. rest >>= λ more. some (answer ∷ more) in
    if to_type_number r == type then with_answer else rest

unfoldable pub recording : Unit {0}
unfolding wire addresses hosting encode_a_record expand concat_segments encode_aaaa_record
    encode_name write_strings encode_txt encode_mx encode_srv record_data build_single_answer
    build_answers
recording = tt
