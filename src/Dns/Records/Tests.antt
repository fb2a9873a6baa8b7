-- ===== src/Dns/Records/Tests.antt =====
-- Records of each kind, encoded.
use zonzon.Base.{◌+◌, ◌≤◌, ◌≡◌, refl, some, List, [], ◌∷◌, arith, length, All}
use zonzon.Base.Text.{Text, codes, split, to_lower}
use zonzon.Base.Bytes.{Bytes}
use zonzon.Types.{DnsRecord, a, cname, txt, srv}
use zonzon.Wire.{wire}
use zonzon.Wire.Encoding.{Short, name_bytes}
use zonzon.Dns.Packet.Answers.{entry_bytes}
use zonzon.Dns.Records.{encode_aaaa_record, record_data, build_answers, recording}
use zonzon.Dns.Records.Entries.{answer_for}

compressed_address :
    encode_aaaa_record (codes "fe80::1:2")
    ≡ 0xfe ∷ 0x80 ∷ 0 ∷ 0 ∷ 0 ∷ 0 ∷ 0 ∷ 0 ∷ 0 ∷ 0 ∷ 0 ∷ 0 ∷ 0 ∷ 1 ∷ 0 ∷ 2 ∷ []
unfolding recording
compressed_address = refl

-- An IPv4 address at the end is read as one group with the value of its first hexadecimal digits.
embedded_address :
    encode_aaaa_record (codes "::ffff:1.2.3.4")
    ≡ 0 ∷ 0 ∷ 0 ∷ 0 ∷ 0 ∷ 0 ∷ 0 ∷ 0 ∷ 0 ∷ 0 ∷ 0 ∷ 0 ∷ 0xff ∷ 0xff ∷ 0 ∷ 1 ∷ []
unfolding recording
embedded_address = refl

strings_encoded :
    record_data (txt (codes "ab" ∷ codes "c" ∷ [])) ≡ some (2 ∷ b'a' ∷ b'b' ∷ 1 ∷ b'c' ∷ [])
unfolding recording
strings_encoded = refl

service_encoded :
    record_data (srv 1 2 443 (codes "H")) ≡ some (0 ∷ 1 ∷ 0 ∷ 2 ∷ 1 ∷ 187 ∷ 1 ∷ b'h' ∷ 0 ∷ [])
unfolding recording
service_encoded = refl

abbrev target : Text
target = codes "Ab.c"

target-Short : All Short (split b'.' (to_lower target))
unfolding wire
target-Short = (omega arith, (omega arith, tt))

target-fits : 2 + length (name_bytes target) ≤ 4096
unfolding wire
target-fits = omega arith

abbrev records : List DnsRecord
records = cname target ∷ a (codes "1.2.3.4") ∷ []

abbrev address_entry : Bytes
address_entry = entry_bytes (answer_for (a (codes "1.2.3.4")) (1 ∷ 2 ∷ 3 ∷ 4 ∷ []))

address_only : build_answers records 1 ≡ some (address_entry ∷ [])
unfolding recording
address_only = refl
