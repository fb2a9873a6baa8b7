-- ===== src/Dnssec.antt =====
-- `DnssecValidator` of packages/core/src/dnssec.ts. `Crypto` is what it uses of node:crypto. The
-- clock is in milliseconds. `none` is a thrown RangeError; the log lines are left out.
pub mod Validation
pub mod Canonical
pub mod Acceptance
pub mod Bounds
pub mod Tests
use zonzon.Base.{
  ℕ, zero, suc, ◌+◌, ◌-◌, ◌*◌, ◌/◌, ◌%◌, Bool, true, false, ◌&&◌, ◌||◌, not, Option, none, some,
  List, [], ◌∷◌, ◌++◌, ltb, leb, ◌==◌, if◌then◌else◌, ◌>>=◌, length, take, drop, filter, find,
}
use zonzon.Base.Text.{Text, codes, text_eq, to_lower, lower}
use zonzon.Base.Bytes.{Bytes, byte_at, u16_at, be16, be32}
use zonzon.Types.{type_rrsig, type_dnskey}
use zonzon.Wire.{
  DnsWireFormat, over, fresh, finish, write_domain_name, read_domain_name, read_uint8, read_uint16,
  read_uint32, wire,
}

pub record ParsedRecord : Type 0 where
  pub name : Text
  pub type : ℕ
  pub dclass : ℕ
  pub ttl : ℕ
  pub rdlength : ℕ
  pub rdata : Bytes
  pub offset : ℕ

pub record Rrsig : Type 0 where
  pub type_covered : ℕ
  pub algorithm : ℕ
  pub labels : ℕ
  pub original_ttl : ℕ
  pub signature_expiration : ℕ
  pub signature_inception : ℕ
  pub key_tag : ℕ
  pub signer_name : Text
  pub signature : Bytes
  pub raw_rdata : Bytes

pub record Dnskey : Type 0 where
  pub flags : ℕ
  pub protocol : ℕ
  pub algorithm : ℕ
  pub public_key : Bytes

pub record Sections : Type 0 where
  pub questions : ℕ
  pub answers : List ParsedRecord
  pub authorities : List ParsedRecord
  pub additionals : List ParsedRecord

-- `rsa_spki` makes a key of an exponent and a modulus. `verify` takes the algorithm, the payload,
-- the key, whether the signature is in the format of IEEE P1363, and the signature; `none` is a
-- throw.
pub record Crypto : Type 0 where
  pub rsa_spki : Bytes → Bytes → Option Bytes
  pub verify : Text → Bytes → Bytes → Bool → Bytes → Option Bool

unfoldable pub parse_domain_name : DnsWireFormat → Text × DnsWireFormat
parse_domain_name decoder = let (name, d) = read_domain_name decoder in (to_lower name, d)

-- `buffer.subarray(start, end)`
abbrev pub subarray : Bytes → ℕ → ℕ → Bytes
subarray buffer start end_ = take (end_ - start) (drop start buffer)

-- one record, and the decoder behind it
unfoldable pub parse_record : DnsWireFormat → ParsedRecord × DnsWireFormat
parse_record decoder =
    let (name, d1) = parse_domain_name decoder in
    let (type, d2) = read_uint16 d1 in
    let (dclass, d3) = read_uint16 d2 in
    let (ttl, d4) = read_uint32 d3 in
    let (rdlength, d5) = read_uint16 d4 in
    (
      record {
        name = name;
        type = type;
        dclass = dclass;
        ttl = ttl;
        rdlength = rdlength;
        rdata = subarray d5.buf d5.offset (d5.offset + rdlength);
        offset = d5.offset;
      },
      record d5 { offset = d5.offset + rdlength },
    )

-- the loop over the records of a section, as many as its count says
unfoldable pub parse_section : ℕ → DnsWireFormat → List ParsedRecord × DnsWireFormat
parse_section zero decoder = ([], decoder)
parse_section (suc n) decoder =
    let (r, behind) = parse_record decoder in
    let (rs, end_) = parse_section n behind in
    if leb (length decoder.buf) decoder.offset then ([], decoder) else (r ∷ rs, end_)

unfoldable pub skip_questions : ℕ → DnsWireFormat → DnsWireFormat
skip_questions zero decoder = decoder
skip_questions (suc n) decoder =
    let (name, d) = read_domain_name decoder in
    skip_questions n (record d { offset = d.offset + 4 })

unfoldable pub extract_records : Bytes → Sections
extract_records buffer =
    let (qdcount, d1) = read_uint16 (record { buf = buffer; offset = 4 }) in
    let (ancount, d2) = read_uint16 d1 in
    let (nscount, d3) = read_uint16 d2 in
    let (arcount, d4) = read_uint16 d3 in
    let (answers, d5) = parse_section ancount (skip_questions qdcount d4) in
    let (authorities, d6) = parse_section nscount d5 in
    let (additionals, d7) = parse_section arcount d6 in
    record {
      questions = qdcount;
      answers = answers;
      authorities = authorities;
      additionals = additionals;
    }

unfoldable pub parse_rrsig : Bytes → Option Rrsig
parse_rrsig rdata =
    let (type_covered, d1) = read_uint16 (over rdata) in
    let (algorithm, d2) = read_uint8 d1 in
    let (labels, d3) = read_uint8 d2 in
    let (original_ttl, d4) = read_uint32 d3 in
    let (signature_expiration, d5) = read_uint32 d4 in
    let (signature_inception, d6) = read_uint32 d5 in
    let (key_tag, d7) = read_uint16 d6 in
    let (signer_name, d8) = parse_domain_name d7 in
    if ltb (length rdata) 18
    then none
    else some (record {
      type_covered = type_covered;
      algorithm = algorithm;
      labels = labels;
      original_ttl = original_ttl;
      signature_expiration = signature_expiration;
      signature_inception = signature_inception;
      key_tag = key_tag;
      signer_name = signer_name;
      signature = drop d8.offset rdata;
      raw_rdata = rdata;
    })

unfoldable pub parse_dnskey : Bytes → Option Dnskey
parse_dnskey rdata =
    if ltb (length rdata) 4
    then none
    else some (record {
      flags = u16_at rdata 0;
      protocol = byte_at rdata 2;
      algorithm = byte_at rdata 3;
      public_key = drop 4 rdata;
    })

unfoldable pub encode_canonical_name : Text → Option Bytes
encode_canonical_name name = do w ← write_domain_name name fresh; some (finish w)

p256_prefix : Bytes
p256_prefix =
    0x30 ∷ 0x59 ∷ 0x30 ∷ 0x13 ∷ 0x06 ∷ 0x07 ∷ 0x2a ∷ 0x86 ∷ 0x48 ∷ 0xce ∷ 0x3d ∷ 0x02 ∷ 0x01 ∷ 0x06
    ∷ 0x08 ∷ 0x2a ∷ 0x86 ∷ 0x48 ∷ 0xce ∷ 0x3d ∷ 0x03 ∷ 0x01 ∷ 0x07 ∷ 0x03 ∷ 0x42 ∷ 0x00 ∷ 0x04 ∷ []

unfoldable pub build_spki_p256 : Bytes → Bytes
unfolding p256_prefix
build_spki_p256 public_key_raw = p256_prefix ++ public_key_raw

-- the offset and the length of the exponent; a length of 0 is followed by a longer one
unfoldable pub exponent_at : Bytes → Option (ℕ × ℕ)
exponent_at [] = some (1, 0)
exponent_at (b ∷ rest) =
    if not (b == 0)
    then some (1, b)
    else if ltb (length rest) 2
    then none
    else some (3, u16_at rest 0)

unfoldable pub build_spki_rsa : Crypto → Bytes → Option Bytes
build_spki_rsa c public_key_raw = do
  (offset, exp_len) ← exponent_at public_key_raw
  c.rsa_spki (subarray public_key_raw offset (offset + exp_len))
      (drop (offset + exp_len) public_key_raw)

unfoldable pub parsing : Unit {0}
unfolding wire lower parse_domain_name parse_record parse_section skip_questions extract_records
    parse_rrsig parse_dnskey encode_canonical_name build_spki_p256 exponent_at build_spki_rsa
parsing = tt
