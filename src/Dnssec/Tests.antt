-- ===== src/Dnssec/Tests.antt =====
-- The validator on a response with an address, a signature and a key, and the theorems at it.
use zonzon.Base.{
  ℕ, ◌+◌, ◌*◌, ◌≡◌, ◌≤◌, refl, true, false, none, some, [], ◌∷◌, ◌++◌, arith, ◌==◌, length,
  replicate,
}
use mathlib.Core.List.Perm
use zonzon.Base.Text.{codes}
use zonzon.Base.Bytes.{Bytes, be16, be32}
use zonzon.Types.{type_dnskey}
use zonzon.Dnssec.{ParsedRecord, Rrsig, Dnskey, Crypto, extract_records}
use zonzon.Dnssec.Validation.{
  sort, tag_of, of_type, all_records, verify_response, verify_signature, validating,
}
use zonzon.Dnssec.Acceptance.{verify_response_iff, verify_response-NoKey}
use zonzon.Dnssec.Bounds.{extract_records_bounds}
use zonzon.Dnssec.Canonical.{verify_signature_order}

-- the name `a`, in the case that the wire has it in
abbrev owner : Bytes
owner = 1 ∷ 0x41 ∷ 0 ∷ []

abbrev record_bytes : ℕ → Bytes → Bytes
record_bytes type rdata =
    owner ++ (be16 type ++ (be16 1 ++ (be32 60 ++ (be16 (length rdata) ++ rdata))))

abbrev address : Bytes
address = 10 ∷ 0 ∷ 0 ∷ 1 ∷ []

abbrev key_bytes : Bytes
key_bytes = 1 ∷ 1 ∷ 3 ∷ 13 ∷ replicate 64 7

abbrev signature_bytes : Bytes
signature_bytes =
    be16 1
    ++ (13 ∷ 1 ∷ (be32 60 ++ (be32 2000 ++ (be32 1000 ++ (be16 58606 ++ (owner ++ (9 ∷ [])))))))

abbrev header : ℕ → Bytes
header ancount = be16 7 ++ (be16 0x8180 ++ (be16 0 ++ (be16 ancount ++ (0 ∷ 0 ∷ 0 ∷ 0 ∷ []))))

abbrev signed_reply : Bytes
signed_reply =
    header 3
    ++ (record_bytes 1 address ++ (record_bytes 46 signature_bytes ++ record_bytes 48 key_bytes))

abbrev keyless_reply : Bytes
keyless_reply = header 2 ++ (record_bytes 1 address ++ record_bytes 46 signature_bytes)

-- a library that accepts a signature if its first byte is the given one
abbrev crypto : ℕ → Crypto
crypto good = record {
  rsa_spki = λ exponent modulus. none;
  verify = λ algorithm payload spki p1363 signature. some (first signature == good);
}
  where
    first : Bytes → ℕ
    first [] = 0
    first (b ∷ s) = b

tag_test :
    tag_of
      (record { flags = 257; protocol = 3; algorithm = 13; public_key = replicate 64 7 })
      key_bytes
    ≡ some 58606
unfolding validating
tag_test = refl

accepted : verify_response (crypto 9) 1500000 signed_reply ≡ some true
unfolding validating
accepted = refl

rejected : verify_response (crypto 8) 1500000 signed_reply ≡ some false
unfolding validating
rejected = refl

expired : verify_response (crypto 9) 2001000 signed_reply ≡ some false
unfolding validating
expired = refl

too_short : verify_response (crypto 9) 0 (replicate 11 0) ≡ some false
unfolding validating
too_short = refl

no_key : of_type type_dnskey (extract_records keyless_reply) ≡ []
unfolding validating
no_key = refl

verify_response_iff_example : 12 ≤ length signed_reply
verify_response_iff_example = ((verify_response_iff (crypto 9) 1500000 signed_reply).0 accepted).0

verify_response-NoKey_example : verify_response (crypto 8) 1500000 keyless_reply ≡ some true
verify_response-NoKey_example =
    verify_response-NoKey (crypto 8) 1500000 keyless_reply (omega arith) no_key

extract_records_bounds_example :
    10 * length (all_records (extract_records signed_reply)) + 12 ≤ length signed_reply + 9
extract_records_bounds_example = (extract_records_bounds signed_reply (omega arith)).1

abbrev host : Bytes → ParsedRecord
host rdata = record {
  name = codes "a";
  type = 1;
  dclass = 1;
  ttl = 60;
  rdlength = 4;
  rdata = rdata;
  offset = 12;
}

abbrev low : ParsedRecord
low = host (10 ∷ 0 ∷ 0 ∷ 1 ∷ [])

abbrev high : ParsedRecord
high = host (192 ∷ 168 ∷ 0 ∷ 1 ∷ [])

abbrev signature : Rrsig
signature = record {
  type_covered = 1;
  algorithm = 13;
  labels = 1;
  original_ttl = 60;
  signature_expiration = 2000;
  signature_inception = 1000;
  key_tag = 58606;
  signer_name = codes "a";
  signature = 9 ∷ [];
  raw_rdata = signature_bytes;
}

abbrev key : Dnskey
key = record { flags = 257; protocol = 3; algorithm = 13; public_key = replicate 64 7 }

sort_test : sort (high ∷ low ∷ []) ≡ low ∷ high ∷ []
unfolding validating
sort_test = refl

verify_signature_order_example :
    verify_signature (crypto 9) 1500000 signature (high ∷ low ∷ []) key
    ≡ verify_signature (crypto 9) 1500000 signature (low ∷ high ∷ []) key
verify_signature_order_example =
    verify_signature_order (crypto 9) 1500000 signature (high ∷ low ∷ []) (low ∷ high ∷ []) key
      (Perm.swap low high []) (((λ e. cc), tt), (tt, tt))
