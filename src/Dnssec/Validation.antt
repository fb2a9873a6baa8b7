-- ===== src/Dnssec/Validation.antt =====
-- `verifySignature` and `verifyResponse` of packages/core/src/dnssec.ts, with the order and the
-- canonical form of a set of records and the tags of keys.
use zonzon.Base.{
  ℕ, ◌+◌, ◌-◌, ◌*◌, ◌/◌, ◌%◌, Bool, true, false, ◌&&◌, ◌||◌, not, Option, none, some, List, [], ◌∷◌,
  ◌++◌, ltb, ◌==◌, if◌then◌else◌, ◌>>=◌, length, take, filter, find,
}
use zonzon.Base.Text.{Text, codes, text_eq}
use zonzon.Base.Bytes.{Bytes, byte_at, be16, be32}
use zonzon.Types.{type_rrsig, type_dnskey}
use zonzon.Dnssec.{
  ParsedRecord, Rrsig, Dnskey, Sections, Crypto, extract_records, parse_rrsig, parse_dnskey,
  encode_canonical_name, build_spki_p256, build_spki_rsa, parsing,
}

-- the comparison of two records is at most 0
unfoldable pub at_most : Bytes → Bytes → Bool
at_most [] b = true
at_most (x ∷ a) [] = false
at_most (x ∷ a) (y ∷ b) = if x == y then at_most a b else ltb x y

-- `rrset.sort`, which keeps the order of records that compare equal
unfoldable pub insert_record : ParsedRecord → List ParsedRecord → List ParsedRecord
insert_record r [] = r ∷ []
insert_record r (s ∷ rrset) =
    if at_most r.rdata s.rdata then r ∷ s ∷ rrset else s ∷ insert_record r rrset

unfoldable pub sort : List ParsedRecord → List ParsedRecord
sort [] = []
sort (r ∷ rrset) = insert_record r (sort rrset)

-- The chunks of a record. Its numbers come from words of the sizes that they are written in.
unfoldable pub signed_record : ℕ → ParsedRecord → Option Bytes
signed_record original_ttl rr = do
  owner ← encode_canonical_name rr.name
  some (
      owner
      ++ (be16 rr.type
          ++ (be16 rr.dclass ++ (be32 original_ttl ++ (be16 rr.rdlength ++ rr.rdata)))))

unfoldable pub signed_records : ℕ → List ParsedRecord → Option Bytes
signed_records original_ttl [] = some []
signed_records original_ttl (rr ∷ rrset) = do
  chunk ← signed_record original_ttl rr
  chunks ← signed_records original_ttl rrset
  some (chunk ++ chunks)

unfoldable pub payload_of : Rrsig → List ParsedRecord → Option Bytes
payload_of rrsig rrset = do
  signer ← encode_canonical_name rrsig.signer_name
  chunks ← signed_records rrsig.original_ttl (sort rrset)
  some (take 18 rrsig.raw_rdata ++ (signer ++ chunks))

-- what a `catch` that returns false makes of a result
abbrev pub or_false : Option Bool → Bool
or_false none = false
or_false (some b) = b

-- from the choice of the algorithm on
unfoldable pub verify_payload : Crypto → Rrsig → Dnskey → Bytes → Bool
verify_payload c rrsig dnskey payload =
    if rrsig.algorithm == 8
    then or_false (
        build_spki_rsa c dnskey.public_key >>= λ spki.
        c.verify (codes "RSA-SHA256") payload spki false rrsig.signature)
    else if rrsig.algorithm == 13
    then (if not (length dnskey.public_key == 64)
        then false
        else or_false (
            c.verify (codes "SHA256") payload (build_spki_p256 dnskey.public_key) true
              rrsig.signature))
    else false

unfoldable pub verify_signature : Crypto → ℕ → Rrsig → List ParsedRecord → Dnskey → Option Bool
verify_signature c now rrsig rrset dnskey =
    let seconds = now / 1000 in
    if ltb rrsig.signature_expiration seconds || ltb seconds rrsig.signature_inception
    then some false
    else (do payload ← payload_of rrsig rrset; some (verify_payload c rrsig dnskey payload))

-- the sum over the bytes of a key's record, those at even places shifted by 8 bits
unfoldable pub key_sum : Bytes → ℕ
key_sum [] = 0
key_sum (x ∷ []) = x * 256
key_sum (x ∷ y ∷ rest) = x * 256 + y + key_sum rest

-- The tag of algorithm 1 is in the last bytes of the key; of less than two it is not a number.
unfoldable pub tag_of : Dnskey → Bytes → Option ℕ
tag_of key rdata =
    let n = length key.public_key in
    let high = if ltb n 3 then 0 else byte_at key.public_key (n - 3) * 256 in
    let ac = key_sum rdata in
    if not (key.algorithm == 1)
    then some ((ac + ac / 65536 % 65536) % 65536)
    else if ltb n 2
    then none
    else some (high + byte_at key.public_key (n - 2))

abbrev pub is_tag : ℕ → Option ℕ → Bool
is_tag key_tag none = false
is_tag key_tag (some tag) = tag == key_tag

unfoldable pub has_tag : ℕ → ParsedRecord → Bool
has_tag key_tag k = elim (parse_dnskey k.rdata) [
  | none ↦ false
  | some key ↦ is_tag key_tag (tag_of key k.rdata)
]

abbrev pub covered : Rrsig → Text → List ParsedRecord → List ParsedRecord
covered rrsig name answers =
    filter (λ r. text_eq r.name name && r.type == rrsig.type_covered) answers

-- a signature over a set, with the first key that has its tag, if any
unfoldable pub check_set : Crypto → ℕ → List ParsedRecord → Rrsig → List ParsedRecord → Option Bool
check_set c now dnskeys rrsig [] = some true
check_set c now dnskeys rrsig (r ∷ rrset) = elim (find (has_tag rrsig.key_tag) dnskeys) [
  | none ↦ some true
  | some k ↦ elim (parse_dnskey k.rdata) [
    | none ↦ some true
    | some key ↦ verify_signature c now rrsig (r ∷ rrset) key
  ]
]

-- One round of the loop over the signatures: false where it returns false. `validationCovered` is
-- set but never read.
unfoldable pub check_signature :
    Crypto → ℕ → List ParsedRecord → List ParsedRecord → ParsedRecord → Option Bool
check_signature c now answers dnskeys sig = elim (parse_rrsig sig.rdata) [
  | none ↦ some true
  | some rrsig ↦ check_set c now dnskeys rrsig (covered rrsig sig.name answers)
]

unfoldable pub check_signatures :
    Crypto → ℕ → List ParsedRecord → List ParsedRecord → List ParsedRecord → Option Bool
check_signatures c now answers dnskeys [] = some true
check_signatures c now answers dnskeys (sig ∷ rrsigs) =
    check_signature c now answers dnskeys sig >>= λ valid. elim valid [
      | true ↦ check_signatures c now answers dnskeys rrsigs
      | false ↦ some false
    ]

abbrev pub all_records : Sections → List ParsedRecord
all_records parsed = parsed.answers ++ (parsed.authorities ++ parsed.additionals)

abbrev pub of_type : ℕ → Sections → List ParsedRecord
of_type type parsed = filter (λ r. r.type == type) (all_records parsed)

unfoldable pub verify_response : Crypto → ℕ → Bytes → Option Bool
verify_response c now buffer =
    let parsed = extract_records buffer in
    let checked =
      check_signatures c now parsed.answers (of_type type_dnskey parsed)
        (of_type type_rrsig parsed) in
    if ltb (length buffer) 12 then some false else checked

unfoldable pub validating : Unit {0}
unfolding parsing at_most insert_record sort signed_record signed_records payload_of verify_payload
    verify_signature key_sum tag_of has_tag check_set check_signature check_signatures
    verify_response
validating = tt
