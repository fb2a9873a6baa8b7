-- ===== src/Dnssec/Acceptance.antt =====
-- What `verifyResponse` lets through: which signatures it has checked, and with what.
use zonzon.Base.{
  ℕ, ◌/◌, ◌≤◌, ◌≡◌, refl, ◌≢◌, ◌⊎◌, inl, inr, ◌↔◌, Bool, true, false, ◌||◌, Option, none, some,
  List, [], ◌∷◌, arith, ltb, ◌==◌, ==_iff, Bool-cases, le→ltb_false, ltb_false→le, >>=-eq-some,
  some-eq-some, Option-cases, length, All, All-everywhere, find,
}
use zonzon.Base.Text.{codes}
use zonzon.Base.Bytes.{Bytes}
use zonzon.Types.{type_rrsig, type_dnskey}
use zonzon.Dnssec.{
  ParsedRecord, Rrsig, Dnskey, Crypto, parse_rrsig, parse_dnskey, extract_records, build_spki_rsa,
  build_spki_p256,
}
use zonzon.Dnssec.Validation.{
  has_tag, covered, of_type, payload_of, verify_payload, verify_signature, or_false, check_set,
  check_signature, check_signatures, verify_response,
}

module _ (c : Crypto) (now : ℕ) where
  -- The library of cryptography has accepted the signature over this payload with this key.
  abbrev pub CryptoAccepts : Rrsig → Dnskey → Bytes → Type 0
  CryptoAccepts rrsig dnskey payload =
      ((rrsig.algorithm ≡ 8)
        × ((spki : Bytes) × (build_spki_rsa c dnskey.public_key ≡ some spki)
            × (c.verify (codes "RSA-SHA256") payload spki false rrsig.signature ≡ some true)))
      ⊎ ((rrsig.algorithm ≡ 13)
          × (length dnskey.public_key ≡ 64)
          × (c.verify (codes "SHA256") payload (build_spki_p256 dnskey.public_key) true
                rrsig.signature
              ≡ some true))

  or_false-true : (r : Option Bool) → or_false r ≡ true → r ≡ some true
  or_false-true none h = cc
  or_false-true (some b) h = rw h refl

  verify_payload-true :
      (rrsig : Rrsig) (dnskey : Dnskey) (payload : Bytes)
      → verify_payload c rrsig dnskey payload ≡ true
      → CryptoAccepts rrsig dnskey payload
  unfolding verify_payload
  verify_payload-true rrsig dnskey payload h = elim (Bool-cases (rrsig.algorithm == 8)) [
    | inl rsa ↦ inl (
      (==_iff _ _).0 rsa,
      >>=-eq-some (build_spki_rsa c dnskey.public_key) _ (or_false-true _ (rw rsa at h)),
    )
    | inr other ↦ elim (Bool-cases (rrsig.algorithm == 13)) [
      | inl p256 ↦ elim (Bool-cases (length dnskey.public_key == 64)) [
        | inl full ↦ inr (
          (==_iff _ _).0 p256,
          (==_iff _ _).0 full,
          or_false-true _ (rw (other, p256, full) at h),
        )
        | inr short ↦ cc (rw (other, p256, short) at h)
      ]
      | inr neither ↦ cc (rw (other, neither) at h)
    ]
  ]

  verify_payload_of :
      (rrsig : Rrsig) (dnskey : Dnskey) (payload : Bytes)
      → CryptoAccepts rrsig dnskey payload
      → verify_payload c rrsig dnskey payload ≡ true
  unfolding verify_payload
  verify_payload_of rrsig dnskey payload (inl (rsa, (spki, made, ok))) = rw (rsa, made, ok) refl
  verify_payload_of rrsig dnskey payload (inr (p256, full, ok)) = rw (p256, full, ok) refl

  -- The signature is inside its time, its payload could be encoded, and it is accepted.
  abbrev pub IsAuthentic : Rrsig → List ParsedRecord → Dnskey → Type 0
  IsAuthentic rrsig rrset dnskey =
      (rrsig.signature_inception ≤ now / 1000)
      × (now / 1000 ≤ rrsig.signature_expiration)
      × ((payload : Bytes) × (payload_of rrsig rrset ≡ some payload)
          × CryptoAccepts rrsig dnskey payload)

  verify_signature-true :
      (rrsig : Rrsig) (rrset : List ParsedRecord) (dnskey : Dnskey)
      → verify_signature c now rrsig rrset dnskey ≡ some true
      → IsAuthentic rrsig rrset dnskey
  unfolding verify_signature
  verify_signature-true rrsig rrset dnskey h = elim (Bool-cases (outside rrsig)) [
    | inl out ↦ cc (rw out at h)
    | inr in_time ↦
        let (payload, made, e) =
          >>=-eq-some (payload_of rrsig rrset) (λ p. some (verify_payload c rrsig dnskey p))
            (rw in_time at h) in
        (
          ground (arith, in_time),
          ground (arith, in_time),
          (payload, made, verify_payload-true rrsig dnskey payload (some-eq-some e)),
        )
  ]
    where
      outside : Rrsig → Bool
      outside r = ltb r.signature_expiration (now / 1000) || ltb (now / 1000) r.signature_inception

  verify_signature_of :
      (rrsig : Rrsig) (rrset : List ParsedRecord) (dnskey : Dnskey)
      → IsAuthentic rrsig rrset dnskey
      → verify_signature c now rrsig rrset dnskey ≡ some true
  unfolding verify_signature
  verify_signature_of rrsig rrset dnskey (lo, hi, (payload, made, ok)) =
      rw (le→ltb_false _ _ hi, le→ltb_false _ _ lo, made, verify_payload_of rrsig dnskey payload ok)
        refl

  -- A signature record whose set is among the answers and whose key is among the records is
  -- authentic.
  abbrev pub Checked : List ParsedRecord → List ParsedRecord → ParsedRecord → Type 0
  Checked answers dnskeys sig =
      (rrsig : Rrsig) (k : ParsedRecord) (key : Dnskey)
      → parse_rrsig sig.rdata ≡ some rrsig
      → covered rrsig sig.name answers ≢ []
      → find (has_tag rrsig.key_tag) dnskeys ≡ some k
      → parse_dnskey k.rdata ≡ some key
      → IsAuthentic rrsig (covered rrsig sig.name answers) key

  check_set-true :
      (dnskeys : List ParsedRecord) (rrsig : Rrsig) (rrset : List ParsedRecord) (k : ParsedRecord)
      (key : Dnskey)
      → check_set c now dnskeys rrsig rrset ≡ some true
      → rrset ≢ []
      → find (has_tag rrsig.key_tag) dnskeys ≡ some k
      → parse_dnskey k.rdata ≡ some key
      → IsAuthentic rrsig rrset key
  unfolding check_set
  check_set-true dnskeys rrsig [] k key h some_covered found parsed = absurd (some_covered refl)
  check_set-true dnskeys rrsig (r ∷ rrset) k key h some_covered found parsed =
      verify_signature-true rrsig (r ∷ rrset) key (rw (found, parsed, check_set) at h)

  check_set_of :
      (dnskeys : List ParsedRecord) (rrsig : Rrsig) (rrset : List ParsedRecord)
      → ((k : ParsedRecord) (key : Dnskey)
          → rrset ≢ []
          → find (has_tag rrsig.key_tag) dnskeys ≡ some k
          → parse_dnskey k.rdata ≡ some key
          → IsAuthentic rrsig rrset key)
      → check_set c now dnskeys rrsig rrset ≡ some true
  unfolding check_set
  check_set_of dnskeys rrsig [] all_ = refl
  check_set_of dnskeys rrsig (r ∷ rrset) all_ =
      elim (Option-cases (find (has_tag rrsig.key_tag) dnskeys)) [
        | inl missing ↦ rw (missing, check_set) refl
        | inr (k, found) ↦ elim (Option-cases (parse_dnskey k.rdata)) [
          | inl short ↦ rw (found, short, check_set) refl
          | inr (key, parsed) ↦
              rw (found, parsed, check_set)
                (verify_signature_of rrsig (r ∷ rrset) key (all_ k key (λ e. cc) found parsed))
        ]
      ]

  check_signature_iff :
      (answers dnskeys : List ParsedRecord) (sig : ParsedRecord)
      → (check_signature c now answers dnskeys sig ≡ some true) ↔ Checked answers dnskeys sig
  unfolding check_signature
  check_signature_iff answers dnskeys sig = (
    λ h rrsig k key parsed some_covered found key_parsed.
        check_set-true dnskeys rrsig (covered rrsig sig.name answers) k key
          (rw (parsed, check_signature) at h) some_covered found key_parsed,
    λ all_. elim (Option-cases (parse_rrsig sig.rdata)) [
      | inl short ↦ rw (short, check_signature) refl
      | inr (rrsig, parsed) ↦
          rw (parsed, check_signature)
            (check_set_of dnskeys rrsig (covered rrsig sig.name answers)
              (λ k key. all_ rrsig k key parsed))
    ],
  )

  check_signatures-true :
      (answers dnskeys : List ParsedRecord) (sig : ParsedRecord) (rrsigs : List ParsedRecord)
      → check_signatures c now answers dnskeys (sig ∷ rrsigs) ≡ some true
      → (check_signature c now answers dnskeys sig ≡ some true)
        × (check_signatures c now answers dnskeys rrsigs ≡ some true)
  unfolding check_signatures
  check_signatures-true answers dnskeys sig rrsigs h =
      let (valid, e, rest) = >>=-eq-some (check_signature c now answers dnskeys sig) _ h in
      elim (Bool-cases valid) [
        | inl good ↦ (rw good at e, rw good at rest)
        | inr bad ↦ cc (rw bad at rest)
      ]

  check_signatures_iff :
      (answers dnskeys rrsigs : List ParsedRecord)
      → (check_signatures c now answers dnskeys rrsigs ≡ some true)
        ↔ All (Checked answers dnskeys) rrsigs
  unfolding check_signatures
  check_signatures_iff answers dnskeys [] = ((λ e. tt), λ e. refl)
  check_signatures_iff answers dnskeys (sig ∷ rrsigs) =
      let (to, from) = check_signature_iff answers dnskeys sig in
      let (all_to, all_from) = check_signatures_iff answers dnskeys rrsigs in
      (
        λ h.
            let (first, others) = check_signatures-true answers dnskeys sig rrsigs h in
            (to first, all_to others),
        λ (first, others). rw (from first) (all_from others),
      )

  -- A response is accepted exactly when it has a header and each of its signatures, for which the
  -- answers have the set that it covers and the response has a key with its tag, is inside its time
  -- and accepted for that set with the first such key. It says nothing about other signatures.
  pub verify_response_iff :
      (buffer : Bytes)
      → (verify_response c now buffer ≡ some true) ↔ (
          (12 ≤ length buffer)
          × All
              (Checked
                (extract_records buffer).answers
                (of_type type_dnskey (extract_records buffer)))
              (of_type type_rrsig (extract_records buffer)))
  unfolding verify_response
  verify_response_iff buffer =
      let parsed = extract_records buffer in
      let (to, from) =
        check_signatures_iff parsed.answers (of_type type_dnskey parsed)
          (of_type type_rrsig parsed) in
      elim (Bool-cases (ltb (length buffer) 12)) [
        | inl short ↦ (λ h. cc (rw short at h), λ (n, h). absurd (ground arith))
        | inr long ↦ (λ h. (ltb_false→le _ _ long, to (rw long at h)), λ (n, h). rw long (from h))
      ]

  -- The bug: a response without a key is accepted, whatever its signatures are.
  pub verify_response-NoKey :
      (buffer : Bytes)
      → 12 ≤ length buffer
      → of_type type_dnskey (extract_records buffer) ≡ []
      → verify_response c now buffer ≡ some true
  verify_response-NoKey buffer long none_ = (verify_response_iff buffer).1 (
    long,
    All-everywhere
        (Checked (extract_records buffer).answers (of_type type_dnskey (extract_records buffer)))
        (λ sig rrsig k key parsed some_covered found key_parsed. cc (rw none_ at found))
        (of_type type_rrsig (extract_records buffer)),
  )
