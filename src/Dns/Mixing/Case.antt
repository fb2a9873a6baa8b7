-- ===== src/Dns/Mixing/Case.antt =====
-- The mixing of cases touches nothing but the case of letters.
use zonzon.Base.{
  ℕ, zero, suc, ◌+◌, ◌%◌, ◌≤◌, ◌<◌, ◌≡◌, ◌∙◌, refl, sym, ap, true, false, some, List, [], ◌∷◌, map,
  arith, length, set, take, take-set_le, ltb, leb, ◌==◌, ==_iff, if◌then◌else◌, Bool-cases, inl,
  inr, bit_or, bit_and,
}
use zonzon.Base.Bits.{holds_below, holds_below-test}
use zonzon.Base.Text.{lower, to_lower, length-to_lower}
use zonzon.Base.Bytes.{Bytes, byte_at, u16_at}
use zonzon.Wire.{is_pointer}
use zonzon.Dns.Question.Bounds.{extract_questions_bound}
use zonzon.Dns.Question.{ParsedQuestion, extract_questions}
use zonzon.Dns.Mixing.{
  is_letter, mix_byte, mix_label, mix_name, mix_questions, mix_fuel, apply_0x20_encoding,
}

raised_table :
    holds_below (λ c. if is_letter c then lower (bit_or c 0x20) == lower c else true) 0x7b ≡ true
unfolding holds_below lower
raised_table = refl

lowered_table :
    holds_below (λ c. if is_letter c then lower (bit_and c 0xffffffdf) == lower c else true) 0x7b
    ≡ true
unfolding holds_below lower
lowered_table = refl

lower-mix_byte : (entropy c : ℕ) → lower (mix_byte entropy c) ≡ lower c
unfolding mix_byte
lower-mix_byte entropy c = elim (Bool-cases (is_letter c)) [
  | inr other ↦ rw other refl
  | inl letter ↦
      let small : c < 0x7b = ground (arith, letter) in
      let raised = holds_below-test _ 0x7b c small raised_table in
      let lowered = holds_below-test _ 0x7b c small lowered_table in
      elim (Bool-cases (entropy % 2 == 0)) [
        | inl even ↦ rw (letter, even) ((==_iff _ _).0 (rw letter at raised))
        | inr odd ↦ rw (letter, odd) ((==_iff _ _).0 (rw letter at lowered))
      ]
]

lower-set :
    (q : Bytes) (i v : ℕ) → lower v ≡ lower (byte_at q i) → to_lower (set q i v) ≡ to_lower q
lower-set [] i v e = refl
lower-set (b ∷ q) zero v e = ap (λ x. x ∷ to_lower q) e
lower-set (b ∷ q) (suc i) v e = ap (λ t. lower b ∷ t) (lower-set q i v e)

-- The same bytes up to the case of letters, and the same 12 bytes in front.
abbrev Same : Bytes → Bytes → Type 0
Same p q = (to_lower p ≡ to_lower q) × (take 12 p ≡ take 12 q)

Same-trans : (p q r : Bytes) → Same p q → Same q r → Same p r
Same-trans p q r a b = (a.0 ∙ b.0, a.1 ∙ b.1)

Same-length : (p q : Bytes) → Same p q → length p ≡ length q
Same-length p q s = sym (length-to_lower p) ∙ (ap length s.0 ∙ length-to_lower q)

module _ (random : ℕ → ℕ) where
  mix_label-Same : (n offset : ℕ) (q : Bytes) → 12 ≤ offset → Same (mix_label random n offset q) q
  unfolding mix_label
  mix_label-Same zero offset q h = (refl, refl)
  mix_label-Same (suc n) offset q h = elim (Bool-cases (leb (length q) offset)) [
    | inl end ↦ rw end (refl, refl)
    | inr inside ↦
        let mixed = set q offset (mix_byte (random offset) (byte_at q offset)) in
        rw inside (
          Same-trans _ mixed q (mix_label-Same n (offset + 1) mixed (omega arith)) (
            lower-set q offset _ (lower-mix_byte (random offset) (byte_at q offset)),
            take-set_le 12 offset q _ h,
          ))
  ]

  mix_name-Same :
      (fuel offset : ℕ) (q : Bytes)
      → 12 ≤ offset
      → Same (mix_name random fuel offset q).0 q × (12 ≤ (mix_name random fuel offset q).1)
  unfolding mix_name
  mix_name-Same zero offset q h = ((refl, refl), h)
  mix_name-Same (suc fuel) offset q h = elim (Bool-cases (leb (length q) offset)) [
    | inl end ↦ rw end ((refl, refl), h)
    | inr inside ↦ elim (Bool-cases (byte_at q offset == 0)) [
      | inl root ↦ rw (inside, root) ((refl, refl), omega arith)
      | inr more ↦ elim (Bool-cases (is_pointer (byte_at q offset))) [
        | inl pointer ↦ rw (inside, more, pointer) ((refl, refl), omega arith)
        | inr label ↦
            let len = byte_at q offset in
            let mixed = mix_label random len (offset + 1) q in
            let (same, far) = mix_name-Same fuel (offset + 1 + len) mixed (omega arith) in
            rw (inside, more, label)
              (Same-trans _ mixed q same (mix_label-Same len (offset + 1) q (omega arith)), far)
      ]
    ]
  ]

  -- More fuel than there are bytes left changes nothing.
  mix_name_enough :
      (fuel offset : ℕ) (q : Bytes)
      → 12 ≤ offset
      → length q < offset + fuel
      → mix_name random (suc fuel) offset q ≡ mix_name random fuel offset q
  unfolding mix_name
  mix_name_enough zero offset q far h =
      let end : leb (length q) offset ≡ true = ground arith in rw end refl
  mix_name_enough (suc fuel) offset q far h =
      let len = byte_at q offset in
      let size : length (mix_label random len (offset + 1) q) ≡ length q =
        Same-length _ q (mix_label-Same len (offset + 1) q (omega arith)) in
      ap
        (λ (rest : Bytes × ℕ).
          if leb (length q) offset
          then (q, offset)
          else if len == 0
          then (q, offset + 1)
          else if is_pointer len
          then (q, offset + 2)
          else rest)
        (mix_name_enough fuel (offset + 1 + len) (mix_label random len (offset + 1) q) (omega arith)
          (omega (arith, size)))

  mix_questions-Same :
      (n offset : ℕ) (q : Bytes) → 12 ≤ offset → Same (mix_questions random n offset q) q
  unfolding mix_questions
  mix_questions-Same zero offset q h = (refl, refl)
  mix_questions-Same (suc n) offset q h =
      let (same, far) = mix_name-Same (mix_fuel random q) offset q h in
      Same-trans _ _ q (mix_questions-Same n _ _ (ground (arith, far))) same

-- Whatever is drawn, the encoded query has the header of the query and its bytes up to the case of
-- letters, and the expected names are those of its questions.
pub apply_0x20_encoding-mixed :
    (random : ℕ → ℕ) (query : Bytes)
    → 12 ≤ length query
    → (mixed : Bytes) × (qs : List ParsedQuestion) × (apply_0x20_encoding random query
        ≡ some (mixed, map (λ q. q.name) qs))
      × (extract_questions mixed ≡ some qs)
      × (to_lower mixed ≡ to_lower query)
      × (take 12 mixed ≡ take 12 query)
unfolding apply_0x20_encoding
apply_0x20_encoding-mixed random query h =
    let mixed = mix_questions random (u16_at query 4) 12 query in
    let (cased, front) = mix_questions-Same random (u16_at query 4) 12 query (omega arith) in
    let size = Same-length mixed query (cased, front) in
    let (qs, parsed, few) = extract_questions_bound mixed (omega (arith, size)) in
    let long : ltb (length query) 12 ≡ false = ground arith in
    (mixed, qs, rw (long, parsed) refl, parsed, cased, front)
