-- ===== src/Dns/Mixing/Tests.antt =====
-- A query with its name in mixed case.
use zonzon.Base.{ℕ, ◌≡◌, refl, some, List, [], ◌∷◌, map, arith, take}
use zonzon.Base.Text.{codes, to_lower}
use zonzon.Base.Bytes.{Bytes}
use zonzon.Dns.Question.{ParsedQuestion, extract_questions}
use zonzon.Dns.Mixing.{apply_0x20_encoding, mixing}
use zonzon.Dns.Mixing.Case.{apply_0x20_encoding-mixed}

abbrev query : Bytes
query =
    0 ∷ 1 ∷ 1 ∷ 0 ∷ 0 ∷ 1 ∷ 0 ∷ 0 ∷ 0 ∷ 0 ∷ 0 ∷ 0 ∷ 2 ∷ b'a' ∷ b'B' ∷ 1 ∷ b'7' ∷ 0 ∷ 0 ∷ 1 ∷ 0 ∷ 1
    ∷ []

-- the byte drawn for a position is the position: the letter at 13 is raised, that at 14 lowered
abbrev position : ℕ → ℕ
position i = i

mixed_query :
    apply_0x20_encoding position query
    ≡ some (
      0 ∷ 1 ∷ 1 ∷ 0 ∷ 0 ∷ 1 ∷ 0 ∷ 0 ∷ 0 ∷ 0 ∷ 0 ∷ 0 ∷ 2 ∷ b'A' ∷ b'b' ∷ 1 ∷ b'7' ∷ 0 ∷ 0 ∷ 1 ∷ 0 ∷ 1
          ∷ [],
      codes "Ab.7" ∷ [],
    )
unfolding mixing
mixed_query = refl

apply_0x20_encoding-mixed_example :
    (mixed : Bytes) × (qs : List ParsedQuestion) × (apply_0x20_encoding position query
      ≡ some (mixed, map (λ q. q.name) qs))
    × (extract_questions mixed ≡ some qs)
    × (to_lower mixed ≡ to_lower query)
    × (take 12 mixed ≡ take 12 query)
apply_0x20_encoding-mixed_example = apply_0x20_encoding-mixed position query (omega arith)
