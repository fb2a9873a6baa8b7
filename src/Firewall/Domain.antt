-- ===== src/Firewall/Domain.antt =====
-- `matchDomain`, and the domains that a pattern covers.
use zonzon.Base.{
  ◌≡◌, ◌↔◌, inl, inr, Bool, true, false, ◌∷◌, ◌++◌, arith, if◌then◌else◌, drop, Bool-cases,
}
use zonzon.Base.Text.{
  Text, codes, text_eq, text_eq_iff, text_eq_sound, starts_with, starts_with_sound,
  starts_with_append, ends_with, ends_with_sound, ends_with_append, normalize_host,
}

abbrev pub star : Text
star = codes "*"

abbrev pub star_dot : Text
star_dot = codes "*."

unfoldable pub match_domain : Text → Text → Bool
match_domain domain pattern =
    if text_eq pattern star
    then true
    else (let norm_domain = normalize_host domain in
        let norm_pattern = normalize_host pattern in
        if text_eq norm_pattern norm_domain
        then true
        else if starts_with norm_pattern star_dot
        then ends_with norm_domain (b'.' ∷ drop 2 norm_pattern)
        else false)

-- What a pattern means: everything, one name, or the names below a suffix. Names are compared
-- without their case and without a dot at their end.
pub data Covers (pattern domain : Text) : Type 0 where
  everything : pattern ≡ star → Covers pattern domain
  itself : normalize_host pattern ≡ normalize_host domain → Covers pattern domain
  below :
      (suffix labels : Text)
      → normalize_host pattern ≡ star_dot ++ suffix
      → normalize_host domain ≡ labels ++ (b'.' ∷ suffix)
      → Covers pattern domain

match_domain-Covers :
    (domain pattern : Text) → match_domain domain pattern ≡ true → Covers pattern domain
unfolding match_domain
match_domain-Covers domain pattern h = elim (Bool-cases (text_eq pattern star)) [
  | inl all ↦ everything (text_eq_sound pattern star all)
  | inr some_only ↦ elim (Bool-cases (text_eq (normalize_host pattern) (normalize_host domain))) [
    | inl same ↦ itself (text_eq_sound _ _ same)
    | inr other ↦ elim (Bool-cases (starts_with (normalize_host pattern) star_dot)) [
      | inl wild ↦
          let suffix = drop 2 (normalize_host pattern) in
          let (labels, e) =
            ends_with_sound (normalize_host domain) (b'.' ∷ suffix) (ground arith) in
          below suffix labels (starts_with_sound (normalize_host pattern) star_dot wild) e
      | inr plain ↦ absurd (ground arith)
    ]
  ]
]

Covers-match_domain :
    (domain pattern : Text) → Covers pattern domain → match_domain domain pattern ≡ true
unfolding match_domain
Covers-match_domain domain pattern (everything e) = rw e
Covers-match_domain domain pattern (itself e) =
    let same = (text_eq_iff (normalize_host pattern) (normalize_host domain)).1 e in ground arith
Covers-match_domain domain pattern (below suffix labels p d) =
    let tail = ends_with_append labels (b'.' ∷ suffix) in
    rw (p, d) (ground (arith, starts_with_append star_dot suffix))

-- The matcher accepts a domain exactly when the pattern covers it.
pub match_domain_iff :
    (domain pattern : Text) → (match_domain domain pattern ≡ true) ↔ Covers pattern domain
match_domain_iff domain pattern =
    (match_domain-Covers domain pattern, Covers-match_domain domain pattern)
