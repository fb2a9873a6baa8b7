-- ===== src/Base/Text.antt =====
-- JavaScript strings as lists of UTF-16 code units, with the string functions that the program
-- uses. `to_lower` changes the letters A to Z only: the case of other alphabets is left alone.
use Prim.Native.Nat.{ℕ, suc, ◌+◌}
use Prim.Native.Char.{code}
use Prim.Native.String.{String}
use mathlib.Core.Path.{◌≡◌, refl, ap, ap₂, ◌∙◌}
use mathlib.Core.Logic.{◌↔◌, ◌≢◌, inl, inr}
use mathlib.Core.Bool.{Bool, true, false, ◌&&◌, ◌||◌}
use mathlib.Core.List.{List, [], ◌∷◌, ◌++◌, map}
use native.Mathlib.Omega.{arith}
use zonzon.Base.Tests.{leb, ◌==◌, if◌then◌else◌, Bool-cases}
use zonzon.Base.Lists.{length, drop, All}

abbrev pub Text : Type 0
Text = List ℕ

-- a literal of the source
abbrev pub codes : String → Text
codes String.[] = []
codes (String.◌∷◌ c s) = code c ∷ codes s

abbrev pub text_eq : Text → Text → Bool
text_eq [] [] = true
text_eq [] (d ∷ t) = false
text_eq (c ∷ s) [] = false
text_eq (c ∷ s) (d ∷ t) = c == d && text_eq s t

pub text_eq_sound : (s t : Text) → text_eq s t ≡ true → s ≡ t
text_eq_sound [] [] h = refl
text_eq_sound [] (d ∷ t) h = cc
text_eq_sound (c ∷ s) [] h = cc
text_eq_sound (c ∷ s) (d ∷ t) h = ground (arith, text_eq_sound s t)

pub text_eq_refl : (s : Text) → text_eq s s ≡ true
text_eq_refl [] = refl
text_eq_refl (c ∷ s) = ground (arith, text_eq_refl s)

pub text_eq_iff : (s t : Text) → (text_eq s t ≡ true) ↔ (s ≡ t)
text_eq_iff s t = (text_eq_sound s t, λ e. rw e (text_eq_refl t))

-- `list.includes(s)`
abbrev pub includes : List Text → Text → Bool
includes [] s = false
includes (t ∷ ts) s = text_eq t s || includes ts s

abbrev pub is_upper : ℕ → Bool
is_upper c = leb b'A' c && leb c b'Z'

unfoldable pub lower : ℕ → ℕ
lower c = if is_upper c then c + 32 else c

abbrev pub to_lower : Text → Text
to_lower = map lower

pub lower_idem : (c : ℕ) → lower (lower c) ≡ lower c
unfolding lower
lower_idem c = ground arith

pub to_lower_idem : (s : Text) → to_lower (to_lower s) ≡ to_lower s
to_lower_idem [] = refl
to_lower_idem (c ∷ s) = ap₂ ◌∷◌ (lower_idem c) (to_lower_idem s)

pub length-to_lower : (s : Text) → length (to_lower s) ≡ length s
length-to_lower [] = refl
length-to_lower (c ∷ s) = ap suc (length-to_lower s)

abbrev pub push_head : ℕ → List Text → List Text
push_head c [] = (c ∷ []) ∷ []
push_head c (l ∷ ls) = (c ∷ l) ∷ ls

-- `s.split(sep)`, at a separator of one code unit
unfoldable pub split : ℕ → Text → List Text
split sep [] = [] ∷ []
split sep (c ∷ s) = if c == sep then [] ∷ split sep s else push_head c (split sep s)

-- `parts.join(sep)`
unfoldable pub join : ℕ → List Text → Text
join sep [] = []
join sep (x ∷ []) = x
join sep (x ∷ y ∷ r) = x ++ (sep ∷ join sep (y ∷ r))

-- `s.startsWith(p)`
abbrev pub starts_with : Text → Text → Bool
starts_with s [] = true
starts_with [] (d ∷ p) = false
starts_with (c ∷ s) (d ∷ p) = c == d && starts_with s p

-- `s.endsWith(t)`
abbrev pub ends_with : Text → Text → Bool
ends_with [] t = text_eq [] t
ends_with (c ∷ s) t = text_eq (c ∷ s) t || ends_with s t

-- `s.replace(/\.$/, "")`
unfoldable pub strip_dot : Text → Text
strip_dot [] = []
strip_dot (c ∷ []) = if c == b'.' then [] else c ∷ []
strip_dot (c ∷ d ∷ s) = c ∷ strip_dot (d ∷ s)

-- `s.toLowerCase().replace(/\.$/, "")`
unfoldable pub normalize_host : Text → Text
unfolding strip_dot lower
normalize_host s = strip_dot (to_lower s)

-- `s.includes(part)`
unfoldable pub has_part : Text → Text → Bool
has_part [] part = starts_with [] part
has_part (c ∷ s) part = starts_with (c ∷ s) part || has_part s part

pub starts_with_sound : (s p : Text) → starts_with s p ≡ true → s ≡ p ++ drop (length p) s
starts_with_sound s [] h = refl
starts_with_sound [] (d ∷ p) h = cc
starts_with_sound (c ∷ s) (d ∷ p) h = ground (arith, starts_with_sound s p)

pub starts_with_append : (p s : Text) → starts_with (p ++ s) p ≡ true
starts_with_append [] s = refl
starts_with_append (d ∷ p) s = ground (arith, starts_with_append p s)

pub ends_with_sound : (s t : Text) → ends_with s t ≡ true → (u : Text) × (s ≡ u ++ t)
ends_with_sound [] t h = ([], text_eq_sound [] t h)
ends_with_sound (c ∷ s) t h = elim (Bool-cases (text_eq (c ∷ s) t)) [
  | inl same ↦ ([], text_eq_sound (c ∷ s) t same)
  | inr other ↦ let (u, e) = ends_with_sound s t (ground arith) in (c ∷ u, ap (◌∷◌ c) e)
]

ends_with_refl : (t : Text) → ends_with t t ≡ true
ends_with_refl [] = refl
ends_with_refl (c ∷ t) = ground (arith, text_eq_refl t)

pub ends_with_append : (u t : Text) → ends_with (u ++ t) t ≡ true
ends_with_append [] t = ends_with_refl t
ends_with_append (c ∷ u) t = ground (arith, ends_with_append u t)

abbrev pub NoSep : ℕ → Text → Type 0
NoSep sep = All (λ c. c ≢ sep)

pub split_of_NoSep : (sep : ℕ) (s : Text) → NoSep sep s → split sep s ≡ s ∷ []
unfolding split
split_of_NoSep sep [] h = refl
split_of_NoSep sep (c ∷ s) h = ground (arith, split_of_NoSep sep s h.1)

pub split-append_sep :
    (sep : ℕ) (s t : Text) → NoSep sep s → split sep (s ++ (sep ∷ t)) ≡ s ∷ split sep t
unfolding split
split-append_sep sep [] t h = ground arith
split-append_sep sep (c ∷ s) t h = ground (arith, split-append_sep sep s t h.1)

-- Splitting undoes joining, for parts without the separator.
pub split-join :
    (sep : ℕ) (x : Text) (r : List Text)
    → All (NoSep sep) (x ∷ r)
    → split sep (join sep (x ∷ r)) ≡ x ∷ r
unfolding join
split-join sep x [] h = split_of_NoSep sep x h.0
split-join sep x (y ∷ r) h =
    split-append_sep sep x (join sep (y ∷ r)) h.0 ∙ ap (◌∷◌ x) (split-join sep y r h.1)

join-push_head :
    (sep c : ℕ) (ls : List Text) → ls ≢ [] → join sep (push_head c ls) ≡ c ∷ join sep ls
unfolding join
join-push_head sep c [] h = absurd (h refl)
join-push_head sep c (l ∷ []) h = refl
join-push_head sep c (l ∷ m ∷ r) h = refl

pub split-ne-nil : (sep : ℕ) (s : Text) → split sep s ≢ []
unfolding split
split-ne-nil sep [] = cc
split-ne-nil sep (c ∷ s) = ground (arith, split-ne-nil sep s)

join-cons_nil : (sep : ℕ) (ls : List Text) → ls ≢ [] → join sep ([] ∷ ls) ≡ sep ∷ join sep ls
unfolding join
join-cons_nil sep [] h = absurd (h refl)
join-cons_nil sep (l ∷ r) h = refl

-- Joining undoes splitting, for every text.
pub join-split : (sep : ℕ) (s : Text) → join sep (split sep s) ≡ s
unfolding split join
join-split sep [] = refl
join-split sep (c ∷ s) = ground (
  arith,
  join-split sep s,
  join-cons_nil sep (split sep s) (split-ne-nil sep s),
  join-push_head sep c (split sep s) (split-ne-nil sep s),
)

pub split-NoSep : (sep : ℕ) (s : Text) → All (NoSep sep) (split sep s)
unfolding split
split-NoSep sep [] = (tt, tt)
split-NoSep sep (c ∷ s) = ground (arith, split-NoSep sep s)
