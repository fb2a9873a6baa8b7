-- ===== src/Base/Bits.antt =====
-- Laws of `bit_and` and `bit_or` from their binary digits: shifts, masks and bounds.
use Prim.Native.Nat.{
  ℕ, zero, suc, ◌+◌, ◌-◌, ◌*◌, ◌/◌, ◌%◌, ◌^◌, ◌≤◌, ◌<◌, min, max, bit_and, bit_or, digits,
  bit_and-bitwise, bit_or-bitwise,
}
use mathlib.Core.Path.{◌≡◌, refl, sym, ap, ◌∙◌}
use mathlib.Core.Logic.{◌↔◌}
use mathlib.Core.Bool.{Bool, true, ◌&&◌}
use native.Mathlib.Omega.{arith}
use native.Mathlib.Nat.{two-pow-succ, pow-succ', div-div-eq-div-mul, eq_of_mul-eq-mul_right}

-- The native operations count down a fuel that begins at their first operand. What is beyond the
-- operand is not used.
module _ (rest : ℕ → ℕ) (op : ℕ → ℕ → ℕ) where
  one_more : (k a b : ℕ) → a ≤ k → digits rest op (suc k) a b ≡ digits rest op k a b
  one_more zero zero b h = refl
  one_more (suc k) zero b h = refl
  one_more zero (suc a) b h = absurd (omega arith)
  one_more (suc k) (suc a) b h = omega (arith, one_more k (suc a / 2) (b / 2) (omega arith))

  spare_fuel : (spare k a b : ℕ) → k ≡ a + spare → digits rest op k a b ≡ digits rest op a a b
  spare_fuel zero k a b e =
      let same : k ≡ a = omega arith in ap (λ fuel. digits rest op fuel a b) same
  spare_fuel (suc spare) zero a b e = absurd (omega arith)
  spare_fuel (suc spare) (suc k) a b e =
      one_more k a b (omega arith) ∙ spare_fuel spare k a b (omega arith)

zero-bit_and : (b : ℕ) → bit_and 0 b ≡ 0
zero-bit_and b = bit_and-bitwise 0 b

zero-bit_or : (b : ℕ) → bit_or 0 b ≡ b
zero-bit_or b = bit_or-bitwise 0 b

pub bit_and-halves : (a b : ℕ) → bit_and a b ≡ bit_and (a / 2) (b / 2) * 2 + min (a % 2) (b % 2)
bit_and-halves zero b = omega (arith, zero-bit_and b, zero-bit_and (b / 2))
bit_and-halves (suc a) b = omega (
  arith,
  bit_and-bitwise (suc a) b,
  bit_and-bitwise (suc a / 2) (b / 2),
  spare_fuel (λ b. zero) min (a - suc a / 2) a (suc a / 2) (b / 2) (omega arith),
)

pub bit_or-halves : (a b : ℕ) → bit_or a b ≡ bit_or (a / 2) (b / 2) * 2 + max (a % 2) (b % 2)
bit_or-halves zero b = omega (arith, zero-bit_or b, zero-bit_or (b / 2))
bit_or-halves (suc a) b = omega (
  arith,
  bit_or-bitwise (suc a) b,
  bit_or-bitwise (suc a / 2) (b / 2),
  spare_fuel (λ b. b) max (a - suc a / 2) a (suc a / 2) (b / 2) (omega arith),
)

pub bit_or-zero : (n a : ℕ) → a ≤ n → bit_or a 0 ≡ a
bit_or-zero n zero h = zero-bit_or 0
bit_or-zero zero (suc a) h = absurd (omega arith)
bit_or-zero (suc n) (suc a) h =
    omega (arith, bit_or-halves (suc a) 0, bit_or-zero n (suc a / 2) (omega arith))

-- A union of two k-bit words is a k-bit word.
pub bit_or-lt : (k a b : ℕ) → a < 2 ^ k → b < 2 ^ k → bit_or a b < 2 ^ k
bit_or-lt zero zero b p q = rw (zero-bit_or b) q
bit_or-lt zero (suc a) b p q = absurd (omega arith)
bit_or-lt (suc k) a b p q = omega (
  arith,
  bit_or-halves a b,
  two-pow-succ k,
  bit_or-lt k (a / 2) (b / 2) (omega (arith, two-pow-succ k)) (omega (arith, two-pow-succ k)),
)

-- A masked number is at most the mask, and at most itself.
pub bit_and-le : (n a b : ℕ) → a ≤ n → bit_and a b ≤ b
bit_and-le n zero b h = omega (arith, zero-bit_and b)
bit_and-le zero (suc a) b h = absurd (omega arith)
bit_and-le (suc n) (suc a) b h =
    omega (arith, bit_and-halves (suc a) b, bit_and-le n (suc a / 2) (b / 2) (omega arith))

pub bit_and-zero : (n a : ℕ) → a ≤ n → bit_and a 0 ≡ 0
bit_and-zero n a h = omega (arith, bit_and-le n a 0 h)

pub bit_and-le_left : (n a b : ℕ) → a ≤ n → bit_and a b ≤ a
bit_and-le_left n zero b h = omega (arith, zero-bit_and b)
bit_and-le_left zero (suc a) b h = absurd (omega arith)
bit_and-le_left (suc n) (suc a) b h =
    omega (arith, bit_and-halves (suc a) b, bit_and-le_left n (suc a / 2) (b / 2) (omega arith))

-- The bit of weight 2 ^ k.
abbrev pub bit : ℕ → ℕ → ℕ
bit zero a = a % 2
bit (suc k) a = bit k (a / 2)

pub bit-bit_or : (k a b : ℕ) → bit k (bit_or a b) ≡ max (bit k a) (bit k b)
bit-bit_or zero a b = omega (arith, bit_or-halves a b)
bit-bit_or (suc k) a b =
    let e : bit_or a b / 2 ≡ bit_or (a / 2) (b / 2) = omega (arith, bit_or-halves a b) in
    rw e (bit-bit_or k (a / 2) (b / 2))

pub bit-bit_and : (k a b : ℕ) → bit k (bit_and a b) ≡ min (bit k a) (bit k b)
bit-bit_and zero a b = omega (arith, bit_and-halves a b)
bit-bit_and (suc k) a b =
    let e : bit_and a b / 2 ≡ bit_and (a / 2) (b / 2) = omega (arith, bit_and-halves a b) in
    rw e (bit-bit_and k (a / 2) (b / 2))

pub pow-pos : (k : ℕ) → 1 ≤ 2 ^ k
pow-pos zero = omega arith
pow-pos (suc k) = omega (arith, two-pow-succ k, pow-pos k)

div-pow-suc : (k a : ℕ) → a / 2 ^ suc k ≡ a / 2 / 2 ^ k
div-pow-suc k a = rw pow-succ' (sym (div-div-eq-div-mul a 2 (2 ^ k)))

bit_and-ones : (w a : ℕ) → a < 2 ^ w → bit_and a (2 ^ w - 1) ≡ a
bit_and-ones zero a h = omega (arith, bit_and-zero a a (omega arith))
bit_and-ones (suc w) a h =
    let odd : 2 ^ suc w - 1 ≡ (2 ^ w - 1) * 2 + 1 = omega (arith, two-pow-succ w, pow-pos w) in
    let half : (2 ^ suc w - 1) / 2 ≡ 2 ^ w - 1 = omega arith in
    omega (
      arith,
      bit_and-halves a (2 ^ suc w - 1),
      ap (bit_and (a / 2)) half,
      bit_and-ones w (a / 2) (omega (arith, two-pow-succ w)),
    )

-- Masking a w-bit word by the mask whose k low bits are off clears those bits.
pub bit_and-high_mask :
    (k w a : ℕ) → k ≤ w → a < 2 ^ w → bit_and a (2 ^ w - 2 ^ k) ≡ a / 2 ^ k * 2 ^ k
bit_and-high_mask zero w a l h = omega (arith, bit_and-ones w a h)
bit_and-high_mask (suc k) zero a l h = absurd (omega arith)
bit_and-high_mask (suc k) (suc w) a l h =
    let even : 2 ^ suc w - 2 ^ suc k ≡ (2 ^ w - 2 ^ k) * 2 =
      omega (arith, two-pow-succ w, two-pow-succ k) in
    let half : (2 ^ suc w - 2 ^ suc k) / 2 ≡ 2 ^ w - 2 ^ k = omega arith in
    let ih = bit_and-high_mask k w (a / 2) (omega arith) (omega (arith, two-pow-succ w)) in
    omega (
      arith,
      bit_and-halves a (2 ^ suc w - 2 ^ suc k),
      ap (bit_and (a / 2)) half,
      ih,
      ap (λ (t : ℕ). t * 2 ^ suc k) (div-pow-suc k a),
      ap (λ (t : ℕ). a / 2 / 2 ^ k * t) (two-pow-succ k),
    )

-- Two words agree under that mask exactly when they agree above the k low bits.
pub high_mask-eq_iff :
    (k w a b : ℕ)
    → k ≤ w
    → a < 2 ^ w
    → b < 2 ^ w
    → (bit_and a (2 ^ w - 2 ^ k) ≡ bit_and b (2 ^ w - 2 ^ k)) ↔ (a / 2 ^ k ≡ b / 2 ^ k)
high_mask-eq_iff k w a b l p q = (
  λ e.
      eq_of_mul-eq-mul_right (2 ^ k) (pow-pos k) _ _
        (sym (bit_and-high_mask k w a l p) ∙ e ∙ bit_and-high_mask k w b l q),
  λ e. rw (bit_and-high_mask k w a l p, bit_and-high_mask k w b l q, e),
)

pub bit-le : (k a : ℕ) → bit k a ≤ 1
bit-le zero a = omega arith
bit-le (suc k) a = bit-le k (a / 2)

-- A test of the numbers below a bound, decided by running it on each.
unfoldable pub holds_below : (test : ℕ → Bool) (bound : ℕ) → Bool
holds_below test zero = true
holds_below test (suc last) = holds_below test last && test last

pub holds_below-test :
    (test : ℕ → Bool) (bound i : ℕ) → i < bound → holds_below test bound ≡ true → test i ≡ true
unfolding holds_below
holds_below-test test zero i less h = absurd (omega arith)
holds_below-test test (suc last) i less h = ground (arith, holds_below-test test last i)
