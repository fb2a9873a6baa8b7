-- ===== src/Wire/Words.antt =====
-- A word that has been written in front of some bytes is read back.
use zonzon.Base.{
  ℕ, ◌+◌, ◌/◌, ◌%◌, ◌≡◌, ap, sym, ◌∙◌, [], ◌∷◌, ◌++◌, arith, append_assoc, length, get_or_at,
  length-append,
}
use zonzon.Base.Bytes.{Bytes, byte_at, u16_at, be16}
use zonzon.Wire.{read_uint16}

pub byte_at-append :
    (pre rest : Bytes) (x i : ℕ) → i ≡ length pre → byte_at (pre ++ (x ∷ rest)) i ≡ x
byte_at-append pre rest x i at = rw at (get_or_at pre rest x 0)

pub byte_at-append_next :
    (pre rest : Bytes) (x y i : ℕ) → i ≡ length pre → byte_at (pre ++ (x ∷ y ∷ rest)) (i + 1) ≡ y
byte_at-append_next pre rest x y i at =
    let e : i + 1 ≡ length (pre ++ (x ∷ [])) = omega (arith, length-append pre (x ∷ [])) in
    rw (e, ← append_assoc pre (x ∷ []) (y ∷ rest)) (get_or_at (pre ++ (x ∷ [])) rest y 0)

pub u16_at-append :
    (pre rest : Bytes) (v i : ℕ) → i ≡ length pre → u16_at (pre ++ (be16 v ++ rest)) i ≡ v
u16_at-append pre rest v i at = omega (
  arith,
  byte_at-append pre (v % 256 ∷ rest) (v / 256) i at,
  byte_at-append_next pre rest (v / 256) (v % 256) i at,
)

pub read_uint16-append :
    (buf pre rest : Bytes) (v i : ℕ)
    → i ≡ length pre
    → buf ≡ pre ++ (be16 v ++ rest)
    → read_uint16 (record { buf = buf; offset = i }) ≡ (v, record { buf = buf; offset = i + 2 })
unfolding read_uint16
read_uint16-append buf pre rest v i at e =
    let value : u16_at buf i ≡ v = rw e (u16_at-append pre rest v i at) in
    ground (arith, ap length e, length-append pre (be16 v ++ rest))

-- The same behind one more chunk.
pub u16_at-after :
    (pre chunk rest : Bytes) (v i : ℕ)
    → i ≡ length pre + length chunk
    → u16_at (pre ++ (chunk ++ (be16 v ++ rest))) i ≡ v
u16_at-after pre chunk rest v i at =
    ap (λ t. u16_at t i) (sym (append_assoc pre chunk (be16 v ++ rest)))
    ∙ u16_at-append (pre ++ chunk) rest v i (at ∙ sym (length-append pre chunk))

pub byte_at-after :
    (pre chunk rest : Bytes) (x i : ℕ)
    → i ≡ length pre + length chunk
    → byte_at (pre ++ (chunk ++ (x ∷ rest))) i ≡ x
byte_at-after pre chunk rest x i at =
    ap (λ t. byte_at t i) (sym (append_assoc pre chunk (x ∷ rest)))
    ∙ byte_at-append (pre ++ chunk) rest x i (at ∙ sym (length-append pre chunk))
