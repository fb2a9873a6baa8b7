-- ===== src/Secrets/RoundTrip.antt =====
-- What is encrypted is decrypted to what it was, and is not encrypted again.
use mathlib.Core.Path.{ap₂}
use zonzon.Base.{
  ℕ, ◌+◌, ◌*◌, ◌/◌, ◌%◌, ◌≡◌, ◌≢◌, ◌<◌, refl, ap, ◌∙◌, true, false, some, [], ◌∷◌, ◌++◌, ◌==◌,
  length, arith,
}
use zonzon.Base.Text.{Text, codes, split, NoSep, split-append_sep, split_of_NoSep}
use zonzon.Base.Bytes.{Bytes, IsBytes}
use zonzon.Secrets.{
  Cipher, hex_digit, to_hex, digit_of, from_hex, is_encrypted, sealed_text, encrypt_secret,
  decrypt_secret,
}

hex_digit-digit_of : (n : ℕ) → n < 16 → digit_of (hex_digit n) ≡ some n
hex_digit-digit_of n h = ground arith

hex_digit-ne : (n : ℕ) → n < 16 → hex_digit n ≢ b':'
hex_digit-ne n h = ground arith

to_hex-NoSep : (bytes : Bytes) → IsBytes bytes → NoSep b':' (to_hex bytes)
unfolding to_hex
to_hex-NoSep [] h = tt
to_hex-NoSep (x ∷ bytes) h = (
  hex_digit-ne (x / 16) (omega (arith, h.0)),
  (hex_digit-ne (x % 16) (omega arith), to_hex-NoSep bytes h.1),
)

from_hex-to_hex : (bytes : Bytes) → IsBytes bytes → from_hex (to_hex bytes) ≡ bytes
unfolding to_hex from_hex
from_hex-to_hex [] h = refl
from_hex-to_hex (x ∷ bytes) h =
    let high = hex_digit-digit_of (x / 16) (omega (arith, h.0)) in
    let low = hex_digit-digit_of (x % 16) (omega arith) in
    let whole : x / 16 * 16 + x % 16 ≡ x = omega arith in
    rw (high, low, from_hex-to_hex bytes h.1) (ap (λ t. t ∷ bytes) whole)

length-to_hex : (bytes : Bytes) → length (to_hex bytes) ≡ 2 * length bytes
unfolding to_hex
length-to_hex [] = refl
length-to_hex (x ∷ bytes) = omega (arith, length-to_hex bytes)

-- the parts of a value that was encrypted
split_sealed :
    (nonce tag : Bytes) (ciphertext : Text)
    → IsBytes nonce
    → IsBytes tag
    → NoSep b':' ciphertext
    → split b':' (sealed_text nonce (ciphertext, tag))
      ≡ codes "v1" ∷ to_hex nonce ∷ to_hex tag ∷ ciphertext ∷ []
split_sealed nonce tag ciphertext n t c =
    split-append_sep b':' (codes "v1")
      (to_hex nonce ++ (b':' ∷ (to_hex tag ++ (b':' ∷ ciphertext))))
      (ground arith, (ground arith, tt))
    ∙ ap (λ l. codes "v1" ∷ l)
        (split-append_sep b':' (to_hex nonce) (to_hex tag ++ (b':' ∷ ciphertext))
            (to_hex-NoSep nonce n)
          ∙ ap (λ l. to_hex nonce ∷ l)
              (split-append_sep b':' (to_hex tag) ciphertext (to_hex-NoSep tag t)
                ∙ ap (λ l. to_hex tag ∷ l) (split_of_NoSep b':' ciphertext c)))

-- What the cipher makes of a text with a nonce of 12 bytes: a ciphertext without colons and a tag
-- of 16 bytes.
abbrev pub IsSealed : Bytes → Text × Bytes → Type 0
IsSealed nonce (ciphertext, tag) =
    IsBytes nonce × (length nonce ≡ 12) × IsBytes tag × (length tag ≡ 16) × NoSep b':' ciphertext

pub sealed-is_encrypted :
    (nonce : Bytes) (sealed : Text × Bytes)
    → IsSealed nonce sealed
    → is_encrypted (sealed_text nonce sealed) ≡ true
unfolding is_encrypted
sealed-is_encrypted nonce (ciphertext, tag) (n, ln, t, lt, c) =
    let long : (length (to_hex nonce) == 24) ≡ true = ground (arith, length-to_hex nonce) in
    let wide : (length (to_hex tag) == 32) ≡ true = ground (arith, length-to_hex tag) in
    rw (split_sealed nonce tag ciphertext n t c, long, wide) refl

module _ (c : Cipher) where
  -- A secret that is encrypted is decrypted to itself, where the cipher opens what it has sealed
  -- with that nonce; and it is not encrypted a second time, whatever nonce is drawn.
  pub decrypt-encrypt_secret :
      (nonce other : Bytes) (plaintext : Text)
      → is_encrypted plaintext ≡ false
      → IsSealed nonce (c.seal nonce plaintext)
      → c.unseal nonce (c.seal nonce plaintext).1 (c.seal nonce plaintext).0 ≡ some plaintext
      → (decrypt_secret c (encrypt_secret c nonce plaintext) ≡ some plaintext)
        × (encrypt_secret c other (encrypt_secret c nonce plaintext)
            ≡ encrypt_secret c nonce plaintext)
  unfolding encrypt_secret decrypt_secret
  decrypt-encrypt_secret nonce other plaintext plain s opens =
      let (n, _, t, _, k) = s in
      let (ciphertext, tag) = c.seal nonce plaintext in
      let sealed = sealed-is_encrypted nonce (c.seal nonce plaintext) s in
      rw (plain, sealed)
        (
          rw (split_sealed nonce tag ciphertext n t k) (
              ap₂ (λ a b. c.unseal a b ciphertext) (from_hex-to_hex nonce n) (from_hex-to_hex tag t)
              ∙ opens),
          refl,
        )
