-- ===== src/Secrets.antt =====
-- `isEncrypted`, `encryptSecret` and `decryptSecret` of packages/core/src/crypto.ts. `Cipher` is
-- AES-256-GCM of node:crypto with the master key: from a nonce and a text the ciphertext in
-- hexadecimal and the tag, and back, `none` where it throws. The nonce that is drawn is an argument.
pub mod RoundTrip
pub mod Tests
use zonzon.Base.{
  ℕ, ◌+◌, ◌*◌, ◌-◌, ◌/◌, ◌%◌, Bool, true, false, ◌&&◌, not, Option, none, some, List, [], ◌∷◌, ◌++◌,
  ltb, leb, ◌==◌, if◌then◌else◌, length,
}
use zonzon.Base.Text.{Text, codes, text_eq, split}
use zonzon.Base.Bytes.{Bytes}

pub record Cipher : Type 0 where
  pub seal : Bytes → Text → Text × Bytes
  pub unseal : Bytes → Bytes → Text → Option Text

abbrev pub hex_digit : ℕ → ℕ
hex_digit n = if ltb n 10 then 48 + n else 87 + n

-- `toString("hex")`
unfoldable pub to_hex : Bytes → Text
to_hex [] = []
to_hex (x ∷ bytes) = hex_digit (x / 16) ∷ hex_digit (x % 16) ∷ to_hex bytes

abbrev pub digit_of : ℕ → Option ℕ
digit_of c =
    if leb b'0' c && leb c b'9'
    then some (c - 48)
    else if leb b'a' c && leb c b'f'
    then some (c - 87)
    else if leb b'A' c && leb c b'F'
    then some (c - 55)
    else none

abbrev pub pair_of : Option ℕ → Option ℕ → Bytes → Bytes
pair_of none low rest = []
pair_of (some high) none rest = []
pair_of (some high) (some low) rest = (high * 16 + low) ∷ rest

-- `Buffer.from(s, "hex")`, which ends at the first pair that is none
unfoldable pub from_hex : Text → Bytes
from_hex [] = []
from_hex (c ∷ []) = []
from_hex (c ∷ d ∷ s) = pair_of (digit_of c) (digit_of d) (from_hex s)

abbrev pub is_sealed : List Text → Bool
is_sealed (version ∷ nonce ∷ tag ∷ ciphertext ∷ []) =
    text_eq version (codes "v1") && length nonce == 24 && length tag == 32
is_sealed (version ∷ nonce ∷ tag ∷ ciphertext ∷ more ∷ parts) = false
is_sealed (version ∷ nonce ∷ tag ∷ []) = false
is_sealed (version ∷ nonce ∷ []) = false
is_sealed (version ∷ []) = false
is_sealed [] = false

unfoldable pub is_encrypted : Text → Bool
is_encrypted value = is_sealed (split b':' value)

-- the parts of an encrypted value: its prefix, nonce, tag and ciphertext
abbrev pub sealed_text : Bytes → Text × Bytes → Text
sealed_text nonce (ciphertext, tag) =
    codes "v1:" ++ (to_hex nonce ++ (b':' ∷ (to_hex tag ++ (b':' ∷ ciphertext))))

module _ (c : Cipher) where
  unfoldable pub encrypt_secret : Bytes → Text → Text
  encrypt_secret nonce plaintext =
      if is_encrypted plaintext then plaintext else sealed_text nonce (c.seal nonce plaintext)

  abbrev pub open_parts : Text → List Text → Option Text
  open_parts encrypted (version ∷ nonce ∷ tag ∷ ciphertext ∷ parts) =
      c.unseal (from_hex nonce) (from_hex tag) ciphertext
  open_parts encrypted (version ∷ nonce ∷ tag ∷ []) = some encrypted
  open_parts encrypted (version ∷ nonce ∷ []) = some encrypted
  open_parts encrypted (version ∷ []) = some encrypted
  open_parts encrypted [] = some encrypted

  -- `none` is a throw
  unfoldable pub decrypt_secret : Text → Option Text
  decrypt_secret encrypted =
      if not (is_encrypted encrypted)
      then some encrypted
      else open_parts encrypted (split b':' encrypted)

unfoldable pub sealing : Unit {0}
unfolding split to_hex from_hex is_encrypted encrypt_secret decrypt_secret
sealing = tt
