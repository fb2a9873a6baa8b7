-- ===== src/Secrets/Tests.antt =====
-- A secret, and the theorem at it.
use zonzon.Base.{◌≡◌, refl, false, some, arith, replicate}
use zonzon.Base.Text.{codes}
use zonzon.Secrets.{Cipher, is_encrypted, encrypt_secret, decrypt_secret, sealing}
use zonzon.Secrets.RoundTrip.{decrypt-encrypt_secret}

-- here the ciphertext is the text, and the tag is always the same
abbrev cipher : Cipher
cipher = record {
  seal = λ nonce plaintext. (plaintext, replicate 16 0xab);
  unseal = λ nonce tag ciphertext. some ciphertext;
}

encrypted :
    encrypt_secret cipher (replicate 12 1) (codes "secret")
    ≡ codes "v1:010101010101010101010101:abababababababababababababababab:secret"
unfolding sealing
encrypted = refl

plain : is_encrypted (codes "v1:a:b:c") ≡ false
unfolding sealing
plain = refl

secret_plain : is_encrypted (codes "secret") ≡ false
unfolding sealing
secret_plain = refl

decrypt-encrypt_secret_example :
    (decrypt_secret cipher (encrypt_secret cipher (replicate 12 1) (codes "secret"))
      ≡ some (codes "secret"))
    × (encrypt_secret cipher
          (replicate 12 2)
          (encrypt_secret cipher (replicate 12 1) (codes "secret"))
        ≡ encrypt_secret cipher (replicate 12 1) (codes "secret"))
decrypt-encrypt_secret_example =
    decrypt-encrypt_secret cipher (replicate 12 1) (replicate 12 2) (codes "secret") secret_plain
      (omega arith, refl, omega arith, refl, ground arith) refl
