-- ===== src/Sni/Tests.antt =====
-- A ClientHello for `a.b` with one extension in front of the server's name.
use zonzon.Base.{◌≡◌, refl, none, some, [], ◌∷◌, arith, replicate}
use zonzon.Base.Text.{codes}
use zonzon.Base.Bytes.{utf8_text}
use zonzon.Sni.{extract_sni, sniffing}
use zonzon.Sni.ClientHello.{ClientHello, IsHello, hello_bytes, extract_sni-hello_bytes}

abbrev hello : ClientHello
hello = record {
  head = 0x16 ∷ 3 ∷ 1 ∷ 0 ∷ 80 ∷ 0x01 ∷ replicate 37 0;
  session = 5 ∷ 5 ∷ [];
  ciphers = 0x13 ∷ 0x01 ∷ [];
  compression = 0 ∷ [];
  before_name = record { type = 0x2b; body = 2 ∷ 3 ∷ 4 ∷ [] } ∷ [];
  name = codes "a.b";
  behind_name = [];
}

hello-IsHello : IsHello hello
hello-IsHello = record {
  start = refl;
  handshake = refl;
  client_hello = refl;
  session = omega arith;
  ciphers = omega arith;
  compression = omega arith;
  extensions = omega arith;
  others = (record { other = λ e. omega arith; word = omega arith; short = omega arith }, tt);
  few = omega arith;
  name = omega arith;
}

found_name : extract_sni (hello_bytes hello) ≡ some (codes "a.b")
unfolding sniffing
found_name = refl

-- nothing behind the first 43 bytes
cut_off : extract_sni (0x16 ∷ 3 ∷ 1 ∷ 0 ∷ 80 ∷ 0x01 ∷ replicate 37 0) ≡ none
unfolding sniffing
cut_off = refl

extract_sni-hello_bytes_example : extract_sni (hello_bytes hello) ≡ some (utf8_text (codes "a.b"))
extract_sni-hello_bytes_example = extract_sni-hello_bytes hello hello-IsHello
