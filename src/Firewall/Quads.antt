-- ===== src/Firewall/Quads.antt =====
-- Dotted quads: how the firewall reads them, and which of them may not be reached.
use zonzon.Base.{
  ℕ, ◌+◌, ◌*◌, ◌<◌, ◌≡◌, refl, sym, ◌∙◌, ◌≢◌, Bool, true, false, ◌&&◌, none, List, [], ◌∷◌, arith,
  ◌==◌, All, all, All-append,
}
use zonzon.Base.Bits.{holds_below, holds_below-test}
use zonzon.Base.Text.{Text, split, join, NoSep, split_of_NoSep, split-join}
use zonzon.Firewall.Address.{
  Number, nan, pos, neg, parse_int, number_of, show_octet, is_octet, is_ipv4, is_digit, group_count,
  split_double, is_ipv6_body, is_ipv6, addresses,
}
use zonzon.Firewall.Cidr.{add_octet, octets_to_int, ip_to_int}
use zonzon.Firewall.{normalize_ip, octets, is_restricted_octets, is_restricted_outbound}

abbrev is_pos : Number → ℕ → Bool
is_pos nan n = false
is_pos (pos m) n = m == n
is_pos (neg m) n = false

octet_table :
    holds_below
      (λ n.
        is_octet (show_octet n)
        && number_of (show_octet n) == n
        && is_pos (parse_int 10 (show_octet n)) n
        && all is_digit (show_octet n))
      256
    ≡ true
unfolding holds_below addresses
octet_table = refl

-- What is known of the text of an octet.
pub record IsShown (n : ℕ) : Type 0 where
  octet : is_octet (show_octet n) ≡ true
  pub number : number_of (show_octet n) ≡ n
  parsed : parse_int 10 (show_octet n) ≡ pos n
  digits : all is_digit (show_octet n) ≡ true

is_pos_sound : (m : Number) (n : ℕ) → is_pos m n ≡ true → m ≡ pos n
is_pos_sound nan n h = cc
is_pos_sound (pos m) n h = ground arith
is_pos_sound (neg m) n h = cc

pub show_octet-IsShown : (n : ℕ) → n < 256 → IsShown n
show_octet-IsShown n h =
    let checked = holds_below-test _ 256 n h octet_table in
    record {
      octet = ground arith;
      number = ground arith;
      parsed = is_pos_sound (parse_int 10 (show_octet n)) n (ground arith);
      digits = ground arith;
    }

digits-NoSep : (sep : ℕ) (s : Text) → is_digit sep ≡ false → all is_digit s ≡ true → NoSep sep s
digits-NoSep sep [] h k = tt
digits-NoSep sep (c ∷ s) h k = (ground arith, digits-NoSep sep s h (ground arith))

split_double_of_NoSep : (s : Text) → NoSep b':' s → split_double s ≡ none
unfolding split_double
split_double_of_NoSep [] h = refl
split_double_of_NoSep (c ∷ []) h = refl
split_double_of_NoSep (c ∷ d ∷ s) h = ground (arith, split_double_of_NoSep (d ∷ s) h.1)

-- Without a colon there is no IPv6 address.
is_ipv6_of_NoSep : (s : Text) → NoSep b':' s → NoSep b'%' s → is_ipv6 s ≡ false
unfolding is_ipv6 is_ipv6_body group_count
is_ipv6_of_NoSep s h k =
    ground (arith, split_of_NoSep b'%' s k, split_double_of_NoSep s h, split_of_NoSep b':' s h)

-- The text of the address a.b.c.d.
pub record IsQuad (a b c d : ℕ) : Type 0 where
  pub first : a < 256
  pub second : b < 256
  pub third : c < 256
  pub fourth : d < 256

abbrev pub parts_of : ℕ → ℕ → ℕ → ℕ → List Text
parts_of a b c d = show_octet a ∷ show_octet b ∷ show_octet c ∷ show_octet d ∷ []

pub quad : ℕ → ℕ → ℕ → ℕ → Text
quad a b c d = join b'.' (parts_of a b c d)

join-NoSep :
    (sep : ℕ) (x : Text) (r : List Text)
    → sep ≢ b'.'
    → All (NoSep sep) (x ∷ r)
    → NoSep sep (join b'.' (x ∷ r))
unfolding join
join-NoSep sep x [] h v = v.0
join-NoSep sep x (y ∷ r) h v =
    All-append (λ c. c ≢ sep) x (b'.' ∷ join b'.' (y ∷ r)) v.0
      ((λ e. h (sym e)), join-NoSep sep y r h v.1)

octets_to_int-shown :
    (int n : ℕ) (rest : List Text)
    → int < 16777216
    → n < 256
    → octets_to_int int (show_octet n ∷ rest) ≡ octets_to_int (int * 256 + n) rest
octets_to_int-shown int n rest h k =
    let e : add_octet int (pos n) ≡ int * 256 + n = omega arith in
    unfold octets_to_int in rw ((show_octet-IsShown n k).parsed, e)

module _ (a b c d : ℕ) (q : IsQuad a b c d) where
  parts-NoSep : (sep : ℕ) → is_digit sep ≡ false → All (NoSep sep) (parts_of a b c d)
  parts-NoSep sep h =
      let shown = λ (n : ℕ) (k : n < 256).
        digits-NoSep sep (show_octet n) h (show_octet-IsShown n k).digits in
      (shown a q.first, (shown b q.second, (shown c q.third, (shown d q.fourth, tt))))

  pub split-quad : split b'.' (quad a b c d) ≡ parts_of a b c d
  unfolding quad
  split-quad = split-join b'.' (show_octet a) _ (parts-NoSep b'.' refl)

  pub quad-is_ipv4 : is_ipv4 (quad a b c d) ≡ true
  unfolding is_ipv4
  quad-is_ipv4 = rw split-quad (
      ground (
        arith,
        (show_octet-IsShown a q.first).octet,
        (show_octet-IsShown b q.second).octet,
        (show_octet-IsShown c q.third).octet,
        (show_octet-IsShown d q.fourth).octet,
      ))

  pub quad-is_ipv6 : is_ipv6 (quad a b c d) ≡ false
  unfolding quad
  quad-is_ipv6 =
      is_ipv6_of_NoSep _ (join-NoSep b':' (show_octet a) _ (omega arith) (parts-NoSep b':' refl))
        (join-NoSep b'%' (show_octet a) _ (omega arith) (parts-NoSep b'%' refl))

  pub normalize_ip-quad : normalize_ip (quad a b c d) ≡ quad a b c d
  unfolding normalize_ip
  normalize_ip-quad = rw quad-is_ipv6

  pub ip_to_int-quad : ip_to_int (quad a b c d) ≡ ((a * 256 + b) * 256 + c) * 256 + d
  unfolding ip_to_int
  ip_to_int-quad = rw split-quad (
      octets_to_int-shown 0 a (show_octet b ∷ show_octet c ∷ show_octet d ∷ []) (omega arith)
        q.first
      ∙ octets_to_int-shown (0 * 256 + a) b (show_octet c ∷ show_octet d ∷ [])
          (omega (arith, q.first)) q.second
      ∙ octets_to_int-shown ((0 * 256 + a) * 256 + b) c (show_octet d ∷ [])
          (omega (arith, q.first, q.second)) q.third
      ∙ octets_to_int-shown (((0 * 256 + a) * 256 + b) * 256 + c) d []
          (omega (arith, q.first, q.second, q.third)) q.fourth
      ∙ omega arith)

  pub is_restricted_outbound-quad : is_restricted_outbound (quad a b c d) ≡ is_restricted_octets a b
  unfolding is_restricted_outbound octets
  is_restricted_outbound-quad =
      rw (normalize_ip-quad, quad-is_ipv6, quad-is_ipv4, split-quad)
        (rw ((show_octet-IsShown a q.first).number, (show_octet-IsShown b q.second).number))
