-- ===== src/Firewall/Address.antt =====
-- What the firewall uses of JavaScript and Node to read addresses: `parseInt`, `Number` of a
-- decimal string, `net.isIPv4` and `net.isIPv6`. Numbers are exact, as doubles are up to 2 ^ 53.
use zonzon.Base.{
  ℕ, ◌+◌, ◌-◌, ◌*◌, ◌/◌, ◌%◌, Bool, true, false, ◌&&◌, ◌||◌, not, Option, none, some, List, [], ◌∷◌,
  ltb, leb, ◌==◌, if◌then◌else◌, length, all,
}
use zonzon.Base.Text.{Text, split}

-- `neg n` is -n
pub data Number : Type 0 where
  nan : Number
  pos : ℕ → Number
  neg : ℕ → Number

abbrev pub is_nan : Number → Bool
is_nan nan = true
is_nan (pos n) = false
is_nan (neg n) = false

-- `n >>> 0`
abbrev pub to_uint32 : Number → ℕ
to_uint32 nan = 0
to_uint32 (pos n) = n % 4294967296
to_uint32 (neg n) = (4294967296 - n % 4294967296) % 4294967296

abbrev is_space : ℕ → Bool
is_space c =
    (leb 9 c && leb c 13)
    || c == 32
    || c == 160
    || c == 0x1680
    || (leb 0x2000 c && leb c 0x200a)
    || c == 0x2028
    || c == 0x2029
    || c == 0x202f
    || c == 0x205f
    || c == 0x3000
    || c == 0xfeff

unfoldable pub skip_spaces : Text → Text
skip_spaces [] = []
skip_spaces (c ∷ s) = if is_space c then skip_spaces s else c ∷ s

abbrev pub is_digit : ℕ → Bool
is_digit c = leb b'0' c && leb c b'9'

-- the value of a digit or letter; 99 stands for no digit
unfoldable pub digit_value : ℕ → ℕ
digit_value c =
    if is_digit c
    then c - 48
    else if leb b'a' c && leb c b'z'
    then c - 87
    else if leb b'A' c && leb c b'Z'
    then c - 55
    else 99

unfoldable pub digits_from : ℕ → Option ℕ → Text → Option ℕ
digits_from radix seen [] = seen
digits_from radix none (c ∷ s) =
    let more = digits_from radix (some (digit_value c)) s in
    if ltb (digit_value c) radix then more else none
digits_from radix (some n) (c ∷ s) =
    let more = digits_from radix (some (n * radix + digit_value c)) s in
    if ltb (digit_value c) radix then more else some n

abbrev signed : Bool → Option ℕ → Number
signed negative none = nan
signed true (some n) = neg n
signed false (some n) = pos n

-- `0x` in front of hexadecimal digits
abbrev skip_0x : ℕ → Text → Text
skip_0x radix [] = []
skip_0x radix (c ∷ []) = c ∷ []
skip_0x radix (c ∷ d ∷ s) =
    if radix == 16 && c == b'0' && (d == b'x' || d == b'X') then s else c ∷ d ∷ s

abbrev unsigned : ℕ → Bool → Text → Number
unsigned radix negative s = signed negative (digits_from radix none (skip_0x radix s))

abbrev with_sign : ℕ → Text → Number
with_sign radix [] = nan
with_sign radix (c ∷ s) =
    if c == b'-'
    then unsigned radix true s
    else if c == b'+'
    then unsigned radix false s
    else unsigned radix false (c ∷ s)

-- `parseInt(s, radix)`
unfoldable pub parse_int : ℕ → Text → Number
parse_int radix s = with_sign radix (skip_spaces s)

abbrev value_or : Option ℕ → ℕ
value_or none = 0
value_or (some n) = n

-- `Number(s)` of a string of decimal digits
unfoldable pub number_of : Text → ℕ
number_of s = value_or (digits_from 10 none s)

-- `String(n)` of an octet
unfoldable pub show_octet : ℕ → Text
show_octet n =
    if ltb n 10
    then (48 + n) ∷ []
    else if ltb n 100
    then (48 + n / 10) ∷ (48 + n % 10) ∷ []
    else (48 + n / 100) ∷ (48 + n / 10 % 10) ∷ (48 + n % 10) ∷ []

-- An octet of `net.isIPv4`: 0 to 255, without leading zeros.
unfoldable pub is_octet : Text → Bool
is_octet [] = false
is_octet (c ∷ []) = is_digit c
is_octet (c ∷ d ∷ s) =
    is_digit c
    && not (c == b'0')
    && all is_digit (d ∷ s)
    && leb (length s) 1
    && leb (number_of (c ∷ d ∷ s)) 255

abbrev four_octets : List Text → Bool
four_octets (a ∷ b ∷ c ∷ d ∷ []) = is_octet a && is_octet b && is_octet c && is_octet d
four_octets parts = false

-- `net.isIPv4`
unfoldable pub is_ipv4 : Text → Bool
is_ipv4 s = four_octets (split b'.' s)

-- a group of `net.isIPv6`: 1 to 4 hexadecimal digits
unfoldable pub is_group : Text → Bool
is_group s = leb 1 (length s) && leb (length s) 4 && all (λ c. ltb (digit_value c) 16) s

-- How many of the eight groups a list of groups fills, an IPv4 address at its end counting twice
-- where `quad` allows one; none if a group is malformed.
unfoldable pub group_count : Bool → List Text → Option ℕ
group_count quad [] = some 0
group_count quad (g ∷ []) =
    if is_group g then some 1 else if quad && is_ipv4 g then some 2 else none
group_count quad (g ∷ h ∷ r) = elim (group_count quad (h ∷ r)) [
  | none ↦ none
  | some n ↦ if is_group g then some (n + 1) else none
]

-- the groups on one side of `::`
abbrev side : Text → List Text
side [] = []
side (c ∷ s) = split b':' (c ∷ s)

-- the text before and behind the first `::`
unfoldable pub split_double : Text → Option (Text × Text)
split_double [] = none
split_double (c ∷ []) = none
split_double (c ∷ d ∷ s) =
    if c == b':' && d == b':'
    then some ([], s)
    else elim (split_double (d ∷ s)) [ none ↦ none | some (l, r) ↦ some (c ∷ l, r) ]

abbrev sum_le : ℕ → Option ℕ → Option ℕ → Bool
sum_le most none n = false
sum_le most (some m) none = false
sum_le most (some m) (some n) = leb (m + n) most

abbrev is_eight : Option ℕ → Bool
is_eight none = false
is_eight (some n) = n == 8

unfoldable pub is_ipv6_body : Text → Bool
is_ipv6_body s = elim (split_double s) [
  | none ↦ is_eight (group_count true (split b':' s))
  | some (l, r) ↦ sum_le 7 (group_count false (side l)) (group_count true (side r))
]

abbrev is_zone_unit : ℕ → Bool
is_zone_unit c = ltb (digit_value c) 36 || c == b'-' || c == b'.' || c == b':'

abbrev is_zone : Text → Bool
is_zone [] = false
is_zone (c ∷ s) = all is_zone_unit (c ∷ s)

abbrev with_zone : List Text → Bool
with_zone (body ∷ []) = is_ipv6_body body
with_zone (body ∷ zone ∷ []) = is_ipv6_body body && is_zone zone
with_zone parts = false

-- `net.isIPv6`
unfoldable pub is_ipv6 : Text → Bool
is_ipv6 s = with_zone (split b'%' s)

unfoldable pub addresses : Unit {0}
unfolding skip_spaces digit_value digits_from parse_int number_of show_octet is_octet is_ipv4
    is_group group_count split_double is_ipv6_body is_ipv6
addresses = tt
