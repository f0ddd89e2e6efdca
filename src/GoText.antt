-- ===== src/GoText.antt =====
-- What the program uses of Go's `strings` and `strconv`, on byte lists. Letters and white space are
-- those of ASCII: a host name, an amount and a header hold no others.
pub mod Laws
pub mod Words
pub mod Numbers
use dcr.Prelude.{
  ℕ, zero, suc, ◌+◌, ◌-◌, ◌*◌, ◌/◌, ◌%◌, ◌^◌, Bool, true, false, ◌&&◌, ◌||◌, List, [], ◌∷◌, map,
  reverse, Option, none, some, length, take, drop, ltb, leb, ◌==◌, if◌then◌else◌,
}
use dcr.Prelude.Int64.{ℤ, pos, negsuc, sub_ℕ}
use dcr.Prelude.Bytes.{Bytes, str_eq}

unfoldable pub lower_byte : ℕ → ℕ
lower_byte c = if leb b'A' c && leb c b'Z' then c + 32 else c

-- strings.ToLower
unfoldable pub to_lower : Bytes → Bytes
unfolding lower_byte
to_lower = map lower_byte

abbrev pub is_space : ℕ → Bool
is_space c = c == 32 || (leb 9 c && leb c 13)

unfoldable pub trim_left : Bytes → Bytes
trim_left [] = []
trim_left (c ∷ s) = if is_space c then trim_left s else c ∷ s

-- strings.TrimSpace
unfoldable pub trim_space : Bytes → Bytes
unfolding trim_left
trim_space s = reverse (trim_left (reverse (trim_left s)))

-- strings.HasPrefix
unfoldable pub has_prefix : Bytes → Bytes → Bool
has_prefix s [] = true
has_prefix [] (p ∷ ps) = false
has_prefix (c ∷ s) (p ∷ ps) = if c == p then has_prefix s ps else false

-- strings.HasSuffix: `len(s) >= len(suffix) && s[len(s)-len(suffix):] == suffix`
unfoldable pub has_suffix : Bytes → Bytes → Bool
has_suffix s suffix =
    leb (length suffix) (length s) && str_eq (drop (length s - length suffix) s) suffix

-- strings.TrimSuffix
unfoldable pub trim_suffix : Bytes → Bytes → Bytes
unfolding has_suffix
trim_suffix s suffix = if has_suffix s suffix then take (length s - length suffix) s else s

-- strings.CutPrefix: the rest, where the prefix is there
unfoldable pub cut_prefix : Bytes → Bytes → Option Bytes
unfolding has_prefix
cut_prefix s prefix = if has_prefix s prefix then some (drop (length prefix) s) else none

-- strings.Cut at a separator of one byte
unfoldable pub cut : Bytes → ℕ → Bytes × Bytes × Bool
cut [] sep = ([], [], false)
cut (c ∷ s) sep =
    if c == sep then ([], s, true) else (let (a, b, found) = cut s sep in (c ∷ a, b, found))

abbrev pub cons_head : ℕ → List Bytes → List Bytes
cons_head c [] = (c ∷ []) ∷ []
cons_head c (s ∷ more) = (c ∷ s) ∷ more

-- strings.Split at a separator of one byte
unfoldable pub split : Bytes → ℕ → List Bytes
split [] sep = [] ∷ []
split (c ∷ s) sep = let more = split s sep in if c == sep then [] ∷ more else cons_head c more

-- `a <= b` on strings
unfoldable pub string_leb : Bytes → Bytes → Bool
string_leb [] t = true
string_leb (c ∷ s) [] = false
string_leb (c ∷ s) (d ∷ t) = let more = string_leb s t in if c == d then more else ltb c d

unfoldable pub insert_sorted : Bytes → List Bytes → List Bytes
unfolding string_leb
insert_sorted s [] = s ∷ []
insert_sorted s (t ∷ more) = if string_leb s t then s ∷ t ∷ more else t ∷ insert_sorted s more

-- sort.Strings
unfoldable pub sort_strings : List Bytes → List Bytes
unfolding insert_sorted
sort_strings [] = []
sort_strings (s ∷ more) = insert_sorted s (sort_strings more)

abbrev pub is_digit : ℕ → Bool
is_digit c = leb b'0' c && leb c b'9'

-- The number that the decimal digits after those of `acc` make.
unfoldable pub parse_digits : ℕ → Bytes → Option ℕ
parse_digits acc [] = some acc
parse_digits acc (c ∷ s) = if is_digit c then parse_digits (acc * 10 + (c - b'0')) s else none

-- An empty run of digits is refused.
abbrev pub parse_magnitude : Bytes → Option ℕ
parse_magnitude [] = none
parse_magnitude (c ∷ s) = parse_digits 0 (c ∷ s)

-- strconv.ParseInt(s, 10, 64): an optional sign, digits, and a value that int64 holds. `none` is
-- a non-nil error.
abbrev pub in_int64 : Bool → Option ℕ → Option ℤ
in_int64 minus none = none
in_int64 true (some n) = if leb n (2 ^ 63) then some (sub_ℕ 0 n) else none
in_int64 false (some n) = if ltb n (2 ^ 63) then some (pos n) else none

abbrev pub parse_signed : ℕ → Bytes → Option ℤ
parse_signed c s =
    if c == b'-'
    then in_int64 true (parse_magnitude s)
    else if c == b'+'
    then in_int64 false (parse_magnitude s)
    else in_int64 false (parse_magnitude (c ∷ s))

unfoldable pub parse_int : Bytes → Option ℤ
unfolding parse_digits
parse_int [] = none
parse_int (c ∷ s) = parse_signed c s

-- The value of a hexadecimal digit.
abbrev pub hex_value : ℕ → Option ℕ
hex_value c =
    if is_digit c
    then some (c - b'0')
    else if leb b'a' c && leb c b'f'
    then some (c - b'a' + 10)
    else if leb b'A' c && leb c b'F'
    then some (c - b'A' + 10)
    else none

abbrev pub cons_byte : Option ℕ → Option ℕ → Option Bytes → Option Bytes
cons_byte (some h) (some l) (some rest) = some ((h * 16 + l) ∷ rest)
cons_byte _ _ _ = none

-- hex.DecodeString, with `none` for an error
unfoldable pub hex_decode : Bytes → Option Bytes
hex_decode [] = some []
hex_decode (h ∷ []) = none
hex_decode (h ∷ l ∷ s) = cons_byte (hex_value h) (hex_value l) (hex_decode s)

abbrev pub hex_digit : ℕ → ℕ
hex_digit n = if ltb n 10 then b'0' + n else b'a' + (n - 10)

-- hex.EncodeToString
unfoldable pub hex_encode : Bytes → Bytes
hex_encode [] = []
hex_encode (b ∷ s) = hex_digit (b / 16) ∷ hex_digit (b % 16) ∷ hex_encode s

-- strings.EqualFold
unfoldable pub equal_fold : Bytes → Bytes → Bool
unfolding to_lower
equal_fold s t = str_eq (to_lower s) (to_lower t)

-- The decimal digits of a number, in at most `fuel` places, before `acc`.
unfoldable pub decimal : ℕ → ℕ → Bytes → Bytes
decimal zero n acc = acc
decimal (suc fuel) n acc =
    let rest = decimal fuel (n / 10) ((b'0' + n % 10) ∷ acc) in
    if ltb n 10 then (b'0' + n) ∷ acc else rest

-- strconv.FormatInt(n, 10): an int64 has at most 19 digits.
unfoldable pub format_int : ℤ → Bytes
unfolding decimal
format_int (pos n) = decimal 19 n []
format_int (negsuc n) = b'-' ∷ decimal 19 (suc n) []
