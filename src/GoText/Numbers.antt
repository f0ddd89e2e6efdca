-- ===== src/GoText/Numbers.antt =====
-- Reading back what was written: decimal numbers and hexadecimal bytes.
use dcr.Prelude.{
  ℕ, zero, suc, ◌+◌, ◌/◌, ◌%◌, ◌^◌, ◌<◌, ◌≡◌, ◌≢◌, ◌∙◌, refl, ap, false, inl, inr, [], ◌∷◌, some,
  arith, All, ltb, ◌==◌, Bool-cases,
}
use dcr.Prelude.Int64.{ℤ, pos, negsuc, IsInt64}
use dcr.Prelude.Bytes.{Bytes}
use dcr.GoText.{
  parse_int, parse_magnitude, in_int64, decimal, format_int, hex_decode, hex_encode, hex_digit,
  hex_value,
}
use dcr.GoText.Laws.{IsDigits, digits_value, parse_digits_value}

-- The digits come out right where `fuel` places hold the number.
decimal_value :
    (fuel n : ℕ) (acc : Bytes)
    → n < 10 ^ fuel
    → digits_value 0 (decimal fuel n acc) ≡ digits_value n acc
unfolding decimal
decimal_value zero n acc h = let e : n ≡ 0 = omega arith in rw e refl
decimal_value (suc fuel) n acc h = elim (Bool-cases (ltb n 10)) [
  | inl last ↦ rw (last, decimal) (ap (λ k. digits_value k acc) (ground arith))
  | inr more ↦
      rw (more, decimal)
        (decimal_value fuel (n / 10) ((b'0' + n % 10) ∷ acc) (ground arith)
          ∙ ap (λ k. digits_value k acc) (ground arith))
]

pub decimal-IsDigits : (fuel n : ℕ) (acc : Bytes) → IsDigits acc → IsDigits (decimal fuel n acc)
unfolding decimal
decimal-IsDigits zero n acc h = h
decimal-IsDigits (suc fuel) n acc h = elim (Bool-cases (ltb n 10)) [
  | inl last ↦ rw (last, decimal) (ground arith, h)
  | inr more ↦
      rw (more, decimal) (decimal-IsDigits fuel (n / 10) ((b'0' + n % 10) ∷ acc) (ground arith, h))
]

-- Digits are read as the number that they stand for.
read_digits : (s : Bytes) → IsDigits s → s ≢ [] → parse_magnitude s ≡ some (digits_value 0 s)
read_digits [] h ne = absurd (ne refl)
read_digits (c ∷ s) h ne = parse_digits_value 0 (c ∷ s) h

cons-ne-nil : (c : ℕ) (s : Bytes) → c ∷ s ≢ []
cons-ne-nil c s e = cc

decimal-ne-nil : (fuel n c : ℕ) (acc : Bytes) → decimal fuel n (c ∷ acc) ≢ []
unfolding decimal
decimal-ne-nil zero n c acc = cons-ne-nil c acc
decimal-ne-nil (suc fuel) n c acc = elim (Bool-cases (ltb n 10)) [
  | inl last ↦ rw (last, decimal) (cons-ne-nil (b'0' + n) (c ∷ acc))
  | inr more ↦ rw (more, decimal) (decimal-ne-nil fuel (n / 10) (b'0' + n % 10) (c ∷ acc))
]

decimal-suc-ne-nil : (fuel n : ℕ) → decimal (suc fuel) n [] ≢ []
unfolding decimal
decimal-suc-ne-nil fuel n = elim (Bool-cases (ltb n 10)) [
  | inl last ↦ rw (last, decimal) (cons-ne-nil (b'0' + n) [])
  | inr more ↦ rw (more, decimal) (decimal-ne-nil fuel (n / 10) (b'0' + n % 10) [])
]

-- A number of at most 19 digits, read back.
digits_back : (n : ℕ) → n < 10 ^ 19 → parse_magnitude (decimal 19 n []) ≡ some n
digits_back n h =
    read_digits (decimal 19 n []) (decimal-IsDigits 19 n [] tt) (decimal-suc-ne-nil 18 n)
    ∙ ap (λ k. some k) (decimal_value 19 n [] h)

-- A first digit is no sign.
unsigned : (s : Bytes) → IsDigits s → s ≢ [] → parse_int s ≡ in_int64 false (parse_magnitude s)
unfolding parse_int
unsigned [] h ne = absurd (ne refl)
unsigned (c ∷ s) h ne =
    let minus : (c == b'-') ≡ false = ground arith in
    let plus : (c == b'+') ≡ false = ground arith in rw (minus, plus) refl

-- Reading the decimal text of an int64 gives the number back.
pub parse_int-format_int : (n : ℤ) → IsInt64 n → parse_int (format_int n) ≡ some n
unfolding format_int parse_int
parse_int-format_int (pos n) h =
    unsigned (decimal 19 n []) (decimal-IsDigits 19 n [] tt) (decimal-suc-ne-nil 18 n)
    ∙ (rw (digits_back n (omega arith)) (ground arith))
parse_int-format_int (negsuc n) h = rw (digits_back (suc n) (omega arith)) (ground arith)

hex_value-hex_digit : (n : ℕ) → n < 16 → hex_value (hex_digit n) ≡ some n
hex_value-hex_digit n h = ground arith

-- Reading the hexadecimal text of bytes gives the bytes back.
pub hex_decode-hex_encode : (s : Bytes) → All (λ b. b < 256) s → hex_decode (hex_encode s) ≡ some s
unfolding hex_decode hex_encode
hex_decode-hex_encode [] h = refl
hex_decode-hex_encode (b ∷ s) h =
    rw
      (
        hex_decode-hex_encode s h.1,
        hex_value-hex_digit (b / 16) (omega (arith, h.0)),
        hex_value-hex_digit (b % 16) (omega arith),
      )
      (ap (λ c. some (c ∷ s)) (omega arith))
