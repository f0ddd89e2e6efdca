-- ===== src/GoText/Laws.antt =====
-- Laws of the text functions.
use dcr.Prelude.{
  ℕ, zero, suc, ◌+◌, ◌-◌, ◌*◌, ◌^◌, ◌≤◌, ◌<◌, ◌≡◌, refl, ap, sym, ◌∙◌, Bool, true, false, ◌↔◌, inl,
  inr, List, [], ◌∷◌, ◌++◌, reverse, Option, none, some, length, take, drop, All, All-append,
  Bool-cases, arith, ◌≢◌, length-append, drop-append_left, ◌==◌, replicate,
}
use dcr.Prelude.Bytes.{Bytes, str_eq_refl}
use dcr.GoText.{
  has_suffix, cut, has_prefix, is_digit, parse_digits, trim_space, trim_left, is_space, trim_suffix,
  parse_int, parse_magnitude, in_int64, parse_signed,
}
use dcr.Prelude.Int64.{ℤ, pos, pos_part}
use mathlib.Core.List.{reverse-cons, reverse-reverse}
use native.Mathlib.Nat.{pow-suc}

take-append-drop {ℓ} : {A : Type ℓ} (n : ℕ) (xs : List A) → take n xs ++ drop n xs ≡ xs
take-append-drop zero xs = refl
take-append-drop (suc n) [] = refl
take-append-drop (suc n) (x ∷ xs) = ap (◌∷◌ x) (take-append-drop n xs)

has_suffix-drop :
    (s suffix : Bytes) → has_suffix s suffix ≡ true → drop (length s - length suffix) s ≡ suffix
unfolding has_suffix
has_suffix-drop s suffix h = ground arith

has_suffix-append : (p suffix : Bytes) → has_suffix (p ++ suffix) suffix ≡ true
unfolding has_suffix
has_suffix-append p suffix =
    let n : length (p ++ suffix) - length suffix ≡ length p =
      omega (arith, length-append p suffix) in
    rw (n, drop-append_left p suffix, str_eq_refl suffix) (ground (arith, length-append p suffix))

-- A suffix is what is left behind some first part.
pub has_suffix_iff :
    (s suffix : Bytes) → (has_suffix s suffix ≡ true) ↔ ((p : Bytes) × (s ≡ p ++ suffix))
has_suffix_iff s suffix = (
  λ h.
      let n = length s - length suffix in
      (take n s, sym (take-append-drop n s) ∙ ap (λ r. take n s ++ r) (has_suffix-drop s suffix h)),
  λ (p, e). rw e (has_suffix-append p suffix),
)

pub has_prefix_self : (p s : Bytes) → has_prefix (p ++ s) p ≡ true
unfolding has_prefix
has_prefix_self [] s = refl
has_prefix_self (c ∷ p) s = ground (arith, has_prefix_self p s)

-- The digits of a number.
abbrev pub IsDigits : Bytes → Type 0
IsDigits = All (λ c. is_digit c ≡ true)

abbrev pub digits_value : ℕ → Bytes → ℕ
digits_value acc [] = acc
digits_value acc (c ∷ s) = digits_value (acc * 10 + (c - b'0')) s

pub parse_digits_value :
    (acc : ℕ) (s : Bytes) → IsDigits s → parse_digits acc s ≡ some (digits_value acc s)
unfolding parse_digits
parse_digits_value acc [] h = refl
parse_digits_value acc (c ∷ s) h = ground (arith, parse_digits_value (acc * 10 + (c - b'0')) s h.1)

-- Text without the separator is cut off whole.
pub cut-append :
    (a b : Bytes) (sep : ℕ)
    → All (λ c. (c == sep) ≡ false) a
    → cut (a ++ (sep ∷ b)) sep ≡ (a, b, true)
unfolding cut
cut-append [] b sep h = ground arith
cut-append (c ∷ a) b sep h = ground (arith, cut-append a b sep h.1)

pub digits_value-append :
    (acc : ℕ) (s t : Bytes) → digits_value acc (s ++ t) ≡ digits_value (digits_value acc s) t
digits_value-append acc [] t = refl
digits_value-append acc (c ∷ s) t = digits_value-append (acc * 10 + (c - b'0')) s t

pub All-append_split {ℓ κ} :
    {A : Type ℓ} (P : A → Type κ) (xs ys : List A) → All P (xs ++ ys) → All P xs × All P ys
All-append_split P [] ys h = (tt, h)
All-append_split P (x ∷ xs) ys h = let (p, q) = All-append_split P xs ys h.1 in ((h.0, p), q)

pub All-reverse {ℓ κ} : {A : Type ℓ} (P : A → Type κ) (xs : List A) → All P xs → All P (reverse xs)
All-reverse P [] h = tt
All-reverse P (x ∷ xs) h =
    rw (reverse-cons x xs) (All-append P (reverse xs) (x ∷ []) (All-reverse P xs h.1) (h.0, tt))

-- Text without white space is not trimmed.
abbrev pub IsSolid : Bytes → Type 0
IsSolid = All (λ c. is_space c ≡ false)

trim_left-IsSolid : (s : Bytes) → IsSolid s → trim_left s ≡ s
unfolding trim_left
trim_left-IsSolid [] h = refl
trim_left-IsSolid (c ∷ s) h = rw h.0

pub trim_space-IsSolid : (s : Bytes) → IsSolid s → trim_space s ≡ s
unfolding trim_space
trim_space-IsSolid s h =
    rw (trim_left-IsSolid s h, trim_left-IsSolid (reverse s) (All-reverse _ s h))
      (reverse-reverse s)

pub trim_suffix_none : (s suffix : Bytes) → has_suffix s suffix ≡ false → trim_suffix s suffix ≡ s
unfolding trim_suffix
trim_suffix_none s suffix h = rw h

pub IsDigits-IsSolid : (s : Bytes) → IsDigits s → IsSolid s
IsDigits-IsSolid [] h = tt
IsDigits-IsSolid (c ∷ s) h = (ground arith, IsDigits-IsSolid s h.1)

pub parse_int-digits :
    (s : Bytes)
    → IsDigits s
    → s ≢ []
    → digits_value 0 s < 2 ^ 63
    → parse_int s ≡ some (pos (digits_value 0 s))
unfolding parse_int
parse_int-digits [] h ne b = absurd (ne refl)
parse_int-digits (c ∷ s) h ne b = ground (arith, parse_digits_value 0 (c ∷ s) h)

pub digits_value-zeros : (acc n : ℕ) → digits_value acc (replicate n b'0') ≡ acc * 10 ^ n
digits_value-zeros acc zero = omega arith
digits_value-zeros acc (suc n) =
    digits_value-zeros (acc * 10 + 0) n ∙ rw (pow-suc 10 n) (grind arith)

scaled_mono : (x y p : ℕ) → x ≤ y → x * p ≤ y * p
scaled_mono x y p h = grind arith

digit_bound : (acc d p n : ℕ) → d ≤ 9 → n < (acc * 10 + d + 1) * p → n < (acc + 1) * (p * 10)
digit_bound acc d p n h k =
    omega (arith, scaled_mono (acc * 10 + d + 1) (acc * 10 + 10) p (omega arith))

-- What `parse_digits` and `parse_int` read is bounded by the number of characters.
parse_digits-lt :
    (acc : ℕ) (s : Bytes) (n : ℕ) → parse_digits acc s ≡ some n → n < (acc + 1) * 10 ^ length s
unfolding parse_digits
parse_digits-lt acc [] n e = ground arith
parse_digits-lt acc (c ∷ s) n e = rw (pow-suc 10 (length s)) (
    ground (
      arith,
      parse_digits-lt (acc * 10 + (c - b'0')) s n,
      digit_bound acc (c - b'0') (10 ^ length s) n,
    ))

parse_magnitude-lt : (s : Bytes) (n : ℕ) → parse_magnitude s ≡ some n → n < 10 ^ length s
parse_magnitude-lt [] n e = cc
parse_magnitude-lt (c ∷ s) n e = omega (arith, parse_digits-lt 0 (c ∷ s) n e)

in_int64-le :
    (minus : Bool) (m : Option ℕ) (v : ℤ) (b : ℕ)
    → in_int64 minus m ≡ some v
    → ((n : ℕ) → m ≡ some n → n < b)
    → pos_part v < b
in_int64-le minus none v b e h = cc
in_int64-le true (some n) v b e h = ground (arith, h n)
in_int64-le false (some n) v b e h = ground (arith, h n)

parse_signed-lt :
    (c : ℕ) (s : Bytes) (v : ℤ) → parse_signed c s ≡ some v → pos_part v < 10 ^ suc (length s)
parse_signed-lt c s v e = elim (Bool-cases (c == b'-')) [
  | inl minus ↦
      let h = in_int64-le true (parse_magnitude s) v _ (rw minus at e) (parse_magnitude-lt s) in
      rw (pow-suc 10 (length s)) (omega arith)
  | inr unsigned ↦ elim (Bool-cases (c == b'+')) [
    | inl plus ↦
        let h =
          in_int64-le false (parse_magnitude s) v _ (rw (unsigned, plus) at e)
            (parse_magnitude-lt s) in
        rw (pow-suc 10 (length s)) (omega arith)
    | inr digit ↦
        in_int64-le false (parse_magnitude (c ∷ s)) v _ (rw (unsigned, digit) at e)
          (parse_magnitude-lt (c ∷ s))
  ]
]

pub parse_int-lt : (s : Bytes) (v : ℤ) → parse_int s ≡ some v → pos_part v < 10 ^ length s
unfolding parse_int
parse_int-lt [] v e = cc
parse_int-lt (c ∷ s) v e = parse_signed-lt c s v e

pub digits_value-lt : (s : Bytes) → IsDigits s → digits_value 0 s < 10 ^ length s
digits_value-lt s h =
    omega (arith, parse_digits-lt 0 s (digits_value 0 s) (parse_digits_value 0 s h))

pub zeros-IsDigits : (n : ℕ) → IsDigits (replicate n b'0')
zeros-IsDigits zero = tt
zeros-IsDigits (suc n) = (refl, zeros-IsDigits n)
