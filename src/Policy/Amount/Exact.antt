-- ===== src/Policy/Amount/Exact.antt =====
-- `ParseAmount` is exact on plain decimals, bounded, and blind to the sign of a zero whole part.
use dcr.Prelude.{
  ℕ, ◌+◌, ◌-◌, ◌*◌, ◌^◌, ◌≤◌, ◌<◌, ◌≡◌, ◌≢◌, refl, subst, length-replicate, ap, ◌∙◌, Bool, true,
  false, [], ◌∷◌, ◌++◌, Option, none, some, length, length-append, replicate, All, All-append,
  arith, Bool-cases, Option-cases, if◌then◌else◌, inl, inr, ◌==◌,
}
use dcr.Prelude.Int64.{ℤ, pos, pos_part, ◌≤ℤ◌, ◌+ℤ◌, IsInt64, wrap}
use dcr.Prelude.Bytes.{Bytes, codes, str_eq}
use dcr.GoText.{is_space, trim_space, trim_suffix, has_suffix, cut, parse_int}
use dcr.GoText.Laws.{
  IsDigits, digits_value, digits_value-append, digits_value-zeros, digits_value-lt, zeros-IsDigits,
  IsSolid, trim_space-IsSolid, trim_suffix_none, has_suffix_iff, All-append_split, parse_int-digits,
  parse_int-lt, cut-append,
}
use dcr.Policy.Amount.{
  ok, parse_amount, parse_parts, parse_trimmed, with_frac, combine, padded, nonnegative,
  atoms_per_dcr, max_whole,
}

-- Neither white space nor the unit: what `ParseAmount` does not strip.
abbrev IsPlain : ℕ → Type 0
IsPlain c = (is_space c ≡ false) × ((c == b'R') ≡ false)

plain-IsSolid : (s : Bytes) → All IsPlain s → IsSolid s
plain-IsSolid [] h = tt
plain-IsSolid (c ∷ s) h = (h.0.0, plain-IsSolid s h.1)

plain_unitless : (s : Bytes) → All IsPlain s → has_suffix s (codes "DCR") ≡ false
plain_unitless s h = elim (Bool-cases (has_suffix s (codes "DCR"))) [
  | inr e ↦ e
  | inl e ↦
      let (p, q) = (has_suffix_iff s (codes "DCR")).0 e in
      let (_, unit) = All-append_split IsPlain p (codes "DCR") (subst (All IsPlain) q h) in
      cc (unit.1.1.0.1)
]

parse_amount_plain : (s : Bytes) → All IsPlain s → parse_amount s ≡ parse_trimmed s
unfolding parse_amount
parse_amount_plain s h = rw (
  trim_space-IsSolid s (plain-IsSolid s h),
  trim_suffix_none s (codes "DCR") (plain_unitless s h),
  trim_space-IsSolid s (plain-IsSolid s h),
)

IsDigits-IsPlain : (s : Bytes) → IsDigits s → All IsPlain s
IsDigits-IsPlain [] h = tt
IsDigits-IsPlain (c ∷ s) h = ((ground arith, ground arith), IsDigits-IsPlain s h.1)

combine_exact :
    (w f : ℕ)
    → w ≤ max_whole
    → f < 100_000_000
    → combine (pos w) (pos f) ≡ ok (pos (w * atoms_per_dcr + f))
unfolding wrap ◌+ℤ◌
combine_exact w f hw hf = ground arith

length-padded : (frac : Bytes) → length frac ≤ 8 → length (padded frac) ≡ 8
length-padded frac h = omega (
  arith,
  length-append frac (replicate (8 - length frac) b'0'),
  length-replicate {A = ℕ} (8 - length frac) b'0',
)

padded_value :
    (frac : Bytes) → digits_value 0 (padded frac) ≡ digits_value 0 frac * 10 ^ (8 - length frac)
padded_value frac =
    digits_value-append 0 frac (replicate (8 - length frac) b'0')
    ∙ digits_value-zeros (digits_value 0 frac) (8 - length frac)

padded-IsDigits : (frac : Bytes) → IsDigits frac → IsDigits (padded frac)
padded-IsDigits frac h = All-append _ frac _ h (zeros-IsDigits (8 - length frac))

padded-lt :
    (frac : Bytes) → IsDigits frac → length frac ≤ 8 → digits_value 0 (padded frac) < 100_000_000
padded-lt frac h b =
    rw (length-padded frac b) at (digits_value-lt (padded frac) (padded-IsDigits frac h))

parse_padded :
    (frac : Bytes)
    → IsDigits frac
    → length frac ≤ 8
    → parse_int (padded frac) ≡ some (pos (digits_value 0 (padded frac)))
parse_padded frac h b =
    parse_int-digits (padded frac) (padded-IsDigits frac h)
      (λ e. absurd (omega (arith, length-padded frac b, ap length e)))
      (omega (arith, padded-lt frac h b))

with_frac_exact :
    (w : ℕ) (frac : Bytes)
    → w ≤ max_whole
    → IsDigits frac
    → frac ≢ []
    → length frac ≤ 8
    → with_frac (pos w) frac true ≡ ok (pos (w * atoms_per_dcr + digits_value 0 (padded frac)))
unfolding with_frac
with_frac_exact w frac hw h ne b = ground (
  arith,
  parse_padded frac h b,
  combine_exact w (digits_value 0 (padded frac)) hw (padded-lt frac h b),
)

-- A whole part with no point, a point, and one to eight digits.
parse_trimmed_point :
    (whole frac : Bytes) (w : ℕ)
    → All (λ c. (c == b'.') ≡ false) whole
    → whole ≢ []
    → parse_int whole ≡ some (pos w)
    → w ≤ max_whole
    → IsDigits frac
    → frac ≢ []
    → length frac ≤ 8
    → parse_trimmed (whole ++ (b'.' ∷ frac))
      ≡ ok (pos (w * atoms_per_dcr + digits_value 0 frac * 10 ^ (8 - length frac)))
unfolding parse_parts
parse_trimmed_point [] frac w hw ne ew bw hf nf bf = absurd (ne refl)
parse_trimmed_point (c ∷ whole) frac w hw ne ew bw hf nf bf =
    rw (← padded_value frac)
      (ground (arith, cut-append (c ∷ whole) frac b'.' hw, with_frac_exact w frac bw hf nf bf))

digits_pointless : (s : Bytes) → IsDigits s → All (λ c. (c == b'.') ≡ false) s
digits_pointless [] h = tt
digits_pointless (c ∷ s) h = (ground arith, digits_pointless s h.1)

-- An amount of decimal digits, a point and one to eight more digits is read exactly: the whole part
-- counts 10^8 atoms for each DCR, and the digits behind the point fill up to eight places. This
-- holds up to a whole part of 92233720367 DCR.
pub parse_amount_exact :
    (whole frac : Bytes)
    → IsDigits whole
    → whole ≢ []
    → digits_value 0 whole ≤ max_whole
    → IsDigits frac
    → frac ≢ []
    → length frac ≤ 8
    → parse_amount (whole ++ (b'.' ∷ frac))
      ≡ ok (
          pos (digits_value 0 whole * atoms_per_dcr + digits_value 0 frac * 10 ^ (8 - length frac)))
parse_amount_exact whole frac hw ne bw hf nf bf =
    parse_amount_plain (whole ++ (b'.' ∷ frac))
      (All-append _ whole _ (IsDigits-IsPlain whole hw) ((refl, refl), IsDigits-IsPlain frac hf))
    ∙ parse_trimmed_point whole frac (digits_value 0 whole) (digits_pointless whole hw) ne
        (parse_int-digits whole hw ne (omega arith)) bw hf nf bf

minus_zero : parse_int (codes "-0") ≡ some (pos 0)
unfolding parse_int
minus_zero = refl

-- A minus sign before a zero whole part is lost: "-0." and one to eight digits is read as the
-- positive amount of those digits and not refused.
pub parse_amount_minus_zero :
    (frac : Bytes)
    → IsDigits frac
    → frac ≢ []
    → length frac ≤ 8
    → parse_amount (codes "-0." ++ frac) ≡ ok (pos (digits_value 0 frac * 10 ^ (8 - length frac)))
parse_amount_minus_zero frac hf nf bf =
    parse_amount_plain (codes "-0." ++ frac)
      ((refl, refl), ((refl, refl), ((refl, refl), IsDigits-IsPlain frac hf)))
    ∙ parse_trimmed_point (codes "-0") frac 0 (refl, (refl, tt)) (λ e. cc) minus_zero (omega arith)
        hf nf bf
    ∙ ap (λ n. ok (pos n)) (omega arith)

combine_bounds :
    (w f v : ℤ)
    → pos 0 ≤ℤ w
    → pos 0 ≤ℤ f
    → pos_part f < 100_000_000
    → combine w f ≡ ok v
    → (pos 0 ≤ℤ v) × IsInt64 v
unfolding wrap ◌+ℤ◌
combine_bounds w f v hw hf b e = ground arith

nonnegative-some : (o : Option ℤ) (f : ℤ) → nonnegative o ≡ some f → (o ≡ some f) × (pos 0 ≤ℤ f)
nonnegative-some none f e = cc
nonnegative-some (some w) f e = ground arith

frac_bounds :
    (frac : Bytes) (f : ℤ)
    → length frac ≤ 8
    → nonnegative (parse_int (padded frac)) ≡ some f
    → (pos 0 ≤ℤ f) × (pos_part f < 100_000_000)
frac_bounds frac f h e =
    let (read, low) = nonnegative-some (parse_int (padded frac)) f e in
    (low, rw (length-padded frac h) at (parse_int-lt (padded frac) f read))

with_frac_bounds :
    (w v : ℤ) (frac : Bytes) (has : Bool)
    → pos 0 ≤ℤ w
    → with_frac w frac has ≡ ok v
    → (pos 0 ≤ℤ v) × IsInt64 v
unfolding with_frac
with_frac_bounds w v frac false hw e = combine_bounds w (pos 0) v hw (omega arith) (omega arith) e
with_frac_bounds w v frac true hw e = elim (Option-cases (nonnegative (parse_int (padded frac)))) [
  | inl bad ↦ absurd (ground arith)
  | inr (f, good) ↦ ground (arith, frac_bounds frac f, combine_bounds w f v hw)
]

parse_parts_bounds :
    (v : ℤ) (whole frac : Bytes) (has : Bool)
    → parse_parts whole frac has ≡ ok v
    → (pos 0 ≤ℤ v) × IsInt64 v
unfolding parse_parts
parse_parts_bounds v whole frac has e =
    let text = if str_eq whole [] then codes "0" else whole in
    elim (Option-cases (nonnegative (parse_int text))) [
      | inl bad ↦ absurd (ground arith)
      | inr (w, good) ↦ ground (
        arith,
        nonnegative-some (parse_int text) w good,
        λ (h : pos 0 ≤ℤ w). with_frac_bounds w v frac has h,
      )
    ]

-- Whatever text is given, an amount that is read is zero or more and fits int64: the arithmetic on
-- the parts never wraps.
pub parse_amount_bounds : (s : Bytes) (v : ℤ) → parse_amount s ≡ ok v → (pos 0 ≤ℤ v) × IsInt64 v
unfolding parse_amount
parse_amount_bounds s v e =
    let trimmed = trim_space (trim_suffix (trim_space s) (codes "DCR")) in
    let (whole, frac, has) = cut trimmed b'.' in ground (arith, parse_parts_bounds v whole frac has)
