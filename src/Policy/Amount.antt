-- ===== src/Policy/Amount.antt =====
-- `ParseAmount` of agent/policy/policy.go: DCR amounts to atoms.
pub mod Exact
use dcr.Prelude.{
  ℕ, suc, ◌+◌, ◌-◌, ◌*◌, ◌≡◌, Bool, true, false, ◌||◌, List, [], ◌∷◌, ◌++◌, Option, none, some,
  length, replicate, ltb, if◌then◌else◌,
}
use dcr.Prelude.Int64.{ℤ, pos, wrap, ltb_ℤ, pos_part, neg_part, sub_ℕ, add64}
use dcr.Prelude.Bytes.{Bytes, codes, str_eq}
use dcr.GoText.{trim_space, trim_suffix, cut, parse_int}

pub data AmountError : Type 0 where
  invalid_amount max_decimals out_of_range : AmountError

pub data Parsed : Type 0 where
  ok : ℤ → Parsed
  err : AmountError → Parsed

abbrev pub atoms_per_dcr : ℕ
atoms_per_dcr = 100_000_000

-- `(1<<63-1)/atomsPerDCR - 1`
abbrev pub max_whole : ℕ
max_whole = 92_233_720_367

-- `w*atomsPerDCR` in int64
abbrev pub whole_atoms : ℤ → ℤ
whole_atoms w = wrap (sub_ℕ (pos_part w * atoms_per_dcr) (neg_part w * atoms_per_dcr))

-- `w*atomsPerDCR + f`, past the range check on `w`
abbrev pub combine : ℤ → ℤ → Parsed
combine w f = if ltb_ℤ (pos max_whole) w then err out_of_range else ok (add64 (whole_atoms w) f)

-- `ParseInt` and the test for a sign, which the source makes of both parts
abbrev pub nonnegative : Option ℤ → Option ℤ
nonnegative none = none
nonnegative (some w) = if ltb_ℤ w (pos 0) then none else some w

-- `frac+strings.Repeat("0", 8-len(frac))`
abbrev pub padded : Bytes → Bytes
padded frac = frac ++ replicate (8 - length frac) b'0'

unfoldable pub with_frac : ℤ → Bytes → Bool → Parsed
with_frac w frac false = combine w (pos 0)
with_frac w frac true =
    if str_eq frac [] || ltb 8 (length frac)
    then err max_decimals
    else elim (nonnegative (parse_int (padded frac))) [
      | none ↦ err invalid_amount
      | some f ↦ combine w f
    ]

unfoldable pub parse_parts : Bytes → Bytes → Bool → Parsed
unfolding with_frac
parse_parts whole frac has_frac =
    elim (nonnegative (parse_int (if str_eq whole [] then codes "0" else whole))) [
      | none ↦ err invalid_amount
      | some w ↦ with_frac w frac has_frac
    ]

abbrev pub parse_trimmed : Bytes → Parsed
parse_trimmed s =
    if str_eq s []
    then ok (pos 0)
    else (let (whole, frac, has_frac) = cut s b'.' in parse_parts whole frac has_frac)

unfoldable pub parse_amount : Bytes → Parsed
unfolding parse_parts
parse_amount s = parse_trimmed (trim_space (trim_suffix (trim_space s) (codes "DCR")))
