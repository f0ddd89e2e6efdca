-- ===== src/Gate/Mint/Texts.antt =====
-- The texts of a minted credential's caveats, and what the checks of lib/l402/l402.go read in them.
use dcr.Prelude.{
  ℕ, ◌^◌, ◌≤◌, ◌≡◌, ◌≢◌, ◌∙◌, refl, ap, true, false, [], ◌∷◌, ◌++◌, some, none, arith, All,
  All-append, ltb, ◌==◌, if◌then◌else◌,
}
use dcr.Prelude.Int64.{ℤ, pos, wrap, ◌+ℤ◌}
use dcr.Prelude.Bytes.{Bytes, str_eq, insert, lookup-insert_self}
use dcr.GoText.{cut, split, trim_space, has_suffix, is_space, format_int, parse_int}
use dcr.GoText.Laws.{
  cut-append, IsSolid, IsDigits, IsDigits-IsSolid, trim_space-IsSolid, has_suffix_iff,
}
use dcr.GoText.Numbers.{parse_int-format_int, decimal-IsDigits}
use dcr.L402 as L402
use dcr.L402.{
  Crypto, ok, err, ◌>>=◌, token_expired, Macaroon, Identifier, encode, decode_identifier,
  storage_key, mint,
}
use dcr.L402.Credential.{services_caveat, valid_until_caveat}
use dcr.L402.Caveats.{
  caveat_services, caveat_valid_until_sfx, add_items, parse_list, has_name, attenuates,
  verify_services_chain, verify_valid_until_chain, tightens, is_before,
}
use dcr.L402.Caveats.Grouping.{All-imp}
use dcr.L402.Caveats.Unbound.{IsPlain}

-- A character of a service's name: no white space and none of `,:=`.
abbrev pub IsName : ℕ → Type 0
IsName c = IsPlain c × ((c == b'=') ≡ false)

-- A piece of text in front of a tier.
abbrev pub tiered : Bytes → ℕ → Bytes
tiered s tier = s ++ (b':' ∷ format_int (pos tier))

pub format_int-IsDigits : (n : ℕ) → IsDigits (format_int (pos n))
unfolding format_int
format_int-IsDigits n = decimal-IsDigits 19 n [] tt

pub digits_plain : (s : Bytes) → IsDigits s → All (λ c. (c == b',') ≡ false) s
digits_plain [] h = tt
digits_plain (c ∷ s) h = (ground arith, digits_plain s h.1)

pub split-solid : (s : Bytes) → All (λ c. (c == b',') ≡ false) s → split s b',' ≡ s ∷ []
unfolding split
split-solid [] h = refl
split-solid (c ∷ s) h = ground (arith, split-solid s h.1)

pub tiered_plain :
    (s : Bytes) (tier : ℕ) → All IsName s → All (λ c. (c == b',') ≡ false) (tiered s tier)
tiered_plain s tier h =
    All-append (λ c. (c == b',') ≡ false) s _ (All-imp s (λ c p. p.0.1) h)
      (refl, digits_plain _ (format_int-IsDigits tier))

pub tiered-IsSolid : (s : Bytes) (tier : ℕ) → All IsName s → IsSolid (tiered s tier)
tiered-IsSolid s tier h =
    All-append (λ c. is_space c ≡ false) s _ (All-imp s (λ c p. p.0.0) h)
      (refl, IsDigits-IsSolid _ (format_int-IsDigits tier))

pub tiered_nonempty : (s : Bytes) (tier : ℕ) → str_eq (tiered s tier) [] ≡ false
tiered_nonempty [] tier = ground arith
tiered_nonempty (c ∷ s) tier = ground arith

pub add_items-tiered :
    (s : Bytes) (tier : ℕ)
    → All IsName s
    → add_items [] (tiered s tier ∷ []) ≡ insert s (format_int (pos tier)) []
unfolding add_items
add_items-tiered s tier h =
    rw
      (
        trim_space-IsSolid (tiered s tier) (tiered-IsSolid s tier h),
        tiered_nonempty s tier,
        cut-append s (format_int (pos tier)) b':' (All-imp s (λ c p. p.0.2) h),
      )
      refl

pub services_accepted :
    (s : Bytes) (tier : ℕ) → All IsName s → verify_services_chain (tiered s tier ∷ []) s ≡ ok tt
unfolding verify_services_chain attenuates parse_list
services_accepted s tier h =
    let found : has_name s (parse_list (tiered s tier)) ≡ true =
      rw (split-solid (tiered s tier) (tiered_plain s tier h), add_items-tiered s tier h)
        (ap (λ found. elim found [ none ↦ false | some _ ↦ true ])
          (lookup-insert_self s (format_int (pos tier)) [])) in
    rw found refl

pub cut-services :
    (s : Bytes) (tier : ℕ)
    → cut (services_caveat s (pos tier)) b'=' ≡ (caveat_services, tiered s tier, true)
unfolding services_caveat
cut-services s tier =
    cut-append caveat_services (tiered s tier) b'='
      (refl, (refl, (refl, (refl, (refl, (refl, (refl, (refl, tt))))))))

abbrev pub until_name : Bytes → Bytes
until_name s = s ++ caveat_valid_until_sfx

pub cut-valid_until :
    (s : Bytes) (until : ℤ)
    → All IsName s
    → cut (valid_until_caveat s until) b'=' ≡ (until_name s, format_int until, true)
unfolding valid_until_caveat
cut-valid_until s until h = cut-append (until_name s) (format_int until) b'=' (
    All-append (λ c. (c == b'=') ≡ false) s _ (All-imp s (λ c p. p.1) h)
      (
        refl,
        (refl, (refl, (refl, (refl, (refl, (refl, (refl, (refl, (refl, (refl, (refl, tt))))))))))),
      ))

pub until_name-suffix : (s : Bytes) → has_suffix (until_name s) caveat_valid_until_sfx ≡ true
until_name-suffix s = (has_suffix_iff (until_name s) caveat_valid_until_sfx).1 (s, refl)

pub services-no_suffix : has_suffix caveat_services caveat_valid_until_sfx ≡ false
unfolding has_suffix
services-no_suffix = refl

pub until_name-ne-services : (s : Bytes) → caveat_services ≢ until_name s
until_name-ne-services s e =
    let yes_suffix : has_suffix caveat_services caveat_valid_until_sfx ≡ true =
      rw e (until_name-suffix s) in
    let no_suffix = services-no_suffix in absurd cc

pub is_before_pos : (now n : ℕ) → n ≤ 2 ^ 62 → is_before now (pos n) ≡ ltb now n
unfolding wrap ◌+ℤ◌
is_before_pos now n h = ground arith

-- The verdict on the time.
abbrev pub timely : ℕ → ℕ → L402.Result {0} Unit
timely now until = if ltb now until then ok tt else err token_expired

pub read_until :
    (until : ℕ)
    → until ≤ 2 ^ 62
    → parse_int (trim_space (format_int (pos until))) ≡ some (pos until)
read_until until h =
    ap parse_int
      (trim_space-IsSolid (format_int (pos until)) (IsDigits-IsSolid _ (format_int-IsDigits until)))
    ∙ parse_int-format_int (pos until) (omega arith)

pub until_decides :
    (now until : ℕ)
    → until ≤ 2 ^ 62
    → verify_valid_until_chain (format_int (pos until) ∷ []) now ≡ timely now until
unfolding verify_valid_until_chain tightens
until_decides now until h = ground (arith, read_until until h, is_before_pos now until h)
