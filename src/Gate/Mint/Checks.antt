-- ===== src/Gate/Mint/Checks.antt =====
-- The caveats of a minted credential pass their checks until its time.
use dcr.Prelude.{
  ℕ, ◌^◌, ◌≤◌, ◌≡◌, ◌∙◌, refl, ap, true, false, inl, inr, List, [], ◌∷◌, none, arith, All, ltb,
  Bool-cases, if◌then◌else◌,
}
use dcr.Prelude.Int64.{pos}
use dcr.Prelude.Bytes.{Bytes, Bytes-discrete, str_eq, str_eq_refl, lookup, insert}
use dcr.GoText.{sort_strings, insert_sorted, string_leb, format_int}
use dcr.L402 as L402
use dcr.L402.{
  Crypto, ok, err, ◌>>=◌, token_expired, Macaroon, Identifier, encode, decode_identifier,
  storage_key, mint,
}
use dcr.L402.Credential.{services_caveat, valid_until_caveat}
use dcr.L402.Caveats.{
  Groups, Seen, values, add_value, caveat_services, group_caveats, verify_group, see, verify_groups,
  close, verify_caveats,
}
use dcr.L402.Caveats.Unbound.{for_service, close-seen}
use dcr.Gate.Mint.Texts.{
  IsName, tiered, services_accepted, cut-services, until_name, cut-valid_until, until_name-suffix,
  until_name-ne-services, timely, until_decides,
}

-- What the checks have seen when they pass.
abbrev verdict : ℕ → ℕ → L402.Result Seen
verdict now until =
    if ltb now until then ok (record { services = true; caps = false }) else err token_expired

-- The groups of a minted credential.
abbrev minted_groups : Bytes → ℕ → ℕ → Groups
minted_groups s tier until = record {
  groups = (caveat_services, tiered s tier ∷ []) ∷ (until_name s, format_int (pos until) ∷ []) ∷ [];
  order = caveat_services ∷ until_name s ∷ [];
}

abbrev pub minted_caveats : Bytes → ℕ → ℕ → List Bytes
minted_caveats s tier until = services_caveat s (pos tier) ∷ valid_until_caveat s (pos until) ∷ []

names_differ : (s : Bytes) → str_eq caveat_services (until_name s) ≡ false
names_differ s = ground (arith, until_name-ne-services s)

names_differ' : (s : Bytes) → str_eq (until_name s) caveat_services ≡ false
names_differ' s = ground (arith, until_name-ne-services s)

abbrev services_group : Bytes → ℕ → Groups
services_group s tier = record {
  groups = (caveat_services, tiered s tier ∷ []) ∷ [];
  order = caveat_services ∷ [];
}

absent : (s : Bytes) (tier : ℕ) → lookup (until_name s) (services_group s tier).groups ≡ none
unfolding lookup
absent s tier = rw (names_differ s) refl

inserted :
    (s : Bytes) (tier : ℕ) (vals : List Bytes)
    → insert (until_name s) vals (services_group s tier).groups
      ≡ (caveat_services, tiered s tier ∷ []) ∷ (until_name s, vals) ∷ []
unfolding insert
inserted s tier vals = rw (names_differ s) refl

add-until :
    (s : Bytes) (tier until : ℕ)
    → add_value (services_group s tier) (until_name s, format_int (pos until), true)
      ≡ ok (minted_groups s tier until)
add-until s tier until =
    ground (arith, absent s tier, inserted s tier (format_int (pos until) ∷ []))

group-minted :
    (s : Bytes) (tier until : ℕ)
    → All IsName s
    → group_caveats (record { groups = []; order = [] }) (minted_caveats s tier until)
      ≡ ok (minted_groups s tier until)
unfolding group_caveats lookup insert
group-minted s tier until h =
    rw (cut-services s tier, cut-valid_until s (pos until) h) (rw (add-until s tier until) refl)

value-services :
    (s : Bytes) (tier until : ℕ)
    → values (minted_groups s tier until) caveat_services ≡ tiered s tier ∷ []
unfolding lookup Bytes-discrete
value-services s tier until = refl

value-until :
    (s : Bytes) (tier until : ℕ)
    → values (minted_groups s tier until) (until_name s) ≡ format_int (pos until) ∷ []
unfolding lookup
value-until s tier until = ground (arith, names_differ s, str_eq_refl (until_name s))

verify_group-services :
    (s : Bytes) (tier now : ℕ)
    → All IsName s
    → verify_group (for_service s now) caveat_services (tiered s tier ∷ []) ≡ ok tt
unfolding verify_group Bytes-discrete
verify_group-services s tier now h = services_accepted s tier h

verify_group-until :
    (s : Bytes) (now until : ℕ)
    → until ≤ 2 ^ 62
    → verify_group (for_service s now) (until_name s) (format_int (pos until) ∷ [])
      ≡ timely now until
unfolding verify_group
verify_group-until s now until h =
    rw (names_differ' s, until_name-suffix s) (until_decides now until h)

see-until : (s : Bytes) (now : ℕ) (seen : Seen) → see (for_service s now) (until_name s) seen ≡ seen
unfolding see
see-until s now seen = rw (names_differ' s, until_name-suffix s) refl

see-services :
    (s : Bytes) (now : ℕ) (seen : Seen)
    → see (for_service s now) caveat_services seen ≡ record seen { services = true }
unfolding see Bytes-discrete
see-services s now seen = refl

abbrev nothing : Seen
nothing = record { services = false; caps = false }

services_pass :
    (s : Bytes) (tier until now : ℕ)
    → All IsName s
    → verify_group
        (for_service s now)
        caveat_services
        (values (minted_groups s tier until) caveat_services)
      ≡ ok tt
services_pass s tier until now h =
    ap (verify_group (for_service s now) caveat_services) (value-services s tier until)
    ∙ verify_group-services s tier now h

until_passes :
    (s : Bytes) (tier until now : ℕ)
    → until ≤ 2 ^ 62
    → verify_group
        (for_service s now)
        (until_name s)
        (values (minted_groups s tier until) (until_name s))
      ≡ timely now until
until_passes s tier until now late =
    ap (verify_group (for_service s now) (until_name s)) (value-until s tier until)
    ∙ verify_group-until s now until late

-- Both groups are checked, in either order.
services_first :
    (s : Bytes) (tier until now : ℕ)
    → All IsName s
    → until ≤ 2 ^ 62
    → verify_groups
        (for_service s now)
        (minted_groups s tier until)
        (caveat_services ∷ until_name s ∷ [])
        nothing
      ≡ verdict now until
unfolding verify_groups
services_first s tier until now h late = ground (
  arith,
  services_pass s tier until now h,
  until_passes s tier until now late,
  see-services s now nothing,
  see-until s now nothing,
  see-until s now (record nothing { services = true }),
)

until_first :
    (s : Bytes) (tier until now : ℕ)
    → All IsName s
    → until ≤ 2 ^ 62
    → verify_groups
        (for_service s now)
        (minted_groups s tier until)
        (until_name s ∷ caveat_services ∷ [])
        nothing
      ≡ verdict now until
unfolding verify_groups
until_first s tier until now h late = ground (
  arith,
  services_pass s tier until now h,
  until_passes s tier until now late,
  see-services s now nothing,
  see-until s now nothing,
  see-until s now (record nothing { services = true }),
)

close-verdict :
    (s : Bytes) (now until : ℕ)
    → (verdict now until >>= close (for_service s now)) ≡ timely now until
close-verdict s now until = ground (arith, close-seen s now)

pub verify_caveats-minted :
    (s : Bytes) (tier until now : ℕ)
    → All IsName s
    → until ≤ 2 ^ 62
    → verify_caveats (minted_caveats s tier until) (for_service s now) ≡ timely now until
unfolding verify_caveats sort_strings insert_sorted
verify_caveats-minted s tier until now h late =
    elim (Bool-cases (string_leb caveat_services (until_name s))) [
      | inl first ↦
          rw (group-minted s tier until h, first)
            (rw (services_first s tier until now h late) (close-verdict s now until))
      | inr last ↦
          rw (group-minted s tier until h, last)
            (rw (until_first s tier until now h late) (close-verdict s now until))
    ]
