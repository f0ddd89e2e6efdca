-- ===== src/Policy/Domain.antt =====
-- `matchDomain` and `matchAny` of agent/policy/policy.go.
use dcr.Prelude.{
  ◌≡◌, refl, Bool, true, false, ◌||◌, ◌↔◌, ◌⊎◌, inl, inr, List, [], ◌∷◌, ◌++◌, Option, none, some,
  arith, if◌then◌else◌, Bool-cases, All,
}
use dcr.Prelude.Bytes.{Bytes, codes, str_eq}
use dcr.GoText.{to_lower, cut_prefix, has_suffix, has_prefix}
use dcr.GoText.Laws.{has_suffix_iff}

abbrev star_dot : Bytes
star_dot = codes "*."

abbrev pub wildcard_match : Option Bytes → Bytes → Bytes → Bool
wildcard_match (some rest) pattern host = has_suffix host (codes "." ++ rest) || str_eq host rest
wildcard_match none pattern host = str_eq host pattern

unfoldable pub match_domain : Bytes → Bytes → Bool
match_domain pattern host = wildcard_match (cut_prefix pattern (codes "*.")) pattern (to_lower host)

-- The first pattern that matches.
unfoldable pub match_any : List Bytes → Bytes → Option Bytes
match_any [] host = none
match_any (p ∷ ps) host = if match_domain p host then some p else match_any ps host

-- The hosts that a wildcard stands for: the domain itself, and what ends in a dot and the domain.
abbrev pub InDomain : Bytes → Bytes → Type 0
InDomain rest host = ((sub : Bytes) × (host ≡ sub ++ (codes "." ++ rest))) ⊎ (host ≡ rest)

cut_prefix_star : (rest : Bytes) → cut_prefix (codes "*." ++ rest) (codes "*.") ≡ some rest
unfolding cut_prefix has_prefix
cut_prefix_star rest = refl

wildcard_iff :
    (rest host : Bytes)
    → (has_suffix host (codes "." ++ rest) || str_eq host rest ≡ true) ↔ InDomain rest host
wildcard_iff rest host = (
  λ h. elim (Bool-cases (has_suffix host (codes "." ++ rest))) [
    | inl e ↦ inl ((has_suffix_iff host (codes "." ++ rest)).0 e)
    | inr e ↦ inr (ground arith)
  ],
  λ d. elim d [ inl p ↦ rw ((has_suffix_iff host (codes "." ++ rest)).1 p) | inr e ↦ ground arith ],
)

-- The pattern "*.rest" matches exactly the domain `rest` and its subdomains, in any case of the
-- host's letters: a host that merely ends in the letters of `rest` is not matched.
pub match_domain_wildcard :
    (rest host : Bytes)
    → (match_domain (codes "*." ++ rest) host ≡ true) ↔ InDomain rest (to_lower host)
unfolding match_domain
match_domain_wildcard rest host =
    rw (cut_prefix_star rest, wildcard_match) (wildcard_iff rest (to_lower host))

-- `match_any` gives a pattern of the list that matches, and `none` only when none does.
pub match_any-some :
    (ps : List Bytes) (host p : Bytes) → match_any ps host ≡ some p → match_domain p host ≡ true
unfolding match_any
match_any-some [] host p e = cc
match_any-some (q ∷ ps) host p e = ground (arith, match_any-some ps host p)

pub match_any-none :
    (ps : List Bytes) (host : Bytes)
    → (match_any ps host ≡ none) ↔ All (λ p. match_domain p host ≡ false) ps
unfolding match_any
match_any-none [] host = (λ _. tt, λ _. refl)
match_any-none (q ∷ ps) host = ground (arith, match_any-none ps host)
