-- ===== src/Gateway/Routes.antt =====
-- The upstream whose service metadata a challenge for a path carries (`upFor` of gateway/dcrgw).
use dcr.Prelude.{
  ℕ, ◌≡◌, ◌≢◌, subst, ◌&&◌, ltb, inl, inr, sym, ◌∙◌, Bool, true, false, List, [], ◌∷◌, Option, none,
  some, length, arith, Bool-cases, Option-cases, ◌≤◌, ◌⊎◌, All,
}
use mathlib.Core.List.{Mem, mem-cons_self, mem-cons_of_mem}
use dcr.Prelude.Bytes.{Bytes}
use dcr.GoText.{has_prefix}
use dcr.Gateway.{Upstream, up_for_from, up_for}

-- No route that the path begins with is longer than the length.
abbrev pub IsBound : Bytes → ℕ → List Upstream → Type 0
IsBound path n [] = Unit
IsBound path n (u ∷ us) = (has_prefix path u.route ≡ true → length u.route ≤ n) × IsBound path n us

IsBound-mono :
    (path : Bytes) (n k : ℕ) (us : List Upstream) → n ≤ k → IsBound path n us → IsBound path k us
IsBound-mono path n k [] le bound = tt
IsBound-mono path n k (u ∷ us) le bound =
    ((λ p. let q = bound.0 p in omega arith), IsBound-mono path n k us le bound.1)

-- The found upstream is among the upstreams or the one to begin with, its route begins the path and
-- is at least as long as the one to begin with.
abbrev Found : Bytes → Option Upstream → List Upstream → Upstream → Type 0
Found path none us u = (has_prefix path u.route ≡ true) × IsBound path (length u.route) us
Found path (some best) us u =
    (has_prefix path best.route ≡ true
      → (has_prefix path u.route ≡ true)
        × (length best.route ≤ length u.route)
        × IsBound path (length u.route) us)

some-inj : (a b : Upstream) → some a ≡ some b → a ≡ b
some-inj a b e = cc

true-not-false : true ≢ false
true-not-false e = cc

and-true : (a b : Bool) → (a && b) ≡ true → (a ≡ true) × (b ≡ true)
and-true a b e = ground arith

longer_lem : (n k : ℕ) → ltb n k ≡ true → n ≤ k
longer_lem n k e = ground arith

omega_le : (a b c : ℕ) → a ≤ b → b ≤ c → a ≤ c
omega_le a b c p q = omega arith

not_longer : (fits : Bool) (n k : ℕ) → (fits && ltb n k) ≡ false → fits ≡ true → k ≤ n
not_longer fits n k e p = ground arith

up_for_from-Found :
    (path : Bytes) (best : Option Upstream) (us : List Upstream) (u : Upstream)
    → up_for_from path best us ≡ some u
    → Found path best us u
unfolding up_for_from
up_for_from-Found path none [] u e = absurd cc
up_for_from-Found path (some best) [] u e =
    let same : best ≡ u = some-inj best u e in
    λ p. (
      subst (λ x. has_prefix path x.route ≡ true) same p,
      subst (λ x. length best.route ≤ length x.route) same (omega arith),
      tt,
    )
up_for_from-Found path none (v ∷ us) u e = elim (Bool-cases (has_prefix path v.route)) [
  | inl fits ↦
      let e' : up_for_from path (some v) us ≡ some u = rw (fits, up_for_from) at e in
      let found = up_for_from-Found path (some v) us u e' fits in
      (found.0, ((λ p. found.1), found.2))
  | inr misses ↦
      let e' : up_for_from path none us ≡ some u = rw (misses, up_for_from) at e in
      let found = up_for_from-Found path none us u e' in
      (found.0, ((λ p. absurd (true-not-false (sym p ∙ misses))), found.1))
]
up_for_from-Found path (some best) (v ∷ us) u e =
    elim (Bool-cases (has_prefix path v.route && ltb (length best.route) (length v.route))) [
      | inl longer ↦
          let e' : up_for_from path (some v) us ≡ some u = rw (longer, up_for_from) at e in
          let fits = and-true (has_prefix path v.route) _ longer in
          let more : length best.route ≤ length v.route =
            longer_lem (length best.route) (length v.route) fits.1 in
          let found = up_for_from-Found path (some v) us u e' fits.0 in
          λ p. (
            found.0,
            omega_le (length best.route) (length v.route) (length u.route) more found.1,
            ((λ q. found.1), found.2),
          )
      | inr shorter ↦
          let e' : up_for_from path (some best) us ≡ some u = rw (shorter, up_for_from) at e in
          λ p.
            let found = up_for_from-Found path (some best) us u e' p in
            (
              found.0,
              found.1,
              (
                (λ q.
                    omega_le (length v.route) (length best.route) (length u.route)
                      (not_longer (has_prefix path v.route) (length best.route) (length v.route)
                        shorter q)
                      found.1),
                found.2,
              ),
            )
    ]

-- No route begins the path.
abbrev pub NoRoute : Bytes → List Upstream → Type 0
NoRoute path = All (λ u. has_prefix path u.route ≡ false)

-- The upstream is one of them, its route begins the path, and every route that begins the path is at
-- most as long.
abbrev pub Chosen : Bytes → List Upstream → Upstream → Type 0
Chosen path us u = Mem u us × (has_prefix path u.route ≡ true) × IsBound path (length u.route) us

keeps_some :
    (path : Bytes) (best : Upstream) (us : List Upstream) → up_for_from path (some best) us ≢ none
unfolding up_for_from
keeps_some path best [] e = cc
keeps_some path best (v ∷ us) e =
    elim (Bool-cases (has_prefix path v.route && ltb (length best.route) (length v.route))) [
      | inl longer ↦ keeps_some path v us (rw (longer, up_for_from) at e)
      | inr shorter ↦ keeps_some path best us (rw (shorter, up_for_from) at e)
    ]

up_for_from-NoRoute :
    (path : Bytes) (us : List Upstream) → up_for_from path none us ≡ none → NoRoute path us
unfolding up_for_from
up_for_from-NoRoute path [] e = tt
up_for_from-NoRoute path (v ∷ us) e = elim (Bool-cases (has_prefix path v.route)) [
  | inl fits ↦ absurd (keeps_some path v us (rw (fits, up_for_from) at e))
  | inr misses ↦ (misses, up_for_from-NoRoute path us (rw (misses, up_for_from) at e))
]

Among : Option Upstream → List Upstream → Upstream → Type 0
Among none us u = Mem u us
Among (some best) us u = (best ≡ u) ⊎ Mem u us

up_for_from-Mem :
    (path : Bytes) (best : Option Upstream) (us : List Upstream) (u : Upstream)
    → up_for_from path best us ≡ some u
    → Among best us u
unfolding up_for_from Among
up_for_from-Mem path none [] u e = absurd cc
up_for_from-Mem path (some best) [] u e = inl (some-inj best u e)
up_for_from-Mem path none (v ∷ us) u e = elim (Bool-cases (has_prefix path v.route)) [
  | inl fits ↦ elim (up_for_from-Mem path (some v) us u (rw (fits, up_for_from) at e)) [
    | inl same ↦ subst (λ x. Mem x (v ∷ us)) same mem-cons_self
    | inr later ↦ mem-cons_of_mem v later
  ]
  | inr misses ↦ mem-cons_of_mem v (up_for_from-Mem path none us u (rw (misses, up_for_from) at e))
]
up_for_from-Mem path (some best) (v ∷ us) u e =
    elim (Bool-cases (has_prefix path v.route && ltb (length best.route) (length v.route))) [
      | inl longer ↦ elim (up_for_from-Mem path (some v) us u (rw (longer, up_for_from) at e)) [
        | inl same ↦ inr (subst (λ x. Mem x (v ∷ us)) same mem-cons_self)
        | inr later ↦ inr (mem-cons_of_mem v later)
      ]
      | inr shorter ↦
          elim (up_for_from-Mem path (some best) us u (rw (shorter, up_for_from) at e)) [
            | inl same ↦ inl same
            | inr later ↦ inr (mem-cons_of_mem v later)
          ]
    ]

-- The upstream whose service metadata a challenge for the path carries. There is none exactly where
-- no upstream's route begins the path; else it is one of the upstreams, its route begins the path,
-- and every other route that begins the path is at most as long.
pub up_for_longest :
    (path : Bytes) (us : List Upstream)
    → ((up_for us path ≡ none) × NoRoute path us)
      ⊎ ((u : Upstream) × (up_for us path ≡ some u) × Chosen path us u)
unfolding up_for Among
up_for_longest path us = elim (Option-cases (up_for_from path none us)) [
  | inl nobody ↦ inl (nobody, up_for_from-NoRoute path us nobody)
  | inr (u, found) ↦ inr (
    u,
    found,
    (
      up_for_from-Mem path none us u found,
      (up_for_from-Found path none us u found).0,
      (up_for_from-Found path none us u found).1,
    ),
  )
]
