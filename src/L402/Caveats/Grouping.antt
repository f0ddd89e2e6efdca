-- ===== src/L402/Caveats/Grouping.antt =====
-- The groups of the caveats, and what a pass of the loop over them says of each group.
use dcr.Prelude.{
  ◌≡◌, ◌≢◌, ◌∙◌, refl, sym, ap, subst, Bool, true, false, List, [], ◌∷◌, ◌++◌, All, All-append,
  arith, Bool-cases, Option-cases, inl, inr, ◌⊎◌,
}
use dcr.Prelude.Bytes.{Bytes, lookup, lookup-insert, str_eq}
use dcr.GoText.Laws.{All-append_split}
use dcr.GoText.{cut, trim_suffix, string_leb, insert_sorted, sort_strings}
use dcr.L402.{ok}
use dcr.L402.Caveats.{
  VerifyOptions, Groups, values, add_value, group_caveats, Seen, verify_group, see, verify_groups,
  caveat_caps_sfx,
}
use dcr.L402.Caveats.Chains.{
  FitsUnix, result_cases, verify_services_chain-append, verify_caps_chain-append,
  verify_valid_until_chain-append,
}

pub verify_group-append :
    (o : VerifyOptions) (cond : Bytes) (vals : List Bytes) (v : Bytes)
    → vals ≢ []
    → All FitsUnix vals
    → verify_group o cond (vals ++ (v ∷ [])) ≡ ok tt
    → verify_group o cond vals ≡ ok tt
unfolding verify_group
verify_group-append o cond [] v some_value fits h = ground arith
verify_group-append o cond (u ∷ vals) v some_value fits h = ground (
  arith,
  verify_services_chain-append (u ∷ vals) v o.service some_value,
  verify_caps_chain-append (u ∷ vals) v (trim_suffix cond caveat_caps_sfx) o some_value,
  verify_valid_until_chain-append u vals v o.now fits.0,
)

abbrev pub Passes : VerifyOptions → Groups → Bytes → Type 0
Passes o g cond = verify_group o cond (values g cond) ≡ ok tt

pub All-imp {ℓ κ μ} :
    {A : Type ℓ} {P : A → Type κ} {Q : A → Type μ} (xs : List A)
    → ((x : A) → P x → Q x)
    → All P xs
    → All Q xs
All-imp [] f h = tt
All-imp (x ∷ xs) f h = (f x h.0, All-imp xs f h.1)

unit_eq : (u : Unit {0}) → u ≡ tt
unit_eq u = refl

-- The loop passes only where each group does.
pub verify_groups-Passes :
    (o : VerifyOptions) (g : Groups) (conds : List Bytes) (seen seen' : Seen)
    → verify_groups o g conds seen ≡ ok seen'
    → All (Passes o g) conds
unfolding verify_groups
verify_groups-Passes o g [] seen seen' h = tt
verify_groups-Passes o g (cond ∷ conds) seen seen' h =
    elim (result_cases (verify_group o cond (values g cond))) [
      | inr (e, fails) ↦ ground arith
      | inl (done, passes) ↦ (
        passes ∙ ap ok (unit_eq done),
        verify_groups-Passes o g conds (see o cond seen) seen' (rw (passes, verify_groups) at h),
      )
    ]

pub Passes-verify_groups :
    (o : VerifyOptions) (g : Groups) (conds : List Bytes) (seen : Seen)
    → All (Passes o g) conds
    → (seen' : Seen) × (verify_groups o g conds seen ≡ ok seen')
unfolding verify_groups
Passes-verify_groups o g [] seen h = (seen, refl)
Passes-verify_groups o g (cond ∷ conds) seen h =
    rw h.0 (Passes-verify_groups o g conds (see o cond seen) h.1)

insert_sorted-All {κ} :
    (P : Bytes → Type κ) (s : Bytes) (xs : List Bytes) → P s → All P xs → All P (insert_sorted s xs)
unfolding insert_sorted
insert_sorted-All P s [] p h = (p, tt)
insert_sorted-All P s (x ∷ xs) p h = elim (Bool-cases (string_leb s x)) [
  | inl e ↦ rw e (p, h)
  | inr e ↦ rw e (h.0, insert_sorted-All P s xs p h.1)
]

All-insert_sorted {κ} :
    (P : Bytes → Type κ) (s : Bytes) (xs : List Bytes) → All P (insert_sorted s xs) → P s × All P xs
unfolding insert_sorted
All-insert_sorted P s [] h = h
All-insert_sorted P s (x ∷ xs) h = elim (Bool-cases (string_leb s x)) [
  | inl e ↦ rw (e, insert_sorted) at h
  | inr e ↦
      let there = rw (e, insert_sorted) at h in
      let (p, rest) = All-insert_sorted P s xs there.1 in (p, (there.0, rest))
]

pub All-sort_strings {κ} :
    (P : Bytes → Type κ) (xs : List Bytes)
    → (All P (sort_strings xs) → All P xs) × (All P xs → All P (sort_strings xs))
unfolding sort_strings
All-sort_strings P [] = (λ h. h, λ h. h)
All-sort_strings P (x ∷ xs) = (
  λ h.
      let (p, rest) = All-insert_sorted P x (sort_strings xs) h in
      (p, (All-sort_strings P xs).0 rest),
  λ h. insert_sorted-All P x (sort_strings xs) h.0 ((All-sort_strings P xs).1 h.1),
)

-- Every group in the order has a value, and every value that is a time is in the range of
-- `time.Unix`.
pub record Fit (g : Groups) : Type 0 where
  pub nonempty : All (λ cond. values g cond ≢ []) g.order
  pub times : (cond : Bytes) → All FitsUnix (values g cond)

-- What the map holds of a condition after one more caveat: one value more, or what it held.
pub values-add_value :
    (g g' : Groups) (cond val c : Bytes)
    → add_value g (cond, val, true) ≡ ok g'
    → (values g' c ≡ values g c ++ (val ∷ [])) ⊎ ((cond ≢ c) × (values g' c ≡ values g c))
values-add_value g g' cond val c e = elim (Bool-cases (str_eq cond c)) [
  | inl same ↦ inl (ground (arith, lookup-insert c cond (values g cond ++ (val ∷ [])) g.groups))
  | inr other ↦
      inr
        (ground arith, ground (arith, lookup-insert c cond (values g cond ++ (val ∷ [])) g.groups))
]

order-add_value :
    (g g' : Groups) (cond val : Bytes)
    → add_value g (cond, val, true) ≡ ok g'
    → (g'.order ≡ g.order) ⊎ (g'.order ≡ g.order ++ (cond ∷ []))
order-add_value g g' cond val e = elim (Option-cases (lookup cond g.groups)) [
  | inl new ↦ inr (ground arith)
  | inr (vs, seen) ↦ inl (ground arith)
]

append-ne-nil : (xs : List Bytes) (x : Bytes) → xs ++ (x ∷ []) ≢ []
append-ne-nil [] x e = ground arith
append-ne-nil (y ∷ xs) x e = ground arith

nonempty-add_value :
    (g g' : Groups) (cond val c : Bytes)
    → add_value g (cond, val, true) ≡ ok g'
    → (values g c ≢ []) ⊎ (cond ≡ c)
    → values g' c ≢ []
nonempty-add_value g g' cond val c e why none_left = elim (values-add_value g g' cond val c e) [
  | inl grows ↦ append-ne-nil (values g c) val (sym grows ∙ none_left)
  | inr (other, keeps) ↦ elim why [
    | inl some_value ↦ some_value (sym keeps ∙ none_left)
    | inr same ↦ other same
  ]
]

times-add_value :
    (g g' : Groups) (cond val c : Bytes)
    → add_value g (cond, val, true) ≡ ok g'
    → FitsUnix val
    → All FitsUnix (values g c)
    → All FitsUnix (values g' c)
times-add_value g g' cond val c e fits f = elim (values-add_value g g' cond val c e) [
  | inl grows ↦
      subst (All FitsUnix) (sym grows) (All-append FitsUnix (values g c) (val ∷ []) f (fits, tt))
  | inr (_, keeps) ↦ subst (All FitsUnix) (sym keeps) f
]

-- The order with one caveat more keeps what held of each condition in it.
pub All-add_value {κ} :
    (P : Bytes → Type κ) (g g' : Groups) (cond val : Bytes)
    → add_value g (cond, val, true) ≡ ok g'
    → (All P g.order → P cond → All P g'.order) × (All P g'.order → All P g.order)
All-add_value P g g' cond val e = elim (order-add_value g g' cond val e) [
  | inl same ↦ (λ h p. subst (All P) (sym same) h, λ h. subst (All P) same h)
  | inr grows ↦ (
    λ h p. subst (All P) (sym grows) (All-append P g.order (cond ∷ []) h (p, tt)),
    λ h. (All-append_split P g.order (cond ∷ []) (subst (All P) grows h)).0,
  )
]

pub Fit-add_value :
    (g g' : Groups) (cond val : Bytes)
    → FitsUnix val
    → add_value g (cond, val, true) ≡ ok g'
    → Fit g
    → Fit g'
Fit-add_value g g' cond val fits e f = record {
  nonempty =
      (All-add_value (λ c. values g' c ≢ []) g g' cond val e).0
        (All-imp g.order (λ c h. nonempty-add_value g g' cond val c e (inl h)) f.nonempty)
        (nonempty-add_value g g' cond val cond e (inr refl));
  times = λ c. times-add_value g g' cond val c e fits (f.times c);
}

-- The value of a caveat, and what `FitsUnix` asks of it.
abbrev pub ValueFits : Bytes → Type 0
ValueFits cav = let (_, val, _) = cut cav b'=' in FitsUnix val

pub add_value_cases :
    (g g' : Groups) (t : Bytes × Bytes × Bool)
    → add_value g t ≡ ok g'
    → (cond : Bytes) × (val : Bytes) × (t ≡ (cond, val, true))
add_value_cases g g' (cond, val, true) h = (cond, val, refl)
add_value_cases g g' (cond, val, false) h = ground arith

Fit-add :
    (g g' : Groups) (t : Bytes × Bytes × Bool)
    → FitsUnix t.1
    → add_value g t ≡ ok g'
    → Fit g
    → Fit g'
Fit-add g g' (cond, val, true) fits h f = Fit-add_value g g' cond val fits h f
Fit-add g g' (cond, val, false) fits h f = ground arith

pub Fit-group_caveats :
    (g g' : Groups) (caveats : List Bytes)
    → All ValueFits caveats
    → group_caveats g caveats ≡ ok g'
    → Fit g
    → Fit g'
unfolding group_caveats
Fit-group_caveats g g' [] fits h f = ground arith
Fit-group_caveats g g' (cav ∷ caveats) fits h f = elim (result_cases (add_value g (cut cav b'='))) [
  | inr (e, fails) ↦ ground arith
  | inl (mid, adds) ↦
      Fit-group_caveats mid g' caveats fits.1 (rw (adds, group_caveats) at h)
        (Fit-add g mid (cut cav b'=') fits.0 adds f)
]

pub group_caveats-append :
    (g g' : Groups) (caveats : List Bytes) (cav : Bytes)
    → group_caveats g (caveats ++ (cav ∷ [])) ≡ ok g'
    → (mid : Groups) × (group_caveats g caveats ≡ ok mid) × (add_value mid (cut cav b'=') ≡ ok g')
unfolding group_caveats
group_caveats-append g g' [] cav h =
    (g, refl, ground (arith, result_cases (add_value g (cut cav b'='))))
group_caveats-append g g' (c ∷ caveats) cav h = elim (result_cases (add_value g (cut c b'='))) [
  | inr (e, fails) ↦ ground arith
  | inl (next, adds) ↦
      let (mid, groups, last) =
        group_caveats-append next g' caveats cav (rw (adds, group_caveats) at h) in
      (mid, rw (adds, group_caveats) groups, last)
]
