-- ===== src/L402/Caveats/Attenuation.antt =====
-- A caveat that a holder appends only narrows what a token is good for, but for the checks that
-- fail where a caveat is missing.
use dcr.Prelude.{
  ◌≡◌, ◌≢◌, subst, Bool, true, false, List, [], ◌∷◌, ◌++◌, Option, All, arith, inl, inr, ◌⊎◌,
}
use dcr.Prelude.Bytes.{Bytes, lookup}
use dcr.GoText.{cut, sort_strings}
use dcr.L402.{
  Crypto, Result, ok, err, no_services, no_capabilities, Macaroon, attenuate, verify_signature,
}
use dcr.L402.Caveats.{
  VerifyOptions, Groups, values, add_value, group_caveats, Seen, verify_group, verify_groups, close,
  verify_caveats, verify_token,
}
use dcr.L402.Caveats.Chains.{result_cases}
use dcr.L402.Caveats.Grouping.{
  verify_group-append, Passes, All-imp, verify_groups-Passes, Passes-verify_groups,
  All-sort_strings, Fit, values-add_value, All-add_value, ValueFits, add_value_cases,
  Fit-group_caveats, group_caveats-append,
}

Passes-add_value :
    (o : VerifyOptions) (g g' : Groups) (cond val c : Bytes)
    → Fit g
    → add_value g (cond, val, true) ≡ ok g'
    → values g c ≢ []
    → Passes o g' c
    → Passes o g c
Passes-add_value o g g' cond val c f e some_value h = elim (values-add_value g g' cond val c e) [
  | inl grows ↦
      verify_group-append o c (values g c) val some_value (f.times c)
        (subst (λ vs. verify_group o c vs ≡ ok tt) grows h)
  | inr (_, keeps) ↦ subst (λ vs. verify_group o c vs ≡ ok tt) keeps h
]

All-zip {ℓ κ μ} :
    {A : Type ℓ} (P : A → Type κ) (Q : A → Type μ) (xs : List A)
    → All P xs
    → All Q xs
    → All (λ x. P x × Q x) xs
All-zip P Q [] p q = tt
All-zip P Q (x ∷ xs) p q = ((p.0, q.0), All-zip P Q xs p.1 q.1)

-- The groups before the last caveat pass where those with it do.
before :
    (o : VerifyOptions) (g g' : Groups) (t : Bytes × Bytes × Bool)
    → Fit g
    → add_value g t ≡ ok g'
    → All (Passes o g') (sort_strings g'.order)
    → All (Passes o g) (sort_strings g.order)
before o g g' t f e h =
    let (cond, val, is_pair) = add_value_cases g g' t e in
    let adds : add_value g (cond, val, true) ≡ ok g' =
      subst (λ u. add_value g u ≡ ok g') is_pair e in
    let kept =
      (All-add_value (Passes o g') g g' cond val adds).1
        ((All-sort_strings (Passes o g') g'.order).0 h) in
    (All-sort_strings (Passes o g) g.order).1 (
      All-imp g.order (λ c pq. Passes-add_value o g g' cond val c f adds pq.0 pq.1)
        (All-zip (λ c. values g c ≢ []) (Passes o g') g.order f.nonempty kept))

close_cases :
    (o : VerifyOptions) (seen : Seen)
    → (close o seen ≡ ok tt)
      ⊎ (close o seen ≡ err no_services)
      ⊎ (close o seen ≡ err no_capabilities)
unfolding close
close_cases o seen = ground arith

abbrev none_yet : Groups
none_yet = record { groups = []; order = [] }

abbrev nothing_seen : Seen
nothing_seen = record { services = false; caps = false }

none_yet-Fit : Fit none_yet
unfolding lookup
none_yet-Fit = record { nonempty = tt; times = λ c. tt }

-- What is left of a refusal: a caveat that a check needs is missing.
abbrev pub PassesOrMisses : Result (Unit {0}) → Type 0
PassesOrMisses r = (r ≡ ok tt) ⊎ (r ≡ err no_services) ⊎ (r ≡ err no_capabilities)

verify_caveats-append :
    (o : VerifyOptions) (caveats : List Bytes) (cav : Bytes)
    → All ValueFits caveats
    → verify_caveats (caveats ++ (cav ∷ [])) o ≡ ok tt
    → PassesOrMisses (verify_caveats caveats o)
unfolding verify_caveats
verify_caveats-append o caveats cav fits h =
    elim (result_cases (group_caveats none_yet (caveats ++ (cav ∷ [])))) [
      | inr (e, fails) ↦ ground arith
      | inl (g', groups) ↦
          let (g, shorter, adds) = group_caveats-append none_yet g' caveats cav groups in
          elim (result_cases (verify_groups o g' (sort_strings g'.order) nothing_seen)) [
            | inr (e, fails) ↦ ground arith
            | inl (seen', passes') ↦
                let f = Fit-group_caveats none_yet g caveats fits shorter none_yet-Fit in
                let passes =
                  before o g g' (cut cav b'=') f adds (
                    verify_groups-Passes o g' (sort_strings g'.order) nothing_seen seen' passes') in
                let (seen, goes) =
                  Passes-verify_groups o g (sort_strings g.order) nothing_seen passes in
                rw (shorter, goes) (close_cases o seen)
          ]
    ]

-- When a token with one more caveat is accepted, and its signature verifies without that caveat,
-- then the token without it is accepted too, for the same preimage and request, unless it is
-- refused for want of a `services` or a capabilities caveat. The times in its caveats are in the
-- range of `time.Unix`.
pub verify_token-attenuate :
    (crypto : Crypto) (root_key : Bytes) (m : Macaroon) (cav : Bytes) (preimage : Option Bytes)
    (o : VerifyOptions)
    → All ValueFits m.caveats
    → verify_signature crypto root_key m ≡ true
    → verify_token crypto root_key (attenuate crypto m cav) preimage o ≡ ok tt
    → PassesOrMisses (verify_token crypto root_key m preimage o)
unfolding verify_token attenuate
verify_token-attenuate crypto root_key m cav preimage o fits signed h =
    ground (arith, verify_caveats-append o m.caveats cav fits)
