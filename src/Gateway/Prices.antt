-- ===== src/Gateway/Prices.antt =====
-- What the resolved prices are.
use dcr.Prelude.{
  ◌≡◌, inl, inr, refl, Bool, List, [], ◌∷◌, Option, none, some, length, arith, Bool-cases,
  Option-cases, subst, leb, if◌then◌else◌,
}
use dcr.Prelude.Int64.{ℤ, pos, ◌≤ℤ◌}
use dcr.Prelude.Bytes.{Bytes, Dict, codes, str_eq, insert}
use dcr.GoText.{trim_space, cut, parse_int}
use dcr.Gateway.{
  UpstreamConfig, Upstream, not_negative, in_range, parse_fraction, with_fraction, parse_cut,
  parse_dcr,
}
use dcr.Gateway.Config.{
  Urls, ◌>>=◌, is_some, resolve_parsed, resolve_prices, resolve_default, resolve_upstream,
  insert_upstream, resolve_upstreams, add_price, normalize_price_key, same_key,
}

some-inj : {A : Type 0} (a b : A) → some a ≡ some b → a ≡ b
some-inj a b e = cc

in_range-positive : (w f n : ℤ) → in_range w f ≡ some n → pos 1 ≤ℤ n
in_range-positive w f n e = ground arith

with_fraction-positive : (w : ℤ) (f : Option ℤ) (n : ℤ) → with_fraction w f ≡ some n → pos 1 ≤ℤ n
with_fraction-positive w none n e = absurd cc
with_fraction-positive w (some f) n e = in_range-positive w f n e

parse_cut-positive : (c : Bytes × Bytes × Bool) (n : ℤ) → parse_cut c ≡ some n → pos 1 ≤ℤ n
unfolding parse_cut
parse_cut-positive (whole, frac, has_frac) n e =
    elim (Option-cases (not_negative (parse_int (if str_eq whole [] then codes "0" else whole)))) [
      | inl broken ↦ let e' : none ≡ some n = rw (broken, parse_cut) at e in absurd cc
      | inr (w, reads) ↦
          with_fraction-positive w (parse_fraction frac has_frac) n (rw (reads, parse_cut) at e)
    ]

parse_dcr-positive : (s : Bytes) (n : ℤ) → parse_dcr s ≡ some n → pos 1 ≤ℤ n
unfolding parse_dcr
parse_dcr-positive s n e = elim (Bool-cases (str_eq (trim_space s) [])) [
  | inl empty ↦ let e' : none ≡ some n = rw (empty, parse_dcr) at e in absurd cc
  | inr some_text ↦ parse_cut-positive (cut (trim_space s) b'.') n (rw (some_text, parse_dcr) at e)
]

-- Every price of a table is positive.
abbrev pub IsPriced : Dict ℤ → Type 0
IsPriced [] = Unit
IsPriced ((k, n) ∷ d) = (pos 1 ≤ℤ n) × IsPriced d

insert-IsPriced :
    (k : Bytes) (n : ℤ) (d : Dict ℤ) → pos 1 ≤ℤ n → IsPriced d → IsPriced (insert k n d)
unfolding insert
insert-IsPriced k n [] p ps = (p, tt)
insert-IsPriced k n ((j, v) ∷ d) p (q, ps) = elim (Bool-cases (str_eq j k)) [
  | inl same ↦ rw (same, insert) (p, ps)
  | inr other ↦ rw (other, insert) (q, insert-IsPriced k n d p ps)
]

add_price-IsPriced :
    (k : Bytes) (p : Option ℤ) (d : Option (Dict ℤ)) (t : Dict ℤ)
    → ((n : ℤ) → p ≡ some n → pos 1 ≤ℤ n)
    → ((t' : Dict ℤ) → d ≡ some t' → IsPriced t')
    → add_price k p d ≡ some t
    → IsPriced t
add_price-IsPriced k none d t ps ds e = absurd cc
add_price-IsPriced k (some n) none t ps ds e = absurd cc
add_price-IsPriced k (some n) (some t') t ps ds e =
    let same : insert k n t' ≡ t = some-inj (insert k n t') t e in
    subst IsPriced same (insert-IsPriced k n t' (ps n refl) (ds t' refl))

resolve_prices-IsPriced :
    (key : Bytes → Bytes) (d : Dict Bytes) (t : Dict ℤ) → resolve_prices key d ≡ some t → IsPriced t
unfolding resolve_prices
resolve_prices-IsPriced key [] t e = let same : [] ≡ t = some-inj [] t e in subst IsPriced same tt
resolve_prices-IsPriced key ((k, v) ∷ d) t e =
    add_price-IsPriced (key k) (parse_dcr v) (resolve_prices key d) t (parse_dcr-positive v)
      (resolve_prices-IsPriced key d) e

resolve_default-nonnegative : (v : Bytes) (n : ℤ) → resolve_default v ≡ some n → pos 0 ≤ℤ n
resolve_default-nonnegative v n e = elim (Bool-cases (str_eq v [])) [
  | inl absent ↦ let e' : some (pos 0) ≡ some n = rw absent at e in ground arith
  | inr given ↦ let p = parse_dcr-positive v n (rw given at e) in ground arith
]

-- The prices of an upstream: those of its tables are positive, and a default is not negative.
abbrev pub HasPrices : Upstream → Type 0
HasPrices u =
    IsPriced u.prices
    × (pos 0 ≤ℤ u.price_default)
    × IsPriced u.tool_prices
    × (pos 0 ≤ℤ u.tool_price_default)

abbrev pub AllPriced : List Upstream → Type 0
AllPriced [] = Unit
AllPriced (u ∷ us) = HasPrices u × AllPriced us

insert_upstream-AllPriced :
    (u : Upstream) (us : List Upstream)
    → HasPrices u
    → AllPriced us
    → AllPriced (insert_upstream u us)
unfolding insert_upstream
insert_upstream-AllPriced u [] p ps = (p, tt)
insert_upstream-AllPriced u (v ∷ us) p (q, ps) =
    elim (Bool-cases (leb (length v.route) (length u.route))) [
      | inl first ↦ rw (first, insert_upstream) (p, (q, ps))
      | inr later ↦ rw (later, insert_upstream) (q, insert_upstream-AllPriced u us p ps)
    ]

bind-some :
    {A B : Type 0} (o : Option A) (f : A → Option B) (b : B)
    → (o >>= f) ≡ some b
    → (a : A) × (o ≡ some a) × (f a ≡ some b)
bind-some none f b e = absurd cc
bind-some (some a) f b e = (a, refl, e)

module _ (urls : Urls) where
  resolve_upstream-HasPrices :
      (c : UpstreamConfig) (u : Upstream) → resolve_upstream urls c ≡ some u → HasPrices u
  unfolding resolve_upstream
  resolve_upstream-HasPrices c u e = elim (Bool-cases (is_some (urls.parse c.target))) [
    | inr broken ↦ let e' : none ≡ some u = rw (broken, resolve_upstream) at e in absurd cc
    | inl reads ↦
        let e0 : resolve_parsed urls c ≡ some u = rw (reads, resolve_upstream) at e in
        let (prices, is_prices, e1) = bind-some _ _ u e0 in
        let (price, is_price, e2) = bind-some _ _ u e1 in
        let (tools, is_tools, e3) = bind-some _ _ u e2 in
        let (tool, is_tool, e4) = bind-some _ _ u e3 in
        subst HasPrices (some-inj _ u e4) (
          resolve_prices-IsPriced (normalize_price_key urls) c.prices prices is_prices,
          resolve_default-nonnegative c.price_default price is_price,
          resolve_prices-IsPriced same_key c.tool_prices tools is_tools,
          resolve_default-nonnegative c.tool_price_default tool is_tool,
        )
  ]

  -- Every price that the gateway charges comes from a configured amount that was read as positive:
  -- where the upstreams resolve, the prices in their tables are at least one atom, and the defaults,
  -- whose 0 stands for no price, are not negative.
  pub resolved_prices_positive :
      (cs : List UpstreamConfig) (us : List Upstream)
      → resolve_upstreams urls cs ≡ some us
      → AllPriced us
  unfolding resolve_upstreams
  resolved_prices_positive [] us e =
      let same : [] ≡ us = some-inj [] us e in subst AllPriced same tt
  resolved_prices_positive (c ∷ cs) us e =
      let (v, is_v, e1) = bind-some (resolve_upstream urls c) _ us e in
      let (vs, is_vs, e2) = bind-some (resolve_upstreams urls cs) _ us e1 in
      subst AllPriced (some-inj (insert_upstream v vs) us e2) (
        insert_upstream-AllPriced v vs (resolve_upstream-HasPrices c v is_v)
          (resolved_prices_positive cs vs is_vs))
