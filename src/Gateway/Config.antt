-- ===== src/Gateway/Config.antt =====
-- gateway/config.go: the checks of a configuration and its resolved upstreams; `cleanPath` of
-- gateway/httpgate.go.
use dcr.Prelude.{
  Bool, true, false, not, ◌&&◌, ◌||◌, List, [], ◌∷◌, ◌++◌, Option, none, some, length, ltb, leb,
  ◌==◌, if◌then◌else◌,
}
use dcr.Prelude.Int64.{ℤ, pos, leb_ℤ}
use dcr.Prelude.Bytes.{Bytes, Dict, codes, str_eq, insert}
use dcr.GoText.{has_prefix}
use dcr.GoText.Words.{to_upper, fields}
use dcr.Gateway.{UpstreamConfig, Upstream, parse_dcr, mode_per_call, mode_credits}

-- `Config`, as far as `validate` and `ResolveUpstreams` read it.
pub record Config : Type 0 where
  pub listen : Bytes
  pub tls_cert : Bytes
  pub tls_key : Bytes
  pub network : Bytes
  pub service : Bytes
  pub pay_to : Bytes
  pub store : Bytes
  pub ln_host : Bytes
  pub ln_tls_cert : Bytes
  pub ln_macaroon : Bytes
  pub credits_enabled : Bool
  pub confirmations : ℤ
  pub upstreams : List UpstreamConfig

pub data Network : Type 0 where
  mainnet testnet3 simnet : Network

-- `NetworkFor`
unfoldable pub network_for : Bytes → Option Network
network_for name =
    if str_eq name (codes "mainnet")
    then some mainnet
    else if str_eq name (codes "testnet3")
    then some testnet3
    else if str_eq name (codes "simnet")
    then some simnet
    else none

abbrev pub is_some {ℓ} : {A : Type ℓ} → Option A → Bool
is_some none = false
is_some (some a) = true

infixl 1 ◌>>=◌
abbrev pub ◌>>=◌ {ℓ} : {A B : Type ℓ} → Option A → (A → Option B) → Option B
none >>= f = none
some a >>= f = f a

-- `url.Parse` of a target: its scheme and its host. `clean` is `path.Clean`.
pub record Urls : Type 0 where
  pub parse : Bytes → Option (Bytes × Bytes)
  pub clean : Bytes → Bytes

abbrev pub is_http : Option (Bytes × Bytes) → Bool
is_http none = false
is_http (some (scheme, host)) =
    (str_eq scheme (codes "http") || str_eq scheme (codes "https")) && not (str_eq host [])

-- The mode that is filled in.
abbrev pub with_mode : UpstreamConfig → UpstreamConfig
with_mode u = record u { mode = if str_eq u.mode [] then mode_per_call else u.mode }

abbrev pub add_price : Bytes → Option ℤ → Option (Dict ℤ) → Option (Dict ℤ)
add_price k none d = none
add_price k (some atoms) none = none
add_price k (some atoms) (some d) = some (insert k atoms d)

-- A price table in atoms, its keys rewritten. Of two entries that get one key the first is kept,
-- where the source keeps either, for a map has no order.
unfoldable pub resolve_prices : (Bytes → Bytes) → Dict Bytes → Option (Dict ℤ)
unfolding parse_dcr
resolve_prices key [] = some []
resolve_prices key ((k, v) ∷ d) = add_price (key k) (parse_dcr v) (resolve_prices key d)

-- A default price: 0 where there is none.
abbrev pub resolve_default : Bytes → Option ℤ
resolve_default v = if str_eq v [] then some (pos 0) else parse_dcr v

abbrev pub same_key : Bytes → Bytes
same_key k = k

-- `sort.Slice`, longest route first; routes of one length, whose order it leaves open, stay in
-- theirs.
unfoldable pub insert_upstream : Upstream → List Upstream → List Upstream
insert_upstream u [] = u ∷ []
insert_upstream u (v ∷ us) =
    let rest = insert_upstream u us in
    if leb (length v.route) (length u.route) then u ∷ v ∷ us else v ∷ rest

abbrev pub filled : Config → Option (List UpstreamConfig) → Option Config
filled c none = none
filled c (some us) = some (record c {
  upstreams = us;
  confirmations = if leb_ℤ c.confirmations (pos 0) then pos 2 else c.confirmations;
})

abbrev pub is_valid_head : Config → Bool
is_valid_head c =
    not (str_eq c.listen [])
    && is_some (network_for c.network)
    && not (str_eq c.service [])
    && length c.pay_to == 66
    && not (str_eq c.store [])
    && not (str_eq c.ln_host [] || str_eq c.ln_tls_cert [] || str_eq c.ln_macaroon [])
    && (if str_eq c.tls_cert [] then str_eq c.tls_key [] else not (str_eq c.tls_key []))
    && ltb 0 (length c.upstreams)

module _ (urls : Urls) where
  -- `cleanPath`
  abbrev pub clean_path : Bytes → Bytes
  clean_path p = if str_eq p [] then b'/' ∷ [] else urls.clean p

  -- One round of the loop of `validate`, on an upstream whose mode is filled in.
  unfoldable pub is_valid_upstream : Bool → UpstreamConfig → Bool
  is_valid_upstream credits_enabled u =
      (str_eq u.mode mode_per_call || str_eq u.mode mode_credits)
      && not (str_eq u.mode mode_credits && not credits_enabled)
      && has_prefix u.route (b'/' ∷ [])
      && is_http (urls.parse u.target)
      && not (has_prefix u.route (codes "/_dcr402"))

  -- The loop of `validate`: it stops at the first upstream that is refused.
  unfoldable pub validate_upstreams : Bool → List UpstreamConfig → Option (List UpstreamConfig)
  unfolding is_valid_upstream
  validate_upstreams credits_enabled [] = some []
  validate_upstreams credits_enabled (u ∷ us) =
      let rest = validate_upstreams credits_enabled us in
      if is_valid_upstream credits_enabled (with_mode u)
      then elim rest [ none ↦ none | some vs ↦ some (with_mode u ∷ vs) ]
      else none

  -- `validate`, with what it fills in.
  unfoldable pub validate : Config → Option Config
  unfolding validate_upstreams network_for
  validate c =
      if is_valid_head c then filled c (validate_upstreams c.credits_enabled c.upstreams) else none

  abbrev pub price_key : Bytes → List Bytes → Bytes
  price_key k (method ∷ path ∷ []) = to_upper method ++ (b' ' ∷ clean_path path)
  price_key k _ = k

  -- `normalizePriceKey`
  unfoldable pub normalize_price_key : Bytes → Bytes
  unfolding to_upper
  normalize_price_key k = price_key k (fields k)

  -- One round of the loop of `ResolveUpstreams`, on a target that parses.
  abbrev pub resolve_parsed : UpstreamConfig → Option Upstream
  resolve_parsed u = do
    prices ← resolve_prices normalize_price_key u.prices
    price_default ← resolve_default u.price_default
    tool_prices ← resolve_prices same_key u.tool_prices
    tool_price_default ← resolve_default u.tool_price_default
    some (record {
      route = u.route;
      target = u.target;
      mcp = u.mcp;
      mode = u.mode;
      prices = prices;
      price_default = price_default;
      tool_prices = tool_prices;
      tool_price_default = tool_price_default;
      free_tools = u.free_tools;
    })

  unfoldable pub resolve_upstream : UpstreamConfig → Option Upstream
  unfolding normalize_price_key resolve_prices parse_dcr
  resolve_upstream u = if is_some (urls.parse u.target) then resolve_parsed u else none

  -- `ResolveUpstreams`
  unfoldable pub resolve_upstreams : List UpstreamConfig → Option (List Upstream)
  unfolding resolve_upstream insert_upstream
  resolve_upstreams [] = some []
  resolve_upstreams (u ∷ us) = do
    v ← resolve_upstream u
    vs ← resolve_upstreams us
    some (insert_upstream v vs)
