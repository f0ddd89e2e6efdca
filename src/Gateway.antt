-- ===== src/Gateway.antt =====
-- gateway/config.go: prices and the configuration of the gateway daemon. The URL parser and
-- `path.Clean` are parameters. A configuration is read from YAML; a price table has one entry per
-- key.
pub mod Config
pub mod Mcp
pub mod Http
pub mod Prices
pub mod Routes
use dcr.Prelude.{
  ℕ, ◌+◌, ◌-◌, ◌*◌, ◌≡◌, Bool, true, false, not, ◌&&◌, ◌||◌, List, [], ◌∷◌, ◌++◌, Option, none,
  some, length, replicate, ltb, leb, ◌==◌, if◌then◌else◌,
}
use dcr.Prelude.Int64.{ℤ, pos, wrap, ltb_ℤ, leb_ℤ, add64, pos_part, neg_part, sub_ℕ}
use dcr.Prelude.Bytes.{Bytes, Dict, codes, str_eq, lookup, insert}
use dcr.GoText.{trim_space, cut, parse_int, has_prefix}
use dcr.GoText.Words.{to_upper, fields}

abbrev pub atoms_per_dcr : ℕ
atoms_per_dcr = 100_000_000

-- `(1<<63-1)/atomsPerDCR-1`
abbrev pub max_whole : ℕ
max_whole = 92_233_720_367

-- `ParseInt` and the test for a sign, which the source makes of both parts.
abbrev pub not_negative : Option ℤ → Option ℤ
not_negative none = none
not_negative (some w) = if ltb_ℤ w (pos 0) then none else some w

-- `atoms` of the whole part and the fraction, in int64.
abbrev pub atoms_of : ℤ → ℤ → ℤ
atoms_of w f = add64 (wrap (sub_ℕ (pos_part w * atoms_per_dcr) (neg_part w * atoms_per_dcr))) f

abbrev pub in_range : ℤ → ℤ → Option ℤ
in_range w f =
    if ltb_ℤ (pos max_whole) w
    then none
    else if leb_ℤ (atoms_of w f) (pos 0)
    then none
    else some (atoms_of w f)

-- The fraction in atoms.
unfoldable pub parse_fraction : Bytes → Bool → Option ℤ
parse_fraction frac false = some (pos 0)
parse_fraction frac true =
    if str_eq frac [] || ltb 8 (length frac)
    then none
    else not_negative (parse_int (frac ++ replicate (8 - length frac) b'0'))

abbrev pub with_fraction : ℤ → Option ℤ → Option ℤ
with_fraction w none = none
with_fraction w (some f) = in_range w f

unfoldable pub parse_cut : Bytes × Bytes × Bool → Option ℤ
unfolding parse_fraction
parse_cut (whole, frac, has_frac) =
    elim (not_negative (parse_int (if str_eq whole [] then codes "0" else whole))) [
      | none ↦ none
      | some w ↦ with_fraction w (parse_fraction frac has_frac)
    ]

-- `ParseDCR`
unfoldable pub parse_dcr : Bytes → Option ℤ
unfolding parse_cut
parse_dcr s = let t = trim_space s in if str_eq t [] then none else parse_cut (cut t b'.')

-- `ModePerCall`, `ModeCredits`, and any other word of a configuration.
abbrev pub mode_per_call : Bytes
mode_per_call = codes "percall"

abbrev pub mode_credits : Bytes
mode_credits = codes "credits"

-- `UpstreamConfig`
pub record UpstreamConfig : Type 0 where
  pub route : Bytes
  pub target : Bytes
  pub mcp : Bool
  pub mode : Bytes
  pub prices : Dict Bytes
  pub price_default : Bytes
  pub tool_prices : Dict Bytes
  pub tool_price_default : Bytes
  pub free_tools : List Bytes

-- `Upstream`: prices are in atoms, and 0 is no price.
pub record Upstream : Type 0 where
  pub route : Bytes
  pub target : Bytes
  pub mcp : Bool
  pub mode : Bytes
  pub prices : Dict ℤ
  pub price_default : ℤ
  pub tool_prices : Dict ℤ
  pub tool_price_default : ℤ
  pub free_tools : List Bytes

abbrev pub price_or : ℤ → Option ℤ → ℤ
price_or fallback none = fallback
price_or fallback (some atoms) = atoms

-- `PriceFor`
unfoldable pub price_for : Upstream → Bytes → Bytes → ℤ
price_for u method path =
    price_or u.price_default (lookup (to_upper method ++ (b' ' ∷ path)) u.prices)

unfoldable pub is_free_tool : Bytes → List Bytes → Bool
is_free_tool tool [] = false
is_free_tool tool (name ∷ names) = str_eq tool name || is_free_tool tool names

-- `ToolPriceFor`
unfoldable pub tool_price_for : Upstream → Bytes → ℤ
unfolding is_free_tool
tool_price_for u tool =
    if is_free_tool tool u.free_tools
    then pos 0
    else price_or u.tool_price_default (lookup tool u.tool_prices)

-- The upstream whose metadata a challenge carries (`upFor`): that of the longest route that the path
-- begins with, and of several of one length, the first.
abbrev pub better : Bytes → Upstream → Option Upstream → Option Upstream
better path u none = if has_prefix path u.route then some u else none
better path u (some best) =
    if has_prefix path u.route && ltb (length best.route) (length u.route)
    then some u
    else some best

unfoldable pub up_for_from : Bytes → Option Upstream → List Upstream → Option Upstream
up_for_from path best [] = best
up_for_from path best (u ∷ us) = up_for_from path (better path u best) us

unfoldable pub up_for : List Upstream → Bytes → Option Upstream
unfolding up_for_from
up_for us path = up_for_from path none us
