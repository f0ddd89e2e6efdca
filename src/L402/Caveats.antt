-- ===== src/L402/Caveats.antt =====
-- lib/l402/l402.go: the caveats and `VerifyToken`. The map of the groups keeps its keys in `order`;
-- the clock is the seconds since 1970.
mod Chains
pub mod Grouping
pub mod Attenuation
pub mod Unbound
use dcr.Prelude.{
  ℕ, zero, suc, ◌+◌, ◌≡◌, Bool, true, false, ◌&&◌, ◌||◌, not, List, [], ◌∷◌, ◌++◌, Option, none,
  some, length, ◌==◌, if◌then◌else◌,
}
use dcr.Prelude.Int64.{ℤ, pos, ltb_ℤ, add64}
use dcr.Prelude.Bytes.{Bytes, Dict, codes, str_eq, lookup, lookup_or, insert}
use dcr.GoText.{trim_space, has_suffix, trim_suffix, cut, split, sort_strings, parse_int}
use dcr.L402.{
  Crypto, Result, ok, err, ◌>>=◌, L402Error, Macaroon, Identifier, decode_identifier,
  verify_signature, malformed_caveat, service_added, service_refused, capability_added,
  capability_refused, bad_valid_until, loosened, token_expired, no_services, no_capabilities,
  signature_mismatch, bad_preimage, preimage_mismatch,
}

abbrev pub caveat_services : Bytes
caveat_services = codes "services"

abbrev pub caveat_valid_until_sfx : Bytes
caveat_valid_until_sfx = codes "_valid_until"

abbrev pub caveat_caps_sfx : Bytes
caveat_caps_sfx = codes "_capabilities"

pub record VerifyOptions : Type 0 where
  pub service : Bytes
  pub capability : Bytes
  pub now : ℕ

abbrev pub add_name : Dict Bytes → Bytes × Bytes × Bool → Dict Bytes
add_name out (name, tier, _) = insert name tier out

unfoldable pub add_items : Dict Bytes → List Bytes → Dict Bytes
add_items out [] = out
add_items out (item ∷ items) =
    let trimmed = trim_space item in
    add_items (if str_eq trimmed [] then out else add_name out (cut trimmed b':')) items

unfoldable pub parse_list : Bytes → Dict Bytes
unfolding add_items
parse_list val = add_items [] (split val b',')

-- `_, ok := d[name]`
abbrev pub has_name : Bytes → Dict Bytes → Bool
has_name name d = elim (lookup name d) [ none ↦ false | some _ ↦ true ]

-- Some name of `cur` is not one of `prev`.
unfoldable pub adds_name : Dict Bytes → Dict Bytes → Bool
adds_name [] prev = false
adds_name ((name, _) ∷ cur) prev = if has_name name prev then adds_name cur prev else true

-- The loop of both chains, from `prev` on: its last list, if each list attenuates the one before.
unfoldable pub attenuates : L402Error → Dict Bytes → List Bytes → Result (Dict Bytes)
unfolding adds_name
attenuates e prev [] = ok prev
attenuates e prev (v ∷ vals) =
    let rest = attenuates e (parse_list v) vals in
    if adds_name (parse_list v) prev then err e else rest

-- A group has a value; on none, `vals[0]` would panic.
unfoldable pub verify_services_chain : List Bytes → Bytes → Result {0} Unit
unfolding attenuates
verify_services_chain [] service = err service_refused
verify_services_chain (v ∷ vals) service = do
  last ← attenuates service_added (parse_list v) vals
  if has_name service last then ok tt else err service_refused

unfoldable pub verify_caps_chain : List Bytes → Bytes → VerifyOptions → Result {0} Unit
unfolding attenuates
verify_caps_chain [] svc o = err capability_refused
verify_caps_chain (v ∷ vals) svc o = do
  last ← attenuates capability_added (parse_list v) vals
  if not (str_eq o.capability []) && str_eq svc o.service
      then (if has_name o.capability last then ok tt else err capability_refused)
      else ok tt

-- Seconds from year 1 to 1970, which `time.Unix` adds in int64.
abbrev pub unix_to_internal : ℕ
unix_to_internal = 62135596800

-- `now.Before(time.Unix(ts, 0))`
abbrev pub is_before : ℕ → ℤ → Bool
is_before now ts = ltb_ℤ (pos (now + unix_to_internal)) (add64 ts (pos unix_to_internal))

abbrev pub read_time : Bytes → Result ℤ
read_time v = elim (parse_int (trim_space v)) [ none ↦ err bad_valid_until | some ts ↦ ok ts ]

-- The loop from its second round on.
unfoldable pub tightens : ℤ → List Bytes → Result ℤ
tightens prev [] = ok prev
tightens prev (v ∷ vals) = do
  ts ← read_time v
  let rest = tightens ts vals in if ltb_ℤ prev ts then err loosened else rest

unfoldable pub verify_valid_until_chain : List Bytes → ℕ → Result {0} Unit
unfolding tightens
verify_valid_until_chain [] now = if is_before now (pos 0) then ok tt else err token_expired
verify_valid_until_chain (v ∷ vals) now = do
  ts ← read_time v
  last ← tightens ts vals
  if is_before now last then ok tt else err token_expired

pub record Groups : Type 0 where
  pub groups : Dict (List Bytes)
  pub order : List Bytes

abbrev pub values : Groups → Bytes → List Bytes
values g cond = lookup_or cond g.groups []

-- `groups[cond] = append(groups[cond], val)`, and the order on the first time.
abbrev pub add_value : Groups → Bytes × Bytes × Bool → Result Groups
add_value g (cond, val, false) = err malformed_caveat
add_value g (cond, val, true) = ok (record {
  groups = insert cond (values g cond ++ (val ∷ [])) g.groups;
  order = elim (lookup cond g.groups) [ none ↦ g.order ++ (cond ∷ []) | some _ ↦ g.order ];
})

unfoldable pub group_caveats : Groups → List Bytes → Result Groups
group_caveats g [] = ok g
group_caveats g (cav ∷ caveats) = do more ← add_value g (cut cav b'='); group_caveats more caveats

-- Which required conditions were seen: `services`, and the capabilities of the service.
pub record Seen : Type 0 where
  pub services : Bool
  pub caps : Bool

unfoldable pub verify_group : VerifyOptions → Bytes → List Bytes → Result {0} Unit
unfolding verify_services_chain verify_caps_chain verify_valid_until_chain
verify_group o cond vals =
    if str_eq cond caveat_services
    then verify_services_chain vals o.service
    else if has_suffix cond caveat_valid_until_sfx
    then verify_valid_until_chain vals o.now
    else if has_suffix cond caveat_caps_sfx
    then verify_caps_chain vals (trim_suffix cond caveat_caps_sfx) o
    else ok tt

unfoldable pub see : VerifyOptions → Bytes → Seen → Seen
see o cond seen =
    if str_eq cond caveat_services
    then record seen { services = true }
    else if has_suffix cond caveat_valid_until_sfx
    then seen
    else if has_suffix cond caveat_caps_sfx && str_eq (trim_suffix cond caveat_caps_sfx) o.service
    then record seen { caps = true }
    else seen

unfoldable pub verify_groups : VerifyOptions → Groups → List Bytes → Seen → Result Seen
unfolding verify_group see
verify_groups o g [] seen = ok seen
verify_groups o g (cond ∷ conds) seen = do
  _ ← verify_group o cond (values g cond)
  verify_groups o g conds (see o cond seen)

-- The checks that need a caveat fail closed.
unfoldable pub close : VerifyOptions → Seen → Result {0} Unit
close o seen =
    if not (str_eq o.service []) && not seen.services
    then err no_services
    else if not (str_eq o.capability []) && not seen.caps
    then err no_capabilities
    else ok tt

unfoldable pub verify_caveats : List Bytes → VerifyOptions → Result {0} Unit
unfolding group_caveats verify_groups close sort_strings
verify_caveats caveats o = do
  g ← group_caveats (record { groups = []; order = [] }) caveats
  seen ← verify_groups o g (sort_strings g.order) (record { services = false; caps = false })
  close o seen

-- `VerifyToken`, with the bytes that the preimage's hex text stands for; `none` where it is not hex.
unfoldable pub verify_token :
    Crypto → Bytes → Macaroon → Option Bytes → VerifyOptions → Result {0} Unit
unfolding verify_caveats
verify_token crypto root_key m preimage o =
    if verify_signature crypto root_key m
    then (do
      id ← decode_identifier m.id
      elim preimage [
        | none ↦ err bad_preimage
        | some pre ↦
            if not (length pre == 32)
            then err bad_preimage
            else if not (str_eq (crypto.sha256 pre) id.payment_hash)
            then err preimage_mismatch
            else verify_caveats m.caveats o
      ])
    else err signature_mismatch
