-- ===== src/Policy/Compile.antt =====
-- `Parse` of agent/policy/policy.go, behind the YAML decoder: a decoded file to a policy.
-- The decoder belongs to gopkg.in/yaml.v3, so a file is what it hands over. `time.ParseDuration` is
-- an argument, with `none` for an error.
pub mod WellFormed
use dcr.Prelude.{
  ◌≡◌, Bool, true, false, List, [], ◌∷◌, ◌++◌, map, Option, none, some, if◌then◌else◌, ℕ, ◌*◌,
}
use dcr.Prelude.Int64.{ℤ, pos, leb_ℤ}
use dcr.Prelude.Bytes.{Bytes, Dict, codes, str_eq, insert}
use dcr.GoText.{to_lower, trim_space}
use dcr.Policy.{Mode, default_deny, default_allow, Channel, bisonrelay, web, both, Policy}
use dcr.Policy.Amount.{Parsed, AmountError, parse_amount}

pub record File : Type 0 where
  pub mode : Bytes
  pub max_per_payment : Bytes
  pub daily_budget : Bytes
  pub weekly_budget : Bytes
  pub max_payments_per_hour : ℤ
  pub threshold : Bytes
  pub ttl : Bytes
  pub channel : Bytes
  pub allow_domains : List Bytes
  pub allow_ln_nodes : List Bytes
  pub allow_dcr_addresses : List Bytes
  pub deny_domains : List Bytes
  pub memo_required : Bool

pub data CompileError : Type 0 where
  unknown_mode unknown_channel : Bytes → CompileError
  bad_amount : AmountError → CompileError
  bad_ttl : CompileError

pub data Result {ℓ} (A : Type ℓ) : Type ℓ where
  ok : A → Result A
  err : CompileError → Result A

infixl 5 ◌>>=◌
abbrev pub ◌>>=◌ {ℓ κ} : {A : Type ℓ} {B : Type κ} → Result A → (A → Result B) → Result B
ok a >>= f = f a
err e >>= f = err e

unfoldable pub read_mode : Bytes → Result Mode
read_mode s =
    if str_eq s []
    then ok default_deny
    else if str_eq s (codes "default-deny")
    then ok default_deny
    else if str_eq s (codes "default-allow")
    then ok default_allow
    else err (unknown_mode s)

abbrev pub from_parsed : Parsed → Result ℤ
from_parsed (Parsed.ok v) = ok v
from_parsed (Parsed.err e) = err (bad_amount e)

unfoldable pub read_amount : Bytes → Result ℤ
read_amount s = from_parsed (parse_amount s)

-- Fifteen minutes in nanoseconds.
abbrev pub default_ttl : ℤ
default_ttl = pos 900_000_000_000

abbrev pub or_default_ttl : ℤ → ℤ
or_default_ttl d = if leb_ℤ d (pos 0) then default_ttl else d

abbrev pub parsed_ttl : Option ℤ → Result ℤ
parsed_ttl none = err bad_ttl
parsed_ttl (some d) = ok (or_default_ttl d)

unfoldable pub read_ttl : (Bytes → Option ℤ) → Bytes → Result ℤ
read_ttl parse_duration s =
    if str_eq s [] then ok (or_default_ttl (pos 0)) else parsed_ttl (parse_duration s)

unfoldable pub read_channel : Bytes → Result Channel
read_channel s =
    if str_eq s []
    then ok web
    else if str_eq s (codes "bisonrelay")
    then ok bisonrelay
    else if str_eq s (codes "web")
    then ok web
    else if str_eq s (codes "both")
    then ok both
    else err (unknown_channel s)

abbrev pub normal_name : Bytes → Bytes
normal_name s = to_lower (trim_space s)

-- `m[n] = true` for each entry
unfoldable pub set_of : List Bytes → Dict Bool
set_of [] = []
set_of (n ∷ ns) = insert n true (set_of ns)

unfoldable pub compile : (Bytes → Option ℤ) → File → Result Policy
compile parse_duration f = do
  mode ← read_mode f.mode
  max_per_payment ← read_amount f.max_per_payment
  daily ← read_amount f.daily_budget
  weekly ← read_amount f.weekly_budget
  threshold ← read_amount f.threshold
  ttl ← read_ttl parse_duration f.ttl
  channel ← read_channel f.channel
  ok (record {
    mode = mode;
    max_per_payment_atoms = max_per_payment;
    daily_budget_atoms = daily;
    weekly_budget_atoms = weekly;
    max_payments_per_hour = f.max_payments_per_hour;
    threshold_atoms = threshold;
    approval_ttl = ttl;
    approval_channel = channel;
    allow_domains = map normal_name f.allow_domains;
    deny_domains = map normal_name f.deny_domains;
    allow_ln_nodes = set_of (map normal_name f.allow_ln_nodes);
    allow_dcr_addresses = set_of (map trim_space f.allow_dcr_addresses);
    memo_required = f.memo_required;
  })
