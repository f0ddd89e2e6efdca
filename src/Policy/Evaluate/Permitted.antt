-- ===== src/Policy/Evaluate/Permitted.antt =====
-- What the owner's policy permits, said without the order of the rules.
use dcr.Prelude.{◌≡◌, ◌≢◌, true, false, [], none}
use dcr.Prelude.Int64.{ℤ, pos, ◌≤ℤ◌, ◌<ℤ◌, add64}
use dcr.Prelude.Bytes.{Bytes, lookup_or}
use dcr.GoText.{to_lower, trim_space}
use dcr.Policy.Domain.{match_any}
use dcr.Policy.{
  DestKind, domain, ln_node, dcr_address, other_kind, default_deny, Attempt, Usage, Policy,
}

-- The destination is not denied, and it is listed where the mode is default-deny.
abbrev pub MayPay : Policy → DestKind → Bytes → Type 0
MayPay p domain dest =
    (match_any p.deny_domains (to_lower dest) ≡ none)
    × (p.mode ≡ default_deny → match_any p.allow_domains (to_lower dest) ≢ none)
MayPay p ln_node dest =
    p.mode ≡ default_deny → lookup_or (to_lower dest) p.allow_ln_nodes false ≡ true
MayPay p dcr_address dest =
    p.mode ≡ default_deny → lookup_or dest p.allow_dcr_addresses false ≡ true
MayPay p (other_kind kind) dest = ⊥

-- A limit of zero or less is no limit.
abbrev pub UnderLimit : ℤ → ℤ → Type 0
UnderLimit limit x = pos 0 <ℤ limit → x ≤ℤ limit

pub record IsPermitted (p : Policy) (a : Attempt) (u : Usage) : Type 0 where
  pub memo : p.memo_required ≡ true → trim_space a.memo ≢ []
  pub destination : MayPay p a.dest_kind a.dest
  pub cap : UnderLimit p.max_per_payment_atoms a.amount_atoms
  pub velocity : pos 0 <ℤ p.max_payments_per_hour → u.hour_count <ℤ p.max_payments_per_hour
  pub daily : UnderLimit p.daily_budget_atoms (add64 u.day_atoms a.amount_atoms)
  pub weekly : UnderLimit p.weekly_budget_atoms (add64 u.week_atoms a.amount_atoms)
