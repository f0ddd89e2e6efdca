-- ===== src/Policy.antt =====
-- agent/policy/policy.go: the compiled policy, the payment intents that it judges, and its verdicts.
pub mod Amount
pub mod Domain
pub mod Evaluate
pub mod Compile
use dcr.Prelude.{Bool, List, Option}
use dcr.Prelude.Int64.{ℤ}
use dcr.Prelude.Bytes.{Bytes, Dict}

pub data Outcome : Type 0 where
  allow deny escalate : Outcome

-- `DestKind` is a string in the source; any other value falls in the last case.
pub data DestKind : Type 0 where
  domain ln_node dcr_address : DestKind
  other_kind : Bytes → DestKind

pub data Mode : Type 0 where
  default_deny default_allow : Mode

pub data Channel : Type 0 where
  bisonrelay web both : Channel

pub record Attempt : Type 0 where
  pub tool : Bytes
  pub rail : Bytes
  pub dest_kind : DestKind
  pub dest : Bytes
  pub amount_atoms : ℤ
  pub memo : Bytes

pub record Usage : Type 0 where
  pub day_atoms : ℤ
  pub week_atoms : ℤ
  pub hour_count : ℤ

-- The names of the rules in a trace.
pub data Rule : Type 0 where
  rule_memo_required rule_deny_domain rule_allow_domain rule_allow_ln_node rule_allow_dcr_address :
      Rule
  rule_destination rule_max_per_payment rule_max_payments_per_hour rule_daily_budget : Rule
  rule_weekly_budget rule_approval_threshold : Rule

-- The detail of a rule's result: the values that its message prints.
pub data Detail : Type 0 where
  no_detail memo_missing matches_default_allow pinned not_pinned : Detail
  matches_denylist : Bytes → Bytes → Detail
  matches_pattern : Bytes → Detail
  not_on_allowlist : Bytes → Detail
  unknown_kind : Bytes → Detail
  exceeds within at_least : ℤ → ℤ → Detail
  hour_limit : ℤ → ℤ → Detail
  budget_exceeded : ℤ → ℤ → ℤ → Detail
  budget_after : ℤ → ℤ → Detail
  below : ℤ → ℤ → Detail

pub record RuleResult : Type 0 where
  pub rule : Rule
  pub pass : Bool
  pub detail : Detail

-- `reason` is the failing rule with its detail, on a denial.
pub record Decision : Type 0 where
  pub outcome : Outcome
  pub trace : List RuleResult
  pub reason : Option (Rule × Detail)
  pub remaining_day_atoms : ℤ
  pub remaining_week_atoms : ℤ
  pub approval_ttl : ℤ
  pub approval_channel : Option Channel

pub record Policy : Type 0 where
  pub mode : Mode
  pub max_per_payment_atoms : ℤ
  pub daily_budget_atoms : ℤ
  pub weekly_budget_atoms : ℤ
  pub max_payments_per_hour : ℤ
  pub threshold_atoms : ℤ
  pub approval_ttl : ℤ
  pub approval_channel : Channel
  pub allow_domains : List Bytes
  pub deny_domains : List Bytes
  pub allow_ln_nodes : Dict Bool
  pub allow_dcr_addresses : Dict Bool
  pub memo_required : Bool
