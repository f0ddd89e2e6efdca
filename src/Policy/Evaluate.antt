-- ===== src/Policy/Evaluate.antt =====
-- `Policy.Evaluate` of agent/policy/policy.go: the rules in their order, the first failing one
-- deciding. Each rule is a function that takes the trace so far and either goes on with a longer
-- one or stops with a decision.
pub mod Permitted
pub mod Sound
pub mod Trace
pub mod Budget
use dcr.Prelude.{
  ◌≡◌, Bool, true, false, ◌&&◌, List, [], ◌∷◌, ◌++◌, Option, none, some, if◌then◌else◌,
}
use dcr.Prelude.Int64.{ℤ, pos, add64, sub64, ltb_ℤ, leb_ℤ}
use dcr.Prelude.Bytes.{Bytes, str_eq, lookup_or, lookup}
use dcr.GoText.{to_lower, trim_space}
use dcr.Policy.Domain.{match_any}
use dcr.Policy.{
  Outcome, allow, deny, escalate, DestKind, domain, ln_node, dcr_address, other_kind, Mode,
  default_deny, default_allow, Channel, Attempt, Usage, Rule, rule_memo_required, rule_deny_domain,
  rule_allow_domain, rule_allow_ln_node, rule_allow_dcr_address, rule_destination,
  rule_max_per_payment, rule_max_payments_per_hour, rule_daily_budget, rule_weekly_budget,
  rule_approval_threshold, Detail, no_detail, memo_missing, matches_default_allow, pinned,
  not_pinned, matches_denylist, matches_pattern, not_on_allowlist, unknown_kind, exceeds, within,
  at_least, hour_limit, budget_exceeded, budget_after, below, RuleResult, Decision, Policy,
}

abbrev pub Trace : Type 0
Trace = List RuleResult

-- `append(d.Trace, RuleResult{...})`
abbrev pub passed : Rule → Detail → Trace → Trace
passed rule detail trace = trace ++ (record { rule = rule; pass = true; detail = detail } ∷ [])

abbrev pub failed : Rule → Detail → Trace → Trace
failed rule detail trace = trace ++ (record { rule = rule; pass = false; detail = detail } ∷ [])

-- What a rule does: go on with a trace, or fail with one.
pub data Checked : Type 0 where
  go_on : Trace → Checked
  fail : Rule → Detail → Trace → Checked

infixl 5 ◌>>=◌
abbrev pub ◌>>=◌ : Checked → (Trace → Checked) → Checked
go_on t >>= f = f t
fail r d t >>= f = fail r d t

unfoldable pub check_memo : Policy → Attempt → Trace → Checked
check_memo p a t =
    if p.memo_required
    then (if str_eq (trim_space a.memo) []
        then fail rule_memo_required memo_missing t
        else go_on (passed rule_memo_required no_detail t))
    else go_on t

abbrev pub pinned_or_default : Mode → Bool → Rule → Trace → Checked
pinned_or_default default_deny known rule t =
    if known then go_on (passed rule pinned t) else fail rule not_pinned t
pinned_or_default default_allow known rule t = go_on (passed rule matches_default_allow t)

abbrev pub allowlisted : Mode → Option Bytes → Bytes → Trace → Checked
allowlisted default_deny none host t = fail rule_allow_domain (not_on_allowlist host) t
allowlisted default_deny (some pat) host t =
    go_on (passed rule_allow_domain (matches_pattern pat) t)
allowlisted default_allow hit host t = go_on (passed rule_allow_domain matches_default_allow t)

unfoldable pub check_domain : Policy → Bytes → Trace → Checked
check_domain p host t = elim (match_any p.deny_domains host) [
  | some pat ↦ fail rule_deny_domain (matches_denylist host pat) t
  | none ↦ allowlisted p.mode (match_any p.allow_domains host) host t
]

abbrev pub destination_rule : Policy → DestKind → Bytes → Trace → Checked
destination_rule p domain dest t = check_domain p (to_lower dest) t
destination_rule p ln_node dest t =
    pinned_or_default p.mode (lookup_or (to_lower dest) p.allow_ln_nodes false) rule_allow_ln_node t
destination_rule p dcr_address dest t =
    pinned_or_default p.mode (lookup_or dest p.allow_dcr_addresses false) rule_allow_dcr_address t
destination_rule p (other_kind kind) dest t = fail rule_destination (unknown_kind kind) t

unfoldable pub check_destination : Policy → Attempt → Trace → Checked
unfolding check_domain
check_destination p a t = destination_rule p a.dest_kind a.dest t

unfoldable pub check_cap : Policy → Attempt → Trace → Checked
check_cap p a t =
    if ltb_ℤ (pos 0) p.max_per_payment_atoms
    then (if ltb_ℤ p.max_per_payment_atoms a.amount_atoms
        then fail rule_max_per_payment (exceeds a.amount_atoms p.max_per_payment_atoms) t
        else go_on (passed rule_max_per_payment (within a.amount_atoms p.max_per_payment_atoms) t))
    else go_on t

unfoldable pub check_velocity : Policy → Usage → Trace → Checked
check_velocity p u t =
    if ltb_ℤ (pos 0) p.max_payments_per_hour
    then (if leb_ℤ p.max_payments_per_hour u.hour_count
        then fail rule_max_payments_per_hour (hour_limit u.hour_count p.max_payments_per_hour) t
        else go_on
            (passed rule_max_payments_per_hour (hour_limit u.hour_count p.max_payments_per_hour) t))
    else go_on t

-- Rules 5 and 6: what was spent and the amount are added as int64.
unfoldable pub check_budget : Rule → ℤ → ℤ → ℤ → Trace → Checked
check_budget rule budget spent amount t =
    if ltb_ℤ (pos 0) budget
    then (if ltb_ℤ budget (add64 spent amount)
        then fail rule (budget_exceeded spent amount budget) t
        else go_on (passed rule (budget_after (add64 spent amount) budget) t))
    else go_on t

-- Rules 1 to 6, in order.
unfoldable pub check_rules : Policy → Attempt → Usage → Checked
check_rules p a u =
    check_memo p a []
    >>= check_destination p a
    >>= check_cap p a
    >>= check_velocity p u
    >>= check_budget rule_daily_budget p.daily_budget_atoms u.day_atoms a.amount_atoms
    >>= check_budget rule_weekly_budget p.weekly_budget_atoms u.week_atoms a.amount_atoms

abbrev pub max64 : ℤ → ℤ → ℤ
max64 a b = if ltb_ℤ b a then a else b

-- Rule 7 turns what passed so far into a payment or a question to the owner.
unfoldable pub approval : Policy → Attempt → Usage → Trace → Decision
approval p a u t =
    let day = max64 (pos 0) (sub64 (sub64 p.daily_budget_atoms u.day_atoms) a.amount_atoms) in
    let week = max64 (pos 0) (sub64 (sub64 p.weekly_budget_atoms u.week_atoms) a.amount_atoms) in
    if ltb_ℤ (pos 0) p.threshold_atoms && leb_ℤ p.threshold_atoms a.amount_atoms
    then record {
      outcome = escalate;
      trace = passed rule_approval_threshold (at_least a.amount_atoms p.threshold_atoms) t;
      reason = none;
      remaining_day_atoms = day;
      remaining_week_atoms = week;
      approval_ttl = p.approval_ttl;
      approval_channel = some p.approval_channel;
    }
    else record {
      outcome = allow;
      trace =
          if ltb_ℤ (pos 0) p.threshold_atoms
          then passed rule_approval_threshold (below a.amount_atoms p.threshold_atoms) t
          else t;
      reason = none;
      remaining_day_atoms = day;
      remaining_week_atoms = week;
      approval_ttl = pos 0;
      approval_channel = none;
    }

-- The closure `fail` of the source.
unfoldable pub denial : Policy → Usage → Rule → Detail → Trace → Decision
denial p u rule detail t = record {
  outcome = deny;
  trace = failed rule detail t;
  reason = some (rule, detail);
  remaining_day_atoms = max64 (pos 0) (sub64 p.daily_budget_atoms u.day_atoms);
  remaining_week_atoms = max64 (pos 0) (sub64 p.weekly_budget_atoms u.week_atoms);
  approval_ttl = pos 0;
  approval_channel = none;
}

abbrev pub decide : Policy → Attempt → Usage → Checked → Decision
decide p a u (go_on t) = approval p a u t
decide p a u (fail rule detail t) = denial p u rule detail t

unfoldable pub evaluate : Policy → Attempt → Usage → Decision
unfolding approval denial
evaluate p a u = decide p a u (check_rules p a u)
