-- ===== src/Policy/Evaluate/Sound.antt =====
-- `Evaluate` pays, asks or denies exactly as the policy permits.
use dcr.Prelude.{◌≡◌, ◌≢◌, refl, true, ◌↔◌, [], arith}
use dcr.Prelude.Int64.{ℤ, pos, ◌≤ℤ◌, ◌<ℤ◌, add64}
use dcr.Policy.{
  deny, escalate, DestKind, domain, ln_node, dcr_address, other_kind, Attempt, Usage, Policy, Rule,
}
use dcr.Policy.Evaluate.{
  Trace, Checked, go_on, fail, ◌>>=◌, check_memo, check_destination, check_cap, check_velocity,
  check_budget, check_rules, approval, denial, decide, evaluate,
}
use dcr.GoText.{trim_space}
use dcr.Policy.Evaluate.Permitted.{MayPay, UnderLimit, IsPermitted}

-- A rule goes on exactly when its condition holds.
abbrev GoesOn : Checked → Type 0
GoesOn (go_on t) = Unit
GoesOn (fail r d t) = ⊥

check_memo_iff :
    (p : Policy) (a : Attempt) (t : Trace)
    → GoesOn (check_memo p a t) ↔ (p.memo_required ≡ true → trim_space a.memo ≢ [])
unfolding check_memo
check_memo_iff p a t = ground arith

destination_iff :
    (p : Policy) (k : DestKind) (a : Attempt) (t : Trace)
    → a.dest_kind ≡ k
    → GoesOn (check_destination p a t) ↔ MayPay p k a.dest
unfolding check_destination
destination_iff p domain a t e = ground arith
destination_iff p ln_node a t e = ground arith
destination_iff p dcr_address a t e = ground arith
destination_iff p (other_kind s) a t e = ground arith

check_cap_iff :
    (p : Policy) (a : Attempt) (t : Trace)
    → GoesOn (check_cap p a t) ↔ UnderLimit p.max_per_payment_atoms a.amount_atoms
unfolding check_cap
check_cap_iff p a t = ground arith

check_velocity_iff :
    (p : Policy) (u : Usage) (t : Trace)
    → GoesOn (check_velocity p u t)
      ↔ (pos 0 <ℤ p.max_payments_per_hour → u.hour_count <ℤ p.max_payments_per_hour)
unfolding check_velocity
check_velocity_iff p u t = ground arith

check_budget_iff :
    (r : Rule) (budget spent amount : ℤ) (t : Trace)
    → GoesOn (check_budget r budget spent amount t) ↔ UnderLimit budget (add64 spent amount)
unfolding check_budget
check_budget_iff r budget spent amount t = ground arith

bind_iff :
    (c : Checked) (f : Trace → Checked) {P Q : Type 0}
    → GoesOn c ↔ P
    → ((t : Trace) → GoesOn (f t) ↔ Q)
    → GoesOn (c >>= f) ↔ (P × Q)
bind_iff (go_on t) f hc hf = (λ g. (hc.0 tt, (hf t).0 g), λ (x, y). (hf t).1 y)
bind_iff (fail r d t) f hc hf = (λ g. absurd g, λ (x, y). hc.1 x)

check_rules_iff :
    (p : Policy) (a : Attempt) (u : Usage) → GoesOn (check_rules p a u) ↔ IsPermitted p a u
unfolding check_rules
check_rules_iff p a u =
    let rules =
      bind_iff _ _
        (bind_iff _ _
          (bind_iff _ _
            (bind_iff _ _
              (bind_iff _ _ (check_memo_iff p a []) (λ t. destination_iff p a.dest_kind a t refl))
              (check_cap_iff p a))
            (check_velocity_iff p u))
          (check_budget_iff _ p.daily_budget_atoms u.day_atoms a.amount_atoms))
        (check_budget_iff _ p.weekly_budget_atoms u.week_atoms a.amount_atoms) in
    (
      λ g.
          let (((((m, d), c), v), day), week) = rules.0 g in
          record { memo = m; destination = d; cap = c; velocity = v; daily = day; weekly = week },
      λ h. rules.1 (((((h.memo, h.destination), h.cap), h.velocity), h.daily), h.weekly),
    )

-- The owner is asked about an amount from the threshold on, where there is a threshold.
abbrev pub NeedsApproval : Policy → Attempt → Type 0
NeedsApproval p a = (pos 0 <ℤ p.threshold_atoms) × (p.threshold_atoms ≤ℤ a.amount_atoms)

decide_iff :
    (p : Policy) (a : Attempt) (u : Usage) (c : Checked)
    → (((decide p a u c).outcome ≢ deny) ↔ GoesOn c)
      × (((decide p a u c).outcome ≡ escalate) ↔ (GoesOn c × NeedsApproval p a))
unfolding approval denial
decide_iff p a u (go_on t) = ground arith
decide_iff p a u (fail r d t) = ground arith

-- An attempt is denied exactly when the owner's policy does not permit it: a missing memo, a
-- destination that is on the denylist or not on the allowlist, an amount above the cap, too many
-- payments in the hour, or a sum (in int64) above the daily or the weekly budget.
pub evaluate_denies :
    (p : Policy) (a : Attempt) (u : Usage) → ((evaluate p a u).outcome ≢ deny) ↔ IsPermitted p a u
unfolding evaluate
evaluate_denies p a u =
    let (d, _) = decide_iff p a u (check_rules p a u) in
    let r = check_rules_iff p a u in (λ h. r.0 (d.0 h), λ h. d.1 (r.1 h))

-- The owner is asked exactly about the attempts that the policy permits and whose amount reaches
-- the approval threshold; so a permitted attempt below it is paid without a question.
pub evaluate_escalates :
    (p : Policy) (a : Attempt) (u : Usage)
    → ((evaluate p a u).outcome ≡ escalate) ↔ (IsPermitted p a u × NeedsApproval p a)
unfolding evaluate
evaluate_escalates p a u =
    let (_, e) = decide_iff p a u (check_rules p a u) in
    let r = check_rules_iff p a u in
    (λ h. let (g, n) = e.0 h in (r.0 g, n), λ (h, n). e.1 (r.1 h, n))
