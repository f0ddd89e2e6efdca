-- ===== src/Tests/Policies.antt =====
-- The policy's theorems on the policy of the data.
use dcr.Prelude.{
  ◌+◌, ◌*◌, ◌-◌, ◌^◌, ◌≡◌, ◌≢◌, ◌↔◌, inl, refl, true, false, [], ◌∷◌, ◌++◌, Option, some, arith,
}
use dcr.Prelude.Int64.{ℤ, pos, ◌≤ℤ◌, ◌<ℤ◌, ◌+ℤ◌, wrap}
use dcr.Prelude.Bytes.{Bytes, Bytes-discrete, codes, lookup}
use dcr.GoText.{to_lower, trim_space, parse_int, parse_digits, cut, trim_suffix, has_suffix}
use dcr.GoText.Laws.{digits_value}
use dcr.Policy.{allow, deny, escalate, default_deny, web, Policy, Attempt, Usage}
use dcr.Policy.Amount.{ok, parse_amount, parse_parts, with_frac, atoms_per_dcr}
use dcr.Policy.Amount.Exact.{parse_amount_exact, parse_amount_minus_zero}
use dcr.Policy.Domain.{match_domain, InDomain, match_domain_wildcard}
use dcr.Policy.Evaluate.{
  evaluate, check_rules, check_memo, check_destination, check_cap, check_velocity, check_budget,
  approval,
}
use dcr.Policy.Evaluate.Permitted.{IsPermitted}
use dcr.Policy.Evaluate.Sound.{evaluate_denies, evaluate_escalates, NeedsApproval}
use dcr.Policy.Evaluate.Trace.{evaluate-Explains, Explains}
use dcr.Policy.Evaluate.Budget.{evaluate_within_budget, evaluate_overflow}
use dcr.Policy.Compile.{File, compile, read_mode, read_amount, read_ttl, read_channel, set_of}
use dcr.Policy.Compile as Compile
use dcr.Policy.Compile.WellFormed.{compile-IsWellFormed, compile_fails_closed, IsWellFormed}
use dcr.Tests.Data.{policy, attempt, usage}

evaluate-Explains_example : Explains (evaluate policy attempt usage)
evaluate-Explains_example = evaluate-Explains policy attempt usage

evaluate_denies_example :
    ((evaluate policy attempt usage).outcome ≢ deny) ↔ IsPermitted policy attempt usage
evaluate_denies_example = evaluate_denies policy attempt usage

evaluate_escalates_example :
    ((evaluate policy attempt usage).outcome ≡ escalate)
    ↔ (IsPermitted policy attempt usage × NeedsApproval policy attempt)
evaluate_escalates_example = evaluate_escalates policy attempt usage

allowed : (evaluate policy attempt usage).outcome ≡ allow
unfolding evaluate check_rules check_memo check_destination check_cap check_velocity check_budget
    approval lookup trim_space wrap ◌+ℤ◌ Bytes-discrete
allowed = refl

evaluate_within_budget_example :
    (pos 0 <ℤ policy.daily_budget_atoms
      → usage.day_atoms +ℤ attempt.amount_atoms ≤ℤ policy.daily_budget_atoms)
    × (pos 0 <ℤ policy.weekly_budget_atoms
        → usage.week_atoms +ℤ attempt.amount_atoms ≤ℤ policy.weekly_budget_atoms)
    × (pos 0 <ℤ policy.max_per_payment_atoms → attempt.amount_atoms ≤ℤ policy.max_per_payment_atoms)
evaluate_within_budget_example =
    evaluate_within_budget policy attempt usage
      (record {
        amount = omega arith;
        day = omega arith;
        week = omega arith;
        day_sum = omega arith;
        week_sum = omega arith;
      })
      (λ e. ground (arith, allowed))

-- Without a cap, a payment and a usage whose sum leaves int64.
abbrev uncapped : Policy
uncapped = record policy { max_per_payment_atoms = pos 0 }

abbrev huge : Attempt
huge = record attempt { amount_atoms = pos (2 ^ 62) }

abbrev huge_usage : Usage
huge_usage = record { day_atoms = pos (2 ^ 62); week_atoms = pos (2 ^ 62); hour_count = pos 1 }

evaluate_overflow_example : (evaluate uncapped huge huge_usage).outcome ≢ deny
unfolding trim_space lookup Bytes-discrete
evaluate_overflow_example =
    evaluate_overflow uncapped huge huge_usage (λ e f. ground arith) (λ e. refl) (λ h. omega arith)
      (λ h. omega arith) (omega arith, omega arith, omega arith)
      (omega arith, omega arith, omega arith) (omega arith) (omega arith)

parse_amount_exact_example :
    parse_amount (codes "12" ++ (b'.' ∷ codes "5"))
    ≡ ok (
        pos
          (digits_value 0 (codes "12") * atoms_per_dcr + digits_value 0 (codes "5") * 10 ^ (8 - 1)))
parse_amount_exact_example =
    parse_amount_exact (codes "12") (codes "5") (refl, (refl, tt)) (λ e. ground arith) (omega arith)
      (refl, tt) (λ e. ground arith) (omega arith)

parse_amount_minus_zero_example :
    parse_amount (codes "-0." ++ codes "5") ≡ ok (pos (digits_value 0 (codes "5") * 10 ^ (8 - 1)))
parse_amount_minus_zero_example =
    parse_amount_minus_zero (codes "5") (refl, tt) (λ e. ground arith) (omega arith)

match_domain_wildcard_example :
    (match_domain (codes "*." ++ codes "shop.org") (codes "API.shop.org") ≡ true)
    ↔ InDomain (codes "shop.org") (to_lower (codes "API.shop.org"))
match_domain_wildcard_example = match_domain_wildcard (codes "shop.org") (codes "API.shop.org")

abbrev file : File
file = record {
  mode = [];
  max_per_payment = codes "1";
  daily_budget = codes "2";
  weekly_budget = codes "3";
  max_payments_per_hour = pos 4;
  threshold = codes "0.5";
  ttl = codes "1h";
  channel = codes "web";
  allow_domains = [];
  allow_ln_nodes = [];
  allow_dcr_addresses = [];
  deny_domains = [];
  memo_required = false;
}

abbrev compiled : Policy
compiled = record {
  mode = default_deny;
  max_per_payment_atoms = pos 100000000;
  daily_budget_atoms = pos 200000000;
  weekly_budget_atoms = pos 300000000;
  max_payments_per_hour = pos 4;
  threshold_atoms = pos 50000000;
  approval_ttl = pos 3600;
  approval_channel = web;
  allow_domains = [];
  deny_domains = [];
  allow_ln_nodes = [];
  allow_dcr_addresses = [];
  memo_required = false;
}

abbrev one_hour : Bytes → Option ℤ
one_hour s = some (pos 3600)

compiles : compile one_hour file ≡ Compile.ok compiled
unfolding compile read_mode read_amount read_ttl read_channel set_of parse_amount parse_parts
    with_frac trim_space trim_suffix has_suffix cut parse_int parse_digits wrap ◌+ℤ◌ Bytes-discrete
compiles = refl

compile-IsWellFormed_example :
    IsWellFormed compiled × (compiled.max_payments_per_hour ≡ file.max_payments_per_hour)
compile-IsWellFormed_example = compile-IsWellFormed one_hour file compiled compiles

compile_fails_closed_example : (evaluate compiled attempt usage).outcome ≡ deny
compile_fails_closed_example =
    compile_fails_closed one_hour file compiled attempt usage compiles (inl refl) refl refl refl
