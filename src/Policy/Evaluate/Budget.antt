-- ===== src/Policy/Evaluate/Budget.antt =====
-- The budgets of `Evaluate`, over the integers.
use dcr.Prelude.{◌<◌, ◌≤◌, ◌+◌, ◌≡◌, ◌≢◌, true, [], arith}
use dcr.Prelude.Int64.{
  ℤ, pos, pos_part, ◌≤ℤ◌, ◌<ℤ◌, ◌+ℤ◌, add64, add64_exact, IsInt64, int64_half, wrap,
}
use dcr.Policy.{deny, Attempt, Usage, Policy}
use dcr.Policy.Evaluate.{evaluate}
use dcr.Policy.Evaluate.Permitted.{MayPay, UnderLimit}
use dcr.GoText.{trim_space}
use dcr.Policy.Evaluate.Sound.{evaluate_denies}

-- The amounts of the attempt and of the usage are zero or more, and their sums fit int64.
pub record Fits (a : Attempt) (u : Usage) : Type 0 where
  pub amount : pos 0 ≤ℤ a.amount_atoms
  pub day : pos 0 ≤ℤ u.day_atoms
  pub week : pos 0 ≤ℤ u.week_atoms
  pub day_sum : pos_part u.day_atoms + pos_part a.amount_atoms < int64_half
  pub week_sum : pos_part u.week_atoms + pos_part a.amount_atoms < int64_half

-- Where the sums fit int64, an attempt that is not denied keeps the day and the week within their
-- budgets, where there are budgets, and the amount within the cap of a single payment.
pub evaluate_within_budget :
    (p : Policy) (a : Attempt) (u : Usage)
    → Fits a u
    → (evaluate p a u).outcome ≢ deny
    → (pos 0 <ℤ p.daily_budget_atoms → u.day_atoms +ℤ a.amount_atoms ≤ℤ p.daily_budget_atoms)
      × (pos 0 <ℤ p.weekly_budget_atoms → u.week_atoms +ℤ a.amount_atoms ≤ℤ p.weekly_budget_atoms)
      × (pos 0 <ℤ p.max_per_payment_atoms → a.amount_atoms ≤ℤ p.max_per_payment_atoms)
evaluate_within_budget p a u f h =
    let ok = (evaluate_denies p a u).0 h in
    let day = add64_exact u.day_atoms a.amount_atoms f.day f.amount f.day_sum in
    let week = add64_exact u.week_atoms a.amount_atoms f.week f.amount f.week_sum in
    (λ b. rw day at (ok.daily b), λ b. rw week at (ok.weekly b), ok.cap)

add64_wraps :
    (a b : ℤ)
    → IsInt64 a
    → IsInt64 b
    → pos 0 ≤ℤ a
    → pos 0 ≤ℤ b
    → int64_half ≤ pos_part a + pos_part b
    → add64 a b <ℤ pos 0
unfolding wrap ◌+ℤ◌
add64_wraps a b ha hb p q h = ground arith

-- The budgets do not hold beyond int64: an attempt that the other rules permit is not denied when
-- its sums with what was spent in the day and in the week both leave int64, however far the
-- amount exceeds the daily and the weekly budget.
pub evaluate_overflow :
    (p : Policy) (a : Attempt) (u : Usage)
    → (p.memo_required ≡ true → trim_space a.memo ≢ [])
    → MayPay p a.dest_kind a.dest
    → UnderLimit p.max_per_payment_atoms a.amount_atoms
    → (pos 0 <ℤ p.max_payments_per_hour → u.hour_count <ℤ p.max_payments_per_hour)
    → IsInt64 a.amount_atoms × IsInt64 u.day_atoms × IsInt64 u.week_atoms
    → (pos 0 ≤ℤ a.amount_atoms) × (pos 0 ≤ℤ u.day_atoms) × (pos 0 ≤ℤ u.week_atoms)
    → int64_half ≤ pos_part u.day_atoms + pos_part a.amount_atoms
    → int64_half ≤ pos_part u.week_atoms + pos_part a.amount_atoms
    → (evaluate p a u).outcome ≢ deny
evaluate_overflow p a u m d c v (ia, id, iw) (na, nd, nw) hd hw =
    let day = add64_wraps u.day_atoms a.amount_atoms id ia nd na hd in
    let week = add64_wraps u.week_atoms a.amount_atoms iw ia nw na hw in
    (evaluate_denies p a u).1 (record {
      memo = m;
      destination = d;
      cap = c;
      velocity = v;
      daily = λ b. omega arith;
      weekly = λ b. omega arith;
    })
