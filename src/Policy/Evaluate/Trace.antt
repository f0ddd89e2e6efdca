-- ===== src/Policy/Evaluate/Trace.antt =====
-- The trace that `Evaluate` records.
use dcr.Prelude.{
  ◌≡◌, ◌≢◌, refl, true, false, ◌⊎◌, inl, inr, [], ◌∷◌, ◌++◌, none, some, arith, All, All-append,
}
use dcr.Prelude.Int64.{ℤ}
use dcr.Policy.{
  deny, DestKind, domain, ln_node, dcr_address, other_kind, Attempt, Usage, Policy, Rule, Decision,
  Detail,
}
use dcr.Policy.Evaluate.{
  Trace, Checked, go_on, fail, ◌>>=◌, passed, check_memo, check_destination, check_cap,
  check_velocity, check_budget, check_rules, approval, denial, decide, evaluate,
}

abbrev pub AllPass : Trace → Type 0
AllPass = All (λ r. r.pass ≡ true)

-- The trace so far passed, and stays a record of what passed.
abbrev Passes : Checked → Type 0
Passes (go_on t) = AllPass t
Passes (fail r d t) = AllPass t

passed-AllPass : (r : Rule) (d : Detail) (t : Trace) → AllPass t → AllPass (passed r d t)
passed-AllPass r d t h = All-append _ t _ h (refl, tt)

check_memo-Passes : (p : Policy) (a : Attempt) → Passes (check_memo p a [])
unfolding check_memo
check_memo-Passes p a = ground arith

check_destination-Passes :
    (p : Policy) (k : DestKind) (a : Attempt) (t : Trace)
    → a.dest_kind ≡ k
    → AllPass t
    → Passes (check_destination p a t)
unfolding check_destination
check_destination-Passes p domain a t e h = grind (arith, passed-AllPass)
check_destination-Passes p ln_node a t e h = grind (arith, passed-AllPass)
check_destination-Passes p dcr_address a t e h = grind (arith, passed-AllPass)
check_destination-Passes p (other_kind s) a t e h = ground arith

check_cap-Passes : (p : Policy) (a : Attempt) (t : Trace) → AllPass t → Passes (check_cap p a t)
unfolding check_cap
check_cap-Passes p a t h = grind (arith, passed-AllPass)

check_velocity-Passes :
    (p : Policy) (u : Usage) (t : Trace) → AllPass t → Passes (check_velocity p u t)
unfolding check_velocity
check_velocity-Passes p u t h = grind (arith, passed-AllPass)

check_budget-Passes :
    (r : Rule) (b s x : ℤ) (t : Trace) → AllPass t → Passes (check_budget r b s x t)
unfolding check_budget
check_budget-Passes r b s x t h = grind (arith, passed-AllPass)

bind-Passes :
    (c : Checked) (f : Trace → Checked)
    → Passes c
    → ((t : Trace) → AllPass t → Passes (f t))
    → Passes (c >>= f)
bind-Passes (go_on t) f h k = k t h
bind-Passes (fail r d t) f h k = h

check_rules-Passes : (p : Policy) (a : Attempt) (u : Usage) → Passes (check_rules p a u)
unfolding check_rules
check_rules-Passes p a u =
    bind-Passes _ _
      (bind-Passes _ _
        (bind-Passes _ _
          (bind-Passes _ _
            (bind-Passes _ _ (check_memo-Passes p a)
              (λ t. check_destination-Passes p a.dest_kind a t refl))
            (check_cap-Passes p a))
          (check_velocity-Passes p u))
        (check_budget-Passes _ p.daily_budget_atoms u.day_atoms a.amount_atoms))
      (check_budget-Passes _ p.weekly_budget_atoms u.week_atoms a.amount_atoms)

-- What the trace of a decision shows: every rule passed, or all but the last one, which is the
-- rule of the reason.
abbrev pub Explains : Decision → Type 0
Explains d =
    ((d.outcome ≢ deny) × (d.reason ≡ none) × AllPass d.trace)
    ⊎ ((d.outcome ≡ deny)
        × ((rule : Rule) × (detail : Detail) × (before : Trace) × (d.reason ≡ some (rule, detail))
            × (d.trace ≡ before ++ (record { rule = rule; pass = false; detail = detail } ∷ []))
            × AllPass before))

approval-Explains :
    (p : Policy) (a : Attempt) (u : Usage) (t : Trace) → AllPass t → Explains (approval p a u t)
unfolding approval
approval-Explains p a u t h = inl (ground arith, ground arith, grind (arith, passed-AllPass))

decide-Explains :
    (p : Policy) (a : Attempt) (u : Usage) (c : Checked) → Passes c → Explains (decide p a u c)
unfolding denial
decide-Explains p a u (go_on t) h = approval-Explains p a u t h
decide-Explains p a u (fail r d t) h = inr (refl, (r, d, t, refl, refl, h))

-- The trace explains the decision: on a payment or a question every rule that was evaluated
-- passed and there is no reason; on a denial the last rule failed, the reason is that rule with
-- its detail, and every rule before it passed.
pub evaluate-Explains : (p : Policy) (a : Attempt) (u : Usage) → Explains (evaluate p a u)
unfolding evaluate
evaluate-Explains p a u = decide-Explains p a u _ (check_rules-Passes p a u)
