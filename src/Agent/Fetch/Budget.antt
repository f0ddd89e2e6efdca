-- ===== src/Agent/Fetch/Budget.antt =====
-- What a paid fetch does to the spending windows, and the ceiling of one that the owner approved.
use dcr.Prelude.{
  ℕ, ◌*◌, ◌≤◌, ◌≡◌, ◌∙◌, inl, inr, refl, subst, sym, ap, true, Option, none, some, arith,
  Option-cases,
}
use dcr.Prelude.Int64.{ℤ, pos, ltb_ℤ, ◌<ℤ◌}
use dcr.Prelude.Bytes.{Bytes, lookup}
use dcr.Policy.{Outcome, allow, deny, escalate, Attempt, Decision}
use dcr.Policy.Evaluate.{evaluate}
use dcr.Policy.Evaluate.Budget.{Fits}
use dcr.AgentStore.{Approval, usage, put_token, touch_token, delete_token}
use dcr.AgentStore.Calendar.{day_ns}
use dcr.PayClient.{FetchOptions, FetchResult, FetchError, PayChallenge, Admission, proceed, Codecs}
use dcr.PayClient.Fetch as Client
use dcr.PayClient.Fetch.{Server, Answer, gate_answer}
use dcr.PayClient.Contract.{Contract, Leaves, fetch_paid-Leaves}
use dcr.Agent.{System, Result, ok, err}
use dcr.Agent.Freeze.{FreezeJson, not_frozen}
use dcr.Agent.Payments.{Answers, evaluate_and_record, write_attempt}
use dcr.Agent.Spending.{Paid, Recorded, WithinBudgets, Paid-WithinBudgets, usage-write_attempt}
use dcr.Agent.Fetch.{
  GateError, judge, gate, pay, ports, book, finish, Failure, failure_of, parked, approval_needed,
  fetch_paid,
}

policy-write_attempt :
    (s : System) (a : Attempt) (d : Decision) (now : ℕ)
    → (write_attempt s a d now).1.policy ≡ s.policy
unfolding write_attempt
policy-write_attempt s a d now = refl

module _ (start : System) (w : Answers) where
  -- The windows are those of the start, and so is the policy.
  Same : System → Type 0
  Same s = (s.policy ≡ start.policy) × (usage s.store w.now ≡ usage start.store w.now)

  Same-refl : Same start
  unfolding Same
  Same-refl = (refl, refl)

  -- The policy of the start allowed an attempt of that amount.
  Allowed : ℤ → Type 0
  Allowed n =
      (a : Attempt) × (a.amount_atoms ≡ n)
      × ((evaluate start.policy a (usage start.store w.now)).outcome ≡ allow)

  judge_allows :
      (o : Outcome) (id i : ℕ) (d : Decision) (a : Attempt)
      → judge none o id d a ≡ proceed i
      → o ≡ allow
  judge_allows allow id i d a e = refl
  judge_allows deny id i d a e = absurd (ground arith)
  judge_allows escalate id i d a e = absurd (ground arith)

  gate_allows :
      (s : System) (a : Attempt)
      → Same s
      → Same (gate none w.now s a).1
        × ((id : ℕ) → (gate none w.now s a).0 ≡ proceed id → Allowed a.amount_atoms)
  unfolding gate evaluate_and_record Same Allowed
  gate_allows s a (p, u) =
      let d = evaluate s.policy a (usage s.store w.now) in
      (
        (policy-write_attempt s a d w.now ∙ p, usage-write_attempt s a d w.now w.now ∙ u),
        λ id e. (a, refl, rw (p, u) at (judge_allows d.outcome _ id d a e)),
      )

  gate_keeps :
      (g : System → Attempt → Admission GateError × System)
      → some (gate none w.now) ≡ some g
      → (s : System) (a : Attempt) → Same s
      → Same (g s a).1 × ((id : ℕ) → (g s a).0 ≡ proceed id → Allowed a.amount_atoms)
  gate_keeps g e s a h =
      let same : gate none w.now ≡ g = cc in
      subst (λ k. Same (k s a).1 × ((id : ℕ) → (k s a).0 ≡ proceed id → Allowed a.amount_atoms))
        same (gate_allows s a h)

  pay-Same : (s : System) (id : ℕ) (ch : PayChallenge) → Same s → Same (pay w s id ch).1
  unfolding pay Same
  pay-Same s id ch h = elim (Option-cases w.ln_pay) [
    | inl failed ↦ rw (failed, pay) h
    | inr (p, paid) ↦ rw (paid, pay) h
  ]

  touch-Same :
      (s : System) (host : Bytes) (at : ℕ)
      → Same s
      → Same (record s { store = touch_token s.store host at })
  unfolding touch_token Same usage
  touch-Same s host at h = elim (Option-cases (lookup host s.store.tokens)) [
    | inl missing ↦ rw (missing, touch_token) h
    | inr (t, found) ↦ rw (found, touch_token) h
  ]

  keeps :
      Contract
        (ports none w)
        (λ a. Unit)
        Same
        (λ s id n. Allowed n)
        (λ s id n. Same s × Allowed n)
        (λ s e. Unit)
  unfolding put_token delete_token pay Same usage
  keeps = record {
    puts = λ s t id n h. h;
    touches = λ s host at h. touch-Same s host at h;
    deletes = λ s host h. h;
    gates =
        λ g e s a asked h. let (same, allows) = gate_keeps g e s a h in (same, allows, (λ x q. tt));
    fails = λ s id ch h may e. pay-Same s id ch h;
    pays = λ s id ch p h may e. (pay-Same s id ch h, may);
  }

parked_none : (x : Result Approval × System) → (parked x).0.0 ≡ none
parked_none (ok appr, s) = refl
parked_none (err e, s) = refl

finish-none :
    (e : Option (FetchError GateError)) (s : System) (url : Bytes) (opt : FetchOptions)
    (w : Answers)
    → (finish ((none, e), s) url opt w).0.0 ≡ none
unfolding finish
finish-none e s url opt w = elim (Option-cases (approval_needed (gate_answer e))) [
  | inl other ↦ rw (other, finish) refl
  | inr ((id, d, a), asked) ↦ rw (asked, finish) (parked_none _)
]

-- A result of the client that names a payment is recorded.
booked_Paid :
    (start s : System) (w : Answers) (r : FetchResult)
    → Same start w s
    → Allowed start w r.paid_atoms
    → pos 0 <ℤ r.paid_atoms
    → (a : Attempt) × (a.amount_atoms ≡ r.paid_atoms) × Paid start a w.now (book s (some r) w.now)
unfolding book Same Allowed Paid Recorded
booked_Paid start s w r (_, windows) (a, same, allows) p =
    let paid : ltb_ℤ (pos 0) r.paid_atoms ≡ true = ground arith in
    rw (paid, book) (a, same, (allows, (s, windows, (_, sym same, refl, refl))))

-- What the service makes of a client's answer that names a payment.
finish-Paid :
    (start : System) (x : Answer GateError × System) (url : Bytes) (opt : FetchOptions)
    (w : Answers) (r : FetchResult) (e : Option Failure) (s' : System)
    → Leaves (Same start w) (λ s id n. Same start w s × Allowed start w n) (λ s e. Unit) x
    → finish x url opt w ≡ ((some r, e), s')
    → pos 0 <ℤ r.paid_atoms
    → (a : Attempt) × (a.amount_atoms ≡ r.paid_atoms) × Paid start a w.now s'
unfolding finish
finish-Paid start ((none, fe), s) url opt w r e s' h q p =
    let empty = finish-none fe s url opt w in let full = ap (λ z. z.0.0) q in absurd cc
finish-Paid start ((some r0, fe), s) url opt w r e s' (silent, h) q p =
    let q' : ((some r0, failure_of fe), book s (some r0) w.now) ≡ ((some r, e), s') =
      rw (silent, finish) at q in
    let same : r0 ≡ r = cc in
    let after : book s (some r) w.now ≡ s' = cc in
    elim h [
      | inl (free, _) ↦ absurd (ground arith)
      | inr (_, (windows, allows)) ↦
          subst (λ z. (a : Attempt) × (a.amount_atoms ≡ r.paid_atoms) × Paid start a w.now z) after
            (booked_Paid start s w r windows (subst (λ z. Allowed start w z.paid_atoms) same allows)
              p)
    ]

-- When a paid fetch, asked for by the agent itself, reports a payment, whatever the service
-- answered to the proof, the spending of its day and of its week, as the store counts it afterwards,
-- is within the owner's daily and weekly budgets, where these are set. The clock is past the fourth
-- day of 1970 and the sums fit int64.
pub fetch_within_budget :
    (json : FreezeJson) (c : Codecs) (caip2 : Bytes) (s s' : System) (url : Bytes)
    (opt : FetchOptions) (server : Server) (w : Answers) (r : FetchResult) (e : Option Failure)
    → 4 * day_ns ≤ w.now
    → ((a : Attempt) → a.amount_atoms ≡ r.paid_atoms → Fits a (usage s.store w.now))
    → fetch_paid json c caip2 s url opt none server w ≡ ((some r, e), s')
    → pos 0 <ℤ r.paid_atoms
    → WithinBudgets s w.now s'
unfolding fetch_paid
fetch_within_budget json c caip2 s s' url opt server w r e late fits q p =
    elim (Option-cases (not_frozen json s)) [
      | inr (x, stopped) ↦
          let q' = ap (λ z. z.0.0) (rw (stopped, fetch_paid) at q) in absurd (ground arith)
      | inl goes ↦
          let left =
            fetch_paid-Leaves c caip2 (ports none w) server (keeps s w) s url opt w.now
              (λ host ch e. tt) (Same-refl s w) in
          let (a, same, paid) =
            finish-Paid s (Client.fetch_paid c caip2 (ports none w) server s url opt w.now) url opt
              w r e s' left (rw (goes, fetch_paid) at q) p in
          Paid-WithinBudgets s s' a w.now late (fits a same) paid
    ]
