-- ===== src/Agent/Spending.antt =====
-- What a payment does to the spending windows that the policy reads: no paid call leaves the day's
-- or the week's spending above its budget.
use dcr.Prelude.{ℕ, ◌*◌, ◌≤◌, ◌≡◌, ◌≢◌, inl, inr, refl, Bool, [], some, arith, Option-cases}
use dcr.Prelude.Int64.{ℤ, pos, ◌≤ℤ◌, ◌<ℤ◌, add64, add64_exact}
use dcr.Prelude.Bytes.{Bytes, codes}
use dcr.Policy.{Channel, Outcome, allow, deny, escalate, Attempt, Decision, Usage}
use dcr.Policy.Evaluate.{evaluate}
use dcr.Policy.Evaluate.Budget.{Fits, evaluate_within_budget}
use dcr.AgentStore.{Approval, Payment, usage, record_attempt, record_payment}
use dcr.AgentStore.Calendar.{day_ns}
use dcr.AgentStore.Spending.{usage-record_payment}
use dcr.Agent.{
  System, LnInvoice, Payout, pay_invoice, pay_address, pays, Result, ok, err, PayResult,
}
use dcr.Agent.Freeze.{FreezeJson, not_frozen}
use dcr.Agent.Registry as Registry
use dcr.Agent.Payments.{
  Answers, write_attempt, evaluate_and_record, do_ln_pay, do_onchain_pay, exec, dispatch, park,
  channel_or, execute_or_escalate, pay_ln_invoice, pay_dcr_address, invoice_attempt,
  address_attempt,
}

-- What a continuation pays.
abbrev cont_amount : Payout → ℤ
cont_amount (pay_invoice _ _ dec) = dec.amount_atoms
cont_amount (pay_address _ _ amount) = amount

pub usage-write_attempt :
    (s : System) (a : Attempt) (d : Decision) (t now : ℕ)
    → usage (write_attempt s a d t).1.store now ≡ usage s.store now
unfolding usage write_attempt record_attempt
usage-write_attempt s a d t now = refl

-- The windows after a payment of `amount`.
abbrev Spent : Usage → ℤ → Usage → Type 0
Spent u amount u' =
    (u'.day_atoms ≡ add64 u.day_atoms amount) × (u'.week_atoms ≡ add64 u.week_atoms amount)

-- The payment that a paid continuation records.
unfoldable pub Recorded : System → ℤ → ℕ → System → Type 0
Recorded s amount now s' =
    (p : Payment) × (p.amount_atoms ≡ amount)
    × (p.created_at ≡ now)
    × (s'.store ≡ (record_payment s.store p).1)

exec-Recorded :
    (s s' : System) (c : Payout) (w : Answers) (r : PayResult)
    → exec s c w ≡ (ok r, s')
    → Recorded s (cont_amount c) w.now s'
unfolding exec do_ln_pay do_onchain_pay Recorded
exec-Recorded s s' (pay_invoice id invoice dec) w r paid = elim (Option-cases w.ln_pay) [
  | inl e ↦ ground arith
  | inr ((preimage, fee), e) ↦
      let p : Payment = record {
        id = 0;
        attempt_id = id;
        rail = codes "ln";
        amount_atoms = dec.amount_atoms;
        fee_atoms = fee;
        invoice = invoice;
        preimage = preimage;
        txid = [];
        created_at = w.now;
      } in
      (p, refl, refl, ground arith)
]
exec-Recorded s s' (pay_address id address amount) w r paid = elim (Option-cases w.onchain_send) [
  | inl e ↦ ground arith
  | inr (txid, e) ↦
      let p : Payment = record {
        id = 0;
        attempt_id = id;
        rail = codes "onchain";
        amount_atoms = amount;
        fee_atoms = pos 0;
        invoice = [];
        preimage = [];
        txid = txid;
        created_at = w.now;
      } in
      (p, refl, refl, ground arith)
]

park_never_pays : (x : Result Approval × System) (r : PayResult) (s' : System) → park x ≢ (ok r, s')
park_never_pays (ok appr, s) r s' e = ground arith
park_never_pays (err x, s) r s' e = ground arith

dispatch_pays :
    (o : Outcome) (s s' : System) (id : ℕ) (d : Decision) (make : ℕ → Payout) (w : Answers)
    (r : PayResult)
    → dispatch o s id d make w ≡ (ok r, s')
    → (o ≡ allow) × (exec s (make id) w ≡ (ok r, s'))
dispatch_pays allow s s' id d make w r paid = (refl, paid)
dispatch_pays deny s s' id d make w r paid = ground arith
dispatch_pays escalate s s' id d make w r paid = absurd (
    park_never_pays
      (Registry.escalate s w.random_id id (channel_or d.approval_channel Channel.web) d.approval_ttl
        (pays (make id)) w.approvers w.now)
      r s' paid)

-- A paid call recorded one payment of the amount it was asked for, on a decision to allow it.
unfoldable pub Paid : System → Attempt → ℕ → System → Type 0
Paid s a now s' =
    ((evaluate s.policy a (usage s.store now)).outcome ≡ allow)
    × ((mid : System) × (usage mid.store now ≡ usage s.store now)
        × Recorded mid a.amount_atoms now s')

module _ (json : FreezeJson) where
  execute_or_escalate-Paid :
      (s s' : System) (a : Attempt) (make : ℕ → Payout) (w : Answers) (r : PayResult)
      → ((id : ℕ) → cont_amount (make id) ≡ a.amount_atoms)
      → execute_or_escalate json s a make w ≡ (ok r, s')
      → Paid s a w.now s'
  unfolding execute_or_escalate evaluate_and_record Paid
  execute_or_escalate-Paid s s' a make w r amount paid = elim (Option-cases (not_frozen json s)) [
    | inr (e, is_frozen) ↦ ground arith
    | inl thawed ↦
        let d = evaluate s.policy a (usage s.store w.now) in
        let wrote = write_attempt s a d w.now in
        let (allows, paying) =
          dispatch_pays d.outcome wrote.1 s' wrote.0 d make w r
            (rw (thawed, execute_or_escalate, evaluate_and_record) at paid) in
        let rec = exec-Recorded wrote.1 s' (make wrote.0) w r paying in
        (allows, (wrote.1, usage-write_attempt s a d w.now w.now, rw (amount wrote.0) at rec))
  ]

  pay_ln_invoice-Paid :
      (s s' : System) (invoice : Bytes) (dec : LnInvoice) (memo : Bytes) (max_amount : ℤ)
      (w : Answers) (r : PayResult)
      → pay_ln_invoice json s invoice (some dec) memo max_amount w ≡ (ok r, s')
      → Paid s (invoice_attempt dec memo) w.now s'
  unfolding pay_ln_invoice
  pay_ln_invoice-Paid s s' invoice dec memo max_amount w r paid =
      execute_or_escalate-Paid s s' (invoice_attempt dec memo) (λ id. pay_invoice id invoice dec) w
        r (λ id. refl) (ground arith)

  pay_dcr_address-Paid :
      (s s' : System) (has_onchain : Bool) (address : Bytes) (amount : ℤ) (memo : Bytes)
      (w : Answers) (r : PayResult)
      → pay_dcr_address json s has_onchain address amount memo w ≡ (ok r, s')
      → Paid s (address_attempt address amount memo) w.now s'
  unfolding pay_dcr_address
  pay_dcr_address-Paid s s' has_onchain address amount memo w r paid =
      execute_or_escalate-Paid s s' (address_attempt address amount memo)
        (λ id. pay_address id address amount) w r (λ id. refl) (ground arith)

-- The spending windows of `s'` keep the budgets of the policy of `s`.
abbrev pub WithinBudgets : System → ℕ → System → Type 0
WithinBudgets s now s' =
    (pos 0 <ℤ s.policy.daily_budget_atoms
      → (usage s'.store now).day_atoms ≤ℤ s.policy.daily_budget_atoms)
    × (pos 0 <ℤ s.policy.weekly_budget_atoms
        → (usage s'.store now).week_atoms ≤ℤ s.policy.weekly_budget_atoms)

pub Paid-WithinBudgets :
    (s s' : System) (a : Attempt) (now : ℕ)
    → 4 * day_ns ≤ now
    → Fits a (usage s.store now)
    → Paid s a now s'
    → WithinBudgets s now s'
unfolding Paid Recorded
Paid-WithinBudgets s s' a now late f paid =
    let (allows, there) = paid in
    let (mid, same, recorded) = there in
    let (p, amount, at_now, writes) = recorded in
    let u = usage s.store now in
    let (day, week, _) = evaluate_within_budget s.policy a u f (ground arith) in
    let (grows, grows_week, _) = usage-record_payment mid.store p now at_now late in
    let day_exact = add64_exact u.day_atoms a.amount_atoms f.day f.amount f.day_sum in
    let week_exact = add64_exact u.week_atoms a.amount_atoms f.week f.amount f.week_sum in
    (
      λ b. rw (writes, grows, same, amount, day_exact) (day b),
      λ b. rw (writes, grows_week, same, amount, week_exact) (week b),
    )

-- When a Lightning payment returns a result, the spending of its day and of its week, as the store
-- counts it afterwards, is within the owner's daily and weekly budgets, where these are set. The
-- clock is past the fourth day of 1970 and the sums fit int64.
pub invoice_within_budget :
    (json : FreezeJson) (s s' : System) (invoice : Bytes) (dec : LnInvoice) (memo : Bytes)
    (max_amount : ℤ) (w : Answers) (r : PayResult)
    → 4 * day_ns ≤ w.now
    → Fits (invoice_attempt dec memo) (usage s.store w.now)
    → pay_ln_invoice json s invoice (some dec) memo max_amount w ≡ (ok r, s')
    → WithinBudgets s w.now s'
invoice_within_budget json s s' invoice dec memo max_amount w r late f paid =
    Paid-WithinBudgets s s' (invoice_attempt dec memo) w.now late f
      (pay_ln_invoice-Paid json s s' invoice dec memo max_amount w r paid)

-- When an on-chain payment returns a result, the spending of its day and of its week, as the store
-- counts it afterwards, is within the owner's daily and weekly budgets, where these are set. The
-- clock is past the fourth day of 1970 and the sums fit int64.
pub address_within_budget :
    (json : FreezeJson) (s s' : System) (has_onchain : Bool) (address : Bytes) (amount : ℤ)
    (memo : Bytes) (w : Answers) (r : PayResult)
    → 4 * day_ns ≤ w.now
    → Fits (address_attempt address amount memo) (usage s.store w.now)
    → pay_dcr_address json s has_onchain address amount memo w ≡ (ok r, s')
    → WithinBudgets s w.now s'
address_within_budget json s s' has_onchain address amount memo w r late f paid =
    Paid-WithinBudgets s s' (address_attempt address amount memo) w.now late f
      (pay_dcr_address-Paid json s s' has_onchain address amount memo w r paid)
