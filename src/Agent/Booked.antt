-- ===== src/Agent/Booked.antt =====
-- The payments table against what the rails confirmed, in any history of the agent.
pub mod Run
use dcr.Prelude.{
  ℕ, ◌≡◌, ◌∙◌, sym, inl, inr, refl, ap, subst, Bool, true, false, List, [], ◌∷◌, ◌++◌, map, Option,
  none, some, arith, get_elem?, Option-cases, Bool-cases, ◌==◌, if◌then◌else◌,
}
use mathlib.Core.List.{append-nil}
use dcr.Prelude.Int64.{ℤ, pos, ltb_ℤ, leb_ℤ}
use dcr.Prelude.Bytes.{Bytes, lookup}
use dcr.Policy.{Policy, Outcome, allow, deny, escalate, Attempt, Decision, Channel}
use dcr.AgentStore.{
  Store, Payment, Approval, Status, record_payment, record_attempt, resolve_approval,
  create_approval, expire_approvals, touch_token, put_token, delete_token, set_state,
}
use dcr.AgentStore.Verdicts.{resolve_approval_outcome}
use dcr.PayClient.{
  FetchOptions, FetchResult, PayChallenge, FetchError, Codecs, Admission, proceed, refuse,
}
use dcr.PayClient.Fetch as Client
use dcr.PayClient.Fetch.{Server, Answer, gate_answer}
use dcr.PayClient.Contract.{Contract, Leaves, fetch_paid-Leaves}
use dcr.Agent.{
  System, LnInvoice, Payout, pay_invoice, pay_address, pays, refetches, Continuation, Task,
  Transfer, Result, ok, err,
}
use dcr.Agent.Freeze.{FreezeJson, not_frozen, freeze, unfreeze}
use dcr.Agent.Registry as Registry
use dcr.Agent.Registry.{resolve, expire_sweep, restart, notified, new_approval}
use dcr.Agent.Payments.{
  Answers, evaluate_and_record, write_attempt, exec, do_ln_pay, do_onchain_pay, dispatch, park,
  log_transfer, execute_or_escalate, pay_ln_invoice, pay_dcr_address,
}
use dcr.Agent.Fetch.{
  GateError, denied, challenge_changed, needs_approval, gate, pay, ports, book, parked, finish,
  fetch_paid, continue_task, run_task,
}
use dcr.Agent.History.{Event, step, run, run_at, new_system}

-- The attempt and the amount of each request that a rail confirmed, and of each recorded payment.
unfoldable pub moved : List Transfer → List (ℕ × ℤ)
moved [] = []
moved (t ∷ ts) =
    let rest = moved ts in if t.confirmed then (t.attempt_id, t.amount_atoms) ∷ rest else rest

unfoldable pub booked : List Payment → List (ℕ × ℤ)
booked [] = []
booked (p ∷ ps) = (p.attempt_id, p.amount_atoms) ∷ booked ps

abbrev pub Balanced : System → Type 0
Balanced s = moved s.transfers ≡ booked s.store.payments

-- A payment is confirmed and not yet recorded.
abbrev pub Owed : System → ℕ → ℤ → Type 0
Owed s id n = moved s.transfers ≡ booked s.store.payments ++ ((id, n) ∷ [])

moved-append :
    (ts : List Transfer) (t : Transfer)
    → moved (ts ++ (t ∷ []))
      ≡ moved ts ++ (if t.confirmed then (t.attempt_id, t.amount_atoms) ∷ [] else [])
unfolding moved
moved-append [] t = refl
moved-append (u ∷ ts) t = elim (Bool-cases u.confirmed) [
  | inl done ↦ rw done (ap (λ xs. (u.attempt_id, u.amount_atoms) ∷ xs) (moved-append ts t))
  | inr failed ↦ rw failed (moved-append ts t)
]

booked-append :
    (ps : List Payment) (p : Payment)
    → booked (ps ++ (p ∷ [])) ≡ booked ps ++ ((p.attempt_id, p.amount_atoms) ∷ [])
unfolding booked
booked-append [] p = refl
booked-append (q ∷ ps) p = ap (λ xs. (q.attempt_id, q.amount_atoms) ∷ xs) (booked-append ps p)

-- A request that the rail confirmed is owed a payment.
log_true : (s : System) (id : ℕ) (n : ℤ) → Balanced s → Owed (log_transfer s id n true) id n
log_true s id n b =
    moved-append s.transfers (record { attempt_id = id; amount_atoms = n; confirmed = true })
    ∙ ap (λ xs. xs ++ ((id, n) ∷ [])) b

log_false : (s : System) (id : ℕ) (n : ℤ) → Balanced s → Balanced (log_transfer s id n false)
log_false s id n b =
    moved-append s.transfers (record { attempt_id = id; amount_atoms = n; confirmed = false })
    ∙ (append-nil (moved s.transfers) ∙ b)

-- Recording it settles the books.
pub record-Owed :
    (s : System) (p : Payment)
    → Owed s p.attempt_id p.amount_atoms
    → Balanced (record s { store = (record_payment s.store p).1 })
unfolding record_payment
record-Owed s p o = o ∙ sym (booked-append s.store.payments _)

pub exec-Balanced : (s : System) (p : Payout) (w : Answers) → Balanced s → Balanced (exec s p w).1
unfolding exec
exec-Balanced s (pay_invoice id invoice dec) w b = elim (Option-cases w.ln_pay) [
  | inl e ↦ rw (e, do_ln_pay) (log_false s id dec.amount_atoms b)
  | inr (r, e) ↦
      rw (e, do_ln_pay)
        (record-Owed (log_transfer s id dec.amount_atoms true) _ (log_true s id dec.amount_atoms b))
]
exec-Balanced s (pay_address id address amount) w b = elim (Option-cases w.onchain_send) [
  | inl e ↦ rw (e, do_onchain_pay) (log_false s id amount b)
  | inr (r, e) ↦
      rw (e, do_onchain_pay)
        (record-Owed (log_transfer s id amount true) _ (log_true s id amount b))
]

pub payments-resolve :
    (m : Store) (id : Bytes) (status : Status) (responder : Bytes) (at : ℕ)
    → (resolve_approval m id status responder at).1.payments ≡ m.payments
payments-resolve m id status responder at =
    elim (resolve_approval_outcome m id status responder at) [
      | inl (a, _, same) ↦ rw same refl
      | inr (same, _) ↦ rw same refl
    ]

-- A change of the store that leaves its payments alone.
pub kept :
    (ts : List Transfer) (ps qs : List Payment)
    → qs ≡ ps
    → moved ts ≡ booked ps
    → moved ts ≡ booked qs
kept ts ps qs e b = b ∙ ap booked (sym e)

pub escalate-Balanced :
    (s : System) (id : Bytes) (attempt_id : ℕ) (channel : Channel) (ttl : ℤ) (k : Continuation)
    (approvers : List (Bytes × Bool)) (now : ℕ)
    → Balanced s
    → Balanced (Registry.escalate s id attempt_id channel ttl k approvers now).1
unfolding Registry.escalate create_approval
escalate-Balanced s id attempt_id channel ttl k approvers now b =
    elim (Bool-cases (notified channel approvers == 0)) [
      | inr heard ↦ rw (heard, Registry.escalate) b
      | inl unheard ↦
          rw (unheard, Registry.escalate)
            (kept s.transfers s.store.payments _
              (payments-resolve
                (create_approval s.store (new_approval id attempt_id channel ttl now)) id
                Status.denied _ now)
              b)
    ]

park-Balanced : (p : Result Approval × System) → Balanced p.1 → Balanced (park p).1
park-Balanced (ok appr, s) b = b
park-Balanced (err e, s) b = b

pub parked-Balanced : (p : Result Approval × System) → Balanced p.1 → Balanced (parked p).1
parked-Balanced (ok appr, s) b = b
parked-Balanced (err e, s) b = b

pub dispatch-Balanced :
    (o : Outcome) (s : System) (id : ℕ) (d : Decision) (make : ℕ → Payout) (w : Answers)
    → Balanced s
    → Balanced (dispatch o s id d make w).1
dispatch-Balanced allow s id d make w b = exec-Balanced s (make id) w b
dispatch-Balanced deny s id d make w b = b
dispatch-Balanced escalate s id d make w b =
    park-Balanced _ (escalate-Balanced s w.random_id id _ d.approval_ttl _ w.approvers w.now b)

module _ (ceiling : Option ℤ) (w : Answers) where
  touch-Balanced :
      (s : System) (host : Bytes) (at : ℕ)
      → Balanced s
      → Balanced (record s { store = touch_token s.store host at })
  unfolding touch_token
  touch-Balanced s host at b = elim (Option-cases (lookup host s.store.tokens)) [
    | inl missing ↦ rw (missing, touch_token) b
    | inr (t, found) ↦ rw (found, touch_token) b
  ]

  gate-Balanced :
      (g : System → Attempt → Admission GateError × System)
      → some (gate ceiling w.now) ≡ some g
      → (s : System) (a : Attempt) → Balanced s
      → Balanced (g s a).1
  unfolding gate evaluate_and_record write_attempt record_attempt
  gate-Balanced g e s a b =
      let same : gate ceiling w.now ≡ g = cc in subst (λ h. Balanced (h s a).1) same b

  -- A fetch owes a payment from the rail's answer on, until it is booked.
  pub keeps : Contract (ports ceiling w) (λ a. Unit) Balanced (λ s id n. Unit) Owed (λ s e. Unit)
  unfolding put_token delete_token pay
  keeps = record {
    puts = λ s t id n o. o;
    touches = λ s host at b. touch-Balanced s host at b;
    deletes = λ s host b. b;
    gates = λ g e s a asked b. (gate-Balanced g e s a b, (λ id q. tt), (λ x q. tt));
    fails = λ s id ch b _ e. elim (Option-cases w.ln_pay) [
      | inl failed ↦ rw (failed, pay) (log_false s id ch.amount_atoms b)
      | inr (p, paid) ↦ absurd (ground arith)
    ];
    pays = λ s id ch p b _ e. elim (Option-cases w.ln_pay) [
      | inl failed ↦ absurd (ground arith)
      | inr (p, paid) ↦ rw (paid, pay) (log_true s id ch.amount_atoms b)
    ];
  }
