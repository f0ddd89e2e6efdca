-- ===== src/Agent/Booked/Run.antt =====
-- The books stay balanced through every step of the agent.
use dcr.Prelude.{
  ℕ, ◌≡◌, ◌⊎◌, inl, inr, refl, Bool, true, false, List, [], ◌∷◌, Option, none, some, arith,
  get_elem?, Option-cases, Bool-cases, if◌then◌else◌,
}
use dcr.Prelude.Int64.{ℤ, pos, ltb_ℤ, leb_ℤ, ◌<ℤ◌}
use dcr.Prelude.Bytes.{Bytes}
use dcr.Policy.{Policy, Attempt}
use dcr.Policy.Evaluate.{evaluate}
use dcr.AgentStore.{usage, approved, record_payment, record_attempt, set_state, expire_approvals}
use dcr.AgentStore as AgentStore
use dcr.PayClient.{FetchOptions, FetchResult, FetchError, Codecs}
use dcr.PayClient.Fetch as Client
use dcr.PayClient.Fetch.{Server, Answer, gate_answer}
use dcr.PayClient.Contract.{Leaves, fetch_paid-Leaves}
use dcr.Agent.{System, LnInvoice, Payout, pay_invoice, pay_address, pays, refetches, Continuation}
use dcr.Agent.Freeze.{FreezeJson, not_frozen, freeze, unfreeze}
use dcr.Agent.Registry.{resolve, expire_sweep, restart}
use dcr.Agent.Payments.{
  Answers, evaluate_and_record, write_attempt, execute_or_escalate, pay_ln_invoice, pay_dcr_address,
  is_above_max, invoice_attempt, address_attempt,
}
use dcr.Agent.Fetch.{
  GateError, denied, challenge_changed, needs_approval, ports, book, finish, fetch_paid,
  continue_task, run_task,
}
use dcr.Agent.History.{
  Event, pays_invoice, pays_address, fetches, answers, sweeps, runs, freezes, unfreezes, restarts,
  reloads, step, run, run_at, new_system, remove_at,
}
use dcr.Agent.Booked.{
  moved, booked, Balanced, Owed, record-Owed, payments-resolve, kept, escalate-Balanced,
  parked-Balanced, dispatch-Balanced, exec-Balanced, keeps,
}

answered-Balanced :
    (x : GateError) (s : System) (e : Option (FetchError GateError)) (url : Bytes)
    (opt : FetchOptions) (w : Answers)
    → gate_answer e ≡ some x
    → Balanced s
    → Balanced (finish ((none, e), s) url opt w).1
unfolding finish book
answered-Balanced (denied d) s e url opt w q b = rw (q, finish) b
answered-Balanced (challenge_changed d n max_atoms) s e url opt w q b = rw (q, finish) b
answered-Balanced (needs_approval id d a) s e url opt w q b =
    rw (q, finish)
      (parked-Balanced _
        (escalate-Balanced s w.random_id id _ d.approval_ttl _ w.approvers w.now b))

booked-Balanced :
    (s : System) (r : FetchResult) (now : ℕ)
    → (((r.paid_atoms ≡ pos 0) × Balanced s)
        ⊎ ((pos 0 <ℤ r.paid_atoms) × Owed s r.attempt_id r.paid_atoms))
    → Balanced (book s (some r) now)
unfolding book
booked-Balanced s r now (inl (free, b)) =
    let unpaid : ltb_ℤ (pos 0) r.paid_atoms ≡ false = rw free refl in rw (unpaid, book) b
booked-Balanced s r now (inr (p, o)) =
    let paid : ltb_ℤ (pos 0) r.paid_atoms ≡ true = ground arith in
    rw (paid, book) (record-Owed s _ o)

finish-Balanced :
    (x : Answer GateError × System) (url : Bytes) (opt : FetchOptions) (w : Answers)
    → Leaves Balanced Owed (λ s e. Unit) x
    → Balanced (finish x url opt w).1
unfolding finish
finish-Balanced ((none, e), s) url opt w (b, _) = elim (Option-cases (gate_answer e)) [
  | inl other ↦ rw (other, finish, book) b
  | inr (x, asked) ↦ answered-Balanced x s e url opt w asked b
]
finish-Balanced ((some res, e), s) url opt w (silent, h) =
    rw (silent, finish) (booked-Balanced s res w.now h)

module _ (json : FreezeJson) (c : Codecs) (caip2 : Bytes) where
  fetch_paid-Balanced :
      (s : System) (url : Bytes) (opt : FetchOptions) (ceiling : Option ℤ) (server : Server)
      (w : Answers)
      → Balanced s
      → Balanced (fetch_paid json c caip2 s url opt ceiling server w).1
  unfolding fetch_paid
  fetch_paid-Balanced s url opt ceiling server w b = elim (Option-cases (not_frozen json s)) [
    | inr (e, stopped) ↦ rw (stopped, fetch_paid) b
    | inl goes ↦
        rw (goes, fetch_paid)
          (finish-Balanced (Client.fetch_paid c caip2 (ports ceiling w) server s url opt w.now) url
            opt w
            (fetch_paid-Leaves c caip2 (ports ceiling w) server (keeps ceiling w) s url opt w.now
              (λ host ch e. tt) b))
  ]

  continue_task-Balanced :
      (s : System) (k : Continuation) (server : Server) (w : Answers)
      → Balanced s
      → Balanced (continue_task json c caip2 s k server w)
  unfolding continue_task
  continue_task-Balanced s (pays p) server w b = exec-Balanced s p w b
  continue_task-Balanced s (refetches id url opt n) server w b =
      fetch_paid-Balanced s url opt (some n) server w b

  run_at-Balanced :
      (s : System) (i : ℕ) (server : Server) (w : Answers)
      → Balanced s
      → Balanced (run_at json c caip2 s i server w)
  unfolding run_at run_task
  run_at-Balanced s i server w b = elim (Option-cases (get_elem? s.tasks i)) [
    | inl gone ↦ rw (gone, run_at) b
    | inr (t, there) ↦ elim (Bool-cases t.approved) [
      | inr refused ↦ rw (there, run_at, refused, run_task) b
      | inl said_yes ↦
          rw (there, run_at, said_yes, run_task)
            (continue_task-Balanced (record s { tasks = remove_at i s.tasks }) t.continuation server
              w b)
    ]
  ]

  execute-Balanced :
      (s : System) (a : Attempt) (make : ℕ → Payout) (w : Answers)
      → Balanced s
      → Balanced (execute_or_escalate json s a make w).1
  unfolding execute_or_escalate evaluate_and_record write_attempt record_attempt
  execute-Balanced s a make w b = elim (Option-cases (not_frozen json s)) [
    | inr (e, stopped) ↦ rw (stopped, execute_or_escalate) b
    | inl goes ↦
        let wrote = write_attempt s a (evaluate s.policy a (usage s.store w.now)) w.now in
        rw (goes, execute_or_escalate) (dispatch-Balanced _ wrote.1 wrote.0 _ make w b)
  ]

  pay_ln_invoice-Balanced :
      (s : System) (invoice : Bytes) (dec : Option LnInvoice) (memo : Bytes) (max_amount : ℤ)
      (w : Answers)
      → Balanced s
      → Balanced (pay_ln_invoice json s invoice dec memo max_amount w).1
  unfolding pay_ln_invoice
  pay_ln_invoice-Balanced s invoice none memo max_amount w b = b
  pay_ln_invoice-Balanced s invoice (some dec) memo max_amount w b =
      let paid =
        execute-Balanced s (invoice_attempt dec memo) (λ id. pay_invoice id invoice dec) w b in
      elim (Bool-cases (leb_ℤ dec.amount_atoms (pos 0))) [
        | inl amountless ↦ rw (amountless, pay_ln_invoice) b
        | inr priced ↦ elim (Bool-cases (is_above_max max_amount dec.amount_atoms)) [
          | inl above ↦ rw (priced, above, pay_ln_invoice) b
          | inr within ↦ rw (priced, within, pay_ln_invoice) paid
        ]
      ]

  pay_dcr_address-Balanced :
      (s : System) (has_onchain : Bool) (address : Bytes) (amount : ℤ) (memo : Bytes) (w : Answers)
      → Balanced s
      → Balanced (pay_dcr_address json s has_onchain address amount memo w).1
  unfolding pay_dcr_address
  pay_dcr_address-Balanced s false address amount memo w b = b
  pay_dcr_address-Balanced s true address amount memo w b =
      let paid =
        execute-Balanced s (address_attempt address amount memo)
          (λ id. pay_address id address amount) w b in
      elim (Bool-cases (leb_ℤ amount (pos 0))) [
        | inl nothing ↦ rw (nothing, pay_dcr_address) b
        | inr some_amount ↦ rw (some_amount, pay_dcr_address) paid
      ]

  resolve-Balanced :
      (s : System) (id : Bytes) (verdict : Bool) (responder : Bytes) (now : ℕ)
      → Balanced s
      → Balanced (resolve s id verdict responder now).1
  unfolding resolve
  resolve-Balanced s id verdict responder now b =
      let same =
        payments-resolve s.store id (if verdict then approved else AgentStore.denied) responder
          now in
      ground (arith, kept s.transfers s.store.payments _ same b)

  step-Balanced : (s : System) (e : Event) → Balanced s → Balanced (step json c caip2 s e)
  unfolding step freeze unfreeze restart expire_sweep expire_approvals set_state
  step-Balanced s (pays_invoice invoice dec memo max_amount w) b =
      pay_ln_invoice-Balanced s invoice dec memo max_amount w b
  step-Balanced s (pays_address has_onchain address amount memo w) b =
      pay_dcr_address-Balanced s has_onchain address amount memo w b
  step-Balanced s (fetches url opt server w) b = fetch_paid-Balanced s url opt none server w b
  step-Balanced s (answers id verdict responder now) b =
      resolve-Balanced s id verdict responder now b
  step-Balanced s (sweeps now) b = b
  step-Balanced s (runs i server w) b = run_at-Balanced s i server w b
  step-Balanced s (freezes by reason now) b = b
  step-Balanced s unfreezes b = b
  step-Balanced s restarts b = b
  step-Balanced s (reloads p) b = b

  run-Balanced : (s : System) (es : List Event) → Balanced s → Balanced (run json c caip2 s es)
  unfolding run
  run-Balanced s [] b = b
  run-Balanced s (e ∷ es) b = run-Balanced (step json c caip2 s e) es (step-Balanced s e b)

  -- Nothing that was paid stays off the books. From an empty agent, through any history of payment
  -- calls, paid fetches, verdicts, sweeps, goroutines, freezes, reloads and restarts, the payments
  -- table holds exactly the requests that a rail confirmed: the same attempts and amounts, in the
  -- same order. A fetch whose service takes the money and then refuses is among them.
  pub payments_match_transfers :
      (p : Policy) (es : List Event)
      → let s = run json c caip2 (new_system p) es in moved s.transfers ≡ booked s.store.payments
  unfolding new_system moved booked
  payments_match_transfers p es = run-Balanced (new_system p) es refl
