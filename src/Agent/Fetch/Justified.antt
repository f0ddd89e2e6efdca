-- ===== src/Agent/Fetch/Justified.antt =====
-- The invariant `Inv` is kept by a paid fetch and by the goroutine of a verdict.
use dcr.Prelude.{
  ℕ, ◌≡◌, subst, inl, inr, refl, Bool, true, false, Option, none, some, Option-cases, Bool-cases,
}
use dcr.Prelude.Int64.{ℤ, pos, ltb_ℤ}
use dcr.Prelude.Bytes.{Bytes}
use dcr.Policy.{Attempt}
use dcr.Policy.Evaluate.{evaluate}
use dcr.AgentStore.{Approval, usage, put_token, delete_token}
use dcr.PayClient.{
  FetchOptions, FetchResult, FetchError, PayChallenge, Admission, proceed, refuse, Codecs,
}
use dcr.PayClient.Fetch as Client
use dcr.PayClient.Fetch.{Server, Answer, gate_answer}
use dcr.PayClient.Contract.{Contract, Leaves, fetch_paid-Leaves}
use dcr.Agent.{System, Continuation, pays, refetches, Task, Result, ok, err}
use dcr.Agent.Freeze.{FreezeJson, not_frozen}
use dcr.Agent.Payments.{Answers, evaluate_and_record, write_attempt, attempt_row, log_transfer}
use dcr.Agent.Extends.{record_payment-Extends, approval-record_attempt, record_attempt-Extends}
use dcr.Agent.Justified.{Approved, Hosts, Waits, attempt_of, MayMove, TaskOk, Inv, Inv-extend}
use dcr.Agent.Steps.{FreshId, logged-Inv, exec-Inv, escalate-Inv}
use dcr.Agent.Fetch.{
  GateError, denied, challenge_changed, needs_approval, gate, pay, ports, book, parked, finish,
  fetch_paid, continue_task, run_task,
}
use dcr.Agent.Fetch.Ready.{
  CeilingOk, Ready, Refused, Asked, CeilingOk-Allowance, Ready-extend, tokens-Ready, touch-Ready,
  judge-MayMove, judge-Refused, logs,
}

module _ (hosts : Hosts) (url : Bytes) where
  module _ (ceiling : Option ℤ) (w : Answers) where
    -- What the hook leaves, whatever it answers.
    abbrev Gated : (System → Attempt → Admission GateError × System) → System → Attempt → Type 0
    Gated g s a =
        Ready hosts url w.random_id ceiling (g s a).1
        × ((id : ℕ) → (g s a).0 ≡ proceed id → MayMove (g s a).1.store id a.amount_atoms)
        × ((e : GateError) → (g s a).0 ≡ refuse e → Refused hosts url (g s a).1 e)

    gate-Gated :
        (s : System) (a : Attempt)
        → Asked hosts url a
        → Ready hosts url w.random_id ceiling s
        → Gated (gate ceiling w.now) s a
    unfolding gate evaluate_and_record write_attempt
    gate-Gated s a asked r =
        let d = evaluate s.policy a (usage s.store w.now) in
        let row = attempt_row a d w.now in
        let r' =
          Ready-extend hosts url {s = s} (record_attempt-Extends s.store row)
            (approval-record_attempt s.store row w.random_id) r in
        let rec = logs hosts url s a d w.now in
        let allowance = CeilingOk-Allowance hosts url s.store row ceiling r.ceiling_ok in
        (
          r',
          λ i q. judge-MayMove hosts url _ ceiling d.outcome _ i d a asked allowance rec q,
          λ e q.
              judge-Refused hosts url (write_attempt s a d w.now).1 ceiling d.outcome _ d a e asked
                rec q,
        )

    logged :
        (s : System) (id : ℕ) (n : ℤ) (b : Bool)
        → MayMove s.store id n
        → Ready hosts url w.random_id ceiling s
        → Ready hosts url w.random_id ceiling (log_transfer s id n b)
    logged s id n b may r = record {
      inv = logged-Inv s id n b may r.inv;
      fresh = r.fresh;
      ceiling_ok = r.ceiling_ok;
    }

    pay-Ready :
        (s : System) (id : ℕ) (ch : PayChallenge)
        → MayMove s.store id ch.amount_atoms
        → Ready hosts url w.random_id ceiling s
        → Ready hosts url w.random_id ceiling (pay w s id ch).1
    unfolding pay
    pay-Ready s id ch may r = elim (Option-cases w.ln_pay) [
      | inl failed ↦ rw (failed, pay) (logged s id ch.amount_atoms false may r)
      | inr (p, paid) ↦ rw (paid, pay) (logged s id ch.amount_atoms true may r)
    ]

    keeps :
        Contract
          (ports ceiling w)
          (Asked hosts url)
          (Ready hosts url w.random_id ceiling)
          (λ s id n. MayMove s.store id n)
          (λ s id n. Ready hosts url w.random_id ceiling s)
          (Refused hosts url)
    unfolding put_token delete_token
    keeps = record {
      puts = λ s t id n r. tokens-Ready hosts url s _ r;
      touches = λ s host at r. touch-Ready hosts url s host at r;
      deletes = λ s host r. tokens-Ready hosts url s _ r;
      gates = λ g e s a asked r.
          let same : gate ceiling w.now ≡ g = cc in
          subst (λ h. Gated h s a) same (gate-Gated s a asked r);
      fails = λ s id ch r may e. pay-Ready s id ch may r;
      pays = λ s id ch p r may e. pay-Ready s id ch may r;
    }

  parked-Inv : (p : Result Approval × System) → Inv hosts p.1 → Inv hosts (parked p).1
  parked-Inv (ok appr, s) v = v
  parked-Inv (err e, s) v = v

  book-Inv :
      (s : System) (r : Option FetchResult) (now : ℕ) → Inv hosts s → Inv hosts (book s r now)
  unfolding book
  book-Inv s none now v = v
  book-Inv s (some r) now v = elim (Bool-cases (ltb_ℤ (pos 0) r.paid_atoms)) [
    | inl paid ↦ rw (paid, book) (Inv-extend (record_payment-Extends s.store _) v)
    | inr unpaid ↦ rw (unpaid, book) v
  ]

  -- Where the hook asked for an approval, the fetch is parked for it.
  answered-Inv :
      (x : GateError) (s : System) (e : Option (FetchError GateError)) (opt : FetchOptions)
      (ceiling : Option ℤ) (w : Answers)
      → gate_answer e ≡ some x
      → Ready hosts url w.random_id ceiling s
      → Refused hosts url s x
      → Inv hosts (finish ((none, e), s) url opt w).1
  unfolding finish
  answered-Inv (denied d) s e opt ceiling w q r h = rw (q, finish) r.inv
  answered-Inv (challenge_changed d n max_atoms) s e opt ceiling w q r h = rw (q, finish) r.inv
  answered-Inv (needs_approval id d a) s e opt ceiling w q r h =
      rw (q, finish)
        (parked-Inv _ (
          escalate-Inv s w.random_id id _ d.approval_ttl (refetches id url opt a.amount_atoms)
            w.approvers w.now r.fresh refl h r.inv))

  finish-Inv :
      (x : Answer GateError × System) (opt : FetchOptions) (ceiling : Option ℤ) (w : Answers)
      → Leaves
          (Ready hosts url w.random_id ceiling)
          (λ s id n. Ready hosts url w.random_id ceiling s)
          (Refused hosts url)
          x
      → Inv hosts (finish x url opt w).1
  unfolding finish
  finish-Inv ((none, e), s) opt ceiling w (r, refused) = elim (Option-cases (gate_answer e)) [
    | inl other ↦ rw (other, finish) r.inv
    | inr (x, asked) ↦ answered-Inv x s e opt ceiling w asked r (refused x asked)
  ]
  finish-Inv ((some res, e), s) opt ceiling w (silent, inl (p, r)) =
      rw (silent, finish) (book-Inv s (some res) w.now r.inv)
  finish-Inv ((some res, e), s) opt ceiling w (silent, inr (p, r)) =
      rw (silent, finish) (book-Inv s (some res) w.now r.inv)

module _ (json : FreezeJson) (c : Codecs) (caip2 : Bytes) where
  pub fetch_paid-Inv :
      (s : System) (url : Bytes) (opt : FetchOptions) (ceiling : Option ℤ) (server : Server)
      (w : Answers)
      → FreshId s w.random_id
      → CeilingOk c.host url s.store ceiling
      → Inv c.host s
      → Inv c.host (fetch_paid json c caip2 s url opt ceiling server w).1
  unfolding fetch_paid
  fetch_paid-Inv s url opt ceiling server w fresh ok_ceiling v =
      elim (Option-cases (not_frozen json s)) [
        | inr (e, stopped) ↦ rw (stopped, fetch_paid) v
        | inl goes ↦
            rw (goes, fetch_paid)
              (finish-Inv c.host url
                (Client.fetch_paid c caip2 (ports ceiling w) server s url opt w.now) opt ceiling w
                (fetch_paid-Leaves c caip2 (ports ceiling w) server (keeps c.host url ceiling w) s
                  url opt w.now (λ host ch e. (refl, e))
                  (record { inv = v; fresh = fresh; ceiling_ok = ok_ceiling })))
      ]

  continue_task-Inv :
      (s : System) (k : Continuation) (server : Server) (w : Answers)
      → FreshId s w.random_id
      → Waits c.host s.store k × Approved s.store (attempt_of k)
      → Inv c.host s
      → Inv c.host (continue_task json c caip2 s k server w)
  unfolding continue_task
  continue_task-Inv s (pays p) server w fresh may v = exec-Inv s p w (inr (inl may)) v
  continue_task-Inv s (refetches id url opt n) server w fresh ((host, named, r), said) v =
      fetch_paid-Inv s url opt (some n) server w fresh (host, named, (id, r, said)) v

  pub run_task-Inv :
      (s : System) (t : Task) (server : Server) (w : Answers)
      → FreshId s w.random_id
      → TaskOk c.host s.store t
      → Inv c.host s
      → Inv c.host (run_task json c caip2 s t server w)
  unfolding run_task
  run_task-Inv s t server w fresh may v = elim (Bool-cases t.approved) [
    | inr refused ↦ rw (refused, run_task) v
    | inl said_yes ↦
        rw (said_yes, run_task) (continue_task-Inv s t.continuation server w fresh (may said_yes) v)
  ]
