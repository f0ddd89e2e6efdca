-- ===== src/Agent/Frozen.antt =====
-- The kill switch over a history: what a freeze stops, until it is lifted (agent/freeze.go with the
-- guards of agent/service.go).
use dcr.Prelude.{
  ◌≡◌, ◌≢◌, ◌∙◌, ap, inl, inr, refl, sym, Bool, true, false, List, [], ◌∷◌, Option, none, some,
  get_elem?, arith, Option-cases, ℕ,
}
use dcr.Prelude.Int64.{ℤ}
use dcr.Prelude.Bytes.{Bytes}
use dcr.AgentStore.{resolve_approval, expire_approvals, set_state}
use dcr.Agent.{System, LnInvoice, Continuation, Payout, pays, refetches, Task, AgentError}
use dcr.Agent.Freeze.{FreezeJson, freeze, not_frozen, freeze-unfreeze, not_frozen-state}
use dcr.Agent.Registry.{resolve, expire_sweep, restart}
use dcr.Agent.Payments.{Answers, pay_ln_invoice, pay_dcr_address}
use dcr.PayClient.{Codecs, FetchOptions}
use dcr.PayClient.Fetch.{Server}
use dcr.Agent.Fetch.{fetch_paid, run_task, continue_task}
use dcr.Agent.History.{
  Event, pays_invoice, pays_address, answers, sweeps, fetches, runs, freezes, unfreezes, restarts,
  reloads, remove_at, run_at, step, run,
}

-- The second system has the store's texts and the books of the first: what was asked of a rail, what
-- was recorded as paid and what was attempted.
record SameBooks (s t : System) : Type 0 where
  state : t.store.state ≡ s.store.state
  transfers : t.transfers ≡ s.transfers
  payments : t.store.payments ≡ s.store.payments
  attempts : t.store.attempts ≡ s.store.attempts

same : (s t : System) → t ≡ s → SameBooks s t
same s t e = record {
  state = rw e refl;
  transfers = rw e refl;
  payments = rw e refl;
  attempts = rw e refl;
}

resolve-SameBooks :
    (s : System) (id : Bytes) (verdict : Bool) (responder : Bytes) (now : ℕ)
    → SameBooks s (resolve s id verdict responder now).1
unfolding resolve resolve_approval
resolve-SameBooks s id verdict responder now = record {
  state = ground arith;
  transfers = ground arith;
  payments = ground arith;
  attempts = ground arith;
}

expire_sweep-SameBooks : (s : System) (now : ℕ) → SameBooks s (expire_sweep s now)
unfolding expire_sweep expire_approvals
expire_sweep-SameBooks s now = record {
  state = refl;
  transfers = refl;
  payments = refl;
  attempts = refl;
}

module _ (json : FreezeJson) (c : Codecs) (caip2 : Bytes) where
  frozen_invoice :
      (s : System) (e : AgentError) (w : Answers) (invoice : Bytes) (dec : Option LnInvoice)
      (memo : Bytes) (max_amount : ℤ)
      → not_frozen json s ≡ some e
      → (pay_ln_invoice json s invoice dec memo max_amount w).1 ≡ s
  unfolding pay_ln_invoice
  frozen_invoice s e w invoice none memo max_amount h = refl
  frozen_invoice s e w invoice (some dec) memo max_amount h = ground arith

  frozen_address :
      (s : System) (e : AgentError) (w : Answers) (has_onchain : Bool) (address : Bytes)
      (amount : ℤ) (memo : Bytes)
      → not_frozen json s ≡ some e
      → (pay_dcr_address json s has_onchain address amount memo w).1 ≡ s
  unfolding pay_dcr_address
  frozen_address s e w has_onchain address amount memo h = ground arith

  frozen_fetch :
      (s : System) (e : AgentError) (w : Answers) (url : Bytes) (opt : FetchOptions)
      (ceiling : Option ℤ) (server : Server)
      → not_frozen json s ≡ some e
      → (fetch_paid json c caip2 s url opt ceiling server w).1 ≡ s
  unfolding fetch_paid
  frozen_fetch s e w url opt ceiling server h = rw (h, fetch_paid) refl

  -- The goroutine at the place is not an approved payment, which does not ask whether the agent is
  -- frozen: it is a fetch, or the verdict was no.
  abbrev pub IsStopped : System → ℕ → Type 0
  IsStopped s i =
      (payout : Payout)
      → get_elem? s.tasks i ≢ some (record { continuation = pays payout; approved = true })

  -- The owner does not lift the freeze, and no approved payment runs.
  abbrev pub IsHeld : System → Event → Type 0
  IsHeld s unfreezes = ⊥
  IsHeld s (runs i server w) = IsStopped s i
  IsHeld s _ = Unit

  abbrev pub AllHeld : System → List Event → Type 0
  AllHeld s [] = Unit
  AllHeld s (e ∷ es) = IsHeld s e × AllHeld (step json c caip2 s e) es

  frozen_continue :
      (s : System) (k : Continuation) (said_yes : Bool) (err : AgentError) (server : Server)
      (w : Answers)
      → let t : Task = record { continuation = k; approved = said_yes } in
        ((payout : Payout) → t ≢ record { continuation = pays payout; approved = true })
        → not_frozen json s ≡ some err
        → run_task json c caip2 s t server w ≡ s
  unfolding run_task continue_task
  frozen_continue s k false err server w unpaid h = refl
  frozen_continue s (pays payout) true err server w unpaid h = absurd (unpaid payout refl)
  frozen_continue s (refetches id url opt n) true err server w unpaid h =
      frozen_fetch s err w url opt (some n) server h

  frozen_run_at :
      (s : System) (i : ℕ) (err : AgentError) (server : Server) (w : Answers)
      → IsStopped s i
      → not_frozen json s ≡ some err
      → SameBooks s (run_at json c caip2 s i server w)
  unfolding run_at
  frozen_run_at s i err server w stopped h = elim (Option-cases (get_elem? s.tasks i)) [
    | inl gone ↦ same s _ (rw (gone, run_at) refl)
    | inr (t, there) ↦
        let s1 : System = record s { tasks = remove_at i s.tasks } in
        let stays =
          frozen_continue s1 t.continuation t.approved err server w
            (λ payout e. stopped payout (there ∙ ap some e))
            (not_frozen-state json s1 s refl ∙ h) in
        rw (there, run_at)
          (rw stays (record { state = refl; transfers = refl; payments = refl; attempts = refl }))
  ]

  -- What a freeze leaves of any of the held events: the agent stays frozen, and its books are as they
  -- were.
  record Stays (s t : System) : Type 0 where
    frozen : not_frozen json t ≢ none
    transfers : t.transfers ≡ s.transfers
    payments : t.store.payments ≡ s.store.payments
    attempts : t.store.attempts ≡ s.store.attempts

  SameBooks-Stays : (s t : System) → not_frozen json s ≢ none → SameBooks s t → Stays s t
  SameBooks-Stays s t h b = record {
    frozen = λ e. h (sym (not_frozen-state json t s b.state) ∙ e);
    transfers = b.transfers;
    payments = b.payments;
    attempts = b.attempts;
  }

  freeze-Stays : (s : System) (by reason : Bytes) (now : ℕ) → Stays s (freeze json s by reason now)
  unfolding freeze set_state
  freeze-Stays s by reason now = record {
    frozen = (freeze-unfreeze json s by reason now).0;
    transfers = refl;
    payments = refl;
    attempts = refl;
  }

  step-Stays :
      (s : System) (e : Event) (err : AgentError)
      → IsHeld s e
      → not_frozen json s ≡ some err
      → not_frozen json s ≢ none
      → Stays s (step json c caip2 s e)
  unfolding step restart
  step-Stays s (pays_invoice invoice dec memo max_amount w) err held h f =
      SameBooks-Stays s _ f (same s _ (frozen_invoice s err w invoice dec memo max_amount h))
  step-Stays s (pays_address has_onchain address amount memo w) err held h f =
      SameBooks-Stays s _ f (same s _ (frozen_address s err w has_onchain address amount memo h))
  step-Stays s (answers id verdict responder now) err held h f =
      SameBooks-Stays s _ f (resolve-SameBooks s id verdict responder now)
  step-Stays s (sweeps now) err held h f = SameBooks-Stays s _ f (expire_sweep-SameBooks s now)
  step-Stays s (fetches url opt server w) err held h f =
      SameBooks-Stays s _ f (same s _ (frozen_fetch s err w url opt none server h))
  step-Stays s (runs i server w) err held h f =
      SameBooks-Stays s _ f (frozen_run_at s i err server w held h)
  step-Stays s (freezes by reason now) err held h f = freeze-Stays s by reason now
  step-Stays s unfreezes err held h f = absurd held
  step-Stays s restarts err held h f =
      SameBooks-Stays s _ f
        (record { state = refl; transfers = refl; payments = refl; attempts = refl })
  step-Stays s (reloads p) err held h f =
      SameBooks-Stays s _ f
        (record { state = refl; transfers = refl; payments = refl; attempts = refl })

  run-Stays :
      (s : System) (es : List Event)
      → AllHeld s es
      → not_frozen json s ≢ none
      → Stays s (run json c caip2 s es)
  unfolding run
  run-Stays s [] held f = record { frozen = f; transfers = refl; payments = refl; attempts = refl }
  run-Stays s (e ∷ es) held f = elim (Option-cases (not_frozen json s)) [
    | inl thawed ↦ absurd (f thawed)
    | inr (err, h) ↦
        let one = step-Stays s e err held.0 h f in
        let more = run-Stays (step json c caip2 s e) es held.1 one.frozen in
        record {
          frozen = more.frozen;
          transfers = more.transfers ∙ one.transfers;
          payments = more.payments ∙ one.payments;
          attempts = more.attempts ∙ one.attempts;
        }
  ]

  -- Once the owner has frozen the agent, no rail is asked, no payment is recorded and nothing is even
  -- attempted, and the agent stays frozen, through any history of payment calls, paid fetches,
  -- verdicts, sweeps, further freezes, reloads, restarts and goroutines, in which the owner does not
  -- lift the freeze and no goroutine runs that carries out an approved payment (an approved fetch
  -- may run, and is stopped).
  pub frozen_pays_nothing :
      (s : System) (by reason : Bytes) (now : ℕ) (es : List Event)
      → AllHeld (freeze json s by reason now) es
      → let t = run json c caip2 (freeze json s by reason now) es in
        (not_frozen json t ≢ none)
        × (t.transfers ≡ s.transfers)
        × (t.store.payments ≡ s.store.payments)
        × (t.store.attempts ≡ s.store.attempts)
  frozen_pays_nothing s by reason now es held =
      let one = freeze-Stays s by reason now in
      let more = run-Stays (freeze json s by reason now) es held one.frozen in
      (
        more.frozen,
        more.transfers ∙ one.transfers,
        more.payments ∙ one.payments,
        more.attempts ∙ one.attempts,
      )
