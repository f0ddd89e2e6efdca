-- ===== src/Agent/History.antt =====
-- Any history of the agent: payment calls, paid fetches, verdicts, expiry sweeps, goroutines that run, freezing,
-- policy reloads and restarts, in any order.
use dcr.Prelude.{
  ℕ, zero, suc, ◌≡◌, ◌∙◌, inl, inr, refl, subst, Bool, true, false, List, [], ◌∷◌, Option, none,
  some, All, get_elem?, Option-cases, Bool-cases,
}
use dcr.Prelude.Int64.{ℤ, pos, leb_ℤ}
use dcr.Prelude.Bytes.{Bytes, lookup}
use dcr.Policy.{Attempt, Decision, Policy}
use dcr.Policy.Evaluate.{evaluate}
use dcr.AgentStore.{Store, usage, new_memory}
use dcr.Agent.{System, LnInvoice, Continuation, Payout, pay_invoice, pay_address}
use dcr.Agent.Freeze.{FreezeJson, freeze, unfreeze, not_frozen}
use dcr.Agent.Registry.{resolve, expire_sweep, restart}
use dcr.Agent.Payments.{
  Answers, write_attempt, execute_or_escalate, pay_ln_invoice, pay_dcr_address, is_above_max,
  invoice_attempt, address_attempt, attempt_row,
}
use dcr.Agent.Extends.{set_state-Extends, approval-record_attempt}
use dcr.PayClient.{FetchOptions, Codecs}
use dcr.PayClient.Fetch.{Server}
use dcr.Agent.Fetch.{fetch_paid, run_task}
use dcr.Agent.Fetch.Justified.{fetch_paid-Inv, run_task-Inv}
use dcr.Agent.Justified.{
  payout_attempt, payout_amount, TransferOk, Hosts, ParkedOk, Inv, Inv-extend,
}
use dcr.Agent.Steps.{dispatch-Inv, written, write_attempt-Inv, FreshId}
use dcr.Agent.Outcomes.{resolve-Inv, expire_sweep-Inv}

pub data Event : Type 0 where
  pays_invoice : Bytes → Option LnInvoice → Bytes → ℤ → Answers → Event
  pays_address : Bool → Bytes → ℤ → Bytes → Answers → Event
  answers : Bytes → Bool → Bytes → ℕ → Event
  sweeps : ℕ → Event
  fetches : Bytes → FetchOptions → Server → Answers → Event
  runs : ℕ → Server → Answers → Event
  freezes : Bytes → Bytes → ℕ → Event
  unfreezes restarts : Event
  reloads : Policy → Event

-- The scheduler picks a goroutine by its place; one that ran is gone.
abbrev pub remove_at {ℓ} : {A : Type ℓ} → ℕ → List A → List A
remove_at i [] = []
remove_at zero (x ∷ xs) = xs
remove_at (suc i) (x ∷ xs) = x ∷ remove_at i xs

fresh_kept :
    (s : System) (a : Attempt) (d : Decision) (now : ℕ) (id : Bytes)
    → FreshId s id
    → FreshId (write_attempt s a d now).1 id
unfolding write_attempt
fresh_kept s a d now id f = approval-record_attempt s.store (attempt_row a d now) id ∙ f

get_elem?-All {ℓ κ} :
    {A : Type ℓ} (P : A → Type κ) (xs : List A) (i : ℕ) (x : A)
    → All P xs
    → get_elem? xs i ≡ some x
    → P x
get_elem?-All P [] i x h e = cc
get_elem?-All P (y ∷ xs) zero x h e = let same : y ≡ x = cc in subst P same h.0
get_elem?-All P (y ∷ xs) (suc i) x h e = get_elem?-All P xs i x h.1 e

remove_at-All {ℓ κ} :
    {A : Type ℓ} (P : A → Type κ) (i : ℕ) (xs : List A) → All P xs → All P (remove_at i xs)
remove_at-All P i [] h = tt
remove_at-All P zero (x ∷ xs) h = h.1
remove_at-All P (suc i) (x ∷ xs) h = (h.0, remove_at-All P i xs h.1)

nothing_waits :
    (hosts : Hosts) (m : Store) (k : Bytes) (c : Continuation)
    → lookup k [] ≡ some c
    → ParkedOk hosts m k c
unfolding lookup
nothing_waits hosts m k c e = cc

unfoldable pub new_system : Policy → System
new_system p = record { policy = p; store = new_memory; waiting = []; tasks = []; transfers = [] }

-- The system that a payment, a verdict or an owner leaves behind.
module _ (json : FreezeJson) (c : Codecs) (caip2 : Bytes) where
  unfoldable pub run_at : System → ℕ → Server → Answers → System
  unfolding run_task
  run_at s i server w = elim (get_elem? s.tasks i) [
    | none ↦ s
    | some t ↦ run_task json c caip2 (record s { tasks = remove_at i s.tasks }) t server w
  ]

  unfoldable pub step : System → Event → System
  step s (pays_invoice invoice dec memo max_amount w) =
      (pay_ln_invoice json s invoice dec memo max_amount w).1
  step s (pays_address has_onchain address amount memo w) =
      (pay_dcr_address json s has_onchain address amount memo w).1
  step s (answers id verdict responder now) = (resolve s id verdict responder now).1
  step s (sweeps now) = expire_sweep s now
  step s (fetches url opt server w) = (fetch_paid json c caip2 s url opt none server w).1
  step s (runs i server w) = run_at s i server w
  step s (freezes by reason now) = freeze json s by reason now
  step s unfreezes = unfreeze json s
  step s restarts = restart s
  step s (reloads p) = record s { policy = p }

  unfoldable pub run : System → List Event → System
  run s [] = s
  run s (e ∷ es) = run (step s e) es

  -- The random ids of approvals do not repeat.
  abbrev pub IsFresh : System → Event → Type 0
  IsFresh s (pays_invoice invoice dec memo max_amount w) = FreshId s w.random_id
  IsFresh s (pays_address has_onchain address amount memo w) = FreshId s w.random_id
  IsFresh s (fetches url opt server w) = FreshId s w.random_id
  IsFresh s (runs i server w) = FreshId s w.random_id
  IsFresh s _ = Unit

  abbrev pub AllFresh : System → List Event → Type 0
  AllFresh s [] = Unit
  AllFresh s (e ∷ es) = IsFresh s e × AllFresh (step s e) es

  execute_or_escalate-Inv :
      (s : System) (a : Attempt) (make : ℕ → Payout) (w : Answers)
      → FreshId s w.random_id
      → ((id : ℕ) → (payout_attempt (make id) ≡ id) × (payout_amount (make id) ≡ a.amount_atoms))
      → Inv c.host s
      → Inv c.host (execute_or_escalate json s a make w).1
  unfolding execute_or_escalate
  execute_or_escalate-Inv s a make w fresh h v = elim (Option-cases (not_frozen json s)) [
    | inr (e, stopped) ↦ rw (stopped, execute_or_escalate) v
    | inl goes ↦
        let d = evaluate s.policy a (usage s.store w.now) in
        let (id, s') = write_attempt s a d w.now in
        rw (goes, execute_or_escalate)
          (dispatch-Inv s' id a d make w d.outcome (fresh_kept s a d w.now w.random_id fresh)
            (h id).0 (h id).1 (written s a d w.now) (write_attempt-Inv s a d w.now v))
  ]

  pay_ln_invoice-Inv :
      (s : System) (invoice : Bytes) (dec : Option LnInvoice) (memo : Bytes) (max_amount : ℤ)
      (w : Answers)
      → FreshId s w.random_id
      → Inv c.host s
      → Inv c.host (pay_ln_invoice json s invoice dec memo max_amount w).1
  unfolding pay_ln_invoice
  pay_ln_invoice-Inv s invoice none memo max_amount w f v = v
  pay_ln_invoice-Inv s invoice (some dec) memo max_amount w f v =
      elim (Bool-cases (leb_ℤ dec.amount_atoms (pos 0))) [
        | inl amountless ↦ rw (amountless, pay_ln_invoice) v
        | inr priced ↦ elim (Bool-cases (is_above_max max_amount dec.amount_atoms)) [
          | inl above ↦ rw (priced, above, pay_ln_invoice) v
          | inr within ↦
              rw (priced, within, pay_ln_invoice)
                (execute_or_escalate-Inv s (invoice_attempt dec memo)
                  (λ id. pay_invoice id invoice dec) w f (λ id. (refl, refl)) v)
        ]
      ]

  pay_dcr_address-Inv :
      (s : System) (has_onchain : Bool) (address : Bytes) (amount : ℤ) (memo : Bytes) (w : Answers)
      → FreshId s w.random_id
      → Inv c.host s
      → Inv c.host (pay_dcr_address json s has_onchain address amount memo w).1
  unfolding pay_dcr_address
  pay_dcr_address-Inv s false address amount memo w f v = v
  pay_dcr_address-Inv s true address amount memo w f v = elim (Bool-cases (leb_ℤ amount (pos 0))) [
    | inl nothing ↦ rw (nothing, pay_dcr_address) v
    | inr some_amount ↦
        rw (some_amount, pay_dcr_address)
          (execute_or_escalate-Inv s (address_attempt address amount memo)
            (λ id. pay_address id address amount) w f (λ id. (refl, refl)) v)
  ]

  run_at-Inv :
      (s : System) (i : ℕ) (server : Server) (w : Answers)
      → FreshId s w.random_id
      → Inv c.host s
      → Inv c.host (run_at s i server w)
  unfolding run_at
  run_at-Inv s i server w f v = elim (Option-cases (get_elem? s.tasks i)) [
    | inl gone ↦ rw (gone, run_at) v
    | inr (t, there) ↦
        rw (there, run_at)
          (run_task-Inv json c caip2 _ t server w f (get_elem?-All _ s.tasks i t v.ready there)
            (record {
              sent = v.sent;
              ready = remove_at-All _ i s.tasks v.ready;
              parked = v.parked;
            }))
  ]

  step-Inv : (s : System) (e : Event) → IsFresh s e → Inv c.host s → Inv c.host (step s e)
  unfolding step freeze unfreeze restart
  step-Inv s (pays_invoice invoice dec memo max_amount w) f v =
      pay_ln_invoice-Inv s invoice dec memo max_amount w f v
  step-Inv s (pays_address has_onchain address amount memo w) f v =
      pay_dcr_address-Inv s has_onchain address amount memo w f v
  step-Inv s (answers id verdict responder now) f v = resolve-Inv s id verdict responder now v
  step-Inv s (sweeps now) f v = expire_sweep-Inv s now v
  step-Inv s (fetches url opt server w) f v =
      fetch_paid-Inv json c caip2 s url opt none server w f tt v
  step-Inv s (runs i server w) f v = run_at-Inv s i server w f v
  step-Inv s (freezes by reason now) f v = Inv-extend (set_state-Extends s.store _ _) v
  step-Inv s unfreezes f v = Inv-extend (set_state-Extends s.store _ _) v
  step-Inv s restarts f v = record {
    sent = v.sent;
    ready = tt;
    parked = λ k x e. nothing_waits c.host _ k x e;
  }
  step-Inv s (reloads p) f v = record { sent = v.sent; ready = v.ready; parked = v.parked }

  run-Inv : (s : System) (es : List Event) → AllFresh s es → Inv c.host s → Inv c.host (run s es)
  unfolding run
  run-Inv s [] f v = v
  run-Inv s (e ∷ es) f v = run-Inv (step s e) es f.1 (step-Inv s e f.0 v)

  -- No money moves without a decision. From an empty agent, through any history in which the ids
  -- of approvals do not repeat, every request to a rail has a recorded attempt of the same amount
  -- that the policy allowed, or that the policy escalated and an approval of it was granted, or that
  -- is a paid fetch which the policy escalated, where an earlier paid fetch from the same host, of at
  -- least its amount, was escalated and an approval of it was granted.
  pub transfers_justified :
      (p : Policy) (es : List Event)
      → AllFresh (new_system p) es
      → let s = run (new_system p) es in All (TransferOk s.store) s.transfers
  unfolding new_system
  transfers_justified p es f =
      (run-Inv (new_system p) es f
        (record { sent = tt; ready = tt; parked = λ k x e. nothing_waits c.host _ k x e })).sent
