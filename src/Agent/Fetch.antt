-- ===== src/Agent/Fetch.antt =====
-- agent/service.go: the policy hook `gate`, `FetchPaid` with the ceiling of a fetch that the owner
-- approved, and the goroutine that a verdict starts.
mod Ready
pub mod Justified
pub mod Budget
use dcr.Prelude.{ℕ, Bool, true, false, [], ◌++◌, Option, none, some, if◌then◌else◌}
use dcr.Prelude.Int64.{ℤ, pos, ltb_ℤ}
use dcr.Prelude.Bytes.{Bytes, codes}
use dcr.GoText.{format_int}
use dcr.Policy.{Outcome, allow, deny, escalate, Channel, Attempt, Decision}
use dcr.AgentStore as AgentStore
use dcr.AgentStore.{Approval, record_payment}
use dcr.PayClient.{
  FetchOptions, Rail, FetchResult, FetchError, gate_error, PayChallenge, Admission, proceed, refuse,
  Codecs, Ports,
}
use dcr.PayClient.Fetch as Client
use dcr.PayClient.Fetch.{Server, Answer, gate_answer}
use dcr.Agent.{
  System, Continuation, pays, refetches, Task, AgentError, pending_error, Result, ok, err,
}
use dcr.Agent.Freeze.{FreezeJson, not_frozen}
use dcr.Agent.Registry as Registry
use dcr.Agent.Payments.{Answers, evaluate_and_record, log_transfer, channel_or, exec}

-- A `PolicyError`, with the decision; one of a challenge that asks for more than the owner approved,
-- with both amounts in its reason; and a `needsApprovalError`.
pub data GateError : Type 0 where
  denied : Decision → GateError
  challenge_changed : Decision → ℤ → ℤ → GateError
  needs_approval : ℕ → Decision → Attempt → GateError

-- The switch on the outcome; the ceiling is there on a fetch that the owner approved.
abbrev pub judge : Option ℤ → Outcome → ℕ → Decision → Attempt → Admission GateError
judge ceiling allow id d a = proceed id
judge ceiling deny id d a = refuse (denied d)
judge none escalate id d a = refuse (needs_approval id d a)
judge (some max_atoms) escalate id d a =
    if ltb_ℤ max_atoms a.amount_atoms
    then refuse (challenge_changed (record d { outcome = deny }) a.amount_atoms max_atoms)
    else proceed id

-- `gate`: the attempt is on record before the hook answers.
unfoldable pub gate : Option ℤ → ℕ → System → Attempt → Admission GateError × System
unfolding evaluate_and_record
gate ceiling now s a =
    let (id, d, s') = evaluate_and_record s a now in (judge ceiling d.outcome id d a, s')

-- The Lightning rail, with the log of the requests to it.
unfoldable pub pay : Answers → System → ℕ → PayChallenge → Option (Bytes × ℤ) × System
pay w s attempt_id ch = elim w.ln_pay [
  | none ↦ (none, log_transfer s attempt_id ch.amount_atoms false)
  | some r ↦ (some r, log_transfer s attempt_id ch.amount_atoms true)
]

-- What the daemon wires the client to: the store's tokens, `gate` and the rail.
abbrev pub ports : Option ℤ → Answers → Ports System GateError
ports ceiling w = record {
  get_token = λ s host. AgentStore.get_token s.store host;
  put_token = λ s t. (true, record s { store = AgentStore.put_token s.store t });
  touch_token = λ s host at. record s { store = AgentStore.touch_token s.store host at };
  delete_token = λ s host. record s { store = AgentStore.delete_token s.store host };
  gate = some (gate ceiling w.now);
  pay = pay w;
}

pub data Failure : Type 0 where
  agent_error : AgentError → Failure
  client_error : FetchError GateError → Failure

abbrev pub failure_of : Option (FetchError GateError) → Option Failure
failure_of none = none
failure_of (some e) = some (client_error e)

-- `errors.As(err, &needs)`
abbrev pub approval_needed : Option GateError → Option (ℕ × Decision × Attempt)
approval_needed (some (needs_approval id d a)) = some (id, d, a)
approval_needed _ = none

abbrev pub rail_name : Option Rail → Bytes
rail_name none = []
rail_name (some Rail.free) = codes "free"
rail_name (some Rail.cached) = codes "cached"
rail_name (some Rail.x402) = codes "x402"
rail_name (some Rail.l402) = codes "l402"

-- A settled payment is recorded whatever the service answered to the proof.
unfoldable pub book : System → Option FetchResult → ℕ → System
book s none now = s
book s (some r) now =
    if ltb_ℤ (pos 0) r.paid_atoms
    then record s {
      store =
          (record_payment s.store (record {
            id = 0;
            attempt_id = r.attempt_id;
            rail = rail_name r.rail;
            amount_atoms = r.paid_atoms;
            fee_atoms = r.fee_atoms;
            invoice = r.invoice;
            preimage = r.preimage;
            txid = [];
            created_at = now;
          })).1;
    }
    else s

abbrev pub Fetched : Type 0
Fetched = Option FetchResult × Option Failure

abbrev pub parked : Result Approval × System → Fetched × System
parked (ok appr, s) = ((none, some (agent_error (pending_error appr.id appr.expires_at))), s)
parked (err e, s) = ((none, some (agent_error e)), s)

-- What `FetchPaid` makes of the client's answer.
unfoldable pub finish :
    Answer GateError × System → Bytes → FetchOptions → Answers → Fetched × System
unfolding book
finish ((res, e), s) url opt w = elim (approval_needed (gate_answer e)) [
  | none ↦ ((res, failure_of e), book s res w.now)
  | some (id, d, a) ↦ parked (
      Registry.escalate s w.random_id id (channel_or d.approval_channel Channel.web) d.approval_ttl
        (refetches id url opt a.amount_atoms) w.approvers w.now)
]

module _ (json : FreezeJson) (c : Codecs) (caip2 : Bytes) where
  unfoldable pub fetch_paid :
      System → Bytes → FetchOptions → Option ℤ → Server → Answers → Fetched × System
  unfolding finish
  fetch_paid s url opt ceiling server w = elim (not_frozen json s) [
    | some e ↦ ((none, some (agent_error e)), s)
    | none ↦ finish (Client.fetch_paid c caip2 (ports ceiling w) server s url opt w.now) url opt w
  ]

  unfoldable pub continue_task : System → Continuation → Server → Answers → System
  unfolding exec fetch_paid
  continue_task s (pays payout) server w = (exec s payout w).1
  continue_task s (refetches id url opt max_atoms) server w =
      (fetch_paid s url opt (some max_atoms) server w).1

  -- The goroutine of a verdict: it pays, or fetches again, if the verdict was yes.
  unfoldable pub run_task : System → Task → Server → Answers → System
  unfolding continue_task
  run_task s t server w = if t.approved then continue_task s t.continuation server w else s
