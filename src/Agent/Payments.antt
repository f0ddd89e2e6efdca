-- ===== src/Agent/Payments.antt =====
-- The payment tools of agent/service.go and what runs them: `evaluateAndRecord`,
-- `executeOrEscalate`, `doLNPay`, `doOnchainPay`, `PayLNInvoice`, `PayDCRAddress` and `gate`.
use dcr.Prelude.{ℕ, Bool, true, false, ◌&&◌, List, [], ◌∷◌, ◌++◌, Option, none, some, if◌then◌else◌}
use dcr.Prelude.Int64.{ℤ, pos, ltb_ℤ, leb_ℤ}
use dcr.Prelude.Bytes.{Bytes, codes}
use dcr.Policy.{Outcome, allow, deny, escalate, ln_node, dcr_address, Channel, Attempt, Decision}
use dcr.Policy.Evaluate.{evaluate}
use dcr.AgentStore.{Approval, AttemptRow, record_attempt, record_payment, usage}
use dcr.Agent.{
  System, LnInvoice, Payout, pay_invoice, pay_address, pays, policy_error, pending_error,
  undecodable, no_amount, above_max, not_positive, no_onchain, rail_failed, PayResult, Result, ok,
  err,
}
use dcr.Agent.Freeze.{FreezeJson, not_frozen}
use dcr.Agent.Registry as Registry

-- What the outside world answers during one call: the clock, the rails (`none` for an error), the
-- notification channels and the random bytes of an approval's id.
pub record Answers : Type 0 where
  pub now : ℕ
  pub ln_pay : Option (Bytes × ℤ)
  pub onchain_send : Option Bytes
  pub approvers : List (Bytes × Bool)
  pub random_id : Bytes

abbrev pub attempt_row : Attempt → Decision → ℕ → AttemptRow
attempt_row a d now = record {
  id = 0;
  tool = a.tool;
  rail = a.rail;
  destination = a.dest;
  amount_atoms = a.amount_atoms;
  memo = a.memo;
  decision = d.outcome;
  rule_trace = d.trace;
  created_at = now;
}

-- `record`: the attempt and its trace are written before any rail is asked.
unfoldable pub write_attempt : System → Attempt → Decision → ℕ → ℕ × System
write_attempt s a d now =
    let (id, store) = record_attempt s.store (attempt_row a d now) in
    (id, record s { store = store })

unfoldable pub evaluate_and_record : System → Attempt → ℕ → ℕ × Decision × System
unfolding write_attempt
evaluate_and_record s a now =
    let d = evaluate s.policy a (usage s.store now) in
    let (id, s') = write_attempt s a d now in (id, d, s')

abbrev pub log_transfer : System → ℕ → ℤ → Bool → System
log_transfer s attempt_id amount confirmed = record s {
  transfers =
      s.transfers
      ++ (record { attempt_id = attempt_id; amount_atoms = amount; confirmed = confirmed } ∷ []);
}

unfoldable pub do_ln_pay : System → ℕ → Bytes → LnInvoice → Answers → Result PayResult × System
do_ln_pay s attempt_id invoice dec w = elim w.ln_pay [
  | none ↦ (err rail_failed, log_transfer s attempt_id dec.amount_atoms false)
  | some (preimage, fee) ↦
      let (pid, store) = record_payment s.store (record {
        id = 0;
        attempt_id = attempt_id;
        rail = codes "ln";
        amount_atoms = dec.amount_atoms;
        fee_atoms = fee;
        invoice = invoice;
        preimage = preimage;
        txid = [];
        created_at = w.now;
      }) in
      (
        ok (record {
          attempt_id = attempt_id;
          payment_id = pid;
          rail = codes "ln";
          amount_atoms = dec.amount_atoms;
          fee_atoms = fee;
          preimage = preimage;
          txid = [];
        }),
        record (log_transfer s attempt_id dec.amount_atoms true) { store = store },
      )
]

unfoldable pub do_onchain_pay : System → ℕ → Bytes → ℤ → Answers → Result PayResult × System
do_onchain_pay s attempt_id address amount w = elim w.onchain_send [
  | none ↦ (err rail_failed, log_transfer s attempt_id amount false)
  | some txid ↦
      let (pid, store) = record_payment s.store (record {
        id = 0;
        attempt_id = attempt_id;
        rail = codes "onchain";
        amount_atoms = amount;
        fee_atoms = pos 0;
        invoice = [];
        preimage = [];
        txid = txid;
        created_at = w.now;
      }) in
      (
        ok (record {
          attempt_id = attempt_id;
          payment_id = pid;
          rail = codes "onchain";
          amount_atoms = amount;
          fee_atoms = pos 0;
          preimage = [];
          txid = txid;
        }),
        record (log_transfer s attempt_id amount true) { store = store },
      )
]

unfoldable pub exec : System → Payout → Answers → Result PayResult × System
unfolding do_ln_pay do_onchain_pay
exec s (pay_invoice attempt_id invoice dec) w = do_ln_pay s attempt_id invoice dec w
exec s (pay_address attempt_id address amount) w = do_onchain_pay s attempt_id address amount w

-- The escalation branch: the approval is parked with what it will run.
abbrev pub park : Result Approval × System → Result PayResult × System
park (ok appr, s) = (err (pending_error appr.id appr.expires_at), s)
park (err e, s) = (err e, s)

-- An escalation always names a channel; the default is not reached.
abbrev pub channel_or : Option Channel → Channel → Channel
channel_or none c = c
channel_or (some c) _ = c

abbrev pub dispatch :
    Outcome → System → ℕ → Decision → (ℕ → Payout) → Answers → Result PayResult × System
dispatch allow s id d make w = exec s (make id) w
dispatch deny s id d make w = (err (policy_error d), s)
dispatch escalate s id d make w = park (
    Registry.escalate s w.random_id id (channel_or d.approval_channel Channel.web) d.approval_ttl
      (pays (make id)) w.approvers w.now)

abbrev pub invoice_attempt : LnInvoice → Bytes → Attempt
invoice_attempt dec memo = record {
  tool = codes "pay_ln_invoice";
  rail = codes "ln";
  dest_kind = ln_node;
  dest = dec.destination;
  amount_atoms = dec.amount_atoms;
  memo = memo;
}

abbrev pub address_attempt : Bytes → ℤ → Bytes → Attempt
address_attempt address amount memo = record {
  tool = codes "pay_dcr_address";
  rail = codes "onchain";
  dest_kind = dcr_address;
  dest = address;
  amount_atoms = amount;
  memo = memo;
}

-- The invoice is above the caller's own limit, where there is one.
abbrev pub is_above_max : ℤ → ℤ → Bool
is_above_max max_amount amount = ltb_ℤ (pos 0) max_amount && ltb_ℤ max_amount amount

module _ (json : FreezeJson) where
  unfoldable pub execute_or_escalate :
      System → Attempt → (ℕ → Payout) → Answers → Result PayResult × System
  unfolding evaluate_and_record
  execute_or_escalate s a make w = elim (not_frozen json s) [
    | some e ↦ (err e, s)
    | none ↦ let (id, d, s') = evaluate_and_record s a w.now in dispatch d.outcome s' id d make w
  ]

  -- The invoice as the rail decodes it is an argument, with `none` for an error.
  unfoldable pub pay_ln_invoice :
      System → Bytes → Option LnInvoice → Bytes → ℤ → Answers → Result PayResult × System
  unfolding execute_or_escalate
  pay_ln_invoice s invoice none memo max_amount w = (err undecodable, s)
  pay_ln_invoice s invoice (some dec) memo max_amount w =
      if leb_ℤ dec.amount_atoms (pos 0)
      then (err no_amount, s)
      else if is_above_max max_amount dec.amount_atoms
      then (err above_max, s)
      else execute_or_escalate s (invoice_attempt dec memo) (λ id. pay_invoice id invoice dec) w

  -- `has_onchain` says whether the on-chain rail is configured.
  unfoldable pub pay_dcr_address :
      System → Bool → Bytes → ℤ → Bytes → Answers → Result PayResult × System
  unfolding execute_or_escalate
  pay_dcr_address s has_onchain address amount memo w =
      if has_onchain
      then (if leb_ℤ amount (pos 0)
          then (err not_positive, s)
          else execute_or_escalate s (address_attempt address amount memo)
              (λ id. pay_address id address amount) w)
      else (err no_onchain, s)
