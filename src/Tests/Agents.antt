-- ===== src/Tests/Agents.antt =====
-- The agent's theorems on calls to an agent with the policy of the data.
use dcr.Prelude.{◌+◌, ◌≡◌, ◌≢◌, refl, true, List, [], ◌∷◌, none, some, arith, All}
use dcr.Prelude.Int64.{pos, wrap, ◌+ℤ◌}
use dcr.Prelude.Bytes.{Bytes, Bytes-discrete, codes, lookup, insert, erase}
use dcr.GoText.{trim_space, to_lower}
use dcr.Policy.{web}
use dcr.Policy.Evaluate.{
  evaluate, check_rules, check_memo, check_destination, check_cap, check_velocity, check_budget,
  approval,
}
use dcr.AgentStore.{
  Approval, pending, new_memory, usage, record_attempt, record_payment, get_state, get_approval,
  resolve_approval, create_approval,
}
use dcr.Agent.{System, LnInvoice, Task, pay_address, pays, PayResult}
use dcr.Agent.Freeze.{freeze, not_frozen, freeze_status}
use dcr.Agent.Registry as Registry
use dcr.Agent.Registry.{resolve, notified}
use dcr.Agent.Payments.{
  write_attempt, evaluate_and_record, do_ln_pay, do_onchain_pay, exec, execute_or_escalate,
  pay_ln_invoice, pay_dcr_address,
}
use dcr.Agent.History.{
  Event, step, transfers_justified, run, new_system, pays_address, answers, runs, fetches, restarts,
}
use dcr.Agent.Justified.{TransferOk}
use dcr.Agent.Limits.{frozen_approval_pays}
use dcr.Agent.Frozen.{frozen_pays_nothing}
use dcr.Agent.Spending.{invoice_within_budget, address_within_budget, WithinBudgets}
use dcr.Tests.Data as Data
use dcr.Agent.Fetch.{run_task}
use dcr.Tests.Data.{client, options, shop, policy, codec, empty_system, noon, address}

abbrev caip2 : Bytes
caip2 = codes "bip122:298e"

abbrev frozen_system : System
frozen_system = freeze codec empty_system (codes "owner") [] noon

-- The shop is fetched from and the owner is asked to pay, while the agent is frozen.
abbrev frozen_history : List Event
frozen_history =
    fetches shop options Data.server Data.answers
    ∷ (pays_address true address (pos 500) [] Data.answers
        ∷ (answers (codes "a1") true (codes "owner") noon ∷ (restarts ∷ [])))

frozen_pays_nothing_example :
    let t = run codec client caip2 frozen_system frozen_history in
    (not_frozen codec t ≢ none)
    × (t.transfers ≡ [])
    × (t.store.payments ≡ [])
    × (t.store.attempts ≡ [])
frozen_pays_nothing_example =
    frozen_pays_nothing codec client caip2 empty_system (codes "owner") [] noon frozen_history
      (tt, (tt, (tt, (tt, tt))))

-- A payment that waits for the owner.
abbrev question : Approval
question = record {
  id = codes "a1";
  attempt_id = 1;
  channel = web;
  status = pending;
  responder = [];
  created_at = noon;
  expires_at = noon + 600;
  resolved_at = none;
}

abbrev waiting_system : System
waiting_system = record empty_system {
  store = record new_memory { approvals = (codes "a1", question) ∷ [] };
  waiting = (codes "a1", pays (pay_address 1 address (pos 900))) ∷ [];
}

frozen_approval_pays_example :
    let task : Task = record {
      continuation = pays (pay_address 1 address (pos 900));
      approved = true;
    } in
    let s2 =
      (resolve
        (freeze codec waiting_system (codes "owner") [] noon)
        (codes "a1")
        true
        (codes "owner")
        noon).1 in
    let s3 = run_task codec client caip2 s2 task Data.server Data.answers in
    (s2.tasks ≡ task ∷ [])
    × (s3.transfers ≡ record { attempt_id = 1; amount_atoms = pos 900; confirmed = true } ∷ [])
    × (not_frozen codec s3 ≢ none)
unfolding lookup Bytes-discrete get_approval
frozen_approval_pays_example =
    frozen_approval_pays codec client caip2 waiting_system (codes "a1") (codes "owner") []
      (codes "owner") (codes "txid") 1 address (pos 900) question noon Data.server Data.answers refl
      (refl, refl, omega arith) refl

abbrev receipt : PayResult
receipt = record {
  attempt_id = 1;
  payment_id = 1;
  rail = codes "onchain";
  amount_atoms = pos 500;
  fee_atoms = pos 0;
  preimage = [];
  txid = codes "txid";
}

address_within_budget_example :
    WithinBudgets empty_system noon
      (pay_dcr_address codec empty_system true address (pos 500) (codes "tea") Data.answers).1
unfolding pay_dcr_address execute_or_escalate evaluate_and_record not_frozen freeze_status get_state
    lookup evaluate check_rules check_memo check_destination check_cap check_velocity check_budget
    approval trim_space write_attempt record_attempt exec do_onchain_pay record_payment usage wrap
    ◌+ℤ◌ Bytes-discrete
address_within_budget_example =
    address_within_budget codec empty_system
      (pay_dcr_address codec empty_system true address (pos 500) (codes "tea") Data.answers).1 true
      address (pos 500) (codes "tea") Data.answers receipt (omega arith)
      (record {
        amount = omega arith;
        day = omega arith;
        week = omega arith;
        day_sum = omega arith;
        week_sum = omega arith;
      })
      refl

abbrev node : LnInvoice
node = record { amount_atoms = pos 400; destination = codes "02ab" }

abbrev ln_receipt : PayResult
ln_receipt = record {
  attempt_id = 1;
  payment_id = 1;
  rail = codes "ln";
  amount_atoms = pos 400;
  fee_atoms = pos 1;
  preimage = codes "preimage";
  txid = [];
}

invoice_within_budget_example :
    WithinBudgets empty_system noon
      (pay_ln_invoice codec empty_system
        (codes "lndcr1")
        (some node)
        (codes "tea")
        (pos 450)
        Data.answers).1
unfolding pay_ln_invoice execute_or_escalate evaluate_and_record not_frozen freeze_status get_state
    lookup evaluate check_rules check_memo check_destination check_cap check_velocity check_budget
    approval trim_space to_lower write_attempt record_attempt exec do_ln_pay record_payment usage
    wrap ◌+ℤ◌ Bytes-discrete
invoice_within_budget_example =
    invoice_within_budget codec empty_system
      (pay_ln_invoice codec empty_system (codes "lndcr1") (some node) (codes "tea") (pos 450)
        Data.answers).1
      (codes "lndcr1") node (codes "tea") (pos 450) Data.answers ln_receipt (omega arith)
      (record {
        amount = omega arith;
        day = omega arith;
        week = omega arith;
        day_sum = omega arith;
        week_sum = omega arith;
      })
      refl

-- A payment above the threshold, its approval, and the goroutine that pays it.
abbrev history : List Event
history =
    pays_address true address (pos 900) (codes "cups") Data.answers
    ∷ answers (codes "a1") true (codes "owner") noon
    ∷ runs 0 Data.server (record Data.answers { random_id = codes "a3" })
    ∷ []

transfers_justified_example :
    All
      (TransferOk (run codec client caip2 (new_system policy) history).store)
      (run codec client caip2 (new_system policy) history).transfers
unfolding new_system run step pay_dcr_address execute_or_escalate evaluate_and_record not_frozen
    freeze_status get_state get_approval lookup evaluate check_rules check_memo check_destination
    check_cap check_velocity check_budget approval trim_space write_attempt record_attempt exec
    do_onchain_pay record_payment wrap ◌+ℤ◌ Bytes-discrete usage resolve resolve_approval
    create_approval insert erase notified Registry.escalate
transfers_justified_example =
    transfers_justified codec client caip2 policy history (refl, (tt, (refl, tt)))
