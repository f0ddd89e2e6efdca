-- ===== src/Tests/Records.antt =====
-- The store's theorems on a store with a payment and an approval.
use dcr.Prelude.{ℕ, ◌+◌, ◌≡◌, ◌⊎◌, refl, true, false, List, [], ◌∷◌, none, some, arith}
use dcr.Prelude.Int64.{pos}
use dcr.Prelude.Bytes.{Bytes-discrete, codes, lookup}
use dcr.Policy.{allow, web}
use dcr.AgentStore.{
  Store, AttemptRow, Payment, Approval, pending, approved, denied, usage, resolve_approval,
  get_approval, new_memory,
}
use dcr.AgentStore.Spending.{usage_exact}
use dcr.AgentStore.Verdicts.{
  resolve_once, resolve_approval_outcome, CanWin, Answered, answer, Call, resolves, expires, run,
}
use dcr.Tests.Data.{noon, address}

abbrev row : AttemptRow
row = record {
  id = 1;
  tool = codes "pay_dcr_address";
  rail = codes "onchain";
  destination = address;
  amount_atoms = pos 500;
  memo = codes "tea";
  decision = allow;
  rule_trace = [];
  created_at = noon;
}

abbrev payment : Payment
payment = record {
  id = 1;
  attempt_id = 1;
  rail = codes "onchain";
  amount_atoms = pos 500;
  fee_atoms = pos 0;
  invoice = [];
  preimage = [];
  txid = codes "txid";
  created_at = noon;
}

abbrev question : Approval
question = record {
  id = codes "a1";
  attempt_id = 1;
  channel = web;
  status = pending;
  responder = [];
  created_at = noon;
  expires_at = noon + 600;
  resolved_at = none;
}

abbrev store : Store
store = record new_memory {
  attempts = row ∷ [];
  payments = payment ∷ [];
  approvals = (codes "a1", question) ∷ [];
}

abbrev others : List Call
others = resolves (codes "a1") denied (codes "bot") (noon + 2) ∷ expires (noon + 900) ∷ []

resolve_once_example :
    let m' =
      run (resolve_approval store (codes "a1") approved (codes "owner") (noon + 1)).1 others in
    ((a : Approval) × (get_approval m' (codes "a1") ≡ some a)
      × (a.status ≡ approved)
      × (a.responder ≡ codes "owner"))
    × (resolve_approval m' (codes "a1") denied (codes "bot") (noon + 3) ≡ (false, m'))
unfolding resolve_approval get_approval lookup Bytes-discrete
resolve_once_example =
    resolve_once store (codes "a1") approved (codes "owner") (noon + 1) others denied (codes "bot")
      (noon + 3) refl (λ e. ground arith) tt

resolve_approval_outcome_example :
    ((a : Approval) × CanWin store (codes "a1") noon a
      × (resolve_approval store (codes "a1") approved (codes "owner") noon
          ≡ (true, Answered store (codes "a1") (answer approved (codes "owner") noon a))))
    ⊎ ((resolve_approval store (codes "a1") approved (codes "owner") noon ≡ (false, store))
        × ((a : Approval) → ¬ CanWin store (codes "a1") noon a))
resolve_approval_outcome_example =
    resolve_approval_outcome store (codes "a1") approved (codes "owner") noon

usage_exact_example :
    ((usage store noon).day_atoms ≡ pos 500) × ((usage store noon).week_atoms ≡ pos 500)
usage_exact_example =
    usage_exact store noon (omega arith) (omega arith, tt) (omega arith) (omega arith)

abbrev before : ℕ
before = 2
