-- ===== src/Agent/Registry.antt =====
-- agent/approve/approve.go: escalation, verdicts and expiry. Random ids and what the notifications
-- answered are arguments.
use dcr.Prelude.{
  ℕ, suc, Bool, true, false, ◌&&◌, not, List, [], ◌∷◌, ◌++◌, Option, none, some, ◌==◌,
  if◌then◌else◌,
}
use dcr.Prelude.Int64.{ℤ, pos, pos_part, ◌+ℤ◌}
use dcr.Prelude.Bytes.{Bytes, Dict, codes, str_eq, lookup, insert, erase}
use dcr.Policy.{Channel, bisonrelay, web, both}
use dcr.AgentStore.{
  Approval, pending, approved, denied, create_approval, resolve_approval, expire_approvals,
}
use dcr.Agent.{System, Continuation, Task, unreachable, Result, ok, err}

abbrev pub channel_name : Channel → Bytes
channel_name bisonrelay = codes "bisonrelay"
channel_name web = codes "web"
channel_name both = codes "both"

-- The approvers of the channel whose `Notify` did not fail, each with its name and its answer.
unfoldable pub notified : Channel → List (Bytes × Bool) → ℕ
notified channel [] = 0
notified channel ((name, reached) ∷ more) =
    let rest = notified channel more in
    if not (str_eq (channel_name channel) (codes "both"))
      && not (str_eq name (channel_name channel))
    then rest
    else if reached
    then suc rest
    else rest

abbrev pub new_approval : Bytes → ℕ → Channel → ℤ → ℕ → Approval
new_approval id attempt_id channel ttl now = record {
  id = id;
  attempt_id = attempt_id;
  channel = channel;
  status = pending;
  responder = [];
  created_at = now;
  expires_at = pos_part (pos now +ℤ ttl);
  resolved_at = none;
}

unfoldable pub escalate :
    System
    → Bytes
    → ℕ
    → Channel
    → ℤ
    → Continuation
    → List (Bytes × Bool)
    → ℕ
    → Result Approval × System
unfolding notified
escalate s id attempt_id channel ttl cont approvers now =
    let approval = new_approval id attempt_id channel ttl now in
    let store = create_approval s.store approval in
    if notified channel approvers == 0
    then (
      err unreachable,
      record s {
        store = (resolve_approval store id denied (codes "unreachable-channel") now).1;
        waiting = erase id (insert id cont s.waiting);
      },
    )
    else (ok approval, record s { store = store; waiting = insert id cont s.waiting })

abbrev pub start : Option Continuation → Bool → List Task → List Task
start none verdict tasks = tasks
start (some cont) verdict tasks = tasks ++ (record { continuation = cont; approved = verdict } ∷ [])

-- `Resolve`: whether this verdict won, and the system with the continuation started.
unfoldable pub resolve : System → Bytes → Bool → Bytes → ℕ → Bool × System
resolve s id verdict responder now =
    let (won, store) =
      resolve_approval s.store id (if verdict then approved else denied) responder now in
    if won
    then (
      true,
      record s {
        store = store;
        waiting = erase id s.waiting;
        tasks = start (lookup id s.waiting) verdict s.tasks;
      },
    )
    else (false, s)

-- The loop over the approvals that a sweep expired: each continuation is told "no".
unfoldable pub drop_expired :
    List Approval → Dict Continuation → List Task → Dict Continuation × List Task
drop_expired [] waiting tasks = (waiting, tasks)
drop_expired (a ∷ more) waiting tasks =
    drop_expired more (erase a.id waiting) (start (lookup a.id waiting) false tasks)

-- One sweep of `RunExpiry` or `ExpireNow`.
unfoldable pub expire_sweep : System → ℕ → System
unfolding drop_expired
expire_sweep s now =
    let (expired, store) = expire_approvals s.store now in
    let (waiting, tasks) = drop_expired expired s.waiting s.tasks in
    record s { store = store; waiting = waiting; tasks = tasks }

-- A restart keeps the store and drops the continuations and the goroutines.
unfoldable pub restart : System → System
restart s = record s { waiting = []; tasks = [] }
