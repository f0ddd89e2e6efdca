-- ===== src/Agent/Outcomes.antt =====
-- The invariant `Inv` is kept by verdicts and by expiry sweeps.
use dcr.Prelude.{
  ℕ, ◌≡◌, inl, inr, refl, ap, Bool, true, false, List, [], ◌∷◌, Option, none, some, arith, All,
  All-append, if◌then◌else◌,
}
use dcr.Prelude.Bytes.{Bytes, Dict, lookup, erase}
use dcr.AgentStore.{Store, Approval, approved, denied, get_approval, expire_approvals}
use dcr.AgentStore.Verdicts.{resolve_approval_outcome, answer, Answered, answered}
use dcr.Agent.{System, Continuation, Task}
use dcr.Agent.Registry.{resolve, expire_sweep, start, drop_expired}
use dcr.Agent.Extends.{Extends, resolve_approval-Extends, expire_approvals-Extends}
use dcr.Agent.Justified.{
  TaskOk, AllParked, Hosts, Inv, Inv-extend, AllParked-erase, start-refused, Waits-mono,
}

-- What a verdict starts may move money: the approval that it answered is about that attempt.
start-Inv :
    {hosts : Hosts} (s : System) (id : Bytes) (verdict : Bool) (responder : Bytes) (now : ℕ)
    (a : Approval) (c : Option Continuation)
    → get_approval s.store id ≡ some a
    → lookup id s.waiting ≡ c
    → Inv hosts s
    → let b = answer (if verdict then approved else denied) responder now a in
      Extends s.store (Answered s.store id b)
      → All (TaskOk hosts (Answered s.store id b)) (start c verdict s.tasks)
start-Inv {hosts = hosts} s id verdict responder now a none e f v x = (Inv-extend {s = s} x v).ready
start-Inv {hosts = hosts} s id false responder now a (some c) e f v x =
    start-refused hosts _ (some c) s.tasks (Inv-extend {s = s} x v).ready
start-Inv {hosts = hosts} s id true responder now a (some c) e f v x =
    let (r, (a', e', i)) = v.parked id c f in
    let same : a' ≡ a = ground arith in
    All-append _ s.tasks _ (Inv-extend {s = s} x v).ready (
      λ _. (
        Waits-mono hosts c x r,
        (id, answer approved responder now a, answered s.store id _, rw same at i, refl),
      ),
      tt,
    )

pub resolve-Inv :
    {hosts : Hosts} (s : System) (id : Bytes) (verdict : Bool) (responder : Bytes) (now : ℕ)
    → Inv hosts s
    → Inv hosts (resolve s id verdict responder now).1
unfolding resolve
resolve-Inv {hosts = hosts} s id verdict responder now v =
    let status = if verdict then approved else denied in
    elim (resolve_approval_outcome s.store id status responder now) [
      | inr (same, _) ↦ rw same v
      | inl (a, (found, _, _), same) ↦
          let x : Extends s.store (Answered s.store id (answer status responder now a)) =
            rw (ap (λ p. p.1) same) at (resolve_approval-Extends s.store id status responder now) in
          rw same (record {
            sent = (Inv-extend {s = s} x v).sent;
            ready = start-Inv s id verdict responder now a (lookup id s.waiting) found refl v x;
            parked = AllParked-erase hosts _ id s.waiting (Inv-extend {s = s} x v).parked;
          })
    ]

drop_expired-Inv :
    (hosts : Hosts) (m : Store) (out : List Approval) (d : Dict Continuation) (tasks : List Task)
    → AllParked hosts m d
    → All (TaskOk hosts m) tasks
    → let (d', tasks') = drop_expired out d tasks in
      AllParked hosts m d' × All (TaskOk hosts m) tasks'
unfolding drop_expired
drop_expired-Inv hosts m [] d tasks p r = (p, r)
drop_expired-Inv hosts m (a ∷ out) d tasks p r =
    drop_expired-Inv hosts m out (erase a.id d) (start (lookup a.id d) false tasks)
      (AllParked-erase hosts m a.id d p) (start-refused hosts m (lookup a.id d) tasks r)

pub expire_sweep-Inv :
    {hosts : Hosts} (s : System) (now : ℕ) → Inv hosts s → Inv hosts (expire_sweep s now)
unfolding expire_sweep
expire_sweep-Inv {hosts = hosts} s now v =
    let w = Inv-extend {s = s} (expire_approvals-Extends s.store now) v in
    let (parked, ready) =
      drop_expired-Inv hosts _ (expire_approvals s.store now).0 s.waiting s.tasks w.parked
        w.ready in
    record { sent = w.sent; ready = ready; parked = parked }
