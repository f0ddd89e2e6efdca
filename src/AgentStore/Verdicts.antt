-- ===== src/AgentStore/Verdicts.antt =====
-- Approvals: one verdict each, and none past its time.
use dcr.Prelude.{
  ℕ, ◌≤◌, ◌<◌, ◌≡◌, ◌≢◌, ◌⊎◌, inl, inr, refl, true, false, List, [], ◌∷◌, none, some, arith, ltb,
  if◌then◌else◌, Option-cases, Bool-cases,
}
use dcr.Prelude.Bytes.{Bytes, Dict, lookup, insert, lookup-insert, lookup-insert_self}
use dcr.AgentStore.{
  Store, Approval, Status, pending, get_approval, resolve_approval, create_approval,
  expire_approvals, expire_loop, expire, is_overdue,
}

-- What the calls of other resolvers may do to an approval between two moments.
pub data Call : Type 0 where
  resolves : Bytes → Status → Bytes → ℕ → Call
  expires : ℕ → Call
  creates : Approval → Call

pub step : Store → Call → Store
step m (resolves id status responder at) = (resolve_approval m id status responder at).1
step m (expires now) = (expire_approvals m now).1
step m (creates a) = create_approval m a

pub run : Store → List Call → Store
run m [] = m
run m (c ∷ cs) = run (step m c) cs

-- The calls create no approval under the id: ids are random and not used again.
abbrev pub CreatesNone : Bytes → List Call → Type 0
CreatesNone id [] = Unit
CreatesNone id (creates a ∷ cs) = (a.id ≢ id) × CreatesNone id cs
CreatesNone id (resolves _ _ _ _ ∷ cs) = CreatesNone id cs
CreatesNone id (expires _ ∷ cs) = CreatesNone id cs

pub lookup-expire_loop :
    (id : Bytes) (now : ℕ) (d : Dict Approval)
    → lookup id (expire_loop now d).1 ≡ (elim (lookup id d) [
      | none ↦ none
      | some a ↦ if is_overdue now a then some (expire now a) else some a
    ])
unfolding lookup expire_loop
lookup-expire_loop id now [] = refl
lookup-expire_loop id now ((k, a) ∷ d) = ground (arith, lookup-expire_loop id now d)

abbrev pub answer : Status → Bytes → ℕ → Approval → Approval
answer status responder at a = record a {
  status = status;
  responder = responder;
  resolved_at = some at;
}

abbrev pub CanWin : Store → Bytes → ℕ → Approval → Type 0
CanWin m id at a = (get_approval m id ≡ some a) × (a.status ≡ pending) × (at ≤ a.expires_at)

abbrev pub Answered : Store → Bytes → Approval → Store
Answered m id a = record m { approvals = insert id a m.approvals }

pub resolve_win :
    (m : Store) (id : Bytes) (status : Status) (responder : Bytes) (at : ℕ) (a : Approval)
    → CanWin m id at a
    → resolve_approval m id status responder at
      ≡ (true, Answered m id (answer status responder at a))
unfolding resolve_approval get_approval
resolve_win m id status responder at a (e, p, h) = ground arith

status_cases : (s : Status) → (s ≡ pending) ⊎ (s ≢ pending)
status_cases s = grind arith

resolve_lose_status :
    (m : Store) (id : Bytes) (status : Status) (responder : Bytes) (at : ℕ) (a : Approval)
    → get_approval m id ≡ some a
    → a.status ≢ pending
    → resolve_approval m id status responder at ≡ (false, m)
unfolding resolve_approval get_approval
resolve_lose_status m id status responder at a e p = ground arith

resolve_lose_late :
    (m : Store) (id : Bytes) (status : Status) (responder : Bytes) (at : ℕ) (a : Approval)
    → get_approval m id ≡ some a
    → a.expires_at < at
    → resolve_approval m id status responder at ≡ (false, m)
unfolding resolve_approval get_approval
resolve_lose_late m id status responder at a e p = ground arith

resolve_lose_missing :
    (m : Store) (id : Bytes) (status : Status) (responder : Bytes) (at : ℕ)
    → get_approval m id ≡ none
    → resolve_approval m id status responder at ≡ (false, m)
unfolding resolve_approval get_approval
resolve_lose_missing m id status responder at e = ground arith

-- A resolver either wins, on an approval that is there, pending and not past its time, and writes
-- its verdict on that approval alone; or it loses and changes nothing, and then the approval is
-- missing, or no longer pending, or past its time.
pub resolve_approval_outcome :
    (m : Store) (id : Bytes) (status : Status) (responder : Bytes) (at : ℕ)
    → ((a : Approval) × CanWin m id at a
        × (resolve_approval m id status responder at
            ≡ (true, Answered m id (answer status responder at a))))
      ⊎ ((resolve_approval m id status responder at ≡ (false, m))
          × ((a : Approval) → ¬ CanWin m id at a))
resolve_approval_outcome m id status responder at = elim (Option-cases (get_approval m id)) [
  | inl missing ↦ inr (resolve_lose_missing m id status responder at missing, λ a (e, _, _). cc)
  | inr (a, found) ↦ elim (status_cases a.status) [
    | inr decided ↦
        inr (
          resolve_lose_status m id status responder at a found decided,
          λ b (e, p, _). ground arith,
        )
    | inl waits ↦ elim (Bool-cases (ltb a.expires_at at)) [
      | inl late ↦ inr (
        resolve_lose_late m id status responder at a found (ground arith),
        λ b (e, _, h). ground arith,
      )
      | inr fresh ↦
          let can : CanWin m id at a = (found, waits, ground arith) in
          inl (a, can, resolve_win m id status responder at a can)
    ]
  ]
]

pub step-keeps_resolved :
    (m : Store) (k : Bytes) (status : Status) (responder : Bytes) (at : ℕ) (id : Bytes)
    (a : Approval)
    → get_approval m id ≡ some a
    → a.status ≢ pending
    → get_approval (resolve_approval m k status responder at).1 id ≡ some a
unfolding get_approval
step-keeps_resolved m k status responder at id a e p =
    elim (resolve_approval_outcome m k status responder at) [
      | inl (b, (found, waits, _), same) ↦
          rw same (ground (arith, lookup-insert id k (answer status responder at b) m.approvals))
      | inr (same, _) ↦ rw same e
    ]

-- The verdict on an approval that is no longer pending stays.
step-keeps_verdict :
    (m : Store) (c : Call) (id : Bytes) (a : Approval)
    → CreatesNone id (c ∷ [])
    → get_approval m id ≡ some a
    → a.status ≢ pending
    → get_approval (step m c) id ≡ some a
unfolding step get_approval create_approval expire_approvals
step-keeps_verdict m (resolves k status responder at) id a h e p =
    step-keeps_resolved m k status responder at id a e p
step-keeps_verdict m (expires now) id a h e p =
    ground (arith, lookup-expire_loop id now m.approvals)
step-keeps_verdict m (creates b) id a h e p = ground (arith, lookup-insert id b.id b m.approvals)

run-keeps_verdict :
    (m : Store) (cs : List Call) (id : Bytes) (a : Approval)
    → CreatesNone id cs
    → get_approval m id ≡ some a
    → a.status ≢ pending
    → get_approval (run m cs) id ≡ some a
unfolding run
run-keeps_verdict m [] id a h e p = e
run-keeps_verdict m (creates b ∷ cs) id a (ne, h) e p =
    run-keeps_verdict (step m (creates b)) cs id a h
      (step-keeps_verdict m (creates b) id a (ne, tt) e p) p
run-keeps_verdict m (resolves k st r at ∷ cs) id a h e p =
    run-keeps_verdict (step m (resolves k st r at)) cs id a h
      (step-keeps_verdict m (resolves k st r at) id a tt e p) p
run-keeps_verdict m (expires now ∷ cs) id a h e p =
    run-keeps_verdict (step m (expires now)) cs id a h
      (step-keeps_verdict m (expires now) id a tt e p) p

pub answered : (m : Store) (id : Bytes) (a : Approval) → get_approval (Answered m id a) id ≡ some a
unfolding get_approval
answered m id a = lookup-insert_self id a m.approvals

-- Exactly one resolver wins: after a call has won with a verdict, the approval keeps that verdict
-- through any later verdicts, expiry sweeps and new approvals under other ids, and every later
-- resolver loses and changes nothing.
pub resolve_once :
    (m : Store) (id : Bytes) (status : Status) (responder : Bytes) (at : ℕ) (cs : List Call)
    (status' : Status) (responder' : Bytes) (at' : ℕ)
    → (resolve_approval m id status responder at).0 ≡ true
    → status ≢ pending
    → CreatesNone id cs
    → let m' = run (resolve_approval m id status responder at).1 cs in
      ((a : Approval) × (get_approval m' id ≡ some a)
        × (a.status ≡ status)
        × (a.responder ≡ responder))
      × (resolve_approval m' id status' responder' at' ≡ (false, m'))
resolve_once m id status responder at cs status' responder' at' won p h =
    elim (resolve_approval_outcome m id status responder at) [
      | inl (a, can, same) ↦
          let first : get_approval (resolve_approval m id status responder at).1 id
              ≡ some (answer status responder at a) =
            rw same (answered m id (answer status responder at a)) in
          let last = run-keeps_verdict _ cs id (answer status responder at a) h first p in
          (
            (answer status responder at a, last, refl, refl),
            resolve_lose_status _ id status' responder' at' _ last p,
          )
      | inr (same, _) ↦ absurd (ground arith)
    ]
