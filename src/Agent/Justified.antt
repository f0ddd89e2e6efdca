-- ===== src/Agent/Justified.antt =====
-- The invariant behind every request to a rail: it has a recorded attempt of the same amount that
-- the policy allowed, or that the policy escalated and the owner approved.
use dcr.Prelude.{
  ℕ, ◌<◌, ◌≡◌, ◌⊎◌, ◌∙◌, inl, inr, subst₂, true, false, List, [], ◌∷◌, Option, none, some, arith,
  All, All-append,
}
use dcr.Prelude.Int64.{ℤ, ◌≤ℤ◌}
use dcr.Prelude.Bytes.{
  Bytes, codes, Dict, lookup, insert, erase, lookup-insert, lookup-erase, Bytes-discrete,
}
use dcr.Policy.{Outcome, allow, escalate}
use dcr.AgentStore.{Store, AttemptRow, Approval, approved, get_attempt, get_approval}
use dcr.Agent.{
  System, Continuation, Payout, pay_invoice, pay_address, pays, refetches, Task, Transfer,
}
use dcr.Agent.Extends.{Extends}
use dcr.Agent.Registry.{start}

abbrev pub payout_attempt : Payout → ℕ
payout_attempt (pay_invoice id invoice dec) = id
payout_attempt (pay_address id address amount) = id

abbrev pub payout_amount : Payout → ℤ
payout_amount (pay_invoice id invoice dec) = dec.amount_atoms
payout_amount (pay_address id address amount) = amount

-- The attempt that a continuation was parked for.
abbrev pub attempt_of : Continuation → ℕ
attempt_of (pays p) = payout_attempt p
attempt_of (refetches id url opt max_atoms) = id

-- The attempt is on record, with the amount and the policy's outcome.
abbrev pub Recorded : Store → ℕ → ℤ → Outcome → Type 0
Recorded m id amount o =
    (a : AttemptRow) × (get_attempt m id ≡ some a) × (a.amount_atoms ≡ amount) × (a.decision ≡ o)

-- Somebody approved the attempt.
abbrev pub Approved : Store → ℕ → Type 0
Approved m id =
    (k : Bytes) × (a : Approval) × (get_approval m k ≡ some a)
    × (a.attempt_id ≡ id)
    × (a.status ≡ approved)

-- The attempt was escalated, and somebody approved it.
abbrev pub Granted : Store → ℕ → ℤ → Type 0
Granted m id amount = Recorded m id amount escalate × Approved m id

-- The attempt is on record as a paid fetch from the host, with the amount, and was escalated.
abbrev pub Fetched : Store → ℕ → ℤ → Bytes → Type 0
Fetched m id amount host =
    (a : AttemptRow) × (get_attempt m id ≡ some a)
    × (a.amount_atoms ≡ amount)
    × (a.decision ≡ escalate)
    × (a.tool ≡ codes "fetch_paid")
    × (a.destination ≡ host)

-- The attempt of a fetch that is asked for again: it is a paid fetch and was escalated, and an
-- earlier paid fetch from the same host, of at least its amount, was escalated and approved.
abbrev pub Covered : Store → ℕ → ℤ → Type 0
Covered m id amount =
    (host : Bytes) × Fetched m id amount host
    × ((first : ℕ) × (granted : ℤ) × (first < id)
        × (amount ≤ℤ granted)
        × Fetched m first granted host
        × Approved m first)

abbrev pub MayMove : Store → ℕ → ℤ → Type 0
MayMove m id amount = Recorded m id amount allow ⊎ (Granted m id amount ⊎ Covered m id amount)

abbrev pub TransferOk : Store → Transfer → Type 0
TransferOk m t = MayMove m t.attempt_id t.amount_atoms

-- The host of a URL that has one.
abbrev pub Hosts : Type 0
Hosts = Bytes → Option Bytes

-- The escalated attempt that a continuation waits for: that of its payout, or a paid fetch from the
-- host of its URL.
abbrev pub Waits : Hosts → Store → Continuation → Type 0
Waits hosts m (pays p) = Recorded m (payout_attempt p) (payout_amount p) escalate
Waits hosts m (refetches id url opt max_atoms) =
    (host : Bytes) × (hosts url ≡ some host) × Fetched m id max_atoms host

abbrev pub TaskOk : Hosts → Store → Task → Type 0
TaskOk hosts m t =
    t.approved ≡ true → Waits hosts m t.continuation × Approved m (attempt_of t.continuation)

-- A parked continuation belongs to an escalated attempt, and so does the approval it waits under.
abbrev pub ParkedOk : Hosts → Store → Bytes → Continuation → Type 0
ParkedOk hosts m k c =
    Waits hosts m c × ((a : Approval) × (get_approval m k ≡ some a) × (a.attempt_id ≡ attempt_of c))

abbrev pub AllParked : Hosts → Store → Dict Continuation → Type 0
AllParked hosts m d = (k : Bytes) (c : Continuation) → lookup k d ≡ some c → ParkedOk hosts m k c

pub record Inv (hosts : Hosts) (s : System) : Type 0 where
  pub sent : All (TransferOk s.store) s.transfers
  pub ready : All (TaskOk hosts s.store) s.tasks
  pub parked : AllParked hosts s.store s.waiting

pub Recorded-mono :
    {m m' : Store} (id : ℕ) (amount : ℤ) (o : Outcome)
    → Extends m m'
    → Recorded m id amount o
    → Recorded m' id amount o
Recorded-mono id amount o x (a, e, p, d) = (a, x.attempts id a e, p, d)

pub Fetched-mono :
    {m m' : Store} (id : ℕ) (amount : ℤ) (host : Bytes)
    → Extends m m'
    → Fetched m id amount host
    → Fetched m' id amount host
Fetched-mono id amount host x (a, e, p, d, t, h) = (a, x.attempts id a e, p, d, t, h)

pub Waits-mono :
    {m m' : Store} (hosts : Hosts) (c : Continuation)
    → Extends m m'
    → Waits hosts m c
    → Waits hosts m' c
Waits-mono hosts (pays p) x r = Recorded-mono (payout_attempt p) (payout_amount p) escalate x r
Waits-mono hosts (refetches id url opt n) x (host, named, r) =
    (host, named, Fetched-mono id n host x r)

pub Approved-mono : {m m' : Store} (id : ℕ) → Extends m m' → Approved m id → Approved m' id
Approved-mono id x (k, a, e, i, st) = (k, a, x.approvals k a e (λ q. ground arith), i, st)

pub Granted-mono :
    {m m' : Store} (id : ℕ) (amount : ℤ) → Extends m m' → Granted m id amount → Granted m' id amount
Granted-mono id amount x (r, a) = (Recorded-mono id amount escalate x r, Approved-mono id x a)

pub MayMove-mono :
    {m m' : Store} (id : ℕ) (amount : ℤ) → Extends m m' → MayMove m id amount → MayMove m' id amount
MayMove-mono id amount x (inl r) = inl (Recorded-mono id amount allow x r)
MayMove-mono id amount x (inr (inl g)) = inr (inl (Granted-mono id amount x g))
MayMove-mono id amount x (inr (inr (host, r, (first, granted, earlier, le, g, said)))) = inr (
    inr (
      host,
      Fetched-mono id amount host x r,
      (
        first,
        granted,
        earlier,
        le,
        Fetched-mono first granted host x g,
        Approved-mono first x said,
      ),
    ))

All-imp {ℓ κ} :
    {A : Type ℓ} {P Q : A → Type κ} (xs : List A) → ((a : A) → P a → Q a) → All P xs → All Q xs
All-imp [] f h = tt
All-imp (x ∷ xs) f h = (f x h.0, All-imp xs f h.1)

ParkedOk-mono :
    {m m' : Store} (hosts : Hosts) (k : Bytes) (c : Continuation)
    → Extends m m'
    → ParkedOk hosts m k c
    → ParkedOk hosts m' k c
ParkedOk-mono hosts k c x (r, (a, e, i)) =
    let (b, eb, ib) = x.subjects k a e in (Waits-mono hosts c x r, (b, eb, ib ∙ i))

-- A step that only extends the store keeps the invariant.
pub Inv-extend :
    {hosts : Hosts} {s : System} {m : Store}
    → Extends s.store m
    → Inv hosts s
    → Inv hosts (record s { store = m })
Inv-extend {hosts = hosts} {s = s} x v = record {
  sent = All-imp s.transfers (λ t h. MayMove-mono t.attempt_id t.amount_atoms x h) v.sent;
  ready =
      All-imp s.tasks
        (λ t h e. (Waits-mono hosts t.continuation x (h e).0, Approved-mono _ x (h e).1)) v.ready;
  parked = λ k c e. ParkedOk-mono hosts k c x (v.parked k c e);
}

-- Forgetting a continuation keeps the parked ones in order.
pub AllParked-erase :
    (hosts : Hosts) (m : Store) (k : Bytes) (d : Dict Continuation)
    → AllParked hosts m d
    → AllParked hosts m (erase k d)
AllParked-erase hosts m k d h j c e = h j c (ground (arith, lookup-erase j k d))

pub AllParked-insert :
    (hosts : Hosts) (m : Store) (k : Bytes) (c : Continuation) (d : Dict Continuation)
    → ParkedOk hosts m k c
    → AllParked hosts m d
    → AllParked hosts m (insert k c d)
AllParked-insert hosts m k c d p h j b e = elim (Bytes-discrete k j) [
  | yes same ↦
      subst₂ (ParkedOk hosts m) {u = c} {v = b} same (ground (arith, lookup-insert j k c d)) p
  | no other ↦ h j b (ground (arith, lookup-insert j k c d))
]

-- A continuation that was told "no" may always be started.
pub start-refused :
    (hosts : Hosts) (m : Store) (c : Option Continuation) (tasks : List Task)
    → All (TaskOk hosts m) tasks
    → All (TaskOk hosts m) (start c false tasks)
start-refused hosts m none tasks h = h
start-refused hosts m (some c) tasks h = All-append _ tasks _ h ((λ e. absurd (cc)), tt)
