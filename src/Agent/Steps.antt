-- ===== src/Agent/Steps.antt =====
-- The invariant `Inv` is kept by what a payment call does: the rails, the attempts and escalation.
use dcr.Prelude.{
  ℕ, zero, suc, ◌<◌, ◌≡◌, length, get_elem?, [], ◌∷◌, inl, inr, refl, sym, Bool, true, false, List,
  none, some, arith, All-append, ◌==◌, Option-cases, Bool-cases,
}
use dcr.Prelude.Int64.{ℤ}
use dcr.Prelude.Bytes.{Bytes, insert, erase, lookup-insert_self}
use dcr.Policy.{Outcome, allow, deny, Attempt, Decision, Channel}
use dcr.AgentStore.{
  Store, AttemptRow, Approval, denied, get_attempt, get_approval, record_attempt, create_approval,
}
use dcr.AgentStore.Records.{get_attempt-record_attempt}
use dcr.Agent.{System, Continuation, Payout, pay_invoice, pay_address, pays, Result, ok, err}
use dcr.Agent.Registry as Registry
use dcr.Agent.Registry.{resolve, expire_sweep, restart, start, drop_expired, notified, new_approval}
use dcr.Agent.Payments.{
  Answers, write_attempt, do_ln_pay, do_onchain_pay, exec, dispatch, log_transfer, park,
  attempt_row,
}
use dcr.Agent.Extends.{
  record_attempt-Extends, record_payment-Extends, create_approval-Extends, resolve_approval-Extends,
}
use dcr.Agent.Justified.{
  attempt_of, payout_attempt, payout_amount, Recorded, MayMove, Hosts, Waits, Inv, Inv-extend,
  AllParked-erase, AllParked-insert, Waits-mono,
}

pub logged-Inv :
    {hosts : Hosts} (s : System) (id : ℕ) (amount : ℤ) (b : Bool)
    → MayMove s.store id amount
    → Inv hosts s
    → Inv hosts (log_transfer s id amount b)
logged-Inv s id amount b may v = record {
  sent = All-append _ s.transfers _ v.sent (may, tt);
  ready = v.ready;
  parked = v.parked;
}

-- `exec` on a continuation that may move money keeps the invariant.
pub exec-Inv :
    {hosts : Hosts} (s : System) (c : Payout) (w : Answers)
    → MayMove s.store (payout_attempt c) (payout_amount c)
    → Inv hosts s
    → Inv hosts (exec s c w).1
unfolding exec
exec-Inv s (pay_invoice id invoice dec) w may v = elim (Option-cases w.ln_pay) [
  | inl e ↦ rw (e, do_ln_pay) (logged-Inv s id dec.amount_atoms false may v)
  | inr (r, e) ↦
      rw (e, do_ln_pay)
        (Inv-extend (record_payment-Extends s.store _)
          (logged-Inv s id dec.amount_atoms true may v))
]
exec-Inv s (pay_address id address amount) w may v = elim (Option-cases w.onchain_send) [
  | inl e ↦ rw (e, do_onchain_pay) (logged-Inv s id amount false may v)
  | inr (r, e) ↦
      rw (e, do_onchain_pay)
        (Inv-extend (record_payment-Extends s.store _) (logged-Inv s id amount true may v))
]

-- A new approval's id is not in use: eight random bytes.
abbrev pub FreshId : System → Bytes → Type 0
FreshId s id = get_approval s.store id ≡ none

pub read_back :
    (m : Store) (row : AttemptRow)
    → let (id, m') = record_attempt m row in get_attempt m' id ≡ some (record row { id = id })
read_back m row =
    let (free, reads) = get_attempt-record_attempt m row (record_attempt m row).0 in ground arith

below_length {ℓ} :
    {A : Type ℓ} (xs : List A) (i : ℕ) (x : A) → get_elem? xs i ≡ some x → i < length xs
below_length [] i x e = absurd cc
below_length (y ∷ xs) zero x e = omega arith
below_length (y ∷ xs) (suc i) x e = let h = below_length xs i x e in omega arith

-- An attempt that is on record is older than the next one.
pub get_attempt-older :
    (m : Store) (row : AttemptRow) (id : ℕ) (a : AttemptRow)
    → get_attempt m id ≡ some a
    → id < (record_attempt m row).0
unfolding get_attempt record_attempt
get_attempt-older m row zero a e = absurd cc
get_attempt-older m row (suc i) a e = let h = below_length m.attempts i a e in omega arith

pub written :
    (s : System) (a : Attempt) (d : Decision) (now : ℕ)
    → let (id, s') = write_attempt s a d now in Recorded s'.store id a.amount_atoms d.outcome
unfolding write_attempt
written s a d now = (_, read_back s.store (attempt_row a d now), refl, refl)

pub write_attempt-Inv :
    {hosts : Hosts} (s : System) (a : Attempt) (d : Decision) (now : ℕ)
    → Inv hosts s
    → Inv hosts (write_attempt s a d now).1
unfolding write_attempt
write_attempt-Inv s a d now v = Inv-extend (record_attempt-Extends s.store _) v

created : (m : Store) (a : Approval) → get_approval (create_approval m a) a.id ≡ some a
unfolding get_approval create_approval
created m a = lookup-insert_self a.id a m.approvals

parked-Inv :
    {hosts : Hosts} (s : System) (a : Approval) (c : Continuation)
    → FreshId s a.id
    → a.attempt_id ≡ attempt_of c
    → Waits hosts s.store c
    → Inv hosts s
    → Inv hosts (record s { store = create_approval s.store a; waiting = insert a.id c s.waiting })
parked-Inv {hosts = hosts} s a c fresh e r v =
    let x = create_approval-Extends s.store a fresh in
    let w = Inv-extend {s = s} x v in
    record {
      sent = w.sent;
      ready = w.ready;
      parked =
          AllParked-insert hosts _ a.id c s.waiting
            (Waits-mono hosts c x r, (a, created s.store a, e)) w.parked;
    }

unparked-Inv :
    {hosts : Hosts} (s : System) (k : Bytes)
    → Inv hosts s
    → Inv hosts (record s { waiting = erase k s.waiting })
unparked-Inv {hosts = hosts} s k v = record {
  sent = v.sent;
  ready = v.ready;
  parked = AllParked-erase hosts s.store k s.waiting v.parked;
}

pub escalate-Inv :
    {hosts : Hosts} (s : System) (id : Bytes) (attempt_id : ℕ) (channel : Channel) (ttl : ℤ)
    (c : Continuation) (approvers : List (Bytes × Bool)) (now : ℕ)
    → FreshId s id
    → attempt_id ≡ attempt_of c
    → Waits hosts s.store c
    → Inv hosts s
    → Inv hosts (Registry.escalate s id attempt_id channel ttl c approvers now).1
unfolding Registry.escalate
escalate-Inv s id attempt_id channel ttl c approvers now fresh e r v =
    let parked = parked-Inv s (new_approval id attempt_id channel ttl now) c fresh e r v in
    elim (Bool-cases (notified channel approvers == 0)) [
      | inr heard ↦ rw heard parked
      | inl unheard ↦
          rw unheard
            (unparked-Inv _ id (Inv-extend (resolve_approval-Extends _ id denied _ now) parked))
    ]

park-Inv : {hosts : Hosts} (p : Result Approval × System) → Inv hosts p.1 → Inv hosts (park p).1
park-Inv (ok appr, s) v = v
park-Inv (err e, s) v = v

pub dispatch-Inv :
    {hosts : Hosts} (s : System) (id : ℕ) (a : Attempt) (d : Decision) (make : ℕ → Payout)
    (w : Answers) (o : Outcome)
    → FreshId s w.random_id
    → payout_attempt (make id) ≡ id
    → payout_amount (make id) ≡ a.amount_atoms
    → Recorded s.store id a.amount_atoms o
    → Inv hosts s
    → Inv hosts (dispatch o s id d make w).1
dispatch-Inv s id a d make w allow fresh ei ea r v = exec-Inv s (make id) w (inl (rw (ei, ea) r)) v
dispatch-Inv s id a d make w deny fresh ei ea r v = v
dispatch-Inv s id a d make w Outcome.escalate fresh ei ea r v = park-Inv _ (
    escalate-Inv s w.random_id id _ d.approval_ttl (pays (make id)) w.approvers w.now fresh (sym ei)
      (rw (ei, ea) r) v)
