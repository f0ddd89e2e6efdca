-- ===== src/Agent/Extends.antt =====
-- What no step of the agent takes back from its store: attempts, verdicts that approved a payment,
-- and the attempt that an approval is about.
use dcr.Prelude.{ℕ, ◌≡◌, ◌∙◌, ◌≢◌, inl, inr, refl, none, some, arith, if◌then◌else◌}
use dcr.Prelude.Bytes.{Bytes, lookup-insert, str_eq}
use dcr.AgentStore.{
  Store, AttemptRow, Payment, Approval, Status, pending, get_attempt, record_attempt,
  record_payment, get_approval, create_approval, resolve_approval, expire_approvals, expire,
  is_overdue, set_state,
}
use dcr.AgentStore.Records.{get_attempt-record_attempt}
use dcr.AgentStore.Verdicts.{
  resolve_approval_outcome, step-keeps_resolved, lookup-expire_loop, answer, Answered,
}

pub record Extends (m m' : Store) : Type 0 where
  pub attempts : (i : ℕ) (a : AttemptRow) → get_attempt m i ≡ some a → get_attempt m' i ≡ some a
  pub approvals :
      (k : Bytes) (a : Approval)
      → get_approval m k ≡ some a
      → a.status ≢ pending
      → get_approval m' k ≡ some a
  pub subjects :
      (k : Bytes) (a : Approval)
      → get_approval m k ≡ some a
      → (b : Approval) × (get_approval m' k ≡ some b) × (b.attempt_id ≡ a.attempt_id)

pub Extends-refl : (m : Store) → Extends m m
Extends-refl m = record {
  attempts = λ i a e. e;
  approvals = λ k a e p. e;
  subjects = λ k a e. (a, e, refl);
}

pub Extends-trans : {m n o : Store} → Extends m n → Extends n o → Extends m o
Extends-trans h g = record {
  attempts = λ i a e. g.attempts i a (h.attempts i a e);
  approvals = λ k a e p. g.approvals k a (h.approvals k a e p) p;
  subjects = λ k a e.
      let (b, eb, sb) = h.subjects k a e in let (c, ec, sc) = g.subjects k b eb in (c, ec, sc ∙ sb);
}

pub approval-record_attempt :
    (m : Store) (a : AttemptRow) (k : Bytes)
    → get_approval (record_attempt m a).1 k ≡ get_approval m k
unfolding get_approval record_attempt
approval-record_attempt m a k = refl

attempt-resolve :
    (m : Store) (id : Bytes) (status : Status) (responder : Bytes) (at i : ℕ)
    → get_attempt (resolve_approval m id status responder at).1 i ≡ get_attempt m i
unfolding get_attempt
attempt-resolve m id status responder at i =
    elim (resolve_approval_outcome m id status responder at) [
      | inl (a, _, same) ↦ rw same
      | inr (same, _) ↦ rw same
    ]

answered_subject :
    (m : Store) (id k : Bytes) (status : Status) (responder : Bytes) (at : ℕ) (a b : Approval)
    → get_approval m id ≡ some b
    → get_approval m k ≡ some a
    → let c = if str_eq id k then answer status responder at b else a in
      (get_approval (Answered m id (answer status responder at b)) k ≡ some c)
      × (c.attempt_id ≡ a.attempt_id)
unfolding get_approval
answered_subject m id k status responder at a b eb ea =
    ground (arith, lookup-insert k id (answer status responder at b) m.approvals)

pub record_attempt-Extends : (m : Store) (a : AttemptRow) → Extends m (record_attempt m a).1
record_attempt-Extends m a = record {
  attempts = λ i b e. let (free, reads) = get_attempt-record_attempt m a i in ground arith;
  approvals = λ k b e p. approval-record_attempt m a k ∙ e;
  subjects = λ k b e. (b, approval-record_attempt m a k ∙ e, refl);
}

pub record_payment-Extends : (m : Store) (p : Payment) → Extends m (record_payment m p).1
unfolding get_approval get_attempt record_payment
record_payment-Extends m p = record {
  attempts = λ i a e. e;
  approvals = λ k a e q. e;
  subjects = λ k a e. (a, e, refl);
}

pub set_state-Extends : (m : Store) (key v : Bytes) → Extends m (set_state m key v)
unfolding get_approval get_attempt set_state
set_state-Extends m key v = record {
  attempts = λ i a e. e;
  approvals = λ k a e q. e;
  subjects = λ k a e. (a, e, refl);
}

pub create_approval-Extends :
    (m : Store) (a : Approval) → get_approval m a.id ≡ none → Extends m (create_approval m a)
unfolding get_approval get_attempt create_approval
create_approval-Extends m a free = record {
  attempts = λ i b e. e;
  approvals = λ k b e p. ground (arith, lookup-insert k a.id a m.approvals);
  subjects = λ k b e. (b, ground (arith, lookup-insert k a.id a m.approvals), refl);
}

pub resolve_approval-Extends :
    (m : Store) (id : Bytes) (status : Status) (responder : Bytes) (at : ℕ)
    → Extends m (resolve_approval m id status responder at).1
resolve_approval-Extends m id status responder at = record {
  attempts = λ i a e. attempt-resolve m id status responder at i ∙ e;
  approvals = λ k a e p. step-keeps_resolved m id status responder at k a e p;
  subjects = λ k a e. elim (resolve_approval_outcome m id status responder at) [
    | inl (b, (found, _, _), same) ↦ rw same (
      if str_eq id k then answer status responder at b else a,
      (answered_subject m id k status responder at a b found e).0,
      (answered_subject m id k status responder at a b found e).1,
    )
    | inr (same, _) ↦ rw same (a, e, refl)
  ];
}

pub expire_approvals-Extends : (m : Store) (now : ℕ) → Extends m (expire_approvals m now).1
unfolding get_approval get_attempt expire_approvals
expire_approvals-Extends m now = record {
  attempts = λ i a e. e;
  approvals = λ k a e p. ground (arith, lookup-expire_loop k now m.approvals);
  subjects = λ k a e. (
    if is_overdue now a then expire now a else a,
    ground (arith, lookup-expire_loop k now m.approvals),
    ground arith,
  );
}
