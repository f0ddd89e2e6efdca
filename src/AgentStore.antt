-- ===== src/AgentStore.antt =====
-- agent/store/store.go: the audit ledger of the agent, as the in-memory store keeps it. Each method
-- runs under the mutex and is one atomic step. Times are nanoseconds since 1970 in UTC.
pub mod Calendar
pub mod Records
pub mod Spending
pub mod Verdicts
use dcr.Prelude.{
  ℕ, zero, suc, ◌+◌, ◌-◌, ◌≤◌, ◌<◌, ◌≡◌, Bool, true, false, not, ◌&&◌, ◌||◌, List, [], ◌∷◌, ◌++◌,
  reverse, Option, none, some, length, get_elem?, ltb, leb, ◌==◌, if◌then◌else◌,
}
use dcr.Prelude.Int64.{ℤ, pos, add64}
use dcr.Prelude.Bytes.{Bytes, Dict, lookup, insert, erase}
use dcr.Policy.{Outcome, Channel, Usage, RuleResult}
use Calendar.{day_start, week_start, hour_ns}

pub record AttemptRow : Type 0 where
  pub id : ℕ
  pub tool : Bytes
  pub rail : Bytes
  pub destination : Bytes
  pub amount_atoms : ℤ
  pub memo : Bytes
  pub decision : Outcome
  pub rule_trace : List RuleResult
  pub created_at : ℕ

pub record Payment : Type 0 where
  pub id : ℕ
  pub attempt_id : ℕ
  pub rail : Bytes
  pub amount_atoms : ℤ
  pub fee_atoms : ℤ
  pub invoice : Bytes
  pub preimage : Bytes
  pub txid : Bytes
  pub created_at : ℕ

pub record Token : Type 0 where
  pub service_host : Bytes
  pub authorization : Bytes
  pub valid_until : ℤ
  pub paid_atoms : ℤ
  pub created_at : ℕ
  pub last_used : ℕ

pub data Status : Type 0 where
  pending approved denied expired : Status

pub record Approval : Type 0 where
  pub id : Bytes
  pub attempt_id : ℕ
  pub channel : Channel
  pub status : Status
  pub responder : Bytes
  pub created_at : ℕ
  pub expires_at : ℕ
  pub resolved_at : Option ℕ

pub record Store : Type 0 where
  pub attempts : List AttemptRow
  pub payments : List Payment
  pub tokens : Dict Token
  pub approvals : Dict Approval
  pub state : Dict Bytes

abbrev pub new_memory : Store
new_memory = record { attempts = []; payments = []; tokens = []; approvals = []; state = [] }

-- The id of a new row counts from one.
unfoldable pub record_attempt : Store → AttemptRow → ℕ × Store
record_attempt m a =
    let id = suc (length m.attempts) in
    (id, record m { attempts = m.attempts ++ (record a { id = id } ∷ []) })

abbrev pub row_at {ℓ} : {A : Type ℓ} → List A → ℕ → Option A
row_at rows zero = none
row_at rows (suc i) = get_elem? rows i

unfoldable pub get_attempt : Store → ℕ → Option AttemptRow
get_attempt m id = row_at m.attempts id

-- The loop over the rows from the newest, up to `limit` of those below `before_id` (0 for all).
unfoldable pub page {ℓ} : {A : Type ℓ} → (A → ℕ) → ℕ → ℕ → List A → List A
page id_of zero before_id rows = []
page id_of (suc limit) before_id [] = []
page id_of (suc limit) before_id (r ∷ rows) =
    if ltb 0 before_id && leb before_id (id_of r)
    then page id_of (suc limit) before_id rows
    else r ∷ page id_of limit before_id rows

unfoldable pub list_attempts : Store → ℕ → ℕ → List AttemptRow
list_attempts m limit before_id = page (λ a. a.id) limit before_id (reverse m.attempts)

unfoldable pub record_payment : Store → Payment → ℕ × Store
record_payment m p =
    let id = suc (length m.payments) in
    (id, record m { payments = m.payments ++ (record p { id = id } ∷ []) })

unfoldable pub get_payment : Store → ℕ → Option Payment
get_payment m id = row_at m.payments id

unfoldable pub list_payments : Store → ℕ → ℕ → List Payment
list_payments m limit before_id = page (λ p. p.id) limit before_id (reverse m.payments)

-- One round of the loop of `Usage`.
unfoldable pub count_payment : ℕ → Usage → Payment → Usage
count_payment now u p = record {
  day_atoms =
      if leb (day_start now) p.created_at then add64 u.day_atoms p.amount_atoms else u.day_atoms;
  week_atoms =
      if leb (week_start now) p.created_at then add64 u.week_atoms p.amount_atoms else u.week_atoms;
  hour_count =
      if ltb now (p.created_at + hour_ns) then add64 u.hour_count (pos 1) else u.hour_count;
}

unfoldable pub count_payments : ℕ → Usage → List Payment → Usage
unfolding count_payment
count_payments now u [] = u
count_payments now u (p ∷ ps) = count_payments now (count_payment now u p) ps

unfoldable pub usage : Store → ℕ → Usage
unfolding count_payments
usage m now =
    count_payments now (record { day_atoms = pos 0; week_atoms = pos 0; hour_count = pos 0 })
      m.payments

unfoldable pub put_token : Store → Token → Store
put_token m t = record m { tokens = insert t.service_host t m.tokens }

unfoldable pub get_token : Store → Bytes → Option Token
get_token m host = lookup host m.tokens

unfoldable pub touch_token : Store → Bytes → ℕ → Store
touch_token m host at = elim (lookup host m.tokens) [
  | none ↦ m
  | some t ↦ record m { tokens = insert host (record t { last_used = at }) m.tokens }
]

unfoldable pub delete_token : Store → Bytes → Store
delete_token m host = record m { tokens = erase host m.tokens }

unfoldable pub create_approval : Store → Approval → Store
create_approval m a = record m { approvals = insert a.id a m.approvals }

unfoldable pub get_approval : Store → Bytes → Option Approval
get_approval m id = lookup id m.approvals

abbrev pub is_pending : Status → Bool
is_pending pending = true
is_pending _ = false

-- Whether the call won, and the store after it.
unfoldable pub resolve_approval : Store → Bytes → Status → Bytes → ℕ → Bool × Store
resolve_approval m id status responder at = elim (lookup id m.approvals) [
  | none ↦ (false, m)
  | some a ↦ if not (is_pending a.status) || ltb a.expires_at at then (false, m) else (
    true,
    record m {
      approvals =
          insert id (record a { status = status; responder = responder; resolved_at = some at })
            m.approvals;
    },
  )
]

abbrev pub is_live : ℕ → Approval → Bool
is_live now a = is_pending a.status && leb now a.expires_at

abbrev pub is_overdue : ℕ → Approval → Bool
is_overdue now a = is_pending a.status && ltb a.expires_at now

-- `sort.Slice` by the time of creation.
unfoldable pub insert_by_age : Approval → List Approval → List Approval
insert_by_age a [] = a ∷ []
insert_by_age a (b ∷ bs) =
    if leb a.created_at b.created_at then a ∷ (b ∷ bs) else b ∷ insert_by_age a bs

unfoldable pub live_approvals : ℕ → Dict Approval → List Approval
unfolding insert_by_age
live_approvals now [] = []
live_approvals now ((k, a) ∷ d) =
    let rest = live_approvals now d in if is_live now a then insert_by_age a rest else rest

unfoldable pub list_pending_approvals : Store → ℕ → List Approval
list_pending_approvals m now = live_approvals now m.approvals

abbrev pub expire : ℕ → Approval → Approval
expire now a = record a { status = expired; resolved_at = some now }

-- The loop of `ExpireApprovals` over the map: what it returns, and the map after it.
unfoldable pub expire_loop : ℕ → Dict Approval → List Approval × Dict Approval
expire_loop now [] = ([], [])
expire_loop now ((k, a) ∷ d) =
    let (out, rest) = expire_loop now d in
    if is_overdue now a
    then (expire now a ∷ out, (k, expire now a) ∷ rest)
    else (out, (k, a) ∷ rest)

unfoldable pub expire_approvals : Store → ℕ → List Approval × Store
unfolding expire_loop
expire_approvals m now =
    let (out, rest) = expire_loop now m.approvals in (out, record m { approvals = rest })

unfoldable pub get_state : Store → Bytes → Option Bytes
get_state m key = lookup key m.state

unfoldable pub set_state : Store → Bytes → Bytes → Store
set_state m key value = record m { state = insert key value m.state }
