-- ===== src/Agent.antt =====
-- The agent's payment service with its approval registry: agent/service.go, agent/freeze.go and
-- agent/approve/approve.go over the store of agent/store/store.go. `payMu` makes each payment call
-- one step; what a verdict starts (`go cont(...)`) is a task that runs in a later step. What the
-- rails answer is an argument of the call that asks them. The daemon reads the clock several times
-- in a call; here a call has one time.
pub mod Freeze
pub mod Registry
pub mod Payments
pub mod Fetch
mod Extends
pub mod Justified
mod Steps
mod Outcomes
pub mod History
pub mod Booked
pub mod Frozen
pub mod Limits
pub mod Spending
use dcr.Prelude.{ℕ, List, [], Option, Bool}
use dcr.Prelude.Int64.{ℤ}
use dcr.Prelude.Bytes.{Bytes, Dict}
use dcr.Policy.{Policy, Attempt, Decision}
use dcr.AgentStore.{Store, Approval}
use dcr.PayClient.{FetchOptions}

-- `LNInvoice`, as far as a payment reads it.
pub record LnInvoice : Type 0 where
  pub amount_atoms : ℤ
  pub destination : Bytes

-- What `executeOrEscalate` is asked to run, for the attempt that it recorded.
pub data Payout : Type 0 where
  pay_invoice : ℕ → Bytes → LnInvoice → Payout
  pay_address : ℕ → Bytes → ℤ → Payout

-- What an approval does when the owner says yes: the closure of `executeOrEscalate`, or that of
-- `FetchPaid`, which fetches again for up to the amount of the attempt that was approved.
pub data Continuation : Type 0 where
  pays : Payout → Continuation
  refetches : ℕ → Bytes → FetchOptions → ℤ → Continuation

-- A continuation that was started, and the verdict it was started with.
pub record Task : Type 0 where
  pub continuation : Continuation
  pub approved : Bool

-- One request to a rail to move money, for an attempt, and whether the rail confirmed it.
pub record Transfer : Type 0 where
  pub attempt_id : ℕ
  pub amount_atoms : ℤ
  pub confirmed : Bool

-- `waiting` is the registry's map of continuations; `tasks` are the goroutines that have not run
-- yet; `transfers` lists the requests to the rails, oldest first.
pub record System : Type 0 where
  pub policy : Policy
  pub store : Store
  pub waiting : Dict Continuation
  pub tasks : List Task
  pub transfers : List Transfer

pub record FreezeState : Type 0 where
  pub frozen : Bool
  pub at : ℕ
  pub by : Bytes
  pub reason : Bytes

pub data AgentError : Type 0 where
  frozen_error : FreezeState → AgentError
  policy_error : Decision → AgentError
  pending_error : Bytes → ℕ → AgentError
  unreachable : AgentError
  undecodable no_amount above_max not_positive no_onchain rail_failed : AgentError

pub record PayResult : Type 0 where
  pub attempt_id : ℕ
  pub payment_id : ℕ
  pub rail : Bytes
  pub amount_atoms : ℤ
  pub fee_atoms : ℤ
  pub preimage : Bytes
  pub txid : Bytes

pub data Result {ℓ} (A : Type ℓ) : Type ℓ where
  ok : A → Result A
  err : AgentError → Result A
