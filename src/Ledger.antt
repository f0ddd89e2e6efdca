-- ===== src/Ledger.antt =====
-- lib/ledger/ledger.go: the in-memory credit ledger. The mutex makes each method one atomic step;
-- the rail, the receipt, the tool, the request reference and the time are not kept by it.
pub mod Balances
pub mod Invariant
pub mod Debit
pub mod Replay
use dcr.Prelude.{
  ◌≡◌, Bool, true, false, not, ◌&&◌, ◌++◌, List, [], ◌∷◌, Option, none, some, if◌then◌else◌,
}
use dcr.Prelude.Int64.{ℤ, pos, add64, sub64, ltb_ℤ, leb_ℤ}
use dcr.Prelude.Bytes.{Bytes, Dict, str_eq, lookup, lookup_or, insert}

pub record GrantRecord : Type 0 where
  pub account_id : Bytes
  pub amount : ℤ

pub record Ledger : Type 0 where
  pub balances : Dict ℤ
  pub grants : Dict GrantRecord
  pub charged : Dict Bool

pub data LedgerError : Type 0 where
  grant_not_positive : LedgerError
  external_ref_required : LedgerError
  charge_not_positive : LedgerError
  insufficient_balance : ℤ → ℤ → LedgerError

pub data Result {ℓ} (A : Type ℓ) : Type ℓ where
  ok : A → Result A
  err : LedgerError → Result A

abbrev pub new_memory : Ledger
new_memory = record { balances = []; grants = []; charged = [] }

-- `Shortfall` of the error that reports `balance` and `required`.
pub shortfall : ℤ → ℤ → ℤ
shortfall balance required = sub64 required balance

unfoldable pub balance : Ledger → Bytes → ℤ
balance m account = lookup_or account m.balances (pos 0)

-- The balance after the call, and whether the reference had been granted before.
unfoldable pub grant : Ledger → Bytes → ℤ → Bytes → Result (ℤ × Bool) × Ledger
unfolding balance
grant m account amount external_ref =
    if leb_ℤ amount (pos 0)
    then (err grant_not_positive, m)
    else if str_eq external_ref []
    then (err external_ref_required, m)
    else elim (lookup external_ref m.grants) [
      | some prev ↦ (ok (balance m prev.account_id, true), m)
      | none ↦
          let m' = record m {
            balances = insert account (add64 (balance m account) amount) m.balances;
            grants =
                insert external_ref (record { account_id = account; amount = amount }) m.grants;
          } in
          (ok (balance m' account, false), m')
    ]

-- `accountID + "\x00" + idemKey`
abbrev pub charge_key : Bytes → Bytes → Bytes
charge_key account idem_key = account ++ (0 ∷ idem_key)

unfoldable pub charge : Ledger → Bytes → ℤ → Bytes → Result ℤ × Ledger
unfolding balance
charge m account amount idem_key =
    if leb_ℤ amount (pos 0)
    then (err charge_not_positive, m)
    else if not (str_eq idem_key []) && lookup_or (charge_key account idem_key) m.charged false
    then (ok (balance m account), m)
    else if ltb_ℤ (balance m account) amount
    then (err (insufficient_balance (balance m account) amount), m)
    else let m' = record m {
      balances = insert account (sub64 (balance m account) amount) m.balances;
      charged =
          if str_eq idem_key []
          then m.charged
          else insert (charge_key account idem_key) true m.charged;
    } in
      (ok (balance m' account), m')

-- A call of the ledger, and the state after it.
pub data Call : Type 0 where
  grants : Bytes → ℤ → Bytes → Call
  charges : Bytes → ℤ → Bytes → Call

pub step : Ledger → Call → Ledger
step m (grants account amount external_ref) = (grant m account amount external_ref).1
step m (charges account amount idem_key) = (charge m account amount idem_key).1

pub run : Ledger → List Call → Ledger
run m [] = m
run m (c ∷ cs) = run (step m c) cs
