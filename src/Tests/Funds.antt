-- ===== src/Tests/Funds.antt =====
-- The ledger's theorems on a ledger with one funded account.
use dcr.Prelude.{◌≡◌, refl, true, List, [], ◌∷◌, arith}
use dcr.Prelude.Int64.{pos, ◌≤ℤ◌, ◌+ℤ◌, ◌-ℤ◌, wrap}
use dcr.Prelude.Bytes.{Bytes-discrete, codes, lookup, insert}
use dcr.Ledger.{
  Ledger, ok, balance, grant, charge, charge_key, Call, grants, charges, run, new_memory,
}
use dcr.Ledger.Balances.{sum, IsNonneg}
use dcr.Ledger.Invariant.{run_solvent, IsValid, granted, offered}
use dcr.Ledger.Replay.{grant_once, charge_once}
use dcr.Tests.Data.{alice, bob}

abbrev funded : Ledger
funded = record {
  balances = (alice, pos 100) ∷ [];
  grants = (codes "ln:1", record { account_id = alice; amount = pos 100 }) ∷ [];
  charged = [];
}

funded-IsValid : IsValid funded
unfolding ◌+ℤ◌ sum IsNonneg
funded-IsValid = record { nonneg = ground arith; solvent = ground arith; in_range = ground arith }

abbrev history : List Call
history =
    grants alice (pos 100) (codes "ln:1")
    ∷ charges alice (pos 30) (codes "req-1")
    ∷ charges alice (pos 30) (codes "req-1")
    ∷ charges bob (pos 5) (codes "req-2")
    ∷ []

run_solvent_example :
    IsNonneg (run new_memory history).balances
    × (sum (run new_memory history).balances ≤ℤ granted (run new_memory history).grants)
unfolding offered
run_solvent_example = run_solvent history (omega arith)

grant_once_example :
    let m' = run (grant new_memory alice (pos 100) (codes "ln:1")).1 history in
    grant m' bob (pos 9) (codes "ln:1") ≡ (ok (balance m' alice, true), m')
unfolding grant balance lookup insert wrap ◌+ℤ◌ Bytes-discrete
grant_once_example =
    grant_once new_memory alice (pos 100) (codes "ln:1") (pos 100) history bob (pos 9) refl
      (omega arith)

charge_once_example :
    let m' = run (charge funded alice (pos 30) (codes "req-1")).1 history in
    charge m' alice (pos 40) (codes "req-1") ≡ (ok (balance m' alice), m')
unfolding charge charge_key balance lookup insert wrap ◌-ℤ◌ Bytes-discrete
charge_once_example =
    charge_once funded alice (pos 30) (codes "req-1") (pos 70) history (pos 40) refl
      (λ e. ground arith) (omega arith)
