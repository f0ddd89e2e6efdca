-- ===== src/Ledger/Replay.antt =====
-- Idempotency of `Grant` and `Charge` of lib/ledger/ledger.go across any calls in between.
use dcr.Prelude.{◌≡◌, ◌≢◌, true, false, List, [], ◌∷◌, some, arith, subst}
use dcr.Prelude.Int64.{ℤ, pos, ◌≤ℤ◌}
use dcr.Prelude.Bytes.{Bytes, lookup, lookup_or, lookup-insert, str_eq_refl}
use dcr.Ledger.{
  Ledger, GrantRecord, ok, balance, grant, charge, charge_key, Call, grants, charges, step, run,
}

step-keeps_grant :
    (m : Ledger) (c : Call) (ref : Bytes) (g : GrantRecord)
    → lookup ref m.grants ≡ some g
    → lookup ref (step m c).grants ≡ some g
unfolding step grant charge
step-keeps_grant m (grants account amount r) ref g e =
    ground (arith, lookup-insert ref r (record { account_id = account; amount = amount }) m.grants)
step-keeps_grant m (charges account amount key) ref g e = ground arith

run-keeps_grant :
    (m : Ledger) (cs : List Call) (ref : Bytes) (g : GrantRecord)
    → lookup ref m.grants ≡ some g
    → lookup ref (run m cs).grants ≡ some g
unfolding run
run-keeps_grant m [] ref g e = e
run-keeps_grant m (c ∷ cs) ref g e =
    run-keeps_grant (step m c) cs ref g (step-keeps_grant m c ref g e)

step-keeps_charged :
    (m : Ledger) (c : Call) (key : Bytes)
    → lookup_or key m.charged false ≡ true
    → lookup_or key (step m c).charged false ≡ true
unfolding step grant charge
step-keeps_charged m (grants account amount r) key e = ground arith
step-keeps_charged m (charges account amount k) key e =
    ground (arith, lookup-insert key (charge_key account k) true m.charged)

run-keeps_charged :
    (m : Ledger) (cs : List Call) (key : Bytes)
    → lookup_or key m.charged false ≡ true
    → lookup_or key (run m cs).charged false ≡ true
unfolding run
run-keeps_charged m [] key e = e
run-keeps_charged m (c ∷ cs) key e =
    run-keeps_charged (step m c) cs key (step-keeps_charged m c key e)

grant_unreferenced :
    (m : Ledger) (account : Bytes) (amount : ℤ) (b : ℤ)
    → (grant m account amount []).0 ≢ ok (b, false)
unfolding grant
grant_unreferenced m account amount b e = ground (arith, str_eq_refl [])

grant_records :
    (m : Ledger) (account : Bytes) (amount : ℤ) (ref : Bytes) (b : ℤ)
    → (grant m account amount ref).0 ≡ ok (b, false)
    → lookup ref (grant m account amount ref).1.grants
      ≡ some (record { account_id = account; amount = amount })
unfolding grant
grant_records m account amount ref b e =
    ground
      (arith, lookup-insert ref ref (record { account_id = account; amount = amount }) m.grants)

grant_known :
    (m : Ledger) (account : Bytes) (amount : ℤ) (ref : Bytes) (g : GrantRecord)
    → ref ≢ []
    → lookup ref m.grants ≡ some g
    → pos 1 ≤ℤ amount
    → grant m account amount ref ≡ (ok (balance m g.account_id, true), m)
unfolding grant
grant_known m account amount ref g ne e p = ground arith

charge_records :
    (m : Ledger) (account : Bytes) (amount : ℤ) (key : Bytes) (b : ℤ)
    → (charge m account amount key).0 ≡ ok b
    → key ≢ []
    → lookup_or (charge_key account key) (charge m account amount key).1.charged false ≡ true
unfolding charge
charge_records m account amount key b e ne =
    ground (arith, lookup-insert (charge_key account key) (charge_key account key) true m.charged)

charge_known :
    (m : Ledger) (account : Bytes) (amount : ℤ) (key : Bytes)
    → key ≢ []
    → lookup_or (charge_key account key) m.charged false ≡ true
    → pos 1 ≤ℤ amount
    → charge m account amount key ≡ (ok (balance m account), m)
unfolding charge
charge_known m account amount key ne e p = ground arith

-- Once a grant has been accepted, its reference is spent: after any further calls, a grant under
-- the same reference, whatever account and positive amount it names, credits nothing, reports that
-- it was granted before, and answers with the balance of the account of the accepted grant.
pub grant_once :
    (m : Ledger) (account : Bytes) (amount : ℤ) (ref : Bytes) (b : ℤ) (cs : List Call)
    (account' : Bytes) (amount' : ℤ)
    → (grant m account amount ref).0 ≡ ok (b, false)
    → pos 1 ≤ℤ amount'
    → let m' = run (grant m account amount ref).1 cs in
      grant m' account' amount' ref ≡ (ok (balance m' account, true), m')
grant_once m account amount ref b cs account' amount' e p =
    grant_known _ account' amount' ref _
      (λ r.
        grant_unreferenced m account amount b
          (subst (λ x. (grant m account amount x).0 ≡ ok (b, false)) r e))
      (run-keeps_grant _ cs ref _ (grant_records m account amount ref b e)) p

-- A charge under an idempotency key that has gone through is not debited again: after any further
-- calls, a charge of the same account under the same key with a positive amount changes nothing
-- and answers with the current balance.
pub charge_once :
    (m : Ledger) (account : Bytes) (amount : ℤ) (key : Bytes) (b : ℤ) (cs : List Call) (amount' : ℤ)
    → (charge m account amount key).0 ≡ ok b
    → key ≢ []
    → pos 1 ≤ℤ amount'
    → let m' = run (charge m account amount key).1 cs in
      charge m' account amount' key ≡ (ok (balance m' account), m')
charge_once m account amount key b cs amount' e ne p =
    charge_known _ account amount' key ne
      (run-keeps_charged _ cs _ (charge_records m account amount key b e ne)) p
