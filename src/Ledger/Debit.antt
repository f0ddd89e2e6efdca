-- ===== src/Ledger/Debit.antt =====
-- What a charge that went through did (`Charge` of lib/ledger/ledger.go).
use dcr.Prelude.{◌≡◌, ◌⊎◌, inl, inr, true, false, [], arith}
use dcr.Prelude.Int64.{ℤ, pos, sub64, ◌≤ℤ◌}
use dcr.Prelude.Bytes.{Bytes, str_eq, lookup_or, lookup_or-insert_self}
use dcr.Ledger.{Ledger, ok, balance, charge, charge_key}

-- The account covered the amount, and holds the amount less.
pub record Pays (l : Ledger) (account : Bytes) (amount : ℤ) (l' : Ledger) : Type 0 where
  pub positive : pos 1 ≤ℤ amount
  pub covered : amount ≤ℤ balance l account
  pub left : balance l' account ≡ sub64 (balance l account) amount

-- The account was charged under the key before, and nothing changes.
pub record Repeats (l : Ledger) (account idem_key : Bytes) (l' : Ledger) : Type 0 where
  pub named : str_eq idem_key [] ≡ false
  pub used : lookup_or (charge_key account idem_key) l.charged false ≡ true
  pub unchanged : l' ≡ l

charged_lem :
    (l : Ledger) (account : Bytes) (amount : ℤ) (idem_key : Bytes) (total : ℤ)
    → (charge l account amount idem_key).0 ≡ ok total
    → let l' = (charge l account amount idem_key).1 in
      ((str_eq idem_key [] ≡ false)
        × (lookup_or (charge_key account idem_key) l.charged false ≡ true)
        × (l' ≡ l))
      ⊎ ((pos 1 ≤ℤ amount)
          × (amount ≤ℤ balance l account)
          × (balance l' account ≡ sub64 (balance l account) amount))
unfolding charge balance
charged_lem l account amount idem_key total e =
    ground
      (arith, lookup_or-insert_self account (sub64 (balance l account) amount) (pos 0) l.balances)

pub charge-Pays :
    (l : Ledger) (account : Bytes) (amount : ℤ) (idem_key : Bytes) (total : ℤ)
    → (charge l account amount idem_key).0 ≡ ok total
    → let l' = (charge l account amount idem_key).1 in
      Repeats l account idem_key l' ⊎ Pays l account amount l'
charge-Pays l account amount idem_key total e =
    elim (charged_lem l account amount idem_key total e) [
      | inl (named, used, unchanged) ↦
          inl (record { named = named; used = used; unchanged = unchanged })
      | inr (positive, covered, left) ↦
          inr (record { positive = positive; covered = covered; left = left })
    ]
