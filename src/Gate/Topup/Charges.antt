-- ===== src/Gate/Topup/Charges.antt =====
-- What a gated call is charged, and what a refused one leaves.
use dcr.Prelude.{
  ℕ, ◌≡◌, ◌⊎◌, inl, inr, refl, sym, ◌∙◌, ap, Option, none, some, arith, Option-cases, subst,
}
use dcr.Prelude.Int64.{ℤ}
use dcr.Prelude.Bytes.{Bytes}
use dcr.Ledger as Credits
use dcr.Ledger.{Ledger, LedgerError, insufficient_balance, charge}
use dcr.Gate.{GateStore}
use dcr.Gate.Mint.{Config}
use dcr.Gate.Topup.{Books}
use dcr.Gate.Topup.Accounts.{
  Credit, done, declined, CreditError, no_ledger_configured, no_credential, invalid_credential,
  of_ledger, CreditReply, runs, reply_to, credit_of, credential_account, charge_credential,
  require_credits,
}

charge-refused :
    (l : Ledger) (account : Bytes) (amount : ℤ) (key : Bytes) (e : LedgerError)
    → (charge l account amount key).0 ≡ Credits.err e
    → (charge l account amount key).1 ≡ l
unfolding charge
charge-refused l account amount key e refused = ground arith

Credit-cases :
    {A : Type 0} (c : Credit A) → ((a : A) × (c ≡ done a)) ⊎ ((e : CreditError) × (c ≡ declined e))
Credit-cases (done a) = inl (a, refl)
Credit-cases (declined e) = inr (e, refl)

Result-cases :
    (r : Credits.Result ℤ)
    → ((total : ℤ) × (r ≡ Credits.ok total)) ⊎ ((e : LedgerError) × (r ≡ Credits.err e))
Result-cases (Credits.ok total) = inl (total, refl)
Result-cases (Credits.err e) = inr (e, refl)

abbrev pair : Credit ℤ → Books → Credit ℤ × Books
pair c b = (c, b)

-- A call's reply where it is not run.
abbrev pub IsRefusal : CreditReply → Type 0
IsRefusal (runs total) = ⊥
IsRefusal _ = Unit

reply_to-IsRefusal : (e : CreditError) → IsRefusal (reply_to (declined e))
reply_to-IsRefusal no_ledger_configured = tt
reply_to-IsRefusal no_credential = tt
reply_to-IsRefusal invalid_credential = tt
reply_to-IsRefusal (of_ledger (insufficient_balance a b)) = tt
reply_to-IsRefusal (of_ledger Credits.grant_not_positive) = tt
reply_to-IsRefusal (of_ledger Credits.external_ref_required) = tt
reply_to-IsRefusal (of_ledger Credits.charge_not_positive) = tt

credit_of-ok :
    (p : Credits.Result ℤ × Ledger) (m : GateStore) (total : ℤ)
    → p.0 ≡ Credits.ok total
    → credit_of p m ≡ (done total, record { store = m; ledger = some p.1 })
credit_of-ok (Credits.ok t, l) m total e = cc
credit_of-ok (Credits.err r, l) m total e = cc

credit_of-err :
    (p : Credits.Result ℤ × Ledger) (m : GateStore) (r : LedgerError)
    → p.0 ≡ Credits.err r
    → credit_of p m ≡ (declined (of_ledger r), record { store = m; ledger = some p.1 })
credit_of-err (Credits.ok t, l) m r e = cc
credit_of-err (Credits.err r', l) m r e = cc

module _ (cfg : Config) (b : Books) (authorization : Bytes) (amount : ℤ) (key : Bytes)
    (now : ℕ) where
  -- The account of an accepted credential was charged: what the call's result and the books are.
  abbrev pub IsCharged : Credit ℤ × Books → Type 0
  IsCharged c =
      (l : Ledger) × (account : Bytes) × (total : ℤ) × (b.ledger ≡ some l)
      × (credential_account cfg b.store authorization now ≡ done account)
      × ((charge l account amount key).0 ≡ Credits.ok total)
      × (c
          ≡ (done total, record { store = b.store; ledger = some (charge l account amount key).1 }))

  abbrev pub IsDeclined : Credit ℤ × Books → Type 0
  IsDeclined c = (e : CreditError) × (c ≡ (declined e, b))

  same_books :
      (e : CreditError) (l : Option Ledger)
      → b.ledger ≡ l
      → pair (declined e) b ≡ pair (declined e) (record { store = b.store; ledger = l })
  same_books e l q = ap (λ x. pair (declined e) (record { store = b.store; ledger = x })) q

  pub charge_credential-cases :
      IsCharged (charge_credential cfg b authorization amount key now)
      ⊎ IsDeclined (charge_credential cfg b authorization amount key now)
  unfolding charge_credential
  charge_credential-cases = elim (Option-cases b.ledger) [
    | inl without ↦ inr (
      no_ledger_configured,
      rw (without, charge_credential) (same_books no_ledger_configured none without),
    )
    | inr (l, with_ledger) ↦
        elim (Credit-cases (credential_account cfg b.store authorization now)) [
          | inr (e, refused) ↦
              inr (
                e,
                rw (with_ledger, charge_credential, refused) (same_books e (some l) with_ledger),
              )
          | inl (account, accepts) ↦ elim (Result-cases (charge l account amount key).0) [
            | inl (total, paid) ↦ inl (
              l,
              account,
              total,
              with_ledger,
              accepts,
              paid,
              rw (with_ledger, charge_credential, accepts)
                  (credit_of-ok (charge l account amount key) b.store total paid),
            )
            | inr (r, unpaid) ↦ inr (
              of_ledger r,
              rw (with_ledger, charge_credential, accepts)
                  (credit_of-err (charge l account amount key) b.store r unpaid
                    ∙ ap
                        (λ x.
                          pair (declined (of_ledger r)) (record { store = b.store; ledger = x }))
                        (ap some (charge-refused l account amount key r unpaid))),
            )
          ]
        ]
  ]

  -- A call behind the credits is run in one case: its credential is accepted, and the charge of the
  -- credential's account went through, whose balance it is told. In every other case, a missing
  -- ledger, credential or balance included, it is refused and the store and the ledger are as before.
  pub require_credits_charges :
      let (reply, b') = require_credits cfg b authorization amount key now in
      ((l : Ledger) × (account : Bytes) × (total : ℤ) × (b.ledger ≡ some l)
        × (credential_account cfg b.store authorization now ≡ done account)
        × ((charge l account amount key).0 ≡ Credits.ok total)
        × (reply ≡ runs total)
        × (b' ≡ record { store = b.store; ledger = some (charge l account amount key).1 }))
      ⊎ (IsRefusal reply × (b' ≡ b))
  unfolding require_credits
  require_credits_charges = elim charge_credential-cases [
    | inl (l, account, total, with_ledger, accepts, paid, e) ↦ inl (
      l,
      account,
      total,
      with_ledger,
      accepts,
      paid,
      ap (λ (z : Credit ℤ × Books). reply_to z.0) e,
      ap (λ (z : Credit ℤ × Books). z.1) e,
    )
    | inr (r, e) ↦ inr (
      subst IsRefusal (sym (ap (λ (z : Credit ℤ × Books). reply_to z.0) e)) (reply_to-IsRefusal r),
      ap (λ (z : Credit ℤ × Books). z.1) e,
    )
  ]
