-- ===== src/Ledger/Invariant.antt =====
-- What the ledger holds never goes below zero and never exceeds what was granted
-- (`Grant` and `Charge` of lib/ledger/ledger.go).
use dcr.Prelude.{
  ℕ, ◌+◌, ◌<◌, ◌≤◌, ◌≡◌, ◌≢◌, ◌⊎◌, inl, inr, refl, ap, Bool, true, false, List, [], ◌∷◌, none,
  arith,
}
use dcr.Prelude.Int64.{
  ℤ, pos, pos_part, neg_part, ◌+ℤ◌, ◌-ℤ◌, ◌≤ℤ◌, int64_half, int_laws, sub64, sub64_exact, add64,
  add64_exact, pos_part_mono, pos_part-add_lt, pos_part-add_le,
}
use dcr.Prelude.Bytes.{Bytes, Dict, lookup, insert, lookup_or-insert_self, lookup_or-insert_ne}
use dcr.Ledger.{
  Ledger, GrantRecord, ok, balance, grant, charge, charge_key, Call, grants, charges, step, run,
  new_memory,
}
use dcr.Ledger.Balances.{sum, sum-insert, IsNonneg, insert-IsNonneg, lookup-le-sum}

-- All that was ever granted.
abbrev pub granted : Dict GrantRecord → ℤ
granted [] = pos 0
granted ((_, g) ∷ d) = g.amount +ℤ granted d

pub record IsValid (m : Ledger) : Type 0 where
  pub nonneg : IsNonneg m.balances
  pub solvent : sum m.balances ≤ℤ granted m.grants
  pub in_range : pos_part (granted m.grants) < int64_half

granted-insert_new :
    (k : Bytes) (g : GrantRecord) (d : Dict GrantRecord)
    → lookup k d ≡ none
    → granted (insert k g d) ≡ granted d +ℤ g.amount
unfolding lookup insert
granted-insert_new k g [] e = omega int_laws
granted-insert_new k g ((j, h) ∷ d) e = grind (int_laws, granted-insert_new k g d)

-- What a debit of `amount` does: the account pays it, and nobody else does.
pub record Debited (m : Ledger) (account : Bytes) (amount : ℤ) (m' : Ledger) : Type 0 where
  pub covered : amount ≤ℤ balance m account
  pub paid : balance m' account +ℤ amount ≡ balance m account
  pub others : (other : Bytes) → other ≢ account → balance m' other ≡ balance m other
  pub total : sum m'.balances +ℤ amount ≡ sum m.balances
  pub grants_kept : m'.grants ≡ m.grants

charge_debits :
    (m : Ledger) (account : Bytes) (amount : ℤ) (charged' : Dict Bool)
    → IsValid m
    → pos 1 ≤ℤ amount
    → amount ≤ℤ balance m account
    → let m' = record m {
      balances = insert account (sub64 (balance m account) amount) m.balances;
      charged = charged';
    } in
      IsValid m' × Debited m account amount m'
unfolding balance
charge_debits m account amount charged' v p q =
    let held = lookup-le-sum account m.balances v.nonneg in
    let total = sum-insert account (balance m account -ℤ amount) m.balances in
    let exact : sub64 (balance m account) amount ≡ balance m account -ℤ amount =
      sub64_exact (balance m account) amount (omega arith) q (
        omega (
          arith,
          pos_part_mono (balance m account) (sum m.balances) held.1,
          pos_part_mono (sum m.balances) (granted m.grants) v.solvent,
        )) in
    rw exact (
      record {
        nonneg = insert-IsNonneg account _ m.balances (omega int_laws) v.nonneg;
        solvent = omega (int_laws, ap pos_part total, ap neg_part total);
        in_range = v.in_range;
      },
      record {
        covered = q;
        paid =
            rw
              (
                lookup_or-insert_self account (balance m account -ℤ amount) (pos 0) m.balances,
                balance,
              )
              (omega int_laws);
        others = λ other ne. lookup_or-insert_ne other account _ (pos 0) m.balances ne;
        total = omega (int_laws, ap pos_part total, ap neg_part total);
        grants_kept = refl;
      },
    )

-- A charge leaves the ledger as it was, or takes exactly the amount from the account it names, and
-- only when the account covers it. Either way no balance is below zero, and what is held is at
-- most what was granted.
pub charge-Debited :
    (m : Ledger) (account : Bytes) (amount : ℤ) (idem_key : Bytes)
    → IsValid m
    → let (r, m') = charge m account amount idem_key in
      IsValid m' × ((m' ≡ m) ⊎ (Debited m account amount m' × (r ≡ ok (balance m' account))))
unfolding charge
charge-Debited m account amount idem_key v = ground (
  arith,
  charge_debits m account amount m.charged v,
  charge_debits m account amount (insert (charge_key account idem_key) true m.charged) v,
)

-- What a first grant of `amount` does: the account it names gains it, and nobody else does.
pub record Credited (m : Ledger) (account : Bytes) (amount : ℤ) (m' : Ledger) : Type 0 where
  pub gained : balance m' account ≡ balance m account +ℤ amount
  pub others : (other : Bytes) → other ≢ account → balance m' other ≡ balance m other
  pub total : sum m'.balances ≡ sum m.balances +ℤ amount
  pub counted : granted m'.grants ≡ granted m.grants +ℤ amount

grant_credits :
    (m : Ledger) (account : Bytes) (amount : ℤ) (external_ref : Bytes)
    → IsValid m
    → pos 1 ≤ℤ amount
    → pos_part (granted m.grants) + pos_part amount < int64_half
    → lookup external_ref m.grants ≡ none
    → let m' = record m {
      balances = insert account (add64 (balance m account) amount) m.balances;
      grants = insert external_ref (record { account_id = account; amount = amount }) m.grants;
    } in
      IsValid m' × Credited m account amount m'
unfolding balance
grant_credits m account amount external_ref v p q e =
    let held = lookup-le-sum account m.balances v.nonneg in
    let total = sum-insert account (balance m account +ℤ amount) m.balances in
    let more =
      granted-insert_new external_ref (record { account_id = account; amount = amount }) m.grants
        e in
    let exact : add64 (balance m account) amount ≡ balance m account +ℤ amount =
      add64_exact (balance m account) amount held.0 (omega arith) (
        omega (
          arith,
          pos_part_mono (balance m account) (sum m.balances) held.1,
          pos_part_mono (sum m.balances) (granted m.grants) v.solvent,
        )) in
    rw exact (
      record {
        nonneg = insert-IsNonneg account _ m.balances (omega int_laws) v.nonneg;
        solvent =
            omega
              (int_laws, ap pos_part total, ap neg_part total, ap pos_part more, ap neg_part more);
        in_range = rw more (pos_part-add_lt (granted m.grants) amount q);
      },
      record {
        gained = lookup_or-insert_self account (balance m account +ℤ amount) (pos 0) m.balances;
        others = λ other ne. lookup_or-insert_ne other account _ (pos 0) m.balances ne;
        total = omega (int_laws, ap pos_part total, ap neg_part total);
        counted = more;
      },
    )

-- A grant that keeps all that was ever granted within int64 leaves the ledger as it was, or is the
-- first for its reference and credits exactly the amount to the account it names. Either way no
-- balance is below zero, and what is held is at most what was granted.
pub grant-Credited :
    (m : Ledger) (account : Bytes) (amount : ℤ) (external_ref : Bytes)
    → IsValid m
    → pos_part (granted m.grants) + pos_part amount < int64_half
    → let (r, m') = grant m account amount external_ref in
      IsValid m'
      × ((m' ≡ m)
          ⊎ ((lookup external_ref m.grants ≡ none)
              × Credited m account amount m'
              × (r ≡ ok (balance m' account, false))))
unfolding grant
grant-Credited m account amount external_ref v q =
    ground (arith, grant_credits m account amount external_ref v)

-- The amounts that a list of calls asks to grant, where they are positive.
abbrev pub offered : List Call → ℕ
offered [] = 0
offered (grants account amount external_ref ∷ cs) = pos_part amount + offered cs
offered (charges account amount idem_key ∷ cs) = offered cs

offered_split :
    (m : Ledger) (c : Call) (cs : List Call)
    → pos_part (granted m.grants) + offered (c ∷ cs) < int64_half
    → pos_part (granted m.grants) + offered (c ∷ []) + offered cs < int64_half
offered_split m (grants account amount external_ref) cs q = omega arith
offered_split m (charges account amount idem_key) cs q = omega arith

kept_or_Credited :
    (m m' : Ledger) (account : Bytes) (amount : ℤ) {P Q : Type 0}
    → (m' ≡ m) ⊎ (P × Credited m account amount m' × Q)
    → pos_part (granted m'.grants) ≤ pos_part (granted m.grants) + pos_part amount
kept_or_Credited m m' account amount (inl e) = rw e (omega arith)
kept_or_Credited m m' account amount (inr (p, c, q)) =
    rw c.counted (pos_part-add_le (granted m.grants) amount)

kept_or_Debited :
    (m m' : Ledger) (account : Bytes) (amount : ℤ) {P : Type 0}
    → (m' ≡ m) ⊎ (Debited m account amount m' × P)
    → granted m'.grants ≡ granted m.grants
kept_or_Debited m m' account amount (inl e) = rw e
kept_or_Debited m m' account amount (inr (d, p)) = rw d.grants_kept

step-IsValid :
    (m : Ledger) (c : Call) (rest : ℕ)
    → IsValid m
    → pos_part (granted m.grants) + offered (c ∷ []) + rest < int64_half
    → IsValid (step m c) × (pos_part (granted (step m c).grants) + rest < int64_half)
unfolding step
step-IsValid m (grants account amount external_ref) rest v q =
    let done = grant-Credited m account amount external_ref v (omega arith) in
    (done.0, omega (arith, kept_or_Credited m _ account amount done.1))
step-IsValid m (charges account amount idem_key) rest v q =
    let done = charge-Debited m account amount idem_key v in
    (done.0, rw (kept_or_Debited m _ account amount done.1) (omega arith))

run-IsValid :
    (m : Ledger) (cs : List Call)
    → IsValid m
    → pos_part (granted m.grants) + offered cs < int64_half
    → IsValid (run m cs)
unfolding run
run-IsValid m [] v q = v
run-IsValid m (c ∷ cs) v q =
    let (v', q') = step-IsValid m c (offered cs) v (offered_split m c cs q) in
    run-IsValid (step m c) cs v' q'

-- Starting from the empty ledger, any history of grants and charges whose grants fit int64 leaves
-- no balance below zero, and the balances never add up to more than what was granted.
pub run_solvent :
    (cs : List Call)
    → offered cs < int64_half
    → let m = run new_memory cs in IsNonneg m.balances × (sum m.balances ≤ℤ granted m.grants)
unfolding new_memory
run_solvent cs q =
    let v =
      run-IsValid new_memory cs
        (record { nonneg = tt; solvent = omega arith; in_range = omega arith }) (omega arith) in
    (v.nonneg, v.solvent)
