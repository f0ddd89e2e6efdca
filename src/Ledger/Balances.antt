-- ===== src/Ledger/Balances.antt =====
-- The sum of the balances of a ledger, under an update of one account.
use dcr.Prelude.{◌≡◌, [], ◌∷◌, arith}
use dcr.Prelude.Int64.{ℤ, pos, ◌+ℤ◌, ◌≤ℤ◌, int_laws}
use dcr.Prelude.Bytes.{Bytes, Dict, lookup, lookup_or, insert}

abbrev pub sum : Dict ℤ → ℤ
sum [] = pos 0
sum ((_, v) ∷ d) = v +ℤ sum d

-- An account that is not there counts as one that holds nothing.
pub sum-insert :
    (k : Bytes) (v : ℤ) (d : Dict ℤ) → sum (insert k v d) +ℤ lookup_or k d (pos 0) ≡ sum d +ℤ v
unfolding lookup insert
sum-insert k v [] = omega int_laws
sum-insert k v ((j, w) ∷ d) = grind (int_laws, sum-insert k v d)

-- No balance is below zero.
abbrev pub IsNonneg : Dict ℤ → Type 0
IsNonneg [] = Unit
IsNonneg ((_, v) ∷ d) = (pos 0 ≤ℤ v) × IsNonneg d

pub insert-IsNonneg :
    (k : Bytes) (v : ℤ) (d : Dict ℤ) → pos 0 ≤ℤ v → IsNonneg d → IsNonneg (insert k v d)
unfolding insert
insert-IsNonneg k v [] p h = (p, tt)
insert-IsNonneg k v ((j, w) ∷ d) p h = ground (arith, insert-IsNonneg k v d p h.1)

pub lookup-le-sum :
    (k : Bytes) (d : Dict ℤ)
    → IsNonneg d
    → (pos 0 ≤ℤ lookup_or k d (pos 0)) × (lookup_or k d (pos 0) ≤ℤ sum d) × (pos 0 ≤ℤ sum d)
unfolding lookup
lookup-le-sum k [] h = omega arith
lookup-le-sum k ((j, w) ∷ d) h = grind (int_laws, lookup-le-sum k d h.1)
