-- ===== src/AgentStore/Records.antt =====
-- The rows of attempts and payments: what is recorded is read back under its id, and stays.
use dcr.Prelude.{
  ℕ, zero, suc, ◌≤◌, ◌<◌, ◌≡◌, ◌⊎◌, refl, List, [], ◌∷◌, ◌++◌, reverse, some, none, length, arith,
  All, get_elem?-length, ◌==◌, if◌then◌else◌,
}
use dcr.AgentStore.{
  Store, AttemptRow, Payment, record_attempt, get_attempt, record_payment, get_payment,
  list_attempts, page, row_at,
}

module _ {ℓ} {A : Type ℓ} where
  row_at-append :
      (rows : List A) (x : A) (id : ℕ)
      → row_at (rows ++ (x ∷ [])) id ≡ (if id == suc (length rows) then some x else row_at rows id)
  row_at-append [] x zero = refl
  row_at-append [] x (suc zero) = refl
  row_at-append [] x (suc (suc i)) = ground arith
  row_at-append (r ∷ rows) x zero = ground arith
  row_at-append (r ∷ rows) x (suc zero) = ground arith
  row_at-append (r ∷ rows) x (suc (suc i)) = ground (arith, row_at-append rows x (suc i))

  page_bounded :
      (id_of : A → ℕ) (limit before_id : ℕ) (rows : List A)
      → (length (page id_of limit before_id rows) ≤ limit)
        × All (λ r. (before_id ≡ 0) ⊎ (id_of r < before_id)) (page id_of limit before_id rows)
  unfolding page
  page_bounded id_of zero before_id rows = (omega arith, tt)
  page_bounded id_of (suc limit) before_id [] = (omega arith, tt)
  page_bounded id_of (suc limit) before_id (r ∷ rows) = ground (
    arith,
    page_bounded id_of (suc limit) before_id rows,
    page_bounded id_of limit before_id rows,
  )

-- A recorded attempt is read back under the id that the call returns, which was free, with all it
-- was recorded with; every other id reads as before.
pub get_attempt-record_attempt :
    (m : Store) (a : AttemptRow) (id : ℕ)
    → let (new, m') = record_attempt m a in
      (get_attempt m new ≡ none)
      × (get_attempt m' id ≡ (if id == new then some (record a { id = new }) else get_attempt m id))
unfolding record_attempt get_attempt
get_attempt-record_attempt m a id = (get_elem?-length m.attempts, row_at-append m.attempts _ id)

-- A recorded payment is read back under the id that the call returns, which was free; every other
-- id reads as before.
pub get_payment-record_payment :
    (m : Store) (p : Payment) (id : ℕ)
    → let (new, m') = record_payment m p in
      (get_payment m new ≡ none)
      × (get_payment m' id ≡ (if id == new then some (record p { id = new }) else get_payment m id))
unfolding record_payment get_payment
get_payment-record_payment m p id = (get_elem?-length m.payments, row_at-append m.payments _ id)

-- A page holds at most `limit` attempts, all of them older than the one that it starts below.
pub list_attempts_bounded :
    (m : Store) (limit before_id : ℕ)
    → (length (list_attempts m limit before_id) ≤ limit)
      × All (λ a. (before_id ≡ 0) ⊎ (a.id < before_id)) (list_attempts m limit before_id)
unfolding list_attempts
list_attempts_bounded m limit before_id = page_bounded _ limit before_id (reverse m.attempts)
