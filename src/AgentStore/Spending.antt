-- ===== src/AgentStore/Spending.antt =====
-- `Usage` against the sum of the payments of a window.
use dcr.Prelude.{
  ℕ, ◌+◌, ◌*◌, Bool, true, false, ◌≤◌, ◌<◌, ◌≡◌, refl, ap, ◌∙◌, List, [], ◌∷◌, ◌++◌, arith, leb,
  if◌then◌else◌, All,
}
use dcr.Prelude.Int64.{ℤ, pos, pos_part, add64, ◌+ℤ◌, ◌≤ℤ◌, int64_half, wrap}
use dcr.Policy.{Usage}
use dcr.AgentStore.{Store, Payment, record_payment, usage, count_payment, count_payments}
use dcr.AgentStore.Calendar.{
  day_start, week_start, day_ns, week_start_bounds, day_of, week_of, leb-day_start, leb-week_start,
}

count_payments-append :
    (now : ℕ) (u : Usage) (ps : List Payment) (p : Payment)
    → count_payments now u (ps ++ (p ∷ [])) ≡ count_payment now (count_payments now u ps) p
unfolding count_payments
count_payments-append now u [] p = refl
count_payments-append now u (q ∷ ps) p = count_payments-append now (count_payment now u q) ps p

-- A payment that is recorded now counts at once: the usage of the same moment grows by its amount
-- in the day and in the week, and by one payment in the hour.
pub usage-record_payment :
    (m : Store) (p : Payment) (now : ℕ)
    → p.created_at ≡ now
    → 4 * day_ns ≤ now
    → let u = usage m now in
      let u' = usage (record_payment m p).1 now in
      (u'.day_atoms ≡ add64 u.day_atoms p.amount_atoms)
      × (u'.week_atoms ≡ add64 u.week_atoms p.amount_atoms)
      × (u'.hour_count ≡ add64 u.hour_count (pos 1))
unfolding usage record_payment count_payment
usage-record_payment m p now e h =
    rw count_payments-append (ground (arith, week_start_bounds now h))

-- The payments made at or after `from`, and what they add up to.
abbrev pub spent_since : ℕ → List Payment → ℕ
spent_since from [] = 0
spent_since from (p ∷ ps) =
    (if leb from p.created_at then pos_part p.amount_atoms else 0) + spent_since from ps

abbrev pub AllNonneg : List Payment → Type 0
AllNonneg = All (λ p. pos 0 ≤ℤ p.amount_atoms)

add_counted :
    (b : Bool) (u x : ℤ) (d : ℕ)
    → u ≡ pos d
    → pos 0 ≤ℤ x
    → d + (if b then pos_part x else 0) < int64_half
    → (if b then add64 u x else u) ≡ pos (d + (if b then pos_part x else 0))
unfolding wrap ◌+ℤ◌
add_counted true u x d e p h = rw e (ground arith)
add_counted false u x d e p h = e ∙ ap pos (omega arith)

count_payments_sums :
    (now d w : ℕ) (u : Usage) (ps : List Payment)
    → AllNonneg ps
    → u.day_atoms ≡ pos d
    → u.week_atoms ≡ pos w
    → d + spent_since (day_start now) ps < int64_half
    → w + spent_since (week_start now) ps < int64_half
    → ((count_payments now u ps).day_atoms ≡ pos (d + spent_since (day_start now) ps))
      × ((count_payments now u ps).week_atoms ≡ pos (w + spent_since (week_start now) ps))
unfolding count_payments
count_payments_sums now d w u [] h ed ew bd bw =
    (ed ∙ ap pos (omega arith), ew ∙ ap pos (omega arith))
count_payments_sums now d w u (p ∷ ps) h ed ew bd bw =
    let d' = d + (if leb (day_start now) p.created_at then pos_part p.amount_atoms else 0) in
    let w' = w + (if leb (week_start now) p.created_at then pos_part p.amount_atoms else 0) in
    let (a, b) =
      count_payments_sums now d' w' (count_payment now u p) ps h.1
        (add_counted _ u.day_atoms p.amount_atoms d ed h.0 (omega arith))
        (add_counted _ u.week_atoms p.amount_atoms w ew h.0 (omega arith)) (omega arith)
        (omega arith) in
    (a ∙ ap pos (omega arith), b ∙ ap pos (omega arith))

-- What was paid in the unit of time (a day, a week) with this number, or in a later one.
abbrev pub spent_from : (ℕ → ℕ) → ℕ → List Payment → ℕ
spent_from unit n [] = 0
spent_from unit n (p ∷ ps) =
    (if leb n (unit p.created_at) then pos_part p.amount_atoms else 0) + spent_from unit n ps

spent_since-spent_from :
    (from n : ℕ) (unit : ℕ → ℕ) (ps : List Payment)
    → ((t : ℕ) → leb from t ≡ leb n (unit t))
    → spent_since from ps ≡ spent_from unit n ps
spent_since-spent_from from n unit [] h = refl
spent_since-spent_from from n unit (p ∷ ps) h =
    rw (h p.created_at, spent_since-spent_from from n unit ps h) refl

-- The usage of a moment is exactly what was paid in its day and in its week, or later: days are
-- counted from 1970-01-01, a Thursday, and weeks go from Monday to Sunday. No amount is negative, the
-- moment is past the fourth day of 1970, and the sums fit int64.
pub usage_exact :
    (m : Store) (now : ℕ)
    → 4 * day_ns ≤ now
    → AllNonneg m.payments
    → spent_from day_of (day_of now) m.payments < int64_half
    → spent_from week_of (week_of now) m.payments < int64_half
    → ((usage m now).day_atoms ≡ pos (spent_from day_of (day_of now) m.payments))
      × ((usage m now).week_atoms ≡ pos (spent_from week_of (week_of now) m.payments))
unfolding usage
usage_exact m now late h bd bw =
    let days =
      spent_since-spent_from (day_start now) (day_of now) day_of m.payments (leb-day_start now) in
    let weeks =
      spent_since-spent_from (week_start now) (week_of now) week_of m.payments
        (λ t. leb-week_start now t late) in
    let (a, b) =
      count_payments_sums now 0 0 _ m.payments h refl refl (omega (arith, days))
        (omega (arith, weeks)) in
    (a ∙ ap pos (omega (arith, days)), b ∙ ap pos (omega (arith, weeks)))
