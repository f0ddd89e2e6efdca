-- ===== src/Policy/Compile/WellFormed.antt =====
-- What a policy that was compiled from a file satisfies.
use dcr.Prelude.{◌≡◌, ◌≢◌, refl, ◌∙◌, [], map, ◌⊎◌, Option, arith, inl, inr}
use dcr.Prelude.Int64.{ℤ, pos, ◌≤ℤ◌, ◌<ℤ◌, IsInt64}
use dcr.Prelude.Bytes.{Bytes, Bytes-discrete, codes, lookup}
use dcr.GoText.{trim_space}
use dcr.Policy.{
  default_deny, DestKind, domain, ln_node, dcr_address, other_kind, Attempt, Usage, Policy, Outcome,
  deny,
}
use dcr.Policy.Domain.{match_any}
use dcr.Policy.Amount.Exact.{parse_amount_bounds}
use dcr.Policy.Compile.{File, ok, read_mode, read_amount, read_ttl, set_of, compile, normal_name}
use dcr.Policy.Evaluate.{evaluate}
use dcr.Policy.Evaluate.Permitted.{MayPay}
use dcr.Policy.Evaluate.Sound.{evaluate_denies}

-- An amount of a limit, with zero for no limit.
abbrev IsAmount : ℤ → Type 0
IsAmount v = (pos 0 ≤ℤ v) × IsInt64 v

read_amount-IsAmount : (s : Bytes) (v : ℤ) → read_amount s ≡ ok v → IsAmount v
unfolding read_amount
read_amount-IsAmount s v e = ground (arith, parse_amount_bounds s v)

read_ttl_positive : (pd : Bytes → Option ℤ) (s : Bytes) (v : ℤ) → read_ttl pd s ≡ ok v → pos 0 <ℤ v
unfolding read_ttl
read_ttl_positive pd s v e = ground arith

pub record IsWellFormed (p : Policy) : Type 0 where
  pub cap : IsAmount p.max_per_payment_atoms
  pub daily : IsAmount p.daily_budget_atoms
  pub weekly : IsAmount p.weekly_budget_atoms
  pub threshold : IsAmount p.threshold_atoms
  pub ttl : pos 0 <ℤ p.approval_ttl

-- What each field of a compiled policy was read from.
record IsRead (pd : Bytes → Option ℤ) (f : File) (p : Policy) : Type 0 where
  mode : read_mode f.mode ≡ ok p.mode
  cap : read_amount f.max_per_payment ≡ ok p.max_per_payment_atoms
  daily : read_amount f.daily_budget ≡ ok p.daily_budget_atoms
  weekly : read_amount f.weekly_budget ≡ ok p.weekly_budget_atoms
  threshold : read_amount f.threshold ≡ ok p.threshold_atoms
  ttl : read_ttl pd f.ttl ≡ ok p.approval_ttl
  domains : p.allow_domains ≡ map normal_name f.allow_domains
  nodes : p.allow_ln_nodes ≡ set_of (map normal_name f.allow_ln_nodes)
  addresses : p.allow_dcr_addresses ≡ set_of (map trim_space f.allow_dcr_addresses)
  per_hour : p.max_payments_per_hour ≡ f.max_payments_per_hour

compile-IsRead :
    (pd : Bytes → Option ℤ) (f : File) (p : Policy) → compile pd f ≡ ok p → IsRead pd f p
unfolding compile
compile-IsRead pd f p e = ground arith

-- A policy that compiles has zero or more, within int64, for each of its four limits on amounts, and
-- an approval that does not expire at once. Its limit on the payments of an hour is unchecked: it is
-- the one of the file, also where that is negative.
pub compile-IsWellFormed :
    (pd : Bytes → Option ℤ) (f : File) (p : Policy)
    → compile pd f ≡ ok p
    → IsWellFormed p × (p.max_payments_per_hour ≡ f.max_payments_per_hour)
compile-IsWellFormed pd f p e =
    let r = compile-IsRead pd f p e in
    let amounts : IsWellFormed p = record {
      cap = read_amount-IsAmount f.max_per_payment p.max_per_payment_atoms r.cap;
      daily = read_amount-IsAmount f.daily_budget p.daily_budget_atoms r.daily;
      weekly = read_amount-IsAmount f.weekly_budget p.weekly_budget_atoms r.weekly;
      threshold = read_amount-IsAmount f.threshold p.threshold_atoms r.threshold;
      ttl = read_ttl_positive pd f.ttl p.approval_ttl r.ttl;
    } in
    (amounts, r.per_hour)

read_mode_default :
    (s : Bytes) → (s ≡ []) ⊎ (s ≡ codes "default-deny") → read_mode s ≡ ok default_deny
unfolding read_mode Bytes-discrete
read_mode_default s (inl e) = rw e
read_mode_default s (inr e) = rw e

nothing_listed :
    (p : Policy) (k : DestKind) (dest : Bytes)
    → p.mode ≡ default_deny
    → p.allow_domains ≡ []
    → p.allow_ln_nodes ≡ []
    → p.allow_dcr_addresses ≡ []
    → ¬ MayPay p k dest
unfolding match_any lookup
nothing_listed p domain dest em ed en ea h = h.1 em (rw ed)
nothing_listed p ln_node dest em ed en ea h = ground (arith, h em)
nothing_listed p dcr_address dest em ed en ea h = ground (arith, h em)
nothing_listed p (other_kind s) dest em ed en ea h = h

denied_of : (o : Outcome) → ¬ (o ≢ deny) → o ≡ deny
denied_of Outcome.deny h = refl
denied_of Outcome.allow h = absurd (h (λ e. cc))
denied_of Outcome.escalate h = absurd (h (λ e. cc))

-- A policy with the empty mode or "default-deny" and no allowlists pays nobody.
pub compile_fails_closed :
    (pd : Bytes → Option ℤ) (f : File) (p : Policy) (a : Attempt) (u : Usage)
    → compile pd f ≡ ok p
    → (f.mode ≡ []) ⊎ (f.mode ≡ codes "default-deny")
    → f.allow_domains ≡ []
    → f.allow_ln_nodes ≡ []
    → f.allow_dcr_addresses ≡ []
    → (evaluate p a u).outcome ≡ deny
unfolding set_of
compile_fails_closed pd f p a u e em ed en ea =
    let r = compile-IsRead pd f p e in
    let mode : p.mode ≡ default_deny = ground (arith, read_mode_default f.mode em, r.mode) in
    let nodes : p.allow_ln_nodes ≡ [] = r.nodes ∙ rw (en, set_of) refl in
    let addresses : p.allow_dcr_addresses ≡ [] = r.addresses ∙ rw (ea, set_of) refl in
    denied_of (evaluate p a u).outcome (λ h.
      nothing_listed p a.dest_kind a.dest mode (r.domains ∙ rw ed) nodes addresses
        ((evaluate_denies p a u).0 h).destination)
