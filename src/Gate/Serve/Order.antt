-- ===== src/Gate/Serve/Order.antt =====
-- Which of a request's credential and proof decides, and what runs the handler.
use dcr.Prelude.{
  ℕ, ◌≡◌, ◌≢◌, ◌⊎◌, inl, inr, refl, sym, subst, ap, Bool, true, false, [], Option, none, some,
  Option-cases, Bool-cases,
}
use dcr.Prelude.Int64.{ℤ}
use dcr.Prelude.Bytes.{Bytes, str_eq, lookup}
use dcr.Gate.{GateStore, settle}
use dcr.Gate.Verify.{PaymentPayload, Reason, invalid_payload, Verified, ok, err}
use dcr.Gate.Settle.{Env, Response, Outcome, Proof, admit, settle_full, outcome_of}
use dcr.Gate.Sound.Inversion.{verified_cases, err-ne-ok}
use dcr.Gate.Mint.{Config, Draw, Artifacts, build_challenge}
use dcr.Gate.Serve.{
  Request, PaymentId, Presented, Reply, served, already_settled, payment_identifier_required,
  IdCheck, id_ok, id_malformed, id_missing, check_id, Credential, no_credential, accepted, broken,
  challenge_or_error, respond_challenge, respond_failure, is_pending, reply_settled,
  settle_and_reply, serve_payment, credential_of, by_proof, serve,
}

-- The proof of the payment that a settlement was made with, which no settlement had used before.
abbrev pub FirstUse : Env → GateStore → ℤ → ℕ → GateStore → Proof → Type 0
FirstUse env m amount now m' p =
    (pp : PaymentPayload) × (account : Bytes) × (admit env m pp amount now ≡ ok (p, account))
    × (lookup p.settle_key m.settlements ≡ none)
    × (m' ≡ (settle_full env m pp amount now).1)

challenge_or_error-refuses :
    (cfg : Config) (ids : PaymentId) (decode : Bytes → Option Presented) (status : ℕ)
    (p : Option Artifacts × GateStore) (x : Option Response)
    → (challenge_or_error cfg ids decode status p).0 ≢ served x
challenge_or_error-refuses cfg ids decode status (none, m) x e = cc
challenge_or_error-refuses cfg ids decode status (some art, m) x e = cc

already_of : Verified Outcome → Bool
already_of (ok out) = out.already
already_of (err e) = true

outcome_of-already :
    (env : Env) (p : Proof) (account : Bytes) (o : Option Response) (out : Outcome)
    → outcome_of env p account true o ≡ ok out
    → out.already ≢ false
unfolding already_of
outcome_of-already env p account none out e new = cc
outcome_of-already env p account (some r) out e new =
    let same : true ≡ out.already = ap (λ v. already_of v) e in cc

-- A settlement that reports no earlier one is the first use of its proof.
pub settle_full-first :
    (env : Env) (m : GateStore) (pp : PaymentPayload) (amount : ℤ) (now : ℕ) (out : Outcome)
    → (settle_full env m pp amount now).0 ≡ ok out
    → out.already ≡ false
    → (p : Proof) × FirstUse env m amount now (settle_full env m pp amount now).1 p
unfolding settle_full settle
settle_full-first env m pp amount now out e new =
    elim (verified_cases (admit env m pp amount now)) [
      | inr (reason, refused) ↦
          let e' : err reason ≡ ok out = rw (refused, settle_full) at e in
          absurd (err-ne-ok reason out e')
      | inl ((p, account), admitted) ↦ elim (Option-cases (lookup p.settle_key m.settlements)) [
        | inl unused ↦ (p, (pp, account, admitted, unused, refl))
        | inr (prev, used) ↦
            let e' : outcome_of env p account true (env.responses.unmarshal prev) ≡ ok out =
              rw (admitted, settle_full, used, settle) at e in
            absurd (outcome_of-already env p account (env.responses.unmarshal prev) out e' new)
      ]
    ]

IdCheck-cases : (c : IdCheck) → (c ≡ id_ok) ⊎ ((c ≡ id_malformed) ⊎ (c ≡ id_missing))
IdCheck-cases id_ok = inl refl
IdCheck-cases id_malformed = inr (inl refl)
IdCheck-cases id_missing = inr (inr refl)

Credential-cases : (c : Credential) → (c ≡ accepted) ⊎ ((c ≡ broken) ⊎ (c ≡ no_credential))
Credential-cases accepted = inl refl
Credential-cases broken = inr (inl refl)
Credential-cases no_credential = inr (inr refl)

abbrev pair : Reply → GateStore → Reply × GateStore
pair a m = (a, m)

id_required-refuses : (x : Option Response) → payment_identifier_required ≢ served x
id_required-refuses x e = cc

same_result : (x y : Option Response) → served x ≡ served y → y ≡ x
same_result x y e = cc

module _ (cfg : Config) (ids : PaymentId) (decode : Bytes → Option Presented) where
  respond_challenge-refuses :
      (m : GateStore) (r : Request) (amount : ℤ) (status : ℕ) (w : Draw) (x : Option Response)
      → (respond_challenge cfg ids decode m r amount status w).0 ≢ served x
  unfolding respond_challenge
  respond_challenge-refuses m r amount status w x e =
      challenge_or_error-refuses cfg ids decode status
        (build_challenge cfg m r.resource [] amount w) x e

  respond_failure-refuses :
      (m : GateStore) (r : Request) (amount : ℤ) (reason : Reason) (w : Draw) (x : Option Response)
      → (respond_failure cfg ids decode m r amount reason w).0 ≢ served x
  unfolding respond_failure
  respond_failure-refuses m r amount reason w x e =
      elim (Bool-cases (is_pending cfg ids decode reason)) [
        | inl pending ↦ let e' = rw (pending, respond_failure) at e in cc
        | inr final ↦ let e' = rw (final, respond_failure) at e in cc
      ]

  -- What a payment leaves where the handler runs on it.
  abbrev PaidFor : GateStore → ℤ → Draw → Option Response → GateStore → Type 0
  PaidFor m amount w x m' = (p : Proof) × FirstUse cfg.env m amount w.now m' p

  reply_settled-serves :
      (out : Outcome) (x : Option Response)
      → reply_settled cfg ids decode out ≡ served x
      → out.already ≡ false
  reply_settled-serves out x e = elim (Bool-cases out.already) [
    | inr new ↦ new
    | inl again ↦ let e' : already_settled out.response ≡ served x = rw again at e in absurd cc
  ]

  settle_and_reply-serves :
      (m m' : GateStore) (r : Request) (amount : ℤ) (pp : PaymentPayload) (w : Draw)
      (x : Option Response)
      → settle_and_reply cfg ids decode m r amount pp w ≡ (served x, m')
      → PaidFor m amount w x m'
  unfolding settle_and_reply
  settle_and_reply-serves m m' r amount pp w x e =
      let s = settle_full cfg.env m pp amount w.now in
      elim (verified_cases s.0) [
        | inr (reason, refused) ↦
            let e' : respond_failure cfg ids decode s.1 r amount reason w ≡ (served x, m') =
              rw (refused, settle_and_reply) at e in
            absurd (respond_failure-refuses s.1 r amount reason w x (ap (λ z. z.0) e'))
        | inl (out, settled) ↦
            let e' : pair (reply_settled cfg ids decode out) s.1 ≡ pair (served x) m' =
              rw (settled, settle_and_reply) at e in
            subst (PaidFor m amount w x) (ap (λ (z : Reply × GateStore). z.1) e') (
              settle_full-first cfg.env m pp amount w.now out settled
                (reply_settled-serves out x (ap (λ (z : Reply × GateStore). z.0) e')))
      ]

  serve_payment-serves :
      (m m' : GateStore) (r : Request) (amount : ℤ) (w : Draw) (x : Option Response)
      → serve_payment cfg ids decode m r amount w ≡ (served x, m')
      → PaidFor m amount w x m'
  unfolding serve_payment
  serve_payment-serves m m' r amount w x e = elim (Option-cases (decode r.payment_signature)) [
    | inl unread ↦
        let e' : respond_failure cfg ids decode m r amount invalid_payload w ≡ (served x, m') =
          rw (unread, serve_payment) at e in
        absurd (respond_failure-refuses m r amount invalid_payload w x (ap (λ z. z.0) e'))
    | inr (p, read) ↦ elim (IdCheck-cases (check_id ids p.payment_id)) [
      | inl fine ↦
          settle_and_reply-serves m m' r amount p.payload w x (rw (read, fine, serve_payment) at e)
      | inr (inl malformed) ↦
          let e' : respond_failure cfg ids decode m r amount invalid_payload w ≡ (served x, m') =
            rw (read, malformed, serve_payment) at e in
          absurd (respond_failure-refuses m r amount invalid_payload w x (ap (λ z. z.0) e'))
      | inr (inr missing) ↦
          let e' : (payment_identifier_required, m) ≡ (served x, m') =
            rw (read, missing, serve_payment) at e in
          absurd (id_required-refuses x (ap (λ (z : Reply × GateStore). z.0) e'))
    ]
  ]

  by_proof-serves :
      (m m' : GateStore) (r : Request) (amount : ℤ) (status : ℕ) (w : Draw) (x : Option Response)
      → by_proof cfg ids decode m r amount status w ≡ (served x, m')
      → PaidFor m amount w x m'
  by_proof-serves m m' r amount status w x e = elim (Bool-cases (str_eq r.payment_signature [])) [
    | inl bare ↦
        let e' : respond_challenge cfg ids decode m r amount status w ≡ (served x, m') =
          rw bare at e in
        absurd (respond_challenge-refuses m r amount status w x (ap (λ z. z.0) e'))
    | inr signed ↦ serve_payment-serves m m' r amount w x (rw signed at e)
  ]

  -- The handler behind the gate runs in two cases only. Either the request's credential is accepted,
  -- and then nothing is consumed or stored, whatever proof comes with it; or it is not, and a payment
  -- was admitted for the price whose proof had not settled anything before.
  pub serve_runs_handler :
      (m m' : GateStore) (r : Request) (amount : ℤ) (w : Draw) (x : Option Response)
      → serve cfg ids decode m r amount w ≡ (served x, m')
      → ((credential_of cfg ids decode m r w.now ≡ accepted) × (x ≡ none) × (m' ≡ m))
        ⊎ ((credential_of cfg ids decode m r w.now ≢ accepted)
            × ((p : Proof) × FirstUse cfg.env m amount w.now m' p))
  unfolding serve
  serve_runs_handler m m' r amount w x e =
      elim (Credential-cases (credential_of cfg ids decode m r w.now)) [
        | inl accepts ↦
            let e' : (served none, m) ≡ (served x, m') = rw (accepts, serve) at e in
            inl (accepts, same_result none x (ap (λ z. z.0) e'), sym (ap (λ z. z.1) e'))
        | inr (inl breaks) ↦
            inr ((λ q. absurd cc), by_proof-serves m m' r amount 401 w x (rw (breaks, serve) at e))
        | inr (inr lacks) ↦
            inr ((λ q. absurd cc), by_proof-serves m m' r amount 402 w x (rw (lacks, serve) at e))
      ]
