-- ===== src/Gateway/Http/Gating.antt =====
-- What a request to a priced path must bring before it is forwarded.
use dcr.Prelude.{
  ◌≡◌, ◌⊎◌, inl, inr, refl, sym, subst, true, false, ◌∷◌, ◌++◌, Option, none, some, Option-cases,
  Bool-cases,
}
use dcr.Prelude.Int64.{ℤ, pos, ltb_ℤ}
use dcr.Prelude.Bytes.{Bytes, str_eq, lookup}
use dcr.GoText.Words.{to_upper}
use dcr.Ledger as Credits
use dcr.Ledger.{Ledger, charge}
use dcr.Ledger.Debit.{Pays, Repeats, charge-Pays}
use dcr.Gate.{GateStore}
use dcr.Gate.Settle.{Response, Proof}
use dcr.Gate.Mint.{Config, Draw}
use dcr.Gate.Serve.{
  PaymentId, Presented, Reply, served, already_settled, challenge, failed,
  payment_identifier_required, challenge_error, accepted, credential_of, serve,
}
use dcr.Gate.Serve.Order.{FirstUse, serve_runs_handler}
use dcr.Gate.Topup.{Books}
use dcr.Gate.Topup.Accounts.{
  done, CreditReply, runs, payment_required, unauthorized, insufficient_credits, charge_failed,
  credential_account, require_credits,
}
use dcr.Gate.Topup.Charges.{IsRefusal, require_credits_charges}
use dcr.Gateway.{Upstream, mode_credits, price_or}
use dcr.Gateway.Config.{Urls, clean_path}
use dcr.Gateway.Http.{
  HttpReply, forwarded, of_call, of_credits, HttpRequest, called, credit_called, priced,
  upstream_handler,
}

-- The replies with which the upstream is asked.
abbrev pub Reaches : HttpReply → Type 0
Reaches forwarded = Unit
Reaches (of_call (served x)) = Unit
Reaches (of_credits (runs total)) = Unit
Reaches _ = ⊥

served-Reaches :
    (reply : Reply) → Reaches (of_call reply) → (x : Option Response) × (reply ≡ served x)
served-Reaches (served x) f = (x, refl)
served-Reaches (already_settled r) f = absurd f
served-Reaches (challenge status art) f = absurd f
served-Reaches (failed reason art) f = absurd f
served-Reaches payment_identifier_required f = absurd f
served-Reaches challenge_error f = absurd f

refusal-Reaches : (reply : CreditReply) → IsRefusal reply → Reaches (of_credits reply) → ⊥
refusal-Reaches (runs total) no_run f = no_run
refusal-Reaches payment_required refused f = f
refusal-Reaches unauthorized refused f = f
refusal-Reaches (insufficient_credits a b c) refused f = f
refusal-Reaches charge_failed refused f = f

module _ (cfg : Config) (ids : PaymentId) (decode : Bytes → Option Presented) where
  module _ (b : Books) (r : HttpRequest) (w : Draw) where
    -- The account of an accepted credential covered the price and was debited it, or it had been
    -- charged before under the request's Idempotency-Key, and nothing is debited.
    abbrev pub ByCredits : ℤ → Books → Type 0
    ByCredits price b' =
        (l : Ledger) × (account : Bytes) × (total : ℤ) × (b.ledger ≡ some l)
        × (credential_account cfg b.store r.gated.authorization w.now ≡ done account)
        × ((charge l account price r.idempotency_key).0 ≡ Credits.ok total)
        × (let l' = (charge l account price r.idempotency_key).1 in
            Repeats l account r.idempotency_key l' ⊎ Pays l account price l')
        × (b' ≡ record {
          store = b.store;
          ledger = some (charge l account price r.idempotency_key).1;
        })

    -- A credential was accepted, or else a proof was used for the first time.
    abbrev pub ByCall : ℤ → Books → Type 0
    ByCall price b' =
        (b'.ledger ≡ b.ledger)
        × (((credential_of cfg ids decode b.store r.gated w.now ≡ accepted) × (b'.store ≡ b.store))
            ⊎ ((p : Proof) × FirstUse cfg.env b.store price w.now b'.store p))

    abbrev pub PaidBy : Bytes → ℤ → Books → Type 0
    PaidBy mode price b' =
        ((str_eq mode mode_credits ≡ true) × ByCredits price b')
        ⊎ ((str_eq mode mode_credits ≡ false) × ByCall price b')

    credits-ByCredits :
        (price : ℤ)
        → let z = require_credits cfg b r.gated.authorization price r.idempotency_key w.now in
          Reaches (credit_called z).0 → ByCredits price (credit_called z).1
    credits-ByCredits price f =
        let z = require_credits cfg b r.gated.authorization price r.idempotency_key w.now in
        elim (require_credits_charges cfg b r.gated.authorization price r.idempotency_key w.now) [
          | inl (l, account, total, has, accepts, paid, reply, after) ↦ (
            l,
            account,
            total,
            has,
            accepts,
            paid,
            charge-Pays l account price r.idempotency_key total paid,
            after,
          )
          | inr (refused, same) ↦ absurd (refusal-Reaches z.0 refused f)
        ]

    call-ByCall :
        (price : ℤ) (z : Reply × GateStore)
        → serve cfg ids decode b.store r.gated price w ≡ z
        → Reaches (called b z).0
        → ByCall price (called b z).1
    call-ByCall price (reply, m) e f =
        let (x, is_served) = served-Reaches reply f in
        let e' : serve cfg ids decode b.store r.gated price w ≡ (served x, m) = rw is_served at e in
        elim (serve_runs_handler cfg ids decode b.store m r.gated price w x e') [
          | inl (accepts, bare, same) ↦ (refl, inl (accepts, same))
          | inr (lacks, paid) ↦ (refl, inr paid)
        ]

    priced-PaidBy :
        (mode : Bytes) (price : ℤ)
        → Reaches (priced cfg ids decode mode price b r w).0
        → PaidBy mode price (priced cfg ids decode mode price b r w).1
    unfolding priced
    priced-PaidBy mode price = elim (Bool-cases (str_eq mode mode_credits)) [
      | inl credits ↦
          let same : priced cfg ids decode mode price b r w
              ≡ credit_called
                  (require_credits cfg b r.gated.authorization price r.idempotency_key w.now) =
            rw (credits, priced) refl in
          subst (λ (z : HttpReply × Books). Reaches z.0 → PaidBy mode price z.1) (sym same)
            (λ f. inl (credits, credits-ByCredits price f))
      | inr per_call ↦
          let same : priced cfg ids decode mode price b r w
              ≡ called b (serve cfg ids decode b.store r.gated price w) =
            rw (per_call, priced) refl in
          subst (λ (z : HttpReply × Books). Reaches z.0 → PaidBy mode price z.1) (sym same)
            (λ f.
              inr
                (per_call, call-ByCall price (serve cfg ids decode b.store r.gated price w) refl f))
    ]

  -- A request to an HTTP upstream reaches it in two cases only. Either no entry names its method and
  -- cleaned path and the upstream has no default price, and then nothing changes; or it is paid for at
  -- the price of its entry, else at the default price. In the credits mode the account of its
  -- credential covered the price and is debited it, or else the account had been charged before under
  -- the same Idempotency-Key, whatever was charged then, and nothing is debited. In the other mode its
  -- credential was accepted, or a payment was admitted for the price whose proof was used for the
  -- first time.
  pub upstream_handler-PaidBy :
      (urls : Urls) (u : Upstream) (b : Books) (r : HttpRequest) (w : Draw)
      → let (reply, b') = upstream_handler cfg ids decode urls u b r w in
        let entry = lookup (to_upper r.method ++ (b' ' ∷ clean_path urls r.path)) u.prices in
        Reaches reply
        → ((entry ≡ none) × (ltb_ℤ (pos 0) u.price_default ≡ false) × (b' ≡ b))
          ⊎ PaidBy b r w u.mode (price_or u.price_default entry) b'
  unfolding upstream_handler
  upstream_handler-PaidBy urls u b r w =
      elim (Option-cases (lookup (to_upper r.method ++ (b' ' ∷ clean_path urls r.path)) u.prices)) [
        | inr (price, named) ↦
            rw (named, upstream_handler) (λ f. inr (priced-PaidBy b r w u.mode price f))
        | inl unnamed ↦ elim (Bool-cases (ltb_ℤ (pos 0) u.price_default)) [
          | inl charged ↦
              rw (unnamed, upstream_handler, charged)
                (λ f. inr (priced-PaidBy b r w u.mode u.price_default f))
          | inr free ↦ rw (unnamed, upstream_handler, free) (λ f. inl (refl, refl, refl))
        ]
      ]
