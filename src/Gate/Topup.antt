-- ===== src/Gate/Topup.antt =====
-- lib/topup.go: the top-up endpoint. A gate may have no ledger. `Resource` of the options is the
-- resource of the request; the JSON bodies and the headers of a reply are named by its constructors.
pub mod Once
pub mod Accounts
pub mod Charges
use dcr.Prelude.{ℕ, Bool, true, false, ◌||◌, List, [], ◌∷◌, Option, none, some, if◌then◌else◌}
use dcr.Prelude.Int64.{ℤ, pos, leb_ℤ, ltb_ℤ}
use dcr.Prelude.Bytes.{Bytes, str_eq}
use dcr.GoText.{parse_int, trim_space}
use dcr.L402 as L402
use dcr.L402.{Macaroon}
use dcr.L402.Headers.{parse_authorization}
use dcr.Ledger as Credits
use dcr.Ledger.{Ledger, LedgerError, insufficient_balance, grant, charge, balance}
use dcr.Gate.{GateStore}
use dcr.Gate.Verify.{PaymentPayload, Reason, invalid_payload, Verified, ok, err}
use dcr.Gate.Settle.{Response, Outcome, settle_full, authorize_token}
use dcr.Gate.Mint.{
  Config, Draw, OnchainDraw, PaymentRequired, Artifacts, payment_required_of, build_topup_challenge,
}
use dcr.Gate.Serve.{Request, PaymentId, Presented, Reply, respond_failure}

-- The state: the gate's store, and its ledger where it has one.
pub record Books : Type 0 where
  pub store : GateStore
  pub ledger : Option Ledger

pub record TopupOptions : Type 0 where
  pub min_atoms : ℤ
  pub max_atoms : ℤ
  pub default_atoms : ℤ
  pub confirmations : ℤ

abbrev pub or_default : ℤ → ℤ → ℤ
or_default n fallback = if leb_ℤ n (pos 0) then fallback else n

unfoldable pub fill : TopupOptions → TopupOptions
fill o = record {
  min_atoms = or_default o.min_atoms (pos 100000);
  max_atoms = or_default o.max_atoms (pos 1000000000);
  default_atoms = or_default o.default_atoms (pos 1000000);
  confirmations = or_default o.confirmations (pos 2);
}

pub data TopupReply : Type 0 where
  no_ledger : TopupReply
  invalid_atoms : TopupReply
  out_of_bounds : ℤ → ℤ → TopupReply
  challenge_failed : TopupReply
  offered : ℤ → Artifacts → TopupReply
  unreadable : Reply → TopupReply
  not_verified : Reason → TopupReply
  grant_failed : LedgerError → TopupReply
  credited : Outcome → ℤ → TopupReply
  already_credited : Outcome → ℤ → TopupReply

abbrev pub positive_atoms : Option ℤ → Option ℤ
positive_atoms none = none
positive_atoms (some n) = if leb_ℤ n (pos 0) then none else some n

-- The amount of a request, 0 characters where it names none.
abbrev pub atoms_of : TopupOptions → Bytes → Option ℤ
atoms_of opts value =
    if str_eq value [] then some opts.default_atoms else positive_atoms (parse_int value)

abbrev pub status_of : Outcome → ℤ → Bool → TopupReply
status_of out total known =
    if out.already || known then already_credited out total else credited out total

-- What a grant leaves, and what is replied to it.
abbrev pub granted : GateStore → Outcome → Credits.Result (ℤ × Bool) × Ledger → TopupReply × Books
granted m out (Credits.err e, l) = (grant_failed e, record { store = m; ledger = some l })
granted m out (Credits.ok (total, known), l) =
    (status_of out total known, record { store = m; ledger = some l })

module _ (cfg : Config) where
  -- `serveTopupSettlement` of a payload that decodes: there is no least amount.
  unfoldable pub settle_topup : GateStore → Ledger → PaymentPayload → ℕ → TopupReply × Books
  unfolding settle_full grant
  settle_topup m l pp now =
      let (answer, m') = settle_full cfg.env m pp (pos 0) now in
      elim answer [
        | err reason ↦ (not_verified reason, record { store = m'; ledger = some l })
        | ok out ↦ granted m' out (grant l out.account_id out.amount_atoms out.external_ref)
      ]

  abbrev pub refused_topup : Ledger → Reply × GateStore → TopupReply × Books
  refused_topup l (reply, m) = (unreadable reply, record { store = m; ledger = some l })

  -- `serveTopupSettlement`
  unfoldable pub serve_topup_settlement :
      PaymentId
      → (Bytes → Option Presented)
      → GateStore
      → Ledger
      → Request
      → Draw
      → TopupReply × Books
  unfolding settle_topup respond_failure
  serve_topup_settlement ids decode m l r w = elim (decode r.payment_signature) [
    | none ↦ refused_topup l (respond_failure cfg ids decode m r (pos 0) invalid_payload w)
    | some p ↦ settle_topup m l p.payload w.now
  ]

  abbrev pub challenge_or_failed : ℤ → Ledger → Option Artifacts × GateStore → TopupReply × Books
  challenge_or_failed atoms l (none, m) = (challenge_failed, record { store = m; ledger = some l })
  challenge_or_failed atoms l (some art, m) =
      (offered atoms art, record { store = m; ledger = some l })

  -- The part of `Topup` that answers with a challenge.
  unfoldable pub offer_topup :
      TopupOptions
      → GateStore
      → Ledger
      → Request
      → Bytes
      → Draw
      → Option OnchainDraw
      → TopupReply × Books
  unfolding build_topup_challenge
  offer_topup opts m l r value w onchain = elim (atoms_of opts value) [
    | none ↦ (invalid_atoms, record { store = m; ledger = some l })
    | some atoms ↦
        if ltb_ℤ atoms opts.min_atoms || ltb_ℤ opts.max_atoms atoms
        then (out_of_bounds opts.min_atoms opts.max_atoms, record { store = m; ledger = some l })
        else challenge_or_failed atoms l
            (build_topup_challenge cfg m r.resource [] atoms opts.confirmations w onchain)
  ]

  -- `Topup`; `value` is the form value `atoms`.
  unfoldable pub topup :
      PaymentId
      → (Bytes → Option Presented)
      → TopupOptions
      → Books
      → Request
      → Bytes
      → Draw
      → Option OnchainDraw
      → TopupReply × Books
  unfolding serve_topup_settlement offer_topup fill
  topup ids decode opts b r value w onchain = elim b.ledger [
    | none ↦ (no_ledger, b)
    | some l ↦
        if str_eq r.payment_signature []
        then offer_topup (fill opts) b.store l r value w onchain
        else serve_topup_settlement ids decode b.store l r w
  ]

  -- `TopupChallengeBound`
  unfoldable pub topup_challenge_bound :
      GateStore
      → Bytes
      → Bytes
      → ℤ
      → ℤ
      → Draw
      → Option OnchainDraw
      → Option PaymentRequired × GateStore
  unfolding build_topup_challenge
  topup_challenge_bound m resource bind amount confirmations w onchain = payment_required_of (
      build_topup_challenge cfg m resource bind amount (or_default confirmations (pos 2)) w onchain)

  -- `TopupChallenge`
  unfoldable pub topup_challenge :
      GateStore → Bytes → ℤ → ℤ → Draw → Option OnchainDraw → Option PaymentRequired × GateStore
  unfolding topup_challenge_bound
  topup_challenge m resource amount confirmations w onchain =
      topup_challenge_bound m resource [] amount confirmations w onchain
