-- ===== src/Gate/Sound/Onchain.antt =====
-- What `verifyOnchain` of lib/verify.go proves.
use dcr.Prelude.{
  ℕ, ◌≡◌, ◌∙◌, sym, ap, subst, true, ◌∷◌, ◌++◌, Option, some, arith, Option-cases, Bool-cases, inl,
  inr,
}
use dcr.Prelude.Int64.{◌≤ℤ◌}
use dcr.Prelude.Bytes.{Bytes, codes}
use dcr.Gate.{GateStore, OnchainChallenge, get_onchain_challenge}
use dcr.Gate.X402.{Requirements, equal_semantic}
use dcr.Gate.Verify.{Codecs, PaymentPayload, Deposit, ok, check_deposit, verify_onchain, read_txid}
use dcr.Gate.Settle.{Env, Proof, onchain_proof}
use dcr.Gate.Sound.Inversion.{err-ne-ok, int_eq-eq, ok_first, ok_second, verified_cases}

pub record Pays (dep : Deposit) (oc : OnchainChallenge) : Type 0 where
  pub found : dep.found ≡ true
  pub amount : dep.amount_to_address_atoms ≡ oc.amount_atoms
  pub depth : oc.confirmations ≤ℤ dep.confirmations

check_deposit-Pays :
    (dep : Deposit) (oc : OnchainChallenge) (now : ℕ) (u : Unit {0})
    → check_deposit dep oc now ≡ ok u
    → Pays dep oc
check_deposit-Pays dep oc now u e = record {
  found = ground arith;
  amount = int_eq-eq dep.amount_to_address_atoms oc.amount_atoms (ground arith);
  depth = ground arith;
}

-- The wallet found the transaction that the payload names, with the amount and the depth of the
-- challenge of the address that the accepted entry pays to, and this entry is the one offered.
pub record OnchainPaid (env : Env) (m : GateStore) (pp : PaymentPayload) (p : Proof) : Type 0 where
  pub challenge : OnchainChallenge
  pub kept : get_onchain_challenge m pp.accepted.pay_to ≡ some challenge
  pub offered : Requirements
  pub stored : env.codecs.requirements challenge.requirements ≡ some offered
  pub echoed : equal_semantic env.codecs.parse_json pp.accepted offered ≡ true
  pub lookup : Bytes → Bytes → Option Deposit
  pub backend : env.lookup_deposit ≡ some lookup
  pub deposit : Deposit
  pub answered : lookup p.transaction challenge.address ≡ some deposit
  pub pays : Pays deposit challenge
  pub amount : p.amount_atoms ≡ challenge.amount_atoms
  pub named : env.codecs.onchain_txid pp.payload ≡ some p.transaction
  pub settles :
      p.settle_key
      ≡ env.codecs.sha256 (codes "dcr402/onchain/" ++ (p.transaction ++ (b'/' ∷ challenge.address)))

read_txid-ok :
    (c : Codecs) (pp : PaymentPayload) (t : Bytes)
    → read_txid c pp ≡ ok t
    → c.onchain_txid pp.payload ≡ some t
unfolding read_txid
read_txid-ok c pp t e = ground arith

-- The steps of `verify_onchain` behind the transaction's id.
deposit-OnchainPaid :
    (env : Env) (m : GateStore) (pp : PaymentPayload) (now : ℕ) (oc : OnchainChallenge)
    (txid t : Bytes) (oc' : OnchainChallenge) (offered : Requirements)
    (lookup : Bytes → Bytes → Option Deposit) (deposit : Deposit)
    → read_txid env.codecs pp ≡ ok t
    → get_onchain_challenge m pp.accepted.pay_to ≡ some oc'
    → env.codecs.requirements oc'.requirements ≡ some offered
    → equal_semantic env.codecs.parse_json pp.accepted offered ≡ true
    → env.lookup_deposit ≡ some lookup
    → lookup t oc'.address ≡ some deposit
    → verify_onchain env.codecs m pp now env.lookup_deposit ≡ ok (oc, txid)
    → OnchainPaid env m pp (onchain_proof env (oc, txid))
unfolding verify_onchain
deposit-OnchainPaid env m pp now oc txid t oc' offered lookup deposit read kept stored echoed
      backend answered h =
    let h' = rw (read, kept, stored, echoed, backend, answered, verify_onchain) at h in
    elim (verified_cases (check_deposit deposit oc' now)) [
      | inr (r, fails) ↦ absurd (err-ne-ok r (oc, txid) (rw fails at h'))
      | inl (u, passed) ↦
          let same : ok (oc', t) ≡ ok (oc, txid) = rw passed at h' in
          let same_challenge = ok_first (oc', t) (oc, txid) same in
          let same_txid = ok_second (oc', t) (oc, txid) same in
          record {
            challenge = oc';
            kept = kept;
            offered = offered;
            stored = stored;
            echoed = echoed;
            lookup = lookup;
            backend = backend;
            deposit = deposit;
            answered = subst (λ x. lookup x oc'.address ≡ some deposit) same_txid answered;
            pays = check_deposit-Pays deposit oc' now u passed;
            amount = ap (λ x. x.amount_atoms) (sym same_challenge);
            named = read_txid-ok env.codecs pp t read ∙ ap some same_txid;
            settles =
                ap
                  (λ (x : OnchainChallenge).
                    env.codecs.sha256 (codes "dcr402/onchain/" ++ (txid ++ (b'/' ∷ x.address))))
                  (sym same_challenge);
          }
    ]

pub verify_onchain-OnchainPaid :
    (env : Env) (m : GateStore) (pp : PaymentPayload) (now : ℕ) (oc : OnchainChallenge)
    (txid : Bytes)
    → verify_onchain env.codecs m pp now env.lookup_deposit ≡ ok (oc, txid)
    → OnchainPaid env m pp (onchain_proof env (oc, txid))
unfolding verify_onchain
verify_onchain-OnchainPaid env m pp now oc txid h =
    elim (verified_cases (read_txid env.codecs pp)) [
      | inr (r, unread) ↦ absurd (err-ne-ok r (oc, txid) (rw (unread, verify_onchain) at h))
      | inl (t, read) ↦ elim (Option-cases (get_onchain_challenge m pp.accepted.pay_to)) [
        | inl unknown ↦ absurd (err-ne-ok _ (oc, txid) (rw (read, unknown, verify_onchain) at h))
        | inr (oc', kept) ↦ elim (Option-cases (env.codecs.requirements oc'.requirements)) [
          | inl unreadable ↦
              absurd (err-ne-ok _ (oc, txid) (rw (read, kept, unreadable, verify_onchain) at h))
          | inr (offered, stored) ↦
              elim (Bool-cases (equal_semantic env.codecs.parse_json pp.accepted offered)) [
                | inr differs ↦
                    absurd (
                      err-ne-ok _ (oc, txid)
                        (rw (read, kept, stored, differs, verify_onchain) at h))
                | inl echoed ↦ elim (Option-cases env.lookup_deposit) [
                  | inl none_set ↦ absurd (
                      err-ne-ok _ (oc, txid)
                        (rw (read, kept, stored, echoed, none_set, verify_onchain) at h))
                  | inr (lookup, backend) ↦ elim (Option-cases (lookup t oc'.address)) [
                    | inl silent ↦ absurd (
                        err-ne-ok _ (oc, txid)
                          (rw (read, kept, stored, echoed, backend, silent, verify_onchain) at h))
                    | inr (deposit, answered) ↦
                        deposit-OnchainPaid env m pp now oc txid t oc' offered lookup deposit read
                          kept stored echoed backend answered h
                  ]
                ]
              ]
        ]
      ]
    ]
