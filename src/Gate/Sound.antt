-- ===== src/Gate/Sound.antt =====
-- What a settlement proves: the price, and the evidence of the rail.
pub mod Inversion
pub mod Onchain
pub mod Lightning
use dcr.Prelude.{
  ℕ, ◌≡◌, ◌≢◌, ◌∙◌, refl, sym, ap, subst, true, false, not, ◌&&◌, [], Option, none, some, arith,
  Option-cases, Bool-cases, inl, inr, ◌⊎◌, ◌≤◌,
}
use dcr.Prelude.Int64.{ℤ, pos, ◌≤ℤ◌, ltb_ℤ, eq_of_parts}
use dcr.Prelude.Bytes.{Bytes, str_eq, codes}
use dcr.GoText.{hex_decode}
use dcr.Gate.{GateStore, Challenge, OnchainChallenge, get_challenge, get_onchain_challenge}
use dcr.Gate.X402.{Requirements, equal_semantic, int_eq}
use dcr.Gate.Verify.{
  Codecs, Network, LightningExtra, PaymentPayload, Deposit, LightningPayload, Reason, Verified, ok,
  err, ◌>>=◌, check, the, hex_32, check_deposit, check_live, verify_lightning_proof, check_envelope,
  verify_lightning, verify_onchain, read_txid,
}
use dcr.Gate.Settle.{
  Env, Proof, account_from_macaroon, prove, admit, lightning_proof, onchain_proof,
}
use dcr.Gate.Sound.Inversion.{err-ne-ok, int_eq-eq, ok_same, ok_first, ok_second, verified_cases}
use dcr.Gate.Sound.Onchain.{OnchainPaid, verify_onchain-OnchainPaid}
use dcr.Gate.Sound.Lightning.{LightningPaid, verify_lightning-LightningPaid}

-- The evidence of the rail that the payload names.
abbrev pub Paid : Env → GateStore → PaymentPayload → ℕ → Proof → Type 0
Paid env m pp now p =
    let rail = env.codecs.transfer_method pp.accepted.extra in
    ((str_eq rail (codes "lightning") ≡ true) × LightningPaid env m pp now p)
    ⊎ ((str_eq rail (codes "lightning") ≡ false)
        × (str_eq rail (codes "onchain") ≡ true)
        × OnchainPaid env m pp p)

prove-Paid :
    (env : Env) (m : GateStore) (pp : PaymentPayload) (now : ℕ) (p : Proof)
    → prove env m pp now ≡ ok p
    → Paid env m pp now p
unfolding prove
prove-Paid env m pp now p h =
    elim (Bool-cases (str_eq (env.codecs.transfer_method pp.accepted.extra) (codes "lightning"))) [
      | inl ln ↦
          elim (verified_cases
            (verify_lightning env.codecs m pp env.network now env.lookup_invoice)) [
              | inr (r, e) ↦ absurd (err-ne-ok r p (rw (ln, e, prove) at h))
              | inl ((ch, pay), e) ↦
                  let same : ok (lightning_proof env (ch, pay)) ≡ ok p = rw (ln, e, prove) at h in
                  inl (
                    ln,
                    subst (LightningPaid env m pp now) (ok_same _ p same)
                        (verify_lightning-LightningPaid env m pp now ch pay e),
                  )
            ]
      | inr other ↦
          elim (Bool-cases
            (str_eq (env.codecs.transfer_method pp.accepted.extra) (codes "onchain"))) [
              | inr neither ↦ absurd (err-ne-ok _ p (rw (other, neither, prove) at h))
              | inl oc ↦
                  elim (verified_cases (verify_onchain env.codecs m pp now env.lookup_deposit)) [
                    | inr (r, e) ↦ absurd (err-ne-ok r p (rw (other, oc, e, prove) at h))
                    | inl ((c, txid), e) ↦
                        let same : ok (onchain_proof env (c, txid)) ≡ ok p =
                          rw (other, oc, e, prove) at h in
                        inr (
                          other,
                          oc,
                          subst (OnchainPaid env m pp) (ok_same _ p same)
                              (verify_onchain-OnchainPaid env m pp now c txid e),
                        )
                  ]
            ]
    ]

-- The price of the resource is paid; 0 is no price.
abbrev pub Priced : ℤ → Proof → Type 0
Priced required p = not (ltb_ℤ (pos 0) required && ltb_ℤ p.amount_atoms required) ≡ true

-- A payment that the gate admits is paid for: at least the price of the resource, by the rail that
-- its accepted entry names. On Lightning, the payment hash of the entry is that of a live challenge
-- of the gate, the preimage that the payload decodes to opens this hash, the node says that the
-- invoice is settled, and the settlement key is the payment hash of the challenge. On chain, the
-- wallet found the transaction that the payload names, with the exact amount and the depth of the
-- challenge of the address that the entry pays to, and the settlement key is the hash of this
-- transaction and the challenge's address. The settled amount is that of the challenge.
pub admit-Paid :
    (env : Env) (m : GateStore) (pp : PaymentPayload) (required : ℤ) (now : ℕ) (p : Proof)
    (account : Bytes)
    → admit env m pp required now ≡ ok (p, account)
    → Paid env m pp now p × Priced required p
unfolding admit
admit-Paid env m pp required now p account h =
    elim (verified_cases (check_envelope pp env.network)) [
      | inr (r, e) ↦ absurd (err-ne-ok r (p, account) (rw (e, admit) at h))
      | inl (u, enveloped) ↦ elim (verified_cases (prove env m pp now)) [
        | inr (r, e) ↦ absurd (err-ne-ok r (p, account) (rw (enveloped, e, admit) at h))
        | inl (p', proves) ↦ elim (Option-cases (account_from_macaroon env p'.macaroon_b64)) [
          | inl e ↦ absurd (err-ne-ok _ (p, account) (rw (enveloped, proves, e, admit) at h))
          | inr (account', named) ↦
              elim (Bool-cases (not (ltb_ℤ (pos 0) required && ltb_ℤ p'.amount_atoms required))) [
                | inr cheap ↦
                    absurd
                      (err-ne-ok _ (p, account) (rw (enveloped, proves, named, cheap, admit) at h))
                | inl priced ↦
                    let same : ok (p', account') ≡ ok (p, account) =
                      rw (enveloped, proves, named, priced, admit) at h in
                    let same_proof = ok_first (p', account') (p, account) same in
                    subst (λ q. Paid env m pp now q × Priced required q) same_proof
                      (prove-Paid env m pp now p' proves, priced)
              ]
        ]
      ]
    ]
