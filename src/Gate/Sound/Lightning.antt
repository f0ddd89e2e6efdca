-- ===== src/Gate/Sound/Lightning.antt =====
-- What `verifyLightning` of lib/verify.go proves.
use dcr.Prelude.{
  ℕ, ◌≡◌, ◌∙◌, refl, sym, ap, true, not, [], Option, none, some, arith, Option-cases, Bool-cases,
  inl, inr, ◌≤◌,
}
use dcr.Prelude.Bytes.{Bytes, str_eq}
use dcr.GoText.{hex_decode, hex_encode}
use dcr.Gate.{GateStore, Challenge, get_challenge}
use dcr.Gate.X402.{Requirements}
use dcr.Gate.Verify.{
  Codecs, Network, LightningExtra, PaymentPayload, LightningPayload, Reason, Verified, ok, ◌>>=◌,
  check, the, hex_32, check_live, verify_lightning_proof, verify_lightning,
}
use dcr.Gate.Settle.{Env, Proof, lightning_proof}
use dcr.Gate.Sound.Inversion.{err-ne-ok, ok_first, verified_cases}

-- The payment hash of the accepted entry is that of a challenge of the gate which is still live, the
-- node says that its invoice is settled, the preimage of the payload opens the hash, and the payment
-- is settled under the hash of the challenge.
pub record LightningPaid (env : Env) (m : GateStore) (pp : PaymentPayload) (now : ℕ) (p : Proof)
    : Type 0 where
  pub extra : LightningExtra
  pub has_extra : env.codecs.lightning_extra pp.accepted.extra ≡ some extra
  pub hash : Bytes
  pub claimed : hex_decode extra.payment_hash ≡ some hash
  pub challenge : Challenge
  pub kept : get_challenge m hash ≡ some challenge
  pub live : now ≤ challenge.expires_at
  pub settled : env.lookup_invoice hash ≡ some true
  pub payload : LightningPayload
  pub given : env.codecs.lightning_payload pp.payload ≡ some payload
  pub preimage : Bytes
  pub decoded : hex_decode payload.preimage ≡ some preimage
  pub opens : env.codecs.sha256 preimage ≡ hash
  pub amount : p.amount_atoms ≡ challenge.amount_atoms
  pub settles : p.settle_key ≡ challenge.payment_hash
  pub reports : p.transaction ≡ hex_encode challenge.payment_hash

verify_lightning_proof-opens :
    (c : Codecs) (pp : PaymentPayload) (offered : Requirements) (net : Network)
    (extra : LightningExtra) (hash : Bytes) (pay : LightningPayload)
    → c.lightning_extra pp.accepted.extra ≡ some extra
    → hex_decode extra.payment_hash ≡ some hash
    → verify_lightning_proof c pp offered net none ≡ ok pay
    → (c.lightning_payload pp.payload ≡ some pay)
      × ((preimage : Bytes) × (hex_decode pay.preimage ≡ some preimage)
          × (c.sha256 preimage ≡ hash))
unfolding verify_lightning_proof
verify_lightning_proof-opens c pp offered net extra hash pay has_extra claims h =
    elim (Option-cases (hex_decode pay.preimage)) [
      | inl bad ↦ ground arith
      | inr (preimage, decodes) ↦ (ground arith, (preimage, decodes, ground arith))
    ]

check_live-ok :
    (m : GateStore) (now : ℕ) (hash : Bytes) (ch : Challenge) (u : Unit {0})
    → check_live m now hash ch ≡ ok u
    → now ≤ ch.expires_at
check_live-ok m now hash ch u e = ground arith

hex_32-ok : (o : Option Bytes) (raw : Bytes) → hex_32 o ≡ ok raw → o ≡ some raw
hex_32-ok none raw e = ground arith
hex_32-ok (some r) raw e = ground arith

-- What `verify_lightning` does once it has the payment hash.
Rest : Env → GateStore → PaymentPayload → ℕ → Bytes → Verified (Challenge × LightningPayload)
Rest env m pp now hash = do
  ch ← the (get_challenge m hash) Reason.unknown_payment_hash
  _ ← check_live m now hash ch
  offered ← the (env.codecs.requirements ch.requirements) Reason.unexpected_verify
  pay ← verify_lightning_proof env.codecs pp offered env.network none
  is_settled ← the (env.lookup_invoice hash) Reason.unexpected_verify
  _ ← check is_settled Reason.unexpected_verify
  ok (ch, pay)

known-LightningPaid :
    (env : Env) (m : GateStore) (pp : PaymentPayload) (now : ℕ) (ch : Challenge)
    (pay : LightningPayload) (extra : LightningExtra) (hash : Bytes)
    → env.codecs.lightning_extra pp.accepted.extra ≡ some extra
    → not (str_eq extra.payment_hash []) ≡ true
    → hex_32 (hex_decode extra.payment_hash) ≡ ok hash
    → Rest env m pp now hash ≡ ok (ch, pay)
    → LightningPaid env m pp now (lightning_proof env (ch, pay))
unfolding Rest
known-LightningPaid env m pp now ch pay extra hash has_extra named claims h =
    elim (Option-cases (get_challenge m hash)) [
      | inl unknown ↦ absurd (err-ne-ok _ (ch, pay) (rw (unknown, Rest) at h))
      | inr (ch', kept) ↦ elim (verified_cases (check_live m now hash ch')) [
        | inr (r, dead) ↦ absurd (err-ne-ok r (ch, pay) (rw (kept, dead, Rest) at h))
        | inl (u, alive) ↦ elim (Option-cases (env.codecs.requirements ch'.requirements)) [
          | inl bad ↦ absurd (err-ne-ok _ (ch, pay) (rw (kept, alive, bad, Rest) at h))
          | inr (offered, stored) ↦
              elim (verified_cases
                (verify_lightning_proof env.codecs pp offered env.network none)) [
                  | inr (r, wrong) ↦
                      absurd (err-ne-ok r (ch, pay) (rw (kept, alive, stored, wrong, Rest) at h))
                  | inl (pay', proves) ↦ elim (Option-cases (env.lookup_invoice hash)) [
                    | inl silent ↦ absurd (
                        err-ne-ok _ (ch, pay) (rw (kept, alive, stored, proves, silent, Rest) at h))
                    | inr (is_settled, answered) ↦ elim (Bool-cases is_settled) [
                      | inr open_still ↦ absurd (
                          err-ne-ok _ (ch, pay)
                            (rw (kept, alive, stored, proves, answered, open_still, Rest) at h))
                      | inl paid ↦
                          let same : ok (ch', pay') ≡ ok (ch, pay) =
                            rw (kept, alive, stored, proves, answered, paid, Rest) at h in
                          let same_challenge = ok_first (ch', pay') (ch, pay) same in
                          let claimed = hex_32-ok (hex_decode extra.payment_hash) hash claims in
                          let (given, (preimage, decoded, opens)) =
                            verify_lightning_proof-opens env.codecs pp offered env.network extra
                              hash pay' has_extra claimed proves in
                          record {
                            extra = extra;
                            has_extra = has_extra;
                            hash = hash;
                            claimed = claimed;
                            challenge = ch';
                            kept = kept;
                            live = check_live-ok m now hash ch' u alive;
                            settled = answered ∙ ap some paid;
                            payload = pay';
                            given = given;
                            preimage = preimage;
                            decoded = decoded;
                            opens = opens;
                            amount = ap (λ x. x.amount_atoms) (sym same_challenge);
                            settles = ap (λ x. x.payment_hash) (sym same_challenge);
                            reports = ap (λ x. hex_encode x.payment_hash) (sym same_challenge);
                          }
                    ]
                  ]
                ]
        ]
      ]
    ]

verify_lightning-Rest :
    (env : Env) (m : GateStore) (pp : PaymentPayload) (now : ℕ) (extra : LightningExtra)
    (hash : Bytes)
    → env.codecs.lightning_extra pp.accepted.extra ≡ some extra
    → not (str_eq extra.payment_hash []) ≡ true
    → hex_32 (hex_decode extra.payment_hash) ≡ ok hash
    → verify_lightning env.codecs m pp env.network now env.lookup_invoice ≡ Rest env m pp now hash
unfolding verify_lightning Rest
verify_lightning-Rest env m pp now extra hash has_extra named claims =
    rw (has_extra, named, claims, verify_lightning, Rest) refl

pub verify_lightning-LightningPaid :
    (env : Env) (m : GateStore) (pp : PaymentPayload) (now : ℕ) (ch : Challenge)
    (pay : LightningPayload)
    → verify_lightning env.codecs m pp env.network now env.lookup_invoice ≡ ok (ch, pay)
    → LightningPaid env m pp now (lightning_proof env (ch, pay))
unfolding verify_lightning
verify_lightning-LightningPaid env m pp now ch pay h =
    elim (Option-cases (env.codecs.lightning_extra pp.accepted.extra)) [
      | inl bad ↦ absurd (err-ne-ok _ (ch, pay) (rw (bad, verify_lightning) at h))
      | inr (extra, has_extra) ↦ elim (Bool-cases (not (str_eq extra.payment_hash []))) [
        | inr empty ↦ absurd (err-ne-ok _ (ch, pay) (rw (has_extra, empty, verify_lightning) at h))
        | inl named ↦ elim (verified_cases (hex_32 (hex_decode extra.payment_hash))) [
          | inr (r, e) ↦
              absurd (err-ne-ok r (ch, pay) (rw (has_extra, named, e, verify_lightning) at h))
          | inl (hash, claims) ↦
              known-LightningPaid env m pp now ch pay extra hash has_extra named claims
                (sym (verify_lightning-Rest env m pp now extra hash has_extra named claims) ∙ h)
        ]
      ]
    ]
