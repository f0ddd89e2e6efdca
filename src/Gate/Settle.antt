-- ===== src/Gate/Settle.antt =====
-- lib/verify.go: `settleFull`, and `authorizeToken` of lib/gate.go. The response as JSON text is what
-- the store keeps; its codec is a parameter.
use dcr.Prelude.{
  ℕ, ◌≡◌, Bool, not, ◌&&◌, List, [], ◌∷◌, ◌++◌, Option, none, some, length, drop, if◌then◌else◌,
}
use dcr.Prelude.Int64.{ℤ, pos, ltb_ℤ}
use dcr.Prelude.Bytes.{Bytes, codes, str_eq}
use dcr.GoText.{has_prefix, parse_int, hex_encode, hex_decode, format_int}
use dcr.L402 as L402
use dcr.L402.{Crypto, Macaroon, Identifier, decode_identifier, storage_key}
use dcr.L402.Wire.{unmarshal_binary}
use dcr.L402.Caveats.{verify_token, caveat_valid_until_sfx}
use dcr.Gate.{GateStore, Challenge, OnchainChallenge, settle, get_root_key}
use dcr.Gate.Verify.{
  Codecs, Network, PaymentPayload, Deposit, LightningPayload, Verified, ok, err, ◌>>=◌, check, the,
  check_envelope, verify_lightning, verify_onchain, invalid_payload, invalid_requirements,
  unexpected_settle,
}

-- `SettlementResponse` of a settlement that went through. `authorization` is the l402 extension: the
-- header value and the time that the credential is valid until, with 0 where it is left out.
pub record Response : Type 0 where
  pub transaction : Bytes
  pub network : Bytes
  pub amount : Bytes
  pub authorization : Option (Bytes × ℤ)
  pub receipt : Option Bytes

-- What one settlement produces for the caller.
pub record Outcome : Type 0 where
  pub response : Response
  pub already : Bool
  pub account_id : Bytes
  pub rail : Bytes
  pub external_ref : Bytes
  pub amount_atoms : ℤ

-- The JSON text of a response decodes to it. `sign` is the offer-receipt extension of a resource's
-- URL and a response at a time; it gives `none` where the gate has no key for it.
pub record ResponseCodec : Type 0 where
  pub marshal : Response → Bytes
  pub unmarshal : Bytes → Option Response
  pub unmarshal-marshal : (r : Response) → unmarshal (marshal r) ≡ some r
  pub sign : Bytes → Response → ℕ → Option Bytes

-- What a gate is configured with, and what its rails answer.
pub record Env : Type 0 where
  pub codecs : Codecs
  pub responses : ResponseCodec
  pub network : Network
  pub service : Bytes
  pub lookup_invoice : Bytes → Option Bool
  pub lookup_deposit : Option (Bytes → Bytes → Option Deposit)

-- The parts of a settlement that the methods fill in.
pub record Proof : Type 0 where
  pub settle_key : Bytes
  pub rail : Bytes
  pub amount_atoms : ℤ
  pub external_ref : Bytes
  pub transaction : Bytes
  pub macaroon_b64 : Bytes
  pub preimage_hex : Bytes

abbrev pub of_l402 {ℓ} : {A : Type ℓ} → L402.Result A → Option A
of_l402 (L402.ok a) = some a
of_l402 (L402.err e) = none

abbrev pub macaroon_of : Option Bytes → Option Macaroon
macaroon_of none = none
macaroon_of (some raw) = of_l402 (unmarshal_binary raw)

abbrev pub account_of : Option Macaroon → Option Bytes
account_of none = none
account_of (some m) = elim (decode_identifier m.id) [
  | L402.err e ↦ none
  | L402.ok id ↦ some (hex_encode id.token_id)
]

-- The loop over the caveats: the last time that one of the service's caveats names.
unfoldable pub last_valid_until : Bytes → ℤ → List Bytes → ℤ
last_valid_until prefix until [] = until
last_valid_until prefix until (cav ∷ caveats) =
    last_valid_until prefix
      (if has_prefix cav prefix
        then elim (parse_int (drop (length prefix) cav)) [ none ↦ until | some ts ↦ ts ]
        else until)
      caveats

-- `if credUntil > 0`: another time is left out.
abbrev pub shown_until : ℤ → ℤ
shown_until until = if ltb_ℤ (pos 0) until then until else pos 0

module _ (env : Env) where
  -- `accountFromMacaroon`
  unfoldable pub account_from_macaroon : Bytes → Option Bytes
  account_from_macaroon mac_b64 = account_of (macaroon_of (env.codecs.base64_decode mac_b64))

  -- `credentialFor`
  unfoldable pub credential_for : Bytes → Bytes → Option (Bytes × ℤ)
  unfolding last_valid_until
  credential_for mac_b64 preimage_hex = elim (macaroon_of (env.codecs.base64_decode mac_b64)) [
    | none ↦ none
    | some m ↦ some (
      codes "L402 " ++ (mac_b64 ++ (b':' ∷ preimage_hex)),
      shown_until (
          last_valid_until (env.service ++ (caveat_valid_until_sfx ++ codes "=")) (pos 0)
            m.caveats),
    )
  ]

  abbrev pub lightning_proof : Challenge × LightningPayload → Proof
  lightning_proof (ch, pay) = record {
    settle_key = ch.payment_hash;
    rail = codes "lightning";
    amount_atoms = ch.amount_atoms;
    external_ref = codes "ln:" ++ hex_encode ch.payment_hash;
    transaction = hex_encode ch.payment_hash;
    macaroon_b64 = ch.macaroon_b64;
    preimage_hex = pay.preimage;
  }

  abbrev pub onchain_proof : OnchainChallenge × Bytes → Proof
  onchain_proof (oc, txid) = record {
    settle_key = env.codecs.sha256 (codes "dcr402/onchain/" ++ (txid ++ (b'/' ∷ oc.address)));
    rail = codes "onchain";
    amount_atoms = oc.amount_atoms;
    external_ref = codes "onchain:" ++ (txid ++ (b':' ∷ oc.address));
    transaction = txid;
    macaroon_b64 = oc.macaroon_b64;
    preimage_hex = oc.credential_preimage;
  }

  -- The switch on the transfer method.
  unfoldable pub prove : GateStore → PaymentPayload → ℕ → Verified Proof
  unfolding verify_lightning verify_onchain
  prove m pp now =
      let method = env.codecs.transfer_method pp.accepted.extra in
      if str_eq method (codes "lightning")
      then (do
        found ← verify_lightning env.codecs m pp env.network now env.lookup_invoice
        ok (lightning_proof found))
      else if str_eq method (codes "onchain")
      then (do
        found ← verify_onchain env.codecs m pp now env.lookup_deposit
        ok (onchain_proof found))
      else err invalid_payload

  abbrev pub bare_response : Proof → Response
  bare_response p = record {
    transaction = p.transaction;
    network = env.network.caip2;
    amount = format_int p.amount_atoms;
    authorization = credential_for p.macaroon_b64 p.preimage_hex;
    receipt = none;
  }

  unfoldable pub response_for : PaymentPayload → Proof → ℕ → Response
  response_for pp p now =
      let r = bare_response p in record r { receipt = env.responses.sign pp.resource r now }

  -- What `settleFull` does before it writes: the proof, the account, and the price of the resource
  -- (0 for none).
  unfoldable pub admit : GateStore → PaymentPayload → ℤ → ℕ → Verified (Proof × Bytes)
  unfolding check_envelope prove
  admit m pp required_atoms now = do
    _ ← check_envelope pp env.network
    p ← prove m pp now
    account ← the (account_from_macaroon p.macaroon_b64) unexpected_settle
    _ ←
        check (not (ltb_ℤ (pos 0) required_atoms && ltb_ℤ p.amount_atoms required_atoms))
          invalid_requirements
    ok (p, account)

  abbrev pub outcome_of : Proof → Bytes → Bool → Option Response → Verified Outcome
  outcome_of p account already none = err unexpected_settle
  outcome_of p account already (some response) = ok (record {
    response = response;
    already = already;
    account_id = account;
    rail = p.rail;
    external_ref = p.external_ref;
    amount_atoms = p.amount_atoms;
  })

  unfoldable pub settle_full : GateStore → PaymentPayload → ℤ → ℕ → Verified Outcome × GateStore
  unfolding admit
  settle_full m pp required_atoms now = elim (admit m pp required_atoms now) [
    | err e ↦ (err e, m)
    | ok (p, account) ↦
        let (answer, m') = settle m p.settle_key (env.responses.marshal (response_for pp p now)) in
        let (stored, already) = answer in
        (outcome_of p account already (env.responses.unmarshal stored), m')
  ]

  -- `authorizeToken`: the first macaroon of the stack decides. The account, or `none` for an error.
  unfoldable pub authorize_token : Crypto → GateStore → List Macaroon → Bytes → ℕ → Option Bytes
  authorize_token crypto m [] preimage_hex now = none
  authorize_token crypto m (mac ∷ more) preimage_hex now = elim (decode_identifier mac.id) [
    | L402.err e ↦ none
    | L402.ok id ↦ elim (get_root_key m (storage_key crypto id)) [
      | none ↦ none
      | some root_key ↦
          elim (verify_token crypto root_key mac (hex_decode preimage_hex)
            (record { service = env.service; capability = []; now = now })) [
              | L402.err e ↦ none
              | L402.ok _ ↦ some (hex_encode id.token_id)
            ]
    ]
  ]
