-- ===== src/Gate/Mint.antt =====
-- lib/challenge.go and the challenge of lib/topup.go: what a gate offers for payment. Random bytes,
-- the invoice and the deposit address are the answers of one call; encoders are parameters. Times
-- are seconds. Of a challenge's extensions only the advertised lifetime of a token is kept.
mod Texts
mod Checks
pub mod Accepted
use dcr.Prelude.{
  ℕ, ◌+◌, ◌≡◌, Bool, true, false, ◌++◌, List, [], ◌∷◌, Option, none, some, if◌then◌else◌,
}
use dcr.Prelude.Int64.{ℤ, pos, leb_ℤ}
use dcr.Prelude.Bytes.{Bytes, codes, str_eq}
use dcr.GoText.{format_int, hex_encode}
use dcr.L402.{Crypto, Macaroon, Identifier, identifier_version, storage_key, mint}
use dcr.L402.Wire.{marshal_binary}
use dcr.L402.Credential.{services_caveat, valid_until_caveat, capabilities_caveat}
use dcr.Gate.{
  GateStore, Challenge, OnchainChallenge, put_challenge, put_onchain_challenge, put_root_key,
}
use dcr.Gate.X402.{Requirements}
use dcr.Gate.Settle.{Env}

-- The encoders of a challenge: the JSON of an entry and of its two kinds of `extra`.
pub record Encoders : Type 0 where
  pub base64_encode : Bytes → Bytes
  pub requirements : Requirements → Bytes
  pub lightning_extra : Bytes → Bytes → Bytes
  pub onchain_extra : ℤ → Bytes → Bytes

-- `Config`, as far as a challenge reads it. The lifetimes are in seconds.
pub record Config : Type 0 where
  pub env : Env
  pub crypto : Crypto
  pub encoders : Encoders
  pub pay_to : Bytes
  pub tier : ℤ
  pub capabilities : List Bytes
  pub token_ttl : ℕ
  pub challenge_ttl : ℕ

-- What one challenge is answered with: the node's invoice and its hash, and random bytes.
pub record Draw : Type 0 where
  pub now : ℕ
  pub invoice : Option (Bytes × Bytes)
  pub token_id : Bytes
  pub root_key : Bytes

-- What an on-chain entry takes besides: the wallet's address, and the random bytes of its credential.
pub record OnchainDraw : Type 0 where
  pub address : Option Bytes
  pub preimage : Bytes
  pub root_key : Bytes

-- `ResourceInfo` is its URL here.
pub record PaymentRequired : Type 0 where
  pub resource : Bytes
  pub accepts : List Requirements
  pub token_ttl_seconds : ℕ

pub record Artifacts : Type 0 where
  pub payment_required : PaymentRequired
  pub macaroon : Macaroon
  pub invoice : Bytes

abbrev pub payment_required_of : Option Artifacts × GateStore → Option PaymentRequired × GateStore
payment_required_of (none, m) = (none, m)
payment_required_of (some art, m) = (some art.payment_required, m)

module _ (cfg : Config) where
  -- The caveats of a new credential.
  unfoldable pub caveats_at : ℕ → List Bytes
  unfolding services_caveat valid_until_caveat capabilities_caveat
  caveats_at now =
      let last = valid_until_caveat cfg.env.service (pos (now + cfg.token_ttl)) ∷ [] in
      services_caveat cfg.env.service cfg.tier ∷ elim cfg.capabilities [
        | [] ↦ last
        | cap ∷ caps ↦ capabilities_caveat cfg.env.service (cap ∷ caps) ∷ last
      ]

  abbrev pub identifier : Bytes → Bytes → Identifier
  identifier payment_hash token_id = record {
    version = identifier_version;
    payment_hash = payment_hash;
    token_id = token_id;
  }

  -- `mintCredential`: the root key is stored under the hash of the identifier.
  unfoldable pub mint_credential :
      GateStore → Bytes → Bytes → Bytes → ℕ → (Macaroon × Bytes) × GateStore
  unfolding caveats_at
  mint_credential m payment_hash token_id root_key now =
      let id = identifier payment_hash token_id in
      let mac = mint cfg.crypto root_key id (caveats_at now) in
      (
        (mac, cfg.encoders.base64_encode (marshal_binary mac)),
        put_root_key m (storage_key cfg.crypto id) root_key,
      )

  abbrev pub bind_or : Bytes → Bytes → Bytes
  bind_or bind resource = if str_eq bind [] then resource else bind

  abbrev pub entry_for : ℤ → Bytes → Bytes → Requirements
  entry_for amount pay_to extra = record {
    scheme = codes "exact";
    network = cfg.env.network.caip2;
    amount = format_int amount;
    asset = codes "DCR";
    pay_to = pay_to;
    max_timeout_seconds = pos cfg.challenge_ttl;
    extra = extra;
  }

  abbrev pub lightning_entry : ℤ → Bytes → Bytes → Requirements
  lightning_entry amount invoice payment_hash =
      entry_for amount cfg.pay_to (cfg.encoders.lightning_extra invoice (hex_encode payment_hash))

  abbrev pub lightning_challenge :
      Bytes → ℤ → Bytes → Bytes → Bytes → Macaroon → Requirements → ℕ → Challenge
  lightning_challenge bind amount invoice payment_hash mac_b64 mac entry now = record {
    payment_hash = payment_hash;
    invoice = invoice;
    macaroon_b64 = mac_b64;
    root_key_id = cfg.crypto.sha256 mac.id;
    requirements = cfg.encoders.requirements entry;
    resource = bind;
    amount_atoms = amount;
    created_at = now;
    expires_at = now + cfg.challenge_ttl;
  }

  -- The Lightning half that both challenges share: mint, and store the challenge.
  unfoldable pub offer_lightning :
      GateStore → Bytes → ℤ → Bytes → Bytes → Draw → (Macaroon × Requirements) × GateStore
  unfolding mint_credential
  offer_lightning m bind amount invoice payment_hash w =
      let ((mac, mac_b64), m1) = mint_credential m payment_hash w.token_id w.root_key w.now in
      let entry = lightning_entry amount invoice payment_hash in
      (
        (mac, entry),
        put_challenge m1
            (lightning_challenge bind amount invoice payment_hash mac_b64 mac entry w.now),
      )

  abbrev pub artifacts : Bytes → List Requirements → Macaroon → Bytes → Artifacts
  artifacts resource accepts mac invoice = record {
    payment_required = record {
      resource = resource;
      accepts = accepts;
      token_ttl_seconds = cfg.token_ttl;
    };
    macaroon = mac;
    invoice = invoice;
  }

  -- `buildChallenge`: `none` for an error.
  unfoldable pub build_challenge :
      GateStore → Bytes → Bytes → ℤ → Draw → Option Artifacts × GateStore
  unfolding offer_lightning
  build_challenge m resource bind amount w =
      if leb_ℤ amount (pos 0) then (none, m) else elim w.invoice [
        | none ↦ (none, m)
        | some (invoice, payment_hash) ↦
            let ((mac, entry), m') =
              offer_lightning m (bind_or bind resource) amount invoice payment_hash w in
            (some (artifacts resource (entry ∷ []) mac invoice), m')
      ]

  -- `ChallengeBound`
  unfoldable pub challenge_bound :
      GateStore → Bytes → Bytes → ℤ → Draw → Option PaymentRequired × GateStore
  unfolding build_challenge
  challenge_bound m resource bind amount w =
      payment_required_of (build_challenge m resource bind amount w)

  -- `Challenge`
  unfoldable pub challenge : GateStore → Bytes → ℤ → Draw → Option PaymentRequired × GateStore
  unfolding challenge_bound
  challenge m resource amount w = challenge_bound m resource [] amount w

  -- The on-chain half of a top-up challenge, over the same token id.
  unfoldable pub offer_onchain :
      GateStore → Bytes → ℤ → ℤ → Bytes → ℕ → OnchainDraw → Option Requirements × GateStore
  unfolding mint_credential
  offer_onchain m bind amount confirmations token_id now w = elim w.address [
    | none ↦ (none, m)
    | some address ↦
        let ((mac, mac_b64), m1) =
          mint_credential m (cfg.crypto.sha256 w.preimage) token_id w.root_key now in
        let entry = entry_for amount address (cfg.encoders.onchain_extra confirmations mac_b64) in
        (
          some entry,
          put_onchain_challenge m1 (record {
            address = address;
            requirements = cfg.encoders.requirements entry;
            resource = bind;
            amount_atoms = amount;
            confirmations = confirmations;
            macaroon_b64 = mac_b64;
            root_key_id = cfg.crypto.sha256 mac.id;
            credential_preimage = hex_encode w.preimage;
            created_at = now;
            expires_at = now + cfg.challenge_ttl;
          }),
        )
  ]

  -- `buildTopupChallenge`: `onchain` is there where the gate has an on-chain backend. An error of
  -- the second half comes after the first half is stored.
  unfoldable pub build_topup_challenge :
      GateStore → Bytes → Bytes → ℤ → ℤ → Draw → Option OnchainDraw → Option Artifacts × GateStore
  unfolding offer_lightning offer_onchain
  build_topup_challenge m resource bind amount confirmations w onchain = elim w.invoice [
    | none ↦ (none, m)
    | some (invoice, payment_hash) ↦
        let key = bind_or bind resource in
        let ((mac, entry), m') = offer_lightning m key amount invoice payment_hash w in
        elim onchain [
          | none ↦ (some (artifacts resource (entry ∷ []) mac invoice), m')
          | some o ↦
              let (offered, m2) = offer_onchain m' key amount confirmations w.token_id w.now o in
              elim offered [
                | none ↦ (none, m2)
                | some entry_o ↦ (some (artifacts resource (entry ∷ entry_o ∷ []) mac invoice), m2)
              ]
        ]
  ]
