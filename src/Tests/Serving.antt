-- ===== src/Tests/Serving.antt =====
-- The theorems on serving and top-ups, on the gate with one on-chain challenge.
use dcr.Prelude.{
  ℕ, zero, suc, ◌<◌, ◌≡◌, ◌≢◌, ◌⊎◌, refl, true, false, [], ◌∷◌, Option, none, some, replicate,
  arith, All,
}
use dcr.Prelude.Int64.{ℤ, pos, wrap, ◌+ℤ◌}
use dcr.Prelude.Bytes.{Bytes, Bytes-discrete, codes, lookup, insert}
use dcr.GoText.{hex_decode, hex_encode, has_prefix, format_int, parse_int}
use dcr.L402.{decode_identifier}
use dcr.L402.Wire.{
  marshal_binary, append_packet, append_varint, append_caveats, put_uvarint, uvarint,
  unmarshal_binary, unmarshal_body, parse_section, parse_packet, parse_caveats,
}
use dcr.Ledger as Credits
use dcr.Ledger.{Ledger, new_memory, grant, balance}
use dcr.Gate.{GateStore, settle, get_onchain_challenge}
use dcr.Gate.X402.{equal_semantic, json_value_equal, deep_equal}
use dcr.Gate.Verify.{check_envelope, verify_onchain, read_txid}
use dcr.Gate.Settle.{
  Outcome, Proof, admit, prove, settle_full, account_from_macaroon, response_for, authorize_token,
  credential_for,
}
use dcr.Gate.Once.{settles, run}
use dcr.Gate.Mint.{Config, Draw, mint_credential}
use dcr.Gate.Mint.Accepted.{minted_accepted}
use dcr.Gate.Serve.{
  Request, PaymentId, Presented, accepted, serve, serve_payment, settle_and_reply, credential_of,
}
use dcr.Gate.Serve.Order.{FirstUse, serve_runs_handler}
use dcr.Gate.Topup.{already_credited, settle_topup}
use dcr.Gate.Topup.Once.{topup_credits_once, spent_proof_credits}
use dcr.Ledger.{charge}
use dcr.Tests.Tokens.{crypto}
use dcr.Tests.Gates.{env, store, payload, proof, account, read-write}

abbrev pub cfg : Config
cfg = record {
  env = env;
  crypto = crypto;
  encoders = record {
    base64_encode = λ text. text;
    requirements = λ entry. codes "{}";
    lightning_extra = λ invoice hash. codes "{}";
    onchain_extra = λ confirmations credential. codes "{}";
  };
  pay_to = codes "02ab";
  tier = pos 0;
  capabilities = [];
  token_ttl = 100;
  challenge_ttl = 60;
}

abbrev preimage : Bytes
preimage = replicate 32 5

fives : (n : ℕ) → All (λ b. b < 256) (replicate n 5)
fives zero = tt
fives (suc n) = (omega arith, fives n)

abbrev plain : ((false ≡ false) × (false ≡ false) × (false ≡ false)) × (false ≡ false)
plain = ((refl, refl, refl), refl)

abbrev pub token_id : Bytes
token_id = replicate 32 9

minted_accepted_example :
    let ((mac, mac_b64), m') =
      mint_credential cfg store (crypto.sha256 preimage) token_id (codes "root") 7 in
    authorize_token env crypto
      (run m' (settles (codes "hash") [] ∷ []))
      (mac ∷ [])
      (hex_encode preimage)
      50
    ≡ some (hex_encode token_id)
minted_accepted_example =
    minted_accepted cfg
      (record {
        named = (plain, (plain, (plain, tt)));
        tier = 0;
        tier_is = refl;
        no_capabilities = refl;
      })
      store preimage token_id (codes "root") [] 7 50 (settles (codes "hash") [] ∷ []) refl
      (fives 32) refl (omega arith) tt

abbrev used : GateStore
used = record store {
  settlements = (proof.settle_key, env.responses.marshal (response_for env payload proof 50)) ∷ [];
}

spent_proof_credits_example :
    (l' : Ledger) × (out : Outcome) × (total : ℤ) × (settle_topup cfg used new_memory payload 60
      ≡ (already_credited out total, record { store = used; ledger = some l' }))
    × (total ≡ pos 500)
    × (balance l' account ≡ total)
unfolding admit prove check_envelope verify_onchain read_txid get_onchain_challenge equal_semantic
    json_value_equal deep_equal account_from_macaroon hex_decode lookup marshal_binary append_packet
    append_caveats append_varint put_uvarint uvarint unmarshal_binary unmarshal_body parse_section
    parse_packet parse_caveats decode_identifier Bytes-discrete wrap ◌+ℤ◌ balance
spent_proof_credits_example =
    spent_proof_credits cfg used new_memory payload 60 proof account
      (env.responses.marshal (response_for env payload proof 50))
      (response_for env payload proof 50) refl refl (read-write (response_for env payload proof 50))
      (λ e. absurd cc) (omega arith) refl

abbrev pub settled_now : Outcome
settled_now = record {
  response = response_for env payload proof 50;
  already = false;
  account_id = account;
  rail = proof.rail;
  external_ref = proof.external_ref;
  amount_atoms = proof.amount_atoms;
}

abbrev settled_again : Outcome
settled_again = record {
  response = response_for env payload proof 50;
  already = true;
  account_id = account;
  rail = proof.rail;
  external_ref = proof.external_ref;
  amount_atoms = proof.amount_atoms;
}

topup_credits_once_example :
    let l1 =
      (grant new_memory settled_now.account_id settled_now.amount_atoms
        settled_now.external_ref).1 in
    let l' = Credits.run l1 [] in
    ((settle_topup cfg store new_memory payload 50).1.ledger ≡ some l1)
    × (settle_topup cfg used l' payload 60 ≡ (
      already_credited settled_again (balance l' settled_now.account_id),
      record { store = (settle_full env used payload (pos 0) 60).1; ledger = some l' },
    ))
unfolding admit prove check_envelope verify_onchain read_txid get_onchain_challenge equal_semantic
    json_value_equal deep_equal account_from_macaroon hex_decode lookup marshal_binary append_packet
    append_caveats append_varint put_uvarint uvarint unmarshal_binary unmarshal_body parse_section
    parse_packet parse_caveats decode_identifier Bytes-discrete settle_full settle settle_topup
    grant response_for hex_encode format_int credential_for insert has_prefix parse_int wrap ◌+ℤ◌
topup_credits_once_example =
    topup_credits_once cfg store used new_memory payload payload 50 60 settled_now settled_again
      (settle_topup cfg store new_memory payload 50).1 (pos 500) [] refl refl refl (omega arith)

-- A request with a proof and no credential.
abbrev pub request : Request
request = record {
  authorization = [];
  payment_signature = codes "proof";
  resource = codes "https://shop.org/api";
}

abbrev pub no_ids : PaymentId
no_ids = record { enabled = false; required = false }

abbrev pub presented : Bytes → Option Presented
presented text = some (record { payload = payload; payment_id = none })

abbrev pub draw : Draw
draw = record { now = 50; invoice = none; token_id = token_id; root_key = codes "root" }

serve_runs_handler_example :
    let m' = (serve cfg no_ids presented store request (pos 400) draw).1 in
    ((credential_of cfg no_ids presented store request 50 ≡ accepted)
      × (some settled_now.response ≡ none)
      × (m' ≡ store))
    ⊎ ((credential_of cfg no_ids presented store request 50 ≢ accepted)
        × ((p : Proof) × FirstUse env store (pos 400) 50 m' p))
unfolding admit prove check_envelope verify_onchain read_txid get_onchain_challenge equal_semantic
    json_value_equal deep_equal account_from_macaroon hex_decode lookup marshal_binary append_packet
    append_caveats append_varint put_uvarint uvarint unmarshal_binary unmarshal_body parse_section
    parse_packet parse_caveats decode_identifier Bytes-discrete settle_full settle serve
    serve_payment settle_and_reply credential_of response_for format_int credential_for has_prefix
    parse_int
serve_runs_handler_example =
    serve_runs_handler cfg no_ids presented store
      (serve cfg no_ids presented store request (pos 400) draw).1 request (pos 400) draw
      (some settled_now.response) refl
