-- ===== src/Tests/Gates.antt =====
-- The gate's theorems on a gate with one on-chain challenge.
use dcr.Prelude.{
  ℕ, ◌≡◌, refl, true, [], ◌∷◌, ◌++◌, Option, none, some, length, take, drop, replicate, ◌==◌,
  if◌then◌else◌, take-append_left, drop-append_left,
}
use dcr.Prelude.Int64.{ℤ, pos, negsuc}
use dcr.Prelude.Bytes.{Bytes, Bytes-discrete, codes, lookup, insert}
use dcr.GoText.{hex_decode, hex_encode}
use dcr.L402.{decode_identifier, storage_key}
use dcr.L402.Wire.{
  marshal_binary, append_packet, append_varint, append_caveats, put_uvarint, uvarint,
  unmarshal_binary, unmarshal_body, parse_section, parse_packet, parse_caveats,
}
use dcr.Gate.{
  GateStore, OnchainChallenge, settle, new_memory, get_onchain_challenge, delete_root_key,
}
use dcr.Gate.X402.{null, Requirements, equal_semantic, json_value_equal, deep_equal}
use dcr.Gate.Verify.{Codecs, Network, PaymentPayload, ok, check_envelope, verify_onchain, read_txid}
use dcr.Gate.Settle.{
  Env, Response, Proof, admit, prove, settle_full, account_from_macaroon, response_for,
  onchain_proof, authorize_token,
}
use dcr.Gate.Once.{settles, run, settle_full_once, revoked_stays_revoked}
use dcr.Gate.Sound.{Paid, Priced, admit-Paid}
use dcr.Tests.Tokens.{crypto, token, identifier}

abbrev network : Network
network = record { caip2 = codes "bip122:298e"; hrp = codes "lndcr" }

abbrev pub entry : Requirements
entry = record {
  scheme = codes "exact";
  network = codes "bip122:298e";
  amount = codes "500";
  asset = codes "DCR";
  pay_to = codes "DsDeposit";
  max_timeout_seconds = pos 60;
  extra = codes "{}";
}

-- A transaction's id: 32 bytes in hexadecimal.
abbrev pub txid : Bytes
txid = replicate 64 b'a'

abbrev codecs : Codecs
codecs = record {
  sha256 = λ text. replicate 32 0;
  parse_json = λ text. some null;
  transfer_method = λ extra. codes "onchain";
  lightning_extra = λ extra. none;
  lightning_payload = λ payload. none;
  is_onchain_extra = λ extra. true;
  onchain_txid = λ payload. some payload;
  requirements = λ text. some entry;
  decode_invoice = λ invoice. none;
  base64_decode = λ text. some (marshal_binary token);
}

abbrev sign_of : ℤ → ℕ
sign_of (pos n) = 0
sign_of (negsuc n) = 1

abbrev size_of : ℤ → ℕ
size_of (pos n) = n
size_of (negsuc n) = n

abbrev int_of : ℕ → ℕ → ℤ
int_of s n = if s == 0 then pos n else negsuc n

abbrev write_receipt : Option Bytes → Bytes
write_receipt none = 0 ∷ []
write_receipt (some text) = 1 ∷ text

abbrev write_tail : Option (Bytes × ℤ) → Option Bytes → Bytes
write_tail none receipt = 0 ∷ write_receipt receipt
write_tail (some (value, until)) receipt =
    1 ∷ sign_of until ∷ size_of until ∷ length value ∷ (value ++ write_receipt receipt)

abbrev write_response : Response → Bytes
write_response r =
    length r.transaction
    ∷ length r.network
    ∷ length r.amount
    ∷ (r.transaction ++ (r.network ++ (r.amount ++ write_tail r.authorization r.receipt)))

abbrev read_receipt : Bytes → Option Bytes
read_receipt [] = none
read_receipt (f ∷ text) = if f == 0 then none else some text

abbrev read_auth : Bytes → Option (Bytes × ℤ) × Option Bytes
read_auth (sign ∷ size ∷ len ∷ rest) =
    (some (take len rest, int_of sign size), read_receipt (drop len rest))
read_auth _ = (none, none)

abbrev read_tail : Bytes → Option (Bytes × ℤ) × Option Bytes
read_tail [] = (none, none)
read_tail (f ∷ rest) = if f == 0 then (none, read_receipt rest) else read_auth rest

abbrev response_of : Bytes → Bytes → Bytes → Option (Bytes × ℤ) × Option Bytes → Option Response
response_of t n a (authorization, receipt) = some (record {
  transaction = t;
  network = n;
  amount = a;
  authorization = authorization;
  receipt = receipt;
})

read_tail-write_tail :
    (authorization : Option (Bytes × ℤ)) (receipt : Option Bytes)
    → read_tail (write_tail authorization receipt) ≡ (authorization, receipt)
read_tail-write_tail none none = refl
read_tail-write_tail none (some text) = refl
read_tail-write_tail (some (value, pos u)) none =
    rw (take-append_left value (write_receipt none), drop-append_left value (write_receipt none))
      refl
read_tail-write_tail (some (value, negsuc u)) none =
    rw (take-append_left value (write_receipt none), drop-append_left value (write_receipt none))
      refl
read_tail-write_tail (some (value, pos u)) (some text) =
    rw
      (
        take-append_left value (write_receipt (some text)),
        drop-append_left value (write_receipt (some text)),
      )
      refl
read_tail-write_tail (some (value, negsuc u)) (some text) =
    rw
      (
        take-append_left value (write_receipt (some text)),
        drop-append_left value (write_receipt (some text)),
      )
      refl

abbrev read_response : Bytes → Option Response
read_response (t ∷ n ∷ a ∷ body) =
    let after_t = drop t body in
    let after_n = drop n after_t in
    response_of (take t body) (take n after_t) (take a after_n) (read_tail (drop a after_n))
read_response _ = none

-- The length prefixes let a reader split the texts again.
pub read-write : (r : Response) → read_response (write_response r) ≡ some r
read-write r =
    let tail = write_tail r.authorization r.receipt in
    let rest = r.network ++ (r.amount ++ tail) in
    rw
      (
        take-append_left r.transaction rest,
        drop-append_left r.transaction rest,
        take-append_left r.network (r.amount ++ tail),
        drop-append_left r.network (r.amount ++ tail),
        take-append_left r.amount tail,
        drop-append_left r.amount tail,
        read_tail-write_tail r.authorization r.receipt,
      )
      refl

abbrev pub env : Env
env = record {
  codecs = codecs;
  responses = record {
    marshal = write_response;
    unmarshal = read_response;
    unmarshal-marshal = read-write;
    sign = λ url r now. none;
  };
  network = network;
  service = codes "api";
  lookup_invoice = λ hash. none;
  lookup_deposit = some (λ id address.
      some (record { found = true; amount_to_address_atoms = pos 500; confirmations = pos 3 }));
}

abbrev pub challenge : OnchainChallenge
challenge = record {
  address = codes "DsDeposit";
  requirements = codes "{}";
  resource = codes "/api";
  amount_atoms = pos 500;
  confirmations = pos 2;
  macaroon_b64 = codes "token";
  root_key_id = [];
  credential_preimage = codes "00";
  created_at = 1;
  expires_at = 100;
}

abbrev pub store : GateStore
store = record new_memory { onchain = (codes "DsDeposit", challenge) ∷ [] }

abbrev pub payload : PaymentPayload
payload = record { version = pos 2; resource = []; accepted = entry; payload = txid }

abbrev pub proof : Proof
proof = onchain_proof env (challenge, txid)

abbrev pub account : Bytes
account = hex_encode (replicate 32 7)

admits : admit env store payload (pos 400) 50 ≡ ok (proof, account)
unfolding admit prove check_envelope verify_onchain read_txid get_onchain_challenge equal_semantic
    json_value_equal deep_equal account_from_macaroon hex_decode lookup marshal_binary append_packet
    append_caveats append_varint put_uvarint uvarint unmarshal_binary unmarshal_body parse_section
    parse_packet parse_caveats decode_identifier Bytes-discrete
admits = refl

admit-Paid_example : Paid env store payload 50 proof × Priced (pos 400) proof
admit-Paid_example = admit-Paid env store payload (pos 400) 50 proof account admits

settle_full_once_example :
    let m' = run (settle_full env store payload (pos 400) 50).1 [] in
    settle_full env m' payload (pos 300) 60 ≡ (
      ok (record {
        response = response_for env payload proof 50;
        already = true;
        account_id = account;
        rail = proof.rail;
        external_ref = proof.external_ref;
        amount_atoms = proof.amount_atoms;
      }),
      m',
    )
unfolding admit prove check_envelope verify_onchain read_txid get_onchain_challenge equal_semantic
    json_value_equal deep_equal account_from_macaroon hex_decode lookup marshal_binary append_packet
    append_caveats append_varint put_uvarint uvarint unmarshal_binary unmarshal_body parse_section
    parse_packet parse_caveats decode_identifier settle_full settle run insert Bytes-discrete
settle_full_once_example =
    settle_full_once env store payload payload (pos 400) (pos 300) 50 60 proof proof account account
      [] refl refl refl refl

revoked_stays_revoked_example :
    authorize_token env crypto
      (run (delete_root_key store (storage_key crypto identifier)) (settles (codes "hash") [] ∷ []))
      (token ∷ [])
      (codes "00")
      7
    ≡ none
unfolding decode_identifier
revoked_stays_revoked_example =
    revoked_stays_revoked env crypto store token [] identifier (codes "00") 7
      (settles (codes "hash") [] ∷ []) refl tt
