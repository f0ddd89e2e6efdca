-- ===== src/L402.antt =====
-- lib/l402/l402.go: the credential. A macaroon's identifier names a payment, and its signature is a
-- chain of HMACs over the identifier and the caveats. SHA-256 and HMAC are parameters; what is
-- relied on is the length of their results.
pub mod Chain
pub mod Wire
pub mod Caveats
pub mod Headers
pub mod Credential
use dcr.Prelude.{
  ℕ, zero, suc, ◌+◌, ◌*◌, ◌/◌, ◌%◌, ◌≡◌, Bool, true, false, List, [], ◌∷◌, ◌++◌, length, take, drop,
  ◌==◌, if◌then◌else◌,
}
use dcr.Prelude.Bytes.{Bytes, str_eq}

pub record Crypto : Type 0 where
  pub sha256 : Bytes → Bytes
  pub hmac : Bytes → Bytes → Bytes
  pub length-sha256 : (text : Bytes) → length (sha256 text) ≡ 32
  pub length-hmac : (key text : Bytes) → length (hmac key text) ≡ 32

-- Go's errors, one for each message.
pub data L402Error : Type 0 where
  bad_identifier_size bad_identifier_version : L402Error
  bad_field_type bad_length field_past_end section_past_end : L402Error
  not_v2 bad_header third_party missing_identifier bad_signature trailing_bytes : L402Error
  malformed_caveat service_added service_refused capability_added capability_refused : L402Error
  bad_valid_until loosened token_expired no_services no_capabilities : L402Error
  signature_mismatch bad_preimage preimage_mismatch : L402Error
  malformed_parameter missing_parameter not_base64 malformed_credential not_hex : L402Error

pub data Result {ℓ} (A : Type ℓ) : Type ℓ where
  ok : A → Result A
  err : L402Error → Result A

infixl 5 ◌>>=◌
abbrev pub ◌>>=◌ {ℓ κ} : {A : Type ℓ} {B : Type κ} → Result A → (A → Result B) → Result B
ok a >>= f = f a
err e >>= f = err e

pub record Identifier : Type 0 where
  pub version : ℕ
  pub payment_hash : Bytes
  pub token_id : Bytes

abbrev pub identifier_size : ℕ
identifier_size = 66

abbrev pub identifier_version : ℕ
identifier_version = 0

-- `Encode`: two bytes of version, high byte first, the hash and the token id.
unfoldable pub encode : Identifier → Bytes
encode id = (id.version / 256) ∷ (id.version % 256) ∷ (id.payment_hash ++ id.token_id)

-- `binary.BigEndian.Uint16` of the first two bytes.
abbrev pub big_endian_16 : Bytes → ℕ
big_endian_16 (a ∷ b ∷ rest) = a * 256 + b
big_endian_16 _ = 0

unfoldable pub decode_identifier : Bytes → Result Identifier
decode_identifier raw =
    if length raw == identifier_size
    then (if big_endian_16 raw == identifier_version
        then ok (record {
          version = big_endian_16 raw;
          payment_hash = take 32 (drop 2 raw);
          token_id = take 32 (drop 34 raw);
        })
        else err bad_identifier_version)
    else err bad_identifier_size

pub record Macaroon : Type 0 where
  pub location : Bytes
  pub id : Bytes
  pub caveats : List Bytes
  pub signature : Bytes

module _ (crypto : Crypto) where
  -- `StorageKey`
  unfoldable pub storage_key : Identifier → Bytes
  storage_key id = crypto.sha256 (encode id)

  unfoldable pub extend_chain : Bytes → List Bytes → Bytes
  extend_chain sig [] = sig
  extend_chain sig (cav ∷ caveats) = extend_chain (crypto.hmac sig cav) caveats

  unfoldable pub chain : Bytes → Bytes → List Bytes → Bytes
  unfolding extend_chain
  chain root_key id caveats = extend_chain (crypto.hmac root_key id) caveats

  unfoldable pub mint : Bytes → Identifier → List Bytes → Macaroon
  unfolding chain
  mint root_key id caveats = record {
    location = [];
    id = encode id;
    caveats = caveats;
    signature = chain root_key (encode id) caveats;
  }

  unfoldable pub attenuate : Macaroon → Bytes → Macaroon
  attenuate m caveat = record m {
    signature = crypto.hmac m.signature caveat;
    caveats = m.caveats ++ (caveat ∷ []);
  }

  -- `hmac.Equal` is equality.
  unfoldable pub verify_signature : Bytes → Macaroon → Bool
  unfolding chain
  verify_signature root_key m = str_eq (chain root_key m.id m.caveats) m.signature
