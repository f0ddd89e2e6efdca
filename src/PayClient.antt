-- ===== src/PayClient.antt =====
-- agent/payclient/payclient.go: the client side of a paid HTTP request. What it is wired to (the
-- credential cache, the policy hook and the Lightning rail) is a record of operations on a state; the
-- decoders and the server are parameters. Times are nanoseconds since 1970, and a call has one.
pub mod Challenge
pub mod Fetch
pub mod Contract
use dcr.Prelude.{ℕ, Bool, List, Option}
use dcr.Prelude.Int64.{ℤ}
use dcr.Prelude.Bytes.{Bytes}
use dcr.Policy.{Attempt}
use dcr.AgentStore.{Token}
use dcr.Gate.X402.{Requirements}
use dcr.Gate.Verify.{LightningExtra}

pub record FetchOptions : Type 0 where
  pub method : Bytes
  pub body : Bytes
  pub content_type : Bytes
  pub memo : Bytes
  pub max_amount_atoms : ℤ
  pub force_legacy : Bool

pub data Rail : Type 0 where
  free cached x402 l402 : Rail

pub record Request : Type 0 where
  pub method : Bytes
  pub url : Bytes
  pub body : Bytes
  pub content_type : Bytes
  pub authorization : Bytes
  pub payment_signature : Bytes

-- A response: its status, the headers that the client reads, and its body.
pub record Response : Type 0 where
  pub status : ℕ
  pub payment_required : Bytes
  pub www_authenticate : List Bytes
  pub payment_response : Bytes
  pub body : Bytes

-- `Result`; the receipt is not kept.
pub record FetchResult : Type 0 where
  pub status : ℕ
  pub body : Bytes
  pub rail : Option Rail
  pub paid_atoms : ℤ
  pub fee_atoms : ℤ
  pub invoice : Bytes
  pub preimage : Bytes
  pub attempt_id : ℕ
  pub token_cached : Bool

-- `challenge`. The resource and the extensions are kept as they came.
pub record PayChallenge : Type 0 where
  pub rail : Rail
  pub invoice : Bytes
  pub amount_atoms : ℤ
  pub destination : Bytes
  pub payment_hash : Bytes
  pub description : Bytes
  pub entry : Option Requirements
  pub resource : Bytes
  pub extensions : Bytes
  pub macaroon_b64 : Bytes

pub data ChallengeError : Type 0 where
  undecodable_header unsupported_version wrong_network bad_extra bad_invoice : ChallengeError
  bad_amount hash_differs pay_to_differs amount_differs no_lightning_entry : ChallengeError
  bad_l402 no_challenge no_amount : ChallengeError

-- Why a fetch stopped; `E` is what the policy hook answers.
pub data FetchError (E : Type 0) : Type 0 where
  invalid_url no_answer above_guard no_gate : FetchError E
  bad_challenge : ChallengeError → FetchError E
  gate_error : E → FetchError E
  payment_failed encode_failed retry_failed : FetchError E
  unexpected_status paid_but_refused : ℕ → FetchError E

-- The answer of the policy hook: the recorded attempt's id to go on with, or an error.
pub data Admission (E : Type 0) : Type 0 where
  proceed : ℕ → Admission E
  refuse : E → Admission E

-- An invoice as zpay32 decodes it: the amount is a uint64 of milli-atoms.
pub record RawInvoice : Type 0 where
  pub milli_at : Option ℕ
  pub destination : Option Bytes
  pub payment_hash : Option Bytes
  pub description : Option Bytes

-- `ln.Invoice`, as far as the client reads it.
pub record Invoice : Type 0 where
  pub amount_atoms : ℤ
  pub amount_matoms : ℤ
  pub destination : Bytes
  pub payment_hash : Bytes
  pub description : Bytes

-- The x402 challenge object.
pub record PaymentRequired : Type 0 where
  pub version : ℤ
  pub resource : Bytes
  pub accepts : List Requirements
  pub extensions : Bytes

-- The x402 retry envelope.
pub record Retry : Type 0 where
  pub version : ℤ
  pub resource : Bytes
  pub accepted : Option Requirements
  pub preimage : Bytes
  pub payment_hash : Bytes
  pub extensions : Bytes

-- The decoders, each with `none` for an error. `host` is the host name of a URL that has one;
-- `settlement` is the raw l402 extension of a settlement response, where there is one.
pub record Codecs : Type 0 where
  pub host : Bytes → Option Bytes
  pub payment_required : Bytes → Option PaymentRequired
  pub transfer_method : Bytes → Bytes
  pub lightning_extra : Bytes → Option LightningExtra
  pub zpay_decode : Bytes → Option RawInvoice
  pub base64_decode : Bytes → Option Bytes
  pub encode_retry : Retry → Option Bytes
  pub settlement : Bytes → Option (Option Bytes)
  pub delivery : Bytes → Option (Bytes × ℤ)

-- What a client is wired to, on a state `S`: the cache, the policy hook, where one is set, and the
-- rail. `pay` is told the attempt that the payment is for.
pub record Ports (S E : Type 0) : Type 0 where
  pub get_token : S → Bytes → Option Token
  pub put_token : S → Token → Bool × S
  pub touch_token : S → Bytes → ℕ → S
  pub delete_token : S → Bytes → S
  pub gate : Option (S → Attempt → Admission E × S)
  pub pay : S → ℕ → PayChallenge → Option (Bytes × ℤ) × S
