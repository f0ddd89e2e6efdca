-- ===== src/Gate/Serve.antt =====
-- lib/gate.go: the middleware around a priced handler (`serve`, `servePayment`), with the payment
-- identifier of lib/paymentid.go. What a request makes of the handler behind the gate is part of the
-- reply. The JSON bodies and the headers of a reply are named by its constructors.
pub mod Order
use dcr.Prelude.{
  ℕ, Bool, true, false, not, ◌&&◌, ◌||◌, List, [], ◌∷◌, Option, none, some, length, leb, ◌==◌,
  if◌then◌else◌,
}
use dcr.Prelude.Int64.{ℤ}
use dcr.Prelude.Bytes.{Bytes, str_eq}
use dcr.L402 as L402
use dcr.L402.{Macaroon}
use dcr.L402.Headers.{parse_authorization}
use dcr.Gate.{GateStore}
use dcr.Gate.Verify.{PaymentPayload, Reason, invalid_payload, insufficient_confs, Verified, ok, err}
use dcr.Gate.Settle.{Env, Response, Outcome, settle_full, authorize_token}
use dcr.Gate.Mint.{Config, Draw, Artifacts, build_challenge}

-- A request: its headers, empty where they are absent, and the URL that is its resource.
pub record Request : Type 0 where
  pub authorization : Bytes
  pub payment_signature : Bytes
  pub resource : Bytes

-- `PaymentIDConfig`
pub record PaymentId : Type 0 where
  pub enabled : Bool
  pub required : Bool

-- What a payload decodes to: the payload, and the identifier that the client echoes, where there is
-- one.
pub record Presented : Type 0 where
  pub payload : PaymentPayload
  pub payment_id : Option Bytes

-- The reply: the handler ran, with the settlement where a payment was made; the payment had been
-- settled before; a challenge with its status; a failed proof with its reason and, unless the
-- deposit is only pending, a challenge; or another error.
pub data Reply : Type 0 where
  served : Option Response → Reply
  already_settled : Response → Reply
  challenge : ℕ → Artifacts → Reply
  failed : Reason → Option Artifacts → Reply
  payment_identifier_required : Reply
  challenge_error : Reply

abbrev pub is_id_char : ℕ → Bool
is_id_char c =
    (leb b'A' c && leb c b'Z')
    || (leb b'a' c && leb c b'z')
    || (leb b'0' c && leb c b'9')
    || c == b'_'
    || c == b'-'

unfoldable pub all_id_chars : Bytes → Bool
all_id_chars [] = true
all_id_chars (c ∷ s) = let rest = all_id_chars s in is_id_char c && rest

-- `validPaymentID`: 16 to 128 characters of `[A-Za-z0-9_-]`.
unfoldable pub valid_payment_id : Bytes → Bool
unfolding all_id_chars
valid_payment_id id = leb 16 (length id) && leb (length id) 128 && all_id_chars id

-- What the payment identifier says of a payload.
pub data IdCheck : Type 0 where
  id_ok id_malformed id_missing : IdCheck

abbrev pub check_id : PaymentId → Option Bytes → IdCheck
check_id cfg (some id) = if cfg.enabled && not (valid_payment_id id) then id_malformed else id_ok
check_id cfg none = if cfg.enabled && cfg.required then id_missing else id_ok

-- The credential of a request: there is none, it is accepted, or it is broken.
pub data Credential : Type 0 where
  no_credential accepted broken : Credential

module _ (cfg : Config) (ids : PaymentId) (decode : Bytes → Option Presented) where
  abbrev pub challenge_or_error : ℕ → Option Artifacts × GateStore → Reply × GateStore
  challenge_or_error status (none, m) = (challenge_error, m)
  challenge_or_error status (some art, m) = (challenge status art, m)

  -- `respondChallenge`
  unfoldable pub respond_challenge : GateStore → Request → ℤ → ℕ → Draw → Reply × GateStore
  unfolding build_challenge
  respond_challenge m r amount status w =
      challenge_or_error status (build_challenge cfg m r.resource [] amount w)

  abbrev pub is_pending : Reason → Bool
  is_pending insufficient_confs = true
  is_pending _ = false

  -- `respondPaymentFailure`
  unfoldable pub respond_failure : GateStore → Request → ℤ → Reason → Draw → Reply × GateStore
  unfolding build_challenge
  respond_failure m r amount reason w =
      if is_pending reason
      then (failed reason none, m)
      else (let (art, m') = build_challenge cfg m r.resource [] amount w in (failed reason art, m'))

  abbrev pub reply_settled : Outcome → Reply
  reply_settled out =
      if out.already then already_settled out.response else served (some out.response)

  -- `Settle` and what follows it.
  unfoldable pub settle_and_reply :
      GateStore → Request → ℤ → PaymentPayload → Draw → Reply × GateStore
  unfolding respond_failure
  settle_and_reply m r amount pp w =
      let (answer, m') = settle_full cfg.env m pp amount w.now in
      elim answer [
        | err reason ↦ respond_failure m' r amount reason w
        | ok out ↦ (reply_settled out, m')
      ]

  unfoldable pub serve_payment : GateStore → Request → ℤ → Draw → Reply × GateStore
  unfolding settle_and_reply valid_payment_id
  serve_payment m r amount w = elim (decode r.payment_signature) [
    | none ↦ respond_failure m r amount invalid_payload w
    | some p ↦ elim (check_id ids p.payment_id) [
      | id_malformed ↦ respond_failure m r amount invalid_payload w
      | id_missing ↦ (payment_identifier_required, m)
      | id_ok ↦ settle_and_reply m r amount p.payload w
    ]
  ]

  abbrev pub judged : Option Bytes → Credential
  judged none = broken
  judged (some account) = accepted

  abbrev pub judge_parsed :
      GateStore → Option (L402.Result (List Macaroon × Bytes)) → ℕ → Credential
  judge_parsed m none now = no_credential
  judge_parsed m (some (L402.err e)) now = broken
  judge_parsed m (some (L402.ok (macs, preimage))) now =
      judged (authorize_token cfg.env cfg.crypto m macs preimage now)

  unfoldable pub credential_of : GateStore → Request → ℕ → Credential
  credential_of m r now =
      if str_eq r.authorization []
      then no_credential
      else judge_parsed m (parse_authorization cfg.env.codecs.base64_decode r.authorization) now

  -- Without an accepted credential: the proof, or else a challenge with the status.
  abbrev pub by_proof : GateStore → Request → ℤ → ℕ → Draw → Reply × GateStore
  by_proof m r amount status w =
      if str_eq r.payment_signature []
      then respond_challenge m r amount status w
      else serve_payment m r amount w

  unfoldable pub serve : GateStore → Request → ℤ → Draw → Reply × GateStore
  unfolding serve_payment respond_challenge credential_of
  serve m r amount w = elim (credential_of m r w.now) [
    | accepted ↦ (served none, m)
    | broken ↦ by_proof m r amount 401 w
    | no_credential ↦ by_proof m r amount 402 w
  ]
