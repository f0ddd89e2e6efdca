-- ===== src/Gate/Verify.antt =====
-- lib/verify.go and lib/errors.go: the verification rules. What decodes JSON and invoices, and the
-- hash, are parameters (`Codecs`), with `none` for an error. What the node and the wallet answer, and
-- the clock, are arguments. The detail of an error is not kept.
use dcr.Prelude.{
  ℕ, ◌*◌, Bool, true, false, not, ◌&&◌, [], Option, none, some, length, ltb, ◌==◌, if◌then◌else◌,
}
use dcr.Prelude.Int64.{ℤ, pos, pos_part, leb_ℤ, wrap}
use dcr.Prelude.Bytes.{Bytes, codes, str_eq}
use dcr.GoText.{has_prefix, parse_int, hex_decode, hex_encode, equal_fold}
use dcr.Gate.{GateStore, Challenge, OnchainChallenge, get_challenge, get_onchain_challenge, settled}
use dcr.Gate.X402.{Json, Requirements, equal_semantic, int_eq}

pub data Reason : Type 0 where
  invalid_version invalid_scheme invalid_network invalid_requirements invalid_payload : Reason
  preimage_mismatch invoice_decode invoice_network invoice_hash invoice_destination : Reason
  invoice_amount invoice_expired unknown_payment_hash payment_hash_reused : Reason
  address_mismatch amount_mismatch insufficient_confs unexpected_verify unexpected_settle : Reason

pub data Verified {ℓ} (A : Type ℓ) : Type ℓ where
  ok : A → Verified A
  err : Reason → Verified A

infixl 5 ◌>>=◌
abbrev pub ◌>>=◌ {ℓ κ} : {A : Type ℓ} {B : Type κ} → Verified A → (A → Verified B) → Verified B
ok a >>= f = f a
err e >>= f = err e

-- `if !ok { return err }`
abbrev pub check : Bool → Reason → Verified {0} (Unit {0})
check true e = ok tt
check false e = err e

abbrev pub the {ℓ} : {A : Type ℓ} → Option A → Reason → Verified A
the none e = err e
the (some a) e = ok a

pub record LightningExtra : Type 0 where
  pub invoice : Bytes
  pub payment_hash : Bytes

pub record LightningPayload : Type 0 where
  pub preimage : Bytes
  pub payment_hash : Bytes

-- A decoded BOLT11 invoice: `destination` is the serialized key.
pub record Invoice : Type 0 where
  pub payment_hash : Option Bytes
  pub destination : Option Bytes
  pub milli_atoms : Option ℤ
  pub expires_at : ℕ

pub record Codecs : Type 0 where
  pub sha256 : Bytes → Bytes
  pub parse_json : Bytes → Option Json
  pub transfer_method : Bytes → Bytes
  pub lightning_extra : Bytes → Option LightningExtra
  pub lightning_payload : Bytes → Option LightningPayload
  pub is_onchain_extra : Bytes → Bool
  pub onchain_txid : Bytes → Option Bytes
  pub requirements : Bytes → Option Requirements
  pub decode_invoice : Bytes → Option Invoice
  pub base64_decode : Bytes → Option Bytes

pub record Network : Type 0 where
  pub caip2 : Bytes
  pub hrp : Bytes

-- `resource` is the URL of the payload's resource, empty where the payload names none.
pub record PaymentPayload : Type 0 where
  pub version : ℤ
  pub resource : Bytes
  pub accepted : Requirements
  pub payload : Bytes

-- What the wallet says of a transaction and an address.
pub record Deposit : Type 0 where
  pub found : Bool
  pub amount_to_address_atoms : ℤ
  pub confirmations : ℤ

unfoldable pub check_envelope : PaymentPayload → Network → Verified {0} (Unit {0})
check_envelope pp net = do
  _ ← check (int_eq pp.version (pos 2)) invalid_version
  _ ← check (str_eq pp.accepted.scheme (codes "exact")) invalid_scheme
  check (str_eq pp.accepted.network net.caip2) invalid_network

-- 32 bytes in hexadecimal.
abbrev pub hex_32 : Option Bytes → Verified Bytes
hex_32 none = err invalid_payload
hex_32 (some raw) = if length raw == 32 then ok raw else err invalid_payload

abbrev pub is_some_eq : Option Bytes → Bytes → Bool
is_some_eq none s = false
is_some_eq (some t) s = str_eq t s

-- Rule 6: the invoice's milli-atoms are the amount times 1000, in int64.
abbrev pub check_amount : Option ℤ → Option ℤ → Verified {0} (Unit {0})
check_amount none milli = err invalid_requirements
check_amount (some amount) milli =
    if leb_ℤ amount (pos 0) then err invalid_requirements else elim milli [
      | none ↦ err invoice_amount
      | some m ↦ check (int_eq m (wrap (pos (pos_part amount * 1000)))) invoice_amount
    ]

-- Rule 7, where the caller gives a clock.
abbrev pub check_expiry : Option ℕ → ℕ → Verified {0} (Unit {0})
check_expiry none expires_at = ok tt
check_expiry (some now) expires_at = check (not (ltb expires_at now)) invoice_expired

-- Rule 7 of the gate: a challenge past its time is a reuse where its hash is consumed.
abbrev pub check_live : GateStore → ℕ → Bytes → Challenge → Verified {0} (Unit {0})
check_live m now payment_hash ch =
    if ltb ch.expires_at now
    then (if settled m payment_hash then err payment_hash_reused else err invoice_expired)
    else ok tt

-- Rules 9 to 11 on what the wallet found.
abbrev pub check_deposit : Deposit → OnchainChallenge → ℕ → Verified {0} (Unit {0})
check_deposit dep oc now =
    if not dep.found
    then (if ltb oc.expires_at now then err invoice_expired else err insufficient_confs)
    else if int_eq dep.amount_to_address_atoms (pos 0)
    then err address_mismatch
    else if not (int_eq dep.amount_to_address_atoms oc.amount_atoms)
    then err amount_mismatch
    else check (leb_ℤ oc.confirmations dep.confirmations) insufficient_confs

module _ (c : Codecs) where
  unfoldable pub verify_lightning_proof :
      PaymentPayload → Requirements → Network → Option ℕ → Verified LightningPayload
  verify_lightning_proof pp offered net now = do
    extra ← the (c.lightning_extra pp.accepted.extra) invalid_payload
    _ ← check (not (str_eq extra.invoice []) && not (str_eq extra.payment_hash [])) invalid_payload
    pay ← the (c.lightning_payload pp.payload) invalid_payload
    _ ← check (not (str_eq pay.preimage []) && not (str_eq pay.payment_hash [])) invalid_payload
    claimed_hash ← hex_32 (hex_decode extra.payment_hash)
    preimage ← hex_32 (hex_decode pay.preimage)
    _ ←
        check
          (equal_fold pay.payment_hash extra.payment_hash
            && str_eq (c.sha256 preimage) claimed_hash)
          preimage_mismatch
    _ ← check (equal_semantic c.parse_json pp.accepted offered) invalid_requirements
    _ ← check (has_prefix extra.invoice net.hrp) invoice_network
    inv ← the (c.decode_invoice extra.invoice) invoice_decode
    _ ← check (is_some_eq inv.payment_hash claimed_hash) invoice_hash
    destination ← the inv.destination invoice_destination
    _ ← check (equal_fold (hex_encode destination) pp.accepted.pay_to) invoice_destination
    _ ← check_amount (parse_int pp.accepted.amount) inv.milli_atoms
    _ ← check_expiry now inv.expires_at
    ok pay

  -- `lookup` is the node's answer for a payment hash: whether the invoice is settled.
  unfoldable pub verify_lightning :
      GateStore
      → PaymentPayload
      → Network
      → ℕ
      → (Bytes → Option Bool)
      → Verified (Challenge × LightningPayload)
  unfolding verify_lightning_proof
  verify_lightning m pp net now lookup = do
    extra ← the (c.lightning_extra pp.accepted.extra) invalid_payload
    _ ← check (not (str_eq extra.payment_hash [])) invalid_payload
    payment_hash ← hex_32 (hex_decode extra.payment_hash)
    ch ← the (get_challenge m payment_hash) unknown_payment_hash
    _ ← check_live m now payment_hash ch
    offered ← the (c.requirements ch.requirements) unexpected_verify
    pay ← verify_lightning_proof pp offered net none
    is_settled ← the (lookup payment_hash) unexpected_verify
    _ ← check is_settled unexpected_verify
    ok (ch, pay)

  unfoldable pub read_txid : PaymentPayload → Verified Bytes
  read_txid pp = do
    _ ← check (c.is_onchain_extra pp.accepted.extra) invalid_payload
    txid ← the (c.onchain_txid pp.payload) invalid_payload
    _ ← check (not (str_eq txid [])) invalid_payload
    _ ← hex_32 (hex_decode txid)
    ok txid

  -- `deposit` is the on-chain backend's answer, where one is configured; its inner `none` is an
  -- error.
  unfoldable pub verify_onchain :
      GateStore
      → PaymentPayload
      → ℕ
      → Option (Bytes → Bytes → Option Deposit)
      → Verified (OnchainChallenge × Bytes)
  unfolding read_txid
  verify_onchain m pp now backend = do
    txid ← read_txid pp
    oc ← the (get_onchain_challenge m pp.accepted.pay_to) invalid_requirements
    offered ← the (c.requirements oc.requirements) unexpected_verify
    _ ← check (equal_semantic c.parse_json pp.accepted offered) invalid_requirements
    lookup_deposit ← the backend unexpected_verify
    dep ← the (lookup_deposit txid oc.address) unexpected_verify
    _ ← check_deposit dep oc now
    ok (oc, txid)
