-- ===== src/Gate/Topup/Accounts.antt =====
-- lib/topup.go: the charging of a credential's account (`ChargeCredential`, `RequireCredits`).
use dcr.Prelude.{ℕ, List, [], Option, none, some, if◌then◌else◌}
use dcr.Prelude.Int64.{ℤ}
use dcr.Prelude.Bytes.{Bytes, str_eq}
use dcr.GoText.{trim_space}
use dcr.L402 as L402
use dcr.L402.{Macaroon}
use dcr.L402.Headers.{parse_authorization}
use dcr.Ledger as Credits
use dcr.Ledger.{Ledger, LedgerError, insufficient_balance, grant, charge, balance}
use dcr.Gate.{GateStore}
use dcr.Gate.Settle.{authorize_token}
use dcr.Gate.Mint.{Config}
use dcr.Gate.Topup.{Books}

-- What `ChargeCredential` and `CredentialBalance` report.
pub data CreditError : Type 0 where
  no_ledger_configured : CreditError
  no_credential : CreditError
  invalid_credential : CreditError
  of_ledger : LedgerError → CreditError

pub data Credit {ℓ} (A : Type ℓ) : Type ℓ where
  done : A → Credit A
  declined : CreditError → Credit A

abbrev pub of_token : Option Bytes → Credit Bytes
of_token none = declined invalid_credential
of_token (some account) = done account

abbrev pub credit_of : Credits.Result ℤ × Ledger → GateStore → Credit ℤ × Books
credit_of (Credits.err e, l) m = (declined (of_ledger e), record { store = m; ledger = some l })
credit_of (Credits.ok total, l) m = (done total, record { store = m; ledger = some l })

-- What `RequireCredits` makes of a request: the handler runs, with the remaining balance; or a
-- reply with the path of the top-up.
pub data CreditReply : Type 0 where
  runs : ℤ → CreditReply
  payment_required : CreditReply
  unauthorized : CreditReply
  insufficient_credits : ℤ → ℤ → ℤ → CreditReply
  charge_failed : CreditReply

abbrev pub reply_to : Credit ℤ → CreditReply
reply_to (done total) = runs total
reply_to (declined no_credential) = payment_required
reply_to (declined invalid_credential) = unauthorized
reply_to (declined (of_ledger (insufficient_balance total required))) =
    insufficient_credits total required (Credits.shortfall total required)
reply_to (declined _) = charge_failed

module _ (cfg : Config) where
  abbrev pub parsed_account :
      GateStore → Option (L402.Result (List Macaroon × Bytes)) → ℕ → Credit Bytes
  parsed_account m none now = declined invalid_credential
  parsed_account m (some (L402.err e)) now = declined invalid_credential
  parsed_account m (some (L402.ok (macs, preimage))) now =
      of_token (authorize_token cfg.env cfg.crypto m macs preimage now)

  -- `credentialAccount`
  unfoldable pub credential_account : GateStore → Bytes → ℕ → Credit Bytes
  unfolding authorize_token
  credential_account m authorization now =
      if str_eq (trim_space authorization) []
      then declined no_credential
      else parsed_account m (parse_authorization cfg.env.codecs.base64_decode authorization) now

  -- `ChargeCredential`
  unfoldable pub charge_credential : Books → Bytes → ℤ → Bytes → ℕ → Credit ℤ × Books
  unfolding credential_account charge
  charge_credential b authorization amount idem_key now = elim b.ledger [
    | none ↦ (declined no_ledger_configured, b)
    | some l ↦ elim (credential_account b.store authorization now) [
      | declined e ↦ (declined e, b)
      | done account ↦ credit_of (charge l account amount idem_key) b.store
    ]
  ]

  -- `CredentialBalance`
  unfoldable pub credential_balance : Books → Bytes → ℕ → Credit (Bytes × ℤ)
  unfolding credential_account balance
  credential_balance b authorization now = elim b.ledger [
    | none ↦ declined no_ledger_configured
    | some l ↦ elim (credential_account b.store authorization now) [
      | declined e ↦ declined e
      | done account ↦ done (account, balance l account)
    ]
  ]

  abbrev pub answered : Credit ℤ × Books → CreditReply × Books
  answered (c, b) = (reply_to c, b)

  -- `RequireCredits`
  unfoldable pub require_credits : Books → Bytes → ℤ → Bytes → ℕ → CreditReply × Books
  unfolding charge_credential
  require_credits b authorization amount idem_key now =
      answered (charge_credential b authorization amount idem_key now)
