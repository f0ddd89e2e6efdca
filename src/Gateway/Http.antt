-- ===== src/Gateway/Http.antt =====
-- gateway/httpgate.go: the handler of an upstream that is no MCP server, and `balanceHandler` of
-- gateway/gateway.go. The gate's middlewares are those of lib/gate.go and lib/topup.go.
pub mod Gating
use dcr.Prelude.{ℕ, ◌∷◌, ◌++◌, Option, none, some, if◌then◌else◌}
use dcr.Prelude.Int64.{ℤ, pos, ltb_ℤ}
use dcr.Prelude.Bytes.{Bytes, str_eq, lookup}
use dcr.GoText.Words.{to_upper}
use dcr.Gate.{GateStore}
use dcr.Gate.Mint.{Config, Draw}
use dcr.Gate.Serve.{Request, PaymentId, Presented, Reply, serve}
use dcr.Gate.Topup.{Books}
use dcr.Gate.Topup.Accounts.{
  Credit, done, declined, no_credential, invalid_credential, CreditReply, require_credits,
  credential_balance,
}
use dcr.Gateway.{Upstream, mode_credits}
use dcr.Gateway.Config.{Urls, clean_path}

-- What a request makes of an upstream: it is forwarded free, or the gate of its mode replies.
pub data HttpReply : Type 0 where
  forwarded : HttpReply
  of_call : Reply → HttpReply
  of_credits : CreditReply → HttpReply

-- What the balance endpoint replies.
pub data BalanceReply : Type 0 where
  balance_of : Bytes → ℤ → BalanceReply
  credential_required : BalanceReply
  credential_refused : BalanceReply
  lookup_failed : BalanceReply

abbrev pub balance_reply : Credit (Bytes × ℤ) → BalanceReply
balance_reply (done (account, total)) = balance_of account total
balance_reply (declined no_credential) = credential_required
balance_reply (declined invalid_credential) = credential_refused
balance_reply (declined _) = lookup_failed

-- A request to the gateway.
pub record HttpRequest : Type 0 where
  pub method : Bytes
  pub path : Bytes
  pub idempotency_key : Bytes
  pub gated : Request

abbrev pub called : Books → Reply × GateStore → HttpReply × Books
called b (reply, m) = (of_call reply, record { store = m; ledger = b.ledger })

abbrev pub credit_called : CreditReply × Books → HttpReply × Books
credit_called (reply, b) = (of_credits reply, b)

module _ (cfg : Config) (ids : PaymentId) (decode : Bytes → Option Presented) where
  -- `priced`, around the proxy.
  unfoldable pub priced : Bytes → ℤ → Books → HttpRequest → Draw → HttpReply × Books
  unfolding serve require_credits
  priced mode atoms b r w =
      if str_eq mode mode_credits
      then credit_called (require_credits cfg b r.gated.authorization atoms r.idempotency_key w.now)
      else called b (serve cfg ids decode b.store r.gated atoms w)

  -- The handler for a path that no entry names.
  abbrev pub fallback : Upstream → Books → HttpRequest → Draw → HttpReply × Books
  fallback u b r w =
      if ltb_ℤ (pos 0) u.price_default then priced u.mode u.price_default b r w else (forwarded, b)

  -- `upstreamHandler`
  unfoldable pub upstream_handler : Urls → Upstream → Books → HttpRequest → Draw → HttpReply × Books
  unfolding priced to_upper
  upstream_handler urls u b r w =
      elim (lookup (to_upper r.method ++ (b' ' ∷ clean_path urls r.path)) u.prices) [
        | some atoms ↦ priced u.mode atoms b r w
        | none ↦ fallback u b r w
      ]

  -- `balanceHandler`
  unfoldable pub balance_handler : Books → Bytes → ℕ → BalanceReply
  unfolding credential_balance
  balance_handler b authorization now = balance_reply (credential_balance cfg b authorization now)
