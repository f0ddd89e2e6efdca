-- ===== src/Gateway/Mcp.antt =====
-- gateway/mcpgate.go: the handler of an MCP upstream (`mcpHandler`). What is read from JSON is the
-- answer of parameters: the methods of a batch, a message, the parameters of a tool call, and the
-- top-level keys of an object. A reply's JSON and headers are named by its constructors.
pub mod Gating
use dcr.Prelude.{
  ℕ, suc, Bool, true, false, not, ◌&&◌, ◌||◌, List, [], ◌∷◌, ◌++◌, Option, none, some, length, ltb,
  ◌==◌, if◌then◌else◌,
}
use dcr.Prelude.Int64.{ℤ, pos, leb_ℤ}
use dcr.Prelude.Bytes.{Bytes, Dict, codes, str_eq}
use dcr.Gate.{GateStore}
use dcr.Gate.Verify.{PaymentPayload, Reason, Verified, ok, err}
use dcr.Gate.Settle.{Response}
use dcr.Gate.Mint.{Config, Draw}
use dcr.Gate.Mcp.{
  MetaCodec, ToolResult, absent, malformed, present, decode_meta_payment, mcp_challenge_at,
  mcp_settle,
}
use dcr.Gate.Topup.{Books}
use dcr.Gate.Topup.Accounts.{Credit, done, declined, CreditError, charge_credential}
use dcr.Gateway.{Upstream, tool_price_for, mode_credits}

-- `rpcMessage`, less its version and id.
pub record Message : Type 0 where
  pub method : Bytes
  pub params : Bytes

-- `toolCallParams`
pub record ToolCall : Type 0 where
  pub name : Bytes
  pub meta : Dict Bytes

-- The JSON decoders. `keys` gives the top-level keys of an object, in their order, and `none` of
-- what is no object or breaks off.
pub record Rpc : Type 0 where
  pub batch : Bytes → Option (List Bytes)
  pub message : Bytes → Option Message
  pub tool_call : Bytes → Option ToolCall
  pub keys : Bytes → Option (List Bytes)

-- A request to the endpoint; `body` is `none` where it cannot be read.
pub record McpRequest : Type 0 where
  pub is_post : Bool
  pub body : Option Bytes
  pub authorization : Bytes
  pub url : Bytes

-- Why a tool's challenge is answered.
pub data Note : Type 0 where
  unpaid : Note
  malformed_payment : Note
  failed : Reason → Note

-- What a request makes of the upstream: it is forwarded as it is, after a charge with the balance
-- left, or with the settlement of its payment; or a reply of the gateway.
pub data McpReply : Type 0 where
  passed : McpReply
  charged : ℤ → McpReply
  settled : Response → McpReply
  bad_request : McpReply
  too_large : McpReply
  credit_refused : CreditError → McpReply
  tool_challenge : ToolResult → Note → McpReply
  challenge_error : McpReply
  already_settled : Response → McpReply

abbrev pub tools_call : Bytes
tools_call = codes "tools/call"

abbrev pub max_body : ℕ
max_body = 8388608

unfoldable pub count_key : Bytes → List Bytes → ℕ
count_key key [] = 0
count_key key (k ∷ ks) = let rest = count_key key ks in if str_eq key k then suc rest else rest

-- `duplicateKey`
unfoldable pub duplicate_key : Option (List Bytes) → Bytes → Bool
unfolding count_key
duplicate_key none key = false
duplicate_key (some ks) key = ltb 1 (count_key key ks)

unfoldable pub trim_left_json : Bytes → Bytes
trim_left_json [] = []
trim_left_json (c ∷ s) =
    let rest = trim_left_json s in if c == b' ' || c == 9 || c == 13 || c == 10 then rest else c ∷ s

abbrev pub is_batch : Bytes → Bool
is_batch [] = false
is_batch (c ∷ s) = c == b'['

unfoldable pub has_tool_call : List Bytes → Bool
has_tool_call [] = false
has_tool_call (method ∷ methods) = str_eq method tools_call || has_tool_call methods

abbrev pub challenge_reply : Note → Option ToolResult × GateStore → McpReply × GateStore
challenge_reply note (none, m) = (challenge_error, m)
challenge_reply note (some t, m) = (tool_challenge t note, m)

abbrev pub settled_reply : Response → Bool → McpReply
settled_reply sr already = if already then already_settled sr else settled sr

abbrev pub credit_reply : Credit ℤ × Books → McpReply × Books
credit_reply (declined e, b) = (credit_refused e, b)
credit_reply (done total, b) = (charged total, b)

abbrev pub stored : Books → McpReply × GateStore → McpReply × Books
stored b (reply, m) = (reply, record { store = m; ledger = b.ledger })

abbrev pub batch_reply : Option (List Bytes) → McpReply
batch_reply none = bad_request
batch_reply (some methods) = if has_tool_call methods then bad_request else passed

module _ (cfg : Config) (json : MetaCodec) where
  -- `writeMCPToolChallenge`
  unfoldable pub write_tool_challenge :
      GateStore → Bytes → Bytes → ℤ → Note → Draw → McpReply × GateStore
  unfolding mcp_challenge_at
  write_tool_challenge m url tool price note w =
      challenge_reply note (mcp_challenge_at cfg json m url tool price w)

  -- What follows the settlement.
  abbrev pub after_settle :
      Bytes → Bytes → ℤ → Draw → Verified (Response × Bool) × GateStore → McpReply × GateStore
  after_settle url tool price w (err reason, m) =
      write_tool_challenge m url tool price (failed reason) w
  after_settle url tool price w (ok (sr, already), m) = (settled_reply sr already, m)

  -- A payment that decodes.
  unfoldable pub settle_tool :
      GateStore → Bytes → Bytes → ℤ → PaymentPayload → Draw → McpReply × GateStore
  unfolding write_tool_challenge mcp_settle
  settle_tool m url tool price pp w =
      after_settle url tool price w (mcp_settle cfg json m pp price w.now)

  -- A priced tool of an upstream that is paid per call.
  unfoldable pub call_per_call : GateStore → Bytes → ToolCall → ℤ → Draw → McpReply × GateStore
  unfolding settle_tool decode_meta_payment
  call_per_call m url call price w = elim (decode_meta_payment json call.meta) [
    | malformed ↦ write_tool_challenge m url call.name price malformed_payment w
    | absent ↦ write_tool_challenge m url call.name price unpaid w
    | present pp ↦ settle_tool m url call.name price pp w
  ]

  -- A tool that has a price.
  unfoldable pub call_priced :
      Upstream → Books → McpRequest → ToolCall → ℤ → Draw → McpReply × Books
  unfolding call_per_call charge_credential
  call_priced u b r call price w =
      if str_eq u.mode mode_credits
      then credit_reply (charge_credential cfg b r.authorization price [] w.now)
      else stored b (call_per_call b.store r.url call price w)

  -- A tool call whose parameters decode.
  unfoldable pub call_tool : Upstream → Books → McpRequest → ToolCall → Draw → McpReply × Books
  unfolding call_priced tool_price_for
  call_tool u b r call w =
      let price = tool_price_for u call.name in
      if leb_ℤ price (pos 0) then (passed, b) else call_priced u b r call price w

module _ (cfg : Config) (json : MetaCodec) (rpc : Rpc) where
  -- The parameters of a tool call.
  unfoldable pub handle_tool_call : Upstream → Books → McpRequest → Bytes → Draw → McpReply × Books
  unfolding call_tool duplicate_key
  handle_tool_call u b r params w = elim (rpc.tool_call params) [
    | none ↦ (bad_request, b)
    | some call ↦
        if duplicate_key (rpc.keys params) (codes "name")
        then (bad_request, b)
        else call_tool cfg json u b r call w
  ]

  -- A single message.
  unfoldable pub handle_message : Upstream → Books → McpRequest → Bytes → Draw → McpReply × Books
  unfolding handle_tool_call
  handle_message u b r body w = elim (rpc.message body) [
    | none ↦ (bad_request, b)
    | some msg ↦
        if str_eq msg.method tools_call then handle_tool_call u b r msg.params w else (passed, b)
  ]

  abbrev pub handle_body : Upstream → Books → McpRequest → Bytes → Draw → McpReply × Books
  handle_body u b r body w =
      if ltb max_body (length body)
      then (too_large, b)
      else if is_batch (trim_left_json body)
      then (batch_reply (rpc.batch body), b)
      else handle_message u b r body w

  -- `mcpHandler`
  unfoldable pub mcp_handler : Upstream → Books → McpRequest → Draw → McpReply × Books
  unfolding handle_message has_tool_call trim_left_json
  mcp_handler u b r w =
      if r.is_post
      then elim r.body [ none ↦ (bad_request, b) | some body ↦ handle_body u b r body w ]
      else (passed, b)
