-- ===== src/Gate/Mcp.antt =====
-- lib/mcp.go: the MCP transport of a gate, for a seller's tools and for a buyer's calls. JSON texts
-- are read and written by parameters; of a resource only the URL is kept. The caller and the payer
-- of a buyer are calls on a world.
use dcr.Prelude.{ℕ, Bool, true, false, List, [], ◌∷◌, ◌++◌, Option, none, some, if◌then◌else◌, ◌&&◌}
use dcr.Prelude.Int64.{ℤ, pos, leb_ℤ}
use dcr.Prelude.Bytes.{Bytes, Dict, codes, str_eq, lookup}
use dcr.Gate.{GateStore}
use dcr.Gate.Verify.{PaymentPayload, Reason, Verified, ok, err}
use dcr.Gate.Settle.{Response, settle_full}
use dcr.Gate.Mint.{Config, Draw, PaymentRequired, Artifacts, build_challenge}

abbrev pub meta_payment : Bytes
meta_payment = codes "x402/payment"

abbrev pub meta_payment_response : Bytes
meta_payment_response = codes "x402/payment-response"

abbrev pub mcp_tool_url : Bytes → Bytes
mcp_tool_url tool = codes "mcp://tool/" ++ tool

abbrev pub mcp_resource_url : Bytes → Bytes → Bytes
mcp_resource_url server_url tool = if str_eq server_url [] then mcp_tool_url tool else server_url

-- The JSON of what travels in `_meta`, and of a challenge with its version.
pub record MetaCodec : Type 0 where
  pub payload : Bytes → Option PaymentPayload
  pub write_payload : PaymentPayload → Bytes
  pub response : Bytes → Option Response
  pub write_response : Response → Bytes
  pub required : Bytes → Option (ℤ × PaymentRequired)
  pub write_required : PaymentRequired → Bytes

-- `PaymentRequiredToolResult`: the challenge, in both places of the result.
pub record ToolResult : Type 0 where
  pub structured_content : Bytes
  pub content : List Bytes

abbrev pub payment_required_tool_result : MetaCodec → PaymentRequired → ToolResult
payment_required_tool_result json pr = record {
  structured_content = json.write_required pr;
  content = json.write_required pr ∷ [];
}

-- A payment in `_meta`: none, one that does not decode, or one.
pub data MetaPayment : Type 0 where
  absent : MetaPayment
  malformed : MetaPayment
  present : PaymentPayload → MetaPayment

abbrev pub meta_payload : Option PaymentPayload → MetaPayment
meta_payload none = malformed
meta_payload (some pp) = present pp

unfoldable pub decode_meta_payment : MetaCodec → Dict Bytes → MetaPayment
decode_meta_payment json meta = elim (lookup meta_payment meta) [
  | none ↦ absent
  | some raw ↦ meta_payload (json.payload raw)
]

abbrev pub encode_meta_payment : MetaCodec → PaymentPayload → Dict Bytes
encode_meta_payment json pp = (meta_payment, json.write_payload pp) ∷ []

abbrev pub encode_meta_payment_response : MetaCodec → Response → Dict Bytes
encode_meta_payment_response json sr = (meta_payment_response, json.write_response sr) ∷ []

pub data MetaReceipt : Type 0 where
  no_receipt : MetaReceipt
  malformed_receipt : MetaReceipt
  receipt : Response → MetaReceipt

abbrev pub meta_receipt : Option Response → MetaReceipt
meta_receipt none = malformed_receipt
meta_receipt (some sr) = receipt sr

unfoldable pub decode_meta_payment_response : MetaCodec → Dict Bytes → MetaReceipt
decode_meta_payment_response json meta = elim (lookup meta_payment_response meta) [
  | none ↦ no_receipt
  | some raw ↦ meta_receipt (json.response raw)
]

-- `MCPPaymentOutcome`, and the errors of `ServeMCPPayment`.
pub data McpOutcome : Type 0 where
  challenged : ToolResult → McpOutcome
  paid : Response → Bool → Dict Bytes → McpOutcome
  rejected : Reason → McpOutcome
  malformed_meta : McpOutcome
  no_challenge : McpOutcome

module _ (cfg : Config) (json : MetaCodec) where
  abbrev pub tool_result : Option Artifacts × GateStore → Option ToolResult × GateStore
  tool_result (none, m) = (none, m)
  tool_result (some art, m) = (some (payment_required_tool_result json art.payment_required), m)

  -- `MCPChallengeAt`: the challenge is stored under the tool's own key.
  unfoldable pub mcp_challenge_at :
      GateStore → Bytes → Bytes → ℤ → Draw → Option ToolResult × GateStore
  unfolding build_challenge
  mcp_challenge_at m server_url tool amount w =
      tool_result
        (build_challenge cfg m (mcp_resource_url server_url tool) (mcp_tool_url tool) amount w)

  -- `MCPSettle`, which is `Settle`.
  unfoldable pub mcp_settle :
      GateStore → PaymentPayload → ℤ → ℕ → Verified (Response × Bool) × GateStore
  unfolding settle_full
  mcp_settle m pp required_atoms now =
      let (answer, m') = settle_full cfg.env m pp required_atoms now in
      elim answer [ err reason ↦ (err reason, m') | ok out ↦ (ok (out.response, out.already), m') ]

  abbrev pub challenge_outcome : Option ToolResult × GateStore → McpOutcome × GateStore
  challenge_outcome (none, m) = (no_challenge, m)
  challenge_outcome (some t, m) = (challenged t, m)

  abbrev pub settle_outcome : Verified (Response × Bool) × GateStore → McpOutcome × GateStore
  settle_outcome (err reason, m) = (rejected reason, m)
  settle_outcome (ok (sr, already), m) = (paid sr already (encode_meta_payment_response json sr), m)

  -- `ServeMCPPaymentAt`
  unfoldable pub serve_mcp_payment_at :
      GateStore → Bytes → Bytes → ℤ → Dict Bytes → Draw → McpOutcome × GateStore
  unfolding mcp_challenge_at mcp_settle decode_meta_payment
  serve_mcp_payment_at m server_url tool required_atoms meta w =
      elim (decode_meta_payment json meta) [
        | malformed ↦ (malformed_meta, m)
        | absent ↦ challenge_outcome (mcp_challenge_at m server_url tool required_atoms w)
        | present pp ↦ settle_outcome (mcp_settle m pp required_atoms w.now)
      ]

-- `MCPToolResult`
pub record CallResult : Type 0 where
  pub structured_content : Bytes
  pub meta : Dict Bytes
  pub is_error : Bool

-- `ParsePaymentRequiredResult`
abbrev pub required_result : Option (ℤ × PaymentRequired) → Option PaymentRequired
required_result none = none
required_result (some (version, pr)) =
    if leb_ℤ version (pos 0) && leb_ℤ (pos 0) version
    then none
    else elim pr.accepts [ [] ↦ none | entry ∷ more ↦ some pr ]

unfoldable pub parse_payment_required_result : MetaCodec → Bytes → Option PaymentRequired
parse_payment_required_result json structured =
    if str_eq structured [] then none else required_result (json.required structured)

-- `MCPPaidResult`, and the errors of `FetchPaidMCP`.
pub data McpFetched : Type 0 where
  fetched : Bytes → Option Response → Bool → McpFetched
  call_failed : McpFetched
  tool_errored : McpFetched
  payment_failed : McpFetched
  tool_rejected : McpFetched
  receipt_malformed : McpFetched

abbrev pub fetched_with : Bytes → MetaReceipt → McpFetched
fetched_with content no_receipt = fetched content none true
fetched_with content (receipt sr) = fetched content (some sr) true
fetched_with content malformed_receipt = receipt_malformed

module _ {ℓ} {W : Type ℓ} (json : MetaCodec)
    (call_tool : Option (Dict Bytes) → W → Option CallResult × W)
    (pay : PaymentRequired → W → Option PaymentPayload × W) where
  -- The paid retry.
  abbrev pub retry_paid : Option CallResult × W → McpFetched × W
  retry_paid (none, w) = (call_failed, w)
  retry_paid (some second, w) = (
    if second.is_error
        then tool_rejected
        else fetched_with second.structured_content (decode_meta_payment_response json second.meta),
    w,
  )

  abbrev pub after_payment : Option PaymentPayload × W → McpFetched × W
  after_payment (none, w) = (payment_failed, w)
  after_payment (some pp, w) = retry_paid (call_tool (some (encode_meta_payment json pp)) w)

  abbrev pub pay_result : Option PaymentRequired → W → McpFetched × W
  pay_result none w = (tool_errored, w)
  pay_result (some pr) w = after_payment (pay pr w)

  abbrev pub after_probe : Option CallResult × W → McpFetched × W
  after_probe (none, w) = (call_failed, w)
  after_probe (some first, w) =
      if first.is_error
      then pay_result (parse_payment_required_result json first.structured_content) w
      else (fetched first.structured_content none false, w)

  -- `FetchPaidMCP`
  unfoldable pub fetch_paid_mcp : W → McpFetched × W
  unfolding parse_payment_required_result decode_meta_payment_response
  fetch_paid_mcp w = after_probe (call_tool none w)
