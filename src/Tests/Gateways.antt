-- ===== src/Tests/Gateways.antt =====
-- The theorems on credits and the gateway, on the gate with one on-chain challenge.
use dcr.Prelude.{◌≡◌, ◌⊎◌, refl, true, false, [], ◌∷◌, none, some}
use dcr.Prelude.Int64.{ℤ, pos, wrap, ◌+ℤ◌}
use dcr.Prelude.Bytes.{Bytes, Bytes-discrete, codes, lookup, insert}
use dcr.GoText.{hex_decode, has_prefix, trim_space, format_int, parse_int}
use dcr.L402.{decode_identifier}
use dcr.L402.Wire.{
  marshal_binary, append_packet, append_varint, append_caveats, put_uvarint, uvarint,
  unmarshal_binary, unmarshal_body, parse_section, parse_packet, parse_caveats,
}
use dcr.Ledger as Credits
use dcr.Ledger.{Ledger, new_memory, grant, balance}
use dcr.Gate.{settle, get_onchain_challenge}
use dcr.Gate.X402.{equal_semantic, json_value_equal, deep_equal}
use dcr.Gate.Verify.{check_envelope, verify_onchain, read_txid}
use dcr.Gate.Settle.{admit, prove, settle_full, account_from_macaroon, response_for, credential_for}
use dcr.Gate.Serve.{serve, serve_payment, settle_and_reply, credential_of}
use dcr.Gate.Topup.{Books}
use dcr.Gate.Topup.Accounts.{done, runs, credential_account, require_credits}
use dcr.Gate.Topup.Charges.{IsRefusal, require_credits_charges}
use dcr.Gate.Mcp.{MetaCodec, meta_payment, decode_meta_payment, mcp_settle}
use dcr.GoText.{trim_left, cut, parse_digits}
use dcr.GoText.Words.{to_upper, upper_byte, fields, split_space}
use dcr.Gateway.{
  UpstreamConfig, Upstream, parse_dcr, parse_cut, parse_fraction, up_for, tool_price_for,
}
use dcr.Gateway.Config.{
  Urls, resolve_upstreams, resolve_upstream, insert_upstream, normalize_price_key, resolve_prices,
}
use dcr.Gateway.Prices.{AllPriced, resolved_prices_positive}
use dcr.Gateway.Routes.{NoRoute, Chosen, up_for_longest}
use dcr.Gateway.Mcp.{
  Rpc, ToolCall, McpRequest, mcp_handler, handle_message, handle_tool_call, call_tool, call_priced,
  call_per_call, settle_tool, trim_left_json, duplicate_key,
}
use dcr.Gateway.Mcp.Gating.{Paid, mcp_handler-Paid}
use dcr.Ledger.{charge}
use dcr.Gateway.Http.{HttpRequest, priced, upstream_handler}
use dcr.Gateway.Http.Gating.{PaidBy, upstream_handler-PaidBy}
use dcr.Tests.Serving.{cfg, request, no_ids, presented, draw}
use dcr.Tests.Gates.{store, payload}

abbrev books : Books
books = record { store = store; ledger = some new_memory }

require_credits_charges_example :
    let (reply, b') = require_credits cfg books (codes "L402 token:00") (pos 5) [] 50 in
    ((l : Ledger) × (account_id : Bytes) × (total : ℤ) × (some new_memory ≡ some l)
      × (credential_account cfg store (codes "L402 token:00") 50 ≡ done account_id)
      × ((charge l account_id (pos 5) []).0 ≡ Credits.ok total)
      × (reply ≡ runs total)
      × (b' ≡ record { store = store; ledger = some (charge l account_id (pos 5) []).1 }))
    ⊎ (IsRefusal reply × (b' ≡ books))
require_credits_charges_example =
    require_credits_charges cfg books (codes "L402 token:00") (pos 5) [] 50

-- A gateway with one MCP upstream.
abbrev upstream_config : UpstreamConfig
upstream_config = record {
  route = codes "/api/";
  target = codes "http://inner";
  mcp = true;
  mode = codes "percall";
  prices = (codes "get /api/x", codes "0.00001") ∷ [];
  price_default = [];
  tool_prices = (codes "draw", codes "0.000004") ∷ [];
  tool_price_default = [];
  free_tools = [];
}

abbrev upstream : Upstream
upstream = record {
  route = codes "/api/";
  target = codes "http://inner";
  mcp = true;
  mode = codes "percall";
  prices = (codes "GET /api/x", pos 1000) ∷ [];
  price_default = pos 0;
  tool_prices = (codes "draw", pos 400) ∷ [];
  tool_price_default = pos 0;
  free_tools = [];
}

abbrev urls : Urls
urls = record { parse = λ text. some (codes "http", codes "inner"); clean = λ path. path }

resolved_prices_positive_example : AllPriced (upstream ∷ [])
unfolding resolve_upstreams resolve_upstream insert_upstream normalize_price_key resolve_prices
    parse_dcr parse_cut parse_fraction insert trim_space trim_left cut parse_int parse_digits
    to_upper upper_byte fields split_space Bytes-discrete wrap ◌+ℤ◌
resolved_prices_positive_example =
    resolved_prices_positive urls (upstream_config ∷ []) (upstream ∷ []) refl

up_for_longest_example :
    ((up_for (upstream ∷ []) (codes "/api/x") ≡ none) × NoRoute (codes "/api/x") (upstream ∷ []))
    ⊎ ((u : Upstream) × (up_for (upstream ∷ []) (codes "/api/x") ≡ some u)
        × Chosen (codes "/api/x") (upstream ∷ []) u)
up_for_longest_example = up_for_longest (codes "/api/x") (upstream ∷ [])

abbrev json : MetaCodec
json = record {
  payload = λ text. some payload;
  write_payload = λ pp. [];
  response = λ text. none;
  write_response = λ sr. [];
  required = λ text. none;
  write_required = λ pr. [];
}

abbrev tool_call : ToolCall
tool_call = record { name = codes "draw"; meta = (meta_payment, codes "proof") ∷ [] }

abbrev rpc : Rpc
rpc = record {
  batch = λ text. none;
  message = λ text. some (record { method = codes "tools/call"; params = [] });
  tool_call = λ text. some tool_call;
  keys = λ text. none;
}

abbrev call : McpRequest
call = record {
  is_post = true;
  body = some (codes "{}");
  authorization = [];
  url = codes "https://shop.org/api/";
}

mcp_handler-Paid_example :
    Paid cfg json upstream books call
      (pos 400)
      draw
      (mcp_handler cfg json rpc upstream books call draw).1
unfolding admit prove check_envelope verify_onchain read_txid get_onchain_challenge equal_semantic
    json_value_equal deep_equal account_from_macaroon hex_decode lookup marshal_binary append_packet
    append_caveats append_varint put_uvarint uvarint unmarshal_binary unmarshal_body parse_section
    parse_packet parse_caveats decode_identifier Bytes-discrete settle_full settle response_for
    format_int credential_for has_prefix parse_int mcp_handler handle_message handle_tool_call
    call_tool call_priced call_per_call settle_tool mcp_settle decode_meta_payment tool_price_for
    trim_left_json duplicate_key
mcp_handler-Paid_example =
    mcp_handler-Paid cfg json rpc upstream books call draw (codes "{}")
      (record { method = codes "tools/call"; params = [] }) tool_call refl refl refl refl refl refl
      refl tt

abbrev http_upstream : Upstream
http_upstream = record upstream { mcp = false; prices = (codes "GET /api/x", pos 400) ∷ [] }

abbrev http_request : HttpRequest
http_request = record {
  method = codes "get";
  path = codes "/api/x";
  idempotency_key = [];
  gated = request;
}

upstream_handler-PaidBy_example :
    let (reply, b') =
      upstream_handler cfg no_ids presented urls http_upstream books http_request draw in
    ((some (pos 400) ≡ none) × (false ≡ false) × (b' ≡ books))
    ⊎ PaidBy cfg no_ids presented books http_request draw http_upstream.mode (pos 400) b'
unfolding admit prove check_envelope verify_onchain read_txid get_onchain_challenge equal_semantic
    json_value_equal deep_equal account_from_macaroon hex_decode lookup marshal_binary append_packet
    append_caveats append_varint put_uvarint uvarint unmarshal_binary unmarshal_body parse_section
    parse_packet parse_caveats decode_identifier Bytes-discrete settle_full settle response_for
    format_int credential_for has_prefix parse_int upstream_handler priced serve serve_payment
    settle_and_reply credential_of to_upper upper_byte
upstream_handler-PaidBy_example =
    upstream_handler-PaidBy cfg no_ids presented urls http_upstream books http_request draw tt
