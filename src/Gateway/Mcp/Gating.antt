-- ===== src/Gateway/Mcp/Gating.antt =====
-- A priced tool is reached only by a call that was paid for.
use dcr.Prelude.{
  ℕ, ◌≡◌, ◌⊎◌, inl, inr, refl, sym, subst, ap, [], true, false, Option, none, some, Bool-cases,
  length, ltb, if◌then◌else◌,
}
use dcr.Prelude.Int64.{ℤ, pos, leb_ℤ}
use dcr.Prelude.Bytes.{Bytes, str_eq, codes}
use dcr.Gate.{GateStore}
use dcr.Gate.Verify.{PaymentPayload, Reason, ok, err}
use dcr.Gate.Settle.{Outcome, Proof, settle_full}
use dcr.Gate.Sound.Inversion.{verified_cases}
use dcr.Gate.Serve.Order.{FirstUse, settle_full-first}
use dcr.Gate.Mint.{Config, Draw}
use dcr.Gate.Mcp.{
  MetaCodec, ToolResult, MetaPayment, absent, malformed, present, decode_meta_payment,
  mcp_challenge_at, mcp_settle,
}
use dcr.Gate.Topup.{Books}
use dcr.Gate.Topup.Accounts.{Credit, done, declined, charge_credential}
use dcr.Gate.Topup.Charges.{IsCharged, IsDeclined, charge_credential-cases}
use dcr.Gateway.{Upstream, tool_price_for, mode_credits}
use dcr.Gateway.Mcp.{
  Message, ToolCall, Rpc, McpRequest, Note, unpaid, malformed_payment, failed, McpReply, passed,
  charged, settled, bad_request, too_large, already_settled, tools_call, max_body, duplicate_key,
  trim_left_json, is_batch, challenge_reply, write_tool_challenge, settled_reply, settle_tool,
  call_per_call, after_settle, call_priced, credit_reply, stored, call_tool, handle_tool_call,
  handle_message, mcp_handler,
}

-- The replies with which the upstream is asked.
abbrev pub Forwards : McpReply → Type 0
Forwards passed = Unit
Forwards (charged total) = Unit
Forwards (settled sr) = Unit
Forwards _ = ⊥

MetaPayment-cases :
    (p : MetaPayment)
    → ((p ≡ absent) ⊎ (p ≡ malformed)) ⊎ ((pp : PaymentPayload) × (p ≡ present pp))
MetaPayment-cases absent = inl (inl refl)
MetaPayment-cases malformed = inl (inr refl)
MetaPayment-cases (present pp) = inr (pp, refl)

settled_reply-Forwards :
    (out : Outcome) → Forwards (settled_reply out.response out.already) → out.already ≡ false
settled_reply-Forwards out f = elim (Bool-cases out.already) [
  | inr new ↦ new
  | inl again ↦
      let f' : Forwards (already_settled out.response) =
        subst (λ x. Forwards (settled_reply out.response x)) again f in
      absurd f'
]

challenge_reply-refuses :
    (note : Note) (p : Option ToolResult × GateStore) → Forwards (challenge_reply note p).0 → ⊥
challenge_reply-refuses note (none, m) f = f
challenge_reply-refuses note (some t, m) f = f

module _ (cfg : Config) (json : MetaCodec) where
  write_tool_challenge-refuses :
      (m : GateStore) (url tool : Bytes) (price : ℤ) (note : Note) (w : Draw)
      → Forwards (write_tool_challenge cfg json m url tool price note w).0
      → ⊥
  unfolding write_tool_challenge
  write_tool_challenge-refuses m url tool price note w f =
      challenge_reply-refuses note (mcp_challenge_at cfg json m url tool price w) f

  -- The proof that a forwarded call brings.
  abbrev pub PaidWith : GateStore → ℤ → Draw → GateStore → Type 0
  PaidWith m price w m' = (p : Proof) × FirstUse cfg.env m price w.now m' p

  mcp_settle-ok :
      (m : GateStore) (price : ℤ) (pp : PaymentPayload) (now : ℕ) (out : Outcome)
      → (settle_full cfg.env m pp price now).0 ≡ ok out
      → mcp_settle cfg json m pp price now
        ≡ (ok (out.response, out.already), (settle_full cfg.env m pp price now).1)
  unfolding mcp_settle
  mcp_settle-ok m price pp now out e = rw (e, mcp_settle) refl

  mcp_settle-err :
      (m : GateStore) (price : ℤ) (pp : PaymentPayload) (now : ℕ) (reason : Reason)
      → (settle_full cfg.env m pp price now).0 ≡ err reason
      → mcp_settle cfg json m pp price now ≡ (err reason, (settle_full cfg.env m pp price now).1)
  unfolding mcp_settle
  mcp_settle-err m price pp now reason e = rw (e, mcp_settle) refl

  settle_tool-PaidWith :
      (m : GateStore) (url tool : Bytes) (price : ℤ) (pp : PaymentPayload) (w : Draw)
      → Forwards (settle_tool cfg json m url tool price pp w).0
      → PaidWith m price w (settle_tool cfg json m url tool price pp w).1
  unfolding settle_tool
  settle_tool-PaidWith m url tool price pp w f =
      let s = settle_full cfg.env m pp price w.now in
      elim (verified_cases s.0) [
        | inr (reason, refused) ↦
            let same =
              ap (after_settle cfg json url tool price w)
                (mcp_settle-err m price pp w.now reason refused) in
            absurd (
              write_tool_challenge-refuses s.1 url tool price (failed reason) w
                (subst (λ (z : McpReply × GateStore). Forwards z.0) same f))
        | inl (out, accepts) ↦
            let same =
              ap (after_settle cfg json url tool price w)
                (mcp_settle-ok m price pp w.now out accepts) in
            subst (λ (z : McpReply × GateStore). PaidWith m price w z.1) (sym same)
              (settle_full-first cfg.env m pp price w.now out accepts (
                settled_reply-Forwards out
                  (subst (λ (z : McpReply × GateStore). Forwards z.0) same f)))
      ]

  call_per_call-PaidWith :
      (m : GateStore) (url : Bytes) (call : ToolCall) (price : ℤ) (w : Draw)
      → Forwards (call_per_call cfg json m url call price w).0
      → PaidWith m price w (call_per_call cfg json m url call price w).1
  unfolding call_per_call
  call_per_call-PaidWith m url call price w f =
      elim (MetaPayment-cases (decode_meta_payment json call.meta)) [
        | inl (inl none_given) ↦ absurd (
            write_tool_challenge-refuses m url call.name price unpaid w
              (rw (none_given, call_per_call) at f))
        | inl (inr broken) ↦ absurd (
            write_tool_challenge-refuses m url call.name price malformed_payment w
              (rw (broken, call_per_call) at f))
        | inr (pp, given) ↦
            rw (given, call_per_call)
              (settle_tool-PaidWith m url call.name price pp w (rw (given, call_per_call) at f))
      ]

  module _ (u : Upstream) (b : Books) (r : McpRequest) (price : ℤ) (w : Draw) where
    -- What a forwarded call leaves: the account of its credential was charged the price, or a proof
    -- was used for the first time.
    abbrev pub Paid : Books → Type 0
    Paid b' =
        ((total : ℤ) × (str_eq u.mode mode_credits ≡ true)
          × IsCharged cfg b r.authorization price [] w.now (done total, b'))
        ⊎ ((str_eq u.mode mode_credits ≡ false)
            × (b'.ledger ≡ b.ledger)
            × PaidWith b.store price w b'.store)

    credits-Paid :
        (c : Credit ℤ × Books)
        → str_eq u.mode mode_credits ≡ true
        → IsCharged cfg b r.authorization price [] w.now c
          ⊎ IsDeclined cfg b r.authorization price [] w.now c
        → Forwards (credit_reply c).0
        → Paid (credit_reply c).1
    credits-Paid (done total, b') credits (inl charge) f = inl (total, credits, charge)
    credits-Paid (declined e, b') credits x f = absurd f
    credits-Paid (done total, b') credits (inr (e, q)) f = absurd cc

    -- The reply and the books, where a forwarded call is paid.
    abbrev pub PaidIfForwarded : McpReply × Books → Type 0
    PaidIfForwarded z = Forwards z.0 → Paid z.1

    stored-Paid :
        (z : McpReply × GateStore)
        → str_eq u.mode mode_credits ≡ false
        → (Forwards z.0 → PaidWith b.store price w z.1)
        → PaidIfForwarded (stored b z)
    stored-Paid (reply, m) per_call paid f = inr (per_call, refl, paid f)

    call_priced-Paid : (call : ToolCall) → PaidIfForwarded (call_priced cfg json u b r call price w)
    unfolding call_priced
    call_priced-Paid call = elim (Bool-cases (str_eq u.mode mode_credits)) [
      | inl credits ↦
          let c = charge_credential cfg b r.authorization price [] w.now in
          let same : call_priced cfg json u b r call price w ≡ credit_reply c =
            rw (credits, call_priced) refl in
          subst PaidIfForwarded (sym same)
            (credits-Paid c credits (charge_credential-cases cfg b r.authorization price [] w.now))
      | inr per_call ↦
          let z = call_per_call cfg json b.store r.url call price w in
          let same : call_priced cfg json u b r call price w ≡ stored b z =
            rw (per_call, call_priced) refl in
          subst PaidIfForwarded (sym same)
            (stored-Paid z per_call (call_per_call-PaidWith b.store r.url call price w))
    ]

module _ (cfg : Config) (json : MetaCodec) (rpc : Rpc) where
  -- `PaidIfForwarded` of the upstream's price for the tool.
  abbrev PaidTool : Upstream → Books → McpRequest → Draw → ToolCall → McpReply × Books → Type 0
  PaidTool u b r w call z = PaidIfForwarded cfg json u b r (tool_price_for u call.name) w z

  refused-PaidTool :
      (u : Upstream) (b b' : Books) (r : McpRequest) (w : Draw) (call : ToolCall)
      → PaidTool u b r w call (bad_request, b')
  refused-PaidTool u b b' r w call f = absurd f

  call_tool-PaidTool :
      (u : Upstream) (b : Books) (r : McpRequest) (w : Draw) (call : ToolCall)
      → leb_ℤ (tool_price_for u call.name) (pos 0) ≡ false
      → PaidTool u b r w call (call_tool cfg json u b r call w)
  unfolding call_tool
  call_tool-PaidTool u b r w call priced =
      let price = tool_price_for u call.name in
      let same : call_tool cfg json u b r call w ≡ call_priced cfg json u b r call price w =
        ap (λ x. if x then (passed, b) else call_priced cfg json u b r call price w) priced in
      subst (PaidTool u b r w call) (sym same) (call_priced-Paid cfg json u b r price w call)

  handle_tool_call-PaidTool :
      (u : Upstream) (b : Books) (r : McpRequest) (w : Draw) (params : Bytes) (call : ToolCall)
      → rpc.tool_call params ≡ some call
      → leb_ℤ (tool_price_for u call.name) (pos 0) ≡ false
      → PaidTool u b r w call (handle_tool_call cfg json rpc u b r params w)
  unfolding handle_tool_call
  handle_tool_call-PaidTool u b r w params call tool priced =
      elim (Bool-cases (duplicate_key (rpc.keys params) (codes "name"))) [
        | inl twice ↦
            let same : handle_tool_call cfg json rpc u b r params w ≡ (bad_request, b) =
              rw (tool, handle_tool_call, twice) refl in
            subst (PaidTool u b r w call) (sym same) (refused-PaidTool u b b r w call)
        | inr once ↦
            let same : handle_tool_call cfg json rpc u b r params w
                ≡ call_tool cfg json u b r call w =
              rw (tool, handle_tool_call, once) refl in
            subst (PaidTool u b r w call) (sym same) (call_tool-PaidTool u b r w call priced)
      ]

  -- A `tools/call`, posted as a single message, of a tool that has a price reaches the upstream in
  -- two cases only: the upstream takes credits, and the account of the request's credential was
  -- charged the price; or it is paid per call, the ledger is as before, and a payment was admitted
  -- for the price whose proof had not settled anything before.
  pub mcp_handler-Paid :
      (u : Upstream) (b : Books) (r : McpRequest) (w : Draw) (body : Bytes) (msg : Message)
      (call : ToolCall)
      → r.is_post ≡ true
      → r.body ≡ some body
      → is_batch (trim_left_json body) ≡ false
      → rpc.message body ≡ some msg
      → str_eq msg.method tools_call ≡ true
      → rpc.tool_call msg.params ≡ some call
      → leb_ℤ (tool_price_for u call.name) (pos 0) ≡ false
      → Forwards (mcp_handler cfg json rpc u b r w).0
      → Paid cfg json u b r (tool_price_for u call.name) w (mcp_handler cfg json rpc u b r w).1
  unfolding mcp_handler
  mcp_handler-Paid u b r w body msg call post has_body single reads calls tool priced f =
      elim (Bool-cases (ltb max_body (length body))) [
        | inl large ↦
            let f' : Forwards too_large = rw (post, mcp_handler, has_body, large) at f in absurd f'
        | inr small ↦
            let same : mcp_handler cfg json rpc u b r w
                ≡ handle_tool_call cfg json rpc u b r msg.params w =
              rw (post, mcp_handler, has_body, small, single, reads, handle_message, calls) refl in
            subst (PaidTool u b r w call) (sym same)
              (handle_tool_call-PaidTool u b r w msg.params call tool priced) f
      ]
