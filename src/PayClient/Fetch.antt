-- ===== src/PayClient/Fetch.antt =====
-- `FetchPaid` of agent/payclient/payclient.go, step by step. The server answers the requests of one
-- call, which are numbered: 0 for the first, 1 for the bare one after a refused credential, 2 for the
-- one with the proof.
use dcr.Prelude.{
  ℕ, ◌/◌, Bool, true, false, not, ◌&&◌, ◌||◌, [], ◌∷◌, ◌++◌, Option, none, some, ltb, ◌==◌,
  if◌then◌else◌,
}
use dcr.Prelude.Int64.{ℤ, pos, ltb_ℤ}
use dcr.Prelude.Bytes.{Bytes, codes, str_eq}
use dcr.Policy.{Attempt, domain}
use dcr.AgentStore.{Token}
use dcr.Gate.X402.{int_eq}
use dcr.L402.Headers.{scheme_l402}
use dcr.PayClient.{
  FetchOptions, Rail, free, cached, x402, Request, Response, FetchResult, PayChallenge, FetchError,
  invalid_url, no_answer, above_guard, no_gate, bad_challenge, gate_error, payment_failed,
  encode_failed, retry_failed, unexpected_status, paid_but_refused, proceed, refuse, Codecs, Ports,
}
use dcr.PayClient.Challenge.{ok, err, parse_challenge}

abbrev pub Server : Type 0
Server = ℕ → Request → Option Response

-- The cached authorization, where there is one that is not past its time.
abbrev pub usable_token : Option Token → ℕ → Bytes
usable_token none now = []
usable_token (some tok) now =
    if int_eq tok.valid_until (pos 0) || ltb_ℤ (pos (now / 1_000_000_000)) tok.valid_until
    then tok.authorization
    else []

abbrev pub request : FetchOptions → Bytes → Bytes → Bytes → Request
request opt url authorization payment_signature = record {
  method = if str_eq opt.method [] then codes "GET" else opt.method;
  url = url;
  body = opt.body;
  content_type = opt.content_type;
  authorization = authorization;
  payment_signature = payment_signature;
}

-- Where the unpaid requests lead: the resource, a challenge, another status, or no answer.
pub data Approach : Type 0 where
  served : Rail → Response → Approach
  challenged unexpected : Response → Approach
  unanswered : Approach

abbrev pub classify : Response → Approach
classify r = if r.status == 402 then challenged r else unexpected r

abbrev pub attempt_for : Bytes → PayChallenge → FetchOptions → Attempt
attempt_for host ch opt = record {
  tool = codes "fetch_paid";
  rail = codes "ln";
  dest_kind = domain;
  dest = host;
  amount_atoms = ch.amount_atoms;
  memo = opt.memo;
}

abbrev pub is_above_guard : ℤ → ℤ → Bool
is_above_guard guard amount = ltb_ℤ (pos 0) guard && ltb_ℤ guard amount

abbrev pub is_x402 : Rail → Bool
is_x402 x402 = true
is_x402 _ = false

abbrev pub bare_result : Response → Option Rail → FetchResult
bare_result r rail = record {
  status = r.status;
  body = r.body;
  rail = rail;
  paid_atoms = pos 0;
  fee_atoms = pos 0;
  invoice = [];
  preimage = [];
  attempt_id = 0;
  token_cached = false;
}

abbrev pub paid_result : PayChallenge → ℕ → Bytes → ℤ → FetchResult
paid_result ch attempt_id preimage fee = record {
  status = 0;
  body = [];
  rail = some ch.rail;
  paid_atoms = ch.amount_atoms;
  fee_atoms = fee;
  invoice = ch.invoice;
  preimage = preimage;
  attempt_id = attempt_id;
  token_cached = false;
}

-- What a call returns: Go's result and error, either of which may be absent.
abbrev pub Answer : Type 0 → Type 0
Answer E = Option FetchResult × Option (FetchError E)

-- What the policy hook answered, where that is the error of the call.
abbrev pub gate_answer : {E : Type 0} → Option (FetchError E) → Option E
gate_answer (some (gate_error e)) = some e
gate_answer _ = none

module _ {S E : Type 0} (c : Codecs) (caip2 : Bytes) (ports : Ports S E) (server : Server) where
  -- The bare request after a credential that was not honoured.
  unfoldable pub approach_bare : S → Bytes → FetchOptions → Approach × S
  approach_bare s url opt = elim (server 1 (request opt url [] [])) [
    | none ↦ (unanswered, s)
    | some r ↦ if ltb r.status 300 then (served free r, s) else (classify r, s)
  ]

  abbrev pub is_refused : Bytes → Response → Bool
  is_refused auth r = not (str_eq auth []) && (r.status == 401 || r.status == 402)

  -- Step 1: the request with the cached credential, or bare.
  unfoldable pub approach : S → Bytes → Bytes → FetchOptions → ℕ → Approach × S
  unfolding approach_bare
  approach s host url opt now =
      let auth = usable_token (ports.get_token s host) now in
      elim (server 0 (request opt url auth [])) [
        | none ↦ (unanswered, s)
        | some r ↦
            if ltb r.status 300
            then (if str_eq auth []
                then (served free r, s)
                else (served cached r, ports.touch_token s host now))
            else if is_refused auth r
            then approach_bare (ports.delete_token s host) url opt
            else (classify r, s)
      ]

  abbrev pub usable_delivery : Option (Bytes × ℤ) → Option (Bytes × ℤ)
  usable_delivery none = none
  usable_delivery (some (authorization, until)) =
      if str_eq authorization [] then none else some (authorization, until)

  abbrev pub delivered : Option (Option Bytes) → Option (Bytes × ℤ)
  delivered (some (some info)) = usable_delivery (c.delivery info)
  delivered _ = none

  -- The credential to cache, with the time that it is valid until.
  unfoldable pub new_credential : PayChallenge → Bytes → Response → Option (Bytes × ℤ)
  new_credential ch retry_auth r =
      if is_x402 ch.rail
      then (if str_eq r.payment_response []
          then none
          else delivered (c.settlement r.payment_response))
      else some (retry_auth, pos 0)

  -- Step 6.
  unfoldable pub cache_token :
      S → Bytes → PayChallenge → FetchResult → Option (Bytes × ℤ) → ℕ → Answer E × S
  cache_token s host ch result none now = ((some result, none), s)
  cache_token s host ch result (some (authorization, until)) now =
      let (stored, s') = ports.put_token s (record {
        service_host = host;
        authorization = authorization;
        valid_until = until;
        paid_atoms = ch.amount_atoms;
        created_at = now;
        last_used = now;
      }) in
      ((some (record result { token_cached = stored }), none), s')

  -- The header values of the paid request: `Authorization` and `PAYMENT-SIGNATURE`.
  unfoldable pub proof_headers : PayChallenge → Bytes → Option (Bytes × Bytes)
  proof_headers ch preimage =
      if is_x402 ch.rail
      then elim (c.encode_retry (record {
        version = pos 2;
        resource = ch.resource;
        accepted = ch.entry;
        preimage = preimage;
        payment_hash = ch.payment_hash;
        extensions = ch.extensions;
      })) [ none ↦ none | some sig ↦ some ([], sig) ]
      else some (scheme_l402 ++ (codes " " ++ (ch.macaroon_b64 ++ (b':' ∷ preimage))), [])

  -- Step 5: the request with the proof.
  unfoldable pub retry :
      S → Bytes → Bytes → FetchOptions → PayChallenge → FetchResult → ℕ → Answer E × S
  unfolding proof_headers cache_token new_credential
  retry s host url opt ch result now = elim (proof_headers ch result.preimage) [
    | none ↦ ((some result, some encode_failed), s)
    | some (auth, sig) ↦ elim (server 2 (request opt url auth sig)) [
      | none ↦ ((some result, some retry_failed), s)
      | some r ↦
          let result' = record result { status = r.status; body = r.body } in
          if ltb r.status 300
          then cache_token s host ch result' (new_credential ch auth r) now
          else ((some result', some (paid_but_refused r.status)), s)
    ]
  ]

  -- Step 4, on an attempt that the hook let pass.
  unfoldable pub pay_challenge :
      S → Bytes → Bytes → FetchOptions → PayChallenge → ℕ → ℕ → Answer E × S
  unfolding retry
  pay_challenge s host url opt ch attempt_id now =
      let (paid, s') = ports.pay s attempt_id ch in
      elim paid [
        | none ↦ ((none, some payment_failed), s')
        | some (preimage, fee) ↦
            retry s' host url opt ch (paid_result ch attempt_id preimage fee) now
      ]

  -- Step 3: the policy hook, before any payment.
  unfoldable pub ask_gate : S → Bytes → Bytes → FetchOptions → PayChallenge → ℕ → Answer E × S
  unfolding pay_challenge
  ask_gate s host url opt ch now =
      if is_above_guard opt.max_amount_atoms ch.amount_atoms
      then ((none, some above_guard), s)
      else elim ports.gate [
        | none ↦ ((none, some no_gate), s)
        | some gate ↦
            let (answer, s') = gate s (attempt_for host ch opt) in
            elim answer [
              | refuse e ↦ ((none, some (gate_error e)), s')
              | proceed id ↦ pay_challenge s' host url opt ch id now
            ]
      ]

  -- Step 2, and what the other answers give.
  unfoldable pub follow : Approach × S → Bytes → Bytes → FetchOptions → ℕ → Answer E × S
  unfolding ask_gate
  follow (unanswered, s) host url opt now = ((none, some no_answer), s)
  follow (served rail r, s) host url opt now = ((some (bare_result r (some rail)), none), s)
  follow (unexpected r, s) host url opt now =
      ((some (bare_result r none), some (unexpected_status r.status)), s)
  follow (challenged r, s) host url opt now = elim (parse_challenge c caip2 r opt.force_legacy) [
    | err e ↦ ((none, some (bad_challenge e)), s)
    | ok ch ↦ ask_gate s host url opt ch now
  ]

  unfoldable pub fetch_paid : S → Bytes → FetchOptions → ℕ → Answer E × S
  unfolding approach follow
  fetch_paid s url opt now = elim (c.host url) [
    | none ↦ ((none, some invalid_url), s)
    | some host ↦ follow (approach s host url opt now) host url opt now
  ]
