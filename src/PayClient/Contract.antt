-- ===== src/PayClient/Contract.antt =====
-- A rule for `FetchPaid`: what its operations keep, the whole call keeps, and it pays only what the
-- policy hook let pass.
use dcr.Prelude.{
  ℕ, ◌≡◌, ◌⊎◌, inl, inr, refl, Bool, Option, none, some, arith, Bool-cases, Option-cases, ltb, List,
  [], ◌∷◌,
}
use dcr.Prelude.Int64.{ℤ, pos, ◌<ℤ◌}
use dcr.Prelude.Bytes.{Bytes}
use dcr.Policy.{Attempt}
use dcr.AgentStore.{Token}
use dcr.PayClient.{
  FetchOptions, FetchError, payment_failed, above_guard, no_gate, no_answer, bad_challenge,
  invalid_url, FetchResult, PayChallenge, Response, Admission, proceed, refuse, Codecs, Ports,
  PaymentRequired, Invoice, ChallengeError,
}
use dcr.L402 as L402
use dcr.L402.Headers as Headers
use dcr.L402.Headers.{find_challenge}
use dcr.Gate.X402.{Requirements}
use dcr.Gate.Verify.{LightningExtra}
use dcr.PayClient.Challenge.{
  Parsed, ok, err, parse_challenge, parse_x402, first_entry, read_entry, read_l402, agree,
  read_invoice,
}
use dcr.PayClient.Fetch.{
  gate_answer, Server, Approach, Answer, approach, approach_bare, follow, ask_gate, pay_challenge,
  retry, cache_token, proof_headers, new_credential, fetch_paid, attempt_for, is_above_guard,
  served, challenged, unexpected, unanswered, paid_result, request,
}

-- `Asks` holds of the attempts that the hook is asked about. `I` holds between payments, `May s id amount` where the hook has let a payment pass, and
-- `J s id amount` after the rail has confirmed it, and `K s e` where it has refused with `e`.
pub record Contract {S E : Type 0} (ports : Ports S E) (Asks : Attempt → Type 0) (I : S → Type 0)
    (May J : S → ℕ → ℤ → Type 0) (K : S → E → Type 0) : Type 0 where
  pub puts : (s : S) (t : Token) (id : ℕ) (n : ℤ) → J s id n → J (ports.put_token s t).1 id n
  pub touches : (s : S) (host : Bytes) (at : ℕ) → I s → I (ports.touch_token s host at)
  pub deletes : (s : S) (host : Bytes) → I s → I (ports.delete_token s host)
  pub gates :
      (g : S → Attempt → Admission E × S)
      → ports.gate ≡ some g
      → (s : S) (a : Attempt) → Asks a
      → I s
      → I (g s a).1
        × ((id : ℕ) → (g s a).0 ≡ proceed id → May (g s a).1 id a.amount_atoms)
        × ((e : E) → (g s a).0 ≡ refuse e → K (g s a).1 e)
  pub fails :
      (s : S) (id : ℕ) (ch : PayChallenge)
      → I s
      → May s id ch.amount_atoms
      → (ports.pay s id ch).0 ≡ none
      → I (ports.pay s id ch).1
  pub pays :
      (s : S) (id : ℕ) (ch : PayChallenge) (r : Bytes × ℤ)
      → I s
      → May s id ch.amount_atoms
      → (ports.pay s id ch).0 ≡ some r
      → J (ports.pay s id ch).1 id ch.amount_atoms

-- What a call leaves: a result that names a payment comes with the payment, and a refusal of the
-- hook with what it left.
abbrev pub Leaves :
    {S E : Type 0} → (S → Type 0) → (S → ℕ → ℤ → Type 0) → (S → E → Type 0) → Answer E × S → Type 0
Leaves I J K ((none, e), s) = I s × ((x : _) → gate_answer e ≡ some x → K s x)
Leaves I J K ((some r, e), s) =
    (gate_answer e ≡ none)
    × (((r.paid_atoms ≡ pos 0) × I s) ⊎ ((pos 0 <ℤ r.paid_atoms) × J s r.attempt_id r.paid_atoms))

Admission-cases :
    {E : Type 0} (a : Admission E) → ((id : ℕ) × (a ≡ proceed id)) ⊎ ((e : E) × (a ≡ refuse e))
Admission-cases (proceed id) = inl (id, refl)
Admission-cases (refuse e) = inr (e, refl)

Parsed-cases {ℓ} :
    {A : Type ℓ} (v : Parsed A)
    → ((a : A) × (v ≡ Parsed.ok a)) ⊎ ((e : ChallengeError) × (v ≡ Parsed.err e))
Parsed-cases (ok a) = inl (a, refl)
Parsed-cases (err e) = inr (e, refl)

abbrev IsPositive : PayChallenge → Type 0
IsPositive ch = pos 0 <ℤ ch.amount_atoms

module _ (c : Codecs) (caip2 : Bytes) where
  -- What the checks that agree read is about the amount of the entry.
  agree_amount :
      (pr : PaymentRequired) (entry : Requirements) (extra : LightningExtra) (inv : Invoice)
      (amount : ℤ) (ch : PayChallenge)
      → agree c caip2 pr entry extra inv amount ≡ ok ch
      → ch.amount_atoms ≡ amount
  unfolding agree
  agree_amount pr entry extra inv amount ch e = ground arith

  read_entry-IsPositive :
      (pr : PaymentRequired) (entry : Requirements) (ch : PayChallenge)
      → read_entry c caip2 pr entry ≡ ok ch
      → IsPositive ch
  unfolding read_entry
  read_entry-IsPositive pr entry ch e = ground (arith, agree_amount pr entry)

  first_entry-IsPositive :
      (pr : PaymentRequired) (entries : List Requirements) (ch : PayChallenge)
      → first_entry c caip2 pr entries ≡ ok ch
      → IsPositive ch
  unfolding first_entry
  first_entry-IsPositive pr [] ch e = ground arith
  first_entry-IsPositive pr (entry ∷ more) ch e =
      ground (arith, read_entry-IsPositive pr entry ch, first_entry-IsPositive pr more ch)

  read_l402-IsPositive :
      (found : Option (L402.Result Headers.Challenge)) (ch : PayChallenge)
      → read_l402 c caip2 found ≡ ok ch
      → IsPositive ch
  unfolding read_invoice
  read_l402-IsPositive none ch e = ground arith
  read_l402-IsPositive (some (L402.err x)) ch e = ground arith
  read_l402-IsPositive (some (L402.ok l4)) ch e = ground arith

  parse_x402-IsPositive :
      (header : Bytes) (ch : PayChallenge) → parse_x402 c caip2 header ≡ ok ch → IsPositive ch
  unfolding parse_x402
  parse_x402-IsPositive header ch e = elim (Option-cases (c.payment_required header)) [
    | inl unread ↦ ground arith
    | inr (pr, read) ↦ ground (arith, first_entry-IsPositive pr pr.accepts ch)
  ]

  -- Every challenge that is read asks for a positive amount.
  parse_challenge-IsPositive :
      (r : Response) (force_legacy : Bool) (ch : PayChallenge)
      → parse_challenge c caip2 r force_legacy ≡ ok ch
      → IsPositive ch
  unfolding parse_challenge
  parse_challenge-IsPositive r force_legacy ch e = ground (
    arith,
    parse_x402-IsPositive r.payment_required ch,
    read_l402-IsPositive (find_challenge c.base64_decode r.www_authenticate) ch,
  )

module _ {S E : Type 0} (c : Codecs) (caip2 : Bytes) (ports : Ports S E) (server : Server)
    {Asks : Attempt → Type 0} {I : S → Type 0} {May J : S → ℕ → ℤ → Type 0} {K : S → E → Type 0}
    (k : Contract ports Asks I May J K) where
  stopped :
      (s : S) (e : FetchError E)
      → gate_answer (some e) ≡ none
      → I s
      → I s × ((x : E) → gate_answer (some e) ≡ some x → K s x)
  stopped s e q i = (i, λ x p. absurd cc)

  cache_token-Leaves :
      (s : S) (host : Bytes) (ch : PayChallenge) (r : FetchResult) (cred : Option (Bytes × ℤ))
      (now : ℕ)
      → pos 0 <ℤ r.paid_atoms
      → J s r.attempt_id r.paid_atoms
      → Leaves I J K (cache_token c caip2 ports server s host ch r cred now)
  unfolding cache_token
  cache_token-Leaves s host ch r none now p j = (refl, inr (p, j))
  cache_token-Leaves s host ch r (some (auth, until)) now p j = (refl, inr (p, k.puts s _ _ _ j))

  retry-Leaves :
      (s : S) (host url : Bytes) (opt : FetchOptions) (ch : PayChallenge) (r : FetchResult)
      (now : ℕ)
      → pos 0 <ℤ r.paid_atoms
      → J s r.attempt_id r.paid_atoms
      → Leaves I J K (retry c caip2 ports server s host url opt ch r now)
  unfolding retry
  retry-Leaves s host url opt ch r now p j =
      elim (Option-cases (proof_headers c caip2 ports server ch r.preimage)) [
        | inl unencoded ↦ rw (unencoded, retry) (refl, inr (p, j))
        | inr (h, encoded) ↦ elim (Option-cases (server 2 (request opt url h.0 h.1))) [
          | inl silent ↦ rw (encoded, silent, retry) (refl, inr (p, j))
          | inr (resp, answered) ↦ elim (Bool-cases (ltb resp.status 300)) [
            | inl accepted ↦
                rw (encoded, answered, accepted, retry)
                  (cache_token-Leaves s host ch _ (new_credential c caip2 ports server ch h.0 resp)
                    now p j)
            | inr refused ↦ rw (encoded, answered, refused, retry) (refl, inr (p, j))
          ]
        ]
      ]

  pay_challenge-Leaves :
      (s : S) (host url : Bytes) (opt : FetchOptions) (ch : PayChallenge) (id now : ℕ)
      → pos 0 <ℤ ch.amount_atoms
      → I s
      → May s id ch.amount_atoms
      → Leaves I J K (pay_challenge c caip2 ports server s host url opt ch id now)
  unfolding pay_challenge
  pay_challenge-Leaves s host url opt ch id now p i m = elim (Option-cases (ports.pay s id ch).0) [
    | inl failed ↦
        rw (failed, pay_challenge) (stopped _ payment_failed refl (k.fails s id ch i m failed))
    | inr (paid, confirmed) ↦
        rw (confirmed, pay_challenge)
          (retry-Leaves (ports.pay s id ch).1 host url opt ch (paid_result ch id paid.0 paid.1) now
            p (k.pays s id ch paid i m confirmed))
  ]

  ask_gate-Leaves :
      (s : S) (host url : Bytes) (opt : FetchOptions) (ch : PayChallenge) (now : ℕ)
      → pos 0 <ℤ ch.amount_atoms
      → Asks (attempt_for host ch opt)
      → I s
      → Leaves I J K (ask_gate c caip2 ports server s host url opt ch now)
  unfolding ask_gate
  ask_gate-Leaves s host url opt ch now p asks i =
      elim (Bool-cases (is_above_guard opt.max_amount_atoms ch.amount_atoms)) [
        | inl above ↦ rw (above, ask_gate) (stopped s above_guard refl i)
        | inr within ↦ elim (Option-cases ports.gate) [
          | inl unset ↦ rw (within, unset, ask_gate) (stopped s no_gate refl i)
          | inr (g, set) ↦
              let (kept, may, refused) = k.gates g set s (attempt_for host ch opt) asks i in
              elim (Admission-cases (g s (attempt_for host ch opt)).0) [
                | inl (id, goes) ↦
                    rw (within, set, goes, ask_gate)
                      (pay_challenge-Leaves _ host url opt ch id now p kept (may id goes))
                | inr (e, stops) ↦
                    rw (within, set, stops, ask_gate) (kept, λ x q. ground (arith, refused x))
              ]
        ]
      ]

  approach-keeps :
      (s : S) (host url : Bytes) (opt : FetchOptions) (now : ℕ)
      → I s
      → I (approach c caip2 ports server s host url opt now).1
  unfolding approach approach_bare
  approach-keeps s host url opt now i = ground (arith, k.touches s host now i, k.deletes s host i)

  follow-Leaves :
      (a : Approach) (s : S) (host url : Bytes) (opt : FetchOptions) (now : ℕ)
      → ((ch : PayChallenge) → Asks (attempt_for host ch opt))
      → I s
      → Leaves I J K (follow c caip2 ports server (a, s) host url opt now)
  unfolding follow
  follow-Leaves unanswered s host url opt now asks i = stopped s no_answer refl i
  follow-Leaves (served rail r) s host url opt now asks i = (refl, inl (refl, i))
  follow-Leaves (unexpected r) s host url opt now asks i = (refl, inl (refl, i))
  follow-Leaves (challenged r) s host url opt now asks i =
      elim (Parsed-cases (parse_challenge c caip2 r opt.force_legacy)) [
        | inl (ch, read) ↦
            rw (read, follow)
              (ask_gate-Leaves s host url opt ch now
                (parse_challenge-IsPositive c caip2 r opt.force_legacy ch read) (asks ch) i)
        | inr (e, unread) ↦ rw (unread, follow) (stopped s (bad_challenge e) refl i)
      ]

  pub fetch_paid-Leaves :
      (s : S) (url : Bytes) (opt : FetchOptions) (now : ℕ)
      → ((host : Bytes) (ch : PayChallenge)
          → c.host url ≡ some host
          → Asks (attempt_for host ch opt))
      → I s
      → Leaves I J K (fetch_paid c caip2 ports server s url opt now)
  unfolding fetch_paid
  fetch_paid-Leaves s url opt now asks i = elim (Option-cases (c.host url)) [
    | inl bad ↦ rw (bad, fetch_paid) (stopped s invalid_url refl i)
    | inr (host, good) ↦
        rw (good, fetch_paid)
          (follow-Leaves _ _ host url opt now (λ ch. asks host ch good)
            (approach-keeps s host url opt now i))
  ]
