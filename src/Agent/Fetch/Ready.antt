-- ===== src/Agent/Fetch/Ready.antt =====
-- What the policy hook of a paid fetch asks of the system, and what its answers leave.
use dcr.Prelude.{
  ℕ, ◌<◌, ◌≡◌, ◌∙◌, subst, inl, inr, refl, Option, none, some, arith, Option-cases, Bool-cases,
}
use dcr.Prelude.Int64.{ℤ, ltb_ℤ}
use dcr.Prelude.Bytes.{Bytes, Dict, codes, lookup}
use dcr.Policy.{Outcome, allow, deny, escalate, Attempt, Decision}
use dcr.AgentStore.{
  Store, AttemptRow, Token, record_attempt, get_attempt, get_approval, touch_token,
}
use dcr.PayClient.{proceed, refuse}
use dcr.Agent.{System}
use dcr.Agent.Payments.{write_attempt, attempt_row}
use dcr.Agent.Extends.{Extends, record_attempt-Extends}
use dcr.Agent.Justified.{
  Recorded, Fetched, Fetched-mono, Approved, Approved-mono, Hosts, MayMove, Inv, Inv-extend,
}
use dcr.Agent.Steps.{FreshId, read_back, get_attempt-older}
use dcr.Agent.Fetch.{GateError, denied, challenge_changed, needs_approval, judge}

module _ (hosts : Hosts) (url : Bytes) where
  -- The owner approved a paid fetch from the URL's host, of the ceiling's amount.
  abbrev pub CeilingOk : Store → Option ℤ → Type 0
  CeilingOk m none = Unit
  CeilingOk m (some max_atoms) =
      (host : Bytes) × (hosts url ≡ some host)
      × ((first : ℕ) × Fetched m first max_atoms host × Approved m first)

  -- The same, of an attempt before the given one.
  abbrev Allowance : Store → ℕ → Option ℤ → Type 0
  Allowance m id none = Unit
  Allowance m id (some max_atoms) =
      (host : Bytes) × (hosts url ≡ some host)
      × ((first : ℕ) × (first < id) × Fetched m first max_atoms host × Approved m first)

  pub record Ready (id : Bytes) (ceiling : Option ℤ) (s : System) : Type 0 where
    pub inv : Inv hosts s
    pub fresh : FreshId s id
    pub ceiling_ok : CeilingOk s.store ceiling

  -- What a refusal of the hook leaves for the approval that it asks for.
  abbrev pub Refused : System → GateError → Type 0
  Refused s (needs_approval id d a) =
      (host : Bytes) × (hosts url ≡ some host) × Fetched s.store id a.amount_atoms host
  Refused s _ = Unit

  -- An attempt that the client asks the hook about: a paid fetch from the URL's host.
  abbrev pub Asked : Attempt → Type 0
  Asked a = (a.tool ≡ codes "fetch_paid") × (hosts url ≡ some a.dest)

  -- The attempt is on record, with the outcome.
  abbrev Logged : Store → ℕ → Attempt → Outcome → Type 0
  Logged m id a o =
      (row : AttemptRow) × (get_attempt m id ≡ some row)
      × (row.amount_atoms ≡ a.amount_atoms)
      × (row.decision ≡ o)
      × (row.tool ≡ a.tool)
      × (row.destination ≡ a.dest)

  Logged-Recorded :
      (m : Store) (id : ℕ) (a : Attempt) (o : Outcome)
      → Logged m id a o
      → Recorded m id a.amount_atoms o
  Logged-Recorded m id a o (row, e, n, d, t, h) = (row, e, n, d)

  Logged-Fetched :
      (m : Store) (id : ℕ) (a : Attempt) (host : Bytes)
      → Asked a
      → hosts url ≡ some host
      → Logged m id a escalate
      → Fetched m id a.amount_atoms host
  Logged-Fetched m id a host (tool, named) named' (row, e, n, d, t, h) =
      (row, e, n, d, t ∙ tool, h ∙ ground arith)

  pub logs :
      (s : System) (a : Attempt) (d : Decision) (now : ℕ)
      → let (id, s') = write_attempt s a d now in Logged s'.store id a d.outcome
  unfolding write_attempt
  logs s a d now = (_, read_back s.store (attempt_row a d now), refl, refl, refl, refl)

  CeilingOk-mono :
      {m m' : Store} (ceiling : Option ℤ)
      → Extends m m'
      → CeilingOk m ceiling
      → CeilingOk m' ceiling
  CeilingOk-mono none x h = tt
  CeilingOk-mono (some max_atoms) x (host, named, (first, r, said)) =
      (host, named, (first, Fetched-mono first max_atoms host x r, Approved-mono first x said))

  pub CeilingOk-Allowance :
      (m : Store) (row : AttemptRow) (ceiling : Option ℤ)
      → CeilingOk m ceiling
      → Allowance (record_attempt m row).1 (record_attempt m row).0 ceiling
  CeilingOk-Allowance m row none h = tt
  CeilingOk-Allowance m row (some max_atoms) (host, named, (first, r, said)) =
      let x = record_attempt-Extends m row in
      (
        host,
        named,
        (
          first,
          get_attempt-older m row first r.0 r.1,
          Fetched-mono first max_atoms host x r,
          Approved-mono first x said,
        ),
      )

  pub Ready-extend :
      {id : Bytes} {ceiling : Option ℤ} {s : System} {m : Store}
      → Extends s.store m
      → get_approval m id ≡ get_approval s.store id
      → Ready id ceiling s
      → Ready id ceiling (record s { store = m })
  Ready-extend {ceiling = ceiling} {s = s} x e r = record {
    inv = Inv-extend {s = s} x r.inv;
    fresh = e ∙ r.fresh;
    ceiling_ok = CeilingOk-mono ceiling x r.ceiling_ok;
  }

  pub tokens-Ready :
      {id : Bytes} {ceiling : Option ℤ} (s : System) (tokens : Dict Token)
      → Ready id ceiling s
      → Ready id ceiling (record s { store = record s.store { tokens = tokens } })
  unfolding get_approval get_attempt
  tokens-Ready s tokens r =
      Ready-extend {s = s}
        (record {
          attempts = λ i a e. e;
          approvals = λ k a e q. e;
          subjects = λ k a e. (a, e, refl);
        })
        refl r

  pub touch-Ready :
      {id : Bytes} {ceiling : Option ℤ} (s : System) (host : Bytes) (at : ℕ)
      → Ready id ceiling s
      → Ready id ceiling (record s { store = touch_token s.store host at })
  unfolding touch_token
  touch-Ready s host at r = elim (Option-cases (lookup host s.store.tokens)) [
    | inl missing ↦ rw (missing, touch_token) r
    | inr (t, found) ↦ rw (found, touch_token) (tokens-Ready s _ r)
  ]

  -- What the hook lets pass, the policy allowed, or an approval covers.
  pub judge-MayMove :
      (m : Store) (ceiling : Option ℤ) (o : Outcome) (id i : ℕ) (d : Decision) (a : Attempt)
      → Asked a
      → Allowance m id ceiling
      → Logged m id a o
      → judge ceiling o id d a ≡ proceed i
      → MayMove m i a.amount_atoms
  judge-MayMove m ceiling allow id i d a asked c r e =
      let same : id ≡ i = cc in rw (← same) (inl (Logged-Recorded m id a allow r))
  judge-MayMove m ceiling deny id i d a asked c r e = absurd (ground arith)
  judge-MayMove m none escalate id i d a asked c r e = absurd (ground arith)
  judge-MayMove m (some max_atoms) escalate id i d a asked (host, named, (first, earlier, g, said))
        r e =
      elim (Bool-cases (ltb_ℤ max_atoms a.amount_atoms)) [
        | inl above ↦ absurd (ground arith)
        | inr within ↦
            let same : id ≡ i = ground arith in
            rw (← same) (
              inr (
                inr (
                  host,
                  Logged-Fetched m id a host asked named r,
                  (first, max_atoms, earlier, ground arith, g, said),
                )))
      ]

  pub judge-Refused :
      (s : System) (ceiling : Option ℤ) (o : Outcome) (id : ℕ) (d : Decision) (a : Attempt)
      (e : GateError)
      → Asked a
      → Logged s.store id a o
      → judge ceiling o id d a ≡ refuse e
      → Refused s e
  judge-Refused s ceiling allow id d a e asked r q = absurd (ground arith)
  judge-Refused s ceiling deny id d a e asked r q =
      let same : denied d ≡ e = cc in subst (Refused s) same tt
  judge-Refused s none escalate id d a e asked r q =
      let same : needs_approval id d a ≡ e = cc in
      subst (Refused s) same (a.dest, asked.1, Logged-Fetched s.store id a a.dest asked asked.1 r)
  judge-Refused s (some max_atoms) escalate id d a e asked r q =
      elim (Bool-cases (ltb_ℤ max_atoms a.amount_atoms)) [
        | inl above ↦
            let same : challenge_changed (record d { outcome = deny }) a.amount_atoms max_atoms
                ≡ e =
              ground arith in
            subst (Refused s) same tt
        | inr within ↦ absurd (ground arith)
      ]
