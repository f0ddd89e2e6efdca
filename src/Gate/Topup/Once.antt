-- ===== src/Gate/Topup/Once.antt =====
-- What a top-up credits, when its proof is presented again and when it had paid for a call before.
use dcr.Prelude.{
  ℕ, ◌≡◌, ◌≢◌, refl, sym, ◌∙◌, Bool, true, false, List, [], none, some, arith, ap, inl, inr,
}
use dcr.Prelude.Int64.{ℤ, pos, add64, ◌≤ℤ◌}
use dcr.Prelude.Bytes.{Bytes, lookup, lookup-insert_self}
use dcr.Ledger as Credits
use dcr.Ledger.{Ledger, balance, grant}
use dcr.Ledger.Replay.{grant_once}
use dcr.Gate.{GateStore, settle}
use dcr.Gate.Verify.{PaymentPayload, Verified, ok}
use dcr.Gate.Settle.{Env, Response, Outcome, Proof, admit, settle_full, outcome_of}
use dcr.Gate.Mint.{Config}
use dcr.Gate.Sound.Inversion.{verified_cases}
use dcr.Gate.Topup.{
  Books, TopupReply, credited, already_credited, not_verified, grant_failed, granted, status_of,
  settle_topup,
}

-- The settlement of an admitted payload whose settlement key was used before.
settle_full-used :
    (env : Env) (m : GateStore) (pp : PaymentPayload) (required : ℤ) (now : ℕ) (p : Proof)
    (account text : Bytes) (response : Response)
    → admit env m pp required now ≡ ok (p, account)
    → lookup p.settle_key m.settlements ≡ some text
    → env.responses.unmarshal text ≡ some response
    → settle_full env m pp required now ≡ (outcome_of env p account true (some response), m)
unfolding settle_full settle
settle_full-used env m pp required now p account text response e used decodes =
    rw (e, settle_full, used, settle, decodes) refl

grant-new :
    (l : Ledger) (account : Bytes) (amount : ℤ) (ref : Bytes)
    → ref ≢ []
    → pos 1 ≤ℤ amount
    → lookup ref l.grants ≡ none
    → ((grant l account amount ref).0 ≡ Credits.ok (add64 (balance l account) amount, false))
      × (balance (grant l account amount ref).1 account ≡ add64 (balance l account) amount)
unfolding grant balance
grant-new l account amount ref named positive new =
    ground (arith, lookup-insert_self account (add64 (balance l account) amount) l.balances)

granted-ok :
    (m : GateStore) (out : Outcome) (g : Credits.Result (ℤ × Bool) × Ledger) (total : ℤ)
    (known : Bool)
    → g.0 ≡ Credits.ok (total, known)
    → granted m out g ≡ (status_of out total known, record { store = m; ledger = some g.1 })
granted-ok m out (Credits.ok (t, k), l) total known e = cc
granted-ok m out (Credits.err r, l) total known e = cc

status_of-credited :
    (out out' : Outcome) (t total : ℤ) (known : Bool)
    → status_of out t known ≡ credited out' total
    → (out ≡ out') × (t ≡ total) × (known ≡ false)
status_of-credited out out' t total known e = ground arith

status_of-known :
    (out : Outcome) (total : ℤ) → status_of out total true ≡ already_credited out total
status_of-known out total = ground arith

credited_parts :
    (out out' : Outcome) (t total : ℤ)
    → credited out t ≡ credited out' total
    → (out ≡ out') × (t ≡ total)
credited_parts out out' t total e = (cc, cc)

-- A grant whose reply is that it was credited is one that went through, and is new.
granted-credited :
    (m : GateStore) (out out' : Outcome) (g : Credits.Result (ℤ × Bool) × Ledger) (total : ℤ)
    (b : Books)
    → granted m out g ≡ (credited out' total, b)
    → (out ≡ out') × (g.0 ≡ Credits.ok (total, false)) × (b.ledger ≡ some g.1)
granted-credited m out out' (Credits.err r, l) total b e =
    let e' : grant_failed r ≡ credited out' total = ap (λ (z : TopupReply × Books). z.0) e in
    absurd cc
granted-credited m out out' (Credits.ok (t, k), l) total b e =
    let s = status_of-credited out out' t total k (ap (λ (z : TopupReply × Books). z.0) e) in
    (s.0, rw (s.1, s.2) refl, sym (ap (λ (z : TopupReply × Books). z.1.ledger) e))

module _ (cfg : Config) where
  settle_topup-settled :
      (m : GateStore) (l : Ledger) (pp : PaymentPayload) (now : ℕ) (out : Outcome)
      → (settle_full cfg.env m pp (pos 0) now).0 ≡ ok out
      → settle_topup cfg m l pp now
        ≡ granted
            (settle_full cfg.env m pp (pos 0) now).1
            out
            (grant l out.account_id out.amount_atoms out.external_ref)
  unfolding settle_topup
  settle_topup-settled m l pp now out e = rw (e, settle_topup) refl

  settle_topup-credited :
      (m : GateStore) (l : Ledger) (pp : PaymentPayload) (now : ℕ) (out : Outcome) (total : ℤ)
      (b : Books)
      → settle_topup cfg m l pp now ≡ (credited out total, b)
      → let g = grant l out.account_id out.amount_atoms out.external_ref in
        (g.0 ≡ Credits.ok (total, false)) × (b.ledger ≡ some g.1)
  unfolding settle_topup
  settle_topup-credited m l pp now out total b e =
      elim (verified_cases (settle_full cfg.env m pp (pos 0) now).0) [
        | inr (reason, refused) ↦
            let e' : (settle_topup cfg m l pp now).0 ≡ credited out total =
              ap (λ (z : TopupReply × Books). z.0) e in
            let e'' : not_verified reason ≡ credited out total = rw (refused, settle_topup) at e' in
            absurd cc
        | inl (out', settled) ↦
            let g : Outcome → Credits.Result (ℤ × Bool) × Ledger =
              λ o. grant l o.account_id o.amount_atoms o.external_ref in
            let c =
              granted-credited (settle_full cfg.env m pp (pos 0) now).1 out' out (g out') total b
                (sym (settle_topup-settled m l pp now out' settled) ∙ e) in
            (sym (ap (λ o. (g o).0) c.0) ∙ c.1, c.2 ∙ ap (λ o. some (g o).1) c.0)
      ]

  -- A proof that settled a gated call before and that no top-up has credited yet is credited in full
  -- by the top-up endpoint: the account's balance rises by the challenge's amount, although the reply
  -- says that it was credited already.
  pub spent_proof_credits :
      (m : GateStore) (l : Ledger) (pp : PaymentPayload) (now : ℕ) (p : Proof)
      (account text : Bytes) (response : Response)
      → admit cfg.env m pp (pos 0) now ≡ ok (p, account)
      → lookup p.settle_key m.settlements ≡ some text
      → cfg.env.responses.unmarshal text ≡ some response
      → p.external_ref ≢ []
      → pos 1 ≤ℤ p.amount_atoms
      → lookup p.external_ref l.grants ≡ none
      → (l' : Ledger) × (out : Outcome) × (total : ℤ) × (settle_topup cfg m l pp now
          ≡ (already_credited out total, record { store = m; ledger = some l' }))
        × (total ≡ add64 (balance l account) p.amount_atoms)
        × (balance l' account ≡ total)
  unfolding settle_topup
  spent_proof_credits m l pp now p account text response e used decodes named positive new =
      let g = grant l account p.amount_atoms p.external_ref in
      let credits = grant-new l account p.amount_atoms p.external_ref named positive new in
      let out' : Outcome = record {
        response = response;
        already = true;
        account_id = account;
        rail = p.rail;
        external_ref = p.external_ref;
        amount_atoms = p.amount_atoms;
      } in
      let full = settle_full-used cfg.env m pp (pos 0) now p account text response e used decodes in
      (
        g.1,
        out',
        add64 (balance l account) p.amount_atoms,
        settle_topup-settled m l pp now out' (ap (λ (z : Verified Outcome × GateStore). z.0) full)
            ∙ ap (λ x. granted x out' g) (ap (λ (z : Verified Outcome × GateStore). z.1) full)
            ∙ granted-ok m out' g (add64 (balance l account) p.amount_atoms) false credits.0,
        refl,
        credits.1,
      )

  -- The proof of a top-up is credited once: after its credit, and whatever else is done with the
  -- store and the ledger, a payload that is admitted under the same external reference leaves the
  -- ledger as it is, and the reply gives the balance of the account that was credited.
  pub topup_credits_once :
      (m m2 : GateStore) (l : Ledger) (pp pp' : PaymentPayload) (now now' : ℕ) (out out' : Outcome)
      (b : Books) (total : ℤ) (cs : List Credits.Call)
      → settle_topup cfg m l pp now ≡ (credited out total, b)
      → (settle_full cfg.env m2 pp' (pos 0) now').0 ≡ ok out'
      → out'.external_ref ≡ out.external_ref
      → pos 1 ≤ℤ out'.amount_atoms
      → let l' = Credits.run (grant l out.account_id out.amount_atoms out.external_ref).1 cs in
        (b.ledger ≡ some (grant l out.account_id out.amount_atoms out.external_ref).1)
        × (settle_topup cfg m2 l' pp' now' ≡ (
          already_credited out' (balance l' out.account_id),
          record { store = (settle_full cfg.env m2 pp' (pos 0) now').1; ledger = some l' },
        ))
  unfolding settle_topup
  topup_credits_once m m2 l pp pp' now now' out out' b total cs e settled same positive =
      let l1 = (grant l out.account_id out.amount_atoms out.external_ref).1 in
      let l' = Credits.run l1 cs in
      let first = settle_topup-credited m l pp now out total b e in
      let again =
        grant_once l out.account_id out.amount_atoms out.external_ref total cs out'.account_id
          out'.amount_atoms first.0 positive in
      let again' = ap (λ ref. grant l' out'.account_id out'.amount_atoms ref) same ∙ again in
      (
        first.1,
        settle_topup-settled m2 l' pp' now' out' settled
            ∙ ap (λ x. granted (settle_full cfg.env m2 pp' (pos 0) now').1 out' x) again'
            ∙ ap
                (λ r. (
                  r,
                  record { store = (settle_full cfg.env m2 pp' (pos 0) now').1; ledger = some l' },
                ))
                (status_of-known out' (balance l' out.account_id)),
      )
