-- ===== src/Gate/Once.antt =====
-- A payment settles once, and a revoked credential stays revoked.
use dcr.Prelude.{
  ℕ, ◌≡◌, ◌≢◌, refl, sym, subst, true, List, [], ◌∷◌, none, some, arith, Option-cases, inl, inr,
}
use dcr.Prelude.Int64.{ℤ}
use dcr.Prelude.Bytes.{
  Bytes, lookup, lookup-insert, lookup-erase, lookup-insert_self, lookup-erase_self,
}
use dcr.L402 as L402
use dcr.L402.{Crypto, Macaroon, Identifier, decode_identifier, storage_key}
use dcr.Gate.{
  GateStore, Challenge, OnchainChallenge, put_challenge, put_onchain_challenge, settle,
  put_root_key, get_root_key, delete_root_key,
}
use dcr.Gate.Verify.{PaymentPayload, ok}
use dcr.Gate.Settle.{Env, Proof, Response, admit, settle_full, response_for, authorize_token}

-- Any other call of the store that writes.
pub data Call : Type 0 where
  challenges : Challenge → Call
  challenges_onchain : OnchainChallenge → Call
  settles : Bytes → Bytes → Call
  mints : Bytes → Bytes → Call
  revokes : Bytes → Call

unfoldable pub step : GateStore → Call → GateStore
step m (challenges c) = put_challenge m c
step m (challenges_onchain c) = put_onchain_challenge m c
step m (settles hash response) = (settle m hash response).1
step m (mints key_id root_key) = put_root_key m key_id root_key
step m (revokes key_id) = delete_root_key m key_id

unfoldable pub run : GateStore → List Call → GateStore
run m [] = m
run m (c ∷ cs) = run (step m c) cs

-- The response that is kept for the hash.
abbrev pub Kept : GateStore → Bytes → Bytes → Type 0
Kept m hash response = lookup hash m.settlements ≡ some response

step-Kept :
    (m : GateStore) (c : Call) (hash response : Bytes)
    → Kept m hash response
    → Kept (step m c) hash response
unfolding step put_challenge put_onchain_challenge settle put_root_key delete_root_key
step-Kept m (challenges c) hash response k = k
step-Kept m (challenges_onchain c) hash response k = k
step-Kept m (settles h r) hash response k = ground (arith, lookup-insert hash h r m.settlements)
step-Kept m (mints key_id root_key) hash response k = k
step-Kept m (revokes key_id) hash response k = k

pub run-Kept :
    (m : GateStore) (cs : List Call) (hash response : Bytes)
    → Kept m hash response
    → Kept (run m cs) hash response
unfolding run
run-Kept m [] hash response k = k
run-Kept m (c ∷ cs) hash response k =
    run-Kept (step m c) cs hash response (step-Kept m c hash response k)

settle-Kept : (m : GateStore) (hash r : Bytes) → Kept (settle m hash r).1 hash (settle m hash r).0.0
unfolding settle
settle-Kept m hash r = elim (Option-cases (lookup hash m.settlements)) [
  | inl new ↦ rw (new, settle) (lookup-insert_self hash r m.settlements)
  | inr (prev, seen) ↦ rw (seen, settle) seen
]

settle_again :
    (m : GateStore) (hash response r : Bytes)
    → Kept m hash response
    → settle m hash r ≡ ((response, true), m)
unfolding settle
settle_again m hash response r k = rw (k, settle) refl

-- A payment hash is consumed once: whatever is stored after its settlement, a further settlement of
-- it answers with the response that the first one got, says that it was consumed before, and
-- changes nothing.
pub settle_once :
    (m : GateStore) (hash r : Bytes) (cs : List Call) (r' : Bytes)
    → let m' = run (settle m hash r).1 cs in settle m' hash r' ≡ (((settle m hash r).0.0, true), m')
settle_once m hash r cs r' =
    settle_again (run (settle m hash r).1 cs) hash (settle m hash r).0.0 r'
      (run-Kept (settle m hash r).1 cs hash (settle m hash r).0.0 (settle-Kept m hash r))

pub settle_full-Kept :
    (env : Env) (m : GateStore) (pp : PaymentPayload) (required : ℤ) (now : ℕ) (p : Proof)
    (account : Bytes)
    → admit env m pp required now ≡ ok (p, account)
    → (settle_full env m pp required now).1
      ≡ (settle m p.settle_key (env.responses.marshal (response_for env pp p now))).1
unfolding settle_full
settle_full-Kept env m pp required now p account e = rw (e, settle_full) refl

pub settle_new-Kept :
    (m : GateStore) (hash r : Bytes)
    → lookup hash m.settlements ≡ none
    → Kept (settle m hash r).1 hash r
unfolding settle
settle_new-Kept m hash r new = rw (new, settle) (lookup-insert_self hash r m.settlements)

settle_full-again :
    (env : Env) (m : GateStore) (pp : PaymentPayload) (required : ℤ) (now : ℕ) (p : Proof)
    (account text : Bytes) (response : Response)
    → admit env m pp required now ≡ ok (p, account)
    → Kept m p.settle_key text
    → env.responses.unmarshal text ≡ some response
    → settle_full env m pp required now ≡ (
      ok (record {
        response = response;
        already = true;
        account_id = account;
        rail = p.rail;
        external_ref = p.external_ref;
        amount_atoms = p.amount_atoms;
      }),
      m,
    )
unfolding settle_full
settle_full-again env m pp required now p account text response e kept decodes =
    rw
      (
        e,
        settle_full,
        settle_again m p.settle_key text (env.responses.marshal (response_for env pp p now)) kept,
        decodes,
      )
      refl

-- A proof is not paid out twice: after a settlement went through, and whatever else is stored since,
-- a payload that is admitted under the same settlement key, for any price and at any time, gets the
-- response of the first settlement, marked as settled already, and the store is left as it is.
pub settle_full_once :
    (env : Env) (m : GateStore) (pp pp' : PaymentPayload) (required required' : ℤ) (now now' : ℕ)
    (p p' : Proof) (account account' : Bytes) (cs : List Call)
    → lookup p.settle_key m.settlements ≡ none
    → admit env m pp required now ≡ ok (p, account)
    → admit env (run (settle_full env m pp required now).1 cs) pp' required' now'
      ≡ ok (p', account')
    → p'.settle_key ≡ p.settle_key
    → let m' = run (settle_full env m pp required now).1 cs in
      settle_full env m' pp' required' now' ≡ (
        ok (record {
          response = response_for env pp p now;
          already = true;
          account_id = account';
          rail = p'.rail;
          external_ref = p'.external_ref;
          amount_atoms = p'.amount_atoms;
        }),
        m',
      )
settle_full_once env m pp pp' required required' now now' p p' account account' cs fresh first again
      same =
    let text = env.responses.marshal (response_for env pp p now) in
    let m1 = (settle_full env m pp required now).1 in
    let kept : Kept m1 p.settle_key text =
      subst (λ x. Kept x p.settle_key text)
        (sym (settle_full-Kept env m pp required now p account first))
        (settle_new-Kept m p.settle_key text fresh) in
    settle_full-again env (run m1 cs) pp' required' now' p' account' text
      (response_for env pp p now) again
      (subst (λ k. Kept (run m1 cs) k text) (sym same) (run-Kept m1 cs p.settle_key text kept))
      (env.responses.unmarshal-marshal (response_for env pp p now))

-- No call stores a root key under the hash.
abbrev pub MintsNone : Bytes → List Call → Type 0
MintsNone key_id [] = Unit {0}
MintsNone key_id (mints k r ∷ cs) = (k ≢ key_id) × MintsNone key_id cs
MintsNone key_id (challenges c ∷ cs) = MintsNone key_id cs
MintsNone key_id (challenges_onchain c ∷ cs) = MintsNone key_id cs
MintsNone key_id (settles h r ∷ cs) = MintsNone key_id cs
MintsNone key_id (revokes k ∷ cs) = MintsNone key_id cs

run-revoked :
    (m : GateStore) (key_id : Bytes) (cs : List Call)
    → MintsNone key_id cs
    → lookup key_id m.root_keys ≡ none
    → lookup key_id (run m cs).root_keys ≡ none
unfolding run step put_challenge put_onchain_challenge settle put_root_key delete_root_key
run-revoked m key_id [] h k = k
run-revoked m key_id (mints j r ∷ cs) h k =
    run-revoked (put_root_key m j r) key_id cs h.1
      (ground (arith, lookup-insert key_id j r m.root_keys))
run-revoked m key_id (challenges c ∷ cs) h k = run-revoked (put_challenge m c) key_id cs h k
run-revoked m key_id (challenges_onchain c ∷ cs) h k =
    run-revoked (put_onchain_challenge m c) key_id cs h k
run-revoked m key_id (settles x r ∷ cs) h k =
    run-revoked (settle m x r).1 key_id cs h (ground arith)
run-revoked m key_id (revokes j ∷ cs) h k =
    run-revoked (delete_root_key m j) key_id cs h
      (ground (arith, lookup-erase key_id j m.root_keys))

-- A credential whose root key was deleted is refused, whatever else is stored since, unless a root
-- key is stored again under the hash of the same identifier.
pub revoked_stays_revoked :
    (env : Env) (crypto : Crypto) (m : GateStore) (mac : Macaroon) (more : List Macaroon)
    (id : Identifier) (preimage_hex : Bytes) (now : ℕ) (cs : List Call)
    → decode_identifier mac.id ≡ L402.ok id
    → MintsNone (storage_key crypto id) cs
    → authorize_token env crypto
        (run (delete_root_key m (storage_key crypto id)) cs)
        (mac ∷ more)
        preimage_hex
        now
      ≡ none
unfolding authorize_token get_root_key delete_root_key
revoked_stays_revoked env crypto m mac more id preimage_hex now cs decodes h =
    rw
      (
        decodes,
        authorize_token,
        run-revoked (delete_root_key m (storage_key crypto id)) (storage_key crypto id) cs h
            (lookup-erase_self (storage_key crypto id) m.root_keys),
      )
      refl
