-- ===== src/Gate/Mint/Accepted.antt =====
-- A minted credential is accepted until its time, and not from then on.
use dcr.Prelude.{
  ℕ, ◌+◌, ◌^◌, ◌<◌, ◌≤◌, ◌≡◌, ◌≢◌, ◌∙◌, refl, ap, inl, inr, List, [], ◌∷◌, some, none, Option,
  arith, All, length, ltb, Bool-cases, if◌then◌else◌,
}
use mathlib.Core.List.{append-nil}
use dcr.Prelude.Int64.{pos}
use dcr.Prelude.Bytes.{Bytes, lookup, lookup-insert, lookup-insert_self, lookup-erase}
use dcr.GoText.{hex_encode, hex_decode}
use dcr.GoText.Numbers.{hex_decode-hex_encode}
use dcr.L402 as L402
use dcr.L402.{Crypto, ok, err, Macaroon, Identifier, encode, decode_identifier, storage_key, mint}
use dcr.L402.Chain.{IsIdentifier, decode_identifier-encode, attenuate_all}
use dcr.L402.Caveats.{verify_token, verify_caveats}
use dcr.L402.Caveats.Unbound.{for_service, verify_token-mint}
use dcr.Gate.{
  GateStore, put_challenge, put_onchain_challenge, settle, put_root_key, get_root_key,
  delete_root_key,
}
use dcr.Gate.Settle.{Env, authorize_token}
use dcr.Gate.Once.{Call, challenges, challenges_onchain, settles, mints, revokes, step, run}
use dcr.Gate.Mint.{Config, identifier, caveats_at, mint_credential}
use dcr.Gate.Mint.Texts.{IsName, timely}
use dcr.Gate.Mint.Checks.{minted_caveats, verify_caveats-minted}

-- A gate with a named service, no capabilities and a tier of zero or more.
pub record IsMintable (cfg : Config) : Type 0 where
  pub named : All IsName cfg.env.service
  pub tier : ℕ
  pub tier_is : cfg.tier ≡ pos tier
  pub no_capabilities : cfg.capabilities ≡ []

-- No call stores or deletes a root key under the hash.
abbrev pub LeavesKey : Bytes → List Call → Type 0
LeavesKey key_id [] = Unit {0}
LeavesKey key_id (mints k r ∷ cs) = (k ≢ key_id) × LeavesKey key_id cs
LeavesKey key_id (revokes k ∷ cs) = (k ≢ key_id) × LeavesKey key_id cs
LeavesKey key_id (challenges c ∷ cs) = LeavesKey key_id cs
LeavesKey key_id (challenges_onchain c ∷ cs) = LeavesKey key_id cs
LeavesKey key_id (settles h r ∷ cs) = LeavesKey key_id cs

run-LeavesKey :
    (m : GateStore) (key_id root_key : Bytes) (cs : List Call)
    → LeavesKey key_id cs
    → lookup key_id m.root_keys ≡ some root_key
    → lookup key_id (run m cs).root_keys ≡ some root_key
unfolding run step put_challenge put_onchain_challenge settle put_root_key delete_root_key
run-LeavesKey m key_id r [] h k = k
run-LeavesKey m key_id r (mints j x ∷ cs) h k =
    run-LeavesKey (put_root_key m j x) key_id r cs h.1
      (ground (arith, lookup-insert key_id j x m.root_keys))
run-LeavesKey m key_id r (revokes j ∷ cs) h k =
    run-LeavesKey (delete_root_key m j) key_id r cs h.1
      (ground (arith, lookup-erase key_id j m.root_keys))
run-LeavesKey m key_id r (challenges c ∷ cs) h k = run-LeavesKey (put_challenge m c) key_id r cs h k
run-LeavesKey m key_id r (challenges_onchain c ∷ cs) h k =
    run-LeavesKey (put_onchain_challenge m c) key_id r cs h k
run-LeavesKey m key_id r (settles x y ∷ cs) h k =
    run-LeavesKey (settle m x y).1 key_id r cs h (ground arith)

caveats_at-minted :
    (cfg : Config) (h : IsMintable cfg) (now : ℕ)
    → caveats_at cfg now ≡ minted_caveats cfg.env.service h.tier (now + cfg.token_ttl)
unfolding caveats_at
caveats_at-minted cfg h now = rw (h.tier_is, h.no_capabilities) refl

-- What the verdict of the check makes of an account.
abbrev account_on : L402.Result {0} Unit → Bytes → Option Bytes
account_on (err e) account = none
account_on (ok _) account = some account

account_of_timely :
    (now until : ℕ) (account : Bytes)
    → account_on (timely now until) account ≡ (if ltb now until then some account else none)
account_of_timely now until account = elim (Bool-cases (ltb now until)) [
  | inl early ↦ rw early refl
  | inr late ↦ rw late refl
]

authorize_known :
    (env : Env) (crypto : Crypto) (m : GateStore) (mac : Macaroon) (more : List Macaroon)
    (preimage_hex : Bytes) (now : ℕ) (id : Identifier) (root_key pre : Bytes)
    (v : L402.Result {0} Unit)
    → decode_identifier mac.id ≡ ok id
    → lookup (storage_key crypto id) m.root_keys ≡ some root_key
    → hex_decode preimage_hex ≡ some pre
    → verify_token crypto root_key mac (some pre) (for_service env.service now) ≡ v
    → authorize_token env crypto m (mac ∷ more) preimage_hex now
      ≡ account_on v (hex_encode id.token_id)
unfolding authorize_token get_root_key
authorize_known env crypto m mac more preimage_hex now id root_key pre (err e) d k x v =
    rw (d, authorize_token, k, x, v) refl
authorize_known env crypto m mac more preimage_hex now id root_key pre (ok u) d k x v =
    rw (d, authorize_token, k, x, v) refl

module _ (cfg : Config) (h : IsMintable cfg) where
  -- What the check of the credential says, at any time.
  verify_minted :
      (pre token_id root_key : Bytes) (issued now : ℕ)
      → length pre ≡ 32
      → length token_id ≡ 32
      → issued + cfg.token_ttl ≤ 2 ^ 62
      → verify_token cfg.crypto root_key
          (mint cfg.crypto root_key
            (identifier cfg (cfg.crypto.sha256 pre) token_id)
            (caveats_at cfg issued))
          (some pre)
          (for_service cfg.env.service now)
        ≡ timely now (issued + cfg.token_ttl)
  unfolding attenuate_all
  verify_minted pre token_id root_key issued now size token_size late =
      let valid : IsIdentifier (identifier cfg (cfg.crypto.sha256 pre) token_id) = record {
        version = refl;
        hash = cfg.crypto.length-sha256 pre;
        token = token_size;
      } in
      verify_token-mint cfg.crypto root_key (identifier cfg (cfg.crypto.sha256 pre) token_id)
        (caveats_at cfg issued) [] pre (for_service cfg.env.service now) valid size refl
      ∙ (ap (λ cs. verify_caveats cs (for_service cfg.env.service now))
            (append-nil (caveats_at cfg issued) ∙ caveats_at-minted cfg h issued)
          ∙ verify_caveats-minted cfg.env.service h.tier (issued + cfg.token_ttl) now h.named late)

  -- Whoever pays for a challenge gets in: a credential that the gate minted for the hash of a
  -- preimage, presented with that preimage, is accepted as the account of its token id at every time
  -- before the end of its lifetime, and refused from then on, whatever the store is asked meanwhile,
  -- unless its root key is deleted or replaced. The gate has a service's name without white space
  -- and `,:=`, a tier of zero or more and no capabilities, and the times fit 62 bits.
  pub minted_accepted :
      (m : GateStore) (pre token_id root_key : Bytes) (more : List Macaroon) (issued now : ℕ)
      (cs : List Call)
      → length pre ≡ 32
      → All (λ b. b < 256) pre
      → length token_id ≡ 32
      → issued + cfg.token_ttl ≤ 2 ^ 62
      → LeavesKey (storage_key cfg.crypto (identifier cfg (cfg.crypto.sha256 pre) token_id)) cs
      → let ((mac, mac_b64), m') =
          mint_credential cfg m (cfg.crypto.sha256 pre) token_id root_key issued in
        authorize_token cfg.env cfg.crypto (run m' cs) (mac ∷ more) (hex_encode pre) now
        ≡ (if ltb now (issued + cfg.token_ttl) then some (hex_encode token_id) else none)
  unfolding mint_credential authorize_token get_root_key put_root_key mint
  minted_accepted m pre token_id root_key more issued now cs size bytes token_size late leaves =
      let id = identifier cfg (cfg.crypto.sha256 pre) token_id in
      let valid : IsIdentifier id = record {
        version = refl;
        hash = cfg.crypto.length-sha256 pre;
        token = token_size;
      } in
      let key = storage_key cfg.crypto id in
      let kept : lookup key (run (put_root_key m key root_key) cs).root_keys ≡ some root_key =
        run-LeavesKey (put_root_key m key root_key) key root_key cs leaves
          (lookup-insert_self key root_key m.root_keys) in
      authorize_known cfg.env cfg.crypto (run (put_root_key m key root_key) cs)
        (mint cfg.crypto root_key id (caveats_at cfg issued)) more (hex_encode pre) now id root_key
        pre (timely now (issued + cfg.token_ttl)) (decode_identifier-encode id valid) kept
        (hex_decode-hex_encode pre bytes)
        (verify_minted pre token_id root_key issued now size token_size late)
      ∙ account_of_timely now (issued + cfg.token_ttl) (hex_encode token_id)
