-- ===== src/Gate.antt =====
-- The payment gate: what it keeps (the in-memory store of lib/store/store.go), how it verifies a
-- payment (lib/verify.go) and how it settles one (lib/verify.go, lib/gate.go). Array keys are byte
-- lists. Each method of the store runs under its mutex and is one atomic step.
pub mod X402
pub mod Verify
pub mod Settle
pub mod Mint
pub mod Serve
pub mod Topup
pub mod Mcp
pub mod Once
pub mod Sound
use dcr.Prelude.{ℕ, ◌≡◌, Bool, true, false, List, [], ◌∷◌, Option, none, some, if◌then◌else◌}
use dcr.Prelude.Int64.{ℤ}
use dcr.Prelude.Bytes.{Bytes, Dict, lookup, insert, erase}

pub record Challenge : Type 0 where
  pub payment_hash : Bytes
  pub invoice : Bytes
  pub macaroon_b64 : Bytes
  pub root_key_id : Bytes
  pub requirements : Bytes
  pub resource : Bytes
  pub amount_atoms : ℤ
  pub created_at : ℕ
  pub expires_at : ℕ

pub record OnchainChallenge : Type 0 where
  pub address : Bytes
  pub requirements : Bytes
  pub resource : Bytes
  pub amount_atoms : ℤ
  pub confirmations : ℤ
  pub macaroon_b64 : Bytes
  pub root_key_id : Bytes
  pub credential_preimage : Bytes
  pub created_at : ℕ
  pub expires_at : ℕ

pub record GateStore : Type 0 where
  pub challenges : Dict Challenge
  pub onchain : Dict OnchainChallenge
  pub settlements : Dict Bytes
  pub root_keys : Dict Bytes

abbrev pub new_memory : GateStore
new_memory = record { challenges = []; onchain = []; settlements = []; root_keys = [] }

unfoldable pub put_challenge : GateStore → Challenge → GateStore
put_challenge m c = record m { challenges = insert c.payment_hash c m.challenges }

unfoldable pub get_challenge : GateStore → Bytes → Option Challenge
get_challenge m hash = lookup hash m.challenges

unfoldable pub put_onchain_challenge : GateStore → OnchainChallenge → GateStore
put_onchain_challenge m c = record m { onchain = insert c.address c m.onchain }

unfoldable pub get_onchain_challenge : GateStore → Bytes → Option OnchainChallenge
get_onchain_challenge m address = lookup address m.onchain

-- The response that is stored, and whether the hash had been consumed before.
unfoldable pub settle : GateStore → Bytes → Bytes → (Bytes × Bool) × GateStore
settle m hash response = elim (lookup hash m.settlements) [
  | some prev ↦ ((prev, true), m)
  | none ↦ ((response, false), record m { settlements = insert hash response m.settlements })
]

unfoldable pub settled : GateStore → Bytes → Bool
settled m hash = elim (lookup hash m.settlements) [ none ↦ false | some _ ↦ true ]

unfoldable pub put_root_key : GateStore → Bytes → Bytes → GateStore
put_root_key m key_id root_key = record m { root_keys = insert key_id root_key m.root_keys }

unfoldable pub get_root_key : GateStore → Bytes → Option Bytes
get_root_key m key_id = lookup key_id m.root_keys

unfoldable pub delete_root_key : GateStore → Bytes → GateStore
delete_root_key m key_id = record m { root_keys = erase key_id m.root_keys }
