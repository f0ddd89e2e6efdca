-- ===== src/Agent/Freeze.antt =====
-- agent/freeze.go: the kill switch. It is kept as JSON text in the store; the codec is a parameter:
-- the text that `encoding/json` writes of a state is not empty, and decodes to a state with the same
-- flag (bytes of the names that are not UTF-8 come back changed).
use dcr.Prelude.{ℕ, ◌≡◌, ◌≢◌, true, false, [], Option, none, some, if◌then◌else◌, arith}
use dcr.Prelude.Bytes.{Bytes, codes, str_eq, lookup-insert_self}
use dcr.AgentStore.{Store, get_state, set_state}
use dcr.Agent.{System, FreezeState, AgentError, frozen_error}

pub record FreezeJson : Type 0 where
  pub marshal : FreezeState → Bytes
  pub unmarshal : Bytes → Option FreezeState
  pub unmarshal-marshal :
      (s : FreezeState)
      → (t : FreezeState) × (unmarshal (marshal s) ≡ some t) × (t.frozen ≡ s.frozen)
  pub marshal-ne-nil : (s : FreezeState) → marshal s ≢ []

abbrev pub freeze_state_key : Bytes
freeze_state_key = codes "frozen"

abbrev pub thawed : FreezeState
thawed = record { frozen = false; at = 0; by = []; reason = [] }

module _ (json : FreezeJson) where
  abbrev pub decode_state : Option Bytes → FreezeState
  decode_state none = thawed
  decode_state (some v) =
      if str_eq v [] then thawed else elim (json.unmarshal v) [ none ↦ thawed | some st ↦ st ]

  -- A missing key, the empty text and text that is not JSON all read as not frozen.
  unfoldable pub freeze_status : Store → FreezeState
  freeze_status m = decode_state (get_state m freeze_state_key)

  unfoldable pub freeze : System → Bytes → Bytes → ℕ → System
  freeze s by reason now = record s {
    store =
        set_state s.store freeze_state_key
          (json.marshal (record { frozen = true; at = now; by = by; reason = reason }));
  }

  unfoldable pub unfreeze : System → System
  unfreeze s = record s { store = set_state s.store freeze_state_key [] }

  unfoldable pub not_frozen : System → Option AgentError
  not_frozen s =
      let st = freeze_status s.store in if st.frozen then some (frozen_error st) else none

  pub not_frozen-state :
      (s t : System) → s.store.state ≡ t.store.state → not_frozen s ≡ not_frozen t
  unfolding not_frozen freeze_status get_state
  not_frozen-state s t e = rw e

  -- After `Freeze` the service is frozen, until `Unfreeze` lifts it.
  pub freeze-unfreeze :
      (s : System) (by reason : Bytes) (now : ℕ)
      → (not_frozen (freeze s by reason now) ≢ none)
        × (not_frozen (unfreeze (freeze s by reason now)) ≡ none)
  unfolding not_frozen freeze unfreeze freeze_status get_state set_state
  freeze-unfreeze s by reason now =
      let st : FreezeState = record { frozen = true; at = now; by = by; reason = reason } in
      let (t, reads, is_frozen) = json.unmarshal-marshal st in
      (
        λ e. ground (
          arith,
          lookup-insert_self freeze_state_key (json.marshal st) s.store.state,
          json.marshal-ne-nil st,
          reads,
          is_frozen,
        ),
        ground (
          arith,
          lookup-insert_self {V = Bytes} freeze_state_key []
              (set_state s.store freeze_state_key (json.marshal st)).state,
        ),
      )
