-- ===== src/Agent/Limits.antt =====
-- Where an approved payment escapes the kill switch.
use dcr.Prelude.{
  ℕ, ◌≡◌, ◌≢◌, ◌∙◌, refl, sym, ap, Bool, true, [], ◌∷◌, ◌++◌, none, some, if◌then◌else◌,
}
use dcr.Prelude.Int64.{ℤ}
use dcr.Prelude.Bytes.{Bytes, lookup, erase}
use dcr.AgentStore.{Approval, approved, denied, get_approval, set_state, record_payment}
use dcr.AgentStore.Verdicts.{CanWin, resolve_win, answer, Answered}
use dcr.Agent.{System, Continuation, pay_address, pays, Task}
use dcr.Agent.Freeze.{FreezeJson, freeze, not_frozen, freeze-unfreeze, not_frozen-state}
use dcr.Agent.Registry.{resolve}
use dcr.Agent.Payments.{Answers, do_onchain_pay, exec}
use dcr.PayClient.{Codecs}
use dcr.PayClient.Fetch.{Server}
use dcr.Agent.Fetch.{run_task, continue_task}

resolve_starts :
    (s : System) (k responder : Bytes) (verdict : Bool) (cont : Continuation) (a : Approval)
    (now : ℕ)
    → lookup k s.waiting ≡ some cont
    → CanWin s.store k now a
    → (resolve s k verdict responder now).1 ≡ record s {
      store = Answered s.store k (answer (if verdict then approved else denied) responder now a);
      waiting = erase k s.waiting;
      tasks = s.tasks ++ (record { continuation = cont; approved = verdict } ∷ []);
    }
unfolding resolve
resolve_starts s k responder verdict cont a now waits can =
    rw (resolve_win s.store k (if verdict then approved else denied) responder now a can, waits)

module _ (json : FreezeJson) (c : Codecs) (caip2 : Bytes) where
  transfers-run_task :
      (s : System) (id : ℕ) (address txid : Bytes) (amount : ℤ) (server : Server) (w : Answers)
      → w.onchain_send ≡ some txid
      → let task : Task = record {
        continuation = pays (pay_address id address amount);
        approved = true;
      } in
        ((run_task json c caip2 s task server w).transfers
          ≡ s.transfers
            ++ (record { attempt_id = id; amount_atoms = amount; confirmed = true } ∷ []))
        × ((run_task json c caip2 s task server w).store.state ≡ s.store.state)
  unfolding run_task continue_task exec do_onchain_pay record_payment
  transfers-run_task s id address txid amount server w sent = rw sent (refl, refl)

  resolve_when_frozen :
      (s : System) (k by reason responder : Bytes) (cont : Continuation) (a : Approval) (now : ℕ)
      → lookup k s.waiting ≡ some cont
      → CanWin s.store k now a
      → let s1 = freeze json s by reason now in
        let s2 = (resolve s1 k true responder now).1 in
        (s2.tasks ≡ s.tasks ++ (record { continuation = cont; approved = true } ∷ []))
        × (s2.transfers ≡ s.transfers)
        × (s2.store.state ≡ s1.store.state)
  unfolding freeze set_state get_approval
  resolve_when_frozen s k by reason responder cont a now waits can =
      rw (resolve_starts (freeze json s by reason now) k responder true cont a now waits can)
        (refl, refl, refl)

  -- The kill switch does not stop an approved payment: when the owner freezes the agent while a
  -- payment to an address waits for approval, and the approval is then granted in time, the
  -- goroutine that the verdict starts moves the money while the agent is still frozen.
  pub frozen_approval_pays :
      (s : System) (k by reason responder txid : Bytes) (id : ℕ) (address : Bytes) (amount : ℤ)
      (a : Approval) (now : ℕ) (server : Server) (w : Answers)
      → lookup k s.waiting ≡ some (pays (pay_address id address amount))
      → CanWin s.store k now a
      → w.onchain_send ≡ some txid
      → let task : Task = record {
        continuation = pays (pay_address id address amount);
        approved = true;
      } in
        let s2 = (resolve (freeze json s by reason now) k true responder now).1 in
        let s3 = run_task json c caip2 s2 task server w in
        (s2.tasks ≡ s.tasks ++ (task ∷ []))
        × (s3.transfers
            ≡ s.transfers
              ++ (record { attempt_id = id; amount_atoms = amount; confirmed = true } ∷ []))
        × (not_frozen json s3 ≢ none)
  frozen_approval_pays s k by reason responder txid id address amount a now server w waits can
        sent =
      let cont = pays (pay_address id address amount) in
      let task : Task = record { continuation = cont; approved = true } in
      let s1 = freeze json s by reason now in
      let s2 = (resolve s1 k true responder now).1 in
      let (starts, same_log, same_state) =
        resolve_when_frozen s k by reason responder cont a now waits can in
      let (moves, keeps) = transfers-run_task s2 id address txid amount server w sent in
      (
        starts,
        moves
            ∙ ap
                (λ ts.
                  ts ++ (record { attempt_id = id; amount_atoms = amount; confirmed = true } ∷ []))
                same_log,
        λ e. (freeze-unfreeze json s by reason now).0 (
            sym (
              not_frozen-state json (run_task json c caip2 s2 task server w) s1
                (keeps ∙ same_state))
            ∙ e),
      )
