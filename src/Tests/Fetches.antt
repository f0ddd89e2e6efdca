-- ===== src/Tests/Fetches.antt =====
-- The theorems on paid fetches, on a shop that asks for 700 atoms.
use dcr.Prelude.{◌≡◌, refl, true, false, List, [], ◌∷◌, none, some, arith}
use dcr.Prelude.Int64.{pos, wrap, ◌+ℤ◌}
use dcr.Prelude.Bytes.{Bytes, Bytes-discrete, codes, lookup}
use dcr.GoText.{
  trim_space, trim_left, to_lower, lower_byte, parse_int, parse_digits, equal_fold, hex_encode,
  has_suffix, cut_prefix,
}
use dcr.Policy.Domain.{match_domain, match_any}
use dcr.Policy.Evaluate.{
  evaluate, check_rules, check_memo, check_destination, check_domain, check_cap, check_velocity,
  check_budget, approval,
}
use dcr.AgentStore.{usage, record_attempt, record_payment, get_state, get_token}
use dcr.PayClient.{FetchResult}
use dcr.PayClient as PayClient
use dcr.PayClient.Challenge.{
  parse_challenge, parse_x402, first_entry, read_entry, agree, read_invoice,
}
use dcr.PayClient.Fetch as Client
use dcr.PayClient.Fetch.{
  approach, follow, ask_gate, pay_challenge, retry, proof_headers, cache_token, new_credential,
}
use dcr.Agent.Freeze.{not_frozen, freeze_status}
use dcr.Agent.Payments.{evaluate_and_record, write_attempt}
use dcr.Agent.Spending.{WithinBudgets}
use dcr.Agent.Fetch.{gate, pay, book, finish, fetch_paid}
use dcr.Agent.Fetch.Budget.{fetch_within_budget}
use dcr.Agent.Booked.{moved, booked}
use dcr.Agent.Booked.Run.{payments_match_transfers}
use dcr.Agent.History.{Event, run, new_system, fetches, pays_address}
use dcr.Tests.Data as Data
use dcr.Tests.Data.{policy, codec, client, options, server, shop, empty_system, noon, address}

abbrev caip2 : Bytes
caip2 = codes "bip122:298e"

-- A fetch that pays and a payment to an address.
abbrev history : List Event
history =
    fetches shop options server Data.answers
    ∷ pays_address true address (pos 500) (codes "tea") Data.answers
    ∷ []

payments_match_transfers_example :
    let s = run codec client caip2 (new_system policy) history in
    moved s.transfers ≡ booked s.store.payments
payments_match_transfers_example = payments_match_transfers codec client caip2 policy history

abbrev fetched : FetchResult
fetched = record {
  status = 200;
  body = codes "body";
  rail = some PayClient.x402;
  paid_atoms = pos 700;
  fee_atoms = pos 1;
  invoice = codes "lndcr1";
  preimage = codes "preimage";
  attempt_id = 1;
  token_cached = false;
}

fetch_within_budget_example :
    WithinBudgets empty_system noon
      (fetch_paid codec client caip2 empty_system shop options none server Data.answers).1
unfolding fetch_paid not_frozen freeze_status get_state lookup finish book Client.fetch_paid
    approach get_token follow parse_challenge parse_x402 first_entry read_entry agree read_invoice
    ask_gate gate evaluate_and_record evaluate check_rules check_memo check_destination check_domain
    check_cap check_velocity check_budget approval trim_space trim_left to_lower lower_byte
    write_attempt record_attempt usage pay_challenge pay retry proof_headers new_credential
    cache_token record_payment parse_int parse_digits equal_fold hex_encode wrap ◌+ℤ◌ Bytes-discrete
    match_any match_domain cut_prefix has_suffix
fetch_within_budget_example =
    fetch_within_budget codec client caip2 empty_system
      (fetch_paid codec client caip2 empty_system shop options none server Data.answers).1 shop
      options server Data.answers fetched none (omega arith)
      (λ a same. record {
        amount = ground arith;
        day = omega arith;
        week = omega arith;
        day_sum = ground arith;
        week_sum = ground arith;
      })
      refl (omega arith)
