-- ===== src/Tests/Data.antt =====
-- The data of the examples.
use dcr.Prelude.{
  refl, ℕ, ◌+◌, ◌≡◌, ◌≢◌, Bool, true, false, [], ◌∷◌, ◌++◌, Option, none, some, arith, length, take,
  drop, ◌==◌, ◌*◌, take-append_left, drop-append_left, if◌then◌else◌,
}
use dcr.Prelude.Int64.{pos}
use dcr.Prelude.Bytes.{Bytes, codes, str_eq}
use dcr.Policy.{Policy, default_deny, Attempt, Usage, web, dcr_address}
use dcr.AgentStore.{new_memory}
use dcr.AgentStore.Calendar.{day_ns}
use dcr.Gate.X402.{Requirements}
use dcr.PayClient.{Codecs, FetchOptions, Response}
use dcr.PayClient.Fetch.{Server}
use dcr.Agent.{System, FreezeState}
use dcr.Agent.Freeze.{FreezeJson}
use dcr.Agent.Payments.{Answers}

abbrev pub alice : Bytes
alice = codes "alice"

abbrev pub bob : Bytes
bob = codes "bob"

abbrev pub address : Bytes
address = codes "DsShop"

-- A policy with a cap, budgets, a threshold and one listed address.
abbrev pub policy : Policy
policy = record {
  mode = default_deny;
  max_per_payment_atoms = pos 1000;
  daily_budget_atoms = pos 5000;
  weekly_budget_atoms = pos 20000;
  max_payments_per_hour = pos 10;
  threshold_atoms = pos 800;
  approval_ttl = pos 600;
  approval_channel = web;
  allow_domains = codes "*.shop.org" ∷ [];
  deny_domains = [];
  allow_ln_nodes = (codes "02ab", true) ∷ [];
  allow_dcr_addresses = (address, true) ∷ [];
  memo_required = true;
}

abbrev pub attempt : Attempt
attempt = record {
  tool = codes "pay_dcr_address";
  rail = codes "onchain";
  dest_kind = dcr_address;
  dest = address;
  amount_atoms = pos 500;
  memo = codes "tea";
}

abbrev pub usage : Usage
usage = record { day_atoms = pos 4000; week_atoms = pos 4000; hour_count = pos 2 }

abbrev pub noon : ℕ
noon = 20 * day_ns + 43200000000000

abbrev pub bit : Bool → ℕ
bit true = 1
bit false = 0

abbrev pub read_state : Bytes → Option FreezeState
read_state (f ∷ t ∷ n ∷ rest) =
    some (record { frozen = f == 1; at = t; by = take n rest; reason = drop n rest })
read_state _ = none

-- A codec with the laws of `encoding/json`: two numbers, the length of the name, and both texts.
pub read-write :
    (s : FreezeState) → read_state (bit s.frozen ∷ s.at ∷ length s.by ∷ (s.by ++ s.reason)) ≡ some s
read-write s = ground (arith, take-append_left s.by s.reason, drop-append_left s.by s.reason)

pub marshal-ne-nil_lem :
    (s : FreezeState) → (bit s.frozen ∷ s.at ∷ length s.by ∷ (s.by ++ s.reason)) ≢ []
marshal-ne-nil_lem s e = ground arith

abbrev pub codec : FreezeJson
codec = record {
  marshal = λ s. bit s.frozen ∷ s.at ∷ length s.by ∷ (s.by ++ s.reason);
  unmarshal = read_state;
  unmarshal-marshal = λ s. (s, read-write s, refl);
  marshal-ne-nil = λ s e. marshal-ne-nil_lem s e;
}

abbrev pub empty_system : System
empty_system = record {
  policy = policy;
  store = new_memory;
  waiting = [];
  tasks = [];
  transfers = [];
}

abbrev pub answers : Answers
answers = record {
  now = noon;
  ln_pay = some (codes "preimage", pos 1);
  onchain_send = some (codes "txid");
  approvers = (codes "web", true) ∷ [];
  random_id = codes "a1";
}

-- An entry of a challenge for a Lightning payment of 700 atoms to the node `02ab`.
abbrev pub lightning_entry : Requirements
lightning_entry = record {
  scheme = codes "exact";
  network = codes "bip122:298e";
  amount = codes "700";
  asset = codes "DCR";
  pay_to = codes "02ab";
  max_timeout_seconds = pos 60;
  extra = codes "{}";
}

-- A client whose every challenge is that entry.
abbrev pub client : Codecs
client = record {
  host = λ url. some url;
  payment_required = λ header. some (record {
    version = pos 2;
    resource = codes "/api";
    accepts = lightning_entry ∷ [];
    extensions = [];
  });
  transfer_method = λ extra. codes "lightning";
  lightning_extra =
      λ extra. some (record { invoice = codes "lndcr1"; payment_hash = codes "0909" });
  zpay_decode = λ text. some (record {
    milli_at = some 700000;
    destination = some (2 ∷ 171 ∷ []);
    payment_hash = some (9 ∷ 9 ∷ []);
    description = none;
  });
  base64_decode = λ text. none;
  encode_retry = λ retry. some retry.preimage;
  settlement = λ header. none;
  delivery = λ info. none;
}

abbrev pub options : FetchOptions
options = record {
  method = [];
  body = [];
  content_type = [];
  memo = codes "tea";
  max_amount_atoms = pos 0;
  force_legacy = false;
}

abbrev reply : ℕ → Response
reply status = record {
  status = status;
  payment_required = codes "x";
  www_authenticate = [];
  payment_response = [];
  body = codes "body";
}

-- A server that asks for payment until the request carries a proof.
abbrev pub server : Server
server n r = if str_eq r.payment_signature [] then some (reply 402) else some (reply 200)

abbrev pub shop : Bytes
shop = codes "tea.shop.org"
