-- ===== src/PayClient/Challenge.antt =====
-- `parseChallenge` and `parseX402` of agent/payclient/payclient.go, with `DecodeInvoice` of
-- agent/rails/ln/ln.go.
use dcr.Prelude.{
  ℕ, suc, ◌*◌, ◌/◌, Bool, true, false, not, ◌&&◌, List, [], ◌∷◌, Option, none, some, if◌then◌else◌,
}
use dcr.Prelude.Int64.{ℤ, pos, negsuc, leb_ℤ, wrap, pos_part, sub_ℕ}
use dcr.Prelude.Bytes.{Bytes, codes, str_eq}
use dcr.GoText.{parse_int, hex_encode, equal_fold}
use dcr.L402 as L402
use dcr.L402.Headers as Headers
use dcr.L402.Headers.{find_challenge}
use dcr.Gate.X402.{Requirements, int_eq}
use dcr.Gate.Verify.{LightningExtra}
use dcr.PayClient.{
  PayChallenge, Rail, ChallengeError, undecodable_header, unsupported_version, wrong_network,
  bad_extra, bad_invoice, bad_amount, hash_differs, pay_to_differs, amount_differs,
  no_lightning_entry, bad_l402, no_challenge, no_amount, RawInvoice, Invoice, PaymentRequired,
  Codecs, Response,
}

pub data Parsed {ℓ} (A : Type ℓ) : Type ℓ where
  ok : A → Parsed A
  err : ChallengeError → Parsed A

infixl 5 ◌>>=◌
abbrev pub ◌>>=◌ {ℓ κ} : {A : Type ℓ} {B : Type κ} → Parsed A → (A → Parsed B) → Parsed B
ok a >>= f = f a
err e >>= f = err e

abbrev pub check : Bool → ChallengeError → Parsed {0} (Unit {0})
check true e = ok tt
check false e = err e

abbrev pub the {ℓ} : {A : Type ℓ} → Option A → ChallengeError → Parsed A
the none e = err e
the (some a) e = ok a

-- Go's `/ 1000`, which rounds to zero.
abbrev pub thousandth : ℤ → ℤ
thousandth (pos n) = pos (n / 1000)
thousandth (negsuc n) = sub_ℕ 0 (suc n / 1000)

abbrev pub milli_of : Option ℕ → ℤ
milli_of none = pos 0
milli_of (some n) = wrap (pos n)

abbrev pub text_of : Option Bytes → Bytes
text_of none = []
text_of (some s) = s

abbrev pub hex_of : Option Bytes → Bytes
hex_of none = []
hex_of (some s) = hex_encode s

-- `DecodeInvoice`
unfoldable pub read_invoice : RawInvoice → Invoice
read_invoice raw = record {
  amount_atoms = thousandth (milli_of raw.milli_at);
  amount_matoms = milli_of raw.milli_at;
  destination = hex_of raw.destination;
  payment_hash = hex_of raw.payment_hash;
  description = text_of raw.description;
}

-- `amount, err := ParseInt(…); err != nil || amount <= 0`
abbrev pub positive : Option ℤ → Option ℤ
positive none = none
positive (some n) = if leb_ℤ n (pos 0) then none else some n

-- `amount * 1000` of a positive amount, in int64.
abbrev pub thousandfold : ℤ → ℤ
thousandfold n = wrap (pos (pos_part n * 1000))

module _ (c : Codecs) (caip2 : Bytes) where
  abbrev pub decode_invoice : Bytes → Parsed Invoice
  decode_invoice text = elim (c.zpay_decode text) [
    | none ↦ err bad_invoice
    | some raw ↦ ok (read_invoice raw)
  ]

  -- The cross-checks: the envelope has to agree with the invoice.
  unfoldable pub agree :
      PaymentRequired → Requirements → LightningExtra → Invoice → ℤ → Parsed PayChallenge
  agree pr entry extra inv amount = do
    _ ← check (equal_fold inv.payment_hash extra.payment_hash) hash_differs
    _ ← check (equal_fold inv.destination entry.pay_to) pay_to_differs
    _ ← check (int_eq inv.amount_matoms (thousandfold amount)) amount_differs
    ok (record {
      rail = Rail.x402;
      invoice = extra.invoice;
      amount_atoms = amount;
      destination = inv.destination;
      payment_hash = extra.payment_hash;
      description = inv.description;
      entry = some entry;
      resource = pr.resource;
      extensions = pr.extensions;
      macaroon_b64 = [];
    })

  -- The body of the loop for a lightning entry.
  unfoldable pub read_entry : PaymentRequired → Requirements → Parsed PayChallenge
  unfolding read_invoice agree
  read_entry pr entry = do
    _ ← check (str_eq entry.network caip2) wrong_network
    extra ← the (c.lightning_extra entry.extra) bad_extra
    inv ← decode_invoice extra.invoice
    amount ← the (positive (parse_int entry.amount)) bad_amount
    agree pr entry extra inv amount

  -- The loop over the entries: the first that asks for Lightning decides.
  unfoldable pub first_entry : PaymentRequired → List Requirements → Parsed PayChallenge
  unfolding read_entry
  first_entry pr [] = err no_lightning_entry
  first_entry pr (entry ∷ more) =
      let rest = first_entry pr more in
      if str_eq (c.transfer_method entry.extra) (codes "lightning")
      then read_entry pr entry
      else rest

  unfoldable pub parse_x402 : Bytes → Parsed PayChallenge
  unfolding first_entry
  parse_x402 header = do
    pr ← the (c.payment_required header) undecodable_header
    _ ← check (int_eq pr.version (pos 2)) unsupported_version
    first_entry pr pr.accepts

  abbrev pub l402_challenge : Headers.Challenge → Invoice → Parsed PayChallenge
  l402_challenge l4 inv =
      if leb_ℤ inv.amount_atoms (pos 0)
      then err no_amount
      else ok (record {
        rail = Rail.l402;
        invoice = l4.invoice;
        amount_atoms = inv.amount_atoms;
        destination = inv.destination;
        payment_hash = inv.payment_hash;
        description = inv.description;
        entry = none;
        resource = [];
        extensions = [];
        macaroon_b64 = l4.macaroon_b64;
      })

  abbrev pub read_l402 : Option (L402.Result Headers.Challenge) → Parsed PayChallenge
  read_l402 none = err no_challenge
  read_l402 (some (L402.err e)) = err bad_l402
  read_l402 (some (L402.ok l4)) = do inv ← decode_invoice l4.invoice; l402_challenge l4 inv

  unfoldable pub parse_challenge : Response → Bool → Parsed PayChallenge
  unfolding parse_x402 read_invoice
  parse_challenge resp force_legacy =
      if not force_legacy && not (str_eq resp.payment_required [])
      then parse_x402 resp.payment_required
      else read_l402 (find_challenge c.base64_decode resp.www_authenticate)
