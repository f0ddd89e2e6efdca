-- ===== src/Lib.antt =====
-- dcr402: machine-checked models of the payment gate, the agent that pays, and what they share.
--
-- The program sells access for DCR and buys it. A gate (lib/) issues challenges, verifies payments
-- over Lightning or on chain, settles each once, and hands out L402 credentials; a credit ledger
-- holds prepaid balances. An agent (agent/) pays for a machine under its owner's policy: every
-- attempt is judged and recorded, some wait for the owner's approval, and a kill switch stops them.
--
-- Files and the code that they model:
--   Prelude    shared notation: Boolean tests, lists, int64 arithmetic (Int64), bytes and maps (Bytes)
--   GoText     Go's strings, strconv and hex, as far as the code uses them (Words, Numbers)
--   Policy     agent/policy/policy.go: ParseAmount (Amount), matchDomain (Domain), Evaluate
--              (Evaluate) and Parse (Compile); the rules keep the source's order and details
--   AgentStore agent/store/store.go: the memory store, its windows of spending (Calendar)
--   PayClient  agent/payclient/payclient.go: parseChallenge and parseX402 with DecodeInvoice of
--              agent/rails/ln/ln.go (Challenge), FetchPaid (Fetch) over the ports of a client: the
--              token cache, the policy hook and the rail, on any state; Contract says what the
--              client does with its ports
--   Agent      agent/service.go (Payments, and Fetch for FetchPaid and its gate), agent/freeze.go
--              (Freeze), agent/approve/approve.go (Registry): a System holds the policy, the store,
--              the waiting continuations, the goroutines that were started and the requests to the
--              rails. History runs any sequence of calls, fetches, verdicts, sweeps, goroutines,
--              freezes, reloads and restarts; Booked follows the payments table through it, Frozen
--              what a freeze stops, and Limits what escapes it
--   Ledger     lib/ledger/ledger.go: Grant, Charge, Balance of the memory ledger
--   L402       lib/l402/l402.go: identifiers and the HMAC chain, the V2 wire format (Wire), the
--              caveats and VerifyToken (Caveats), the caveats' texts (Credential) and the challenge
--              and authorization headers (Headers)
--   Gate       lib/store/store.go: the memory store; lib/x402/x402.go: EqualSemantic (X402);
--              lib/verify.go: the rules (Verify) and settleFull (Settle), with authorizeToken of
--              lib/gate.go; lib/challenge.go: minting and challenges (Mint); the rest of
--              lib/gate.go with lib/paymentid.go: the middleware (Serve); lib/topup.go: top-ups and
--              the charging of credentials over a store and a ledger (Topup); lib/mcp.go (Mcp)
--   Gateway    gateway/config.go: amounts, prices, validation and resolution (Config);
--              gateway/httpgate.go (Http) and gateway/mcpgate.go (Mcp): what reaches an upstream
--   Tests      concrete inputs on which the theorems apply
--
-- A method under a mutex is one step. A function keeps the source's name in snake case; an error is
-- a constructor, without its message. Text is a list of bytes, letters and white space are ASCII.
-- int64 results wrap. Maps are association lists; where the source ranges over a map, the order is
-- that of the list. Each agent call reads the clock once, where the program reads it several times.
--
-- Parameters, with what is relied on: SHA-256 and HMAC (32 bytes long), the JSON codecs of the freeze
-- state (the flag is read back as it was written) and of the settlement response (the whole is),
-- time.ParseDuration, the decoders and encoders of JSON, base64, BOLT11 invoices and URLs, and
-- path.Clean. The answers of rails, nodes, wallets and notifiers and random identifiers are arguments
-- of the calls.
--
-- Fuel: a varint is at most ten bytes and a decimal int64 at most nineteen digits, which is the fuel
-- of their printers; the loops of the wire format have the length of their input, and each round
-- takes a byte at least, so that without fuel nothing is left to read and the source's error is the
-- one returned.
--
-- Not modelled: the SQLite stores, which run SQL in a database; the HTTP and gRPC transports, whose
-- answers are arguments, and the reverse proxy behind the gateway; pages, listings and estimates,
-- which move nothing; the bazaar, configuration of the agent and wiring.
pub mod Prelude
pub mod GoText
pub mod Policy
pub mod AgentStore
pub mod L402
pub mod Gate
pub mod Gateway
pub mod PayClient
pub mod Agent
pub mod Ledger
pub mod Tests
