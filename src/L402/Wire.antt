-- ===== src/L402/Wire.antt =====
-- lib/l402/l402.go: the macaroon V2 wire format. Numbers are those of `encoding/binary`: seven bits
-- to a byte, the low ones first. A loop's fuel is the length of what it reads: each round takes a
-- byte at least, and where nothing is left the source stops with the error that stands here for no
-- fuel.
mod Fields
pub mod RoundTrip
use dcr.Prelude.{
  ℕ, zero, suc, ◌+◌, ◌-◌, ◌*◌, ◌/◌, ◌%◌, ◌≡◌, Bool, true, false, ◌&&◌, not, List, [], ◌∷◌, ◌++◌,
  Option, none, some, length, take, drop, ltb, ◌==◌, if◌then◌else◌,
}
use dcr.Prelude.Bytes.{Bytes, str_eq}
use dcr.L402.{
  Result, ok, err, ◌>>=◌, Macaroon, bad_field_type, bad_length, field_past_end, section_past_end,
  not_v2, bad_header, third_party, missing_identifier, bad_signature, trailing_bytes,
}

abbrev pub field_eos : ℕ
field_eos = 0

abbrev pub field_location : ℕ
field_location = 1

abbrev pub field_identifier : ℕ
field_identifier = 2

abbrev pub field_signature : ℕ
field_signature = 6

-- binary.MaxVarintLen64
abbrev pub max_varint_len : ℕ
max_varint_len = 10

-- `binary.PutUvarint`, in at most `fuel` bytes.
unfoldable pub put_uvarint : ℕ → ℕ → Bytes
put_uvarint zero n = []
put_uvarint (suc fuel) n =
    let rest = put_uvarint fuel (n / 128) in if ltb n 128 then n ∷ [] else (n % 128 + 128) ∷ rest

abbrev pub shift_group : ℕ → Option (ℕ × Bytes) → Option (ℕ × Bytes)
shift_group b none = none
shift_group b (some (x, rest)) = some (b - 128 + 128 * x, rest)

-- `binary.Uvarint` from the byte with index `i` on: the number and what follows it; `none` where
-- the source's count of bytes is zero or less.
unfoldable pub uvarint : ℕ → Bytes → Option (ℕ × Bytes)
uvarint i [] = none
uvarint i (b ∷ rest) =
    let more = shift_group b (uvarint (suc i) rest) in
    if i == max_varint_len
    then none
    else if ltb b 128
    then (if i == 9 && ltb 1 b then none else some (b, rest))
    else more

unfoldable pub append_varint : Bytes → ℕ → Bytes
unfolding put_uvarint
append_varint buf n = buf ++ put_uvarint max_varint_len n

unfoldable pub append_packet : Bytes → ℕ → Bytes → Bytes
unfolding append_varint
append_packet buf field_type text =
    append_varint (append_varint buf field_type) (length text) ++ text

unfoldable pub append_caveats : Bytes → List Bytes → Bytes
unfolding append_packet
append_caveats buf [] = buf
append_caveats buf (cav ∷ caveats) =
    append_caveats (append_packet buf field_identifier cav ++ (field_eos ∷ [])) caveats

unfoldable pub marshal_binary : Macaroon → Bytes
unfolding append_packet append_caveats
marshal_binary m =
    let located =
      if str_eq m.location [] then 2 ∷ [] else append_packet (2 ∷ []) field_location m.location in
    let named = append_packet located field_identifier m.id ++ (field_eos ∷ []) in
    append_packet (append_caveats named m.caveats ++ (field_eos ∷ [])) field_signature m.signature

pub record Packet : Type 0 where
  pub field_type : ℕ
  pub text : Bytes

abbrev pub take_field : ℕ → Option (ℕ × Bytes) → Result (Bytes × Packet)
take_field ft none = err bad_length
take_field ft (some (size, rest)) =
    if ltb (length rest) size
    then err field_past_end
    else ok (drop size rest, record { field_type = ft; text = take size rest })

abbrev pub parse_field : Option (ℕ × Bytes) → Result (Bytes × Packet)
parse_field none = err bad_field_type
parse_field (some (ft, rest)) =
    if ft == field_eos
    then ok (rest, record { field_type = ft; text = [] })
    else take_field ft (uvarint 0 rest)

unfoldable pub parse_packet : Bytes → Result (Bytes × Packet)
unfolding uvarint
parse_packet text = parse_field (uvarint 0 text)

unfoldable pub parse_section : ℕ → Bytes → List Packet → Result (Bytes × List Packet)
unfolding parse_packet
parse_section fuel [] packets = err section_past_end
parse_section zero (b ∷ text) packets = err section_past_end
parse_section (suc fuel) (b ∷ text) packets = do
  (rest, p) ← parse_packet (b ∷ text)
  let more = parse_section fuel rest (packets ++ (p ∷ [])) in
      if p.field_type == field_eos then ok (rest, packets) else more

abbrev pub caveat_of : List Packet → Result Bytes
caveat_of [] = err missing_identifier
caveat_of (p ∷ more) =
    if p.field_type == field_location
    then err third_party
    else if not (p.field_type == field_identifier)
    then err missing_identifier
    else elim more [ [] ↦ ok p.text | _ ∷ _ ↦ err third_party ]

-- The loop over the caveats: what follows their list, and the caveats.
unfoldable pub parse_caveats : ℕ → Bytes → List Bytes → Result (Bytes × List Bytes)
unfolding parse_section
parse_caveats zero text caveats = err section_past_end
parse_caveats (suc fuel) text caveats = do
  (rest, section) ← parse_section (length text) text []
  elim section [
    | [] ↦ ok (rest, caveats)
    | p ∷ more ↦ do cav ← caveat_of (p ∷ more); parse_caveats fuel rest (caveats ++ (cav ∷ []))
  ]

-- The location, where the header starts with one, and the identifier.
abbrev pub identifier_of : List Packet → Result Bytes
identifier_of (p ∷ []) = if p.field_type == field_identifier then ok p.text else err bad_header
identifier_of _ = err bad_header

abbrev pub header_of : List Packet → Result (Bytes × Bytes)
header_of [] = err bad_header
header_of (p ∷ more) =
    if p.field_type == field_location
    then (do id ← identifier_of more; ok (p.text, id))
    else (do id ← identifier_of (p ∷ more); ok ([], id))

abbrev pub signature_of : Bytes × Packet → Result Bytes
signature_of (rest, p) =
    if p.field_type == field_signature && length p.text == 32
    then (if length rest == 0 then ok p.text else err trailing_bytes)
    else err bad_signature

unfoldable pub unmarshal_body : Bytes → Result Macaroon
unfolding parse_caveats
unmarshal_body text = do
  (rest, header) ← parse_section (length text) text []
  (location, id) ← header_of header
  (after, caveats) ← parse_caveats (suc (length rest)) rest []
  last ← parse_packet after
  signature ← signature_of last
  ok (record { location = location; id = id; caveats = caveats; signature = signature })

unfoldable pub unmarshal_binary : Bytes → Result Macaroon
unfolding unmarshal_body
unmarshal_binary [] = err not_v2
unmarshal_binary (b ∷ text) = if b == 2 then unmarshal_body text else err not_v2
