-- ===== src/L402/Wire/Fields.antt =====
-- The fields of the wire format: what is written for one, the parser reads.
use dcr.Prelude.{
  ℕ, zero, suc, ◌+◌, ◌/◌, ◌^◌, ◌≤◌, ◌<◌, ◌≡◌, ◌∙◌, ap, List, [], ◌∷◌, ◌++◌, some, length, arith,
  take-append_left, drop-append_left, length-append,
}
use mathlib.Core.List.{append_assoc}
use dcr.Prelude.Bytes.{Bytes}
use dcr.L402.{ok}
use dcr.L402.Wire.{
  put_uvarint, uvarint, append_varint, append_packet, Packet, parse_packet, parse_section,
}

uvarint-put_uvarint :
    (fuel n i : ℕ) (rest : Bytes)
    → n < 128 ^ fuel
    → fuel + i ≤ 9
    → uvarint i (put_uvarint (suc fuel) n ++ rest) ≡ some (n, rest)
unfolding uvarint put_uvarint
uvarint-put_uvarint zero n i rest h k = ground arith
uvarint-put_uvarint (suc fuel) n i rest h k =
    ground (arith, uvarint-put_uvarint fuel (n / 128) (suc i) rest (omega arith) (omega arith))

-- The bytes of one field.
unfoldable pub packet : ℕ → Bytes → Bytes
packet ft text = ft ∷ (put_uvarint 10 (length text) ++ text)

-- What `parse_packet` finds behind the bytes of one field.
unfoldable pub Reads : ℕ → Bytes → Bytes → Type 0
Reads ft text rest =
    parse_packet (packet ft text ++ rest) ≡ ok (rest, record { field_type = ft; text = text })

uvarint-byte : (ft : ℕ) (rest : Bytes) → ft < 128 → uvarint 0 (ft ∷ rest) ≡ some (ft, rest)
unfolding uvarint
uvarint-byte ft rest h = ground arith

uvarint-length :
    (text rest : Bytes)
    → length text < 2 ^ 63
    → uvarint 0 ((put_uvarint 10 (length text) ++ text) ++ rest) ≡ some (length text, text ++ rest)
uvarint-length text rest size =
    ap (uvarint 0) (append_assoc (put_uvarint 10 (length text)) text rest)
    ∙ uvarint-put_uvarint 9 (length text) 0 (text ++ rest) size (omega arith)

pub parse_packet-packet :
    (ft : ℕ) (text rest : Bytes) → 0 < ft → ft < 128 → length text < 2 ^ 63 → Reads ft text rest
unfolding parse_packet packet Reads
parse_packet-packet ft text rest h k size =
    rw
      (
        uvarint-byte ft ((put_uvarint 10 (length text) ++ text) ++ rest) k,
        uvarint-length text rest size,
      )
      (ground
        (arith, take-append_left text rest, drop-append_left text rest, length-append text rest))

pub parse_section-packet :
    (fuel ft : ℕ) (text rest : Bytes) (ps : List Packet)
    → 0 < ft
    → ft < 128
    → length text < 2 ^ 63
    → parse_section (suc fuel) (packet ft text ++ rest) ps
      ≡ parse_section fuel rest (ps ++ (record { field_type = ft; text = text } ∷ []))
unfolding parse_section packet Reads
parse_section-packet fuel ft text rest ps h k size =
    rw (parse_packet-packet ft text rest h k size) (ground arith)

pub parse_section-eos :
    (fuel : ℕ) (rest : Bytes) (ps : List Packet)
    → parse_section (suc fuel) (0 ∷ rest) ps ≡ ok (rest, ps)
unfolding parse_section parse_packet uvarint
parse_section-eos fuel rest ps = ground arith

abbrev pub IsShort : Bytes → Type 0
IsShort text = length text < 2 ^ 63

parse_section-enough :
    (fuel ft : ℕ) (text rest : Bytes)
    → 2 ≤ fuel
    → 0 < ft
    → ft < 128
    → IsShort text
    → parse_section fuel (packet ft text ++ (0 ∷ rest)) []
      ≡ ok (rest, record { field_type = ft; text = text } ∷ [])
parse_section-enough zero ft text rest f h k size = ground arith
parse_section-enough (suc zero) ft text rest f h k size = ground arith
parse_section-enough (suc (suc fuel)) ft text rest f h k size =
    parse_section-packet (suc fuel) ft text (0 ∷ rest) [] h k size
    ∙ parse_section-eos fuel rest (record { field_type = ft; text = text } ∷ [])

pub length-packet : (ft : ℕ) (text : Bytes) → 1 ≤ length (packet ft text)
unfolding packet
length-packet ft text = ground arith

pub parse_section-one :
    (ft : ℕ) (text rest : Bytes)
    → 0 < ft
    → ft < 128
    → IsShort text
    → parse_section (length (packet ft text ++ (0 ∷ rest))) (packet ft text ++ (0 ∷ rest)) []
      ≡ ok (rest, record { field_type = ft; text = text } ∷ [])
parse_section-one ft text rest h k size =
    parse_section-enough (length (packet ft text ++ (0 ∷ rest))) ft text rest
      (omega (arith, length-append (packet ft text) (0 ∷ rest), length-packet ft text)) h k size

put_uvarint-byte : (n : ℕ) → n < 128 → put_uvarint 10 n ≡ n ∷ []
unfolding put_uvarint
put_uvarint-byte n h = ground arith

pub append_packet-packet :
    (buf : Bytes) (ft : ℕ) (text : Bytes)
    → ft < 128
    → append_packet buf ft text ≡ buf ++ packet ft text
unfolding append_packet append_varint packet
append_packet-packet buf ft text h = rw (put_uvarint-byte ft h) (
    append_assoc (buf ++ (ft ∷ [])) (put_uvarint 10 (length text)) text
    ∙ append_assoc buf (ft ∷ []) (put_uvarint 10 (length text) ++ text))
