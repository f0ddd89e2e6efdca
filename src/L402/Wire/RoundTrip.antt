-- ===== src/L402/Wire/RoundTrip.antt =====
-- What `MarshalBinary` writes, `UnmarshalBinary` reads back.
use dcr.Prelude.{
  ℕ, zero, suc, ◌^◌, ◌≤◌, ◌<◌, ◌≡◌, ◌∙◌, refl, sym, ap, List, [], ◌∷◌, ◌++◌, length, All,
  if◌then◌else◌, arith, length-append, Bool-cases, inl, inr,
}
use mathlib.Core.List.{append-nil, append_assoc}
use dcr.Prelude.Bytes.{Bytes, str_eq}
use dcr.L402.{ok, Macaroon}
use dcr.L402.Wire.{
  uvarint, append_packet, append_caveats, marshal_binary, Packet, parse_packet, parse_section,
  parse_caveats, unmarshal_body, unmarshal_binary, header_of,
}
use dcr.L402.Wire.Fields.{
  packet, Reads, parse_packet-packet, parse_section-packet, parse_section-eos, IsShort,
  length-packet, parse_section-one, append_packet-packet,
}

-- The bytes of the caveats.
caveat_bytes : List Bytes → Bytes
caveat_bytes [] = []
caveat_bytes (cav ∷ caveats) = packet 2 cav ++ (0 ∷ caveat_bytes caveats)

parse_caveats-packet :
    (fuel : ℕ) (cav : Bytes) (acc : List Bytes) (rest : Bytes)
    → IsShort cav
    → parse_caveats (suc fuel) (packet 2 cav ++ (0 ∷ rest)) acc
      ≡ parse_caveats fuel rest (acc ++ (cav ∷ []))
unfolding parse_caveats
parse_caveats-packet fuel cav acc rest size =
    rw (parse_section-one 2 cav rest (omega arith) (omega arith) size) refl

parse_caveats-eos :
    (fuel : ℕ) (acc : List Bytes) (rest : Bytes)
    → parse_caveats (suc fuel) (0 ∷ rest) acc ≡ ok (rest, acc ++ [])
unfolding parse_caveats parse_section parse_packet uvarint
parse_caveats-eos fuel acc rest = rw (append-nil acc) refl

parse_caveats-caveat_bytes :
    (fuel : ℕ) (caveats acc : List Bytes) (rest : Bytes)
    → length caveats < fuel
    → All IsShort caveats
    → parse_caveats fuel (caveat_bytes caveats ++ (0 ∷ rest)) acc ≡ ok (rest, acc ++ caveats)
unfolding caveat_bytes
parse_caveats-caveat_bytes zero caveats acc rest h short = ground arith
parse_caveats-caveat_bytes (suc fuel) [] acc rest h short = parse_caveats-eos fuel acc rest
parse_caveats-caveat_bytes (suc fuel) (cav ∷ caveats) acc rest h short =
    ap (λ t. parse_caveats (suc fuel) t acc)
      (append_assoc (packet 2 cav) (0 ∷ caveat_bytes caveats) (0 ∷ rest))
    ∙ parse_caveats-packet fuel cav acc (caveat_bytes caveats ++ (0 ∷ rest)) short.0
    ∙ parse_caveats-caveat_bytes fuel caveats (acc ++ (cav ∷ [])) rest (omega arith) short.1
    ∙ ap (λ cs. ok (rest, cs)) (append_assoc acc (cav ∷ []) caveats)

append_caveats-caveat_bytes :
    (buf : Bytes) (caveats : List Bytes) → append_caveats buf caveats ≡ buf ++ caveat_bytes caveats
unfolding append_caveats caveat_bytes
append_caveats-caveat_bytes buf [] = sym (append-nil buf)
append_caveats-caveat_bytes buf (cav ∷ caveats) =
    append_caveats-caveat_bytes (append_packet buf 2 cav ++ (0 ∷ [])) caveats
    ∙ append_assoc (append_packet buf 2 cav) (0 ∷ []) (caveat_bytes caveats)
    ∙ ap (λ b. b ++ (0 ∷ caveat_bytes caveats)) (append_packet-packet buf 2 cav (omega arith))
    ∙ append_assoc buf (packet 2 cav) (0 ∷ caveat_bytes caveats)

-- The bytes behind the location.
tail_bytes : Macaroon → Bytes
tail_bytes m = packet 2 m.id ++ (0 ∷ (caveat_bytes m.caveats ++ (0 ∷ packet 6 m.signature)))

-- The location's field, which the empty location does not have.
location_bytes : Bytes → Bytes
location_bytes location = if str_eq location [] then [] else packet 1 location

reassociate :
    (l i c s : Bytes)
    → ((((l ++ i) ++ (0 ∷ [])) ++ c) ++ (0 ∷ [])) ++ s ≡ l ++ (i ++ (0 ∷ (c ++ (0 ∷ s))))
reassociate l i c s =
    append_assoc (((l ++ i) ++ (0 ∷ [])) ++ c) (0 ∷ []) s
    ∙ append_assoc ((l ++ i) ++ (0 ∷ [])) c (0 ∷ s)
    ∙ append_assoc (l ++ i) (0 ∷ []) (c ++ (0 ∷ s))
    ∙ append_assoc l i (0 ∷ (c ++ (0 ∷ s)))

marshal_behind :
    (located : Bytes) (m : Macaroon)
    → append_packet
        (append_caveats (append_packet located 2 m.id ++ (0 ∷ [])) m.caveats ++ (0 ∷ []))
        6
        m.signature
      ≡ located ++ tail_bytes m
unfolding tail_bytes
marshal_behind located m =
    append_packet-packet _ 6 m.signature (omega arith)
    ∙ ap (λ b. (b ++ (0 ∷ [])) ++ packet 6 m.signature)
        (append_caveats-caveat_bytes (append_packet located 2 m.id ++ (0 ∷ [])) m.caveats
          ∙ ap (λ b. (b ++ (0 ∷ [])) ++ caveat_bytes m.caveats)
              (append_packet-packet located 2 m.id (omega arith)))
    ∙ reassociate located (packet 2 m.id) (caveat_bytes m.caveats) (packet 6 m.signature)

marshal_binary_bytes :
    (m : Macaroon) → marshal_binary m ≡ 2 ∷ (location_bytes m.location ++ tail_bytes m)
unfolding marshal_binary tail_bytes location_bytes
marshal_binary_bytes m = elim (Bool-cases (str_eq m.location [])) [
  | inl e ↦ rw (marshal_binary, e) (marshal_behind (2 ∷ []) m)
  | inr e ↦
      rw (marshal_binary, e)
        (marshal_behind (append_packet (2 ∷ []) 1 m.location) m
          ∙ ap (λ b. b ++ tail_bytes m) (append_packet-packet (2 ∷ []) 1 m.location (omega arith)))
]

-- Every field of the macaroon is shorter than a slice of Go can be, and its signature has 32 bytes.
pub record Fits (m : Macaroon) : Type 0 where
  pub location : length m.location < 2 ^ 63
  pub id : length m.id < 2 ^ 63
  pub caveats : All (λ cav. length cav < 2 ^ 63) m.caveats
  pub signature : length m.signature ≡ 32

length-caveat_bytes : (caveats : List Bytes) → length caveats ≤ length (caveat_bytes caveats)
unfolding caveat_bytes
length-caveat_bytes [] = omega arith
length-caveat_bytes (cav ∷ caveats) = omega (
  arith,
  length-caveat_bytes caveats,
  length-append (packet 2 cav) (0 ∷ caveat_bytes caveats),
  length-packet 2 cav,
)

unmarshal_body_rest :
    (m : Macaroon)
    → Fits m
    → let rest = caveat_bytes m.caveats ++ (0 ∷ packet 6 m.signature) in
      (parse_caveats (suc (length rest)) rest [] ≡ ok (packet 6 m.signature, m.caveats))
      × (parse_packet (packet 6 m.signature)
          ≡ ok ([], record { field_type = 6; text = m.signature }))
unfolding Reads
unmarshal_body_rest m f =
    let c = caveat_bytes m.caveats in
    let s = packet 6 m.signature in
    (
      parse_caveats-caveat_bytes (suc (length (c ++ (0 ∷ s)))) m.caveats [] s
          (omega (arith, length-append c (0 ∷ s), length-caveat_bytes m.caveats)) f.caveats,
      ap parse_packet (sym (append-nil s))
          ∙ parse_packet-packet 6 m.signature [] (omega arith) (omega arith)
              (omega (arith, f.signature)),
    )

unmarshal_body-tail :
    (m : Macaroon) (head : Bytes) (header : List Packet)
    → Fits m
    → parse_section (length (head ++ tail_bytes m)) (head ++ tail_bytes m) []
      ≡ ok (caveat_bytes m.caveats ++ (0 ∷ packet 6 m.signature), header)
    → header_of header ≡ ok (m.location, m.id)
    → unmarshal_body (head ++ tail_bytes m) ≡ ok m
unfolding unmarshal_body
unmarshal_body-tail m head header f e h =
    rw (e, h, (unmarshal_body_rest m f).0, (unmarshal_body_rest m f).1, f.signature) refl

-- A header of a location and an identifier.
parse_section-two :
    (fuel : ℕ) (location id rest : Bytes)
    → 3 ≤ fuel
    → IsShort location
    → IsShort id
    → parse_section fuel (packet 1 location ++ (packet 2 id ++ (0 ∷ rest))) []
      ≡ ok (
        rest,
        record { field_type = 1; text = location } ∷ record { field_type = 2; text = id } ∷ [],
      )
parse_section-two zero location id rest f hl hi = ground arith
parse_section-two (suc zero) location id rest f hl hi = ground arith
parse_section-two (suc (suc zero)) location id rest f hl hi = ground arith
parse_section-two (suc (suc (suc fuel))) location id rest f hl hi =
    let first : Packet = record { field_type = 1; text = location } in
    let second : Packet = record { field_type = 2; text = id } in
    parse_section-packet (suc (suc fuel)) 1 location (packet 2 id ++ (0 ∷ rest)) [] (omega arith)
      (omega arith) hl
    ∙ parse_section-packet (suc fuel) 2 id (0 ∷ rest) (first ∷ []) (omega arith) (omega arith) hi
    ∙ parse_section-eos fuel rest (first ∷ second ∷ [])

unmarshal_body-bare :
    (m : Macaroon) → Fits m → m.location ≡ [] → unmarshal_body (tail_bytes m) ≡ ok m
unfolding tail_bytes
unmarshal_body-bare m f e =
    unmarshal_body-tail m [] (record { field_type = 2; text = m.id } ∷ []) f
      (parse_section-one 2 m.id (caveat_bytes m.caveats ++ (0 ∷ packet 6 m.signature)) (omega arith)
        (omega arith) f.id)
      (ap (λ l. ok (l, m.id)) (sym e))

unmarshal_body-located :
    (m : Macaroon) → Fits m → unmarshal_body (packet 1 m.location ++ tail_bytes m) ≡ ok m
unfolding tail_bytes
unmarshal_body-located m f =
    let rest = caveat_bytes m.caveats ++ (0 ∷ packet 6 m.signature) in
    unmarshal_body-tail m (packet 1 m.location)
      (record { field_type = 1; text = m.location } ∷ record { field_type = 2; text = m.id } ∷ []) f
      (parse_section-two (length (packet 1 m.location ++ tail_bytes m)) m.location m.id rest
        (omega (
          arith,
          length-append (packet 1 m.location) (tail_bytes m),
          length-append (packet 2 m.id) (0 ∷ rest),
          length-packet 1 m.location,
          length-packet 2 m.id,
        ))
        f.location f.id)
      refl

-- A macaroon that is written in the V2 wire format is what is read back from these bytes, whatever
-- bytes its identifier and its caveats hold, with an empty location or with one.
pub unmarshal_binary-marshal_binary :
    (m : Macaroon) → Fits m → unmarshal_binary (marshal_binary m) ≡ ok m
unfolding unmarshal_binary location_bytes
unmarshal_binary-marshal_binary m f = elim (Bool-cases (str_eq m.location [])) [
  | inl e ↦ rw (marshal_binary_bytes m, e) (unmarshal_body-bare m f (ground arith))
  | inr e ↦ rw (marshal_binary_bytes m, e) (unmarshal_body-located m f)
]
