-- ===== src/L402/Headers.antt =====
-- lib/l402/l402.go: the HTTP headers of a challenge and of a credential. Base64 is a parameter.
use dcr.Prelude.{
  Bool, true, false, not, ◌||◌, List, [], ◌∷◌, ◌++◌, Option, none, some, if◌then◌else◌,
}
use dcr.Prelude.Bytes.{Bytes, codes, str_eq}
use dcr.GoText.{trim_space, to_lower, cut, split, hex_decode}
use dcr.GoText.Words.{to_upper, trim_byte, fields}
use dcr.L402.{
  Result, ok, err, ◌>>=◌, Macaroon, malformed_parameter, missing_parameter, not_base64,
  malformed_credential, not_hex,
}
use dcr.L402.Wire.{marshal_binary, unmarshal_binary}

abbrev pub scheme_l402 : Bytes
scheme_l402 = codes "L402"

abbrev pub scheme_lsat : Bytes
scheme_lsat = codes "LSAT"

abbrev pub is_scheme : Bytes → Bool
is_scheme scheme = str_eq scheme scheme_l402 || str_eq scheme scheme_lsat

pub record Challenge : Type 0 where
  pub scheme : Bytes
  pub macaroon_b64 : Bytes
  pub macaroon : Macaroon
  pub invoice : Bytes

-- One challenge header: `<scheme> macaroon="<b64>", invoice="<invoice>"`.
unfoldable pub challenge_value : Bytes → Bytes → Bytes → Bytes
challenge_value scheme b64 invoice =
    scheme ++ (codes " macaroon=\"" ++ (b64 ++ (codes "\", invoice=\"" ++ (invoice ++ codes "\""))))

-- `WriteChallenge`: LSAT first.
unfoldable pub write_challenge : (Bytes → Bytes) → Macaroon → Bytes → List Bytes
unfolding challenge_value
write_challenge base64_encode m invoice =
    let b64 = base64_encode (marshal_binary m) in
    challenge_value scheme_lsat b64 invoice ∷ challenge_value scheme_l402 b64 invoice ∷ []

-- `AuthorizationValue`
unfoldable pub authorization_value : (Bytes → Bytes) → Macaroon → Bytes → Bytes
authorization_value base64_encode m preimage_hex =
    scheme_l402 ++ (codes " " ++ (base64_encode (marshal_binary m) ++ (b':' ∷ preimage_hex)))

-- One parameter of a challenge, read into the macaroon and the invoice found so far.
abbrev pub read_param : Bytes × Bytes → Bytes × Bytes × Bool → Result (Bytes × Bytes)
read_param acc (key, val, false) = err malformed_parameter
read_param (mac, invoice) (key, val, true) =
    let text = trim_byte b'"' val in
    if str_eq (to_lower key) (codes "macaroon")
    then ok (text, invoice)
    else if str_eq (to_lower key) (codes "invoice")
    then ok (mac, text)
    else ok (mac, invoice)

unfoldable pub read_params : Bytes × Bytes → List Bytes → Result (Bytes × Bytes)
read_params acc [] = ok acc
read_params acc (part ∷ parts) = do
  found ← read_param acc (cut (trim_space part) b'=')
  read_params found parts

module _ (base64_decode : Bytes → Option Bytes) where
  abbrev pub macaroon_at : Option Bytes → Result Macaroon
  macaroon_at none = err not_base64
  macaroon_at (some raw) = unmarshal_binary raw

  abbrev pub challenge_of : Bytes → Bytes × Bytes → Result Challenge
  challenge_of scheme (b64, invoice) =
      if str_eq b64 [] || str_eq invoice [] then err missing_parameter else (do
        m ← macaroon_at (base64_decode b64)
        ok (record { scheme = scheme; macaroon_b64 = b64; macaroon = m; invoice = invoice }))

  abbrev pub parse_params : Bytes × Bytes × Bool → Option (Result Challenge)
  parse_params (scheme, params, false) = none
  parse_params (scheme, params, true) =
      if is_scheme (to_upper scheme)
      then some (read_params ([], []) (split params b',') >>= challenge_of (to_upper scheme))
      else none

  -- `ParseChallenge`: `none` for a value that is no such challenge at all.
  unfoldable pub parse_challenge : Bytes → Option (Result Challenge)
  unfolding read_params
  parse_challenge value = parse_params (cut (trim_space value) b' ')

  -- The loop of `FindChallenge`, with what the first malformed value gave.
  unfoldable pub scan_challenges :
      Option (Result Challenge) → List Bytes → Option (Result Challenge)
  unfolding parse_challenge
  scan_challenges first [] = first
  scan_challenges first (v ∷ values) = elim (parse_challenge v) [
    | none ↦ scan_challenges first values
    | some (ok ch) ↦ some (ok ch)
    | some (err e) ↦ scan_challenges (elim first [ none ↦ some (err e) | some f ↦ some f ]) values
  ]

  -- `FindChallenge`: the first well-formed challenge, or the first error, or nothing.
  unfoldable pub find_challenge : List Bytes → Option (Result Challenge)
  unfolding scan_challenges
  find_challenge values = scan_challenges none values

  unfoldable pub read_macaroons : List Bytes → Result (List Macaroon)
  read_macaroons [] = ok []
  read_macaroons (b64 ∷ more) = do
    m ← macaroon_at (base64_decode b64)
    rest ← read_macaroons more
    ok (m ∷ rest)

  abbrev pub read_credential : Bytes × Bytes × Bool → Result (List Macaroon × Bytes)
  read_credential (macs, preimage, found) =
      if not found || str_eq macs [] || str_eq preimage []
      then err malformed_credential
      else elim (hex_decode preimage) [
        | none ↦ err not_hex
        | some raw ↦ do ms ← read_macaroons (split macs b','); ok (ms, preimage)
      ]

  abbrev pub parse_fields : List Bytes → Option (Result (List Macaroon × Bytes))
  parse_fields (scheme ∷ credential ∷ []) =
      if is_scheme (to_upper scheme) then some (read_credential (cut credential b':')) else none
  parse_fields _ = none

  -- `ParseAuthorization`: `none` for a value that is no such credential at all.
  unfoldable pub parse_authorization : Bytes → Option (Result (List Macaroon × Bytes))
  unfolding read_macaroons
  parse_authorization value = parse_fields (fields (trim_space value))
