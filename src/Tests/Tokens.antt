-- ===== src/Tests/Tokens.antt =====
-- The credentials' theorems, with a hash and an HMAC that only keep the length.
use dcr.Prelude.{◌≡◌, refl, true, [], ◌∷◌, ◌++◌, some, arith, replicate}
use dcr.Prelude.Int64.{wrap, ◌+ℤ◌}
use dcr.Prelude.Bytes.{Bytes, Bytes-discrete, codes, lookup, insert}
use dcr.GoText.{
  cut, split, trim_space, has_suffix, sort_strings, insert_sorted, parse_int, parse_digits,
}
use dcr.L402.{
  Crypto, Identifier, encode, decode_identifier, Macaroon, mint, attenuate, verify_signature, chain,
  extend_chain, ok, err, no_services,
}
use dcr.L402.Chain.{IsIdentifier, decode_identifier-encode, attenuate_all, attenuate_all-mint}
use dcr.L402.Wire.{marshal_binary, unmarshal_binary}
use dcr.L402.Wire.RoundTrip.{unmarshal_binary-marshal_binary}
use dcr.L402.Caveats.{
  VerifyOptions, verify_token, verify_caveats, group_caveats, verify_groups, verify_group,
  verify_services_chain, verify_valid_until_chain, attenuates, adds_name, tightens, parse_list,
  add_items, see, close,
}
use dcr.L402.Caveats.Attenuation.{verify_token-attenuate, PassesOrMisses}
use dcr.L402.Caveats.Unbound.{unbound_token_gains_service, services_caveat, for_service}

abbrev pub zeros : Bytes
zeros = replicate 32 0

abbrev pub crypto : Crypto
crypto = record {
  sha256 = λ text. zeros;
  hmac = λ key text. zeros;
  length-sha256 = λ text. refl;
  length-hmac = λ key text. refl;
}

abbrev pub identifier : Identifier
identifier = record { version = 0; payment_hash = zeros; token_id = replicate 32 7 }

identifier-IsIdentifier : IsIdentifier identifier
identifier-IsIdentifier = record { version = refl; hash = refl; token = refl }

decode_identifier-encode_example : decode_identifier (encode identifier) ≡ ok identifier
decode_identifier-encode_example = decode_identifier-encode identifier identifier-IsIdentifier

abbrev api : Bytes
api = codes "services=api:0"

abbrev until : Bytes
until = codes "api_valid_until=2000000000"

attenuate_all-mint_example :
    (attenuate_all crypto (mint crypto zeros identifier (api ∷ [])) (until ∷ [])
      ≡ mint crypto zeros identifier ((api ∷ []) ++ (until ∷ [])))
    × (verify_signature crypto zeros
          (attenuate_all crypto (mint crypto zeros identifier (api ∷ [])) (until ∷ []))
        ≡ true)
attenuate_all-mint_example = attenuate_all-mint crypto zeros identifier (api ∷ []) (until ∷ [])

abbrev pub token : Macaroon
token = record {
  location = codes "shop.org";
  id = 0 ∷ 0 ∷ (zeros ++ replicate 32 7);
  caveats = api ∷ until ∷ [];
  signature = zeros;
}

unmarshal_binary-marshal_binary_example : unmarshal_binary (marshal_binary token) ≡ ok token
unmarshal_binary-marshal_binary_example = unmarshal_binary-marshal_binary token (record {
  location = omega arith;
  id = omega arith;
  caveats = (omega arith, (omega arith, tt));
  signature = refl;
})

abbrev request : VerifyOptions
request = record { service = codes "api"; capability = []; now = 1900000000 }

verify_token-attenuate_example :
    PassesOrMisses (verify_token crypto zeros token (some zeros) request)
unfolding verify_token verify_signature chain extend_chain decode_identifier verify_caveats
    group_caveats verify_groups verify_group verify_services_chain verify_valid_until_chain
    attenuates adds_name tightens parse_list add_items see close attenuate cut split trim_space
    has_suffix sort_strings insert_sorted parse_int parse_digits lookup insert wrap ◌+ℤ◌
    Bytes-discrete
verify_token-attenuate_example =
    verify_token-attenuate crypto zeros token (codes "api_valid_until=1999999999") (some zeros)
      request (tt, (omega arith, tt)) refl refl

unbound_token_gains_service_example :
    let m = mint crypto zeros identifier [] in
    (verify_token crypto zeros m (some zeros) (for_service (codes "api") 1900000000)
      ≡ err no_services)
    × (verify_token crypto zeros
          (attenuate crypto m (services_caveat (codes "api")))
          (some zeros)
          (for_service (codes "api") 1900000000)
        ≡ ok tt)
unbound_token_gains_service_example =
    unbound_token_gains_service crypto zeros identifier zeros (codes "api") 1900000000
      identifier-IsIdentifier refl refl (λ e. ground arith)
      ((refl, refl, refl), ((refl, refl, refl), ((refl, refl, refl), tt)))
