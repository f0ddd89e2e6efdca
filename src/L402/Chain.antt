-- ===== src/L402/Chain.antt =====
-- Identifiers and signature chains.
use dcr.Prelude.{
  ℕ, zero, suc, ◌≡◌, ◌∙◌, refl, sym, ap, true, List, [], ◌∷◌, ◌++◌, length, take, drop, arith,
  take-append_left, drop-append_left, length-append,
}
use mathlib.Core.List.{append-nil, append_assoc}
use dcr.Prelude.Bytes.{Bytes, str_eq_refl}
use dcr.L402.{
  Crypto, ok, Identifier, encode, decode_identifier, Macaroon, extend_chain, chain, mint, attenuate,
  verify_signature,
}

-- The identifiers that the program builds: version 0, and two arrays of 32 bytes.
pub record IsIdentifier (id : Identifier) : Type 0 where
  pub version : id.version ≡ 0
  pub hash : length id.payment_hash ≡ 32
  pub token : length id.token_id ≡ 32

take-length : (xs ys : Bytes) (n : ℕ) → length xs ≡ n → take n (xs ++ ys) ≡ xs
take-length xs ys n e = rw (sym e) (take-append_left xs ys)

drop-length : (xs ys : Bytes) (n : ℕ) → length xs ≡ n → drop n (xs ++ ys) ≡ ys
drop-length xs ys n e = rw (sym e) (drop-append_left xs ys)

take-whole : (xs : Bytes) (n : ℕ) → length xs ≡ n → take n xs ≡ xs
take-whole [] zero e = refl
take-whole [] (suc n) e = refl
take-whole (x ∷ xs) zero e = ground arith
take-whole (x ∷ xs) (suc n) e = ap (◌∷◌ x) (take-whole xs n (omega arith))

-- A valid identifier is what decoding its bytes gives back.
pub decode_identifier-encode :
    (id : Identifier) → IsIdentifier id → decode_identifier (encode id) ≡ ok id
unfolding decode_identifier encode
decode_identifier-encode id h =
    let size : length (id.payment_hash ++ id.token_id) ≡ 64 =
      omega (arith, length-append id.payment_hash id.token_id, h.hash, h.token) in
    rw
      (
        size,
        h.version,
        take-length id.payment_hash id.token_id 32 h.hash,
        drop-length id.payment_hash id.token_id 32 h.hash,
        take-whole id.token_id 32 h.token,
      )
      refl

extend_chain-append :
    (crypto : Crypto) (sig : Bytes) (xs ys : List Bytes)
    → extend_chain crypto sig (xs ++ ys) ≡ extend_chain crypto (extend_chain crypto sig xs) ys
unfolding extend_chain
extend_chain-append crypto sig [] ys = refl
extend_chain-append crypto sig (x ∷ xs) ys = extend_chain-append crypto (crypto.hmac sig x) xs ys

-- A holder's caveats, one after the other.
unfoldable pub attenuate_all : Crypto → Macaroon → List Bytes → Macaroon
attenuate_all crypto m [] = m
attenuate_all crypto m (x ∷ xs) = attenuate_all crypto (attenuate crypto m x) xs

attenuate-mint :
    (crypto : Crypto) (root_key : Bytes) (id : Identifier) (caveats : List Bytes) (x : Bytes)
    → attenuate crypto (mint crypto root_key id caveats) x
      ≡ mint crypto root_key id (caveats ++ (x ∷ []))
unfolding attenuate mint chain extend_chain
attenuate-mint crypto root_key id caveats x =
    rw (extend_chain-append crypto (crypto.hmac root_key (encode id)) caveats (x ∷ []))

attenuate_all-mint_eq :
    (crypto : Crypto) (root_key : Bytes) (id : Identifier) (caveats xs : List Bytes)
    → attenuate_all crypto (mint crypto root_key id caveats) xs
      ≡ mint crypto root_key id (caveats ++ xs)
unfolding mint attenuate_all
attenuate_all-mint_eq crypto root_key id caveats [] = rw (append-nil caveats) refl
attenuate_all-mint_eq crypto root_key id caveats (x ∷ xs) =
    rw (attenuate-mint crypto root_key id caveats x) (
      attenuate_all-mint_eq crypto root_key id (caveats ++ (x ∷ [])) xs
      ∙ ap (mint crypto root_key id) (append_assoc caveats (x ∷ []) xs))

verify_signature-mint :
    (crypto : Crypto) (root_key : Bytes) (id : Identifier) (caveats : List Bytes)
    → verify_signature crypto root_key (mint crypto root_key id caveats) ≡ true
unfolding verify_signature mint
verify_signature-mint crypto root_key id caveats =
    str_eq_refl (chain crypto root_key (encode id) caveats)

-- Whoever holds a macaroon and appends caveats to it, without the root key, gets the macaroon that
-- the issuer would have minted with these caveats, and its signature verifies under the root key.
pub attenuate_all-mint :
    (crypto : Crypto) (root_key : Bytes) (id : Identifier) (caveats xs : List Bytes)
    → (attenuate_all crypto (mint crypto root_key id caveats) xs
        ≡ mint crypto root_key id (caveats ++ xs))
      × (verify_signature crypto root_key
            (attenuate_all crypto (mint crypto root_key id caveats) xs)
          ≡ true)
attenuate_all-mint crypto root_key id caveats xs = (
  attenuate_all-mint_eq crypto root_key id caveats xs,
  rw (attenuate_all-mint_eq crypto root_key id caveats xs)
      (verify_signature-mint crypto root_key id (caveats ++ xs)),
)
