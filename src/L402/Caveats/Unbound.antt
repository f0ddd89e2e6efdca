-- ===== src/L402/Caveats/Unbound.antt =====
-- A token that was minted for no service: its holder can bind it to one.
use dcr.Prelude.{
  ℕ, ◌≡◌, ◌≢◌, ◌∙◌, refl, ap, true, false, List, [], ◌∷◌, ◌++◌, none, some, All, All-append, arith,
  Bool-cases, inl, inr, length, ◌==◌,
}
use dcr.Prelude.Bytes.{
  Bytes, Bytes-discrete, codes, str_eq, str_eq_refl, lookup, insert, lookup-insert_self,
}
use dcr.GoText.{cut, split, sort_strings, insert_sorted, is_space}
use dcr.GoText.Laws.{cut-append, IsSolid, trim_space-IsSolid}
use dcr.L402.{Crypto, ok, err, no_services, Identifier, mint, attenuate}
use dcr.L402.Chain.{IsIdentifier, decode_identifier-encode, attenuate_all, attenuate_all-mint}
use dcr.L402.Caveats.Grouping.{All-imp}
use dcr.L402.Caveats.{
  VerifyOptions, group_caveats, add_items, parse_list, has_name, attenuates, verify_services_chain,
  verify_group, see, verify_groups, close, verify_caveats, verify_token,
}

-- A letter of a service's name.
abbrev pub IsPlain : ℕ → Type 0
IsPlain c = (is_space c ≡ false) × ((c == b',') ≡ false) × ((c == b':') ≡ false)

-- `ServicesCaveat(service, 0)`
unfoldable pub services_caveat : Bytes → Bytes
services_caveat service = codes "services" ++ (b'=' ∷ (service ++ codes ":0"))

split-plain : (s : Bytes) → All (λ c. (c == b',') ≡ false) s → split s b',' ≡ s ∷ []
unfolding split
split-plain [] h = refl
split-plain (c ∷ s) h = ground (arith, split-plain s h.1)

plain-split : (s : Bytes) → All IsPlain s → All (λ c. (c == b',') ≡ false) (s ++ codes ":0")
plain-split s h =
    All-append (λ c. (c == b',') ≡ false) s (codes ":0") (All-imp s (λ c p. p.1) h)
      (refl, (refl, tt))

plain-IsSolid : (s : Bytes) → All IsPlain s → IsSolid (s ++ codes ":0")
plain-IsSolid s h =
    All-append (λ c. is_space c ≡ false) s (codes ":0") (All-imp s (λ c p. p.0) h)
      (refl, (refl, tt))

append_tier-nonempty : (s : Bytes) → str_eq (s ++ codes ":0") [] ≡ false
append_tier-nonempty [] = ground arith
append_tier-nonempty (c ∷ s) = ground arith

add_items-plain :
    (s : Bytes) → All IsPlain s → add_items [] ((s ++ codes ":0") ∷ []) ≡ insert s (codes "0") []
unfolding add_items
add_items-plain s h =
    rw
      (
        trim_space-IsSolid (s ++ codes ":0") (plain-IsSolid s h),
        append_tier-nonempty s,
        cut-append s (codes "0") b':' (All-imp s (λ c p. p.2) h),
      )
      refl

has_name-parse_list : (s : Bytes) → All IsPlain s → has_name s (parse_list (s ++ codes ":0")) ≡ true
unfolding parse_list
has_name-parse_list s h =
    rw (split-plain (s ++ codes ":0") (plain-split s h), add_items-plain s h)
      (ap (λ found. elim found [ none ↦ false | some _ ↦ true ])
        (lookup-insert_self s (codes "0") []))

cut-services_caveat :
    (s : Bytes) → cut (services_caveat s) b'=' ≡ (codes "services", s ++ codes ":0", true)
unfolding services_caveat
cut-services_caveat s =
    cut-append (codes "services") (s ++ codes ":0") b'='
      (refl, (refl, (refl, (refl, (refl, (refl, (refl, (refl, tt))))))))

verify_services_chain-services_caveat :
    (s : Bytes) → All IsPlain s → verify_services_chain ((s ++ codes ":0") ∷ []) s ≡ ok tt
unfolding verify_services_chain attenuates
verify_services_chain-services_caveat s h = rw (has_name-parse_list s h) refl

abbrev pub for_service : Bytes → ℕ → VerifyOptions
for_service s now = record { service = s; capability = []; now = now }

pub close-seen :
    (s : Bytes) (now : ℕ)
    → close (for_service s now) (record { services = true; caps = false }) ≡ ok tt
unfolding close Bytes-discrete
close-seen s now = elim (Bool-cases (str_eq s [])) [ inl e ↦ rw e refl | inr e ↦ rw e refl ]

verify_caveats-services_caveat :
    (s : Bytes) (now : ℕ)
    → All IsPlain s
    → verify_caveats (services_caveat s ∷ []) (for_service s now) ≡ ok tt
unfolding verify_caveats group_caveats verify_groups verify_group sort_strings insert_sorted see
    close lookup insert Bytes-discrete
verify_caveats-services_caveat s now h =
    rw (cut-services_caveat s, verify_services_chain-services_caveat s h) (close-seen s now)

verify_caveats-none :
    (s : Bytes) (now : ℕ) → s ≢ [] → verify_caveats [] (for_service s now) ≡ err no_services
unfolding verify_caveats group_caveats verify_groups sort_strings close
verify_caveats-none s now h = ground arith

pub verify_token-mint :
    (crypto : Crypto) (root_key : Bytes) (id : Identifier) (caveats xs : List Bytes) (pre : Bytes)
    (o : VerifyOptions)
    → IsIdentifier id
    → length pre ≡ 32
    → crypto.sha256 pre ≡ id.payment_hash
    → verify_token crypto root_key
        (attenuate_all crypto (mint crypto root_key id caveats) xs)
        (some pre)
        o
      ≡ verify_caveats (caveats ++ xs) o
unfolding verify_token mint
verify_token-mint crypto root_key id caveats xs pre o valid size opens =
    let (same, signed) = attenuate_all-mint crypto root_key id caveats xs in
    let signed_mint = rw same at signed in
    rw
      (
        same,
        signed_mint,
        decode_identifier-encode id valid,
        size,
        opens,
        str_eq_refl id.payment_hash,
      )
      refl

-- A token that was minted with no caveat is refused for every service. When its holder appends a
-- `services` caveat, which takes no root key, it is accepted for the service that this names, with
-- the preimage of its payment hash.
pub unbound_token_gains_service :
    (crypto : Crypto) (root_key : Bytes) (id : Identifier) (pre service : Bytes) (now : ℕ)
    → IsIdentifier id
    → length pre ≡ 32
    → crypto.sha256 pre ≡ id.payment_hash
    → service ≢ []
    → All IsPlain service
    → let m = mint crypto root_key id [] in
      (verify_token crypto root_key m (some pre) (for_service service now) ≡ err no_services)
      × (verify_token crypto root_key
            (attenuate crypto m (services_caveat service))
            (some pre)
            (for_service service now)
          ≡ ok tt)
unfolding attenuate_all
unbound_token_gains_service crypto root_key id pre service now valid size opens named plain = (
  verify_token-mint crypto root_key id [] [] pre (for_service service now) valid size opens
      ∙ verify_caveats-none service now named,
  verify_token-mint crypto root_key id [] (services_caveat service ∷ []) pre
        (for_service service now) valid size opens
      ∙ verify_caveats-services_caveat service now plain,
)
