-- ===== src/L402/Caveats/Chains.antt =====
-- The chains of one condition: where a chain with one more value passes, the chain without it does.
use dcr.Prelude.{
  ℕ, ◌+◌, ◌^◌, ◌≡◌, ◌≢◌, refl, Bool, true, false, List, [], ◌∷◌, ◌++◌, Option, none, some, arith,
  Bool-cases, Option-cases, inl, inr, ◌⊎◌,
}
use dcr.Prelude.Int64.{ℤ, pos, negsuc, ltb_ℤ, ◌≤ℤ◌, ◌+ℤ◌, IsInt64, wrap_of_IsInt64, +ℤ_parts}
use dcr.Prelude.Bytes.{Bytes, Dict, lookup}
use dcr.GoText.{parse_int, parse_magnitude, in_int64, trim_space}
use dcr.L402.{Result, ok, err, L402Error, service_added, capability_added}
use dcr.L402.Caveats.{
  VerifyOptions, has_name, adds_name, parse_list, attenuates, verify_services_chain,
  verify_caps_chain, tightens, is_before, verify_valid_until_chain, unix_to_internal,
}

-- No name of `cur` is missing in `prev`.
abbrev Within : Dict Bytes → Dict Bytes → Type 0
Within cur prev = (k : Bytes) → has_name k cur ≡ true → has_name k prev ≡ true

adds_name-Within : (cur prev : Dict Bytes) → adds_name cur prev ≡ false → Within cur prev
unfolding adds_name lookup
adds_name-Within [] prev e k h = ground arith
adds_name-Within ((j, t) ∷ cur) prev e k h = elim (Bool-cases (has_name j prev)) [
  | inl has ↦ ground (arith, adds_name-Within cur prev (ground arith) k)
  | inr misses ↦ ground arith
]

attenuates-append :
    (e : L402Error) (prev : Dict Bytes) (vals : List Bytes) (v : Bytes) (d : Dict Bytes)
    → attenuates e prev (vals ++ (v ∷ [])) ≡ ok d
    → (d' : Dict Bytes) × (attenuates e prev vals ≡ ok d') × Within d d'
unfolding attenuates
attenuates-append e prev [] v d h = elim (Bool-cases (adds_name (parse_list v) prev)) [
  | inl adds ↦ ground arith
  | inr stays ↦ (prev, refl, λ k has. ground (arith, adds_name-Within (parse_list v) prev stays k))
]
attenuates-append e prev (u ∷ vals) v d h = elim (Bool-cases (adds_name (parse_list u) prev)) [
  | inl adds ↦ ground arith
  | inr stays ↦
      let (d', passes, within) = attenuates-append e (parse_list u) vals v d (ground arith) in
      (d', ground arith, within)
]

tightens-append :
    (prev : ℤ) (vals : List Bytes) (v : Bytes) (t : ℤ)
    → tightens prev (vals ++ (v ∷ [])) ≡ ok t
    → (t' : ℤ) × (tightens prev vals ≡ ok t') × (t ≤ℤ t')
unfolding tightens
tightens-append prev [] v t h = (prev, refl, ground arith)
tightens-append prev (u ∷ vals) v t h = elim (Option-cases (parse_int (trim_space u))) [
  | inl bad ↦ ground arith
  | inr (ts, read) ↦
      let (t', passes, le) = tightens-append ts vals v t (ground arith) in (t', ground arith, le)
]

pub result_cases {ℓ} :
    {A : Type ℓ} (r : Result A) → ((a : A) × (r ≡ ok a)) ⊎ ((e : L402Error) × (r ≡ err e))
result_cases (ok a) = inl (a, refl)
result_cases (err e) = inr (e, refl)

-- A service, or a capability, that the longer chain permits, the shorter one permits.
pub verify_services_chain-append :
    (vals : List Bytes) (v service : Bytes)
    → vals ≢ []
    → verify_services_chain (vals ++ (v ∷ [])) service ≡ ok tt
    → verify_services_chain vals service ≡ ok tt
unfolding verify_services_chain
verify_services_chain-append [] v service some_value h = ground arith
verify_services_chain-append (u ∷ vals) v service some_value h =
    elim (result_cases (attenuates service_added (parse_list u) (vals ++ (v ∷ [])))) [
      | inr (e, fails) ↦ ground arith
      | inl (d, passes) ↦
          let (d', shorter, within) =
            attenuates-append service_added (parse_list u) vals v d passes in
          ground (arith, within service)
    ]

pub verify_caps_chain-append :
    (vals : List Bytes) (v svc : Bytes) (o : VerifyOptions)
    → vals ≢ []
    → verify_caps_chain (vals ++ (v ∷ [])) svc o ≡ ok tt
    → verify_caps_chain vals svc o ≡ ok tt
unfolding verify_caps_chain
verify_caps_chain-append [] v svc o some_value h = ground arith
verify_caps_chain-append (u ∷ vals) v svc o some_value h =
    elim (result_cases (attenuates capability_added (parse_list u) (vals ++ (v ∷ [])))) [
      | inr (e, fails) ↦ ground arith
      | inl (d, passes) ↦
          let (d', shorter, within) =
            attenuates-append capability_added (parse_list u) vals v d passes in
          ground (arith, within o.capability)
    ]

-- A value that is a time is at most 2 ^ 62 seconds, so that its sum in `time.Unix` fits int64.
abbrev pub FitsUnix : Bytes → Type 0
FitsUnix v = elim (parse_int (trim_space v)) [ none ↦ Unit {0} | some ts ↦ ts ≤ℤ pos (2 ^ 62) ]

offset_IsInt64 : (t : ℤ) → IsInt64 t → t ≤ℤ pos (2 ^ 62) → IsInt64 (t +ℤ pos unix_to_internal)
unfolding ◌+ℤ◌
offset_IsInt64 (pos n) int fits = ground arith
offset_IsInt64 (negsuc n) int fits = ground arith

is_before_exact :
    (now : ℕ) (t : ℤ)
    → IsInt64 t
    → t ≤ℤ pos (2 ^ 62)
    → is_before now t ≡ ltb_ℤ (pos (now + unix_to_internal)) (t +ℤ pos unix_to_internal)
is_before_exact now t int fits =
    rw (wrap_of_IsInt64 (t +ℤ pos unix_to_internal) (offset_IsInt64 t int fits)) refl

is_before_mono :
    (now : ℕ) (t t' : ℤ)
    → IsInt64 t
    → IsInt64 t'
    → t ≤ℤ t'
    → t' ≤ℤ pos (2 ^ 62)
    → is_before now t ≡ true
    → is_before now t' ≡ true
is_before_mono now t t' int int' le fits h = ground (
  arith,
  is_before_exact now t int (omega arith),
  is_before_exact now t' int' fits,
  +ℤ_parts t (pos unix_to_internal),
  +ℤ_parts t' (pos unix_to_internal),
)

in_int64-IsInt64 : (minus : Bool) (n : Option ℕ) (t : ℤ) → in_int64 minus n ≡ some t → IsInt64 t
in_int64-IsInt64 minus none t e = ground arith
in_int64-IsInt64 true (some n) t e = ground arith
in_int64-IsInt64 false (some n) t e = ground arith

parse_int-IsInt64 : (v : Bytes) (t : ℤ) → parse_int v ≡ some t → IsInt64 t
unfolding parse_int
parse_int-IsInt64 [] t e = ground arith
parse_int-IsInt64 (c ∷ v) t e = ground (
  arith,
  in_int64-IsInt64 true (parse_magnitude v) t,
  in_int64-IsInt64 false (parse_magnitude v) t,
  in_int64-IsInt64 false (parse_magnitude (c ∷ v)) t,
)

tightens-bounds :
    (prev : ℤ) (vals : List Bytes) (t : ℤ)
    → IsInt64 prev
    → tightens prev vals ≡ ok t
    → IsInt64 t × (t ≤ℤ prev)
unfolding tightens
tightens-bounds prev [] t int h = ground arith
tightens-bounds prev (u ∷ vals) t int h = elim (Option-cases (parse_int (trim_space u))) [
  | inl bad ↦ ground arith
  | inr (ts, read) ↦
      ground
        (arith, tightens-bounds ts vals t (parse_int-IsInt64 (trim_space u) ts read) (ground arith))
]

-- The token is not past its time by the shorter chain either, when the first time of the chain is
-- in the range of `time.Unix`.
pub verify_valid_until_chain-append :
    (u : Bytes) (vals : List Bytes) (v : Bytes) (now : ℕ)
    → FitsUnix u
    → verify_valid_until_chain ((u ∷ vals) ++ (v ∷ [])) now ≡ ok tt
    → verify_valid_until_chain (u ∷ vals) now ≡ ok tt
unfolding verify_valid_until_chain
verify_valid_until_chain-append u vals v now fits h =
    elim (Option-cases (parse_int (trim_space u))) [
      | inl bad ↦ ground arith
      | inr (ts, read) ↦ elim (result_cases (tightens ts (vals ++ (v ∷ [])))) [
        | inr (e, fails) ↦ ground arith
        | inl (t, passes) ↦
            let int = parse_int-IsInt64 (trim_space u) ts read in
            let (t', shorter, le) = tightens-append ts vals v t passes in
            let (t_int, _) = tightens-bounds ts (vals ++ (v ∷ [])) t int passes in
            let (t'_int, t'_le) = tightens-bounds ts vals t' int shorter in
            ground (arith, is_before_mono now t t' t_int t'_int le (ground arith))
      ]
    ]
