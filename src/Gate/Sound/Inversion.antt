-- ===== src/Gate/Sound/Inversion.antt =====
-- What a result of the verification rules says of its parts.
use dcr.Prelude.{◌≡◌, ◌≢◌, refl, ap, true, arith, inl, inr, ◌⊎◌}
use dcr.Prelude.Int64.{ℤ, eq_of_parts}
use dcr.Gate.X402.{int_eq}
use dcr.Gate.Verify.{Reason, Verified, ok, err}

pub err-ne-ok {ℓ} : {A : Type ℓ} (r : Reason) (a : A) → err r ≢ ok a
err-ne-ok r a e = ground arith

pub int_eq-eq : (a b : ℤ) → int_eq a b ≡ true → a ≡ b
int_eq-eq a b e = eq_of_parts a b (ground arith)

pub ok_same {ℓ} : {A : Type ℓ} (a b : A) → Verified.ok a ≡ ok b → a ≡ b
ok_same a b e = cc

pub ok_first {ℓ κ} : {A : Type ℓ} {B : Type κ} (x y : A × B) → Verified.ok x ≡ ok y → x.0 ≡ y.0
ok_first x y e = ap (λ z. z.0) (ok_same x y e)

pub ok_second {ℓ κ} : {A : Type ℓ} {B : Type κ} (x y : A × B) → Verified.ok x ≡ ok y → x.1 ≡ y.1
ok_second x y e = ap (λ z. z.1) (ok_same x y e)

pub verified_cases {ℓ} :
    {A : Type ℓ} (v : Verified A) → ((a : A) × (v ≡ ok a)) ⊎ ((r : Reason) × (v ≡ err r))
verified_cases (ok a) = inl (a, refl)
verified_cases (err r) = inr (r, refl)
