-- ===== src/Efi.antt =====
-- What the drivers and libraries share of the UEFI interface: EFI_STATUS and its test EFI_ERROR, and
-- a call that yields its OUT parameters on success. `fault` stands for undefined behaviour: a read
-- outside an object, a division by zero.
use edk2_uemu.Common.{ℕ, ◌≡◌, refl, Bool, true, false, ◌⊎◌, inl, inr}

pub data Status : Type 0 where
  success invalid_parameter unsupported bad_buffer_size buffer_too_small not_ready : Status
  device_error out_of_resources not_found compromised_data : Status
  warning : ℕ → Status
  error : ℕ → Status

-- EFI_ERROR: the statuses with the top bit set.
abbrev pub is_error : Status → Bool
is_error success = false
is_error (warning n) = false
is_error _ = true

-- Status == EFI_NOT_FOUND
abbrev pub is_not_found : Status → Bool
is_not_found not_found = true
is_not_found _ = false

-- Status == RETURN_BUFFER_TOO_SMALL
abbrev pub is_buffer_too_small : Status → Bool
is_buffer_too_small buffer_too_small = true
is_buffer_too_small _ = false

pub data Result {ℓ} (A : Type ℓ) : Type ℓ where
  ok : A → Result A
  err : Status → Result A
  fault : Result A

module _ {ℓ κ} {A : Type ℓ} {B : Type κ} where
  infixl 5 ◌>>=◌
  -- The next call, after a success of the first.
  abbrev pub ◌>>=◌ : Result A → (A → Result B) → Result B
  fault >>= next = fault
  err status >>= next = err status
  ok value >>= next = next value

  -- A chain that succeeds comes from two calls that do.
  pub >>=-eq-ok :
      (first : Result A) (next : A → Result B) {out : B}
      → (first >>= next) ≡ ok out
      → (value : A) × (first ≡ ok value) × (next value ≡ ok out)
  >>=-eq-ok fault next chain = cc
  >>=-eq-ok (err status) next chain = cc
  >>=-eq-ok (ok value) next chain = (value, refl, chain)

pub Result-cases {ℓ} :
    {A : Type ℓ} (m : Result A)
    → ((a : A) × (m ≡ ok a)) ⊎ ((s : Status) × (m ≡ err s)) ⊎ (m ≡ fault)
Result-cases (ok a) = inl (a, refl)
Result-cases (err s) = inr (inl (s, refl))
Result-cases fault = inr (inr refl)
