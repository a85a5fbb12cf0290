-- ===== src/Rng/Aligned.antt =====
-- Bcm2835RngGetRNG on requests of whole words: it ends, and writes what was asked for and no more.
use edk2_uemu.Common.{
  ℕ, zero, suc, ◌+◌, ◌-◌, ◌*◌, ◌/◌, ◌%◌, ◌^◌, ◌≤◌, ◌<◌, ◌≡◌, ◌≢◌, refl, true, false, ◌||◌, Option,
  none, some, List, [], ◌∷◌, ◌++◌, leb, ◌==◌, max_uint64, length, length-append, ◌⊎◌, inl, inr,
  Bool-cases, arith,
}
use edk2_uemu.Efi.{Status, success, device_error, unsupported}
use edk2_uemu.Mmio.{Mmio}
use edk2_uemu.Rng.{
  byte_loop, retry_loop, word_loop, fill_round, rng_loop, bcm2835_rng_get_rng, word_bytes, rng_data,
  rng_max_retries,
}

-- What a finished run on `total` bytes of whole words has written.
abbrev pub IsExact {ℓ} : {D : Type ℓ} → ℕ → Option Status × List ℕ × D → Type 0
IsExact total r =
    (status : Status) × (r.0 ≡ some status)
    × (length r.1 ≤ total)
    × (((status ≡ success) × (length r.1 ≡ total)) ⊎ (status ≡ device_error))

-- The algorithm that the driver serves: none is asked for, or the raw one.
abbrev pub IsServed : ℕ → Option ℕ → Type 0
IsServed raw_guid none = Unit
IsServed raw_guid (some guid) = guid ≡ raw_guid

pub get_rng-IsServed :
    {D : Type 0} (io : Mmio D) (base raw_guid fuel this value len : ℕ) (algorithm : Option ℕ)
    (d : D)
    → this ≢ 0
    → value ≢ 0
    → 0 < len
    → IsServed raw_guid algorithm
    → bcm2835_rng_get_rng io base raw_guid fuel this algorithm len value d
      ≡ rng_loop io base fuel len [] d
unfolding bcm2835_rng_get_rng
get_rng-IsServed io base raw_guid fuel this value len none d ht hv hl served =
    let start : (this == 0 || len == 0 || value == 0) ≡ false = ground arith in
    rw (start, bcm2835_rng_get_rng) refl
get_rng-IsServed io base raw_guid fuel this value len (some guid) d ht hv hl served =
    let start : (this == 0 || len == 0 || value == 0) ≡ false = ground arith in
    let same : (guid == raw_guid) ≡ true = ground arith in
    rw (start, bcm2835_rng_get_rng, same) refl

module _ {D : Type 0} (io : Mmio D) (base : ℕ) where
  -- The word loop writes four bytes for each four that it takes off the length.
  pub word_loop_lem :
      (num len : ℕ) (out : List ℕ) (d : D)
      → let (len', num', out', d') = word_loop io base num len out d in
        (length out' + len' ≡ length out + len)
        × (len' % 4 ≡ len % 4)
        × ((len' < 4) ⊎ (num' ≡ 0))
        × (length out ≤ length out')
        × (0 < num → 4 ≤ len → length out + 4 ≤ length out')
        × (len < 4 → (len' ≡ len) × (num' ≡ num))
  unfolding word_loop
  word_loop_lem zero len out d = ground arith
  word_loop_lem (suc num) len out d =
      let (v, d1) = io.read32 (base + rng_data) d in
      elim (Bool-cases (leb 4 len)) [
        | inl more ↦ rw more (
            ground (
              arith,
              more,
              word_loop_lem num (len - 4) (out ++ word_bytes v) d1,
              length-append out (word_bytes v),
            ))
        | inr less ↦ rw less (ground (arith, less))
      ]

  pub byte_loop_lem :
      (len val : ℕ) (out : List ℕ)
      → ((byte_loop len val out).0 ≡ max_uint64)
        × (length (byte_loop len val out).1 ≡ length out + len)
  unfolding byte_loop
  byte_loop_lem zero val out = (refl, omega arith)
  byte_loop_lem (suc len) val out = omega (
    arith,
    byte_loop_lem len (val / 2 ^ 8) (out ++ val % 256 ∷ []),
    length-append out (val % 256 ∷ []),
  )

  -- A round on a length of whole words takes at least a word, and writes what it takes.
  fill_round_aligned :
      (num len : ℕ) (out : List ℕ) (d : D)
      → 0 < num
      → 0 < len
      → len % 4 ≡ 0
      → let (len', out', d') = fill_round io base num len out d in
        (length out' + len' ≡ length out + len) × (len' % 4 ≡ 0) × (len' + 4 ≤ len)
  unfolding fill_round
  fill_round_aligned num len out d hn hl a = ground (arith, word_loop_lem num len out d)

  rng_loop_aligned :
      (fuel len : ℕ) (out : List ℕ) (d : D)
      → len % 4 ≡ 0
      → len < 4 * fuel
      → IsExact (length out + len) (rng_loop io base fuel len out d)
  unfolding rng_loop
  rng_loop_aligned zero len out d a f = absurd (omega arith)
  rng_loop_aligned (suc fuel) len out d a f = elim (Bool-cases (len == 0)) [
    | inl done ↦ rw done (success, refl, omega arith, inl (refl, ground (arith, done)))
    | inr more ↦
        let (num, d1) = retry_loop io base rng_max_retries d in
        elim (Bool-cases (num == 0)) [
          | inl empty ↦ rw (more, empty) (device_error, refl, omega arith, inr refl)
          | inr filled ↦
              let (len', out', d2) = fill_round io base num len out d1 in
              let (sum, whole, less) =
                fill_round_aligned num len out d1 (ground (arith, filled)) (ground (arith, more))
                  a in
              rw (more, filled, ← sum) (rng_loop_aligned fuel len' out' d2 whole (omega arith))
        ]
  ]

  -- A request of whole words, with the pointers not NULL. Where no algorithm is asked for, or the raw
  -- one, it ends, with fuel for a word in each round: in EFI_SUCCESS with exactly the bytes asked for,
  -- or in EFI_DEVICE_ERROR, which never leaves more; whatever the device answers. Where another
  -- algorithm is asked for, it ends in EFI_UNSUPPORTED, with nothing written and the device untouched.
  pub get_rng_aligned :
      (raw_guid fuel this value len : ℕ) (algorithm : Option ℕ) (d : D)
      → this ≢ 0
      → value ≢ 0
      → 0 < len
      → len % 4 ≡ 0
      → len < 4 * fuel
      → let r = bcm2835_rng_get_rng io base raw_guid fuel this algorithm len value d in
        (IsServed raw_guid algorithm × IsExact len r)
        ⊎ ((¬ IsServed raw_guid algorithm) × (r ≡ (some unsupported, [], d)))
  unfolding bcm2835_rng_get_rng
  get_rng_aligned raw_guid fuel this value len none d ht hv hl a f =
      let none_yet : 0 + len ≡ len = omega arith in
      let runs = get_rng-IsServed io base raw_guid fuel this value len none d ht hv hl tt in
      inl (tt, rw runs (rw none_yet at (rng_loop_aligned fuel len [] d a f)))
  get_rng_aligned raw_guid fuel this value len (some guid) d ht hv hl a f =
      elim (Bool-cases (guid == raw_guid)) [
        | inl raw ↦
            let none_yet : 0 + len ≡ len = omega arith in
            let served : guid ≡ raw_guid = ground (arith, raw) in
            let runs =
              get_rng-IsServed io base raw_guid fuel this value len (some guid) d ht hv hl served in
            inl (served, rw runs (rw none_yet at (rng_loop_aligned fuel len [] d a f)))
        | inr other ↦
            let start : (this == 0 || len == 0 || value == 0) ≡ false = ground arith in
            inr ((λ same. ground (arith, other, same)), rw (start, bcm2835_rng_get_rng, other) refl)
      ]
