-- ===== src/Rng/Unaligned.antt =====
-- Bcm2835RngGetRNG on requests that are no whole number of words. The last byte loop leaves
-- RNGValueLength at its greatest value instead of 0, so the outer loop goes on.
use edk2_uemu.Common.{
  ℕ, zero, suc, ◌+◌, ◌/◌, ◌%◌, ◌^◌, ◌≤◌, ◌<◌, ◌≡◌, ◌≢◌, refl, false, Option, none, some, List, [],
  ◌==◌, length, inl, inr, Bool-cases, arith,
}
use edk2_uemu.Efi.{success}
use edk2_uemu.Mmio.{Mmio}
use edk2_uemu.Rng.{
  retry_loop, word_loop, fill_round, rng_loop, bcm2835_rng_get_rng, rng_max_retries, rng_status,
  rng_data,
}
use edk2_uemu.Rng.Aligned.{IsServed, get_rng-IsServed, word_loop_lem, byte_loop_lem}

module _ {D : Type 0} (io : Mmio D) (base : ℕ) where
  -- A round never makes the length whole, and writes at least a byte.
  fill_round_unaligned :
      (num len : ℕ) (out : List ℕ) (d : D)
      → 0 < num
      → len % 4 ≢ 0
      → let (len', out', d') = fill_round io base num len out d in
        (len' % 4 ≢ 0) × (length out + 1 ≤ length out')
  unfolding fill_round
  fill_round_unaligned num len out d hn a =
      let (len', num', out', d1) = word_loop io base num len out d in
      let val = (io.read32 (base + rng_data) d1).0 in
      ground (arith, word_loop_lem io base num len out d, byte_loop_lem io base len' val out')

  rng_loop_unaligned :
      (fuel len : ℕ) (out : List ℕ) (d : D)
      → len % 4 ≢ 0
      → (rng_loop io base fuel len out d).0 ≢ some success
  unfolding rng_loop
  rng_loop_unaligned zero len out d a = λ e. cc
  rng_loop_unaligned (suc fuel) len out d a =
      let (num, d1) = retry_loop io base rng_max_retries d in
      let (len', out', d2) = fill_round io base num len out d1 in
      let nonzero : (len == 0) ≡ false = ground arith in
      elim (Bool-cases (num == 0)) [
        | inl empty ↦ rw (nonzero, empty) (λ e. cc)
        | inr filled ↦
            rw (nonzero, filled)
              (rng_loop_unaligned fuel len' out' d2
                (fill_round_unaligned num len out d1 (ground (arith, filled)) a).0)
      ]

  -- A request that is no whole number of words never returns EFI_SUCCESS, whatever the device
  -- answers and however long the call runs.
  get_rng_unaligned_never_succeeds :
      (raw_guid fuel this value len : ℕ) (algorithm : Option ℕ) (d : D)
      → len % 4 ≢ 0
      → (bcm2835_rng_get_rng io base raw_guid fuel this algorithm len value d).0 ≢ some success
  unfolding bcm2835_rng_get_rng
  get_rng_unaligned_never_succeeds raw_guid fuel this value len algorithm d a =
      ground (arith, rng_loop_unaligned fuel len [] d a)

  -- The status register tells a number of ready words whenever it is read.
  abbrev pub AlwaysReady : Type 0
  AlwaysReady = (d : D) → (io.read32 (base + rng_status) d).0 / 2 ^ 24 ≢ 0

  retry_loop_ready : (retries : ℕ) (d : D) → AlwaysReady → (retry_loop io base retries d).0 ≢ 0
  unfolding retry_loop
  retry_loop_ready zero d r = r d
  retry_loop_ready (suc retries) d r = ground (arith, r d)

  rng_loop_overflows :
      (fuel len : ℕ) (out : List ℕ) (d : D)
      → AlwaysReady
      → len % 4 ≢ 0
      → ((rng_loop io base fuel len out d).0 ≡ none)
        × (length out + fuel ≤ length (rng_loop io base fuel len out d).1)
  unfolding rng_loop
  rng_loop_overflows zero len out d r a = (refl, omega arith)
  rng_loop_overflows (suc fuel) len out d r a =
      let (num, d1) = retry_loop io base rng_max_retries d in
      let (len', out', d2) = fill_round io base num len out d1 in
      let nonzero : (len == 0) ≡ false = ground arith in
      let ready = retry_loop_ready rng_max_retries d r in
      let filled : (num == 0) ≡ false = ground (arith, ready) in
      let (uneven, grows) = fill_round_unaligned num len out d1 (ground (arith, filled)) a in
      let (runs, long) = rng_loop_overflows fuel len' out' d2 r uneven in
      rw (nonzero, filled) (runs, omega arith)

  -- A request whose length is not a multiple of 4, with the pointers not NULL, and with no algorithm or
  -- the raw one asked for: with a device that always has words ready it runs on and writes past the
  -- buffer. After `len + 1` rounds of the loop more than `len` bytes are written.
  pub get_rng_unaligned_overflows :
      (raw_guid this value len : ℕ) (algorithm : Option ℕ) (d : D)
      → AlwaysReady
      → IsServed raw_guid algorithm
      → this ≢ 0
      → value ≢ 0
      → len % 4 ≢ 0
      → let r = bcm2835_rng_get_rng io base raw_guid (len + 1) this algorithm len value d in
        (r.0 ≡ none) × (len < length r.1)
  get_rng_unaligned_overflows raw_guid this value len algorithm d r served ht hv a =
      let (runs, long) = rng_loop_overflows (len + 1) len [] d r a in
      let loop =
        get_rng-IsServed io base raw_guid (len + 1) this value len algorithm d ht hv (omega arith)
          served in
      rw loop (runs, omega arith)
