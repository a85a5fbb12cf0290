-- ===== src/Rng.antt =====
-- UemuPkg/Drivers/Bcm2835RngDxe/Bcm2835RngDxe.c: the random number protocol over the BCM2835
-- registers. The bytes written from RNGValue on are a list in order, which may be longer than the
-- caller's buffer. RNGValueLength is a UINTN of 64 bits.
pub mod Aligned
pub mod Unaligned
pub mod Start
mod Tests
use edk2_uemu.Common.{
  ℕ, zero, suc, ◌+◌, ◌-◌, ◌*◌, ◌/◌, ◌%◌, ◌^◌, Bool, true, false, not, ◌&&◌, ◌||◌, Option, none,
  some, List, [], ◌∷◌, ◌++◌, ltb, leb, ◌==◌, if◌then◌else◌, max_uint64,
}
use edk2_uemu.Efi.{
  Status, Result, ok, err, fault, ◌>>=◌, success, invalid_parameter, unsupported, buffer_too_small,
  device_error,
}
use edk2_uemu.Text.{codes}
use edk2_uemu.Mmio.{Mmio}
use edk2_uemu.Fdt.{Platform}
use edk2_uemu.Discover.{find_reg, DxeServices, Registers, declare_registers}

-- RNG_STATUS, RNG_DATA and RNG_MAX_RETRIES
abbrev pub rng_status : ℕ
rng_status = 4

abbrev pub rng_data : ℕ
rng_data = 8

-- RNG_CTRL, RNG_CTRL_ENABLE and RNG_WARMUP_COUNT
abbrev pub rng_ctrl : ℕ
rng_ctrl = 0

abbrev pub rng_ctrl_enable : ℕ
rng_ctrl_enable = 1

abbrev pub rng_warmup_count : ℕ
rng_warmup_count = 0x40000

abbrev pub rng_max_retries : ℕ
rng_max_retries = 0x100

-- Bcm2835RngGetInfo: the status, and *RNGAlgorithmListSize and the algorithm stored, where they are.
-- sizeof (EFI_RNG_ALGORITHM), a GUID, is 16.
pub bcm2835_rng_get_info : ℕ → Option ℕ → ℕ → ℕ → Status × Option ℕ × Option ℕ
bcm2835_rng_get_info raw_guid none this list = (invalid_parameter, none, none)
bcm2835_rng_get_info raw_guid (some size) this list =
    if this == 0
    then (invalid_parameter, some size, none)
    else if ltb size 16
    then (buffer_too_small, some 16, none)
    else if list == 0
    then (invalid_parameter, some size, none)
    else (success, some 16, some raw_guid)

-- WriteUnaligned32 on a little-endian CPU.
abbrev pub word_bytes : ℕ → List ℕ
word_bytes v = v % 256 ∷ v / 2 ^ 8 % 256 ∷ v / 2 ^ 16 % 256 ∷ v / 2 ^ 24 % 256 ∷ []

-- `while (RNGValueLength--)`: as many bytes as the length says, and the length behind the last test,
-- which took 1 from 0.
pub byte_loop : ℕ → ℕ → List ℕ → ℕ × List ℕ
byte_loop zero val out = (max_uint64, out)
byte_loop (suc len) val out = byte_loop len (val / 2 ^ 8) (out ++ val % 256 ∷ [])

module _ {D : Type 0} (io : Mmio D) (base : ℕ) where
  -- `do … while (!Num && Retries-- > 0)`
  pub retry_loop : ℕ → D → ℕ × D
  retry_loop zero d = let (v, d1) = io.read32 (base + rng_status) d in (v / 2 ^ 24, d1)
  retry_loop (suc retries) d =
      let (v, d1) = io.read32 (base + rng_status) d in
      let rest = retry_loop retries d1 in if v / 2 ^ 24 == 0 then rest else (v / 2 ^ 24, d1)

  -- `while (RNGValueLength >= sizeof (UINT32) && Num > 0)`: the length, Num and the bytes behind it.
  pub word_loop : ℕ → ℕ → List ℕ → D → ℕ × ℕ × List ℕ × D
  word_loop zero len out d = (len, 0, out, d)
  word_loop (suc num) len out d =
      let (v, d1) = io.read32 (base + rng_data) d in
      let rest = word_loop num (len - 4) (out ++ word_bytes v) d1 in
      if leb 4 len then rest else (len, suc num, out, d)

  -- What a round of the outer loop does once the status register has told a `num` above 0.
  pub fill_round : ℕ → ℕ → List ℕ → D → ℕ × List ℕ × D
  fill_round num len out d =
      let (len', num', out', d1) = word_loop num len out d in
      let (v, d2) = io.read32 (base + rng_data) d1 in
      let (len'', out'') = byte_loop len' v out' in
      if ltb 0 len' && ltb 0 num' then (len'', out'', d2) else (len', out', d1)

  -- `while (RNGValueLength > 0)`. With no status the fuel ended and the loop still runs.
  pub rng_loop : ℕ → ℕ → List ℕ → D → Option Status × List ℕ × D
  rng_loop zero len out d = (none, out, d)
  rng_loop (suc fuel) len out d =
      let (num, d1) = retry_loop rng_max_retries d in
      let (len', out', d2) = fill_round num len out d1 in
      let rest = rng_loop fuel len' out' d2 in
      if len == 0
      then (some success, out, d)
      else if num == 0
      then (some device_error, out, d1)
      else rest

  -- Bcm2835RngGetRNG. An algorithm is the GUID behind the pointer.
  pub bcm2835_rng_get_rng : ℕ → ℕ → ℕ → Option ℕ → ℕ → ℕ → D → Option Status × List ℕ × D
  bcm2835_rng_get_rng raw_guid fuel this algorithm len value d =
      let run = rng_loop fuel len [] d in
      if this == 0 || len == 0 || value == 0
      then (some invalid_parameter, [], d)
      else elim algorithm [
        | none ↦ run
        | some guid ↦ if guid == raw_guid then run else (some unsupported, [], d)
      ]

module _ {D : Type 0} (io : Mmio D) where
  -- Bcm2835RngEntryPoint behind the search for the device: the registers, and the device behind the
  -- two writes. The status of InstallMultipleProtocolInterfaces only goes to an ASSERT, which is empty
  -- in a release build.
  unfoldable pub start : Platform → DxeServices → D → ℕ × ℕ → Result (Registers × D)
  start p dxe d range = do
    regs ← declare_registers p dxe (rng_data + 4) range.0 range.1
    let d1 = io.write32 (regs.base + rng_status) rng_warmup_count d
    let d2 = io.write32 (regs.base + rng_ctrl) rng_ctrl_enable d1
    ok (regs, d2)

  -- Bcm2835RngEntryPoint
  unfoldable pub bcm2835_rng_entry_point :
      Platform → DxeServices → ℕ → D → Option (Result (Registers × D))
  bcm2835_rng_entry_point p dxe fuel d = elim (find_reg p fuel (codes "brcm,bcm2835-rng")) [
    | none ↦ none
    | some found ↦ some (found >>= λ range. start p dxe d range)
  ]
