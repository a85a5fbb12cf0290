-- ===== src/Mmio.antt =====
-- Memory-mapped registers. The device behind MmioRead32 and MmioWrite32 (IoLib) is the emulator's and
-- not part of this repository: a parameter, whose state `D` every access may change.
use edk2_uemu.Common.{ℕ}

pub record Mmio (D : Type 0) : Type 0 where
  pub read32 : ℕ → D → ℕ × D
  pub write32 : ℕ → ℕ → D → D
