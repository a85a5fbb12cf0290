-- ===== src/Rng/Start.antt =====
-- Bcm2835RngEntryPoint of Bcm2835RngDxe.c: what it has done where it succeeds.
use edk2_uemu.Common.{
  ℕ, ◌+◌, ◌^◌, ◌<◌, ◌≡◌, false, some, Option-cases, inl, inr, some-injective, arith,
}
use edk2_uemu.Efi.{ok, >>=-eq-ok, Result-cases, is_error}
use edk2_uemu.Text.{codes}
use edk2_uemu.Mmio.{Mmio}
use edk2_uemu.Fdt.{Platform}
use edk2_uemu.Fdt.Align.{AlignsUp}
use edk2_uemu.Discover.{find_reg, DxeServices, Registers, declare_registers}
use edk2_uemu.Discover.Covers.{IsDocumented, Holds, find_reg-fits, declare-Holds}
use edk2_uemu.Rng.{
  rng_status, rng_data, rng_ctrl, rng_ctrl_enable, rng_warmup_count, start, bcm2835_rng_entry_point,
}

-- The entry point behind the search for the device.
start_enables :
    {D : Type 0} (io : Mmio D) (p : Platform) (dxe : DxeServices) (base size : ℕ) (d : D)
    {r : Registers} {d' : D}
    → AlignsUp p
    → base + size < 2 ^ 64
    → start io p dxe d (base, size) ≡ ok (r, d')
    → Holds r.gcd_base r.gcd_size r.base (rng_data + 4)
      × (is_error (dxe.set_memory_space_attributes r.gcd_base r.gcd_size) ≡ false)
      × (d'
          ≡ io.write32
              (r.base + rng_ctrl)
              rng_ctrl_enable
              (io.write32 (r.base + rng_status) rng_warmup_count d))
unfolding start
start_enables io p dxe base size d {r} {d'} aligns fits h =
    elim (Result-cases (declare_registers p dxe (rng_data + 4) base size)) [
      | inr (inl (status, e)) ↦ absurd (ground (arith, e, h))
      | inr (inr e) ↦ absurd (ground (arith, e, h))
      | inl (regs, e) ↦
          let held = declare-Holds p dxe (rng_data + 4) base size aligns fits e in
          ground (arith, e, h, held)
    ]

-- Where Bcm2835RngEntryPoint succeeds, its three registers lie in whole pages below 2^64 on which
-- SetMemorySpaceAttributes succeeded, and it has written the warm-up count and then enabled the
-- device, and nothing else.
pub entry_point_enables :
    {D : Type 0} (io : Mmio D) (p : Platform) (dxe : DxeServices) (fuel : ℕ) (d : D) {r : Registers}
    {d' : D}
    → IsDocumented p
    → bcm2835_rng_entry_point io p dxe fuel d ≡ some (ok (r, d'))
    → Holds r.gcd_base r.gcd_size r.base (rng_data + 4)
      × (is_error (dxe.set_memory_space_attributes r.gcd_base r.gcd_size) ≡ false)
      × (d'
          ≡ io.write32
              (r.base + rng_ctrl)
              rng_ctrl_enable
              (io.write32 (r.base + rng_status) rng_warmup_count d))
unfolding bcm2835_rng_entry_point
entry_point_enables {D} io p dxe fuel d {r} {d'} doc h =
    elim (Option-cases (find_reg p fuel (codes "brcm,bcm2835-rng"))) [
      | inl none_left ↦ absurd (ground (arith, none_left, h))
      | inr (found, f) ↦
          let chain = some-injective (rw (f, bcm2835_rng_entry_point) at h) in
          let (range, e, rest) = >>=-eq-ok found _ chain in
          let fits = find_reg-fits p fuel (codes "brcm,bcm2835-rng") doc (rw e at f) in
          start_enables io p dxe range.0 range.1 d doc.aligns fits.1 rest
    ]
