-- ===== src/Discover/Covers.antt =====
-- The pages that a driver declares hold the registers that it found.
use edk2_uemu.Common.{
  ℕ, ◌+◌, ◌%◌, ◌^◌, ◌≤◌, ◌<◌, ◌≡◌, false, some, Option-cases, inl, inr, some-injective, arith,
}
use edk2_uemu.Efi.{ok, ◌>>=◌, >>=-eq-ok, Result-cases, is_error}
use edk2_uemu.Text.{Text}
use edk2_uemu.Fdt.{
  Platform, uemu_fdt_get, uemu_fdt_find_compatible_node, uemu_fdt_get_reg, uemu_fdt_align_range,
}
use edk2_uemu.Fdt.Align.{AlignsUp, align_range_covers}
use edk2_uemu.Fdt.Cells.{SwapsBytes}
use edk2_uemu.Fdt.Reg.{HasLengths, get_reg-fits}
use edk2_uemu.Discover.{find_reg, DxeServices, Registers, declare_registers}

-- libfdt and the macros of MdePkg as they are documented.
pub record IsDocumented (p : Platform) : Type 0 where
  pub lengths : HasLengths p
  pub swaps : SwapsBytes p
  pub aligns : AlignsUp p

pub find_reg-fits :
    (p : Platform) (fuel : ℕ) (compatible : Text) {base size : ℕ}
    → IsDocumented p
    → find_reg p fuel compatible ≡ some (ok (base, size))
    → (0 < size) × (base + size < 2 ^ 64)
unfolding find_reg
find_reg-fits p fuel compatible {base} {size} doc h = elim (Result-cases (uemu_fdt_get p 1)) [
  | inr (inl (s, e)) ↦ absurd (ground (arith, e, h))
  | inr (inr e) ↦ absurd (ground (arith, e, h))
  | inl (fdt, e) ↦
      elim (Option-cases (uemu_fdt_find_compatible_node p fuel fdt (some compatible) 1)) [
        | inl none_left ↦ absurd (ground (arith, e, none_left, h))
        | inr (found, f) ↦
            let reads : (found >>= λ node. uemu_fdt_get_reg p fdt node 0 1 1) ≡ ok (base, size) =
              some-injective (rw (e, f, find_reg) at h) in
            let (node, _, r) = >>=-eq-ok found _ reads in
            get_reg-fits p fdt node 0 1 1 doc.lengths doc.swaps r
      ]
]

-- The pages from `gcd_base`, `gcd_size` bytes long, are whole pages below 2^64 and hold the first
-- `room` bytes from `base` on.
abbrev pub Holds : ℕ → ℕ → ℕ → ℕ → Type 0
Holds gcd_base gcd_size base room =
    (gcd_base % 4096 ≡ 0)
    × (gcd_size % 4096 ≡ 0)
    × (gcd_base ≤ base)
    × (base + room ≤ gcd_base + gcd_size)
    × (gcd_base + gcd_size < 2 ^ 64)

pub align-Holds :
    (p : Platform) (base size room : ℕ) {b n : ℕ}
    → AlignsUp p
    → base + size < 2 ^ 64
    → room ≤ size
    → uemu_fdt_align_range p base size 1 1 ≡ ok (b, n)
    → Holds b n base room
align-Holds p base size room a fits wide h =
    let covers = align_range_covers p base size 1 1 a (omega arith) h in
    (covers.0, covers.1, covers.2, omega (arith, covers.4), covers.6)

pub declare-Holds :
    (p : Platform) (dxe : DxeServices) (room base size : ℕ) {r : Registers}
    → AlignsUp p
    → base + size < 2 ^ 64
    → declare_registers p dxe room base size ≡ ok r
    → (r.base ≡ base)
      × Holds r.gcd_base r.gcd_size r.base room
      × (is_error (dxe.set_memory_space_attributes r.gcd_base r.gcd_size) ≡ false)
unfolding declare_registers
declare-Holds p dxe room base size {r} a fits h =
    elim (Result-cases (uemu_fdt_align_range p base size 1 1)) [
      | inr (inl (s, e)) ↦ absurd (ground (arith, e, h))
      | inr (inr e) ↦ absurd (ground (arith, e, h))
      | inl ((b, n), e) ↦
          let wide : room ≤ size = ground (arith, e, h) in
          let held = align-Holds p base size room a fits wide e in ground (arith, e, h, held)
    ]
