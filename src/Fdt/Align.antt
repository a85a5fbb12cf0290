-- ===== src/Fdt/Align.antt =====
-- UemuFdtAlignRange of UemuFdtLib.c: the smallest run of whole pages that covers a range.
use edk2_uemu.Common.{
  ℕ, ◌+◌, ◌-◌, ◌*◌, ◌/◌, ◌%◌, ◌^◌, ◌≤◌, ◌<◌, ◌≡◌, ◌≢◌, bit_and, max_uint64, arith, ap,
}
use edk2_uemu.Common.Bits.{bit_and_high}
use edk2_uemu.Efi.{ok}
use edk2_uemu.Fdt.{Platform, uemu_fdt_align_range, efi_page_size, efi_page_mask}

-- ALIGN_VALUE as MdePkg documents it: up to the next boundary, where that does not overflow.
pub record AlignsUp (p : Platform) : Type 0 where
  pub aligns_up :
      (value : ℕ)
      → value ≤ max_uint64 - efi_page_mask
      → p.align_value value efi_page_size ≡ (value + 4095) / 4096 * 4096

-- Base & ~EFI_PAGE_MASK
page_start :
    (base : ℕ) → base < 2 ^ 64 → bit_and base (max_uint64 - efi_page_mask) ≡ base / 4096 * 4096
page_start base h =
    let e : base ≡ base / 4096 * 2 ^ 12 + base % 4096 = omega arith in
    omega (
      arith,
      bit_and_high 12 52 (base / 4096) (base % 4096) (omega arith) (omega arith),
      ap (λ (t : ℕ). bit_and t (max_uint64 - efi_page_mask)) e,
    )

-- Where the range is not empty and its end leaves room for a page below 2^64, UemuFdtAlignRange
-- yields the pages from the one of `base` to the one of the last byte.
pub align_range_succeeds :
    (p : Platform) (base size aligned_base aligned_size : ℕ)
    → AlignsUp p
    → aligned_base ≢ 0
    → aligned_size ≢ 0
    → 0 < size
    → base + size ≤ max_uint64 - efi_page_mask
    → uemu_fdt_align_range p base size aligned_base aligned_size
      ≡ ok (base / 4096 * 4096, (base + size + 4095) / 4096 * 4096 - base / 4096 * 4096)
unfolding uemu_fdt_align_range
align_range_succeeds p base size aligned_base aligned_size a nb ns pos fits =
    ground (arith, page_start base (omega arith), a.aligns_up (base + size) fits)

align_range_inv :
    (p : Platform) (base size aligned_base aligned_size : ℕ) {r : ℕ × ℕ}
    → size < 2 ^ 64
    → uemu_fdt_align_range p base size aligned_base aligned_size ≡ ok r
    → (aligned_base ≢ 0)
      × (aligned_size ≢ 0)
      × (0 < size)
      × (base + size ≤ max_uint64 - efi_page_mask)
unfolding uemu_fdt_align_range
align_range_inv p base size aligned_base aligned_size hs h = ground arith

-- A success of UemuFdtAlignRange is page-aligned values that cover the range, within 64 bits, and
-- less than a page too many at either end.
pub align_range_covers :
    (p : Platform) (base size aligned_base aligned_size : ℕ) {b n : ℕ}
    → AlignsUp p
    → size < 2 ^ 64
    → uemu_fdt_align_range p base size aligned_base aligned_size ≡ ok (b, n)
    → (b % 4096 ≡ 0)
      × (n % 4096 ≡ 0)
      × (b ≤ base)
      × (base < b + 4096)
      × (base + size ≤ b + n)
      × (b + n < base + size + 4096)
      × (b + n < 2 ^ 64)
align_range_covers p base size aligned_base aligned_size a hs h =
    let (nb, ns, pos, fits) = align_range_inv p base size aligned_base aligned_size hs h in
    ground (arith, align_range_succeeds p base size aligned_base aligned_size a nb ns pos fits)
