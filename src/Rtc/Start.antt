-- ===== src/Rtc/Start.antt =====
-- LibRtcInitialize of GoldfishRealTimeClockLib.c: the pages that it declares for use at run time.
use edk2_uemu.Common.{
  ℕ, ◌+◌, ◌^◌, ◌≤◌, ◌<◌, ◌≡◌, false, some, Option-cases, inl, inr, some-injective, arith,
}
use edk2_uemu.Efi.{Status, ok, >>=-eq-ok, Result-cases, is_error}
use edk2_uemu.Text.{codes}
use edk2_uemu.Fdt.{Platform, uemu_fdt_align_range}
use edk2_uemu.Fdt.Align.{AlignsUp}
use edk2_uemu.Discover.{find_reg, DxeServices}
use edk2_uemu.Discover.Covers.{IsDocumented, Holds, find_reg-fits, align-Holds}
use edk2_uemu.Rtc.{
  get_goldfish_rtc_base, goldfish_rtc_clear_interrupt, declare_rtc, lib_rtc_initialize,
}

rtc_base-fits :
    (p : Platform) (fuel : ℕ) {base size : ℕ}
    → IsDocumented p
    → get_goldfish_rtc_base p fuel ≡ some (ok (base, size))
    → (goldfish_rtc_clear_interrupt + 4 ≤ size) × (base + size < 2 ^ 64)
unfolding get_goldfish_rtc_base
rtc_base-fits p fuel {base} {size} doc h =
    elim (Option-cases (find_reg p fuel (codes "google,goldfish-rtc"))) [
      | inl none_left ↦ absurd (ground (arith, none_left, h))
      | inr (found, f) ↦
          let chain = some-injective (rw (f, get_goldfish_rtc_base) at h) in
          let ((base', size'), e, rest) = >>=-eq-ok found _ chain in
          let fits = find_reg-fits p fuel (codes "google,goldfish-rtc") doc (rw e at f) in
          ground (arith, rest, fits)
    ]

declare_rtc-Holds :
    (p : Platform) (dxe : DxeServices) (create_event : Status) (base size : ℕ) {status : Status}
    {base' gcd_base gcd_size : ℕ}
    → AlignsUp p
    → goldfish_rtc_clear_interrupt + 4 ≤ size
    → base + size < 2 ^ 64
    → declare_rtc p dxe create_event (base, size) ≡ ok (status, base', gcd_base, gcd_size)
    → Holds gcd_base gcd_size base' (goldfish_rtc_clear_interrupt + 4)
      × (is_error (dxe.add_memory_space gcd_base gcd_size) ≡ false)
      × (is_error (dxe.set_memory_space_attributes gcd_base gcd_size) ≡ false)
      × (status ≡ create_event)
unfolding declare_rtc
declare_rtc-Holds p dxe create_event base size aligns wide fits h =
    elim (Result-cases (uemu_fdt_align_range p base size 1 1)) [
      | inr (inl (s, e)) ↦ absurd (ground (arith, e, h))
      | inr (inr e) ↦ absurd (ground (arith, e, h))
      | inl ((gb, gn), e) ↦
          let held =
            align-Holds p base size (goldfish_rtc_clear_interrupt + 4) aligns fits wide e in
          ground (arith, e, h, held)
    ]

-- Where LibRtcInitialize gets as far as creating the event, every register up to
-- GOLDFISH_RTC_CLEAR_INTERRUPT lies in whole pages below 2^64 that AddMemorySpace and
-- SetMemorySpaceAttributes accepted, and its status is that of CreateEventEx.
pub initialize_declares :
    (p : Platform) (dxe : DxeServices) (create_event : Status) (fuel : ℕ) {status : Status}
    {base gcd_base gcd_size : ℕ}
    → IsDocumented p
    → lib_rtc_initialize p dxe create_event fuel ≡ some (ok (status, base, gcd_base, gcd_size))
    → Holds gcd_base gcd_size base (goldfish_rtc_clear_interrupt + 4)
      × (is_error (dxe.add_memory_space gcd_base gcd_size) ≡ false)
      × (is_error (dxe.set_memory_space_attributes gcd_base gcd_size) ≡ false)
      × (status ≡ create_event)
unfolding lib_rtc_initialize
initialize_declares p dxe create_event fuel {status} {base} {gcd_base} {gcd_size} doc h =
    elim (Option-cases (get_goldfish_rtc_base p fuel)) [
      | inl none_left ↦ absurd (ground (arith, none_left, h))
      | inr (found, f) ↦
          let chain = some-injective (rw (f, lib_rtc_initialize) at h) in
          let (range, e, rest) = >>=-eq-ok found _ chain in
          let (wide, fits) = rtc_base-fits p fuel doc (rw e at f) in
          declare_rtc-Holds p dxe create_event range.0 range.1 doc.aligns wide fits rest
    ]
