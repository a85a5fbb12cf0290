-- ===== src/Rtc/Virtual.antt =====
-- The clock services of GoldfishRealTimeClockLib.c at runtime, once the operating system has moved the
-- registers to another address.
use edk2_uemu.Common.{
  ◌/◌, ◌%◌, ◌≤◌, ◌⊎◌, inl, inr, Bool-cases, ltb, u32, u64, bit_and, ℕ, ◌+◌, ◌*◌, ◌^◌, ◌<◌, ◌≡◌, ◌∙◌,
  refl, ap, Bool, false, Option, none, some, arith,
}
use edk2_uemu.Mmio.{Mmio}
use edk2_uemu.Rtc.{
  Time, TimeBaseLib, lib_get_time, lib_set_time, goldfish_rtc_time_low, goldfish_rtc_time_high,
  goldfish_rtc_clear_interrupt, virtual_notify_event, nano_sec, efi_unspecified_timezone,
  in_daylight, to_local, to_utc,
}
use edk2_uemu.Common.Int.{pos}
use edk2_uemu.Rtc.RoundTrip.{HoldsTime, halves}

-- The registers behind the page tables of the operating system.
abbrev pub through : {D : Type 0} → (ℕ → ℕ) → Mmio D → Mmio D
through to_physical io = record {
  read32 = λ address d. io.read32 (to_physical address) d;
  write32 = λ address value d. io.write32 (to_physical address) value d;
}

-- EfiConvertPointer knows the registers, and the page tables agree with it on each of them.
abbrev pub MapsRegisters : (ℕ → ℕ) → (ℕ → Option ℕ) → ℕ → Type 0
MapsRegisters to_physical convert base =
    (address : ℕ) × (convert base ≡ some address)
    × ((offset : ℕ)
        → offset < goldfish_rtc_clear_interrupt + 4
        → to_physical (address + offset) ≡ base + offset)

virtual_notify_event-mapped :
    (convert : ℕ → Option ℕ) (base address : ℕ)
    → convert base ≡ some address
    → virtual_notify_event convert base ≡ address
unfolding virtual_notify_event
virtual_notify_event-mapped convert base address e = rw (virtual_notify_event, e) refl

-- Behind VirtualNotifyEvent, LibGetTime and LibSetTime do through the page tables of the operating
-- system what they did before at the physical address, where the registers are mapped.
pub virtual_services-agree :
    {D Fields : Type 0} (io : Mmio D) (lib : TimeBaseLib Fields) (to_physical : ℕ → ℕ)
    (convert : ℕ → Option ℕ) (base : ℕ) (time : Option (Time Fields)) (wanted : Bool) (d : D)
    → MapsRegisters to_physical convert base
    → let runtime = virtual_notify_event convert base in
      (lib_get_time (through to_physical io) lib runtime time wanted d
        ≡ lib_get_time io lib base time wanted d)
      × (lib_set_time (through to_physical io) lib runtime time d ≡ lib_set_time io lib base time d)
unfolding lib_get_time lib_set_time
virtual_services-agree io lib to_physical convert base none wanted d maps = (refl, refl)
virtual_services-agree io lib to_physical convert base (some time) wanted d (address, e, maps) =
    let runtime = virtual_notify_event-mapped convert base address e in
    let low = maps goldfish_rtc_time_low (omega arith) in
    let high = maps goldfish_rtc_time_high (omega arith) in rw (runtime, low, high) (refl, refl)

-- The second that is read back for a second that was set, whose nanoseconds are taken in 64 bits.
abbrev pub second_of : ℕ → ℕ
second_of epoch = epoch * nano_sec % 2 ^ 64 / nano_sec

second_of_cases :
    (epoch : ℕ)
    → ((epoch * nano_sec < 2 ^ 64) × (second_of epoch ≡ epoch))
      ⊎ ((2 ^ 64 ≤ epoch * nano_sec) × (second_of epoch < epoch))
second_of_cases epoch = elim (Bool-cases (ltb (epoch * nano_sec) (2 ^ 64))) [
  | inl below ↦
      let fits : epoch * nano_sec < 2 ^ 64 = ground (arith, below) in
      inl (fits, omega (arith, fits))
  | inr above ↦
      let wraps : 2 ^ 64 ≤ epoch * nano_sec = ground (arith, above) in
      inr (wraps, omega (arith, wraps))
]

set_get_any :
    {D Fields : Type 0} (io : Mmio D) (lib : TimeBaseLib Fields) (base : ℕ) (time : Time Fields)
    (d : D)
    → HoldsTime io base
    → time.time_zone ≡ pos efi_unspecified_timezone
    → in_daylight time.daylight ≡ false
    → (lib_get_time io lib base (some time) false (lib_set_time io lib base (some time) d).1).1
      ≡ some (record time {
        fields = lib.epoch_to_efi_time (second_of (lib.efi_time_to_epoch time.fields));
      })
unfolding lib_get_time lib_set_time to_local to_utc
set_get_any io lib base time d clock zone daylight =
    let epoch = lib.efi_time_to_epoch time.fields in
    let n = u64 (u64 epoch * nano_sec) in
    let utc : to_utc time n ≡ n = ground (arith, zone, daylight) in
    let wrapped : n ≡ epoch * nano_sec % 2 ^ 64 = omega arith in
    let local : to_local time (n / nano_sec) ≡ n / nano_sec = ground (arith, zone, daylight) in
    let (l, h) =
      clock.holds d (u32 (bit_and n 0xffff_ffff)) (u32 (n / 2 ^ 32)) (omega arith) (omega arith) in
    rw utc (rw (l, h) (rw (halves n (omega arith)) (rw (local, wrapped) refl)))

-- With the time zone unspecified and no daylight saving, the same second is read back, whether the time
-- is set and read before the operating system moved the registers, set before and read behind
-- VirtualNotifyEvent, or set and read behind it, where the registers are mapped. It is the second
-- that was set where that is below 2^64 nanoseconds from the epoch, which is before the middle of 2554,
-- and an earlier one from there on, since LibSetTime takes the nanoseconds in 64 bits.
pub set_get_runtime :
    {D Fields : Type 0} (io : Mmio D) (lib : TimeBaseLib Fields) (to_physical : ℕ → ℕ)
    (convert : ℕ → Option ℕ) (base : ℕ) (time : Time Fields) (d : D)
    → HoldsTime io base
    → MapsRegisters to_physical convert base
    → time.time_zone ≡ pos efi_unspecified_timezone
    → in_daylight time.daylight ≡ false
    → let runtime = virtual_notify_event convert base in
      let mapped = through to_physical io in
      let at_boot = (lib_set_time io lib base (some time) d).1 in
      let later = (lib_set_time mapped lib runtime (some time) d).1 in
      let epoch = lib.efi_time_to_epoch time.fields in
      (seconds : ℕ) × (((epoch * nano_sec < 2 ^ 64) × (seconds ≡ epoch))
        ⊎ ((2 ^ 64 ≤ epoch * nano_sec) × (seconds < epoch)))
      × ((lib_get_time io lib base (some time) false at_boot).1
          ≡ some (record time { fields = lib.epoch_to_efi_time seconds }))
      × ((lib_get_time mapped lib runtime (some time) false at_boot).1
          ≡ some (record time { fields = lib.epoch_to_efi_time seconds }))
      × ((lib_get_time mapped lib runtime (some time) false later).1
          ≡ some (record time { fields = lib.epoch_to_efi_time seconds }))
set_get_runtime io lib to_physical convert base time d clock maps zone daylight =
    let agree = virtual_services-agree io lib to_physical convert base (some time) false in
    let at_boot = (lib_set_time io lib base (some time) d).1 in
    let epoch = lib.efi_time_to_epoch time.fields in
    let read = set_get_any io lib base time d clock zone daylight in
    let behind = ap (λ r. r.1) (agree at_boot maps).0 ∙ read in
    (second_of epoch, second_of_cases epoch, read, behind, rw (agree d maps).1 behind)
