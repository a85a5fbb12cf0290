-- ===== src/Rtc.antt =====
-- UemuPkg/Library/GoldfishRealTimeClockLib/GoldfishRealTimeClockLib.c: the real time clock services.
-- The conversions between seconds and calendar fields are TimeBaseLib's, a parameter.
pub mod RoundTrip
pub mod Start
pub mod Virtual
mod Tests
use edk2_uemu.Common.{
  ℕ, zero, suc, ◌+◌, ◌-◌, ◌*◌, ◌/◌, ◌%◌, ◌^◌, bit_and, bit_or, Bool, true, false, not, ◌&&◌, ◌||◌,
  Option, none, some, ltb, ◌==◌, if◌then◌else◌, u32, u64, sub64, max_uint64,
}
use edk2_uemu.Common.Int.{ℤ, pos, negsuc, is_equal}
use edk2_uemu.Efi.{
  Status, Result, ok, err, success, invalid_parameter, unsupported, compromised_data, ◌>>=◌,
  is_error,
}
use edk2_uemu.Text.{codes}
use edk2_uemu.Mmio.{Mmio}
use edk2_uemu.Fdt.{Platform, uemu_fdt_align_range}
use edk2_uemu.Discover.{find_reg, DxeServices}

-- EFI_TIME, its calendar fields as one value of TimeBaseLib's.
pub record Time (Fields : Type 0) : Type 0 where
  pub fields : Fields
  pub time_zone : ℤ
  pub daylight : ℕ

-- EpochToEfiTime and EfiTimeToEpoch.
pub record TimeBaseLib (Fields : Type 0) : Type 0 where
  pub epoch_to_efi_time : ℕ → Fields
  pub efi_time_to_epoch : Fields → ℕ

-- EFI_TIME_CAPABILITIES
pub record Capabilities : Type 0 where
  pub resolution : ℕ
  pub accuracy : ℕ
  pub sets_to_zero : Bool

-- GOLDFISH_RTC_TIME_LOW, GOLDFISH_RTC_TIME_HIGH, GOLDFISH_RTC_CLEAR_INTERRUPT and NANO_SEC
abbrev pub goldfish_rtc_time_low : ℕ
goldfish_rtc_time_low = 0x0

abbrev pub goldfish_rtc_time_high : ℕ
goldfish_rtc_time_high = 0x4

abbrev pub goldfish_rtc_clear_interrupt : ℕ
goldfish_rtc_clear_interrupt = 0x1c

abbrev pub nano_sec : ℕ
nano_sec = 1000000000

-- EFI_UNSPECIFIED_TIMEZONE and EFI_TIME_IN_DAYLIGHT
abbrev pub efi_unspecified_timezone : ℕ
efi_unspecified_timezone = 0x7ff

abbrev pub in_daylight : ℕ → Bool
in_daylight daylight = bit_and daylight 0x2 == 0x2

-- e + z * 60 and e - z * 60 in UINT64.
abbrev pub add_minutes : ℕ → ℤ → ℕ
add_minutes e (pos n) = u64 (e + n * 60)
add_minutes e (negsuc n) = sub64 e (suc n * 60)

abbrev pub sub_minutes : ℕ → ℤ → ℕ
sub_minutes e (pos n) = sub64 e (n * 60)
sub_minutes e (negsuc n) = u64 (e + suc n * 60)

-- What LibGetTime adds to the seconds, and what LibSetTime takes off the nanoseconds.
unfoldable pub to_local : {Fields : Type 0} → Time Fields → ℕ → ℕ
to_local time seconds =
    if not (is_equal time.time_zone efi_unspecified_timezone)
    then add_minutes seconds time.time_zone
    else if in_daylight time.daylight
    then u64 (seconds + 3600)
    else seconds

unfoldable pub to_utc : {Fields : Type 0} → Time Fields → ℕ → ℕ
to_utc time nanoseconds =
    if not (is_equal time.time_zone efi_unspecified_timezone)
    then sub_minutes nanoseconds time.time_zone
    else if in_daylight time.daylight
    then sub64 nanoseconds 3600
    else nanoseconds

module _ {D Fields : Type 0} (io : Mmio D) (lib : TimeBaseLib Fields) where
  -- LibGetTime: the time and the capabilities are stored where the pointers are not NULL.
  unfoldable pub lib_get_time :
      ℕ → Option (Time Fields) → Bool → D → Status × Option (Time Fields) × Option Capabilities × D
  lib_get_time base none wanted d = (invalid_parameter, none, none, d)
  lib_get_time base (some time) wanted d =
      let (low, d1) = io.read32 (base + goldfish_rtc_time_low) d in
      let (high, d2) = io.read32 (base + goldfish_rtc_time_high) d1 in
      let seconds = bit_or (u64 (high * 2 ^ 32)) low / nano_sec in
      (
        success,
        some (record time { fields = lib.epoch_to_efi_time (to_local time seconds) }),
        (if wanted
            then some (record { resolution = 1; accuracy = 50000000; sets_to_zero = false })
            else none),
        d2,
      )

  -- LibSetTime
  unfoldable pub lib_set_time : ℕ → Option (Time Fields) → D → Status × D
  lib_set_time base none d = (invalid_parameter, d)
  lib_set_time base (some time) d =
      let nanoseconds = u64 (u64 (lib.efi_time_to_epoch time.fields) * nano_sec) in
      let utc = to_utc time nanoseconds in
      let d1 = io.write32 (base + goldfish_rtc_time_low) (u32 (bit_and utc 0xffff_ffff)) d in
      let d2 = io.write32 (base + goldfish_rtc_time_high) (u32 (utc / 2 ^ 32)) d1 in (success, d2)

-- LibGetWakeupTime and LibSetWakeupTime
unfoldable pub lib_get_wakeup_time : Status
lib_get_wakeup_time = unsupported

unfoldable pub lib_set_wakeup_time : Status
lib_set_wakeup_time = unsupported

-- VirtualNotifyEvent: mRtcRegisterBase as EfiConvertPointer converts it, whose status is dropped; `none` is
-- an address that no descriptor of the virtual map holds.
unfoldable pub virtual_notify_event : (ℕ → Option ℕ) → ℕ → ℕ
virtual_notify_event efi_convert_pointer rtc_register_base =
    elim (efi_convert_pointer rtc_register_base) [
      | none ↦ rtc_register_base
      | some address ↦ address
    ]

-- GetGoldfishRtcBase
unfoldable pub get_goldfish_rtc_base : Platform → ℕ → Option (Result (ℕ × ℕ))
get_goldfish_rtc_base p fuel = elim (find_reg p fuel (codes "google,goldfish-rtc")) [
  | none ↦ none
  | some r ↦ some (
      r >>= λ range.
      if ltb max_uint64 range.0 || ltb range.1 (goldfish_rtc_clear_interrupt + 4)
      then err compromised_data
      else ok range)
]

-- LibRtcInitialize behind GetGoldfishRtcBase: its status, with the register base and the pages
-- declared where it comes as far as creating the event. `create_event` is the status of
-- gBS->CreateEventEx.
unfoldable pub declare_rtc : Platform → DxeServices → Status → ℕ × ℕ → Result (Status × ℕ × ℕ × ℕ)
declare_rtc p dxe create_event range = do
  gcd ← uemu_fdt_align_range p range.0 range.1 1 1
  if is_error (dxe.add_memory_space gcd.0 gcd.1)
      then err (dxe.add_memory_space gcd.0 gcd.1)
      else if is_error (dxe.set_memory_space_attributes gcd.0 gcd.1)
      then err (dxe.set_memory_space_attributes gcd.0 gcd.1)
      else ok (create_event, range.0, gcd.0, gcd.1)

-- LibRtcInitialize
unfoldable pub lib_rtc_initialize :
    Platform → DxeServices → Status → ℕ → Option (Result (Status × ℕ × ℕ × ℕ))
lib_rtc_initialize p dxe create_event fuel = elim (get_goldfish_rtc_base p fuel) [
  | none ↦ none
  | some found ↦ some (found >>= λ range. declare_rtc p dxe create_event range)
]
