-- ===== src/Rtc/RoundTrip.antt =====
-- Setting and then reading the clock of GoldfishRealTimeClockLib.c, below 2^64 ns: exact in UTC, and off by
-- the adjustment where a time zone or daylight saving is given, since LibSetTime takes seconds off a number
-- of nanoseconds.
use edk2_uemu.Common.{
  ℕ, suc, ◌+◌, ◌-◌, ◌*◌, ◌/◌, ◌%◌, ◌^◌, ◌≤◌, ◌<◌, ◌≡◌, ◌≢◌, ◌⊎◌, inl, inr, refl, ap, ◌∙◌, bit_and,
  bit_or, true, false, Option, some, u32, u64, arith,
}
use edk2_uemu.Common.Int.{pos, negsuc}
use edk2_uemu.Common.Bits.{bit_or_fields, bit_and_low}
use edk2_uemu.Mmio.{Mmio}
use edk2_uemu.Rtc.{
  Time, TimeBaseLib, lib_get_time, lib_set_time, goldfish_rtc_time_low, goldfish_rtc_time_high,
  nano_sec, to_utc, to_local, efi_unspecified_timezone, in_daylight,
}

-- The time registers hold what was written to them last, as long as no time passes.
pub record HoldsTime {D : Type 0} (io : Mmio D) (base : ℕ) : Type 0 where
  pub holds :
      (d : D) (low high : ℕ)
      → low < 2 ^ 32
      → high < 2 ^ 32
      → let d1 = io.write32 (base + goldfish_rtc_time_low) low d in
        let d2 = io.write32 (base + goldfish_rtc_time_high) high d1 in
        let (low', d3) = io.read32 (base + goldfish_rtc_time_low) d2 in
        (low' ≡ low) × ((io.read32 (base + goldfish_rtc_time_high) d3).0 ≡ high)

low_half : (n : ℕ) → u32 (bit_and n 0xffff_ffff) ≡ n % 2 ^ 32
low_half n =
    let e : n ≡ n / 2 ^ 32 * 2 ^ 32 + n % 2 ^ 32 = omega arith in
    omega (
      arith,
      bit_and_low 32 (n / 2 ^ 32) (n % 2 ^ 32) (omega arith),
      ap (λ (t : ℕ). bit_and t 0xffff_ffff) e,
    )

-- The halves that LibSetTime writes make up the number again in LibGetTime.
pub halves :
    (n : ℕ)
    → n < 2 ^ 64
    → bit_or (u64 (u32 (n / 2 ^ 32) * 2 ^ 32)) (u32 (bit_and n 0xffff_ffff)) ≡ n
halves n h = rw low_half (
    let e : u64 (u32 (n / 2 ^ 32) * 2 ^ 32) ≡ n / 2 ^ 32 * 2 ^ 32 = omega arith in
    rw e (omega (arith, bit_or_fields 32 (n / 2 ^ 32) (n % 2 ^ 32) (omega arith))))

module _ {D Fields : Type 0} (io : Mmio D) (lib : TimeBaseLib Fields) (base : ℕ)
    (clock : HoldsTime io base) (time : Time Fields) (d : D)
    (fits : lib.efi_time_to_epoch time.fields * nano_sec < 2 ^ 64) where
  -- The time that reading the clock gives right after `time` was set, into a structure with the same
  -- time zone and daylight saving.
  abbrev pub read_back : Option (Time Fields)
  read_back =
      (lib_get_time io lib base (some time) false (lib_set_time io lib base (some time) d).1).1

  abbrev epoch : ℕ
  epoch = lib.efi_time_to_epoch time.fields

  to_utc-lt : to_utc time (epoch * nano_sec) < 2 ^ 64
  unfolding to_utc
  to_utc-lt = ground (arith, fits)

  read_back_lem :
      read_back
      ≡ some (record time {
        fields = lib.epoch_to_efi_time (to_local time (to_utc time (epoch * nano_sec) / nano_sec));
      })
  unfolding lib_get_time lib_set_time
  read_back_lem =
      let n = to_utc time (epoch * nano_sec) in
      let fits64 : u64 (u64 epoch * nano_sec) ≡ epoch * nano_sec = omega (arith, fits) in
      let (l, h) =
        clock.holds d (u32 (bit_and n 0xffff_ffff)) (u32 (n / 2 ^ 32)) (omega arith)
          (omega arith) in
      rw fits64 (rw (l, h) (rw (halves n to_utc-lt) refl))

  reads_as :
      (seconds : ℕ)
      → to_local time (to_utc time (epoch * nano_sec) / nano_sec) ≡ seconds
      → read_back ≡ some (record time { fields = lib.epoch_to_efi_time seconds })
  reads_as seconds e = read_back_lem ∙ rw e refl

  -- With the time zone unspecified and no daylight saving, a time below 2^64 ns reads back as the second
  -- that was set.
  set_get_utc :
      time.time_zone ≡ pos efi_unspecified_timezone
      → in_daylight time.daylight ≡ false
      → read_back
        ≡ some (record time { fields = lib.epoch_to_efi_time (lib.efi_time_to_epoch time.fields) })
  unfolding to_local to_utc
  set_get_utc z s = reads_as epoch (ground (arith, z, s, fits))

  -- With a zone of `minutes` above 0, the time reads back as `60 * minutes - 1` seconds later.
  set_get_east :
      (minutes : ℕ)
      → time.time_zone ≡ pos minutes
      → 0 < minutes
      → minutes ≤ 1440
      → 0 < lib.efi_time_to_epoch time.fields
      → read_back
        ≡ some (record time {
          fields = lib.epoch_to_efi_time (lib.efi_time_to_epoch time.fields + (60 * minutes - 1));
        })
  unfolding to_local to_utc
  set_get_east minutes z positive small after =
      reads_as (epoch + (60 * minutes - 1)) (rw z (ground (arith, fits)))

  -- With a zone of `minutes + 1` below 0, the time reads back as `60 * (minutes + 1)` seconds earlier.
  pub set_get_west :
      (minutes : ℕ)
      → time.time_zone ≡ negsuc minutes
      → minutes < 1440
      → 60 * suc minutes ≤ lib.efi_time_to_epoch time.fields
      → lib.efi_time_to_epoch time.fields * nano_sec + 86400 < 2 ^ 64
      → read_back
        ≡ some (record time {
          fields = lib.epoch_to_efi_time (lib.efi_time_to_epoch time.fields - 60 * suc minutes);
        })
  unfolding to_local to_utc
  set_get_west minutes z small after room =
      reads_as (epoch - 60 * suc minutes) (rw z (ground (arith, fits)))

  -- With daylight saving and no zone, the time reads back as 3599 seconds later.
  set_get_daylight :
      time.time_zone ≡ pos efi_unspecified_timezone
      → in_daylight time.daylight ≡ true
      → 0 < lib.efi_time_to_epoch time.fields
      → read_back
        ≡ some (record time {
          fields = lib.epoch_to_efi_time (lib.efi_time_to_epoch time.fields + 3599);
        })
  unfolding to_local to_utc
  set_get_daylight z s after = reads_as (epoch + 3599) (ground (arith, z, s, fits))

  -- The zone is `minutes` above 0, `minutes` below 0, or unspecified with daylight saving.
  abbrev pub ZoneShift : ℕ → Type 0
  ZoneShift seconds =
      ((minutes : ℕ) × (time.time_zone ≡ pos minutes)
        × (0 < minutes)
        × (minutes ≤ 1440)
        × (seconds ≡ lib.efi_time_to_epoch time.fields + (60 * minutes - 1)))
      ⊎ ((minutes : ℕ) × (time.time_zone ≡ negsuc minutes)
          × (minutes < 1440)
          × (seconds ≡ lib.efi_time_to_epoch time.fields - 60 * suc minutes))
      ⊎ ((time.time_zone ≡ pos efi_unspecified_timezone)
          × (in_daylight time.daylight ≡ true)
          × (seconds ≡ lib.efi_time_to_epoch time.fields + 3599))

  -- From the second day of the epoch on, and below 2^64 ns by a day, a time set with a zone or with
  -- daylight saving is not the time that is read back: with a zone of `minutes` above 0, up to a day, it is
  -- `60 * minutes - 1` seconds later; with a zone of `minutes + 1` below 0, up to a day,
  -- `60 * (minutes + 1)` seconds earlier; and with daylight saving and the zone unspecified 3599 seconds
  -- later.
  pub set_get_shifted :
      {seconds : ℕ}
      → ZoneShift seconds
      → 86400 ≤ lib.efi_time_to_epoch time.fields
      → lib.efi_time_to_epoch time.fields * nano_sec + 86400 < 2 ^ 64
      → (read_back ≡ some (record time { fields = lib.epoch_to_efi_time seconds }))
        × (seconds ≢ lib.efi_time_to_epoch time.fields)
  set_get_shifted (inl (minutes, z, positive, small, e)) day room =
      (rw e (set_get_east minutes z positive small (omega arith)), omega arith)
  set_get_shifted (inr (inl (minutes, z, small, e))) day room =
      (rw e (set_get_west minutes z small (omega arith) room), omega arith)
  set_get_shifted (inr (inr (z, s, e))) day room =
      (rw e (set_get_daylight z s (omega arith)), omega arith)
