-- ===== src/Battery/Table.antt =====
-- The record that LogBatterySmbios of GoldfishBatteryDxe.c adds, as a reader of the SMBIOS tables finds it.
use edk2_uemu.Common.{
  ℕ, ◌≡◌, refl, not, if◌then◌else◌, Bool-cases, Option, none, some, List, [], ◌∷◌, length, inl, inr,
  arith,
}
use edk2_uemu.Efi.{Status, ok, is_error, out_of_resources}
use edk2_uemu.Text.{Text, codes}
use edk2_uemu.Battery.{Smbios, battery_strings, battery_template, log_battery_smbios}
use edk2_uemu.Battery.Record.{smbios_record, log_record_adds}
use edk2_uemu.Smbios.Reader.{StringsRead, strings_read}

-- The record of mBatteryType22 with its strings.
abbrev pub battery_record : List ℕ
battery_record = smbios_record battery_template battery_strings

-- Location, Manufacturer and DeviceName are strings; ManufactureDate, SerialNumber, SBDSVersionNumber and
-- SBDSDeviceChemistry are none.
abbrev pub battery_members : List (ℕ × Option Text)
battery_members =
    (0x4, some (codes "Internal"))
    ∷ (0x5, some (codes "Goldfish"))
    ∷ (0x8, some (codes "Virtual Battery"))
    ∷ (0x6, none)
    ∷ (0x7, none)
    ∷ (0xe, none)
    ∷ (0x14, none)
    ∷ []

pub battery_record-reads : StringsRead battery_record battery_members
battery_record-reads =
    strings_read battery_template battery_strings (omega arith) (omega arith) refl battery_members (
      omega arith,
      refl,
      (
        omega arith,
        refl,
        (
          omega arith,
          refl,
          (omega arith, refl, (omega arith, refl, (omega arith, refl, (omega arith, refl, tt)))),
        ),
      ),
    )

-- The record is added where the SMBIOS protocol is there and the pool has room for it.
pub added_record : Smbios → Option (List ℕ)
added_record smbios =
    if is_error smbios.locate
    then none
    else if not (smbios.has_pool (length battery_record))
    then none
    else some battery_record

pub log_battery_lem :
    (smbios : Smbios)
    → (status : Status) × (log_battery_smbios smbios ≡ ok (status, added_record smbios))
unfolding log_battery_smbios added_record
log_battery_lem smbios =
    let (size, run) = log_record_adds smbios battery_template (some battery_strings) in
    elim (Bool-cases (is_error smbios.locate)) [
      | inl e ↦ (smbios.locate, rw e (rw e at run))
      | inr e ↦ elim (Bool-cases (smbios.has_pool (length battery_record))) [
        | inl room ↦ (smbios.add battery_record, rw (e, room) (rw (e, ← size, room) at run))
        | inr full ↦ (out_of_resources, rw (e, full) (rw (e, ← size, full) at run))
      ]
    ]
