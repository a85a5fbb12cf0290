-- ===== src/Battery.antt =====
-- UemuPkg/Drivers/GoldfishBatteryDxe/GoldfishBatteryDxe.c: reading the battery's registers, and building its
-- SMBIOS record. A block of pool memory is the list of its bytes, and a string is its characters
-- without the NUL.
pub mod Record
pub mod Table
pub mod Start
mod Tests
use edk2_uemu.Common.{
  ℕ, zero, suc, ◌+◌, ◌==◌, Bool, true, false, not, Option, none, some, List, [], ◌∷◌, ◌++◌,
  if◌then◌else◌, replicate, length, get_or,
}
use edk2_uemu.Efi.{
  Status, Result, ok, err, fault, ◌>>=◌, is_error, out_of_resources, device_error,
  invalid_parameter, success,
}
use edk2_uemu.Text.{Text, codes}
use edk2_uemu.Packed.{Field, smbios_structure}
use edk2_uemu.Mmio.{Mmio}
use edk2_uemu.Fdt.{Platform}
use edk2_uemu.Discover.{find_reg, DxeServices, Registers, declare_registers}

-- CopyMem to the start of a block; `fault` is a write behind its end.
unfoldable pub copy_mem : List ℕ → List ℕ → Result (List ℕ)
copy_mem block [] = ok block
copy_mem [] (s ∷ source) = fault
copy_mem (b ∷ block) (s ∷ source) = copy_mem block source >>= λ rest. ok (s ∷ rest)

-- CopyMem to an offset in a block.
unfoldable pub copy_mem_at : List ℕ → ℕ → List ℕ → Result (List ℕ)
copy_mem_at block zero source = copy_mem block source
copy_mem_at [] (suc offset) source = fault
copy_mem_at (b ∷ block) (suc offset) source =
    copy_mem_at block offset source >>= λ rest. ok (b ∷ rest)

-- The bytes of a string with its NUL, AsciiStrSize of them.
abbrev pub with_nul : Text → List ℕ
with_nul s = s ++ 0 ∷ []

-- The sum of AsciiStrSize over the string pack.
unfoldable pub strings_size : List Text → ℕ
strings_size [] = 0
strings_size (s ∷ pack) = length (with_nul s) + strings_size pack

-- What LogSmbiosRecord adds to Template->Length.
unfoldable pub pack_size : Option (List Text) → ℕ
unfolding strings_size
pack_size none = 2
pack_size (some []) = strings_size [] + 1 + 1
pack_size (some (s ∷ pack)) = strings_size (s ∷ pack) + 1

-- The loop that appends the strings: the offset of Str behind it, and the record.
unfoldable pub append_strings : List Text → ℕ → List ℕ → Result (ℕ × List ℕ)
append_strings [] offset record_bytes = ok (offset, record_bytes)
append_strings (s ∷ pack) offset record_bytes =
    copy_mem_at record_bytes offset (with_nul s) >>= λ next.
    append_strings pack (offset + length (with_nul s)) next

abbrev pub strings_of : Option (List Text) → List Text
strings_of none = []
strings_of (some pack) = pack

-- The record that LogSmbiosRecord hands to Smbios->Add. Template->Length, which the copy repeats as
-- Record->Length, is the length of the template.
unfoldable pub build_record : List ℕ → Option (List Text) → Result (List ℕ)
build_record template string_pack = do
  let zeros = replicate (length template + pack_size string_pack) 0
  fixed ← copy_mem zeros template
  appended ← append_strings (strings_of string_pack) (length template) fixed
  copy_mem_at appended.1 appended.0 (0 ∷ [])

-- The services that LogSmbiosRecord calls: LocateProtocol, AllocateZeroPool and Smbios->Add.
pub record Smbios : Type 0 where
  pub locate : Status
  pub has_pool : ℕ → Bool
  pub add : List ℕ → Status

-- LogSmbiosRecord: its status, and the record where one is added.
unfoldable pub log_smbios_record :
    Smbios → List ℕ → Option (List Text) → Result (Status × Option (List ℕ))
log_smbios_record smbios template string_pack =
    if is_error smbios.locate
    then ok (smbios.locate, none)
    else if not (smbios.has_pool (length template + pack_size string_pack))
    then ok (out_of_resources, none)
    else build_record template string_pack >>= λ bytes. ok (smbios.add bytes, some bytes)

-- The strings of LogBatterySmbios.
abbrev pub battery_strings : List Text
battery_strings = codes "Internal" ∷ codes "Goldfish" ∷ codes "Virtual Battery" ∷ []

-- mBatteryType22
abbrev pub battery_type22 : List Field
battery_type22 =
    (1, 1)
    ∷ (1, 2)
    ∷ (1, 0)
    ∷ (1, 0)
    ∷ (1, 3)
    ∷ (1, 0x06)
    ∷ (2, 0)
    ∷ (2, 0)
    ∷ (1, 0)
    ∷ (1, 0)
    ∷ (2, 0)
    ∷ (2, 0)
    ∷ (1, 0)
    ∷ (1, 0)
    ∷ (4, 0)
    ∷ []

-- mBatteryType22 with its header, whose type is EFI_SMBIOS_TYPE_PORTABLE_BATTERY.
abbrev pub battery_template : List ℕ
battery_template = smbios_structure 22 battery_type22 0

-- LogBatterySmbios
unfoldable pub log_battery_smbios : Smbios → Result (Status × Option (List ℕ))
log_battery_smbios smbios = log_smbios_record smbios battery_template (some battery_strings)

-- GOLDFISH_BATTERY_INFO
pub record BatteryInfo : Type 0 where
  pub ac_online : ℕ
  pub status : ℕ
  pub health : ℕ
  pub present : ℕ
  pub capacity : ℕ
  pub voltage_now : ℕ
  pub current_now : ℕ
  pub voltage_max : ℕ
  pub current_max : ℕ
  pub temp : ℕ
  pub cycle_count : ℕ
  pub charge_full_uah : ℕ
  pub charge_counter : ℕ
  pub current_avg : ℕ

-- What the entry point has done from the allocation on: its status, the MmioBase of the private data
-- where that is still allocated, whether the protocol is installed, and the SMBIOS record that was added.
pub record Started : Type 0 where
  pub status : Status
  pub dev : Option ℕ
  pub installed : Bool
  pub logged : Option (List ℕ)

-- The services of the entry point: AllocateZeroPool of the private data and
-- InstallProtocolInterface.
pub record BootServices : Type 0 where
  pub has_dev_pool : Bool
  pub install : Status

-- The end of the entry point, which drops the status of LogBatterySmbios.
unfoldable pub install_battery : Smbios → BootServices → ℕ → Result Started
install_battery smbios boot mmio_base =
    if not boot.has_dev_pool
    then ok (record { status = out_of_resources; dev = none; installed = false; logged = none })
    else if is_error boot.install
    then ok (record { status = boot.install; dev = none; installed = false; logged = none })
    else log_battery_smbios smbios >>= λ battery.
        ok (record { status = success; dev = some mmio_base; installed = true; logged = battery.1 })

module _ {D : Type 0} (io : Mmio D) where
  -- ReadBatteryInfo: INT_STATUS first, which acknowledges an interrupt.
  unfoldable pub read_battery_info : ℕ → D → BatteryInfo × D
  read_battery_info base d =
      let (pending, d0) = io.read32 (base + 0x00) d in
      let (ac_online, d1) = io.read32 (base + 0x08) d0 in
      let (status, d2) = io.read32 (base + 0x0c) d1 in
      let (health, d3) = io.read32 (base + 0x10) d2 in
      let (present, d4) = io.read32 (base + 0x14) d3 in
      let (capacity, d5) = io.read32 (base + 0x18) d4 in
      let (voltage, d6) = io.read32 (base + 0x1c) d5 in
      let (temp, d7) = io.read32 (base + 0x20) d6 in
      let (charge_counter, d8) = io.read32 (base + 0x24) d7 in
      let (voltage_max, d9) = io.read32 (base + 0x28) d8 in
      let (current_max, d10) = io.read32 (base + 0x2c) d9 in
      let (current_now, d11) = io.read32 (base + 0x30) d10 in
      let (current_avg, d12) = io.read32 (base + 0x34) d11 in
      let (charge_full_uah, d13) = io.read32 (base + 0x38) d12 in
      let (cycle_count, d14) = io.read32 (base + 0x40) d13 in
      (
        record {
          ac_online = ac_online;
          status = status;
          health = health;
          present = present;
          capacity = capacity;
          voltage_now = voltage;
          current_now = current_now;
          voltage_max = voltage_max;
          current_max = current_max;
          temp = temp;
          cycle_count = cycle_count;
          charge_full_uah = charge_full_uah;
          charge_counter = charge_counter;
          current_avg = current_avg;
        },
        d14,
      )

  -- GetBatteryInfo: `located` is the MmioBase of the private data that holds the protocol found.
  unfoldable pub get_battery_info : Option ℕ → ℕ → D → Result BatteryInfo × D
  get_battery_info none info d = (err device_error, d)
  get_battery_info (some mmio_base) info d =
      let (read, d') = read_battery_info mmio_base d in
      if info == 0 then (err invalid_parameter, d) else (ok read, d')

  -- The entry point behind the search for the device.
  unfoldable pub start :
      Platform → DxeServices → Smbios → BootServices → D → ℕ × ℕ → Result (Registers × Started × D)
  start p dxe smbios boot d range = do
    regs ← declare_registers p dxe (0x40 + 4) range.0 range.1
    let (info, d') = read_battery_info regs.base d
    started ← install_battery smbios boot regs.base
    ok (regs, started, d')

  -- GoldfishBatteryDxeInitialize: an `err` is the status of a call before the registers are read.
  unfoldable pub goldfish_battery_dxe_initialize :
      Platform
      → DxeServices
      → Smbios
      → BootServices
      → ℕ
      → D
      → Option (Result (Registers × Started × D))
  goldfish_battery_dxe_initialize p dxe smbios boot fuel d =
      elim (find_reg p fuel (codes "google,goldfish-battery")) [
        | none ↦ none
        | some found ↦ some (found >>= λ range. start p dxe smbios boot d range)
      ]
