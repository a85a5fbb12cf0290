-- ===== src/Smbios.antt =====
-- UemuPkg/Drivers/PlatformSmbiosDxe/PlatformSmbiosDxe.c: the SMBIOS records of the platform. The SMBIOS
-- protocol, the FDT client and the timer are arguments.
pub mod Fields
pub mod Template
pub mod Array
pub mod Sort
pub mod Keeps
pub mod Scan
pub mod Partition
pub mod Sorted
pub mod Cpu
pub mod Memory
pub mod Driver
pub mod Strings
pub mod Frequency
pub mod Regions
pub mod Total
pub mod Entry
pub mod Reader
pub mod Members
pub mod Records
pub mod Versions
mod Tests
use edk2_uemu.Common.{
  ℕ, ◌+◌, ◌==◌, Bool, true, false, not, Option, none, some, List, [], ◌∷◌, ◌++◌, if◌then◌else◌,
  length, take, leb,
}
use edk2_uemu.Efi.{Status, Result, ok, err, fault, ◌>>=◌, is_error, success, out_of_resources}
use edk2_uemu.Text.{Text, codes, ascii_strn_len_s}
use edk2_uemu.Common.Int.{pos}
use edk2_uemu.Fdt.{Platform, uemu_fdt_get, uemu_fdt_get_string}
use edk2_uemu.Battery.{build_record, pack_size}
use Template.{
  Structure, bios_info, system_info, enclosure_info, oem_strings, memory_array, boot_info,
  board_info, processor_info, memory_range, memory_device, template,
}

-- The SMBIOS protocol and the pool: Add answers a status and a handle for a record behind those that it
-- was given before.
pub record Protocol : Type 0 where
  pub locate : Status
  pub has_pool : ℕ → Bool
  pub add : List (List ℕ) → List ℕ → Status × ℕ

-- The environment of the driver: how many bytes the compiler's type of a structure has behind the
-- members that its initializer names, and __DATE__.
pub record Environment : Type 0 where
  pub protocol : Protocol
  pub behind : Structure → ℕ
  pub build_date : Text

-- The strings that the driver sets.
pub record Names : Type 0 where
  pub version_name : Text
  pub processor_version : Text

-- Status == EFI_SUCCESS
abbrev pub is_success : Status → Bool
is_success success = true
is_success _ = false

-- LogSmbiosData: its status, what it stores in DataSmbiosHandle, and the records given to Add.
unfoldable pub log_smbios_data :
    Protocol
    → List (List ℕ)
    → List ℕ
    → Option (List Text)
    → Result (Status × Option ℕ × List (List ℕ))
log_smbios_data protocol added template string_pack =
    if is_error protocol.locate
    then ok (protocol.locate, none, added)
    else if not (protocol.has_pool (length template + pack_size string_pack))
    then ok (out_of_resources, none, added)
    else do
      bytes ← build_record template string_pack
      let (status, handle) = protocol.add added bytes
      ok (status, (if is_success status then some handle else none), added ++ bytes ∷ [])

-- mBIOSInfoType0Strings
abbrev pub bios_strings : Environment → List Text
bios_strings env = codes "Uotan" ∷ codes "edk2-uemu" ∷ env.build_date ∷ []

-- mSysInfoType1Strings
abbrev pub system_strings : Names → List Text
system_strings names =
    codes "Uotan"
    ∷ codes "Uotan RISC-V Emulator"
    ∷ names.version_name
    ∷ codes "Not Specified"
    ∷ codes "Not Specified"
    ∷ codes "Virtual Machine"
    ∷ []

-- mChassisAssetTag, which is all zeros.
abbrev pub chassis_asset_tag : Text
chassis_asset_tag = []

-- mBoardInfoType2Strings
abbrev pub board_strings : Names → List Text
board_strings names =
    codes "Uotan"
    ∷ codes "Uotan RISC-V Emulator"
    ∷ names.version_name
    ∷ codes "Not Specified"
    ∷ chassis_asset_tag
    ∷ codes "Virtual Machine"
    ∷ []

-- mEnclosureInfoType3Strings
abbrev pub enclosure_strings : List Text
enclosure_strings =
    codes "Uotan" ∷ codes "Uotan RISC-V Emulator" ∷ codes "Not Specified" ∷ chassis_asset_tag ∷ []

-- mProcessorInfoType4Strings
abbrev pub processor_strings : Names → List Text
processor_strings names =
    codes "CPU0"
    ∷ codes "Uotan"
    ∷ names.processor_version
    ∷ codes "Virtual RISC-V 64-bit Processor"
    ∷ []

-- mMemDevInfoType17Strings
abbrev pub device_strings : List Text
device_strings = codes "DIMM 0" ∷ codes "BANK 0" ∷ codes "Uotan" ∷ []

-- mOemStringsType11Strings
abbrev pub oem_info_strings : List Text
oem_info_strings = codes "https://github.com/Uotan-Dev/uotan_riscv_emu-ng" ∷ []

-- The string pack that goes with a structure.
unfoldable pub strings : Environment → Names → Structure → List Text
strings env names bios_info = bios_strings env
strings env names system_info = system_strings names
strings env names (board_info chassis_handle) = board_strings names
strings env names enclosure_info = enclosure_strings
strings env names (processor_info core_count speed) = processor_strings names
strings env names oem_strings = oem_info_strings
strings env names (memory_device size extended volatile handle) = device_strings
strings env names memory_array = []
strings env names (memory_range start end handle) = []
strings env names boot_info = []

-- LogSmbiosData of a structure with its strings.
unfoldable pub log_structure :
    Environment → Names → Structure → List (List ℕ) → Result (Status × Option ℕ × List (List ℕ))
log_structure env names structure added =
    log_smbios_data env.protocol added (template env.behind structure)
      (some (strings env names structure))

-- UpdateEmulatorVersion: the version string, which AsciiStrCpyS copies up to its NUL.
unfoldable pub update_emulator_version : Platform → Result Text
update_emulator_version p =
    let version = uemu_fdt_get p 1 >>= λ fdt.
    uemu_fdt_get_string p fdt (pos 0) (some (codes "uotan,emulator-version")) 1 in
    elim version [
      | ok (bytes, size) ↦
          ok (if leb size 128 then take (ascii_strn_len_s bytes size) bytes else codes "1.0.0")
      | err status ↦ ok (codes "1.0.0")
      | fault ↦ fault
    ]
