-- ===== src/Smbios/Members.antt =====
-- What a reader has to find in the members of the structures of PlatformSmbiosDxe.c, at the offsets of the
-- SMBIOS specification.
use edk2_uemu.Common.{ℕ, ◌^◌, ◌<◌, Option, none, some, List, [], ◌∷◌, length}
use edk2_uemu.Text.{Text, codes}
use edk2_uemu.Smbios.Template.{
  Structure, bios_info, system_info, enclosure_info, oem_strings, memory_array, boot_info,
  board_info, processor_info, memory_range, memory_device,
}
use edk2_uemu.Smbios.{Environment, Names}
use edk2_uemu.Smbios.Strings.{IsString}

-- The strings that the members of a structure name, at their offsets: the asset tag and what stands
-- behind it, and a member that is 0, are no string.
abbrev pub string_members : Environment → Names → Structure → List (ℕ × Option Text)
string_members env names bios_info =
    (0x4, some (codes "Uotan")) ∷ (0x5, some (codes "edk2-uemu")) ∷ (0x8, some env.build_date) ∷ []
string_members env names system_info =
    (0x4, some (codes "Uotan"))
    ∷ (0x5, some (codes "Uotan RISC-V Emulator"))
    ∷ (0x6, some names.version_name)
    ∷ (0x7, some (codes "Not Specified"))
    ∷ (0x19, some (codes "Not Specified"))
    ∷ (0x1a, some (codes "Virtual Machine"))
    ∷ []
string_members env names (board_info chassis_handle) =
    (0x4, some (codes "Uotan"))
    ∷ (0x5, some (codes "Uotan RISC-V Emulator"))
    ∷ (0x6, some names.version_name)
    ∷ (0x7, some (codes "Not Specified"))
    ∷ (0x8, none)
    ∷ (0xa, none)
    ∷ []
string_members env names enclosure_info =
    (0x4, some (codes "Uotan"))
    ∷ (0x6, some (codes "Uotan RISC-V Emulator"))
    ∷ (0x7, some (codes "Not Specified"))
    ∷ (0x8, none)
    ∷ []
string_members env names (processor_info core_count speed) =
    (0x4, some (codes "CPU0"))
    ∷ (0x7, some (codes "Uotan"))
    ∷ (0x10, some names.processor_version)
    ∷ (0x20, none)
    ∷ (0x21, none)
    ∷ (0x22, some (codes "Virtual RISC-V 64-bit Processor"))
    ∷ []
string_members env names (memory_device size extended_size volatile_size array_handle) =
    (0x10, some (codes "DIMM 0"))
    ∷ (0x11, some (codes "BANK 0"))
    ∷ (0x17, some (codes "Uotan"))
    ∷ (0x18, none)
    ∷ (0x19, none)
    ∷ (0x1a, none)
    ∷ (0x2b, none)
    ∷ []
string_members env names oem_strings = []
string_members env names memory_array = []
string_members env names (memory_range starting_address ending_address array_handle) = []
string_members env names boot_info = []

-- The numbers that the driver sets, and the capacities of the memory array, at their offsets and with
-- their widths.
abbrev pub number_members : Structure → List ((ℕ × ℕ) × ℕ)
number_members (board_info chassis_handle) = ((0xb, 2), chassis_handle) ∷ []
number_members (processor_info core_count speed) =
    ((0x14, 2), speed) ∷ ((0x16, 2), speed) ∷ ((0x23, 1), core_count) ∷ ((0x24, 1), core_count) ∷ []
number_members (memory_device size extended_size volatile_size array_handle) =
    ((0x4, 2), array_handle)
    ∷ ((0xc, 2), size)
    ∷ ((0x1c, 4), extended_size)
    ∷ ((0x3c, 8), volatile_size)
    ∷ []
number_members (memory_range starting_address ending_address array_handle) =
    ((0x4, 4), starting_address) ∷ ((0x8, 4), ending_address) ∷ ((0xc, 2), array_handle) ∷ []
number_members bios_info = []
number_members system_info = []
number_members enclosure_info = []
number_members oem_strings = []
number_members memory_array = ((0x7, 4), 0x80000000) ∷ ((0xf, 8), 0) ∷ []
number_members boot_info = []

-- The numbers fit their members.
abbrev pub NumbersFit : List ((ℕ × ℕ) × ℕ) → Type 0
NumbersFit [] = Unit
NumbersFit (((offset, width), number) ∷ table) = (number < 256 ^ width) × NumbersFit table

-- A string with a character, and no NUL inside.
abbrev pub IsText : Text → Type 0
IsText s = (0 < length s) × IsString s
