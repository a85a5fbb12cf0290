-- ===== src/Smbios/Template.antt =====
-- The structures of PlatformSmbiosDxe.c, byte by byte.
use edk2_uemu.Common.{ℕ, List}
use edk2_uemu.Packed.{Field, smbios_structure}
use edk2_uemu.Smbios.Fields.{
  bios_info_type0, sys_info_type1, board_info_type2, enclosure_info_type3, processor_info_type4,
  oem_strings_type11, phy_mem_array_info_type16, mem_dev_info_type17, mem_arr_map_info_type19,
  boot_info_type32,
}

-- The structures of the driver, with the fields that it sets: the handle of the chassis; core count and
-- speed; start, end and array handle of a memory range; size, extended size, volatile size and array
-- handle of the memory device.
pub data Structure : Type 0 where
  bios_info system_info enclosure_info oem_strings memory_array boot_info : Structure
  board_info : ℕ → Structure
  processor_info : ℕ → ℕ → Structure
  memory_range : ℕ → ℕ → ℕ → Structure
  memory_device : ℕ → ℕ → ℕ → ℕ → Structure

-- EFI_SMBIOS_TYPE_... of a structure.
abbrev pub type_of : Structure → ℕ
type_of bios_info = 0
type_of system_info = 1
type_of (board_info chassis_handle) = 2
type_of enclosure_info = 3
type_of (processor_info core_count speed) = 4
type_of oem_strings = 11
type_of memory_array = 16
type_of (memory_device size extended_size volatile_size array_handle) = 17
type_of (memory_range starting_address ending_address array_handle) = 19
type_of boot_info = 32

-- The members of a structure behind its header.
abbrev pub fields_of : Structure → List Field
fields_of bios_info = bios_info_type0
fields_of system_info = sys_info_type1
fields_of (board_info chassis_handle) = board_info_type2 chassis_handle
fields_of enclosure_info = enclosure_info_type3
fields_of (processor_info core_count speed) = processor_info_type4 core_count speed
fields_of oem_strings = oem_strings_type11
fields_of memory_array = phy_mem_array_info_type16
fields_of (memory_device size extended_size volatile_size array_handle) =
    mem_dev_info_type17 size extended_size volatile_size array_handle
fields_of (memory_range starting_address ending_address array_handle) =
    mem_arr_map_info_type19 starting_address ending_address array_handle
fields_of boot_info = boot_info_type32

-- A structure as LogSmbiosData gets it, where `behind` is how many bytes the compiler's type of it has
-- behind the members that the initializer names.
unfoldable pub template : (Structure → ℕ) → Structure → List ℕ
template behind structure =
    smbios_structure (type_of structure) (fields_of structure) (behind structure)
