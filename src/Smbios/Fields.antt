-- ===== src/Smbios/Fields.antt =====
-- The members of the structures of PlatformSmbiosDxe.c, as their initializers and the driver fill them. The
-- widths of the members and the numbers of the enumerations are those of the SMBIOS specification.
use edk2_uemu.Common.{ℕ, List, [], ◌∷◌, ◌++◌}
use edk2_uemu.Packed.{Field, bit_fields, guid, byte_fields}

-- BiosCharacteristics, from Reserved to ReservedForVendor.
abbrev pub bios_characteristics : List Field
bios_characteristics =
    (2, 0)
    ∷ (1, 0)
    ∷ (1, 0)
    ∷ (1, 0)
    ∷ (1, 0)
    ∷ (1, 0)
    ∷ (1, 0)
    ∷ (1, 0)
    ∷ (1, 1)
    ∷ (1, 0)
    ∷ (1, 1)
    ∷ (1, 0)
    ∷ (1, 0)
    ∷ (1, 0)
    ∷ (1, 0)
    ∷ (1, 1)
    ∷ (1, 0)
    ∷ (1, 0)
    ∷ (1, 0)
    ∷ (1, 0)
    ∷ (1, 0)
    ∷ (1, 0)
    ∷ (1, 0)
    ∷ (1, 0)
    ∷ (1, 0)
    ∷ (1, 0)
    ∷ (1, 0)
    ∷ (1, 1)
    ∷ (1, 0)
    ∷ (1, 0)
    ∷ (1, 0)
    ∷ (32, 0)
    ∷ []

-- mBIOSInfoType0
abbrev pub bios_info_type0 : List Field
bios_info_type0 =
    (1, 1)
    ∷ (1, 2)
    ∷ (2, 0)
    ∷ (1, 3)
    ∷ (1, 0x3f)
    ∷ (8, bit_fields bios_characteristics)
    ∷ (1, 0x03)
    ∷ (1, 0x0c)
    ∷ (1, 0)
    ∷ (1, 0)
    ∷ (1, 0xff)
    ∷ (1, 0xff)
    ∷ []

-- The UUID of mSysInfoType1.
abbrev pub system_uuid : List Field
system_uuid =
    guid 0xed6c6b3d 0xfb78 0x4b97 (0xbb ∷ 0x3a ∷ 0xb8 ∷ 0x8c ∷ 0x7e ∷ 0xbe ∷ 0xd5 ∷ 0x4a ∷ [])

-- mSysInfoType1, with SystemWakeupTypePowerSwitch.
abbrev pub sys_info_type1 : List Field
sys_info_type1 = (1, 1) ∷ (1, 2) ∷ (1, 3) ∷ (1, 4) ∷ system_uuid ++ (1, 6) ∷ (1, 5) ∷ (1, 6) ∷ []

-- FeatureFlag of mBoardInfoType2.
abbrev pub feature_flag : List Field
feature_flag = (1, 1) ∷ (1, 0) ∷ (1, 0) ∷ (1, 0) ∷ (1, 0) ∷ (3, 0) ∷ []

-- mBoardInfoType2, with BaseBoardTypeMotherBoard.
abbrev pub board_info_type2 : ℕ → List Field
board_info_type2 chassis_handle =
    (1, 1)
    ∷ (1, 2)
    ∷ (1, 3)
    ∷ (1, 4)
    ∷ (1, 5)
    ∷ (1, bit_fields feature_flag)
    ∷ (1, 6)
    ∷ (2, chassis_handle)
    ∷ (1, 0xa)
    ∷ (1, 0)
    ∷ (2, 0)
    ∷ []

-- mEnclosureInfoType3, with MiscChassisTypeDeskTop, ChassisStateSafe and ChassisSecurityStatusNone.
abbrev pub enclosure_info_type3 : List Field
enclosure_info_type3 =
    (1, 1)
      ∷ (1, 3)
      ∷ (1, 2)
      ∷ (1, 3)
      ∷ (1, 4)
      ∷ (1, 3)
      ∷ (1, 3)
      ∷ (1, 3)
      ∷ (1, 3)
      ∷ byte_fields (0 ∷ 0 ∷ 0 ∷ 0 ∷ [])
    ++ (1, 1) ∷ (1, 1) ∷ (1, 0) ∷ (1, 0) ∷ byte_fields (0 ∷ 0 ∷ 0 ∷ [])

-- Voltage of mProcessorInfoType4.
abbrev pub voltage : List Field
voltage = (1, 0) ∷ (1, 0) ∷ (1, 0) ∷ (1, 0) ∷ (3, 0) ∷ (1, 1) ∷ []

-- mProcessorInfoType4, with CentralProcessor, ProcessorFamilyIndicatorFamily2, ProcessorUpgradeOther and
-- ProcessorFamilyRiscVRV64, and the core count and the speed that LogCpuInfo sets.
abbrev pub processor_info_type4 : ℕ → ℕ → List Field
processor_info_type4 core_count speed =
    (1, 1) ∷ (1, 3) ∷ (1, 0xfe) ∷ (1, 2) ∷ byte_fields (0 ∷ 0 ∷ 0 ∷ 0 ∷ 0 ∷ 0 ∷ 0 ∷ 0 ∷ [])
    ++ (1, 3)
      ∷ (1, bit_fields voltage)
      ∷ (2, 0)
      ∷ (2, speed)
      ∷ (2, speed)
      ∷ (1, 0x41)
      ∷ (1, 1)
      ∷ (2, 0xffff)
      ∷ (2, 0xffff)
      ∷ (2, 0xffff)
      ∷ (1, 0)
      ∷ (1, 0)
      ∷ (1, 4)
      ∷ (1, core_count)
      ∷ (1, core_count)
      ∷ (1, 0)
      ∷ (2, 0xec)
      ∷ (2, 0x201)
      ∷ (2, 0)
      ∷ (2, 0)
      ∷ (2, 0)
      ∷ (2, 0)
      ∷ (1, 0)
      ∷ []

-- mOemStringsType11
abbrev pub oem_strings_type11 : List Field
oem_strings_type11 = (1, 1) ∷ []

-- mPhyMemArrayInfoType16, with MemoryArrayLocationSystemBoard, MemoryArrayUseSystemMemory and
-- MemoryErrorCorrectionNone.
abbrev pub phy_mem_array_info_type16 : List Field
phy_mem_array_info_type16 =
    (1, 3) ∷ (1, 3) ∷ (1, 3) ∷ (4, 0x80000000) ∷ (2, 0xfffe) ∷ (2, 1) ∷ (8, 0) ∷ []

-- TypeDetail and MemoryOperatingModeCapability of mMemDevInfoType17.
abbrev pub type_detail : List Field
type_detail =
    (1, 0)
    ∷ (1, 0)
    ∷ (1, 0)
    ∷ (1, 0)
    ∷ (1, 0)
    ∷ (1, 0)
    ∷ (1, 0)
    ∷ (1, 0)
    ∷ (1, 0)
    ∷ (1, 0)
    ∷ (1, 0)
    ∷ (1, 0)
    ∷ (1, 0)
    ∷ (1, 0)
    ∷ (1, 1)
    ∷ (1, 0)
    ∷ []

abbrev pub operating_mode_capability : List Field
operating_mode_capability = (1, 0) ∷ (1, 0) ∷ (1, 0) ∷ (1, 1) ∷ (1, 0) ∷ (1, 0) ∷ (10, 0) ∷ []

-- mMemDevInfoType17, with MemoryFormFactorOther, MemoryTypeOther and MemoryTechnologyDram, and the sizes
-- and the handle that the driver sets.
abbrev pub mem_dev_info_type17 : ℕ → ℕ → ℕ → ℕ → List Field
mem_dev_info_type17 size extended_size volatile_size array_handle =
    (2, array_handle)
    ∷ (2, 0xfffe)
    ∷ (2, 64)
    ∷ (2, 64)
    ∷ (2, size)
    ∷ (1, 1)
    ∷ (1, 0)
    ∷ (1, 1)
    ∷ (1, 2)
    ∷ (1, 1)
    ∷ (2, bit_fields type_detail)
    ∷ (2, 0)
    ∷ (1, 3)
    ∷ (1, 0)
    ∷ (1, 0)
    ∷ (1, 0)
    ∷ (1, 0)
    ∷ (4, extended_size)
    ∷ (2, 0)
    ∷ (2, 0)
    ∷ (2, 0)
    ∷ (2, 0)
    ∷ (1, 3)
    ∷ (2, bit_fields operating_mode_capability)
    ∷ (1, 0)
    ∷ (2, 0)
    ∷ (2, 0)
    ∷ (2, 0)
    ∷ (2, 0)
    ∷ (8, 0)
    ∷ (8, volatile_size)
    ∷ (8, 0)
    ∷ (8, 0)
    ∷ (4, 0)
    ∷ (4, 0)
    ∷ []

-- mMemArrMapInfoType19, with the addresses and the handle that the driver sets.
abbrev pub mem_arr_map_info_type19 : ℕ → ℕ → ℕ → List Field
mem_arr_map_info_type19 starting_address ending_address array_handle =
    (4, starting_address) ∷ (4, ending_address) ∷ (2, array_handle) ∷ (1, 1) ∷ (8, 0) ∷ (8, 0) ∷ []

-- mBootInfoType32, with BootInformationStatusNoError.
abbrev pub boot_info_type32 : List Field
boot_info_type32 = byte_fields (0 ∷ 0 ∷ 0 ∷ 0 ∷ 0 ∷ 0 ∷ 0 ∷ [])
