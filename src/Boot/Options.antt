-- ===== src/Boot/Options.antt =====
-- The boot options of PlatformBm.c. UefiBootManagerLib and the firmware volumes are arguments.
use edk2_uemu.Common.{
  ℕ, Bool, false, not, ◌&&◌, ◌||◌, Option, none, some, List, [], ◌∷◌, ◌==◌, if◌then◌else◌,
  max_uint64,
}
use edk2_uemu.Efi.{Status, Result, ok, err, fault, is_error}
use edk2_uemu.Text.{Text, codes}

-- Type and SubType of a device path node.
pub record Node : Type 0 where
  pub type : ℕ
  pub sub_type : ℕ

-- EFI_BOOT_MANAGER_LOAD_OPTION: its Boot#### number, and the first two nodes of its FilePath.
pub record BootOption : Type 0 where
  pub number : ℕ
  pub node1 : Node
  pub node2 : Node

-- HARDWARE_DEVICE_PATH, HW_MEMMAP_DP, MEDIA_DEVICE_PATH, MEDIA_PIWG_FW_FILE_DP, MEDIA_PIWG_FW_VOL_DP
abbrev pub hardware_device_path : ℕ
hardware_device_path = 1

abbrev pub hw_memmap_dp : ℕ
hw_memmap_dp = 3

abbrev pub media_device_path : ℕ
media_device_path = 4

abbrev pub media_piwg_fw_file_dp : ℕ
media_piwg_fw_file_dp = 6

abbrev pub media_piwg_fw_vol_dp : ℕ
media_piwg_fw_vol_dp = 7

-- LoadOptionNumberUnassigned
abbrev pub load_option_number_unassigned : ℕ
load_option_number_unassigned = 0x10000

-- LocateDevicePath of the option's volume, ReadFile of its file there, and UefiBootManagerLib: the boot
-- options; the load option with a number, attributes and a description for a file of the volume that the
-- image was loaded from; EfiBootManagerFindLoadOption, which answers -1 as `none`; AddLoadOptionVariable
-- at a position; and DeleteLoadOptionVariable.
pub record BootManager (S : Type 0) : Type 0 where
  pub locate_volume : BootOption → Result ℕ
  pub read_file : ℕ → BootOption → Status
  pub load_options : S → List BootOption
  pub initialize_load_option : S → ℕ → ℕ → Text → ℕ → BootOption
  pub find_load_option : BootOption → List BootOption → Option ℕ
  pub add_load_option_variable : S → BootOption → ℕ → S
  pub delete_load_option_variable : S → ℕ → S

-- The first two tests of RemoveStaleFvFileOptions: MemoryMapped(...) or Fv(...), then FvFile(...).
unfoldable pub is_fv_file : BootOption → Bool
is_fv_file option =
    (option.node1.type == hardware_device_path && option.node1.sub_type == hw_memmap_dp
      || option.node1.type == media_device_path && option.node1.sub_type == media_piwg_fw_vol_dp)
    && (option.node2.type == media_device_path && option.node2.sub_type == media_piwg_fw_file_dp)

module _ {S : Type 0} (manager : BootManager S) where
  -- The volume is there, and its file can be read.
  unfoldable pub resolves : BootOption → Bool
  resolves option = elim (manager.locate_volume option) [
    | ok volume ↦ not (is_error (manager.read_file volume option))
    | err status ↦ false
    | fault ↦ false
  ]

  -- The body of the loop of RemoveStaleFvFileOptions.
  unfoldable pub remove_stale : BootOption → S → S
  remove_stale option s =
      if not (is_fv_file option)
      then s
      else if resolves option
      then s
      else manager.delete_load_option_variable s option.number

  -- The loop of RemoveStaleFvFileOptions, over the options as they were before it.
  unfoldable pub remove_loop : List BootOption → S → S
  remove_loop [] s = s
  remove_loop (option ∷ options) s = remove_loop options (remove_stale option s)

  -- RemoveStaleFvFileOptions
  unfoldable pub remove_stale_fv_file_options : S → S
  remove_stale_fv_file_options s = remove_loop (manager.load_options s) s

  -- PlatformRegisterFvBootOption
  unfoldable pub platform_register_fv_boot_option : ℕ → Text → ℕ → S → S
  platform_register_fv_boot_option file_guid description attributes s =
      let new_option =
        manager.initialize_load_option s load_option_number_unassigned attributes description
          file_guid in
      elim (manager.find_load_option new_option (manager.load_options s)) [
        | none ↦ manager.add_load_option_variable s new_option max_uint64
        | some index ↦ s
      ]

  -- The calls of PlatformBootManagerAfterConsole on the boot options, with gUefiShellFileGuid and
  -- LOAD_OPTION_ACTIVE.
  unfoldable pub update_boot_options : ℕ → S → S
  update_boot_options shell_guid s =
      remove_stale_fv_file_options
        (platform_register_fv_boot_option shell_guid (codes "EFI Internal Shell") 1 s)
