-- ===== src/Boot/After.antt =====
-- PlatformBootManagerAfterConsole of PlatformBm.c. The console, BootLogoLib, UefiBootManagerLib and
-- PlatformBmPrintScLib are arguments.
use edk2_uemu.Common.{ℕ, ◌≡◌, ◌∙◌, ltb, length, if◌then◌else◌}
use edk2_uemu.Text.{Text, codes}
use edk2_uemu.Boot.Options.{BootManager, update_boot_options}
use edk2_uemu.Boot.Stale.{IsDocumented, filter, is_kept, registered, update_boot_options_lem}

-- What the library prints: the firmware's version, and the seconds to press Esc.
pub data Message : Type 0 where
  firmware_version : Text → Message
  press_escape : ℕ → Message

-- PcdFirmwareVersionString and PcdPlatformBootTimeOut, BootLogoEnableLogo, Print,
-- EfiBootManagerConnectAll, EfiBootManagerRefreshAllBootOption and PlatformBmPrintScRegisterHandler.
pub record AfterServices (S : Type 0) : Type 0 where
  pub version_string : Text
  pub boot_time_out : ℕ
  pub enable_logo : S → S
  pub print : S → Message → S
  pub connect_all : S → S
  pub refresh_all_boot_option : S → S
  pub register_print_screen : S → S

module _ {S : Type 0} (services : AfterServices S) where
  -- PlatformBootManagerAfterConsole up to the enumeration of the boot options.
  unfoldable pub enumerate_options : S → S
  enumerate_options s0 =
      let s1 = services.enable_logo s0 in
      let s2 =
        if ltb 0 (length services.version_string)
        then services.print s1 (firmware_version services.version_string)
        else s1 in
      let s3 = services.print s2 (press_escape services.boot_time_out) in
      let s4 = services.connect_all s3 in services.refresh_all_boot_option s4

  -- PlatformBootManagerAfterConsole
  unfoldable pub platform_boot_manager_after_console : BootManager S → ℕ → S → S
  platform_boot_manager_after_console manager shell_guid s0 =
      let s5 = enumerate_options s0 in
      let s6 = update_boot_options manager shell_guid s5 in services.register_print_screen s6

  -- Registering the key for screen shots leaves the boot options.
  pub record KeepsOptions (manager : BootManager S) : Type 0 where
    pub keeps :
        (s : S) → manager.load_options (services.register_print_screen s) ≡ manager.load_options s

  -- Behind PlatformBootManagerAfterConsole, where UefiBootManagerLib is as documented and the key for
  -- screen shots leaves the boot options, these are those that its enumeration found, with the shell
  -- behind them, active and under a free number, where it was not listed, without those whose number is that of a stale option:
  -- one that starts with a firmware volume or mapped memory, goes on with a file in it, and whose volume
  -- is not found or does not yield the file. The others keep their order.
  pub after_console_options :
      (manager : BootManager S) (free_number : S → ℕ) (shell_guid : ℕ) (s : S)
      → IsDocumented manager free_number
      → KeepsOptions manager
      → let found = enumerate_options s in
        let shell =
          manager.initialize_load_option found 0x10000 1 (codes "EFI Internal Shell") shell_guid in
        let options = registered manager shell (free_number found) (manager.load_options found) in
        manager.load_options (platform_boot_manager_after_console manager shell_guid s)
        ≡ filter (λ x. is_kept manager options x.number) options
  unfolding platform_boot_manager_after_console
  after_console_options manager free_number shell_guid s doc keep =
      keep.keeps (update_boot_options manager shell_guid (enumerate_options s))
      ∙ update_boot_options_lem manager free_number doc shell_guid (enumerate_options s)
