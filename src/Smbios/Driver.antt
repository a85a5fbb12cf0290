-- ===== src/Smbios/Driver.antt =====
-- The entry point of PlatformSmbiosDxe.c.
use edk2_uemu.Common.{ℕ, Option, none, some, List, [], u16}
use edk2_uemu.Efi.{Status, Result, ok, ◌>>=◌, success}
use edk2_uemu.Text.{Text, codes}
use edk2_uemu.Fdt.{Platform}
use edk2_uemu.Sec.{Libfdt}
use edk2_uemu.Smbios.Template.{
  bios_info, system_info, enclosure_info, board_info, oem_strings, memory_array, boot_info,
}
use edk2_uemu.Smbios.{Environment, Names, log_structure, update_emulator_version}
use edk2_uemu.Smbios.Cpu.{Counters, log_cpu_info}
use edk2_uemu.Smbios.Memory.{MemoryNode, log_memory_info}

-- What LogSmbiosData leaves in SmbiosHandle, which it stores only on success.
abbrev pub stored : ℕ → Option ℕ → ℕ
stored old none = old
stored old (some handle) = handle

-- PlatformSmbiosDriverEntryPoint. SmbiosHandle starts with whatever is on the stack.
unfoldable pub platform_smbios_driver_entry_point :
    Platform
    → Libfdt
    → Environment
    → Counters
    → List (Option (Text × ℕ))
    → List MemoryNode
    → ℕ
    → Result (Status × List (List ℕ))
platform_smbios_driver_entry_point p lib env counters cpus nodes on_stack = do
  version ← update_emulator_version p
  let names : Names = record { version_name = version; processor_version = codes "rv64imafdc" }
  bios ← log_structure env names bios_info []
  system ← log_structure env names system_info bios.2
  enclosure ← log_structure env names enclosure_info system.2
  let chassis = stored on_stack enclosure.1
  board ← log_structure env names (board_info (u16 chassis)) enclosure.2
  oem ← log_structure env names oem_strings board.2
  array ← log_structure env names memory_array oem.2
  let handle = stored chassis array.1
  processor ← log_cpu_info p lib env counters cpus names array.2
  memory ← log_memory_info env processor.0 handle nodes processor.1
  boot ← log_structure env processor.0 boot_info memory
  ok (success, boot.2)
