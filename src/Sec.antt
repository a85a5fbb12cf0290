-- ===== src/Sec.antt =====
-- UemuPkg/Library/PlatformSecLib: what the security phase hands over to the DXE phase, as the list of
-- the HOBs that it builds, in their order. HobLib, libfdt and the memory services are arguments.
pub mod Memory
pub mod Io
pub mod Startup
pub mod Ranges
pub mod Walk
pub mod Map
pub mod Resources
pub mod FirstHob
pub mod Devices
pub mod Handoff
pub mod Stack
pub mod Ppi
pub mod Core
pub mod Sample
mod Tests
use edk2_uemu.Common.{ℕ, Option, Bool, List}
use edk2_uemu.Common.Int.{ℤ}
use edk2_uemu.Text.{Text}

-- EFI_MEMORY_TYPE, as far as the library uses it.
pub data MemoryType : Type 0 where
  reserved boot_services_data acpi_reclaim acpi_nvs : MemoryType
  runtime_services_data runtime_services_code max_memory_type : MemoryType

-- The HOBs: a resource descriptor of system memory or of memory-mapped I/O, a memory allocation, the
-- memory type information, the CPU's address widths, the address of the device tree, the hand-off
-- data and the stack.
pub data SecHob : Type 0 where
  system_memory : ℕ → ℕ → SecHob
  mapped_io : ℕ → ℕ → SecHob
  allocation : ℕ → ℕ → MemoryType → SecHob
  memory_types : List (MemoryType × ℕ) → SecHob
  cpu : ℕ → ℕ → SecHob
  fdt_pointer : ℕ → SecHob
  sec_handoff : ℕ → ℕ → SecHob
  stack : ℕ → ℕ → SecHob

-- What the library asks libfdt beside what Fdt.Platform holds. A reserve map entry that libfdt fails
-- to read is `none`.
pub record Libfdt : Type 0 where
  pub next_node : ℕ → ℤ → ℤ
  pub reserve_map_entries : ℕ → ℤ
  pub reserve_map_entry : ℕ → ℕ → Option (ℕ × ℕ)
  pub subnode_offset : ℕ → ℤ → Text → ℤ
  pub first_subnode : ℕ → ℤ → ℤ
  pub next_subnode : ℕ → ℤ → ℤ
  pub total_size : ℕ → ℕ

-- AllocatePages, and whether BuildGuidHob finds room.
pub record PrePi : Type 0 where
  pub allocate_pages : ℕ → Option ℕ
  pub has_hob_room : Bool

-- The PCDs, which the build sets: the pages of the memory types, and the temporary memory.
pub record Pcd : Type 0 where
  pub acpi_reclaim_pages : ℕ
  pub acpi_nvs_pages : ℕ
  pub reserved_pages : ℕ
  pub runtime_data_pages : ℕ
  pub runtime_code_pages : ℕ
  pub temp_ram_base : ℕ
  pub temp_ram_size : ℕ
