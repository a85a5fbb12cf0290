-- ===== src/Sec/Startup.antt =====
-- UemuPkg/Library/PlatformSecLib/SecEntry.S, PlatformSecLib.c and Cpu.c: from the entry of the
-- firmware to the HOBs of the PEI-less boot. What follows, the DXE core and its volume, is not code of
-- this repository. `none` is fuel that ran out, or a read outside a property.
use edk2_uemu.Common.{ℕ, ◌+◌, ◌-◌, ◌%◌, ◌^◌, Option, none, some, List, [], ◌∷◌, ◌++◌, u32, sub64}
use edk2_uemu.Fdt.{Platform}
use edk2_uemu.Sec.{SecHob, cpu, sec_handoff, stack, Libfdt, PrePi, Pcd}
use edk2_uemu.Sec.Memory.{memory_initialization}
use edk2_uemu.Sec.Io.{platform_initialization}

-- SEC_HANDOFF_DATA_RESERVE_SIZE and the SecStackSize of SecPEIlessStartup
abbrev pub sec_handoff_data_reserve_size : ℕ
sec_handoff_data_reserve_size = 0x1000

abbrev pub sec_stack_size : ℕ
sec_stack_size = 0x4000

-- UINT32 a - b, which wraps.
abbrev pub sub32 : ℕ → ℕ → ℕ
sub32 a b = (a + 2 ^ 32 - b) % 2 ^ 32

-- GetSecHobData: the address of the hand-off data.
unfoldable pub get_sec_hob_data : Pcd → ℕ
get_sec_hob_data pcd =
    sub32 (u32 (pcd.temp_ram_base + pcd.temp_ram_size)) sec_handoff_data_reserve_size

-- RISCV_SEC_HANDOFF_DATA
pub record SecHandoffData : Type 0 where
  pub boot_hart_id : ℕ
  pub fdt_pointer : ℕ

-- The temporary memory as SecPEIlessStartup declares it: to HobConstructor, and by BuildStackHob.
pub record TempRam : Type 0 where
  pub memory_begin : ℕ
  pub memory_length : ℕ
  pub hob_end : ℕ
  pub stack_base : ℕ
  pub stack_size : ℕ

-- CpuInitialization
unfoldable pub cpu_initialization : List SecHob → List SecHob
cpu_initialization hobs = hobs ++ cpu 56 32 ∷ []

-- SecPlatformMain without SecCoreData, as SecPEIlessStartup calls it. The status of
-- PlatformInitialization is dropped.
unfoldable pub sec_platform_main :
    Platform → Libfdt → PrePi → Pcd → ℕ → SecHandoffData → List SecHob → Option (List SecHob)
sec_platform_main p lib pre pcd fuel handoff hobs =
    elim (memory_initialization p lib pcd fuel handoff.fdt_pointer hobs) [
      | none ↦ none
      | some memory ↦
          elim (platform_initialization p lib pre fuel handoff.fdt_pointer
            (cpu_initialization memory)) [
              | none ↦ none
              | some (status, all) ↦
                  some (all ++ sec_handoff handoff.boot_hart_id handoff.fdt_pointer ∷ [])
            ]
    ]

-- The start of SecPEIlessStartup.
unfoldable pub sec_peiless_startup : ℕ → ℕ → TempRam
sec_peiless_startup size_of_ram temp_ram_base =
    let stack_base = sub64 (u32 (temp_ram_base + size_of_ram)) sec_stack_size in
    record {
      memory_begin = temp_ram_base;
      memory_length = size_of_ram;
      hob_end = stack_base;
      stack_base = stack_base;
      stack_size = sec_stack_size;
    }

-- SecStartupPlatform: the hand-off data that it stores, and the start of SecPEIlessStartup.
unfoldable pub sec_startup_platform : ℕ → ℕ → ℕ → ℕ → SecHandoffData × TempRam
unfolding sec_peiless_startup
sec_startup_platform boot_hart_id device_tree_address temp_ram_base temp_ram_size = (
  record { boot_hart_id = boot_hart_id; fdt_pointer = device_tree_address },
  sec_peiless_startup (sub32 temp_ram_size sec_handoff_data_reserve_size) temp_ram_base,
)

-- _ModuleEntryPoint: the stack pointer, and the call of SecStartupPlatform.
unfoldable pub module_entry_point : Pcd → ℕ → ℕ → ℕ × SecHandoffData × TempRam
unfolding sec_startup_platform
module_entry_point pcd boot_hart_id device_tree_address =
    let size = pcd.temp_ram_size - sec_handoff_data_reserve_size in
    let (handoff, temp_ram) =
      sec_startup_platform boot_hart_id device_tree_address pcd.temp_ram_base size in
    (pcd.temp_ram_base + size, handoff, temp_ram)

-- The HOBs behind those of HobConstructor: of the stack, and of SecPlatformMain.
unfoldable pub startup_hobs : Platform → Libfdt → PrePi → Pcd → ℕ → ℕ → ℕ → Option (List SecHob)
startup_hobs p lib pre pcd fuel boot_hart_id device_tree_address =
    let (sp, handoff, temp_ram) = module_entry_point pcd boot_hart_id device_tree_address in
    sec_platform_main p lib pre pcd fuel handoff
      (stack temp_ram.stack_base temp_ram.stack_size ∷ [])
