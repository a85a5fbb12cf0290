-- ===== src/Sec/Stack.antt =====
-- The temporary memory between SecEntry.S and SecPEIlessStartup of PlatformSecLib.c.
use edk2_uemu.Common.{ℕ, ◌+◌, ◌*◌, ◌^◌, ◌≤◌, ◌<◌, ◌≡◌, refl, arith}
use edk2_uemu.Sec.{Pcd}
use edk2_uemu.Sec.Startup.{
  sec_handoff_data_reserve_size, sec_stack_size, get_sec_hob_data, sec_peiless_startup,
  sec_startup_platform, module_entry_point,
}

-- The temporary memory lies below 2^32 and holds the hand-off data twice and the stack.
abbrev pub HasRoom : Pcd → Type 0
HasRoom pcd =
    (pcd.temp_ram_base + pcd.temp_ram_size < 2 ^ 32)
    × (2 * sec_handoff_data_reserve_size + sec_stack_size ≤ pcd.temp_ram_size)

-- In a temporary memory with room, the stack pointer starts where the hand-off data does, so that the
-- stack grows away from it; the hand-off data keeps the hart and the device tree; and the memory and
-- the stack that SecPEIlessStartup declares both end 4 KB below the stack pointer, where the heap's
-- end is 16 KB lower: the reserve is subtracted once by SecEntry.S and again by SecStartupPlatform.
pub module_entry_point_stack :
    (pcd : Pcd) (boot_hart_id device_tree_address : ℕ)
    → HasRoom pcd
    → let (sp, handoff, ram) = module_entry_point pcd boot_hart_id device_tree_address in
      (sp ≡ get_sec_hob_data pcd)
      × (handoff.boot_hart_id ≡ boot_hart_id)
      × (handoff.fdt_pointer ≡ device_tree_address)
      × (ram.memory_begin ≡ pcd.temp_ram_base)
      × (ram.memory_begin + ram.memory_length + 4096 ≡ sp)
      × (ram.stack_base + ram.stack_size + 4096 ≡ sp)
      × (ram.hob_end + sec_stack_size + 4096 ≡ sp)
unfolding module_entry_point sec_startup_platform sec_peiless_startup get_sec_hob_data
module_entry_point_stack pcd boot_hart_id device_tree_address (below, room) =
    (omega arith, refl, refl, refl, omega arith, omega arith, omega arith)
