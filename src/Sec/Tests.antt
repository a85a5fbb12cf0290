-- ===== src/Sec/Tests.antt =====
-- Runs of the security phase library on a small platform, and the witnesses of its theorems.
use edk2_uemu.Common.{ℕ, ◌+◌, ◌≤◌, ◌++◌, ◌≡◌, refl, true, none, some, List, [], ◌∷◌, arith, length}
use edk2_uemu.Text.{codes}
use edk2_uemu.Fdt.{Platform}
use edk2_uemu.Fdt.Reg.{HasLengths}
use edk2_uemu.Sec.{
  SecHob, sec_handoff, system_memory, allocation, memory_types, reserved, boot_services_data,
  acpi_reclaim, acpi_nvs, runtime_services_data, runtime_services_code, max_memory_type,
}
use edk2_uemu.Sec.Memory.{memory_initialization}
use edk2_uemu.Sec.Io.{populate_io_resources}
use edk2_uemu.Sec.Ranges.{tuples}
use edk2_uemu.Fdt.{uemu_fdt_get_reg, uemu_fdt_get, reg_tuple, decode_cells, decode_loop, read_cell}
use edk2_uemu.Efi.{ok, success}
use edk2_uemu.Sec.Map.{memory_initialization_map}
use edk2_uemu.Sec.Resources.{
  HasRange, IsMapped, io_of, populate_io_resources-IsMapped, populate_io_resources_stuck,
}
use edk2_uemu.Sec.Stack.{module_entry_point_stack}
use edk2_uemu.Sec.Startup.{
  startup_hobs, module_entry_point, get_sec_hob_data, sec_stack_size, sec_handoff_data_reserve_size,
}
use edk2_uemu.Sec.Handoff.{with_hobs, startup_hobs_hands_over}
use edk2_uemu.Sec.Core.{
  DxeLoader, KeepsFdt, sec_platform_ppis, start_firmware, start_firmware_lem, ppi_sec_hob_data,
}
use edk2_uemu.Sec.Ppi.{
  Guid, SecHoblistData, store_handoff, riscv_sec_get_hob_data, hoblist_bytes, walk_hobs,
  HoldsHandoff, hand_off-agree,
}
use edk2_uemu.Sec.Sample.{
  board_prop, broken_next, board, board-HasLengths, board-IsDocumented, libfdt, pre_pi, pcds,
  board-HasNodes, board-HasDevices,
}

-- The HOB of the memory types.
abbrev types : SecHob
types = memory_types (
    (acpi_reclaim, 0)
    ∷ (acpi_nvs, 0)
    ∷ (reserved, 16)
    ∷ (runtime_services_data, 256)
    ∷ (runtime_services_code, 256)
    ∷ (max_memory_type, 0)
    ∷ [])

memory_initialization_map_example :
    memory_initialization board libfdt pcds 20 0x82000000 []
    ≡ some (
        system_memory 0x10000000 0x1000
        ∷ allocation 0x80000000 0x40000 reserved
        ∷ allocation 0x10000000 0x1000 boot_services_data
        ∷ types
        ∷ [])
unfolding board_prop tuples uemu_fdt_get_reg reg_tuple decode_cells decode_loop read_cell
memory_initialization_map_example =
    memory_initialization_map board libfdt pcds 20 0x82000000 (8 ∷ 40 ∷ []) (48 ∷ []) []
      board-HasLengths board-IsDocumented.swaps board-HasNodes

board_range : HasRange board 0x82000000 8 0x10000000 0x1000
unfolding board_prop uemu_fdt_get_reg reg_tuple decode_cells decode_loop read_cell
board_range = (refl, omega arith)

populate_io_resources-IsMapped_example : IsMapped (io_of board 0x82000000 8) 0x10000000 0x1000
populate_io_resources-IsMapped_example =
    (populate_io_resources-IsMapped board 20 0x82000000 (codes "ns16550a") (8 ∷ 40 ∷ []) []
        board-IsDocumented (refl, (refl, refl)) (omega arith)).1
      8 0x10000000 0x1000 board_range

-- Behind node 8 the structure of the tree is broken: -FDT_ERR_BADSTRUCTURE.
abbrev broken : Platform
broken = record board { node_offset_by_compatible = λ fdt node compatible. broken_next node }

broken-HasLengths : HasLengths broken
broken-HasLengths = record { has_length = board-HasLengths.has_length }

populate_io_resources_stuck_example :
    populate_io_resources broken 1000 0x82000000 (codes "ns16550a") [] ≡ none
populate_io_resources_stuck_example =
    populate_io_resources_stuck broken 1000 0x82000000 (codes "ns16550a") 9 (8 ∷ []) []
      broken-HasLengths (λ k. refl) (refl, refl)

module_entry_point_stack_example :
    let (sp, handoff, ram) = module_entry_point pcds 0 0x82000000 in
    (sp ≡ get_sec_hob_data pcds)
    × (handoff.boot_hart_id ≡ 0)
    × (handoff.fdt_pointer ≡ 0x82000000)
    × (ram.memory_begin ≡ 0x83f00000)
    × (ram.memory_begin + ram.memory_length + 4096 ≡ sp)
    × (ram.stack_base + ram.stack_size + 4096 ≡ sp)
    × (ram.hob_end + sec_stack_size + 4096 ≡ sp)
module_entry_point_stack_example =
    module_entry_point_stack pcds 0 0x82000000 (omega arith, omega arith)

-- A loader whose state is the HOB list, and whose libraries build a HOB in front.
abbrev dxe_loader : DxeLoader (List SecHob)
dxe_loader = record {
  initialize_floating_point_units = λ hobs. hobs;
  initialize_cpu_exception_handlers = λ hobs. hobs;
  build_hobs = λ hobs old. hobs;
  process_library_constructor_list = λ hobs. allocation 0x1000 1 reserved ∷ hobs;
  ffs_find_next_file = λ volume hobs. some volume;
  ffs_process_fv_file = λ file hobs. allocation file 16 boot_services_data ∷ hobs;
  load_dxe_core_from_fv = λ hobs. hobs;
}

dxe_loader-KeepsFdt : KeepsFdt dxe_loader (λ hobs. hobs)
dxe_loader-KeepsFdt = record {
  built = λ hobs s. refl;
  constructed = λ s. refl;
  processed = λ file s. refl;
}

start_firmware_lem_example :
    (ready : List SecHob) × (start_firmware dxe_loader board libfdt pre_pi pcds 20 0 0x82000000 9 []
      ≡ some ready)
    × (uemu_fdt_get (with_hobs board ready) 1 ≡ ok 0x90000000)
start_firmware_lem_example =
    start_firmware_lem dxe_loader board libfdt pre_pi pcds 20 0 0x82000000 (8 ∷ 40 ∷ []) (48 ∷ []) 9
      [] (λ hobs. hobs) board-IsDocumented board-HasNodes board-HasDevices dxe_loader-KeepsFdt

pei_boot_runs :
    sec_platform_ppis true board libfdt pre_pi pcds 20
      (record { boot_hart_id = 0; fdt_pointer = 0x82000000 })
      []
    ≡ some ([], some ppi_sec_hob_data)
unfolding sec_platform_ppis
pei_boot_runs = refl

-- Temporary memory that held something else.
abbrev stale : SecHoblistData
stale = record {
  header = record { hob_type = 1; hob_length = 2; reserved = 3 };
  name = record { low = 4; high = 5 };
  sec_handoff_data = record { boot_hart_id = 6; fdt_pointer = 7 };
  hob_end = record { hob_type = 8; hob_length = 9; reserved = 10 };
}

board_starts :
    (hobs : List SecHob) × (startup_hobs board libfdt pre_pi pcds 20 0 0x82000000 ≡ some hobs)
board_starts =
    let (hobs, ends, found) =
      startup_hobs_hands_over board libfdt pre_pi pcds 20 0 0x82000000 (8 ∷ 40 ∷ []) (48 ∷ [])
        board-IsDocumented board-HasNodes board-HasDevices in
    (hobs, ends)

hand_off-agree_example :
    let all = board_starts.0 in
    let name : Guid = record { low = 11; high = 12 } in
    let handoff = (module_entry_point pcds 0 0x82000000).1 in
    let (status, given) = riscv_sec_get_hob_data name (store_handoff handoff stale) in
    (hob : ℕ × List ℕ) × (before : List SecHob) × (status ≡ success)
    × (walk_hobs 2 (hoblist_bytes given ++ 0xff ∷ []) ≡ some (hob ∷ []))
    × HoldsHandoff hob name (record { boot_hart_id = 0; fdt_pointer = 0x82000000 })
    × (length (hoblist_bytes given) ≤ sec_handoff_data_reserve_size)
    × (all ≡ before ++ sec_handoff 0 0x82000000 ∷ [])
hand_off-agree_example =
    hand_off-agree board libfdt pre_pi pcds 20 0 0x82000000 (record { low = 11; high = 12 }) stale
      (0xff ∷ []) (omega arith) board_starts.1
