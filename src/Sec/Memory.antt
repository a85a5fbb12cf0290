-- ===== src/Sec/Memory.antt =====
-- UemuPkg/Library/PlatformSecLib/Memory.c: the memory map from the device tree. `none` is fuel that
-- ran out, or a read outside a property.
use edk2_uemu.Common.{
  ℕ, zero, suc, ◌+◌, ◌-◌, Bool, true, false, not, ◌&&◌, Option, none, some, List, [], ◌∷◌, ◌++◌,
  leb, ◌==◌, if◌then◌else◌, u64, sub64, max_uint64,
}
use edk2_uemu.Common.Int.{ℤ, pos, to_unsigned, is_negative, is_equal}
use edk2_uemu.Efi.{ok, err, fault}
use edk2_uemu.Text.{codes, ascii_str_eq}
use edk2_uemu.Fdt.{Platform, uemu_fdt_get_reg}
use edk2_uemu.Sec.{
  MemoryType, reserved, boot_services_data, acpi_reclaim, acpi_nvs, runtime_services_data,
  runtime_services_code, max_memory_type, SecHob, system_memory, allocation, memory_types, Libfdt,
  Pcd,
}

-- BuildMemoryTypeHob
unfoldable pub build_memory_type_hob : Pcd → SecHob
build_memory_type_hob pcd = memory_types (
    (acpi_reclaim, pcd.acpi_reclaim_pages)
    ∷ (acpi_nvs, pcd.acpi_nvs_pages)
    ∷ (reserved, pcd.reserved_pages)
    ∷ (runtime_services_data, pcd.runtime_data_pages)
    ∷ (runtime_services_code, pcd.runtime_code_pages)
    ∷ (max_memory_type, 0)
    ∷ [])

-- AddMemoryRangeHob over AddMemoryBaseSizeHob: the size is the difference of the addresses.
unfoldable pub add_memory_range_hob : ℕ → ℕ → SecHob
add_memory_range_hob base limit = system_memory base (sub64 limit base)

-- InitializeRamRegions
unfoldable pub initialize_ram_regions : ℕ → ℕ → SecHob
unfolding add_memory_range_hob
initialize_ram_regions base size = add_memory_range_hob base (u64 (base + size))

-- `for (Index = 0; ; Index++)` over the tuples of `reg`, which ends at the first that UemuFdtGetReg
-- refuses, with the HOB that its body builds for a tuple.
unfoldable pub reg_loop :
    Platform → ℕ → ℤ → (ℕ → ℕ → SecHob) → ℕ → ℕ → List SecHob → Option (List SecHob)
reg_loop p fdt node hob zero index hobs = none
reg_loop p fdt node hob (suc fuel) index hobs = elim (uemu_fdt_get_reg p fdt node index 1 1) [
  | ok (base, size) ↦ reg_loop p fdt node hob fuel (index + 1) (hobs ++ hob base size ∷ [])
  | err status ↦ some hobs
  | fault ↦ none
]

-- (Type != NULL) && (Len == sizeof ("memory")) && (AsciiStrCmp (Type, "memory") == 0)
unfoldable pub is_memory : Platform → ℕ → ℤ → Bool
is_memory p fdt node = elim (p.get_prop fdt node (codes "device_type")) [
  | none ↦ false
  | some type ↦ is_equal type.len 7 && ascii_str_eq type.bytes (codes "memory")
]

-- The body of the loop over the nodes.
unfoldable pub node_hobs : Platform → ℕ → ℕ → ℤ → List SecHob → Option (List SecHob)
node_hobs p fuel fdt node hobs =
    if is_memory p fdt node
    then reg_loop p fdt node initialize_ram_regions fuel 0 hobs
    else some hobs

-- `for (Prev = 0; ; Prev = Node)`, with one fuel for its rounds and one for those of the inner loop.
unfoldable pub memory_loop : Platform → Libfdt → ℕ → ℕ → ℕ → ℤ → List SecHob → Option (List SecHob)
memory_loop p lib regs fdt zero prev hobs = none
memory_loop p lib regs fdt (suc fuel) prev hobs = elim (is_negative (lib.next_node fdt prev)) [
  | true ↦ some hobs
  | false ↦ elim (node_hobs p regs fdt (lib.next_node fdt prev) hobs) [
    | none ↦ none
    | some next ↦ memory_loop p lib regs fdt fuel (lib.next_node fdt prev) next
  ]
]

-- The HOB of a reserve map entry that is not empty and does not pass 2^64.
unfoldable pub entry_hobs : Option (ℕ × ℕ) → List SecHob
entry_hobs none = []
entry_hobs (some (addr, size)) =
    if not (size == 0) && leb addr (max_uint64 - size)
    then allocation addr size reserved ∷ []
    else []

-- The loop over the reserve map, by the entries left.
unfoldable pub reserve_loop : Libfdt → ℕ → ℕ → ℕ → List SecHob → List SecHob
reserve_loop lib fdt zero i hobs = hobs
reserve_loop lib fdt (suc left) i hobs =
    reserve_loop lib fdt left (i + 1) (hobs ++ entry_hobs (lib.reserve_map_entry fdt i))

-- The memory type of the ranges of a reserved-memory node.
unfoldable pub reserved_type : Platform → ℕ → ℤ → MemoryType
reserved_type p fdt node = elim (p.get_prop fdt node (codes "no-map")) [
  | none ↦ boot_services_data
  | some no_map ↦ reserved
]

-- FdtForEachSubnode, with one fuel for its rounds and one for those of the inner loop.
unfoldable pub subnode_loop : Platform → Libfdt → ℕ → ℕ → ℕ → ℤ → List SecHob → Option (List SecHob)
subnode_loop p lib regs fdt zero sub hobs = none
subnode_loop p lib regs fdt (suc fuel) sub hobs = elim (is_negative sub) [
  | true ↦ some hobs
  | false ↦
      elim (reg_loop p fdt sub (λ addr size. allocation addr size (reserved_type p fdt sub)) regs 0
        hobs) [
          | none ↦ none
          | some next ↦ subnode_loop p lib regs fdt fuel (lib.next_subnode fdt sub) next
        ]
]

-- AddReservedMemoryMap
unfoldable pub add_reserved_memory_map :
    Platform → Libfdt → ℕ → ℕ → List SecHob → Option (List SecHob)
add_reserved_memory_map p lib fuel fdt hobs =
    let entries = reserve_loop lib fdt (to_unsigned (lib.reserve_map_entries fdt)) 0 hobs in
    let node = lib.subnode_offset fdt (pos 0) (codes "reserved-memory") in
    if is_negative node
    then some entries
    else subnode_loop p lib fuel fdt fuel (lib.first_subnode fdt node) entries

-- MemoryInitialization, which returns EFI_SUCCESS.
unfoldable pub memory_initialization :
    Platform → Libfdt → Pcd → ℕ → ℕ → List SecHob → Option (List SecHob)
memory_initialization p lib pcd fuel fdt hobs =
    elim (memory_loop p lib fuel fdt fuel (pos 0) hobs) [
      | none ↦ none
      | some system ↦ elim (add_reserved_memory_map p lib fuel fdt system) [
        | none ↦ none
        | some all ↦ some (all ++ build_memory_type_hob pcd ∷ [])
      ]
    ]
