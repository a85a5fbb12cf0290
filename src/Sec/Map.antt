-- ===== src/Sec/Map.antt =====
-- The memory map that MemoryInitialization of Memory.c builds, against the nodes of the device tree.
use edk2_uemu.Common.{
  ℕ, ◌+◌, ◌^◌, ◌<◌, ◌≡◌, refl, Bool, true, false, ◌&&◌, Option, none, some, List, [], ◌∷◌, ◌++◌,
  map, inl, inr, length, arith, if◌then◌else◌, ◌∙◌, ap, ◌==◌, ltb, Option-cases,
}
use mathlib.Core.List.{append_assoc}
use edk2_uemu.Common.Int.{ℤ, pos, to_unsigned, is_equal}
use edk2_uemu.Text.{codes, ascii_str_eq}
use edk2_uemu.Fdt.{Platform}
use edk2_uemu.Fdt.Cells.{SwapsBytes}
use edk2_uemu.Fdt.Reg.{HasLengths, reg_bytes}
use edk2_uemu.Sec.{
  MemoryType, reserved, boot_services_data, acpi_reclaim, acpi_nvs, runtime_services_data,
  runtime_services_code, max_memory_type, SecHob, system_memory, allocation, memory_types, Libfdt,
  Pcd,
}
use edk2_uemu.Sec.Memory.{
  build_memory_type_hob, is_memory, entry_hobs, reserved_type, memory_initialization,
}
use edk2_uemu.Sec.Ranges.{ranges, collect}
use edk2_uemu.Sec.Walk.{
  Walks, Reserves, counting, built_memory, built_entries, built_reserved, memory_loop_lem,
  reserved_memory_lem,
}

abbrev same_bytes : List ℕ → List ℕ → Bool
same_bytes [] [] = true
same_bytes [] (b ∷ bs) = false
same_bytes (a ∷ others) [] = false
same_bytes (a ∷ others) (b ∷ bs) = a == b && same_bytes others bs

-- The property `device_type` of the node is "memory" and a NUL.
abbrev pub is_memory_node : Platform → ℕ → ℕ → Bool
is_memory_node p fdt n = elim (p.get_prop fdt (pos n) (codes "device_type")) [
  | none ↦ false
  | some type ↦ same_bytes type.bytes (109 ∷ 101 ∷ 109 ∷ 111 ∷ 114 ∷ 121 ∷ 0 ∷ [])
]

-- The system memory of a node.
abbrev pub memory_of : Platform → ℕ → ℕ → List SecHob
memory_of p fdt n =
    if is_memory_node p fdt n then map (λ r. system_memory r.0 r.1) (ranges p fdt (pos n)) else []

-- The allocation of a reserve map entry that is not empty and does not pass 2^64.
abbrev pub reserved_entry : Option (ℕ × ℕ) → List SecHob
reserved_entry none = []
reserved_entry (some (addr, size)) =
    if ltb 0 size && ltb (addr + size) (2 ^ 64) then allocation addr size reserved ∷ [] else []

-- The allocations of the reserve map.
abbrev pub reserve_map : Libfdt → ℕ → List SecHob
reserve_map lib fdt =
    collect (λ k. reserved_entry (lib.reserve_map_entry fdt k))
      (counting (to_unsigned (lib.reserve_map_entries fdt)) 0)

-- Reserved memory with "no-map", and boot services data without.
abbrev pub type_of_node : Platform → ℕ → ℕ → MemoryType
type_of_node p fdt n = elim (p.get_prop fdt (pos n) (codes "no-map")) [
  | none ↦ boot_services_data
  | some no_map ↦ reserved
]

-- The allocations of a node of /reserved-memory.
abbrev pub reserved_of : Platform → ℕ → ℕ → List SecHob
reserved_of p fdt n = map (λ r. allocation r.0 r.1 (type_of_node p fdt n)) (ranges p fdt (pos n))

-- The pages of the memory types as the build sets them, up to the entry that ends the list.
abbrev pub type_information : Pcd → SecHob
type_information pcd = memory_types (
    (acpi_reclaim, pcd.acpi_reclaim_pages)
    ∷ (acpi_nvs, pcd.acpi_nvs_pages)
    ∷ (reserved, pcd.reserved_pages)
    ∷ (runtime_services_data, pcd.runtime_data_pages)
    ∷ (runtime_services_code, pcd.runtime_code_pages)
    ∷ (max_memory_type, 0)
    ∷ [])

collect_same :
    (f g : ℕ → List SecHob) (ns : List ℕ) → ((n : ℕ) → f n ≡ g n) → collect f ns ≡ collect g ns
collect_same f g [] same = refl
collect_same f g (n ∷ ns) same = rw (same n, collect_same f g ns same) refl

-- The test of the source on the bytes of a property with its own length.
is_memory_bytes :
    (bytes : List ℕ)
    → (is_equal (pos (length bytes)) 7 && ascii_str_eq bytes (codes "memory"))
      ≡ same_bytes bytes (109 ∷ 101 ∷ 109 ∷ 111 ∷ 114 ∷ 121 ∷ 0 ∷ [])
unfolding ascii_str_eq
is_memory_bytes [] = refl
is_memory_bytes (a ∷ []) = ground arith
is_memory_bytes (a ∷ b ∷ []) = ground arith
is_memory_bytes (a ∷ b ∷ c ∷ []) = ground arith
is_memory_bytes (a ∷ b ∷ c ∷ d ∷ []) = ground arith
is_memory_bytes (a ∷ b ∷ c ∷ d ∷ e ∷ []) = ground arith
is_memory_bytes (a ∷ b ∷ c ∷ d ∷ e ∷ f ∷ []) = ground arith
is_memory_bytes (a ∷ b ∷ c ∷ d ∷ e ∷ f ∷ g ∷ []) = ground arith
is_memory_bytes (a ∷ b ∷ c ∷ d ∷ e ∷ f ∷ g ∷ h ∷ more) = ground arith

built_memory_lem :
    (p : Platform) (fdt n : ℕ) → HasLengths p → built_memory p fdt n ≡ memory_of p fdt n
unfolding is_memory
built_memory_lem p fdt n l = elim (Option-cases (p.get_prop fdt (pos n) (codes "device_type"))) [
  | inl e ↦ rw (is_memory, is_memory_node, e) refl
  | inr (type, e) ↦
      let sized = (l.has_length fdt (pos n) (codes "device_type") e).0 in
      rw (is_memory, is_memory_node, e, sized, is_memory_bytes type.bytes) refl
]

built_reserved_lem : (p : Platform) (fdt n : ℕ) → built_reserved p fdt n ≡ reserved_of p fdt n
unfolding reserved_type
built_reserved_lem p fdt n = refl

entry_hobs_lem :
    (entry : Option (ℕ × ℕ))
    → ((addr size : ℕ) → entry ≡ some (addr, size) → size < 2 ^ 64)
    → entry_hobs entry ≡ reserved_entry entry
unfolding entry_hobs
entry_hobs_lem none wide = refl
entry_hobs_lem (some (addr, size)) wide =
    let small : size < 2 ^ 64 = wide addr size refl in ground (arith, small)

-- What libfdt finds in the device tree: its nodes in their order, those of /reserved-memory, and sizes of
-- 64 bits in the reserve map.
pub record HasNodes (p : Platform) (lib : Libfdt) (fdt fuel : ℕ) (nodes children : List ℕ)
    : Type 0 where
  pub walks : Walks lib fdt (pos 0) nodes
  pub reserves :
      Reserves lib fdt (lib.subnode_offset fdt (pos 0) (codes "reserved-memory")) children
  pub wide_entries :
      (i : ℕ) {addr size : ℕ} → lib.reserve_map_entry fdt i ≡ some (addr, size) → size < 2 ^ 64
  pub enough_nodes : length nodes < fuel
  pub enough_children : length children < fuel
  pub enough_tuples : (node : ℤ) → reg_bytes p fdt node < fuel

-- The HOBs that describe the memory of the platform.
abbrev pub memory_map : Platform → Libfdt → Pcd → ℕ → List ℕ → List ℕ → List SecHob
memory_map p lib pcd fdt nodes children =
    collect (memory_of p fdt) nodes
    ++ reserve_map lib fdt
    ++ collect (reserved_of p fdt) children
    ++ type_information pcd ∷ []

-- With more fuel than the tree has nodes and any `reg` has bytes, MemoryInitialization ends, and the
-- HOBs that it adds are the memory map of the tree: in the order of the nodes, of every node whose
-- `device_type` is "memory", the ranges up to the first that UemuFdtGetReg refuses, as system memory
-- with their bases and sizes; then the entries of the reserve map that are not empty and do not pass
-- 2^64; then of every node of /reserved-memory the ranges up to the first that UemuFdtGetReg refuses,
-- as reserved memory where the node has "no-map" and as boot services data elsewhere; then the pages of
-- the memory types.
pub memory_initialization_map :
    (p : Platform) (lib : Libfdt) (pcd : Pcd) (fuel fdt : ℕ) (nodes children : List ℕ)
    (hobs : List SecHob)
    → HasLengths p
    → SwapsBytes p
    → HasNodes p lib fdt fuel nodes children
    → memory_initialization p lib pcd fuel fdt hobs
      ≡ some (hobs ++ memory_map p lib pcd fdt nodes children)
unfolding memory_initialization build_memory_type_hob
memory_initialization_map p lib pcd fuel fdt nodes children hobs l s has =
    let system = collect (memory_of p fdt) nodes in
    let reserves = collect (reserved_of p fdt) children in
    let entries = reserve_map lib fdt in
    let types = type_information pcd ∷ [] in
    let same_system =
      collect_same (built_memory p fdt) (memory_of p fdt) nodes (λ n. built_memory_lem p fdt n l) in
    let same_reserves =
      collect_same (built_reserved p fdt) (reserved_of p fdt) children
        (λ n. built_reserved_lem p fdt n) in
    let same_entries : built_entries lib fdt ≡ entries =
      collect_same _ _ (counting (to_unsigned (lib.reserve_map_entries fdt)) 0)
        (λ i. entry_hobs_lem (lib.reserve_map_entry fdt i) (λ addr size e. has.wide_entries i e)) in
    let nodes_done =
      memory_loop_lem p lib fuel fdt fuel (pos 0) nodes hobs l s has.enough_tuples has.walks
        has.enough_nodes
      ∙ ap (λ built. some (hobs ++ built)) same_system in
    let reserves_done =
      reserved_memory_lem p lib fuel fdt children (hobs ++ system) l has.enough_tuples has.reserves
        has.enough_children
      ∙ ap (λ built. some (hobs ++ system ++ built ++ collect (built_reserved p fdt) children))
          same_entries
      ∙ ap (λ built. some (hobs ++ system ++ entries ++ built)) same_reserves in
    rw
      (
        memory_initialization,
        nodes_done,
        reserves_done,
        append_assoc hobs system entries,
        append_assoc hobs (system ++ entries) reserves,
        append_assoc hobs (system ++ entries ++ reserves) types,
      )
      refl
