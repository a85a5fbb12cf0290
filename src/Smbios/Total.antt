-- ===== src/Smbios/Total.antt =====
-- LogMemoryInfo of PlatformSmbiosDxe.c as a whole: its records and the size of the memory device.
use edk2_uemu.Common.{
  ℕ, ◌+◌, ◌/◌, ◌^◌, ◌<◌, ◌≤◌, ◌≡◌, refl, Bool, true, false, List, [], ◌∷◌, ◌++◌, map, length,
  length-append, arith, ltb, leb, ◌==◌, if◌then◌else◌, u16, u32, inl, inr, Bool-cases,
}
use edk2_uemu.Efi.{ok}
use edk2_uemu.Smbios.Template.{Structure, memory_device}
use edk2_uemu.Smbios.{Environment, Names}
use edk2_uemu.Smbios.Memory.{MemoryNode, node_loop, device_structure, log_memory_info}
use edk2_uemu.Smbios.Regions.{
  words, AreRegions, reg_of, reg_bytes, added_by, log_structure_lem, range_records, total_size,
  region_loop_lem,
}

-- A memory node: the cell counts of its parent, and its regions.
abbrev pub Node : Type 0
Node = ℕ × ℕ × List (ℕ × ℕ)

-- What the FDT client answers for a node.
abbrev pub answer_of : Node → MemoryNode
answer_of (address_cells, size_cells, regions) = record {
  reg = reg_of address_cells size_cells regions;
  reg_size = reg_bytes (address_cells + size_cells) regions;
  address_cells = address_cells;
  size_cells = size_cells;
}

abbrev pub IsNode : Node → Type 0
IsNode (address_cells, size_cells, regions) =
    (0 < address_cells)
    × (address_cells ≤ 2)
    × (0 < size_cells)
    × (size_cells ≤ 2)
    × AreRegions address_cells size_cells regions
    × (reg_bytes (address_cells + size_cells) regions < 2 ^ 32)

abbrev pub AreNodes : List Node → Type 0
AreNodes [] = Unit
AreNodes (node ∷ nodes) = IsNode node × AreNodes nodes

abbrev pub total_of : List Node → ℕ
total_of [] = 0
total_of ((ac, sc, regions) ∷ nodes) = total_size regions + total_of nodes

-- The records of all regions of all nodes, in their order.
abbrev pub node_records : Environment → Names → ℕ → List Node → List (List ℕ) → List (List ℕ)
node_records env names handle [] added = added
node_records env names handle ((ac, sc, regions) ∷ nodes) added =
    node_records env names handle nodes (range_records env names handle regions added)

length-words : (two : Bool) (v : ℕ) → 0 < length (words two v)
length-words false v = omega arith
length-words true v = omega arith

length-reg_of :
    (ac sc : ℕ) (regions : List (ℕ × ℕ)) → length regions ≤ length (reg_of ac sc regions)
length-reg_of ac sc [] = omega arith
length-reg_of ac sc ((base, size) ∷ regions) =
    let rest = reg_of ac sc regions in
    omega (
      arith,
      length-append (words (ltb 1 ac) base) (words (ltb 1 sc) size ++ rest),
      length-append (words (ltb 1 sc) size) rest,
      length-words (ltb 1 ac) base,
      length-reg_of ac sc regions,
    )

node_loop_lem :
    (env : Environment) (names : Names) (handle : ℕ) (nodes : List Node) (total : ℕ)
    (added : List (List ℕ))
    → AreNodes nodes
    → total + total_of nodes < 2 ^ 64
    → node_loop env names handle (map answer_of nodes) total added
      ≡ ok (total + total_of nodes, node_records env names handle nodes added)
unfolding node_loop
node_loop_lem env names handle [] total added are fits =
    let e : total + 0 ≡ total = omega arith in rw e refl
node_loop_lem env names handle ((ac, sc, regions) ∷ nodes) total added
      ((ha, _, _, _, is, small), are) fits =
    let assoc : total + total_size regions + total_of nodes
        ≡ total + (total_size regions + total_of nodes) =
      omega arith in
    rw
      (
        node_loop,
        region_loop_lem env names handle ac sc (length (reg_of ac sc regions)) regions total added
            ha is small (omega arith) (length-reg_of ac sc regions),
        node_loop_lem env names handle nodes (total + total_size regions)
            (range_records env names handle regions added) are (omega arith),
        assoc,
      )
      refl

-- The size in MB that a memory device shows, by the SMBIOS specification: the extended size where the
-- size is 0x7FFF.
abbrev pub device_mb : Structure → ℕ
device_mb (memory_device size extended volatile handle) = if size == 0x7fff then extended else size
device_mb _ = 0

abbrev pub device_bytes : Structure → ℕ
device_bytes (memory_device size extended volatile handle) = volatile
device_bytes _ = 0

device_structure_lem :
    (handle total : ℕ)
    → 0 < total
    → total < 2 ^ 52
    → (device_mb (device_structure handle total) ≡ total / 2 ^ 20)
      × (device_bytes (device_structure handle total) ≡ total)
unfolding device_structure
device_structure_lem handle total positive small =
    let some_bytes : (total == 0) ≡ false = ground arith in
    let mb = total / 2 ^ 20 in
    let wide : u32 mb ≡ mb = omega arith in
    elim (Bool-cases (leb 0x7fff mb)) [
      | inl large ↦ (
        rw (device_structure, some_bytes, large, wide) refl,
        rw (device_structure, some_bytes, large) refl,
      )
      | inr fits ↦
          let narrow : u16 mb ≡ mb = ground arith in
          let other : (mb == 0x7fff) ≡ false = ground arith in
          (
            rw (device_structure, some_bytes, fits, narrow, other) refl,
            rw (device_structure, some_bytes, fits) refl,
          )
    ]

-- For memory nodes with one or two cells for an address and a size, whose regions are not empty, end at
-- 4 TB at the latest and make up less than 4 PB but not nothing, LogMemoryInfo reads within `reg`, and
-- logs, in order, a TYPE19 structure for each region with its first and last address in KB, and one
-- TYPE17 structure, which shows the total size in MB and in bytes.
pub log_memory_info_lem :
    (env : Environment) (names : Names) (handle : ℕ) (nodes : List Node) (added : List (List ℕ))
    → AreNodes nodes
    → 0 < total_of nodes
    → total_of nodes < 2 ^ 52
    → let device = device_structure handle (total_of nodes) in
      (log_memory_info env names handle (map answer_of nodes) added
        ≡ ok (added_by env names device (node_records env names handle nodes added)))
      × (device_mb device ≡ total_of nodes / 2 ^ 20)
      × (device_bytes device ≡ total_of nodes)
unfolding log_memory_info
log_memory_info_lem env names handle nodes added are positive small =
    let device = device_structure handle (total_of nodes) in
    let (status, out, logged) =
      log_structure_lem env names device (node_records env names handle nodes added) in
    let none_before : 0 + total_of nodes ≡ total_of nodes = omega arith in
    let shown = device_structure_lem handle (total_of nodes) positive small in
    (
      rw
          (
            log_memory_info,
            node_loop_lem env names handle nodes 0 added are (omega arith),
            none_before,
            logged,
          )
          refl,
      shown.0,
      shown.1,
    )
