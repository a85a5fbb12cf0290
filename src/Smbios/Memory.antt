-- ===== src/Smbios/Memory.antt =====
-- The memory records of PlatformSmbiosDxe.c.
use edk2_uemu.Common.{
  ℕ, zero, suc, ◌+◌, ◌*◌, ◌/◌, ◌^◌, bit_or, Bool, true, false, List, [], ◌∷◌, ◌==◌, ltb, leb,
  if◌then◌else◌, length, u16, u32, u64, sub64, max_uint64,
}
use edk2_uemu.Efi.{Result, ok, err, fault, ◌>>=◌}
use edk2_uemu.Smbios.Template.{Structure, memory_range, memory_device}
use edk2_uemu.Smbios.{Environment, Names, log_structure}
use edk2_uemu.Smbios.Cpu.{swap_bytes32}

-- What the FDT client answers for a memory node: its `reg` as 32-bit words, RegSize, and the cell
-- counts of its parent.
pub record MemoryNode : Type 0 where
  pub reg : List ℕ
  pub reg_size : ℕ
  pub address_cells : ℕ
  pub size_cells : ℕ

-- SwapBytes32 (*Reg++), and where there is a second cell, that too; a read behind `reg` is a fault.
unfoldable pub read_number : Bool → List ℕ → Result (ℕ × List ℕ)
read_number two [] = fault
read_number false (high ∷ reg) = ok (swap_bytes32 high, reg)
read_number true (high ∷ []) = fault
read_number true (high ∷ low ∷ reg) =
    ok (bit_or (u64 (swap_bytes32 high * 2 ^ 32)) (swap_bytes32 low), reg)

-- RegSize -= (AddressCells + SizeCells) * sizeof (UINT32)
abbrev pub less_tuple : ℕ → ℕ → ℕ
less_tuple reg_size cells = u32 (sub64 reg_size (cells * 4))

-- The TYPE19 structure of a range, its addresses in KB.
unfoldable pub range_structure : ℕ → ℕ → ℕ → Structure
range_structure handle base size =
    memory_range (u32 (base / 1024)) (u32 (sub64 (u64 (base + size)) 1 / 1024)) handle

-- while (RegSize > 0): the total size and the records. Each round reads a cell, so that behind as many
-- rounds as there are cells the next read is one behind `reg`.
unfoldable pub region_loop :
    Environment
    → Names
    → ℕ
    → ℕ
    → ℕ
    → ℕ
    → ℕ
    → List ℕ
    → ℕ
    → List (List ℕ)
    → Result (ℕ × List (List ℕ))
region_loop env names handle address_cells size_cells zero reg_size reg total added =
    if reg_size == 0 then ok (total, added) else fault
region_loop env names handle address_cells size_cells (suc left) reg_size reg total added =
    elim (reg_size == 0) [
      | true ↦ ok (total, added)
      | false ↦ elim (read_number (ltb 1 address_cells) reg) [
        | fault ↦ fault
        | err status ↦ err status
        | ok (base, behind_base) ↦ elim (read_number (ltb 1 size_cells) behind_base) [
          | fault ↦ fault
          | err status ↦ err status
          | ok (size, behind) ↦
              elim (log_structure env names (range_structure handle base size) added) [
                | fault ↦ fault
                | err status ↦ err status
                | ok logged ↦
                    region_loop env names handle address_cells size_cells left
                      (less_tuple reg_size (address_cells + size_cells)) behind (u64 (total + size))
                      logged.2
              ]
        ]
      ]
    ]

-- The loop over the nodes that the FDT client finds in turn.
unfoldable pub node_loop :
    Environment → Names → ℕ → List MemoryNode → ℕ → List (List ℕ) → Result (ℕ × List (List ℕ))
node_loop env names handle [] total added = ok (total, added)
node_loop env names handle (node ∷ nodes) total added =
    elim (region_loop env names handle node.address_cells node.size_cells (length node.reg)
      node.reg_size node.reg total added) [
        | fault ↦ fault
        | err status ↦ err status
        | ok (next, logged) ↦ node_loop env names handle nodes next logged
      ]

-- The TYPE17 structure with the total size.
unfoldable pub device_structure : ℕ → ℕ → Structure
device_structure handle total =
    let total_size_in_mb = total / 2 ^ 20 in
    if total == 0
    then memory_device 0x2000 0 max_uint64 handle
    else if leb 0x7fff total_size_in_mb
    then memory_device 0x7fff (u32 total_size_in_mb) total handle
    else memory_device (u16 total_size_in_mb) 0 total handle

-- LogMemoryInfo
unfoldable pub log_memory_info :
    Environment → Names → ℕ → List MemoryNode → List (List ℕ) → Result (List (List ℕ))
log_memory_info env names handle nodes added = do
  regions ← node_loop env names handle nodes 0 added
  device ← log_structure env names (device_structure handle regions.0) regions.1
  ok device.2
