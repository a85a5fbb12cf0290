-- ===== src/Sec/Sample.antt =====
-- A small platform for the runs of the security phase library.
use edk2_uemu.Common.{
  ◌≡◌, refl, true, Option, none, some, [], ◌∷◌, ◌==◌, if◌then◌else◌, arith, ◌⊎◌, inl, inr, length,
}
use edk2_uemu.Common.Int.{ℤ, pos, negsuc, minus_one, is_equal}
use edk2_uemu.Text.{Text, codes, ascii_str_eq}
use edk2_uemu.Fdt.{Platform, Property}
use edk2_uemu.Fdt.Cells.{IsBytes}
use edk2_uemu.Fdt.Reg.{HasLengths}
use edk2_uemu.Fdt.Sample.{tree, tree_next, uart_reg, tree-SwapsBytes, tree-AlignsUp}
use edk2_uemu.Discover.Covers.{IsDocumented}
use edk2_uemu.Sec.{Libfdt, PrePi, Pcd}
use edk2_uemu.Sec.Map.{HasNodes}
use edk2_uemu.Sec.Devices.{HasDevices}

-- "memory" and its NUL.
abbrev pub memory_type : Property
memory_type = record { bytes = 109 ∷ 101 ∷ 109 ∷ 111 ∷ 114 ∷ 121 ∷ 0 ∷ []; len = pos 7 }

-- Node 8 is memory; every node has the same `reg`.
unfoldable pub board_prop : ℤ → Text → Option Property
unfolding ascii_str_eq
board_prop node name =
    if ascii_str_eq name (codes "reg")
    then some uart_reg
    else if ascii_str_eq name (codes "device_type")
    then (if is_equal node 8 then some memory_type else none)
    else none

abbrev pub broken_next : ℤ → ℤ
broken_next (negsuc n) = pos 8
broken_next (pos n) = negsuc 10

abbrev pub board : Platform
board = record tree { get_prop = λ fdt node name. board_prop node name }

pub board_prop-cases :
    (node : ℤ) (name : Text) {prop : Property}
    → board_prop node name ≡ some prop
    → (prop ≡ uart_reg) ⊎ (prop ≡ memory_type)
unfolding board_prop
board_prop-cases node name h = ground arith

pub board_lengths :
    (node : ℤ) (name : Text) {prop : Property}
    → board_prop node name ≡ some prop
    → (prop.len ≡ pos (length prop.bytes)) × IsBytes prop.bytes
board_lengths node name h = elim (board_prop-cases node name h) [
  | inl e ↦ rw e (refl, omega arith)
  | inr e ↦ rw e (refl, omega arith)
]

pub board-HasLengths : HasLengths board
board-HasLengths = record { has_length = λ fdt node name h. board_lengths node name h }

pub board-IsDocumented : IsDocumented board
board-IsDocumented = record {
  lengths = board-HasLengths;
  swaps = record { swaps = tree-SwapsBytes.swaps };
  aligns = record { aligns_up = tree-AlignsUp.aligns_up };
}

-- Nodes 8 and 40, one reserve map entry that libfdt reads and one that it does not, and node 48 in
-- /reserved-memory.
abbrev pub libfdt : Libfdt
libfdt = record {
  next_node = λ fdt node. if is_equal node 0 then pos 8 else tree_next node;
  reserve_map_entries = λ fdt. pos 2;
  reserve_map_entry = λ fdt i. if i == 0 then some (0x80000000, 0x40000) else none;
  subnode_offset = λ fdt node name. pos 40;
  first_subnode = λ fdt node. pos 48;
  next_subnode = λ fdt node. minus_one;
  total_size = λ fdt. 5000;
}

abbrev pub pre_pi : PrePi
pre_pi = record { allocate_pages = λ pages. some 0x90000000; has_hob_room = true }

abbrev pub pcds : Pcd
pcds = record {
  acpi_reclaim_pages = 0;
  acpi_nvs_pages = 0;
  reserved_pages = 16;
  runtime_data_pages = 256;
  runtime_code_pages = 256;
  temp_ram_base = 0x83f00000;
  temp_ram_size = 0x10000;
}

pub board-HasNodes : HasNodes board libfdt 0x82000000 20 (8 ∷ 40 ∷ []) (48 ∷ [])
unfolding board_prop
board-HasNodes = record {
  walks = (refl, (refl, (0, refl)));
  reserves = (refl, (0, refl));
  wide_entries = λ i h. ground (arith, h);
  enough_nodes = omega arith;
  enough_children = omega arith;
  enough_tuples = λ node. omega arith;
}

pub board-HasDevices : HasDevices board 0x82000000 20
board-HasDevices = record {
  uarts = 8 ∷ 40 ∷ [];
  virtios = 8 ∷ 40 ∷ [];
  displays = 8 ∷ 40 ∷ [];
  finds_uarts = (refl, (refl, refl));
  finds_virtios = (refl, (refl, refl));
  finds_displays = (refl, (refl, refl));
  enough_uarts = omega arith;
  enough_virtios = omega arith;
  enough_displays = omega arith;
}
