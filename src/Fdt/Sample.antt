-- ===== src/Fdt/Sample.antt =====
-- A small device tree for the runs of UemuFdtLib.c and of the drivers that read it.
use edk2_uemu.Common.{
  ◌+◌, ◌-◌, ◌*◌, ◌/◌, ◌%◌, ◌^◌, ◌≡◌, refl, Option, none, some, [], ◌∷◌, ◌==◌, if◌then◌else◌, arith,
  ◌⊎◌, inl, inr, length,
}
use edk2_uemu.Common.Int.{ℤ, pos, negsuc, minus_one, is_equal}
use edk2_uemu.Text.{Text, codes, ascii_str_eq}
use edk2_uemu.Fdt.{Platform, Property}
use edk2_uemu.Fdt.Cells.{IsBytes, SwapsBytes}
use edk2_uemu.Fdt.Align.{AlignsUp}
use edk2_uemu.Fdt.Reg.{HasLengths}

-- A `reg` of one tuple: base 0x10000000, size 0x1000.
abbrev pub uart_reg : Property
uart_reg = record {
  bytes = 0 ∷ 0 ∷ 0 ∷ 0 ∷ 16 ∷ 0 ∷ 0 ∷ 0 ∷ 0 ∷ 0 ∷ 0 ∷ 0 ∷ 0 ∷ 0 ∷ 16 ∷ 0 ∷ [];
  len = pos 16;
}

-- "off" and its NUL.
abbrev pub off : Property
off = record { bytes = 111 ∷ 102 ∷ 102 ∷ 0 ∷ []; len = pos 4 }

-- Node 8 is off and node 40 has no status; every node has the same `reg`.
unfoldable pub tree_prop : ℤ → Text → Option Property
unfolding ascii_str_eq
tree_prop node name =
    if ascii_str_eq name (codes "reg")
    then some uart_reg
    else if ascii_str_eq name (codes "status")
    then (if is_equal node 8 then some off else none)
    else none

-- Nodes 8 and 40 are compatible with whatever is asked for.
abbrev pub tree_next : ℤ → ℤ
tree_next (negsuc n) = pos 8
tree_next (pos n) = if n == 8 then pos 40 else minus_one

abbrev pub tree : Platform
tree = record {
  first_fdt_hob = some (record { size = 8; value = 4096 });
  check_header = λ fdt. pos 0;
  node_offset_by_compatible = λ fdt node compatible. tree_next node;
  get_prop = λ fdt node name. tree_prop node name;
  parent_offset = λ fdt node. pos 0;
  address_cells = λ fdt node. pos 2;
  size_cells = λ fdt node. pos 2;
  fdt32_to_cpu = λ w.
      w % 2 ^ 8 * 2 ^ 24 + w / 2 ^ 8 % 2 ^ 8 * 2 ^ 16 + w / 2 ^ 16 % 2 ^ 8 * 2 ^ 8 + w / 2 ^ 24;
  align_value = λ value alignment. (value + (alignment - 1)) / alignment * alignment;
}

pub tree-SwapsBytes : SwapsBytes tree
tree-SwapsBytes = record { swaps = λ a b c d ha hb hc hd. omega arith }

pub tree-AlignsUp : AlignsUp tree
tree-AlignsUp = record { aligns_up = λ value h. refl }

tree_prop-cases :
    (node : ℤ) (name : Text) {prop : Property}
    → tree_prop node name ≡ some prop
    → (prop ≡ uart_reg) ⊎ (prop ≡ off)
unfolding tree_prop
tree_prop-cases node name h = ground arith

tree_lengths :
    (node : ℤ) (name : Text) {prop : Property}
    → tree_prop node name ≡ some prop
    → (prop.len ≡ pos (length prop.bytes)) × IsBytes prop.bytes
tree_lengths node name h = elim (tree_prop-cases node name h) [
  | inl e ↦ rw e (refl, omega arith)
  | inr e ↦ rw e (refl, omega arith)
]

pub tree-HasLengths : HasLengths tree
tree-HasLengths = record { has_length = λ fdt node name h. tree_lengths node name h }
