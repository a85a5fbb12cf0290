-- ===== src/Fdt/Tests.antt =====
-- Runs of the device-tree helpers on a small tree, and instances of their theorems.
use edk2_uemu.Common.{◌+◌, ◌≤◌, ◌≡◌, ◌≢◌, refl, some, [], ◌∷◌, arith}
use edk2_uemu.Common.Int.{pos}
use edk2_uemu.Efi.{ok, err, fault, not_found}
use edk2_uemu.Text.{codes, ascii_strn_len_s}
use edk2_uemu.Fdt.{
  is_malformed, node_is_enabled, read_cell, decode_loop, decode_cells, find_loop,
  uemu_fdt_find_compatible_node, reg_tuple, uemu_fdt_get_reg, uemu_fdt_get_string,
  uemu_fdt_align_range,
}
use edk2_uemu.Fdt.Align.{align_range_covers}
use edk2_uemu.Fdt.Reg.{IsTuple, get_reg_reads_inside, get_reg_value}
use edk2_uemu.Fdt.Find.{find_first_enabled}
use edk2_uemu.Fdt.Strings.{IsCString, get_string_terminated}
use edk2_uemu.Fdt.Sample.{
  uart_reg, off, tree_prop, tree, tree-SwapsBytes, tree-AlignsUp, tree-HasLengths,
}

get_reg_runs : uemu_fdt_get_reg tree 4096 (pos 40) 0 1 1 ≡ ok (0x10000000, 0x1000)
unfolding uemu_fdt_get_reg reg_tuple decode_cells decode_loop read_cell tree_prop
get_reg_runs = refl

get_reg_ends : uemu_fdt_get_reg tree 4096 (pos 40) 1 1 1 ≡ err not_found
unfolding uemu_fdt_get_reg reg_tuple decode_cells decode_loop read_cell tree_prop
get_reg_ends = refl

find_skips_disabled :
    uemu_fdt_find_compatible_node tree 3 4096 (some (codes "ns16550a")) 1 ≡ some (ok (pos 40))
unfolding uemu_fdt_find_compatible_node find_loop node_is_enabled tree_prop ascii_strn_len_s
find_skips_disabled = refl

-- Instances of the theorems.
align_range_runs : uemu_fdt_align_range tree 0x1234 0x2000 1 1 ≡ ok (0x1000, 0x3000)
unfolding uemu_fdt_align_range
align_range_runs = refl

align_range_covers_example : 0x1234 + 0x2000 ≤ 0x1000 + 0x3000
align_range_covers_example =
    (align_range_covers tree 0x1234 0x2000 1 1 tree-AlignsUp (omega arith) align_range_runs).4

get_reg_reads_inside_example : uemu_fdt_get_reg tree 4096 (pos 40) 7 1 1 ≢ fault
get_reg_reads_inside_example = get_reg_reads_inside tree 4096 (pos 40) 7 1 1 tree-HasLengths

get_reg_value_example : IsTuple uart_reg.bytes 2 2 0 0x10000000 0x1000
unfolding tree_prop
get_reg_value_example =
    get_reg_value tree 4096 (pos 40) 0 1 1 2 2 uart_reg tree-HasLengths tree-SwapsBytes refl refl
      refl get_reg_runs

find_first_enabled_example :
    uemu_fdt_find_compatible_node tree 3 4096 (some (codes "ns16550a")) 1 ≡ some (ok (pos 40))
unfolding node_is_enabled tree_prop ascii_strn_len_s
find_first_enabled_example =
    find_first_enabled tree 3 4096 (codes "ns16550a") 1 0 (8 ∷ 40 ∷ []) (omega arith) (omega arith)
      (refl, (refl, refl)) (omega arith)

get_string_runs :
    uemu_fdt_get_string tree 4096 (pos 8) (some (codes "status")) 1 ≡ ok (off.bytes, 4)
unfolding uemu_fdt_get_string tree_prop is_malformed ascii_strn_len_s
get_string_runs = refl

get_string_terminated_example : IsCString off.bytes 3
unfolding tree_prop
get_string_terminated_example =
    (get_string_terminated tree 4096 (pos 8) (codes "status") 1 off tree-HasLengths refl
      get_string_runs).3
