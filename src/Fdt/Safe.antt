-- ===== src/Fdt/Safe.antt =====
-- The other functions of UemuFdtLib.c read no memory outside what libfdt returns.
use edk2_uemu.Common.{
  ℕ, zero, suc, ◌≢◌, Option, none, some, Bool-cases, Option-cases, inl, inr, arith,
}
use edk2_uemu.Common.Int.{ℤ, is_equal, minus_one}
use edk2_uemu.Efi.{fault}
use edk2_uemu.Text.{Text}
use edk2_uemu.Fdt.{
  Platform, find_loop, uemu_fdt_get, uemu_fdt_find_compatible_node, uemu_fdt_get_u32,
  uemu_fdt_get_string,
}
use edk2_uemu.Fdt.Reg.{HasLengths, read_cell-some}

pub get-ne-fault : (p : Platform) (fdt : ℕ) → uemu_fdt_get p fdt ≢ fault
unfolding uemu_fdt_get
get-ne-fault p fdt = ground arith

find_loop-ne-fault :
    (p : Platform) (fdt : ℕ) (compatible : Text) (fuel : ℕ) (current : ℤ)
    → find_loop p fdt compatible fuel current ≢ some fault
unfolding find_loop
find_loop-ne-fault p fdt compatible zero current = λ e. cc
find_loop-ne-fault p fdt compatible (suc fuel) current = ground (
  arith,
  find_loop-ne-fault p fdt compatible fuel (p.node_offset_by_compatible fdt current compatible),
)

pub find-ne-fault :
    (p : Platform) (fuel fdt : ℕ) (compatible : Option Text) (node : ℕ)
    → uemu_fdt_find_compatible_node p fuel fdt compatible node ≢ some fault
unfolding uemu_fdt_find_compatible_node
find-ne-fault p fuel fdt none node = λ e. cc
find-ne-fault p fuel fdt (some compatible) node =
    ground (arith, find_loop-ne-fault p fdt compatible fuel minus_one)

pub get_u32-ne-fault :
    (p : Platform) (fdt : ℕ) (node : ℤ) (property : Text) (value : ℕ)
    → HasLengths p
    → uemu_fdt_get_u32 p fdt node (some property) value ≢ fault
unfolding uemu_fdt_get_u32
get_u32-ne-fault p fdt node property value lengths =
    elim (Option-cases (p.get_prop fdt node property)) [
      | inl missing ↦ ground (arith, missing)
      | inr (prop, found) ↦
          let l = (lengths.has_length fdt node property found).0 in
          elim (Bool-cases (is_equal prop.len 4)) [
            | inr other ↦ ground (arith, found, other)
            | inl four ↦
                let (w, e) = read_cell-some prop.bytes 0 (ground (arith, four, l)) in
                ground (arith, found, four, e)
          ]
    ]

pub get_string-ne-fault :
    (p : Platform) (fdt : ℕ) (node : ℤ) (property : Text) (value : ℕ)
    → uemu_fdt_get_string p fdt node (some property) value ≢ fault
unfolding uemu_fdt_get_string
get_string-ne-fault p fdt node property value = ground arith
