-- ===== src/Rng/Tests.antt =====
-- Runs of the random number driver over a device that always has a word ready, and instances of its
-- theorems.
use edk2_uemu.Common.{
  ℕ, ◌+◌, ◌^◌, ◌<◌, ◌≡◌, ◌⊎◌, refl, none, some, [], ◌∷◌, ◌==◌, if◌then◌else◌, length, arith,
}
use edk2_uemu.Efi.{success, invalid_parameter, unsupported, ok}
use edk2_uemu.Mmio.{Mmio}
use edk2_uemu.Text.{ascii_str_eq, ascii_strn_len_s}
use edk2_uemu.Fdt.{
  read_cell, decode_loop, decode_cells, is_malformed, node_is_enabled, uemu_fdt_get, find_loop,
  uemu_fdt_find_compatible_node, reg_tuple, uemu_fdt_get_reg, uemu_fdt_align_range,
}
use edk2_uemu.Fdt.Sample.{tree, tree_prop}
use edk2_uemu.Discover.{find_reg, Registers, declare_registers}
use edk2_uemu.Discover.Covers.{Holds}
use edk2_uemu.Discover.Sample.{dxe, tree-IsDocumented}
use edk2_uemu.Rng.Start.{entry_point_enables}
use edk2_uemu.Rng.{
  start, bcm2835_rng_entry_point, bcm2835_rng_get_info, byte_loop, retry_loop, word_loop,
  fill_round, rng_loop, bcm2835_rng_get_rng,
}
use edk2_uemu.Rng.Aligned.{IsServed, IsExact, get_rng_aligned}
use edk2_uemu.Rng.Unaligned.{AlwaysReady, get_rng_unaligned_overflows}

-- The data register counts the reads of the device.
abbrev ready : Mmio ℕ
ready = record {
  read32 = λ address d. (if address == 4 then 2 ^ 24 else d, d + 1);
  write32 = λ address value d. d;
}

get_rng_runs :
    bcm2835_rng_get_rng ready 0 9 3 1 none 8 1 0
    ≡ (some success, 1 ∷ 0 ∷ 0 ∷ 0 ∷ 3 ∷ 0 ∷ 0 ∷ 0 ∷ [], 4)
unfolding bcm2835_rng_get_rng rng_loop fill_round word_loop retry_loop byte_loop
get_rng_runs = refl

-- A request of five bytes has written nine when two of its words are out.
get_rng_runs_over :
    bcm2835_rng_get_rng ready 0 9 3 1 none 5 1 0 ≡ (none, 1 ∷ 0 ∷ 0 ∷ 0 ∷ 3 ∷ 5 ∷ 0 ∷ 0 ∷ 0 ∷ [], 6)
unfolding bcm2835_rng_get_rng rng_loop fill_round word_loop retry_loop byte_loop
get_rng_runs_over = refl

get_rng_aligned_example :
    let r = bcm2835_rng_get_rng ready 0 9 3 1 (some 9) 8 1 0 in
    (IsServed 9 (some 9) × IsExact 8 r)
    ⊎ ((¬ IsServed 9 (some 9)) × (r ≡ (some unsupported, [], 0)))
get_rng_aligned_example =
    get_rng_aligned ready 0 9 3 1 1 8 (some 9) 0 (omega arith) (omega arith) (omega arith)
      (omega arith) (omega arith)

ready-AlwaysReady : AlwaysReady ready 0
ready-AlwaysReady d = omega arith

get_rng_unaligned_overflows_example :
    let r = bcm2835_rng_get_rng ready 0 9 6 1 (some 9) 5 1 0 in (r.0 ≡ none) × (5 < length r.1)
get_rng_unaligned_overflows_example =
    get_rng_unaligned_overflows ready 0 9 1 1 5 (some 9) 0 ready-AlwaysReady refl (omega arith)
      (omega arith) (omega arith)

abbrev uart : Registers
uart = record { base = 0x10000000; gcd_base = 0x10000000; gcd_size = 0x1000; added = success }

entry_point_runs : bcm2835_rng_entry_point ready tree dxe 3 7 ≡ some (ok (uart, 7))
unfolding find_reg uemu_fdt_get uemu_fdt_find_compatible_node find_loop node_is_enabled is_malformed
    ascii_strn_len_s ascii_str_eq tree_prop uemu_fdt_get_reg reg_tuple decode_cells decode_loop
    read_cell uemu_fdt_align_range declare_registers start bcm2835_rng_entry_point
entry_point_runs = refl

entry_point_enables_example : Holds 0x10000000 0x1000 0x10000000 12
entry_point_enables_example =
    (entry_point_enables ready tree dxe 3 7 tree-IsDocumented entry_point_runs).0

get_info_runs : bcm2835_rng_get_info 9 (some 20) 1 0 ≡ (invalid_parameter, some 20, none)
unfolding bcm2835_rng_get_info
get_info_runs = refl
