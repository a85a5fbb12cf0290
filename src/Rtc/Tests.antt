-- ===== src/Rtc/Tests.antt =====
-- Runs of the clock over two registers that hold what is written, and instances of its theorems.
use edk2_uemu.Common.{
  ℕ, ◌*◌, ◌^◌, ◌<◌, ◌≤◌, ◌⊎◌, ◌+◌, ◌-◌, Option, ◌≡◌, ◌≢◌, inl, inr, refl, false, some, ◌==◌,
  if◌then◌else◌, arith,
}
use edk2_uemu.Common.Int.{ℤ, pos, negsuc}
use edk2_uemu.Mmio.{Mmio}
use edk2_uemu.Efi.{success, unsupported, ok}
use edk2_uemu.Text.{ascii_str_eq, ascii_strn_len_s}
use edk2_uemu.Fdt.{
  read_cell, decode_loop, decode_cells, is_malformed, node_is_enabled, uemu_fdt_get, find_loop,
  uemu_fdt_find_compatible_node, reg_tuple, uemu_fdt_get_reg, uemu_fdt_align_range,
}
use edk2_uemu.Fdt.Sample.{tree, tree_prop}
use edk2_uemu.Discover.{find_reg}
use edk2_uemu.Discover.Covers.{Holds}
use edk2_uemu.Discover.Sample.{dxe, tree-IsDocumented}
use edk2_uemu.Rtc.Start.{initialize_declares}
use edk2_uemu.Rtc.{
  get_goldfish_rtc_base, declare_rtc, lib_rtc_initialize, lib_get_wakeup_time, lib_set_wakeup_time,
  Time, TimeBaseLib, lib_get_time, lib_set_time, to_local, virtual_notify_event, nano_sec,
}
use edk2_uemu.Rtc.RoundTrip.{HoldsTime, read_back, set_get_shifted}
use edk2_uemu.Rtc.Virtual.{MapsRegisters, through, set_get_runtime}

abbrev registers : Mmio (ℕ × ℕ)
registers = record {
  read32 = λ address d. (if address == 0 then d.0 else d.1, d);
  write32 = λ address value d. if address == 0 then (value, d.1) else (d.0, value);
}

registers-HoldsTime : HoldsTime registers 0
registers-HoldsTime = record { holds = λ d low high hl hh. (refl, refl) }

-- Calendar fields are the seconds themselves.
abbrev seconds : TimeBaseLib ℕ
seconds = record { epoch_to_efi_time = λ e. e; efi_time_to_epoch = λ f. f }

abbrev at_zone : ℤ → ℕ → Time ℕ
at_zone zone daylight = record { fields = 1_700_000_000; time_zone = zone; daylight = daylight }

-- The operating system moved the registers from 0 to 0x1000.
abbrev to_physical : ℕ → ℕ
to_physical address = address - 0x1000

abbrev convert : ℕ → Option ℕ
convert address = some (address + 0x1000)

convert-MapsRegisters : MapsRegisters to_physical convert 0
convert-MapsRegisters = (0x1000, refl, λ offset small. omega (arith, small))

set_get_runtime_example :
    let time = at_zone (pos 0x7ff) 0 in
    let mapped = through to_physical registers in
    let runtime = virtual_notify_event convert 0 in
    let at_boot = (lib_set_time registers seconds 0 (some time) (0, 0)).1 in
    let later = (lib_set_time mapped seconds runtime (some time) (0, 0)).1 in
    (n : ℕ) × (((1_700_000_000 * nano_sec < 2 ^ 64) × (n ≡ 1_700_000_000))
      ⊎ ((2 ^ 64 ≤ 1_700_000_000 * nano_sec) × (n < 1_700_000_000)))
    × ((lib_get_time registers seconds 0 (some time) false at_boot).1
        ≡ some (record time { fields = n }))
    × ((lib_get_time mapped seconds runtime (some time) false at_boot).1
        ≡ some (record time { fields = n }))
    × ((lib_get_time mapped seconds runtime (some time) false later).1
        ≡ some (record time { fields = n }))
set_get_runtime_example =
    set_get_runtime registers seconds to_physical convert 0 (at_zone (pos 0x7ff) 0) (0, 0)
      registers-HoldsTime convert-MapsRegisters refl refl

set_get_shifted_example :
    (read_back registers seconds 0 registers-HoldsTime (at_zone (negsuc 59) 0) (0, 0) (omega arith)
      ≡ some (record { fields = 1_699_996_400; time_zone = negsuc 59; daylight = 0 }))
    × (◌≢◌ {A = ℕ} 1_699_996_400 1_700_000_000)
set_get_shifted_example =
    set_get_shifted registers seconds 0 registers-HoldsTime (at_zone (negsuc 59) 0) (0, 0)
      (omega arith) (inr (inl (59, refl, omega arith, refl))) (omega arith) (omega arith)

set_get_runs :
    (lib_get_time registers seconds 0 (some (at_zone (pos 0x7ff) 0)) false (705_032_704, 1)).1
    ≡ some (record { fields = 5; time_zone = pos 0x7ff; daylight = 0 })
unfolding lib_get_time to_local
set_get_runs = refl

initialize_runs :
    lib_rtc_initialize tree dxe success 3 ≡ some (ok (success, 0x10000000, 0x10000000, 0x1000))
unfolding find_reg uemu_fdt_get uemu_fdt_find_compatible_node find_loop node_is_enabled is_malformed
    ascii_strn_len_s ascii_str_eq tree_prop uemu_fdt_get_reg reg_tuple decode_cells decode_loop
    read_cell uemu_fdt_align_range get_goldfish_rtc_base declare_rtc lib_rtc_initialize
initialize_runs = refl

initialize_declares_example : Holds 0x10000000 0x1000 0x10000000 32
initialize_declares_example =
    (initialize_declares tree dxe success 3 tree-IsDocumented initialize_runs).0

get_wakeup_time_runs : lib_get_wakeup_time ≡ unsupported
unfolding lib_get_wakeup_time
get_wakeup_time_runs = refl

set_wakeup_time_runs : lib_set_wakeup_time ≡ unsupported
unfolding lib_set_wakeup_time
set_wakeup_time_runs = refl
