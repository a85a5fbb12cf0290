-- ===== src/Battery/Tests.antt =====
-- Runs of LogSmbiosRecord of GoldfishBatteryDxe.c, and an instance of its theorem.
use edk2_uemu.Common.{◌-◌, ℕ, ◌+◌, ◌≡◌, refl, true, none, some, List, [], ◌∷◌, length}
use edk2_uemu.Efi.{success, ok, fault}
use edk2_uemu.Mmio.{Mmio}
use edk2_uemu.Text.{ascii_str_eq, ascii_strn_len_s}
use edk2_uemu.Fdt.{
  read_cell, decode_loop, decode_cells, is_malformed, node_is_enabled, uemu_fdt_get, find_loop,
  uemu_fdt_find_compatible_node, reg_tuple, uemu_fdt_get_reg, uemu_fdt_align_range,
}
use edk2_uemu.Fdt.Sample.{tree, tree_prop}
use edk2_uemu.Discover.{find_reg, Registers, declare_registers}
use edk2_uemu.Discover.Covers.{Holds}
use edk2_uemu.Discover.Sample.{dxe, tree-IsDocumented}
use edk2_uemu.Battery.{
  copy_mem, copy_mem_at, pack_size, append_strings, build_record, Smbios, log_smbios_record,
  Started, BootServices, install_battery, read_battery_info, start, goldfish_battery_dxe_initialize,
  battery_strings, log_battery_smbios,
}
use edk2_uemu.Battery.Start.{Serves, initialize-Serves}
use edk2_uemu.Battery.Table.{battery_record, battery_members}
use edk2_uemu.Smbios.Reader.{StringsRead}
use edk2_uemu.Battery.Record.{smbios_record, log_record_adds}

abbrev services : Smbios
services = record { locate = success; has_pool = λ size. true; add = λ bytes. success }

-- A header of type 22 and length 4.
abbrev header : List ℕ
header = 22 ∷ 4 ∷ 0 ∷ 0 ∷ []

copy_mem_overruns : copy_mem (0 ∷ []) (1 ∷ 2 ∷ []) ≡ fault
unfolding copy_mem
copy_mem_overruns = refl

no_strings_runs :
    log_smbios_record services header none ≡ ok (success, some (22 ∷ 4 ∷ 0 ∷ 0 ∷ 0 ∷ 0 ∷ []))
unfolding log_smbios_record build_record append_strings copy_mem_at copy_mem pack_size
no_strings_runs = refl

battery_record_size : length (smbios_record header battery_strings) ≡ 39
battery_record_size = refl

log_record_adds_example :
    (length (smbios_record header battery_strings) ≡ 4 + pack_size (some battery_strings))
    × (log_smbios_record services header (some battery_strings)
        ≡ ok (success, some (smbios_record header battery_strings)))
log_record_adds_example = log_record_adds services header (some battery_strings)

-- Every register holds its offset, and the state counts the reads.
abbrev offsets : Mmio ℕ
offsets = record {
  read32 = λ address d. (address - 0x10000000, d + 1);
  write32 = λ address value d. d;
}

abbrev boot : BootServices
boot = record { has_dev_pool = true; install = success }

abbrev gauge : Registers
gauge = record { base = 0x10000000; gcd_base = 0x10000000; gcd_size = 0x1000; added = success }

abbrev ready : Started
ready = record {
  status = success;
  dev = some 0x10000000;
  installed = true;
  logged = some battery_record;
}

initialize_runs :
    goldfish_battery_dxe_initialize offsets tree dxe services boot 3 0
    ≡ some (ok (gauge, ready, 15))
unfolding find_reg uemu_fdt_get uemu_fdt_find_compatible_node find_loop node_is_enabled is_malformed
    ascii_strn_len_s ascii_str_eq tree_prop uemu_fdt_get_reg reg_tuple decode_cells decode_loop
    read_cell uemu_fdt_align_range declare_registers install_battery read_battery_info start
    goldfish_battery_dxe_initialize log_battery_smbios log_smbios_record build_record append_strings
    copy_mem_at copy_mem pack_size
initialize_runs = refl

initialize-Serves_example :
    Holds 0x10000000 0x1000 0x10000000 68
    × Serves offsets services 0x10000000 ready
    × StringsRead battery_record battery_members
initialize-Serves_example =
    initialize-Serves offsets tree dxe services boot 3 0 tree-IsDocumented initialize_runs
