-- ===== src/Smbios/Tests.antt =====
-- Runs of the SMBIOS driver, and the witnesses of its theorems.
use edk2_uemu.Common.{
  ℕ, ◌/◌, ◌^◌, ◌<◌, ◌≤◌, ◌≡◌, refl, true, none, some, List, [], ◌∷◌, ◌++◌, map, length, arith, ◌⊎◌,
}
use edk2_uemu.Common.Int.{pos, minus_one}
use edk2_uemu.Efi.{ok, success}
use edk2_uemu.Text.{codes, ascii_strn_len_s}
use edk2_uemu.Fdt.{Platform, Property, uemu_fdt_get, uemu_fdt_get_string, is_malformed}
use edk2_uemu.Fdt.Sample.{tree}
use edk2_uemu.Sec.{Libfdt}
use edk2_uemu.Smbios.Template.{memory_device, template, board_info, boot_info}
use edk2_uemu.Smbios.{Protocol, Environment, Names, strings, update_emulator_version}
use edk2_uemu.Smbios.Array.{entry, count}
use edk2_uemu.Smbios.Sort.{
  rank, order, order_three, scan_up, scan_down, swap, partition, split, quick_sort_int32,
}
use edk2_uemu.Smbios.Sorted.{IsSorted, quick_sort-IsSorted}
use edk2_uemu.Smbios.Cpu.{
  swap_bytes32, get_time_base_frequency, Counters, copy_version, estimate_cpu_frequency_mhz,
}
use edk2_uemu.Smbios.Memory.{device_structure, log_memory_info}
use edk2_uemu.Smbios.Strings.{readable}
use edk2_uemu.Smbios.Frequency.{estimate_cpu_frequency_lem}
use edk2_uemu.Smbios.Regions.{added_by}
use edk2_uemu.Smbios.Driver.{platform_smbios_driver_entry_point}
use edk2_uemu.Smbios.Entry.{
  IsAvailable, record_of, with_version, first_names, array_handle, first_records, entry_point_lem,
}
use edk2_uemu.Smbios.Records.{Reads}
use edk2_uemu.Smbios.Versions.{logged-Reads}
use edk2_uemu.Smbios.Total.{
  Node, answer_of, total_of, node_records, device_mb, device_bytes, log_memory_info_lem,
}

-- 3, -1, 2, 3 and 0.
abbrev numbers : List ℕ
numbers = 3 ∷ 0xffffffff ∷ 2 ∷ 3 ∷ 0 ∷ []

quick_sort_run : quick_sort_int32 5 numbers 0 4 ≡ some (0xffffffff ∷ 0 ∷ 2 ∷ 3 ∷ 3 ∷ [])
unfolding quick_sort_int32 split order_three order scan_up scan_down swap partition rank
quick_sort_run = refl

quick_sort-IsSorted_example :
    (b : List ℕ) × (quick_sort_int32 5 numbers 0 4 ≡ some b)
    × (length b ≡ 5)
    × ((w : ℕ) → count w b ≡ count w numbers)
    × ((c : ℕ) → (c < 0) ⊎ (4 < c) → entry b c ≡ entry numbers c)
    × IsSorted b 0 4
quick_sort-IsSorted_example = quick_sort-IsSorted 5 numbers 0 4 (omega arith) (omega arith)

-- The records are numbered as they are added.
abbrev protocol : Protocol
protocol = record {
  locate = success;
  has_pool = λ size. true;
  add = λ added bytes. (success, length added);
}

abbrev environment : Environment
environment = record {
  protocol = protocol;
  behind = λ structure. 0;
  build_date = codes "Jan 01 2025";
}

abbrev names : Names
names = record { version_name = codes "1.0.0"; processor_version = codes "rv64imafdc" }

-- The strings of the board: behind the empty asset tag, the location in the chassis is not found.
board_strings_run :
    (readable (strings environment names (board_info 0)) 3 ≡ some (codes "Not Specified"))
    × (readable (strings environment names (board_info 0)) 5 ≡ none)
unfolding strings
board_strings_run = (refl, refl)

-- 10 MHz, as the tree holds it.
abbrev time_base : Property
time_base = record { bytes = 0 ∷ 0x98 ∷ 0x96 ∷ 0x80 ∷ []; len = pos 4 }

abbrev timed : Platform
timed = record tree { get_prop = λ fdt node name. some time_base }

abbrev cpus : Libfdt
cpus = record {
  next_node = λ fdt node. minus_one;
  reserve_map_entries = λ fdt. pos 0;
  reserve_map_entry = λ fdt i. none;
  subnode_offset = λ fdt node name. pos 40;
  first_subnode = λ fdt node. minus_one;
  next_subnode = λ fdt node. minus_one;
  total_size = λ fdt. 5000;
}

-- 1 ms of 2 GHz.
abbrev counters : Counters
counters = record { start_time = 5; end_time = 10005; start_cycle = 7; end_cycle = 2000007 }

timed_run : get_time_base_frequency timed cpus ≡ ok 10000000
unfolding get_time_base_frequency swap_bytes32
timed_run = refl

estimate_cpu_frequency_lem_example :
    let mhz : ℕ = 2000 in
    (estimate_cpu_frequency_mhz timed cpus counters ≡ ok mhz)
    × ((mhz ≡ 0) ⊎ ((10 ≤ mhz) × (mhz ≤ 10000)))
estimate_cpu_frequency_lem_example =
    estimate_cpu_frequency_lem timed cpus counters 10000000 timed_run (omega arith) (omega arith)
      (omega arith)

-- One node with two regions: 512 MB from 2 GB on, 32 GB from 4 GB on.
abbrev memory_nodes : List Node
memory_nodes = (2, 2, (0x80000000, 0x20000000) ∷ (0x100000000, 0x800000000) ∷ []) ∷ []

log_memory_info_lem_example :
    let device = device_structure 3 (total_of memory_nodes) in
    (log_memory_info environment names 3 (map answer_of memory_nodes) []
      ≡ ok (added_by environment names device (node_records environment names 3 memory_nodes [])))
    × (device_mb device ≡ total_of memory_nodes / 2 ^ 20)
    × (device_bytes device ≡ total_of memory_nodes)
log_memory_info_lem_example =
    log_memory_info_lem environment names 3 memory_nodes [] (omega arith) (omega arith)
      (omega arith)

emulator_version_run : update_emulator_version timed ≡ ok (codes "1.0.0")
unfolding update_emulator_version uemu_fdt_get uemu_fdt_get_string is_malformed ascii_strn_len_s
emulator_version_run = refl

-- The names and the memory records of the run of the entry point.
abbrev run_names : Names
run_names = first_names (codes "1.0.0")

abbrev run_memory : List (List ℕ)
run_memory =
    let handle = array_handle environment run_names in
    added_by environment (with_version run_names [])
      (device_structure handle (total_of memory_nodes))
      (node_records environment (with_version run_names []) handle memory_nodes
        (first_records environment run_names [] 2000))

estimate_run : estimate_cpu_frequency_mhz timed cpus counters ≡ ok 2000
estimate_run =
    (estimate_cpu_frequency_lem timed cpus counters 10000000 timed_run (omega arith) (omega arith)
      (omega arith)).0

memory_run :
    log_memory_info environment
      (with_version run_names [])
      (array_handle environment run_names)
      (map answer_of memory_nodes)
      (first_records environment run_names [] 2000)
    ≡ ok run_memory
memory_run =
    (log_memory_info_lem environment (with_version run_names [])
      (array_handle environment run_names) memory_nodes
      (first_records environment run_names [] 2000) (omega arith) (omega arith) (omega arith)).0

small_device : length (template (λ structure. 0) (memory_device 0x7fff 33280 0x820000000 3)) < 256
unfolding template
small_device = omega arith

environment-IsAvailable : IsAvailable environment
environment-IsAvailable = record {
  located = refl;
  room = λ size. refl;
  accepts = λ added bytes. refl;
}

entry_point_lem_example :
    platform_smbios_driver_entry_point timed cpus environment counters []
      (map answer_of memory_nodes)
      0
    ≡ ok (success, run_memory ++ record_of environment (with_version run_names []) boot_info ∷ [])
entry_point_lem_example =
    entry_point_lem timed cpus environment counters [] (map answer_of memory_nodes) 0 2000
      (codes "1.0.0") run_memory environment-IsAvailable emulator_version_run estimate_run
      memory_run

-- The record of a memory device, with no version in the tree's CPUs.
logged-Reads_example :
    Reads environment
      (with_version (first_names (codes "1.0.0")) [])
      (memory_device 0x7fff 33280 0x820000000 3)
unfolding copy_version
logged-Reads_example =
    logged-Reads timed environment [] (memory_device 0x7fff 33280 0x820000000 3) (codes "1.0.0")
      emulator_version_run (omega arith) (omega arith) (omega arith) small_device (omega arith)
