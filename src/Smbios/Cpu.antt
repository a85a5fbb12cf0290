-- ===== src/Smbios/Cpu.antt =====
-- The processor record of PlatformSmbiosDxe.c. The counters that the CPU reads are arguments.
use edk2_uemu.Common.{
  ℕ, zero, suc, ◌+◌, ◌-◌, ◌*◌, ◌/◌, ◌%◌, ◌^◌, Bool, true, false, not, ◌||◌, Option, none, some,
  List, [], ◌∷◌, ◌==◌, ltb, if◌then◌else◌, length, take, u8, u16, u32, u64, sub64,
}
use edk2_uemu.Common.Int.{pos, is_zero, is_negative, is_equal}
use edk2_uemu.Efi.{Result, ok, fault, ◌>>=◌}
use edk2_uemu.Text.{Text, codes, ascii_strn_len_s}
use edk2_uemu.Fdt.{Platform, word32}
use edk2_uemu.Sec.{Libfdt}
use edk2_uemu.Smbios.Template.{processor_info}
use edk2_uemu.Smbios.{Environment, Names, log_structure}
use edk2_uemu.Smbios.Array.{entry}
use edk2_uemu.Smbios.Sort.{rank, quick_sort_int32}

-- SwapBytes32
unfoldable pub swap_bytes32 : ℕ → ℕ
swap_bytes32 w =
    w % 2 ^ 8 * 2 ^ 24
    + w / 2 ^ 8 % 2 ^ 8 * 2 ^ 16
    + w / 2 ^ 16 % 2 ^ 8 * 2 ^ 8
    + w / 2 ^ 24 % 2 ^ 8

-- GetTimeBaseFrequency
unfoldable pub get_time_base_frequency : Platform → Libfdt → Result ℕ
get_time_base_frequency p lib = elim p.first_fdt_hob [
  | none ↦ ok 0
  | some hob ↦
      let node = lib.subnode_offset hob.value (pos 0) (codes "cpus") in
      if not (is_zero (p.check_header hob.value)) || is_negative node
      then ok 0
      else elim (p.get_prop hob.value node (codes "timebase-frequency")) [
        | none ↦ ok 0
        | some prop ↦
            if not (is_equal prop.len 4)
            then ok 0
            else elim (word32 prop.bytes) [ none ↦ fault | some w ↦ ok (swap_bytes32 w) ]
      ]
]

-- BENCH_SORT_SIZE
abbrev pub bench_sort_size : ℕ
bench_sort_size = 4096

-- The loop that fills SortArray, over the rounds left.
unfoldable pub fill : ℕ → ℕ → List ℕ
fill zero lcg = []
fill (suc left) lcg =
    let next = u64 (lcg * 1103515245 + 12345) in u32 (next / 2 ^ 16) ∷ fill left next

-- The loop that verifies the order, over the rounds left.
unfoldable pub is_in_order : List ℕ → ℕ → ℕ → Bool
is_in_order array zero idx = true
is_in_order array (suc left) idx =
    elim (ltb (rank (entry array idx)) (rank (entry array (idx - 1)))) [
      | true ↦ false
      | false ↦ is_in_order array left (idx + 1)
    ]

-- RiscVReadTimer and rdcycle around the sort.
pub record Counters : Type 0 where
  pub start_time : ℕ
  pub end_time : ℕ
  pub start_cycle : ℕ
  pub end_cycle : ℕ

-- EstimateCpuFrequencyMHz behind the verification; a division by 0 is a fault.
unfoldable pub frequency_mhz : Counters → ℕ → Result ℕ
frequency_mhz counters time_base_freq =
    let delta_time = sub64 counters.end_time counters.start_time in
    let delta_cycle = sub64 counters.end_cycle counters.start_cycle in
    let divisor = u64 (delta_time * 1000000) in
    let freq_mhz = u64 (delta_cycle * time_base_freq) / divisor in
    if delta_time == 0 || delta_cycle == 0
    then ok 0
    else if divisor == 0
    then fault
    else if ltb freq_mhz 10 || ltb 10000 freq_mhz
    then ok 0
    else ok (u32 freq_mhz)

-- EstimateCpuFrequencyMHz
unfoldable pub estimate_cpu_frequency_mhz : Platform → Libfdt → Counters → Result ℕ
estimate_cpu_frequency_mhz p lib counters = get_time_base_frequency p lib >>= λ time_base_freq.
    if time_base_freq == 0
    then ok 0
    else elim (quick_sort_int32 bench_sort_size (fill bench_sort_size 1) 0 (bench_sort_size - 1)) [
      | none ↦ fault
      | some sorted ↦
          if not (is_in_order sorted (bench_sort_size - 1) 1)
          then ok 0
          else frequency_mhz counters time_base_freq
    ]

-- The processor version: `riscv,isa` of the first node, up to 127 characters; a node without it is
-- `none`.
unfoldable pub copy_version : Text → List (Option (Text × ℕ)) → Text
copy_version old [] = old
copy_version old (none ∷ cpus) = old
copy_version old (some (bytes, size) ∷ cpus) =
    if size == 0
    then old
    else take (ascii_strn_len_s bytes (if ltb size 128 then size else 127)) bytes

-- LogCpuInfo, over the nodes that the FDT client finds in turn, with their `riscv,isa`.
unfoldable pub log_cpu_info :
    Platform
    → Libfdt
    → Environment
    → Counters
    → List (Option (Text × ℕ))
    → Names
    → List (List ℕ)
    → Result (Names × List (List ℕ))
log_cpu_info p lib env counters cpus names added = do
  let next = record names { processor_version = copy_version names.processor_version cpus }
  let count = u32 (length cpus)
  freq_mhz ← estimate_cpu_frequency_mhz p lib counters
  logged ←
      log_structure env next
        (processor_info (if count == 0 then 1 else u8 count)
          (if freq_mhz == 0 then 0 else u16 freq_mhz))
        added
  ok (next, logged.2)
