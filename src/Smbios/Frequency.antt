-- ===== src/Smbios/Frequency.antt =====
-- EstimateCpuFrequencyMHz of PlatformSmbiosDxe.c.
use edk2_uemu.Common.{
  ℕ, zero, suc, ◌+◌, ◌-◌, ◌*◌, ◌/◌, ◌^◌, ◌<◌, ◌≤◌, ◌≡◌, ◌≢◌, refl, ◌⊎◌, true, false, List, length,
  arith, ltb, ◌==◌, if◌then◌else◌, sub64, u64, ap, ◌∙◌, ◌||◌,
}
use edk2_uemu.Efi.{ok}
use edk2_uemu.Fdt.{Platform}
use edk2_uemu.Sec.{Libfdt}
use edk2_uemu.Smbios.Array.{entry}
use edk2_uemu.Smbios.Sort.{rank}
use edk2_uemu.Smbios.Sorted.{IsSorted, quick_sort-IsSorted}
use edk2_uemu.Smbios.Cpu.{
  get_time_base_frequency, bench_sort_size, fill, is_in_order, Counters, frequency_mhz,
  estimate_cpu_frequency_mhz,
}

length-fill : (left lcg : ℕ) → length (fill left lcg) ≡ left
unfolding fill
length-fill zero lcg = refl
length-fill (suc left) lcg = ap suc (length-fill left _)

in_order_lem :
    (array : List ℕ) (left idx : ℕ)
    → IsSorted array 0 (idx + left)
    → is_in_order array left (idx + 1) ≡ true
unfolding is_in_order
in_order_lem array zero idx sorted = refl
in_order_lem array (suc left) idx sorted =
    let here : rank (entry array idx) ≤ rank (entry array (suc idx)) =
      sorted idx (omega arith) (omega arith) in
    let test : ltb (rank (entry array (idx + 1))) (rank (entry array (idx + 1 - 1))) ≡ false =
      let back : idx + 1 - 1 ≡ idx = omega arith in
      let next : idx + 1 ≡ suc idx = omega arith in rw (back, next) (ground (arith, here)) in
    rw (is_in_order, test) (in_order_lem array left (idx + 1) (λ c h k. sorted c h (omega arith)))

-- The frequency in MHz of so many cycles in so many ticks of the time base, 0 where that is less than
-- 10 MHz or more than 10 GHz.
abbrev pub plausible_mhz : ℕ → ℕ → ℕ → ℕ
plausible_mhz delta_time delta_cycle freq =
    let mhz = delta_cycle * freq / (delta_time * 1000000) in
    if delta_time == 0 || delta_cycle == 0 || ltb mhz 10 || ltb 10000 mhz then 0 else mhz

-- The ticks and the cycles of the sort.
abbrev pub ticks : Counters → ℕ
ticks counters = sub64 counters.end_time counters.start_time

abbrev pub cycles : Counters → ℕ
cycles counters = sub64 counters.end_cycle counters.start_cycle

u64_small : (n : ℕ) → n < 2 ^ 64 → u64 n ≡ n
u64_small n h = omega arith

frequency_lem :
    (counters : Counters) (freq : ℕ)
    → ticks counters * 1000000 < 2 ^ 64
    → cycles counters * freq < 2 ^ 64
    → frequency_mhz counters freq ≡ ok (plausible_mhz (ticks counters) (cycles counters) freq)
unfolding frequency_mhz
frequency_lem counters freq ht hc =
    let time : u64 (ticks counters * 1000000) ≡ ticks counters * 1000000 =
      u64_small (ticks counters * 1000000) ht in
    let cycle : u64 (cycles counters * freq) ≡ cycles counters * freq =
      u64_small (cycles counters * freq) hc in
    rw (frequency_mhz, time, cycle) (ground arith)

plausible_bounds :
    (delta_time delta_cycle freq : ℕ)
    → (plausible_mhz delta_time delta_cycle freq ≡ 0)
      ⊎ ((10 ≤ plausible_mhz delta_time delta_cycle freq)
          × (plausible_mhz delta_time delta_cycle freq ≤ 10000))
plausible_bounds delta_time delta_cycle freq = ground arith

estimate_lem :
    (p : Platform) (lib : Libfdt) (counters : Counters) {freq : ℕ}
    → get_time_base_frequency p lib ≡ ok freq
    → freq ≢ 0
    → estimate_cpu_frequency_mhz p lib counters ≡ frequency_mhz counters freq
unfolding estimate_cpu_frequency_mhz
estimate_lem p lib counters {freq} e h =
    let array = fill bench_sort_size 1 in
    let len = length-fill bench_sort_size 1 in
    let (sorted, done, _, _, _, ordered) =
      quick_sort-IsSorted bench_sort_size array 0 (bench_sort_size - 1) (omega arith)
        (omega (arith, len)) in
    let test : (freq == 0) ≡ false = ground (arith, h) in
    rw
      (
        estimate_cpu_frequency_mhz,
        e,
        test,
        done,
        in_order_lem sorted (bench_sort_size - 1) 0 (λ c hc kc. ordered c hc (omega (arith, kc))),
      )
      refl

-- Where the time base is known and neither product passes 2^64, EstimateCpuFrequencyMHz answers the
-- cycles per tick that were counted, as MHz, where that is between 10 MHz and 10 GHz, and 0 elsewhere: the
-- sort ends within the array and its verification never fails, and no product wraps or is a divisor of 0.
pub estimate_cpu_frequency_lem :
    (p : Platform) (lib : Libfdt) (counters : Counters) (freq : ℕ)
    → get_time_base_frequency p lib ≡ ok freq
    → freq ≢ 0
    → ticks counters * 1000000 < 2 ^ 64
    → cycles counters * freq < 2 ^ 64
    → let mhz = plausible_mhz (ticks counters) (cycles counters) freq in
      (estimate_cpu_frequency_mhz p lib counters ≡ ok mhz)
      × ((mhz ≡ 0) ⊎ ((10 ≤ mhz) × (mhz ≤ 10000)))
estimate_cpu_frequency_lem p lib counters freq e h ht hc = (
  estimate_lem p lib counters e h ∙ frequency_lem counters freq ht hc,
  plausible_bounds (ticks counters) (cycles counters) freq,
)
