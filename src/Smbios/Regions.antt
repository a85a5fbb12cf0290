-- ===== src/Smbios/Regions.antt =====
-- LogMemoryInfo of PlatformSmbiosDxe.c, against the memory regions that the device tree encodes.
use edk2_uemu.Common.{
  ℕ, zero, suc, ◌+◌, ◌-◌, ◌*◌, ◌/◌, ◌%◌, ◌^◌, ◌<◌, ◌≤◌, ◌≡◌, refl, inl, inr, Bool, true, false, not,
  Option, some, none, List, [], ◌∷◌, ◌++◌, length, arith, ltb, ◌==◌, if◌then◌else◌, Bool-cases,
  sub64, u32, u64,
}
use edk2_uemu.Common.Bits.{bit_or_fields}
use edk2_uemu.Efi.{Status, ok, is_error, out_of_resources}
use edk2_uemu.Battery.{pack_size}
use edk2_uemu.Battery.Record.{smbios_record, build_record_lem}
use edk2_uemu.Smbios.Template.{Structure, memory_range, template}
use edk2_uemu.Smbios.{Environment, Names, log_smbios_data, strings, log_structure, is_success}
use edk2_uemu.Smbios.Cpu.{swap_bytes32}
use edk2_uemu.Smbios.Memory.{read_number, less_tuple, range_structure, region_loop}

-- The 32-bit words of a number, as the CPU loads them.
abbrev pub words : Bool → ℕ → List ℕ
words false v = swap_bytes32 v ∷ []
words true v = swap_bytes32 (v / 2 ^ 32) ∷ swap_bytes32 (v % 2 ^ 32) ∷ []

-- The number fits its words.
abbrev pub Fits : Bool → ℕ → Type 0
Fits false v = v < 2 ^ 32
Fits true v = v < 2 ^ 64

swap_swap : (w : ℕ) → w < 2 ^ 32 → swap_bytes32 (swap_bytes32 w) ≡ w
unfolding swap_bytes32
swap_swap w h = omega arith

read_number_lem :
    (two : Bool) (v : ℕ) (rest : List ℕ)
    → Fits two v
    → read_number two (words two v ++ rest) ≡ ok (v, rest)
unfolding read_number
read_number_lem false v rest h = rw (swap_swap v h) refl
read_number_lem true v rest h =
    let high = swap_swap (v / 2 ^ 32) (omega arith) in
    let low = swap_swap (v % 2 ^ 32) (omega arith) in
    let small : u64 (v / 2 ^ 32 * 2 ^ 32) ≡ v / 2 ^ 32 * 2 ^ 32 = omega arith in
    let whole : v / 2 ^ 32 * 2 ^ 32 + v % 2 ^ 32 ≡ v = omega arith in
    rw (high, low, small, bit_or_fields 32 (v / 2 ^ 32) (v % 2 ^ 32) (omega arith), whole) refl

-- A region of a node: it fits its words, is not empty, and ends at 4 TB at the latest.
abbrev pub IsRegion : ℕ → ℕ → ℕ → ℕ → Type 0
IsRegion address_cells size_cells base size =
    Fits (ltb 1 address_cells) base
    × Fits (ltb 1 size_cells) size
    × (0 < size)
    × (base + size ≤ 2 ^ 42)

abbrev pub AreRegions : ℕ → ℕ → List (ℕ × ℕ) → Type 0
AreRegions address_cells size_cells [] = Unit
AreRegions address_cells size_cells ((base, size) ∷ regions) =
    IsRegion address_cells size_cells base size × AreRegions address_cells size_cells regions

-- The `reg` of a node with these regions, and its size in bytes.
abbrev pub reg_of : ℕ → ℕ → List (ℕ × ℕ) → List ℕ
reg_of address_cells size_cells [] = []
reg_of address_cells size_cells ((base, size) ∷ regions) =
    words (ltb 1 address_cells) base
    ++ (words (ltb 1 size_cells) size ++ reg_of address_cells size_cells regions)

abbrev pub reg_bytes : ℕ → List (ℕ × ℕ) → ℕ
reg_bytes cells [] = 0
reg_bytes cells (region ∷ regions) = cells * 4 + reg_bytes cells regions

-- What LogSmbiosData adds for a structure: its record, where the protocol and the pool are there.
abbrev pub added_by : Environment → Names → Structure → List (List ℕ) → List (List ℕ)
added_by env names structure added =
    let template = template env.behind structure in
    let pack = strings env names structure in
    if is_error env.protocol.locate
    then added
    else if not (env.protocol.has_pool (length template + pack_size (some pack)))
    then added
    else added ++ smbios_record template pack ∷ []

pub log_structure_lem :
    (env : Environment) (names : Names) (structure : Structure) (added : List (List ℕ))
    → (status : Status) × (handle : Option ℕ) × (log_structure env names structure added
        ≡ ok (status, handle, added_by env names structure added))
unfolding log_structure log_smbios_data
log_structure_lem env names structure added =
    let pack = strings env names structure in
    let built = build_record_lem (template env.behind structure) (some pack) in
    elim (Bool-cases (is_error env.protocol.locate)) [
      | inl missing ↦ (env.protocol.locate, none, rw (log_structure, log_smbios_data, missing) refl)
      | inr located ↦
          elim (Bool-cases (
            env.protocol.has_pool
              (length (template env.behind structure) + pack_size (some pack)))) [
                | inr full ↦ (
                  out_of_resources,
                  none,
                  rw (log_structure, log_smbios_data, located, full) refl,
                )
                | inl room ↦
                    let answer =
                      env.protocol.add added (smbios_record (template env.behind structure) pack) in
                    (
                      answer.0,
                      (if is_success answer.0 then some answer.1 else none),
                      rw (log_structure, log_smbios_data, located, room, built) refl,
                    )
              ]
    ]

-- The records of the regions, with their first and last address in KB.
abbrev pub range_records : Environment → Names → ℕ → List (ℕ × ℕ) → List (List ℕ) → List (List ℕ)
range_records env names handle [] added = added
range_records env names handle ((base, size) ∷ regions) added =
    range_records env names handle regions
      (added_by env names (memory_range (base / 1024) ((base + size - 1) / 1024) handle) added)

abbrev pub total_size : List (ℕ × ℕ) → ℕ
total_size [] = 0
total_size ((base, size) ∷ regions) = size + total_size regions

range_structure_lem :
    (handle base size : ℕ)
    → 0 < size
    → base + size ≤ 2 ^ 42
    → range_structure handle base size
      ≡ memory_range (base / 1024) ((base + size - 1) / 1024) handle
unfolding range_structure
range_structure_lem handle base size h k =
    let start : u32 (base / 1024) ≡ base / 1024 = omega arith in
    let end : u32 (sub64 (u64 (base + size)) 1 / 1024) ≡ (base + size - 1) / 1024 = omega arith in
    rw (start, end) refl

pub region_loop_lem :
    (env : Environment) (names : Names) (handle ac sc left : ℕ) (regions : List (ℕ × ℕ)) (total : ℕ)
    (added : List (List ℕ))
    → 0 < ac
    → AreRegions ac sc regions
    → reg_bytes (ac + sc) regions < 2 ^ 32
    → total + total_size regions < 2 ^ 64
    → length regions ≤ left
    → region_loop env names handle ac sc left
        (reg_bytes (ac + sc) regions)
        (reg_of ac sc regions)
        total
        added
      ≡ ok (total + total_size regions, range_records env names handle regions added)
unfolding region_loop
region_loop_lem env names handle ac sc zero [] total added hac are small fits h =
    let e : total + 0 ≡ total = omega arith in rw e refl
region_loop_lem env names handle ac sc (suc left) [] total added hac are small fits h =
    let e : total + 0 ≡ total = omega arith in rw e refl
region_loop_lem env names handle ac sc zero (region ∷ regions) total added hac are small fits h =
    absurd (omega arith)
region_loop_lem env names handle ac sc (suc left) ((base, size) ∷ regions) total added hac
      ((fb, fs, positive, below), are) small fits h =
    let more : ((ac + sc) * 4 + reg_bytes (ac + sc) regions == 0) ≡ false = ground (arith, hac) in
    let rest = reg_of ac sc regions in
    let (status, out, logged) =
      log_structure_lem env names (range_structure handle base size) added in
    let next : less_tuple ((ac + sc) * 4 + reg_bytes (ac + sc) regions) (ac + sc)
        ≡ reg_bytes (ac + sc) regions =
      omega arith in
    let sum : u64 (total + size) ≡ total + size = omega arith in
    let assoc : total + size + total_size regions ≡ total + (size + total_size regions) =
      omega arith in
    rw
      (
        region_loop,
        more,
        read_number_lem (ltb 1 ac) base (words (ltb 1 sc) size ++ rest) fb,
        read_number_lem (ltb 1 sc) size rest fs,
        logged,
        next,
        sum,
        region_loop_lem env names handle ac sc left regions (total + size)
            (added_by env names (range_structure handle base size) added) hac are (omega arith)
            (omega arith) (omega arith),
        range_structure_lem handle base size positive below,
        assoc,
      )
      refl
