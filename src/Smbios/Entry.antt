-- ===== src/Smbios/Entry.antt =====
-- The entry point of PlatformSmbiosDxe.c: which structures it logs, and with which handles.
use edk2_uemu.Common.{
  ℕ, ◌+◌, ◌≡◌, refl, true, false, Option, some, List, [], ◌∷◌, ◌++◌, length, ◌==◌, if◌then◌else◌,
  u8, u16, u32,
}
use edk2_uemu.Efi.{ok, ◌>>=◌, success, is_error}
use edk2_uemu.Text.{Text, codes}
use edk2_uemu.Fdt.{Platform}
use edk2_uemu.Sec.{Libfdt}
use edk2_uemu.Battery.{pack_size}
use edk2_uemu.Battery.Record.{smbios_record, build_record_lem}
use edk2_uemu.Smbios.Template.{
  Structure, bios_info, system_info, enclosure_info, board_info, oem_strings, memory_array,
  processor_info, boot_info, template,
}
use edk2_uemu.Smbios.{
  Environment, Names, log_smbios_data, strings, log_structure, update_emulator_version,
}
use edk2_uemu.Smbios.Cpu.{Counters, copy_version, estimate_cpu_frequency_mhz, log_cpu_info}
use edk2_uemu.Smbios.Memory.{MemoryNode, log_memory_info}
use edk2_uemu.Smbios.Driver.{platform_smbios_driver_entry_point}

-- The SMBIOS protocol is there, the pool has room, and Add succeeds.
pub record IsAvailable (env : Environment) : Type 0 where
  pub located : is_error env.protocol.locate ≡ false
  pub room : (size : ℕ) → env.protocol.has_pool size ≡ true
  pub accepts :
      (added : List (List ℕ)) (bytes : List ℕ) → (env.protocol.add added bytes).0 ≡ success

-- The record of a structure.
abbrev pub record_of : Environment → Names → Structure → List ℕ
record_of env names structure =
    smbios_record (template env.behind structure) (strings env names structure)

-- The handle that Add answers for a structure behind other records.
abbrev pub handle_of : Environment → Names → Structure → List (List ℕ) → ℕ
handle_of env names structure added = (env.protocol.add added (record_of env names structure)).1

pub log_available :
    (env : Environment) (names : Names) (structure : Structure) (added : List (List ℕ))
    → IsAvailable env
    → log_structure env names structure added
      ≡ ok (
        success,
        some (handle_of env names structure added),
        added ++ record_of env names structure ∷ [],
      )
unfolding log_structure log_smbios_data
log_available env names structure added is =
    let pack = strings env names structure in
    let template = template env.behind structure in
    rw
      (
        log_structure,
        log_smbios_data,
        is.located,
        is.room (length template + pack_size (some pack)),
        build_record_lem template (some pack),
        is.accepts added (smbios_record template pack),
      )
      refl

-- The names with the version of the processor.
abbrev pub with_version : Names → List (Option (Text × ℕ)) → Names
with_version names cpus = record names {
  processor_version = copy_version names.processor_version cpus;
}

-- The processor structure for so many processors at this frequency.
abbrev pub processor_of : List (Option (Text × ℕ)) → ℕ → Structure
processor_of cpus mhz =
    processor_info (if u32 (length cpus) == 0 then 1 else u8 (u32 (length cpus)))
      (if mhz == 0 then 0 else u16 mhz)

log_cpu_lem :
    (p : Platform) (lib : Libfdt) (env : Environment) (counters : Counters)
    (cpus : List (Option (Text × ℕ))) (names : Names) (added : List (List ℕ)) (mhz : ℕ)
    → IsAvailable env
    → estimate_cpu_frequency_mhz p lib counters ≡ ok mhz
    → log_cpu_info p lib env counters cpus names added
      ≡ ok (
        with_version names cpus,
        added ++ record_of env (with_version names cpus) (processor_of cpus mhz) ∷ [],
      )
unfolding log_cpu_info
log_cpu_lem p lib env counters cpus names added mhz is e =
    rw
      (
        log_cpu_info,
        e,
        ◌>>=◌,
        log_available env (with_version names cpus) (processor_of cpus mhz) added is,
      )
      refl

-- The names once the versions of the emulator and of the processor are known.
abbrev pub first_names : Text → Names
first_names version = record { version_name = version; processor_version = codes "rv64imafdc" }

-- The records before that of the memory array.
abbrev pub fixed_records : Environment → Names → List (List ℕ)
fixed_records env names =
    let before = record_of env names bios_info ∷ record_of env names system_info ∷ [] in
    let chassis = handle_of env names enclosure_info before in
    record_of env names bios_info
    ∷ record_of env names system_info
    ∷ record_of env names enclosure_info
    ∷ record_of env names (board_info (u16 chassis))
    ∷ record_of env names oem_strings
    ∷ []

-- The handle of the memory array.
abbrev pub array_handle : Environment → Names → ℕ
array_handle env names = handle_of env names memory_array (fixed_records env names)

-- The records before those of the memory.
abbrev pub first_records : Environment → Names → List (Option (Text × ℕ)) → ℕ → List (List ℕ)
first_records env names cpus mhz =
    fixed_records env names
    ++ record_of env names memory_array ∷ []
    ++ record_of env (with_version names cpus) (processor_of cpus mhz) ∷ []

-- Where the SMBIOS protocol takes every record, PlatformSmbiosDriverEntryPoint logs, in order: BIOS,
-- system and enclosure, the board with the handle of the enclosure, the OEM strings and the memory array,
-- the processor with the version and the frequency that were found, what LogMemoryInfo logs behind these
-- with the handle of the array, and the boot information.
pub entry_point_lem :
    (p : Platform) (lib : Libfdt) (env : Environment) (counters : Counters)
    (cpus : List (Option (Text × ℕ))) (nodes : List MemoryNode) (on_stack mhz : ℕ) (version : Text)
    (memory : List (List ℕ))
    → IsAvailable env
    → update_emulator_version p ≡ ok version
    → estimate_cpu_frequency_mhz p lib counters ≡ ok mhz
    → log_memory_info env
        (with_version (first_names version) cpus)
        (array_handle env (first_names version))
        nodes
        (first_records env (first_names version) cpus mhz)
      ≡ ok memory
    → platform_smbios_driver_entry_point p lib env counters cpus nodes on_stack
      ≡ ok (
        success,
        memory ++ record_of env (with_version (first_names version) cpus) boot_info ∷ [],
      )
unfolding platform_smbios_driver_entry_point
entry_point_lem p lib env counters cpus nodes on_stack mhz version memory is ev ef em =
    let names = first_names version in
    let found = with_version names cpus in
    let r = record_of env names in
    let before = r bios_info ∷ r system_info ∷ [] in
    let chassis = handle_of env names enclosure_info before in
    let board = board_info (u16 chassis) in
    let enclosed = r bios_info ∷ r system_info ∷ r enclosure_info ∷ [] in
    let boarded = r bios_info ∷ r system_info ∷ r enclosure_info ∷ r board ∷ [] in
    let fixed = fixed_records env names in
    rw
      (
        platform_smbios_driver_entry_point,
        ev,
        ◌>>=◌,
        log_available env names bios_info [] is,
        ◌>>=◌,
        log_available env names system_info (r bios_info ∷ []) is,
        ◌>>=◌,
        log_available env names enclosure_info before is,
        ◌>>=◌,
        log_available env names board enclosed is,
        ◌>>=◌,
        log_available env names oem_strings boarded is,
        ◌>>=◌,
        log_available env names memory_array fixed is,
        ◌>>=◌,
        log_cpu_lem p lib env counters cpus names (fixed ++ r memory_array ∷ []) mhz is ef,
        ◌>>=◌,
        em,
        ◌>>=◌,
        log_available env found boot_info memory is,
      )
      refl
