-- ===== src/Smbios/Versions.antt =====
-- The versions that PlatformSmbiosDxe.c takes from the device tree are strings without a NUL, so that every
-- record of the entry point can be read.
use edk2_uemu.Common.{
  ℕ, zero, suc, ◌<◌, ◌≡◌, if◌then◌else◌, Option, none, some, List, [], ◌∷◌, ◌==◌, leb, ltb, length,
  take, Bool-cases, inl, inr, arith,
}
use edk2_uemu.Common.Int.{pos}
use edk2_uemu.Efi.{ok, ◌>>=◌, Result-cases}
use edk2_uemu.Text.{Text, codes, ascii_strn_len_s}
use edk2_uemu.Fdt.{Platform, uemu_fdt_get, uemu_fdt_get_string}
use edk2_uemu.Smbios.Template.{Structure, template}
use edk2_uemu.Smbios.{Environment, update_emulator_version}
use edk2_uemu.Smbios.Cpu.{copy_version}
use edk2_uemu.Smbios.Strings.{IsString}
use edk2_uemu.Smbios.Entry.{with_version, first_names}
use edk2_uemu.Smbios.Members.{IsText, NumbersFit, number_members}
use edk2_uemu.Smbios.Records.{Reads, record-Reads}

up_to_nul-IsString : (s : Text) (n : ℕ) → IsString (take (ascii_strn_len_s s n) s)
unfolding ascii_strn_len_s
up_to_nul-IsString s zero = tt
up_to_nul-IsString [] (suc n) = tt
up_to_nul-IsString (c ∷ s) (suc n) = elim (Bool-cases (c == 0)) [
  | inl e ↦ rw e tt
  | inr e ↦ rw e (ground (arith, e), up_to_nul-IsString s n)
]

checked-IsString :
    (bytes : Text) (size : ℕ)
    → IsString (if leb size 128 then take (ascii_strn_len_s bytes size) bytes else codes "1.0.0")
checked-IsString bytes size = elim (Bool-cases (leb size 128)) [
  | inl e ↦ rw e (up_to_nul-IsString bytes size)
  | inr e ↦ rw e (omega arith)
]

emulator_version-IsString :
    (p : Platform) {version : Text} → update_emulator_version p ≡ ok version → IsString version
unfolding update_emulator_version
emulator_version-IsString p {version} h =
    let found = uemu_fdt_get p 1 >>= λ fdt.
    uemu_fdt_get_string p fdt (pos 0) (some (codes "uotan,emulator-version")) 1 in
    elim (Result-cases found) [
      | inl ((bytes, size), e) ↦
          let same : (if leb size 128
                then take (ascii_strn_len_s bytes size) bytes
                else codes "1.0.0")
              ≡ version =
            cc (rw (e, update_emulator_version) at h) in
          rw (← same) (checked-IsString bytes size)
      | inr (inl (status, e)) ↦
          let same : codes "1.0.0" ≡ version = cc (rw (e, update_emulator_version) at h) in
          rw (← same) (omega arith)
      | inr (inr e) ↦ cc (rw (e, update_emulator_version) at h)
    ]

copy_version-IsString :
    (old : Text) (cpus : List (Option (Text × ℕ))) → IsString old → IsString (copy_version old cpus)
unfolding copy_version
copy_version-IsString old [] h = h
copy_version-IsString old (none ∷ cpus) h = h
copy_version-IsString old (some (bytes, size) ∷ cpus) h = elim (Bool-cases (size == 0)) [
  | inl e ↦ rw e h
  | inr e ↦ rw e (up_to_nul-IsString bytes (if ltb size 128 then size else 127))
]

-- The record of any structure of the driver, with the versions that its entry point finds, can be read,
-- where neither the versions nor the build date are empty, the structure is shorter than 256 bytes, and
-- what the driver sets fits its members. A reader finds: the type; the length of the members as the
-- header's Length; under a member that is a string number the string that `string_members` lists, which is
-- none for an asset tag and for the location of the board in its chassis; and in the members that the
-- driver sets, and in the capacities of the memory array, what `number_members` lists: what it set,
-- and 0x80000000 KB with an extended capacity of 0.
pub logged-Reads :
    (p : Platform) (env : Environment) (cpus : List (Option (Text × ℕ))) (structure : Structure)
    (version : Text)
    → update_emulator_version p ≡ ok version
    → IsText env.build_date
    → 0 < length version
    → 0 < length (copy_version (codes "rv64imafdc") cpus)
    → length (template env.behind structure) < 256
    → NumbersFit (number_members structure)
    → Reads env (with_version (first_names version) cpus) structure
logged-Reads p env cpus structure version found date v c small fit =
    record-Reads env (with_version (first_names version) cpus) structure date
      (v, emulator_version-IsString p found)
      (c, copy_version-IsString (codes "rv64imafdc") cpus (omega arith)) small fit
