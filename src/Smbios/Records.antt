-- ===== src/Smbios/Records.antt =====
-- The records of PlatformSmbiosDxe.c, as a reader of the SMBIOS tables finds them.
use edk2_uemu.Common.{ℕ, ◌<◌, ◌≡◌, refl, List, [], ◌∷◌, length, get_or, drop, arith}
use edk2_uemu.Text.{Text}
use edk2_uemu.Smbios.Template.{
  Structure, bios_info, system_info, enclosure_info, oem_strings, memory_array, boot_info,
  board_info, processor_info, memory_range, memory_device, type_of, template,
}
use edk2_uemu.Smbios.{Environment, Names, Protocol, strings}
use edk2_uemu.Smbios.Strings.{AreStrings}
use edk2_uemu.Packed.{read_le-le_bytes}
use edk2_uemu.Battery.Record.{smbios_record}
use edk2_uemu.Smbios.Entry.{record_of}
use edk2_uemu.Smbios.Members.{string_members, number_members, NumbersFit, IsText}
use edk2_uemu.Smbios.Reader.{StringsRead, NumbersRead, NamesStrings, strings_read}

module _ (protocol : Protocol) (behind : Structure → ℕ) where
  abbrev environment : Text → Environment
  environment date = record { protocol = protocol; behind = behind; build_date = date }

  abbrev names_of : Text → Text → Names
  names_of version processor = record { version_name = version; processor_version = processor }

  pack_strings :
      (date version processor : Text) (structure : Structure)
      → IsText date
      → IsText version
      → IsText processor
      → AreStrings (strings (environment date) (names_of version processor) structure)
  unfolding strings
  pack_strings date version processor bios_info d v p = (omega arith, (omega arith, (d.1, tt)))
  pack_strings date version processor system_info d v p =
      (omega arith, (omega arith, (v.1, (omega arith, (omega arith, (omega arith, tt))))))
  pack_strings date version processor (board_info h) d v p =
      (omega arith, (omega arith, (v.1, (omega arith, (tt, (omega arith, tt))))))
  pack_strings date version processor enclosure_info d v p =
      (omega arith, (omega arith, (omega arith, (tt, tt))))
  pack_strings date version processor (processor_info n mhz) d v p =
      (omega arith, (omega arith, (p.1, (omega arith, tt))))
  pack_strings date version processor oem_strings d v p = (omega arith, tt)
  pack_strings date version processor memory_array d v p = tt
  pack_strings date version processor (memory_range a b h) d v p = tt
  pack_strings date version processor (memory_device a b c h) d v p =
      (omega arith, (omega arith, (omega arith, tt)))
  pack_strings date version processor boot_info d v p = tt

  names_strings :
      (date version processor : Text) (structure : Structure)
      → IsText date
      → IsText version
      → IsText processor
      → NamesStrings
          (template behind structure)
          (strings (environment date) (names_of version processor) structure)
          (string_members (environment date) (names_of version processor) structure)
  unfolding strings template
  names_strings [] version processor structure d v p = absurd (omega arith)
  names_strings (c ∷ date) [] processor structure d v p = absurd (omega arith)
  names_strings (c ∷ date) (e ∷ version) [] structure d v p = absurd (omega arith)
  names_strings (c ∷ date) (e ∷ version) (f ∷ processor) bios_info d v p =
      (omega arith, refl, (omega arith, refl, (omega arith, refl, tt)))
  names_strings (c ∷ date) (e ∷ version) (f ∷ processor) system_info d v p = (
    omega arith,
    refl,
    (
      omega arith,
      refl,
      (omega arith, refl, (omega arith, refl, (omega arith, refl, (omega arith, refl, tt)))),
    ),
  )
  names_strings (c ∷ date) (e ∷ version) (f ∷ processor) (board_info h) d v p = (
    omega arith,
    refl,
    (
      omega arith,
      refl,
      (omega arith, refl, (omega arith, refl, (omega arith, refl, (omega arith, refl, tt)))),
    ),
  )
  names_strings (c ∷ date) (e ∷ version) (f ∷ processor) enclosure_info d v p =
      (omega arith, refl, (omega arith, refl, (omega arith, refl, (omega arith, refl, tt))))
  names_strings (c ∷ date) (e ∷ version) (f ∷ processor) (processor_info n mhz) d v p = (
    omega arith,
    refl,
    (
      omega arith,
      refl,
      (omega arith, refl, (omega arith, refl, (omega arith, refl, (omega arith, refl, tt)))),
    ),
  )
  names_strings (c ∷ date) (e ∷ version) (f ∷ processor) oem_strings d v p = tt
  names_strings (c ∷ date) (e ∷ version) (f ∷ processor) memory_array d v p = tt
  names_strings (c ∷ date) (e ∷ version) (f ∷ processor) (memory_range a b h) d v p = tt
  names_strings (c ∷ date) (e ∷ version) (f ∷ processor) (memory_device a b x h) d v p = (
    omega arith,
    refl,
    (
      omega arith,
      refl,
      (
        omega arith,
        refl,
        (omega arith, refl, (omega arith, refl, (omega arith, refl, (omega arith, refl, tt)))),
      ),
    ),
  )
  names_strings (c ∷ date) (e ∷ version) (f ∷ processor) boot_info d v p = tt

  template_sized :
      (structure : Structure)
      → length (template behind structure) < 256
      → (1 < length (template behind structure))
        × (get_or (template behind structure) 1 0 ≡ length (template behind structure))
  unfolding template
  template_sized structure h = (omega arith, omega arith)

  numbers_read :
      (structure : Structure) (pack : List Text)
      → NumbersFit (number_members structure)
      → NumbersRead (smbios_record (template behind structure) pack) (number_members structure)
  unfolding template
  numbers_read (board_info h) pack fit = (omega arith, tt)
  numbers_read (processor_info n mhz) pack fit =
      (omega arith, (omega arith, (omega arith, (omega arith, tt))))
  numbers_read (memory_range a b h) pack fit = (omega arith, (omega arith, (omega arith, tt)))
  numbers_read (memory_device a b x h) pack fit = (
    omega arith,
    (
      omega arith,
      (
        omega arith,
        (
          read_le-le_bytes 8 x
              (drop 0x44 (smbios_record (template behind (memory_device a b x h)) pack))
              fit.1.1.1.0,
          tt,
        ),
      ),
    ),
  )
  numbers_read bios_info pack fit = tt
  numbers_read system_info pack fit = tt
  numbers_read enclosure_info pack fit = tt
  numbers_read oem_strings pack fit = tt
  numbers_read memory_array pack fit = (refl, (refl, tt))
  numbers_read boot_info pack fit = tt

-- What a reader finds in the record of a structure: its type, the end of its members, its strings and
-- the numbers that the driver set.
abbrev pub Reads : Environment → Names → Structure → Type 0
Reads env names structure =
    let bytes = record_of env names structure in
    (get_or bytes 0 0 ≡ type_of structure)
    × (get_or bytes 1 0 ≡ length (template env.behind structure))
    × StringsRead bytes (string_members env names structure)
    × NumbersRead bytes (number_members structure)

-- In the record of a structure a reader finds, whatever the structure: its type; the length of its
-- members as the header's Length; under every member that is a string number the string that the member
-- is for, or none; and in the members that the driver sets what it set.
pub record-Reads :
    (env : Environment) (names : Names) (structure : Structure)
    → IsText env.build_date
    → IsText names.version_name
    → IsText names.processor_version
    → length (template env.behind structure) < 256
    → NumbersFit (number_members structure)
    → Reads env names structure
unfolding template
record-Reads env names structure d v p small fit =
    let strings_there =
      pack_strings env.protocol env.behind env.build_date names.version_name names.processor_version
        structure d v p in
    let named =
      names_strings env.protocol env.behind env.build_date names.version_name
        names.processor_version structure d v p in
    let (header, sized) = template_sized env.protocol env.behind structure small in
    (
      refl,
      sized,
      strings_read (template env.behind structure) (strings env names structure) strings_there
          header sized (string_members env names structure) named,
      numbers_read env.protocol env.behind structure (strings env names structure) fit,
    )
