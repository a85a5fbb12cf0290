-- ===== src/Smbios/Reader.antt =====
-- What a reader of the SMBIOS tables finds in a record of PlatformSmbiosDxe.c, by the SMBIOS
-- specification: the string that a member names by its number, and the number that a member holds.
use edk2_uemu.Common.{
  ℕ, zero, suc, ◌<◌, ◌≡◌, refl, ◌∙◌, Option, none, List, [], ◌∷◌, ◌++◌, length, get_or, drop, arith,
}
use edk2_uemu.Text.{Text}
use edk2_uemu.Packed.{read_le}
use edk2_uemu.Battery.Record.{smbios_record}
use edk2_uemu.Smbios.Strings.{find_string, readable, AreStrings, record-reads}

-- String number n of a string area; 0 is no string.
abbrev pub numbered : ℕ → List ℕ → Option Text
numbered zero area = none
numbered (suc i) area = find_string i area

-- The string whose number stands at an offset. The string area starts behind the Length of the header.
abbrev pub string_at : List ℕ → ℕ → Option Text
string_at bytes offset = numbered (get_or bytes offset 0) (drop (get_or bytes 1 0) bytes)

-- The number of so many bytes at an offset.
abbrev pub number_at : List ℕ → ℕ × ℕ → ℕ
number_at bytes (offset, width) = read_le width (drop offset bytes)

-- The reader finds these strings, and these numbers.
abbrev pub StringsRead : List ℕ → List (ℕ × Option Text) → Type 0
StringsRead bytes [] = Unit
StringsRead bytes ((offset, text) ∷ table) =
    (string_at bytes offset ≡ text) × StringsRead bytes table

abbrev pub NumbersRead : List ℕ → List ((ℕ × ℕ) × ℕ) → Type 0
NumbersRead bytes [] = Unit
NumbersRead bytes ((place, number) ∷ table) =
    (number_at bytes place ≡ number) × NumbersRead bytes table

-- String number n of a pack, as far as a reader finds it.
abbrev pub of_pack : ℕ → List Text → Option Text
of_pack zero pack = none
of_pack (suc i) pack = readable pack i

-- The members of the template name these strings of the pack.
abbrev pub NamesStrings : List ℕ → List Text → List (ℕ × Option Text) → Type 0
NamesStrings template pack [] = Unit
NamesStrings template pack ((offset, text) ∷ table) =
    (offset < length template)
    × (of_pack (get_or template offset 0) pack ≡ text)
    × NamesStrings template pack table

get_or-append :
    (front back : List ℕ) (i : ℕ) → i < length front → get_or (front ++ back) i 0 ≡ get_or front i 0
get_or-append [] back i h = absurd (omega arith)
get_or-append (f ∷ front) back zero h = refl
get_or-append (f ∷ front) back (suc i) h = get_or-append front back i (omega arith)

numbered-reads :
    (template : List ℕ) (pack : List Text) (n : ℕ)
    → AreStrings pack
    → numbered n (drop (length template) (smbios_record template pack)) ≡ of_pack n pack
numbered-reads template pack zero h = refl
numbered-reads template pack (suc i) h = record-reads template pack i h

module _ (template : List ℕ) (pack : List Text) (strings : AreStrings pack)
    (header : 1 < length template) (sized : get_or template 1 0 ≡ length template) where
  length_byte : get_or (smbios_record template pack) 1 0 ≡ length template
  length_byte = get_or-append template _ 1 header ∙ sized

  string_at_lem :
      (offset : ℕ)
      → offset < length template
      → string_at (smbios_record template pack) offset ≡ of_pack (get_or template offset 0) pack
  string_at_lem offset h =
      rw (get_or-append template _ offset h, length_byte)
        (numbered-reads template pack (get_or template offset 0) strings)

  pub strings_read :
      (table : List (ℕ × Option Text))
      → NamesStrings template pack table
      → StringsRead (smbios_record template pack) table
  strings_read [] h = tt
  strings_read ((offset, text) ∷ table) h = (string_at_lem offset h.0 ∙ h.1, strings_read table h.2)
