-- ===== src/Smbios/Strings.antt =====
-- The strings of the records that LogSmbiosData of PlatformSmbiosDxe.c builds, as a reader of the SMBIOS
-- tables finds them.
use edk2_uemu.Common.{
  ℕ, zero, suc, ◌+◌, ◌<◌, ◌≡◌, refl, true, false, Option, none, some, List, [], ◌∷◌, ◌++◌, length,
  arith, ◌==◌, if◌then◌else◌, drop, ap, ◌∙◌,
}
use mathlib.Core.List.{append_assoc}
use edk2_uemu.Efi.{ok, is_error}
use edk2_uemu.Text.{Text}
use edk2_uemu.Battery.{pack_size, with_nul}
use edk2_uemu.Battery.Record.{packed, smbios_record, build_record_lem}
use edk2_uemu.Smbios.{Protocol, log_smbios_data, is_success}

-- The bytes before the first NUL, and those behind it.
abbrev pub until_nul : List ℕ → Text × List ℕ
until_nul [] = ([], [])
until_nul (c ∷ bytes) =
    if c == 0 then ([], bytes) else (c ∷ (until_nul bytes).0, (until_nul bytes).1)

-- String number i + 1 of a string area, by the SMBIOS specification: an empty string ends the area.
abbrev pub find_string : ℕ → List ℕ → Option Text
find_string zero area = elim (until_nul area).0 [ [] ↦ none | c ∷ s ↦ some (c ∷ s) ]
find_string (suc i) area = elim (until_nul area).0 [
  | [] ↦ none
  | c ∷ s ↦ find_string i (until_nul area).1
]

-- The strings of a pack up to the first that is empty.
abbrev pub readable : List Text → ℕ → Option Text
readable [] i = none
readable ([] ∷ pack) i = none
readable ((c ∷ s) ∷ pack) zero = some (c ∷ s)
readable ((c ∷ s) ∷ pack) (suc i) = readable pack i

-- No NUL stands inside the string.
abbrev pub IsString : Text → Type 0
IsString [] = Unit
IsString (c ∷ s) = (0 < c) × IsString s

abbrev pub AreStrings : List Text → Type 0
AreStrings [] = Unit
AreStrings (s ∷ pack) = IsString s × AreStrings pack

until_nul-with_nul :
    (s : Text) (rest : List ℕ) → IsString s → until_nul (with_nul s ++ rest) ≡ (s, rest)
until_nul-with_nul [] rest h = refl
until_nul-with_nul (c ∷ s) rest h =
    let e : (c == 0) ≡ false = ground (arith, h.0) in rw (e, until_nul-with_nul s rest h.1) refl

find_first :
    (area : List ℕ) {c : ℕ} {s : Text} {rest : List ℕ}
    → until_nul area ≡ (c ∷ s, rest)
    → find_string 0 area ≡ some (c ∷ s)
find_first area e = rw (find_string, e) refl

find_next :
    (i : ℕ) (area : List ℕ) {c : ℕ} {s : Text} {rest : List ℕ}
    → until_nul area ≡ (c ∷ s, rest)
    → find_string (suc i) area ≡ find_string i rest
find_next i area e = rw (find_string, e, e) refl

until_nul-packed :
    (s : Text) (pack : List Text) (rest : List ℕ)
    → IsString s
    → until_nul (packed (s ∷ pack) ++ rest) ≡ (s, packed pack ++ rest)
until_nul-packed s pack rest h =
    ap until_nul (append_assoc (with_nul s) (packed pack) rest)
    ∙ until_nul-with_nul s (packed pack ++ rest) h

find_string-packed :
    (pack : List Text) (rest : List ℕ) (i : ℕ)
    → AreStrings pack
    → find_string i (packed pack ++ 0 ∷ rest) ≡ readable pack i
find_string-packed [] rest zero h = refl
find_string-packed [] rest (suc i) h = refl
find_string-packed ([] ∷ pack) rest zero h = refl
find_string-packed ([] ∷ pack) rest (suc i) h = refl
find_string-packed ((c ∷ s) ∷ pack) rest zero h =
    find_first (packed ((c ∷ s) ∷ pack) ++ 0 ∷ rest) (until_nul-packed (c ∷ s) pack (0 ∷ rest) h.0)
find_string-packed ((c ∷ s) ∷ pack) rest (suc i) h =
    find_next i (packed ((c ∷ s) ∷ pack) ++ 0 ∷ rest) (until_nul-packed (c ∷ s) pack (0 ∷ rest) h.0)
    ∙ find_string-packed pack rest i h.1

drop_append : (front back : List ℕ) → drop (length front) (front ++ back) ≡ back
drop_append [] back = refl
drop_append (f ∷ front) back = drop_append front back

pub record-reads :
    (template : List ℕ) (pack : List Text) (i : ℕ)
    → AreStrings pack
    → find_string i (drop (length template) (smbios_record template pack)) ≡ readable pack i
record-reads template [] i h =
    ap (find_string i) (drop_append template (0 ∷ 0 ∷ [])) ∙ find_string-packed [] (0 ∷ []) i h
record-reads template (s ∷ pack) i h =
    ap (find_string i) (drop_append template (packed (s ∷ pack) ++ 0 ∷ []))
    ∙ find_string-packed (s ∷ pack) [] i h

-- Where the SMBIOS protocol is there and the pool has room, LogSmbiosData gives one record to Add,
-- returns its status, and stores its handle exactly on EFI_SUCCESS. In the record a reader finds the
-- strings of the pack under their numbers, up to the first that is empty: that one and all behind it
-- are not found.
log_smbios_data-reads :
    (protocol : Protocol) (added : List (List ℕ)) (template : List ℕ) (pack : List Text)
    → is_error protocol.locate ≡ false
    → protocol.has_pool (length template + pack_size (some pack)) ≡ true
    → AreStrings pack
    → (bytes : List ℕ) × (log_smbios_data protocol added template (some pack)
        ≡ ok (
          (protocol.add added bytes).0,
          (if is_success (protocol.add added bytes).0
              then some (protocol.add added bytes).1
              else none),
          added ++ bytes ∷ [],
        ))
      × ((i : ℕ) → find_string i (drop (length template) bytes) ≡ readable pack i)
unfolding log_smbios_data
log_smbios_data-reads protocol added template pack located room h =
    let bytes = smbios_record template pack in
    (
      bytes,
      rw (log_smbios_data, located, room, build_record_lem template (some pack)) refl,
      λ i. record-reads template pack i h,
    )
