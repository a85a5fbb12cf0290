-- ===== src/Battery/Record.antt =====
-- LogSmbiosRecord of GoldfishBatteryDxe.c fills the block that it allocates, and no more.
use edk2_uemu.Common.{
  ℕ, suc, ◌+◌, ◌≡◌, refl, not, if◌then◌else◌, Option, none, some, List, [], ◌∷◌, ◌++◌, replicate,
  length, length-append, arith, sym, ap, ◌∙◌,
}
use mathlib.Core.List.{append-nil, append_assoc}
use edk2_uemu.Efi.{ok, is_error, out_of_resources}
use edk2_uemu.Text.{Text}
use edk2_uemu.Battery.{
  copy_mem, copy_mem_at, with_nul, strings_size, pack_size, append_strings, strings_of,
  build_record, Smbios, log_smbios_record,
}

copy_mem_zeros :
    (source : List ℕ) (room : ℕ)
    → copy_mem (replicate (length source + room) 0) source ≡ ok (source ++ replicate room 0)
unfolding copy_mem
copy_mem_zeros [] room = let e : 0 + room ≡ room = omega arith in rw e refl
copy_mem_zeros (s ∷ source) room =
    let e : suc (length source) + room ≡ suc (length source + room) = omega arith in
    rw (e, copy_mem_zeros source room) refl

copy_mem_at_append :
    (front block source : List ℕ) {out : List ℕ}
    → copy_mem block source ≡ ok out
    → copy_mem_at (front ++ block) (length front) source ≡ ok (front ++ out)
unfolding copy_mem_at
copy_mem_at_append [] block source h = h
copy_mem_at_append (f ∷ front) block source h = rw (copy_mem_at_append front block source h) refl

-- The strings of a pack, each with its NUL.
abbrev pub packed : List Text → List ℕ
packed [] = []
packed (s ∷ pack) = with_nul s ++ packed pack

append_strings_lem :
    (pack : List Text) (front : List ℕ) (room : ℕ)
    → append_strings pack (length front) (front ++ replicate (strings_size pack + room) 0)
      ≡ ok (length front + strings_size pack, (front ++ packed pack) ++ replicate room 0)
unfolding append_strings strings_size
append_strings_lem [] front room =
    let e : length front + 0 ≡ length front = omega arith in
    let r : 0 + room ≡ room = omega arith in rw (e, r, append-nil front) refl
append_strings_lem (s ∷ pack) front room =
    let block = copy_mem_zeros (with_nul s) (strings_size pack + room) in
    let one =
      copy_mem_at_append front (replicate (length (with_nul s) + (strings_size pack + room)) 0)
        (with_nul s) block in
    let split : length (with_nul s) + strings_size pack + room
        ≡ length (with_nul s) + (strings_size pack + room) =
      omega arith in
    let far : length front + (length (with_nul s) + strings_size pack)
        ≡ length (front ++ with_nul s) + strings_size pack =
      omega (arith, length-append front (with_nul s)) in
    rw
      (
        split,
        one,
        sym (append_assoc front (with_nul s) (replicate (strings_size pack + room) 0)),
        sym (length-append front (with_nul s)),
        append_strings_lem pack (front ++ with_nul s) room,
        far,
        append_assoc front (with_nul s) (packed pack),
      )
      refl

length-packed : (pack : List Text) → length (packed pack) ≡ strings_size pack
unfolding strings_size
length-packed [] = refl
length-packed (s ∷ pack) =
    omega (arith, length-append (with_nul s) (packed pack), length-packed pack)

-- The NULs behind the strings: two where there is none, else one behind that of the last.
abbrev pub terminator : List Text → List ℕ
terminator [] = 0 ∷ 0 ∷ []
terminator (s ∷ pack) = 0 ∷ []

-- The record of the SMBIOS specification: the formatted area and the unformed section.
abbrev pub smbios_record : List ℕ → List Text → List ℕ
smbios_record template pack = template ++ (packed pack ++ terminator pack)

close_record :
    (template : List ℕ) (pack : List Text) (rest : List ℕ)
    → copy_mem_at
        ((template ++ packed pack) ++ (0 ∷ rest))
        (length template + strings_size pack)
        (0 ∷ [])
      ≡ ok ((template ++ packed pack) ++ (0 ∷ rest))
unfolding copy_mem
close_record template pack rest =
    let far : length template + strings_size pack ≡ length (template ++ packed pack) =
      omega (arith, length-append template (packed pack), length-packed pack) in
    rw far (copy_mem_at_append (template ++ packed pack) (0 ∷ rest) (0 ∷ []) refl)

build_with_room :
    (template : List ℕ) (string_pack : Option (List Text)) (rest : ℕ)
    → pack_size string_pack ≡ strings_size (strings_of string_pack) + suc rest
    → build_record template string_pack
      ≡ ok ((template ++ packed (strings_of string_pack)) ++ replicate (suc rest) 0)
unfolding build_record
build_with_room template string_pack rest room =
    rw
      (
        room,
        copy_mem_zeros template (strings_size (strings_of string_pack) + suc rest),
        append_strings_lem (strings_of string_pack) template (suc rest),
        close_record template (strings_of string_pack) (replicate rest 0),
      )
      refl

pub build_record_lem :
    (template : List ℕ) (string_pack : Option (List Text))
    → build_record template string_pack ≡ ok (smbios_record template (strings_of string_pack))
unfolding pack_size strings_size
build_record_lem template none =
    build_with_room template none 1 refl ∙ ap ok (append_assoc template [] (0 ∷ 0 ∷ []))
build_record_lem template (some []) =
    build_with_room template (some []) 1 refl ∙ ap ok (append_assoc template [] (0 ∷ 0 ∷ []))
build_record_lem template (some (s ∷ pack)) =
    build_with_room template (some (s ∷ pack)) 0 refl
    ∙ ap ok (append_assoc template (packed (s ∷ pack)) (0 ∷ []))

allocates_record :
    (template : List ℕ) (string_pack : Option (List Text))
    → length (smbios_record template (strings_of string_pack))
      ≡ length template + pack_size string_pack
unfolding pack_size strings_size
allocates_record template none = length-append template (0 ∷ 0 ∷ [])
allocates_record template (some []) = length-append template (0 ∷ 0 ∷ [])
allocates_record template (some (s ∷ pack)) = omega (
  arith,
  length-append template (packed (s ∷ pack) ++ 0 ∷ []),
  length-append (packed (s ∷ pack)) (0 ∷ []),
  length-packed (s ∷ pack),
)

log_record_run :
    (smbios : Smbios) (template : List ℕ) (string_pack : Option (List Text)) (bytes : List ℕ)
    → build_record template string_pack ≡ ok bytes
    → log_smbios_record smbios template string_pack
      ≡ ok (
          if is_error smbios.locate
          then (smbios.locate, none)
          else if not (smbios.has_pool (length template + pack_size string_pack))
          then (out_of_resources, none)
          else (smbios.add bytes, some bytes))
unfolding log_smbios_record
log_record_run smbios template string_pack bytes built = ground arith

-- LogSmbiosRecord never writes behind the block that it allocates, and hands exactly the record of
-- the SMBIOS specification to Smbios->Add, whose status it returns: the template, every string with
-- its NUL in order, and a final NUL, of which there are two where there is no string. The record has
-- the length of the block. Without the protocol or the memory nothing is added and the status is the
-- error.
pub log_record_adds :
    (smbios : Smbios) (template : List ℕ) (string_pack : Option (List Text))
    → let bytes = smbios_record template (strings_of string_pack) in
      (length bytes ≡ length template + pack_size string_pack)
      × (log_smbios_record smbios template string_pack
          ≡ ok (
              if is_error smbios.locate
              then (smbios.locate, none)
              else if not (smbios.has_pool (length template + pack_size string_pack))
              then (out_of_resources, none)
              else (smbios.add bytes, some bytes)))
log_record_adds smbios template string_pack = (
  allocates_record template string_pack,
  log_record_run smbios template string_pack (smbios_record template (strings_of string_pack))
      (build_record_lem template string_pack),
)
