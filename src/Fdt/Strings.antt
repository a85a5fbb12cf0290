-- ===== src/Fdt/Strings.antt =====
-- UemuFdtGetString of UemuFdtLib.c: what it returns is a C string that fills its property.
use edk2_uemu.Common.{
  ℕ, zero, suc, ◌-◌, ◌<◌, ◌≡◌, ◌≢◌, some, [], ◌∷◌, length, arith, Bool-cases, false, inl, inr,
}
use edk2_uemu.Common.Int.{ℤ, pos}
use edk2_uemu.Efi.{ok}
use edk2_uemu.Text.{Text, ascii_strn_len_s}
use edk2_uemu.Fdt.{Platform, Property, is_malformed, uemu_fdt_get_string}
use edk2_uemu.Fdt.Reg.{HasLengths}

-- `len` characters, none of them NUL, and then a NUL.
abbrev pub IsCString : Text → ℕ → Type 0
IsCString [] len = ⊥
IsCString (c ∷ cs) zero = c ≡ 0
IsCString (c ∷ cs) (suc len) = (c ≢ 0) × IsCString cs len

strn_len-IsCString :
    (bytes : Text) (len : ℕ)
    → len < length bytes
    → ascii_strn_len_s bytes (suc len) ≡ len
    → IsCString bytes len
unfolding ascii_strn_len_s
strn_len-IsCString [] len h e = absurd (omega arith)
strn_len-IsCString (c ∷ cs) zero h e = ground arith
strn_len-IsCString (c ∷ cs) (suc len) h e = ground (arith, strn_len-IsCString cs len (omega arith))

well_formed :
    (prop : Property)
    → prop.len ≡ pos (length prop.bytes)
    → is_malformed prop ≡ false
    → (0 < length prop.bytes) × IsCString prop.bytes (length prop.bytes - 1)
unfolding is_malformed
well_formed prop l h =
    let positive : 0 < length prop.bytes = ground (arith, l) in
    let whole : suc (length prop.bytes - 1) ≡ length prop.bytes = omega arith in
    let reads : ascii_strn_len_s prop.bytes (length prop.bytes) ≡ length prop.bytes - 1 =
      ground (arith, l) in
    (positive, strn_len-IsCString prop.bytes (length prop.bytes - 1) (omega arith) (rw whole reads))

-- A success of UemuFdtGetString is the whole property: a string whose first NUL is its last byte,
-- with the property's length as its size.
pub get_string_terminated :
    (p : Platform) (fdt : ℕ) (node : ℤ) (property : Text) (value : ℕ) (prop : Property)
    {text : Text} {size : ℕ}
    → HasLengths p
    → p.get_prop fdt node property ≡ some prop
    → uemu_fdt_get_string p fdt node (some property) value ≡ ok (text, size)
    → (text ≡ prop.bytes) × (size ≡ length text) × (0 < size) × IsCString text (size - 1)
unfolding uemu_fdt_get_string
get_string_terminated p fdt node property value prop {text} {size} lengths found h =
    let l = (lengths.has_length fdt node property found).0 in
    elim (Bool-cases (is_malformed prop)) [
      | inl bad ↦ absurd (ground (arith, found, bad))
      | inr fine ↦
          let (positive, string) = well_formed prop l fine in
          let same : text ≡ prop.bytes = ground (arith, found, fine) in
          let sized : size ≡ length prop.bytes = ground (arith, found, fine, l) in
          (same, rw same sized, rw sized positive, rw (same, sized) string)
    ]
