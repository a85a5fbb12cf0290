-- ===== src/Packed.antt =====
-- Packed little-endian structures as their bytes, the form in which a #pragma pack'ed structure of the
-- sources stands in memory. A field is its width in bytes and its value.
use edk2_uemu.Common.{
  ℕ, zero, suc, ◌+◌, ◌*◌, ◌/◌, ◌%◌, ◌^◌, ◌<◌, ◌≡◌, List, [], ◌∷◌, ◌++◌, length, replicate, u8,
  arith,
}
use native.Mathlib.Nat.{pow-suc}

abbrev pub Field : Type 0
Field = ℕ × ℕ

-- The bytes of a number of so many bytes.
abbrev pub le_bytes : ℕ → ℕ → List ℕ
le_bytes zero n = []
le_bytes (suc width) n = n % 256 ∷ le_bytes width (n / 256)

-- The bytes of a structure with these fields.
abbrev pub bytes_of : List Field → List ℕ
bytes_of [] = []
bytes_of ((width, value) ∷ fields) = le_bytes width value ++ bytes_of fields

-- The number that bit fields make up, from the lowest bit on, each with its width in bits.
abbrev pub bit_fields : List Field → ℕ
bit_fields [] = 0
bit_fields ((width, value) ∷ fields) = value % 2 ^ width + 2 ^ width * bit_fields fields

-- The fields of an array of bytes.
abbrev pub byte_fields : List ℕ → List Field
byte_fields [] = []
byte_fields (b ∷ bytes) = (1, b) ∷ byte_fields bytes

-- The fields of an EFI_GUID.
abbrev pub guid : ℕ → ℕ → ℕ → List ℕ → List Field
guid data1 data2 data3 data4 = (4, data1) ∷ (2, data2) ∷ (2, data3) ∷ byte_fields data4

-- An SMBIOS structure: EFI_SMBIOS_TABLE_HEADER with its type, sizeof and the handle 0, the fields, and
-- so many bytes of members that no initializer names, which are 0.
abbrev pub smbios_structure : ℕ → List Field → ℕ → List ℕ
smbios_structure type fields behind =
    let body = bytes_of fields ++ replicate behind 0 in type ∷ u8 (4 + length body) ∷ 0 ∷ 0 ∷ body

-- The number of so many bytes that a reader finds at the start.
abbrev pub read_le : ℕ → List ℕ → ℕ
read_le zero bytes = 0
read_le (suc width) [] = 0
read_le (suc width) (b ∷ bytes) = b + 256 * read_le width bytes

pub read_le-le_bytes :
    (width n : ℕ) (rest : List ℕ) → n < 256 ^ width → read_le width (le_bytes width n ++ rest) ≡ n
read_le-le_bytes zero n rest h = omega arith
read_le-le_bytes (suc width) n rest h =
    let small : n < 256 ^ width * 256 = rw (← pow-suc 256 width) h in
    omega (arith, read_le-le_bytes width (n / 256) rest (omega arith))
