-- ===== src/Fdt.antt =====
-- UemuPkg/Library/UemuFdtLib/UemuFdtLib.c: reading platform data from the device tree. The flattened
-- tree itself is walked by libfdt (FdtLib) and found through a HOB; both are the parameter `Platform`.
-- An OUT pointer is its address, 0 for NULL, and what is stored through it is part of the result.
pub mod Cells
pub mod Align
pub mod Reg
pub mod Find
pub mod Strings
pub mod Safe
pub mod Sample
mod Tests
use edk2_uemu.Text.{Text, codes, ascii_strn_len_s, ascii_str_eq}
use edk2_uemu.Common.{
  ℕ, zero, suc, ◌+◌, ◌-◌, ◌*◌, ◌/◌, ◌%◌, ◌^◌, bit_and, bit_or, Bool, true, false, not, ◌||◌, Option,
  none, some, List, [], ◌∷◌, ltb, leb, ◌==◌, if◌then◌else◌, drop, u64, sub64, max_uint64,
}
use edk2_uemu.Common.Int.{
  ℤ, is_negative, to_unsigned, is_zero, minus_one, is_minus_one, not_positive, above, is_equal,
}
use edk2_uemu.Efi.{
  Result, ok, err, fault, invalid_parameter, bad_buffer_size, not_found, compromised_data, ◌>>=◌,
}

-- What FdtGetProp returns: the bytes from the returned pointer on, and the stored length.
pub record Property : Type 0 where
  pub bytes : List ℕ
  pub len : ℤ

-- A GUID HOB: GET_GUID_HOB_DATA_SIZE, and the UINT64 at GET_GUID_HOB_DATA.
pub record Hob : Type 0 where
  pub size : ℕ
  pub value : ℕ

-- HobLib, libfdt behind FdtLib, and the macro ALIGN_VALUE. A node offset is an INT32.
pub record Platform : Type 0 where
  pub first_fdt_hob : Option Hob
  pub check_header : ℕ → ℤ
  pub node_offset_by_compatible : ℕ → ℤ → Text → ℤ
  pub get_prop : ℕ → ℤ → Text → Option Property
  pub parent_offset : ℕ → ℤ → ℤ
  pub address_cells : ℕ → ℤ → ℤ
  pub size_cells : ℕ → ℤ → ℤ
  pub fdt32_to_cpu : ℕ → ℕ
  pub align_value : ℕ → ℕ → ℕ

-- FDT_MAX_NCELLS
abbrev pub fdt_max_ncells : ℕ
fdt_max_ncells = 4

-- The 32-bit word that a little-endian CPU loads; `none` is a read past the end.
abbrev pub word32 : List ℕ → Option ℕ
word32 (a ∷ b ∷ c ∷ d ∷ _) = some (a + b * 2 ^ 8 + c * 2 ^ 16 + d * 2 ^ 24)
word32 _ = none

-- Cells[Index]
unfoldable pub read_cell : List ℕ → ℕ → Option ℕ
read_cell cells index = word32 (drop (4 * index) cells)

-- The loop of DecodeCells over the rounds left.
unfoldable pub decode_loop : Platform → List ℕ → ℕ → ℕ → ℕ → Result ℕ
decode_loop p cells zero index result = ok result
decode_loop p cells (suc left) index result = elim (ltb (max_uint64 / 2 ^ 32) result) [
  | true ↦ err bad_buffer_size
  | false ↦ elim (read_cell cells index) [
    | none ↦ fault
    | some w ↦
        decode_loop p cells left (index + 1) (bit_or (u64 (result * 2 ^ 32)) (p.fdt32_to_cpu w))
  ]
]

unfoldable pub decode_cells : Platform → List ℕ → ℕ → Result ℕ
decode_cells p cells count =
    if count == 0 || ltb fdt_max_ncells count
    then err compromised_data
    else decode_loop p cells count 0 0

-- (Length <= 0) || (AsciiStrnLenS (Data, Length) != (UINTN)(Length - 1))
unfoldable pub is_malformed : Property → Bool
is_malformed prop =
    not_positive prop.len
    || not (ascii_strn_len_s prop.bytes (to_unsigned prop.len) == to_unsigned prop.len - 1)

unfoldable pub node_is_enabled : Platform → ℕ → ℤ → Bool
unfolding is_malformed
node_is_enabled p fdt node = elim (p.get_prop fdt node (codes "status")) [
  | none ↦ true
  | some status ↦
      if is_malformed status
      then false
      else ascii_str_eq status.bytes (codes "okay") || ascii_str_eq status.bytes (codes "ok")
]

-- Both tests of the HOB, then those of the pointer that it holds.
unfoldable pub uemu_fdt_get : Platform → ℕ → Result ℕ
uemu_fdt_get p fdt = if fdt == 0 then err invalid_parameter else elim p.first_fdt_hob [
  | none ↦ err not_found
  | some hob ↦
      if not (hob.size == 8)
      then err not_found
      else if hob.value == 0 || not (is_zero (p.check_header hob.value))
      then err compromised_data
      else ok hob.value
]

-- The loop of UemuFdtFindCompatibleNode from the node `current`; `none` is fuel that ran out.
unfoldable pub find_loop : Platform → ℕ → Text → ℕ → ℤ → Option (Result ℤ)
find_loop p fdt compatible zero current = none
find_loop p fdt compatible (suc fuel) current =
    let next = p.node_offset_by_compatible fdt current compatible in
    let rest = find_loop p fdt compatible fuel next in
    if is_minus_one next
    then some (err not_found)
    else if is_negative next
    then some (err compromised_data)
    else if node_is_enabled p fdt next
    then some (ok next)
    else rest

unfoldable pub uemu_fdt_find_compatible_node :
    Platform → ℕ → ℕ → Option Text → ℕ → Option (Result ℤ)
uemu_fdt_find_compatible_node p fuel fdt none node = some (err invalid_parameter)
uemu_fdt_find_compatible_node p fuel fdt (some compatible) node =
    if fdt == 0 || node == 0
    then some (err invalid_parameter)
    else find_loop p fdt compatible fuel minus_one

-- The part of UemuFdtGetReg behind the tests of `reg`, with the cell counts as UINTN.
unfoldable pub reg_tuple : Platform → Property → ℕ → ℕ → ℕ → Result (ℕ × ℕ)
reg_tuple p reg address_cells size_cells index =
    let tuple_cells = address_cells + size_cells in
    let tuple_size = tuple_cells * 4 in
    if not_positive reg.len || not (to_unsigned reg.len % tuple_size == 0)
    then err compromised_data
    else if leb (to_unsigned reg.len / tuple_size) index
    then err not_found
    else do
      let cells = drop (4 * (index * tuple_cells)) reg.bytes
      address ← decode_cells p cells address_cells
      range_size ← decode_cells p (drop (4 * address_cells) cells) size_cells
      if range_size == 0 || ltb (max_uint64 - range_size) address
          then err compromised_data
          else ok (address, range_size)

unfoldable pub uemu_fdt_get_reg : Platform → ℕ → ℤ → ℕ → ℕ → ℕ → Result (ℕ × ℕ)
uemu_fdt_get_reg p fdt node index base size =
    let parent = p.parent_offset fdt node in
    let address_cells = p.address_cells fdt parent in
    let size_cells = p.size_cells fdt parent in
    if fdt == 0 || base == 0 || size == 0
    then err invalid_parameter
    else if is_negative parent
    then err compromised_data
    else if not_positive address_cells
        || above address_cells fdt_max_ncells
        || not_positive size_cells
        || above size_cells fdt_max_ncells
    then err compromised_data
    else elim (p.get_prop fdt node (codes "reg")) [
      | none ↦ err not_found
      | some reg ↦ reg_tuple p reg (to_unsigned address_cells) (to_unsigned size_cells) index
    ]

unfoldable pub uemu_fdt_get_u32 : Platform → ℕ → ℤ → Option Text → ℕ → Result ℕ
uemu_fdt_get_u32 p fdt node none value = err invalid_parameter
uemu_fdt_get_u32 p fdt node (some property) value =
    if fdt == 0 || value == 0 then err invalid_parameter else elim (p.get_prop fdt node property) [
      | none ↦ err not_found
      | some prop ↦
          if not (is_equal prop.len 4)
          then err compromised_data
          else elim (read_cell prop.bytes 0) [ none ↦ fault | some w ↦ ok (p.fdt32_to_cpu w) ]
    ]

-- The string, and the size with its NUL that is stored where `Size` is given.
unfoldable pub uemu_fdt_get_string : Platform → ℕ → ℤ → Option Text → ℕ → Result (Text × ℕ)
uemu_fdt_get_string p fdt node none value = err invalid_parameter
uemu_fdt_get_string p fdt node (some property) value =
    if fdt == 0 || value == 0 then err invalid_parameter else elim (p.get_prop fdt node property) [
      | none ↦ err not_found
      | some prop ↦
          if is_malformed prop then err compromised_data else ok (prop.bytes, to_unsigned prop.len)
    ]

-- EFI_PAGE_SIZE and EFI_PAGE_MASK
abbrev pub efi_page_size : ℕ
efi_page_size = 4096

abbrev pub efi_page_mask : ℕ
efi_page_mask = 4095

unfoldable pub uemu_fdt_align_range : Platform → ℕ → ℕ → ℕ → ℕ → Result (ℕ × ℕ)
uemu_fdt_align_range p base size aligned_base aligned_size =
    if aligned_base == 0 || aligned_size == 0 || size == 0 || ltb (max_uint64 - size) base
    then err invalid_parameter
    else let end = u64 (base + size) in
      if ltb (max_uint64 - efi_page_mask) end
      then err bad_buffer_size
      else let start = bit_and base (max_uint64 - efi_page_mask) in
        ok (start, sub64 (p.align_value end efi_page_size) start)
