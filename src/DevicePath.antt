-- ===== src/DevicePath.antt =====
-- Device paths as their bytes: EFI_DEVICE_PATH_PROTOCOL nodes, each with its type, its subtype and its
-- length, up to the end node. Types and subtypes are those of the UEFI specification.
use edk2_uemu.Common.{
  ℕ, zero, suc, ◌+◌, Bool, true, false, ◌&&◌, List, [], ◌∷◌, ◌++◌, ◌==◌, leb, length, drop, get_or,
}
use edk2_uemu.Packed.{Field, bytes_of, read_le}

abbrev pub DevicePath : Type 0
DevicePath = List ℕ

-- A node with what stands behind its header. The length counts the header.
abbrev pub node : ℕ → ℕ → List Field → List ℕ
node type sub_type fields =
    let body = bytes_of fields in
    bytes_of ((1, type) ∷ (1, sub_type) ∷ (2, 4 + length body) ∷ []) ++ body

-- END_DEVICE_PATH_TYPE, END_ENTIRE_DEVICE_PATH_SUBTYPE
abbrev pub end_node : List ℕ
end_node = node 0x7f 0xff []

-- HARDWARE_DEVICE_PATH, HW_VENDOR_DP and a GUID
abbrev pub hardware_vendor : List Field → List ℕ
hardware_vendor vendor_guid = node 1 4 vendor_guid

-- MESSAGING_DEVICE_PATH, MSG_VENDOR_DP and a GUID
abbrev pub messaging_vendor : List Field → List ℕ
messaging_vendor vendor_guid = node 3 0xa vendor_guid

-- The bytes are nodes of at least a header each, one behind the other, up to an end node that ends with
-- them. `none`-like answers, fuel that ran out among them, are false.
abbrev pub is_device_path : ℕ → List ℕ → Bool
is_device_path zero path = false
is_device_path (suc fuel) path =
    let len = read_le 2 (drop 2 path) in
    elim (leb 4 len && leb len (length path)) [
      | false ↦ false
      | true ↦ elim (get_or path 0 0 == 0x7f && get_or path 1 0 == 0xff) [
        | true ↦ len == 4 && length path == 4
        | false ↦ is_device_path fuel (drop len path)
      ]
    ]
