-- ===== src/Sec/Ppi.antt =====
-- UemuPkg/Library/PlatformSecLib/PlatformSecLib.c: the hand-off data in the temporary memory, and the PPI by
-- which a PEI core gets it as a list of HOBs.
use edk2_uemu.Common.{
  ℕ, zero, suc, ◌+◌, ◌^◌, ◌<◌, ◌≤◌, ◌≡◌, refl, sym, true, false, Option, Option-cases, none, some,
  some-injective, inl, inr, List, [], ◌∷◌, ◌++◌, ◌==◌, length, drop, take, arith,
}
use edk2_uemu.Efi.{Status, success}
use edk2_uemu.Packed.{bytes_of, read_le, read_le-le_bytes}
use edk2_uemu.Fdt.{Platform}
use edk2_uemu.Sec.{SecHob, sec_handoff, stack, Libfdt, PrePi, Pcd}
use edk2_uemu.Sec.Memory.{memory_initialization}
use edk2_uemu.Sec.Io.{platform_initialization}
use edk2_uemu.Sec.Startup.{
  SecHandoffData, cpu_initialization, sec_platform_main, module_entry_point, startup_hobs,
  sec_handoff_data_reserve_size,
}

-- EFI_HOB_GENERIC_HEADER
pub record GenericHeader : Type 0 where
  pub hob_type : ℕ
  pub hob_length : ℕ
  pub reserved : ℕ

-- EFI_GUID, as the two UINT64 that CopyGuid copies.
pub record Guid : Type 0 where
  pub low : ℕ
  pub high : ℕ

-- SEC_HOBLIST_DATA, with the header and the name of HobGuidHeader.
pub record SecHoblistData : Type 0 where
  pub header : GenericHeader
  pub name : Guid
  pub sec_handoff_data : SecHandoffData
  pub hob_end : GenericHeader

-- SecStartupPlatform stores the hand-off data, and leaves the rest as it is.
unfoldable pub store_handoff : SecHandoffData → SecHoblistData → SecHoblistData
store_handoff handoff old = record old { sec_handoff_data = handoff }

-- RiscVSecGetHobData: EFI_HOB_TYPE_GUID_EXTENSION, EFI_HOB_TYPE_END_OF_HOB_LIST, and the sizes of
-- EFI_HOB_GUID_TYPE, RISCV_SEC_HANDOFF_DATA and EFI_HOB_GENERIC_HEADER. HobList is the address of the data.
unfoldable pub riscv_sec_get_hob_data : Guid → SecHoblistData → Status × SecHoblistData
riscv_sec_get_hob_data sec_hob_data_guid old = (
  success,
  record old {
    header = record { hob_type = 0x4; hob_length = 24 + 16; reserved = 0 };
    name = sec_hob_data_guid;
    hob_end = record { hob_type = 0xffff; hob_length = 8; reserved = 0 };
  },
)

-- SEC_HOBLIST_DATA in memory.
abbrev pub hoblist_bytes : SecHoblistData → List ℕ
hoblist_bytes hoblist =
    let handoff = hoblist.sec_handoff_data in
    bytes_of (
      (2, hoblist.header.hob_type)
      ∷ (2, hoblist.header.hob_length)
      ∷ (4, hoblist.header.reserved)
      ∷ (8, hoblist.name.low)
      ∷ (8, hoblist.name.high)
      ∷ (8, handoff.boot_hart_id)
      ∷ (8, handoff.fdt_pointer)
      ∷ (2, hoblist.hob_end.hob_type)
      ∷ (2, hoblist.hob_end.hob_length)
      ∷ (4, hoblist.hob_end.reserved)
      ∷ [])

-- The HOBs of a list by the PI specification, each its type and what stands behind its header: the next
-- one is HobLength further, up to the end of the list. `none` is fuel that ran out.
abbrev pub walk_hobs : ℕ → List ℕ → Option (List (ℕ × List ℕ))
walk_hobs zero bytes = none
walk_hobs (suc fuel) bytes = elim (read_le 2 bytes == 0xffff) [
  | true ↦ some []
  | false ↦ elim (walk_hobs fuel (drop (read_le 2 (drop 2 bytes)) bytes)) [
    | none ↦ none
    | some hobs ↦ some ((read_le 2 bytes, drop 8 (take (read_le 2 (drop 2 bytes)) bytes)) ∷ hobs)
  ]
]

-- A GUID extension with this name and the hand-off data.
abbrev pub HoldsHandoff : ℕ × List ℕ → Guid → SecHandoffData → Type 0
HoldsHandoff (type, content) name handoff =
    (type ≡ 0x4)
    × (read_le 8 content ≡ name.low)
    × (read_le 8 (drop 8 content) ≡ name.high)
    × (read_le 8 (drop 16 content) ≡ handoff.boot_hart_id)
    × (read_le 8 (drop 24 content) ≡ handoff.fdt_pointer)
    × (length content ≡ 32)

-- The content of the HOB of the hand-off data.
abbrev content_of : Guid → SecHandoffData → List ℕ
content_of name handoff =
    bytes_of
      ((8, name.low) ∷ (8, name.high) ∷ (8, handoff.boot_hart_id) ∷ (8, handoff.fdt_pointer) ∷ [])

-- The numbers of the hand-off data and of its name are 64 bits wide.
pub record IsWide (name : Guid) (handoff : SecHandoffData) : Type 0 where
  pub low : name.low < 2 ^ 64
  pub high : name.high < 2 ^ 64
  pub hart : handoff.boot_hart_id < 2 ^ 64
  pub fdt : handoff.fdt_pointer < 2 ^ 64

content-HoldsHandoff :
    (name : Guid) (handoff : SecHandoffData)
    → IsWide name handoff
    → HoldsHandoff (0x4, content_of name handoff) name handoff
content-HoldsHandoff name handoff wide =
    let h = handoff.boot_hart_id in
    let f = handoff.fdt_pointer in
    (
      refl,
      read_le-le_bytes 8 name.low (bytes_of ((8, name.high) ∷ (8, h) ∷ (8, f) ∷ [])) wide.low,
      read_le-le_bytes 8 name.high (bytes_of ((8, h) ∷ (8, f) ∷ [])) wide.high,
      read_le-le_bytes 8 h (bytes_of ((8, f) ∷ [])) wide.hart,
      read_le-le_bytes 8 f [] wide.fdt,
      refl,
    )

main-hands_over :
    (p : Platform) (lib : Libfdt) (pre : PrePi) (pcd : Pcd) (fuel : ℕ) (handoff : SecHandoffData)
    (hobs : List SecHob) {all : List SecHob}
    → sec_platform_main p lib pre pcd fuel handoff hobs ≡ some all
    → (before : List SecHob) × (all
        ≡ before ++ sec_handoff handoff.boot_hart_id handoff.fdt_pointer ∷ [])
unfolding sec_platform_main
main-hands_over p lib pre pcd fuel handoff hobs {all} h =
    elim (Option-cases (memory_initialization p lib pcd fuel handoff.fdt_pointer hobs)) [
      | inl e ↦ cc (rw (e, sec_platform_main) at h)
      | inr (memory, e) ↦
          elim (Option-cases (
            platform_initialization p lib pre fuel handoff.fdt_pointer
              (cpu_initialization memory))) [
                | inl f ↦ cc (rw (e, f, sec_platform_main) at h)
                | inr ((status, found), f) ↦
                    (found, sym (some-injective (rw (e, f, sec_platform_main) at h)))
              ]
    ]

-- Both boots hand over the same data. Whatever the temporary memory held, RiscVSecGetHobData succeeds,
-- and behind it and what SecStartupPlatform stored a PEI core finds a list of one HOB: a GUID extension
-- with the name, the hart and the address of the device tree that the firmware was entered with, where
-- these are 64 bits wide. The list fits the memory that is reserved for it. Without a PEI core the last
-- HOB of the start-up, where that ends, holds the same hart and address.
pub hand_off-agree :
    (p : Platform) (lib : Libfdt) (pre : PrePi) (pcd : Pcd) (fuel hart fdt : ℕ) (name : Guid)
    (old : SecHoblistData) (rest : List ℕ) {all : List SecHob}
    → IsWide name (record { boot_hart_id = hart; fdt_pointer = fdt })
    → startup_hobs p lib pre pcd fuel hart fdt ≡ some all
    → let handoff = (module_entry_point pcd hart fdt).1 in
      let (status, given) = riscv_sec_get_hob_data name (store_handoff handoff old) in
      (hob : ℕ × List ℕ) × (before : List SecHob) × (status ≡ success)
      × (walk_hobs 2 (hoblist_bytes given ++ rest) ≡ some (hob ∷ []))
      × HoldsHandoff hob name (record { boot_hart_id = hart; fdt_pointer = fdt })
      × (length (hoblist_bytes given) ≤ sec_handoff_data_reserve_size)
      × (all ≡ before ++ sec_handoff hart fdt ∷ [])
unfolding riscv_sec_get_hob_data store_handoff module_entry_point startup_hobs
hand_off-agree p lib pre pcd fuel hart fdt name old rest wide h =
    let (sp, handoff, ram) = module_entry_point pcd hart fdt in
    let (before, built) =
      main-hands_over p lib pre pcd fuel handoff (stack ram.stack_base ram.stack_size ∷ []) h in
    (
      (0x4, content_of name handoff),
      before,
      refl,
      refl,
      content-HoldsHandoff name handoff wide,
      omega arith,
      built,
    )
