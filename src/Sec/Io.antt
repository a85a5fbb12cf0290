-- ===== src/Sec/Io.antt =====
-- UemuPkg/Library/PlatformSecLib/Platform.c: the device tree's copy and its HOB, and the I/O ranges of
-- devices that no driver declares. `none` is fuel that ran out, or a read outside a property.
use edk2_uemu.Common.{
  ℕ, zero, suc, ◌+◌, ◌/◌, ◌%◌, true, false, not, Option, none, some, List, [], ◌∷◌, ◌++◌, ◌==◌,
  if◌then◌else◌,
}
use edk2_uemu.Common.Int.{ℤ, is_zero, is_minus_one, minus_one}
use edk2_uemu.Efi.{Status, success, unsupported, ok, err, fault}
use edk2_uemu.Text.{Text, codes}
use edk2_uemu.Fdt.{Platform, uemu_fdt_get_reg, uemu_fdt_align_range}
use edk2_uemu.Sec.{SecHob, mapped_io, fdt_pointer, Libfdt, PrePi}

-- AddIoMemoryBaseSizeHob
unfoldable pub add_io_memory_base_size_hob : Platform → ℕ → ℕ → List SecHob
add_io_memory_base_size_hob p base size = elim (uemu_fdt_align_range p base size 1 1) [
  | ok (aligned_base, aligned_size) ↦ mapped_io aligned_base aligned_size ∷ []
  | err status ↦ []
  | fault ↦ []
]

-- The body of the loop of PopulateIoResources.
unfoldable pub io_hobs : Platform → ℕ → ℤ → Option (List SecHob)
io_hobs p fdt node = elim (uemu_fdt_get_reg p fdt node 0 1 1) [
  | ok (base, size) ↦ some (add_io_memory_base_size_hob p base size)
  | err status ↦ some []
  | fault ↦ none
]

-- `while (Node != -FDT_ERR_NOTFOUND)`
unfoldable pub io_loop : Platform → ℕ → Text → ℕ → ℤ → List SecHob → Option (List SecHob)
io_loop p fdt compatible zero node hobs = none
io_loop p fdt compatible (suc fuel) node hobs = elim (is_minus_one node) [
  | true ↦ some hobs
  | false ↦ elim (io_hobs p fdt node) [
    | none ↦ none
    | some new ↦
        io_loop p fdt compatible fuel (p.node_offset_by_compatible fdt node compatible)
          (hobs ++ new)
  ]
]

-- PopulateIoResources
unfoldable pub populate_io_resources : Platform → ℕ → ℕ → Text → List SecHob → Option (List SecHob)
populate_io_resources p fuel fdt compatible hobs =
    io_loop p fdt compatible fuel (p.node_offset_by_compatible fdt minus_one compatible) hobs

-- The three calls of PopulateIoResources.
unfoldable pub populate_all : Platform → ℕ → ℕ → List SecHob → Option (List SecHob)
populate_all p fuel fdt hobs = elim (populate_io_resources p fuel fdt (codes "ns16550a") hobs) [
  | none ↦ none
  | some uart ↦ elim (populate_io_resources p fuel fdt (codes "virtio,mmio") uart) [
    | none ↦ none
    | some virtio ↦ populate_io_resources p fuel fdt (codes "simple-framebuffer") virtio
  ]
]

-- EFI_SIZE_TO_PAGES
abbrev pub size_to_pages : ℕ → ℕ
size_to_pages size = size / 4096 + (if size % 4096 == 0 then 0 else 1)

-- PlatformInitialization. FdtOpenInto fills the pages with a copy of the tree; its result is dropped.
unfoldable pub platform_initialization :
    Platform → Libfdt → PrePi → ℕ → ℕ → List SecHob → Option (Status × List SecHob)
platform_initialization p lib pre fuel fdt hobs =
    if not (is_zero (p.check_header fdt))
    then some (unsupported, hobs)
    else elim (pre.allocate_pages (size_to_pages (lib.total_size fdt))) [
      | none ↦ some (unsupported, hobs)
      | some new_base ↦
          if not pre.has_hob_room
          then some (unsupported, hobs)
          else elim (populate_all p fuel fdt (hobs ++ fdt_pointer new_base ∷ [])) [
            | none ↦ none
            | some all ↦ some (success, all)
          ]
    ]
