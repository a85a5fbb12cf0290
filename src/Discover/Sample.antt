-- ===== src/Discover/Sample.antt =====
-- DXE services that accept everything, for runs of the drivers on the small device tree.
use edk2_uemu.Efi.{success}
use edk2_uemu.Fdt.Sample.{tree, tree-HasLengths, tree-SwapsBytes, tree-AlignsUp}
use edk2_uemu.Discover.{DxeServices}
use edk2_uemu.Discover.Covers.{IsDocumented}

abbrev pub dxe : DxeServices
dxe = record {
  add_memory_space = λ base size. success;
  set_memory_space_attributes = λ base size. success;
}

pub tree-IsDocumented : IsDocumented tree
tree-IsDocumented = record {
  lengths = tree-HasLengths;
  swaps = tree-SwapsBytes;
  aligns = tree-AlignsUp;
}
