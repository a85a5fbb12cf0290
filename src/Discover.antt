-- ===== src/Discover.antt =====
-- How the drivers find their registers: the chain of UemuFdt calls that each of them makes, and the
-- declaration of the pages to the global coherency domain (DXE services, a parameter).
pub mod Covers
pub mod Sample
use edk2_uemu.Common.{
  ℕ, Bool, true, false, ◌||◌, Option, none, some, ltb, if◌then◌else◌, max_uint64,
}
use edk2_uemu.Efi.{Status, Result, ok, err, fault, ◌>>=◌, is_error, compromised_data}
use edk2_uemu.Text.{Text}
use edk2_uemu.Fdt.{
  Platform, uemu_fdt_get, uemu_fdt_find_compatible_node, uemu_fdt_get_reg, uemu_fdt_align_range,
}

-- UemuFdtGet, UemuFdtFindCompatibleNode and UemuFdtGetReg with index 0, each only after a success.
-- `none` is fuel of the search that ran out.
unfoldable pub find_reg : Platform → ℕ → Text → Option (Result (ℕ × ℕ))
find_reg p fuel compatible = elim (uemu_fdt_get p 1) [
  | ok fdt ↦ elim (uemu_fdt_find_compatible_node p fuel fdt (some compatible) 1) [
    | none ↦ none
    | some found ↦ some (found >>= λ node. uemu_fdt_get_reg p fdt node 0 1 1)
  ]
  | err s ↦ some (err s)
  | fault ↦ some fault
]

-- gDS->AddMemorySpace and gDS->SetMemorySpaceAttributes for a base and a size.
pub record DxeServices : Type 0 where
  pub add_memory_space : ℕ → ℕ → Status
  pub set_memory_space_attributes : ℕ → ℕ → Status

-- The registers of a driver and the pages that it declares for them, with the status of
-- AddMemorySpace, which it drops.
pub record Registers : Type 0 where
  pub base : ℕ
  pub gcd_base : ℕ
  pub gcd_size : ℕ
  pub added : Status

-- What the keyboard and the random number driver do with the range that they find, which must have
-- `room` bytes for their registers.
unfoldable pub declare_registers : Platform → DxeServices → ℕ → ℕ → ℕ → Result Registers
declare_registers p dxe room base size =
    if ltb max_uint64 base || ltb size room then err compromised_data else do
      gcd ← uemu_fdt_align_range p base size 1 1
      if is_error (dxe.set_memory_space_attributes gcd.0 gcd.1)
          then err (dxe.set_memory_space_attributes gcd.0 gcd.1)
          else ok (record {
            base = base;
            gcd_base = gcd.0;
            gcd_size = gcd.1;
            added = dxe.add_memory_space gcd.0 gcd.1;
          })
