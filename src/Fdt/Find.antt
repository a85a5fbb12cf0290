-- ===== src/Fdt/Find.antt =====
-- UemuFdtFindCompatibleNode of UemuFdtLib.c against the nodes that libfdt enumerates.
use edk2_uemu.Common.{
  ℕ, zero, suc, ◌<◌, ◌≡◌, ◌≢◌, some, List, [], ◌∷◌, ◌==◌, if◌then◌else◌, length, arith,
}
use edk2_uemu.Common.Int.{ℤ, pos, negsuc, minus_one}
use edk2_uemu.Efi.{Result, ok, err, not_found, compromised_data}
use edk2_uemu.Text.{Text}
use edk2_uemu.Fdt.{Platform, node_is_enabled, find_loop, uemu_fdt_find_compatible_node}

-- FdtNodeOffsetByCompatible, started behind `from`, goes through `nodes` and then answers -(stop + 1).
abbrev pub Enumerates : Platform → ℕ → Text → ℕ → ℤ → List ℕ → Type 0
Enumerates p fdt compatible stop from [] =
    p.node_offset_by_compatible fdt from compatible ≡ negsuc stop
Enumerates p fdt compatible stop from (n ∷ nodes) =
    (p.node_offset_by_compatible fdt from compatible ≡ pos n)
    × Enumerates p fdt compatible stop (pos n) nodes

-- What the search should answer.
abbrev pub first_enabled : Platform → ℕ → ℕ → List ℕ → Result ℤ
first_enabled p fdt stop [] = if stop == 0 then err not_found else err compromised_data
first_enabled p fdt stop (n ∷ nodes) =
    if node_is_enabled p fdt (pos n) then ok (pos n) else first_enabled p fdt stop nodes

find_loop_lem :
    (p : Platform) (fdt : ℕ) (compatible : Text) (stop : ℕ) (nodes : List ℕ) (fuel : ℕ) (from : ℤ)
    → Enumerates p fdt compatible stop from nodes
    → length nodes < fuel
    → find_loop p fdt compatible fuel from ≡ some (first_enabled p fdt stop nodes)
unfolding find_loop
find_loop_lem p fdt compatible stop nodes zero from e h = absurd (omega arith)
find_loop_lem p fdt compatible stop [] (suc fuel) from e h = ground arith
find_loop_lem p fdt compatible stop (n ∷ nodes) (suc fuel) from e h =
    ground (arith, e.0, find_loop_lem p fdt compatible stop nodes fuel (pos n) e.1 (omega arith))

-- With more fuel than libfdt enumerates nodes, the search ends, and answers the first node that is
-- enabled, EFI_NOT_FOUND where there is none and the enumeration ended by -FDT_ERR_NOTFOUND, and
-- EFI_COMPROMISED_DATA where it ended by another error.
pub find_first_enabled :
    (p : Platform) (fuel fdt : ℕ) (compatible : Text) (node stop : ℕ) (nodes : List ℕ)
    → fdt ≢ 0
    → node ≢ 0
    → Enumerates p fdt compatible stop minus_one nodes
    → length nodes < fuel
    → uemu_fdt_find_compatible_node p fuel fdt (some compatible) node
      ≡ some (first_enabled p fdt stop nodes)
unfolding uemu_fdt_find_compatible_node
find_first_enabled p fuel fdt compatible node stop nodes hf hn e h =
    ground (arith, find_loop_lem p fdt compatible stop nodes fuel minus_one e h)
