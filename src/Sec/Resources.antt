-- ===== src/Sec/Resources.antt =====
-- PopulateIoResources of Platform.c, against the nodes that libfdt enumerates.
use edk2_uemu.Common.{
  ℕ, zero, suc, ◌+◌, ◌-◌, ◌<◌, ◌≤◌, ◌≡◌, ◌^◌, refl, false, none, some, List, [], ◌∷◌, ◌++◌, inl,
  inr, length, arith, ◌∙◌,
}
use mathlib.Core.List.{append-nil, append_assoc}
use edk2_uemu.Common.Int.{ℤ, pos, negsuc, minus_one, is_minus_one}
use edk2_uemu.Efi.{ok, err, fault, Result-cases}
use edk2_uemu.Text.{Text}
use edk2_uemu.Fdt.{Platform, uemu_fdt_get_reg}
use edk2_uemu.Fdt.Align.{align_range_succeeds}
use edk2_uemu.Fdt.Find.{Enumerates}
use edk2_uemu.Fdt.Reg.{HasLengths, get_reg_reads_inside, get_reg-fits}
use edk2_uemu.Discover.Covers.{IsDocumented, Holds, align-Holds}
use edk2_uemu.Sec.{SecHob, mapped_io}
use edk2_uemu.Sec.Io.{add_io_memory_base_size_hob, io_hobs, io_loop, populate_io_resources}
use edk2_uemu.Sec.Ranges.{collect}

-- The HOBs of a node.
abbrev pub io_of : Platform → ℕ → ℕ → List SecHob
io_of p fdt n = elim (uemu_fdt_get_reg p fdt (pos n) 0 1 1) [
  | ok (base, size) ↦ add_io_memory_base_size_hob p base size
  | err status ↦ []
  | fault ↦ []
]

io_hobs_lem :
    (p : Platform) (fdt n : ℕ) → HasLengths p → io_hobs p fdt (pos n) ≡ some (io_of p fdt n)
unfolding io_hobs
io_hobs_lem p fdt n l = elim (Result-cases (uemu_fdt_get_reg p fdt (pos n) 0 1 1)) [
  | inl (range, e) ↦ rw (io_hobs, io_of, e) refl
  | inr (inl (s, e)) ↦ rw (io_hobs, io_of, e) refl
  | inr (inr bad) ↦ absurd (get_reg_reads_inside p fdt (pos n) 0 1 1 l bad)
]

io_loop_lem :
    (p : Platform) (fdt : ℕ) (compatible : Text) (fuel : ℕ) (from : ℤ) (nodes : List ℕ)
    (hobs : List SecHob)
    → HasLengths p
    → Enumerates p fdt compatible 0 from nodes
    → length nodes < fuel
    → io_loop p fdt compatible fuel (p.node_offset_by_compatible fdt from compatible) hobs
      ≡ some (hobs ++ collect (io_of p fdt) nodes)
unfolding io_loop
io_loop_lem p fdt compatible zero from nodes hobs l e h = absurd (omega arith)
io_loop_lem p fdt compatible (suc fuel) from [] hobs l e h = rw (e, io_loop, append-nil hobs) refl
io_loop_lem p fdt compatible (suc fuel) from (n ∷ nodes) hobs l (e, rest) h =
    rw
      (
        e,
        io_loop,
        e,
        io_hobs_lem p fdt n l,
        e,
        io_loop_lem p fdt compatible fuel (pos n) nodes (hobs ++ io_of p fdt n) l rest
            (omega arith),
        append_assoc hobs (io_of p fdt n) (collect (io_of p fdt) nodes),
      )
      refl

-- One HOB of whole pages that hold the range.
abbrev pub IsMapped : List SecHob → ℕ → ℕ → Type 0
IsMapped hobs base size = (b : ℕ) × (n : ℕ) × (hobs ≡ mapped_io b n ∷ []) × Holds b n base size

add_io_memory-IsMapped :
    (p : Platform) (base size : ℕ)
    → IsDocumented p
    → 0 < size
    → base + size ≤ 2 ^ 64 - 4096
    → IsMapped (add_io_memory_base_size_hob p base size) base size
unfolding add_io_memory_base_size_hob
add_io_memory-IsMapped p base size doc h below =
    let e =
      align_range_succeeds p base size 1 1 doc.aligns (omega arith) (omega arith) h (omega arith) in
    (
      _,
      _,
      rw (e, add_io_memory_base_size_hob) refl,
      align-Holds p base size size doc.aligns (omega arith) (omega arith) e,
    )

-- A node whose first tuple is a range that ends a page below 2^64 at the latest.
abbrev pub HasRange : Platform → ℕ → ℕ → ℕ → ℕ → Type 0
HasRange p fdt n base size =
    (uemu_fdt_get_reg p fdt (pos n) 0 1 1 ≡ ok (base, size)) × (base + size ≤ 2 ^ 64 - 4096)

-- Where libfdt ends its enumeration by -FDT_ERR_NOTFOUND, PopulateIoResources ends, with more fuel
-- than there are nodes. It adds the HOBs of the nodes in their order; that of a node whose first
-- tuple is a range that ends a page below 2^64 at the latest is one run of whole pages that hold it.
pub populate_io_resources-IsMapped :
    (p : Platform) (fuel fdt : ℕ) (compatible : Text) (nodes : List ℕ) (hobs : List SecHob)
    → IsDocumented p
    → Enumerates p fdt compatible 0 minus_one nodes
    → length nodes < fuel
    → (populate_io_resources p fuel fdt compatible hobs
        ≡ some (hobs ++ collect (io_of p fdt) nodes))
      × ((n base size : ℕ) → HasRange p fdt n base size → IsMapped (io_of p fdt n) base size)
unfolding populate_io_resources
populate_io_resources-IsMapped p fuel fdt compatible nodes hobs doc e h = (
  io_loop_lem p fdt compatible fuel minus_one nodes hobs doc.lengths e h,
  λ n base size (found, below).
      let fits = get_reg-fits p fdt (pos n) 0 1 1 doc.lengths doc.swaps found in
      rw (found, io_of) (add_io_memory-IsMapped p base size doc fits.0 below),
)

io_loop-step :
    (p : Platform) (fdt : ℕ) (compatible : Text) (fuel : ℕ) (node : ℤ) (hobs : List SecHob)
    → HasLengths p
    → is_minus_one node ≡ false
    → (next : List SecHob) × (io_loop p fdt compatible (suc fuel) node hobs
        ≡ io_loop p fdt compatible fuel (p.node_offset_by_compatible fdt node compatible) next)
unfolding io_loop io_hobs
io_loop-step p fdt compatible fuel node hobs l e =
    elim (Result-cases (uemu_fdt_get_reg p fdt node 0 1 1)) [
      | inl ((b, n), found) ↦
          (hobs ++ add_io_memory_base_size_hob p b n, rw (e, io_loop, found) refl)
      | inr (inl (s, refused)) ↦ (hobs ++ [], rw (e, io_loop, refused) refl)
      | inr (inr bad) ↦ absurd (get_reg_reads_inside p fdt node 0 1 1 l bad)
    ]

io_loop-stuck :
    (p : Platform) (fdt : ℕ) (compatible : Text) (stop fuel : ℕ) (node from : ℤ)
    (all nodes : List ℕ) (hobs : List SecHob)
    → HasLengths p
    → ((k : ℕ)
        → p.node_offset_by_compatible fdt (negsuc k) compatible
          ≡ p.node_offset_by_compatible fdt minus_one compatible)
    → Enumerates p fdt compatible (suc stop) minus_one all
    → Enumerates p fdt compatible (suc stop) from nodes
    → node ≡ p.node_offset_by_compatible fdt from compatible
    → io_loop p fdt compatible fuel node hobs ≡ none
unfolding io_loop
io_loop-stuck p fdt compatible stop zero node from all nodes hobs l again full e at = refl
io_loop-stuck p fdt compatible stop (suc fuel) node from all [] hobs l again full e at =
    let here : node ≡ negsuc (suc stop) = at ∙ e in
    let (next, step) = io_loop-step p fdt compatible fuel node hobs l (rw here (ground arith)) in
    step
    ∙ io_loop-stuck p fdt compatible stop fuel _ minus_one all all next l again full full
        (rw here (again (suc stop)))
io_loop-stuck p fdt compatible stop (suc fuel) node from all (n ∷ nodes) hobs l again full (e, rest)
      at =
    let here : node ≡ pos n = at ∙ e in
    let (next, step) = io_loop-step p fdt compatible fuel node hobs l (rw here refl) in
    step
    ∙ io_loop-stuck p fdt compatible stop fuel _ (pos n) all nodes next l again full rest
        (rw here refl)

-- Where libfdt ends its enumeration by another error, and starts over from a negative node as it does
-- from -1, PopulateIoResources does not end, whatever the fuel: its test is for -FDT_ERR_NOTFOUND
-- alone.
pub populate_io_resources_stuck :
    (p : Platform) (fuel fdt : ℕ) (compatible : Text) (stop : ℕ) (nodes : List ℕ)
    (hobs : List SecHob)
    → HasLengths p
    → ((k : ℕ)
        → p.node_offset_by_compatible fdt (negsuc k) compatible
          ≡ p.node_offset_by_compatible fdt minus_one compatible)
    → Enumerates p fdt compatible (suc stop) minus_one nodes
    → populate_io_resources p fuel fdt compatible hobs ≡ none
unfolding populate_io_resources
populate_io_resources_stuck p fuel fdt compatible stop nodes hobs l again e =
    io_loop-stuck p fdt compatible stop fuel _ minus_one nodes nodes hobs l again e e refl
