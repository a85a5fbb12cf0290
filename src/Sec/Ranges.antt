-- ===== src/Sec/Ranges.antt =====
-- The loops of Memory.c over the tuples of a `reg`: they end, and visit each tuple once, in order, up
-- to the first that UemuFdtGetReg refuses.
use edk2_uemu.Common.{
  ℕ, zero, suc, ◌+◌, ◌<◌, ◌≡◌, ◌^◌, refl, some, List, [], ◌∷◌, ◌++◌, map, inl, inr, arith, u64,
  sub64, ap, ◌∙◌,
}
use mathlib.Core.List.{append-nil, append_assoc}
use edk2_uemu.Common.Int.{ℤ}
use edk2_uemu.Efi.{ok, err, fault, Result-cases}
use edk2_uemu.Fdt.{Platform, uemu_fdt_get_reg}
use edk2_uemu.Fdt.Cells.{SwapsBytes}
use edk2_uemu.Fdt.Reg.{HasLengths, get_reg_reads_inside, get_reg-index, get_reg-fits, reg_bytes}
use edk2_uemu.Sec.{SecHob, system_memory}
use edk2_uemu.Sec.Memory.{reg_loop, add_memory_range_hob, initialize_ram_regions}

-- The tuples from `index` on, at most `left` of them.
unfoldable pub tuples : Platform → ℕ → ℤ → ℕ → ℕ → List (ℕ × ℕ)
tuples p fdt node zero index = []
tuples p fdt node (suc left) index = elim (uemu_fdt_get_reg p fdt node index 1 1) [
  | ok range ↦ range ∷ tuples p fdt node left (index + 1)
  | err status ↦ []
  | fault ↦ []
]

-- The ranges of a node.
abbrev pub ranges : Platform → ℕ → ℤ → List (ℕ × ℕ)
ranges p fdt node = tuples p fdt node (reg_bytes p fdt node) 0

tuples-err :
    (p : Platform) (fdt : ℕ) (node : ℤ) (left index : ℕ) {s : _}
    → uemu_fdt_get_reg p fdt node index 1 1 ≡ err s
    → tuples p fdt node left index ≡ []
unfolding tuples
tuples-err p fdt node zero index e = refl
tuples-err p fdt node (suc left) index e = rw (e, tuples) refl

pub tuples_loop :
    (p : Platform) (fdt : ℕ) (node : ℤ) (hob : ℕ → ℕ → SecHob) (fuel left index : ℕ)
    (hobs : List SecHob)
    → HasLengths p
    → index + left ≡ reg_bytes p fdt node
    → left < fuel
    → reg_loop p fdt node hob fuel index hobs
      ≡ some (hobs ++ map (λ r. hob r.0 r.1) (tuples p fdt node left index))
unfolding reg_loop tuples
tuples_loop p fdt node hob zero left index hobs l e h = absurd (omega arith)
tuples_loop p fdt node hob (suc fuel) zero index hobs l e h =
    elim (Result-cases (uemu_fdt_get_reg p fdt node index 1 1)) [
      | inr (inr bad) ↦ absurd (get_reg_reads_inside p fdt node index 1 1 l bad)
      | inr (inl (s, stop)) ↦ rw (stop, reg_loop, tuples, append-nil hobs) refl
      | inl ((b, n), found) ↦ absurd (omega (arith, e, get_reg-index p fdt node index 1 1 l found))
    ]
tuples_loop p fdt node hob (suc fuel) (suc left) index hobs l e h =
    elim (Result-cases (uemu_fdt_get_reg p fdt node index 1 1)) [
      | inr (inr bad) ↦ absurd (get_reg_reads_inside p fdt node index 1 1 l bad)
      | inr (inl (s, stop)) ↦ rw (stop, reg_loop, tuples, append-nil hobs) refl
      | inl ((b, n), found) ↦
          let rest =
            tuples_loop p fdt node hob fuel left (index + 1) (hobs ++ hob b n ∷ []) l (omega arith)
              (omega arith) in
          rw
            (
              found,
              reg_loop,
              tuples,
              rest,
              append_assoc hobs (hob b n ∷ [])
                  (map (λ r. hob r.0 r.1) (tuples p fdt node left (index + 1))),
            )
            refl
    ]

-- The HOBs of all that `hobs_of` builds for the numbers of the list, in their order.
abbrev pub collect : (ℕ → List SecHob) → List ℕ → List SecHob
collect hobs_of [] = []
collect hobs_of (n ∷ rest) = hobs_of n ++ collect hobs_of rest

add_memory_range_hob_lem :
    (base size : ℕ)
    → base + size < 2 ^ 64
    → initialize_ram_regions base size ≡ system_memory base size
unfolding initialize_ram_regions add_memory_range_hob
add_memory_range_hob_lem base size h =
    let difference : sub64 (u64 (base + size)) base ≡ size = omega arith in rw difference refl

system_tuples :
    (p : Platform) (fdt : ℕ) (node : ℤ) (left index : ℕ)
    → HasLengths p
    → SwapsBytes p
    → map (λ r. initialize_ram_regions r.0 r.1) (tuples p fdt node left index)
      ≡ map (λ r. system_memory r.0 r.1) (tuples p fdt node left index)
unfolding tuples
system_tuples p fdt node zero index l s = refl
system_tuples p fdt node (suc left) index l s =
    elim (Result-cases (uemu_fdt_get_reg p fdt node index 1 1)) [
      | inr (inr bad) ↦ rw (bad, tuples) refl
      | inr (inl (t, stop)) ↦ rw (stop, tuples) refl
      | inl ((b, n), found) ↦
          let fits = get_reg-fits p fdt node index 1 1 l s found in
          rw
            (
              found,
              tuples,
              add_memory_range_hob_lem b n fits.1,
              system_tuples p fdt node left (index + 1) l s,
            )
            refl
    ]

-- The tuples of a memory node become system memory with their own bases and sizes: the difference of
-- the addresses that InitializeRamRegions takes does not wrap.
pub system_loop :
    (p : Platform) (fdt : ℕ) (node : ℤ) (fuel : ℕ) (hobs : List SecHob)
    → HasLengths p
    → SwapsBytes p
    → reg_bytes p fdt node < fuel
    → reg_loop p fdt node initialize_ram_regions fuel 0 hobs
      ≡ some (hobs ++ map (λ r. system_memory r.0 r.1) (ranges p fdt node))
system_loop p fdt node fuel hobs l s h =
    tuples_loop p fdt node initialize_ram_regions fuel (reg_bytes p fdt node) 0 hobs l (omega arith)
      h
    ∙ ap (λ built. some (hobs ++ built)) (system_tuples p fdt node (reg_bytes p fdt node) 0 l s)
