-- ===== src/Sec/FirstHob.antt =====
-- Which of the HOBs of PlatformSecLib GetFirstGuidHob finds for gFdtHobGuid.
use edk2_uemu.Common.{
  ℕ, ◌≡◌, refl, Option, none, some, List, [], ◌∷◌, ◌++◌, map, inl, inr, arith, Bool-cases, ◌∙◌,
}
use edk2_uemu.Common.Int.{pos, to_unsigned}
use edk2_uemu.Fdt.{Platform, Hob}
use edk2_uemu.Sec.{
  SecHob, system_memory, mapped_io, allocation, memory_types, cpu, fdt_pointer, sec_handoff, stack,
  Libfdt, Pcd,
}
use edk2_uemu.Sec.Ranges.{collect, ranges}
use edk2_uemu.Sec.Walk.{counting}
use edk2_uemu.Sec.Map.{
  memory_map, memory_of, reserved_of, reserve_map, is_memory_node, reserved_entry,
}

-- GetFirstGuidHob of gFdtHobGuid: the first HOB that holds the address of the device tree.
abbrev pub first_fdt_hob : List SecHob → Option Hob
first_fdt_hob [] = none
first_fdt_hob (fdt_pointer base ∷ hobs) = some (record { size = 8; value = base })
first_fdt_hob (_ ∷ hobs) = first_fdt_hob hobs

pub first_fdt_hob-append :
    (front back : List SecHob)
    → first_fdt_hob front ≡ none
    → first_fdt_hob (front ++ back) ≡ first_fdt_hob back
first_fdt_hob-append [] back e = refl
first_fdt_hob-append (fdt_pointer base ∷ front) back e = cc
first_fdt_hob-append (system_memory a b ∷ front) back e = first_fdt_hob-append front back e
first_fdt_hob-append (mapped_io a b ∷ front) back e = first_fdt_hob-append front back e
first_fdt_hob-append (allocation a b c ∷ front) back e = first_fdt_hob-append front back e
first_fdt_hob-append (memory_types t ∷ front) back e = first_fdt_hob-append front back e
first_fdt_hob-append (cpu a b ∷ front) back e = first_fdt_hob-append front back e
first_fdt_hob-append (sec_handoff a b ∷ front) back e = first_fdt_hob-append front back e
first_fdt_hob-append (stack a b ∷ front) back e = first_fdt_hob-append front back e

first_fdt_hob-map :
    (hob : ℕ × ℕ → SecHob) (ranges : List (ℕ × ℕ))
    → ((r : ℕ × ℕ) → first_fdt_hob (hob r ∷ []) ≡ none)
    → first_fdt_hob (map hob ranges) ≡ none
first_fdt_hob-map hob [] e = refl
first_fdt_hob-map hob (r ∷ ranges) e =
    first_fdt_hob-append (hob r ∷ []) (map hob ranges) (e r) ∙ first_fdt_hob-map hob ranges e

first_fdt_hob-collect :
    (hobs_of : ℕ → List SecHob) (nodes : List ℕ)
    → ((n : ℕ) → first_fdt_hob (hobs_of n) ≡ none)
    → first_fdt_hob (collect hobs_of nodes) ≡ none
first_fdt_hob-collect hobs_of [] e = refl
first_fdt_hob-collect hobs_of (n ∷ nodes) e =
    first_fdt_hob-append (hobs_of n) (collect hobs_of nodes) (e n)
    ∙ first_fdt_hob-collect hobs_of nodes e

memory_of-none : (p : Platform) (fdt n : ℕ) → first_fdt_hob (memory_of p fdt n) ≡ none
memory_of-none p fdt n = elim (Bool-cases (is_memory_node p fdt n)) [
  | inl e ↦ rw e (first_fdt_hob-map _ (ranges p fdt (pos n)) (λ r. refl))
  | inr e ↦ rw e refl
]

reserved_entry-none : (entry : Option (ℕ × ℕ)) → first_fdt_hob (reserved_entry entry) ≡ none
reserved_entry-none none = refl
reserved_entry-none (some (addr, size)) = ground arith

pub memory_map-none :
    (p : Platform) (lib : Libfdt) (pcd : Pcd) (fdt : ℕ) (nodes children : List ℕ)
    → first_fdt_hob (memory_map p lib pcd fdt nodes children) ≡ none
memory_map-none p lib pcd fdt nodes children =
    let system = collect (memory_of p fdt) nodes in
    let entries = reserve_map lib fdt in
    let reserved = collect (reserved_of p fdt) children in
    let no_system = first_fdt_hob-collect (memory_of p fdt) nodes (memory_of-none p fdt) in
    let no_entries =
      first_fdt_hob-collect (λ k. reserved_entry (lib.reserve_map_entry fdt k))
        (counting (to_unsigned (lib.reserve_map_entries fdt)) 0)
        (λ k. reserved_entry-none (lib.reserve_map_entry fdt k)) in
    let no_reserved =
      first_fdt_hob-collect (reserved_of p fdt) children
        (λ n. first_fdt_hob-map _ (ranges p fdt (pos n)) (λ r. refl)) in
    first_fdt_hob-append (system ++ entries ++ reserved) _ (
      first_fdt_hob-append (system ++ entries) reserved
        (first_fdt_hob-append system entries no_system ∙ no_entries)
      ∙ no_reserved)
