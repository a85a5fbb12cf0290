-- ===== src/Sec/Handoff.antt =====
-- SecPlatformMain of PlatformSecLib.c as a whole, and what UemuFdtGet of UemuFdtLib.c finds behind it.
use edk2_uemu.Common.{
  ℕ, ◌≡◌, refl, not, ◌||◌, Option, none, some, List, [], ◌∷◌, ◌++◌, ◌==◌, if◌then◌else◌, ◌∙◌, ap,
}
use mathlib.Core.List.{append_assoc}
use edk2_uemu.Common.Int.{is_zero}
use edk2_uemu.Efi.{Result, ok, err, not_found, compromised_data}
use edk2_uemu.Fdt.{Platform, Hob, uemu_fdt_get}
use edk2_uemu.Discover.Covers.{IsDocumented}
use edk2_uemu.Sec.{SecHob, cpu, sec_handoff, stack, Libfdt, PrePi, Pcd}
use edk2_uemu.Sec.Startup.{
  sec_startup_platform, cpu_initialization, sec_platform_main, module_entry_point, startup_hobs,
}
use edk2_uemu.Sec.Map.{HasNodes, memory_map, memory_initialization_map}
use edk2_uemu.Sec.Devices.{HasDevices, copied, platform_hobs, platform_initialization_lem}
use edk2_uemu.Sec.FirstHob.{first_fdt_hob, first_fdt_hob-append, memory_map-none}

-- All the HOBs behind those of HobConstructor.
abbrev pub all_hobs :
    (p : Platform) (lib : Libfdt) (pre : PrePi) (pcd : Pcd) (fuel boot_hart_id fdt : ℕ)
    (nodes children : List ℕ)
    → HasDevices p fdt fuel
    → List SecHob
all_hobs p lib pre pcd fuel boot_hart_id fdt nodes children has =
    let ram = (module_entry_point pcd boot_hart_id fdt).2 in
    stack ram.stack_base ram.stack_size ∷ []
    ++ memory_map p lib pcd fdt nodes children
    ++ cpu 56 32 ∷ []
    ++ platform_hobs (copied p lib pre fdt) has
    ++ sec_handoff boot_hart_id fdt ∷ []

startup_hobs_lem :
    (p : Platform) (lib : Libfdt) (pre : PrePi) (pcd : Pcd) (fuel boot_hart_id fdt : ℕ)
    (nodes children : List ℕ) (has : HasDevices p fdt fuel)
    → IsDocumented p
    → HasNodes p lib fdt fuel nodes children
    → startup_hobs p lib pre pcd fuel boot_hart_id fdt
      ≡ some (all_hobs p lib pre pcd fuel boot_hart_id fdt nodes children has)
unfolding startup_hobs sec_platform_main cpu_initialization module_entry_point sec_startup_platform
startup_hobs_lem p lib pre pcd fuel boot_hart_id fdt nodes children has doc tree =
    let ram = (module_entry_point pcd boot_hart_id fdt).2 in
    let first = stack ram.stack_base ram.stack_size ∷ [] in
    rw
      (
        startup_hobs,
        sec_platform_main,
        memory_initialization_map p lib pcd fuel fdt nodes children first doc.lengths doc.swaps
            tree,
        cpu_initialization,
        (platform_initialization_lem p lib pre fuel fdt
            (first ++ memory_map p lib pcd fdt nodes children ++ cpu 56 32 ∷ []) has doc).1,
      )
      refl

-- What UemuFdtGet should answer behind the copy of the device tree.
abbrev pub fdt_of : Platform → Option ℕ → Result ℕ
fdt_of p none = err not_found
fdt_of p (some base) =
    if base == 0 || not (is_zero (p.check_header base)) then err compromised_data else ok base

-- The platform once HobLib holds these HOBs.
abbrev pub with_hobs : Platform → List SecHob → Platform
with_hobs p hobs = record p { first_fdt_hob = first_fdt_hob hobs }

first_fdt_hob-all :
    (p : Platform) (lib : Libfdt) (pre : PrePi) (pcd : Pcd) (fuel boot_hart_id fdt : ℕ)
    (nodes children : List ℕ) (has : HasDevices p fdt fuel)
    → first_fdt_hob (all_hobs p lib pre pcd fuel boot_hart_id fdt nodes children has)
      ≡ first_fdt_hob
          (platform_hobs (copied p lib pre fdt) has ++ sec_handoff boot_hart_id fdt ∷ [])
first_fdt_hob-all p lib pre pcd fuel boot_hart_id fdt nodes children has =
    let ram = (module_entry_point pcd boot_hart_id fdt).2 in
    let first = stack ram.stack_base ram.stack_size ∷ [] in
    let map = memory_map p lib pcd fdt nodes children in
    let front = first ++ map ++ cpu 56 32 ∷ [] in
    let platform = platform_hobs (copied p lib pre fdt) has in
    let no_map =
      first_fdt_hob-append first map refl ∙ memory_map-none p lib pcd fdt nodes children in
    let no_front = first_fdt_hob-append (first ++ map) (cpu 56 32 ∷ []) no_map in
    ap first_fdt_hob (append_assoc front platform (sec_handoff boot_hart_id fdt ∷ []))
    ∙ first_fdt_hob-append front (platform ++ sec_handoff boot_hart_id fdt ∷ []) no_front

get-fdt_of :
    (p : Platform) (fuel boot_hart_id fdt : ℕ) (base : Option ℕ) (has : HasDevices p fdt fuel)
    (hob : Option Hob)
    → hob ≡ first_fdt_hob (platform_hobs base has ++ sec_handoff boot_hart_id fdt ∷ [])
    → uemu_fdt_get (record p { first_fdt_hob = hob }) 1 ≡ fdt_of p base
unfolding uemu_fdt_get
get-fdt_of p fuel boot_hart_id fdt none has hob e = rw e refl
get-fdt_of p fuel boot_hart_id fdt (some base) has hob e = rw e refl

-- With more fuel than the tree has nodes and devices and any `reg` has bytes, the start-up ends, and
-- behind its HOBs UemuFdtGet answers the copy of the device tree, where the tree that the firmware
-- was given passes FdtCheckHeader and the pages and the HOB could be allocated, and the copy is not
-- at 0 and passes too; EFI_COMPROMISED_DATA where the copy fails that test; and EFI_NOT_FOUND where
-- PlatformInitialization gave up, whose status the start-up drops.
pub startup_hobs_hands_over :
    (p : Platform) (lib : Libfdt) (pre : PrePi) (pcd : Pcd) (fuel boot_hart_id fdt : ℕ)
    (nodes children : List ℕ)
    → IsDocumented p
    → HasNodes p lib fdt fuel nodes children
    → HasDevices p fdt fuel
    → (hobs : List SecHob) × (startup_hobs p lib pre pcd fuel boot_hart_id fdt ≡ some hobs)
      × (uemu_fdt_get (with_hobs p hobs) 1 ≡ fdt_of p (copied p lib pre fdt))
startup_hobs_hands_over p lib pre pcd fuel boot_hart_id fdt nodes children doc tree has = (
  all_hobs p lib pre pcd fuel boot_hart_id fdt nodes children has,
  startup_hobs_lem p lib pre pcd fuel boot_hart_id fdt nodes children has doc tree,
  get-fdt_of p fuel boot_hart_id fdt (copied p lib pre fdt) has _
      (first_fdt_hob-all p lib pre pcd fuel boot_hart_id fdt nodes children has),
)
