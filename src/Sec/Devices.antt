-- ===== src/Sec/Devices.antt =====
-- PlatformInitialization of Platform.c as a whole.
use edk2_uemu.Common.{
  ℕ, ◌<◌, ◌≡◌, refl, true, false, ◌&&◌, Option, none, some, List, [], ◌∷◌, ◌++◌, inl, inr, length,
  Option-cases, Bool-cases, arith,
}
use mathlib.Core.List.{append-nil, append_assoc}
use edk2_uemu.Common.Int.{minus_one, is_zero}
use edk2_uemu.Efi.{Status, success, unsupported}
use edk2_uemu.Text.{codes}
use edk2_uemu.Fdt.{Platform}
use edk2_uemu.Fdt.Find.{Enumerates}
use edk2_uemu.Discover.Covers.{IsDocumented}
use edk2_uemu.Sec.{SecHob, fdt_pointer, Libfdt, PrePi}
use edk2_uemu.Sec.Io.{populate_all, platform_initialization, size_to_pages}
use edk2_uemu.Sec.Ranges.{collect}
use edk2_uemu.Sec.Resources.{io_of, populate_io_resources-IsMapped}

-- The three enumerations of PlatformInitialization end by -FDT_ERR_NOTFOUND, each in less than `fuel`
-- rounds.
pub record HasDevices (p : Platform) (fdt fuel : ℕ) : Type 0 where
  pub uarts : List ℕ
  pub virtios : List ℕ
  pub displays : List ℕ
  pub finds_uarts : Enumerates p fdt (codes "ns16550a") 0 minus_one uarts
  pub finds_virtios : Enumerates p fdt (codes "virtio,mmio") 0 minus_one virtios
  pub finds_displays : Enumerates p fdt (codes "simple-framebuffer") 0 minus_one displays
  pub enough_uarts : length uarts < fuel
  pub enough_virtios : length virtios < fuel
  pub enough_displays : length displays < fuel

-- The HOBs of the devices.
abbrev pub device_hobs : {p : Platform} {fdt fuel : ℕ} → HasDevices p fdt fuel → List SecHob
device_hobs {p} {fdt} has =
    collect (io_of p fdt) has.uarts
    ++ collect (io_of p fdt) has.virtios
    ++ collect (io_of p fdt) has.displays

populate_all_lem :
    (p : Platform) (fuel fdt : ℕ) (hobs : List SecHob) (has : HasDevices p fdt fuel)
    → IsDocumented p
    → populate_all p fuel fdt hobs ≡ some (hobs ++ device_hobs has)
unfolding populate_all
populate_all_lem p fuel fdt hobs has doc =
    let uarts = collect (io_of p fdt) has.uarts in
    let virtios = collect (io_of p fdt) has.virtios in
    let displays = collect (io_of p fdt) has.displays in
    rw
      (
        populate_all,
        (populate_io_resources-IsMapped p fuel fdt (codes "ns16550a") has.uarts hobs doc
            has.finds_uarts has.enough_uarts).0,
        (populate_io_resources-IsMapped p fuel fdt (codes "virtio,mmio") has.virtios (hobs ++ uarts)
            doc has.finds_virtios has.enough_virtios).0,
        (populate_io_resources-IsMapped p fuel fdt (codes "simple-framebuffer") has.displays
            (hobs ++ uarts ++ virtios) doc has.finds_displays has.enough_displays).0,
        append_assoc hobs uarts virtios,
        append_assoc hobs (uarts ++ virtios) displays,
      )
      refl

-- Where PlatformInitialization copies the device tree to.
abbrev pub copied : Platform → Libfdt → PrePi → ℕ → Option ℕ
copied p lib pre fdt = elim (is_zero (p.check_header fdt) && pre.has_hob_room) [
  | false ↦ none
  | true ↦ pre.allocate_pages (size_to_pages (lib.total_size fdt))
]

-- The HOBs that PlatformInitialization adds.
abbrev pub platform_hobs :
    {p : Platform} {fdt fuel : ℕ} → Option ℕ → HasDevices p fdt fuel → List SecHob
platform_hobs none has = []
platform_hobs (some base) has = fdt_pointer base ∷ [] ++ device_hobs has

copied_inv :
    (p : Platform) (lib : Libfdt) (pre : PrePi) (fdt : ℕ) {base : ℕ}
    → copied p lib pre fdt ≡ some base
    → (is_zero (p.check_header fdt) ≡ true)
      × (pre.has_hob_room ≡ true)
      × (pre.allocate_pages (size_to_pages (lib.total_size fdt)) ≡ some base)
copied_inv p lib pre fdt h = ground (arith, h)

platform_initialization-none :
    (p : Platform) (lib : Libfdt) (pre : PrePi) (fuel fdt : ℕ) (hobs : List SecHob)
    → copied p lib pre fdt ≡ none
    → platform_initialization p lib pre fuel fdt hobs ≡ some (unsupported, hobs)
unfolding platform_initialization
platform_initialization-none p lib pre fuel fdt hobs h =
    let pages = pre.allocate_pages (size_to_pages (lib.total_size fdt)) in
    elim (Bool-cases (is_zero (p.check_header fdt))) [
      | inr bad ↦ rw (platform_initialization, bad) refl
      | inl good ↦ elim (Option-cases pages) [
        | inl full ↦ rw (platform_initialization, good, full) refl
        | inr (base, found) ↦ elim (Bool-cases pre.has_hob_room) [
          | inr no_room ↦ rw (platform_initialization, good, found, no_room) refl
          | inl room ↦ cc (rw (copied, good, room, found) at h)
        ]
      ]
    ]

pub platform_initialization_lem :
    (p : Platform) (lib : Libfdt) (pre : PrePi) (fuel fdt : ℕ) (hobs : List SecHob)
    (has : HasDevices p fdt fuel)
    → IsDocumented p
    → (status : Status) × (platform_initialization p lib pre fuel fdt hobs
        ≡ some (status, hobs ++ platform_hobs (copied p lib pre fdt) has))
unfolding platform_initialization
platform_initialization_lem p lib pre fuel fdt hobs has doc =
    elim (Option-cases (copied p lib pre fdt)) [
      | inl e ↦ (
        unsupported,
        rw (platform_initialization-none p lib pre fuel fdt hobs e, e, append-nil hobs) refl,
      )
      | inr (base, e) ↦
          let (good, room, found) = copied_inv p lib pre fdt e in
          let devices = populate_all_lem p fuel fdt (hobs ++ fdt_pointer base ∷ []) has doc in
          (
            success,
            rw
                (
                  platform_initialization,
                  e,
                  good,
                  found,
                  room,
                  devices,
                  append_assoc hobs (fdt_pointer base ∷ []) (device_hobs has),
                )
                refl,
          )
    ]
