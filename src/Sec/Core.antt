-- ===== src/Sec/Core.antt =====
-- SecPEIlessStartup of PlatformSecLib.c as a whole: from the entry of the firmware to the call that loads
-- the DXE core. PrePiLib, HobLib, the exception handlers and the constructors of the libraries are
-- arguments.
use edk2_uemu.Common.{ℕ, ◌≡◌, refl, ◌∙◌, Bool, true, false, Option, none, some, List, ap}
use edk2_uemu.Fdt.{Platform, uemu_fdt_get}
use edk2_uemu.Discover.Covers.{IsDocumented}
use edk2_uemu.Sec.{SecHob, Libfdt, PrePi, Pcd}
use edk2_uemu.Sec.Startup.{SecHandoffData, sec_platform_main, startup_hobs}
use edk2_uemu.Sec.Map.{HasNodes}
use edk2_uemu.Sec.Devices.{HasDevices, copied}
use edk2_uemu.Sec.FirstHob.{first_fdt_hob}
use edk2_uemu.Sec.Handoff.{fdt_of, with_hobs, startup_hobs_hands_over}

-- mPpiSecHobData
pub data PpiDescriptor : Type 0 where
  ppi_sec_hob_data : PpiDescriptor

-- SecPlatformMain with or without SecCoreData: the HOBs, and the list of PPIs that it returns.
unfoldable pub sec_platform_ppis :
    Bool
    → Platform
    → Libfdt
    → PrePi
    → Pcd
    → ℕ
    → SecHandoffData
    → List SecHob
    → Option (List SecHob × Option PpiDescriptor)
sec_platform_ppis true p lib pre pcd fuel handoff hobs = some (hobs, some ppi_sec_hob_data)
sec_platform_ppis false p lib pre pcd fuel handoff hobs =
    elim (sec_platform_main p lib pre pcd fuel handoff hobs) [
      | none ↦ none
      | some all ↦ some (all, none)
    ]

-- InitializeFloatingPointUnits, InitializeCpuExceptionHandlers, the HOBs that the library builds,
-- ProcessLibraryConstructorList, FfsFindNextFile of a firmware volume image, FfsProcessFvFile and
-- LoadDxeCoreFromFv.
pub record DxeLoader (S : Type 0) : Type 0 where
  pub initialize_floating_point_units : S → S
  pub initialize_cpu_exception_handlers : S → S
  pub build_hobs : List SecHob → S → S
  pub process_library_constructor_list : S → S
  pub ffs_find_next_file : ℕ → S → Option ℕ
  pub ffs_process_fv_file : ℕ → S → S
  pub load_dxe_core_from_fv : S → S

module _ {S : Type 0} (loader : DxeLoader S) where
  -- The end of SecPEIlessStartup up to the call that loads the DXE core. FileHandle stays NULL where there
  -- is no file, since an ASSERT alone looks at the status.
  unfoldable pub process_volume : ℕ → S → S
  process_volume boot_firmware_volume s =
      let constructed = loader.process_library_constructor_list s in
      let file_handle : ℕ = elim (loader.ffs_find_next_file boot_firmware_volume constructed) [
        | none ↦ 0
        | some file ↦ file
      ] in
      loader.ffs_process_fv_file file_handle constructed

  -- _ModuleEntryPoint and what it calls, up to the DXE core.
  unfoldable pub start_firmware : Platform → Libfdt → PrePi → Pcd → ℕ → ℕ → ℕ → ℕ → S → Option S
  start_firmware p lib pre pcd fuel boot_hart_id device_tree_address boot_firmware_volume s =
      let s1 = loader.initialize_floating_point_units s in
      let s2 = loader.initialize_cpu_exception_handlers s1 in
      elim (startup_hobs p lib pre pcd fuel boot_hart_id device_tree_address) [
        | none ↦ none
        | some hobs ↦ some (
            loader.load_dxe_core_from_fv
              (process_volume boot_firmware_volume (loader.build_hobs hobs s2)))
      ]

  -- The HOB list holds what is built, and the code of others builds no HOB of the device tree.
  pub record KeepsFdt (hobs_of : S → List SecHob) : Type 0 where
    pub built : (hobs : List SecHob) (s : S) → hobs_of (loader.build_hobs hobs s) ≡ hobs
    pub constructed :
        (s : S)
        → first_fdt_hob (hobs_of (loader.process_library_constructor_list s))
          ≡ first_fdt_hob (hobs_of s)
    pub processed :
        (file : ℕ) (s : S)
        → first_fdt_hob (hobs_of (loader.ffs_process_fv_file file s)) ≡ first_fdt_hob (hobs_of s)

  process_volume-keeps :
      (hobs_of : S → List SecHob) (volume : ℕ) (s : S)
      → KeepsFdt hobs_of
      → first_fdt_hob (hobs_of (process_volume volume s)) ≡ first_fdt_hob (hobs_of s)
  unfolding process_volume
  process_volume-keeps hobs_of volume s keeps = keeps.processed _ _ ∙ keeps.constructed s

  -- Where libfdt ends the walks over the nodes, and each of the three searches for devices of
  -- PlatformInitialization with -FDT_ERR_NOTFOUND, and with more fuel than the tree has nodes and devices
  -- and any `reg` has bytes, the firmware comes from its entry to the call that loads the DXE core.
  -- Where the code of others builds no HOB of a device
  -- tree, UemuFdtGet answers in the HOB list that the DXE core is given: the copy of the device
  -- tree, where the tree that the firmware was given passes FdtCheckHeader and the pages and the HOB
  -- could be allocated, and the copy is not at 0 and passes too; EFI_COMPROMISED_DATA where the copy
  -- fails that test; and EFI_NOT_FOUND where PlatformInitialization gave up, whose status is dropped.
  pub start_firmware_lem :
      (p : Platform) (lib : Libfdt) (pre : PrePi) (pcd : Pcd) (fuel boot_hart_id fdt : ℕ)
      (nodes children : List ℕ) (volume : ℕ) (s : S) (hobs_of : S → List SecHob)
      → IsDocumented p
      → HasNodes p lib fdt fuel nodes children
      → HasDevices p fdt fuel
      → KeepsFdt hobs_of
      → (ready : S) × (start_firmware p lib pre pcd fuel boot_hart_id fdt volume s
          ≡ some (loader.load_dxe_core_from_fv ready))
        × (uemu_fdt_get (with_hobs p (hobs_of ready)) 1 ≡ fdt_of p (copied p lib pre fdt))
  unfolding start_firmware
  start_firmware_lem p lib pre pcd fuel boot_hart_id fdt nodes children volume s hobs_of doc tree
        has keeps =
      let s1 = loader.initialize_floating_point_units s in
      let s2 = loader.initialize_cpu_exception_handlers s1 in
      let (hobs, ends, found) =
        startup_hobs_hands_over p lib pre pcd fuel boot_hart_id fdt nodes children doc tree has in
      let given = loader.build_hobs hobs s2 in
      let same : first_fdt_hob (hobs_of (process_volume volume given)) ≡ first_fdt_hob hobs =
        process_volume-keeps hobs_of volume given keeps ∙ ap first_fdt_hob (keeps.built hobs s2) in
      (
        process_volume volume given,
        rw (ends, start_firmware) refl,
        ap (λ hob. uemu_fdt_get (record p { first_fdt_hob = hob }) 1) same ∙ found,
      )
