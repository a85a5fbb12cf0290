-- ===== src/Boot/Pci.antt =====
-- The filters of PlatformBm.c, and PlatformBootManagerBeforeConsole, which applies them.
use edk2_uemu.Common.{
  ℕ, ◌+◌, Bool, true, false, not, ◌&&◌, Option, none, some, ◌==◌, leb, if◌then◌else◌,
}
use edk2_uemu.Efi.{Result, ok, err, fault, ◌>>=◌}
use edk2_uemu.DevicePath.{DevicePath}
use edk2_uemu.Boot.Keys.{KeyOptions, platform_register_options_and_keys}
use edk2_uemu.Boot.{
  Services, pci_root_bridge_io, pci_io, graphics_output, virtio_device, Console, con_in, con_out,
  err_out, SerialSettings, usb_keyboard, goldfish_keyboard, serial_console, end_of_dxe,
  root_bridges_connected, filter_and_process, connect, add_output,
}

-- VIRTIO_VENDOR_ID, VIRTIO_SUBSYSTEM_ENTROPY_SOURCE, and the offsets in the configuration space.
abbrev pub virtio_vendor_id : ℕ
virtio_vendor_id = 0x1af4

abbrev pub virtio_subsystem_entropy_source : ℕ
virtio_subsystem_entropy_source = 4

abbrev pub vendor_id_offset : ℕ
vendor_id_offset = 0

abbrev pub device_id_offset : ℕ
device_id_offset = 2

abbrev pub revision_id_offset : ℕ
revision_id_offset = 8

abbrev pub subsystem_id_offset : ℕ
subsystem_id_offset = 0x2e

-- TRUE, where the calls succeed with it.
abbrev pub is_ok_true : Result Bool → Bool
is_ok_true (ok answer) = answer
is_ok_true _ = false

-- Virtio10, where the device can be a virtio device at all.
unfoldable pub virtio10 : ℕ → ℕ → Option Bool
virtio10 device_id revision_id =
    if device_id == 0x1040 + virtio_subsystem_entropy_source && leb 1 revision_id
    then some true
    else if leb 0x1000 device_id && (leb device_id 0x103f && revision_id == 0)
    then some false
    else none

-- The tests of SubsystemId.
unfoldable pub is_entropy_source : Bool → ℕ → Bool
is_entropy_source true subsystem_id = leb 0x40 subsystem_id
is_entropy_source false subsystem_id = subsystem_id == virtio_subsystem_entropy_source

module _ {S : Type 0} (services : Services S) where
  -- IsPciDisplay
  unfoldable pub is_pci_display : S → ℕ → Bool
  is_pci_display s handle =
      if services.has_pci_io s handle
      then is_ok_true (services.is_pci_display_class s handle)
      else false

  -- IsVirtioRng
  unfoldable pub is_virtio_rng : S → ℕ → Bool
  is_virtio_rng s handle = elim (services.sub_system_device_id s handle) [
    | ok id ↦ id == virtio_subsystem_entropy_source
    | err status ↦ false
    | fault ↦ false
  ]

  -- IsVirtioPciRng behind HandleProtocol; an error of Pci.Read is the error of the chain.
  unfoldable pub check_virtio_pci_rng : S → ℕ → Result Bool
  check_virtio_pci_rng s handle = do
    vendor_id ← services.pci_read s handle vendor_id_offset
    if not (vendor_id == virtio_vendor_id) then ok false else do
      device_id ← services.pci_read s handle device_id_offset
      revision_id ← services.pci_read s handle revision_id_offset
      elim (virtio10 device_id revision_id) [
        | none ↦ ok false
        | some modern ↦ services.pci_read s handle subsystem_id_offset >>= λ subsystem_id.
            ok (is_entropy_source modern subsystem_id)
      ]

  -- IsVirtioPciRng
  unfoldable pub is_virtio_pci_rng : S → ℕ → Bool
  is_virtio_pci_rng s handle =
      if services.has_pci_io s handle then is_ok_true (check_virtio_pci_rng s handle) else false

  -- EfiBootManagerUpdateConsoleVariable, whose status is dropped.
  abbrev pub add_console : Console → DevicePath → S → S
  add_console console path s = (services.update_console_variable s console path).1

  -- The calls of PlatformBootManagerBeforeConsole up to the connection of the display devices.
  unfoldable pub connect_displays : S → S
  connect_displays s0 =
      let s1 = services.signal_event_group s0 end_of_dxe in
      let s2 = services.configure_tpm_platform_hierarchy s1 in
      let s3 = services.dispatch_deferred_images s2 in
      let s4 = filter_and_process services pci_root_bridge_io none (connect services) s3 in
      let s5 = services.signal_event_group s4 root_bridges_connected in
      filter_and_process services pci_io (some is_pci_display) (connect services) s5

  -- PlatformBootManagerBeforeConsole
  unfoldable pub platform_boot_manager_before_console : SerialSettings → KeyOptions S → S → S
  platform_boot_manager_before_console serial keys s0 =
      let s6 = connect_displays s0 in
      let s7 = filter_and_process services graphics_output none (add_output services) s6 in
      let s8 = add_console con_in usb_keyboard s7 in
      let s9 = add_console con_in goldfish_keyboard s8 in
      let s10 = add_console con_in (serial_console serial) s9 in
      let s11 = add_console con_out (serial_console serial) s10 in
      let s12 = add_console err_out (serial_console serial) s11 in
      let s13 = platform_register_options_and_keys keys s12 in
      let s14 =
        filter_and_process services virtio_device (some is_virtio_rng) (connect services) s13 in
      filter_and_process services pci_io (some is_virtio_pci_rng) (connect services) s14
