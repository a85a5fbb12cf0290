-- ===== src/Boot.antt =====
-- UemuPkg/Library/PlatformBootManagerLib/PlatformBm.c: the devices that the boot manager connects, the
-- consoles, and the boot options. The boot services and UefiBootManagerLib are arguments, over a state
-- of theirs.
pub mod Pci
pub mod Options
pub mod Keys
pub mod Rng
pub mod Stale
pub mod Outputs
pub mod Consoles
pub mod After
pub mod Unable
pub mod Sample
mod Tests
use edk2_uemu.Common.{
  ℕ, ◌+◌, ◌-◌, ◌*◌, ◌/◌, ◌^◌, Bool, true, false, Option, none, some, List, [], ◌∷◌, ◌++◌, ◌==◌, leb,
  if◌then◌else◌, u64,
}
use edk2_uemu.Packed.{guid, byte_fields}
use edk2_uemu.DevicePath.{DevicePath, node, end_node, hardware_vendor, messaging_vendor}
use edk2_uemu.Efi.{Status, Result, ok, err, fault, is_error}

-- The protocols by which the library looks for handles.
pub data ProtocolGuid : Type 0 where
  pci_root_bridge_io pci_io graphics_output virtio_device : ProtocolGuid

-- The console variables.
pub data Console : Type 0 where
  con_in con_out err_out : Console

-- What the path of the serial console takes from the build: EDKII_SERIAL_PORT_LIB_VENDOR_GUID and
-- gEfiTtyTermGuid as their bytes, and the PCDs of the UART.
pub record SerialSettings : Type 0 where
  pub serial_port_guid : List ℕ
  pub tty_term_guid : List ℕ
  pub baud_rate : ℕ
  pub data_bits : ℕ
  pub parity : ℕ
  pub stop_bits : ℕ

-- mSerialConsole, with the GUID that PlatformBootManagerBeforeConsole copies into TermType; MSG_UART_DP.
abbrev pub serial_console : SerialSettings → DevicePath
serial_console serial =
    hardware_vendor (byte_fields serial.serial_port_guid)
    ++ node 3 0xe (
        (4, 0)
        ∷ (8, serial.baud_rate)
        ∷ (1, serial.data_bits)
        ∷ (1, serial.parity)
        ∷ (1, serial.stop_bits)
        ∷ [])
    ++ messaging_vendor (byte_fields serial.tty_term_guid)
    ++ end_node

-- mUsbKeyboard; MSG_USB_CLASS_DP
abbrev pub usb_keyboard : DevicePath
usb_keyboard = node 3 0xf ((2, 0xffff) ∷ (2, 0xffff) ∷ (1, 3) ∷ (1, 1) ∷ (1, 1) ∷ []) ++ end_node

-- mGoldfishKeyboard
abbrev pub goldfish_keyboard : DevicePath
goldfish_keyboard =
    hardware_vendor
      (guid 0x4e6b0da1 0x8c9a 0x4f3e (0xa7 ∷ 0xd2 ∷ 0xe5 ∷ 0xb1 ∷ 0xf9 ∷ 0xc6 ∷ 0xd8 ∷ 0xa3 ∷ []))
    ++ end_node

-- The event groups that the library signals.
pub data EventGroup : Type 0 where
  end_of_dxe root_bridges_connected : EventGroup

-- LocateHandleBuffer, ConnectController, the PCI configuration space behind HandleProtocol and Pci.Read,
-- SubSystemDeviceId behind HandleProtocol, DevicePathFromHandle, and the calls of UefiBootManagerLib.
pub record Services (S : Type 0) : Type 0 where
  pub locate_handles : S → ProtocolGuid → Result (List ℕ)
  pub connect_controller : S → ℕ → S
  pub has_pci_io : S → ℕ → Bool
  pub pci_read : S → ℕ → ℕ → Result ℕ
  pub is_pci_display_class : S → ℕ → Result Bool
  pub sub_system_device_id : S → ℕ → Result ℕ
  pub device_path : S → ℕ → Option DevicePath
  pub update_console_variable : S → Console → DevicePath → Status × S
  pub signal_event_group : S → EventGroup → S
  pub configure_tpm_platform_hierarchy : S → S
  pub dispatch_deferred_images : S → S

module _ {S : Type 0} (services : Services S) where
  -- The loop of FilterAndProcess; no filter lets every handle pass.
  unfoldable pub process_loop : Option (S → ℕ → Bool) → (S → ℕ → S) → List ℕ → S → S
  process_loop filter process [] s = s
  process_loop none process (handle ∷ handles) s =
      process_loop none process handles (process s handle)
  process_loop (some filter) process (handle ∷ handles) s =
      process_loop (some filter) process handles (if filter s handle then process s handle else s)

  -- FilterAndProcess
  unfoldable pub filter_and_process : ProtocolGuid → Option (S → ℕ → Bool) → (S → ℕ → S) → S → S
  filter_and_process guid filter process s = elim (services.locate_handles s guid) [
    | ok handles ↦ process_loop filter process handles s
    | err status ↦ s
    | fault ↦ s
  ]

  -- Connect
  unfoldable pub connect : S → ℕ → S
  connect s handle = services.connect_controller s handle

  -- AddOutput
  unfoldable pub add_output : S → ℕ → S
  add_output s handle = elim (services.device_path s handle) [
    | none ↦ s
    | some path ↦
        let (status, next) = services.update_console_variable s con_out path in
        if is_error status then next else (services.update_console_variable next err_out path).1
  ]

-- The progress that PlatformBootManagerWaitCallback shows, where it shows one. The difference is an int,
-- cast to UINTN.
unfoldable pub wait_progress : ℕ → ℕ → Option ℕ
wait_progress timeout_initial timeout_remain =
    if timeout_initial == 0
    then none
    else if leb timeout_remain timeout_initial
    then some ((timeout_initial - timeout_remain) * 100 / timeout_initial)
    else some (u64 (2 ^ 64 - (timeout_remain - timeout_initial) * 100 / timeout_initial))
