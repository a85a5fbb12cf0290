-- ===== src/Events/Init.antt =====
-- GoldfishEventsDxe.c: the entry point, with the memory and the events that it holds at its end. An
-- event is told by the member of the private data that keeps it.
use edk2_uemu.Common.{
  ℕ, ◌+◌, Bool, false, not, Option, none, some, List, [], ◌∷◌, ◌++◌, ◌==◌, if◌then◌else◌,
}
use edk2_uemu.Efi.{Status, Result, ok, success, out_of_resources, ◌>>=◌, is_error}
use edk2_uemu.Text.{codes}
use edk2_uemu.Packed.{guid}
use edk2_uemu.DevicePath.{DevicePath, hardware_vendor, end_node}
use edk2_uemu.Mmio.{Mmio}
use edk2_uemu.Fdt.{Platform}
use edk2_uemu.Discover.{find_reg, DxeServices, Registers, declare_registers}
use edk2_uemu.Events.Keys.{Dev, null_key}

-- REG_SET_PAGE, REG_LEN, REG_DATA and PAGE_ABSDATA
abbrev pub reg_set_page : ℕ
reg_set_page = 0

abbrev pub reg_len : ℕ
reg_len = 4

abbrev pub reg_data : ℕ
reg_data = 8

abbrev pub page_absdata : ℕ
page_absdata = 0x20003

-- mDevicePath
abbrev pub device_path : DevicePath
device_path =
    hardware_vendor
      (guid 0x4e6b0da1 0x8c9a 0x4f3e (0xa7 ∷ 0xd2 ∷ 0xe5 ∷ 0xb1 ∷ 0xf9 ∷ 0xc6 ∷ 0xd8 ∷ 0xa3 ∷ []))
    ++ end_node

-- What the entry point allocates or creates.
pub data Resource : Type 0 where
  private_data wait_for_key_event wait_for_key_ex_event : Resource
  key_notify_process_event timer_event : Resource

abbrev pub number : Resource → ℕ
number private_data = 0
number wait_for_key_event = 1
number wait_for_key_ex_event = 2
number key_notify_process_event = 3
number timer_event = 4

-- FreePool and CloseEvent: the first occurrence goes.
abbrev pub release : Resource → List Resource → List Resource
release r [] = []
release r (held ∷ rest) = if number held == number r then rest else held ∷ release r rest

-- The boot services: whether AllocateZeroPool has memory, and the statuses of CreateEvent, SetTimer
-- and InstallMultipleProtocolInterfaces with the path of the new handle.
pub record BootServices : Type 0 where
  pub has_pool : Bool
  pub create_event : Resource → Status
  pub set_timer : Status
  pub install : DevicePath → Status

-- The end of the entry point: its status, what it holds, and the private data.
pub record Started : Type 0 where
  pub status : Status
  pub held : List Resource
  pub dev : Option Dev

-- AllocateZeroPool of the private data, with its MmioBase and an empty NotifyList.
unfoldable pub new_dev : ℕ → Dev
new_dev mmio_base = record {
  mmio_base = mmio_base;
  key_shift = false;
  key_ctrl = false;
  key_alt = false;
  key = null_key;
  key_ready = false;
  notify_key_ready = false;
  notify_key_data = record {
    key = null_key;
    key_state = record { key_shift_state = 0; key_toggle_state = 0 };
  };
  notify_list = [];
}

-- The labels that the entry point jumps to, each of which goes on to the next.
abbrev pub free_dev : Status → List Resource → Started
free_dev s held = record { status = s; held = release private_data held; dev = none }

abbrev pub close_wait_for_key : Status → List Resource → Started
close_wait_for_key s held = free_dev s (release wait_for_key_event held)

abbrev pub close_wait_for_key_ex : Status → List Resource → Started
close_wait_for_key_ex s held = close_wait_for_key s (release wait_for_key_ex_event held)

abbrev pub close_key_notify_process : Status → List Resource → Started
close_key_notify_process s held = close_wait_for_key_ex s (release key_notify_process_event held)

abbrev pub close_timer : Status → List Resource → Started
close_timer s held = close_key_notify_process s (release timer_event held)

-- The calls behind the allocation of the private data.
unfoldable pub create_events : BootServices → ℕ → Started
create_events boot mmio_base =
    let held1 = private_data ∷ [] in
    let held2 = wait_for_key_event ∷ held1 in
    let held3 = wait_for_key_ex_event ∷ held2 in
    let held4 = key_notify_process_event ∷ held3 in
    let held5 = timer_event ∷ held4 in
    if is_error (boot.create_event wait_for_key_event)
    then free_dev (boot.create_event wait_for_key_event) held1
    else if is_error (boot.create_event wait_for_key_ex_event)
    then close_wait_for_key (boot.create_event wait_for_key_ex_event) held2
    else if is_error (boot.create_event key_notify_process_event)
    then close_wait_for_key_ex (boot.create_event key_notify_process_event) held3
    else if is_error (boot.create_event timer_event)
    then close_key_notify_process (boot.create_event timer_event) held4
    else if is_error boot.set_timer
    then close_timer boot.set_timer held5
    else if is_error (boot.install device_path)
    then close_timer (boot.install device_path) held5
    else record { status = success; held = held5; dev = some (new_dev mmio_base) }

module _ {D : Type 0} (io : Mmio D) where
  -- The write and the read that bring the device into its live state.
  unfoldable pub activate : ℕ → D → D
  activate mmio_base d =
      let d1 = io.write32 (mmio_base + reg_set_page) page_absdata d in
      let (len, d2) = io.read32 (mmio_base + reg_len) d1 in d2

  -- The entry point behind the search for the device.
  unfoldable pub start :
      Platform → DxeServices → BootServices → D → ℕ × ℕ → Result (Registers × Started × D)
  start p dxe boot d range = do
    regs ← declare_registers p dxe (reg_data + 4) range.0 range.1
    if not boot.has_pool
        then ok (regs, record { status = out_of_resources; held = []; dev = none }, d)
        else ok (regs, create_events boot regs.base, activate regs.base d)

  -- GoldfishEventsDxeInitialize: an `err` is the status of a call before the allocation, which it
  -- returns.
  unfoldable pub goldfish_events_dxe_initialize :
      Platform → DxeServices → BootServices → ℕ → D → Option (Result (Registers × Started × D))
  goldfish_events_dxe_initialize p dxe boot fuel d =
      elim (find_reg p fuel (codes "google,goldfish-events-keypad")) [
        | none ↦ none
        | some found ↦ some (found >>= λ range. start p dxe boot d range)
      ]
