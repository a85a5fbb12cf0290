-- ===== src/Boot/Sample.antt =====
-- Boot services and consoles for the runs of the boot manager library.
use edk2_uemu.Common.{
  ℕ, ◌&&◌, ◌||◌, replicate, arith, Bool, ◌≡◌, refl, true, false, some, List, [], ◌∷◌, ◌==◌,
  if◌then◌else◌,
}
use edk2_uemu.Efi.{Result, ok, err, success, not_found}
use edk2_uemu.Boot.{Console, con_in, con_out, err_out, SerialSettings, Services}
use edk2_uemu.Boot.Keys.{KeyOptions}
use edk2_uemu.Boot.Outputs
use edk2_uemu.Boot.Outputs.{InOutputs, graphics_handles}
use edk2_uemu.DevicePath.{DevicePath, end_node}

-- The configuration space of a modern entropy source.
abbrev pub modern_space : ℕ → Result ℕ
modern_space offset =
    if offset == 0
    then ok 0x1af4
    else if offset == 2
    then ok 0x1044
    else if offset == 8
    then ok 1
    else if offset == 0x2e
    then ok 0x44
    else err not_found

abbrev pub bytes_eq : List ℕ → List ℕ → Bool
bytes_eq [] [] = true
bytes_eq [] (b ∷ bs) = false
bytes_eq (a ∷ as_) [] = false
bytes_eq (a ∷ as_) (b ∷ bs) = a == b && bytes_eq as_ bs

pub bytes_eq_refl : (bytes : List ℕ) → bytes_eq bytes bytes ≡ true
bytes_eq_refl [] = refl
bytes_eq_refl (b ∷ bytes) = ground (arith, bytes_eq_refl bytes)

abbrev pub console_eq : Console → Console → Bool
console_eq con_in con_in = true
console_eq con_out con_out = true
console_eq err_out err_out = true
console_eq _ _ = false

pub console_eq_refl : (console : Console) → console_eq console console ≡ true
console_eq_refl con_in = refl
console_eq_refl con_out = refl
console_eq_refl err_out = refl

-- The consoles as the list of what was added to them, the last first.
abbrev pub Consoles : Type 0
Consoles = List (Console × DevicePath)

abbrev pub holds : Consoles → Console → DevicePath → Bool
holds [] console path = false
holds ((c, p) ∷ s) console path = console_eq c console && bytes_eq p path || holds s console path

-- Every handle is an entropy source with a graphics output, and has one path.
abbrev pub services : Services Consoles
services = record {
  locate_handles = λ s guid. ok (7 ∷ []);
  connect_controller = λ s handle. s;
  has_pci_io = λ s handle. true;
  pci_read = λ s handle offset. modern_space offset;
  is_pci_display_class = λ s handle. ok false;
  sub_system_device_id = λ s handle. err not_found;
  device_path = λ s handle. some end_node;
  update_console_variable = λ s console path. (success, (console, path) ∷ s);
  signal_event_group = λ s group. s;
  configure_tpm_platform_hierarchy = λ s. s;
  dispatch_deferred_images = λ s. s;
}

abbrev pub no_keys : KeyOptions Consoles
no_keys = record {
  register_continue_key_option = λ s key. s;
  get_boot_manager_menu = λ s. (3, s);
  add_key_option_variable = λ s number key. s;
}

pub services-IsDocumented : Outputs.IsDocumented services no_keys holds
services-IsDocumented = record {
  accepts = λ s console path. refl;
  adds = λ s console path. rw (console_eq_refl console, bytes_eq_refl path) refl;
  update_keeps = λ s other added console path h. ground (arith, h);
  connect_keeps = λ s handle console path h. h;
  continue_keeps = λ s key console path h. h;
  menu_keeps = λ s console path h. h;
  key_keeps = λ s number key console path h. h;
  path_stays = λ s console path handle. refl;
}

abbrev pub serial : SerialSettings
serial = record {
  serial_port_guid = replicate 16 1;
  tty_term_guid = replicate 16 2;
  baud_rate = 115200;
  data_bits = 8;
  parity = 1;
  stop_bits = 1;
}
