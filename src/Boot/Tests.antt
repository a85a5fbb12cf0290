-- ===== src/Boot/Tests.antt =====
-- Runs of the boot manager library, and the witnesses of its theorems.
use edk2_uemu.Common.{
  ℕ, ◌+◌, ◌-◌, ◌⊎◌, arith, ◌≡◌, ◌↔◌, refl, true, false, not, none, some, List, [], ◌∷◌, ◌++◌, ◌==◌,
  if◌then◌else◌,
}
use edk2_uemu.Text.{codes}
use edk2_uemu.Efi.{ok, err, success, not_found, not_ready}
use edk2_uemu.Boot.{con_in, serial_console, usb_keyboard, goldfish_keyboard, wait_progress}
use edk2_uemu.Boot.Pci.{connect_displays, platform_boot_manager_before_console, is_virtio_pci_rng}
use edk2_uemu.Boot.Options.{BootOption, BootManager}
use edk2_uemu.Boot.Keys.{enter, f2, esc, hot_keys_iff}
use edk2_uemu.Events.Dispatch.{plain}
use edk2_uemu.Events.Keys.{Dev, null_key, convert_key_code}
use edk2_uemu.Boot.Rng.{ReadsEntropySource, is_virtio_pci_rng_iff}
use edk2_uemu.Boot.Stale.{filter, IsDocumented, is_stale}
use edk2_uemu.Boot.Outputs.{InOutputs, graphics_handles}
use edk2_uemu.Boot.Consoles.{PathsShown, consoles_listed}
use edk2_uemu.Boot.After.{
  AfterServices, enumerate_options, platform_boot_manager_after_console, after_console_options,
}
use edk2_uemu.Boot.Unable.{
  LastResort, returned, booting, boot_rounds, platform_boot_manager_unable_to_boot, Counts,
  unable_to_boot_lem,
}
use edk2_uemu.DevicePath.{is_device_path}
use edk2_uemu.Events.Init
use edk2_uemu.Boot.Sample.{holds, services, no_keys, services-IsDocumented, serial}

-- The paths are sequences of nodes that end where their bytes do.
paths_run :
    (is_device_path 4 (serial_console serial) ≡ true)
    × (is_device_path 2 usb_keyboard ≡ true)
    × (is_device_path 2 goldfish_keyboard ≡ true)
paths_run = (refl, refl, refl)

consoles_listed_example :
    let ready = connect_displays services [] in
    let final = platform_boot_manager_before_console services serial no_keys [] in
    (holds final con_in Init.device_path ≡ true)
    × (holds final con_in usb_keyboard ≡ true)
    × (holds final con_in (serial_console serial) ≡ true)
    × InOutputs holds final (serial_console serial)
    × PathsShown services holds final ready (graphics_handles services ready)
consoles_listed_example = consoles_listed services no_keys holds services-IsDocumented serial []

is_virtio_pci_rng_iff_example :
    (is_virtio_pci_rng services [] 7 ≡ true) ↔ ((true ≡ true) × ReadsEntropySource services [] 7)
is_virtio_pci_rng_iff_example = is_virtio_pci_rng_iff services [] 7

-- Boot0000 is a file on a disk, Boot0001 one in a volume that is gone.
abbrev disk : BootOption
disk = record {
  number = 0;
  node1 = record { type = 2; sub_type = 1 };
  node2 = record { type = 4; sub_type = 4 };
}

abbrev gone : BootOption
gone = record {
  number = 1;
  node1 = record { type = 4; sub_type = 7 };
  node2 = record { type = 4; sub_type = 6 };
}

abbrev shell : BootOption
shell = record gone { number = 2 }

-- The state is the list of the options; the volume of Boot0002 is there.
abbrev manager : BootManager (List BootOption)
manager = record {
  locate_volume = λ option. if option.number == 2 then ok 9 else err not_found;
  read_file = λ volume option. success;
  load_options = λ s. s;
  initialize_load_option = λ s number attributes description guid. record shell { number = number };
  find_load_option = λ option options. none;
  add_load_option_variable = λ s option position.
      s ++ record option { number = if option.number == 0x10000 then 2 else option.number } ∷ [];
  delete_load_option_variable = λ s number. filter (λ x. not (x.number == number)) s;
}

manager-IsDocumented : IsDocumented manager (λ s. 2)
manager-IsDocumented = record {
  deletes = λ s number. refl;
  numbered = λ s number attributes description guid. refl;
  adds = λ s option unassigned. rw unassigned refl;
}

abbrev after : AfterServices (List BootOption)
after = record {
  version_string = codes "1.0";
  boot_time_out = 5;
  enable_logo = λ s. s;
  print = λ s message. s;
  connect_all = λ s. s;
  refresh_all_boot_option = λ s. disk ∷ gone ∷ [];
  register_print_screen = λ s. s;
}

after_console_options_example :
    manager.load_options (platform_boot_manager_after_console after manager 5 [])
    ≡ disk ∷ shell ∷ []
unfolding is_stale enumerate_options
after_console_options_example =
    after_console_options after manager (λ s. 2) 5 [] manager-IsDocumented
      (record { keeps = λ s. refl })

-- The state counts the keys that wait and the boots; pressing a key makes two of them wait.
abbrev last_resort : LastResort (ℕ × ℕ)
last_resort = record {
  get_boot_manager_menu = λ s. (success, s);
  has_con_in = true;
  ascii_print = λ s. s;
  wait_for_event = λ s. (2, s.1);
  read_key_stroke = λ s. (if s.0 == 0 then not_ready else success, (s.0 - 1, s.1));
  boot = λ s. (s.0, s.1 + 1);
}

last_resort-Counts : Counts last_resort (λ s. s.0) (λ s. s.1)
last_resort-Counts = record {
  empty = λ s h. ground (arith, h);
  taken = λ s h. ground (arith, h);
  fewer = λ s. refl;
  boot_counts = λ s. refl;
  read_counts = λ s. refl;
  menu_counts = λ s. refl;
  print_counts = λ s. refl;
  wait_counts = λ s. refl;
}

unable_to_boot_lem_example :
    let outcome = platform_boot_manager_unable_to_boot last_resort 3 10 (0, 0) in
    ((false ≡ true) × (outcome ≡ some (returned (0, 0))) × (◌≡◌ {A = ℕ} 0 0))
    ⊎ ((false ≡ false)
        × ((ready : ℕ × ℕ) × (outcome ≡ some (booting (boot_rounds last_resort 10 ready)))
            × ((true ≡ false) ⊎ (ready.0 ≡ 0))
            × ((boot_rounds last_resort 10 ready).1 ≡ 10)))
unable_to_boot_lem_example =
    unable_to_boot_lem last_resort (λ s. s.0) (λ s. s.1) last_resort-Counts 3 10 (0, 0)
      (omega arith)

wait_progress_run :
    (wait_progress 0 0 ≡ none) × (wait_progress 5 5 ≡ some 0) × (wait_progress 5 1 ≡ some 80)
unfolding wait_progress
wait_progress_run = (refl, refl, refl)

-- The keyboard driver with no key held.
abbrev idle : Dev
idle = record {
  mmio_base = 0x1000;
  key_shift = false;
  key_ctrl = false;
  key_alt = false;
  key = null_key;
  key_ready = false;
  notify_key_ready = false;
  notify_key_data = plain null_key;
  notify_list = [];
}

-- F2 with the Ctrl key held.
hot_keys_iff_example :
    let code : ℕ = 60 in
    let k = (convert_key_code (record idle { key_ctrl = true }) code true).1 in
    ((k ≡ esc) ↔ ((code ≡ 1) × (true ≡ true)))
    × ((k ≡ f2) ↔ ((code ≡ 60) × (true ≡ true)))
    × ((k ≡ enter) ↔ ((code ≡ 28) × (true ≡ true)))
hot_keys_iff_example = hot_keys_iff (record idle { key_ctrl = true }) 60 true
