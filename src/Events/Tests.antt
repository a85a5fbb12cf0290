-- ===== src/Events/Tests.antt =====
-- Runs of the keyboard driver over a queue of words, and instances of its theorems.
use edk2_uemu.Common.{
  ◌==◌, if◌then◌else◌, ℕ, ◌<◌, ◌≡◌, refl, Bool, true, false, none, some, List, [], ◌∷◌, ◌++◌, ◌⊎◌,
  arith, get_or, ◌≤◌, ◌↔◌,
}
use edk2_uemu.Efi.{device_error, ok, err, success, not_ready}
use edk2_uemu.Mmio.{Mmio}
use edk2_uemu.Text.{ascii_str_eq, ascii_strn_len_s}
use edk2_uemu.Fdt.{
  read_cell, decode_loop, decode_cells, is_malformed, node_is_enabled, uemu_fdt_get, find_loop,
  uemu_fdt_find_compatible_node, reg_tuple, uemu_fdt_get_reg, uemu_fdt_align_range,
}
use edk2_uemu.Fdt.Sample.{tree, tree_prop}
use edk2_uemu.Discover.{find_reg, Registers, declare_registers}
use edk2_uemu.Discover.Covers.{Holds}
use edk2_uemu.Discover.Sample.{dxe, tree-IsDocumented}
use edk2_uemu.Events.Codes.{key_map, key_map_shift}
use edk2_uemu.Events.Keys.{InputKey, Dev, null_key, convert_key_code, special_key, regular_key}
use edk2_uemu.Events.Device.{
  find_registered, register_key_notify, unregister_key_notify, handle_event, poll_keyboard,
  goldfish_events_reset, read_key_stroke, key_notify_process_handler,
}
use edk2_uemu.Events.Init.{
  number, BootServices, Started, create_events, activate, start, goldfish_events_dxe_initialize,
}
use edk2_uemu.Events.Start.{AllOrNothing, initialize-AllOrNothing}
use edk2_uemu.Events.Convert.{convert_ranges, esc_key}
use edk2_uemu.Events.Poll.{IsEventQueue, Event, words_of}
use edk2_uemu.Events.Batch.{typed_keys, HasTyped, poll_keyboard_batch, reset_drains}
use edk2_uemu.Events.Notify.{unregister-register}
use edk2_uemu.Events.Dispatch.{
  Called, Wants, plain, registered, handler_calls_iff, hotkey_dispatched,
}

abbrev pop : List ℕ → ℕ × List ℕ
pop [] = (0, [])
pop (w ∷ ws) = (w, ws)

abbrev words : Mmio (List ℕ)
words = record { read32 = λ address d. pop d; write32 = λ address value d. d }

words-IsEventQueue : (address : ℕ) → IsEventQueue words address (λ d. d)
words-IsEventQueue address = record {
  empty = λ d h. rw h (refl, refl);
  next = λ d w ws h. rw h (refl, refl);
}

abbrev idle : Dev
idle = record {
  mmio_base = 0x1000;
  key_shift = false;
  key_ctrl = false;
  key_alt = false;
  key = null_key;
  key_ready = false;
  notify_key_ready = false;
  notify_key_data = plain null_key;
  notify_list = [];
}

abbrev a_key : InputKey
a_key = record { scan_code = 65; unicode_char = 65 }

-- Shift and A are pressed, then A is released.
abbrev shift_a : List Event
shift_a =
    record { type = 1; code = 42; value = 1 }
    ∷ record { type = 1; code = 30; value = 1 }
    ∷ record { type = 1; code = 30; value = 0 }
    ∷ []

typed_shift_a : typed_keys idle shift_a ≡ a_key ∷ []
unfolding typed_keys handle_event convert_key_code special_key regular_key
typed_shift_a = refl

map_runs :
    (get_or key_map 30 0 ≡ b'a') × (get_or key_map_shift 40 0 ≡ 34) × (get_or key_map 43 0 ≡ 92)
map_runs = (refl, refl, refl)

convert_ranges_example :
    let k = (convert_key_code idle 30 true).1 in
    (k.scan_code ≤ 126)
    × (k.unicode_char ≤ 126)
    × (idle.key_ctrl ≡ true → k.unicode_char < 32)
    × (k.scan_code ≡ 0 ⊎ k.unicode_char ≡ 0 ⊎ 32 ≤ k.scan_code)
convert_ranges_example = convert_ranges idle 30 true

poll_keyboard_batch_example :
    (new : Dev) × (signal : Bool) × (d' : List ℕ) × (poll_keyboard words 4 false idle
        (words_of shift_a [])
      ≡ some (new, signal, d'))
    × (d' ≡ [])
    × HasTyped idle new (typed_keys idle shift_a)
    × (signal ≡ false)
unfolding typed_keys handle_event convert_key_code special_key regular_key
poll_keyboard_batch_example =
    poll_keyboard_batch words idle (λ d. d) (words-IsEventQueue 0x1000) 4 (words_of shift_a [])
      shift_a [] (omega arith) tt refl (omega arith) false

reset_drains_example :
    (new : Dev) × (d' : List ℕ) × (goldfish_events_reset words 4 idle (words_of shift_a [])
      ≡ some (new, d'))
    × (d' ≡ [])
    × (read_key_stroke new 1 ≡ (new, err not_ready))
    × (new.key_shift ≡ false)
    × (new.key_ctrl ≡ false)
    × (new.key_alt ≡ false)
    × (new.notify_key_ready ≡ false)
    × (new.notify_list ≡ [])
reset_drains_example =
    reset_drains words idle (λ d. d) (words-IsEventQueue 0x1000) 4 (words_of shift_a []) shift_a []
      (omega arith) tt refl (omega arith)

-- Callback 7 registered for ESC, its entry at address 64.
registers_esc : (register_key_notify idle (some 64) (some (plain esc_key, 0)) 7 1).1 ≡ ok 64
unfolding register_key_notify find_registered
registers_esc = refl

abbrev press_esc : List Event
press_esc = shift_a ++ record { type = 1; code = 1; value = 1 } ∷ []

hotkey_dispatched_example :
    (new : Dev) × (d' : List ℕ) × (poll_keyboard words 5 true
        (registered words idle (some 64) esc_key 0 7 1 64 registers_esc)
        (words_of press_esc [])
      ≡ some (new, true, d'))
    × (new.notify_key_data.key ≡ esc_key)
    × Called 7 new.notify_key_data (key_notify_process_handler new).1
unfolding typed_keys handle_event convert_key_code special_key regular_key register_key_notify
    find_registered
hotkey_dispatched_example =
    hotkey_dispatched words idle (some 64) esc_key 0 7 1 64 registers_esc (λ d. d) 5
      (words_of press_esc []) press_esc [] (a_key ∷ []) true (words-IsEventQueue 0x1000)
      (omega arith) tt refl (omega arith) refl

-- Callback 7 listens to ESC with any modifier, and callback 8 to ESC with a shift state of 2 alone.
abbrev listening : Dev
listening = record idle {
  notify_key_ready = true;
  notify_key_data = plain esc_key;
  notify_list =
      record { handle = 64; key_data = plain esc_key; padding = 0; key_notification_fn = 7 }
      ∷ record {
        handle = 80;
        key_data = record {
          key = esc_key;
          key_state = record { key_shift_state = 2; key_toggle_state = 0 };
        };
        padding = 0;
        key_notification_fn = 8;
      }
      ∷ [];
}

handler_calls_iff_example :
    let (dev', calls) = key_notify_process_handler listening in
    (Called 8 (plain esc_key) calls ↔ Wants 8 (plain esc_key) listening.notify_list)
    × (key_notify_process_handler dev' ≡ (dev', []))
handler_calls_iff_example = handler_calls_iff listening 8 refl

unregister-register_example :
    let dev' = (register_key_notify idle (some 64) (some (plain esc_key, 0)) 7 1).0 in
    ((unregister_key_notify dev' 64).0 ≡ idle) × ((unregister_key_notify dev' 64).1 ≡ success)
unfolding find_registered
unregister-register_example =
    unregister-register idle (plain esc_key) 0 7 1 64 (omega arith) (omega arith) (omega arith) refl

-- Boot services that have no timer.
abbrev no_timer : BootServices
no_timer = record {
  has_pool = true;
  create_event = λ r. if number r == 4 then device_error else success;
  set_timer = success;
  install = λ path. success;
}

abbrev keypad : Registers
keypad = record { base = 0x10000000; gcd_base = 0x10000000; gcd_size = 0x1000; added = success }

abbrev closed : Started
closed = record { status = device_error; held = []; dev = none }

initialize_runs :
    goldfish_events_dxe_initialize words tree dxe no_timer 3 (5 ∷ [])
    ≡ some (ok (keypad, closed, []))
unfolding find_reg uemu_fdt_get uemu_fdt_find_compatible_node find_loop node_is_enabled is_malformed
    ascii_strn_len_s ascii_str_eq tree_prop uemu_fdt_get_reg reg_tuple decode_cells decode_loop
    read_cell uemu_fdt_align_range declare_registers create_events activate start
    goldfish_events_dxe_initialize
initialize_runs = refl

initialize-AllOrNothing_example :
    Holds 0x10000000 0x1000 0x10000000 12 × AllOrNothing words 0x10000000 (5 ∷ []) closed []
initialize-AllOrNothing_example =
    initialize-AllOrNothing words tree dxe no_timer 3 (5 ∷ []) tree-IsDocumented initialize_runs
