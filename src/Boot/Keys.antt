-- ===== src/Boot/Keys.antt =====
-- PlatformRegisterOptionsAndKeys of PlatformBm.c, and the keys of GoldfishEventsDxe.c that it waits for.
use edk2_uemu.Common.{ℕ, ◌≡◌, ◌↔◌, Bool, true, u16}
use edk2_uemu.Events.Keys.{InputKey, Dev, convert_key_code}
use edk2_uemu.Events.Convert.{boot_keys_iff}

-- Enter, F2 and Esc, with SCAN_NULL, SCAN_F2, SCAN_ESC, CHAR_CARRIAGE_RETURN and CHAR_NULL.
abbrev pub enter : InputKey
enter = record { scan_code = 0; unicode_char = 0xd }

abbrev pub f2 : InputKey
f2 = record { scan_code = 0xc; unicode_char = 0 }

abbrev pub esc : InputKey
esc = record { scan_code = 0x17; unicode_char = 0 }

-- The calls of UefiBootManagerLib: the option number of the boot manager menu, and the keys.
pub record KeyOptions (S : Type 0) : Type 0 where
  pub register_continue_key_option : S → InputKey → S
  pub get_boot_manager_menu : S → ℕ × S
  pub add_key_option_variable : S → ℕ → InputKey → S

-- PlatformRegisterOptionsAndKeys
unfoldable pub platform_register_options_and_keys : {S : Type 0} → KeyOptions S → S → S
platform_register_options_and_keys options s =
    let continued = options.register_continue_key_option s enter in
    let (number, found) = options.get_boot_manager_menu continued in
    let with_f2 = options.add_key_option_variable found (u16 number) f2 in
    options.add_key_option_variable with_f2 (u16 number) esc

-- Each of the keys that the boot manager waits for comes from one key of the keyboard: whatever the
-- modifiers, the driver yields Enter for pressing KEY_ENTER, F2 for KEY_F2 and Esc for KEY_ESC, and for
-- nothing else.
pub hot_keys_iff :
    (dev : Dev) (code : ℕ) (pressed : Bool)
    → let k = (convert_key_code dev code pressed).1 in
      ((k ≡ esc) ↔ ((code ≡ 1) × (pressed ≡ true)))
      × ((k ≡ f2) ↔ ((code ≡ 60) × (pressed ≡ true)))
      × ((k ≡ enter) ↔ ((code ≡ 28) × (pressed ≡ true)))
hot_keys_iff dev code pressed = boot_keys_iff dev code pressed
