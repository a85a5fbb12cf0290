-- ===== src/Events/Convert.antt =====
-- ConvertKeyCode of GoldfishEventsDxe.c: the ranges and meaning of the keys it yields.
use edk2_uemu.Common.{
  ℕ, zero, suc, ◌≤◌, ◌<◌, ◌≡◌, refl, Bool, true, false, ◌&&◌, ◌||◌, ◌⊎◌, ◌↔◌, inl, inr, ltb, leb,
  ◌==◌, if◌then◌else◌, length, arith, Bool-cases,
}
use edk2_uemu.Events.Codes.{key_map, key_map_shift, max_keyboard_code}
use edk2_uemu.Events.Keys.{
  InputKey, Dev, regular_key, special_key, convert_key_code, is_shift, is_ctrl, is_alt,
}

-- Whether a test holds of every code under the bound.
every_code : (ℕ → Bool) → ℕ → Bool
every_code test zero = true
every_code test (suc bound) = if test bound then every_code test bound else false

every_code-lt :
    (test : ℕ → Bool) (bound code : ℕ)
    → every_code test bound ≡ true
    → code < bound
    → test code ≡ true
unfolding every_code
every_code-lt test zero code passes below = absurd (omega arith)
every_code-lt test (suc bound) code passes below = ground (arith, every_code-lt test bound code)

-- A character key is no key, or its scan code is its ASCII character, which is printable and differs
-- from every scan code of a special key; with Ctrl the character is below 32, without it is the same.
abbrev is_character : Bool → InputKey → Bool
is_character ctrl k =
    (k.scan_code == 0 && k.unicode_char == 0)
    || (leb 32 k.scan_code
        && leb k.scan_code 126
        && (if ctrl then ltb k.unicode_char 32 else k.unicode_char == k.scan_code))

regular_table :
    (shift ctrl : Bool)
    → every_code (λ code. is_character ctrl (regular_key shift ctrl code)) 112 ≡ true
unfolding every_code regular_key
regular_table true true = refl
regular_table true false = refl
regular_table false true = refl
regular_table false false = refl

regular_key-is_character :
    (shift ctrl : Bool) (code : ℕ) → is_character ctrl (regular_key shift ctrl code) ≡ true
regular_key-is_character shift ctrl code = elim (Bool-cases (ltb code 112)) [
  | inl low ↦ every_code-lt _ 112 code (regular_table shift ctrl) (ground arith)
  | inr high ↦ unfold regular_key in ground (arith, high)
]

-- Both tables have an element for every code that ConvertKeyCode looks up.
pub key_maps_in_range :
    (code : ℕ) → code < max_keyboard_code → (code < length key_map) × (code < length key_map_shift)
key_maps_in_range code h = (omega arith, omega arith)

-- A flag of the driver follows the press or release of either key of its pair, and no other event;
-- nothing else of the driver's data changes.
pub convert_modifiers :
    (dev : Dev) (code : ℕ) (pressed : Bool)
    → (convert_key_code dev code pressed).0 ≡ record dev {
      key_shift = if is_shift code then pressed else dev.key_shift;
      key_ctrl = if is_ctrl code then pressed else dev.key_ctrl;
      key_alt = if is_alt code then pressed else dev.key_alt;
    }
unfolding convert_key_code
convert_modifiers dev code pressed = ground arith

abbrev pub esc_key : InputKey
esc_key = record { scan_code = 0x17; unicode_char = 0 }

abbrev pub f2_key : InputKey
f2_key = record { scan_code = 0xc; unicode_char = 0 }

abbrev pub enter_key : InputKey
enter_key = record { scan_code = 0; unicode_char = 0xd }

-- The keys that the boot manager waits for have one keycode each: whatever the modifiers, ESC comes
-- from pressing KEY_ESC, F2 from KEY_F2, ENTER from KEY_ENTER, and from nothing else.
pub boot_keys_iff :
    (dev : Dev) (code : ℕ) (pressed : Bool)
    → let k = (convert_key_code dev code pressed).1 in
      ((k ≡ esc_key) ↔ ((code ≡ 1) × (pressed ≡ true)))
      × ((k ≡ f2_key) ↔ ((code ≡ 60) × (pressed ≡ true)))
      × ((k ≡ enter_key) ↔ ((code ≡ 28) × (pressed ≡ true)))
unfolding convert_key_code special_key
boot_keys_iff dev code pressed =
    let regular = regular_key-is_character dev.key_shift dev.key_ctrl code in
    (
      ((λ h. ground (arith, regular)), (λ h. ground (arith, regular))),
      ((λ h. ground (arith, regular)), (λ h. ground (arith, regular))),
      ((λ h. ground (arith, regular)), (λ h. ground (arith, regular))),
    )

-- The codes of a key lie in 7 bits, and with Ctrl its character is a control character.
pub convert_ranges :
    (dev : Dev) (code : ℕ) (pressed : Bool)
    → let k = (convert_key_code dev code pressed).1 in
      (k.scan_code ≤ 126)
      × (k.unicode_char ≤ 126)
      × (dev.key_ctrl ≡ true → k.unicode_char < 32)
      × (k.scan_code ≡ 0 ⊎ k.unicode_char ≡ 0 ⊎ 32 ≤ k.scan_code)
unfolding convert_key_code special_key
convert_ranges dev code pressed =
    ground (arith, regular_key-is_character dev.key_shift dev.key_ctrl code)
