-- ===== src/Events/Keys.antt =====
-- GoldfishEventsDxe.c: the driver's private data, and the conversion of a Linux
-- keycode to a UEFI key. The codes of UEFI are those of its specification.
use edk2_uemu.Common.{
  ℕ, ◌+◌, ◌-◌, bit_and, bit_or, Bool, true, false, ◌&&◌, ◌||◌, List, ltb, leb, ◌==◌, if◌then◌else◌,
  not, get_or,
}
use edk2_uemu.Events.Codes.{
  max_keyboard_code, key_map, key_map_shift, code_of, key_esc, key_backspace, key_tab, key_enter,
  key_leftctrl, key_leftshift, key_rightshift, key_leftalt, key_capslock, key_f1, key_f10,
  key_numlock, key_scrolllock, key_rightctrl, key_rightalt, key_home, key_up, key_pageup, key_left,
  key_right, key_end, key_down, key_pagedown, key_insert, key_delete,
}

-- EFI_INPUT_KEY
pub record InputKey : Type 0 where
  pub scan_code : ℕ
  pub unicode_char : ℕ

-- EFI_KEY_STATE
pub record KeyState : Type 0 where
  pub key_shift_state : ℕ
  pub key_toggle_state : ℕ

-- EFI_KEY_DATA
pub record KeyData : Type 0 where
  pub key : InputKey
  pub key_state : KeyState

-- GOLDFISH_EVENTS_NOTIFY at the pool address `handle`; `padding` is the bytes of KeyData that belong
-- to no field, which CopyMem copies and CompareMem compares. A callback is its address.
pub record Notify : Type 0 where
  pub handle : ℕ
  pub key_data : KeyData
  pub padding : ℕ
  pub key_notification_fn : ℕ

-- GOLDFISH_EVENTS_DEV, without the protocol tables and event handles.
pub record Dev : Type 0 where
  pub mmio_base : ℕ
  pub key_shift : Bool
  pub key_ctrl : Bool
  pub key_alt : Bool
  pub key : InputKey
  pub key_ready : Bool
  pub notify_key_ready : Bool
  pub notify_key_data : KeyData
  pub notify_list : List Notify

-- BuildKeyState
unfoldable pub build_key_state : Dev → KeyState
build_key_state dev =
    let shift = if dev.key_shift then bit_or 0x80000000 (bit_or 0x2 0x1) else 0x80000000 in
    let ctrl = if dev.key_ctrl then bit_or shift (bit_or 0x8 0x4) else shift in
    let alt = if dev.key_alt then bit_or ctrl (bit_or 0x20 0x10) else ctrl in
    record { key_shift_state = alt; key_toggle_state = 0x80 }

-- IsKeyRegistered
unfoldable pub is_key_registered : KeyData → KeyData → Bool
is_key_registered registered input =
    if not (registered.key.scan_code == input.key.scan_code)
      || not (registered.key.unicode_char == input.key.unicode_char)
    then false
    else if not (registered.key_state.key_shift_state == 0)
        && not (registered.key_state.key_shift_state == input.key_state.key_shift_state)
    then false
    else if not (registered.key_state.key_toggle_state == 0)
        && not (registered.key_state.key_toggle_state == input.key_state.key_toggle_state)
    then false
    else true

-- SCAN_NULL and CHAR_NULL
abbrev pub null_key : InputKey
null_key = record { scan_code = 0; unicode_char = 0 }

abbrev scan : ℕ → InputKey
scan code = record { scan_code = code; unicode_char = 0 }

abbrev char : ℕ → InputKey
char c = record { scan_code = 0; unicode_char = c }

-- The character keys, and the keys that no table knows.
unfoldable pub regular_key : Bool → Bool → ℕ → InputKey
regular_key shift ctrl code =
    let c = if shift then get_or key_map_shift code 0 else get_or key_map code 0 in
    if ltb code max_keyboard_code
    then record { scan_code = c; unicode_char = if ctrl then bit_and c 0x1f else c }
    else null_key

-- `switch (Code)`, whose default goes on to the character keys.
unfoldable pub special_key : ℕ → InputKey → InputKey
special_key code other =
    if code == code_of key_esc
    then scan 0x17
    else if code == code_of key_backspace
    then char 0x8
    else if code == code_of key_tab
    then char 0x9
    else if code == code_of key_enter
    then char 0xd
    else if code == code_of key_up
    then scan 0x1
    else if code == code_of key_down
    then scan 0x2
    else if code == code_of key_left
    then scan 0x4
    else if code == code_of key_right
    then scan 0x3
    else if code == code_of key_home
    then scan 0x5
    else if code == code_of key_end
    then scan 0x6
    else if code == code_of key_pageup
    then scan 0x9
    else if code == code_of key_pagedown
    then scan 0xa
    else if code == code_of key_insert
    then scan 0x7
    else if code == code_of key_delete
    then scan 0x8
    else other

abbrev pub is_shift : ℕ → Bool
is_shift code = code == code_of key_leftshift || code == code_of key_rightshift

abbrev pub is_ctrl : ℕ → Bool
is_ctrl code = code == code_of key_leftctrl || code == code_of key_rightctrl

abbrev pub is_alt : ℕ → Bool
is_alt code = code == code_of key_leftalt || code == code_of key_rightalt

abbrev pub is_lock : ℕ → Bool
is_lock code =
    code == code_of key_capslock || code == code_of key_numlock || code == code_of key_scrolllock

-- A release: three tests in a row, and no key.
unfoldable pub release_key : Dev → ℕ → Dev
release_key dev code = record dev {
  key_shift = if is_shift code then false else dev.key_shift;
  key_ctrl = if is_ctrl code then false else dev.key_ctrl;
  key_alt = if is_alt code then false else dev.key_alt;
}

-- ConvertKeyCode
unfoldable pub convert_key_code : Dev → ℕ → Bool → Dev × InputKey
unfolding release_key
convert_key_code dev code false = (release_key dev code, null_key)
convert_key_code dev code true =
    if is_shift code
    then (record dev { key_shift = true }, null_key)
    else if is_ctrl code
    then (record dev { key_ctrl = true }, null_key)
    else if is_alt code
    then (record dev { key_alt = true }, null_key)
    else if is_lock code
    then (dev, null_key)
    else if leb (code_of key_f1) code && leb code (code_of key_f10)
    then (dev, scan (0xb + (code - code_of key_f1)))
    else (dev, special_key code (regular_key dev.key_shift dev.key_ctrl code))
