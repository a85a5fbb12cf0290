-- ===== src/Events/Device.antt =====
-- GoldfishEventsDxe.c: polling the device, dispatching key notifications, and the two text input
-- protocols. An IN pointer that may be NULL is an Option, an OUT pointer its address. What a function
-- does to an event is `true` where it signals it. `none` is fuel that ran out.
use edk2_uemu.Common.{
  ℕ, zero, suc, ◌+◌, Bool, true, false, not, ◌&&◌, ◌||◌, Option, none, some, List, [], ◌∷◌, ◌++◌,
  ◌==◌, if◌then◌else◌, u16, map,
}
use edk2_uemu.Efi.{
  Status, Result, ok, err, fault, success, invalid_parameter, not_ready, out_of_resources,
}
use edk2_uemu.Mmio.{Mmio}
use edk2_uemu.Events.Keys.{
  InputKey, KeyData, Notify, Dev, null_key, build_key_state, is_key_registered, convert_key_code,
}

-- REG_READ and EV_KEY
abbrev pub reg_read : ℕ
reg_read = 0

abbrev pub ev_key : ℕ
ev_key = 1

abbrev pub is_null_key : InputKey → Bool
is_null_key k = k.scan_code == 0 && k.unicode_char == 0

-- What follows the conversion of a key: it is buffered, and queued for notification.
unfoldable pub buffer_key : Dev → InputKey → Dev
buffer_key dev k = record dev {
  key = k;
  key_ready = true;
  notify_key_ready = true;
  notify_key_data = record { key = k; key_state = build_key_state dev };
}

-- One event of the loop of PollKeyboard, its type not 0. The second part is HaveNotify.
unfoldable pub handle_event : Dev → Bool → ℕ → ℕ → ℕ → Dev × Bool
unfolding buffer_key
handle_event dev have_notify type code value =
    let (dev', k) = convert_key_code dev (u16 code) (value == 1) in
    if not (type == ev_key)
    then (dev, have_notify)
    else if is_null_key k
    then (dev', have_notify)
    else (buffer_key dev' k, true)

abbrev pub is_empty {ℓ} : {A : Type ℓ} → List A → Bool
is_empty [] = true
is_empty (x ∷ xs) = false

-- What GoldfishEventsReset stores before it drains the device.
unfoldable pub reset_dev : Dev → Dev
reset_dev dev = record dev {
  key_shift = false;
  key_ctrl = false;
  key_alt = false;
  key = null_key;
  key_ready = false;
  notify_key_ready = false;
  notify_key_data = record {
    key = null_key;
    key_state = record { key_shift_state = 0; key_toggle_state = 0 };
  };
}

module _ {D : Type 0} (io : Mmio D) where
  -- GoldfishRead32
  abbrev pub goldfish_read32 : Dev → ℕ → D → ℕ × D
  goldfish_read32 dev offset d = io.read32 (dev.mmio_base + offset) d

  -- The loop of PollKeyboard.
  unfoldable pub poll_loop : ℕ → Dev → Bool → D → Option (Dev × Bool × D)
  poll_loop zero dev have_notify d = none
  poll_loop (suc fuel) dev have_notify d =
      let (type, d1) = goldfish_read32 dev reg_read d in
      let (code, d2) = goldfish_read32 dev reg_read d1 in
      let (value, d3) = goldfish_read32 dev reg_read d2 in
      let (dev', have_notify') = handle_event dev have_notify type code value in
      let rest = poll_loop fuel dev' have_notify' d3 in
      if type == 0 then some (dev, have_notify, d1) else rest

  -- PollKeyboard. The source does not initialise HaveNotify: `have_notify` is what the stack holds.
  -- The second part says whether KeyNotifyProcessEvent is signalled.
  unfoldable pub poll_keyboard : ℕ → Bool → Dev → D → Option (Dev × Bool × D)
  poll_keyboard fuel have_notify dev d = elim (poll_loop fuel dev have_notify d) [
    | none ↦ none
    | some (dev', have_notify', d') ↦
        some (dev', have_notify' && not (is_empty dev'.notify_list), d')
  ]

  -- KeyboardTimerHandler: the signals of KeyNotifyProcessEvent, and of WaitForKey and WaitForKeyEx.
  unfoldable pub keyboard_timer_handler : ℕ → Bool → Dev → D → Option (Dev × Bool × Bool × D)
  keyboard_timer_handler fuel have_notify dev d = elim (poll_keyboard fuel have_notify dev d) [
    | none ↦ none
    | some (dev', notify, d') ↦ some (dev', notify, dev'.key_ready, d')
  ]

  -- GoldfishEventsWaitForKey and GoldfishEventsWaitForKeyEx, which stall, poll and signal the event
  -- that they wait for.
  unfoldable pub wait_for_key : ℕ → Bool → Dev → D → Option (Dev × Bool × Bool × D)
  wait_for_key fuel have_notify dev d = elim (poll_keyboard fuel have_notify dev d) [
    | none ↦ none
    | some (dev', notify, d') ↦ some (dev', notify, dev'.key_ready, d')
  ]

  -- The loop of GoldfishEventsReset that drains the device.
  unfoldable pub drain_loop : ℕ → Dev → D → Option D
  drain_loop zero dev d = none
  drain_loop (suc fuel) dev d =
      let (type, d1) = goldfish_read32 dev reg_read d in
      let (code, d2) = goldfish_read32 dev reg_read d1 in
      let (value, d3) = goldfish_read32 dev reg_read d2 in
      let rest = drain_loop fuel dev d3 in if type == 0 then some d1 else rest

  -- GoldfishEventsReset and GoldfishEventsResetEx, which return EFI_SUCCESS.
  unfoldable pub goldfish_events_reset : ℕ → Dev → D → Option (Dev × D)
  unfolding reset_dev
  goldfish_events_reset fuel dev d = elim (drain_loop fuel (reset_dev dev) d) [
    | none ↦ none
    | some d' ↦ some (reset_dev dev, d')
  ]

-- GoldfishEventsReadKeyStroke
unfoldable pub read_key_stroke : Dev → ℕ → Dev × Result InputKey
read_key_stroke dev key =
    if key == 0
    then (dev, err invalid_parameter)
    else if dev.key_ready
    then (record dev { key_ready = false }, ok dev.key)
    else (dev, err not_ready)

-- GoldfishEventsReadKeyStrokeEx, which passes the address of a local variable on.
unfoldable pub read_key_stroke_ex : Dev → ℕ → Dev × Result KeyData
unfolding read_key_stroke
read_key_stroke_ex dev key_data =
    if key_data == 0
    then (dev, err invalid_parameter)
    else let (dev', r) = read_key_stroke dev 1 in
      elim r [
        | ok k ↦ (dev', ok (record { key = k; key_state = build_key_state dev' }))
        | err s ↦ (dev', err s)
        | fault ↦ (dev', fault)
      ]

-- GoldfishEventsSetState
unfoldable pub set_state : Option ℕ → Status
set_state none = invalid_parameter
set_state (some toggle) = success

-- CompareMem of two EFI_KEY_DATA with their padding, == 0.
abbrev pub same_key_data : KeyData → ℕ → KeyData → ℕ → Bool
same_key_data a pa b pb =
    a.key.scan_code == b.key.scan_code
    && a.key.unicode_char == b.key.unicode_char
    && a.key_state.key_shift_state == b.key_state.key_shift_state
    && a.key_state.key_toggle_state == b.key_state.key_toggle_state
    && pa == pb

-- The search for a registration of the same key and function.
unfoldable pub find_registered : List Notify → KeyData → ℕ → ℕ → Option ℕ
find_registered [] key_data padding fn = none
find_registered (e ∷ es) key_data padding fn =
    if e.key_notification_fn == fn && same_key_data e.key_data e.padding key_data padding
    then some e.handle
    else find_registered es key_data padding fn

-- GoldfishEventsRegisterKeyNotify: `alloc` is what AllocateZeroPool answers. InsertTailList puts the
-- new entry last.
unfoldable pub register_key_notify : Dev → Option ℕ → Option (KeyData × ℕ) → ℕ → ℕ → Dev × Result ℕ
register_key_notify dev alloc none fn notify_handle = (dev, err invalid_parameter)
register_key_notify dev alloc (some (key_data, padding)) fn notify_handle =
    if notify_handle == 0 || fn == 0
    then (dev, err invalid_parameter)
    else elim (find_registered dev.notify_list key_data padding fn) [
      | some handle ↦ (dev, ok handle)
      | none ↦ elim alloc [
        | none ↦ (dev, err out_of_resources)
        | some handle ↦ (
          record dev {
            notify_list =
                dev.notify_list
                ++ record {
                  handle = handle;
                  key_data = key_data;
                  padding = padding;
                  key_notification_fn = fn;
                }
                  ∷ [];
          },
          ok handle,
        )
      ]
    ]

-- The walk of UnregisterKeyNotify: the list without the entry of that handle, or `none`.
unfoldable pub remove_entry : List Notify → ℕ → Option (List Notify)
remove_entry [] handle = none
remove_entry (e ∷ es) handle = elim (e.handle == handle) [
  | true ↦ some es
  | false ↦ elim (remove_entry es handle) [ none ↦ none | some rest ↦ some (e ∷ rest) ]
]

-- GoldfishEventsUnregisterKeyNotify
unfoldable pub unregister_key_notify : Dev → ℕ → Dev × Status
unregister_key_notify dev handle =
    if handle == 0 then (dev, invalid_parameter) else elim (remove_entry dev.notify_list handle) [
      | none ↦ (dev, invalid_parameter)
      | some rest ↦ (record dev { notify_list = rest }, success)
    ]

-- The callbacks that the walk of the notify list invokes, in order.
unfoldable pub matching_callbacks : List Notify → KeyData → List ℕ
matching_callbacks [] key_data = []
matching_callbacks (e ∷ es) key_data =
    let rest = matching_callbacks es key_data in
    if is_key_registered e.key_data key_data then e.key_notification_fn ∷ rest else rest

-- KeyNotifyProcessHandler: the calls that it makes, each with the key data. The callbacks are code of
-- others, and are taken not to change the driver's data.
unfoldable pub key_notify_process_handler : Dev → Dev × List (ℕ × KeyData)
key_notify_process_handler dev =
    if dev.notify_key_ready
    then (
      record dev { notify_key_ready = false },
      map (λ fn. (fn, dev.notify_key_data))
          (matching_callbacks dev.notify_list dev.notify_key_data),
    )
    else (dev, [])
