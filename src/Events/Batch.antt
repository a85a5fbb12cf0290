-- ===== src/Events/Batch.antt =====
-- What a batch of events leaves in the driver of GoldfishEventsDxe.c: the last key typed wins.
use edk2_uemu.Common.{
  ℕ, ◌+◌, ◌<◌, ◌≡◌, refl, ◌∙◌, Bool, false, not, ◌&&◌, ◌||◌, some, List, [], ◌∷◌, ◌==◌,
  if◌then◌else◌, length, u16, arith, Bool-cases, inl, inr,
}
use edk2_uemu.Efi.{err, not_ready}
use edk2_uemu.Mmio.{Mmio}
use edk2_uemu.Events.Keys.{InputKey, Dev, convert_key_code}
use edk2_uemu.Events.Device.{
  reg_read, ev_key, is_null_key, is_empty, handle_event, poll_keyboard, reset_dev,
  goldfish_events_reset, read_key_stroke,
}
use edk2_uemu.Events.Poll.{
  IsEventQueue, Event, words_of, IsBatch, IsEnd, after_end, process, poll_loop_lem, drain_loop_lem,
}

-- The keys that the events type, in order: those of type EV_KEY that convert to a key.
unfoldable pub typed_keys : Dev → List Event → List InputKey
typed_keys dev [] = []
typed_keys dev (e ∷ es) =
    let (dev', have_notify) = handle_event dev false e.type e.code e.value in
    let rest = typed_keys dev' es in
    let k = (convert_key_code dev (u16 e.code) (e.value == 1)).1 in
    if e.type == ev_key && not (is_null_key k) then k ∷ rest else rest

abbrev pub last_or {ℓ} : {A : Type ℓ} → List A → A → A
last_or [] a = a
last_or (x ∷ xs) a = last_or xs x

-- The data after a batch, in terms of the keys typed.
pub record HasTyped (old new : Dev) (keys : List InputKey) : Type 0 where
  pub latest : new.key ≡ last_or keys old.key
  pub ready : new.key_ready ≡ (old.key_ready || not (is_empty keys))
  pub notify_latest : new.notify_key_data.key ≡ last_or keys old.notify_key_data.key
  pub notify_ready : new.notify_key_ready ≡ (old.notify_key_ready || not (is_empty keys))
  pub same_list : new.notify_list ≡ old.notify_list

handle_event-have :
    (dev : Dev) (h : Bool) (type code value : ℕ)
    → (handle_event dev h type code value).0 ≡ (handle_event dev false type code value).0
unfolding handle_event
handle_event-have dev h type code value = ground arith

-- A conversion changes the modifiers only.
record KeepsKeys (old new : Dev) : Type 0 where
  key : new.key ≡ old.key
  key_ready : new.key_ready ≡ old.key_ready
  notify_key_data : new.notify_key_data ≡ old.notify_key_data
  notify_key_ready : new.notify_key_ready ≡ old.notify_key_ready
  notify_list : new.notify_list ≡ old.notify_list

convert-KeepsKeys :
    (dev : Dev) (code : ℕ) (pressed : Bool) → KeepsKeys dev (convert_key_code dev code pressed).0
unfolding convert_key_code
convert-KeepsKeys dev code pressed = ground arith

-- One event types one key or none.
handle_event-HasTyped :
    (dev : Dev) (h : Bool) (e : Event) (keys : List InputKey) (new : Dev)
    → let r = handle_event dev h e.type e.code e.value in
      let k = (convert_key_code dev (u16 e.code) (e.value == 1)).1 in
      HasTyped r.0 new keys
      → HasTyped dev new (if e.type == ev_key && not (is_null_key k) then k ∷ keys else keys)
unfolding handle_event
handle_event-HasTyped dev h e keys new t =
    let keeps = convert-KeepsKeys dev (u16 e.code) (e.value == 1) in
    elim (Bool-cases (e.type == ev_key)) [
      | inr other ↦ rw other (rw other at t)
      | inl typed ↦
          elim (Bool-cases (is_null_key (convert_key_code dev (u16 e.code) (e.value == 1)).1)) [
            | inl none_typed ↦ ground (arith, typed, none_typed, keeps, t)
            | inr key_typed ↦ ground (arith, typed, key_typed, keeps, t)
          ]
    ]

handle_event-flag :
    (dev : Dev) (h : Bool) (e : Event) (keys : List InputKey)
    → let k = (convert_key_code dev (u16 e.code) (e.value == 1)).1 in
      ((handle_event dev h e.type e.code e.value).1 || not (is_empty keys))
      ≡ (h || not (is_empty (if e.type == ev_key && not (is_null_key k) then k ∷ keys else keys)))
unfolding handle_event
handle_event-flag dev h e keys = ground arith

process_lem :
    (dev : Dev) (h : Bool) (es : List Event)
    → HasTyped dev (process dev h es).0 (typed_keys dev es)
      × ((process dev h es).1 ≡ (h || not (is_empty (typed_keys dev es))))
unfolding process typed_keys
process_lem dev h [] = ground arith
process_lem dev h (e ∷ es) =
    let (dev', h') = handle_event dev h e.type e.code e.value in
    let (typed, flag) = process_lem dev' h' es in
    rw (← handle_event-have dev h e.type e.code e.value) (
      handle_event-HasTyped dev h e (typed_keys dev' es) (process dev' h' es).0 typed,
      flag ∙ handle_event-flag dev h e (typed_keys dev' es),
    )

module _ {D : Type 0} (io : Mmio D) (dev : Dev) (waiting : D → List ℕ)
    (queue : IsEventQueue io (dev.mmio_base + reg_read) waiting) (fuel : ℕ) (d : D)
    (es : List Event) (rest : List ℕ) (batch : IsBatch es) (end : IsEnd rest)
    (holds : waiting d ≡ words_of es rest) (enough : length es < fuel) where
  -- With fuel for the events that wait in the device, PollKeyboard returns. The device has given the
  -- events and the end mark away. The last key typed is buffered and queued for notification, over
  -- one that was there; without a key the buffered one stays. KeyNotifyProcessEvent is signalled
  -- exactly when a callback is registered and a key was typed or HaveNotify was set before the loop.
  pub poll_keyboard_batch :
      (have_notify : Bool)
      → (new : Dev) × (signal : Bool) × (d' : D) × (poll_keyboard io fuel have_notify dev d
          ≡ some (new, signal, d'))
        × (waiting d' ≡ after_end rest)
        × HasTyped dev new (typed_keys dev es)
        × (signal ≡ (
            (have_notify || not (is_empty (typed_keys dev es))) && not (is_empty dev.notify_list)))
  unfolding poll_keyboard
  poll_keyboard_batch have_notify =
      let (d', runs, w) =
        poll_loop_lem io dev.mmio_base waiting queue fuel dev have_notify d es rest refl batch end
          holds enough in
      let (typed, flag) = process_lem dev have_notify es in
      (
        (process dev have_notify es).0,
        (process dev have_notify es).1 && not (is_empty (process dev have_notify es).0.notify_list),
        d',
        rw (runs, poll_keyboard) refl,
        w,
        typed,
        rw (flag, typed.same_list) refl,
      )

  -- Reset returns, takes the waiting events out of the device, and forgets the modifiers and the
  -- buffered key, so that no key is ready; the registered callbacks stay.
  pub reset_drains :
      (new : Dev) × (d' : D) × (goldfish_events_reset io fuel dev d ≡ some (new, d'))
      × (waiting d' ≡ after_end rest)
      × (read_key_stroke new 1 ≡ (new, err not_ready))
      × (new.key_shift ≡ false)
      × (new.key_ctrl ≡ false)
      × (new.key_alt ≡ false)
      × (new.notify_key_ready ≡ false)
      × (new.notify_list ≡ dev.notify_list)
  unfolding goldfish_events_reset read_key_stroke
  reset_drains =
      let (d', runs, w) =
        drain_loop_lem io dev.mmio_base waiting queue fuel (reset_dev dev) d es rest refl batch end
          holds enough in
      (
        reset_dev dev,
        d',
        rw (runs, goldfish_events_reset) refl,
        w,
        refl,
        refl,
        refl,
        refl,
        refl,
        refl,
      )
