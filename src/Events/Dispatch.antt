-- ===== src/Events/Dispatch.antt =====
-- The way of a hotkey through GoldfishEventsDxe.c: registered, typed, polled and dispatched.
use edk2_uemu.Common.{
  ℕ, ◌+◌, ◌<◌, ◌≡◌, ◌↔◌, refl, ◌∙◌, Bool, true, false, ◌&&◌, ◌||◌, Option, some, List, [], ◌∷◌,
  ◌++◌, ◌==◌, length, arith, Bool-cases, Option-cases, ◌⊎◌, inl, inr, map,
}
use edk2_uemu.Efi.{ok}
use edk2_uemu.Mmio.{Mmio}
use edk2_uemu.Events.Keys.{InputKey, KeyData, Dev, Notify, is_key_registered}
use edk2_uemu.Events.Device.{
  find_registered, register_key_notify, matching_callbacks, key_notify_process_handler,
  same_key_data, reg_read, poll_keyboard, is_empty,
}
use edk2_uemu.Events.Poll.{IsEventQueue, Event, words_of, IsBatch, IsEnd}
use edk2_uemu.Events.Batch.{typed_keys, last_or, poll_keyboard_batch}

-- The callback is among the calls, with that key data.
abbrev pub Called : ℕ → KeyData → List (ℕ × KeyData) → Type 0
Called fn kd [] = ⊥
Called fn kd ((f, k) ∷ calls) = ((f ≡ fn) × (k ≡ kd)) ⊎ Called fn kd calls

-- A registration is for a typed key: the codes are the same, and its shift state and its toggle state are
-- 0, for any, or those of the key.
abbrev pub Matches : KeyData → KeyData → Type 0
Matches registered input =
    (registered.key.scan_code ≡ input.key.scan_code)
    × (registered.key.unicode_char ≡ input.key.unicode_char)
    × ((registered.key_state.key_shift_state ≡ 0)
        ⊎ (registered.key_state.key_shift_state ≡ input.key_state.key_shift_state))
    × ((registered.key_state.key_toggle_state ≡ 0)
        ⊎ (registered.key_state.key_toggle_state ≡ input.key_state.key_toggle_state))

is_key_registered_iff :
    (registered input : KeyData)
    → (is_key_registered registered input ≡ true) ↔ Matches registered input
unfolding is_key_registered
is_key_registered_iff registered input = ((λ h. ground (arith, h)), (λ m. ground (arith, m)))

-- Some entry registers the callback for that key data.
abbrev pub Wants : ℕ → KeyData → List Notify → Type 0
Wants fn kd [] = ⊥
Wants fn kd (e ∷ es) = ((e.key_notification_fn ≡ fn) × Matches e.key_data kd) ⊎ Wants fn kd es

calls_iff :
    (fn : ℕ) (kd : KeyData) (es : List Notify)
    → Called fn kd (map (λ f. (f, kd)) (matching_callbacks es kd)) ↔ Wants fn kd es
unfolding matching_callbacks
calls_iff fn kd [] = ((λ h. h), (λ h. h))
calls_iff fn kd (e ∷ es) = elim (Bool-cases (is_key_registered e.key_data kd)) [
  | inl matches ↦ rw matches (
    (λ h. elim h [
      | inl c ↦ inl (c.0, (is_key_registered_iff e.key_data kd).0 matches)
      | inr c ↦ inr ((calls_iff fn kd es).0 c)
    ]),
    (λ h. elim h [ inl c ↦ inl (c.0, refl) | inr c ↦ inr ((calls_iff fn kd es).1 c) ]),
  )
  | inr differs ↦ rw differs (
    (λ h. inr ((calls_iff fn kd es).0 h)),
    (λ h. elim h [
      | inl c ↦ absurd (ground (arith, (is_key_registered_iff e.key_data kd).1 c.1, differs))
      | inr c ↦ (calls_iff fn kd es).1 c
    ]),
  )
]

-- With a key queued, the handler calls a callback with the queued data exactly if an entry registers it
-- for them: the entry has the scan code and the character of the key, and each of its shift state and
-- its toggle state is 0 or that of the key. It takes the key, so that a second run calls nothing.
pub handler_calls_iff :
    (dev : Dev) (fn : ℕ)
    → dev.notify_key_ready ≡ true
    → let (dev', calls) = key_notify_process_handler dev in
      (Called fn dev.notify_key_data calls ↔ Wants fn dev.notify_key_data dev.notify_list)
      × (key_notify_process_handler dev' ≡ (dev', []))
unfolding key_notify_process_handler
handler_calls_iff dev fn ready =
    rw (ready, key_notify_process_handler) (calls_iff fn dev.notify_key_data dev.notify_list, refl)

-- A registration that asks for no modifier state.
abbrev pub plain : InputKey → KeyData
plain k = record { key = k; key_state = record { key_shift_state = 0; key_toggle_state = 0 } }

-- Such a registration is for its key, whatever the modifiers.
plain-Matches : (k : InputKey) (input : KeyData) → input.key ≡ k → Matches (plain k) input
plain-Matches k input same = ground (arith, same)

Wants-append :
    (fn : ℕ) (kd : KeyData) (es : List Notify) (e : Notify)
    → e.key_notification_fn ≡ fn
    → Matches e.key_data kd
    → Wants fn kd (es ++ e ∷ [])
Wants-append fn kd [] e f m = inl (f, m)
Wants-append fn kd (x ∷ es) e f m = inr (Wants-append fn kd es e f m)

Wants-find :
    (fn : ℕ) (k : InputKey) (kd : KeyData) (pad h : ℕ) (es : List Notify)
    → kd.key ≡ k
    → find_registered es (plain k) pad fn ≡ some h
    → Wants fn kd es
unfolding find_registered
Wants-find fn k kd pad h [] same found = cc
Wants-find fn k kd pad h (e ∷ es) same found =
    elim (Bool-cases
      (e.key_notification_fn == fn && same_key_data e.key_data e.padding (plain k) pad)) [
        | inl here ↦
            let data_is : e.key_data ≡ plain k = ground arith in
            inl (ground arith, rw data_is (plain-Matches k kd same))
        | inr later ↦ inr (Wants-find fn k kd pad h es same (ground arith))
      ]

Wants-register :
    (dev : Dev) (alloc : Option ℕ) (k : InputKey) (kd : KeyData) (pad fn out h : ℕ)
    → kd.key ≡ k
    → (register_key_notify dev alloc (some (plain k, pad)) fn out).1 ≡ ok h
    → Wants fn kd (register_key_notify dev alloc (some (plain k, pad)) fn out).0.notify_list
unfolding register_key_notify
Wants-register dev alloc k kd pad fn out h same r = elim (Bool-cases (out == 0 || fn == 0)) [
  | inl bad ↦ absurd (ground (arith, bad, r))
  | inr good ↦ elim (Option-cases (find_registered dev.notify_list (plain k) pad fn)) [
    | inr (j, found) ↦
        rw (good, found, register_key_notify) (Wants-find fn k kd pad j dev.notify_list same found)
    | inl new ↦ elim (Option-cases alloc) [
      | inl full ↦ absurd (ground (arith, good, new, full, r))
      | inr (j, given) ↦
          rw (good, new, given, register_key_notify)
            (Wants-append fn kd dev.notify_list _ refl (plain-Matches k kd same))
    ]
  ]
]

Wants-is_empty : (fn : ℕ) (kd : KeyData) (es : List Notify) → Wants fn kd es → is_empty es ≡ false
Wants-is_empty fn kd [] w = absurd w
Wants-is_empty fn kd (e ∷ es) w = refl

last_or-append {ℓ} : {A : Type ℓ} (xs : List A) (a d : A) → last_or (xs ++ a ∷ []) d ≡ a
last_or-append [] a d = refl
last_or-append (x ∷ xs) a d = last_or-append xs a x

is_empty-append {ℓ} : {A : Type ℓ} (xs : List A) (a : A) → is_empty (xs ++ a ∷ []) ≡ false
is_empty-append [] a = refl
is_empty-append (x ∷ xs) a = refl

module _ {D : Type 0} (io : Mmio D) (dev : Dev) (alloc : Option ℕ) (k : InputKey)
    (pad fn notify_handle h : ℕ)
    (registers : (register_key_notify dev alloc (some (plain k, pad)) fn notify_handle).1
      ≡ ok h) where
  abbrev pub registered : Dev
  registered = (register_key_notify dev alloc (some (plain k, pad)) fn notify_handle).0

  -- A callback registered for a key without modifiers is called for it: when the batch of events that
  -- waits in the device ends with typing that key, the poll signals KeyNotifyProcessEvent, and the
  -- handler of that event calls the callback with the key, whatever the modifiers and HaveNotify.
  pub hotkey_dispatched :
      (waiting : D → List ℕ) (fuel : ℕ) (d : D) (es : List Event) (rest : List ℕ)
      (before : List InputKey) (have_notify : Bool)
      → IsEventQueue io (registered.mmio_base + reg_read) waiting
      → IsBatch es
      → IsEnd rest
      → waiting d ≡ words_of es rest
      → length es < fuel
      → typed_keys registered es ≡ before ++ k ∷ []
      → (new : Dev) × (d' : D) × (poll_keyboard io fuel have_notify registered d
          ≡ some (new, true, d'))
        × (new.notify_key_data.key ≡ k)
        × Called fn new.notify_key_data (key_notify_process_handler new).1
  hotkey_dispatched waiting fuel d es rest before have_notify queue batch end holds enough typed =
      let (new, signal, d', runs, w, t, s) =
        poll_keyboard_batch io registered waiting queue fuel d es rest batch end holds enough
          have_notify in
      let key_is : new.notify_key_data.key ≡ k =
        t.notify_latest ∙ rw typed (last_or-append before k _) in
      let ready : new.notify_key_ready ≡ true =
        t.notify_ready ∙ rw (typed, is_empty-append before k) (ground arith) in
      let wants : Wants fn new.notify_key_data new.notify_list =
        rw t.same_list (
          Wants-register dev alloc k new.notify_key_data pad fn notify_handle h key_is registers) in
      let listed : is_empty registered.notify_list ≡ false =
        Wants-is_empty fn new.notify_key_data registered.notify_list (rw t.same_list at wants) in
      let signals : signal ≡ true =
        s ∙ rw (typed, is_empty-append before k, listed) (ground arith) in
      (new, d', rw signals at runs, key_is, ((handler_calls_iff new fn ready).0.1 wants))
