-- ===== src/Events/Unique.antt =====
-- The registrations of GoldfishEventsDxe.c: none is listed twice, whatever is registered and unregistered.
use edk2_uemu.Common.{ℕ, ◌≡◌, Option, List, [], ◌∷◌, ◌⊎◌}
use edk2_uemu.Efi.{}
use edk2_uemu.Events.Keys.{KeyData, Dev, Notify}
use edk2_uemu.Events.Device.{register_key_notify, unregister_key_notify}

-- Some entry of the list has this function, this key data and this padding.
abbrev pub IsRegistered : List Notify → KeyData → ℕ → ℕ → Type 0
IsRegistered [] kd pad fn = ⊥
IsRegistered (e ∷ es) kd pad fn =
    ((e.key_notification_fn ≡ fn) × (e.key_data ≡ kd) × (e.padding ≡ pad))
    ⊎ IsRegistered es kd pad fn

-- No two entries have the same function and the same key data.
abbrev pub IsUnique : List Notify → Type 0
IsUnique [] = Unit
IsUnique (e ∷ es) = (¬ IsRegistered es e.key_data e.padding e.key_notification_fn) × IsUnique es

-- A call of RegisterKeyNotify, with what AllocateZeroPool answers in it, or of UnregisterKeyNotify.
pub data Call : Type 0 where
  register : Option ℕ → Option (KeyData × ℕ) → ℕ → ℕ → Call
  unregister : ℕ → Call

-- The private data behind the calls, one after the other.
abbrev pub run_calls : List Call → Dev → Dev
run_calls [] dev = dev
run_calls (register alloc key_data fn notify_handle ∷ calls) dev =
    run_calls calls (register_key_notify dev alloc key_data fn notify_handle).0
run_calls (unregister handle ∷ calls) dev = run_calls calls (unregister_key_notify dev handle).0
