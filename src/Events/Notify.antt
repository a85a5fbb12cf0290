-- ===== src/Events/Notify.antt =====
-- The registered callbacks of GoldfishEventsDxe.c: RegisterKeyNotify, UnregisterKeyNotify and the
-- dispatch of a typed key.
use edk2_uemu.Common.{
  ℕ, ◌≡◌, ◌≢◌, refl, sym, ◌&&◌, ◌||◌, Option, none, some, List, [], ◌∷◌, ◌++◌, ◌==◌, if◌then◌else◌,
  arith, Bool-cases, Option-cases, ◌⊎◌, inl, inr,
}
use edk2_uemu.Efi.{ok, success, invalid_parameter}
use edk2_uemu.Events.Keys.{KeyData, Dev, Notify}
use edk2_uemu.Events.Device.{
  find_registered, register_key_notify, remove_entry, unregister_key_notify, same_key_data,
}

-- No entry has the handle.
abbrev pub IsFresh : ℕ → List Notify → Type 0
IsFresh h [] = Unit
IsFresh h (e ∷ es) = (e.handle ≢ h) × IsFresh h es

-- The handles are pairwise different and none is NULL.
abbrev pub IsDistinct : List Notify → Type 0
IsDistinct [] = Unit
IsDistinct (e ∷ es) = (e.handle ≢ 0) × IsFresh e.handle es × IsDistinct es

IsFresh-append :
    (h : ℕ) (es : List Notify) (e : Notify) → IsFresh h es → e.handle ≢ h → IsFresh h (es ++ e ∷ [])
IsFresh-append h [] e f n = (n, tt)
IsFresh-append h (x ∷ es) e f n = (f.0, IsFresh-append h es e f.1 n)

IsDistinct-append :
    (es : List Notify) (e : Notify)
    → IsDistinct es
    → IsFresh e.handle es
    → e.handle ≢ 0
    → IsDistinct (es ++ e ∷ [])
IsDistinct-append [] e d f n = (n, tt, tt)
IsDistinct-append (x ∷ es) e d f n =
    (d.0, IsFresh-append x.handle es e d.1 (λ p. f.0 (sym p)), IsDistinct-append es e d.2 f.1 n)

remove_entry-last :
    (es : List Notify) (e : Notify)
    → IsFresh e.handle es
    → remove_entry (es ++ e ∷ []) e.handle ≡ some es
unfolding remove_entry
remove_entry-last [] e f = ground arith
remove_entry-last (x ∷ es) e f = ground (arith, f.0, remove_entry-last es e f.1)

remove_entry-IsFresh :
    (es : List Notify) (h k : ℕ) {rest : List Notify}
    → IsFresh k es
    → remove_entry es h ≡ some rest
    → IsFresh k rest
unfolding remove_entry
remove_entry-IsFresh [] h k f r = cc
remove_entry-IsFresh (x ∷ es) h k {rest} f r = elim (Bool-cases (x.handle == h)) [
  | inl here ↦ let e : es ≡ rest = ground (arith, here) in rw (← e) f.1
  | inr later ↦ elim (Option-cases (remove_entry es h)) [
    | inl missing ↦ absurd (ground (arith, later, missing))
    | inr (es', found) ↦
        let e : x ∷ es' ≡ rest = ground (arith, later, found) in
        rw (← e) (f.0, remove_entry-IsFresh es h k f.1 found)
  ]
]

remove_entry-IsDistinct :
    (es : List Notify) (h : ℕ) {rest : List Notify}
    → IsDistinct es
    → remove_entry es h ≡ some rest
    → IsDistinct rest × IsFresh h rest
unfolding remove_entry
remove_entry-IsDistinct [] h d r = cc
remove_entry-IsDistinct (x ∷ es) h {rest} d r = elim (Bool-cases (x.handle == h)) [
  | inl here ↦
      let e : es ≡ rest = ground (arith, here) in
      let same : x.handle ≡ h = ground arith in rw (← e) (d.2, rw same at (d.1))
  | inr later ↦ elim (Option-cases (remove_entry es h)) [
    | inl missing ↦ absurd (ground (arith, later, missing))
    | inr (es', found) ↦
        let e : x ∷ es' ≡ rest = ground (arith, later, found) in
        let (distinct, fresh) = remove_entry-IsDistinct es h d.2 found in
        rw (← e)
          ((d.0, remove_entry-IsFresh es h x.handle d.1 found, distinct), ((ground arith), fresh))
  ]
]

find_registered-append :
    (es : List Notify) (e : Notify) (kd : KeyData) (pad fn : ℕ)
    → find_registered es kd pad fn ≡ none
    → find_registered (es ++ e ∷ []) kd pad fn ≡ (
        if e.key_notification_fn == fn && same_key_data e.key_data e.padding kd pad
        then some e.handle
        else none)
unfolding find_registered
find_registered-append [] e kd pad fn h = ground arith
find_registered-append (x ∷ es) e kd pad fn h =
    ground (arith, find_registered-append es e kd pad fn)

-- The allocator's answer: no memory, or an address that is in no entry and not NULL.
abbrev pub IsAllocation : Option ℕ → List Notify → Type 0
IsAllocation none es = Unit
IsAllocation (some h) es = (h ≢ 0) × IsFresh h es

-- Registering keeps the handles distinct, whatever its result.
register-IsDistinct :
    (dev : Dev) (alloc : Option ℕ) (key_data : Option (KeyData × ℕ)) (fn notify_handle : ℕ)
    → IsDistinct dev.notify_list
    → IsAllocation alloc dev.notify_list
    → IsDistinct (register_key_notify dev alloc key_data fn notify_handle).0.notify_list
unfolding register_key_notify
register-IsDistinct dev alloc none fn out d a = d
register-IsDistinct dev alloc (some (kd, pad)) fn out d a =
    elim (Bool-cases (out == 0 || fn == 0)) [
      | inl bad ↦ rw bad d
      | inr good ↦ elim (Option-cases (find_registered dev.notify_list kd pad fn)) [
        | inr (h, found) ↦ rw (good, found, register_key_notify) d
        | inl new ↦ elim (Option-cases alloc) [
          | inl full ↦ rw (good, new, full, register_key_notify) d
          | inr (h, given) ↦
              let (nonzero, fresh) = rw given at a in
              rw (good, new, given, register_key_notify)
                (IsDistinct-append dev.notify_list _ d fresh nonzero)
        ]
      ]
    ]

-- A second registration of the same key and function yields the handle of the first and changes
-- nothing, even with no memory left.
pub register_again :
    (dev : Dev) (alloc again : Option ℕ) (key_data : KeyData) (padding fn notify_handle h : ℕ)
    → (register_key_notify dev alloc (some (key_data, padding)) fn notify_handle).1 ≡ ok h
    → let dev' = (register_key_notify dev alloc (some (key_data, padding)) fn notify_handle).0 in
      register_key_notify dev' again (some (key_data, padding)) fn notify_handle ≡ (dev', ok h)
unfolding register_key_notify
register_again dev alloc again kd pad fn out h r =
    elim (Option-cases (find_registered dev.notify_list kd pad fn)) [
      | inr (k, found) ↦ ground (arith, found, r)
      | inl new ↦ elim (Option-cases alloc) [
        | inl full ↦ absurd (ground (arith, new, full, r))
        | inr (k, given) ↦
            let entry : Notify = record {
              handle = k;
              key_data = kd;
              padding = pad;
              key_notification_fn = fn;
            } in
            ground
              (arith, new, given, r, find_registered-append dev.notify_list entry kd pad fn new)
      ]
    ]

-- Unregistering the handle that a new registration got gives the list of before back.
pub unregister-register :
    (dev : Dev) (key_data : KeyData) (padding fn notify_handle h : ℕ)
    → IsAllocation (some h) dev.notify_list
    → fn ≢ 0
    → notify_handle ≢ 0
    → find_registered dev.notify_list key_data padding fn ≡ none
    → let dev' = (register_key_notify dev (some h) (some (key_data, padding)) fn notify_handle).0 in
      (unregister_key_notify dev' h).0 ≡ dev × ((unregister_key_notify dev' h).1 ≡ success)
unfolding register_key_notify unregister_key_notify
unregister-register dev kd pad fn out h a nf nout new =
    let entry : Notify = record {
      handle = h;
      key_data = kd;
      padding = pad;
      key_notification_fn = fn;
    } in
    ground (arith, new, nf, nout, a.0, remove_entry-last dev.notify_list entry a.1)

-- Unregistering keeps the handles distinct; where it succeeds, the handle is gone, and where it fails
-- nothing changes.
pub unregister_lem :
    (dev : Dev) (h : ℕ)
    → IsDistinct dev.notify_list
    → let (dev', status) = unregister_key_notify dev h in
      IsDistinct dev'.notify_list
      × ((status ≡ success × IsFresh h dev'.notify_list)
          ⊎ (status ≡ invalid_parameter × (dev' ≡ dev)))
unfolding unregister_key_notify
unregister_lem dev h d = elim (Bool-cases (h == 0)) [
  | inl null ↦ rw null (d, inr (refl, refl))
  | inr real ↦ elim (Option-cases (remove_entry dev.notify_list h)) [
    | inl missing ↦ rw (real, missing, unregister_key_notify) (d, inr (refl, refl))
    | inr (rest, found) ↦
        let (distinct, gone) = remove_entry-IsDistinct dev.notify_list h d found in
        rw (real, found, unregister_key_notify) (distinct, inl (refl, gone))
  ]
]
