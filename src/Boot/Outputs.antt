-- ===== src/Boot/Outputs.antt =====
-- What the callbacks of PlatformBm.c, Connect and AddOutput, do to the consoles.
use edk2_uemu.Common.{
  ℕ, ◌≡◌, ◌⊎◌, Bool, true, false, Option, none, some, List, [], ◌∷◌, inl, inr, Bool-cases,
  Option-cases, refl, ◌∙◌, subst, u16,
}
use edk2_uemu.Efi.{ok, err, fault, is_error, Result-cases}
use edk2_uemu.DevicePath.{DevicePath}
use edk2_uemu.Events.Keys.{InputKey}
use edk2_uemu.Boot.Keys.{KeyOptions, enter, f2, esc, platform_register_options_and_keys}
use edk2_uemu.Boot.{
  Services, ProtocolGuid, graphics_output, Console, con_out, err_out, process_loop,
  filter_and_process, connect, add_output,
}

-- `lists` tells whether a console variable holds a path. EfiBootManagerUpdateConsoleVariable succeeds, adds
-- the path and removes none, nor do the other calls; and the path of a handle stays while consoles are
-- added.
pub record IsDocumented {S : Type 0} (services : Services S) (keys : KeyOptions S)
    (lists : S → Console → DevicePath → Bool) : Type 0 where
  pub accepts :
      (s : S) (console : Console) (path : DevicePath)
      → is_error (services.update_console_variable s console path).0 ≡ false
  pub adds :
      (s : S) (console : Console) (path : DevicePath)
      → lists (services.update_console_variable s console path).1 console path ≡ true
  pub update_keeps :
      (s : S) (other : Console) (added : DevicePath) (console : Console) (path : DevicePath)
      → lists s console path ≡ true
      → lists (services.update_console_variable s other added).1 console path ≡ true
  pub connect_keeps :
      (s : S) (handle : ℕ) (console : Console) (path : DevicePath)
      → lists s console path ≡ true
      → lists (services.connect_controller s handle) console path ≡ true
  pub continue_keeps :
      (s : S) (key : InputKey) (console : Console) (path : DevicePath)
      → lists s console path ≡ true
      → lists (keys.register_continue_key_option s key) console path ≡ true
  pub menu_keeps :
      (s : S) (console : Console) (path : DevicePath)
      → lists s console path ≡ true
      → lists (keys.get_boot_manager_menu s).1 console path ≡ true
  pub key_keeps :
      (s : S) (number : ℕ) (key : InputKey) (console : Console) (path : DevicePath)
      → lists s console path ≡ true
      → lists (keys.add_key_option_variable s number key) console path ≡ true
  pub path_stays :
      (s : S) (console : Console) (path : DevicePath) (handle : ℕ)
      → services.device_path (services.update_console_variable s console path).1 handle
        ≡ services.device_path s handle

-- The handle is in the list.
abbrev pub Among : ℕ → List ℕ → Type 0
Among handle [] = ⊥
Among handle (h ∷ handles) = (h ≡ handle) ⊎ Among handle handles

-- Both output consoles list the path.
abbrev pub InOutputs : {S : Type 0} → (S → Console → DevicePath → Bool) → S → DevicePath → Type 0
InOutputs lists s path = (lists s con_out path ≡ true) × (lists s err_out path ≡ true)

-- The handles with a graphics output protocol.
abbrev pub graphics_handles : {S : Type 0} → Services S → S → List ℕ
graphics_handles services s = elim (services.locate_handles s graphics_output) [
  | ok handles ↦ handles
  | err status ↦ []
  | fault ↦ []
]

module _ {S : Type 0} (services : Services S) (keys : KeyOptions S)
    (lists : S → Console → DevicePath → Bool) (doc : IsDocumented services keys lists) where
  pub register_options-keeps :
      (s : S) (console : Console) (path : DevicePath)
      → lists s console path ≡ true
      → lists (platform_register_options_and_keys keys s) console path ≡ true
  unfolding platform_register_options_and_keys
  register_options-keeps s console path h =
      let continued = keys.register_continue_key_option s enter in
      let (number, found) = keys.get_boot_manager_menu continued in
      let with_f2 = keys.add_key_option_variable found (u16 number) f2 in
      doc.key_keeps with_f2 (u16 number) esc console path (
        doc.key_keeps found (u16 number) f2 console path
          (doc.menu_keeps continued console path (doc.continue_keeps s enter console path h)))

  process_loop-keeps :
      (filter : Option (S → ℕ → Bool)) (handles : List ℕ) (s : S) (console : Console)
      (path : DevicePath)
      → lists s console path ≡ true
      → lists (process_loop services filter (connect services) handles s) console path ≡ true
  unfolding process_loop connect
  process_loop-keeps none [] s console path h = h
  process_loop-keeps (some filter) [] s console path h = h
  process_loop-keeps none (handle ∷ handles) s console path h =
      process_loop-keeps none handles (services.connect_controller s handle) console path
        (doc.connect_keeps s handle console path h)
  process_loop-keeps (some filter) (handle ∷ handles) s console path h =
      elim (Bool-cases (filter s handle)) [
        | inl e ↦ rw e (
            process_loop-keeps (some filter) handles (services.connect_controller s handle) console
              path (doc.connect_keeps s handle console path h))
        | inr e ↦ rw e (process_loop-keeps (some filter) handles s console path h)
      ]

  pub connect-keeps :
      (guid : ProtocolGuid) (filter : Option (S → ℕ → Bool)) (s : S) (console : Console)
      (path : DevicePath)
      → lists s console path ≡ true
      → lists (filter_and_process services guid filter (connect services) s) console path ≡ true
  unfolding filter_and_process
  connect-keeps guid filter s console path h =
      elim (Result-cases (services.locate_handles s guid)) [
        | inl (handles, e) ↦
            rw (e, filter_and_process) (process_loop-keeps filter handles s console path h)
        | inr (inl (status, e)) ↦ rw (e, filter_and_process) h
        | inr (inr e) ↦ rw (e, filter_and_process) h
      ]

  -- What AddOutput does with the path of a handle.
  abbrev added_to_outputs : S → Option DevicePath → S
  added_to_outputs s none = s
  added_to_outputs s (some path) =
      (services.update_console_variable (services.update_console_variable s con_out path).1 err_out
        path).1

  add_output_lem :
      (s : S) (handle : ℕ)
      → add_output services s handle ≡ added_to_outputs s (services.device_path s handle)
  unfolding add_output
  add_output_lem s handle = elim (Option-cases (services.device_path s handle)) [
    | inl e ↦ rw (e, add_output) refl
    | inr (path, e) ↦ rw (e, add_output, doc.accepts s con_out path) refl
  ]

  outputs-keep :
      (s : S) (added : Option DevicePath) (console : Console) (path : DevicePath)
      → lists s console path ≡ true
      → lists (added_to_outputs s added) console path ≡ true
  outputs-keep s none console path h = h
  outputs-keep s (some added) console path h =
      doc.update_keeps (services.update_console_variable s con_out added).1 err_out added console
        path (doc.update_keeps s con_out added console path h)

  outputs-path :
      (s : S) (added : Option DevicePath) (handle : ℕ)
      → services.device_path (added_to_outputs s added) handle ≡ services.device_path s handle
  outputs-path s none handle = refl
  outputs-path s (some path) handle =
      doc.path_stays (services.update_console_variable s con_out path).1 err_out path handle
      ∙ doc.path_stays s con_out path handle

  outputs-add : (s : S) (path : DevicePath) → InOutputs lists (added_to_outputs s (some path)) path
  outputs-add s path = (
    doc.update_keeps (services.update_console_variable s con_out path).1 err_out path con_out path
        (doc.adds s con_out path),
    doc.adds (services.update_console_variable s con_out path).1 err_out path,
  )

  loop-keeps :
      (handles : List ℕ) (s : S) (console : Console) (path : DevicePath)
      → lists s console path ≡ true
      → lists (process_loop services none (add_output services) handles s) console path ≡ true
  unfolding process_loop
  loop-keeps [] s console path h = h
  loop-keeps (handle ∷ handles) s console path h = rw (add_output_lem s handle) (
      loop-keeps handles (added_to_outputs s (services.device_path s handle)) console path
        (outputs-keep s (services.device_path s handle) console path h))

  loop-adds :
      (handles : List ℕ) (s : S) (handle : ℕ) (path : DevicePath)
      → Among handle handles
      → services.device_path s handle ≡ some path
      → InOutputs lists (process_loop services none (add_output services) handles s) path
  unfolding process_loop
  loop-adds [] s handle path m h = elim m [ ]
  loop-adds (first ∷ handles) s handle path (inl same) h =
      let own : services.device_path s first ≡ some path = rw same h in
      let (shown, errors) = outputs-add s path in
      let next = added_to_outputs s (some path) in
      rw (add_output_lem s first, own)
        (loop-keeps handles next con_out path shown, loop-keeps handles next err_out path errors)
  loop-adds (first ∷ handles) s handle path (inr m) h =
      let added = services.device_path s first in
      rw (add_output_lem s first) (
        loop-adds handles (added_to_outputs s added) handle path m
          (outputs-path s added handle ∙ h))

  pub graphics-add :
      (s : S) (handle : ℕ) {path : DevicePath}
      → Among handle (graphics_handles services s)
      → services.device_path s handle ≡ some path
      → InOutputs lists
          (filter_and_process services graphics_output none (add_output services) s)
          path
  unfolding filter_and_process
  graphics-add s handle {path} m h =
      let moved = λ (handles : List ℕ) (e : graphics_handles services s ≡ handles).
        subst (Among handle) e m in
      elim (Result-cases (services.locate_handles s graphics_output)) [
        | inl (handles, e) ↦
            rw (e, filter_and_process)
              (loop-adds handles s handle path (moved handles (rw (e, graphics_handles) refl)) h)
        | inr (inl (status, e)) ↦ absurd (moved [] (rw (e, graphics_handles) refl))
        | inr (inr e) ↦ absurd (moved [] (rw (e, graphics_handles) refl))
      ]
