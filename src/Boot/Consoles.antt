-- ===== src/Boot/Consoles.antt =====
-- The consoles behind PlatformBootManagerBeforeConsole of PlatformBm.c.
use edk2_uemu.Common.{
  ℕ, ◌≡◌, Bool, true, Option, none, some, List, [], ◌∷◌, inl, inr, Option-cases, refl,
}
use edk2_uemu.DevicePath.{DevicePath}
use edk2_uemu.Events.Init
use edk2_uemu.Boot.Keys.{KeyOptions, platform_register_options_and_keys}
use edk2_uemu.Boot.{
  Services, graphics_output, pci_io, virtio_device, Console, con_in, con_out, err_out,
  SerialSettings, usb_keyboard, goldfish_keyboard, serial_console, filter_and_process, connect,
  add_output,
}
use edk2_uemu.Boot.Outputs.{
  IsDocumented, Among, InOutputs, graphics_handles, connect-keeps, register_options-keeps,
  graphics-add,
}
use edk2_uemu.Boot.Pci.{
  add_console, is_virtio_rng, is_virtio_pci_rng, connect_displays,
  platform_boot_manager_before_console,
}

-- The path of a handle, where it has one, stands in both output consoles; the paths of the handles, as
-- they are in one state, do so in another.
abbrev pub PathShown :
    {S : Type 0} → (S → Console → DevicePath → Bool) → S → Option DevicePath → Type 0
PathShown lists final none = Unit
PathShown lists final (some path) = InOutputs lists final path

abbrev pub PathsShown :
    {S : Type 0} → Services S → (S → Console → DevicePath → Bool) → S → S → List ℕ → Type 0
PathsShown services lists final ready [] = Unit
PathsShown services lists final ready (handle ∷ handles) =
    PathShown lists final (services.device_path ready handle)
    × PathsShown services lists final ready handles

module _ {S : Type 0} (services : Services S) (keys : KeyOptions S)
    (lists : S → Console → DevicePath → Bool) (doc : IsDocumented services keys lists) where
  -- What is kept from the consoles' own paths on to the end of PlatformBootManagerBeforeConsole.
  rest-keeps :
      (s : S) (console : Console) (path : DevicePath)
      → lists s console path ≡ true
      → let registered = platform_register_options_and_keys keys s in
        let mmio =
          filter_and_process services virtio_device
            (some (is_virtio_rng services))
            (connect services)
            registered in
        lists
          (filter_and_process services pci_io
            (some (is_virtio_pci_rng services))
            (connect services)
            mmio)
          console
          path
        ≡ true
  rest-keeps s console path h =
      let registered = platform_register_options_and_keys keys s in
      let mmio =
        filter_and_process services virtio_device (some (is_virtio_rng services)) (connect services)
          registered in
      connect-keeps services keys lists doc pci_io (some (is_virtio_pci_rng services)) mmio console
        path
        (connect-keeps services keys lists doc virtio_device (some (is_virtio_rng services))
          registered console path (register_options-keeps services keys lists doc s console path h))

  shown_all :
      (final ready : S) (handles : List ℕ)
      → ((handle : ℕ)
          → Among handle handles
          → PathShown lists final (services.device_path ready handle))
      → PathsShown services lists final ready handles
  shown_all final ready [] each = tt
  shown_all final ready (handle ∷ handles) each =
      (each handle (inl refl), shown_all final ready handles (λ h m. each h (inr m)))

  -- The state behind the keyboards and the serial console.
  abbrev with_own : SerialSettings → S → S
  with_own serial s =
      let usb = add_console services con_in usb_keyboard s in
      let goldfish = add_console services con_in goldfish_keyboard usb in
      let serial_in = add_console services con_in (serial_console serial) goldfish in
      let serial_out = add_console services con_out (serial_console serial) serial_in in
      add_console services err_out (serial_console serial) serial_out

  own-keep :
      (serial : SerialSettings) (s : S) (console : Console) (path : DevicePath)
      → lists s console path ≡ true
      → lists (with_own serial s) console path ≡ true
  own-keep serial s console path h =
      let usb = add_console services con_in usb_keyboard s in
      let goldfish = add_console services con_in goldfish_keyboard usb in
      let serial_in = add_console services con_in (serial_console serial) goldfish in
      let serial_out = add_console services con_out (serial_console serial) serial_in in
      let k = doc.update_keeps in
      k serial_out err_out (serial_console serial) console path (
        k serial_in con_out (serial_console serial) console path (
          k goldfish con_in (serial_console serial) console path
            (k usb con_in goldfish_keyboard console path (k s con_in usb_keyboard console path h))))

  own-add :
      (serial : SerialSettings) (s : S)
      → let final = with_own serial s in
        (lists final con_in usb_keyboard ≡ true)
        × (lists final con_in goldfish_keyboard ≡ true)
        × (lists final con_in (serial_console serial) ≡ true)
        × InOutputs lists final (serial_console serial)
  own-add serial s =
      let path = serial_console serial in
      let usb = add_console services con_in usb_keyboard s in
      let goldfish = add_console services con_in goldfish_keyboard usb in
      let serial_in = add_console services con_in path goldfish in
      let serial_out = add_console services con_out path serial_in in
      let k = doc.update_keeps in
      let outs = λ (p : DevicePath) (h : lists serial_in con_in p ≡ true).
        k serial_out err_out path con_in p (k serial_in con_out path con_in p h) in
      let ins = λ (p : DevicePath) (h : lists goldfish con_in p ≡ true).
        outs p (k goldfish con_in path con_in p h) in
      (
        ins usb_keyboard
            (k usb con_in goldfish_keyboard con_in usb_keyboard (doc.adds s con_in usb_keyboard)),
        ins goldfish_keyboard (doc.adds usb con_in goldfish_keyboard),
        outs path (doc.adds goldfish con_in path),
        (
          k serial_out err_out path con_out path (doc.adds serial_in con_out path),
          doc.adds serial_out err_out path,
        ),
      )

  graphics-shown :
      (serial : SerialSettings) (s : S)
      → let ready = connect_displays services s in
        PathsShown services lists
          (platform_boot_manager_before_console services serial keys s)
          ready
          (graphics_handles services ready)
  unfolding platform_boot_manager_before_console
  graphics-shown serial s =
      let ready = connect_displays services s in
      let final = platform_boot_manager_before_console services serial keys s in
      let outputs = filter_and_process services graphics_output none (add_output services) ready in
      shown_all final ready (graphics_handles services ready) λ handle m.
        elim (Option-cases (services.device_path ready handle)) [
          | inl e ↦ rw e tt
          | inr (path, e) ↦
              let (shown, errors) = graphics-add services keys lists doc ready handle m e in
              let keep = λ (console : Console) (h : lists outputs console path ≡ true).
                rest-keeps (with_own serial outputs) console path
                  (own-keep serial outputs console path h) in
              rw e (keep con_out shown, keep err_out errors)
        ]

  -- Behind PlatformBootManagerBeforeConsole, where UefiBootManagerLib and the boot services are as
  -- documented, ConIn lists the keyboard that GoldfishEventsDxe installs, the USB keyboard and the serial
  -- console; ConOut and ErrOut list the serial console, and the path of every handle that has one and
  -- carries a graphics output protocol once the display devices are connected.
  pub consoles_listed :
      (serial : SerialSettings) (s : S)
      → let ready = connect_displays services s in
        let final = platform_boot_manager_before_console services serial keys s in
        (lists final con_in Init.device_path ≡ true)
        × (lists final con_in usb_keyboard ≡ true)
        × (lists final con_in (serial_console serial) ≡ true)
        × InOutputs lists final (serial_console serial)
        × PathsShown services lists final ready (graphics_handles services ready)
  unfolding platform_boot_manager_before_console
  consoles_listed serial s =
      let ready = connect_displays services s in
      let outputs = filter_and_process services graphics_output none (add_output services) ready in
      let own = with_own serial outputs in
      let (usb, goldfish, serial_in, (serial_out, serial_err)) = own-add serial outputs in
      let path = serial_console serial in
      (
        rest-keeps own con_in goldfish_keyboard goldfish,
        rest-keeps own con_in usb_keyboard usb,
        rest-keeps own con_in path serial_in,
        (rest-keeps own con_out path serial_out, rest-keeps own err_out path serial_err),
        graphics-shown serial s,
      )
