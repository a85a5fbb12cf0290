-- ===== src/Events/Start.antt =====
-- GoldfishEventsDxeInitialize of GoldfishEventsDxe.c keeps everything or nothing.
use edk2_uemu.Common.{
  ℕ, ◌+◌, ◌^◌, ◌<◌, ◌≡◌, ◌⊎◌, refl, true, false, none, some, [], ◌∷◌, Option-cases, inl, inr,
  some-injective, arith,
}
use edk2_uemu.Efi.{success, ok, >>=-eq-ok, Result-cases, is_error}
use edk2_uemu.Text.{codes}
use edk2_uemu.Mmio.{Mmio}
use edk2_uemu.Fdt.{Platform}
use edk2_uemu.Fdt.Align.{AlignsUp}
use edk2_uemu.Discover.{find_reg, DxeServices, Registers, declare_registers}
use edk2_uemu.Discover.Covers.{IsDocumented, Holds, find_reg-fits, declare-Holds}
use edk2_uemu.Events.Keys.{Dev}
use edk2_uemu.Events.Init.{
  private_data, wait_for_key_event, wait_for_key_ex_event, key_notify_process_event, timer_event,
  BootServices, Started, reg_data, new_dev, create_events, activate, start,
  goldfish_events_dxe_initialize,
}

-- The private data with no key held, buffered or registered.
abbrev pub IsIdle : ℕ → Dev → Type 0
IsIdle base dev =
    (dev.mmio_base ≡ base)
    × (dev.key_shift ≡ false)
    × (dev.key_ctrl ≡ false)
    × (dev.key_alt ≡ false)
    × (dev.key_ready ≡ false)
    × (dev.notify_key_ready ≡ false)
    × (dev.notify_list ≡ [])

-- The device once page 0x20003, that of the absolute axes, was selected at the base and its length was
-- read behind it.
abbrev pub made_live : {D : Type 0} → Mmio D → ℕ → D → D
made_live io base d = (io.read32 (base + 4) (io.write32 (base + 0) 0x20003 d)).1

-- An error with nothing left allocated, or a success with all five resources, idle private data and
-- a device that is live.
abbrev pub AllOrNothing : {D : Type 0} → Mmio D → ℕ → D → Started → D → Type 0
AllOrNothing io base d s d' =
    ((is_error s.status ≡ true) × (s.held ≡ []) × (s.dev ≡ none))
    ⊎ ((s.status ≡ success)
        × (s.held
            ≡ timer_event ∷ key_notify_process_event ∷ wait_for_key_ex_event ∷ wait_for_key_event
              ∷ private_data ∷ [])
        × ((dev : Dev) × (s.dev ≡ some dev) × IsIdle base dev)
        × (d' ≡ made_live io base d))

new_dev-IsIdle : (base : ℕ) → IsIdle base (new_dev base)
unfolding new_dev
new_dev-IsIdle base = (refl, refl, refl, refl, refl, refl, refl)

create_events_lem :
    (boot : BootServices) (base : ℕ)
    → let s = create_events boot base in
      ((is_error s.status ≡ true) × (s.held ≡ []) × (s.dev ≡ none))
      ⊎ ((s.status ≡ success)
          × (s.held
              ≡ timer_event ∷ key_notify_process_event ∷ wait_for_key_ex_event ∷ wait_for_key_event
                ∷ private_data ∷ [])
          × (s.dev ≡ some (new_dev base)))
unfolding create_events
create_events_lem boot base = ground arith

create_events-AllOrNothing :
    {D : Type 0} (io : Mmio D) (boot : BootServices) (base : ℕ) (d : D)
    → AllOrNothing io base d (create_events boot base) (activate io base d)
unfolding activate
create_events-AllOrNothing io boot base d = elim (create_events_lem boot base) [
  | inl (failed, freed, gone) ↦ inl (failed, freed, gone)
  | inr (works, held, dev) ↦ inr (works, held, (new_dev base, dev, new_dev-IsIdle base), refl)
]

start-AllOrNothing :
    {D : Type 0} (io : Mmio D) (p : Platform) (dxe : DxeServices) (boot : BootServices)
    (base size : ℕ) (d : D) {r : Registers} {s : Started} {d' : D}
    → AlignsUp p
    → base + size < 2 ^ 64
    → start io p dxe boot d (base, size) ≡ ok (r, s, d')
    → Holds r.gcd_base r.gcd_size r.base (reg_data + 4) × AllOrNothing io r.base d s d'
unfolding start
start-AllOrNothing io p dxe boot base size d {r} {s} {d'} aligns fits h =
    elim (Result-cases (declare_registers p dxe (reg_data + 4) base size)) [
      | inr (inl (status, e)) ↦ absurd (ground (arith, e, h))
      | inr (inr e) ↦ absurd (ground (arith, e, h))
      | inl (regs, e) ↦
          let held = declare-Holds p dxe (reg_data + 4) base size aligns fits e in
          let all = create_events-AllOrNothing io boot regs.base d in
          ground (arith, e, h, held, all)
    ]

-- Where GoldfishEventsDxeInitialize gets as far as the allocation, its registers lie in whole pages
-- below 2^64, and it ends with an error and everything freed and closed, or with success, all of its
-- events and its private data, in which no key is held, ready or registered, once it wrote 0x20003 to
-- the first register and then read the second.
pub initialize-AllOrNothing :
    {D : Type 0} (io : Mmio D) (p : Platform) (dxe : DxeServices) (boot : BootServices) (fuel : ℕ)
    (d : D) {r : Registers} {s : Started} {d' : D}
    → IsDocumented p
    → goldfish_events_dxe_initialize io p dxe boot fuel d ≡ some (ok (r, s, d'))
    → Holds r.gcd_base r.gcd_size r.base (reg_data + 4) × AllOrNothing io r.base d s d'
unfolding goldfish_events_dxe_initialize
initialize-AllOrNothing io p dxe boot fuel d doc h =
    elim (Option-cases (find_reg p fuel (codes "google,goldfish-events-keypad"))) [
      | inl none_left ↦ absurd (ground (arith, none_left, h))
      | inr (found, f) ↦
          let chain = some-injective (rw (f, goldfish_events_dxe_initialize) at h) in
          let (range, e, rest) = >>=-eq-ok found _ chain in
          let fits = find_reg-fits p fuel (codes "google,goldfish-events-keypad") doc (rw e at f) in
          start-AllOrNothing io p dxe boot range.0 range.1 d doc.aligns fits.1 rest
    ]
