-- ===== src/Battery/Start.antt =====
-- GoldfishBatteryDxeInitialize of GoldfishBatteryDxe.c, and the protocol that it installs.
use edk2_uemu.Common.{
  ℕ, ◌+◌, ◌^◌, ◌<◌, ◌≡◌, ◌⊎◌, refl, true, false, none, some, Bool-cases, Option-cases, inl, inr,
  some-injective, arith,
}
use edk2_uemu.Efi.{success, ok, >>=-eq-ok, Result-cases, is_error}
use edk2_uemu.Text.{codes}
use edk2_uemu.Mmio.{Mmio}
use edk2_uemu.Fdt.{Platform}
use edk2_uemu.Fdt.Align.{AlignsUp}
use edk2_uemu.Discover.{find_reg, DxeServices, Registers, declare_registers}
use edk2_uemu.Discover.Covers.{IsDocumented, Holds, find_reg-fits, declare-Holds}
use edk2_uemu.Battery.Table.{
  battery_record, battery_members, battery_record-reads, added_record, log_battery_lem,
}
use edk2_uemu.Smbios.Reader.{StringsRead}
use edk2_uemu.Battery.{
  Smbios, Started, BootServices, install_battery, read_battery_info, get_battery_info, start,
  goldfish_battery_dxe_initialize,
}

-- An error with the private data freed, no protocol and no record, or a success with the protocol, whose
-- GetBatteryInfo reads the registers at `base` on any later state of the device, and with the battery's
-- record where it could be added.
abbrev pub Serves : {D : Type 0} → Mmio D → Smbios → ℕ → Started → Type 0
Serves {D} io smbios base s =
    ((is_error s.status ≡ true) × (s.dev ≡ none) × (s.installed ≡ false) × (s.logged ≡ none))
    ⊎ ((s.status ≡ success)
        × (s.installed ≡ true)
        × (s.logged ≡ added_record smbios)
        × ((d : D)
            → get_battery_info io s.dev 1 d
              ≡ (ok (read_battery_info io base d).0, (read_battery_info io base d).1)))

install_battery-Serves :
    {D : Type 0} (io : Mmio D) (smbios : Smbios) (boot : BootServices) (base : ℕ) {s : Started}
    → install_battery smbios boot base ≡ ok s
    → Serves io smbios base s
unfolding install_battery get_battery_info
install_battery-Serves io smbios boot base {s} h = elim (Bool-cases boot.has_dev_pool) [
  | inr e ↦ inl (ground (arith, e, h))
  | inl e ↦ elim (Bool-cases (is_error boot.install)) [
    | inl f ↦ inl (ground (arith, e, f, h))
    | inr f ↦
        let (status, logs) = log_battery_lem smbios in
        let same : record {
          status = success;
          dev = some base;
          installed = true;
          logged = added_record smbios;
        }
            ≡ s =
          cc (rw (e, f, logs, install_battery) at h) in
        rw (← same) (inr (refl, refl, refl, λ d. refl))
  ]
]

start-Serves :
    {D : Type 0} (io : Mmio D) (p : Platform) (dxe : DxeServices) (smbios : Smbios)
    (boot : BootServices) (base size : ℕ) (d : D) {r : Registers} {s : Started} {d' : D}
    → AlignsUp p
    → base + size < 2 ^ 64
    → start io p dxe smbios boot d (base, size) ≡ ok (r, s, d')
    → Holds r.gcd_base r.gcd_size r.base (0x40 + 4) × Serves io smbios r.base s
unfolding start
start-Serves io p dxe smbios boot base size d {r} {s} {d'} aligns fits h =
    elim (Result-cases (declare_registers p dxe (0x40 + 4) base size)) [
      | inr (inl (status, e)) ↦ absurd (ground (arith, e, h))
      | inr (inr e) ↦ absurd (ground (arith, e, h))
      | inl (regs, e) ↦
          let held = declare-Holds p dxe (0x40 + 4) base size aligns fits e in
          elim (Result-cases (install_battery smbios boot regs.base)) [
            | inr (inl (status, f)) ↦ absurd (ground (arith, e, f, h))
            | inr (inr f) ↦ absurd (ground (arith, e, f, h))
            | inl (started, f) ↦
                let same_regs : regs ≡ r = ground (arith, e, f, h) in
                let same : started ≡ s = ground (arith, e, f, h) in
                (
                  rw (← same_regs) held.1,
                  rw (← same, ← same_regs) (install_battery-Serves io smbios boot regs.base f),
                )
          ]
    ]

-- Where GoldfishBatteryDxeInitialize gets as far as reading the registers, all of them lie in whole
-- pages below 2^64, and it ends with an error, its private data freed, no protocol and no record, or with
-- success, the protocol, whose GetBatteryInfo yields what ReadBatteryInfo reads from the registers on any
-- later state of the device, and the battery's record where the SMBIOS protocol is there and the pool has
-- room. In that record a reader finds the location, the manufacturer and the name, and no other string.
pub initialize-Serves :
    {D : Type 0} (io : Mmio D) (p : Platform) (dxe : DxeServices) (smbios : Smbios)
    (boot : BootServices) (fuel : ℕ) (d : D) {r : Registers} {s : Started} {d' : D}
    → IsDocumented p
    → goldfish_battery_dxe_initialize io p dxe smbios boot fuel d ≡ some (ok (r, s, d'))
    → Holds r.gcd_base r.gcd_size r.base (0x40 + 4)
      × Serves io smbios r.base s
      × StringsRead battery_record battery_members
unfolding goldfish_battery_dxe_initialize
initialize-Serves io p dxe smbios boot fuel d doc h =
    elim (Option-cases (find_reg p fuel (codes "google,goldfish-battery"))) [
      | inl none_left ↦ absurd (ground (arith, none_left, h))
      | inr (found, f) ↦
          let chain = some-injective (rw (f, goldfish_battery_dxe_initialize) at h) in
          let (range, e, rest) = >>=-eq-ok found _ chain in
          let fits = find_reg-fits p fuel (codes "google,goldfish-battery") doc (rw e at f) in
          let (held, serves) =
            start-Serves io p dxe smbios boot range.0 range.1 d doc.aligns fits.1 rest in
          (held, serves, battery_record-reads)
    ]
