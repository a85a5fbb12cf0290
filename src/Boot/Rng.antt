-- ===== src/Boot/Rng.antt =====
-- IsVirtioPciRng of PlatformBm.c.
use edk2_uemu.Common.{
  ℕ, ◌≤◌, ◌≡◌, ◌↔◌, refl, Bool, true, false, some, ◌⊎◌, inl, inr, ◌==◌, Bool-cases, Option-cases,
  arith,
}
use edk2_uemu.Efi.{ok, ◌>>=◌, >>=-eq-ok, Result-cases}
use edk2_uemu.Boot.{Services}
use edk2_uemu.Boot.Pci.{
  virtio_vendor_id, vendor_id_offset, device_id_offset, revision_id_offset, subsystem_id_offset,
  virtio10, is_entropy_source, check_virtio_pci_rng, is_virtio_pci_rng,
}

-- The identification of an entropy source: a modern one, or a transitional one.
abbrev pub IsEntropySource : ℕ → ℕ → ℕ → Type 0
IsEntropySource device revision subsystem =
    ((device ≡ 0x1044) × (1 ≤ revision) × (0x40 ≤ subsystem))
    ⊎ ((0x1000 ≤ device) × (device ≤ 0x103f) × (revision ≡ 0) × (subsystem ≡ 4))

source_of :
    (device revision subsystem : ℕ) (modern : Bool)
    → virtio10 device revision ≡ some modern
    → is_entropy_source modern subsystem ≡ true
    → IsEntropySource device revision subsystem
unfolding virtio10 is_entropy_source
source_of device revision subsystem true e f =
    inl (ground (arith, e), ground (arith, e), ground (arith, f))
source_of device revision subsystem false e f =
    inr (ground (arith, e), ground (arith, e), ground (arith, e), ground (arith, f))

of_source :
    (device revision subsystem : ℕ)
    → IsEntropySource device revision subsystem
    → (modern : Bool) × (virtio10 device revision ≡ some modern)
      × (is_entropy_source modern subsystem ≡ true)
unfolding virtio10 is_entropy_source
of_source device revision subsystem (inl (d, r, s)) = (true, ground arith, ground arith)
of_source device revision subsystem (inr (d, k, r, s)) = (false, ground arith, ground arith)

module _ {S : Type 0} (services : Services S) where
  -- The configuration space of an entropy source, read without an error.
  abbrev pub ReadsEntropySource : S → ℕ → Type 0
  ReadsEntropySource s handle =
      (device : ℕ) × (revision : ℕ) × (subsystem : ℕ) × (services.pci_read s handle vendor_id_offset
        ≡ ok virtio_vendor_id)
      × (services.pci_read s handle device_id_offset ≡ ok device)
      × (services.pci_read s handle revision_id_offset ≡ ok revision)
      × (services.pci_read s handle subsystem_id_offset ≡ ok subsystem)
      × IsEntropySource device revision subsystem

  check_sound :
      (s : S) (handle : ℕ)
      → check_virtio_pci_rng services s handle ≡ ok true
      → ReadsEntropySource s handle
  unfolding check_virtio_pci_rng
  check_sound s handle h =
      let (vendor, ev, h1) = >>=-eq-ok (services.pci_read s handle vendor_id_offset) _ h in
      elim (Bool-cases (vendor == virtio_vendor_id)) [
        | inr other ↦ absurd (ground (arith, other, h1))
        | inl here ↦
            let same : vendor ≡ virtio_vendor_id = ground arith in
            let h2 = rw here at h1 in
            let (device, ed, h3) = >>=-eq-ok (services.pci_read s handle device_id_offset) _ h2 in
            let (revision, er, h4) =
              >>=-eq-ok (services.pci_read s handle revision_id_offset) _ h3 in
            elim (Option-cases (virtio10 device revision)) [
              | inl never ↦ absurd (ground (arith, never, h4))
              | inr (modern, e) ↦
                  let h5 = rw e at h4 in
                  let (subsystem, es, h6) =
                    >>=-eq-ok (services.pci_read s handle subsystem_id_offset) _ h5 in
                  let f : is_entropy_source modern subsystem ≡ true = cc in
                  (
                    device,
                    revision,
                    subsystem,
                    rw same at ev,
                    ed,
                    er,
                    es,
                    source_of device revision subsystem modern e f,
                  )
            ]
      ]

  check_complete :
      (s : S) (handle : ℕ)
      → ReadsEntropySource s handle
      → check_virtio_pci_rng services s handle ≡ ok true
  unfolding check_virtio_pci_rng
  check_complete s handle (device, revision, subsystem, ev, ed, er, es, source) =
      let (modern, e, f) = of_source device revision subsystem source in
      rw (check_virtio_pci_rng, ev, ed, er, ◌>>=◌, e, es, ◌>>=◌, f) refl

  -- IsVirtioPciRng answers TRUE exactly for a handle with PciIo whose configuration space can be read and
  -- identifies a virtio entropy source: device 0x1044, a revision of at least 1 and a subsystem of at
  -- least 0x40, or a device from 0x1000 to 0x103F, revision 0 and subsystem 4.
  pub is_virtio_pci_rng_iff :
      (s : S) (handle : ℕ)
      → (is_virtio_pci_rng services s handle ≡ true)
        ↔ ((services.has_pci_io s handle ≡ true) × ReadsEntropySource s handle)
  unfolding is_virtio_pci_rng
  is_virtio_pci_rng_iff s handle = (
    λ h. elim (Bool-cases (services.has_pci_io s handle)) [
      | inr missing ↦ absurd (ground (arith, missing, h))
      | inl there ↦ elim (Result-cases (check_virtio_pci_rng services s handle)) [
        | inl (answer, e) ↦
            let yes : answer ≡ true = rw (there, e, is_virtio_pci_rng) at h in
            (there, check_sound s handle (rw yes at e))
        | inr (inl (status, e)) ↦ absurd (ground (arith, there, e, h))
        | inr (inr e) ↦ absurd (ground (arith, there, e, h))
      ]
    ],
    λ (there, reads). rw (is_virtio_pci_rng, there, check_complete s handle reads) refl,
  )
