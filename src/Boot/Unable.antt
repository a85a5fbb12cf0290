-- ===== src/Boot/Unable.antt =====
-- PlatformBootManagerUnableToBoot of PlatformBm.c. The console and UefiBootManagerLib are arguments. The loop
-- that drains the keys runs on fuel; the last loop has no end, and its rounds are counted.
use edk2_uemu.Common.{
  ℕ, zero, suc, ◌+◌, ◌-◌, ◌<◌, ◌⊎◌, ◌∙◌, ◌≡◌, refl, Bool, true, false, Option, none, some,
  if◌then◌else◌, Bool-cases, inl, inr, arith,
}
use edk2_uemu.Efi.{Status, is_error}

-- The call returned, or its last loop has come this far.
pub data Outcome (S : Type 0) : Type 0 where
  returned : S → Outcome S
  booting : S → Outcome S

-- EfiBootManagerGetBootManagerMenu, whether there is a ConIn, AsciiPrint, WaitForEvent on its WaitForKey,
-- its ReadKeyStroke, and EfiBootManagerBoot of the menu.
pub record LastResort (S : Type 0) : Type 0 where
  pub get_boot_manager_menu : S → Status × S
  pub has_con_in : Bool
  pub ascii_print : S → S
  pub wait_for_event : S → S
  pub read_key_stroke : S → Status × S
  pub boot : S → S

module _ {S : Type 0} (services : LastResort S) where
  -- The loop that drains the queued keys.
  unfoldable pub drain_keys : ℕ → S → Option S
  drain_keys zero s = none
  drain_keys (suc fuel) s =
      let read = services.read_key_stroke s in
      let rest = drain_keys fuel read.1 in if is_error read.0 then some read.1 else rest

  -- So many rounds of the last loop.
  unfoldable pub boot_rounds : ℕ → S → S
  boot_rounds zero s = s
  boot_rounds (suc rounds) s = boot_rounds rounds (services.boot s)

  -- The part behind the menu, up to the last loop.
  unfoldable pub wait_and_drain : ℕ → S → Option S
  wait_and_drain fuel s =
      if services.has_con_in
      then drain_keys fuel (services.wait_for_event (services.ascii_print s))
      else some s

  -- PlatformBootManagerUnableToBoot, as far as so many rounds of its last loop.
  unfoldable pub platform_boot_manager_unable_to_boot : ℕ → ℕ → S → Option (Outcome S)
  platform_boot_manager_unable_to_boot fuel rounds s =
      let menu = services.get_boot_manager_menu s in
      if is_error menu.0 then some (returned menu.1) else elim (wait_and_drain fuel menu.1) [
        | none ↦ none
        | some ready ↦ some (booting (boot_rounds rounds ready))
      ]

  -- ReadKeyStroke takes a waiting key, and fails where none waits; EfiBootManagerBoot is counted, and
  -- nothing else counts as one.
  pub record Counts (waiting boots : S → ℕ) : Type 0 where
    pub empty : (s : S) → waiting s ≡ 0 → is_error (services.read_key_stroke s).0 ≡ true
    pub taken : (s : S) → 0 < waiting s → is_error (services.read_key_stroke s).0 ≡ false
    pub fewer : (s : S) → waiting (services.read_key_stroke s).1 ≡ waiting s - 1
    pub boot_counts : (s : S) → boots (services.boot s) ≡ boots s + 1
    pub read_counts : (s : S) → boots (services.read_key_stroke s).1 ≡ boots s
    pub menu_counts : (s : S) → boots (services.get_boot_manager_menu s).1 ≡ boots s
    pub print_counts : (s : S) → boots (services.ascii_print s) ≡ boots s
    pub wait_counts : (s : S) → boots (services.wait_for_event s) ≡ boots s

  module _ (waiting boots : S → ℕ) (counts : Counts waiting boots) where
    drain_keys_lem :
        (fuel : ℕ) (s : S)
        → waiting s < fuel
        → (drained : S) × (drain_keys fuel s ≡ some drained)
          × (waiting drained ≡ 0)
          × (boots drained ≡ boots s)
    unfolding drain_keys
    drain_keys_lem zero s h = elim h [ ]
    drain_keys_lem (suc fuel) s h =
        let next = (services.read_key_stroke s).1 in
        elim (Bool-cases (is_error (services.read_key_stroke s).0)) [
          | inl failed ↦
              rw failed
                (next, refl, ground (arith, counts.taken s, counts.fewer s), counts.read_counts s)
          | inr read ↦
              let less : waiting next < fuel = ground (arith, counts.empty s, counts.fewer s) in
              let (drained, ends, none_left, same) = drain_keys_lem fuel next less in
              rw read (drained, ends, none_left, same ∙ counts.read_counts s)
        ]

    boot_rounds_count : (rounds : ℕ) (s : S) → boots (boot_rounds rounds s) ≡ boots s + rounds
    unfolding boot_rounds
    boot_rounds_count zero s = omega arith
    boot_rounds_count (suc rounds) s =
        omega (arith, boot_rounds_count rounds (services.boot s), counts.boot_counts s)

    wait_and_drain_lem :
        (fuel : ℕ) (s : S)
        → waiting (services.wait_for_event (services.ascii_print s)) < fuel
        → (ready : S) × (wait_and_drain fuel s ≡ some ready)
          × ((services.has_con_in ≡ false) ⊎ (waiting ready ≡ 0))
          × (boots ready ≡ boots s)
    unfolding wait_and_drain drain_keys
    wait_and_drain_lem fuel s h = elim (Bool-cases services.has_con_in) [
      | inr blind ↦ rw (blind, wait_and_drain) (s, refl, inl refl, refl)
      | inl sees ↦
          let printed = services.ascii_print s in
          let waited = services.wait_for_event printed in
          let (drained, ends, none_left, same) = drain_keys_lem fuel waited h in
          rw (sees, wait_and_drain)
            (
              drained,
              ends,
              inr none_left,
              same ∙ counts.wait_counts printed ∙ counts.print_counts s,
            )
    ]

    -- With fuel for the keys that wait once a key was pressed, PlatformBootManagerUnableToBoot returns
    -- exactly where there is no boot manager menu, without having booted anything. Elsewhere it never
    -- returns: where there is a ConIn every waiting key is taken away first, and for every number of
    -- rounds it comes to have called EfiBootManagerBoot that often.
    pub unable_to_boot_lem :
        (fuel rounds : ℕ) (s : S)
        → waiting
            (services.wait_for_event (services.ascii_print (services.get_boot_manager_menu s).1))
          < fuel
        → let menu = services.get_boot_manager_menu s in
          let outcome = platform_boot_manager_unable_to_boot fuel rounds s in
          ((is_error menu.0 ≡ true) × (outcome ≡ some (returned menu.1)) × (boots menu.1 ≡ boots s))
          ⊎ ((is_error menu.0 ≡ false)
              × ((ready : S) × (outcome ≡ some (booting (boot_rounds rounds ready)))
                  × ((services.has_con_in ≡ false) ⊎ (waiting ready ≡ 0))
                  × (boots (boot_rounds rounds ready) ≡ boots s + rounds)))
    unfolding platform_boot_manager_unable_to_boot
    unable_to_boot_lem fuel rounds s h =
        let menu = services.get_boot_manager_menu s in
        elim (Bool-cases (is_error menu.0)) [
          | inl failed ↦
              rw (failed, platform_boot_manager_unable_to_boot)
                (inl (refl, refl, counts.menu_counts s))
          | inr found ↦
              let (ready, ends, drained, same) = wait_and_drain_lem fuel menu.1 h in
              rw (found, ends, platform_boot_manager_unable_to_boot)
                (inr (
                  refl,
                  (
                    ready,
                    refl,
                    drained,
                    omega (arith, boot_rounds_count rounds ready, same, counts.menu_counts s),
                  ),
                ))
        ]
