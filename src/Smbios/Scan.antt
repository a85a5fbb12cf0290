-- ===== src/Smbios/Scan.antt =====
-- The scans of the Hoare partition of QuickSortInt32: they stop at a sentinel within the array.
use edk2_uemu.Common.{
  ℕ, zero, suc, ◌+◌, ◌<◌, ◌≤◌, ◌≡◌, refl, List, inl, inr, length, arith, some, ltb, Bool-cases, ap,
  ◌≢◌, ◌==◌,
}
use edk2_uemu.Smbios.Array.{entry, get_elem?-entry}
use edk2_uemu.Smbios.Sort.{rank, scan_up, scan_down}

-- Where the entry `stop` is not below the pivot, the scan ends there at the latest, and every entry
-- that it passes is not above the pivot.
pub scan_up_lem :
    (a : List ℕ) (pivot fuel i stop : ℕ)
    → i ≤ stop
    → stop < length a
    → stop < i + fuel
    → rank pivot ≤ rank (entry a stop)
    → (up : ℕ) × (scan_up a pivot fuel i ≡ some up)
      × (i ≤ up)
      × (up ≤ stop)
      × (rank pivot ≤ rank (entry a up))
      × ((c : ℕ) → i ≤ c → c < up → rank (entry a c) ≤ rank pivot)
unfolding scan_up
scan_up_lem a pivot zero i stop h n k p = absurd (omega arith)
scan_up_lem a pivot (suc fuel) i stop h n k p =
    let x = get_elem?-entry a i (omega arith) in
    elim (Bool-cases (ltb (rank (entry a i)) (rank pivot))) [
      | inr here ↦ (
        i,
        rw (scan_up, x, here) refl,
        omega arith,
        h,
        ground arith,
        λ c hc kc. absurd (omega arith),
      )
      | inl below ↦
          let less : rank (entry a i) < rank pivot = ground arith in
          let next : i ≢ stop =
            λ e. absurd (omega (arith, less, p, ap (λ (t : ℕ). rank (entry a t)) e)) in
          let (up, e, hu, ku, pu, passed) =
            scan_up_lem a pivot fuel (i + 1) stop (omega arith) n (omega arith) p in
          (
            up,
            rw (scan_up, x, below) e,
            omega arith,
            ku,
            pu,
            λ c hc kc. elim (Bool-cases (i == c)) [
              | inl same ↦
                  let e : i ≡ c = ground arith in
                  omega (arith, less, ap (λ (t : ℕ). rank (entry a t)) e)
              | inr other ↦ passed c (ground arith) kc
            ],
          )
    ]

-- Where the entry `stop` is not above the pivot, the scan ends there at the latest, and every entry
-- that it passes is not below the pivot.
pub scan_down_lem :
    (a : List ℕ) (pivot j stop : ℕ)
    → stop ≤ j
    → j < length a
    → rank (entry a stop) ≤ rank pivot
    → (down : ℕ) × (scan_down a pivot j ≡ some down)
      × (stop ≤ down)
      × (down ≤ j)
      × (rank (entry a down) ≤ rank pivot)
      × ((c : ℕ) → down < c → c ≤ j → rank pivot ≤ rank (entry a c))
unfolding scan_down
scan_down_lem a pivot zero stop h n p =
    let x = get_elem?-entry a 0 n in
    let e : stop ≡ 0 = omega arith in
    let low : rank (entry a 0) ≤ rank pivot = rw e at p in
    elim (Bool-cases (ltb (rank pivot) (rank (entry a 0)))) [
      | inl above ↦ absurd (ground arith)
      | inr here ↦ (
        0,
        rw (scan_down, x, here) refl,
        omega arith,
        omega arith,
        low,
        λ c hc kc. absurd (omega arith),
      )
    ]
scan_down_lem a pivot (suc j) stop h n p =
    let x = get_elem?-entry a (suc j) (omega arith) in
    elim (Bool-cases (ltb (rank pivot) (rank (entry a (suc j))))) [
      | inr here ↦ (
        suc j,
        rw (scan_down, x, here) refl,
        h,
        omega arith,
        ground arith,
        λ c hc kc. absurd (omega arith),
      )
      | inl above ↦
          let more : rank pivot < rank (entry a (suc j)) = ground arith in
          let next : suc j ≢ stop =
            λ e. absurd (omega (arith, more, p, ap (λ (t : ℕ). rank (entry a t)) e)) in
          let (down, e, hd, kd, pd, passed) =
            scan_down_lem a pivot j stop (omega arith) (omega arith) p in
          (
            down,
            rw (scan_down, x, above) e,
            hd,
            omega arith,
            pd,
            λ c hc kc. elim (Bool-cases (suc j == c)) [
              | inl same ↦
                  let e : suc j ≡ c = ground arith in
                  omega (arith, more, ap (λ (t : ℕ). rank (entry a t)) e)
              | inr other ↦ passed c hc (ground arith)
            ],
          )
    ]
