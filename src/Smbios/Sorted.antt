-- ===== src/Smbios/Sorted.antt =====
-- QuickSortInt32 sorts: it ends, stays within the array, and loses nothing.
use edk2_uemu.Common.{
  ℕ, zero, suc, ◌+◌, ◌-◌, ◌<◌, ◌≤◌, ◌≡◌, refl, List, ◌⊎◌, inl, inr, length, arith, some, ltb, leb,
  ◌==◌, Bool-cases,
}
use edk2_uemu.Smbios.Array.{entry, count}
use edk2_uemu.Smbios.Sort.{rank, quick_sort_int32}
use edk2_uemu.Smbios.Keeps.{Keeps, Keeps-refl, Keeps-trans, Keeps-wide}
use edk2_uemu.Smbios.Partition.{AtMost, AtLeast, IsParted, split-IsParted}

-- The entries of left..right stand in the order of INT32.
abbrev pub IsSorted : List ℕ → ℕ → ℕ → Type 0
IsSorted a left right = (c : ℕ) → left ≤ c → c < right → rank (entry a c) ≤ rank (entry a (suc c))

AtMost-Keeps :
    (pivot : ℕ) {a b : List ℕ} {left right : ℕ}
    → Keeps a b left right
    → AtMost a pivot left right
    → AtMost b pivot left right
AtMost-Keeps pivot keeps most c h k =
    let (d, hd, kd, e) = keeps.from_inside c h k in rw e (most d hd kd)

AtLeast-Keeps :
    (pivot : ℕ) {a b : List ℕ} {left right : ℕ}
    → Keeps a b left right
    → AtLeast a pivot left right
    → AtLeast b pivot left right
AtLeast-Keeps pivot keeps least c h k =
    let (d, hd, kd, e) = keeps.from_inside c h k in rw e (least d hd kd)

-- Sorting the part up to j and then the part behind it sorts the whole.
join-IsSorted :
    (pivot : ℕ) {parted lower all : List ℕ} {left right j : ℕ}
    → left ≤ j
    → j < right
    → AtMost parted pivot left j
    → AtLeast parted pivot (suc j) right
    → Keeps parted lower left j
    → IsSorted lower left j
    → Keeps lower all (j + 1) right
    → IsSorted all (j + 1) right
    → IsSorted all left right
join-IsSorted pivot {parted} {lower} {all} {left} {right} {j} hl hr most least kl sl ka sa c h k =
    elim (Bool-cases (ltb c j)) [
      | inl below ↦
          let hc : c < j = ground arith in
          rw (ka.same_outside c (inl (omega arith)), ka.same_outside (suc c) (inl (omega arith)))
            (sl c h hc)
      | inr not_below ↦ elim (Bool-cases (c == j)) [
        | inr above ↦ sa c (ground arith) k
        | inl here ↦
            let e : c ≡ j = ground arith in
            let first : rank (entry all c) ≤ rank pivot =
              rw (ka.same_outside c (inl (omega arith)))
                (AtMost-Keeps pivot kl most c h (omega arith)) in
            let back : AtLeast lower pivot (j + 1) right =
              λ d hd kd. rw (kl.same_outside d (inr (omega arith))) (least d (omega arith) kd) in
            let second = AtLeast-Keeps pivot ka back (suc c) (omega arith) (omega arith) in
            omega (arith, first, second)
      ]
    ]

parts_lem :
    {a parted lower all : List ℕ} (pivot left right j : ℕ)
    → IsParted a parted pivot left right j
    → Keeps parted lower left j
    → IsSorted lower left j
    → Keeps lower all (j + 1) right
    → IsSorted all (j + 1) right
    → Keeps a all left right × IsSorted all left right
parts_lem pivot left right j is kl sl ka sa =
    let jl = is.left_le_j in
    let jr = is.j_lt_right in
    (
      Keeps-trans is.keeps (
          Keeps-trans (Keeps-wide kl (omega arith) (omega arith))
            (Keeps-wide ka (omega arith) (omega arith))),
      join-IsSorted pivot jl jr is.lower is.upper kl sl ka sa,
    )

sort_lem :
    (fuel : ℕ) (a : List ℕ) (left right : ℕ)
    → right - left < fuel
    → right < length a
    → (b : List ℕ) × (quick_sort_int32 fuel a left right ≡ some b)
      × Keeps a b left right
      × IsSorted b left right
unfolding quick_sort_int32
sort_lem zero a left right enough inside = absurd (omega arith)
sort_lem (suc fuel) a left right enough inside = elim (Bool-cases (leb right left)) [
  | inl trivial ↦ (
    a,
    rw (quick_sort_int32, trivial) refl,
    Keeps-refl a left right,
    λ c h k. absurd (ground arith),
  )
  | inr more ↦
      let less : left < right = ground arith in
      let (parted, j, pivot, e, is) = split-IsParted a left right less inside in
      let np = is.keeps.same_length in
      let jl = is.left_le_j in
      let jr = is.j_lt_right in
      let (lower, el, kl, sl) = sort_lem fuel parted left j (omega arith) (omega arith) in
      let nl = kl.same_length in
      let (all, ea, ka, sa) = sort_lem fuel lower (j + 1) right (omega arith) (omega arith) in
      let (keeps, sorted) = parts_lem pivot left right j is kl sl ka sa in
      (all, rw (quick_sort_int32, more, e, el) ea, keeps, sorted)
]

-- QuickSortInt32 on left..right within an array, with more fuel than right - left: it ends without an
-- access outside the array, the array has its length and each value as often as before, the entries
-- outside left..right are as before, and those of left..right stand in the order of INT32.
pub quick_sort-IsSorted :
    (fuel : ℕ) (a : List ℕ) (left right : ℕ)
    → right - left < fuel
    → right < length a
    → (b : List ℕ) × (quick_sort_int32 fuel a left right ≡ some b)
      × (length b ≡ length a)
      × ((w : ℕ) → count w b ≡ count w a)
      × ((c : ℕ) → (c < left) ⊎ (right < c) → entry b c ≡ entry a c)
      × IsSorted b left right
quick_sort-IsSorted fuel a left right enough inside =
    let (b, e, keeps, sorted) = sort_lem fuel a left right enough inside in
    (b, e, keeps.same_length, keeps.same_values, keeps.same_outside, sorted)
