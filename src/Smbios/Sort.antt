-- ===== src/Smbios/Sort.antt =====
-- QuickSortInt32 of PlatformSmbiosDxe.c. An INT32 is its 32-bit word; `none` is fuel that ran out, or
-- an access outside the array.
use edk2_uemu.Common.{
  ℕ, zero, suc, ◌+◌, ◌-◌, ◌/◌, ◌%◌, ◌^◌, true, false, List, Option, none, some, get_elem?, ltb, leb,
  if◌then◌else◌, length,
}
use edk2_uemu.Smbios.Array.{set}

-- The order of the words as INT32: the sign bit turned round.
unfoldable pub rank : ℕ → ℕ
rank word = (word + 2 ^ 31) % 2 ^ 32

-- if (Array[I] > Array[J]) { Tmp = Array[I]; Array[I] = Array[J]; Array[J] = Tmp; }
unfoldable pub order : List ℕ → ℕ → ℕ → Option (List ℕ)
order array i j = elim (get_elem? array i) [
  | none ↦ none
  | some x ↦ elim (get_elem? array j) [
    | none ↦ none
    | some y ↦ if ltb (rank y) (rank x) then some (set (set array i y) j x) else some array
  ]
]

-- The three exchanges of the median-of-three pivot.
unfoldable pub order_three : List ℕ → ℕ → ℕ → ℕ → Option (List ℕ)
order_three array left middle right = elim (order array left middle) [
  | none ↦ none
  | some first ↦ elim (order first left right) [
    | none ↦ none
    | some second ↦ order second middle right
  ]
]

-- while (Array[I] < Pivot) I++;
unfoldable pub scan_up : List ℕ → ℕ → ℕ → ℕ → Option ℕ
scan_up array pivot zero i = none
scan_up array pivot (suc fuel) i = elim (get_elem? array i) [
  | none ↦ none
  | some x ↦ elim (ltb (rank x) (rank pivot)) [
    | true ↦ scan_up array pivot fuel (i + 1)
    | false ↦ some i
  ]
]

-- while (Array[J] > Pivot) J--; below 0 lies no entry.
unfoldable pub scan_down : List ℕ → ℕ → ℕ → Option ℕ
scan_down array pivot zero = elim (get_elem? array 0) [
  | none ↦ none
  | some x ↦ if ltb (rank pivot) (rank x) then none else some 0
]
scan_down array pivot (suc j) = elim (get_elem? array (suc j)) [
  | none ↦ none
  | some x ↦ elim (ltb (rank pivot) (rank x)) [
    | true ↦ scan_down array pivot j
    | false ↦ some (suc j)
  ]
]

-- Tmp = Array[I]; Array[I] = Array[J]; Array[J] = Tmp;
unfoldable pub swap : List ℕ → ℕ → ℕ → Option (List ℕ)
swap array i j = elim (get_elem? array i) [
  | none ↦ none
  | some x ↦ elim (get_elem? array j) [ none ↦ none | some y ↦ some (set (set array i y) j x) ]
]

-- The loop of the Hoare partition: the array and J.
unfoldable pub partition : List ℕ → ℕ → ℕ → ℕ → ℕ → Option (List ℕ × ℕ)
partition array pivot zero i j = none
partition array pivot (suc fuel) i j = elim (scan_up array pivot (length array) i) [
  | none ↦ none
  | some up ↦ elim (scan_down array pivot j) [
    | none ↦ none
    | some down ↦ elim (leb down up) [
      | true ↦ some (array, down)
      | false ↦ elim (swap array up down) [
        | none ↦ none
        | some swapped ↦ partition swapped pivot fuel (up + 1) (down - 1)
      ]
    ]
  ]
]

-- QuickSortInt32 up to its recursive calls: the array and J.
unfoldable pub split : List ℕ → ℕ → ℕ → Option (List ℕ × ℕ)
split array left right =
    let middle = (left + right) / 2 in
    elim (order_three array left middle right) [
      | none ↦ none
      | some ordered ↦ elim (get_elem? ordered middle) [
        | none ↦ none
        | some pivot ↦ partition ordered pivot (length ordered) left right
      ]
    ]

-- QuickSortInt32
unfoldable pub quick_sort_int32 : ℕ → List ℕ → ℕ → ℕ → Option (List ℕ)
quick_sort_int32 zero array left right = none
quick_sort_int32 (suc fuel) array left right = elim (leb right left) [
  | true ↦ some array
  | false ↦ elim (split array left right) [
    | none ↦ none
    | some (parted, j) ↦ elim (quick_sort_int32 fuel parted left j) [
      | none ↦ none
      | some lower ↦ quick_sort_int32 fuel lower (j + 1) right
    ]
  ]
]
