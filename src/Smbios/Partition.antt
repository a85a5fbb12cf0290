-- ===== src/Smbios/Partition.antt =====
-- The Hoare partition of QuickSortInt32.
use edk2_uemu.Common.{
  ℕ, zero, suc, ◌+◌, ◌-◌, ◌/◌, ◌<◌, ◌≤◌, ◌≡◌, refl, List, inl, inr, length, arith, some, ltb, leb,
  ◌==◌, Bool-cases,
}
use edk2_uemu.Smbios.Array.{entry, exchange, entry-exchange, length-exchange, get_elem?-entry}
use edk2_uemu.Smbios.Sort.{rank, partition, split}
use edk2_uemu.Smbios.Keeps.{
  Keeps, Keeps-refl, Keeps-trans, exchange-Keeps, swap_lem, order_three-Keeps,
}
use edk2_uemu.Smbios.Scan.{scan_up_lem, scan_down_lem}

-- The entries of from..to are at most the pivot.
abbrev pub AtMost : List ℕ → ℕ → ℕ → ℕ → Type 0
AtMost a pivot from to = (c : ℕ) → from ≤ c → c ≤ to → rank (entry a c) ≤ rank pivot

-- The entries of from..to are at least the pivot.
abbrev pub AtLeast : List ℕ → ℕ → ℕ → ℕ → Type 0
AtLeast a pivot from to = (c : ℕ) → from ≤ c → c ≤ to → rank pivot ≤ rank (entry a c)

-- Before a round: left..i-1 is at most the pivot and j+1..right at least; the scans have the sentinels
-- `up` and `down`, and not both j and the upper one are the right end.
pub record InRound (a : List ℕ) (pivot left right i j : ℕ) : Type 0 where
  pub inside : right < length a
  pub low : (c : ℕ) → left ≤ c → c < i → rank (entry a c) ≤ rank pivot
  pub high : AtLeast a pivot (suc j) right
  pub up : ℕ
  pub down : ℕ
  pub left_le_i : left ≤ i
  pub j_le_right : j ≤ right
  pub i_le_up : i ≤ up
  pub up_le_right : up ≤ right
  pub left_le_down : left ≤ down
  pub down_le_j : down ≤ j
  pub at_up : rank pivot ≤ rank (entry a up)
  pub at_down : rank (entry a down) ≤ rank pivot
  pub not_both : up + j < right + right

-- The array is parted at j, within left..right, and nothing is lost.
pub record IsParted (a b : List ℕ) (pivot left right j : ℕ) : Type 0 where
  pub keeps : Keeps a b left right
  pub left_le_j : left ≤ j
  pub j_lt_right : j < right
  pub lower : AtMost b pivot left j
  pub upper : AtLeast b pivot (suc j) right

-- The exchange of a round leads to the next round.
next_round :
    (a : List ℕ) (pivot left right i j up down : ℕ)
    → InRound a pivot left right i j
    → i ≤ up
    → up < down
    → down ≤ j
    → rank pivot ≤ rank (entry a up)
    → rank (entry a down) ≤ rank pivot
    → ((c : ℕ) → i ≤ c → c < up → rank (entry a c) ≤ rank pivot)
    → AtLeast a pivot (suc down) j
    → InRound (exchange a up down) pivot left right (up + 1) (down - 1)
next_round a pivot left right i j up down round hi hud hj pu pd low high =
    let r = round.inside in
    let lr = round.left_le_i in
    let rr = round.j_le_right in
    let at = entry-exchange a up down (omega arith) (omega arith) in
    let first : entry (exchange a up down) up ≡ entry a down = ground (arith, at up) in
    let second : entry (exchange a up down) down ≡ entry a up = ground (arith, at down) in
    record {
      inside = omega (arith, length-exchange a up down (omega arith) (omega arith));
      low = λ c h k. elim (Bool-cases (c == up)) [
        | inl here ↦ let e : c ≡ up = ground arith in rw (e, first) pd
        | inr other ↦
            let below : c < up = ground arith in
            let same : entry (exchange a up down) c ≡ entry a c = ground (arith, at c) in
            elim (Bool-cases (ltb c i)) [
              | inl old ↦ rw same (round.low c h (ground arith))
              | inr new ↦ rw same (low c (ground arith) below)
            ]
      ];
      high = λ c h k. elim (Bool-cases (c == down)) [
        | inl here ↦ let e : c ≡ down = ground arith in rw (e, second) pu
        | inr other ↦
            let above : down < c = ground arith in
            let same : entry (exchange a up down) c ≡ entry a c = ground (arith, at c) in
            elim (Bool-cases (ltb j c)) [
              | inl old ↦ rw same (round.high c (ground arith) k)
              | inr new ↦ rw same (high c above (ground arith))
            ]
      ];
      up = down;
      down = up;
      left_le_i = omega arith;
      j_le_right = omega arith;
      i_le_up = omega arith;
      up_le_right = omega arith;
      left_le_down = omega arith;
      down_le_j = omega arith;
      at_up = rw second pu;
      at_down = rw first pd;
      not_both = omega arith;
    }

-- Where the scans have met, the array is parted.
met-IsParted :
    (a : List ℕ) (pivot left right i j up down : ℕ) (round : InRound a pivot left right i j)
    → down ≤ up
    → up ≤ round.up
    → round.down ≤ down
    → down ≤ j
    → rank (entry a down) ≤ rank pivot
    → ((c : ℕ) → i ≤ c → c < up → rank (entry a c) ≤ rank pivot)
    → AtLeast a pivot (suc down) j
    → IsParted a a pivot left right down
met-IsParted a pivot left right i j up down round met hu hd hj pd low high =
    let jr = round.j_le_right in
    let ur = round.up_le_right in
    let dl = round.left_le_down in
    let nb = round.not_both in
    record {
      keeps = Keeps-refl a left right;
      left_le_j = omega arith;
      j_lt_right = omega arith;
      lower = λ c hc kc. elim (Bool-cases (c == down)) [
        | inl here ↦ let e : c ≡ down = ground arith in rw e pd
        | inr other ↦ elim (Bool-cases (ltb c i)) [
          | inl old ↦ round.low c hc (ground arith)
          | inr new ↦ low c (ground arith) (ground arith)
        ]
      ];
      upper = λ c hc kc. elim (Bool-cases (ltb j c)) [
        | inl old ↦ round.high c (ground arith) kc
        | inr new ↦ high c hc (ground arith)
      ];
    }

-- With more fuel than j, the partition ends, and the array is parted.
partition-IsParted :
    (a : List ℕ) (pivot left right fuel i j : ℕ)
    → InRound a pivot left right i j
    → j < fuel
    → (b : List ℕ) × (k : ℕ) × (partition a pivot fuel i j ≡ some (b, k))
      × IsParted a b pivot left right k
unfolding partition
partition-IsParted a pivot left right zero i j round h = absurd (omega arith)
partition-IsParted a pivot left right (suc fuel) i j round h =
    let r = round.inside in
    let jr = round.j_le_right in
    let ur = round.up_le_right in
    let dl = round.left_le_down in
    let il = round.left_le_i in
    let nb = round.not_both in
    let (up, eu, hu, ku, pu, low) =
      scan_up_lem a pivot (length a) i round.up round.i_le_up (omega arith) (omega arith)
        round.at_up in
    let (down, ed, hd, kd, pd, high) =
      scan_down_lem a pivot j round.down round.down_le_j (omega arith) round.at_down in
    elim (Bool-cases (leb down up)) [
      | inl crossed ↦
          let met : down ≤ up = ground arith in
          (
            a,
            down,
            rw (partition, eu, ed, crossed) refl,
            met-IsParted a pivot left right i j up down round met ku hd kd pd low high,
          )
      | inr apart ↦
          let less : up < down = ground arith in
          let next = next_round a pivot left right i j up down round hu less kd pu pd low high in
          let (b, k, e, parted) =
            partition-IsParted (exchange a up down) pivot left right fuel (up + 1) (down - 1) next
              (omega arith) in
          let exchanged =
            exchange-Keeps a up down left right (omega arith) (omega arith) (omega arith)
              (omega arith) r in
          (
            b,
            k,
            rw (partition, eu, ed, apart, swap_lem a up down (omega arith) (omega arith)) e,
            record {
              keeps = Keeps-trans exchanged parted.keeps;
              left_le_j = parted.left_le_j;
              j_lt_right = parted.j_lt_right;
              lower = parted.lower;
              upper = parted.upper;
            },
          )
    ]

-- The calls of `split` within the array part it around some pivot.
pub split-IsParted :
    (a : List ℕ) (left right : ℕ)
    → left < right
    → right < length a
    → (b : List ℕ) × (j : ℕ) × (pivot : ℕ) × (split a left right ≡ some (b, j))
      × IsParted a b pivot left right j
unfolding split
split-IsParted a left right less inside =
    let middle = (left + right) / 2 in
    let (ordered, eo, kept) =
      order_three-Keeps a left middle right (omega arith) (omega arith) inside in
    let same = kept.same_length in
    let pivot = entry ordered middle in
    let first : InRound ordered pivot left right left right = record {
      inside = omega arith;
      low = λ c h k. absurd (omega arith);
      high = λ c h k. absurd (omega arith);
      up = middle;
      down = middle;
      left_le_i = omega arith;
      j_le_right = omega arith;
      i_le_up = omega arith;
      up_le_right = omega arith;
      left_le_down = omega arith;
      down_le_j = omega arith;
      at_up = omega arith;
      at_down = omega arith;
      not_both = omega arith;
    } in
    let (b, j, e, parted) =
      partition-IsParted ordered pivot left right (length ordered) left right first (omega arith) in
    (
      b,
      j,
      pivot,
      rw (split, eo, get_elem?-entry ordered middle (omega arith)) e,
      record {
        keeps = Keeps-trans kept parted.keeps;
        left_le_j = parted.left_le_j;
        j_lt_right = parted.j_lt_right;
        lower = parted.lower;
        upper = parted.upper;
      },
    )
