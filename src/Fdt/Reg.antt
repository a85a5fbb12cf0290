-- ===== src/Fdt/Reg.antt =====
-- UemuFdtGetReg of UemuFdtLib.c: memory safety, and the tuple that a success stands for.
use edk2_uemu.Common.{
  ℕ, zero, suc, ◌+◌, ◌-◌, ◌*◌, ◌/◌, ◌^◌, ◌≤◌, ◌<◌, ◌≡◌, ◌≢◌, refl, Option-cases, none, some, List,
  [], ◌∷◌, drop, length, length-drop, max_uint64, arith, inl, inr, bit_or, u64,
}
use edk2_uemu.Common.Int.{ℤ, pos, to_unsigned}
use edk2_uemu.Efi.{ok, fault}
use edk2_uemu.Text.{Text, codes}
use edk2_uemu.Fdt.{
  Platform, Property, word32, read_cell, decode_loop, decode_cells, reg_tuple, uemu_fdt_get_reg,
}
use edk2_uemu.Fdt.Cells.{IsBytes, SwapsBytes, big_endian, decode_cells_value, drop-IsBytes}

-- FdtGetProp as libfdt documents it: the stored length is that of the value, which is bytes.
pub record HasLengths (p : Platform) : Type 0 where
  pub has_length :
      (fdt : ℕ) (node : ℤ) (name : Text) {prop : Property}
      → p.get_prop fdt node name ≡ some prop
      → (prop.len ≡ pos (length prop.bytes)) × IsBytes prop.bytes

word32-some : (bs : List ℕ) → 4 ≤ length bs → (w : ℕ) × (word32 bs ≡ some w)
word32-some (a ∷ b ∷ c ∷ d ∷ r) h = (_, refl)
word32-some (a ∷ b ∷ c ∷ []) h = absurd (omega arith)
word32-some (a ∷ b ∷ []) h = absurd (omega arith)
word32-some (a ∷ []) h = absurd (omega arith)
word32-some [] h = absurd (omega arith)

pub read_cell-some :
    (cells : List ℕ) (index : ℕ)
    → 4 * index + 4 ≤ length cells
    → (w : ℕ) × (read_cell cells index ≡ some w)
unfolding read_cell
read_cell-some cells index h =
    word32-some (drop (4 * index) cells) (omega (arith, length-drop (4 * index) cells))

decode_loop-ne-fault :
    (p : Platform) (cells : List ℕ) (left index result : ℕ)
    → 4 * (index + left) ≤ length cells
    → decode_loop p cells left index result ≢ fault
unfolding decode_loop
decode_loop-ne-fault p cells zero index result h = λ e. cc
decode_loop-ne-fault p cells (suc left) index result h =
    let (w, e) = read_cell-some cells index (omega arith) in
    ground (
      arith,
      e,
      decode_loop-ne-fault p cells left (index + 1)
          (bit_or (u64 (result * 2 ^ 32)) (p.fdt32_to_cpu w)) (omega arith),
    )

decode_cells-ne-fault :
    (p : Platform) (cells : List ℕ) (count : ℕ)
    → 4 * count ≤ length cells
    → decode_cells p cells count ≢ fault
unfolding decode_cells
decode_cells-ne-fault p cells count h =
    ground (arith, decode_loop-ne-fault p cells count 0 0 (omega arith))

-- Tuple `index` ends within a property that has more than `index` tuples.
tuple_room : (len tuple index : ℕ) → index < len / tuple → index * tuple + tuple ≤ len
tuple_room len tuple index h = grind arith

reg_tuple-ne-fault :
    (p : Platform) (reg : Property) (a s index : ℕ)
    → reg.len ≡ pos (length reg.bytes)
    → reg_tuple p reg a s index ≢ fault
unfolding reg_tuple
reg_tuple-ne-fault p reg a s index l = ground (
  arith,
  l,
  length-drop (4 * (index * (a + s))) reg.bytes,
  length-drop (4 * a) (drop (4 * (index * (a + s))) reg.bytes),
  decode_cells-ne-fault p (drop (4 * (index * (a + s))) reg.bytes) a,
  decode_cells-ne-fault p (drop (4 * a) (drop (4 * (index * (a + s))) reg.bytes)) s,
  tuple_room (length reg.bytes) ((a + s) * 4) index,
)

-- Whatever the device tree holds, UemuFdtGetReg reads no memory outside the property that libfdt
-- returns with its length.
pub get_reg_reads_inside :
    (p : Platform) (fdt : ℕ) (node : ℤ) (index base size : ℕ)
    → HasLengths p
    → uemu_fdt_get_reg p fdt node index base size ≢ fault
unfolding uemu_fdt_get_reg
get_reg_reads_inside p fdt node index base size lengths =
    elim (Option-cases (p.get_prop fdt node (codes "reg"))) [
      | inl missing ↦ ground (arith, missing)
      | inr (reg, found) ↦ ground (
        arith,
        found,
        reg_tuple-ne-fault p reg (to_unsigned (p.address_cells fdt (p.parent_offset fdt node)))
            (to_unsigned (p.size_cells fdt (p.parent_offset fdt node))) index
            (lengths.has_length fdt node (codes "reg") found).0,
      )
    ]

-- A success of `reg_tuple`, in terms of the cells.
reg_tuple_inv :
    (p : Platform) (reg : Property) (a s index : ℕ) {b n : ℕ}
    → reg.len ≡ pos (length reg.bytes)
    → reg_tuple p reg a s index ≡ ok (b, n)
    → (decode_cells p (drop (4 * (index * (a + s))) reg.bytes) a ≡ ok b)
      × (decode_cells p (drop (4 * a) (drop (4 * (index * (a + s))) reg.bytes)) s ≡ ok n)
      × (index < length reg.bytes / ((a + s) * 4))
      × (0 < n)
      × (b ≤ max_uint64 - n)
unfolding reg_tuple
reg_tuple_inv p reg a s index l h = ground (arith, l)

decode_cells_inv :
    (p : Platform) (cells : List ℕ) (count : ℕ) {v : ℕ}
    → SwapsBytes p
    → IsBytes cells
    → 4 * count ≤ length cells
    → decode_cells p cells count ≡ ok v
    → (v ≡ big_endian count cells 0) × (v < 2 ^ 64)
decode_cells_inv p cells count s h l e = ground (arith, decode_cells_value p s cells count h l)

-- The values of tuple `index` of `reg`, each `a` and `s` cells wide.
abbrev pub IsTuple : List ℕ → ℕ → ℕ → ℕ → ℕ → ℕ → Type 0
IsTuple bytes a s index b n =
    (b ≡ big_endian a (drop (4 * (index * (a + s))) bytes) 0)
    × (n ≡ big_endian s (drop (4 * a) (drop (4 * (index * (a + s))) bytes)) 0)
    × (index * ((a + s) * 4) + (a + s) * 4 ≤ length bytes)
    × (0 < n)
    × (b + n < 2 ^ 64)

reg_tuple-IsTuple :
    (p : Platform) (reg : Property) (a s index : ℕ) {b n : ℕ}
    → SwapsBytes p
    → reg.len ≡ pos (length reg.bytes)
    → IsBytes reg.bytes
    → reg_tuple p reg a s index ≡ ok (b, n)
    → IsTuple reg.bytes a s index b n
reg_tuple-IsTuple p reg a s index {b} {n} swaps len bytes h =
    let (db, dn, inside, positive, fits) = reg_tuple_inv p reg a s index len h in
    let room = tuple_room (length reg.bytes) ((a + s) * 4) index inside in
    let bytes_b = drop-IsBytes (4 * (index * (a + s))) reg.bytes bytes in
    let bytes_n = drop-IsBytes (4 * a) (drop (4 * (index * (a + s))) reg.bytes) bytes_b in
    let len_b = length-drop (4 * (index * (a + s))) reg.bytes in
    let len_n = length-drop (4 * a) (drop (4 * (index * (a + s))) reg.bytes) in
    let vb = decode_cells_inv p _ a swaps bytes_b (grind arith) db in
    let vn = decode_cells_inv p _ s swaps bytes_n (grind arith) dn in
    (vb.0, vn.0, room, positive, omega arith)

-- Where the node has a `reg` and its parent has `a` address and `s` size cells, a success of
-- UemuFdtGetReg is the big-endian base and size of tuple `index`, which lies within the property, and
-- the range is not empty and does not pass 2^64.
pub get_reg_value :
    (p : Platform) (fdt : ℕ) (node : ℤ) (index base size a s : ℕ) (reg : Property) {b n : ℕ}
    → HasLengths p
    → SwapsBytes p
    → p.get_prop fdt node (codes "reg") ≡ some reg
    → p.address_cells fdt (p.parent_offset fdt node) ≡ pos a
    → p.size_cells fdt (p.parent_offset fdt node) ≡ pos s
    → uemu_fdt_get_reg p fdt node index base size ≡ ok (b, n)
    → IsTuple reg.bytes a s index b n
unfolding uemu_fdt_get_reg
get_reg_value p fdt node index base size a s reg {b} {n} lengths swaps found ea es h =
    let (len, bytes) = lengths.has_length fdt node (codes "reg") found in
    let inner : reg_tuple p reg a s index ≡ ok (b, n) = ground (arith, found, ea, es, h) in
    reg_tuple-IsTuple p reg a s index swaps len bytes inner

-- The bytes of the `reg` of a node.
abbrev pub reg_bytes : Platform → ℕ → ℤ → ℕ
reg_bytes p fdt node = elim (p.get_prop fdt node (codes "reg")) [
  | none ↦ 0
  | some reg ↦ length reg.bytes
]

tuple_index : (len tuple index : ℕ) → index < len / tuple → index < len
tuple_index len tuple index h = grind arith

-- UemuFdtGetReg succeeds on fewer indices than the property has bytes.
pub get_reg-index :
    (p : Platform) (fdt : ℕ) (node : ℤ) (index base size : ℕ) {b n : ℕ}
    → HasLengths p
    → uemu_fdt_get_reg p fdt node index base size ≡ ok (b, n)
    → index < reg_bytes p fdt node
unfolding uemu_fdt_get_reg
get_reg-index p fdt node index base size {b} {n} lengths h =
    elim (Option-cases (p.get_prop fdt node (codes "reg"))) [
      | inl missing ↦ absurd (ground (arith, missing, h))
      | inr (reg, found) ↦
          let len = (lengths.has_length fdt node (codes "reg") found).0 in
          let a = to_unsigned (p.address_cells fdt (p.parent_offset fdt node)) in
          let s = to_unsigned (p.size_cells fdt (p.parent_offset fdt node)) in
          let inner : reg_tuple p reg a s index ≡ ok (b, n) = ground (arith, found, h) in
          let inside = (reg_tuple_inv p reg a s index len inner).2 in
          rw (found, reg_bytes) (tuple_index (length reg.bytes) ((a + s) * 4) index inside)
    ]

-- The range of a success is not empty and does not pass 2^64, whatever the property is.
pub get_reg-fits :
    (p : Platform) (fdt : ℕ) (node : ℤ) (index base size : ℕ) {b n : ℕ}
    → HasLengths p
    → SwapsBytes p
    → uemu_fdt_get_reg p fdt node index base size ≡ ok (b, n)
    → (0 < n) × (b + n < 2 ^ 64)
unfolding uemu_fdt_get_reg
get_reg-fits p fdt node index base size {b} {n} lengths swaps h =
    elim (Option-cases (p.get_prop fdt node (codes "reg"))) [
      | inl missing ↦ absurd (ground (arith, missing, h))
      | inr (reg, found) ↦
          let (len, bytes) = lengths.has_length fdt node (codes "reg") found in
          let a = to_unsigned (p.address_cells fdt (p.parent_offset fdt node)) in
          let s = to_unsigned (p.size_cells fdt (p.parent_offset fdt node)) in
          let inner : reg_tuple p reg a s index ≡ ok (b, n) = ground (arith, found, h) in
          let tuple = reg_tuple-IsTuple p reg a s index swaps len bytes inner in (tuple.3, tuple.4)
    ]
