-- ===== src/Fdt/Cells.antt =====
-- DecodeCells of UemuFdtLib.c against the big-endian value that its cells stand for.
use edk2_uemu.Common.{
  ℕ, zero, suc, ◌+◌, ◌*◌, ◌/◌, ◌^◌, ◌≤◌, ◌<◌, ◌≡◌, refl, sym, ap, ◌∙◌, bit_or, some, List, [], ◌∷◌,
  ltb, if◌then◌else◌, Bool-cases, lt→ltb, ◌||◌, ◌==◌, inl, inr, drop, length, u64, max_uint64,
  arith,
}
use edk2_uemu.Common.Bits.{bit_or_fields}
use edk2_uemu.Efi.{ok, err, bad_buffer_size, compromised_data}
use edk2_uemu.Fdt.{Platform, word32, read_cell, decode_loop, decode_cells, fdt_max_ncells}

-- Every element is a byte.
abbrev pub IsBytes : List ℕ → Type 0
IsBytes [] = Unit
IsBytes (b ∷ bs) = (b < 256) × IsBytes bs

-- Fdt32ToCpu on a little-endian CPU: the documented byte swap.
pub record SwapsBytes (p : Platform) : Type 0 where
  pub swaps :
      (a b c d : ℕ)
      → a < 256
      → b < 256
      → c < 256
      → d < 256
      → p.fdt32_to_cpu (a + b * 2 ^ 8 + c * 2 ^ 16 + d * 2 ^ 24)
        ≡ a * 2 ^ 24 + b * 2 ^ 16 + c * 2 ^ 8 + d

-- The number that the first `count` cells hold in big-endian order, behind the digits `acc`.
abbrev pub big_endian : ℕ → List ℕ → ℕ → ℕ
big_endian (suc n) (a ∷ b ∷ c ∷ d ∷ rest) acc =
    big_endian n rest (acc * 2 ^ 32 + (a * 2 ^ 24 + b * 2 ^ 16 + c * 2 ^ 8 + d))
big_endian _ _ acc = acc

drop-nil : (m : ℕ) → drop {A = ℕ} m [] ≡ []
drop-nil zero = refl
drop-nil (suc m) = refl

pub drop-drop : (m n : ℕ) (xs : List ℕ) → drop m (drop n xs) ≡ drop (m + n) xs
drop-drop m zero xs = let e : m + 0 ≡ m = omega arith in rw e
drop-drop m (suc n) [] = let e : m + suc n ≡ suc (m + n) = omega arith in rw e (drop-nil m)
drop-drop m (suc n) (x ∷ xs) =
    let e : m + suc n ≡ suc (m + n) = omega arith in rw e (drop-drop m n xs)

pub drop-IsBytes : (n : ℕ) (xs : List ℕ) → IsBytes xs → IsBytes (drop n xs)
drop-IsBytes zero xs h = h
drop-IsBytes (suc n) [] h = tt
drop-IsBytes (suc n) (x ∷ xs) h = drop-IsBytes n xs h.1

big_endian-ge : (n : ℕ) (bs : List ℕ) (acc : ℕ) → acc ≤ big_endian n bs acc
big_endian-ge zero bs acc = omega arith
big_endian-ge (suc n) [] acc = omega arith
big_endian-ge (suc n) (a ∷ []) acc = omega arith
big_endian-ge (suc n) (a ∷ b ∷ []) acc = omega arith
big_endian-ge (suc n) (a ∷ b ∷ c ∷ []) acc = omega arith
big_endian-ge (suc n) (a ∷ b ∷ c ∷ d ∷ rest) acc =
    omega (arith, big_endian-ge n rest (acc * 2 ^ 32 + (a * 2 ^ 24 + b * 2 ^ 16 + c * 2 ^ 8 + d)))

-- One round: the cell moves in below the digits that are there.
shift_in : (r w : ℕ) → r < 2 ^ 32 → w < 2 ^ 32 → bit_or (u64 (r * 2 ^ 32)) w ≡ r * 2 ^ 32 + w
shift_in r w hr hw =
    let e : u64 (r * 2 ^ 32) ≡ r * 2 ^ 32 = omega arith in rw e (bit_or_fields 32 r w hw)

decode_loop-suc :
    (p : Platform) (cells : List ℕ) (left index result w : ℕ)
    → result < 2 ^ 32
    → read_cell cells index ≡ some w
    → decode_loop p cells (suc left) index result
      ≡ decode_loop p cells left (index + 1) (bit_or (u64 (result * 2 ^ 32)) (p.fdt32_to_cpu w))
unfolding decode_loop
decode_loop-suc p cells left index result w r e = ground arith

decode_loop_lem :
    (p : Platform)
    → SwapsBytes p
    → (cells : List ℕ) (left index result : ℕ) (rest : List ℕ) → drop (4 * index) cells ≡ rest
    → IsBytes rest
    → 4 * left ≤ length rest
    → result < 2 ^ 64
    → decode_loop p cells left index result ≡ (
        if ltb (big_endian left rest result) (2 ^ 64)
        then ok (big_endian left rest result)
        else err bad_buffer_size)
unfolding decode_loop read_cell
decode_loop_lem p s cells zero index result rest e h l r = rw (lt→ltb _ _ r)
decode_loop_lem p s cells (suc left) index result (a ∷ b ∷ c ∷ d ∷ rest) e h l r =
    elim (Bool-cases (ltb (max_uint64 / 2 ^ 32) result)) [
      | inl over ↦ ground (
        arith,
        big_endian-ge left rest (result * 2 ^ 32 + (a * 2 ^ 24 + b * 2 ^ 16 + c * 2 ^ 8 + d)),
      )
      | inr fits ↦
          rw
            (
              decode_loop-suc p cells left index result _ (ground arith) cell,
              swapped,
              shift_in result (a * 2 ^ 24 + b * 2 ^ 16 + c * 2 ^ 8 + d) (ground arith)
                  (omega arith),
            )
            (decode_loop_lem p s cells left (index + 1)
              (result * 2 ^ 32 + (a * 2 ^ 24 + b * 2 ^ 16 + c * 2 ^ 8 + d)) rest later h.1.1.1.1
              (omega arith) (ground arith))
    ]
  where
    cell : read_cell cells index ≡ some (a + b * 2 ^ 8 + c * 2 ^ 16 + d * 2 ^ 24)
    cell = ap word32 e

    swapped :
        p.fdt32_to_cpu (a + b * 2 ^ 8 + c * 2 ^ 16 + d * 2 ^ 24)
        ≡ a * 2 ^ 24 + b * 2 ^ 16 + c * 2 ^ 8 + d
    swapped = s.swaps a b c d h.0 h.1.0 h.1.1.0 h.1.1.1.0

    later : drop (4 * (index + 1)) cells ≡ rest
    later =
        let e' : 4 * (index + 1) ≡ 4 + 4 * index = omega arith in
        rw e' (sym (drop-drop 4 (4 * index) cells) ∙ ap (drop 4) e)
decode_loop_lem p s cells (suc left) index result (a ∷ b ∷ c ∷ []) e h l r = absurd (omega arith)
decode_loop_lem p s cells (suc left) index result (a ∷ b ∷ []) e h l r = absurd (omega arith)
decode_loop_lem p s cells (suc left) index result (a ∷ []) e h l r = absurd (omega arith)
decode_loop_lem p s cells (suc left) index result [] e h l r = absurd (omega arith)

-- With its cells in the property, DecodeCells yields their big-endian value where that fits a
-- UINT64, EFI_BAD_BUFFER_SIZE where it does not, and EFI_COMPROMISED_DATA for a count of 0 or above 4.
pub decode_cells_value :
    (p : Platform)
    → SwapsBytes p
    → (cells : List ℕ) (count : ℕ) → IsBytes cells
    → 4 * count ≤ length cells
    → decode_cells p cells count ≡ (
        if count == 0 || ltb fdt_max_ncells count
        then err compromised_data
        else if ltb (big_endian count cells 0) (2 ^ 64)
        then ok (big_endian count cells 0)
        else err bad_buffer_size)
unfolding decode_cells
decode_cells_value p s cells count h l =
    rw (decode_loop_lem p s cells count 0 0 cells refl h l (omega arith))
