-- ===== src/Smbios/Array.antt =====
-- An array of 32-bit words, as a list: writes, and what an exchange of two entries does.
use edk2_uemu.Common.{
  ℕ, zero, suc, ◌+◌, ◌<◌, ◌≡◌, refl, List, [], ◌∷◌, some, get_elem?, get_or, length, ap, arith,
  ◌==◌, if◌then◌else◌, ◌∙◌,
}

-- Array[i] = v
abbrev pub set : List ℕ → ℕ → ℕ → List ℕ
set [] i value = []
set (_ ∷ rest) zero value = value ∷ rest
set (w ∷ rest) (suc i) value = w ∷ set rest i value

-- The value of an entry, 0 behind the end.
abbrev pub entry : List ℕ → ℕ → ℕ
entry a i = get_or a i 0

-- How often a value stands in the array.
abbrev pub count : ℕ → List ℕ → ℕ
count v [] = 0
count v (x ∷ a) = (if x == v then 1 else 0) + count v a

pub get_elem?-entry : (a : List ℕ) (i : ℕ) → i < length a → get_elem? a i ≡ some (entry a i)
get_elem?-entry [] i h = absurd (omega arith)
get_elem?-entry (x ∷ a) zero h = refl
get_elem?-entry (x ∷ a) (suc i) h = get_elem?-entry a i (omega arith)

pub length-set : (a : List ℕ) (i value : ℕ) → length (set a i value) ≡ length a
length-set [] i value = refl
length-set (w ∷ rest) zero value = refl
length-set (w ∷ rest) (suc i) value = omega (arith, length-set rest i value)

pub entry-set :
    (a : List ℕ) (i c v : ℕ)
    → i < length a
    → entry (set a i v) c ≡ (if i == c then v else entry a c)
entry-set [] i c v h = absurd (omega arith)
entry-set (x ∷ a) zero zero v h = refl
entry-set (x ∷ a) zero (suc c) v h = ground arith
entry-set (x ∷ a) (suc i) zero v h = ground arith
entry-set (x ∷ a) (suc i) (suc c) v h = ground (arith, entry-set a i c v (omega arith))

count-set :
    (w : ℕ) (a : List ℕ) (i v : ℕ)
    → i < length a
    → count w (set a i v) + (if entry a i == w then 1 else 0)
      ≡ count w a + (if v == w then 1 else 0)
count-set w [] i v h = absurd (omega arith)
count-set w (x ∷ a) zero v h = omega arith
count-set w (x ∷ a) (suc i) v h = omega (arith, count-set w a i v (omega arith))

-- Tmp = Array[i]; Array[i] = Array[j]; Array[j] = Tmp
abbrev pub exchange : List ℕ → ℕ → ℕ → List ℕ
exchange a i j = set (set a i (entry a j)) j (entry a i)

module _ (a : List ℕ) (i j : ℕ) (hi : i < length a) (hj : j < length a) where
  pub length-exchange : length (exchange a i j) ≡ length a
  length-exchange = length-set (set a i (entry a j)) j (entry a i) ∙ length-set a i (entry a j)

  pub entry-exchange :
      (c : ℕ)
      → entry (exchange a i j) c
        ≡ (if j == c then entry a i else if i == c then entry a j else entry a c)
  entry-exchange c =
      let second =
        entry-set (set a i (entry a j)) j c (entry a i)
          (omega (arith, length-set a i (entry a j))) in
      second ∙ ap (λ (t : ℕ). if j == c then entry a i else t) (entry-set a i c (entry a j) hi)

  pub count-exchange : (w : ℕ) → count w (exchange a i j) ≡ count w a
  count-exchange w =
      let first = count-set w a i (entry a j) hi in
      let second =
        count-set w (set a i (entry a j)) j (entry a i)
          (omega (arith, length-set a i (entry a j))) in
      ground (arith, first, second, entry-set a i j (entry a j) hi)
