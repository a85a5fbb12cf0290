-- ===== src/Smbios/Keeps.antt =====
-- What the exchanges of QuickSortInt32 leave as it was.
use edk2_uemu.Common.{
  ℕ, ◌<◌, ◌≤◌, ◌≡◌, ◌≢◌, refl, List, ◌⊎◌, inl, inr, length, arith, ◌==◌, ◌∙◌, some, ltb, Bool-cases,
}
use edk2_uemu.Smbios.Array.{
  entry, count, exchange, get_elem?-entry, length-exchange, entry-exchange, count-exchange,
}
use edk2_uemu.Smbios.Sort.{rank, order, order_three, swap}

-- The array b has the values of a, as often, those outside left..right where they were.
pub record Keeps (a b : List ℕ) (left right : ℕ) : Type 0 where
  pub same_length : length b ≡ length a
  pub same_values : (w : ℕ) → count w b ≡ count w a
  pub same_outside : (c : ℕ) → (c < left) ⊎ (right < c) → entry b c ≡ entry a c
  pub from_inside :
      (c : ℕ) → left ≤ c → c ≤ right → (d : ℕ) × (left ≤ d) × (d ≤ right) × (entry b c ≡ entry a d)

pub Keeps-refl : (a : List ℕ) (left right : ℕ) → Keeps a a left right
Keeps-refl a left right = record {
  same_length = refl;
  same_values = λ w. refl;
  same_outside = λ c h. refl;
  from_inside = λ c h k. (c, h, k, refl);
}

pub Keeps-trans :
    {a b c : List ℕ} {left right : ℕ}
    → Keeps a b left right
    → Keeps b c left right
    → Keeps a c left right
Keeps-trans ab bc = record {
  same_length = bc.same_length ∙ ab.same_length;
  same_values = λ w. bc.same_values w ∙ ab.same_values w;
  same_outside = λ c h. bc.same_outside c h ∙ ab.same_outside c h;
  from_inside = λ c h k.
      let (d, hd, kd, e) = bc.from_inside c h k in
      let (f, hf, kf, g) = ab.from_inside d hd kd in (f, hf, kf, e ∙ g);
}

inside_or_outside : (c l r : ℕ) → ((l ≤ c) × (c ≤ r)) ⊎ ((c < l) ⊎ (r < c))
inside_or_outside c l r = elim (Bool-cases (ltb c l)) [
  | inl low ↦ inr (inl (ground arith))
  | inr not_low ↦ elim (Bool-cases (ltb r c)) [
    | inl high ↦ inr (inr (ground arith))
    | inr not_high ↦ inl (ground arith, ground arith)
  ]
]

one_of : (c i j : ℕ) → (j ≡ c) ⊎ ((i ≡ c) × (j ≢ c)) ⊎ ((i ≢ c) × (j ≢ c))
one_of c i j = elim (Bool-cases (j == c)) [
  | inl second ↦ inl (ground arith)
  | inr not_second ↦ elim (Bool-cases (i == c)) [
    | inl first ↦ inr (inl (ground arith, ground arith))
    | inr not_first ↦ inr (inr (ground arith, ground arith))
  ]
]

pub Keeps-wide :
    {a b : List ℕ} {left right l r : ℕ}
    → Keeps a b l r
    → left ≤ l
    → r ≤ right
    → Keeps a b left right
Keeps-wide {a} {b} {left} {right} {l} {r} keeps hl hr = record {
  same_length = keeps.same_length;
  same_values = keeps.same_values;
  same_outside = λ c h. keeps.same_outside c (omega arith);
  from_inside = λ c h k. elim (inside_or_outside c l r) [
    | inl (hc, kc) ↦
        let (d, hd, kd, e) = keeps.from_inside c hc kc in (d, omega arith, omega arith, e)
    | inr out ↦ (c, h, k, keeps.same_outside c out)
  ];
}

pub exchange-Keeps :
    (a : List ℕ) (i j left right : ℕ)
    → left ≤ i
    → i ≤ right
    → left ≤ j
    → j ≤ right
    → right < length a
    → Keeps a (exchange a i j) left right
exchange-Keeps a i j left right hi ki hj kj hr =
    let at = entry-exchange a i j (omega arith) (omega arith) in
    record {
      same_length = length-exchange a i j (omega arith) (omega arith);
      same_values = count-exchange a i j (omega arith) (omega arith);
      same_outside = λ c h. ground (arith, at c);
      from_inside = λ c h k. elim (one_of c i j) [
        | inl e ↦ (i, hi, ki, ground (arith, at c))
        | inr (inl e) ↦ (j, hj, kj, ground (arith, at c))
        | inr (inr e) ↦ (c, h, k, ground (arith, at c))
      ];
    }

-- The places of an exchange lie in left..right, within the array.
abbrev pub IsInside : List ℕ → ℕ → ℕ → ℕ → ℕ → Type 0
IsInside a i j left right = (left ≤ i) × (i ≤ right) × (left ≤ j) × (j ≤ right) × (right < length a)

pub swap_lem :
    (a : List ℕ) (i j : ℕ) → i < length a → j < length a → swap a i j ≡ some (exchange a i j)
unfolding swap
swap_lem a i j hi hj = rw (swap, get_elem?-entry a i hi, get_elem?-entry a j hj) refl

order-Keeps :
    (a : List ℕ) (i j left right : ℕ)
    → IsInside a i j left right
    → (b : List ℕ) × (order a i j ≡ some b) × Keeps a b left right
unfolding order
order-Keeps a i j left right (hi, ki, hj, kj, hr) =
    let x = get_elem?-entry a i (omega arith) in
    let y = get_elem?-entry a j (omega arith) in
    elim (Bool-cases (ltb (rank (entry a j)) (rank (entry a i)))) [
      | inl more ↦ (
        exchange a i j,
        rw (order, x, y, more) refl,
        exchange-Keeps a i j left right hi ki hj kj hr,
      )
      | inr less ↦ (a, rw (order, x, y, less) refl, Keeps-refl a left right)
    ]

pub order_three-Keeps :
    (a : List ℕ) (left middle right : ℕ)
    → left ≤ middle
    → middle ≤ right
    → right < length a
    → (b : List ℕ) × (order_three a left middle right ≡ some b) × Keeps a b left right
unfolding order_three
order_three-Keeps a left middle right hl hr inside =
    let (b, eb, kb) = order-Keeps a left middle left right (omega arith) in
    let nb = kb.same_length in
    let (c, ec, kc) = order-Keeps b left right left right (omega arith) in
    let nc = kc.same_length in
    let (d, ed, kd) = order-Keeps c middle right left right (omega arith) in
    (d, rw (order_three, eb, ec) ed, Keeps-trans (Keeps-trans kb kc) kd)
