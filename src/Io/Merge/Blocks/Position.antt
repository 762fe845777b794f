-- ===== src/Io/Merge/Blocks/Position.antt =====
-- server/io.c: different elements have different places in the merged array.
use native.Mathlib.Nat.{mod-eq_of_lt, add-mul-div_right, add-mul-mod_self_right, div-eq_of_lt}
use native.Mathlib.Decide.{dec_lt}
use cfio.Prelude.{
  ℕ, ◌+◌, ◌-◌, ◌*◌, ◌/◌, ◌%◌, ◌<◌, ◌≤◌, ◌≡◌, refl, sym, ◌∙◌, ap, ap₂, subst, ◌⊎◌, inl, inr, List,
  [], ◌∷◌, arith,
}
use cfio.Io.Merge.Place.{InBlock, dst_position}
use cfio.Io.Merge.Digits.{elements, room, mul_le}
use cfio.Io.Merge.Blocks.{Box, axes, Contains}

-- The index in the whole variable of an element of a block, and its place in the merged array.
abbrev pub global : Box → List ℕ → List ℕ
global [] index = []
global (s ∷ src) [] = []
global (s ∷ src) (i ∷ index) = (s.0 + i) ∷ global src index

abbrev pub position : Box → List ℕ → ℕ
position [] g = 0
position (d ∷ dst) [] = 0
position (d ∷ dst) (x ∷ g) = (x - d.0) + d.1 * position dst g

abbrev pub InBox : Box → List ℕ → Type 0
InBox [] [] = Unit
InBox [] (x ∷ g) = ⊥
InBox (d ∷ dst) [] = ⊥
InBox (d ∷ dst) (x ∷ g) = (d.0 ≤ x) × (x < d.0 + d.1) × InBox dst g

-- In some dimension one of the blocks ends before the other begins.
abbrev pub Separate : Box → Box → Type 0
Separate [] b = ⊥
Separate (x ∷ a) [] = ⊥
Separate (x ∷ a) (y ∷ b) = ((x.0 + x.1 ≤ y.0) ⊎ (y.0 + y.1 ≤ x.0)) ⊎ Separate a b

abbrev pub cells : Box → ℕ
cells [] = 1
cells (d ∷ box) = d.1 * cells box

abbrev pub space : ℕ → Box → ℕ
space ele [] = ele
space ele (d ∷ box) = space (ele * d.1) box

pub elements-axes : (dst src : Box) → Contains dst src → elements (axes dst src) ≡ cells src
elements-axes [] [] c = refl
elements-axes [] (s ∷ src) c = absurd c
elements-axes (d ∷ dst) [] c = absurd c
elements-axes (d ∷ dst) (s ∷ src) (_, _, c) = ap (λ x. s.1 * x) (elements-axes dst src c)

pub room-axes :
    (ele : ℕ) (dst src : Box) → Contains dst src → room ele (axes dst src) ≡ space ele dst
room-axes ele [] [] c = refl
room-axes ele [] (s ∷ src) c = absurd c
room-axes ele (d ∷ dst) [] c = absurd c
room-axes ele (d ∷ dst) (s ∷ src) (_, _, c) = room-axes (ele * d.1) dst src c

pub dst_position-global :
    (dst src : Box) (index : List ℕ)
    → Contains dst src
    → InBlock (axes dst src) index
    → dst_position (axes dst src) index ≡ position dst (global src index)
dst_position-global [] src index c b = refl
dst_position-global (d ∷ dst) [] index c b = absurd c
dst_position-global (d ∷ dst) (s ∷ src) [] c b = absurd b
dst_position-global (d ∷ dst) (s ∷ src) (i ∷ index) (_, _, c) (_, b) =
    ap (λ x. s.0 + i - d.0 + d.1 * x) (dst_position-global dst src index c b)

pub InBox-global :
    (dst src : Box) (index : List ℕ)
    → Contains dst src
    → InBlock (axes dst src) index
    → InBox dst (global src index) × InBox src (global src index)
InBox-global [] [] [] c b = (b, b)
InBox-global [] [] (i ∷ index) c b = absurd b
InBox-global [] (s ∷ src) index c b = absurd c
InBox-global (d ∷ dst) [] index c b = absurd c
InBox-global (d ∷ dst) (s ∷ src) [] c b = absurd b
InBox-global (d ∷ dst) (s ∷ src) (i ∷ index) (low, high, c) (lt, b) =
    let (p, q) = InBox-global dst src index c b in
    ((omega arith, omega arith, p), (omega arith, omega arith, q))

Separate-InBox : (a b : Box) (g : List ℕ) → Separate a b → InBox a g → InBox b g → ⊥
Separate-InBox [] b g s p q = s
Separate-InBox (x ∷ a) [] g s p q = s
Separate-InBox (x ∷ a) (y ∷ b) [] s p q = p
Separate-InBox (x ∷ a) (y ∷ b) (z ∷ g) s (p, p', ps) (q, q', qs) = elim s [
  | inl e ↦ elim e [ inl l ↦ absurd (omega arith) | inr l ↦ absurd (omega arith) ]
  | inr r ↦ Separate-InBox a b g r ps qs
]

-- A number has one quotient and one remainder.
same_digit : (c x y p q : ℕ) → x < c → y < c → x + c * p ≡ y + c * q → (x ≡ y) × (p ≡ q)
same_digit c x y p q hx hy e =
    let e' : x + p * c ≡ y + q * c = grind arith in
    let rx = add-mul-mod_self_right x p c ∙ mod-eq_of_lt hx in
    let ry = add-mul-mod_self_right y q c ∙ mod-eq_of_lt hy in
    let dx = add-mul-div_right x p (omega arith) ∙ ap (λ z. z + p) (div-eq_of_lt hx) in
    let dy = add-mul-div_right y q (omega arith) ∙ ap (λ z. z + q) (div-eq_of_lt hy) in
    (sym rx ∙ ap (λ z. z % c) e' ∙ ry, omega (arith, dx, dy, ap (λ z. z / c) e'))

pub position_injective :
    (box : Box) (g k : List ℕ) → InBox box g → InBox box k → position box g ≡ position box k → g ≡ k
position_injective [] [] [] p q e = refl
position_injective [] [] (y ∷ k) p q e = absurd q
position_injective [] (x ∷ g) k p q e = absurd p
position_injective (d ∷ box) [] k p q e = absurd p
position_injective (d ∷ box) (x ∷ g) [] p q e = absurd q
position_injective (d ∷ box) (x ∷ g) (y ∷ k) (lx, hx, p) (ly, hy, q) e =
    let (first, others) =
      same_digit d.1 (x - d.0) (y - d.0) (position box g) (position box k) (omega arith)
        (omega arith) e in
    ap₂ (λ z r. z ∷ r) (omega arith) (position_injective box g k p q others)

pub position-space :
    (ele : ℕ) (box : Box) (g : List ℕ) → InBox box g → ele * position box g + ele ≤ space ele box
position-space ele [] g p = omega arith
position-space ele (d ∷ box) [] p = absurd p
position-space ele (d ∷ box) (x ∷ g) (low, high, p) =
    let ih = position-space (ele * d.1) box g p in
    let row : (x - d.0 + 1) * ele ≤ d.1 * ele = mul_le (x - d.0 + 1) d.1 ele (omega arith) in
    grind arith

-- Elements of separate blocks do not overlap in the merged array.
pub places_apart :
    (ele : ℕ) (box a b : Box) (g k : List ℕ)
    → Separate a b
    → InBox a g
    → InBox b k
    → InBox box g
    → InBox box k
    → (ele * position box g + ele ≤ ele * position box k)
      ⊎ (ele * position box k + ele ≤ ele * position box g)
places_apart ele box a b g k s p q pb qb =
    let u = position box g in
    let v = position box k in
    elim (dec_lt u v) [
      | yes lt ↦
          let row : (u + 1) * ele ≤ v * ele = mul_le (u + 1) v ele (omega arith) in
          inl (grind arith)
      | no ge ↦ elim (dec_lt v u) [
        | yes lt ↦
            let row : (v + 1) * ele ≤ u * ele = mul_le (v + 1) u ele (omega arith) in
            inr (grind arith)
        | no le ↦
            let same : g ≡ k = position_injective box g k pb qb (omega arith) in
            absurd (Separate-InBox a b k s (subst (InBox a) same p) q)
      ]
    ]
