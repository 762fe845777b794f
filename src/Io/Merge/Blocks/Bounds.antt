-- ===== src/Io/Merge/Blocks/Bounds.antt =====
-- server/io.c: the merged array covers each client's block.
use cfio.Prelude.{ℕ, zero, suc, ◌+◌, ◌^◌, ◌<◌, ◌≤◌, List, [], ◌∷◌, arith}
use cfio.Io.Merge.{update_start_and_count}
use cfio.Io.Merge.Place.{Covers}
use cfio.Io.Merge.Blocks.{Box, Block, axes, IsBox, Contains, Each, update_box, merged_box}

Contains-refl : (n : ℕ) (a : Box) → IsBox n a → Contains a a
Contains-refl zero [] i = i
Contains-refl zero (x ∷ a) i = absurd i
Contains-refl (suc n) [] i = absurd i
Contains-refl (suc n) (x ∷ a) (_, _, i) = (omega arith, omega arith, Contains-refl n a i)

Contains-trans : (a b c : Box) → Contains a b → Contains b c → Contains a c
Contains-trans [] [] [] p q = q
Contains-trans [] [] (z ∷ c) p q = absurd q
Contains-trans [] (y ∷ b) c p q = absurd p
Contains-trans (x ∷ a) [] c p q = absurd p
Contains-trans (x ∷ a) (y ∷ b) [] p q = absurd q
Contains-trans (x ∷ a) (y ∷ b) (z ∷ c) (p, p', ps) (q, q', qs) =
    (omega arith, omega arith, Contains-trans a b c ps qs)

-- From the smaller start to the larger end.
update_bounds :
    (c n : ℕ × ℕ)
    → c.0 + c.1 < 2 ^ 31
    → n.0 + n.1 < 2 ^ 31
    → let r = update_start_and_count c n in
      (r.0 ≤ c.0)
      × (r.0 ≤ n.0)
      × (c.0 + c.1 ≤ r.0 + r.1)
      × (n.0 + n.1 ≤ r.0 + r.1)
      × (r.0 + r.1 < 2 ^ 31)
update_bounds (cs, cc) (ns, nc) hc hn = ground arith

update_box-IsBox :
    (n : ℕ) (a b : Box)
    → IsBox n a
    → IsBox n b
    → IsBox n (update_box a b) × Contains (update_box a b) a × Contains (update_box a b) b
unfolding update_box
update_box-IsBox zero [] [] i j = (i, i, i)
update_box-IsBox zero [] (y ∷ b) i j = absurd j
update_box-IsBox zero (x ∷ a) b i j = absurd i
update_box-IsBox (suc n) [] b i j = absurd i
update_box-IsBox (suc n) (x ∷ a) [] i j = absurd j
update_box-IsBox (suc n) (x ∷ a) (y ∷ b) (px, hx, i) (py, hy, j) =
    let (low, low', high, high', small) = update_bounds x y hx hy in
    let (k, ca, cb) = update_box-IsBox n a b i j in
    ((omega arith, small, k), (low, high, ca), (low', high', cb))

abbrev pub HasBox : ℕ → Block → Type 0
HasBox n b = IsBox n b.box

abbrev pub InsideOf : Box → Block → Type 0
InsideOf box b = Contains box b.box

pub merged_box-Contains :
    (n : ℕ) (cur : Box) (blocks : List Block)
    → IsBox n cur
    → Each (HasBox n) blocks
    → IsBox n (merged_box cur blocks)
      × Contains (merged_box cur blocks) cur
      × Each (InsideOf (merged_box cur blocks)) blocks
unfolding merged_box
merged_box-Contains n cur [] i each = (i, Contains-refl n cur i, each)
merged_box-Contains n cur (b ∷ blocks) i (j, each) =
    let (k, ca, cb) = update_box-IsBox n cur b.box i j in
    let (l, c, all) = merged_box-Contains n (update_box cur b.box) blocks k each in
    let box = merged_box (update_box cur b.box) blocks in
    (
      l,
      Contains-trans box (update_box cur b.box) cur c ca,
      (Contains-trans box (update_box cur b.box) b.box c cb, all),
    )

pub axes-Covers : (n : ℕ) (dst src : Box) → IsBox n src → Contains dst src → Covers (axes dst src)
axes-Covers n [] [] i c = c
axes-Covers n [] (s ∷ src) i c = absurd c
axes-Covers n (d ∷ dst) [] i c = absurd c
axes-Covers zero (d ∷ dst) (s ∷ src) i c = absurd i
axes-Covers (suc n) (d ∷ dst) (s ∷ src) (pos, _, i) (low, high, c) =
    (pos, low, high, axes-Covers n dst src i c)
