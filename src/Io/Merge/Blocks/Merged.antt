-- ===== src/Io/Merge/Blocks/Merged.antt =====
-- server/io.c: every client's data is in the merged array.
use cfio.Prelude.{
  ℕ, ◌+◌, ◌*◌, ◌^◌, ◌<◌, ◌≤◌, ◌≡◌, refl, sym, ◌∙◌, subst, ◌⊎◌, inl, inr, some, List, [], ◌∷◌, arith,
}
use cfio.Memory.{Memory, load}
use cfio.Memory.Laws.{load_congr}
use cfio.Io.Merge.Digits.{mul_le}
use cfio.Io.Merge.Place.{InBlock, src_position, dst_position, src_position-lt}
use cfio.Io.Merge.PutVar.{put_var-places}
use cfio.Io.Merge.Blocks.{
  Box, Block, axes, IsBox, Contains, Each, merged_box, put_blocks, merge_var_data,
}
use cfio.Io.Merge.Blocks.Bounds.{HasBox, InsideOf, merged_box-Contains, axes-Covers}
use cfio.Io.Merge.Blocks.Position.{
  global, position, Separate, cells, space, elements-axes, room-axes, dst_position-global,
  InBox-global, position-space, places_apart,
}

abbrev pub Among : Block → List Block → Type 0
Among k [] = ⊥
Among k (b ∷ blocks) = (b ≡ k) ⊎ Among k blocks

abbrev pub AllSeparate : List Block → Type 0
AllSeparate [] = Unit
AllSeparate (b ∷ blocks) = Each (λ k. Separate b.box k.box) blocks × AllSeparate blocks

each_at :
    (P : Block → Type 0) (blocks : List Block) (k : Block) → Each P blocks → Among k blocks → P k
each_at P [] k each a = absurd a
each_at P (b ∷ blocks) k (x, each) a = elim a [
  | inl e ↦ subst P e x
  | inr r ↦ each_at P blocks k each r
]

-- The client's data has less than 2 ^ 31 elements and does not overlap the merged array.
abbrev pub IsApart : ℕ → Box → ℕ → Block → Type 0
IsApart ele box dst k =
    (cells k.box < 2 ^ 31) × ((k.buf + ele * cells k.box ≤ dst) ⊎ (dst + space ele box ≤ k.buf))

module _ (ele n : ℕ) (box : Box) (dst : ℕ) (pos : 0 < ele) (wide : space ele box < 2 ^ 64) where
  abbrev place : Block → List ℕ → ℕ
  place k index = dst + ele * dst_position (axes box k.box) index

  record Fits (k : Block) : Type 0 where
    shape : IsBox n k.box
    within : Contains box k.box
    few : cells k.box < 2 ^ 31
    apart : (k.buf + ele * cells k.box ≤ dst) ⊎ (dst + space ele box ≤ k.buf)

  -- Each element of the block is at its place.
  abbrev AtPlace : Memory → Memory → Block → Type 0
  AtPlace m m' k =
      (index : List ℕ)
      → InBlock (axes box k.box) index
      → load m' (place k index) ele ≡ load m (k.buf + ele * src_position (axes box k.box) index) ele

  record Placed (blocks : List Block) (m m' : Memory) : Type 0 where
    places :
        (k : Block) (index : List ℕ)
        → Among k blocks
        → InBlock (axes box k.box) index
        → load m' (place k index) ele
          ≡ load m (k.buf + ele * src_position (axes box k.box) index) ele
    rest :
        (q : ℕ)
        → ((k : Block) (index : List ℕ)
            → Among k blocks
            → InBlock (axes box k.box) index
            → (q < place k index) ⊎ (place k index + ele ≤ q))
        → m' q ≡ m q

  -- A place lies inside the merged array.
  place_room :
      (k : Block) (index : List ℕ)
      → Fits k
      → InBlock (axes box k.box) index
      → place k index + ele ≤ dst + space ele box
  place_room k index f b =
      let g = global k.box index in
      let p = InBox-global box k.box index f.within b in
      rw (dst_position-global box k.box index f.within b)
        (omega (arith, position-space ele box g p.0))

  -- Two blocks that are separate have their places apart.
  places-Separate :
      (j k : Block) (i l : List ℕ)
      → Fits j
      → Fits k
      → Separate j.box k.box
      → InBlock (axes box j.box) i
      → InBlock (axes box k.box) l
      → (place j i + ele ≤ place k l) ⊎ (place k l + ele ≤ place j i)
  places-Separate j k i l fj fk s bj bk =
      let ej = dst_position-global box j.box i fj.within bj in
      let ek = dst_position-global box k.box l fk.within bk in
      let (pj, qj) = InBox-global box j.box i fj.within bj in
      let (pk, qk) = InBox-global box k.box l fk.within bk in
      rw (ej, ek)
        (elim (places_apart ele box j.box k.box (global j.box i) (global k.box l) s qj qk pj pk) [
          | inl a ↦ inl (omega arith)
          | inr a ↦ inr (omega arith)
        ])

  -- The client's own data lies outside the merged array.
  source_apart :
      (j k : Block) (i l : List ℕ) (q : ℕ)
      → Fits j
      → Fits k
      → InBlock (axes box j.box) i
      → InBlock (axes box k.box) l
      → k.buf + ele * src_position (axes box k.box) l ≤ q
      → q < k.buf + ele * src_position (axes box k.box) l + ele
      → (q < place j i) ⊎ (place j i + ele ≤ q)
  source_apart j k i l q fj fk bj bk low high =
      let last = src_position-lt (axes box k.box) l bk in
      let size = elements-axes box k.box fk.within in
      let row : (src_position (axes box k.box) l + 1) * ele ≤ cells k.box * ele =
        mul_le (src_position (axes box k.box) l + 1) (cells k.box) ele (omega arith) in
      let inside = place_room j i fj bj in
      elim fk.apart [ inl before ↦ inl (grind arith) | inr behind ↦ inr (omega arith) ]

  put_blocks-Placed :
      (blocks : List Block) (m : Memory)
      → Each Fits blocks
      → AllSeparate blocks
      → (m' : Memory) × (put_blocks ele box m dst blocks ≡ some m') × Placed blocks m m'
  unfolding put_blocks
  put_blocks-Placed [] m fits sep =
      (m, refl, record { places = λ k index a b. absurd a; rest = λ q out. refl })
  put_blocks-Placed (b ∷ blocks) m (f, fits) (sep, seps) =
      let size = elements-axes box b.box f.within in
      let (m1, run, elems, rest) =
        put_var-places ele (axes box b.box) m dst b.buf (axes-Covers n box b.box f.shape f.within)
          pos (omega (arith, room-axes ele box b.box f.within)) (omega (arith, size, f.few))
          (rw (size, room-axes ele box b.box f.within) f.apart) in
      let (m', run', p) = put_blocks-Placed blocks m1 fits seps in
      let own : AtPlace m m' b = λ index ib.
        load_congr m' m1 (place b index) ele (λ q low high. p.rest q (λ k i a bk.
          elim (places-Separate b k index i f (each_at Fits blocks k fits a)
            (each_at (λ k. Separate b.box k.box) blocks k sep a) ib bk) [
              | inl x ↦ inl (omega arith)
              | inr x ↦ inr (omega arith)
            ]))
        ∙ elems index ib in
      (
        m',
        rw run run',
        record {
          places = λ k index a ib. elim a [
            | inl e ↦ subst (AtPlace m m') e own index ib
            | inr r ↦
                let fk = each_at Fits blocks k fits r in
                p.places k index r ib
                ∙ load_congr m1 m (k.buf + ele * src_position (axes box k.box) index) ele
                    (λ q low high. rest q (λ i bi. source_apart b k i index q f fk bi ib low high))
          ];
          rest = λ q out.
              p.rest q (λ k index a ib. out k index (inr a) ib)
              ∙ rest q (λ index ib. out b index (inl refl) ib);
        },
      )

  Each-Fits :
      (blocks : List Block)
      → Each (HasBox n) blocks
      → Each (InsideOf box) blocks
      → Each (IsApart ele box dst) blocks
      → Each Fits blocks
  Each-Fits [] i c a = i
  Each-Fits (b ∷ blocks) (i, is) (c, cs) ((few, apart), others) =
      (record { shape = i; within = c; few = few; apart = apart }, Each-Fits blocks is cs others)

-- When the clients' blocks have as many dimensions each, are not empty, end below 2 ^ 31, do not
-- overlap one another in the variable, have less than 2 ^ 31 elements and do not overlap the
-- merged array in memory, which is smaller than 2 ^ 64 bytes, _merge_var_data succeeds with an
-- array that covers each block; and each element of each block is in it at the place that the
-- element's index in the variable has in this array.
pub merge_var_data-places :
    (ele n : ℕ) (m : Memory) (dst : ℕ) (b : Block) (blocks : List Block) (k : Block)
    (index : List ℕ)
    → 0 < ele
    → Each (HasBox n) (b ∷ blocks)
    → AllSeparate (b ∷ blocks)
    → space ele (merged_box b.box blocks) < 2 ^ 64
    → Each (IsApart ele (merged_box b.box blocks) dst) (b ∷ blocks)
    → Among k (b ∷ blocks)
    → InBlock (axes (merged_box b.box blocks) k.box) index
    → let box = merged_box b.box blocks in
      (m' : Memory) × (merge_var_data ele m dst (b ∷ blocks) ≡ some (box, m'))
      × Contains box k.box
      × (load m' (dst + ele * position box (global k.box index)) ele
          ≡ load m (k.buf + ele * src_position (axes box k.box) index) ele)
unfolding merge_var_data
merge_var_data-places ele n m dst b blocks k index pos (i, is) sep wide apart among inside =
    let box = merged_box b.box blocks in
    let (j, first, others) = merged_box-Contains n b.box blocks i is in
    let within = each_at (InsideOf box) (b ∷ blocks) k (first, others) among in
    let fits = Each-Fits ele n box dst pos wide (b ∷ blocks) (i, is) (first, others) apart in
    let (m', run, p) = put_blocks-Placed ele n box dst pos wide (b ∷ blocks) m fits sep in
    (
      m',
      rw run refl,
      within,
      rw (sym (dst_position-global box k.box index within inside)) (p.places k index among inside),
    )
