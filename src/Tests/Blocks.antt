-- ===== src/Tests/Blocks.antt =====
-- A block of two rows and two columns in an array of three rows and four columns.
use cfio.Prelude.{ℕ, ◌+◌, ◌*◌, ◌%◌, ◌<◌, ◌≤◌, ◌≡◌, refl, ◌⊎◌, inl, inr, some, List, [], ◌∷◌, arith}
use cfio.Memory.{Memory, load}
use cfio.Io.Merge.{Axis, put_var}
use cfio.Io.Merge.Place.{src_position, Covers, InBlock, dst_position}
use cfio.Io.Merge.Blocks.{Box, Block, axes, Contains, Each, merged_box, merge_var_data}
use cfio.Io.Merge.Blocks.Bounds.{HasBox}
use cfio.Io.Merge.Blocks.Position.{position}
use cfio.Io.Merge.Blocks.Merged.{AllSeparate, IsApart, merge_var_data-places}
use cfio.Io.Merge.PutVar.{put_var-place, put_var-elsewhere}

abbrev block : List Axis
block =
    record { dst_start = 0; dst_count = 4; src_start = 1; src_count = 2 }
    ∷ record { dst_start = 0; dst_count = 3; src_start = 1; src_count = 2 }
    ∷ []

abbrev pub memory : Memory
memory q = q % 256

block-Covers : Covers block
block-Covers = omega arith

put_var-place_example :
    (m' : Memory) × (put_var 4 block memory 1000 2000 ≡ some m')
    × (load m' (1000 + 4 * 10) 4 ≡ load memory (2000 + 4 * 3) 4)
put_var-place_example =
    put_var-place 4 block memory 1000 2000 block-Covers (omega arith) (omega arith) (omega arith)
      (inr (omega arith)) (1 ∷ 1 ∷ []) (omega arith)

-- The byte at 1003 belongs to row 0.
first_row :
    (index : List ℕ)
    → InBlock block index
    → (1003 < 1000 + 4 * dst_position block index)
      ⊎ (1000 + 4 * dst_position block index + 4 ≤ 1003)
first_row [] b = absurd b
first_row (i ∷ []) (_, b) = absurd b
first_row (i ∷ j ∷ []) b = inl (omega arith)
first_row (i ∷ j ∷ k ∷ index) (_, (_, b)) = absurd b

put_var-elsewhere_example :
    (m' : Memory) × (put_var 4 block memory 1000 2000 ≡ some m') × (m' 1003 ≡ memory 1003)
put_var-elsewhere_example =
    put_var-elsewhere 4 block memory 1000 2000 block-Covers (omega arith) (omega arith)
      (omega arith) (inr (omega arith)) 1003 first_row

-- Two rows of two columns, and the two columns beside them.
abbrev pub left : Block
left = record { box = (1, 2) ∷ (1, 2) ∷ []; buf = 2000 }

abbrev pub right : Block
right = record { box = (3, 2) ∷ (1, 2) ∷ []; buf = 3000 }

pub boxes : Each (HasBox 2) (left ∷ right ∷ [])
boxes = omega arith

pub side_by_side : AllSeparate (left ∷ right ∷ [])
side_by_side = ((inl (inl (omega arith)), tt), (tt, tt))

abbrev pub both : Box
both = (1, 4) ∷ (1, 2) ∷ []

pub both_lem : merged_box left.box (right ∷ []) ≡ both
unfolding merged_box
both_lem = refl

pub data-IsApart : Each (IsApart 4 (merged_box left.box (right ∷ [])) 1000) (left ∷ right ∷ [])
data-IsApart =
    rw both_lem ((omega arith, inr (omega arith)), ((omega arith, inr (omega arith)), tt))

merge_var_data-places_example :
    (m' : Memory) × (merge_var_data 4 memory 1000 (left ∷ right ∷ [])
      ≡ some (merged_box left.box (right ∷ []), m'))
    × Contains (merged_box left.box (right ∷ [])) right.box
    × (load m' (1000 + 4 * position (merged_box left.box (right ∷ [])) (4 ∷ 2 ∷ [])) 4
        ≡ load memory
            (3000
              + 4 * src_position (axes (merged_box left.box (right ∷ [])) right.box) (1 ∷ 1 ∷ []))
            4)
merge_var_data-places_example =
    merge_var_data-places 4 2 memory 1000 left (right ∷ []) right (1 ∷ 1 ∷ []) (omega arith) boxes
      side_by_side (rw both_lem (omega arith)) data-IsApart (inr (inl refl))
      (rw both_lem (omega arith))
