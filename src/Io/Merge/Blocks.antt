-- ===== src/Io/Merge/Blocks.antt =====
-- server/io.c: the blocks of all clients are merged into one array.
pub mod Bounds
pub mod Position
pub mod Merged
use native.Mathlib.Nat.{mod-eq_of_lt}
use cfio.Prelude.{
  ℕ, zero, suc, ◌+◌, ◌-◌, ◌*◌, ◌%◌, ◌^◌, ◌<◌, ◌≤◌, ◌≡◌, refl, sym, ◌∙◌, ap, subst, ◌⊎◌, inl, inr,
  Bool, true, false, Option, none, some, List, [], ◌∷◌, if◌then◌else◌, ltb, ◌>>=◌, Bool-cases,
  arith,
}
use cfio.Memory.{Memory}
use cfio.Buffer.{size_t_mod}
use cfio.Buffer.Pack.{int_to_size_t}
use cfio.Io.Merge.{Axis, update_start_and_count, put_var}
use cfio.Io.Merge.Place.{Covers}

-- Start and count in each dimension.
abbrev pub Box : Type 0
Box = List (ℕ × ℕ)

-- `cfio_id_data_t`
pub record Block : Type 0 where
  pub box : Box
  pub buf : ℕ

unfoldable pub update_box : Box → Box → Box
update_box [] new = []
update_box (c ∷ cur) [] = c ∷ cur
update_box (c ∷ cur) (n ∷ new) = update_start_and_count c n ∷ update_box cur new

-- The loop over the other clients.
unfoldable pub merged_box : Box → List Block → Box
unfolding update_box
merged_box cur [] = cur
merged_box cur (b ∷ blocks) = merged_box (update_box cur b.box) blocks

abbrev pub axes : Box → Box → List Axis
axes [] src = []
axes (d ∷ dst) [] = []
axes (d ∷ dst) (s ∷ src) =
    record { dst_start = d.0; dst_count = d.1; src_start = s.0; src_count = s.1 } ∷ axes dst src

unfoldable pub put_blocks : ℕ → Box → Memory → ℕ → List Block → Option Memory
put_blocks ele_size box m dst_data [] = some m
put_blocks ele_size box m dst_data (b ∷ blocks) =
    put_var ele_size (axes box b.box) m dst_data b.buf
    >>= (λ m'. put_blocks ele_size box m' dst_data blocks)

-- `dst_data` is what `malloc` returns. There is a first client; what is freed is left in the memory.
unfoldable pub merge_var_data : ℕ → Memory → ℕ → List Block → Option (Box × Memory)
unfolding merged_box put_blocks
merge_var_data ele_size m dst_data [] = none
merge_var_data ele_size m dst_data (b ∷ blocks) =
    let box = merged_box b.box blocks in
    put_blocks ele_size box m dst_data (b ∷ blocks) >>= (λ m'. some (box, m'))

-- A block with this many dimensions, not empty, whose ends are `int`s.
abbrev pub IsBox : ℕ → Box → Type 0
IsBox zero [] = Unit
IsBox zero (a ∷ box) = ⊥
IsBox (suc n) [] = ⊥
IsBox (suc n) (a ∷ box) = (0 < a.1) × (a.0 + a.1 < 2 ^ 31) × IsBox n box

abbrev pub Contains : Box → Box → Type 0
Contains [] [] = Unit
Contains [] (s ∷ src) = ⊥
Contains (d ∷ dst) [] = ⊥
Contains (d ∷ dst) (s ∷ src) = (d.0 ≤ s.0) × (s.0 + s.1 ≤ d.0 + d.1) × Contains dst src

abbrev pub Each : (Block → Type 0) → List Block → Type 0
Each P [] = Unit
Each P (b ∷ blocks) = P b × Each P blocks
