-- ===== src/Io/Merge.antt =====
-- server/io.c: the blocks that the clients sent are copied into one array. An array has its last
-- dimension first here, in the order in which the loops run.
pub mod Digits
pub mod Copy
pub mod Place
pub mod PutVar
pub mod Blocks
use cfio.Prelude.{
  ℕ, zero, suc, ◌+◌, ◌-◌, ◌*◌, ◌%◌, ◌^◌, ◌<◌, ◌≤◌, ◌≡◌, Bool, true, false, Option, none, some, List,
  [], ◌∷◌, ◌==◌, if◌then◌else◌, ◌>>=◌, ltb, leb,
}
use cfio.Memory.{Memory, store, load}
use cfio.Buffer.{size_t_mod}
use cfio.Buffer.Pack.{int_to_size_t}

-- One dimension of a variable's block: where it starts and how long it is in the merged array and in
-- the client's.
pub record Axis : Type 0 where
  pub dst_start : ℕ
  pub dst_count : ℕ
  pub src_start : ℕ
  pub src_count : ℕ

-- `src_index[dim]` goes up by one, with a carry into the next dimension; the address follows. `none`
-- is an index behind the last dimension.
unfoldable pub inc_src_index : ℕ → ℕ → List Axis → List ℕ → Option (ℕ × List ℕ)
inc_src_index sub_size dst_addr [] src_index = none
inc_src_index sub_size dst_addr (a ∷ dims) [] = none
inc_src_index sub_size dst_addr (a ∷ dims) (i ∷ src_index) =
    let carry =
      inc_src_index ((sub_size * a.dst_count) % size_t_mod)
        (dst_addr - ((a.src_count - 1) * sub_size) % size_t_mod) dims src_index in
    if leb a.src_count (i + 1)
    then carry >>= (λ r. some (r.0, 0 ∷ r.1))
    else some (dst_addr + sub_size, (i + 1) ∷ src_index)

-- The number of the client's elements.
unfoldable pub src_len : ℕ → List Axis → ℕ
src_len len [] = len
src_len len (a ∷ dims) = src_len ((len * a.src_count) % size_t_mod) dims

unfoldable pub dst_offset : ℕ → ℕ → List Axis → ℕ
dst_offset sub_size offset [] = offset
dst_offset sub_size offset (a ∷ dims) =
    dst_offset ((sub_size * a.dst_count) % size_t_mod)
      ((offset + ((size_t_mod + a.src_start - a.dst_start) % size_t_mod * sub_size) % size_t_mod)
        % size_t_mod)
      dims

unfoldable pub zeros : List Axis → List ℕ
zeros [] = []
zeros (a ∷ dims) = 0 ∷ zeros dims

-- memcpy of one element
abbrev pub copy : ℕ → Memory → ℕ → ℕ → Memory
copy ele_size m dst src = store m dst (load m src ele_size)

-- The loop, and the last element behind it.
unfoldable pub copy_loop : ℕ → ℕ → List Axis → Memory → ℕ → ℕ → List ℕ → Option Memory
unfolding inc_src_index
copy_loop zero ele_size dims m dst src src_index = some (copy ele_size m dst src)
copy_loop (suc n) ele_size dims m dst src src_index =
    inc_src_index ele_size dst dims src_index
    >>= (λ r. copy_loop n ele_size dims (copy ele_size m dst src) r.0 (src + ele_size) r.1)

-- `(int)src_len - 1` rounds; a negative number of them is none.
abbrev pub rounds : ℕ → ℕ
rounds len = let n = len % 2 ^ 32 in if ltb n (2 ^ 31) then n - 1 else 0

unfoldable pub put_var : ℕ → List Axis → Memory → ℕ → ℕ → Option Memory
unfolding src_len dst_offset zeros copy_loop
put_var ele_size dims m dst_data src_data =
    let len = src_len 1 dims in
    let dst = dst_data + (ele_size * dst_offset 1 0 dims) % size_t_mod in
    if len == 0 then some m else copy_loop (rounds len) ele_size dims m dst src_data (zeros dims)

-- `_update_start_and_count` for one dimension, with its `int` variables.
abbrev pub update_start_and_count : ℕ × ℕ → ℕ × ℕ → ℕ × ℕ
update_start_and_count (cur_start, cur_count) (new_start, new_count) =
    let min_start = (if ltb cur_start new_start then cur_start else new_start) % 2 ^ 32 in
    let cur_end = (cur_start + cur_count) % size_t_mod in
    let new_end = (new_start + new_count) % size_t_mod in
    let max_end = (if ltb new_end cur_end then cur_end else new_end) % 2 ^ 32 in
    (int_to_size_t min_start, int_to_size_t ((2 ^ 32 + max_end - min_start) % 2 ^ 32))
