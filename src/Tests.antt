-- ===== src/Tests.antt =====
-- Concrete inputs for the theorems: small buffers, a grid of processes, a request.
pub mod Wire
pub mod Grid
pub mod Tables
pub mod Files
pub mod Queue
pub mod Calls
pub mod Framing
pub mod Ring
pub mod Pending
pub mod Blocks
pub mod Handlers
pub mod Requests
pub mod Writes
pub mod Delivered
pub mod Turns
pub mod Attached
use cfio.Prelude.{
  ℕ, zero, suc, ◌+◌, ◌-◌, ◌*◌, ◌/◌, ◌%◌, ◌^◌, ◌<◌, ◌≤◌, ◌≡◌, ◌≢◌, refl, sym, subst, ◌∙◌, ap, inl,
  inr, ◌⊎◌, Bool, true, false, Option, none, some, List, [], ◌∷◌, ◌++◌, ◌==◌, if◌then◌else◌, ltb,
  leb, ◌>>=◌, length, get_elem?, arith,
}
use cfio.Memory.{Bytes, Memory, encode, decode, load, store}
use cfio.Buffer.{
  Buffer, cfio_buf_magic, limit, left_space, use_buf, free_buf, free_buf_size, used_buf_size, Space,
  enough, not_enough, is_free_space_enough, skip_tail, check_used_addr, ensure_free_space, open_buf,
  IsValid, HasRoom, wait_space,
}
use cfio.Buffer.Room.{
  Kept, enough-HasRoom, is_free_space_enough-Kept, use_buf-check_used, use_buf_keeps_used,
  used-add-free, free_buf_size_flat, free_buf_size_round, free_buf_size-use_buf,
}
use cfio.Buffer.Wait.{Releases, Released, ensure_free_space-HasRoom}
use cfio.Buffer.Retry.{restart, drain, drained-enough, drained_stuck, exact_fit-end_addr}
use cfio.Buffer.Pack.{
  Packer, Unpacker, ◌▸◌, pack_data_array, unpack_data_array, pack_str, unpack_str, strlen,
}
use cfio.Buffer.Pack.Packs.{Packed, pack_data_array-Packs, IsCString}
use cfio.Buffer.Pack.Unpacks.{HasData, Taken, unpack_data_array-Unpacks}

abbrev zeros : Memory
zeros _ = 0

-- A buffer of 128 bytes at address 1000.
abbrev pub buffer_at : ℕ → ℕ → Buffer
buffer_at used free = record {
  magic = cfio_buf_magic;
  size = 128;
  start_addr = 1000;
  free_addr = free;
  used_addr = used;
  end_addr = 1000;
  magic2 = cfio_buf_magic;
  mem = zeros;
}

pub fresh-IsValid : IsValid (buffer_at 1000 1000)
fresh-IsValid = omega arith

pub half-IsValid : IsValid (buffer_at 1000 1060)
half-IsValid = omega arith

pub late-IsValid : IsValid (buffer_at 1100 1120)
late-IsValid = omega arith

fresh-HasRoom : HasRoom (buffer_at 1000 1000) 20
unfolding free_buf_size
fresh-HasRoom = omega arith

-- A callback that releases all that is in use.
abbrev pub release_all : Buffer → Buffer
release_all b = record b { used_addr = b.free_addr }

pub release_all-Releases : Releases release_all
release_all-Releases = record {
  keeps = λ b v. record { valid = omega arith; size = refl; start = refl; free = refl; mem = refl };
  frees =
      λ b v h. let w : IsValid (release_all b) = omega arith in omega (arith, free_buf_size_flat w);
}

-- Eight bytes are left at the end: a message of 20 goes to the start.
abbrev wrapped : Buffer
wrapped = record (buffer_at 1100 1000) { end_addr = 1120 }

wraps : is_free_space_enough (buffer_at 1100 1120) 20 ≡ (enough, wrapped)
unfolding is_free_space_enough skip_tail use_buf free_buf_size
wraps = refl

refuses : (is_free_space_enough (buffer_at 1040 1100) 60).0 ≡ not_enough
unfolding is_free_space_enough skip_tail use_buf free_buf_size
refuses = refl

refuses_more : (is_free_space_enough (buffer_at 1000 1060) 70).0 ≡ not_enough
unfolding is_free_space_enough skip_tail use_buf free_buf_size
refuses_more = refl

in_use : check_used_addr 1005 (buffer_at 1000 1060) ≡ some true
unfolding check_used_addr
in_use = refl

enough-HasRoom_example : HasRoom wrapped 20 × Kept (buffer_at 1100 1120) wrapped
enough-HasRoom_example = enough-HasRoom (buffer_at 1100 1120) 20 late-IsValid wraps

half-HasRoom : HasRoom (buffer_at 1000 1060) 67
unfolding free_buf_size
half-HasRoom = omega arith

use_buf_keeps_used_example :
    (check_used_addr 1005 (use_buf (buffer_at 1000 1060) 67) ≡ some true)
    × ((1005 < 1060) ⊎ (1060 + 67 ≤ 1005))
use_buf_keeps_used_example =
    use_buf_keeps_used (buffer_at 1000 1060) 67 1005 half-IsValid half-HasRoom (ground arith) in_use

used-add-free_example :
    used_buf_size (buffer_at 1100 1120) + free_buf_size (buffer_at 1100 1120) + 1 ≡ 128
used-add-free_example = used-add-free (buffer_at 1100 1120) late-IsValid

free_buf_size-use_buf_example :
    free_buf_size (use_buf (buffer_at 1000 1000) 20) + 20 ≡ free_buf_size (buffer_at 1000 1000)
free_buf_size-use_buf_example =
    free_buf_size-use_buf (buffer_at 1000 1000) 20 fresh-IsValid fresh-HasRoom

ensure_free_space-HasRoom_example :
    (c : Buffer) × (ensure_free_space 128 release_all (buffer_at 1000 1060) 100 ≡ some c)
    × IsValid c
    × HasRoom c 100
    × (c.mem ≡ zeros)
ensure_free_space-HasRoom_example =
    ensure_free_space-HasRoom release_all release_all-Releases 128 (buffer_at 1000 1060) 100
      half-IsValid (omega arith) (omega arith)

drained-enough_example :
    (is_free_space_enough
      (restart (drain (buffer_at 1040 1100) (is_free_space_enough (buffer_at 1040 1100) 60).1))
      60).0
    ≡ enough
drained-enough_example =
    drained-enough (buffer_at 1040 1100) 60 (omega arith) (omega arith) (omega arith) refuses

refuses_70 : (is_free_space_enough (buffer_at 1030 1063) 70).0 ≡ not_enough
unfolding is_free_space_enough skip_tail use_buf free_buf_size
refuses_70 = refl

room_70 : 70 ≤ free_buf_size (buffer_at 1030 1063)
unfolding free_buf_size
room_70 = omega arith

drained_stuck_example :
    let d =
      restart (drain (buffer_at 1030 1063) (is_free_space_enough (buffer_at 1030 1063) 70).1) in
    is_free_space_enough d 70 ≡ (not_enough, d)
drained_stuck_example =
    drained_stuck (buffer_at 1030 1063) 70 (omega arith) room_70 (omega arith) (omega arith)
      (omega arith) refuses_70

tail-HasRoom : HasRoom (buffer_at 1020 1100) 28
unfolding free_buf_size
tail-HasRoom = omega arith

exact_fit-end_addr_example :
    (check_used_addr 1125 (use_buf (buffer_at 1020 1100) 28) ≡ some true)
    × ((use_buf (buffer_at 1020 1100) 28).end_addr ≤ 1125)
exact_fit-end_addr_example =
    exact_fit-end_addr (buffer_at 1020 1100) 28 1125 (omega arith) tail-HasRoom refl (omega arith)
      (omega arith)
