-- ===== src/Buffer.antt =====
-- common/buffer.h: the ring buffer's record, its pointers' moves and its free-space tests.
pub mod Pack
pub mod Room
pub mod Wait
pub mod Retry
use cfio.Prelude.{
  ℕ, zero, suc, ◌+◌, ◌-◌, ◌%◌, ◌^◌, ◌<◌, ◌≤◌, ◌≡◌, Bool, true, false, ◌&&◌, Option, none, some, ltb,
  leb, ◌==◌, if◌then◌else◌, ◌>>=◌,
}
use cfio.Memory.{Memory}

-- `cfio_buf_t`, with the memory that its addresses point into.
pub record Buffer : Type 0 where
  pub magic : ℕ
  pub size : ℕ
  pub start_addr : ℕ
  pub free_addr : ℕ
  pub used_addr : ℕ
  pub end_addr : ℕ
  pub magic2 : ℕ
  pub mem : Memory

abbrev pub cfio_buf_magic : ℕ
cfio_buf_magic = 0xABCD

abbrev pub size_t_mod : ℕ
size_t_mod = 2 ^ 64

-- The address behind the buffer's last byte.
abbrev pub limit : Buffer → ℕ
limit b = b.start_addr + b.size

abbrev pub is_empty : Buffer → Bool
is_empty b = b.used_addr == b.free_addr

unfoldable pub use_buf : Buffer → ℕ → Buffer
use_buf b n =
    let free = b.free_addr + n in
    if leb (limit b) free
    then record b { free_addr = free - b.size; end_addr = free - n }
    else record b { free_addr = free }

unfoldable pub free_buf : Buffer → ℕ → Buffer
free_buf b n =
    let used = b.used_addr + n in
    if leb (limit b) used
    then record b { used_addr = used - b.size }
    else record b { used_addr = used }

-- Both macros compute in 64-bit arithmetic, where a negative intermediate value wraps.
unfoldable pub free_buf_size : Buffer → ℕ
free_buf_size b = (size_t_mod + b.size + b.used_addr - b.free_addr - 1) % size_t_mod % b.size

unfoldable pub used_buf_size : Buffer → ℕ
used_buf_size b = (size_t_mod + b.size + b.free_addr - b.used_addr) % size_t_mod % b.size

abbrev pub left_space : Buffer → ℕ
left_space b = limit b - b.free_addr

-- CFIO_BUF_FREE_SPACE_ENOUGH and CFIO_BUF_FREE_SPACE_NOT_ENOUGH
pub data Space : Type 0 where
  enough not_enough : Space

-- The tail is skipped where it is shorter than `n`.
unfoldable pub skip_tail : Buffer → ℕ → Buffer
skip_tail b n = if ltb (left_space b) n then use_buf b (left_space b) else b

unfoldable pub is_free_space_enough : Buffer → ℕ → Space × Buffer
is_free_space_enough b n =
    if ltb (free_buf_size b) n
    then (not_enough, b)
    else let c = skip_tail b n in if ltb (free_buf_size c) n then (not_enough, c) else (enough, c)

-- One of the two loops of `ensure_free_space`, on fuel: `release` is the function pointer `free`.
-- `none` means that the fuel ran out.
unfoldable pub wait_space : ℕ → (Buffer → Buffer) → Buffer → ℕ → Option Buffer
wait_space zero release b n = none
wait_space (suc fuel) release b n =
    let rest = wait_space fuel release (release b) n in
    if ltb (free_buf_size b) n then rest else some b

-- The tail is skipped by the size that it had before the first loop.
unfoldable pub ensure_free_space : ℕ → (Buffer → Buffer) → Buffer → ℕ → Option Buffer
unfolding wait_space
ensure_free_space fuel release b n = wait_space fuel release b n >>= (λ c.
    wait_space fuel release (if ltb (left_space b) n then use_buf c (left_space b) else c) n)

-- `none` is a failed assertion.
unfoldable pub check_used_addr : ℕ → Buffer → Option Bool
check_used_addr addr b =
    if leb b.start_addr addr && ltb addr (limit b)
    then some (
        if ltb b.used_addr b.free_addr
        then (if leb b.used_addr addr && ltb addr b.free_addr then true else false)
        else (if leb b.free_addr addr && ltb addr b.used_addr then false else true))
    else none

-- `addr` is what `malloc` returned, behind the record; `none` is its failure.
unfoldable pub open_buf : Option ℕ → ℕ → Memory → Option Buffer
open_buf none size mem = none
open_buf (some addr) size mem = some (record {
  magic = cfio_buf_magic;
  size = size;
  start_addr = addr;
  free_addr = addr;
  used_addr = addr;
  end_addr = addr;
  magic2 = cfio_buf_magic;
  mem = mem;
})

abbrev pub magic_ok : Buffer → Bool
magic_ok b = b.magic == cfio_buf_magic && b.magic2 == cfio_buf_magic

abbrev pub reset : Buffer → Buffer
reset b = record b { free_addr = b.start_addr; used_addr = b.start_addr }

unfoldable pub clear : Buffer → Option Buffer
clear b = if magic_ok b then some (reset b) else none

-- What holds of a buffer between operations.
pub record IsValid (b : Buffer) : Type 0 where
  pub magic : b.magic ≡ cfio_buf_magic
  pub magic2 : b.magic2 ≡ cfio_buf_magic
  pub nonempty : 0 < b.size
  pub fits : limit b < 2 ^ 63
  pub free_low : b.start_addr ≤ b.free_addr
  pub free_high : b.free_addr < limit b
  pub used_low : b.start_addr ≤ b.used_addr
  pub used_high : b.used_addr < limit b

-- `n` bytes may be stored from `free_addr` on.
pub record HasRoom (b : Buffer) (n : ℕ) : Type 0 where
  pub free : n ≤ free_buf_size b
  pub contiguous : b.free_addr + n ≤ limit b
