-- ===== src/Server/Ring.antt =====
-- server/server.c: reading the used part of a client's ring buffer into its region.
pub mod Progress
use cfio.Buffer.{size_t_mod}
use cfio.Buffer.Pack.{int_to_size_t}
use cfio.Prelude.{
  ℕ, zero, suc, ◌+◌, ◌-◌, ◌*◌, ◌%◌, ◌^◌, Bool, true, false, ◌||◌, Option, none, some, ◌==◌,
  if◌then◌else◌, ltb, leb, ◌>>=◌,
}

-- `cfio_buf_addr_t`, without the signal.
pub record BufAddr : Type 0 where
  pub start_addr : ℕ
  pub end_addr : ℕ
  pub free_addr : ℕ
  pub used_addr : ℕ

-- What the file keeps for one client; `region` is what `cfio_rdma_server_read_data` writes to.
pub record Reader (R : Type 0) : Type 0 where
  pub read_addr : ℕ
  pub read_done : Bool
  pub local_len : ℕ
  pub region : R

abbrev pub transfer_msg_size_max : ℕ
transfer_msg_size_max = 4096 * 1024

-- `<` of two `int`s, given by their bit patterns.
abbrev pub int_lt : ℕ → ℕ → Bool
int_lt a b = ltb ((a + 2 ^ 31) % 2 ^ 32) ((b + 2 ^ 31) % 2 ^ 32)

-- The difference of two addresses, as an `int`.
abbrev pub difference : ℕ → ℕ → ℕ
difference a b = (size_t_mod + a - b) % size_t_mod % 2 ^ 32

abbrev pub smaller : ℕ → ℕ → ℕ
smaller a b = if int_lt a b then a else b

abbrev pub advance : ℕ → ℕ → ℕ
advance addr length = (addr + int_to_size_t length) % size_t_mod

-- `read r offset length at` is the region `r` when `length` bytes from this offset of the client's buffer
-- have been read to `at`. `size` is SERVER_REGION_SIZE.
module _ {R : Type 0} (read : R → ℕ → ℕ → ℕ → R) (size : ℕ) where
  unfoldable pub transfer : ℕ → ℕ → ℕ → ℕ → R → Option (ℕ × R)
  transfer zero left_length remote_offset local_len r =
      if int_lt 0 left_length then none else some (local_len, r)
  transfer (suc n) left_length remote_offset local_len r =
      let now =
        if int_lt transfer_msg_size_max left_length then transfer_msg_size_max else left_length in
      let rest =
        transfer n (left_length - now) ((remote_offset + now) % 2 ^ 32) ((local_len + now) % 2 ^ 32)
          (read r remote_offset now local_len) in
      if int_lt 0 left_length then rest else some (local_len, r)

  -- The length that is read, with the address and the flag then.
  abbrev pub next_read : BufAddr → Reader R → ℕ × ℕ × Bool
  next_read addr s =
      let space = (2 ^ 32 + size - s.local_len) % 2 ^ 32 in
      if leb addr.used_addr addr.free_addr || leb s.read_addr addr.free_addr
      then (let length = smaller (difference addr.free_addr s.read_addr) space in
          let next_addr = advance s.read_addr length in
          (length, next_addr, leb addr.free_addr next_addr || s.read_done))
      else (let length = smaller (difference addr.end_addr s.read_addr) space in
          let next_addr = advance s.read_addr length in
          (
            length,
            (if leb addr.end_addr next_addr then addr.start_addr else next_addr),
            s.read_done,
          ))

  -- Every round transfers a byte.
  unfoldable pub read_data : BufAddr → Reader R → Option (Reader R)
  unfolding transfer
  read_data addr s =
      let (length, next_addr, done) = next_read addr s in
      transfer length length (difference s.read_addr addr.start_addr) s.local_len s.region >>= (λ r.
        some (record { read_addr = next_addr; read_done = done; local_len = r.0; region = r.1 }))
