-- ===== src/Io.antt =====
-- server/io.c: how a server waits for a request from each of its clients, and merges their data.
pub mod Bits
pub mod Bitmap
pub mod Served
pub mod Pending
pub mod Merge
use Prim.Native.Nat.{bit_or}
use cfio.Prelude.{
  ℕ, zero, suc, ◌+◌, ◌-◌, ◌*◌, ◌/◌, ◌%◌, ◌^◌, ◌<◌, ◌≡◌, Bool, true, false, Option, none, some, List,
  [], ◌∷◌, ◌==◌, if◌then◌else◌, ◌>>=◌, ltb, get_elem?, set,
}
use cfio.Memory.{Bytes}
use cfio.Table.{HashTable, search}
use cfio.Map.{Config, get_client_index_of_server, get_client_num_of_server}

-- The bitmap is a list of bytes. `none` is a failed assertion or an access behind its end.
unfoldable pub add_bitmap : Config → Bytes → ℕ → Option Bytes
add_bitmap c bitmap client_id =
    if ltb client_id c.client_amount
    then (let client_index = get_client_index_of_server c client_id in
        let i = client_index / 8 in
        let j = client_index - i * 8 in
        get_elem? bitmap i >>= (λ byte. some (set bitmap i (bit_or byte (2 ^ j) % 256))))
    else none

-- The loop over the full bytes, and the test of the byte behind them.
unfoldable pub bytes_full : ℕ → ℕ → Bytes → Option Bool
bytes_full head tail [] = none
bytes_full zero tail (byte ∷ bytes) = some (byte == 2 ^ tail - 1)
bytes_full (suc head) tail (byte ∷ bytes) =
    let rest = bytes_full head tail bytes in if byte == 255 then rest else some false

unfoldable pub bitmap_full : Config → ℕ → Bytes → Option Bool
unfolding bytes_full
bitmap_full c server_id bitmap = get_client_num_of_server c server_id >>= (λ client_num.
    let head = client_num / 8 in let tail = client_num - head * 8 in bytes_full head tail bitmap)

-- `malloc` and `memset` of a new entry's bitmap.
unfoldable pub zero_bytes : ℕ → Bytes
zero_bytes zero = []
zero_bytes (suc n) = 0 ∷ zero_bytes n

unfoldable pub new_bitmap : ℕ → Bytes
unfolding zero_bytes
new_bitmap client_num = zero_bytes (client_num / 8 + 1)

-- `cfio_io_key_t`
pub record IoKey : Type 0 where
  pub func_code : ℕ
  pub client_nc_id : ℕ
  pub client_dim_id : ℕ
  pub client_var_id : ℕ

-- Of a `cfio_io_val_t` the table holds the bitmap, under the key that the entry begins with.
module _ {T : Type 0} (h : HashTable IoKey Bytes T) where
  abbrev pub pending : ℕ → T → IoKey → Bytes × T
  pending client_num t key = elim (search h t key) [
    | none ↦ (new_bitmap client_num, h.add t key (new_bitmap client_num))
    | some bitmap ↦ (bitmap, t)
  ]

  -- `_recv_client_io`, with the bitmap of the request that it hands back.
  unfoldable pub recv_client_io : Config → ℕ → T → ℕ → IoKey → Option (Bytes × T)
  unfolding add_bitmap
  recv_client_io c server_id t client_id key =
      get_client_num_of_server c server_id >>= (λ client_num.
        let (bitmap, found) = pending client_num t key in
        add_bitmap c bitmap client_id >>= (λ marked. some (marked, h.write found key marked)))

  -- `_remove_client_io`
  unfoldable pub remove_client_io : T → IoKey → T
  remove_client_io t key = h.del t key
