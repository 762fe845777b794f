-- ===== src/Buffer/Pack.antt =====
-- common/buffer.c: packing data into the free space, and unpacking it from the used space.
pub mod Packs
pub mod Unpacks
use cfio.Prelude.{
  ℕ, zero, suc, ◌+◌, ◌-◌, ◌*◌, ◌%◌, ◌^◌, Bool, true, false, ◌&&◌, Option, none, some, List, [], ◌∷◌,
  ltb, leb, ◌==◌, if◌then◌else◌, ◌>>=◌, take,
}
use cfio.Memory.{Bytes, store, load, encode, decode}
use cfio.Buffer.{Buffer, size_t_mod, magic_ok, use_buf, free_buf, free_buf_size, used_buf_size}

-- The sizes on the hosts that the code runs on.
abbrev pub sizeof_int : ℕ
sizeof_int = 4

abbrev pub sizeof_size_t : ℕ
sizeof_size_t = 8

-- A packing step changes the buffer, and an unpacking step takes a value off it. `none` is a failed
-- assertion.
abbrev pub Packer : Type 0
Packer = Buffer → Option Buffer

abbrev pub Unpacker : Type 0 → Type 0
Unpacker A = Buffer → Option (A × Buffer)

infixr 6 ◌▹◌
abbrev pub ◌▹◌ : Packer → Packer → Packer
◌▹◌ p q b = p b >>= q

infixr 6 ◌▸◌
abbrev pub ◌▸◌ : {A B : Type 0} → Unpacker A → (A → Unpacker B) → Unpacker B
◌▸◌ u f b = u b >>= (λ r. f r.0 r.1)

abbrev pub return : {A : Type 0} → A → Unpacker A
return a b = some (a, b)

-- An `int` as it takes part in `size_t` arithmetic: the sign is extended.
abbrev pub int_to_size_t : ℕ → ℕ
int_to_size_t n = if ltb n (2 ^ 31) then n else n + (2 ^ 64 - 2 ^ 32)

unfoldable pub put_buf_data : Buffer → Bytes → ℕ → Buffer
put_buf_data b xs n = if n == 0 then b else record b { mem = store b.mem b.free_addr (take n xs) }

unfoldable pub get_buf_data : Buffer → ℕ → Bytes
get_buf_data b n = if n == 0 then [] else load b.mem b.used_addr n

unfoldable pub pack_data : Bytes → ℕ → Packer
unfolding put_buf_data
pack_data xs n b =
    if magic_ok b && leb n (free_buf_size b) then some (use_buf (put_buf_data b xs n) n) else none

unfoldable pub unpack_data : ℕ → Unpacker Bytes
unfolding get_buf_data
unpack_data n b =
    if magic_ok b && leb n (used_buf_size b) then some (get_buf_data b n, free_buf b n) else none

abbrev pub array_size : ℕ → ℕ → ℕ
array_size len size = (int_to_size_t len * size) % size_t_mod

unfoldable pub pack_data_array : Bytes → ℕ → ℕ → Packer
unfolding put_buf_data
pack_data_array xs len size b =
    let n = array_size len size in
    if magic_ok b && leb ((n + sizeof_int) % size_t_mod) (free_buf_size b)
    then (let c = use_buf (put_buf_data b (encode sizeof_int len) sizeof_int) sizeof_int in
        some (use_buf (put_buf_data c xs n) n))
    else none

-- The length that was read goes through the pointer `len`, the bytes are in fresh memory.
unfoldable pub unpack_data_array : ℕ → Unpacker (ℕ × Bytes)
unfolding get_buf_data
unpack_data_array size b =
    if magic_ok b && leb sizeof_int (used_buf_size b)
    then (let len = decode (get_buf_data b sizeof_int) in
        let c = free_buf b sizeof_int in
        let n = array_size len size in
        if len == 0
        then some ((len, []), c)
        else if leb n (used_buf_size c)
        then some ((len, get_buf_data c n), free_buf c n)
        else none)
    else none

-- `strlen`: the bytes before the first zero.
unfoldable pub strlen : Bytes → ℕ
strlen [] = 0
strlen (x ∷ xs) = let rest = suc (strlen xs) in if x == 0 then 0 else rest

-- The macros on strings. `strlen + 1` becomes an `int`.
unfoldable pub pack_str : Bytes → Packer
pack_str xs = pack_data_array xs ((strlen xs + 1) % 2 ^ 32) 1

unfoldable pub unpack_str : Unpacker Bytes
unpack_str b = unpack_data_array 1 b >>= (λ r. some (r.0.1, r.1))

abbrev pub data_array_size : ℕ → ℕ → ℕ
data_array_size len size = len * size + sizeof_int

abbrev pub str_size : Bytes → ℕ
str_size xs = data_array_size (strlen xs + 1) 1
