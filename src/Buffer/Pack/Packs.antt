-- ===== src/Buffer/Pack/Packs.antt =====
-- common/buffer.c: a packing step that has room appends its bytes and nothing else.
use cfio.Prelude.{
  ℕ, zero, suc, ◌+◌, ◌*◌, ◌%◌, ◌^◌, ◌<◌, ◌≡◌, refl, sym, subst, ◌∙◌, ap, true, some, ltb, leb,
  arith, [], ◌∷◌, ◌++◌, length, length-append, append-nil, take, take-length,
}
use native.Mathlib.Nat.{mod-eq_of_lt}
use cfio.Memory.{Bytes, Memory, store, encode}
use cfio.Memory.Laws.{store-append, length-encode}
use cfio.Buffer.{Buffer, use_buf, free_buf_size, IsValid, HasRoom, size_t_mod, magic_ok}
use cfio.Buffer.Room.{use_buf-IsValid, use_buf-HasRoom}
use cfio.Buffer.Wait.{free_buf_size-lt}
use cfio.Buffer.Pack.{
  Packer, ◌▹◌, pack_data, pack_data_array, pack_str, put_buf_data, strlen, array_size,
}

-- `c` is `b` with the bytes `xs` appended, and room for `m` more.
pub record Packed (b c : Buffer) (xs : Bytes) (m : ℕ) : Type 0 where
  pub valid : IsValid c
  pub room : HasRoom c m
  pub mem : c.mem ≡ store b.mem b.free_addr xs
  pub next : 0 < m → c.free_addr ≡ b.free_addr + length xs
  pub used : c.used_addr ≡ b.used_addr
  pub size : c.size ≡ b.size
  pub start : c.start_addr ≡ b.start_addr

abbrev pub Packs : Packer → Bytes → Type 0
Packs p xs =
    (b : Buffer) (m : ℕ)
    → IsValid b
    → HasRoom b (length xs + m)
    → (c : Buffer) × (p b ≡ some c) × Packed b c xs m

put_buf_data_lem :
    (b : Buffer) (xs : Bytes) (n : ℕ)
    → n ≡ length xs
    → put_buf_data b xs n ≡ record b { mem = store b.mem b.free_addr xs }
unfolding put_buf_data store
put_buf_data_lem b [] zero e = refl
put_buf_data_lem b [] (suc n) e = absurd (omega arith)
put_buf_data_lem b (x ∷ xs) zero e = absurd (omega arith)
put_buf_data_lem b (x ∷ xs) (suc n) e =
    let same : take (suc n) (x ∷ xs) ≡ x ∷ xs = take-length (x ∷ xs) (suc n) e in
    rw same (ground arith)

pub HasRoom-mem : (b : Buffer) (m : Memory) {n : ℕ} → HasRoom b n → HasRoom (record b { mem = m }) n
unfolding free_buf_size
HasRoom-mem b m r = record { free = r.free; contiguous = r.contiguous }

use_buf-Packed :
    (b : Buffer) (xs : Bytes) (k : ℕ)
    → IsValid b
    → HasRoom b (length xs + k)
    → let c = use_buf b (length xs) in
      (0 < k → c.free_addr ≡ b.free_addr + length xs)
      × (c.mem ≡ b.mem)
      × (c.used_addr ≡ b.used_addr)
      × (c.size ≡ b.size)
      × (c.start_addr ≡ b.start_addr)
unfolding use_buf
use_buf-Packed b xs k v r =
    (λ pos. ground arith, ground arith, ground arith, ground arith, ground arith)

-- What one copy and one move of `free_addr` do.
pub store_use :
    (b : Buffer) (xs : Bytes) (n m : ℕ)
    → IsValid b
    → n ≡ length xs
    → HasRoom b (length xs + m)
    → Packed b (use_buf (record b { mem = store b.mem b.free_addr xs }) n) xs m
store_use b xs n m v e r =
    let p = record b { mem = store b.mem b.free_addr xs } in
    let w : IsValid p = omega arith in
    let room = HasRoom-mem b (store b.mem b.free_addr xs) r in
    let (next, mem, used, size, start) = use_buf-Packed p xs m w room in
    rw e (record {
      valid = use_buf-IsValid (length xs) w (omega arith);
      room = use_buf-HasRoom p (length xs) m w room;
      mem = mem;
      next = next;
      used = used;
      size = size;
      start = start;
    })

put_use :
    (b : Buffer) (xs : Bytes) (n m : ℕ)
    → IsValid b
    → n ≡ length xs
    → HasRoom b (length xs + m)
    → Packed b (use_buf (put_buf_data b xs n) n) xs m
put_use b xs n m v e r = rw (put_buf_data_lem b xs n e) (store_use b xs n m v e r)

-- Steps one after the other append their bytes one after the other.
Packed-trans :
    {b c d : Buffer} (xs ys : Bytes) (m : ℕ)
    → Packed b c xs (length ys + m)
    → Packed c d ys m
    → Packed b d (xs ++ ys) m
unfolding store
Packed-trans {b} {c} {d} xs ys m p q = record {
  valid = q.valid;
  room = q.room;
  mem = q.mem ∙ rest ys p q;
  next = λ pos. q.next pos ∙ omega (arith, p.next (omega arith), length-append xs ys);
  used = q.used ∙ p.used;
  size = q.size ∙ p.size;
  start = q.start ∙ p.start;
}
  where
    rest :
        (ys : Bytes)
        → Packed b c xs (length ys + m)
        → Packed c d ys m
        → store c.mem c.free_addr ys ≡ store b.mem b.free_addr (xs ++ ys)
    rest [] p q = p.mem ∙ ap (store b.mem b.free_addr) (sym (append-nil xs))
    rest (y ∷ ys) p q =
        rw (p.mem, p.next (omega arith)) (sym (store-append b.mem b.free_addr xs (y ∷ ys)))

pub ▹-Packs : {p q : Packer} (xs ys : Bytes) → Packs p xs → Packs q ys → Packs (p ▹ q) (xs ++ ys)
▹-Packs xs ys f g b m v r =
    let (c, run, p) =
      f b (length ys + m) v (subst (HasRoom b) (omega (arith, length-append xs ys)) r) in
    let (d, run', q) = g c m p.valid p.room in (d, rw run run', Packed-trans xs ys m p q)

pub magic_ok_lem : (b : Buffer) → IsValid b → magic_ok b ≡ true
magic_ok_lem b v = ground arith

-- `cfio_buf_pack_data` appends the data.
pub pack_data-Packs : (xs : Bytes) (n : ℕ) → n ≡ length xs → Packs (pack_data xs n) xs
unfolding pack_data
pack_data-Packs xs n e b m v r =
    let fits : leb n (free_buf_size b) ≡ true = ground arith in
    (use_buf (put_buf_data b xs n) n, rw (magic_ok_lem b v, fits), put_use b xs n m v e r)

pub array_size-eq :
    (len size k : ℕ) → len < 2 ^ 31 → len * size ≡ k → k < 2 ^ 64 → array_size len size ≡ k
array_size-eq len size k small e h =
    let t : ltb len (2 ^ 31) ≡ true = ground arith in rw (t, e) (mod-eq_of_lt h)

-- When the elements' bytes are as many as the length, below 2 ^ 31, and the element size say, and
-- a valid buffer has contiguous room for length, elements and m more bytes,
-- cfio_buf_pack_data_array passes its assertion, appends the length as an int and the elements,
-- and leaves a valid buffer with room for the m bytes.
pub pack_data_array-Packs :
    (xs : Bytes) (len size : ℕ)
    → len < 2 ^ 31
    → len * size ≡ length xs
    → (b : Buffer) (m : ℕ) → IsValid b
    → HasRoom b (length (encode 4 len ++ xs) + m)
    → (c : Buffer) × (pack_data_array xs len size b ≡ some c) × Packed b c (encode 4 len ++ xs) m
unfolding pack_data_array
pack_data_array-Packs xs len size small e b m v r =
    let l4 : 4 ≡ length (encode 4 len) = sym (length-encode 4 len) in
    let total : length (encode 4 len ++ xs) ≡ 4 + length xs =
      omega (arith, length-append (encode 4 len) xs) in
    let n : array_size len size ≡ length xs =
      array_size-eq len size (length xs) small e (omega (arith, free_buf_size-lt b v)) in
    let fits : leb ((length xs + 4) % size_t_mod) (free_buf_size b) ≡ true =
      ground (arith, free_buf_size-lt b v) in
    let p = put_use b (encode 4 len) 4 (length xs + m) v l4 (subst (HasRoom b) (omega (arith)) r) in
    let q =
      put_use (use_buf (put_buf_data b (encode 4 len) 4) 4) xs (length xs) m p.valid refl p.room in
    (
      use_buf (put_buf_data (use_buf (put_buf_data b (encode 4 len) 4) 4) xs (length xs))
          (length xs),
      rw (n, magic_ok_lem b v, fits),
      Packed-trans (encode 4 len) xs m p q,
    )

-- The bytes of a C string: as many as `strlen` counts, and the final zero.
pub record IsCString (xs : Bytes) : Type 0 where
  pub ends : length xs ≡ strlen xs + 1
  pub small : strlen xs + 1 < 2 ^ 31

pub pack_str-Packs :
    (xs : Bytes) → IsCString xs → Packs (pack_str xs) (encode 4 (strlen xs + 1) ++ xs)
unfolding pack_str
pack_str-Packs xs s =
    let e : (strlen xs + 1) % 2 ^ 32 ≡ strlen xs + 1 = omega arith in
    rw e (pack_data_array-Packs xs (strlen xs + 1) 1 s.small (omega arith))
