-- ===== src/Buffer/Room.antt =====
-- common/buffer.h: what the free-space tests promise.
use native.Mathlib.Nat.{mod-eq_of_lt, mod-eq-sub-mod}
use cfio.Prelude.{
  ℕ, ◌+◌, ◌-◌, ◌%◌, ◌<◌, ◌≤◌, ◌≡◌, refl, subst, ◌∙◌, ap, ◌⊎◌, inl, inr, ◌≢◌, true, some, ltb, arith,
  Bool-cases,
}
use cfio.Buffer.{
  Buffer, size_t_mod, limit, left_space, use_buf, free_buf, free_buf_size, used_buf_size, enough,
  is_free_space_enough, check_used_addr, IsValid, HasRoom, skip_tail,
}

mod_sub : (x n : ℕ) → n ≤ x → x < n + n → x % n ≡ x - n
mod_sub x n lo hi =
    mod-eq-sub-mod {n = x} {m = n} lo ∙ mod-eq_of_lt {n = x - n} {m = n} (omega arith)

-- The two shapes of the free space.
pub free_buf_size_flat :
    {b : Buffer}
    → IsValid b
    → b.used_addr ≤ b.free_addr
    → free_buf_size b + (b.free_addr - b.used_addr) + 1 ≡ b.size
unfolding free_buf_size
free_buf_size_flat {b} v h = omega (
  arith,
  mod-eq_of_lt {n = b.size + b.used_addr - b.free_addr - 1} {m = b.size} (omega arith),
  ap (λ x. x % b.size)
      (let e : (size_t_mod + b.size + b.used_addr - b.free_addr - 1) % size_t_mod
            ≡ b.size + b.used_addr - b.free_addr - 1 =
          omega arith in
        e),
)

pub free_buf_size_round :
    {b : Buffer}
    → IsValid b
    → b.free_addr < b.used_addr
    → free_buf_size b + b.free_addr + 1 ≡ b.used_addr
unfolding free_buf_size
free_buf_size_round {b} v h = omega (
  arith,
  mod_sub (b.size + b.used_addr - b.free_addr - 1) b.size (omega arith) (omega arith),
  ap (λ x. x % b.size)
      (let e : (size_t_mod + b.size + b.used_addr - b.free_addr - 1) % size_t_mod
            ≡ b.size + b.used_addr - b.free_addr - 1 =
          omega arith in
        e),
)

pub use_buf-IsValid : {b : Buffer} (n : ℕ) → IsValid b → n ≤ left_space b → IsValid (use_buf b n)
unfolding use_buf
use_buf-IsValid n v h = ground arith

pub free_buf-IsValid : {b : Buffer} (n : ℕ) → IsValid b → n ≤ b.size → IsValid (free_buf b n)
unfolding free_buf
free_buf-IsValid n v h = ground arith

-- Taking `n` free bytes makes the free space exactly `n` smaller.
pub free_buf_size-use_buf :
    (b : Buffer) (n : ℕ)
    → IsValid b
    → HasRoom b n
    → free_buf_size (use_buf b n) + n ≡ free_buf_size b
unfolding use_buf
free_buf_size-use_buf b n v r = ground (
  arith,
  free_buf_size_flat v,
  free_buf_size_round v,
  free_buf_size_flat (unfold use_buf in use_buf-IsValid n v (omega arith)),
  free_buf_size_round (unfold use_buf in use_buf-IsValid n v (omega arith)),
)

pub use_buf-HasRoom :
    (b : Buffer) (k n : ℕ) → IsValid b → HasRoom b (k + n) → HasRoom (use_buf b k) n
unfolding use_buf
use_buf-HasRoom b k n v r = record {
  free =
      unfold use_buf in
      omega (
        arith,
        free_buf_size-use_buf b k v (record { free = omega arith; contiguous = omega arith }),
      );
  contiguous = ground arith;
}

-- In a valid buffer the used bytes, the free bytes and one byte that is never used make up the
-- size, whatever the pointers' order.
pub used-add-free : (b : Buffer) → IsValid b → used_buf_size b + free_buf_size b + 1 ≡ b.size
unfolding used_buf_size
used-add-free b v = ground (
  arith,
  free_buf_size_flat v,
  free_buf_size_round v,
  mod_sub (b.size + b.free_addr - b.used_addr) b.size,
  mod-eq_of_lt {n = b.size + b.free_addr - b.used_addr} {m = b.size},
  ap (λ x. x % b.size)
      (let e : (size_t_mod + b.size + b.free_addr - b.used_addr) % size_t_mod
            ≡ b.size + b.free_addr - b.used_addr =
          omega arith in
        e),
)

-- What `is_free_space_enough` leaves behind, whatever it answers: at most the skipped tail.
pub record Kept (b c : Buffer) : Type 0 where
  pub valid : IsValid c
  pub size : c.size ≡ b.size
  pub start : c.start_addr ≡ b.start_addr
  pub used : c.used_addr ≡ b.used_addr
  pub mem : c.mem ≡ b.mem

pub skip-Kept : (b : Buffer) → IsValid b → Kept b (use_buf b (left_space b))
unfolding use_buf
skip-Kept b v = record {
  valid = unfold use_buf in use_buf-IsValid (left_space b) v (omega arith);
  size = ground arith;
  start = ground arith;
  used = ground arith;
  mem = ground arith;
}

pub skip_free : (b : Buffer) → IsValid b → (use_buf b (left_space b)).free_addr ≡ b.start_addr
unfolding use_buf
skip_free b v = ground arith

skip_tail-Kept : (b : Buffer) (n : ℕ) → IsValid b → Kept b (skip_tail b n)
unfolding skip_tail
skip_tail-Kept b n v = elim (Bool-cases (ltb (left_space b) n)) [
  | inl e ↦ rw e (skip-Kept b v)
  | inr e ↦ rw e (record { valid = v; size = refl; start = refl; used = refl; mem = refl })
]

skip_tail_contiguous :
    (b : Buffer) (n : ℕ) → IsValid b → n ≤ free_buf_size b → (skip_tail b n).free_addr + n ≤ limit b
unfolding skip_tail
skip_tail_contiguous b n v h =
    ground (arith, skip_free b v, free_buf_size_flat v, free_buf_size_round v)

enough_skip_tail :
    (b : Buffer) (n : ℕ) {c : Buffer}
    → is_free_space_enough b n ≡ (enough, c)
    → (skip_tail b n ≡ c) × (n ≤ free_buf_size b) × (n ≤ free_buf_size (skip_tail b n))
unfolding is_free_space_enough
enough_skip_tail b n h = ground arith

-- When is_free_space_enough answers "enough" on a valid buffer, the buffer it leaves is valid and
-- has that many contiguous free bytes; only the free and end addresses may have moved.
pub enough-HasRoom :
    (b : Buffer) (n : ℕ) {c : Buffer}
    → IsValid b
    → is_free_space_enough b n ≡ (enough, c)
    → HasRoom c n × Kept b c
enough-HasRoom b n v h =
    let (same, first, second) = enough_skip_tail b n h in
    let k = skip_tail-Kept b n v in
    subst (λ c. HasRoom c n × Kept b c) same
      (
        record {
          free = second;
          contiguous = omega (arith, k.size, k.start, skip_tail_contiguous b n v first);
        },
        k,
      )

-- Whatever is_free_space_enough answers on a valid buffer, it leaves it valid, with the same
-- memory, size, start and used address.
pub is_free_space_enough-Kept :
    (b : Buffer) (n : ℕ) → IsValid b → Kept b (is_free_space_enough b n).1
unfolding is_free_space_enough
is_free_space_enough-Kept b n v = elim (Bool-cases (ltb (free_buf_size b) n)) [
  | inl e ↦ rw e (record { valid = v; size = refl; start = refl; used = refl; mem = refl })
  | inr e ↦ rw e (elim (Bool-cases (ltb (free_buf_size (skip_tail b n)) n)) [
    | inl f ↦ rw f (skip_tail-Kept b n v)
    | inr f ↦ rw f (skip_tail-Kept b n v)
  ])
]

-- On a valid buffer with contiguous room for the bytes that use_buf takes, check_used_addr then
-- finds each of those addresses in use.
pub use_buf-check_used :
    (b : Buffer) (n a : ℕ)
    → IsValid b
    → HasRoom b n
    → b.free_addr ≤ a
    → a < b.free_addr + n
    → check_used_addr a (use_buf b n) ≡ some true
unfolding use_buf check_used_addr
use_buf-check_used b n a v r lo hi = ground (arith, free_buf_size_flat v, free_buf_size_round v)

-- On a valid buffer that is not empty, with contiguous room for the bytes that use_buf takes, an
-- address in use stays in use and lies outside of the bytes taken.
pub use_buf_keeps_used :
    (b : Buffer) (n a : ℕ)
    → IsValid b
    → HasRoom b n
    → b.used_addr ≢ b.free_addr
    → check_used_addr a b ≡ some true
    → (check_used_addr a (use_buf b n) ≡ some true) × ((a < b.free_addr) ⊎ (b.free_addr + n ≤ a))
unfolding use_buf check_used_addr
use_buf_keeps_used b n a v r ne h = (
  ground (arith, free_buf_size_flat v, free_buf_size_round v),
  ground (arith, free_buf_size_flat v, free_buf_size_round v),
)
