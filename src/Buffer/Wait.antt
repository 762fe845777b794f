-- ===== src/Buffer/Wait.antt =====
-- common/buffer.h: `ensure_free_space`, which waits for its callback to release bytes.
use cfio.Prelude.{
  ℕ, zero, suc, ◌+◌, ◌<◌, ◌≤◌, ◌≡◌, refl, ◌∙◌, inl, inr, some, ltb, if◌then◌else◌, arith,
  Bool-cases,
}
use cfio.Memory.{Memory}
use cfio.Buffer.{
  Buffer, left_space, use_buf, free_buf_size, wait_space, ensure_free_space, IsValid, HasRoom,
}
use cfio.Buffer.Room.{skip-Kept, skip_free, free_buf_size_flat, free_buf_size_round}

-- What the callback may do: move `used_addr`, and nothing else.
pub record Released (b c : Buffer) : Type 0 where
  pub valid : IsValid c
  pub size : c.size ≡ b.size
  pub start : c.start_addr ≡ b.start_addr
  pub free : c.free_addr ≡ b.free_addr
  pub mem : c.mem ≡ b.mem

-- What `ensure_free_space` relies on: a call of the callback releases at least one byte, unless
-- the buffer is empty, when all bytes but one are free.
pub record Releases (release : Buffer → Buffer) : Type 0 where
  pub keeps : (b : Buffer) → IsValid b → Released b (release b)
  pub frees :
      (b : Buffer)
      → IsValid b
      → free_buf_size b + 1 < b.size
      → free_buf_size b < free_buf_size (release b)

pub Released-refl : (b : Buffer) → IsValid b → Released b b
Released-refl b v = record { valid = v; size = refl; start = refl; free = refl; mem = refl }

Released-trans : {b c d : Buffer} → Released b c → Released c d → Released b d
Released-trans p q = record {
  valid = q.valid;
  size = q.size ∙ p.size;
  start = q.start ∙ p.start;
  free = q.free ∙ p.free;
  mem = q.mem ∙ p.mem;
}

pub free_buf_size-lt : (b : Buffer) → IsValid b → free_buf_size b < b.size
free_buf_size-lt b v = ground (arith, free_buf_size_flat v, free_buf_size_round v)

module _ (release : Buffer → Buffer) (rel : Releases release) where
  wait_space_lem :
      (fuel : ℕ) (b : Buffer) (n : ℕ)
      → IsValid b
      → n < b.size
      → b.size ≤ free_buf_size b + fuel
      → (c : Buffer) × (wait_space fuel release b n ≡ some c) × Released b c × (n ≤ free_buf_size c)
  unfolding wait_space
  wait_space_lem zero b n v h f = absurd (omega (arith, free_buf_size-lt b v))
  wait_space_lem (suc fuel) b n v h f = elim (Bool-cases (ltb (free_buf_size b) n)) [
    | inl e ↦
        let k = rel.keeps b v in
        let more : free_buf_size b < free_buf_size (release b) = rel.frees b v (ground arith) in
        let (c, run, q, room) =
          wait_space_lem fuel (release b) n k.valid (omega (arith, k.size))
            (omega (arith, k.size)) in
        (c, rw e run, Released-trans k q, room)
    | inr e ↦ (b, rw e, Released-refl b v, ground arith)
  ]

  abbrev Made : ℕ → Buffer → ℕ → (Memory) → Type 0
  Made fuel c n m =
      (d : Buffer) × (wait_space fuel release c n ≡ some d) × IsValid d × HasRoom d n × (d.mem ≡ m)

  skip_wait :
      (fuel : ℕ) (c : Buffer) (n : ℕ) (m : Memory)
      → IsValid c
      → n < c.size
      → c.size ≤ fuel
      → c.mem ≡ m
      → Made fuel (use_buf c (left_space c)) n m
  skip_wait fuel c n m v h f e =
      let s = skip-Kept c v in
      let (d, run, r, enough) =
        wait_space_lem fuel (use_buf c (left_space c)) n s.valid (omega (arith, s.size))
          (omega (arith, s.size)) in
      (
        d,
        run,
        r.valid,
        record {
          free = enough;
          contiguous = omega (
            arith,
            r.free,
            r.size,
            r.start,
            s.size,
            s.start,
            skip_free c v,
            free_buf_size-lt d r.valid,
          );
        },
        r.mem ∙ s.mem ∙ e,
      )

  stay_wait :
      (fuel : ℕ) (c : Buffer) (n : ℕ) (m : Memory)
      → IsValid c
      → n < c.size
      → c.size ≤ fuel
      → c.mem ≡ m
      → n ≤ left_space c
      → Made fuel c n m
  stay_wait fuel c n m v h f e l =
      let (d, run, r, enough) = wait_space_lem fuel c n v h (omega arith) in
      (
        d,
        run,
        r.valid,
        record { free = enough; contiguous = omega (arith, r.free, r.size, r.start) },
        r.mem ∙ e,
      )

  -- The second loop, after the tail that the buffer had before the first may have been skipped.
  second_wait :
      (fuel : ℕ) (b c : Buffer) (n : ℕ)
      → Released b c
      → n < b.size
      → b.size ≤ fuel
      → Made fuel (if ltb (left_space b) n then use_buf c (left_space b) else c) n b.mem
  second_wait fuel b c n q h f =
      let left : left_space b ≡ left_space c = omega (arith, q.size, q.start, q.free) in
      rw left (elim (Bool-cases (ltb (left_space c) n)) [
        | inl e ↦
            rw e (
              skip_wait fuel c n b.mem q.valid (omega (arith, q.size)) (omega (arith, q.size))
                q.mem)
        | inr e ↦ rw e (
            stay_wait fuel c n b.mem q.valid (omega (arith, q.size)) (omega (arith, q.size)) q.mem
              (ground arith))
      ])

  -- On a valid buffer that is larger than the size asked for, with a callback that releases at
  -- least a byte while any is in use, ensure_free_space ends within as many rounds as the buffer
  -- has bytes, and leaves a valid buffer with that many contiguous free bytes and unchanged
  -- memory.
  pub ensure_free_space-HasRoom :
      (fuel : ℕ) (b : Buffer) (n : ℕ)
      → IsValid b
      → n < b.size
      → b.size ≤ fuel
      → (c : Buffer) × (ensure_free_space fuel release b n ≡ some c)
        × IsValid c
        × HasRoom c n
        × (c.mem ≡ b.mem)
  unfolding ensure_free_space
  ensure_free_space-HasRoom fuel b n v h f =
      let (c, run, q, room) = wait_space_lem fuel b n v h (omega arith) in
      rw run (second_wait fuel b c n q h f)
