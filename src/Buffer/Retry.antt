-- ===== src/Buffer/Retry.antt =====
-- common/buffer.h: what becomes of a message that did not fit, and of `end_addr`.
use cfio.Prelude.{
  ℕ, ◌+◌, ◌<◌, ◌≤◌, ◌≡◌, refl, ◌⊎◌, inl, inr, ◌≢◌, true, false, some, if◌then◌else◌, arith,
  Bool-cases, ==_iff,
}
use cfio.Buffer.{
  Buffer, limit, left_space, use_buf, free_buf_size, skip_tail, enough, not_enough,
  is_free_space_enough, check_used_addr, IsValid, HasRoom, reset, is_empty,
}
use cfio.Buffer.Wait.{free_buf_size-lt}
use cfio.Buffer.Room.{free_buf_size_flat, free_buf_size_round, use_buf-check_used}

-- A test that fails leaves the buffer alone, or has moved the free space to the start.
not_enough_cases :
    (b : Buffer) (n : ℕ)
    → IsValid b
    → (is_free_space_enough b n).0 ≡ not_enough
    → let c = (is_free_space_enough b n).1 in
      ((free_buf_size b < n) × (c ≡ b))
      ⊎ ((n ≤ free_buf_size b) × (left_space b < n) × (c ≡ use_buf b (left_space b)))
unfolding is_free_space_enough skip_tail
not_enough_cases b n v h = ground arith

enough_of_room :
    (b : Buffer) (n : ℕ)
    → n ≤ free_buf_size b
    → n ≤ left_space b
    → (is_free_space_enough b n).0 ≡ enough
unfolding is_free_space_enough skip_tail
enough_of_room b n h k = ground arith

-- What the receiver does before it tests for space: an empty buffer starts afresh.
abbrev pub restart : Buffer → Buffer
restart b = if is_empty b then reset b else b

reset-enough :
    (b : Buffer) (n : ℕ) → IsValid b → n < b.size → (is_free_space_enough (reset b) n).0 ≡ enough
reset-enough b n v h =
    let r : IsValid (reset b) = omega arith in
    enough_of_room (reset b) n (omega (arith, free_buf_size_flat r)) (omega arith)

-- The reader consumes all that was in the buffer, up to where its last message ended.
abbrev pub drain : Buffer → Buffer → Buffer
drain b c = record c { used_addr = b.free_addr }

skipped_drain :
    (b : Buffer) (n : ℕ)
    → IsValid b
    → left_space b < n
    → n < b.size
    → let d = drain b (use_buf b (left_space b)) in
      IsValid d × (d.free_addr ≡ b.start_addr) × (d.size ≡ b.size) × (d.start_addr ≡ b.start_addr)
unfolding use_buf
skipped_drain b n v h k = (ground arith, ground arith, ground arith, ground arith)

-- When a valid buffer refuses a message that is not empty and at most half the buffer long, then
-- after the reader has consumed all that was in the buffer the next attempt finds room.
pub drained-enough :
    (b : Buffer) (n : ℕ)
    → IsValid b
    → 0 < n
    → n + n ≤ b.size
    → (is_free_space_enough b n).0 ≡ not_enough
    → (is_free_space_enough (restart (drain b (is_free_space_enough b n).1)) n).0 ≡ enough
drained-enough b n v pos half h = elim (not_enough_cases b n v h) [
  | inl (few, same) ↦
      rw (same, (==_iff b.free_addr b.free_addr).1 refl)
        (reset-enough (drain b b) n (omega arith) (omega arith))
  | inr (many, short, moved) ↦
      let (w, at, sz, st) = skipped_drain b n v short (omega arith) in
      let d = drain b (use_buf b (left_space b)) in
      rw moved (elim (Bool-cases (is_empty d)) [
        | inl e ↦ rw e (reset-enough d n w (omega arith))
        | inr e ↦ rw e (
            enough_of_room d n (omega (arith, free_buf_size_round w, free_buf_size_flat w))
              (omega arith))
      ])
]

refused : (b : Buffer) (n : ℕ) → free_buf_size b < n → is_free_space_enough b n ≡ (not_enough, b)
unfolding is_free_space_enough
refused b n h = ground arith

-- A message that a valid buffer refuses, though as many bytes are free in all, since the space
-- behind the last message is too short, is refused again after the reader has consumed everything,
-- if the last message ended above the start and no further from it than the message is long; the
-- second refusal leaves the buffer as it is.
pub drained_stuck :
    (b : Buffer) (n : ℕ)
    → IsValid b
    → n ≤ free_buf_size b
    → left_space b < n
    → b.free_addr ≤ b.start_addr + n
    → b.start_addr < b.free_addr
    → (is_free_space_enough b n).0 ≡ not_enough
    → let d = restart (drain b (is_free_space_enough b n).1) in
      is_free_space_enough d n ≡ (not_enough, d)
drained_stuck b n v fits short low away h = elim (not_enough_cases b n v h) [
  | inl (few, same) ↦ absurd (omega arith)
  | inr (many, _, moved) ↦
      let (w, at, sz, st) = skipped_drain b n v short (omega (arith, free_buf_size-lt b v)) in
      let d = drain b (use_buf b (left_space b)) in
      let e : is_empty d ≡ false = ground arith in
      rw (moved, e) (refused d n (omega (arith, free_buf_size_round w)))
]

-- When use_buf takes contiguous room that ends exactly at the end of a valid buffer, each address
-- taken is in use but lies at or behind end_addr.
pub exact_fit-end_addr :
    (b : Buffer) (n a : ℕ)
    → IsValid b
    → HasRoom b n
    → b.free_addr + n ≡ limit b
    → b.free_addr ≤ a
    → a < limit b
    → (check_used_addr a (use_buf b n) ≡ some true) × ((use_buf b n).end_addr ≤ a)
unfolding use_buf
exact_fit-end_addr b n a v r e lo hi =
    (unfold use_buf in use_buf-check_used b n a v r lo (omega arith), ground arith)

-- When a valid buffer that is not empty skips its tail, and more bytes are free than the tail has,
-- each address that was in use stays in use and lies between used_addr and end_addr.
pub skip-end_addr :
    (b : Buffer) (a : ℕ)
    → IsValid b
    → left_space b < free_buf_size b
    → b.used_addr ≢ b.free_addr
    → check_used_addr a b ≡ some true
    → let c = use_buf b (left_space b) in
      (check_used_addr a c ≡ some true) × (b.used_addr ≤ a) × (a < c.end_addr)
unfolding use_buf check_used_addr
skip-end_addr b a v h ne u = (
  ground (arith, free_buf_size_flat v, free_buf_size_round v),
  ground (arith, free_buf_size_flat v, free_buf_size_round v),
  ground (arith, free_buf_size_flat v, free_buf_size_round v),
)
