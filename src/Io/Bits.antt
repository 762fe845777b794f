-- ===== src/Io/Bits.antt =====
-- Bytes bit by bit. The facts about one byte are checked over all of its values.
use Prim.Native.Nat.{bit_or}
use cfio.Prelude.{
  ◌↔◌, ℕ, zero, suc, ◌-◌, ◌/◌, ◌%◌, ◌^◌, ◌<◌, ◌≤◌, ◌≡◌, refl, Bool, true, false, ◌==◌, ==_iff,
  if◌then◌else◌, ltb, arith,
}

abbrev pub bit : ℕ → ℕ → ℕ
bit byte k = byte / 2 ^ k % 2

checked : (ℕ → Bool) → ℕ → Bool
checked test zero = true
checked test (suc range) = let rest = checked test range in if test range then rest else false

checked_at :
    (test : ℕ → Bool) (range value : ℕ)
    → value < range
    → checked test range ≡ true
    → test value ≡ true
unfolding checked
checked_at test zero value below all = absurd (omega arith)
checked_at test (suc range) value below all = ground (arith, checked_at test range value)

or_row : ℕ → ℕ → ℕ → Bool
or_row b j k = bit (bit_or b (2 ^ j) % 256) k == (if k == j then 1 else bit b k)

or_table : checked (λ b. checked (λ j. checked (or_row b j) 8) 8) 256 ≡ true
unfolding checked or_row
or_table = refl

-- Setting a bit sets it, and leaves the others alone.
pub bit-or :
    (b j k : ℕ)
    → b < 256
    → j < 8
    → k < 8
    → bit (bit_or b (2 ^ j) % 256) k ≡ (if k == j then 1 else bit b k)
unfolding or_row
bit-or b j k hb hj hk = (==_iff _ _).0 (
    checked_at (or_row b j) 8 k hk (
      checked_at (λ j. checked (or_row b j) 8) 8 j hj
        (checked_at (λ b. checked (λ j. checked (or_row b j) 8) 8) 256 b hb or_table)))

small_row : ℕ → ℕ → ℕ → Bool
small_row b t j =
    if ltb b (2 ^ t) then (if ltb j t then ltb (bit_or b (2 ^ j) % 256) (2 ^ t) else true) else true

small_table : checked (λ b. checked (λ t. checked (small_row b t) 8) 9) 256 ≡ true
unfolding checked small_row
small_table = refl

pub or_small : (b t j : ℕ) → b < 256 → t ≤ 8 → b < 2 ^ t → j < t → bit_or b (2 ^ j) % 256 < 2 ^ t
unfolding small_row
or_small b t j hb ht bt jt =
    let row = checked_at (small_row b t) 8 j (omega arith) (
      checked_at (λ t. checked (small_row b t) 8) 9 t (omega arith)
        (checked_at (λ b. checked (λ t. checked (small_row b t) 8) 9) 256 b hb small_table)) in
    ground arith

checked_all :
    (test : ℕ → Bool) (range : ℕ)
    → ((value : ℕ) → value < range → test value ≡ true)
    → checked test range ≡ true
unfolding checked
checked_all test zero each = refl
checked_all test (suc range) each =
    rw (each range (omega arith)) (checked_all test range (λ value below. each value (omega arith)))

ones : ℕ → ℕ → Bool
ones b k = bit b k == 1

full_row : ℕ → ℕ → Bool
full_row b t =
    if ltb b (2 ^ t)
    then (if b == 2 ^ t - 1
        then checked (ones b) t
        else (if checked (ones b) t then false else true))
    else true

full_table : checked (λ b. checked (full_row b) 9) 256 ≡ true
unfolding checked full_row ones
full_table = refl

full_lem : (b t : ℕ) → b < 256 → t ≤ 8 → full_row b t ≡ true
full_lem b t hb ht =
    checked_at (full_row b) 9 t (omega arith)
      (checked_at (λ b. checked (full_row b) 9) 256 b hb full_table)

-- The largest number of `t` bits is the one whose `t` bits are all set.
pub full_bits :
    (b t : ℕ) → b < 256 → t ≤ 8 → b < 2 ^ t → (b ≡ 2 ^ t - 1) ↔ ((k : ℕ) → k < t → bit b k ≡ 1)
unfolding full_row
full_bits b t hb ht bt =
    let row : full_row b t ≡ true = full_lem b t hb ht in
    (
      λ e k hk.
          let all : checked (ones b) t ≡ true = ground arith in
          unfold ones in ((==_iff (bit b k) 1).0 (checked_at (ones b) t k hk all)),
      λ h.
          let all : checked (ones b) t ≡ true =
            checked_all (ones b) t (λ k hk. unfold ones in ((==_iff (bit b k) 1).1 (h k hk))) in
          ground arith,
    )
