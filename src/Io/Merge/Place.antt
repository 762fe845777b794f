-- ===== src/Io/Merge/Place.antt =====
-- server/io.c: the places of a block's elements in the merged array.
use native.Mathlib.Nat.{
  mod-eq_of_lt, zero-mod, zero-div, add-mul-div_right, add-mul-mod_self_right, div-eq_of_lt, mod-lt,
}
use cfio.Prelude.{
  ℕ, ◌+◌, ◌-◌, ◌*◌, ◌/◌, ◌%◌, ◌^◌, ◌<◌, ◌≤◌, ◌≡◌, refl, ◌∙◌, ap, ◌⊎◌, inl, inr, true, List, [], ◌∷◌,
  ltb, arith,
}
use cfio.Buffer.{size_t_mod}
use cfio.Io.Merge.{Axis, rounds, src_len, dst_offset, zeros}
use cfio.Io.Merge.Digits.{digits, offset, elements, room, Inside, elements_pos, mul_le, quotient_lt}
use cfio.Io.Merge.Copy.{Apart}

-- The merged array covers the block, which is not empty.
abbrev pub Covers : List Axis → Type 0
Covers [] = Unit
Covers (a ∷ dims) =
    (0 < a.src_count)
    × (a.dst_start ≤ a.src_start)
    × (a.src_start + a.src_count ≤ a.dst_start + a.dst_count)
    × Covers dims

-- An index into the block.
abbrev pub InBlock : List Axis → List ℕ → Type 0
InBlock [] [] = Unit
InBlock [] (i ∷ index) = ⊥
InBlock (a ∷ dims) [] = ⊥
InBlock (a ∷ dims) (i ∷ index) = (i < a.src_count) × InBlock dims index

-- The number of the element with this index in the block, and that of its place in the merged array:
-- both arrays have their elements in the order of the indices, the last dimension changing first.
abbrev pub src_position : List Axis → List ℕ → ℕ
src_position [] index = 0
src_position (a ∷ dims) [] = 0
src_position (a ∷ dims) (i ∷ index) = i + a.src_count * src_position dims index

abbrev pub dst_position : List Axis → List ℕ → ℕ
dst_position [] index = 0
dst_position (a ∷ dims) [] = 0
dst_position (a ∷ dims) (i ∷ index) =
    (a.src_start + i - a.dst_start) + a.dst_count * dst_position dims index

pub Covers-Inside : (dims : List Axis) → Covers dims → Inside dims
Covers-Inside [] c = c
Covers-Inside (a ∷ dims) (pos, low, high, c) = (pos, omega arith, Covers-Inside dims c)

-- Where the block's first element goes.
abbrev pub shift : List Axis → ℕ
shift [] = 0
shift (a ∷ dims) = (a.src_start - a.dst_start) + a.dst_count * shift dims

pub offset_place :
    (sub : ℕ) (dims : List Axis) (n : ℕ)
    → Covers dims
    → sub * shift dims + offset sub dims n ≡ sub * dst_position dims (digits dims n)
offset_place sub [] n c = omega arith
offset_place sub (a ∷ dims) n (pos, low, high, c) =
    let ih = offset_place (sub * a.dst_count) dims (n / a.src_count) c in
    let d : a.src_start + n % a.src_count - a.dst_start
        ≡ (a.src_start - a.dst_start) + n % a.src_count =
      omega arith in
    rw d (grind arith)

pub place-room :
    (sub : ℕ) (dims : List Axis) (n : ℕ)
    → Covers dims
    → n < elements dims
    → sub * dst_position dims (digits dims n) + sub ≤ room sub dims
place-room sub [] n c h = omega arith
place-room sub (a ∷ dims) n (pos, low, high, c) h =
    let s = a.src_count in
    let ih =
      place-room (sub * a.dst_count) dims (n / s) c (quotient_lt n s (elements dims) h pos) in
    let digit : n % s < s = mod-lt n pos in
    let row : (a.src_start + n % s - a.dst_start + 1) * sub ≤ a.dst_count * sub =
      mul_le (a.src_start + n % s - a.dst_start + 1) a.dst_count sub (omega arith) in
    grind arith

pub digits-InBlock : (dims : List Axis) (n : ℕ) → Inside dims → InBlock dims (digits dims n)
digits-InBlock [] n i = i
digits-InBlock (a ∷ dims) n (pos, _, i) = (mod-lt n pos, digits-InBlock dims (n / a.src_count) i)

pub digits-src_position :
    (dims : List Axis) (index : List ℕ)
    → InBlock dims index
    → digits dims (src_position dims index) ≡ index
digits-src_position [] [] b = refl
digits-src_position [] (i ∷ index) b = absurd b
digits-src_position (a ∷ dims) [] b = absurd b
digits-src_position (a ∷ dims) (i ∷ index) (lt, b) =
    let p = src_position dims index in
    let e : i + a.src_count * p ≡ i + p * a.src_count = grind arith in
    let pos : 0 < a.src_count = omega arith in
    let m : (i + p * a.src_count) % a.src_count ≡ i =
      add-mul-mod_self_right i p a.src_count ∙ mod-eq_of_lt lt in
    let d : (i + p * a.src_count) / a.src_count ≡ p =
      add-mul-div_right i p pos ∙ omega (arith, div-eq_of_lt lt) in
    rw (e, m, d) (ap (λ r. i ∷ r) (digits-src_position dims index b))

pub src_position-lt :
    (dims : List Axis) (index : List ℕ)
    → InBlock dims index
    → src_position dims index < elements dims
src_position-lt [] [] b = omega arith
src_position-lt [] (i ∷ index) b = absurd b
src_position-lt (a ∷ dims) [] b = absurd b
src_position-lt (a ∷ dims) (i ∷ index) (lt, b) =
    let p = src_position dims index in
    let row : (p + 1) * a.src_count ≤ elements dims * a.src_count =
      mul_le (p + 1) (elements dims) a.src_count (omega (arith, src_position-lt dims index b)) in
    grind arith

-- The sizes that `_put_var` computes fit in a word.
pub elements-room : (ele : ℕ) (dims : List Axis) → Inside dims → ele * elements dims ≤ room ele dims
elements-room ele [] i = omega arith
elements-room ele (a ∷ dims) (pos, le, i) =
    let ih = elements-room (ele * a.dst_count) dims i in
    let row : ele * a.src_count * elements dims ≤ ele * a.dst_count * elements dims =
      mul_le (ele * a.src_count) (ele * a.dst_count) (elements dims) (grind arith) in
    grind arith

pub src_len-elements :
    (len : ℕ) (dims : List Axis)
    → Inside dims
    → len * elements dims < 2 ^ 64
    → src_len len dims ≡ len * elements dims
unfolding src_len
src_len-elements len [] i fits = omega arith
src_len-elements len (a ∷ dims) (pos, _, i) fits =
    let p = elements_pos dims i in
    let all : len * a.src_count * elements dims < 2 ^ 64 = grind arith in
    let part : len * a.src_count * 1 ≤ len * a.src_count * elements dims = grind arith in
    let w : (len * a.src_count) % size_t_mod ≡ len * a.src_count = mod-eq_of_lt (omega arith) in
    rw w (src_len-elements (len * a.src_count) dims i all ∙ grind arith)

pub shift-room : (sub : ℕ) (dims : List Axis) → Covers dims → sub * shift dims + sub ≤ room sub dims
shift-room sub [] c = omega arith
shift-room sub (a ∷ dims) (pos, low, high, c) =
    let ih = shift-room (sub * a.dst_count) dims c in
    let row : (a.src_start - a.dst_start + 1) * sub ≤ a.dst_count * sub =
      mul_le (a.src_start - a.dst_start + 1) a.dst_count sub (omega arith) in
    grind arith

wrapped_difference : (s d : ℕ) → d ≤ s → s - d < 2 ^ 64 → (size_t_mod + s - d) % size_t_mod ≡ s - d
wrapped_difference s d le lt =
    let e : size_t_mod + s - d ≡ s - d + size_t_mod = omega arith in
    omega (arith, ap (λ x. x % size_t_mod) e, mod-eq_of_lt lt)

pub dst_offset-shift :
    (sub off : ℕ) (dims : List Axis)
    → Covers dims
    → 0 < sub
    → room sub dims < 2 ^ 64
    → off + sub * shift dims < 2 ^ 64
    → dst_offset sub off dims ≡ off + sub * shift dims
unfolding dst_offset
dst_offset-shift sub off [] c pos fits end = omega arith
dst_offset-shift sub off (a ∷ dims) (count, low, high, c) pos fits end =
    let d = a.src_start - a.dst_start in
    let all = shift-room (sub * a.dst_count) dims c in
    let row : (d + 1) * sub ≤ a.dst_count * sub = mul_le (d + 1) a.dst_count sub (omega arith) in
    let unit : d * 1 ≤ d * sub = grind arith in
    let size : sub * a.dst_count ≤ room (sub * a.dst_count) dims = omega (arith, all) in
    let row_size : d * sub + sub ≤ sub * a.dst_count = grind arith in
    let w : (sub * a.dst_count) % size_t_mod ≡ sub * a.dst_count = mod-eq_of_lt (omega arith) in
    let wd = wrapped_difference a.src_start a.dst_start low (omega arith) in
    let wm : (d * sub) % size_t_mod ≡ d * sub = mod-eq_of_lt (omega arith) in
    let step : off + d * sub + sub * a.dst_count * shift dims
        ≡ off + sub * (d + a.dst_count * shift dims) =
      grind arith in
    let wo : (off + d * sub) % size_t_mod ≡ off + d * sub = mod-eq_of_lt (omega (arith, step)) in
    rw (w, wd, wm, wo)
      (dst_offset-shift (sub * a.dst_count) (off + d * sub) dims c (omega arith) fits
          (omega (arith, step))
        ∙ step)

pub zeros-digits : (dims : List Axis) → zeros dims ≡ digits dims 0
unfolding zeros
zeros-digits [] = refl
zeros-digits (a ∷ dims) =
    rw (zero-mod a.src_count, zero-div a.src_count) (ap (λ r. 0 ∷ r) (zeros-digits dims))

pub offset_zero : (sub : ℕ) (dims : List Axis) → offset sub dims 0 ≡ 0
offset_zero sub [] = refl
offset_zero sub (a ∷ dims) =
    rw (zero-mod a.src_count, zero-div a.src_count)
      (grind (arith, offset_zero (sub * a.dst_count) dims))

pub rounds_lem : (n : ℕ) → n < 2 ^ 31 → rounds n ≡ n - 1
rounds_lem n h =
    let w : n % 2 ^ 32 ≡ n = mod-eq_of_lt (omega arith) in
    let t : ltb n (2 ^ 31) ≡ true = ground arith in rw (w, t) refl

pub place-Apart :
    (ele : ℕ) (dims : List Axis) (dst src : ℕ)
    → Covers dims
    → (src + ele * elements dims ≤ dst) ⊎ (dst + room ele dims ≤ src)
    → Apart ele dims (dst + ele * shift dims) src
place-Apart ele dims dst src c h n j hn hj =
    let place = offset_place ele dims n c in
    let low = place-room ele dims n c hn in
    let row : (j + 1) * ele ≤ elements dims * ele =
      mul_le (j + 1) (elements dims) ele (omega arith) in
    elim h [ inl before ↦ inl (grind arith) | inr behind ↦ inr (grind arith) ]
