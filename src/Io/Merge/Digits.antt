-- ===== src/Io/Merge/Digits.antt =====
-- server/io.c: the `n`-th element of a block, by its index in each dimension.
use native.Mathlib.Nat.{
  mod-add-div', mod-lt, mod-eq_of_lt, div-eq_of_lt, add-mul-div_right, add-mul-mod_self_right,
  mul-div_left, mul-mod_left,
}
use native.Mathlib.Decide.{dec_lt, ℕ_discrete}
use cfio.Prelude.{
  ℕ, ◌+◌, ◌-◌, ◌*◌, ◌/◌, ◌%◌, ◌^◌, ◌<◌, ◌≤◌, ◌≡◌, ◌∙◌, ap, true, false, some, List, [], ◌∷◌, leb,
  arith,
}
use cfio.Buffer.{size_t_mod}
use cfio.Io.Merge.{Axis, inc_src_index}

-- The indices of the `n`-th element, and its offset in the merged array from the first.
abbrev pub digits : List Axis → ℕ → List ℕ
digits [] n = []
digits (a ∷ dims) n = (n % a.src_count) ∷ digits dims (n / a.src_count)

abbrev pub offset : ℕ → List Axis → ℕ → ℕ
offset sub [] n = 0
offset sub (a ∷ dims) n = n % a.src_count * sub + offset (sub * a.dst_count) dims (n / a.src_count)

abbrev pub elements : List Axis → ℕ
elements [] = 1
elements (a ∷ dims) = a.src_count * elements dims

abbrev pub room : ℕ → List Axis → ℕ
room sub [] = sub
room sub (a ∷ dims) = room (sub * a.dst_count) dims

-- The block is not empty, and no longer than the merged array in any dimension.
abbrev pub Inside : List Axis → Type 0
Inside [] = Unit
Inside (a ∷ dims) = (0 < a.src_count) × (a.src_count ≤ a.dst_count) × Inside dims

pub mul_le : (a b c : ℕ) → a ≤ b → a * c ≤ b * c
mul_le a b c h = grind arith

pub room-le : (sub : ℕ) (dims : List Axis) → Inside dims → sub ≤ room sub dims
room-le sub [] i = omega arith
room-le sub (a ∷ dims) (pos, le, i) =
    let step : sub * 1 ≤ sub * a.dst_count = grind arith in
    omega (arith, step, room-le (sub * a.dst_count) dims i)

pub room_mono : (a b : ℕ) (dims : List Axis) → a ≤ b → room a dims ≤ room b dims
room_mono a b [] h = h
room_mono a b (x ∷ dims) h =
    room_mono (a * x.dst_count) (b * x.dst_count) dims (mul_le a b x.dst_count h)

pub quotient_lt : (n s t : ℕ) → n < s * t → 0 < s → n / s < t
quotient_lt n s t h pos = elim (dec_lt (n / s) t) [
  | yes p ↦ p
  | no q ↦
      let m : t * s ≤ n / s * s = mul_le t (n / s) s (omega arith) in
      absurd (omega (arith, m, mod-add-div' n s))
]

pub elements_pos : (dims : List Axis) → Inside dims → 0 < elements dims
elements_pos [] i = omega arith
elements_pos (a ∷ dims) (pos, _, i) = let p = elements_pos dims i in grind arith

-- Later elements lie behind earlier ones.
pub offset-lt :
    (sub : ℕ) (dims : List Axis) (n k : ℕ)
    → Inside dims
    → n < k
    → k < elements dims
    → offset sub dims n + sub ≤ offset sub dims k
offset-lt sub [] n k i lt h = absurd (omega arith)
offset-lt sub (a ∷ dims) n k (pos, le, i) lt h =
    let s = a.src_count in
    let en = mod-add-div' n s in
    let ek = mod-add-div' k s in
    let digit : n % s < s = mod-lt n pos in
    elim (dec_lt (n / s) (k / s)) [
      | yes p ↦
          let ih =
            offset-lt (sub * a.dst_count) dims (n / s) (k / s) i p
              (quotient_lt k s (elements dims) h pos) in
          let row : (n % s + 1) * sub ≤ a.dst_count * sub =
            mul_le (n % s + 1) a.dst_count sub (omega arith) in
          grind arith
      | no q ↦ elim (ℕ_discrete (n / s) (k / s)) [
        | yes e ↦
            let same : n / s * s ≡ k / s * s = ap (λ t. t * s) e in
            let row : (n % s + 1) * sub ≤ k % s * sub =
              mul_le (n % s + 1) (k % s) sub (omega arith) in
            rw e (grind arith)
        | no ne ↦
            let rows : (k / s + 1) * s ≤ n / s * s = mul_le (k / s + 1) (n / s) s (omega arith) in
            let last : k % s < s = mod-lt k pos in absurd (grind arith)
      ]
    ]

-- The array has room for each of them.
pub offset-room :
    (sub : ℕ) (dims : List Axis) (n : ℕ)
    → Inside dims
    → n < elements dims
    → offset sub dims n + sub ≤ room sub dims
offset-room sub [] n i h = omega arith
offset-room sub (a ∷ dims) n (pos, le, i) h =
    let s = a.src_count in
    let digit : n % s < s = mod-lt n pos in
    let row : (n % s + 1) * sub ≤ a.dst_count * sub =
      mul_le (n % s + 1) a.dst_count sub (omega arith) in
    let ih =
      offset-room (sub * a.dst_count) dims (n / s) i (quotient_lt n s (elements dims) h pos) in
    grind arith

next_same : (n s : ℕ) → n % s + 1 < s → ((n + 1) % s ≡ n % s + 1) × ((n + 1) / s ≡ n / s)
next_same n s h =
    let e : n + 1 ≡ n % s + 1 + n / s * s = omega (arith, mod-add-div' n s) in
    let pos : 0 < s = omega arith in
    rw e (
      add-mul-mod_self_right (n % s + 1) (n / s) s ∙ mod-eq_of_lt h,
      add-mul-div_right (n % s + 1) (n / s) pos ∙ omega (arith, div-eq_of_lt h),
    )

next_carry : (n s : ℕ) → 0 < s → n % s + 1 ≡ s → ((n + 1) % s ≡ 0) × ((n + 1) / s ≡ n / s + 1)
next_carry n s pos h =
    let e : n + 1 ≡ (n / s + 1) * s = grind (arith, mod-add-div' n s) in
    rw e (mul-mod_left (n / s + 1) s, mul-div_left (n / s + 1) pos)

-- One step of the loop's indices and address leads from one element to the next.
pub inc_src_index-digits :
    (sub b n : ℕ) (dims : List Axis)
    → Inside dims
    → room sub dims < 2 ^ 64
    → n + 1 < elements dims
    → inc_src_index sub (b + offset sub dims n) dims (digits dims n)
      ≡ some (b + offset sub dims (n + 1), digits dims (n + 1))
unfolding inc_src_index
inc_src_index-digits sub b n [] i fits h = absurd (omega arith)
inc_src_index-digits sub b n (a ∷ dims) (pos, le, i) fits h =
    let s = a.src_count in
    let digit : n % s < s = mod-lt n pos in
    elim (dec_lt (n % s + 1) s) [
      | yes p ↦
          let (m, d) = next_same n s p in
          let t : leb s (n % s + 1) ≡ false = ground arith in
          rw (t, m, d) (ap (λ (x : ℕ). some (x, (n % s + 1) ∷ digits dims (n / s))) (grind arith))
      | no q ↦
          let last : n % s + 1 ≡ s = omega arith in
          let (m, d) = next_carry n s pos last in
          let t : leb s (n % s + 1) ≡ true = ground arith in
          let high = room-le (sub * a.dst_count) dims i in
          let row : s * sub ≤ a.dst_count * sub = mul_le s a.dst_count sub le in
          let w1 : (sub * a.dst_count) % size_t_mod ≡ sub * a.dst_count =
            mod-eq_of_lt (omega arith) in
          let w2 : ((s - 1) * sub) % size_t_mod ≡ (s - 1) * sub = mod-eq_of_lt (grind arith) in
          let back : b + (n % s * sub + offset (sub * a.dst_count) dims (n / s)) - (s - 1) * sub
              ≡ b + offset (sub * a.dst_count) dims (n / s) =
            let r : n % s ≡ s - 1 = omega arith in rw r (omega arith) in
          let more : n / s + 1 < elements dims =
            omega (arith, d, quotient_lt (n + 1) s (elements dims) h pos) in
          let ih = inc_src_index-digits (sub * a.dst_count) b (n / s) dims i fits more in
          rw (t, w1, w2, back, ih, m, d)
            (ap (λ (x : ℕ). some (x, 0 ∷ digits dims (n / s + 1))) (grind arith))
    ]
