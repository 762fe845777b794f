-- ===== src/Io/Merge/Copy.antt =====
-- server/io.c: `_put_var` copies each element of a block to its place, and nothing else.
use native.Mathlib.Decide.{ℕ_discrete}
use cfio.Prelude.{
  ℕ, zero, suc, ◌+◌, ◌*◌, ◌^◌, ◌<◌, ◌≤◌, ◌≡◌, refl, sym, subst, ◌∙◌, ◌⊎◌, inl, inr, some, List,
  arith,
}
use cfio.Memory.{Memory, load}
use cfio.Memory.Laws.{length-load, load-store, load-store_apart, load_congr, store_apart}
use cfio.Io.Merge.{Axis, copy, copy_loop}
use cfio.Io.Merge.Digits.{digits, offset, elements, room, Inside, offset-lt, inc_src_index-digits}

-- No element of the block overlaps a place that one of them is copied to.
abbrev pub Apart : ℕ → List Axis → ℕ → ℕ → Type 0
Apart ele dims b src =
    (n j : ℕ)
    → n < elements dims
    → j < elements dims
    → (src + j * ele + ele ≤ b + offset ele dims n) ⊎ (b + offset ele dims n + ele ≤ src + j * ele)

-- The address belongs to no element from the `n`-th on.
abbrev pub Unwritten : ℕ → List Axis → ℕ → ℕ → ℕ → Type 0
Unwritten ele dims b n q =
    (j : ℕ)
    → n ≤ j
    → j < elements dims
    → (q < b + offset ele dims j) ⊎ (b + offset ele dims j + ele ≤ q)

-- What is true of the memory when the elements from the `n`-th on are copied.
pub record Copies (ele : ℕ) (dims : List Axis) (b src n : ℕ) (m m' : Memory) : Type 0 where
  pub elems :
      (j : ℕ)
      → n ≤ j
      → j < elements dims
      → load m' (b + offset ele dims j) ele ≡ load m (src + j * ele) ele
  pub rest : (q : ℕ) → Unwritten ele dims b n q → m' q ≡ m q

module _ (ele : ℕ) (dims : List Axis) (b src : ℕ) (i : Inside dims) (fits : room ele dims < 2 ^ 64)
    (apart : Apart ele dims b src) where
  copy-element : (m : Memory) (d s : ℕ) → load (copy ele m d s) d ele ≡ load m s ele
  copy-element m d s = load-store m d (load m s ele) ele (sym (length-load m s ele))

  copy-src :
      (m : Memory) (n j : ℕ)
      → n < elements dims
      → j < elements dims
      → load (copy ele m (b + offset ele dims n) (src + n * ele)) (src + j * ele) ele
        ≡ load m (src + j * ele) ele
  copy-src m n j hn hj =
      let l = length-load m (src + n * ele) ele in
      load-store_apart m (b + offset ele dims n) (load m (src + n * ele) ele) (src + j * ele) ele
        (elim (apart n j hn hj) [ inl a ↦ inl a | inr a ↦ inr (omega (arith, l, a)) ])

  copy_rest :
      (m : Memory) (n q : ℕ)
      → (q < b + offset ele dims n) ⊎ (b + offset ele dims n + ele ≤ q)
      → copy ele m (b + offset ele dims n) (src + n * ele) q ≡ m q
  copy_rest m n q h =
      let l = length-load m (src + n * ele) ele in
      store_apart m (b + offset ele dims n) (load m (src + n * ele) ele) q
        (elim h [ inl a ↦ inl a | inr a ↦ inr (omega (arith, l, a)) ])

  last-Copies :
      (m : Memory) (n : ℕ)
      → n + 1 ≡ elements dims
      → Copies ele dims b src n m (copy ele m (b + offset ele dims n) (src + n * ele))
  last-Copies m n e = record {
    elems = λ j lo hi.
        let same : n ≡ j = omega arith in
        rw (sym same) (copy-element m (b + offset ele dims n) (src + n * ele));
    rest = λ q un. copy_rest m n q (un n (omega arith) (omega arith));
  }

  next-Copies :
      (m m' : Memory) (n : ℕ)
      → n + 1 < elements dims
      → Copies ele dims b src (n + 1) (copy ele m (b + offset ele dims n) (src + n * ele)) m'
      → Copies ele dims b src n m m'
  next-Copies m m' n lt c =
      let m1 = copy ele m (b + offset ele dims n) (src + n * ele) in
      record {
        elems = λ j lo hi. elim (ℕ_discrete n j) [
          | yes e ↦ rw (sym e) (
              load_congr m' m1 (b + offset ele dims n) ele (λ q low high. c.rest q (λ k above below.
                inl (omega (arith, offset-lt ele dims n k i (omega arith) below))))
              ∙ copy-element m (b + offset ele dims n) (src + n * ele))
          | no ne ↦ c.elems j (omega arith) hi ∙ copy-src m n j (omega arith) hi
        ];
        rest = λ q un.
            c.rest q (λ j lo hi. un j (omega arith) hi)
            ∙ copy_rest m n q (un n (omega arith) (omega arith));
      }

  pub copy_loop-Copies :
      (k n : ℕ) (m : Memory) (s : ℕ)
      → n + k + 1 ≡ elements dims
      → s ≡ src + n * ele
      → (m' : Memory) × (copy_loop k ele dims m (b + offset ele dims n) s (digits dims n) ≡ some m')
        × Copies ele dims b src n m m'
  unfolding copy_loop
  copy_loop-Copies zero n m s e at = (
    copy ele m (b + offset ele dims n) (src + n * ele),
    rw at refl,
    last-Copies m n (omega arith),
  )
  copy_loop-Copies (suc k) n m s e at =
      let step = inc_src_index-digits ele b n dims i fits (omega arith) in
      let m1 = copy ele m (b + offset ele dims n) s in
      let (m', run, c) = copy_loop-Copies k (n + 1) m1 (s + ele) (omega arith) (grind arith) in
      (
        m',
        rw (step) run,
        next-Copies m m' n (omega arith) (
            subst (λ s. Copies ele dims b src (n + 1) (copy ele m (b + offset ele dims n) s) m') at
              c),
      )
