-- ===== src/Map/Ints.antt =====
-- common/map.c: where the `int`s do not overflow, the divisors and the search are the exact ones.
use native.Mathlib.Decide.{dec_lt, dec_le}
use native.Mathlib.Nat.{mod-eq_of_lt}
use cfio.Prelude.{
  ℕ, zero, suc, ◌+◌, ◌-◌, ◌*◌, ◌%◌, ◌^◌, ◌<◌, ◌≤◌, ◌≡◌, refl, ap, ◌⊎◌, inl, inr, true, false, ◌&&◌,
  none, some, List, [], ◌∷◌, ltb, leb, ◌==◌, length, Bool-cases, arith,
}
use cfio.Map.{Scan, small_factors, get_factor, scan_step, scan}
use cfio.Map.Exact.{small_divisors, divisors, walk_step, walk}
use cfio.Map.Divisors.{nth, IsFactors, mul_le}
use cfio.Map.Factors.{divisors-IsFactors}

-- 2147395600 is the square of 46340, the greatest number whose square is an `int`.
small_factors-small_divisors :
    (fuel i n : ℕ)
    → i ≤ 46340
    → n < 2147395600
    → small_factors fuel i n ≡ some (small_divisors fuel i n)
unfolding small_factors small_divisors
small_factors-small_divisors zero i n hi hn = refl
small_factors-small_divisors (suc fuel) i n hi hn =
    let square : i * i ≤ 46340 * 46340 = mul_le i i 46340 hi hi in
    let held : ltb (i * i) (2 ^ 31) ≡ true = ground arith in
    elim (Bool-cases (leb (i * i) n)) [
      | inr far ↦ rw (held, far) refl
      | inl near ↦
          let le : i * i ≤ n = ground arith in
          let below : i + 1 ≤ 46340 = elim (dec_lt i 46340) [
            | yes lt ↦ omega arith
            | no ge ↦
                let top : i ≡ 46340 = omega arith in absurd (omega (arith, ap (λ j. j * j) top))
          ] in
          let rest = small_factors-small_divisors fuel (i + 1) n below hn in
          elim (Bool-cases (n % i == 0)) [
            | inl hit ↦ rw (held, near, hit, rest) refl
            | inr miss ↦ rw (held, near, miss, rest) refl
          ]
    ]

-- The loop fails, or finds what it would with numbers of any size.
small_factors_or :
    (fuel i n : ℕ)
    → (small_factors fuel i n ≡ none) ⊎ (small_factors fuel i n ≡ some (small_divisors fuel i n))
unfolding small_factors small_divisors
small_factors_or zero i n = inr refl
small_factors_or (suc fuel) i n = elim (Bool-cases (ltb (i * i) (2 ^ 31))) [
  | inr over ↦ inl (rw over refl)
  | inl held ↦ elim (Bool-cases (leb (i * i) n)) [
    | inr far ↦ inr (rw (held, far) refl)
    | inl near ↦ elim (Bool-cases (n % i == 0)) [
      | inl hit ↦ elim (small_factors_or fuel (i + 1) n) [
        | inl e ↦ inl (rw (held, near, hit, e) refl)
        | inr e ↦ inr (rw (held, near, hit, e) refl)
      ]
      | inr miss ↦ elim (small_factors_or fuel (i + 1) n) [
        | inl e ↦ inl (rw (held, near, miss, e) refl)
        | inr e ↦ inr (rw (held, near, miss, e) refl)
      ]
    ]
  ]
]

pub get_factor-divisors : (n : ℕ) → n < 2147395600 → get_factor n ≡ some (divisors n)
unfolding get_factor divisors
get_factor-divisors n small = rw (small_factors-small_divisors n 1 n (omega arith) small) refl

pub get_factor_or : (n : ℕ) → (get_factor n ≡ none) ⊎ (get_factor n ≡ some (divisors n))
unfolding get_factor divisors
get_factor_or n = elim (small_factors_or n 1 n) [
  | inl e ↦ inl (rw e refl)
  | inr e ↦ inr (rw e refl)
]

-- For a positive number below 2147395600, the greatest square that an int holds, _get_factor
-- passes without overflow and lists exactly the positive divisors, in strictly ascending order.
pub get_factor-IsFactors :
    (n : ℕ)
    → 0 < n
    → n < 2147395600
    → (factor : List ℕ) × (get_factor n ≡ some factor) × IsFactors n factor
get_factor-IsFactors n pos small =
    (divisors n, get_factor-divisors n small, divisors-IsFactors n pos)

module _ (fx fy : List ℕ) (best : ℕ) (held : (j k : ℕ) → nth fx j * nth fy k < 2 ^ 31) where
  scan_step-walk_step : (s : Scan) → scan_step fx fy best s ≡ some (walk_step fx fy best s)
  unfolding scan_step walk_step
  scan_step-walk_step s =
      let fits = held s.index_x (s.rows - 1) in
      let t : leb (2 ^ 31) (nth fx s.index_x * nth fy (s.rows - 1)) ≡ false = ground arith in
      elim (Bool-cases (nth fx s.index_x * nth fy (s.rows - 1) == best)) [
        | inl same ↦ rw (t, same) refl
        | inr other ↦ elim (Bool-cases (ltb (nth fx s.index_x * nth fy (s.rows - 1)) best)) [
          | inl low ↦ rw (t, other, low) refl
          | inr high ↦ rw (t, other, high) refl
        ]
      ]

  pub scan-walk : (fuel : ℕ) (s : Scan) → scan fuel fx fy best s ≡ some (walk fuel fx fy best s)
  unfolding scan walk
  scan-walk zero s = refl
  scan-walk (suc fuel) s = elim (Bool-cases (ltb s.index_x (length fx) && ltb 0 s.rows)) [
    | inr stop ↦ rw stop refl
    | inl go_on ↦ elim (Bool-cases (walk_step fx fy best s).0) [
      | inl found ↦ rw (go_on, scan_step-walk_step s, found) refl
      | inr other ↦
          rw (go_on, scan_step-walk_step s, other) (scan-walk fuel (walk_step fx fy best s).1)
    ]
  ]

-- Neither is a factor, or the 0 that stands behind the list, greater than the number.
pub nth_at_most : (n : ℕ) (xs : List ℕ) (k : ℕ) → 0 < n → IsFactors n xs → nth xs k ≤ n
nth_at_most n xs k pos f = elim (dec_lt k (length xs)) [
  | yes lt ↦ let (some_factor, e) = f.divides k lt in divisor_le n (nth xs k) pos e
  | no ge ↦ let none_left = nth_behind xs k (omega arith) in omega arith
]
  where
    nth_behind : (xs : List ℕ) (k : ℕ) → length xs ≤ k → nth xs k ≡ 0
    nth_behind [] k h = refl
    nth_behind (x ∷ xs) zero h = absurd (omega arith)
    nth_behind (x ∷ xs) (suc k) h = nth_behind xs k (omega arith)

    divisor_le : (n d : ℕ) → 0 < n → n % d ≡ 0 → d ≤ n
    divisor_le n d p e = elim (dec_le d n) [
      | yes le ↦ le
      | no gt ↦ absurd (omega (arith, mod-eq_of_lt (let lt : n < d = omega arith in lt)))
    ]
