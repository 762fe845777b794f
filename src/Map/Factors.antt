-- ===== src/Map/Factors.antt =====
-- common/map.c: `_divisors` lists exactly the divisors, in ascending order.
use native.Mathlib.Decide.{ℕ_discrete, dec_le, dec_lt}
use mathlib.Core.Path.{subst₂}
use cfio.Prelude.{
  ℕ, ◌+◌, ◌-◌, ◌*◌, ◌/◌, ◌%◌, ◌<◌, ◌≤◌, ◌≡◌, ◌≢◌, sym, ◌∙◌, ap, ◌⊎◌, inl, inr, subst, List, ◌++◌,
  ◌==◌, ==_iff, length, length-append, arith, Bool-cases,
}
use cfio.Map.{mirrored}
use cfio.Map.Exact.{small_divisors, divisors}
use cfio.Map.Divisors.{
  nth, IsFactors, nth-append_left, nth-append_right, length-mirrored, nth-mirrored, IsSmall,
  small_divisors-IsSmall, small_divisors_complete, cofactor, mod_cofactor, cofactor_pos,
  cofactor_anti, cofactor_cross, cofactor_cofactor, mul_le, mul_lt, square_below,
}

-- The entries that the second loop mirrors: all but a square root of `n`.
module _ (n : ℕ) (pos : 0 < n) (xs : List ℕ) (s : IsSmall 1 n xs) (m : ℕ)
    (some_entry : 0 < length xs)
    (size : ((m ≡ length xs) × (nth xs (length xs - 1) * nth xs (length xs - 1) ≢ n))
      ⊎ ((m + 1 ≡ length xs) × (nth xs (length xs - 1) * nth xs (length xs - 1) ≡ n))) where
  abbrev last : ℕ
  last = nth xs (length xs - 1)

  m_le : m ≤ length xs
  m_le = omega arith

  le_last : (k : ℕ) → k < length xs → nth xs k ≤ last
  le_last k h = elim (dec_lt k (length xs - 1)) [
    | yes p ↦ omega (arith, s.ascending k (length xs - 1) p (omega arith))
    | no q ↦ let e : k ≡ length xs - 1 = omega arith in omega (arith, ap (nth xs) e)
  ]

  product_lt : (j k : ℕ) → j < length xs → k < m → nth xs j * nth xs k < n
  product_lt j k hj hk =
      let (lo, sq, _) = s.sound (length xs - 1) (omega arith) in
      let a = le_last j hj in
      elim size [
        | inl (e, ne) ↦
            let b = le_last k (omega arith) in omega (arith, mul_le (nth xs j) (nth xs k) last a b)
        | inr (e, eq) ↦
            let b = s.ascending k (length xs - 1) (omega arith) (omega arith) in
            omega (arith, mul_lt (nth xs j) (nth xs k) last a b)
      ]

  abbrev all : List ℕ
  all = xs ++ mirrored m xs n

  length-all : length all ≡ length xs + m
  length-all = length-append xs (mirrored m xs n) ∙ ap (λ k. length xs + k) (length-mirrored m xs n)

  nth_small : (k : ℕ) → k < length xs → nth all k ≡ nth xs k
  nth_small k h = nth-append_left xs (mirrored m xs n) k h

  nth_large : (k : ℕ) → k < m → nth all (length xs + k) ≡ n / nth xs (m - 1 - k)
  nth_large k h = nth-append_right xs (mirrored m xs n) k ∙ nth-mirrored m xs n k h

  div_of : (k : ℕ) → k < length xs → n % nth xs k ≡ 0
  div_of k h = (s.sound k h).2

  all_divides : (k : ℕ) → k < length all → (0 < nth all k) × (n % nth all k ≡ 0)
  all_divides k h = elim (dec_lt k (length xs)) [
    | yes p ↦ let (lo, _, div) = s.sound k p in rw (nth_small k p) (omega arith, div)
    | no q ↦
        let i = k - length xs in
        let hi : i < m = omega (arith, length-all) in
        let e : length xs + i ≡ k = omega arith in
        let div = div_of (m - 1 - i) (omega (arith, m_le)) in
        subst (λ j. (0 < nth all j) × (n % nth all j ≡ 0)) e
          (rw (nth_large i hi)
            (cofactor_pos n (nth xs (m - 1 - i)) pos div, mod_cofactor n (nth xs (m - 1 - i)) div))
  ]

  all_ascending_large :
      (j k : ℕ) → j < k → k < m → nth all (length xs + j) < nth all (length xs + k)
  all_ascending_large j k h l =
      rw (nth_large j (omega arith), nth_large k l)
        (cofactor_anti n (nth xs (m - 1 - j)) (nth xs (m - 1 - k)) pos
          (div_of (m - 1 - j) (omega (arith, m_le))) (div_of (m - 1 - k) (omega (arith, m_le)))
          (s.ascending (m - 1 - k) (m - 1 - j) (omega arith) (omega (arith, m_le))))

  all_ascending_cross : (j k : ℕ) → j < length xs → k < m → nth all j < nth all (length xs + k)
  all_ascending_cross j k h l =
      rw (nth_small j h, nth_large k l)
        (cofactor_cross n (nth xs j) (nth xs (m - 1 - k)) (div_of (m - 1 - k) (omega (arith, m_le)))
          (product_lt j (m - 1 - k) h (omega arith)))

  all_ascending : (j k : ℕ) → j < k → k < length all → nth all j < nth all k
  all_ascending j k h l = elim (dec_lt k (length xs)) [
    | yes p ↦ rw (nth_small j (omega arith), nth_small k p) (s.ascending j k h p)
    | no q ↦
        let e : length xs + (k - length xs) ≡ k = omega arith in
        let hk : k - length xs < m = omega (arith, length-all) in
        elim (dec_lt j (length xs)) [
          | yes p ↦
              subst (λ t. nth all j < nth all t) e (all_ascending_cross j (k - length xs) p hk)
          | no r ↦
              let f : length xs + (j - length xs) ≡ j = omega arith in
              subst₂ (λ u t. nth all u < nth all t) f e
                (all_ascending_large (j - length xs) (k - length xs) (omega arith) hk)
        ]
  ]

  module _
      (small : (d : ℕ)
        → 0 < d
        → d * d ≤ n
        → n % d ≡ 0
        → (k : ℕ) × (k < length xs) × (nth xs k ≡ d)) where
    large_at :
        (d : ℕ) → 0 < d → n < d * d → n % d ≡ 0 → (k : ℕ) × (k < m) × (n / nth xs (m - 1 - k) ≡ d)
    large_at d pd big div =
        let c = cofactor n d div in
        let pe = cofactor_pos n d pos div in
        let below : n / d * (n / d) < n = square_below n d (n / d) c big pe in
        let (j, lj, ej) = small (n / d) pe (omega arith) (mod_cofactor n d div) in
        let hm : j < m = elim size [
          | inl (e, _) ↦ omega arith
          | inr (e, eq) ↦ elim (ℕ_discrete j (length xs - 1)) [
            | no ne ↦ omega arith
            | yes same ↦
                let at : last ≡ n / d = ap (nth xs) (sym same) ∙ ej in
                absurd (omega (arith, ap (λ t. t * t) at))
          ]
        ] in
        (
          m - 1 - j,
          omega arith,
          ap (λ t. n / nth xs t) (let e : m - 1 - (m - 1 - j) ≡ j = omega arith in e)
              ∙ ap (λ t. n / t) ej
              ∙ cofactor_cofactor n d pos div,
        )

    all_complete : (d : ℕ) → 0 < d → n % d ≡ 0 → (k : ℕ) × (k < length all) × (nth all k ≡ d)
    all_complete d pd div = elim (dec_le (d * d) n) [
      | yes near ↦
          let (k, l, e) = small d pd near div in (k, omega (arith, length-all), nth_small k l ∙ e)
      | no far ↦
          let (k, l, e) = large_at d pd (omega arith) div in
          (length xs + k, omega (arith, length-all), nth_large k l ∙ e)
    ]

    all-IsFactors : IsFactors n all
    all-IsFactors = record {
      divides = all_divides;
      complete = all_complete;
      ascending = all_ascending;
    }

-- For a positive number _divisors lists exactly its positive divisors, in strictly ascending
-- order.
pub divisors-IsFactors : (n : ℕ) → 0 < n → IsFactors n (divisors n)
unfolding divisors
divisors-IsFactors n pos =
    let xs = small_divisors n 1 n in
    let s = small_divisors-IsSmall n 1 n in
    let small = λ (d : ℕ) (pd : 0 < d) (sq : d * d ≤ n) (div : n % d ≡ 0).
      small_divisors_complete n 1 n d (omega arith) (grind arith) sq div in
    let (_, first, _) = small 1 (omega arith) (omega arith) (omega arith) in
    let top = nth xs (length xs - 1) in
    elim (Bool-cases (top * top == n)) [
      | inl eq ↦ rw eq (
          all-IsFactors n pos xs s (length xs - 1) (omega arith)
            (inr (omega arith, (==_iff (top * top) n).0 eq)) small)
      | inr ne ↦ rw ne (
          all-IsFactors n pos xs s (length xs - 1 + 1) (omega arith)
            (inl (omega arith, ground arith)) small)
    ]
