-- ===== src/Map/Divisors.antt =====
-- common/map.c: divisors, and the first loop of `_divisors`.
use native.Mathlib.Nat.{mod-add-div', div-eq_of_eq-mul_left, mul-mod_left}
use native.Mathlib.Decide.{ℕ_discrete, dec_le, dec_lt}
use cfio.Prelude.{
  ℕ, zero, suc, ◌+◌, ◌-◌, ◌*◌, ◌/◌, ◌%◌, ◌<◌, ◌≤◌, ◌≡◌, ◌≢◌, refl, sym, ◌∙◌, ap, List, [], ◌∷◌,
  ◌++◌, length, get_or, arith,
}
use cfio.Map.{mirrored}
use cfio.Map.Exact.{small_divisors}

-- The list's `k`-th entry, as the code indexes its array.
abbrev pub nth : List ℕ → ℕ → ℕ
nth xs k = get_or xs k 0

pub record IsFactors (n : ℕ) (xs : List ℕ) : Type 0 where
  pub divides : (k : ℕ) → k < length xs → (0 < nth xs k) × (n % nth xs k ≡ 0)
  pub complete : (d : ℕ) → 0 < d → n % d ≡ 0 → (k : ℕ) × (k < length xs) × (nth xs k ≡ d)
  pub ascending : (j k : ℕ) → j < k → k < length xs → nth xs j < nth xs k

pub nth-append_left : (xs ys : List ℕ) (k : ℕ) → k < length xs → nth (xs ++ ys) k ≡ nth xs k
nth-append_left [] ys k h = absurd (omega arith)
nth-append_left (x ∷ xs) ys zero h = refl
nth-append_left (x ∷ xs) ys (suc k) h = nth-append_left xs ys k (omega arith)

pub nth-append_right : (xs ys : List ℕ) (k : ℕ) → nth (xs ++ ys) (length xs + k) ≡ nth ys k
nth-append_right [] ys k = ap (nth ys) (omega arith)
nth-append_right (x ∷ xs) ys k =
    ap (nth (x ∷ (xs ++ ys))) (let e : suc (length xs) + k ≡ suc (length xs + k) = omega arith in e)
    ∙ nth-append_right xs ys k

pub length-mirrored : (m : ℕ) (xs : List ℕ) (n : ℕ) → length (mirrored m xs n) ≡ m
unfolding mirrored
length-mirrored zero xs n = refl
length-mirrored (suc m) xs n = ap suc (length-mirrored m xs n)

pub nth-mirrored :
    (m : ℕ) (xs : List ℕ) (n k : ℕ) → k < m → nth (mirrored m xs n) k ≡ n / nth xs (m - 1 - k)
unfolding mirrored
nth-mirrored zero xs n k h = absurd (omega arith)
nth-mirrored (suc m) xs n zero h = ap (λ j. n / nth xs j) (omega arith)
nth-mirrored (suc m) xs n (suc k) h =
    nth-mirrored m xs n k (omega arith) ∙ ap (λ j. n / nth xs j) (omega arith)

-- What the first loop finds from `i` on.
pub record IsSmall (i n : ℕ) (xs : List ℕ) : Type 0 where
  pub sound :
      (k : ℕ) → k < length xs → (i ≤ nth xs k) × (nth xs k * nth xs k ≤ n) × (n % nth xs k ≡ 0)
  pub ascending : (j k : ℕ) → j < k → k < length xs → nth xs j < nth xs k

IsSmall-nil : (i n : ℕ) → IsSmall i n []
IsSmall-nil i n = record {
  sound = λ k h. absurd (omega arith);
  ascending = λ j k h l. absurd (omega arith);
}

IsSmall-weaken : (i n : ℕ) (xs : List ℕ) → IsSmall (i + 1) n xs → IsSmall i n xs
IsSmall-weaken i n xs s = record {
  sound = λ k h. let (lo, sq, div) = s.sound k h in (omega arith, sq, div);
  ascending = s.ascending;
}

module _ (i n : ℕ) (xs : List ℕ) (s : IsSmall (i + 1) n xs) (sq : i * i ≤ n) (div : n % i ≡ 0) where
  cons_sound :
      (k : ℕ)
      → k < length (i ∷ xs)
      → (i ≤ nth (i ∷ xs) k) × (nth (i ∷ xs) k * nth (i ∷ xs) k ≤ n) × (n % nth (i ∷ xs) k ≡ 0)
  cons_sound zero h = (omega arith, sq, div)
  cons_sound (suc k) h = (IsSmall-weaken i n xs s).sound k (omega arith)

  cons_ascending : (j k : ℕ) → j < k → k < length (i ∷ xs) → nth (i ∷ xs) j < nth (i ∷ xs) k
  cons_ascending j zero h l = absurd (omega arith)
  cons_ascending zero (suc k) h l = let (lo, _, _) = s.sound k (omega arith) in omega arith
  cons_ascending (suc j) (suc k) h l = s.ascending j k (omega arith) (omega arith)

  IsSmall-cons : IsSmall i n (i ∷ xs)
  IsSmall-cons = record { sound = cons_sound; ascending = cons_ascending }

module _ (fuel i n : ℕ) where
  step_hit :
      i * i ≤ n → n % i ≡ 0 → small_divisors (suc fuel) i n ≡ i ∷ small_divisors fuel (i + 1) n
  unfolding small_divisors
  step_hit h e = ground arith

  step_miss : i * i ≤ n → n % i ≢ 0 → small_divisors (suc fuel) i n ≡ small_divisors fuel (i + 1) n
  unfolding small_divisors
  step_miss h e = ground arith

  step_stop : n < i * i → small_divisors (suc fuel) i n ≡ []
  unfolding small_divisors
  step_stop h = ground arith

pub small_divisors-IsSmall : (fuel i n : ℕ) → IsSmall i n (small_divisors fuel i n)
small_divisors-IsSmall zero i n = unfold small_divisors in IsSmall-nil i n
small_divisors-IsSmall (suc fuel) i n = elim (dec_le (i * i) n) [
  | no far ↦ rw (step_stop fuel i n (omega arith)) (IsSmall-nil i n)
  | yes near ↦ elim (ℕ_discrete (n % i) 0) [
    | yes hit ↦ rw (step_hit fuel i n near hit) (
        IsSmall-cons i n (small_divisors fuel (i + 1) n) (small_divisors-IsSmall fuel (i + 1) n)
          near hit)
    | no miss ↦
        rw (step_miss fuel i n near miss) (
          IsSmall-weaken i n (small_divisors fuel (i + 1) n)
            (small_divisors-IsSmall fuel (i + 1) n))
  ]
]

pub small_divisors_complete :
    (fuel i n d : ℕ)
    → i ≤ d
    → d < i + fuel
    → d * d ≤ n
    → n % d ≡ 0
    → (k : ℕ) × (k < length (small_divisors fuel i n)) × (nth (small_divisors fuel i n) k ≡ d)
small_divisors_complete zero i n d lo hi sq div = absurd (omega arith)
small_divisors_complete (suc fuel) i n d lo hi sq div =
    let near : i * i ≤ n = grind arith in
    elim (ℕ_discrete (n % i) 0) [
      | no miss ↦
          let ne : i ≢ d = λ e. miss (ap (λ j. n % j) e ∙ div) in
          rw (step_miss fuel i n near miss)
            (small_divisors_complete fuel (i + 1) n d (omega arith) (omega arith) sq div)
      | yes hit ↦ elim (ℕ_discrete i d) [
        | yes same ↦ rw (step_hit fuel i n near hit) (0, omega arith, same)
        | no ne ↦
            let (k, l, e) =
              small_divisors_complete fuel (i + 1) n d (omega arith) (omega arith) sq div in
            let r = step_hit fuel i n near hit in
            (suc k, omega (arith, ap length r), ap (λ xs. nth xs (suc k)) r ∙ e)
      ]
    ]

-- Arithmetic of complementary divisors.
pub cofactor : (n a : ℕ) → n % a ≡ 0 → a * (n / a) ≡ n
cofactor n a h = omega (arith, mod-add-div' n a)

pub mod_cofactor : (n a : ℕ) → n % a ≡ 0 → n % (n / a) ≡ 0
mod_cofactor n a h = ap (λ k. k % (n / a)) (sym (cofactor n a h)) ∙ mul-mod_left a (n / a)

pub cofactor_pos : (n a : ℕ) → 0 < n → n % a ≡ 0 → 0 < n / a
cofactor_pos n a pos h = elim (dec_lt 0 (n / a)) [
  | yes p ↦ p
  | no z ↦
      let e : n / a ≡ 0 = omega arith in absurd (omega (arith, cofactor n a h, ap (λ q. a * q) e))
]

pub cofactor_anti : (n a b : ℕ) → 0 < n → n % a ≡ 0 → n % b ≡ 0 → b < a → n / a < n / b
cofactor_anti n a b pos ha hb lt =
    let pa = cofactor n a ha in
    let pb = cofactor n b hb in let q = cofactor_pos n a pos ha in grind arith

pub cofactor_cross : (n a b : ℕ) → n % b ≡ 0 → a * b < n → a < n / b
cofactor_cross n a b hb lt = let pb = cofactor n b hb in grind arith

pub cofactor_cofactor : (n a : ℕ) → 0 < n → n % a ≡ 0 → n / (n / a) ≡ a
cofactor_cofactor n a pos h = div-eq_of_eq-mul_left (cofactor_pos n a pos h) (sym (cofactor n a h))

pub mul_le : (a b l : ℕ) → a ≤ l → b ≤ l → a * b ≤ l * l
mul_le a b l h k = grind arith

pub mul_lt : (a b l : ℕ) → a ≤ l → b < l → a * b < l * l
mul_lt a b l h k = grind arith

mul_lt_right : (a b c : ℕ) → a < b → 0 < c → a * c < b * c
mul_lt_right a b c h k = grind arith

pub mul_le_left : (a b c : ℕ) → b ≤ c → a * b ≤ a * c
mul_le_left a b c h = grind arith

pub square_below : (n d e : ℕ) → d * e ≡ n → n < d * d → 0 < e → e * e < n
square_below n d e h k p = elim (dec_lt e d) [
  | yes lt ↦ omega (arith, mul_lt_right e d e lt p)
  | no ge ↦ absurd (omega (arith, mul_le_left d d e (omega arith)))
]
