-- ===== src/Map/Search.antt =====
-- common/map.c: `_gen_server_x_and_y` finds an exact decomposition if there is one.
use native.Mathlib.Decide.{ℕ_discrete, dec_le, dec_lt}
use native.Mathlib.Nat.{mod-eq_of_lt}
use cfio.Prelude.{
  ℕ, zero, suc, ◌+◌, ◌-◌, ◌*◌, ◌%◌, ◌<◌, ◌≤◌, ◌≡◌, ◌≢◌, refl, sym, ◌∙◌, ap, ◌⊎◌, inl, inr, subst,
  none, some, List, length, arith,
}
use cfio.Map.{Scan}
use cfio.Map.Exact.{walk_step, walk}
use cfio.Map.Divisors.{nth, IsFactors, mul_le_left}

module _ (fx fy : List ℕ) (best : ℕ) where
  -- The product that the round looks at.
  abbrev product : Scan → ℕ
  product s = nth fx s.index_x * nth fy (s.rows - 1)

  abbrev OpenAt : Scan → Type 0
  OpenAt s = (s.index_x < length fx) × (0 < s.rows)

  walk_exact :
      (fuel : ℕ) (s : Scan)
      → OpenAt s
      → product s ≡ best
      → walk (suc fuel) fx fy best s
        ≡ record s { min_sub = 0; min_index = some (s.index_x, s.rows) }
  unfolding walk walk_step
  walk_exact fuel s o e = ground arith

  walk_end :
      (fuel : ℕ) (s : Scan) → (length fx ≤ s.index_x) ⊎ (s.rows ≡ 0) → walk fuel fx fy best s ≡ s
  unfolding walk
  walk_end zero s o = refl
  walk_end (suc fuel) s o = ground arith

  -- Where a round moves to.
  moved : Scan → Scan
  unfolding walk_step
  moved s = (walk_step fx fy best s).1

  walk-moved :
      (fuel : ℕ) (s : Scan)
      → OpenAt s
      → product s ≢ best
      → walk (suc fuel) fx fy best s ≡ walk fuel fx fy best (moved s)
  unfolding walk moved
  walk-moved fuel s o e = ground arith

  moved_right :
      (s : Scan)
      → product s < best
      → ((moved s).index_x ≡ s.index_x + 1)
        × ((moved s).rows ≡ s.rows)
        × ((moved s).min_sub ≡ s.min_sub)
        × (s.min_sub ≤ best - product s → (moved s).min_index ≡ s.min_index)
  unfolding moved
  moved_right s h = (ground arith, ground arith, ground arith, λ k. ground arith)

  moved_down :
      (s : Scan)
      → best < product s
      → ((moved s).index_x ≡ s.index_x)
        × ((moved s).rows ≡ s.rows - 1)
        × ((moved s).min_sub ≡ s.min_sub)
  unfolding moved
  moved_down s h = (ground arith, ground arith, ground arith)

mul_lt_left : (a b c : ℕ) → 0 < a → b < c → a * b < a * c
mul_lt_left a b c h k = grind arith

mul_le_both : (a b c d : ℕ) → a ≤ c → b ≤ d → a * b ≤ c * d
mul_le_both a b c d h k = grind arith

pub divisor_le : (n d : ℕ) → 0 < n → n % d ≡ 0 → d ≤ n
divisor_le n d pos h = elim (dec_le d n) [
  | yes p ↦ p
  | no q ↦ absurd (omega (arith, mod-eq_of_lt {n = n} {m = d} (omega arith)))
]

module _ (cx cy : ℕ) (fx fy : List ℕ) (best : ℕ) (pos_x : 0 < cx) (pos_y : 0 < cy)
    (hx : IsFactors cx fx) (hy : IsFactors cy fy) where
  -- All exact decompositions lie where the search has not been; and where the tolerance would accept
  -- any difference, no difference was small enough to be noted.
  pub record Going (s : Scan) : Type 0 where
    pub cols : s.index_x ≤ length fx
    pub rows : s.rows ≤ length fy
    pub sub : s.min_sub ≡ cx * cy
    pub left :
        (p q : ℕ)
        → p < length fx
        → q < length fy
        → nth fx p * nth fy q ≡ best
        → (s.index_x ≤ p) × (q < s.rows)
    pub unset : 5 * (cx * cy) < 2 * best → s.min_index ≡ none

  pub record Found (s : Scan) : Type 0 where
    pub sub : s.min_sub ≡ 0
    pub x : ℕ
    pub rows : ℕ
    pub index : s.min_index ≡ some (x, rows)
    pub col : x < length fx
    pub row : 0 < rows
    pub high : rows ≤ length fy
    pub exact : nth fx x * nth fy (rows - 1) ≡ best

  pub record Missed (s : Scan) : Type 0 where
    pub sub : s.min_sub ≡ cx * cy
    pub none_exact : (p q : ℕ) → p < length fx → q < length fy → nth fx p * nth fy q ≢ best
    pub unset : 5 * (cx * cy) < 2 * best → s.min_index ≡ none

  product_le : (s : Scan) → Going s → OpenAt fx fy best s → product fx fy best s ≤ cx * cy
  product_le s g (o, r) =
      mul_le_both (nth fx s.index_x) (nth fy (s.rows - 1)) cx cy
        (divisor_le cx (nth fx s.index_x) pos_x (hx.divides s.index_x o).1)
        (divisor_le cy (nth fy (s.rows - 1)) pos_y
          (hy.divides (s.rows - 1) (omega (arith, g.rows))).1)

  -- A product that is too small rules out its column, one that is too large its row.
  right_left :
      (s : Scan)
      → Going s
      → OpenAt fx fy best s
      → product fx fy best s < best
      → (p q : ℕ) → p < length fx
      → q < length fy
      → nth fx p * nth fy q ≡ best
      → (s.index_x + 1 ≤ p) × (q < s.rows)
  right_left s g (o, r) h p q lp lq e =
      let (lo, hi) = g.left p q lp lq e in
      elim (ℕ_discrete p s.index_x) [
        | no ne ↦ (omega arith, hi)
        | yes same ↦
            let le : nth fy q ≤ nth fy (s.rows - 1) =
              entry_le q (s.rows - 1) (omega arith) (omega (arith, g.rows)) in
            let m = mul_le_left (nth fx s.index_x) (nth fy q) (nth fy (s.rows - 1)) le in
            absurd (omega (arith, ap (λ t. nth fx t * nth fy q) same))
      ]
    where
      entry_le : (j k : ℕ) → j ≤ k → k < length fy → nth fy j ≤ nth fy k
      entry_le j k le lt = elim (ℕ_discrete j k) [
        | yes same ↦ omega (arith, ap (nth fy) same)
        | no ne ↦ omega (arith, hy.ascending j k (omega arith) lt)
      ]

  down_left :
      (s : Scan)
      → Going s
      → OpenAt fx fy best s
      → best < product fx fy best s
      → (p q : ℕ) → p < length fx
      → q < length fy
      → nth fx p * nth fy q ≡ best
      → (s.index_x ≤ p) × (q < s.rows - 1)
  down_left s g (o, r) h p q lp lq e =
      let (lo, hi) = g.left p q lp lq e in
      elim (ℕ_discrete q (s.rows - 1)) [
        | no ne ↦ (lo, omega arith)
        | yes same ↦
            let le : nth fx s.index_x ≤ nth fx p = entry_le s.index_x p lo lp in
            let m =
              mul_le_both (nth fx s.index_x) (nth fy (s.rows - 1)) (nth fx p) (nth fy (s.rows - 1))
                le (omega arith) in
            absurd (omega (arith, ap (λ t. nth fx p * nth fy t) same))
      ]
    where
      entry_le : (j k : ℕ) → j ≤ k → k < length fx → nth fx j ≤ nth fx k
      entry_le j k le lt = elim (ℕ_discrete j k) [
        | yes same ↦ omega (arith, ap (nth fx) same)
        | no ne ↦ omega (arith, hx.ascending j k (omega arith) lt)
      ]

  right_Going :
      (s : Scan)
      → Going s
      → OpenAt fx fy best s
      → product fx fy best s < best
      → Going (moved fx fy best s)
  right_Going s g (o, r) h =
      let (ex, er, es, en) = moved_right fx fy best s h in
      record {
        cols = omega (arith, ex);
        rows = omega (arith, er, g.rows);
        sub = es ∙ g.sub;
        left = λ p q lp lq e. rw (ex, er) (right_left s g (o, r) h p q lp lq e);
        unset = λ far. en (omega (arith, product_le s g (o, r), g.sub)) ∙ g.unset far;
      }

  down_Going :
      (s : Scan)
      → Going s
      → OpenAt fx fy best s
      → best < product fx fy best s
      → Going (moved fx fy best s)
  down_Going s g (o, r) h =
      let (ex, er, es) = moved_down fx fy best s h in
      record {
        cols = omega (arith, ex);
        rows = omega (arith, er, g.rows);
        sub = es ∙ g.sub;
        left = λ p q lp lq e. rw (ex, er) (down_left s g (o, r) h p q lp lq e);
        unset = λ far. absurd (omega (arith, product_le s g (o, r)));
      }

  end_Missed : (s : Scan) → Going s → (length fx ≤ s.index_x) ⊎ (s.rows ≡ 0) → Missed s
  end_Missed s g o = record {
    sub = g.sub;
    none_exact = λ p q lp lq e. let (lo, hi) = g.left p q lp lq e in omega arith;
    unset = g.unset;
  }

  Found-here :
      (s : Scan)
      → Going s
      → OpenAt fx fy best s
      → product fx fy best s ≡ best
      → Found (record s { min_sub = 0; min_index = some (s.index_x, s.rows) })
  Found-here s g (o, r) e = record {
    sub = refl;
    x = s.index_x;
    rows = s.rows;
    index = refl;
    col = o;
    row = r;
    high = g.rows;
    exact = e;
  }

  abbrev Ends : Scan → Type 0
  Ends s = Found s ⊎ Missed s

  -- With as many rounds as there are columns and rows left the search ends: at an exact decomposition,
  -- or when there is none.
  pub walk_total :
      (fuel : ℕ) (s : Scan)
      → Going s
      → (length fx - s.index_x) + s.rows ≤ fuel
      → Ends (walk fuel fx fy best s)
  walk_total zero s g f =
      let o : (length fx ≤ s.index_x) ⊎ (s.rows ≡ 0) = inr (omega arith) in
      subst Ends (sym (walk_end fx fy best zero s o)) (inr (end_Missed s g o))
  walk_total (suc fuel) s g f = elim (dec_lt s.index_x (length fx)) [
    | no q ↦
        let o : (length fx ≤ s.index_x) ⊎ (s.rows ≡ 0) = inl (omega arith) in
        subst Ends (sym (walk_end fx fy best (suc fuel) s o)) (inr (end_Missed s g o))
    | yes o ↦ elim (ℕ_discrete s.rows 0) [
      | yes z ↦
          let e : (length fx ≤ s.index_x) ⊎ (s.rows ≡ 0) = inr z in
          subst Ends (sym (walk_end fx fy best (suc fuel) s e)) (inr (end_Missed s g e))
      | no nz ↦
          let at : OpenAt fx fy best s = (o, omega arith) in
          elim (dec_lt (product fx fy best s) best) [
            | yes low ↦
                let (ex, er, _, _) = moved_right fx fy best s low in
                subst Ends (sym (walk-moved fx fy best fuel s at (omega arith))) (
                  walk_total fuel (moved fx fy best s) (right_Going s g at low)
                    (omega (arith, ex, er)))
            | no high ↦ elim (dec_lt best (product fx fy best s)) [
              | yes over ↦
                  let (ex, er, _) = moved_down fx fy best s over in
                  subst Ends (sym (walk-moved fx fy best fuel s at (omega arith))) (
                    walk_total fuel (moved fx fy best s) (down_Going s g at over)
                      (omega (arith, ex, er)))
              | no under ↦
                  let e : product fx fy best s ≡ best = omega arith in
                  subst Ends (sym (walk_exact fx fy best fuel s at e)) (inl (Found-here s g at e))
            ]
          ]
    ]
  ]
