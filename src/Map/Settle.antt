-- ===== src/Map/Settle.antt =====
-- common/map.c: what `cfio_map_init` comes to when the search has ended.
use native.Mathlib.Nat.{mod-add-div'}
use cfio.Prelude.{
  ℕ, zero, suc, ◌+◌, ◌-◌, ◌*◌, ◌/◌, ◌%◌, ◌^◌, ◌<◌, ◌≤◌, ◌≡◌, ◌≢◌, refl, ◌∙◌, ap₂, ◌⊎◌, inl, inr,
  true, false, ◌&&◌, none, some, List, ltb, leb, if◌then◌else◌, length, arith, Bool-cases,
}
use cfio.Map.{
  Config, Scan, get_factor, settle, ok, invalid_init_arg, fault, gen_server_x_and_y, init, IsValid,
}
use cfio.Map.Divisors.{nth, IsFactors}
use cfio.Map.Exact.{divisors, walk}
use cfio.Map.Factors.{divisors-IsFactors}
use cfio.Map.Ints.{scan-walk, nth_at_most}
use cfio.Map.Search.{Going, Found, Missed, walk_total}

mul_le_both : (a b c d : ℕ) → a ≤ c → b ≤ d → a * b ≤ c * d
mul_le_both a b c d h k = grind arith

module _ (cx cy servers best comm server_comm : ℕ) (pos_x : 0 < cx) (pos_y : 0 < cy)
    (pos_b : 0 < best) where
  abbrev pub fx : List ℕ
  fx = divisors cx

  abbrev pub fy : List ℕ
  fy = divisors cy

  abbrev pub start : Scan
  start = record { index_x = 0; rows = length fy; min_sub = cx * cy; min_index = none }

  abbrev pub blank_config : Config
  blank_config = record {
    client_amount = cx * cy;
    client_x_num = cx;
    client_y_num = cy;
    comm = comm;
    server_amount = servers;
    server_x_num = 0;
    server_y_num = 0;
    server_comm = server_comm;
  }

  pub hx : IsFactors cx fx
  hx = divisors-IsFactors cx pos_x

  pub hy : IsFactors cy fy
  hy = divisors-IsFactors cy pos_y

  abbrev pub end : Scan
  end = walk (length fx + length fy) fx fy best start

  start_Going : Going cx cy fx fy best pos_x pos_y hx hy start
  start_Going = record {
    cols = omega arith;
    rows = omega arith;
    sub = refl;
    left = λ p q lp lq e. (omega arith, lq);
    unset = λ _. refl;
  }

  pub ends :
      Found cx cy fx fy best pos_x pos_y hx hy end ⊎ Missed cx cy fx fy best pos_x pos_y hx hy end
  ends =
      walk_total cx cy fx fy best pos_x pos_y hx hy (length fx + length fy) start start_Going
        (omega arith)

  products_held : cx * cy < 2 ^ 31 → (j k : ℕ) → nth fx j * nth fy k < 2 ^ 31
  products_held area j k = omega (
    arith,
    mul_le_both (nth fx j) (nth fy k) cx cy (nth_at_most cx fx j pos_x hx)
        (nth_at_most cy fy k pos_y hy),
  )

  all_positive : ltb 0 cx && (ltb 0 cy && ltb 0 best) ≡ true
  all_positive = ground arith

  pub init-settle :
      cx * cy < 2 ^ 31
      → get_factor cx ≡ some fx
      → get_factor cy ≡ some fy
      → init cx cy servers best comm server_comm ≡ some (settle blank_config best fx fy end)
  unfolding init gen_server_x_and_y
  init-settle area ex ey =
      let held : leb (2 ^ 31) (cx * cy) ≡ false = ground arith in
      let found = scan-walk fx fy best (products_held area) (length fx + length fy) start in
      rw (all_positive, held, gen_server_x_and_y, ex, ey, found) refl

  -- With factors that no `int` can find nothing is accepted.
  pub init-fault :
      (get_factor cx ≡ none) ⊎ ((get_factor cx ≡ some fx) × (get_factor cy ≡ none))
      → init cx cy servers best comm server_comm ≡ some fault
  unfolding init gen_server_x_and_y
  init-fault lost = elim (Bool-cases (leb (2 ^ 31) (cx * cy))) [
    | inl over ↦ rw (all_positive, over) refl
    | inr held ↦ elim lost [
      | inl ex ↦ rw (all_positive, held, gen_server_x_and_y, ex) refl
      | inr (ex, ey) ↦ rw (all_positive, held, gen_server_x_and_y, ex, ey) refl
    ]
  ]

  -- The configuration that an exact decomposition `a * b` leads to.
  abbrev pub decomposed : ℕ → ℕ → Config
  decomposed a b = record blank_config { server_amount = a * b; server_x_num = a; server_y_num = b }

  pub settle-Found :
      (s : Scan)
      → Found cx cy fx fy best pos_x pos_y hx hy s
      → (a : ℕ) × (b : ℕ) × (cx % a ≡ 0)
        × (cy % b ≡ 0)
        × (a * b ≡ best)
        × (settle blank_config best fx fy s
            ≡ (if ltb servers (a * b) then invalid_init_arg else ok (decomposed a b)))
  unfolding settle
  settle-Found s f = (
    nth fx f.x,
    nth fy (f.rows - 1),
    (hx.divides f.x f.col).1,
    (hy.divides (f.rows - 1) (omega (arith, f.row, f.high))).1,
    f.exact,
    ground (arith, f.sub, f.index, f.col, f.row, f.high),
  )

  pub settle-Missed :
      (s : Scan)
      → Missed cx cy fx fy best pos_x pos_y hx hy s
      → settle blank_config best fx fy s
        ≡ (if ltb (5 * (cx * cy)) (2 * best) then fault else invalid_init_arg)
  unfolding settle
  settle-Missed s m = elim (Bool-cases (ltb (5 * (cx * cy)) (2 * best))) [
    | inl far ↦ rw (m.sub, far, m.unset (ground arith))
    | inr near ↦ rw (m.sub, near)
  ]

  quotient : (n d : ℕ) → n % d ≡ 0 → n / d * d ≡ n
  quotient n d h = omega (arith, mod-add-div' n d)

  pub decomposed-IsValid : (a b : ℕ) → cx % a ≡ 0 → cy % b ≡ 0 → IsValid (decomposed a b)
  decomposed-IsValid a b ha hb = record {
    clients = refl;
    servers = refl;
    divides_x = quotient cx a ha;
    divides_y = quotient cy b hb;
    some_x = pos_x;
    some_y = pos_y;
  }

  pub Missed-pair :
      (s : Scan) (a b : ℕ)
      → Missed cx cy fx fy best pos_x pos_y hx hy s
      → cx % a ≡ 0
      → cy % b ≡ 0
      → a * b ≢ best
  Missed-pair s a b m ha hb e =
      let (p, lp, ep) = hx.complete a (factor_pos a b (omega arith)) ha in
      let (q, lq, eq) = hy.complete b (factor_pos b a (omega arith)) hb in
      m.none_exact p q lp lq (ap₂ ◌*◌ ep eq ∙ e)
    where
      factor_pos : (u v : ℕ) → 0 < u * v → 0 < u
      factor_pos zero v h = absurd (omega arith)
      factor_pos (suc u) v h = omega arith
