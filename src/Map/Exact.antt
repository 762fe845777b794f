-- ===== src/Map/Exact.antt =====
-- common/map.c: the divisors and the search with numbers of any size, for the functions whose `int`s
-- may overflow.
use cfio.Prelude.{
  ℕ, zero, suc, ◌+◌, ◌-◌, ◌*◌, ◌%◌, Bool, true, false, ◌&&◌, List, [], ◌∷◌, ◌++◌, some, ltb, leb,
  ◌==◌, if◌then◌else◌, length, get_or,
}
use cfio.Map.{Scan, mirrored, note_min}

-- The divisors from `i` up to the square root, ascending.
unfoldable pub small_divisors : ℕ → ℕ → ℕ → List ℕ
small_divisors zero i n = []
small_divisors (suc fuel) i n =
    let rest = small_divisors fuel (i + 1) n in
    if leb (i * i) n then (if n % i == 0 then i ∷ rest else rest) else []

unfoldable pub divisors : ℕ → List ℕ
unfolding small_divisors mirrored
divisors n =
    let factor = small_divisors n 1 n in
    let index = length factor - 1 in
    let last = get_or factor index 0 in
    factor ++ mirrored (if last * last == n then index else index + 1) factor n

-- One round of the search.
unfoldable pub walk_step : List ℕ → List ℕ → ℕ → Scan → Bool × Scan
walk_step factor_x factor_y best s =
    let mul = get_or factor_x s.index_x 0 * get_or factor_y (s.rows - 1) 0 in
    if mul == best
    then (true, record s { min_sub = 0; min_index = some (s.index_x, s.rows) })
    else if ltb mul best
    then (false, note_min (record s { index_x = s.index_x + 1 }) (best - mul))
    else (false, note_min (record s { rows = s.rows - 1 }) (mul - best))

unfoldable pub walk : ℕ → List ℕ → List ℕ → ℕ → Scan → Scan
unfolding walk_step
walk zero factor_x factor_y best s = s
walk (suc fuel) factor_x factor_y best s =
    let (done, s') = walk_step factor_x factor_y best s in
    let rest = walk fuel factor_x factor_y best s' in
    if ltb s.index_x (length factor_x) && ltb 0 s.rows then (if done then s' else rest) else s
