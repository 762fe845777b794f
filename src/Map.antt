-- ===== src/Map.antt =====
-- common/map.c: which server process serves which client processes. The file's static variables are
-- a record. The search for the servers faults where an `int` overflows; the counts of an accepted grid
-- and the numbers of its processes are `int`s, whose sums and products then stay in range.
pub mod Clients
pub mod Pairing
pub mod Exact
pub mod Divisors
pub mod Factors
pub mod Search
pub mod Ints
pub mod Settle
pub mod Init
use cfio.Prelude.{
  ℕ, zero, suc, ◌+◌, ◌-◌, ◌*◌, ◌/◌, ◌%◌, ◌^◌, ◌<◌, ◌≤◌, ◌≡◌, Bool, true, false, ◌&&◌, Option, none,
  some, List, [], ◌∷◌, ◌++◌, ltb, leb, ◌==◌, if◌then◌else◌, length, get_or, ◌>>=◌,
}

pub record Config : Type 0 where
  pub client_amount : ℕ
  pub client_x_num : ℕ
  pub client_y_num : ℕ
  pub comm : ℕ
  pub server_amount : ℕ
  pub server_x_num : ℕ
  pub server_y_num : ℕ
  pub server_comm : ℕ

-- CFIO_MAP_TYPE_CLIENT, CFIO_MAP_TYPE_SERVER and CFIO_MAP_TYPE_BLANK
pub data ProcType : Type 0 where
  client server blank : ProcType

unfoldable pub proc_type : Config → ℕ → ProcType
proc_type c id =
    if ltb id c.client_amount
    then client
    else if ltb id (c.client_amount + c.server_amount)
    then server
    else blank

-- A process that is no server fails the assertion.
unfoldable pub get_server_index : Config → ℕ → Option ℕ
get_server_index c id = elim (proc_type c id) [ server ↦ some (id - c.client_amount) | _ ↦ none ]

unfoldable pub get_client_num_of_server : Config → ℕ → Option ℕ
get_client_num_of_server c id = elim (proc_type c id) [
  | server ↦ some (c.client_amount / c.server_amount)
  | _ ↦ none
]

abbrev pub client_per_server_x : Config → ℕ
client_per_server_x c = c.client_x_num / c.server_x_num

abbrev pub client_per_server_y : Config → ℕ
client_per_server_y c = c.client_y_num / c.server_y_num

-- The `i`-th client of the server with the given index.
unfoldable pub client_at : Config → ℕ → ℕ → ℕ
client_at c index i =
    let px = client_per_server_x c in
    let py = client_per_server_y c in
    let x = i % px + index % c.server_x_num * px in
    let y = i / px + index / c.server_x_num * py in x + y * c.client_x_num

-- The loop that fills the caller's array, from the `i`-th entry on.
unfoldable pub clients_from : Config → ℕ → ℕ → ℕ → List ℕ
clients_from c index i zero = []
clients_from c index i (suc n) = client_at c index i ∷ clients_from c index (i + 1) n

unfoldable pub get_clients : Config → ℕ → Option (List ℕ)
unfolding get_server_index get_client_num_of_server
get_clients c id = elim (get_server_index c id) [
  | none ↦ none
  | some index ↦ elim (get_client_num_of_server c id) [
    | none ↦ none
    | some n ↦ some (clients_from c index 0 n)
  ]
]

unfoldable pub get_client_index_of_server : Config → ℕ → ℕ
get_client_index_of_server c id =
    let px = client_per_server_x c in
    let py = client_per_server_y c in id % c.client_x_num % px + id / c.client_x_num % py * px

unfoldable pub get_server_of_client : Config → ℕ → ℕ
get_server_of_client c id =
    let px = client_per_server_x c in
    let py = client_per_server_y c in
    id % c.client_x_num / px + id / c.client_x_num / py * c.server_x_num + c.client_amount

-- The first loop of `_get_factor`: the divisors up to the square root, in ascending order. `fuel`
-- bounds its rounds, and `none` is a square that no `int` holds.
unfoldable pub small_factors : ℕ → ℕ → ℕ → Option (List ℕ)
small_factors zero i n = some []
small_factors (suc fuel) i n =
    let rest = small_factors fuel (i + 1) n in
    if ltb (i * i) (2 ^ 31)
    then (if leb (i * i) n
        then (if n % i == 0 then rest >>= (λ factor. some (i ∷ factor)) else rest)
        else some [])
    else none

-- The second loop: `n / factor[index]` for the indices below `k`, downwards.
unfoldable pub mirrored : ℕ → List ℕ → ℕ → List ℕ
mirrored zero factor n = []
mirrored (suc index) factor n = (n / get_or factor index 0) ∷ mirrored index factor n

unfoldable pub get_factor : ℕ → Option (List ℕ)
unfolding small_factors mirrored
get_factor n = small_factors n 1 n >>= (λ factor.
    let index = length factor - 1 in
    let last = get_or factor index 0 in
    some (factor ++ mirrored (if last * last == n then index else index + 1) factor n))

-- What the search keeps. `index_y` is one less than `rows`, since it runs down to -1, and the best
-- indices are unset until the first improvement.
pub record Scan : Type 0 where
  pub index_x : ℕ
  pub rows : ℕ
  pub min_sub : ℕ
  pub min_index : Option (ℕ × ℕ)

abbrev pub note_min : Scan → ℕ → Scan
note_min s sub = if ltb sub s.min_sub then record s { min_index = some (s.index_x, s.rows) } else s

-- One round: the indices move before they are noted, and `min_sub` is only set by an exact match.
-- `none` is a product that no `int` holds.
unfoldable pub scan_step : List ℕ → List ℕ → ℕ → Scan → Option (Bool × Scan)
scan_step factor_x factor_y best s =
    let mul = get_or factor_x s.index_x 0 * get_or factor_y (s.rows - 1) 0 in
    if leb (2 ^ 31) mul
    then none
    else if mul == best
    then some (true, record s { min_sub = 0; min_index = some (s.index_x, s.rows) })
    else if ltb mul best
    then some (false, note_min (record s { index_x = s.index_x + 1 }) (best - mul))
    else some (false, note_min (record s { rows = s.rows - 1 }) (mul - best))

unfoldable pub scan : ℕ → List ℕ → List ℕ → ℕ → Scan → Option Scan
unfolding scan_step
scan zero factor_x factor_y best s = some s
scan (suc fuel) factor_x factor_y best s =
    let next = scan_step factor_x factor_y best s >>= (λ r.
      let rest = scan fuel factor_x factor_y best r.1 in if r.0 then some r.1 else rest) in
    if ltb s.index_x (length factor_x) && ltb 0 s.rows then next else some s

-- `fault`: an `int` overflows, or an index is read that was never set, or that lies outside of its
-- array.
pub data Outcome : Type 0 where
  ok : Config → Outcome
  invalid_init_arg : Outcome
  fault : Outcome

-- The indices that `rows` stands for are in range when it is positive.
unfoldable pub settle : Config → ℕ → List ℕ → List ℕ → Scan → Outcome
settle c best factor_x factor_y s =
    if ltb (5 * s.min_sub) (2 * best)
    then elim s.min_index [
      | none ↦ fault
      | some (x, rows) ↦
          (let fx = get_or factor_x x 0 in
            let fy = get_or factor_y (rows - 1) 0 in
            if ltb x (length factor_x) && (ltb 0 rows && ltb (rows - 1) (length factor_y))
            then (if ltb c.server_amount (fx * fy)
                then invalid_init_arg
                else ok
                    (record c { server_amount = fx * fy; server_x_num = fx; server_y_num = fy }))
            else fault)
    ]
    else invalid_init_arg

unfoldable pub gen_server_x_and_y : Config → ℕ → Outcome
unfolding get_factor scan settle
gen_server_x_and_y c best = elim (get_factor c.client_x_num) [
  | none ↦ fault
  | some factor_x ↦ elim (get_factor c.client_y_num) [
    | none ↦ fault
    | some factor_y ↦
        let start : Scan = record {
          index_x = 0;
          rows = length factor_y;
          min_sub = c.client_amount;
          min_index = none;
        } in
        elim (scan (length factor_x + length factor_y) factor_x factor_y best start) [
          | none ↦ fault
          | some s ↦ settle c best factor_x factor_y s
        ]
  ]
]

-- `none` is a failed assertion.
unfoldable pub init : ℕ → ℕ → ℕ → ℕ → ℕ → ℕ → Option Outcome
unfolding gen_server_x_and_y
init client_x_num client_y_num server_amount best comm server_comm =
    if ltb 0 client_x_num && (ltb 0 client_y_num && ltb 0 best)
    then some (
        if leb (2 ^ 31) (client_x_num * client_y_num)
        then fault
        else gen_server_x_and_y
            (record {
              client_amount = client_x_num * client_y_num;
              client_x_num = client_x_num;
              client_y_num = client_y_num;
              comm = comm;
              server_amount = server_amount;
              server_x_num = 0;
              server_y_num = 0;
              server_comm = server_comm;
            })
            best)
    else none

-- The servers divide the grid of clients into equal rectangles.
pub record IsValid (c : Config) : Type 0 where
  pub clients : c.client_amount ≡ c.client_x_num * c.client_y_num
  pub servers : c.server_amount ≡ c.server_x_num * c.server_y_num
  pub divides_x : client_per_server_x c * c.server_x_num ≡ c.client_x_num
  pub divides_y : client_per_server_y c * c.server_y_num ≡ c.client_y_num
  pub some_x : 0 < c.client_x_num
  pub some_y : 0 < c.client_y_num
