-- ===== src/Map/Clients.antt =====
-- common/map.c: clients and servers find one another.
use native.Mathlib.Nat.{
  mod-add-div', mod-lt, div-eq_of_lt, mod-eq_of_lt, add-mul-div_right, add-mul-mod_self_right,
  div-lt_iff_lt-mul, mul-div_left, mul_comm,
}
use cfio.Prelude.{ℕ, zero, suc, ◌+◌, ◌*◌, ◌/◌, ◌%◌, ◌<◌, ◌≡◌, refl, sym, ◌∙◌, ap, ap₂, arith}
use cfio.Map.{
  Config, client_per_server_x, client_per_server_y, client_at, get_client_index_of_server,
  get_server_of_client, IsValid,
}

-- A number below `n * m` by its two digits.
digit_div : (x y n : ℕ) → x < n → (x + y * n) / n ≡ y
digit_div x y n h =
    add-mul-div_right x y (omega arith) ∙ ap (λ k. k + y) (div-eq_of_lt h) ∙ omega arith

digit_mod : (x y n : ℕ) → x < n → (x + y * n) % n ≡ x
digit_mod x y n h = add-mul-mod_self_right x y n ∙ mod-eq_of_lt h

digits_lt : (x y n m : ℕ) → x < n → y < m → x + y * n < n * m
digits_lt x y n m h k = grind arith

digits : (k n : ℕ) → k % n + k / n * n ≡ k
digits k n = mod-add-div' k n

div_lt : (k n m : ℕ) → 0 < n → k < m * n → k / n < m
div_lt k n m pos h = (div-lt_iff_lt-mul pos).1 h

pos_left : (a b : ℕ) → 0 < a * b → 0 < a
pos_left zero b h = absurd (omega arith)
pos_left (suc a) b h = omega arith

pos_right : (a b : ℕ) → 0 < a * b → 0 < b
pos_right a b h = pos_left b a (omega arith)

regroup : (a b x y : ℕ) → a * x * (b * y) ≡ a * b * (x * y)
regroup a b x y = omega arith

module _ (c : Config) (v : IsValid c) where
  open c use {
    client_amount, client_x_num as cx, client_y_num as cy, server_amount, server_x_num as sx,
    server_y_num as sy,
  }

  abbrev pub px : ℕ
  px = client_per_server_x c

  abbrev pub py : ℕ
  py = client_per_server_y c

  px_pos : 0 < px
  px_pos = pos_left (client_per_server_x c) sx (omega (arith, v.divides_x, v.some_x))

  py_pos : 0 < py
  py_pos = pos_left (client_per_server_y c) sy (omega (arith, v.divides_y, v.some_y))

  sx_pos : 0 < sx
  sx_pos = pos_right (client_per_server_x c) sx (omega (arith, v.divides_x, v.some_x))

  sy_pos : 0 < sy
  sy_pos = pos_right (client_per_server_y c) sy (omega (arith, v.divides_y, v.some_y))

  cx_eq : px * sx ≡ cx
  cx_eq = v.divides_x

  cy_eq : py * sy ≡ cy
  cy_eq = v.divides_y

  server_amount_pos : 0 < server_amount
  server_amount_pos = rw v.servers (grind (arith, sx_pos, sy_pos))

  -- Every server has the same number of clients: a rectangle of the grid.
  pub clients_per_server : client_amount / server_amount ≡ px * py
  clients_per_server =
      ap (λ n. n / server_amount)
        (v.clients
          ∙ ap₂ ◌*◌ (sym cx_eq) (sym cy_eq)
          ∙ regroup px py sx sy
          ∙ ap (λ n. px * py * n) (sym v.servers))
      ∙ mul-div_left (px * py) server_amount_pos

  module _ (index i : ℕ) (hs : index < server_amount) (hi : i < px * py) where
    abbrev pub x : ℕ
    x = i % px + index % sx * px

    abbrev pub y : ℕ
    y = i / px + index / sx * py

    row : i / px < py
    row = div_lt i px py px_pos (omega (arith, mul_comm px py))

    band : index / sx < sy
    band = div_lt index sx sy sx_pos (omega (arith, v.servers, mul_comm sx sy))

    x_lt : x < cx
    x_lt = omega (
      arith,
      digits_lt (i % px) (index % sx) px sx (mod-lt i px_pos) (mod-lt index sx_pos),
      cx_eq,
    )

    y_lt : y < cy
    y_lt = omega (arith, digits_lt (i / px) (index / sx) py sy row band, cy_eq)

    client_at_lem : client_at c index i ≡ x + y * cx
    unfolding client_at
    client_at_lem = refl

    pub client_at-lt : client_at c index i < client_amount
    client_at-lt = rw (client_at_lem, v.clients) (digits_lt x y cx cy x_lt y_lt)

    -- The `i`-th client of a server has this server for its own.
    pub server-client_at : get_server_of_client c (client_at c index i) ≡ index + client_amount
    unfolding get_server_of_client
    server-client_at =
        rw (client_at_lem, digit_mod x y cx x_lt, digit_div x y cx x_lt)
          (rw
            (
              digit_div (i % px) (index % sx) px (mod-lt i px_pos),
              digit_div (i / px) (index / sx) py row,
            )
            (ap (λ n. n + client_amount) (digits index sx)))

    -- The `i`-th client of a server has the index `i` in this server.
    pub index-client_at : get_client_index_of_server c (client_at c index i) ≡ i
    unfolding get_client_index_of_server
    index-client_at =
        rw (client_at_lem, digit_mod x y cx x_lt, digit_div x y cx x_lt)
          (rw
            (
              digit_mod (i % px) (index % sx) px (mod-lt i px_pos),
              digit_mod (i / px) (index / sx) py row,
            )
            (digits i px))

  module _ (id : ℕ) (h : id < client_amount) where
    abbrev pub home_index : ℕ
    home_index = id % cx / px + id / cx / py * sx

    col_lt : id % cx / px < sx
    col_lt =
        div_lt (id % cx) px sx px_pos (omega (arith, mod-lt id v.some_x, cx_eq, mul_comm px sx))

    line_lt : id / cx < cy
    line_lt = div_lt id cx cy v.some_x (omega (arith, v.clients, mul_comm cx cy))

    band_lt : id / cx / py < sy
    band_lt = div_lt (id / cx) py sy py_pos (omega (arith, line_lt, cy_eq, mul_comm py sy))

    pub server_lem : get_server_of_client c id ≡ home_index + client_amount
    unfolding get_server_of_client
    server_lem = refl

    pub home_index-lt : home_index < server_amount
    home_index-lt =
        omega (arith, digits_lt (id % cx / px) (id / cx / py) sx sy col_lt band_lt, v.servers)

    index_lem : get_client_index_of_server c id ≡ id % cx % px + id / cx % py * px
    unfolding get_client_index_of_server
    index_lem = refl

    pub index-lt : get_client_index_of_server c id < px * py
    index-lt = rw index_lem (
        digits_lt (id % cx % px) (id / cx % py) px py (mod-lt (id % cx) px_pos)
          (mod-lt (id / cx) py_pos))

    -- A client is the client of its server that its index says.
    pub client_at-home : client_at c home_index (get_client_index_of_server c id) ≡ id
    unfolding client_at
    client_at-home =
        let m = mod-lt (id % cx) px_pos in
        rw
          (
            index_lem,
            digit_mod (id % cx % px) (id / cx % py) px m,
            digit_div (id % cx % px) (id / cx % py) px m,
            digit_mod (id % cx / px) (id / cx / py) sx col_lt,
            digit_div (id % cx / px) (id / cx / py) sx col_lt,
            digits (id % cx) px,
            digits (id / cx) py,
          )
          (digits id cx)
