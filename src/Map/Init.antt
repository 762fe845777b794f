-- ===== src/Map/Init.antt =====
-- common/map.c: what `cfio_map_init` accepts, and what it then sets up.
use cfio.Prelude.{
  ℕ, ◌*◌, ◌%◌, ◌^◌, ◌<◌, ◌≤◌, ◌≡◌, ◌≢◌, refl, sym, ◌∙◌, ap, inl, inr, subst, Bool, true, false,
  some, ltb, if◌then◌else◌, arith,
}
use cfio.Map.{Config, get_factor, Outcome, ok, invalid_init_arg, fault, init, IsValid}
use cfio.Map.Exact.{divisors}
use cfio.Map.Ints.{get_factor-divisors, get_factor_or}
use cfio.Map.Settle.{
  end, ends, Missed-pair, settle-Found, settle-Missed, decomposed, decomposed-IsValid, init-settle,
  init-fault,
}

-- When the grid of clients and the wanted number of servers are positive, the wanted number is a
-- divisor of the columns times a divisor of the rows, there are as many server processes, fewer
-- than 2 ^ 31, each side of the grid is below 2147395600, the greatest square that an int holds,
-- and the clients are fewer than 2 ^ 31, cfio_map_init succeeds with a valid decomposition of the
-- grid among exactly that number of servers.
pub init-ok :
    (cx cy servers best comm server_comm a b : ℕ)
    → 0 < cx
    → 0 < cy
    → 0 < best
    → cx % a ≡ 0
    → cy % b ≡ 0
    → a * b ≡ best
    → best ≤ servers
    → servers < 2 ^ 31
    → cx < 2147395600
    → cy < 2147395600
    → cx * cy < 2 ^ 31
    → (c : Config) × (init cx cy servers best comm server_comm ≡ some (ok c))
      × IsValid c
      × (c.server_amount ≡ best)
      × (c.client_x_num ≡ cx)
      × (c.client_y_num ≡ cy)
init-ok cx cy servers best comm server_comm a b px py pb ha hb e h few sx sy area =
    let s = end cx cy servers best comm server_comm px py pb in
    elim (ends cx cy servers best comm server_comm px py pb) [
      | inr m ↦ absurd (Missed-pair cx cy servers best comm server_comm px py pb s a b m ha hb e)
      | inl f ↦
          let (u, v, hu, hv, uv, run) =
            settle-Found cx cy servers best comm server_comm px py pb s f in
          let t : ltb servers (u * v) ≡ false = ground arith in
          (
            decomposed cx cy servers best comm server_comm px py pb u v,
            init-settle cx cy servers best comm server_comm px py pb area
                  (get_factor-divisors cx sx) (get_factor-divisors cy sy)
                ∙ ap some (run ∙ rw t),
            decomposed-IsValid cx cy servers best comm server_comm px py pb u v hu hv,
            uv,
            refl,
            refl,
          )
    ]

init_pos :
    (cx cy servers best comm server_comm : ℕ) {o : Outcome}
    → init cx cy servers best comm server_comm ≡ some o
    → (0 < cx) × (0 < cy) × (0 < best)
unfolding init
init_pos cx cy servers best comm server_comm h = (ground arith, ground arith, ground arith)

-- What is accepted did not overflow.
init_area :
    (cx cy servers best comm server_comm : ℕ) (c : Config)
    → init cx cy servers best comm server_comm ≡ some (ok c)
    → cx * cy < 2 ^ 31
unfolding init
init_area cx cy servers best comm server_comm c h = ground arith

init_factors :
    (cx cy servers best comm server_comm : ℕ) (c : Config)
    → init cx cy servers best comm server_comm ≡ some (ok c)
    → 0 < cx
    → 0 < cy
    → 0 < best
    → (get_factor cx ≡ some (divisors cx)) × (get_factor cy ≡ some (divisors cy))
init_factors cx cy servers best comm server_comm c h px py pb =
    let fails = init-fault cx cy servers best comm server_comm px py pb in
    elim (get_factor_or cx) [
      | inl ex ↦ absurd (never_fault (sym h ∙ fails (inl ex)))
      | inr ex ↦ elim (get_factor_or cy) [
        | inl ey ↦ absurd (never_fault (sym h ∙ fails (inr (ex, ey))))
        | inr ey ↦ (ex, ey)
      ]
    ]
  where
    never_fault : {c : Config} → ¬ (some (ok c) ≡ some fault)
    never_fault h = cc

never_ok : (b : Bool) {c : Config} → ¬ (some (if b then fault else invalid_init_arg) ≡ some (ok c))
never_ok true h = cc
never_ok false h = cc

accepted :
    (servers n : ℕ) {d c : Config}
    → some (if ltb servers n then invalid_init_arg else ok d) ≡ some (ok c)
    → (n ≤ servers) × (d ≡ c)
accepted servers n h = (ground arith, ground arith)

-- What cfio_map_init accepts, without an int that overflows, is a valid decomposition with exactly
-- the wanted number of servers, which is at most the number of server processes.
pub init-IsValid :
    (cx cy servers best comm server_comm : ℕ) (c : Config)
    → init cx cy servers best comm server_comm ≡ some (ok c)
    → IsValid c × (c.server_amount ≡ best) × (best ≤ servers)
init-IsValid cx cy servers best comm server_comm c h =
    let (px, py, pb) = init_pos cx cy servers best comm server_comm h in
    let s = end cx cy servers best comm server_comm px py pb in
    let area = init_area cx cy servers best comm server_comm c h in
    let (ex, ey) = init_factors cx cy servers best comm server_comm c h px py pb in
    let run = sym (init-settle cx cy servers best comm server_comm px py pb area ex ey) ∙ h in
    elim (ends cx cy servers best comm server_comm px py pb) [
      | inr m ↦ absurd (
          never_ok _
            (sym (ap some (settle-Missed cx cy servers best comm server_comm px py pb s m)) ∙ run))
      | inl f ↦
          let (u, v, hu, hv, uv, found) =
            settle-Found cx cy servers best comm server_comm px py pb s f in
          let (fits, same) = accepted servers (u * v) (sym (ap some found) ∙ run) in
          subst (λ c. IsValid c × (c.server_amount ≡ best) × (best ≤ servers)) same
            (
              decomposed-IsValid cx cy servers best comm server_comm px py pb u v hu hv,
              uv,
              omega arith,
            )
    ]

-- When the grid and the wanted number of servers are positive, the wanted number is below 2 ^ 31
-- and no product of a divisor of the columns and a divisor of the rows, each side of the grid is
-- below 2147395600, the greatest square that an int holds, and the clients are fewer than 2 ^ 31,
-- cfio_map_init never succeeds: it reports the invalid argument, or, where twice the wanted number
-- exceeds five times the number of clients, reads an index that was never set.
pub init_inexact :
    (cx cy servers best comm server_comm : ℕ)
    → 0 < cx
    → 0 < cy
    → 0 < best
    → best < 2 ^ 31
    → cx < 2147395600
    → cy < 2147395600
    → cx * cy < 2 ^ 31
    → ((a b : ℕ) → cx % a ≡ 0 → cy % b ≡ 0 → a * b ≢ best)
    → init cx cy servers best comm server_comm
      ≡ some (if ltb (5 * (cx * cy)) (2 * best) then fault else invalid_init_arg)
init_inexact cx cy servers best comm server_comm px py pb few sx sy area none_exact =
    let s = end cx cy servers best comm server_comm px py pb in
    init-settle cx cy servers best comm server_comm px py pb area (get_factor-divisors cx sx)
      (get_factor-divisors cy sy)
    ∙ ap some (elim (ends cx cy servers best comm server_comm px py pb) [
      | inr m ↦ settle-Missed cx cy servers best comm server_comm px py pb s m
      | inl f ↦
          let (u, v, hu, hv, uv, _) =
            settle-Found cx cy servers best comm server_comm px py pb s f in
          absurd (none_exact u v hu hv uv)
    ])
