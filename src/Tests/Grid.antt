-- ===== src/Tests/Grid.antt =====
-- A grid of six clients.
use cfio.Prelude.{
  ℕ, zero, suc, ◌*◌, ◌%◌, ◌≤◌, ◌≡◌, ◌≢◌, refl, some, List, if◌then◌else◌, ltb, length, get_elem?,
  arith,
}
use cfio.Map.{
  Config, client, server, proc_type, get_clients, get_client_num_of_server, get_server_of_client,
  get_client_index_of_server, get_factor, ok, invalid_init_arg, fault, init, IsValid, small_factors,
  mirrored, gen_server_x_and_y, scan, scan_step, settle,
}
use cfio.Map.Divisors.{IsFactors}
use cfio.Map.Ints.{get_factor-IsFactors}
use cfio.Map.Search.{divisor_le}
use cfio.Map.Pairing.{get_clients-server, client-get_clients}
use cfio.Map.Init.{init-ok, init-IsValid, init_inexact}

-- Columns 3, rows 2; one server for each column.
abbrev pub grid : Config
grid = record {
  client_amount = 6;
  client_x_num = 3;
  client_y_num = 2;
  comm = 0;
  server_amount = 3;
  server_x_num = 3;
  server_y_num = 1;
  server_comm = 1;
}

pub grid-IsValid : IsValid grid
grid-IsValid = omega arith

pub seven : proc_type grid 7 ≡ server
unfolding proc_type
seven = refl

four : proc_type grid 4 ≡ client
unfolding proc_type
four = refl

get_clients-server_example :
    (l : List ℕ) × (k : ℕ) × (get_clients grid 7 ≡ some l)
    × (get_client_num_of_server grid 7 ≡ some (length l))
    × (get_elem? l 1 ≡ some k)
    × (proc_type grid k ≡ client)
    × (get_server_of_client grid k ≡ 7)
    × (get_client_index_of_server grid k ≡ 1)
get_clients-server_example = get_clients-server grid 7 1 grid-IsValid seven (omega arith)

client-get_clients_example :
    (l : List ℕ) × (proc_type grid (get_server_of_client grid 4) ≡ server)
    × (get_clients grid (get_server_of_client grid 4) ≡ some l)
    × (get_elem? l (get_client_index_of_server grid 4) ≡ some 4)
client-get_clients_example = client-get_clients grid 4 grid-IsValid four

init-ok_example :
    (c : Config) × (init 3 2 4 3 0 1 ≡ some (ok c))
    × IsValid c
    × (c.server_amount ≡ 3)
    × (c.client_x_num ≡ 3)
    × (c.client_y_num ≡ 2)
init-ok_example =
    init-ok 3 2 4 3 0 1 3 1 (omega arith) (omega arith) (omega arith) (omega arith) (omega arith)
      refl (omega arith) (omega arith) (omega arith) (omega arith) (omega arith)

sets_up : init 3 2 3 3 0 1 ≡ some (ok grid)
unfolding init gen_server_x_and_y get_factor small_factors mirrored scan scan_step settle
sets_up = refl

init-IsValid_example : IsValid grid × (grid.server_amount ≡ 3) × (3 ≤ 3)
init-IsValid_example = init-IsValid 3 2 3 3 0 1 grid sets_up

-- No product of two divisors of 2 is 3.
not_three : (a b : ℕ) → 2 % a ≡ 0 → 2 % b ≡ 0 → a * b ≢ 3
not_three a b ha hb = small a b (divisor_le 2 a (omega arith) ha) (divisor_le 2 b (omega arith) hb)
  where
    small : (a b : ℕ) → a ≤ 2 → b ≤ 2 → a * b ≢ 3
    small zero b p q = λ e. absurd (omega arith)
    small (suc zero) b p q = λ e. absurd (omega arith)
    small (suc (suc zero)) b p q = λ e. absurd (omega arith)
    small (suc (suc (suc a))) b p q = λ e. absurd (omega arith)

init_inexact_example :
    init 2 2 3 3 0 1 ≡ some (if ltb (5 * (2 * 2)) (2 * 3) then fault else invalid_init_arg)
init_inexact_example =
    init_inexact 2 2 3 3 0 1 (omega arith) (omega arith) (omega arith) (omega arith) (omega arith)
      (omega arith) (omega arith) not_three

get_factor-IsFactors_example :
    (factor : List ℕ) × (get_factor 12 ≡ some factor) × IsFactors 12 factor
get_factor-IsFactors_example = get_factor-IsFactors 12 (omega arith) (omega arith)
