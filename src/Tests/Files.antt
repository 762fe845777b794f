-- ===== src/Tests/Files.antt =====
-- A client's files, over a concrete hash table.
use cfio.Prelude.{ℕ, ◌≡◌, ◌≢◌, refl, none, some, List, [], ◌∷◌, arith}
use cfio.Id.{var_key, Key, Val, done, find, nc_key, Ids, assign_dim}
use cfio.Table.{search}
use cfio.Tests.Tables.{key_eq, put, table}
use cfio.Id.Distinct.{Numbered, assign_dim_distinct}

-- File 1 has the dimension "x" with the id 1.
abbrev pub file : Val
file = record {
  client_nc_id = 1;
  client_var_id = 0;
  client_var_a = 0;
  client_dim_a = 1;
  var_head = [];
  dim_head = record { name = 120 ∷ 0 ∷ []; id = 1 } ∷ [];
  link = [];
  var = none;
}

abbrev pub ids : Ids (Key → List Val)
ids = record { open_nc_a = 1; assign_table = put key_eq (λ _. []) (nc_key 1) file }

-- -1 as an `int`
abbrev pub global : ℕ
global = 4294967295

pub file_open : search table ids.assign_table (nc_key 1) ≡ some file
unfolding search
file_open = refl

pub no_var : search table ids.assign_table (var_key 1 1) ≡ none
unfolding search
no_var = refl

pub no_file : search table ids.assign_table (nc_key 2) ≡ none
unfolding search
no_file = refl

pub no_global : search table ids.assign_table (var_key 2 global) ≡ none
unfolding search
no_global = refl

file-Numbered : Numbered file.dim_head file.client_dim_a
file-Numbered = (refl, omega arith, refl)

assign_dim_distinct_example :
    (i j : ℕ) × (t u : Ids (Key → List Val)) × (assign_dim table global ids 1 (120 ∷ 0 ∷ [])
      ≡ (done i, t))
    × (assign_dim table global t 1 (121 ∷ 0 ∷ []) ≡ (done j, u))
    × (i ≢ j)
assign_dim_distinct_example =
    assign_dim_distinct table global ids 1 (120 ∷ 0 ∷ []) (121 ∷ 0 ∷ []) file file_open
      file-Numbered (λ e. absurd (ground arith))

none_yet : find file.var_head (118 ∷ 0 ∷ []) ≡ none
unfolding find
none_yet = refl
