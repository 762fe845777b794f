-- ===== src/Tests/Pending.antt =====
-- A server of the grid waits for a request from its two clients.
use cfio.Prelude.{
  ℕ, ◌≡◌, ◌≢◌, refl, Bool, true, false, ◌&&◌, ◌↔◌, none, some, List, [], ◌∷◌, ◌==◌, arith,
}
use cfio.Memory.{Bytes}
use cfio.Table.{HashTable, search}
use cfio.Map.{proc_type, get_server_of_client}
use cfio.Io.{IoKey, bitmap_full, remove_client_io}
use cfio.Io.Served.{Member, IsServed}
use cfio.Io.Pending.{recv_each, recv_each-full}
use cfio.Tests.Tables.{table_of}
use cfio.Tests.Grid.{grid, grid-IsValid, seven}

abbrev pub io_key_eq : IoKey → IoKey → Bool
io_key_eq k l =
    ((k.func_code == l.func_code) && (k.client_nc_id == l.client_nc_id))
    && ((k.client_dim_id == l.client_dim_id) && (k.client_var_id == l.client_var_id))

pub io_key_eq_refl : (k : IoKey) → io_key_eq k k ≡ true
io_key_eq_refl k = ground arith

pub io_key_apart : (k l : IoKey) → k ≢ l → io_key_eq k l ≡ false
io_key_apart k l h = ground arith

abbrev pub requests : HashTable IoKey Bytes (IoKey → List Bytes)
requests = table_of io_key_eq io_key_eq_refl io_key_apart

abbrev pub nothing : IoKey → List Bytes
nothing _ = []

abbrev enddef_of_file : IoKey
enddef_of_file = record { func_code = 5; client_nc_id = 1; client_dim_id = 0; client_var_id = 0 }

nothing_yet : search requests nothing enddef_of_file ≡ none
unfolding search
nothing_yet = refl

pub one-IsServed : IsServed grid 7 1
unfolding proc_type get_server_of_client
one-IsServed = record { is_client = refl; home = refl }

pub four-IsServed : IsServed grid 7 4
unfolding proc_type get_server_of_client
four-IsServed = record { is_client = refl; home = refl }

recv_each-full_example :
    (last : Bytes) × (u : IoKey → List Bytes) × (r : Bool) × (recv_each requests grid 7
        enddef_of_file nothing 1
        (4 ∷ [])
      ≡ some (last, u))
    × (search requests u enddef_of_file ≡ some last)
    × (bitmap_full grid 7 last ≡ some r)
    × ((r ≡ true) ↔ ((j : ℕ) → IsServed grid 7 j → Member j (1 ∷ 4 ∷ [])))
    × (search requests (remove_client_io requests u enddef_of_file) enddef_of_file ≡ none)
recv_each-full_example =
    recv_each-full requests grid 7 enddef_of_file grid-IsValid seven nothing 1 (4 ∷ []) nothing_yet
      (one-IsServed, (four-IsServed, tt))
