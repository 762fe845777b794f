-- ===== src/Tests/Handlers.antt =====
-- A server of the grid, with a library that counts what it was asked.
use cfio.Prelude.{
  ℕ, zero, suc, ◌+◌, ◌≡◌, ◌≢◌, refl, sym, ◌∙◌, ap, ◌⊎◌, inl, inr, false, none, some, List, [], ◌∷◌,
  get_elem?, arith,
}
use mathlib.Core.Option.{some-injective}
use cfio.Memory.{Bytes, decode}
use cfio.Table.{search}
use cfio.Map.{
  clients_from, client_at, proc_type, get_client_num_of_server, get_clients, get_server_index,
  get_client_index_of_server,
}
use cfio.Map.Pairing.{client-get_clients}
use cfio.Id.{Key}
use cfio.Id.Server.{Entry}
use cfio.Io.{IoKey}
use cfio.Io.Served.{Member, All, IsServed}
use cfio.Handlers.{Netcdf, Server, Setting, error_none, int_words}
use cfio.Handlers.Created.{Absent}
use cfio.Handlers.Enddef.{enddef, enddef_key, put_atts}
use cfio.Handlers.Known.{Known}
use cfio.Handlers.Run.{define_all}
use cfio.Handlers.Ended.{file_of}
use cfio.Handlers.Requests.{
  DefineRequest, create_again, dim_request, var_request, EachFit, handle_each, declare_each,
}
use cfio.Handlers.Collect.{each_client}
use cfio.Handlers.Define.{create}
use cfio.Handlers.Whole.{whole-defines}
use cfio.Tests.Tables.{table}
use cfio.Tests.Grid.{grid, grid-IsValid, seven}
use cfio.Tests.Pending.{requests, nothing, one-IsServed, four-IsServed}

-- The library's state is how often it was called.
abbrev pub counting : Netcdf ℕ
counting = record {
  noerr = 0;
  nc_global = 4294967295;
  nc_nat = 0;
  nc_byte = 1;
  nc_char = 2;
  nc_short = 3;
  nc_int = 4;
  nc_float = 5;
  nc_double = 6;
  create = λ l path cmode. (0, 5, l + 1);
  def_dim = λ l nc name len. (0, l, l + 1);
  def_var = λ l nc name xtype dims. (0, l, l + 1);
  put_att_text = λ l nc var name len bytes. (0, l + 1);
  put_att_of = λ t l nc var name xtype len bytes. (0, l + 1);
  enddef = λ l nc. (0, l + 1);
  put_vara_all = λ t l nc var start count bytes. (0, l + 1);
  close = λ l nc. (0, l + 1);
}

abbrev pub setting : Setting (Key → List Entry) (IoKey → List Bytes) ℕ
setting = record {
  map_ops = table;
  io_ops = requests;
  lib = counting;
  config = grid;
  server_id = 7;
}

abbrev pub no_files : Key → List Entry
no_files _ = []

abbrev pub start : Server (Key → List Entry) (IoKey → List Bytes) ℕ
start = record { map_table = no_files; io_table = nothing; nc = 0; mem = λ q. 0 }

abbrev pub asked : List DefineRequest
asked =
    dim_request (120 ∷ 0 ∷ []) 4 1
    ∷ create_again (102 ∷ 0 ∷ []) 0
    ∷ dim_request (120 ∷ 0 ∷ []) 4 1
    ∷ var_request (84 ∷ 0 ∷ []) 5 1 (1 ∷ 0 ∷ 0 ∷ 0 ∷ []) 1
    ∷ []

pub two : get_client_num_of_server grid 7 ≡ some 2
unfolding get_client_num_of_server proc_type
two = refl

no_enddef : search requests nothing (enddef_key 1) ≡ none
unfolding search
no_enddef = refl

pub no_file : Absent table no_files 1
unfolding search
no_file = record { no_file = refl; no_dim = λ i ni. refl; no_var = λ i ni. refl }

both_clients : get_clients grid 7 ≡ some (1 ∷ 4 ∷ [])
unfolding get_clients get_server_index get_client_num_of_server proc_type clients_from client_at
both_clients = refl

of_both : (i j : ℕ) → get_elem? (1 ∷ 4 ∷ []) j ≡ some i → (i ≡ 4) ⊎ Member i (1 ∷ [])
of_both i zero e = inr (inl (ground arith))
of_both i (suc zero) e = inl (ground arith)
of_both i (suc (suc j)) e = absurd (ground arith)

pub one_or_four : (i : ℕ) → IsServed grid 7 i → (i ≡ 4) ⊎ Member i (1 ∷ [])
one_or_four i s =
    let (l, _, clients, found) = client-get_clients grid i grid-IsValid s.is_client in
    let same : (1 ∷ 4 ∷ []) ≡ l =
      some-injective (1 ∷ 4 ∷ []) l
        (sym both_clients ∙ ap (get_clients grid) (sym s.home) ∙ clients) in
    of_both i (get_client_index_of_server grid i)
      (ap (λ x. get_elem? x (get_client_index_of_server grid i)) same ∙ found)

pub one_not_last : All (λ i. i ≢ 4) (1 ∷ [])
one_not_last = ((λ e. ground arith), tt)

pub asked-EachFit : EachFit [] asked
unfolding int_words decode
asked-EachFit = (
  (λ e. ground arith),
  (tt, ((λ e. ground arith), (((λ e. ground arith), ((λ e. ground arith), tt), refl), tt))),
)

defined : define_all setting 5 (declare_each [] asked) [] [] 1 ≡ some ((1, 1) ∷ [], (1, 2) ∷ [], 3)
unfolding define_all put_atts int_words decode
defined = refl

whole-defines_example :
    (a b t : Key → List Entry) × (u : IoKey → List Bytes) × (create setting (102 ∷ 0 ∷ []) 0 1 start
      ≡ some (error_none, record start { map_table = a; nc = 1 }))
    × (handle_each setting 1 asked (record start { map_table = a; nc = 1 })
        ≡ some (error_none, record start { map_table = b; nc = 1 }))
    × (each_client (λ i. enddef setting i 1) (record start { map_table = b; nc = 1 }) (1 ∷ []) 4
        ≡ some (error_none, record start { map_table = t; io_table = u; nc = 4 }))
    × Known table t 1
        (file_of 1 (record { nc_id = 5; define_mode = false }) (declare_each [] asked))
        ((1, 1) ∷ [])
        ((1, 2) ∷ [])
    × (search requests u (enddef_key 1) ≡ none)
whole-defines_example =
    whole-defines setting 2 1 grid-IsValid seven two (λ e. ground arith) 4 four-IsServed start
      (102 ∷ 0 ∷ []) 0 5 1 asked (1 ∷ []) ((1, 1) ∷ [], (1, 2) ∷ [], 3) 0 4 no_file refl
      (λ e. ground arith) asked-EachFit defined refl refl no_enddef (one-IsServed, tt) one_not_last
      one_or_four
