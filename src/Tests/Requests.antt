-- ===== src/Tests/Requests.antt =====
-- Requests that a server of the grid gets for its files.
use cfio.Prelude.{
  ℕ, ◌+◌, ◌≡◌, ◌≢◌, refl, sym, if◌then◌else◌, true, false, none, some, List, [], ◌∷◌, ◌==◌, arith,
}
use cfio.Memory.{Bytes}
use cfio.Table.{search}
use cfio.Id.{Key, nc_key, var_key}
use cfio.Id.Server.{Nc, Entry, nc_entry, dim_entry, var_entry, no_data, dim_key, invalid, get_nc}
use cfio.Id.Remove.{Excludes, Distinct, Gone}
use cfio.Handlers.Declare.{dim_apart_nc, var_apart_nc, dim_apart_var}
use cfio.Io.{IoKey}
use cfio.Message.{func_nc_close}
use cfio.Handlers.{Server, Setting, error_none, error_nc}
use cfio.Handlers.Define.{create}
use cfio.Handlers.Write.{close, io_key}
use cfio.Handlers.Created.{create_failed}
use cfio.Handlers.Spec.{Holds}
use cfio.Handlers.Requests.{handle_each, declare_each, handle_each-declares}
use cfio.Handlers.Run.{IsReady}
use cfio.Handlers.Collect.{each_client}
use cfio.Handlers.Protocol.{close-forgets}
use cfio.Tests.Tables.{table, key_eq}
use cfio.Tests.Grid.{grid-IsValid, seven}
use cfio.Tests.Pending.{requests, nothing, one-IsServed, four-IsServed}
use cfio.Tests.Handlers.{
  counting, setting, no_files, start, asked, two, no_file, one_not_last, one_or_four, asked-EachFit,
}

abbrev refusing : Setting (Key → List Entry) (IoKey → List Bytes) ℕ
refusing = record setting { lib = record counting { create = λ l path cmode. (7, 0, l + 1) } }

create_failed_example :
    (u : Server (Key → List Entry) (IoKey → List Bytes) ℕ) × (create refusing
        (102 ∷ 0 ∷ [])
        0
        1
        start
      ≡ some (error_nc, u))
    × (get_nc table u.map_table 1 ≡ some (some (record { nc_id = invalid; define_mode = true })))
    × (create refusing (102 ∷ 0 ∷ []) 0 1 u ≡ some (error_none, u))
create_failed_example =
    create_failed refusing 2 1 start (102 ∷ 0 ∷ []) 0 0 1 (102 ∷ 0 ∷ []) 0 no_file 7
      (λ e. ground arith) refl

-- A file without definitions.
abbrev pub file : Nc
file = record { nc_id = 5; define_mode = true }

abbrev pub opened : Key → List Entry
opened = table.add no_files (nc_key 1) (nc_entry 1 5)

zero_apart : (i : ℕ) → i ≢ 0 → (0 == i) ≡ false
zero_apart i ni = ground arith

pub opened-Holds : Holds table 2 opened 1 file []
unfolding search
opened-Holds = record { file = refl; dims = λ i ni. no_dims i ni; vars = λ i ni. no_vars i ni }
  where
    no_dims : (i : ℕ) → i ≢ 0 → search table opened (dim_key 1 i) ≡ none
    no_dims i ni = rw (zero_apart i ni)

    no_vars : (i : ℕ) → i ≢ 0 → search table opened (var_key 1 i) ≡ none
    no_vars i ni = rw (zero_apart i ni)

abbrev pub with_file : Server (Key → List Entry) (IoKey → List Bytes) ℕ
with_file = record start { map_table = opened; nc = 1 }

handle_each-declares_example :
    (t : Key → List Entry) × (handle_each setting 1 asked with_file
      ≡ some (error_none, record with_file { map_table = t }))
    × Holds table 2 t 1 file (declare_each [] asked)
    × IsReady 1 (declare_each [] asked)
handle_each-declares_example =
    handle_each-declares setting 2 1 file two (λ e. ground arith) with_file [] asked opened-Holds tt
      asked-EachFit

no_close : search requests nothing (io_key func_nc_close 1 0) ≡ none
unfolding search
no_close = refl

-- A file whose definitions have ended, with a dimension and a variable.
abbrev closing : Entry
closing = record (nc_entry 1 5) {
  nc = some (record { nc_id = 5; define_mode = false });
  link = dim_key 1 2 ∷ var_key 1 3 ∷ [];
}

abbrev ended : Key → List Entry
ended q =
    if key_eq (nc_key 1) q
    then closing ∷ []
    else if key_eq (dim_key 1 2) q
    then dim_entry 1 (record { name = 120 ∷ 0 ∷ []; nc_id = 5; dim_id = 0; global_dim_len = 4 })
      ∷ []
    else if key_eq (var_key 1 3) q
    then var_entry 1 (record {
      name = 116 ∷ 0 ∷ [];
      nc_id = 5;
      var_id = 7;
      ndims = 1;
      client_num = 2;
      dim_ids = 2 ∷ [];
      recv_data = no_data 2;
      data_type = 5;
      att_head = [];
    })
      ∷ []
    else []

abbrev with_ended : Server (Key → List Entry) (IoKey → List Bytes) ℕ
with_ended = record start { map_table = ended; nc = 1 }

link-Excludes : Excludes closing.link (nc_key 1)
link-Excludes = (dim_apart_nc 1 2 (λ e. ground arith), (var_apart_nc 1 3 (λ e. ground arith), tt))

link-Distinct : Distinct closing.link
link-Distinct = (((λ e. dim_apart_var 1 2 3 (λ q. ground arith) (sym e)), tt), (tt, tt))

closing_found : search table ended (nc_key 1) ≡ some closing
unfolding search
closing_found = refl

close-forgets_example :
    (t : Key → List Entry) × (u : IoKey → List Bytes) × (each_client
        (λ i. close setting i 1)
        with_ended
        (1 ∷ [])
        4
      ≡ some (error_none, record with_ended { map_table = t; io_table = u; nc = 2 }))
    × (search table t (nc_key 1) ≡ none)
    × Gone table t closing.link
    × (search requests u (io_key func_nc_close 1 0) ≡ none)
close-forgets_example =
    close-forgets setting 1 grid-IsValid seven 4 four-IsServed with_ended (1 ∷ []) closing
      (record { nc_id = 5; define_mode = false }) 2 closing_found refl refl link-Excludes
      link-Distinct (refl, (refl, tt)) refl no_close (one-IsServed, tt) one_not_last one_or_four
