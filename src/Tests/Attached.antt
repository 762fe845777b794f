-- ===== src/Tests/Attached.antt =====
-- The second of two clients sends an attribute of a variable.
use cfio.Prelude.{ℕ, ◌≡◌, refl, true, some, List, [], ◌∷◌, if◌then◌else◌, arith}
use cfio.Memory.{Bytes}
use cfio.Map.{proc_type, get_client_num_of_server, get_client_index_of_server}
use cfio.Table.{search}
use cfio.Id.{Key, Att}
use cfio.Id.Server.{Entry}
use cfio.Io.{IoKey, add_bitmap, bytes_full, recv_client_io, remove_client_io, bitmap_full}
use cfio.Message.{func_put_att}
use cfio.Handlers.{Server, error_none}
use cfio.Handlers.Write.{io_key, put_att}
use cfio.Handlers.Declare.{with_variable, Holds-variable}
use cfio.Handlers.Spec.{variable, Holds}
use cfio.Handlers.Attached.{put_att-Holds}
use cfio.Tests.Tables.{table}
use cfio.Tests.Grid.{grid}
use cfio.Tests.Pending.{requests, io_key_eq}
use cfio.Tests.Handlers.{setting}
use cfio.Tests.Requests.{file, opened, opened-Holds, with_file}
use cfio.Tests.Delivered.{one_nonzero}

abbrev units : Att
units = record { name = 117 ∷ 0 ∷ []; xtype = 2; len = 1; bytes = 75 ∷ [] }

abbrev scalar : Key → List Entry
scalar =
    with_variable table 2 opened 1 file [] opened-Holds 1 (84 ∷ 0 ∷ []) 5 0 [] [] one_nonzero refl

scalar-Holds : Holds table 2 scalar 1 file (variable 1 (84 ∷ 0 ∷ []) 5 0 [] [] ∷ [])
scalar-Holds =
    Holds-variable table 2 opened 1 file [] opened-Holds 1 (84 ∷ 0 ∷ []) 5 0 [] [] one_nonzero refl

abbrev half : Server (Key → List Entry) (IoKey → List Bytes) ℕ
half = record with_file {
  map_table = scalar;
  io_table = λ q. if io_key_eq (io_key func_put_att 1 1) q then (1 ∷ []) ∷ [] else [];
}

abbrev sent_by_both : IoKey → List Bytes
sent_by_both = requests.write half.io_table (io_key func_put_att 1 1) (3 ∷ [])

last_arrives :
    recv_client_io requests grid 7 half.io_table 4 (io_key func_put_att 1 1)
    ≡ some (3 ∷ [], sent_by_both)
unfolding recv_client_io search add_bitmap get_client_num_of_server get_client_index_of_server
    proc_type
last_arrives = refl

all_sent : bitmap_full grid 7 (3 ∷ []) ≡ some true
unfolding bitmap_full bytes_full get_client_num_of_server proc_type
all_sent = refl

put_att-Holds_example :
    (t : Key → List Entry) × (put_att setting 4 1 1 units half
      ≡ some (
        error_none,
        record half {
          map_table = t;
          io_table = remove_client_io requests sent_by_both (io_key func_put_att 1 1);
        },
      ))
    × Holds table 2 t 1 file (variable 1 (84 ∷ 0 ∷ []) 5 0 [] (units ∷ []) ∷ [])
put_att-Holds_example =
    put_att-Holds setting 2 1 file (variable 1 (84 ∷ 0 ∷ []) 5 0 [] [] ∷ []) half 4 1 units (3 ∷ [])
      sent_by_both 1 (84 ∷ 0 ∷ []) 5 0 [] [] scalar-Holds one_nonzero (λ e. ground arith) refl
      last_arrives all_sent
