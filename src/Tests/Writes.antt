-- ===== src/Tests/Writes.antt =====
-- The second of two clients sends its block of a variable.
use cfio.Prelude.{
  ℕ, ◌+◌, ◌*◌, ◌≡◌, refl, inl, inr, true, none, some, List, [], ◌∷◌, if◌then◌else◌, arith,
}
use cfio.Memory.{Memory, Bytes, decode, store, load}
use cfio.Table.{search}
use cfio.Map.{proc_type, get_client_num_of_server, get_client_index_of_server}
use cfio.Id.{Key, nc_key, var_key}
use cfio.Id.Server.{Variable, Entry, nc_entry, var_entry, no_data}
use cfio.Io.{IoKey, add_bitmap, bytes_full, recv_client_io, remove_client_io, bitmap_full}
use cfio.Io.Merge.Place.{src_position}
use cfio.Io.Merge.Blocks.{axes, Contains, Each, merged_box}
use cfio.Io.Merge.Blocks.Position.{position}
use cfio.Io.Merge.Blocks.Merged.{IsApart}
use cfio.Message.{words, types_size, func_nc_put_vara}
use cfio.Handlers.{Server, error_none}
use cfio.Handlers.Write.{blocks_of, io_key, put_vara}
use cfio.Handlers.Merged.{IsLast, filled, put_vara-writes, put_vara_drops}
use cfio.Tests.Tables.{table, key_eq}
use cfio.Tests.Pending.{requests, io_key_eq}
use cfio.Tests.Handlers.{setting}
use cfio.Tests.Blocks.{memory, left, right, both_lem, boxes, side_by_side, data-IsApart}

abbrev var_of : ℕ → Variable
var_of data_type = record {
  name = 84 ∷ 0 ∷ [];
  nc_id = 5;
  var_id = 2;
  ndims = 2;
  client_num = 2;
  dim_ids = 1 ∷ 1 ∷ [];
  recv_data = some (record { buf = 2000; start = 1 ∷ 1 ∷ []; count = 2 ∷ 2 ∷ [] }) ∷ none ∷ [];
  data_type = data_type;
  att_head = [];
}

abbrev block_bytes : Bytes
block_bytes = 0 ∷ 0 ∷ 128 ∷ 63 ∷ 0 ∷ 0 ∷ 0 ∷ 64 ∷ 0 ∷ 0 ∷ 64 ∷ 64 ∷ 0 ∷ 0 ∷ 128 ∷ 64 ∷ []

-- The first client has sent its block.
abbrev waiting : ℕ → Server (Key → List Entry) (IoKey → List Bytes) ℕ
waiting data_type = record {
  map_table = λ q.
      if key_eq (nc_key 1) q
      then nc_entry 1 5 ∷ []
      else if key_eq (var_key 1 1) q
      then var_entry 1 (var_of data_type) ∷ []
      else [];
  io_table = λ q. if io_key_eq (io_key func_nc_put_vara 1 1) q then (1 ∷ []) ∷ [] else [];
  nc = 3;
  mem = memory;
}

abbrev words_of : ℕ → ℕ → Bytes
words_of a b = a ∷ 0 ∷ 0 ∷ 0 ∷ 0 ∷ 0 ∷ 0 ∷ 0 ∷ b ∷ 0 ∷ 0 ∷ 0 ∷ 0 ∷ 0 ∷ 0 ∷ 0 ∷ []

abbrev after_both : IoKey → List Bytes
after_both = requests.write (waiting 5).io_table (io_key func_nc_put_vara 1 1) (3 ∷ [])

last-IsLast :
    (data_type : ℕ)
    → IsLast setting 4 1 1
        (words_of 1 3)
        (words_of 2 2)
        block_bytes
        3000
        1000
        (waiting data_type)
        (nc_entry 1 5)
        (var_entry 1 (var_of data_type))
        (record { nc_id = 5; define_mode = true })
        (var_of data_type)
        none
        (3 ∷ [])
        after_both
unfolding recv_client_io search add_bitmap bitmap_full bytes_full get_client_num_of_server
    get_client_index_of_server proc_type
last-IsLast data_type = record {
  arrived = refl;
  full = refl;
  nonzero = λ e. ground arith;
  file = refl;
  has_nc = refl;
  nc_valid = λ e. ground arith;
  var_found = refl;
  has_var = refl;
  var_valid = λ e. ground arith;
  place = refl;
}

all_blocks :
    (data_type : ℕ)
    → blocks_of
        (filled setting 4 1 1
          (words_of 1 3)
          (words_of 2 2)
          block_bytes
          3000
          1000
          (waiting data_type)
          (nc_entry 1 5)
          (var_entry 1 (var_of data_type))
          (record { nc_id = 5; define_mode = true })
          (var_of data_type)
          none
          (3 ∷ [])
          after_both).recv_data
      ≡ some (left ∷ right ∷ [])
unfolding blocks_of words decode get_client_index_of_server
all_blocks data_type = refl

float_size : types_size 5 ≡ some 4
unfolding types_size
float_size = refl

char_size : types_size 2 ≡ some 1
unfolding types_size
char_size = refl

abbrev cleared_of : ℕ → Entry
cleared_of data_type = var_entry 1 (record (var_of data_type) { recv_data = none ∷ none ∷ [] })

abbrev filled_of : ℕ → Entry
filled_of data_type = var_entry 1 (record (var_of data_type) {
  recv_data =
      some (record { buf = 2000; start = 1 ∷ 1 ∷ []; count = 2 ∷ 2 ∷ [] })
      ∷ some (record { buf = 3000; start = 1 ∷ 3 ∷ []; count = 2 ∷ 2 ∷ [] })
      ∷ [];
})

abbrev emptied : ℕ → Key → List Entry
emptied data_type =
    table.write (table.write (waiting data_type).map_table (var_key 1 1) (filled_of data_type))
      (var_key 1 1) (cleared_of data_type)

put_vara-writes_example :
    (m : Memory) × (put_vara setting 4 1 1 2
        (words_of 1 3)
        (words_of 2 2)
        block_bytes
        3000
        1000
        (waiting 5)
      ≡ some (
        error_none,
        record (waiting 5) {
          map_table = emptied 5;
          io_table = remove_client_io requests after_both (io_key func_nc_put_vara 1 1);
          nc = 4;
          mem = m;
        },
      ))
    × Contains (merged_box left.box (right ∷ [])) right.box
    × (load m (1000 + 4 * position (merged_box left.box (right ∷ [])) (4 ∷ 2 ∷ [])) 4
        ≡ load
            (store memory 3000 block_bytes)
            (3000
              + 4 * src_position (axes (merged_box left.box (right ∷ [])) right.box) (1 ∷ 1 ∷ []))
            4)
unfolding words decode get_client_index_of_server no_data
put_vara-writes_example =
    put_vara-writes setting 4 1 1 (words_of 1 3) (words_of 2 2) block_bytes 3000 1000 (waiting 5)
      (nc_entry 1 5) (var_entry 1 (var_of 5)) (record { nc_id = 5; define_mode = true }) (var_of 5)
      none (3 ∷ []) after_both (last-IsLast 5) 4 left (right ∷ []) float_size (all_blocks 5) 2 right
      (1 ∷ 1 ∷ []) (omega arith) boxes side_by_side (rw both_lem (omega arith)) data-IsApart
      (inr (inl refl)) (rw both_lem (omega arith)) refl

char-IsApart : Each (IsApart 1 (merged_box left.box (right ∷ [])) 1000) (left ∷ right ∷ [])
char-IsApart =
    rw both_lem ((omega arith, inr (omega arith)), ((omega arith, inr (omega arith)), tt))

put_vara_drops_example :
    (m : Memory) × (put_vara setting 4 1 1 2
        (words_of 1 3)
        (words_of 2 2)
        block_bytes
        3000
        1000
        (waiting 2)
      ≡ some (
        error_none,
        record (waiting 2) {
          map_table = emptied 2;
          io_table = remove_client_io requests after_both (io_key func_nc_put_vara 1 1);
          mem = m;
        },
      ))
unfolding words decode get_client_index_of_server no_data
put_vara_drops_example =
    put_vara_drops setting 4 1 1 (words_of 1 3) (words_of 2 2) block_bytes 3000 1000 (waiting 2)
      (nc_entry 1 5) (var_entry 1 (var_of 2)) (record { nc_id = 5; define_mode = true }) (var_of 2)
      none (3 ∷ []) after_both (last-IsLast 2) 1 left (right ∷ []) char_size (all_blocks 2) 2 right
      (1 ∷ 1 ∷ []) (omega arith) boxes side_by_side (rw both_lem (omega arith)) char-IsApart
      (inr (inl refl)) (rw both_lem (omega arith)) refl
