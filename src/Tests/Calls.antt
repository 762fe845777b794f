-- ===== src/Tests/Calls.antt =====
-- Calls on a client with one open file, and a server that has room.
use cfio.Prelude.{◌<◌, ◌≡◌, refl, true, some, List, [], ◌∷◌, get_elem?, arith}
use cfio.Memory.{Bytes, encode, decode}
use cfio.Table.{search}
use cfio.Buffer.{IsValid, enough, is_free_space_enough, skip_tail, use_buf, free_buf_size}
use cfio.Buffer.Retry.{restart}
use cfio.Buffer.Pack.{strlen, int_to_size_t}
use cfio.Buffer.Pack.Packs.{IsCString}
use cfio.Id.{Key, Val, Ids, done, nc_no_exist, global_name, find, assign_dim, assign_var}
use cfio.Message.{Request, types_size, volume, words}
use cfio.Message.Wire.{wire_size, IsWellFormed}
use cfio.Api.{Client, ints, create, put_att, close, inq_dimid, inq_varid}
use cfio.Api.Calls.{Arrives, Ready, create-Arrives, close-Arrives, put_att-Arrives_unknown}
use cfio.Api.Fortran.{reversed, size_ts, from_zero, put_vara_c}
use cfio.Api.Fortran.Order.{put_vara_c-Arrives}
use cfio.Tests.{buffer_at, half-IsValid, late-IsValid, release_all, release_all-Releases}
use cfio.Tests.Tables.{table}
use cfio.Tests.Files.{file, ids, global, file_open, no_file, no_global, no_var}

abbrev pub one_file : Client (Key → List Val)
one_file = record { ids = ids; buffer = buffer_at 1000 1060 }

ready :
    (r : Request)
    → IsWellFormed r
    → wire_size r < 128
    → (is_free_space_enough (restart (buffer_at 1100 1120)) (wire_size r)).0 ≡ enough
    → Ready 128 release_all (buffer_at 1000 1060) (buffer_at 1100 1120) r
ready r wf fits room = record {
  releases = release_all-Releases;
  valid = half-IsValid;
  rounds = omega arith;
  server_valid = late-IsValid;
  well_formed = wf;
  fits = fits;
  small = omega arith;
  room = room;
}

-- "y"
y-IsCString : IsCString (121 ∷ 0 ∷ [])
unfolding strlen
y-IsCString = record { ends = omega arith; small = omega arith }

abbrev pub dim_y : Request
dim_y = Request.def_dim 1 (121 ∷ 0 ∷ []) 10 2

pub dim_y-Ready : Ready 128 release_all (buffer_at 1000 1060) (buffer_at 1100 1120) dim_y
unfolding is_free_space_enough skip_tail use_buf free_buf_size encode strlen
dim_y-Ready = ready dim_y (omega arith, y-IsCString, omega arith, omega arith) (omega arith) refl

abbrev pub with_dim : Ids (Key → List Val)
unfolding assign_dim search find
with_dim = (assign_dim table global ids 1 (121 ∷ 0 ∷ [])).1

pub dim_assigned : assign_dim table global ids 1 (121 ∷ 0 ∷ []) ≡ (done 2, with_dim)
unfolding assign_dim search find
dim_assigned = refl

abbrev pub var_y : Request
var_y = Request.def_var 1 (121 ∷ 0 ∷ []) 5 1 (ints (1 ∷ [])) 1

pub var_y-Ready : Ready 128 release_all (buffer_at 1000 1060) (buffer_at 1100 1120) var_y
unfolding is_free_space_enough skip_tail use_buf free_buf_size encode strlen
var_y-Ready =
    ready var_y (omega arith, y-IsCString, omega arith, omega arith, refl, omega arith)
      (omega arith) refl

abbrev pub with_var : Ids (Key → List Val)
unfolding assign_var search find
with_var = (assign_var table global ids 1 (121 ∷ 0 ∷ []) 1 (1 ∷ [])).1

pub var_assigned : assign_var table global ids 1 (121 ∷ 0 ∷ []) 1 (1 ∷ []) ≡ (done 1, with_var)
unfolding assign_var search find
var_assigned = refl

create_y-Ready :
    Ready 128 release_all
      (buffer_at 1000 1060)
      (buffer_at 1100 1120)
      (Request.create (121 ∷ 0 ∷ []) 0 2)
unfolding is_free_space_enough skip_tail use_buf free_buf_size encode strlen
create_y-Ready =
    ready (Request.create (121 ∷ 0 ∷ []) 0 2) (y-IsCString, omega arith, omega arith) (omega arith)
      refl

create-Arrives_example :
    (u : Client (Key → List Val)) × (create table global 128 release_all
        (some (121 ∷ 0 ∷ []))
        0
        true
        one_file
      ≡ some (done 2, u))
    × (inq_varid table global 128 release_all 2 global_name u ≡ done global)
    × IsValid u.buffer
    × Arrives 4 0 (buffer_at 1100 1120) u.buffer (Request.create (121 ∷ 0 ∷ []) 0 2)
create-Arrives_example =
    create-Arrives 128 release_all 4 0 (buffer_at 1100 1120) table global one_file (121 ∷ 0 ∷ []) 0
      (ground arith) no_file no_global create_y-Ready

close_y-Ready : Ready 128 release_all (buffer_at 1000 1060) (buffer_at 1100 1120) (Request.close 1)
unfolding is_free_space_enough skip_tail use_buf free_buf_size encode
close_y-Ready = ready (Request.close 1) (omega arith) (omega arith) refl

close-Arrives_example :
    (u : Client (Key → List Val)) × (close table global 128 release_all 1 one_file
      ≡ some (done 0, u))
    × (inq_dimid table global 128 release_all 1 (120 ∷ 0 ∷ []) u ≡ nc_no_exist)
    × (inq_varid table global 128 release_all 1 (120 ∷ 0 ∷ []) u ≡ nc_no_exist)
    × (close table global 128 release_all 1 u ≡ some (nc_no_exist, u))
    × IsValid u.buffer
    × Arrives 4 0 (buffer_at 1100 1120) u.buffer (Request.close 1)
close-Arrives_example =
    close-Arrives 128 release_all 4 0 (buffer_at 1100 1120) table global one_file 1 file
      (120 ∷ 0 ∷ []) file_open refl tt close_y-Ready

abbrev att_y : Request
att_y = Request.put_att 1 1 (121 ∷ 0 ∷ []) 2 3 (1 ∷ 2 ∷ 3 ∷ [])

att_y-Ready : Ready 128 release_all (buffer_at 1000 1060) (buffer_at 1100 1120) att_y
unfolding is_free_space_enough skip_tail use_buf free_buf_size encode strlen types_size
att_y-Ready =
    ready att_y (omega arith, omega arith, y-IsCString, omega arith, omega arith, (1, refl, refl))
      (omega arith) refl

put_att-Arrives_unknown_example :
    (u : Client (Key → List Val)) × (put_att table global 128 release_all 1 1
        (121 ∷ 0 ∷ [])
        2
        3
        (1 ∷ 2 ∷ 3 ∷ [])
        one_file
      ≡ some (done 0, u))
    × (u.ids ≡ ids)
    × Arrives 4 0 (buffer_at 1100 1120) u.buffer att_y
put_att-Arrives_unknown_example =
    put_att-Arrives_unknown 128 release_all 4 0 (buffer_at 1100 1120) table global one_file 1 1
      (121 ∷ 0 ∷ []) 2 3 (1 ∷ 2 ∷ 3 ∷ []) no_var att_y-Ready

-- One row of two columns, from row 3 and column 5 on.
abbrev starts : Bytes
unfolding reversed
starts = size_ts (reversed from_zero 2 (5 ∷ 3 ∷ []))

abbrev counts : Bytes
unfolding reversed
counts = size_ts (reversed int_to_size_t 2 (2 ∷ 1 ∷ []))

abbrev row_y : Request
row_y = Request.put_vara 1 1 2 starts counts 2 5 (1 ∷ 2 ∷ 3 ∷ 4 ∷ 5 ∷ 6 ∷ 7 ∷ 8 ∷ [])

row_y-Ready : Ready 128 release_all (buffer_at 1000 1060) (buffer_at 1100 1120) row_y
unfolding is_free_space_enough skip_tail use_buf free_buf_size encode decode types_size volume words
    starts
row_y-Ready =
    ready row_y
      (
        omega arith,
        omega arith,
        omega arith,
        refl,
        refl,
        omega arith,
        refl,
        omega arith,
        (4, refl, refl),
      )
      (omega arith) refl

put_vara_c-Arrives_example :
    (u : Client (Key → List Val)) × (put_vara_c table global 128 release_all 5 1 1 2
        (5 ∷ 3 ∷ [])
        (2 ∷ 1 ∷ [])
        (1 ∷ 2 ∷ 3 ∷ 4 ∷ 5 ∷ 6 ∷ 7 ∷ 8 ∷ [])
        one_file
      ≡ some (done 0, u))
    × (u.ids ≡ ids)
    × IsValid u.buffer
    × Arrives 4 0 (buffer_at 1100 1120) u.buffer row_y
    × (get_elem? (words 2 starts) 0 ≡ some 2)
    × (get_elem? (words 2 counts) 0 ≡ some 1)
unfolding reversed
put_vara_c-Arrives_example =
    put_vara_c-Arrives 128 release_all 4 0 (buffer_at 1100 1120) table global one_file 5 1 1 2
      (5 ∷ 3 ∷ []) (2 ∷ 1 ∷ []) 2 (1 ∷ 2 ∷ 3 ∷ 4 ∷ 5 ∷ 6 ∷ 7 ∷ 8 ∷ []) 0 row_y-Ready (omega arith)
      (omega arith) (omega arith) (omega arith)
