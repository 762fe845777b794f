-- ===== src/Tests/Delivered.antt =====
-- Calls on a client that a server of the grid carries out.
use cfio.Prelude.{ℕ, ◌≡◌, ◌≢◌, refl, true, some, List, [], ◌∷◌, arith}
use cfio.Buffer.{IsValid}
use cfio.Id.{Key, Val, done}
use cfio.Id.Server.{Entry}
use cfio.Message.Wire.{wire_size}
use cfio.Api.{Client, def_dim, def_var, inq_dimid, inq_varid}
use cfio.Handlers.Declare.{with_dimension, Holds-dimension}
use cfio.Handlers.Spec.{dimension, variable, Holds}
use cfio.Handlers.Perform.{Performs}
use cfio.Handlers.Delivered.{def_dim-Performs, def_var-Performs}
use cfio.Tests.{buffer_at, release_all}
use cfio.Tests.Files.{global}
use cfio.Tests.Tables.{table}
use cfio.Tests.Calls.{
  one_file, dim_y, dim_y-Ready, with_dim, dim_assigned, var_y, var_y-Ready, with_var, var_assigned,
}
use cfio.Tests.Handlers.{setting, two}
use cfio.Tests.Requests.{file, opened, opened-Holds, with_file}

def_dim-Performs_example :
    (u : Client (Key → List Val)) × (t : Key → List Entry) × (def_dim table global 128 release_all 1
        (some (121 ∷ 0 ∷ []))
        10
        true
        one_file
      ≡ some (done 2, u))
    × (inq_dimid table global 128 release_all 1 (121 ∷ 0 ∷ []) u ≡ done 2)
    × IsValid u.buffer
    × Performs setting 3000 1000 4 0
        (buffer_at 1100 1120)
        u.buffer
        (wire_size dim_y)
        with_file
        (record with_file { map_table = t })
    × Holds table 2 t 1 file (dimension 2 (121 ∷ 0 ∷ []) 10 ∷ [])
def_dim-Performs_example =
    def_dim-Performs setting 3000 1000 128 release_all 4 0 (buffer_at 1100 1120) table global 2
      one_file with_file 1 file [] opened-Holds (121 ∷ 0 ∷ []) 10 2 with_dim dim_assigned
      (λ e. ground arith) dim_y-Ready

pub one_nonzero : let one : ℕ = 1 in one ≢ 0
one_nonzero e = ground arith

-- The file has a dimension.
abbrev dim_x : Key → List Entry
dim_x = with_dimension table 2 opened 1 file [] opened-Holds 1 (120 ∷ 0 ∷ []) 4 one_nonzero refl

dim_x-Holds : Holds table 2 dim_x 1 file (dimension 1 (120 ∷ 0 ∷ []) 4 ∷ [])
dim_x-Holds =
    Holds-dimension table 2 opened 1 file [] opened-Holds 1 (120 ∷ 0 ∷ []) 4 one_nonzero refl

def_var-Performs_example :
    (u : Client (Key → List Val)) × (t : Key → List Entry) × (def_var table global 128 release_all 1
        (some (121 ∷ 0 ∷ []))
        5
        1
        (1 ∷ [])
        true
        one_file
      ≡ some (done 1, u))
    × (inq_varid table global 128 release_all 1 (121 ∷ 0 ∷ []) u ≡ done 1)
    × IsValid u.buffer
    × Performs setting 3000 1000 4 0
        (buffer_at 1100 1120)
        u.buffer
        (wire_size var_y)
        (record with_file { map_table = dim_x })
        (record with_file { map_table = t })
    × Holds table 2 t 1 file
        (dimension 1 (120 ∷ 0 ∷ []) 4 ∷ variable 1 (121 ∷ 0 ∷ []) 5 1 (1 ∷ []) [] ∷ [])
def_var-Performs_example =
    def_var-Performs setting 3000 1000 128 release_all 4 0 (buffer_at 1100 1120) table global 2
      one_file (record with_file { map_table = dim_x }) 1 file (dimension 1 (120 ∷ 0 ∷ []) 4 ∷ [])
      dim_x-Holds (121 ∷ 0 ∷ []) 5 (1 ∷ []) 1 with_var var_assigned (λ e. ground arith)
      (omega arith, tt) ((λ e. ground arith), tt) refl two (λ e. ground arith) var_y-Ready
