-- ===== src/Api/Fortran.antt =====
-- client/C/cfio.c: the wrappers for Fortran, whose arrays have the dimensions in the other order and
-- count from one.
pub mod Order
use cfio.Prelude.{
  ℕ, zero, suc, ◌+◌, ◌-◌, ◌%◌, ◌^◌, ◌==◌, ◌≡◌, refl, sym, ◌∙◌, ap, Bool, true, false, Option, none,
  some, List, [], ◌∷◌, ◌++◌, append-nil, append_assoc, if◌then◌else◌, ◌>>=◌, get_or, take, length,
  arith,
}
use cfio.Memory.{Bytes, encode}
use cfio.Table.{HashTable}
use cfio.Buffer.{Buffer}
use cfio.Buffer.Pack.{sizeof_size_t, int_to_size_t}
use cfio.Id.{Key, Val, Reply}
use cfio.Api.{
  Client, Called, create, def_dim, def_var, put_att, put_vara, enddef, close, inq_dimid, inq_varid,
  inq_attribute, varndims, vardimid, cfio_float, cfio_double, cfio_int, cfio_char,
}

-- The loop with `i` rising and `j` falling: what it makes of entry `j` of the array, for each `j` below
-- `n` from the last on.
unfoldable pub reversed : (ℕ → ℕ) → ℕ → List ℕ → List ℕ
reversed f zero xs = []
reversed f (suc j) xs = f (get_or xs j 0) ∷ reversed f j xs

-- `path[*len] = 0`
abbrev pub ended : Bytes → ℕ → Bytes
ended [] len = 0 ∷ []
ended (x ∷ xs) zero = 0 ∷ []
ended (x ∷ xs) (suc len) = let rest = ended xs len in if x == 0 then 0 ∷ [] else x ∷ rest

-- `start[j] - 1`, an `int` that becomes a `size_t`.
abbrev pub from_zero : ℕ → ℕ
from_zero start = int_to_size_t ((start + 2 ^ 32 - 1) % 2 ^ 32)

-- An array of `size_t`s in memory.
abbrev pub size_ts : List ℕ → Bytes
size_ts [] = []
size_ts (x ∷ xs) = encode sizeof_size_t x ++ size_ts xs

-- NF90_GLOBAL is 0 and NC_GLOBAL is -1.
abbrev pub global_varid : ℕ → ℕ
global_varid varid = if varid == 0 then 2 ^ 32 - 1 else varid

module _ {T : Type 0} (h : HashTable Key Val T) (nc_global : ℕ) (fuel : ℕ)
    (release : Buffer → Buffer) where
  abbrev pub create_c : Bytes → ℕ → ℕ → Client T → Called T
  create_c path len cmode s = create h nc_global fuel release (some (ended path len)) cmode true s

  abbrev pub def_dim_c : ℕ → Bytes → ℕ → ℕ → Client T → Called T
  def_dim_c ncid name name_len len s =
      def_dim h nc_global fuel release ncid (some (ended name name_len)) (int_to_size_t len) true s

  abbrev pub def_var_c : ℕ → Bytes → ℕ → ℕ → ℕ → List ℕ → Client T → Called T
  def_var_c ncid name name_len xtype ndims dimids s =
      def_var h nc_global fuel release ncid (some (ended name name_len)) xtype ndims
        (reversed (λ x. x) ndims dimids) true s

  abbrev pub put_att_c : ℕ → ℕ → Bytes → ℕ → ℕ → ℕ → Bytes → Client T → Called T
  put_att_c ncid varid name name_len xtype len op s =
      put_att h nc_global fuel release ncid (global_varid varid) (ended name name_len) xtype
        (int_to_size_t len) op s

  -- The four wrappers differ in the element type.
  unfoldable pub put_vara_c : ℕ → ℕ → ℕ → ℕ → List ℕ → List ℕ → Bytes → Client T → Called T
  unfolding reversed
  put_vara_c fp_type ncid varid ndims start count fp s =
      put_vara h nc_global fuel release fp_type ncid varid ndims
        (some (size_ts (reversed from_zero ndims start)))
        (some (size_ts (reversed int_to_size_t ndims count))) (some fp) s

  abbrev pub put_vara_float_c : ℕ → ℕ → ℕ → List ℕ → List ℕ → Bytes → Client T → Called T
  put_vara_float_c = put_vara_c cfio_float

  abbrev pub put_vara_double_c : ℕ → ℕ → ℕ → List ℕ → List ℕ → Bytes → Client T → Called T
  put_vara_double_c = put_vara_c cfio_double

  abbrev pub put_vara_int_c : ℕ → ℕ → ℕ → List ℕ → List ℕ → Bytes → Client T → Called T
  put_vara_int_c = put_vara_c cfio_int

  abbrev pub put_vara_text_c : ℕ → ℕ → ℕ → List ℕ → List ℕ → Bytes → Client T → Called T
  put_vara_text_c = put_vara_c cfio_char

  abbrev pub enddef_c : ℕ → Client T → Called T
  enddef_c ncid s = enddef h nc_global fuel release ncid s

  abbrev pub inq_dimid_c : ℕ → Bytes → ℕ → Client T → Reply ℕ
  inq_dimid_c ncid dim_name name_len s =
      inq_dimid h nc_global fuel release ncid (ended dim_name name_len) s

  abbrev pub inq_varid_c : ℕ → Bytes → ℕ → Client T → Reply ℕ
  inq_varid_c ncid var_name name_len s =
      inq_varid h nc_global fuel release ncid (ended var_name name_len) s

  abbrev pub inq_att_c : ℕ → ℕ → Bytes → ℕ → Client T → Option (Reply ℕ)
  inq_att_c ncid varid att_name name_len s =
      inq_attribute h nc_global fuel release ncid varid (ended att_name name_len) s

  abbrev pub inq_varndims_c : ℕ → ℕ → ℕ → Client T → Option (Reply ℕ)
  inq_varndims_c ncid varid ndims s = varndims h nc_global fuel release ncid varid ndims s

  abbrev pub inq_vardimid_c : ℕ → ℕ → Client T → Option (Reply (List ℕ))
  inq_vardimid_c ncid varid s = vardimid h nc_global fuel release ncid varid s

  abbrev pub close_c : ℕ → Client T → Called T
  close_c ncid s = close h nc_global fuel release ncid s
