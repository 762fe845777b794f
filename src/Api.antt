-- ===== src/Api.antt =====
-- client/C/cfio.c: the calls of the library on a client.
pub mod Fortran
pub mod Calls
use cfio.Prelude.{
  ℕ, zero, suc, ◌+◌, Bool, true, false, Option, none, some, List, [], ◌∷◌, ◌++◌, if◌then◌else◌,
  ◌>>=◌,
}
use cfio.Memory.{Bytes, encode}
use cfio.Table.{HashTable}
use cfio.Buffer.{Buffer}
use cfio.Buffer.Pack.{Packer, sizeof_int}
use cfio.Id.{
  Key, Val, Ids, Reply, done, nc_no_exist, var_no_exist, hash_get_null, arg_null, assign_nc,
  assign_dim, assign_var,
}
use cfio.Id.Inquire.{inq_dim, inq_var, inq_att, inq_varndims, inq_vardimid, assign_att}
use cfio.Id.Remove.{remove_nc}
use cfio.Send.{
  send_create, send_def_dim, send_def_var, send_put_att, send_enddef, send_put_vara, send_close,
}

-- A client has its ids and its send buffer.
pub record Client (T : Type 0) : Type 0 where
  pub ids : Ids T
  pub buffer : Buffer

-- What a call returns, with the client then; `none` is a failed assertion or a fault.
abbrev pub Called : Type 0 → Type 0
Called T = Option (Reply ℕ × Client T)

-- An array of `int`s in memory.
abbrev pub ints : List ℕ → Bytes
ints [] = []
ints (x ∷ xs) = encode sizeof_int x ++ ints xs

-- `CFIO_CHAR` and the other element types.
abbrev pub cfio_char : ℕ
cfio_char = 2

abbrev pub cfio_int : ℕ
cfio_int = 4

abbrev pub cfio_float : ℕ
cfio_float = 5

abbrev pub cfio_double : ℕ
cfio_double = 6

-- A pointer that may be NULL is an option; of a pointer that receives an id only that matters.
-- `fuel` and `release` are those of the send functions.
module _ {T : Type 0} (h : HashTable Key Val T) (nc_global : ℕ) (fuel : ℕ)
    (release : Buffer → Buffer) where
  -- The request follows, unless the id functions return an error.
  abbrev pub and_send : Buffer → (ℕ → Packer) → Reply ℕ × Ids T → Called T
  and_send b p (done id, ids) = p id b >>= (λ c. some (done id, record { ids = ids; buffer = c }))
  and_send b p (nc_no_exist, ids) = some (nc_no_exist, record { ids = ids; buffer = b })
  and_send b p (var_no_exist, ids) = some (var_no_exist, record { ids = ids; buffer = b })
  and_send b p (hash_get_null, ids) = some (hash_get_null, record { ids = ids; buffer = b })
  and_send b p (arg_null, ids) = some (arg_null, record { ids = ids; buffer = b })

  -- The request, and `CFIO_ERROR_NONE`.
  abbrev pub only_send : Client T → Packer → Called T
  only_send s p = p s.buffer >>= (λ c. some (done 0, record s { buffer = c }))

  unfoldable pub create : Option Bytes → ℕ → Bool → Client T → Called T
  create none cmode ncidp s = some (arg_null, s)
  create (some path) cmode false s = some (arg_null, s)
  create (some path) cmode true s =
      and_send s.buffer (send_create fuel release path cmode) (assign_nc h nc_global s.ids)

  unfoldable pub def_dim : ℕ → Option Bytes → ℕ → Bool → Client T → Called T
  def_dim ncid none len idp s = some (arg_null, s)
  def_dim ncid (some name) len false s = some (arg_null, s)
  def_dim ncid (some name) len true s =
      and_send s.buffer (send_def_dim fuel release ncid name len)
        (assign_dim h nc_global s.ids ncid name)

  unfoldable pub def_var : ℕ → Option Bytes → ℕ → ℕ → List ℕ → Bool → Client T → Called T
  def_var ncid none xtype ndims dimids varidp s = some (arg_null, s)
  def_var ncid (some name) xtype ndims dimids false s = some (arg_null, s)
  def_var ncid (some name) xtype ndims dimids true s =
      and_send s.buffer (send_def_var fuel release ncid name xtype ndims (ints dimids))
        (assign_var h nc_global s.ids ncid name ndims dimids)

  -- An error of `cfio_id_assign_att` is passed over.
  unfoldable pub put_att : ℕ → ℕ → Bytes → ℕ → ℕ → Bytes → Client T → Called T
  put_att ncid varid name xtype len op s = assign_att h s.ids ncid varid name xtype len op >>= (λ r.
      only_send (record s { ids = r.1 }) (send_put_att fuel release ncid varid name xtype len op))

  unfoldable pub enddef : ℕ → Client T → Called T
  enddef ncid s = only_send s (send_enddef fuel release ncid)

  abbrev pub inq_dimid : ℕ → Bytes → Client T → Reply ℕ
  inq_dimid ncid dim_name s = inq_dim h s.ids ncid dim_name

  abbrev pub inq_varid : ℕ → Bytes → Client T → Reply ℕ
  inq_varid ncid var_name s = inq_var h s.ids ncid var_name

  abbrev pub inq_attribute : ℕ → ℕ → Bytes → Client T → Option (Reply ℕ)
  inq_attribute ncid var_id att_name s = inq_att h s.ids ncid var_id att_name

  -- The value that `*ndims` has then, under `CFIO_ERROR_NONE` also where it is not set.
  abbrev pub ndims_or : ℕ → Reply ℕ → ℕ
  ndims_or ndims (done n) = n
  ndims_or ndims nc_no_exist = ndims
  ndims_or ndims var_no_exist = ndims
  ndims_or ndims hash_get_null = ndims
  ndims_or ndims arg_null = ndims

  unfoldable pub varndims : ℕ → ℕ → ℕ → Client T → Option (Reply ℕ)
  varndims ncid varid ndims s =
      inq_varndims h s.ids ncid varid >>= (λ r. some (done (ndims_or ndims r)))

  abbrev pub vardimid : ℕ → ℕ → Client T → Option (Reply (List ℕ))
  vardimid ncid varid s = inq_vardimid h s.ids ncid varid

  -- The four calls of this kind differ in the element type.
  unfoldable pub put_vara :
      ℕ → ℕ → ℕ → ℕ → Option Bytes → Option Bytes → Option Bytes → Client T → Called T
  put_vara fp_type ncid varid dim none count fp s = some (arg_null, s)
  put_vara fp_type ncid varid dim (some start) none fp s = some (arg_null, s)
  put_vara fp_type ncid varid dim (some start) (some count) none s = some (arg_null, s)
  put_vara fp_type ncid varid dim (some start) (some count) (some fp) s =
      only_send s (send_put_vara fuel release ncid varid dim start count fp_type fp)

  abbrev pub put_vara_float :
      ℕ → ℕ → ℕ → Option Bytes → Option Bytes → Option Bytes → Client T → Called T
  put_vara_float = put_vara cfio_float

  abbrev pub put_vara_double :
      ℕ → ℕ → ℕ → Option Bytes → Option Bytes → Option Bytes → Client T → Called T
  put_vara_double = put_vara cfio_double

  abbrev pub put_vara_int :
      ℕ → ℕ → ℕ → Option Bytes → Option Bytes → Option Bytes → Client T → Called T
  put_vara_int = put_vara cfio_int

  abbrev pub put_vara_text :
      ℕ → ℕ → ℕ → Option Bytes → Option Bytes → Option Bytes → Client T → Called T
  put_vara_text = put_vara cfio_char

  unfoldable pub close : ℕ → Client T → Called T
  close ncid s = and_send s.buffer (λ id. send_close fuel release ncid) (remove_nc h s.ids ncid)
