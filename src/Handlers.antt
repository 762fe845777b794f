-- ===== src/Handlers.antt =====
-- server/io.c: what a server does when a request arrives.
pub mod Define
pub mod Enddef
pub mod Write
pub mod Spec
pub mod Declare
pub mod Declared
pub mod Created
pub mod Known
pub mod Run
pub mod Ended
pub mod Collect
pub mod Requests
pub mod Protocol
pub mod Whole
pub mod Merged
pub mod Perform
pub mod Delivered
pub mod Turn
pub mod Loop
pub mod Attached
use cfio.Prelude.{
  ℕ, zero, suc, ◌+◌, ◌%◌, ◌^◌, ◌≡◌, Bool, true, false, Option, none, some, List, [], ◌∷◌, ◌==◌,
  if◌then◌else◌, ◌>>=◌, take, drop,
}
use cfio.Memory.{Memory, Bytes, decode}
use cfio.Table.{HashTable}
use cfio.Map.{Config}
use cfio.Id.{Key}
use cfio.Id.Server.{Entry}
use cfio.Io.{IoKey}

-- The NetCDF library: each function with the library's state before and after. Those that have one
-- for each element type take the type. A function returns its code, and one that makes an id also
-- what it writes to the pointer.
pub record Netcdf (L : Type 0) : Type 0 where
  pub noerr : ℕ
  pub nc_global : ℕ
  pub nc_nat : ℕ
  pub nc_byte : ℕ
  pub nc_char : ℕ
  pub nc_short : ℕ
  pub nc_int : ℕ
  pub nc_float : ℕ
  pub nc_double : ℕ
  pub create : L → Bytes → ℕ → ℕ × ℕ × L
  pub def_dim : L → ℕ → Bytes → ℕ → ℕ × ℕ × L
  pub def_var : L → ℕ → Bytes → ℕ → List ℕ → ℕ × ℕ × L
  pub put_att_text : L → ℕ → ℕ → Bytes → ℕ → Bytes → ℕ × L
  pub put_att_of : ℕ → L → ℕ → ℕ → Bytes → ℕ → ℕ → Bytes → ℕ × L
  pub enddef : L → ℕ → ℕ × L
  pub put_vara_all : ℕ → L → ℕ → ℕ → List ℕ → List ℕ → Bytes → ℕ × L
  pub close : L → ℕ → ℕ × L

unfoldable pub cfio_type_to_nc : {L : Type 0} → Netcdf L → ℕ → ℕ
cfio_type_to_nc lib t =
    if t == 1
    then lib.nc_byte
    else if t == 2
    then lib.nc_char
    else if t == 3
    then lib.nc_short
    else if t == 4
    then lib.nc_int
    else if t == 5
    then lib.nc_float
    else if t == 6
    then lib.nc_double
    else lib.nc_nat

-- `CFIO_ERROR_NONE` and the errors.
pub data Code : Type 0 where
  error_none error_nc error_invalid_nc error_invalid_dim error_invalid_var error_wrong_ndims : Code

-- The static variables of io.c and id.c on a server, the library's state, and the memory.
pub record Server (T U L : Type 0) : Type 0 where
  pub map_table : T
  pub io_table : U
  pub nc : L
  pub mem : Memory

-- What a handler returns, with the server then; `none` is a failed assertion or a fault.
abbrev pub Handled : Type 0 → Type 0 → Type 0 → Type 0
Handled T U L = Option (Code × Server T U L)

-- The next step, unless an error is returned.
abbrev pub unless_error :
    {T U L : Type 0} → (Server T U L → Handled T U L) → Code × Server T U L → Handled T U L
unless_error step (error_none, s) = step s
unless_error step (error_nc, s) = some (error_nc, s)
unless_error step (error_invalid_nc, s) = some (error_invalid_nc, s)
unless_error step (error_invalid_dim, s) = some (error_invalid_dim, s)
unless_error step (error_invalid_var, s) = some (error_invalid_var, s)
unless_error step (error_wrong_ndims, s) = some (error_wrong_ndims, s)

-- What does not change: the tables' operations, the library, the decomposition and the own id.
pub record Setting (T U L : Type 0) : Type 0 where
  pub map_ops : HashTable Key Entry T
  pub io_ops : HashTable IoKey Bytes U
  pub lib : Netcdf L
  pub config : Config
  pub server_id : ℕ

-- An array of `int`s as it stands in a message.
unfoldable pub int_words : ℕ → Bytes → List ℕ
int_words zero xs = []
int_words (suc n) xs = decode (take 4 xs) ∷ int_words n (drop 4 xs)
