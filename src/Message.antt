-- ===== src/Message.antt =====
-- common/msg.h, common/cfio_types.h: the function codes, the element types and the requests that
-- a client forwards to its server. An `int` is its bit pattern, an array the bytes it occupies.
pub mod Wire
use cfio.Prelude.{
  ℕ, zero, suc, ◌∷◌, take, drop, ◌+◌, ◌*◌, ◌%◌, ◌^◌, ◌<◌, ◌≡◌, Bool, true, false, Option, none,
  some, List, [], ◌==◌, if◌then◌else◌, length,
}
use cfio.Memory.{Bytes, decode}
use cfio.Buffer.{size_t_mod}
use cfio.Buffer.Pack.Packs.{IsCString}

abbrev pub func_nc_create : ℕ
func_nc_create = 1

abbrev pub func_nc_enddef : ℕ
func_nc_enddef = 2

abbrev pub func_nc_close : ℕ
func_nc_close = 3

abbrev pub func_nc_def_dim : ℕ
func_nc_def_dim = 11

abbrev pub func_nc_def_var : ℕ
func_nc_def_var = 12

abbrev pub func_put_att : ℕ
func_put_att = 13

abbrev pub func_nc_put_vara : ℕ
func_nc_put_vara = 20

abbrev pub func_final : ℕ
func_final = 40

-- `cfio_types_size`; `none`: no case of the switch applies, and the size stays unset.
unfoldable pub types_size : ℕ → Option ℕ
types_size t =
    if t == 1
    then some 1
    else if t == 2
    then some 1
    else if t == 3
    then some 2
    else if t == 4
    then some 4
    else if t == 5
    then some 4
    else if t == 6
    then some 8
    else none

-- The calls that a client forwards, with their arguments.
pub data Request : Type 0 where
  create : (path : Bytes) (cmode ncid : ℕ) → Request
  def_dim : (ncid : ℕ) (name : Bytes) (len dimid : ℕ) → Request
  def_var : (ncid : ℕ) (name : Bytes) (xtype ndims : ℕ) (dimids : Bytes) (varid : ℕ) → Request
  put_att : (ncid varid : ℕ) (name : Bytes) (xtype len : ℕ) (op : Bytes) → Request
  enddef : (ncid : ℕ) → Request
  put_vara :
      (ncid varid ndims : ℕ) (start count : Bytes) (data_len fp_type : ℕ) (fp : Bytes) → Request
  close : (ncid : ℕ) → Request

-- An array of `size_t`s, and the number of elements that it counts: their product, in `size_t`
-- arithmetic, as `cfio_send_put_vara` computes it.
unfoldable pub words : ℕ → Bytes → List ℕ
words zero xs = []
words (suc n) xs = decode (take 8 xs) ∷ words n (drop 8 xs)

unfoldable pub volume : ℕ → List ℕ → ℕ
volume acc [] = acc
volume acc (c ∷ cs) = volume ((acc * c) % size_t_mod) cs

-- An `int` argument.
abbrev pub IsInt : ℕ → Type 0
IsInt x = x < 2 ^ 32

-- A length that is passed as an `int`.
abbrev pub IsLen : ℕ → Type 0
IsLen x = x < 2 ^ 31
