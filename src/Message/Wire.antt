-- ===== src/Message/Wire.antt =====
-- The layout of a request in memory: the message's size, its function code and its arguments.
use cfio.Prelude.{ℕ, ◌+◌, ◌*◌, ◌^◌, ◌<◌, ◌≡◌, some, [], ◌++◌, ◌==◌, if◌then◌else◌, length}
use cfio.Memory.{Bytes, encode}
use cfio.Buffer.Pack.{strlen}
use cfio.Buffer.Pack.Packs.{IsCString}
use cfio.Message.{
  Request, create, def_dim, def_var, put_att, enddef, put_vara, close, types_size, IsInt, IsLen,
  volume, words, func_nc_create, func_nc_enddef, func_nc_close, func_nc_def_dim, func_nc_def_var,
  func_put_att, func_nc_put_vara,
}

-- An array is preceded by its length, a string by its length with the final zero.
abbrev pub array : ℕ → Bytes → Bytes
array len xs = encode 4 len ++ xs

abbrev pub cstring : Bytes → Bytes
cstring s = array (strlen s + 1) s

abbrev pub dims : ℕ → Bytes → Bytes
dims ndims dimids = if ndims == 0 then [] else array ndims dimids

abbrev pub code : Request → ℕ
code (create _ _ _) = func_nc_create
code (def_dim _ _ _ _) = func_nc_def_dim
code (def_var _ _ _ _ _ _) = func_nc_def_var
code (put_att _ _ _ _ _ _) = func_put_att
code (enddef _) = func_nc_enddef
code (put_vara _ _ _ _ _ _ _ _) = func_nc_put_vara
code (close _) = func_nc_close

abbrev pub body : Request → Bytes
body (create path cmode ncid) = cstring path ++ (encode 4 cmode ++ encode 4 ncid)
body (def_dim ncid name len dimid) =
    encode 4 ncid ++ (cstring name ++ (encode 8 len ++ encode 4 dimid))
body (def_var ncid name xtype ndims dimids varid) =
    encode 4 ncid
    ++ (cstring name
        ++ (encode 4 xtype ++ (encode 4 ndims ++ (dims ndims dimids ++ encode 4 varid))))
body (put_att ncid varid name xtype len op) =
    encode 4 ncid ++ (encode 4 varid ++ (cstring name ++ (encode 4 xtype ++ array len op)))
body (enddef ncid) = encode 4 ncid
body (put_vara ncid varid ndims start count data_len fp_type fp) =
    encode 4 ncid
    ++ (encode 4 varid
        ++ (array ndims start ++ (array ndims count ++ (encode 4 fp_type ++ array data_len fp))))
body (close ncid) = encode 4 ncid

-- The size counts its own eight bytes and the code's four.
abbrev pub wire_size : Request → ℕ
wire_size r = 8 + (4 + length (body r))

abbrev pub wire : Request → Bytes
wire r = encode 8 (wire_size r) ++ (encode 4 (code r) ++ body r)

-- The arguments are what their C types say, and every array is as long as its length says.
abbrev pub IsWellFormed : Request → Type 0
IsWellFormed (create path cmode ncid) = IsCString path × IsInt cmode × IsInt ncid
IsWellFormed (def_dim ncid name len dimid) =
    IsInt ncid × IsCString name × (len < 2 ^ 64) × IsInt dimid
IsWellFormed (def_var ncid name xtype ndims dimids varid) =
    IsInt ncid
    × IsCString name
    × IsInt xtype
    × IsLen ndims
    × (ndims * 4 ≡ length dimids)
    × IsInt varid
IsWellFormed (put_att ncid varid name xtype len op) =
    IsInt ncid
    × IsInt varid
    × IsCString name
    × IsInt xtype
    × IsLen len
    × ((size : ℕ) × (types_size xtype ≡ some size) × (len * size ≡ length op))
IsWellFormed (enddef ncid) = IsInt ncid
IsWellFormed (put_vara ncid varid ndims start count data_len fp_type fp) =
    IsInt ncid
    × IsInt varid
    × IsLen ndims
    × (ndims * 8 ≡ length start)
    × (ndims * 8 ≡ length count)
    × IsLen data_len
    × (volume 1 (words ndims count) ≡ data_len)
    × IsInt fp_type
    × ((size : ℕ) × (types_size fp_type ≡ some size) × (data_len * size ≡ length fp))
IsWellFormed (close ncid) = IsInt ncid
