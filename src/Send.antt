-- ===== src/Send.antt =====
-- client/C/send.c: how a client packs each request into its send buffer.
pub mod Sizes
pub mod Refine
use cfio.Prelude.{
  ℕ, ◌+◌, ◌*◌, ◌%◌, ◌^◌, Bool, true, false, Option, none, some, ◌==◌, if◌then◌else◌, ◌>>=◌,
}
use cfio.Memory.{Bytes, encode}
use cfio.Buffer.{Buffer, size_t_mod, ensure_free_space}
use cfio.Buffer.Pack.{
  Packer, ◌▹◌, int_to_size_t, pack_data, pack_data_array, pack_str, data_array_size, str_size,
  sizeof_int, sizeof_size_t,
}
use cfio.Message.{
  Request, create, def_dim, def_var, put_att, enddef, put_vara, close, types_size, volume, words,
  func_nc_create, func_nc_enddef, func_nc_close, func_nc_def_dim, func_nc_def_var, func_put_att,
  func_nc_put_vara,
}

-- An `int` is packed as its bytes.
abbrev pub pack_int : ℕ → Packer
pack_int x = pack_data (encode sizeof_int x) sizeof_int

abbrev pub pack_size_t : ℕ → Packer
pack_size_t x = pack_data (encode sizeof_size_t x) sizeof_size_t

-- Nothing to pack.
abbrev pub skip : Packer
skip b = some b

-- `uint32_t` has the size of an `int`.
abbrev pub pack_header : ℕ → ℕ → Packer → Packer
pack_header size code p = pack_size_t size ▹ (pack_int code ▹ p)

-- The sizes that the functions compute before they pack.
abbrev pub create_size : Bytes → ℕ
create_size path =
    (sizeof_size_t + sizeof_int + str_size path + sizeof_int + sizeof_int) % size_t_mod

abbrev pub def_dim_size : Bytes → ℕ
def_dim_size name =
    (sizeof_size_t + sizeof_int + sizeof_int + str_size name + sizeof_size_t + sizeof_int)
    % size_t_mod

abbrev pub def_var_size : Bytes → ℕ → ℕ
def_var_size name ndims =
    (sizeof_size_t
      + sizeof_int
      + sizeof_int
      + str_size name
      + sizeof_int
      + sizeof_int
      + (if ndims == 0 then 0 else data_array_size (int_to_size_t ndims) sizeof_int)
      + sizeof_int)
    % size_t_mod

abbrev pub put_att_size : Bytes → ℕ → ℕ → ℕ
put_att_size name len att_size =
    (sizeof_size_t
      + sizeof_int
      + sizeof_int
      + sizeof_int
      + str_size name
      + sizeof_int
      + data_array_size len att_size)
    % size_t_mod

abbrev pub ncid_size : ℕ
ncid_size = sizeof_size_t + sizeof_int + sizeof_int

-- The size of the elements is that of `fp_type`; where no case applies nothing is counted.
abbrev pub put_vara_size : ℕ → ℕ → Option ℕ → ℕ
put_vara_size ndims data_len elem =
    (sizeof_size_t
      + sizeof_int
      + sizeof_int
      + sizeof_int
      + data_array_size (int_to_size_t ndims) sizeof_size_t
      + data_array_size (int_to_size_t ndims) sizeof_size_t
      + sizeof_int
      + elim elem [ none ↦ 0 | some size ↦ data_array_size data_len size ])
    % size_t_mod

-- The switches of `cfio_send_put_vara` have the sizes of `cfio_types_size`. The length becomes an
-- `int`.
abbrev pub pack_elements : Option ℕ → Bytes → ℕ → Packer
pack_elements none fp data_len = skip
pack_elements (some size) fp data_len = pack_data_array fp (data_len % 2 ^ 32) size

-- `release` is `cfio_send_client_buf_free`, and `fuel` bounds the rounds in which it is called.
module _ (fuel : ℕ) (release : Buffer → Buffer) where
  abbrev pub ensured : ℕ → Packer → Packer
  ensured size p b = ensure_free_space fuel release b size >>= p

  unfoldable pub send_create : Bytes → ℕ → ℕ → Packer
  send_create path cmode ncid = ensured (create_size path) (
      pack_header (create_size path) func_nc_create
        (pack_str path ▹ (pack_int cmode ▹ pack_int ncid)))

  unfoldable pub send_def_dim : ℕ → Bytes → ℕ → ℕ → Packer
  send_def_dim ncid name len dimid = ensured (def_dim_size name) (
      pack_header (def_dim_size name) func_nc_def_dim
        (pack_int ncid ▹ (pack_str name ▹ (pack_size_t len ▹ pack_int dimid))))

  unfoldable pub send_def_var : ℕ → Bytes → ℕ → ℕ → Bytes → ℕ → Packer
  send_def_var ncid name xtype ndims dimids varid = ensured (def_var_size name ndims) (
      pack_header (def_var_size name ndims) func_nc_def_var (
        pack_int ncid
        ▹ (pack_str name
            ▹ (pack_int xtype
                ▹ (pack_int ndims
                    ▹ ((if ndims == 0 then skip else pack_data_array dimids ndims sizeof_int)
                        ▹ pack_int varid))))))

  -- A type that no case covers leaves `att_size` unset, which is a fault.
  unfoldable pub send_put_att : ℕ → ℕ → Bytes → ℕ → ℕ → Bytes → Packer
  send_put_att ncid varid name xtype len op b = types_size xtype >>= (λ att_size.
      ensured (put_att_size name len att_size)
        (pack_header (put_att_size name len att_size) func_put_att (
          pack_int ncid
          ▹ (pack_int varid
              ▹ (pack_str name ▹ (pack_int xtype ▹ pack_data_array op (len % 2 ^ 32) att_size)))))
        b)

  unfoldable pub send_enddef : ℕ → Packer
  send_enddef ncid = ensured ncid_size (pack_header ncid_size func_nc_enddef (pack_int ncid))

  unfoldable pub send_put_vara : ℕ → ℕ → ℕ → Bytes → Bytes → ℕ → Bytes → Packer
  send_put_vara ncid varid ndims start count fp_type fp =
      let data_len = volume 1 (words ndims count) in
      let elem = types_size fp_type in
      let size = put_vara_size ndims data_len elem in
      ensured size (
        pack_header size func_nc_put_vara (
          pack_int ncid
          ▹ (pack_int varid
              ▹ (pack_data_array start ndims sizeof_size_t
                  ▹ (pack_data_array count ndims sizeof_size_t
                      ▹ (pack_int fp_type ▹ pack_elements elem fp data_len))))))

  unfoldable pub send_close : ℕ → Packer
  send_close ncid = ensured ncid_size (pack_header ncid_size func_nc_close (pack_int ncid))

  -- The call that sends a request.
  unfoldable pub send : Request → Packer
  send (create path cmode ncid) = send_create path cmode ncid
  send (def_dim ncid name len dimid) = send_def_dim ncid name len dimid
  send (def_var ncid name xtype ndims dimids varid) =
      send_def_var ncid name xtype ndims dimids varid
  send (put_att ncid varid name xtype len op) = send_put_att ncid varid name xtype len op
  send (enddef ncid) = send_enddef ncid
  send (put_vara ncid varid ndims start count data_len fp_type fp) =
      send_put_vara ncid varid ndims start count fp_type fp
  send (close ncid) = send_close ncid
