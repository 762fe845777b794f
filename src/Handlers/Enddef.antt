-- ===== src/Handlers/Enddef.antt =====
-- server/io.c: the end of a file's definitions.
use cfio.Prelude.{
  ℕ, ◌%◌, ◌^◌, Bool, true, false, Option, none, some, List, [], ◌∷◌, ◌==◌, if◌then◌else◌, ◌>>=◌,
  leb,
}
use cfio.Buffer.Pack.{int_to_size_t}
use cfio.Table.{search}
use cfio.Id.{Key, Att}
use cfio.Id.Server.{Nc, Dim, Variable, Entry, invalid, get_nc, get_dim, get_val}
use cfio.Io.{IoKey, recv_client_io, remove_client_io, bitmap_full}
use cfio.Message.{func_nc_enddef}
use cfio.Api.{cfio_char, cfio_int, cfio_float, cfio_double}
use cfio.Handlers.{
  cfio_type_to_nc, Code, error_none, error_nc, error_invalid_nc, Server, Handled, Setting,
  unless_error,
}
use cfio.Handlers.Define.{set_nc}

-- A code that is negative as an `int`.
abbrev pub failed : ℕ → Bool
failed ret = leb (2 ^ 31) (ret % 2 ^ 32)

abbrev pub enddef_key : ℕ → IoKey
enddef_key client_nc_id = record {
  func_code = func_nc_enddef;
  client_nc_id = client_nc_id;
  client_dim_id = 0;
  client_var_id = 0;
}

module _ {T U L : Type 0} (k : Setting T U L) where
  -- One attribute; of a type that no case covers nothing is put, and `ret` stays.
  abbrev pub put_att_case : L → ℕ → ℕ → ℕ → Att → ℕ × L
  put_att_case l ret nc_id var_id att =
      if att.xtype == cfio_char
      then k.lib.put_att_text l nc_id var_id att.name att.len att.bytes
      else if (if att.xtype == cfio_int
          then true
          else if att.xtype == cfio_float
          then true
          else att.xtype == cfio_double)
      then k.lib.put_att_of att.xtype l nc_id var_id att.name (cfio_type_to_nc k.lib att.xtype)
          att.len att.bytes
      else (ret, l)

  -- The loop over a variable's attributes: whether it ran to the end.
  unfoldable pub put_atts : L → ℕ → ℕ → ℕ → List Att → Bool × L
  put_atts l ret nc_id var_id [] = (true, l)
  put_atts l ret nc_id var_id (att ∷ atts) =
      let (ret', l') = put_att_case l ret nc_id var_id att in
      let rest = put_atts l' ret' nc_id var_id atts in
      if ret' == k.lib.noerr then rest else (false, l')

  -- The ids that the library gave to the dimensions. Where one is not known the code uses an unset
  -- pointer, or the one of the dimension before, which the model takes for a fault.
  unfoldable pub server_dims : T → ℕ → List ℕ → Option (List ℕ)
  unfolding get_dim
  server_dims t client_nc_id [] = some []
  server_dims t client_nc_id (d ∷ dim_ids) = get_dim k.map_ops t client_nc_id d >>= (λ found.
      found >>= (λ dim. server_dims t client_nc_id dim_ids >>= (λ rest. some (dim.dim_id ∷ rest))))

  -- The file of a definition, which must have been created.
  abbrev pub valid_nc : T → ℕ → Option Nc
  valid_nc t client_nc_id =
      get_nc k.map_ops t client_nc_id
      >>= (λ found. found >>= (λ nc. if nc.nc_id == invalid then none else some nc))

  -- The code that the library returns for the dimension is not looked at.
  unfoldable pub handle_dim : Server T U L → Key → Entry → Dim → Handled T U L
  unfolding get_nc
  handle_dim s key val dim = valid_nc s.map_table val.client_nc_id >>= (λ nc.
      let (ret, dim_id, l) =
        k.lib.def_dim s.nc nc.nc_id dim.name (int_to_size_t dim.global_dim_len) in
      some (
        error_none,
        record s {
          map_table =
              k.map_ops.write s.map_table key
                (record val { dim = some (record dim { nc_id = nc.nc_id; dim_id = dim_id }) });
          nc = l;
        },
      ))

  unfoldable pub handle_var : Server T U L → Key → Entry → Variable → Handled T U L
  unfolding get_nc server_dims put_atts
  handle_var s key val var = server_dims s.map_table val.client_nc_id var.dim_ids >>= (λ dim_ids.
      valid_nc s.map_table val.client_nc_id >>= (λ nc.
        let (ret, var_id, l) =
          k.lib.def_var s.nc nc.nc_id var.name (cfio_type_to_nc k.lib var.data_type) dim_ids in
        let (done, l') = put_atts l ret nc.nc_id var_id var.att_head in
        some (
          if done then error_none else error_nc,
          record s {
            map_table = k.map_ops.write s.map_table key (record val {
              var = some (record var { nc_id = nc.nc_id; var_id = var_id; dim_ids = dim_ids });
            });
            nc = l';
          },
        )))

  -- `_handle_def` of the entry under this key.
  unfoldable pub handle_def : Server T U L → Key → Handled T U L
  unfolding handle_dim handle_var
  handle_def s key = search k.map_ops s.map_table key >>= (λ val. elim val.dim [
    | some dim ↦ handle_dim s key val dim
    | none ↦ elim val.var [ some var ↦ handle_var s key val var | none ↦ some (error_nc, s) ]
  ])

  -- The loop over the file's entries ends with the first error.
  unfoldable pub handle_defs : Server T U L → List Key → Handled T U L
  unfolding handle_def
  handle_defs s [] = some (error_none, s)
  handle_defs s (key ∷ link) = handle_def s key >>= unless_error (λ u. handle_defs u link)

  -- The library ends the definitions, and the file is in data mode.
  abbrev pub end_definitions : ℕ → Nc → Server T U L → Handled T U L
  end_definitions client_nc_id nc s =
      let (ret, l) = k.lib.enddef s.nc nc.nc_id in
      if failed ret
      then some (error_nc, record s { nc = l })
      else set_nc k s.map_table client_nc_id (record nc { define_mode = false })
        >>= (λ t. some (error_none, record s { map_table = t; nc = l }))

  unfoldable pub define_file : ℕ → Nc → Server T U L → Handled T U L
  unfolding get_val handle_defs
  define_file client_nc_id nc s =
      get_val k.map_ops s.map_table client_nc_id 0 0
      >>= (λ nc_val. handle_defs s nc_val.link >>= unless_error (end_definitions client_nc_id nc))

  -- A request that was handled leaves the table.
  abbrev pub and_remove : IoKey → Code × Server T U L → Handled T U L
  and_remove key =
      unless_error
        (λ s. some (error_none, record s { io_table = remove_client_io k.io_ops s.io_table key }))

  -- The request of one more client; `act` follows when all have sent it.
  abbrev pub collect : IoKey → ℕ → (Server T U L → Handled T U L) → Server T U L → Handled T U L
  collect key client_id act s =
      recv_client_io k.io_ops k.config k.server_id s.io_table client_id key >>= (λ r.
        bitmap_full k.config k.server_id r.0 >>= (λ full.
          if full
          then act (record s { io_table = r.1 })
          else some (error_none, record s { io_table = r.1 })))

  -- What is done when all clients have sent the request.
  unfoldable pub end_file : ℕ → Server T U L → Handled T U L
  unfolding get_nc define_file remove_client_io
  end_file client_nc_id s = get_nc k.map_ops s.map_table client_nc_id >>= (λ found. elim found [
    | none ↦ some (error_invalid_nc, s)
    | some nc ↦
        (if nc.define_mode then define_file client_nc_id nc s else some (error_none, s))
        >>= and_remove (enddef_key client_nc_id)
  ])

  -- `cfio_io_enddef`
  unfoldable pub enddef : ℕ → ℕ → Server T U L → Handled T U L
  unfolding end_file recv_client_io bitmap_full
  enddef client_id client_nc_id =
      collect (enddef_key client_nc_id) client_id (end_file client_nc_id)
