-- ===== src/Handlers/Write.antt =====
-- server/io.c: attributes and data, and the end of a file.
use cfio.Prelude.{ℕ, ◌*◌, ◌||◌, Option, none, some, List, [], ◌∷◌, ◌==◌, if◌then◌else◌, ◌>>=◌}
use cfio.Memory.{Bytes, store, load}
use cfio.Table.{search}
use cfio.Map.{get_client_index_of_server}
use cfio.Id.{Key, Att, nc_key, var_key}
use cfio.Id.Server.{Nc, Variable, Data, Entry, invalid, no_data, get_nc, get_var, get_val, put_var}
use cfio.Id.Server
use cfio.Id.Remove.{del_each}
use cfio.Io.{IoKey, recv_client_io, remove_client_io, bitmap_full}
use cfio.Io.Merge.Blocks.{Box, Block, merge_var_data}
use cfio.Io.Merge.Blocks.Position.{cells}
use cfio.Message.{words, types_size, func_put_att, func_nc_put_vara, func_nc_close}
use cfio.Api.{cfio_char, cfio_int, cfio_float, cfio_double}
use cfio.Handlers.{
  error_none, error_nc, error_invalid_nc, error_invalid_var, error_wrong_ndims, Server, Handled,
  Setting, unless_error,
}
use cfio.Handlers.Enddef.{and_remove, collect}

abbrev pub cfio_short : ℕ
cfio_short = 3

-- A block has its last dimension first.
abbrev pub box_from : Box → List ℕ → List ℕ → Box
box_from box [] count = box
box_from box (s ∷ start) [] = box
box_from box (s ∷ start) (c ∷ count) = box_from ((s, c) ∷ box) start count

abbrev pub starts_from : List ℕ → Box → List ℕ
starts_from acc [] = acc
starts_from acc (d ∷ box) = starts_from (d.0 ∷ acc) box

abbrev pub counts_from : List ℕ → Box → List ℕ
counts_from acc [] = acc
counts_from acc (d ∷ box) = counts_from (d.1 ∷ acc) box

-- The clients' blocks; a client that sent nothing has a pointer that is NULL.
unfoldable pub blocks_of : List (Option Data) → Option (List Block)
blocks_of [] = some []
blocks_of (none ∷ recv_data) = none
blocks_of (some d ∷ recv_data) =
    blocks_of recv_data
    >>= (λ rest. some (record { box = box_from [] d.start d.count; buf = d.buf } ∷ rest))

abbrev pub io_key : ℕ → ℕ → ℕ → IoKey
io_key func_code client_nc_id client_var_id = record {
  func_code = func_code;
  client_nc_id = client_nc_id;
  client_dim_id = 0;
  client_var_id = client_var_id;
}

module _ {T U L : Type 0} (k : Setting T U L) where
  -- An attribute of the file goes to the library at once, with its own type.
  abbrev pub put_global : Nc → Att → Server T U L → Handled T U L
  put_global nc att s =
      let (ret, l) =
        if att.xtype == cfio_char
        then k.lib.put_att_text s.nc nc.nc_id k.lib.nc_global att.name att.len att.bytes
        else if (att.xtype == cfio_int) || ((att.xtype == cfio_float) || (att.xtype == cfio_double))
        then k.lib.put_att_of att.xtype s.nc nc.nc_id k.lib.nc_global att.name att.xtype att.len
            att.bytes
        else (0, s.nc) in
      some (if ret == k.lib.noerr then error_none else error_nc, record s { nc = l })

  -- `cfio_io_put_att`
  unfoldable pub put_att : ℕ → ℕ → ℕ → Att → Server T U L → Handled T U L
  unfolding get_nc recv_client_io remove_client_io bitmap_full
  put_att client_id client_nc_id client_var_id att s =
      let key = io_key func_put_att client_nc_id client_var_id in
      recv_client_io k.io_ops k.config k.server_id s.io_table client_id key >>= (λ r.
        let u = record s { io_table = r.1 } in
        get_nc k.map_ops s.map_table client_nc_id >>= (λ found. elim found [
          | none ↦ some (error_invalid_nc, u)
          | some nc ↦ bitmap_full k.config k.server_id r.0 >>= (λ full.
              if full
              then (if client_var_id == k.lib.nc_global
                  then put_global nc att u
                  else cfio.Id.Server.put_att k.map_ops u.map_table client_nc_id client_var_id att
                    >>= (λ put. elim put [
                      | none ↦ some (error_invalid_nc, u)
                      | some t ↦ some (error_none, record u { map_table = t })
                    ]))
                >>= and_remove k key
              else some (error_none, u))
        ]))

  -- The function for the element type; bytes and characters are not written.
  abbrev pub write_all : L → Nc → Variable → List ℕ → List ℕ → Bytes → ℕ × L
  write_all l nc var start count bytes =
      if (var.data_type == cfio_short)
        || ((var.data_type == cfio_int)
            || ((var.data_type == cfio_float) || (var.data_type == cfio_double)))
      then k.lib.put_vara_all var.data_type l nc.nc_id var.var_id start count bytes
      else (0, l)

  -- The merged data is written and the request leaves the table. What the library returns is not
  -- passed on.
  abbrev pub write_merged : IoKey → ℕ → ℕ → Nc → Variable → ℕ → Server T U L → Handled T U L
  write_merged key client_nc_id client_var_id nc var total_data s =
      types_size var.data_type >>= (λ ele_size. blocks_of var.recv_data >>= (λ blocks.
        merge_var_data ele_size s.mem total_data blocks >>= (λ r.
          let (box, mem) = r in
          let (ret, l) =
            write_all s.nc nc var (starts_from [] box) (counts_from [] box)
              (load mem total_data (ele_size * cells box)) in
          search k.map_ops s.map_table (var_key client_nc_id client_var_id) >>= (λ val. some (
            error_none,
            record s {
              map_table =
                  k.map_ops.write s.map_table (var_key client_nc_id client_var_id)
                    (record val { var = some (record var { recv_data = no_data var.client_num }) });
              io_table = remove_client_io k.io_ops s.io_table key;
              nc = l;
              mem = mem;
            },
          )))))

  -- The checks that precede the writing.
  abbrev pub write_checked : IoKey → ℕ → ℕ → ℕ → ℕ → Server T U L → Handled T U L
  write_checked key client_nc_id client_var_id ndims total_data s =
      get_nc k.map_ops s.map_table client_nc_id >>= (λ file. elim file [
        | none ↦ some (error_invalid_nc, s)
        | some nc ↦
            if nc.nc_id == invalid
            then some (error_invalid_nc, s)
            else get_var k.map_ops s.map_table client_nc_id client_var_id >>= (λ found. elim found [
              | none ↦ some (error_invalid_var, s)
              | some var ↦
                  if var.var_id == invalid
                  then some (error_invalid_var, s)
                  else if ndims == var.ndims
                  then write_merged key client_nc_id client_var_id nc var total_data s
                  else some (error_wrong_ndims, s)
            ])
      ])

  -- `cfio_io_put_vara`. `data_addr` and `total_data` are where `malloc` puts the client's data and the
  -- merged array.
  unfoldable pub put_vara :
      ℕ → ℕ → ℕ → ℕ → Bytes → Bytes → Bytes → ℕ → ℕ → Server T U L → Handled T U L
  unfolding get_nc get_var put_var blocks_of merge_var_data recv_client_io remove_client_io
      bitmap_full no_data
  put_vara client_id client_nc_id client_var_id ndims start count fp data_addr total_data s =
      let key = io_key func_nc_put_vara client_nc_id client_var_id in
      recv_client_io k.io_ops k.config k.server_id s.io_table client_id key >>= (λ r.
        let u = record s { io_table = r.1; mem = store s.mem data_addr fp } in
        put_var k.map_ops u.map_table client_nc_id client_var_id
          (get_client_index_of_server k.config client_id)
          (record { buf = data_addr; start = words ndims start; count = words ndims count })
        >>= (λ put. elim put [
          | none ↦ some (error_invalid_var, u)
          | some t ↦ bitmap_full k.config k.server_id r.0 >>= (λ full.
              if full
              then write_checked key client_nc_id client_var_id ndims total_data
                  (record u { map_table = t })
              else some (error_none, record u { map_table = t }))
        ]))

  -- The file's entries leave the table.
  abbrev pub forget_file : ℕ → Server T U L → Handled T U L
  forget_file client_nc_id s = get_val k.map_ops s.map_table client_nc_id 0 0 >>= (λ nc_val. some (
    error_none,
    record s {
      map_table = k.map_ops.del (del_each k.map_ops s.map_table nc_val.link) (nc_key client_nc_id);
    },
  ))

  -- What is done when all clients have sent the request.
  unfoldable pub close_file : ℕ → Server T U L → Handled T U L
  unfolding get_nc get_val del_each remove_client_io
  close_file client_nc_id s = get_nc k.map_ops s.map_table client_nc_id >>= (λ found. elim found [
    | none ↦ some (error_invalid_nc, s)
    | some nc ↦
        let (ret, l) = k.lib.close s.nc nc.nc_id in
        let closed = record s { nc = l } in
        if ret == k.lib.noerr
        then and_remove k (io_key func_nc_close client_nc_id 0) (error_none, closed)
          >>= unless_error (forget_file client_nc_id)
        else some (error_nc, closed)
  ])

  -- `cfio_io_close`
  unfoldable pub close : ℕ → ℕ → Server T U L → Handled T U L
  unfolding close_file recv_client_io bitmap_full
  close client_id client_nc_id =
      collect k (io_key func_nc_close client_nc_id 0) client_id (close_file client_nc_id)
