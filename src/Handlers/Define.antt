-- ===== src/Handlers/Define.antt =====
-- server/io.c: files, dimensions and variables become known to a server.
use cfio.Prelude.{
  ℕ, ◌%◌, ◌^◌, Bool, true, false, Option, none, some, List, [], ◌∷◌, ◌==◌, if◌then◌else◌, ◌>>=◌,
}
use cfio.Memory.{Bytes}
use cfio.Table.{search}
use cfio.Map.{get_client_num_of_server}
use cfio.Id.{nc_key}
use cfio.Id.Server.{Nc, invalid, map_nc, map_dim, map_var, get_nc, get_dim, get_var}
use cfio.Handlers.{
  error_none, error_nc, error_invalid_nc, error_invalid_dim, Server, Handled, Setting, int_words,
}

module _ {T U L : Type 0} (k : Setting T U L) where
  -- The file's structure changes in its entry; without the entry the pointer is a fault.
  abbrev pub set_nc : T → ℕ → Nc → Option T
  set_nc t client_nc_id nc =
      search k.map_ops t (nc_key client_nc_id)
      >>= (λ val. some (k.map_ops.write t (nc_key client_nc_id) (record val { nc = some nc })))

  -- The id that the library gave goes to the entry made before, which the code looks up again.
  abbrev pub created : ℕ → ℕ → Server T U L → Handled T U L
  created client_nc_id nc_id s = get_nc k.map_ops s.map_table client_nc_id >>= (λ found.
      elim found [
        | none ↦ some (error_none, s)
        | some nc ↦
            if nc.nc_id == invalid
            then set_nc s.map_table client_nc_id (record nc { nc_id = nc_id })
              >>= (λ t. some (error_none, record s { map_table = t }))
            else none
      ])

  -- `cfio_io_create`
  unfoldable pub create : Bytes → ℕ → ℕ → Server T U L → Handled T U L
  unfolding map_nc get_nc
  create path cmode client_nc_id s = get_nc k.map_ops s.map_table client_nc_id >>= (λ found.
      elim found [
        | some nc ↦ some (error_none, s)
        | none ↦
            let (ret, nc_id, l) = k.lib.create s.nc path cmode in
            let mapped : Server T U L = record s {
              map_table = map_nc k.map_ops s.map_table client_nc_id invalid;
              nc = l;
            } in
            if ret == k.lib.noerr
            then created client_nc_id nc_id mapped
            else some (error_nc, mapped)
      ])

  -- `cfio_io_def_dim`; the length becomes an `int`.
  unfoldable pub def_dim : ℕ → Bytes → ℕ → ℕ → Server T U L → Handled T U L
  unfolding map_dim get_nc get_dim
  def_dim client_nc_id name len client_dim_id s =
      get_nc k.map_ops s.map_table client_nc_id >>= (λ file. elim file [
        | none ↦ some (error_invalid_nc, s)
        | some nc ↦ get_dim k.map_ops s.map_table client_nc_id client_dim_id >>= (λ found.
            elim found [
              | some dim ↦ some (error_none, s)
              | none ↦
                  map_dim k.map_ops s.map_table client_nc_id client_dim_id invalid invalid name
                    (len % 2 ^ 32)
                  >>= (λ t. some (error_none, record s { map_table = t }))
            ])
      ])

  -- The loop that looks the dimensions up: whether all are there.
  unfoldable pub dims_known : T → ℕ → List ℕ → Option Bool
  unfolding get_dim
  dims_known t client_nc_id [] = some true
  dims_known t client_nc_id (d ∷ client_dim_ids) = get_dim k.map_ops t client_nc_id d >>= (λ found.
      elim found [ none ↦ some false | some dim ↦ dims_known t client_nc_id client_dim_ids ])

  -- `cfio_io_def_var`
  unfoldable pub def_var : ℕ → Bytes → ℕ → ℕ → Bytes → ℕ → Server T U L → Handled T U L
  unfolding map_var get_nc get_var dims_known int_words
  def_var client_nc_id name xtype ndims dimids client_var_id s =
      let client_dim_ids = int_words ndims dimids in
      get_nc k.map_ops s.map_table client_nc_id >>= (λ file. elim file [
        | none ↦ some (error_invalid_nc, s)
        | some nc ↦ dims_known s.map_table client_nc_id client_dim_ids >>= (λ known.
            if known
            then get_var k.map_ops s.map_table client_nc_id client_var_id >>= (λ found. elim found [
              | some var ↦ some (error_none, s)
              | none ↦ get_client_num_of_server k.config k.server_id >>= (λ client_num.
                  map_var k.map_ops s.map_table name client_nc_id client_var_id invalid invalid
                    ndims client_dim_ids xtype client_num
                  >>= (λ t. some (error_none, record s { map_table = t })))
            ])
            else some (error_invalid_dim, s))
      ])
