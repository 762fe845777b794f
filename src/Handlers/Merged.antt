-- ===== src/Handlers/Merged.antt =====
-- server/io.c: the last client's block of a variable, with which the whole is written.
use cfio.Prelude.{
  ℕ, ◌+◌, ◌*◌, ◌<◌, ◌^◌, ◌≡◌, ◌≢◌, refl, Bool, true, false, ◌||◌, Option, some, List, [], ◌∷◌, ◌==◌,
  get_elem?, set,
}
use cfio.Memory.{Memory, Bytes, store, load}
use cfio.Table.{search, search-write, search-write_other}
use cfio.Map.{get_client_index_of_server}
use cfio.Id.{nc_key, var_key}
use cfio.Id.Server.{Nc, Variable, Data, Entry, invalid, no_data, get_nc, get_var, put_var}
use cfio.Id.Server.Laws.{put_var-found}
use cfio.Io.{recv_client_io, remove_client_io, bitmap_full}
use cfio.Io.Merge.Place.{src_position, InBlock}
use cfio.Io.Merge.Blocks.{Box, Block, axes, Contains, Each, merged_box, merge_var_data}
use cfio.Io.Merge.Blocks.Bounds.{HasBox}
use cfio.Io.Merge.Blocks.Position.{position, cells, space, global}
use cfio.Io.Merge.Blocks.Merged.{Among, AllSeparate, IsApart, merge_var_data-places}
use cfio.Message.{words, types_size, func_nc_put_vara}
use cfio.Api.{cfio_int, cfio_float, cfio_double}
use cfio.Handlers.{error_none, Server, Setting}
use cfio.Handlers.Declare.{var_apart_nc}
use cfio.Handlers.Created.{==_refl, ==_apart}
use cfio.Handlers.Write.{cfio_short, starts_from, counts_from, blocks_of, io_key, put_vara}

-- The types whose data is written.
abbrev pub is_written : ℕ → Bool
is_written data_type =
    (data_type == cfio_short)
    || ((data_type == cfio_int) || ((data_type == cfio_float) || (data_type == cfio_double)))

module _ {T U L : Type 0} (k : Setting T U L) (client_id n id : ℕ) (start count fp : Bytes)
    (data_addr total_data : ℕ) (s : Server T U L) (file_val val : Entry) (nc : Nc) (var : Variable)
    (old : Option Data) (b : Bytes) (u : U) where
  -- The last request for the variable arrives, in a file that the library knows.
  pub record IsLast : Type 0 where
    pub arrived :
        recv_client_io k.io_ops k.config k.server_id s.io_table client_id
          (io_key func_nc_put_vara n id)
        ≡ some (b, u)
    pub full : bitmap_full k.config k.server_id b ≡ some true
    pub nonzero : id ≢ 0
    pub file : search k.map_ops s.map_table (nc_key n) ≡ some file_val
    pub has_nc : file_val.nc ≡ some nc
    pub nc_valid : nc.nc_id ≢ invalid
    pub var_found : search k.map_ops s.map_table (var_key n id) ≡ some val
    pub has_var : val.var ≡ some var
    pub var_valid : var.var_id ≢ invalid
    pub place : get_elem? var.recv_data (get_client_index_of_server k.config client_id) ≡ some old

  abbrev pub sent : Data
  sent = record { buf = data_addr; start = words var.ndims start; count = words var.ndims count }

  abbrev pub filled : Variable
  filled = record var {
    recv_data = set var.recv_data (get_client_index_of_server k.config client_id) (some sent);
  }

  abbrev filled_val : Entry
  filled_val = record val { var = some filled }

  abbrev pub cleared : Entry
  cleared = record val { var = some (record filled { recv_data = no_data var.client_num }) }

  abbrev filled_table : T
  filled_table = k.map_ops.write s.map_table (var_key n id) filled_val

  put_var-filled :
      IsLast
      → put_var k.map_ops s.map_table n id (get_client_index_of_server k.config client_id) sent
        ≡ some (some filled_table)
  put_var-filled p =
      put_var-found k.map_ops s.map_table n id (get_client_index_of_server k.config client_id) sent
        val var old p.var_found p.has_var p.place

  get_nc-filled : IsLast → get_nc k.map_ops filled_table n ≡ some (some nc)
  unfolding get_nc
  get_nc-filled p = rw (
    search-write_other k.map_ops s.map_table (var_key n id) (nc_key n) filled_val
        (var_apart_nc n id p.nonzero),
    p.file,
    p.has_nc,
  )

  filled_found : IsLast → search k.map_ops filled_table (var_key n id) ≡ some filled_val
  filled_found p = search-write k.map_ops s.map_table (var_key n id) val filled_val p.var_found

  get_var-filled : IsLast → get_var k.map_ops filled_table n id ≡ some (some filled)
  unfolding get_var
  get_var-filled p = rw (filled_found p)

  module _ (p : IsLast) (ele : ℕ) (blk : Block) (blocks : List Block)
      (size : types_size var.data_type ≡ some ele)
      (all : blocks_of filled.recv_data ≡ some (blk ∷ blocks)) where
    pub put_vara-merged :
        (box : Box) (m : Memory) (ret : ℕ) (l : L)
        → is_written var.data_type ≡ true
        → merge_var_data ele (store s.mem data_addr fp) total_data (blk ∷ blocks) ≡ some (box, m)
        → k.lib.put_vara_all var.data_type s.nc nc.nc_id var.var_id
            (starts_from [] box)
            (counts_from [] box)
            (load m total_data (ele * cells box))
          ≡ (ret, l)
        → put_vara k client_id n id var.ndims start count fp data_addr total_data s
          ≡ some (
            error_none,
            record s {
              map_table =
                  k.map_ops.write
                    (k.map_ops.write s.map_table (var_key n id) filled_val)
                    (var_key n id)
                    cleared;
              io_table = remove_client_io k.io_ops u (io_key func_nc_put_vara n id);
              nc = l;
              mem = m;
            },
          )
    unfolding put_vara
    put_vara-merged box m ret l numeric merge wrote = rw (
      p.arrived,
      put_var-filled p,
      p.full,
      get_nc-filled p,
      ==_apart nc.nc_id invalid p.nc_valid,
      get_var-filled p,
      ==_apart var.var_id invalid p.var_valid,
      ==_refl var.ndims,
      size,
      all,
      merge,
      numeric,
      wrote,
      filled_found p,
    )

    -- Of another type nothing is written, and the data is forgotten.
    pub put_vara_unwritten :
        (box : Box) (m : Memory)
        → is_written var.data_type ≡ false
        → merge_var_data ele (store s.mem data_addr fp) total_data (blk ∷ blocks) ≡ some (box, m)
        → put_vara k client_id n id var.ndims start count fp data_addr total_data s
          ≡ some (
            error_none,
            record s {
              map_table =
                  k.map_ops.write
                    (k.map_ops.write s.map_table (var_key n id) filled_val)
                    (var_key n id)
                    cleared;
              io_table = remove_client_io k.io_ops u (io_key func_nc_put_vara n id);
              mem = m;
            },
          )
    unfolding put_vara
    put_vara_unwritten box m other merge = rw (
      p.arrived,
      put_var-filled p,
      p.full,
      get_nc-filled p,
      ==_apart nc.nc_id invalid p.nc_valid,
      get_var-filled p,
      ==_apart var.var_id invalid p.var_valid,
      ==_refl var.ndims,
      size,
      all,
      merge,
      other,
      filled_found p,
    )

    module _ (dims : ℕ) (blk_in : Block) (index : List ℕ) (pos : 0 < ele)
        (boxes : Each (HasBox dims) (blk ∷ blocks)) (apart : AllSeparate (blk ∷ blocks))
        (wide : space ele (merged_box blk.box blocks) < 2 ^ 64)
        (elsewhere : Each (IsApart ele (merged_box blk.box blocks) total_data) (blk ∷ blocks))
        (among : Among blk_in (blk ∷ blocks))
        (inside : InBlock (axes (merged_box blk.box blocks) blk_in.box) index) where
      -- When the last client's data of a variable of the type short, int, float or double arrives
      -- on a server, in a file and for a variable that have valid ids, every client's block has
      -- arrived, with as many dimensions each, not empty, ending below 2 ^ 31 and of less than 2 ^
      -- 31 elements, and the blocks overlap neither one another in the variable nor the merged
      -- array in memory, which is smaller than 2 ^ 64 bytes, cfio_io_put_vara calls the library
      -- once, with the start and the count of the merged array and its bytes, and each element of
      -- each block stands in these at its place; it returns CFIO_ERROR_NONE whatever the library
      -- returns, forgets the clients' data and takes the request out of the table.
      pub put_vara-writes :
          is_written var.data_type ≡ true
          → let box = merged_box blk.box blocks in
            (m : Memory) × (put_vara k client_id n id var.ndims start count fp data_addr total_data
                s
              ≡ some (
                error_none,
                record s {
                  map_table =
                      k.map_ops.write
                        (k.map_ops.write s.map_table (var_key n id) filled_val)
                        (var_key n id)
                        cleared;
                  io_table = remove_client_io k.io_ops u (io_key func_nc_put_vara n id);
                  nc =
                      (k.lib.put_vara_all var.data_type s.nc nc.nc_id var.var_id
                        (starts_from [] box)
                        (counts_from [] box)
                        (load m total_data (ele * cells box))).1;
                  mem = m;
                },
              ))
            × Contains box blk_in.box
            × (load m (total_data + ele * position box (global blk_in.box index)) ele
                ≡ load
                    (store s.mem data_addr fp)
                    (blk_in.buf + ele * src_position (axes box blk_in.box) index)
                    ele)
      put_vara-writes numeric =
          let box = merged_box blk.box blocks in
          let (m, merge, within, same) =
            merge_var_data-places ele dims (store s.mem data_addr fp) total_data blk blocks blk_in
              index pos boxes apart wide elsewhere among inside in
          let call =
            k.lib.put_vara_all var.data_type s.nc nc.nc_id var.var_id (starts_from [] box)
              (counts_from [] box) (load m total_data (ele * cells box)) in
          (m, put_vara-merged box m call.0 call.1 numeric merge refl, within, same)

      -- When the last client's data of a variable of another type than short, int, float and
      -- double arrives on a server, in a file and for a variable that have valid ids, every
      -- client's block has arrived, with as many dimensions each, not empty, ending below 2 ^ 31
      -- and of less than 2 ^ 31 elements, and the blocks overlap neither one another in the
      -- variable nor the merged array in memory, which is smaller than 2 ^ 64 bytes,
      -- cfio_io_put_vara does not call the library, forgets the data of all clients and returns
      -- CFIO_ERROR_NONE.
      pub put_vara_drops :
          is_written var.data_type ≡ false
          → (m : Memory) × (put_vara k client_id n id var.ndims start count fp data_addr total_data
                s
              ≡ some (
                error_none,
                record s {
                  map_table =
                      k.map_ops.write
                        (k.map_ops.write s.map_table (var_key n id) filled_val)
                        (var_key n id)
                        cleared;
                  io_table = remove_client_io k.io_ops u (io_key func_nc_put_vara n id);
                  mem = m;
                },
              ))
      put_vara_drops other =
          let (m, merge, within, same) =
            merge_var_data-places ele dims (store s.mem data_addr fp) total_data blk blocks blk_in
              index pos boxes apart wide elsewhere among inside in
          (m, put_vara_unwritten (merged_box blk.box blocks) m other merge)
