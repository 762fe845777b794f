-- ===== src/Handlers/Created.antt =====
-- server/io.c: the request that creates a file.
use cfio.Prelude.{ℕ, ◌≡◌, ◌≢◌, sym, ◌∙◌, true, false, none, some, [], ◌==◌, arith}
use cfio.Memory.{Bytes}
use cfio.Table.{HashTable, search, search-add, search-add_other, search-write, search-write_other}
use cfio.Id.{Key, nc_key, var_key}
use cfio.Id.Server.{Entry, invalid, dim_key, nc_entry, map_nc, get_nc}
use cfio.Handlers.{error_none, error_nc, Server, Setting}
use cfio.Handlers.Define.{create, set_nc}
use cfio.Handlers.Spec.{Holds}
use cfio.Handlers.Declare.{dim_apart_nc, var_apart_nc}

-- Nothing of this file is in the table.
pub record Absent {T : Type 0} (h : HashTable Key Entry T) (t : T) (id : ℕ) : Type 0 where
  pub no_file : search h t (nc_key id) ≡ none
  pub no_dim : (i : ℕ) → i ≢ 0 → search h t (dim_key id i) ≡ none
  pub no_var : (i : ℕ) → i ≢ 0 → search h t (var_key id i) ≡ none

pub ==_refl : (n : ℕ) → (n == n) ≡ true
==_refl n = ground arith

pub ==_apart : (m n : ℕ) → m ≢ n → (m == n) ≡ false
==_apart m n h = ground arith

module _ {T U L : Type 0} (k : Setting T U L) (clients n : ℕ) (s : Server T U L) (path : Bytes)
    (cmode nc_id : ℕ) (l : L) where
  abbrev entered : T
  entered = k.map_ops.add s.map_table (nc_key n) (nc_entry n invalid)

  entered-file :
      Absent k.map_ops s.map_table n
      → search k.map_ops entered (nc_key n) ≡ some (nc_entry n invalid)
  entered-file a = search-add k.map_ops s.map_table (nc_key n) (nc_entry n invalid) a.no_file

  pub create-Holds :
      Absent k.map_ops s.map_table n
      → k.lib.create s.nc path cmode ≡ (k.lib.noerr, nc_id, l)
      → (t : T) × (create k path cmode n s ≡ some (error_none, record s { map_table = t; nc = l }))
        × Holds k.map_ops clients t n (record { nc_id = nc_id; define_mode = true }) []
  unfolding create map_nc get_nc
  create-Holds a made = (
    k.map_ops.write entered (nc_key n) (nc_entry n nc_id),
    rw (a.no_file, made, ==_refl k.lib.noerr, map_nc, set_nc, entered-file a, made, entered-file a),
    record {
      file =
          search-write k.map_ops entered (nc_key n) (nc_entry n invalid) (nc_entry n nc_id)
            (entered-file a);
      dims = λ i ni.
          search-write_other k.map_ops entered (nc_key n) (dim_key n i) (nc_entry n nc_id)
            (λ e. dim_apart_nc n i ni (sym e))
          ∙ search-add_other k.map_ops s.map_table (nc_key n) (dim_key n i) (nc_entry n invalid)
              (λ e. dim_apart_nc n i ni (sym e))
          ∙ a.no_dim i ni;
      vars = λ i ni.
          search-write_other k.map_ops entered (nc_key n) (var_key n i) (nc_entry n nc_id)
            (λ e. var_apart_nc n i ni (sym e))
          ∙ search-add_other k.map_ops s.map_table (nc_key n) (var_key n i) (nc_entry n invalid)
              (λ e. var_apart_nc n i ni (sym e))
          ∙ a.no_var i ni;
    },
  )

  -- When nothing of a file is in the table and the library refuses to create it, cfio_io_create
  -- returns CFIO_ERROR_NC and leaves an entry of the file without a valid id; a request to create
  -- the file that follows returns CFIO_ERROR_NONE and changes nothing, also with another path or
  -- mode.
  pub create_failed :
      (path' : Bytes) (cmode' : ℕ)
      → Absent k.map_ops s.map_table n
      → (ret : ℕ) → ret ≢ k.lib.noerr
      → k.lib.create s.nc path cmode ≡ (ret, nc_id, l)
      → (u : Server T U L) × (create k path cmode n s ≡ some (error_nc, u))
        × (get_nc k.map_ops u.map_table n
            ≡ some (some (record { nc_id = invalid; define_mode = true })))
        × (create k path' cmode' n u ≡ some (error_none, u))
  unfolding create map_nc get_nc
  create_failed path' cmode' a ret bad made = (
    record s { map_table = entered; nc = l },
    rw (a.no_file, made, ==_apart ret k.lib.noerr bad),
    rw (entered-file a),
    rw (entered-file a),
  )
