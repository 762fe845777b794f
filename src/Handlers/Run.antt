-- ===== src/Handlers/Run.antt =====
-- server/io.c: what the library is given of a file's definitions, and what the table then holds.
use cfio.Prelude.{
  ℕ, ◌≡◌, ◌≢◌, refl, sym, ◌∙◌, subst, true, false, inl, inr, Option, none, some, List, [], ◌∷◌,
  ◌==◌, if◌then◌else◌, ◌>>=◌, Bool-cases, arith,
}
use mathlib.Core.Option.{some-injective}
use cfio.Buffer.Pack.{int_to_size_t}
use cfio.Table.{HashTable, search, search-write_other}
use cfio.Memory.{Bytes}
use cfio.Id.{Key, Att, var_key}
use cfio.Id.Assign.{Option-cases}
use cfio.Id.Server.{Nc, Dim, Variable, Entry, invalid, dim_key, no_data, get_nc}
use cfio.Handlers.{cfio_type_to_nc, error_none, Server, Setting}
use cfio.Handlers.Enddef.{put_atts, valid_nc, handle_dim, handle_var, handle_def, handle_defs}
use cfio.Handlers.Spec.{Definition, dimension, variable, key_of, keys_of, entry_of}
use cfio.Handlers.Declared.{NoZero}
use cfio.Handlers.Known.{given_each, Known, Known-write_dim, Known-write_var, server_dims-Known}

-- What the library makes of a list of definitions: the ids it gives to the dimensions and to the
-- variables, and its state. There is no result where a dimension comes after its variable, or an
-- attribute is refused.
module _ {T U L : Type 0} (k : Setting T U L) (nc_id : ℕ) where
  unfoldable pub define_all :
      List Definition → List (ℕ × ℕ) → List (ℕ × ℕ) → L → Option (List (ℕ × ℕ) × List (ℕ × ℕ) × L)
  define_all [] dims vars l = some (dims, vars, l)
  define_all (dimension id name len ∷ defs) dims vars l =
      let (ret, dim_id, l') = k.lib.def_dim l nc_id name (int_to_size_t len) in
      define_all defs ((id, dim_id) ∷ dims) vars l'
  define_all (variable id name xtype ndims ds atts ∷ defs) dims vars l =
      given_each dims ds >>= (λ ids.
        let (ret, var_id, l') = k.lib.def_var l nc_id name (cfio_type_to_nc k.lib xtype) ids in
        let (done, l'') = put_atts k l' ret nc_id var_id atts in
        let rest = define_all defs dims ((id, var_id) ∷ vars) l'' in if done then rest else none)

  define_all-variable :
      (id : ℕ) (name : Bytes) (xtype ndims : ℕ) (ds : List ℕ) (atts : List Att)
      (defs : List Definition) (dims vars : List (ℕ × ℕ)) (l : L) (ids : List ℕ)
      → given_each dims ds ≡ some ids
      → let made = k.lib.def_var l nc_id name (cfio_type_to_nc k.lib xtype) ids in
        let put = put_atts k made.2 made.0 nc_id made.1 atts in
        put.0 ≡ true
        → define_all (variable id name xtype ndims ds atts ∷ defs) dims vars l
          ≡ define_all defs dims ((id, made.1) ∷ vars) put.1
  unfolding define_all
  define_all-variable id name xtype ndims ds atts defs dims vars l ids g a = rw (g, a)

-- No id is 0.
abbrev pub IsSound : Definition → Type 0
IsSound (dimension id name len) = id ≢ 0
IsSound (variable id name xtype ndims dims atts) = (id ≢ 0) × NoZero dims

abbrev pub Apart : ℕ → Definition → List Definition → Type 0
Apart n d [] = Unit
Apart n d (e ∷ defs) = (key_of n d ≢ key_of n e) × Apart n d defs

-- No two definitions have the same key.
abbrev pub IsReady : ℕ → List Definition → Type 0
IsReady n [] = Unit
IsReady n (d ∷ defs) = IsSound d × Apart n d defs × IsReady n defs

abbrev pub Entered : {T : Type 0} → HashTable Key Entry T → ℕ → T → ℕ → List Definition → Type 0
Entered h clients t n [] = Unit
Entered h clients t n (d ∷ defs) =
    (search h t (key_of n d) ≡ some (entry_of n clients d)) × Entered h clients t n defs

Entered-write :
    {T : Type 0} (h : HashTable Key Entry T) (clients : ℕ) (t : T) (n : ℕ) (d : Definition)
    (val : Entry) (defs : List Definition)
    → Apart n d defs
    → Entered h clients t n defs
    → Entered h clients (h.write t (key_of n d) val) n defs
Entered-write h clients t n d val [] a e = tt
Entered-write h clients t n d val (x ∷ defs) a e = (
  search-write_other h t (key_of n d) (key_of n x) val a.0 ∙ e.0,
  Entered-write h clients t n d val defs a.1 e.1,
)

module _ {T U L : Type 0} (k : Setting T U L) (clients n : ℕ) (file_val : Entry) (nc : Nc)
    (is_file : file_val.nc ≡ some nc) (made : nc.nc_id ≢ invalid) where
  pub valid_nc-Known :
      (t : T) (dims vars : List (ℕ × ℕ))
      → Known k.map_ops t n file_val dims vars
      → valid_nc k t n ≡ some nc
  unfolding get_nc
  valid_nc-Known t dims vars known = rw (known.file, is_file, ==_invalid nc.nc_id made)
    where
      ==_invalid : (i : ℕ) → i ≢ invalid → (i == invalid) ≡ false
      ==_invalid i h = ground arith

  pub handle_defs-defines :
      (defs : List Definition) (s : Server T U L) (dims vars : List (ℕ × ℕ))
      (r : List (ℕ × ℕ) × List (ℕ × ℕ) × L)
      → Known k.map_ops s.map_table n file_val dims vars
      → Entered k.map_ops clients s.map_table n defs
      → IsReady n defs
      → define_all k nc.nc_id defs dims vars s.nc ≡ some r
      → (t : T) × (handle_defs k s (keys_of n defs)
          ≡ some (error_none, record s { map_table = t; nc = r.2 }))
        × Known k.map_ops t n file_val r.0 r.1
  unfolding handle_defs handle_def handle_dim handle_var define_all
  handle_defs-defines [] s dims vars r known entered ready e =
      subst
        (λ x.
          (t : T) × (handle_defs k s [] ≡ some (error_none, record s { map_table = t; nc = x.2 }))
          × Known k.map_ops t n file_val x.0 x.1)
        (some-injective (dims, vars, s.nc) r e) (s.map_table, refl, known)
  handle_defs-defines (dimension id name len ∷ defs) s dims vars r known entered ready e =
      let d = dimension id name len in
      let made_dim = k.lib.def_dim s.nc nc.nc_id name (int_to_size_t len) in
      let dim : Dim = record {
        name = name;
        nc_id = nc.nc_id;
        dim_id = made_dim.1;
        global_dim_len = len;
      } in
      let val = record (entry_of n clients d) { dim = some dim } in
      let u : Server T U L = record s {
        map_table = k.map_ops.write s.map_table (dim_key n id) val;
        nc = made_dim.2;
      } in
      let (t, h, q) =
        handle_defs-defines defs u ((id, dim.dim_id) ∷ dims) vars r
          (Known-write_dim k.map_ops s.map_table n file_val dims vars known id ready.0
            (entry_of n clients d) dim entered.0)
          (Entered-write k.map_ops clients s.map_table n d val defs ready.1 entered.1) ready.2 e in
      (t, rw (entered.0, valid_nc-Known s.map_table dims vars known) h, q)
  handle_defs-defines (variable id name xtype ndims ds atts ∷ defs) s dims vars r known entered
        ready e =
      elim (Option-cases (given_each dims ds)) [
        | inl g ↦ absurd (ground arith)
        | inr (ids, g) ↦
            let d = variable id name xtype ndims ds atts in
            let made_var = k.lib.def_var s.nc nc.nc_id name (cfio_type_to_nc k.lib xtype) ids in
            let with_atts = put_atts k made_var.2 made_var.0 nc.nc_id made_var.1 atts in
            elim (Bool-cases with_atts.0) [
              | inr a ↦ absurd (ground arith)
              | inl a ↦
                  let var : Variable = record {
                    name = name;
                    nc_id = nc.nc_id;
                    var_id = made_var.1;
                    ndims = ndims;
                    client_num = clients;
                    dim_ids = ids;
                    recv_data = no_data clients;
                    data_type = xtype;
                    att_head = atts;
                  } in
                  let val = record (entry_of n clients d) { var = some var } in
                  let u : Server T U L = record s {
                    map_table = k.map_ops.write s.map_table (var_key n id) val;
                    nc = with_atts.1;
                  } in
                  let (t, h, q) =
                    handle_defs-defines defs u dims ((id, var.var_id) ∷ vars) r
                      (Known-write_var k.map_ops s.map_table n file_val dims vars known id ready.0.0
                        (entry_of n clients d) var entered.0)
                      (Entered-write k.map_ops clients s.map_table n d val defs ready.1 entered.1)
                      ready.2
                      (sym (
                          define_all-variable k nc.nc_id id name xtype ndims ds atts defs dims vars
                            s.nc ids g a)
                        ∙ e) in
                  (
                    t,
                    rw
                        (
                          entered.0,
                          server_dims-Known k s.map_table n file_val dims vars known ds ids
                              ready.0.1 g,
                          valid_nc-Known s.map_table dims vars known,
                          a,
                        )
                        h,
                    q,
                  )
            ]
      ]
