-- ===== src/Handlers/Attached.antt =====
-- server/io.c: an attribute that all clients have sent for a variable.
use cfio.Prelude.{
  ℕ, ◌≡◌, ◌≢◌, refl, sym, ◌∙◌, ap, subst, inl, inr, true, false, Option, none, some, List, [], ◌∷◌,
  ◌++◌, ◌==◌, ==_iff, if◌then◌else◌, Bool-cases, arith,
}
use cfio.Memory.{Bytes}
use cfio.Table.{search, search-write, search-write_other}
use cfio.Id.{Att, nc_key, var_key}
use cfio.Id.Server.{Nc, dim_key, get_nc}
use cfio.Id.Server.Laws.{put_att-found}
use cfio.Io.{recv_client_io, remove_client_io, bitmap_full}
use cfio.Message.{func_put_att}
use cfio.Handlers.{error_none, Server, Setting}
use cfio.Handlers.Write.{io_key}
use cfio.Handlers.Write
use cfio.Handlers.Spec.{
  Definition, dimension, variable, keys_of, entry_of, entry_in, dim_in, var_in, Holds,
}
use cfio.Handlers.Declare.{var_apart_nc, var_keys_apart, dim_apart_var}
use cfio.Handlers.Created.{==_apart}

-- The variable with this id gets one attribute more.
abbrev pub with_att : List Definition → ℕ → Att → List Definition
with_att [] id att = []
with_att (dimension i name len ∷ defs) id att =
    let rest = with_att defs id att in dimension i name len ∷ rest
with_att (variable i name xtype ndims dims atts ∷ defs) id att =
    let rest = with_att defs id att in
    if i == id
    then variable i name xtype ndims dims (atts ++ (att ∷ [])) ∷ defs
    else variable i name xtype ndims dims atts ∷ rest

abbrev attached : Att → Option Definition → Option Definition
attached att none = none
attached att (some (dimension i name len)) = some (dimension i name len)
attached att (some (variable i name xtype ndims dims atts)) =
    some (variable i name xtype ndims dims (atts ++ (att ∷ [])))

module _ (id : ℕ) (att : Att) where
  keys_of-with_att :
      (n : ℕ) (defs : List Definition) → keys_of n (with_att defs id att) ≡ keys_of n defs
  keys_of-with_att n [] = refl
  keys_of-with_att n (dimension i m l ∷ defs) = ap (λ r. dim_key n i ∷ r) (keys_of-with_att n defs)
  keys_of-with_att n (variable i m x r ds atts ∷ defs) = elim (Bool-cases (i == id)) [
    | inl e ↦ rw e refl
    | inr e ↦ rw e (ap (λ r. var_key n i ∷ r) (keys_of-with_att n defs))
  ]

  dim_in-with_att :
      (defs : List Definition) (j : ℕ) → dim_in (with_att defs id att) j ≡ dim_in defs j
  dim_in-with_att [] j = refl
  dim_in-with_att (dimension i m l ∷ defs) j = rw (dim_in-with_att defs j) refl
  dim_in-with_att (variable i m x r ds atts ∷ defs) j = elim (Bool-cases (i == id)) [
    | inl e ↦ rw e refl
    | inr e ↦ rw e (dim_in-with_att defs j)
  ]

  var_in-with_att_other :
      (defs : List Definition) (j : ℕ) → id ≢ j → var_in (with_att defs id att) j ≡ var_in defs j
  var_in-with_att_other [] j h = refl
  var_in-with_att_other (dimension i m l ∷ defs) j h = var_in-with_att_other defs j h
  var_in-with_att_other (variable i m x r ds atts ∷ defs) j h = elim (Bool-cases (i == id)) [
    | inl e ↦ let ne : (i == j) ≡ false = ground arith in rw (e, ne) refl
    | inr e ↦ rw (e, var_in-with_att_other defs j h) refl
  ]

  var_in-with_att :
      (defs : List Definition) → var_in (with_att defs id att) id ≡ attached att (var_in defs id)
  var_in-with_att [] = refl
  var_in-with_att (dimension j m l ∷ defs) = var_in-with_att defs
  var_in-with_att (variable j n y q es bs ∷ defs) = elim (Bool-cases (j == id)) [
    | inl e ↦ rw (e, e)
    | inr e ↦ rw (e, e, var_in-with_att defs)
  ]

module _ {T U L : Type 0} (k : Setting T U L) (clients n : ℕ) (nc : Nc)
    (defs : List Definition) where
  -- When the last client's request arrives to put an attribute to a variable whose id is neither 0
  -- nor NC_GLOBAL, and the table of the server holds its file with a list of definitions and
  -- nothing else under its keys, cfio_io_put_att returns CFIO_ERROR_NONE, leaves the library alone
  -- and takes the request out of the table of requests; the table then holds the file with the
  -- attribute behind those of this variable, and the other definitions as they were.
  pub put_att-Holds :
      (s : Server T U L) (client_id id : ℕ) (att : Att) (b : Bytes) (u : U) (i : ℕ) (m : Bytes)
      (x r : ℕ) (ds : List ℕ) (atts : List Att)
      → Holds k.map_ops clients s.map_table n nc defs
      → id ≢ 0
      → id ≢ k.lib.nc_global
      → var_in defs id ≡ some (variable i m x r ds atts)
      → recv_client_io k.io_ops k.config k.server_id s.io_table client_id (io_key func_put_att n id)
        ≡ some (b, u)
      → bitmap_full k.config k.server_id b ≡ some true
      → (t : T) × (cfio.Handlers.Write.put_att k client_id n id att s
          ≡ some (
            error_none,
            record s {
              map_table = t;
              io_table = remove_client_io k.io_ops u (io_key func_put_att n id);
            },
          ))
        × Holds k.map_ops clients t n nc (with_att defs id att)
  unfolding cfio.Handlers.Write.put_att get_nc
  put_att-Holds s client_id id att b u i m x r ds atts holds nz own known arrived full =
      let old = entry_of n clients (variable i m x r ds atts) in
      let new = entry_of n clients (variable i m x r ds (atts ++ (att ∷ []))) in
      let there : search k.map_ops s.map_table (var_key n id) ≡ some old =
        rw (holds.vars id nz, known) refl in
      let h = k.map_ops in
      (
        h.write s.map_table (var_key n id) new,
        rw (
          arrived,
          holds.file,
          full,
          ==_apart id k.lib.nc_global own,
          put_att-found h s.map_table n id att old _ there refl,
        ),
        record {
          file =
              search-write_other h s.map_table (var_key n id) (nc_key n) new (var_apart_nc n id nz)
              ∙ holds.file
              ∙ rw (keys_of-with_att id att n defs) refl;
          dims = λ j nj.
              search-write_other h s.map_table (var_key n id) (dim_key n j) new
                (λ e. dim_apart_var n j id nj (sym e))
              ∙ holds.dims j nj
              ∙ rw (dim_in-with_att id att defs j) refl;
          vars = λ j nj. elim (Bool-cases (id == j)) [
            | inl e ↦
                subst
                  (λ y.
                    search h (h.write s.map_table (var_key n id) new) (var_key n y)
                    ≡ entry_in n clients (var_in (with_att defs id att) y))
                  ((==_iff id j).0 e)
                  (search-write h s.map_table (var_key n id) old new there
                    ∙ rw (var_in-with_att id att defs, known) refl)
            | inr e ↦
                let ne : id ≢ j = λ q. ground arith in
                search-write_other h s.map_table (var_key n id) (var_key n j) new
                  (var_keys_apart n id j ne)
                ∙ holds.vars j nj
                ∙ rw (var_in-with_att_other id att defs j ne) refl
          ];
        },
      )
