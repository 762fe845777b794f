-- ===== src/Handlers/Ended.antt =====
-- server/io.c: the request that ends the definitions of a file.
use cfio.Prelude.{ℕ, ◌≡◌, ◌≢◌, refl, sym, ◌∙◌, ap, false, none, some, List, [], ◌∷◌, arith}
use cfio.Table.{HashTable, search, search-write, search-write_other}
use cfio.Id.{Key, nc_key, var_key}
use cfio.Id.Server.{Nc, Entry, invalid, dim_key, get_dim, get_var, get_val}
use cfio.Handlers.{error_none, Server, Setting}
use cfio.Handlers.Enddef.{failed, define_file}
use cfio.Handlers.Spec.{Definition, dimension, variable, key_of, keys_of, entry_of, known_as, Holds}
use cfio.Handlers.Declare.{dim_apart_nc, var_apart_nc}
use cfio.Handlers.Created.{==_refl, ==_apart}
use cfio.Handlers.Known.{Known}
use cfio.Handlers.Run.{define_all, IsSound, Apart, IsReady, Entered, handle_defs-defines}

-- The entry of a file with these definitions.
abbrev pub file_of : ℕ → Nc → List Definition → Entry
file_of n nc defs = record {
  client_nc_id = n;
  nc = some nc;
  dim = none;
  var = none;
  link = keys_of n defs;
}

known_as-same : (defs : List Definition) (d : Definition) → known_as (d ∷ defs) d ≡ some d
known_as-same defs (dimension id name len) = rw (==_refl id)
known_as-same defs (variable id name xtype ndims dims atts) = rw (==_refl id)

known_as-behind :
    (n : ℕ) (defs : List Definition) (d e : Definition)
    → key_of n d ≢ key_of n e
    → known_as (d ∷ defs) e ≡ known_as defs e
known_as-behind n defs (dimension id name len) (dimension id' name' len') h =
    rw (==_apart id id' (λ q. h (ap (dim_key n) q)))
known_as-behind n defs (dimension id name len) (variable id' name' xtype ndims dims atts) h = refl
known_as-behind n defs (variable id name xtype ndims dims atts) (dimension id' name' len') h = refl
known_as-behind n defs (variable id name xtype ndims dims atts)
      (variable id' name' xtype' ndims' dims' atts') h =
    rw (==_apart id id' (λ q. h (ap (var_key n) q)))

-- Each of the second list's definitions is the first with its id in the first list.
abbrev EachFound : List Definition → List Definition → Type 0
EachFound defs [] = Unit
EachFound defs (e ∷ es) = (known_as defs e ≡ some e) × EachFound defs es

EachFound-behind :
    (n : ℕ) (defs es : List Definition) (d : Definition)
    → Apart n d es
    → EachFound defs es
    → EachFound (d ∷ defs) es
EachFound-behind n defs [] d a f = tt
EachFound-behind n defs (e ∷ es) d a f =
    (known_as-behind n defs d e a.0 ∙ f.0, EachFound-behind n defs es d a.1 f.1)

IsReady-EachFound : (n : ℕ) (defs : List Definition) → IsReady n defs → EachFound defs defs
IsReady-EachFound n [] r = tt
IsReady-EachFound n (d ∷ defs) r =
    (known_as-same defs d, EachFound-behind n defs defs d r.1 (IsReady-EachFound n defs r.2))

module _ {T : Type 0} (h : HashTable Key Entry T) (clients : ℕ) (t : T) (n : ℕ) (nc : Nc)
    (defs : List Definition) (holds : Holds h clients t n nc defs) where
  search-known_as :
      (d : Definition)
      → IsSound d
      → known_as defs d ≡ some d
      → search h t (key_of n d) ≡ some (entry_of n clients d)
  search-known_as (dimension id name len) sound e = rw (holds.dims id sound, e)
  search-known_as (variable id name xtype ndims dims atts) sound e = rw (holds.vars id sound.0, e)

  each-Entered :
      (es : List Definition) → IsReady n es → EachFound defs es → Entered h clients t n es
  each-Entered [] r f = tt
  each-Entered (e ∷ es) r f = (search-known_as e r.0 f.0, each-Entered es r.2 f.1)

  pub Holds-Entered : IsReady n defs → Entered h clients t n defs
  Holds-Entered r = each-Entered defs r (IsReady-EachFound n defs r)

  Holds-Known : Known h t n (file_of n nc defs) [] []
  Holds-Known = record {
    file = holds.file;
    dim_ids = λ i d ni e. absurd (ground arith);
    var_ids = λ i v ni e. absurd (ground arith);
  }

Known-write_nc :
    {T : Type 0} (h : HashTable Key Entry T) (t : T) (n : ℕ) (old new : Entry)
    (dims vars : List (ℕ × ℕ))
    → Known h t n old dims vars
    → Known h (h.write t (nc_key n) new) n new dims vars
unfolding get_dim get_var
Known-write_nc h t n old new dims vars known = record {
  file = search-write h t (nc_key n) old new known.file;
  dim_ids = λ i d ni e.
      let (dim, g, q) = known.dim_ids i d ni e in
      (
        dim,
        rw (search-write_other h t (nc_key n) (dim_key n i) new (λ r. dim_apart_nc n i ni (sym r)))
            g,
        q,
      );
  var_ids = λ i v ni e.
      let (var, g, q) = known.var_ids i v ni e in
      (
        var,
        rw (search-write_other h t (nc_key n) (var_key n i) new (λ r. var_apart_nc n i ni (sym r)))
            g,
        q,
      );
}

module _ {T U L : Type 0} (k : Setting T U L) (clients n : ℕ) (nc : Nc) (defs : List Definition)
    (made : nc.nc_id ≢ invalid) where
  pub define_file-defines :
      (s : Server T U L) (r : List (ℕ × ℕ) × List (ℕ × ℕ) × L) (ret : ℕ) (l : L)
      → Holds k.map_ops clients s.map_table n nc defs
      → IsReady n defs
      → define_all k nc.nc_id defs [] [] s.nc ≡ some r
      → k.lib.enddef r.2 nc.nc_id ≡ (ret, l)
      → failed ret ≡ false
      → (t : T) × (define_file k n nc s ≡ some (error_none, record s { map_table = t; nc = l }))
        × Known k.map_ops t n (file_of n (record nc { define_mode = false }) defs) r.0 r.1
  unfolding define_file get_val
  define_file-defines s r ret l holds ready e ended fine =
      let (t, h, known) =
        handle_defs-defines k clients n (file_of n nc defs) nc refl made defs s [] [] r
          (Holds-Known k.map_ops clients s.map_table n nc defs holds)
          (Holds-Entered k.map_ops clients s.map_table n nc defs holds ready) ready e in
      (
        k.map_ops.write t (nc_key n) (file_of n (record nc { define_mode = false }) defs),
        rw (holds.file, h, ended, fine, known.file),
        Known-write_nc k.map_ops t n (file_of n nc defs)
            (file_of n (record nc { define_mode = false }) defs) r.0 r.1 known,
      )
