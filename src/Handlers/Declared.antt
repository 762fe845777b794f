-- ===== src/Handlers/Declared.antt =====
-- server/io.c: the requests that create a file and define its dimensions and variables.
use cfio.Prelude.{
  ℕ, ◌%◌, ◌^◌, ◌≡◌, ◌≢◌, refl, ◌⊎◌, inl, inr, Bool, true, false, none, some, List, [], ◌∷◌, ◌==◌,
  Bool-cases, arith,
}
use cfio.Memory.{Bytes}
use cfio.Table.{HashTable}
use cfio.Map.{get_client_num_of_server}
use cfio.Id.{Key, Att}
use cfio.Id.Server.{Nc, Entry, invalid, map_dim, map_var, get_nc, get_dim, get_var}
use cfio.Handlers.{error_none, error_invalid_dim, Server, Setting, int_words}
use cfio.Handlers.Define.{def_dim, def_var, dims_known}
use cfio.Handlers.Spec.{Definition, dimension, variable, dim_in, var_in, declare, Holds}
use cfio.Handlers.Declare.{with_dimension, with_variable, Holds-dimension, Holds-variable}

pub dim_in-cases :
    (defs : List Definition) (i : ℕ)
    → (dim_in defs i ≡ none)
      ⊎ ((id : ℕ) × (name : Bytes) × (len : ℕ) × (dim_in defs i ≡ some (dimension id name len)))
dim_in-cases [] i = inl refl
dim_in-cases (dimension a m l ∷ defs) i = elim (Bool-cases (a == i)) [
  | inl e ↦ inr (a, m, l, rw e)
  | inr e ↦ rw e (dim_in-cases defs i)
]
dim_in-cases (variable a m x r ds atts ∷ defs) i = dim_in-cases defs i

pub var_in-cases :
    (defs : List Definition) (i : ℕ)
    → (var_in defs i ≡ none)
      ⊎ ((id : ℕ) × (name : Bytes) × (xtype : ℕ) × (ndims : ℕ) × (dims : List ℕ) × (atts : List Att)
          × (var_in defs i ≡ some (variable id name xtype ndims dims atts)))
var_in-cases [] i = inl refl
var_in-cases (dimension a m l ∷ defs) i = var_in-cases defs i
var_in-cases (variable a m x r ds atts ∷ defs) i = elim (Bool-cases (a == i)) [
  | inl e ↦ inr (a, m, x, r, ds, atts, rw e)
  | inr e ↦ rw e (var_in-cases defs i)
]

-- Whether all these dimensions are defined.
abbrev pub all_in : List Definition → List ℕ → Bool
all_in defs [] = true
all_in defs (d ∷ ds) =
    let rest = all_in defs ds in elim (dim_in defs d) [ none ↦ false | some x ↦ rest ]

abbrev pub NoZero : List ℕ → Type 0
NoZero [] = Unit
NoZero (d ∷ ds) = (d ≢ 0) × NoZero ds

module _ {T : Type 0} (h : HashTable Key Entry T) (clients : ℕ) (t : T) (n : ℕ) (nc : Nc)
    (defs : List Definition) (holds : Holds h clients t n nc defs) where
  pub get_nc-Holds : get_nc h t n ≡ some (some nc)
  unfolding get_nc
  get_nc-Holds = rw holds.file

  pub get_dim-Holds_none : (i : ℕ) → i ≢ 0 → dim_in defs i ≡ none → get_dim h t n i ≡ some none
  unfolding get_dim
  get_dim-Holds_none i ni e = rw (holds.dims i ni, e)

  pub get_dim-Holds :
      (i id : ℕ) (name : Bytes) (len : ℕ)
      → i ≢ 0
      → dim_in defs i ≡ some (dimension id name len)
      → get_dim h t n i
        ≡ some
            (some (record { name = name; nc_id = invalid; dim_id = invalid; global_dim_len = len }))
  unfolding get_dim
  get_dim-Holds i id name len ni e = rw (holds.dims i ni, e)

==_zero : (n : ℕ) → n ≢ 0 → (n == 0) ≡ false
==_zero n h = ground arith

module _ {T U L : Type 0} (k : Setting T U L) (clients : ℕ) (n : ℕ) (nc : Nc)
    (defs : List Definition) where
  dims_known-Holds :
      (t : T)
      → Holds k.map_ops clients t n nc defs
      → (ds : List ℕ) → NoZero ds
      → dims_known k t n ds ≡ some (all_in defs ds)
  unfolding dims_known
  dims_known-Holds t holds [] nz = refl
  dims_known-Holds t holds (d ∷ ds) nz = elim (dim_in-cases defs d) [
    | inl e ↦ rw (get_dim-Holds_none k.map_ops clients t n nc defs holds d nz.0 e, all_in, e)
    | inr (id, name, len, e) ↦
        rw (get_dim-Holds k.map_ops clients t n nc defs holds d id name len nz.0 e, all_in, e)
          (dims_known-Holds t holds ds nz.1)
  ]

  pub def_dim-declares :
      (s : Server T U L) (name : Bytes) (len id : ℕ)
      → Holds k.map_ops clients s.map_table n nc defs
      → id ≢ 0
      → (t : T) × (def_dim k n name len id s ≡ some (error_none, record s { map_table = t }))
        × Holds k.map_ops clients t n nc (declare defs (dimension id name (len % 2 ^ 32)))
  unfolding def_dim map_dim
  def_dim-declares s name len id holds nz = elim (dim_in-cases defs id) [
    | inl e ↦ (
      with_dimension k.map_ops clients s.map_table n nc defs holds id name (len % 2 ^ 32) nz e,
      rw (
        get_nc-Holds k.map_ops clients s.map_table n nc defs holds,
        get_dim-Holds_none k.map_ops clients s.map_table n nc defs holds id nz e,
        holds.file,
      ),
      rw (declare, e)
          (Holds-dimension k.map_ops clients s.map_table n nc defs holds id name (len % 2 ^ 32) nz
            e),
    )
    | inr (a, m, l, e) ↦ (
      s.map_table,
      rw (
        get_nc-Holds k.map_ops clients s.map_table n nc defs holds,
        get_dim-Holds k.map_ops clients s.map_table n nc defs holds id a m l nz e,
      ),
      rw (declare, e) holds,
    )
  ]

  pub def_var-declares :
      (s : Server T U L) (name : Bytes) (xtype ndims : ℕ) (dimids : Bytes) (id : ℕ)
      → Holds k.map_ops clients s.map_table n nc defs
      → id ≢ 0
      → NoZero (int_words ndims dimids)
      → get_client_num_of_server k.config k.server_id ≡ some clients
      → clients ≢ 0
      → all_in defs (int_words ndims dimids) ≡ true
      → (t : T) × (def_var k n name xtype ndims dimids id s
          ≡ some (error_none, record s { map_table = t }))
        × Holds k.map_ops clients t n nc
            (declare defs (variable id name xtype ndims (int_words ndims dimids) []))
  unfolding def_var map_var get_var
  def_var-declares s name xtype ndims dimids id holds nz ds num one known =
      elim (var_in-cases defs id) [
        | inl e ↦ (
          with_variable k.map_ops clients s.map_table n nc defs holds id name xtype ndims
              (int_words ndims dimids) [] nz e,
          rw (
            get_nc-Holds k.map_ops clients s.map_table n nc defs holds,
            dims_known-Holds s.map_table holds (int_words ndims dimids) ds,
            known,
            holds.vars id nz,
            e,
            num,
            holds.file,
            ==_zero clients one,
          ),
          rw (declare, e)
              (Holds-variable k.map_ops clients s.map_table n nc defs holds id name xtype ndims
                (int_words ndims dimids) [] nz e),
        )
        | inr (a, m, x, r, vs, atts, e) ↦ (
          s.map_table,
          rw (
            get_nc-Holds k.map_ops clients s.map_table n nc defs holds,
            dims_known-Holds s.map_table holds (int_words ndims dimids) ds,
            known,
            holds.vars id nz,
            e,
          ),
          rw (declare, e) holds,
        )
      ]

  -- A variable with a dimension that is not defined.
  pub def_var-declares_not :
      (s : Server T U L) (name : Bytes) (xtype ndims : ℕ) (dimids : Bytes) (id : ℕ)
      → Holds k.map_ops clients s.map_table n nc defs
      → NoZero (int_words ndims dimids)
      → all_in defs (int_words ndims dimids) ≡ false
      → def_var k n name xtype ndims dimids id s ≡ some (error_invalid_dim, s)
  unfolding def_var
  def_var-declares_not s name xtype ndims dimids id holds ds known = rw (
    get_nc-Holds k.map_ops clients s.map_table n nc defs holds,
    dims_known-Holds s.map_table holds (int_words ndims dimids) ds,
    known,
  )
