-- ===== src/Handlers/Declare.antt =====
-- server/io.c: a definition more in the list of a file's definitions, and in the table.
use cfio.Prelude.{
  ℕ, ◌≡◌, ◌≢◌, refl, sym, ◌∙◌, ap, subst, inl, inr, Option, none, some, List, [], ◌∷◌, ◌++◌, ◌==◌,
  ==_iff, Bool-cases, arith,
}
use cfio.Memory.{Bytes}
use cfio.Table.{HashTable, search, search-add, search-add_other, search-write, search-write_other}
use cfio.Id.{Key, Att, nc_key, var_key}
use cfio.Id.Server.{Nc, Entry, dim_key, chain}
use cfio.Handlers.Spec.{
  Definition, dimension, variable, key_of, keys_of, entry_of, dim_in, var_in, entry_in, Holds,
}

pub dim_keys_apart : (n i j : ℕ) → i ≢ j → dim_key n i ≢ dim_key n j
dim_keys_apart n i j h e = h (ap (λ k. k.client_dim_id) e)

pub var_keys_apart : (n i j : ℕ) → i ≢ j → var_key n i ≢ var_key n j
var_keys_apart n i j h e = h (ap (λ k. k.client_var_id) e)

pub dim_apart_nc : (n i : ℕ) → i ≢ 0 → dim_key n i ≢ nc_key n
dim_apart_nc n i h e = h (ap (λ k. k.client_dim_id) e)

pub var_apart_nc : (n i : ℕ) → i ≢ 0 → var_key n i ≢ nc_key n
var_apart_nc n i h e = h (ap (λ k. k.client_var_id) e)

pub dim_apart_var : (n i j : ℕ) → i ≢ 0 → dim_key n i ≢ var_key n j
dim_apart_var n i j h e = h (ap (λ k. k.client_dim_id) e)

keys_of-append :
    (n : ℕ) (defs : List Definition) (d : Definition)
    → keys_of n (defs ++ (d ∷ [])) ≡ keys_of n defs ++ (key_of n d ∷ [])
keys_of-append n [] d = refl
keys_of-append n (x ∷ defs) d = ap (λ r. key_of n x ∷ r) (keys_of-append n defs d)

abbrev or_else : {A : Type 0} → Option A → Option A → Option A
or_else none o = o
or_else (some a) o = some a

or_else-none : {A : Type 0} (o : Option A) → or_else o none ≡ o
or_else-none none = refl
or_else-none (some a) = refl

dim_in-append :
    (defs : List Definition) (d : Definition) (i : ℕ)
    → dim_in (defs ++ (d ∷ [])) i ≡ or_else (dim_in defs i) (dim_in (d ∷ []) i)
dim_in-append [] d i = refl
dim_in-append (dimension a m l ∷ defs) d i = elim (Bool-cases (a == i)) [
  | inl e ↦ rw e
  | inr e ↦ rw (e, dim_in-append defs d i)
]
dim_in-append (variable a m x r ds atts ∷ defs) d i = dim_in-append defs d i

var_in-append :
    (defs : List Definition) (d : Definition) (i : ℕ)
    → var_in (defs ++ (d ∷ [])) i ≡ or_else (var_in defs i) (var_in (d ∷ []) i)
var_in-append [] d i = refl
var_in-append (dimension a m l ∷ defs) d i = var_in-append defs d i
var_in-append (variable a m x r ds atts ∷ defs) d i = elim (Bool-cases (a == i)) [
  | inl e ↦ rw e
  | inr e ↦ rw (e, var_in-append defs d i)
]

-- What `chain` leaves in the table.
module _ {T : Type 0} (h : HashTable Key Entry T) (t : T) (nc key : Key) (nc_val val : Entry)
    (file : search h t nc ≡ some nc_val) (fresh : search h t key ≡ none) (apart : key ≢ nc) where
  chain-file :
      search h (chain h t nc nc_val key val) nc
      ≡ some (record nc_val { link = nc_val.link ++ (key ∷ []) })
  chain-file =
      search-write h (h.add t key val) nc nc_val
        (record nc_val { link = nc_val.link ++ (key ∷ []) })
        (search-add_other h t key nc val apart ∙ file)

  chain-key : search h (chain h t nc nc_val key val) key ≡ some val
  chain-key =
      search-write_other h (h.add t key val) nc key
        (record nc_val { link = nc_val.link ++ (key ∷ []) }) (λ e. apart (sym e))
      ∙ search-add h t key val fresh

  chain_other :
      (l : Key) → l ≢ nc → key ≢ l → search h (chain h t nc nc_val key val) l ≡ search h t l
  chain_other l ne other =
      search-write_other h (h.add t key val) nc l
        (record nc_val { link = nc_val.link ++ (key ∷ []) }) (λ e. ne (sym e))
      ∙ search-add_other h t key l val other

module _ {T : Type 0} (h : HashTable Key Entry T) (clients : ℕ) (t : T) (n : ℕ) (nc : Nc)
    (defs : List Definition) (holds : Holds h clients t n nc defs) where
  abbrev file_entry : Entry
  file_entry = record {
    client_nc_id = n;
    nc = some nc;
    dim = none;
    var = none;
    link = keys_of n defs;
  }

  module _ (id : ℕ) (name : Bytes) (len : ℕ) (nz : id ≢ 0) (new : dim_in defs id ≡ none) where
    abbrev pub with_dimension : T
    with_dimension =
        chain h t (nc_key n) file_entry (dim_key n id) (entry_of n clients (dimension id name len))

    dimension_fresh : search h t (dim_key n id) ≡ none
    dimension_fresh = rw (holds.dims id nz, new)

    dimension-found :
        (i : ℕ)
        → i ≢ 0
        → search h with_dimension (dim_key n i)
          ≡ entry_in n clients (dim_in (defs ++ (dimension id name len ∷ [])) i)
    dimension-found i ni = elim (Bool-cases (id == i)) [
      | inl e ↦
          subst
            (λ j.
              search h with_dimension (dim_key n j)
              ≡ entry_in n clients (dim_in (defs ++ (dimension id name len ∷ [])) j))
            ((==_iff id i).0 e)
            (chain-key h t (nc_key n) (dim_key n id) file_entry
                (entry_of n clients (dimension id name len)) holds.file dimension_fresh
                (dim_apart_nc n id nz)
              ∙ rw (dim_in-append defs (dimension id name len) id, new, (==_iff id id).1 refl))
      | inr e ↦
          chain_other h t (nc_key n) (dim_key n id) file_entry
            (entry_of n clients (dimension id name len)) holds.file dimension_fresh
            (dim_apart_nc n id nz) (dim_key n i) (dim_apart_nc n i ni)
            (dim_keys_apart n id i (λ q. ground arith))
          ∙ holds.dims i ni
          ∙ rw (dim_in-append defs (dimension id name len) i, e, or_else-none (dim_in defs i))
    ]

    pub Holds-dimension : Holds h clients with_dimension n nc (defs ++ (dimension id name len ∷ []))
    Holds-dimension =
        let val = entry_of n clients (dimension id name len) in
        let apart = dim_apart_nc n id nz in
        record {
          file =
              chain-file h t (nc_key n) (dim_key n id) file_entry val holds.file dimension_fresh
                apart
              ∙ rw (keys_of-append n defs (dimension id name len));
          dims = dimension-found;
          vars = λ i ni.
              chain_other h t (nc_key n) (dim_key n id) file_entry val holds.file dimension_fresh
                apart (var_key n i) (var_apart_nc n i ni) (dim_apart_var n id i nz)
              ∙ holds.vars i ni
              ∙ rw (var_in-append defs (dimension id name len) i, or_else-none (var_in defs i));
        }

  module _ (id : ℕ) (name : Bytes) (xtype ndims : ℕ) (dims : List ℕ) (atts : List Att) (nz : id ≢ 0)
      (new : var_in defs id ≡ none) where
    abbrev pub with_variable : T
    with_variable =
        chain h t (nc_key n) file_entry (var_key n id)
          (entry_of n clients (variable id name xtype ndims dims atts))

    variable_fresh : search h t (var_key n id) ≡ none
    variable_fresh = rw (holds.vars id nz, new)

    variable-found :
        (i : ℕ)
        → i ≢ 0
        → search h with_variable (var_key n i)
          ≡ entry_in n clients (var_in (defs ++ (variable id name xtype ndims dims atts ∷ [])) i)
    variable-found i ni = elim (Bool-cases (id == i)) [
      | inl e ↦
          subst
            (λ j.
              search h with_variable (var_key n j)
              ≡ entry_in n clients
                  (var_in (defs ++ (variable id name xtype ndims dims atts ∷ [])) j))
            ((==_iff id i).0 e)
            (chain-key h t (nc_key n) (var_key n id) file_entry
                (entry_of n clients (variable id name xtype ndims dims atts)) holds.file
                variable_fresh (var_apart_nc n id nz)
              ∙ rw (
                var_in-append defs (variable id name xtype ndims dims atts) id,
                new,
                (==_iff id id).1 refl,
              ))
      | inr e ↦
          chain_other h t (nc_key n) (var_key n id) file_entry
            (entry_of n clients (variable id name xtype ndims dims atts)) holds.file variable_fresh
            (var_apart_nc n id nz) (var_key n i) (var_apart_nc n i ni)
            (var_keys_apart n id i (λ q. ground arith))
          ∙ holds.vars i ni
          ∙ rw (
            var_in-append defs (variable id name xtype ndims dims atts) i,
            e,
            or_else-none (var_in defs i),
          )
    ]

    pub Holds-variable :
        Holds h clients with_variable n nc (defs ++ (variable id name xtype ndims dims atts ∷ []))
    Holds-variable =
        let val = entry_of n clients (variable id name xtype ndims dims atts) in
        let apart = var_apart_nc n id nz in
        record {
          file =
              chain-file h t (nc_key n) (var_key n id) file_entry val holds.file variable_fresh
                apart
              ∙ rw (keys_of-append n defs (variable id name xtype ndims dims atts));
          dims = λ i ni.
              chain_other h t (nc_key n) (var_key n id) file_entry val holds.file variable_fresh
                apart (dim_key n i) (dim_apart_nc n i ni) (λ e. dim_apart_var n i id ni (sym e))
              ∙ holds.dims i ni
              ∙ rw (
                dim_in-append defs (variable id name xtype ndims dims atts) i,
                or_else-none (dim_in defs i),
              );
          vars = variable-found;
        }
