-- ===== src/Handlers/Spec.antt =====
-- The definitions of one file, as a list: what a server's table stands for until their end.
use cfio.Prelude.{ℕ, ◌≡◌, ◌≢◌, Option, none, some, List, [], ◌∷◌, ◌++◌, ◌==◌, if◌then◌else◌}
use cfio.Memory.{Bytes}
use cfio.Table.{HashTable, search}
use cfio.Id.{Key, Att, nc_key, var_key}
use cfio.Id.Server.{Nc, Entry, invalid, dim_key, dim_entry, var_entry, no_data}

pub data Definition : Type 0 where
  dimension : (id : ℕ) (name : Bytes) (len : ℕ) → Definition
  variable :
      (id : ℕ) (name : Bytes) (xtype ndims : ℕ) (dims : List ℕ) (atts : List Att) → Definition

abbrev pub key_of : ℕ → Definition → Key
key_of nc (dimension id name len) = dim_key nc id
key_of nc (variable id name xtype ndims dims atts) = var_key nc id

abbrev pub keys_of : ℕ → List Definition → List Key
keys_of nc [] = []
keys_of nc (d ∷ defs) = key_of nc d ∷ keys_of nc defs

-- The entry of a definition that the library does not know yet.
abbrev pub entry_of : ℕ → ℕ → Definition → Entry
entry_of nc clients (dimension id name len) =
    dim_entry nc (record { name = name; nc_id = invalid; dim_id = invalid; global_dim_len = len })
entry_of nc clients (variable id name xtype ndims dims atts) = var_entry nc (record {
  name = name;
  nc_id = invalid;
  var_id = invalid;
  ndims = ndims;
  client_num = clients;
  dim_ids = dims;
  recv_data = no_data clients;
  data_type = xtype;
  att_head = atts;
})

-- The definition of the dimension, or of the variable, with this id.
abbrev pub dim_in : List Definition → ℕ → Option Definition
dim_in [] i = none
dim_in (dimension id name len ∷ defs) i =
    let rest = dim_in defs i in if id == i then some (dimension id name len) else rest
dim_in (variable id name xtype ndims dims atts ∷ defs) i = dim_in defs i

abbrev pub var_in : List Definition → ℕ → Option Definition
var_in [] i = none
var_in (dimension id name len ∷ defs) i = var_in defs i
var_in (variable id name xtype ndims dims atts ∷ defs) i =
    let rest = var_in defs i in
    if id == i then some (variable id name xtype ndims dims atts) else rest

abbrev pub known_as : List Definition → Definition → Option Definition
known_as defs (dimension id name len) = dim_in defs id
known_as defs (variable id name xtype ndims dims atts) = var_in defs id

-- A definition is added unless its id is there.
abbrev pub declare : List Definition → Definition → List Definition
declare defs d = elim (known_as defs d) [ none ↦ defs ++ (d ∷ []) | some old ↦ defs ]

abbrev pub entry_in : ℕ → ℕ → Option Definition → Option Entry
entry_in nc clients none = none
entry_in nc clients (some d) = some (entry_of nc clients d)

-- The table holds this file, with these definitions and no others.
pub record Holds {T : Type 0} (h : HashTable Key Entry T) (clients : ℕ) (t : T) (id : ℕ) (nc : Nc)
    (defs : List Definition) : Type 0 where
  pub file :
      search h t (nc_key id)
      ≡ some (record {
        client_nc_id = id;
        nc = some nc;
        dim = none;
        var = none;
        link = keys_of id defs;
      })
  pub dims : (i : ℕ) → i ≢ 0 → search h t (dim_key id i) ≡ entry_in id clients (dim_in defs i)
  pub vars : (i : ℕ) → i ≢ 0 → search h t (var_key id i) ≡ entry_in id clients (var_in defs i)
