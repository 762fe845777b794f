-- ===== src/Id.antt =====
-- common/id.c: the ids that a client assigns to files, dimensions and variables.
pub mod Assign
pub mod Distinct
pub mod Open
pub mod Inquire
pub mod Remove
pub mod Server
pub mod Named
use cfio.Prelude.{
  ℕ, zero, suc, ◌+◌, ◌≡◌, ◌≢◌, Bool, true, false, ◌&&◌, Option, none, some, List, [], ◌∷◌, ◌++◌,
  ◌==◌, if◌then◌else◌, take,
}
use cfio.Memory.{Bytes}
use cfio.Table.{HashTable, search}

-- `cfio_id_key_t`
pub record Key : Type 0 where
  pub client_nc_id : ℕ
  pub client_dim_id : ℕ
  pub client_var_id : ℕ

-- `cfio_id_client_name_t`
pub record Name : Type 0 where
  pub name : Bytes
  pub id : ℕ

-- `cfio_id_att_t`
pub record Att : Type 0 where
  pub name : Bytes
  pub xtype : ℕ
  pub len : ℕ
  pub bytes : Bytes

-- What a client keeps in a `cfio_id_var_t`.
pub record Var : Type 0 where
  pub name : Bytes
  pub nc_id : ℕ
  pub var_id : ℕ
  pub ndims : ℕ
  pub dim_ids : List ℕ
  pub att_head : List Att

-- What a client keeps in a `cfio_id_val_t`. `link` chains the entries of a file's variables, which
-- stand in the table under these keys.
pub record Val : Type 0 where
  pub client_nc_id : ℕ
  pub client_var_id : ℕ
  pub client_var_a : ℕ
  pub client_dim_a : ℕ
  pub var_head : List Name
  pub dim_head : List Name
  pub link : List Key
  pub var : Option Var

-- `CFIO_ERROR_NONE` with what the pointer argument receives, and the errors.
pub data Reply (A : Type 0) : Type 0 where
  done : A → Reply A
  nc_no_exist : Reply A
  var_no_exist : Reply A
  hash_get_null : Reply A
  arg_null : Reply A

-- `strcmp` is zero: a string is the bytes up to its terminating zero, and with it.
abbrev pub same : Bytes → Bytes → Bool
same [] [] = true
same [] (y ∷ ys) = false
same (x ∷ xs) [] = false
same (x ∷ xs) (y ∷ ys) = (x == y) && same xs ys

-- `qlist_find` with `_compare_client_name`
unfoldable pub find : List Name → Bytes → Option ℕ
find [] name = none
find (e ∷ es) name = let rest = find es name in if same name e.name then some e.id else rest

abbrev pub nc_key : ℕ → Key
nc_key nc_id = record { client_nc_id = nc_id; client_dim_id = 0; client_var_id = 0 }

abbrev pub var_key : ℕ → ℕ → Key
var_key nc_id var_id = record { client_nc_id = nc_id; client_dim_id = 0; client_var_id = var_id }

-- "NC_GLOBAL"
abbrev pub global_name : Bytes
global_name = 78 ∷ 67 ∷ 95 ∷ 71 ∷ 76 ∷ 79 ∷ 66 ∷ 65 ∷ 76 ∷ 0 ∷ []

-- The static variables of a client.
pub record Ids (T : Type 0) : Type 0 where
  pub open_nc_a : ℕ
  pub assign_table : T

abbrev pub add_name : Bytes → ℕ → List Name → List Name
add_name name id names = record { name = name; id = id } ∷ names

-- `nc_global` is the constant of the NetCDF library.
module _ {T : Type 0} (h : HashTable Key Val T) (nc_global : ℕ) where
  unfoldable pub assign_dim : Ids T → ℕ → Bytes → Reply ℕ × Ids T
  assign_dim s nc_id dim_name = elim (search h s.assign_table (nc_key nc_id)) [
    | none ↦ (nc_no_exist, s)
    | some val ↦ elim (find val.dim_head dim_name) [
      | some id ↦ (done id, s)
      | none ↦
          let id = val.client_dim_a + 1 in
          (
            done id,
            record s {
              assign_table =
                  h.write s.assign_table (nc_key nc_id) (record val {
                    client_dim_a = id;
                    dim_head = add_name dim_name id val.dim_head;
                  });
            },
          )
    ]
  ]

  -- The number of the next variable, and the count of variables then.
  abbrev pub next_var : Val → Bytes → ℕ × ℕ
  next_var nc_val var_name =
      if same var_name global_name
      then (nc_global, nc_val.client_var_a)
      else (nc_val.client_var_a + 1, nc_val.client_var_a + 1)

  abbrev pub new_var : ℕ → Bytes → ℕ → List ℕ → ℕ → Val
  new_var nc_id var_name ndims dimids var_id = record {
    client_nc_id = nc_id;
    client_var_id = var_id;
    client_var_a = 0;
    client_dim_a = 0;
    var_head = [];
    dim_head = [];
    link = [];
    var = some (record {
      name = var_name;
      nc_id = nc_id;
      var_id = var_id;
      ndims = ndims;
      dim_ids = take ndims dimids;
      att_head = [];
    });
  }

  unfoldable pub assign_var : Ids T → ℕ → Bytes → ℕ → List ℕ → Reply ℕ × Ids T
  assign_var s nc_id var_name ndims dimids = elim (search h s.assign_table (nc_key nc_id)) [
    | none ↦ (nc_no_exist, s)
    | some nc_val ↦ elim (find nc_val.var_head var_name) [
      | some id ↦ (done id, s)
      | none ↦
          let (id, amount) = next_var nc_val var_name in
          (
            done id,
            record s {
              assign_table =
                  h.add
                    (h.write s.assign_table (nc_key nc_id) (record nc_val {
                      client_var_a = amount;
                      var_head = add_name var_name id nc_val.var_head;
                      link = nc_val.link ++ (var_key nc_id id ∷ []);
                    }))
                    (var_key nc_id id) (new_var nc_id var_name ndims dimids id);
            },
          )
    ]
  ]

  -- The new file also gets the variable of its global attributes.
  unfoldable pub assign_nc : Ids T → Reply ℕ × Ids T
  unfolding assign_var
  assign_nc s =
      let nc_id = s.open_nc_a + 1 in
      let val : Val = record {
        client_nc_id = nc_id;
        client_var_id = 0;
        client_var_a = 0;
        client_dim_a = 0;
        var_head = [];
        dim_head = [];
        link = [];
        var = none;
      } in
      let opened : Ids T = record {
        open_nc_a = nc_id;
        assign_table = h.add s.assign_table (nc_key nc_id) val;
      } in
      (done nc_id, (assign_var opened nc_id global_name 0 []).1)
