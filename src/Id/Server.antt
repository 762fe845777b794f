-- ===== src/Id/Server.antt =====
-- common/id.c: what a server knows of the files, dimensions and variables, under the ids of its clients.
pub mod Laws
use cfio.Prelude.{
  ℕ, zero, suc, ◌+◌, ◌-◌, ◌%◌, ◌^◌, ◌≡◌, Bool, true, false, Option, none, some, List, [], ◌∷◌, ◌++◌,
  ◌==◌, if◌then◌else◌, ◌>>=◌, get_elem?, set,
}
use cfio.Memory.{Bytes}
use cfio.Table.{HashTable, search}
use cfio.Id.{Key, Att, nc_key, var_key}

-- `cfio_id_nc_t`; `nc_status` is DEFINE_MODE or DATA_MODE.
pub record Nc : Type 0 where
  pub nc_id : ℕ
  pub define_mode : Bool

-- `cfio_id_dim_t`, without `dim_len`, which is set and not read.
pub record Dim : Type 0 where
  pub name : Bytes
  pub nc_id : ℕ
  pub dim_id : ℕ
  pub global_dim_len : ℕ

-- `cfio_id_data_t`; the three pointers are set together.
pub record Data : Type 0 where
  pub buf : ℕ
  pub start : List ℕ
  pub count : List ℕ

-- What a server keeps in a `cfio_id_var_t`: for each client the data it sent, or NULL.
pub record Variable : Type 0 where
  pub name : Bytes
  pub nc_id : ℕ
  pub var_id : ℕ
  pub ndims : ℕ
  pub client_num : ℕ
  pub dim_ids : List ℕ
  pub recv_data : List (Option Data)
  pub data_type : ℕ
  pub att_head : List Att

-- What a server keeps in a `cfio_id_val_t`. `link` chains the entries of a file's dimensions and
-- variables, which stand in the table under these keys.
pub record Entry : Type 0 where
  pub client_nc_id : ℕ
  pub nc : Option Nc
  pub dim : Option Dim
  pub var : Option Variable
  pub link : List Key

abbrev pub dim_key : ℕ → ℕ → Key
dim_key nc_id dim_id = record { client_nc_id = nc_id; client_dim_id = dim_id; client_var_id = 0 }

-- CFIO_ID_NC_INVALID and the like: -1 as an `int`.
abbrev pub invalid : ℕ
invalid = 2 ^ 32 - 1

abbrev pub nc_entry : ℕ → ℕ → Entry
nc_entry client_nc_id server_nc_id = record {
  client_nc_id = client_nc_id;
  nc = some (record { nc_id = server_nc_id; define_mode = true });
  dim = none;
  var = none;
  link = [];
}

abbrev pub dim_entry : ℕ → Dim → Entry
dim_entry client_nc_id dim = record {
  client_nc_id = client_nc_id;
  nc = none;
  dim = some dim;
  var = none;
  link = [];
}

abbrev pub var_entry : ℕ → Variable → Entry
var_entry client_nc_id var = record {
  client_nc_id = client_nc_id;
  nc = none;
  dim = none;
  var = some var;
  link = [];
}

unfoldable pub no_data : ℕ → List (Option Data)
no_data zero = []
no_data (suc n) = none ∷ no_data n

-- An entry's part, `none` being CFIO_ID_HASH_GET_NULL; an entry without it fails the assertion.
abbrev pub part_of : {A : Type 0} → (Entry → Option A) → Option Entry → Option (Option A)
part_of part none = some none
part_of part (some val) = part val >>= (λ a. some (some a))

-- A variable's entry changes; without a variable in the entry the code reads where NULL points.
abbrev changed :
    {T : Type 0} → (Entry → T) → (Variable → Option Variable) → Option Entry → Option (Option T)
changed write f none = some none
changed write f (some val) =
    val.var >>= (λ var. f var >>= (λ new. some (some (write (record val { var = some new })))))

module _ {T : Type 0} (h : HashTable Key Entry T) where
  unfoldable pub map_nc : T → ℕ → ℕ → T
  map_nc t client_nc_id server_nc_id =
      h.add t (nc_key client_nc_id) (nc_entry client_nc_id server_nc_id)

  -- The entry of the file gets another link. Without one the code reads where NULL points.
  abbrev pub chain : T → Key → Entry → Key → Entry → T
  chain t nc nc_val key val =
      h.write (h.add t key val) nc (record nc_val { link = nc_val.link ++ (key ∷ []) })

  unfoldable pub map_dim : T → ℕ → ℕ → ℕ → ℕ → Bytes → ℕ → Option T
  map_dim t client_nc_id client_dim_id server_nc_id server_dim_id name dim_len =
      search h t (nc_key client_nc_id) >>= (λ nc_val. some (
        chain t (nc_key client_nc_id) nc_val (dim_key client_nc_id client_dim_id) (
          dim_entry client_nc_id (record {
            name = name;
            nc_id = server_nc_id;
            dim_id = server_dim_id;
            global_dim_len = dim_len;
          }))))

  unfoldable pub map_var : T → Bytes → ℕ → ℕ → ℕ → ℕ → ℕ → List ℕ → ℕ → ℕ → Option T
  unfolding no_data
  map_var t name client_nc_id client_var_id server_nc_id server_var_id ndims dim_ids data_type
        client_num =
      search h t (nc_key client_nc_id) >>= (λ nc_val.
        if client_num == 0
        then none
        else some (
            chain t (nc_key client_nc_id) nc_val (var_key client_nc_id client_var_id) (
              var_entry client_nc_id (record {
                name = name;
                nc_id = server_nc_id;
                var_id = server_var_id;
                ndims = ndims;
                client_num = client_num;
                dim_ids = dim_ids;
                recv_data = no_data client_num;
                data_type = data_type;
                att_head = [];
              }))))

  unfoldable pub get_val : T → ℕ → ℕ → ℕ → Option Entry
  get_val t client_nc_id client_var_id client_dim_id = search h t (record {
    client_nc_id = client_nc_id;
    client_dim_id = client_dim_id;
    client_var_id = client_var_id;
  })

  unfoldable pub get_nc : T → ℕ → Option (Option Nc)
  get_nc t client_nc_id = part_of (λ val. val.nc) (search h t (nc_key client_nc_id))

  unfoldable pub get_dim : T → ℕ → ℕ → Option (Option Dim)
  get_dim t client_nc_id client_dim_id =
      part_of (λ val. val.dim) (search h t (dim_key client_nc_id client_dim_id))

  unfoldable pub get_var : T → ℕ → ℕ → Option (Option Variable)
  get_var t client_nc_id client_var_id =
      part_of (λ val. val.var) (search h t (var_key client_nc_id client_var_id))

  abbrev pub change_var : T → Key → (Variable → Option Variable) → Option (Option T)
  change_var t key f = changed (h.write t key) f (search h t key)

  -- `none` in the result is CFIO_ID_HASH_GET_NULL.
  unfoldable pub put_var : T → ℕ → ℕ → ℕ → Data → Option (Option T)
  put_var t client_nc_id client_var_id client_index sent =
      change_var t (var_key client_nc_id client_var_id) (λ var.
        get_elem? var.recv_data client_index
        >>= (λ old. some (record var { recv_data = set var.recv_data client_index (some sent) })))

  unfoldable pub put_att : T → ℕ → ℕ → Att → Option (Option T)
  put_att t client_nc_id client_var_id att =
      change_var t (var_key client_nc_id client_var_id)
        (λ var. some (record var { att_head = var.att_head ++ (att ∷ []) }))
