-- ===== src/Id/Inquire.antt =====
-- common/id.c: looking ids up, and a variable's attributes.
use cfio.Prelude.{
  ℕ, Bool, true, false, Option, none, some, List, [], ◌∷◌, ◌++◌, if◌then◌else◌, take,
}
use cfio.Memory.{Bytes}
use cfio.Id.{
  Att, Reply, done, nc_no_exist, var_no_exist, hash_get_null, same, find, nc_key, var_key, Ids, Key,
  Val,
}
use cfio.Table.{HashTable, search}

-- `qlist_find` with `_compare_att_name`
unfoldable pub has_att : List Att → Bytes → Bool
has_att [] name = false
has_att (a ∷ atts) name = let rest = has_att atts name in if same name a.name then true else rest

module _ {T : Type 0} (h : HashTable Key Val T) where
  unfoldable pub inq_dim : Ids T → ℕ → Bytes → Reply ℕ
  inq_dim s nc_id dim_name = elim (search h s.assign_table (nc_key nc_id)) [
    | none ↦ nc_no_exist
    | some val ↦ elim (find val.dim_head dim_name) [ none ↦ var_no_exist | some id ↦ done id ]
  ]

  unfoldable pub inq_var : Ids T → ℕ → Bytes → Reply ℕ
  inq_var s nc_id var_name = elim (search h s.assign_table (nc_key nc_id)) [
    | none ↦ nc_no_exist
    | some val ↦ elim (find val.var_head var_name) [ none ↦ var_no_exist | some id ↦ done id ]
  ]

  -- `none` is a fault: the entry of a file has no variable.
  unfoldable pub inq_att : Ids T → ℕ → ℕ → Bytes → Option (Reply ℕ)
  inq_att s nc_id var_id att_name = elim (search h s.assign_table (var_key nc_id var_id)) [
    | none ↦ some hash_get_null
    | some val ↦ elim val.var [
      | none ↦ none
      | some var ↦ some (if has_att var.att_head att_name then done 0 else var_no_exist)
    ]
  ]

  unfoldable pub inq_varndims : Ids T → ℕ → ℕ → Option (Reply ℕ)
  inq_varndims s nc_id var_id = elim (search h s.assign_table (var_key nc_id var_id)) [
    | none ↦ some nc_no_exist
    | some val ↦ elim val.var [ none ↦ none | some var ↦ some (done var.ndims) ]
  ]

  unfoldable pub inq_vardimid : Ids T → ℕ → ℕ → Option (Reply (List ℕ))
  inq_vardimid s nc_id var_id = elim (search h s.assign_table (var_key nc_id var_id)) [
    | none ↦ some nc_no_exist
    | some val ↦ elim val.var [ none ↦ none | some var ↦ some (done (take var.ndims var.dim_ids)) ]
  ]

  -- An attribute is added behind the others, also under a name that is there. `len` bytes are
  -- copied.
  unfoldable pub assign_att : Ids T → ℕ → ℕ → Bytes → ℕ → ℕ → Bytes → Option (Reply ℕ × Ids T)
  assign_att s nc_id var_id name xtype len bytes =
      elim (search h s.assign_table (var_key nc_id var_id)) [
        | none ↦ some (nc_no_exist, s)
        | some val ↦ elim val.var [
          | none ↦ none
          | some var ↦ some (
            done 0,
            record s {
              assign_table = h.write s.assign_table (var_key nc_id var_id) (record val {
                var = some (record var {
                  att_head =
                      var.att_head
                      ++ (record { name = name; xtype = xtype; len = len; bytes = take len bytes }
                          ∷ []);
                });
              });
            },
          )
        ]
      ]
