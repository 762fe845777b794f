-- ===== src/Id/Open.antt =====
-- common/id.c: what a newly created file holds.
use cfio.Prelude.{ℕ, ◌+◌, ◌≡◌, ◌≢◌, refl, ◌∙◌, ap, none, some, []}
use cfio.Memory.{Bytes}
use cfio.Id.{Val, done, find, nc_key, var_key, global_name, Ids, assign_var, assign_nc, Key}
use cfio.Table.{HashTable, search, search-add, search-add_other}
use cfio.Id.Inquire.{inq_var, inq_varndims}
use cfio.Id.Assign.{keys_apart, assign_var_inq}

find-nil : (name : Bytes) → find [] name ≡ none
unfolding find
find-nil name = refl

module _ {T : Type 0} (h : HashTable Key Val T) (nc_global : ℕ) where
  abbrev new_file : ℕ → Val
  new_file nc_id = record {
    client_nc_id = nc_id;
    client_var_id = 0;
    client_var_a = 0;
    client_dim_a = 0;
    var_head = [];
    dim_head = [];
    link = [];
    var = none;
  }

  abbrev opened : Ids T → Ids T
  opened s = record {
    open_nc_a = s.open_nc_a + 1;
    assign_table = h.add s.assign_table (nc_key (s.open_nc_a + 1)) (new_file (s.open_nc_a + 1));
  }

  pub assign_nc-opened :
      (s : Ids T)
      → assign_nc h nc_global s ≡ (
        done (s.open_nc_a + 1),
        (assign_var h nc_global (opened s) (s.open_nc_a + 1) global_name 0 []).1,
      )
  unfolding assign_nc
  assign_nc-opened s = refl

  -- When NC_GLOBAL is not zero and neither the next file's key nor the key of its global
  -- attributes is in the table, creating a file returns the next number, and the file then has a
  -- variable "NC_GLOBAL" with the id NC_GLOBAL and no dimensions.
  pub assign_nc_inq :
      (s : Ids T)
      → nc_global ≢ 0
      → search h s.assign_table (nc_key (s.open_nc_a + 1)) ≡ none
      → search h s.assign_table (var_key (s.open_nc_a + 1) nc_global) ≡ none
      → let nc_id = s.open_nc_a + 1 in
        (t : Ids T) × (assign_nc h nc_global s ≡ (done nc_id, t))
        × (inq_var h t nc_id global_name ≡ done nc_global)
        × (inq_varndims h t nc_id nc_global ≡ some (done 0))
  assign_nc_inq s nz free unused =
      let nc_id = s.open_nc_a + 1 in
      let file = search-add h s.assign_table (nc_key nc_id) (new_file nc_id) free in
      let (t, run, named, ndims, _) =
        assign_var_inq h nc_global (opened s) nc_id global_name 0 [] (new_file nc_id) file
          (find-nil global_name) nz
          (search-add_other h s.assign_table (nc_key nc_id) (var_key nc_id nc_global)
              (new_file nc_id) (keys_apart nc_id nc_global nz)
            ∙ unused) in
      (t, assign_nc-opened s ∙ ap (λ r. (done nc_id, r.1)) run, named, ndims)
