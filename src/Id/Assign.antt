-- ===== src/Id/Assign.antt =====
-- common/id.c: what an assigned id means.
use cfio.Prelude.{
  ℕ, ◌+◌, ◌≡◌, ◌≢◌, refl, sym, ◌∙◌, ap, inl, inr, ◌⊎◌, true, Option, none, some, List, [], ◌∷◌,
  ◌++◌, arith,
}
use cfio.Memory.{Bytes}
use cfio.Id.{
  Name, Val, done, same, find, nc_key, var_key, Ids, add_name, assign_dim, assign_var, next_var,
  new_var, Key,
}
use cfio.Table.{HashTable, search, search-add, search-write, search-add_other, search-write_other}
use cfio.Id.Inquire.{inq_dim, inq_var, inq_varndims}

same_refl : (xs : Bytes) → same xs xs ≡ true
same_refl [] = refl
same_refl (x ∷ xs) = let e = same_refl xs in ground arith

pub find_added :
    (names : List Name) (name : Bytes) (id : ℕ) → find (add_name name id names) name ≡ some id
unfolding find
find_added names name id = rw (same_refl name)

pub keys_apart : (nc var : ℕ) → var ≢ 0 → nc_key nc ≢ var_key nc var
keys_apart nc var h e = h (sym (ap (λ k. k.client_var_id) e))

pub Option-cases : {A : Type 0} (o : Option A) → (o ≡ none) ⊎ ((a : A) × (o ≡ some a))
Option-cases none = inl refl
Option-cases (some a) = inr (a, refl)

module _ {T : Type 0} (h : HashTable Key Val T) (nc_global : ℕ) where
  module _ (s : Ids T) (nc_id : ℕ) (name : Bytes) (val : Val)
      (open_nc : search h s.assign_table (nc_key nc_id) ≡ some val) where
    abbrev pub dim_added : Val
    dim_added = record val {
      client_dim_a = val.client_dim_a + 1;
      dim_head = add_name name (val.client_dim_a + 1) val.dim_head;
    }

    abbrev pub var_added : Val
    var_added = record val {
      client_var_a = (next_var h nc_global val name).1;
      var_head = add_name name (next_var h nc_global val name).0 val.var_head;
      link = val.link ++ (var_key nc_id (next_var h nc_global val name).0 ∷ []);
    }

    pub assign_dim_known :
        (id : ℕ)
        → find val.dim_head name ≡ some id
        → assign_dim h nc_global s nc_id name ≡ (done id, s)
    unfolding assign_dim
    assign_dim_known id f = rw (assign_dim, open_nc, f)

    inq_dim_known : (id : ℕ) → find val.dim_head name ≡ some id → inq_dim h s nc_id name ≡ done id
    unfolding inq_dim
    inq_dim_known id f = rw (inq_dim, open_nc, f)

    pub assign_dim_new :
        find val.dim_head name ≡ none
        → assign_dim h nc_global s nc_id name ≡ (
          done (val.client_dim_a + 1),
          record s { assign_table = h.write s.assign_table (nc_key nc_id) dim_added },
        )
    unfolding assign_dim
    assign_dim_new f = rw (assign_dim, open_nc, f)

    pub assign_var_known :
        (ndims : ℕ) (dimids : List ℕ) (id : ℕ)
        → find val.var_head name ≡ some id
        → assign_var h nc_global s nc_id name ndims dimids ≡ (done id, s)
    unfolding assign_var
    assign_var_known ndims dimids id f = rw (assign_var, open_nc, f)

    pub inq_var_known :
        (id : ℕ) → find val.var_head name ≡ some id → inq_var h s nc_id name ≡ done id
    unfolding inq_var
    inq_var_known id f = rw (inq_var, open_nc, f)

    pub assign_var_new :
        (ndims : ℕ) (dimids : List ℕ)
        → find val.var_head name ≡ none
        → let id = (next_var h nc_global val name).0 in
          assign_var h nc_global s nc_id name ndims dimids ≡ (
            done id,
            record s {
              assign_table =
                  h.add
                    (h.write s.assign_table (nc_key nc_id) var_added)
                    (var_key nc_id id)
                    (new_var h nc_global nc_id name ndims dimids id);
            },
          )
    unfolding assign_var
    assign_var_new ndims dimids f = rw (assign_var, open_nc, f)

  -- In a file that is in the table, assigning a dimension succeeds; the file then finds the
  -- dimension by its name with that id, and assigning the name again gives the same id and changes
  -- nothing.
  pub assign_dim_again :
      (s : Ids T) (nc_id : ℕ) (dim_name : Bytes) (val : Val)
      → search h s.assign_table (nc_key nc_id) ≡ some val
      → (id : ℕ) × (t : Ids T) × (assign_dim h nc_global s nc_id dim_name ≡ (done id, t))
        × (inq_dim h t nc_id dim_name ≡ done id)
        × (assign_dim h nc_global t nc_id dim_name ≡ (done id, t))
  assign_dim_again s nc_id dim_name val e = elim (Option-cases (find val.dim_head dim_name)) [
    | inr (id, f) ↦ (
      id,
      s,
      assign_dim_known s nc_id dim_name val e id f,
      inq_dim_known s nc_id dim_name val e id f,
      assign_dim_known s nc_id dim_name val e id f,
    )
    | inl f ↦
        let id = val.client_dim_a + 1 in
        let new = dim_added s nc_id dim_name val e in
        let t : Ids T = record s { assign_table = h.write s.assign_table (nc_key nc_id) new } in
        let found = search-write h s.assign_table (nc_key nc_id) val new e in
        let named = find_added val.dim_head dim_name id in
        (
          id,
          t,
          assign_dim_new s nc_id dim_name val e f,
          inq_dim_known t nc_id dim_name new found id named,
          assign_dim_known t nc_id dim_name new found id named,
        )
  ]

  -- In a file that is in the table, a name that no variable has gets the id of the next variable
  -- (NC_GLOBAL for "NC_GLOBAL"); if that id is not zero and its key is not in the table, the file
  -- then finds the variable by its name with that id, its entry has the number of dimensions
  -- given, and assigning the name again gives the same id and changes nothing.
  pub assign_var_inq :
      (s : Ids T) (nc_id : ℕ) (var_name : Bytes) (ndims : ℕ) (dimids : List ℕ) (val : Val)
      → search h s.assign_table (nc_key nc_id) ≡ some val
      → find val.var_head var_name ≡ none
      → (next_var h nc_global val var_name).0 ≢ 0
      → search h s.assign_table (var_key nc_id (next_var h nc_global val var_name).0) ≡ none
      → let id = (next_var h nc_global val var_name).0 in
        (t : Ids T) × (assign_var h nc_global s nc_id var_name ndims dimids ≡ (done id, t))
        × (inq_var h t nc_id var_name ≡ done id)
        × (inq_varndims h t nc_id id ≡ some (done ndims))
        × (assign_var h nc_global t nc_id var_name ndims dimids ≡ (done id, t))
  unfolding inq_varndims
  assign_var_inq s nc_id var_name ndims dimids val e f nz unused =
      let id = (next_var h nc_global val var_name).0 in
      let new = var_added s nc_id var_name val e in
      let entry = new_var h nc_global nc_id var_name ndims dimids id in
      let written = h.write s.assign_table (nc_key nc_id) new in
      let t : Ids T = record s { assign_table = h.add written (var_key nc_id id) entry } in
      let apart = keys_apart nc_id id nz in
      let file : search h t.assign_table (nc_key nc_id) ≡ some new =
        search-add_other h written (var_key nc_id id) (nc_key nc_id) entry (λ q. apart (sym q))
        ∙ search-write h s.assign_table (nc_key nc_id) val new e in
      let own : search h t.assign_table (var_key nc_id id) ≡ some entry =
        search-add h written (var_key nc_id id) entry (
          search-write_other h s.assign_table (nc_key nc_id) (var_key nc_id id) new apart
          ∙ unused) in
      let named = find_added val.var_head var_name id in
      (
        t,
        assign_var_new s nc_id var_name val e ndims dimids f,
        inq_var_known t nc_id var_name new file id named,
        rw (inq_varndims, own),
        assign_var_known t nc_id var_name new file ndims dimids id named,
      )
