-- ===== src/Id/Named.antt =====
-- common/id.c: the id that was assigned is the one found by the name.
use cfio.Prelude.{ℕ, ◌≡◌, ◌≢◌, sym, subst, ◌∙◌, ap, inl, inr, none, some, List}
use cfio.Memory.{Bytes}
use cfio.Id.{
  Key, Val, Reply, done, nc_no_exist, var_no_exist, hash_get_null, arg_null, find, nc_key, var_key,
  Ids, assign_dim, assign_var, next_var, new_var,
}
use cfio.Table.{HashTable, search, search-write, search-add_other}
use cfio.Id.Inquire.{inq_dim, inq_var}
use cfio.Id.Assign.{
  assign_dim_again, assign_var_known, assign_var_new, inq_var_known, find_added, keys_apart,
  var_added, Option-cases,
}

abbrev answer : Reply ℕ → ℕ
answer (done i) = i
answer nc_no_exist = 0
answer var_no_exist = 0
answer hash_get_null = 0
answer arg_null = 0

abbrev IsDone : Reply ℕ → Type 0
IsDone (done i) = Unit
IsDone nc_no_exist = ⊥
IsDone var_no_exist = ⊥
IsDone hash_get_null = ⊥
IsDone arg_null = ⊥

module _ {T : Type 0} (h : HashTable Key Val T) (nc_global : ℕ) where
  refused : (r : Reply ℕ × Ids T) (i : ℕ) (s t : Ids T) → r ≡ (nc_no_exist, s) → r ≡ (done i, t) → ⊥
  refused r i s t p q = subst IsDone (ap (λ x. x.0) (sym q ∙ p)) tt

  moved :
      (r : Reply ℕ × Ids T) (i j : ℕ) (t u : Ids T) (P : Ids T → ℕ → Type 0)
      → r ≡ (done i, t)
      → r ≡ (done j, u)
      → P t i
      → P u j
  moved r i j t u P p q x = subst (λ y. P y.1 (answer y.0)) (sym p ∙ q) x

  pub assign_dim_missing :
      (s : Ids T) (nc_id : ℕ) (name : Bytes)
      → search h s.assign_table (nc_key nc_id) ≡ none
      → assign_dim h nc_global s nc_id name ≡ (nc_no_exist, s)
  unfolding assign_dim
  assign_dim_missing s nc_id name e = rw (assign_dim, e)

  pub assign_var_missing :
      (s : Ids T) (nc_id : ℕ) (name : Bytes) (ndims : ℕ) (dimids : List ℕ)
      → search h s.assign_table (nc_key nc_id) ≡ none
      → assign_var h nc_global s nc_id name ndims dimids ≡ (nc_no_exist, s)
  unfolding assign_var
  assign_var_missing s nc_id name ndims dimids e = rw (assign_var, e)

  pub assign_dim-inq :
      (s : Ids T) (nc_id : ℕ) (name : Bytes) (id : ℕ) (t : Ids T)
      → assign_dim h nc_global s nc_id name ≡ (done id, t)
      → inq_dim h t nc_id name ≡ done id
  assign_dim-inq s nc_id name id t e =
      elim (Option-cases (search h s.assign_table (nc_key nc_id))) [
        | inl missing ↦ absurd (
            refused (assign_dim h nc_global s nc_id name) id s t
              (assign_dim_missing s nc_id name missing) e)
        | inr (val, open_nc) ↦
            let (i, u, run, found, _) = assign_dim_again h nc_global s nc_id name val open_nc in
            moved (assign_dim h nc_global s nc_id name) i id u t
              (λ v j. inq_dim h v nc_id name ≡ done j) run e found
      ]

  module _ (s : Ids T) (nc_id : ℕ) (name : Bytes) (ndims : ℕ) (dimids : List ℕ) where
    pub assign_var-inq :
        (id : ℕ) (t : Ids T)
        → id ≢ 0
        → assign_var h nc_global s nc_id name ndims dimids ≡ (done id, t)
        → inq_var h t nc_id name ≡ done id
    assign_var-inq id t nz e =
        let r = assign_var h nc_global s nc_id name ndims dimids in
        let named = λ (v : Ids T) (j : ℕ). inq_var h v nc_id name ≡ done j in
        elim (Option-cases (search h s.assign_table (nc_key nc_id))) [
          | inl missing ↦
              absurd (refused r id s t (assign_var_missing s nc_id name ndims dimids missing) e)
          | inr (val, open_nc) ↦ elim (Option-cases (find val.var_head name)) [
            | inr (i, f) ↦
                moved r i id s t named
                  (assign_var_known h nc_global s nc_id name val open_nc ndims dimids i f) e
                  (inq_var_known h nc_global s nc_id name val open_nc i f)
            | inl f ↦
                let i = (next_var h nc_global val name).0 in
                let new = var_added h nc_global s nc_id name val open_nc in
                let entry = new_var h nc_global nc_id name ndims dimids i in
                let written = h.write s.assign_table (nc_key nc_id) new in
                let u : Ids T = record s { assign_table = h.add written (var_key nc_id i) entry } in
                let run = assign_var_new h nc_global s nc_id name val open_nc ndims dimids f in
                let inz : i ≢ 0 = λ q. nz (ap (λ x. answer x.0) (sym e ∙ run) ∙ q) in
                let file : search h u.assign_table (nc_key nc_id) ≡ some new =
                  search-add_other h written (var_key nc_id i) (nc_key nc_id) entry
                    (λ q. keys_apart nc_id i inz (sym q))
                  ∙ search-write h s.assign_table (nc_key nc_id) val new open_nc in
                moved r i id u t named run e (
                  inq_var_known h nc_global u nc_id name new file i
                    (find_added val.var_head name i))
          ]
        ]
