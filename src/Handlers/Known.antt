-- ===== src/Handlers/Known.antt =====
-- server/io.c: the ids that the library gave, as the table keeps them.
use cfio.Prelude.{
  ℕ, ◌≡◌, ◌≢◌, sym, ◌∙◌, subst, true, false, inl, inr, Option, none, some, List, [], ◌∷◌, ◌==◌,
  ==_iff, if◌then◌else◌, ◌>>=◌, Bool-cases, arith,
}
use cfio.Table.{HashTable, search, search-write, search-write_other}
use cfio.Id.{Key, nc_key, var_key}
use cfio.Id.Assign.{Option-cases}
use cfio.Id.Server.{Dim, Variable, Entry, dim_key, get_dim, get_var}
use cfio.Handlers.{Setting}
use cfio.Handlers.Enddef.{server_dims}
use cfio.Handlers.Declare.{
  dim_keys_apart, var_keys_apart, dim_apart_nc, var_apart_nc, dim_apart_var,
}
use cfio.Handlers.Declared.{NoZero}

-- Which id of the library belongs to an id of the clients.
abbrev pub given : List (ℕ × ℕ) → ℕ → Option ℕ
given [] i = none
given (p ∷ env) i = let rest = given env i in if p.0 == i then some p.1 else rest

abbrev pub given_each : List (ℕ × ℕ) → List ℕ → Option (List ℕ)
given_each env [] = some []
given_each env (i ∷ is) = given env i >>= (λ d. given_each env is >>= (λ ds. some (d ∷ ds)))

given-here :
    (env : List (ℕ × ℕ)) (id x i d : ℕ)
    → (id == i) ≡ true
    → given ((id, x) ∷ env) i ≡ some d
    → x ≡ d
given-here env id x i d q e = ground arith

given-behind :
    (env : List (ℕ × ℕ)) (id x i : ℕ) → (id == i) ≡ false → given ((id, x) ∷ env) i ≡ given env i
given-behind env id x i q = rw q

-- The file's entry is this one, and its dimensions and variables have these ids.
pub record Known {T : Type 0} (h : HashTable Key Entry T) (t : T) (n : ℕ) (file_val : Entry)
    (dims vars : List (ℕ × ℕ)) : Type 0 where
  pub file : search h t (nc_key n) ≡ some file_val
  pub dim_ids :
      (i d : ℕ)
      → i ≢ 0
      → given dims i ≡ some d
      → (dim : Dim) × (get_dim h t n i ≡ some (some dim)) × (dim.dim_id ≡ d)
  pub var_ids :
      (i v : ℕ)
      → i ≢ 0
      → given vars i ≡ some v
      → (var : Variable) × (get_var h t n i ≡ some (some var)) × (var.var_id ≡ v)

module _ {T : Type 0} (h : HashTable Key Entry T) (t : T) (n : ℕ) (file_val : Entry)
    (dims vars : List (ℕ × ℕ)) (known : Known h t n file_val dims vars) (id : ℕ) (nz : id ≢ 0)
    (val : Entry) where
  pub Known-write_dim :
      (dim : Dim)
      → search h t (dim_key n id) ≡ some val
      → Known h
          (h.write t (dim_key n id) (record val { dim = some dim }))
          n
          file_val
          ((id, dim.dim_id) ∷ dims)
          vars
  unfolding get_dim get_var
  Known-write_dim dim there =
      let new = record val { dim = some dim } in
      record {
        file =
            search-write_other h t (dim_key n id) (nc_key n) new (dim_apart_nc n id nz)
            ∙ known.file;
        dim_ids = λ i d ni e. elim (Bool-cases (id == i)) [
          | inl q ↦ (
            dim,
            subst (λ j. get_dim h (h.write t (dim_key n id) new) n j ≡ some (some dim))
                ((==_iff id i).0 q) (rw (search-write h t (dim_key n id) val new there)),
            given-here dims id dim.dim_id i d q e,
          )
          | inr q ↦
              let (old, g, d') =
                known.dim_ids i d ni (sym (given-behind dims id dim.dim_id i q) ∙ e) in
              (
                old,
                rw
                    (search-write_other h t (dim_key n id) (dim_key n i) new
                      (dim_keys_apart n id i (λ r. ground arith)))
                    g,
                d',
              )
        ];
        var_ids = λ i v ni e.
            let (var, g, v') = known.var_ids i v ni e in
            (
              var,
              rw (search-write_other h t (dim_key n id) (var_key n i) new (dim_apart_var n id i nz))
                  g,
              v',
            );
      }

  pub Known-write_var :
      (var : Variable)
      → search h t (var_key n id) ≡ some val
      → Known h
          (h.write t (var_key n id) (record val { var = some var }))
          n
          file_val
          dims
          ((id, var.var_id) ∷ vars)
  unfolding get_dim get_var
  Known-write_var var there =
      let new = record val { var = some var } in
      record {
        file =
            search-write_other h t (var_key n id) (nc_key n) new (var_apart_nc n id nz)
            ∙ known.file;
        dim_ids = λ i d ni e.
            let (dim, g, d') = known.dim_ids i d ni e in
            (
              dim,
              rw
                  (search-write_other h t (var_key n id) (dim_key n i) new
                    (λ q. dim_apart_var n i id ni (sym q)))
                  g,
              d',
            );
        var_ids = λ i v ni e. elim (Bool-cases (id == i)) [
          | inl q ↦ (
            var,
            subst (λ j. get_var h (h.write t (var_key n id) new) n j ≡ some (some var))
                ((==_iff id i).0 q) (rw (search-write h t (var_key n id) val new there)),
            given-here vars id var.var_id i v q e,
          )
          | inr q ↦
              let (old, g, v') =
                known.var_ids i v ni (sym (given-behind vars id var.var_id i q) ∙ e) in
              (
                old,
                rw
                    (search-write_other h t (var_key n id) (var_key n i) new
                      (var_keys_apart n id i (λ r. ground arith)))
                    g,
                v',
              )
        ];
      }

-- The loop over a variable's dimensions.
module _ {T U L : Type 0} (k : Setting T U L) (t : T) (n : ℕ) (file_val : Entry)
    (dims vars : List (ℕ × ℕ)) (known : Known k.map_ops t n file_val dims vars) where
  pub server_dims-Known :
      (ds ids : List ℕ)
      → NoZero ds
      → given_each dims ds ≡ some ids
      → server_dims k t n ds ≡ some ids
  unfolding server_dims
  server_dims-Known [] ids nz e = e
  server_dims-Known (i ∷ ds) ids nz e = elim (Option-cases (given dims i)) [
    | inl q ↦ absurd (ground arith)
    | inr (d, q) ↦ elim (Option-cases (given_each dims ds)) [
      | inl r ↦ absurd (ground arith)
      | inr (rest, r) ↦
          let (dim, g, d') = known.dim_ids i d nz.0 q in
          rw (g, server_dims-Known ds rest nz.1 r, d') (ground arith)
    ]
  ]
