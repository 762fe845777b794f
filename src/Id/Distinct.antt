-- ===== src/Id/Distinct.antt =====
-- common/id.c: different dimensions of a file have different ids.
use cfio.Prelude.{
  ℕ, ◌+◌, ◌-◌, ◌<◌, ◌≤◌, ◌≡◌, ◌≢◌, refl, sym, ◌∙◌, ap, subst, inl, inr, ◌⊎◌, true, some, List, [],
  ◌∷◌, arith, Bool-cases,
}
use mathlib.Core.Path.{ap₂}
use cfio.Memory.{Bytes}
use cfio.Id.{Name, Val, done, same, find, nc_key, Ids, assign_dim, Key}
use cfio.Table.{HashTable, search, search-write}
use cfio.Id.Assign.{Option-cases, find_added, assign_dim_known, assign_dim_new, dim_added}

-- The ids of the names in the list run down from `n` to 1.
abbrev pub Numbered : List Name → ℕ → Type 0
Numbered [] n = n ≡ 0
Numbered (e ∷ es) n = (e.id ≡ n) × (0 < n) × Numbered es (n - 1)

same_eq : (xs ys : Bytes) → same xs ys ≡ true → xs ≡ ys
same_eq [] [] h = refl
same_eq [] (y ∷ ys) h = absurd (ground arith)
same_eq (x ∷ xs) [] h = absurd (ground arith)
same_eq (x ∷ xs) (y ∷ ys) h =
    let heads : x ≡ y = ground arith in
    let tails : same xs ys ≡ true = ground arith in ap₂ ◌∷◌ heads (same_eq xs ys tails)

find_cons :
    (e : Name) (es : List Name) (x : Bytes) (i : ℕ)
    → find (e ∷ es) x ≡ some i
    → ((x ≡ e.name) × (e.id ≡ i)) ⊎ (find es x ≡ some i)
unfolding find
find_cons e es x i h = elim (Bool-cases (same x e.name)) [
  | inl t ↦ inl (same_eq x e.name t, ground arith)
  | inr t ↦ inr (ground arith)
]

find_nil : (x : Bytes) (i : ℕ) → find [] x ≢ some i
unfolding find
find_nil x i h = ground arith

find_range :
    (names : List Name) (n : ℕ) (x : Bytes) (i : ℕ)
    → Numbered names n
    → find names x ≡ some i
    → (0 < i) × (i ≤ n)
find_range [] n x i num h = absurd (find_nil x i h)
find_range (e ∷ es) n x i (top, pos, rest) h = elim (find_cons e es x i h) [
  | inl (_, id) ↦ (omega arith, omega arith)
  | inr f ↦ let (lo, hi) = find_range es (n - 1) x i rest f in (lo, omega arith)
]

find_injective :
    (names : List Name) (n : ℕ) (x y : Bytes) (i : ℕ)
    → Numbered names n
    → find names x ≡ some i
    → find names y ≡ some i
    → x ≡ y
find_injective [] n x y i num h k = absurd (find_nil x i h)
find_injective (e ∷ es) n x y i (top, pos, rest) h k = elim (find_cons e es x i h) [
  | inl (p, id) ↦ elim (find_cons e es y i k) [
    | inl (q, _) ↦ p ∙ sym q
    | inr g ↦ let (_, hi) = find_range es (n - 1) y i rest g in absurd (omega arith)
  ]
  | inr f ↦ elim (find_cons e es y i k) [
    | inl (_, id) ↦ let (_, hi) = find_range es (n - 1) x i rest f in absurd (omega arith)
    | inr g ↦ find_injective es (n - 1) x y i rest f g
  ]
]

module _ {T : Type 0} (h : HashTable Key Val T) (nc_global : ℕ) where
  -- In a file that is in the table, and whose dimensions are numbered from 1 up to their count,
  -- assigning a dimension succeeds, keeps them numbered, and the name then has the id returned.
  pub assign_dim-Numbered :
      (s : Ids T) (nc_id : ℕ) (dim_name : Bytes) (val : Val)
      → search h s.assign_table (nc_key nc_id) ≡ some val
      → Numbered val.dim_head val.client_dim_a
      → (id : ℕ) × (t : Ids T) × (new : Val) × (assign_dim h nc_global s nc_id dim_name
          ≡ (done id, t))
        × (search h t.assign_table (nc_key nc_id) ≡ some new)
        × Numbered new.dim_head new.client_dim_a
        × (find new.dim_head dim_name ≡ some id)
  assign_dim-Numbered s nc_id dim_name val e num =
      elim (Option-cases (find val.dim_head dim_name)) [
        | inr (id, f) ↦
            (id, s, val, assign_dim_known h nc_global s nc_id dim_name val e id f, e, num, f)
        | inl f ↦
            let id = val.client_dim_a + 1 in
            let new = dim_added h nc_global s nc_id dim_name val e in
            (
              id,
              record s { assign_table = h.write s.assign_table (nc_key nc_id) new },
              new,
              assign_dim_new h nc_global s nc_id dim_name val e f,
              search-write h s.assign_table (nc_key nc_id) val new e,
              (
                refl,
                omega arith,
                subst (Numbered val.dim_head) (let q : val.client_dim_a ≡ id - 1 = omega arith in q)
                    num,
              ),
              find_added val.dim_head dim_name id,
            )
      ]

  -- In a file that is in the table, and whose dimensions are numbered from 1 up to their count,
  -- assigning two different names one after the other gives different ids.
  pub assign_dim_distinct :
      (s : Ids T) (nc_id : ℕ) (x y : Bytes) (val : Val)
      → search h s.assign_table (nc_key nc_id) ≡ some val
      → Numbered val.dim_head val.client_dim_a
      → x ≢ y
      → (i j : ℕ) × (t u : Ids T) × (assign_dim h nc_global s nc_id x ≡ (done i, t))
        × (assign_dim h nc_global t nc_id y ≡ (done j, u))
        × (i ≢ j)
  assign_dim_distinct s nc_id x y val e num apart =
      let (i, t, new, run, e', num', f) = assign_dim-Numbered s nc_id x val e num in
      elim (Option-cases (find new.dim_head y)) [
        | inr (j, g) ↦ (
          i,
          j,
          t,
          t,
          run,
          assign_dim_known h nc_global t nc_id y new e' j g,
          λ q.
              apart
                (find_injective new.dim_head new.client_dim_a x y i num' f (g ∙ ap some (sym q))),
        )
        | inl g ↦ (
          i,
          new.client_dim_a + 1,
          t,
          _,
          run,
          assign_dim_new h nc_global t nc_id y new e' g,
          λ q. let (_, hi) = find_range new.dim_head new.client_dim_a x i num' f in omega arith,
        )
      ]
