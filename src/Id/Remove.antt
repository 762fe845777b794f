-- ===== src/Id/Remove.antt =====
-- common/id.c: a file leaves the table with its variables.
use cfio.Prelude.{ℕ, ◌≡◌, ◌≢◌, refl, sym, ◌∙◌, none, some, List, [], ◌∷◌}
use cfio.Memory.{Bytes}
use cfio.Id.{Key, Val, Reply, done, nc_no_exist, nc_key, Ids}
use cfio.Id.Inquire.{inq_dim, inq_var}
use cfio.Table.{HashTable, search, IsSingle, search-del}

-- None of the keys is this one.
abbrev pub Excludes : List Key → Key → Type 0
Excludes [] k = Unit
Excludes (l ∷ ls) k = (l ≢ k) × Excludes ls k

module _ {V T : Type 0} (h : HashTable Key V T) where
  -- The loop over the entries of the file's variables.
  unfoldable pub del_each : T → List Key → T
  del_each t [] = t
  del_each t (k ∷ ks) = del_each (h.del t k) ks

  pub del_each-entries :
      (t : T) (ks : List Key) (k : Key)
      → Excludes ks k
      → h.entries (del_each t ks) k ≡ h.entries t k
  unfolding del_each
  del_each-entries t [] k x = refl
  del_each-entries t (l ∷ ks) k (ne, x) =
      del_each-entries (h.del t l) ks k x ∙ h.entries-del_other t l k ne

-- No key stands there twice.
abbrev pub Distinct : List Key → Type 0
Distinct [] = Unit
Distinct (k ∷ ks) = Excludes ks k × Distinct ks

module _ {V T : Type 0} (h : HashTable Key V T) where
  -- The table has each of the keys at most once.
  abbrev pub EachSingle : T → List Key → Type 0
  EachSingle t [] = Unit
  EachSingle t (k ∷ ks) = IsSingle (h.entries t k) × EachSingle t ks

  -- None of the keys is found.
  abbrev pub Gone : T → List Key → Type 0
  Gone t [] = Unit
  Gone t (k ∷ ks) = (search h t k ≡ none) × Gone t ks

module _ {V T : Type 0} (h : HashTable Key V T) where
  del-EachSingle :
      (t : T) (k : Key) (ks : List Key)
      → Excludes ks k
      → EachSingle h t ks
      → EachSingle h (h.del t k) ks
  del-EachSingle t k [] x one = tt
  del-EachSingle t k (l ∷ ks) (ne, x) (one, ones) =
      (rw (h.entries-del_other t k l (λ e. ne (sym e))) one, del-EachSingle t k ks x ones)

  pub del-Gone :
      (t : T) (k : Key) (ks : List Key) → Excludes ks k → Gone h t ks → Gone h (h.del t k) ks
  unfolding search
  del-Gone t k [] x gone = tt
  del-Gone t k (l ∷ ks) (ne, x) (none_left, gone) =
      (rw (h.entries-del_other t k l (λ e. ne (sym e))) none_left, del-Gone t k ks x gone)

  pub del_each-Gone :
      (t : T) (ks : List Key) → Distinct ks → EachSingle h t ks → Gone h (del_each h t ks) ks
  unfolding del_each search
  del_each-Gone t [] d one = tt
  del_each-Gone t (k ∷ ks) (x, d) (one, ones) = (
    rw (del_each-entries h (h.del t k) ks k x) (search-del h t k one),
    del_each-Gone (h.del t k) ks d (del-EachSingle t k ks x ones),
  )

module _ {T : Type 0} (h : HashTable Key Val T) where
  unfoldable pub remove_nc : Ids T → ℕ → Reply ℕ × Ids T
  unfolding del_each
  remove_nc s nc_id = elim (search h s.assign_table (nc_key nc_id)) [
    | none ↦ (nc_no_exist, s)
    | some nc_val ↦ (
      done 0,
      record s { assign_table = h.del (del_each h s.assign_table nc_val.link) (nc_key nc_id) },
    )
  ]

  -- A file that is in the table once, and whose variables do not have its own key, leaves the table: its
  -- names are not found, and removing it again is an error that changes nothing.
  pub remove_nc_inq :
      (s : Ids T) (nc_id : ℕ) (val : Val) (name : Bytes)
      → search h s.assign_table (nc_key nc_id) ≡ some val
      → IsSingle (h.entries s.assign_table (nc_key nc_id))
      → Excludes val.link (nc_key nc_id)
      → (t : Ids T) × (remove_nc s nc_id ≡ (done 0, t))
        × (inq_dim h t nc_id name ≡ nc_no_exist)
        × (inq_var h t nc_id name ≡ nc_no_exist)
        × (remove_nc t nc_id ≡ (nc_no_exist, t))
  unfolding remove_nc inq_dim inq_var
  remove_nc_inq s nc_id val name e one x =
      let left = del_each h s.assign_table val.link in
      let same = del_each-entries h s.assign_table val.link (nc_key nc_id) x in
      let gone : search h (h.del left (nc_key nc_id)) (nc_key nc_id) ≡ none =
        search-del h left (nc_key nc_id) (rw same one) in
      (
        record s { assign_table = h.del left (nc_key nc_id) },
        rw (remove_nc, e),
        rw (inq_dim, gone),
        rw (inq_var, gone),
        rw (remove_nc, gone),
      )

  -- What stands under a key that is neither the file's nor one of its variables' stays.
  pub remove_nc_other :
      (s : Ids T) (nc_id : ℕ) (val : Val) (k : Key)
      → search h s.assign_table (nc_key nc_id) ≡ some val
      → Excludes val.link k
      → nc_key nc_id ≢ k
      → search h (remove_nc s nc_id).1.assign_table k ≡ search h s.assign_table k
  unfolding remove_nc search
  remove_nc_other s nc_id val k e x ne =
      rw
        (
          remove_nc,
          e,
          h.entries-del_other (del_each h s.assign_table val.link) (nc_key nc_id) k ne,
          del_each-entries h s.assign_table val.link k x,
        )
        refl
