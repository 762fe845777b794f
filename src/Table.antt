-- ===== src/Table.antt =====
-- What the code relies on of the hash table that it takes from another project (common/quickhash.h).
use cfio.Prelude.{◌≡◌, ◌≢◌, refl, Option, none, some, List, [], ◌∷◌, ◌++◌, arith}

abbrev pub replace_first : {V : Type 0} → List V → V → List V
replace_first [] v = []
replace_first (u ∷ us) v = v ∷ us

abbrev pub behind_first : {V : Type 0} → List V → List V
behind_first [] = []
behind_first (u ∷ us) = us

-- The entries of one key stand in the order in which they were added. `add` is `qhash_add`, and
-- `del` is `qhash_del` of the entry that a search finds; `write` changes that entry in place.
pub record HashTable (K V T : Type 0) : Type 0 where
  pub entries : T → K → List V
  pub add : T → K → V → T
  pub write : T → K → V → T
  pub del : T → K → T
  pub entries-add : (t : T) (k : K) (v : V) → entries (add t k v) k ≡ entries t k ++ (v ∷ [])
  pub entries-add_other : (t : T) (k l : K) (v : V) → k ≢ l → entries (add t k v) l ≡ entries t l
  pub entries-write :
      (t : T) (k : K) (v : V) → entries (write t k v) k ≡ replace_first (entries t k) v
  pub entries-write_other :
      (t : T) (k l : K) (v : V) → k ≢ l → entries (write t k v) l ≡ entries t l
  pub entries-del : (t : T) (k : K) → entries (del t k) k ≡ behind_first (entries t k)
  pub entries-del_other : (t : T) (k l : K) → k ≢ l → entries (del t k) l ≡ entries t l

abbrev first : {V : Type 0} → List V → Option V
first [] = none
first (v ∷ vs) = some v

-- At most one entry.
abbrev pub IsSingle : {V : Type 0} → List V → Type 0
IsSingle [] = Unit
IsSingle (v ∷ vs) = vs ≡ []

module _ {K V T : Type 0} (h : HashTable K V T) where
  -- `qhash_search`
  unfoldable pub search : T → K → Option V
  search t k = first (h.entries t k)

  no_entry : (t : T) (k : K) → search t k ≡ none → h.entries t k ≡ []
  unfolding search
  no_entry t k e = none_first (h.entries t k) e
    where
      none_first : (vs : List V) → first vs ≡ none → vs ≡ []
      none_first [] e = refl
      none_first (v ∷ vs) e = absurd (ground arith)

  pub search-add : (t : T) (k : K) (v : V) → search t k ≡ none → search (h.add t k v) k ≡ some v
  unfolding search
  search-add t k v e =
      let nothing : h.entries t k ≡ [] = unfold search in no_entry t k e in
      rw (h.entries-add t k v, nothing)

  pub search-add_other : (t : T) (k l : K) (v : V) → k ≢ l → search (h.add t k v) l ≡ search t l
  unfolding search
  search-add_other t k l v ne = rw (h.entries-add_other t k l v ne)

  pub search-write :
      (t : T) (k : K) (u v : V) → search t k ≡ some u → search (h.write t k v) k ≡ some v
  unfolding search
  search-write t k u v e = rw (h.entries-write t k v) (some_first (h.entries t k) e)
    where
      some_first : (vs : List V) → first vs ≡ some u → first (replace_first vs v) ≡ some v
      some_first [] e = absurd (ground arith)
      some_first (w ∷ vs) e = refl

  pub search-write_other : (t : T) (k l : K) (v : V) → k ≢ l → search (h.write t k v) l ≡ search t l
  unfolding search
  search-write_other t k l v ne = rw (h.entries-write_other t k l v ne)

  -- Where the key has one entry, none is left.
  pub search-del : (t : T) (k : K) → IsSingle (h.entries t k) → search (h.del t k) k ≡ none
  unfolding search
  search-del t k one = rw (h.entries-del t k) (nothing_left (h.entries t k) one)
    where
      nothing_left : (vs : List V) → IsSingle vs → first (behind_first vs) ≡ none
      nothing_left [] one = refl
      nothing_left (v ∷ vs) one = rw one

  pub search-del_other : (t : T) (k l : K) → k ≢ l → search (h.del t k) l ≡ search t l
  unfolding search
  search-del_other t k l ne = rw (h.entries-del_other t k l ne)

  pub IsSingle-add :
      (t : T) (k : K) (v : V) → search t k ≡ none → IsSingle (h.entries (h.add t k v) k)
  IsSingle-add t k v e = rw (h.entries-add t k v, no_entry t k e)

  pub IsSingle-write :
      (t : T) (k : K) (v : V) → IsSingle (h.entries t k) → IsSingle (h.entries (h.write t k v) k)
  IsSingle-write t k v one = rw (h.entries-write t k v) (kept (h.entries t k) one)
    where
      kept : (vs : List V) → IsSingle vs → IsSingle (replace_first vs v)
      kept [] one = one
      kept (w ∷ vs) one = one
