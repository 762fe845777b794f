-- ===== src/Tests/Tables.antt =====
-- A hash table: for each key the list of its entries.
use cfio.Prelude.{
  ◌≡◌, ◌≢◌, Bool, true, false, ◌&&◌, List, [], ◌∷◌, ◌++◌, ◌==◌, if◌then◌else◌, arith,
}
use cfio.Table.{HashTable, replace_first, behind_first}
use cfio.Id.{Key}

abbrev pub key_eq : Key → Key → Bool
key_eq k l =
    (k.client_nc_id == l.client_nc_id)
    && ((k.client_dim_id == l.client_dim_id) && (k.client_var_id == l.client_var_id))

pub key_eq_refl : (k : Key) → key_eq k k ≡ true
key_eq_refl k = ground arith

pub key_apart : (k l : Key) → k ≢ l → key_eq k l ≡ false
key_apart k l h = ground arith

module _ {K V : Type 0} (eq : K → K → Bool) where
  abbrev pub change : (K → List V) → K → List V → K → List V
  change t k vs l = if eq k l then vs else t l

  abbrev pub put : (K → List V) → K → V → K → List V
  put t k v = change t k (t k ++ (v ∷ []))

  module _ (same_key : (k : K) → eq k k ≡ true)
      (other_key : (k l : K) → k ≢ l → eq k l ≡ false) where
    pub change-same : (t : K → List V) (k : K) (vs : List V) → change t k vs k ≡ vs
    change-same t k vs = rw (same_key k)

    pub change_other : (t : K → List V) (k l : K) (vs : List V) → k ≢ l → change t k vs l ≡ t l
    change_other t k l vs h = rw (other_key k l h)

    abbrev pub table_of : HashTable K V (K → List V)
    table_of = record {
      entries = λ t k. t k;
      add = put;
      write = λ t k v. change t k (replace_first (t k) v);
      del = λ t k. change t k (behind_first (t k));
      entries-add = λ t k v. change-same t k (t k ++ (v ∷ []));
      entries-add_other = λ t k l v. change_other t k l (t k ++ (v ∷ []));
      entries-write = λ t k v. change-same t k (replace_first (t k) v);
      entries-write_other = λ t k l v. change_other t k l (replace_first (t k) v);
      entries-del = λ t k. change-same t k (behind_first (t k));
      entries-del_other = λ t k l. change_other t k l (behind_first (t k));
    }

abbrev pub table : {V : Type 0} → HashTable Key V (Key → List V)
table = table_of key_eq key_eq_refl key_apart
