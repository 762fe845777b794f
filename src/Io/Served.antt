-- ===== src/Io/Served.antt =====
-- server/io.c: the clients of one server, told apart by their indices.
use cfio.Prelude.{ℕ, ◌≡◌, sym, ◌∙◌, ap, ◌⊎◌, inl, inr, some, List, [], ◌∷◌, get_elem?, arith}
use cfio.Map.{
  Config, client, proc_type, get_clients, get_client_index_of_server, get_server_of_client, IsValid,
}
use cfio.Map.Pairing.{client-get_clients}

abbrev pub Member : ℕ → List ℕ → Type 0
Member j [] = ⊥
Member j (k ∷ ks) = (k ≡ j) ⊎ Member j ks

abbrev pub All : (ℕ → Type 0) → List ℕ → Type 0
All P [] = Unit
All P (k ∷ ks) = P k × All P ks

-- A client that this server serves.
pub record IsServed (c : Config) (server_id k : ℕ) : Type 0 where
  pub is_client : proc_type c k ≡ client
  pub home : get_server_of_client c k ≡ server_id

module _ (c : Config) where
  -- The index of some client in the list.
  abbrev pub Has : ℕ → List ℕ → Type 0
  Has i [] = ⊥
  Has i (k ∷ ks) = (get_client_index_of_server c k ≡ i) ⊎ Has i ks

  pub Member-Has : (j : ℕ) (ks : List ℕ) → Member j ks → Has (get_client_index_of_server c j) ks
  Member-Has j [] m = m
  Member-Has j (k ∷ ks) m = elim m [
    | inl e ↦ inl (ap (get_client_index_of_server c) e)
    | inr r ↦ inr (Member-Has j ks r)
  ]

  module _ (server_id : ℕ) (v : IsValid c) where
    -- Two clients of one server with the same index are the same.
    pub index_injective :
        (j k : ℕ)
        → IsServed c server_id j
        → IsServed c server_id k
        → get_client_index_of_server c j ≡ get_client_index_of_server c k
        → j ≡ k
    index_injective j k sj sk e =
        let (l, _, lj, fj) = client-get_clients c j v sj.is_client in
        let (m, _, mk, fk) = client-get_clients c k v sk.is_client in
        let lists : some l ≡ some m = sym lj ∙ ap (get_clients c) (sj.home ∙ sym sk.home) ∙ mk in
        some_injective (sym fj ∙ ap (λ i. get_elem? l i) e ∙ same_list l m lists _ ∙ fk)
      where
        some_injective : {a b : ℕ} → some a ≡ some b → a ≡ b
        some_injective e = ground arith

        same_list : (l m : List ℕ) → some l ≡ some m → (i : ℕ) → get_elem? l i ≡ get_elem? m i
        same_list l m e i = let q : l ≡ m = ground arith in ap (λ x. get_elem? x i) q

    pub Has-Member :
        (j : ℕ) (ks : List ℕ)
        → IsServed c server_id j
        → All (IsServed c server_id) ks
        → Has (get_client_index_of_server c j) ks
        → Member j ks
    Has-Member j [] s all m = m
    Has-Member j (k ∷ ks) s (sk, rest) m = elim m [
      | inl e ↦ inl (index_injective k j sk s e)
      | inr r ↦ inr (Has-Member j ks s rest r)
    ]
