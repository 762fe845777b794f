-- ===== src/Io/Pending.antt =====
-- server/io.c: a request waits in the table until each client of the server has sent it.
use cfio.Prelude.{
  ℕ, ◌/◌, ◌<◌, ◌≡◌, sym, ◌∙◌, subst, ◌↔◌, ◌⊎◌, inl, inr, Bool, true, Option, none, some, List, [],
  ◌∷◌, ◌==◌, ==_iff, ◌>>=◌, arith, Bool-cases,
}
use cfio.Memory.{Bytes}
use cfio.Table.{
  HashTable, search, IsSingle, search-add, search-write, search-del, IsSingle-add, IsSingle-write,
}
use cfio.Map.{Config, client, server, proc_type, get_client_index_of_server, IsValid}
use cfio.Map.Pairing.{client_num_lem, client_index-lt, get_clients-server}
use cfio.Io.Served.{Member, All, IsServed, Has, Member-Has, Has-Member}
use cfio.Io.{IoKey, pending, recv_client_io, remove_client_io, bitmap_full, new_bitmap}
use cfio.Io.Bitmap.{
  flag, IsBitmap, mark, mark-IsBitmap, flag-mark, new_bitmap-IsBitmap, flag-new_bitmap,
  add_bitmap-mark, bitmap_full-flags,
}

module _ {T : Type 0} (h : HashTable IoKey Bytes T) (c : Config) (server_id : ℕ) (key : IoKey) where
  -- The same request arrives from one client after the other; what is left is the last bitmap.
  unfoldable pub recv_each : T → ℕ → List ℕ → Option (Bytes × T)
  recv_each t k [] = recv_client_io h c server_id t k key
  recv_each t k (next ∷ ks) = recv_client_io h c server_id t k key >>= (λ r. recv_each r.1 next ks)

  module _ (v : IsValid c) (hs : proc_type c server_id ≡ server) where
    abbrev pub num : ℕ
    num = c.client_amount / c.server_amount

    -- The request is in the table, once, with this bitmap.
    pub record IsPending (t : T) (bytes : Bytes) : Type 0 where
      pub found : search h t key ≡ some bytes
      pub single : IsSingle (h.entries t key)
      pub bitmap : IsBitmap num bytes

    pub recv-IsPending :
        (t : T) (bytes : Bytes) (k : ℕ)
        → proc_type c k ≡ client
        → IsPending t bytes
        → let next = mark bytes (get_client_index_of_server c k) in
          (recv_client_io h c server_id t k key ≡ some (next, h.write t key next))
          × IsPending (h.write t key next) next
    unfolding recv_client_io
    recv-IsPending t bytes k hk p =
        let next = mark bytes (get_client_index_of_server c k) in
        (
          rw (
            recv_client_io,
            client_num_lem c server_id hs,
            pending,
            p.found,
            add_bitmap-mark c server_id v hs bytes k hk p.bitmap,
          ),
          record {
            found = search-write h t key bytes next p.found;
            single = IsSingle-write h t key next p.single;
            bitmap =
                mark-IsBitmap num bytes (get_client_index_of_server c k) (client_index-lt c k v hk)
                  p.bitmap;
          },
        )

    -- A request that was not in the table enters it.
    pub recv-first :
        (t : T) (k : ℕ)
        → search h t key ≡ none
        → recv_client_io h c server_id t k key
          ≡ recv_client_io h c server_id (h.add t key (new_bitmap num)) k key
    unfolding recv_client_io
    recv-first t k e =
        let added = search-add h t key (new_bitmap num) e in
        rw (recv_client_io, client_num_lem c server_id hs, pending, e, added)

    pub recv_each_new :
        (t : T) (k : ℕ) (ks : List ℕ)
        → search h t key ≡ none
        → recv_each t k ks ≡ recv_each (h.add t key (new_bitmap num)) k ks
    unfolding recv_each
    recv_each_new t k [] e = recv-first t k e
    recv_each_new t k (next ∷ ks) e = rw (recv-first t k e)

    pub added-IsPending :
        (t : T) → search h t key ≡ none → IsPending (h.add t key (new_bitmap num)) (new_bitmap num)
    added-IsPending t e = record {
      found = search-add h t key (new_bitmap num) e;
      single = IsSingle-add h t key (new_bitmap num) e;
      bitmap = new_bitmap-IsBitmap num;
    }

    pub flag_step :
        (bytes : Bytes) (k i : ℕ)
        → proc_type c k ≡ client
        → i < num
        → IsBitmap num bytes
        → (flag (mark bytes (get_client_index_of_server c k)) i ≡ 1)
          ↔ ((get_client_index_of_server c k ≡ i) ⊎ (flag bytes i ≡ 1))
    flag_step bytes k i hk hi b =
        let j = get_client_index_of_server c k in
        let step = flag-mark num bytes j i (client_index-lt c k v hk) hi b in
        elim (Bool-cases (i == j)) [
          | inl t ↦ let same : i ≡ j = (==_iff i j).0 t in (λ e. inl (sym same), λ e. rw (step, t))
          | inr f ↦ (
            λ e. inr (sym (let s : flag (mark bytes j) i ≡ flag bytes i = step ∙ rw f in s) ∙ e),
            λ e. elim e [ inl q ↦ absurd (ground arith) | inr q ↦ (step ∙ rw f) ∙ q ],
          )
        ]

    recv_each-flags :
        (t : T) (bytes : Bytes) (k : ℕ) (ks : List ℕ)
        → All (IsServed c server_id) (k ∷ ks)
        → IsPending t bytes
        → (last : Bytes) × (u : T) × (recv_each t k ks ≡ some (last, u))
          × IsPending u last
          × ((i : ℕ) → i < num → (flag last i ≡ 1) ↔ (Has c i (k ∷ ks) ⊎ (flag bytes i ≡ 1)))
    unfolding recv_each
    recv_each-flags t bytes k [] (s, _) p =
        let (run, q) = recv-IsPending t bytes k s.is_client p in
        (
          _,
          _,
          run,
          q,
          λ i hi.
              let (to, back) = flag_step bytes k i s.is_client hi p.bitmap in
              (
                λ e. elim (to e) [ inl a ↦ inl (inl a) | inr a ↦ inr a ],
                λ e. back (elim e [
                  | inl a ↦ elim a [ inl b ↦ inl b | inr b ↦ absurd b ]
                  | inr a ↦ inr a
                ]),
              ),
        )
    recv_each-flags t bytes k (next ∷ ks) (s, rest) p =
        let (run, q) = recv-IsPending t bytes k s.is_client p in
        let marked = mark bytes (get_client_index_of_server c k) in
        let (last, u, run', r, all) =
          recv_each-flags (h.write t key marked) marked next ks rest q in
        (
          last,
          u,
          rw run run',
          r,
          λ i hi.
              let (to, back) = flag_step bytes k i s.is_client hi p.bitmap in
              let (to', back') = all i hi in
              (
                λ e. elim (to' e) [
                  | inl a ↦ inl (inr a)
                  | inr a ↦ elim (to a) [ inl b ↦ inl (inl b) | inr b ↦ inr b ]
                ],
                λ e. back' (elim e [
                  | inl a ↦ elim a [ inl b ↦ inr (back (inl b)) | inr b ↦ inl b ]
                  | inr a ↦ inr (back (inr a))
                ]),
              ),
        )

    -- In a valid decomposition, when a request that is not in a server's table arrives from some
    -- of the server's clients in any order, each arrival passes every assertion, the table holds
    -- the last bitmap, the bitmap is full exactly when each client of the server has sent the
    -- request, and removing the request leaves no entry of it.
    pub recv_each-full :
        (t : T) (k : ℕ) (ks : List ℕ)
        → search h t key ≡ none
        → All (IsServed c server_id) (k ∷ ks)
        → (last : Bytes) × (u : T) × (r : Bool) × (recv_each t k ks ≡ some (last, u))
          × (search h u key ≡ some last)
          × (bitmap_full c server_id last ≡ some r)
          × ((r ≡ true) ↔ ((j : ℕ) → IsServed c server_id j → Member j (k ∷ ks)))
          × (search h (remove_client_io h u key) key ≡ none)
    unfolding remove_client_io
    recv_each-full t k ks e all =
        let start = added-IsPending t e in
        let (last, u, run, p, flags) =
          recv_each-flags (h.add t key (new_bitmap num)) (new_bitmap num) k ks all start in
        let (r, full, (to, back)) = bitmap_full-flags c server_id v hs last p.bitmap in
        (
          last,
          u,
          r,
          recv_each_new t k ks e ∙ run,
          p.found,
          full,
          (
            λ t j s.
                let i = get_client_index_of_server c j in
                let lt = client_index-lt c j v s.is_client in
                Has-Member c server_id v j (k ∷ ks) s all (elim ((flags i lt).0 (to t i lt)) [
                  | inl a ↦ a
                  | inr a ↦ absurd (omega (arith, flag-new_bitmap num i))
                ]),
            λ every. back (λ i lt.
                let (_, j, _, _, _, cl, home, index) = get_clients-server c server_id i v hs lt in
                let m = every j (record { is_client = cl; home = home }) in
                (flags i lt).1
                  (inl (subst (λ i. Has c i (k ∷ ks)) index (Member-Has c j (k ∷ ks) m)))),
          ),
          search-del h u key p.single,
        )
