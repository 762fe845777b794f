-- ===== src/Handlers/Collect.antt =====
-- server/io.c: a request that waits for each client of the server.
use cfio.Prelude.{
  ℕ, ◌≡◌, ◌≢◌, refl, sym, ◌∙◌, ap, ◌⊎◌, inl, inr, true, false, Option, none, some, List, [], ◌∷◌,
  ◌++◌, ◌>>=◌, Bool-cases, arith,
}
use cfio.Memory.{Bytes}
use cfio.Table.{search}
use cfio.Map.{server, proc_type, get_client_index_of_server, IsValid}
use cfio.Map.Pairing.{client_index-lt}
use cfio.Io.{IoKey, recv_client_io, remove_client_io, bitmap_full, new_bitmap}
use cfio.Io.Served.{Member, All, IsServed, index_injective}
use cfio.Io.Bitmap.{flag, mark, bitmap_full-flags, flag-new_bitmap}
use cfio.Io.Pending.{
  IsPending, num, recv_each, recv_each_new, recv-IsPending, recv-first, added-IsPending, flag_step,
  recv_each-full,
}
use cfio.Handlers.{Server, Handled, Setting, unless_error}
use cfio.Handlers.Enddef.{collect}

-- The same request of one client after the other, and then of the last.
abbrev pub each_client :
    {T U L : Type 0}
    → (ℕ → Server T U L → Handled T U L)
    → Server T U L
    → List ℕ
    → ℕ
    → Handled T U L
each_client handler s [] last = handler last s
each_client handler s (j ∷ js) last =
    handler j s >>= unless_error (λ u. each_client handler u js last)

All-append : (P : ℕ → Type 0) (js : List ℕ) (x : ℕ) → All P js → P x → All P (js ++ (x ∷ []))
All-append P [] x a p = (p, tt)
All-append P (j ∷ js) x a p = (a.0, All-append P js x a.1 p)

Member-append : (i x : ℕ) (js : List ℕ) → (i ≡ x) ⊎ Member i js → Member i (js ++ (x ∷ []))
Member-append i x [] m = elim m [ inl e ↦ inl (sym e) | inr n ↦ absurd n ]
Member-append i x (j ∷ js) m = elim m [
  | inl e ↦ inr (Member-append i x js (inl e))
  | inr n ↦ elim n [ inl e ↦ inl e | inr r ↦ inr (Member-append i x js (inr r)) ]
]

module _ {T U L : Type 0} (k : Setting T U L) (key : IoKey) (act : Server T U L → Handled T U L)
    (v : IsValid k.config) (hs : proc_type k.config k.server_id ≡ server) where
  module _ (last : ℕ) (last_served : IsServed k.config k.server_id last) where
    abbrev last_index : ℕ
    last_index = get_client_index_of_server k.config last

    not_full :
        (bytes : Bytes)
        → (t : U) → IsPending k.io_ops k.config k.server_id key v hs t bytes
        → flag bytes last_index ≢ 1
        → bitmap_full k.config k.server_id bytes ≡ some false
    not_full bytes t p missing =
        let (r, full, both) = bitmap_full-flags k.config k.server_id v hs bytes p.bitmap in
        elim (Bool-cases r) [
          | inl e ↦ absurd (
              missing (both.0 e last_index (client_index-lt k.config last v last_served.is_client)))
          | inr e ↦ full ∙ ap (λ x. some x) e
        ]

    -- One more client's request leaves the last one's flag as it is.
    still_missing :
        (bytes : Bytes) (t : U) (j : ℕ)
        → IsPending k.io_ops k.config k.server_id key v hs t bytes
        → IsServed k.config k.server_id j
        → j ≢ last
        → flag bytes last_index ≢ 1
        → flag (mark bytes (get_client_index_of_server k.config j)) last_index ≢ 1
    still_missing bytes t j p served other missing e =
        let step =
          flag_step k.io_ops k.config k.server_id key v hs bytes j last_index served.is_client
            (client_index-lt k.config last v last_served.is_client) p.bitmap in
        elim (step.0 e) [
          | inl q ↦ other (index_injective k.config k.server_id v j last served last_served q)
          | inr q ↦ missing q
        ]

    abbrev recv_last : U → List ℕ → Option (Bytes × U)
    recv_last t [] = recv_client_io k.io_ops k.config k.server_id t last key
    recv_last t (j ∷ js) = recv_each k.io_ops k.config k.server_id key t j (js ++ (last ∷ []))

    recv_last-step :
        (t u : U) (b : Bytes) (j : ℕ) (js : List ℕ)
        → recv_client_io k.io_ops k.config k.server_id t j key ≡ some (b, u)
        → recv_last t (j ∷ js) ≡ recv_last u js
    unfolding recv_each
    recv_last-step t u b j [] e = rw e
    recv_last-step t u b j (i ∷ js) e = rw e

    abbrev marked : Bytes → ℕ → Bytes
    marked bytes j = mark bytes (get_client_index_of_server k.config j)

    waits :
        (s : Server T U L) (bytes : Bytes) (js : List ℕ)
        → IsPending k.io_ops k.config k.server_id key v hs s.io_table bytes
        → flag bytes last_index ≢ 1
        → All (IsServed k.config k.server_id) js
        → All (λ i. i ≢ last) js
        → (u : U) × (each_client (λ i. collect k key i act) s js last
            ≡ collect k key last act (record s { io_table = u }))
          × (recv_last s.io_table js ≡ recv_client_io k.io_ops k.config k.server_id u last key)
    waits s bytes [] p missing served others = (s.io_table, refl, refl)
    waits s bytes (j ∷ js) p missing served others =
        let (run, q) =
          recv-IsPending k.io_ops k.config k.server_id key v hs s.io_table bytes j
            served.0.is_client p in
        let missing' = still_missing bytes s.io_table j p served.0 others.0 missing in
        let t = k.io_ops.write s.io_table key (marked bytes j) in
        let (u, each, recv) =
          waits (record s { io_table = t }) (marked bytes j) js q missing' served.1 others.1 in
        (
          u,
          rw (run, not_full (marked bytes j) t q missing') each,
          recv_last-step s.io_table t (marked bytes j) j js run ∙ recv,
        )

    abbrev started : U → U
    started t = k.io_ops.add t key (new_bitmap (num k.io_ops k.config k.server_id key v hs))

    recv_last-started :
        (t : U) (js : List ℕ)
        → search k.io_ops t key ≡ none
        → recv_last t js ≡ recv_last (started t) js
    recv_last-started t [] e = recv-first k.io_ops k.config k.server_id key v hs t last e
    recv_last-started t (j ∷ js) e =
        recv_each_new k.io_ops k.config k.server_id key v hs t j (js ++ (last ∷ [])) e

    each_client-started :
        (s : Server T U L) (js : List ℕ)
        → search k.io_ops s.io_table key ≡ none
        → each_client (λ i. collect k key i act) s js last
          ≡ each_client
              (λ i. collect k key i act)
              (record s { io_table = started s.io_table })
              js
              last
    each_client-started s [] e =
        rw (recv-first k.io_ops k.config k.server_id key v hs s.io_table last e)
    each_client-started s (j ∷ js) e =
        rw (recv-first k.io_ops k.config k.server_id key v hs s.io_table j e)

    recv_last-full :
        (t : U) (js : List ℕ)
        → search k.io_ops t key ≡ none
        → All (IsServed k.config k.server_id) js
        → ((i : ℕ) → IsServed k.config k.server_id i → (i ≡ last) ⊎ Member i js)
        → (b : Bytes) × (u : U) × (recv_last t js ≡ some (b, u))
          × (bitmap_full k.config k.server_id b ≡ some true)
          × (search k.io_ops (remove_client_io k.io_ops u key) key ≡ none)
    unfolding recv_each
    recv_last-full t [] e served every =
        let (b, u, r, run, _, full, both, gone) =
          recv_each-full k.io_ops k.config k.server_id key v hs t last [] e (last_served, tt) in
        (
          b,
          u,
          run,
          full
              ∙ ap (λ x. some x)
                  (both.1 (λ i si. elim (every i si) [ inl q ↦ inl (sym q) | inr m ↦ absurd m ])),
          gone,
        )
    recv_last-full t (j ∷ js) e served every =
        let (b, u, r, run, _, full, both, gone) =
          recv_each-full k.io_ops k.config k.server_id key v hs t j (js ++ (last ∷ [])) e
            (served.0, All-append (IsServed k.config k.server_id) js last served.1 last_served) in
        (
          b,
          u,
          run,
          full ∙ ap (λ x. some x) (both.1 (λ i si. Member-append i last (j ∷ js) (every i si))),
          gone,
        )

    -- When each client has sent the request, the last one acts, on a server whose table of requests alone
    -- has changed.
    pub collect-acts :
        (s : Server T U L) (js : List ℕ)
        → search k.io_ops s.io_table key ≡ none
        → All (IsServed k.config k.server_id) js
        → All (λ i. i ≢ last) js
        → ((i : ℕ) → IsServed k.config k.server_id i → (i ≡ last) ⊎ Member i js)
        → (u : U) × (each_client (λ i. collect k key i act) s js last
            ≡ act (record s { io_table = u }))
          × (search k.io_ops (remove_client_io k.io_ops u key) key ≡ none)
    collect-acts s js e served others every =
        let pending = added-IsPending k.io_ops k.config k.server_id key v hs s.io_table e in
        let n = num k.io_ops k.config k.server_id key v hs in
        let (t, each, recv) =
          waits (record s { io_table = started s.io_table }) (new_bitmap n) js pending
            (λ q. omega (arith, flag-new_bitmap n last_index)) served others in
        let (b, u, run, full, gone) = recv_last-full s.io_table js e served every in
        let last_run = sym recv ∙ sym (recv_last-started s.io_table js e) ∙ run in
        (u, each_client-started s js e ∙ each ∙ rw (last_run, full), gone)
