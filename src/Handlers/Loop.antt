-- ===== src/Handlers/Loop.antt =====
-- server/server.c: the loop that performs the clients' messages, one of each client in a round.
use cfio.Prelude.{
  ℕ, zero, suc, ◌+◌, ◌-◌, ◌*◌, ◌%◌, ◌^◌, ◌≤◌, ◌<◌, ◌≡◌, refl, sym, ◌∙◌, ap, subst, ◌⊎◌, inl, inr,
  true, false, Option, none, some, List, [], ◌∷◌, ◌==◌, if◌then◌else◌, ◌>>=◌, length, Bool-cases,
  arith,
}
use cfio.Map.{Config}
use cfio.Recv.{Receiver}
use cfio.Handlers.{Server, Setting}
use cfio.Handlers.Perform.{io_msg}

-- One less, as an `int`.
abbrev pub decrement : ℕ → ℕ
decrement n = (n + (2 ^ 32 - 1)) % 2 ^ 32

-- `heap` has the addresses that `malloc` gives while the j-th message is performed: for its data, and
-- for the array into which the clients' data is merged.
module _ {T U L : Type 0} (k : Setting T U L) (heap : ℕ → ℕ × ℕ) (c : Config) where
  -- The numbers of the clients' messages that wait, and how many of them are not 0.
  abbrev pub Counted : Type 0
  Counted = List ℕ × ℕ × Receiver × Server T U L

  -- The round over the clients, from the j-th message on. Each message is performed with the addresses
  -- of its own.
  unfoldable pub io_clients : ℕ → List ℕ → ℕ → Receiver → Server T U L → Option Counted
  unfolding io_msg
  io_clients j [] msg_clt_cnt t s = some ([], msg_clt_cnt, t, s)
  io_clients j (n ∷ msg_cnts) msg_clt_cnt t s = io_msg k (heap j).0 (heap j).1 c t s >>= (λ r.
      io_clients (j + 1) msg_cnts (if decrement n == 0 then decrement msg_clt_cnt else msg_clt_cnt)
        r.0 r.1
      >>= (λ rest. some (decrement n ∷ rest.0, rest.1, rest.2, rest.3)))

  -- The rounds, while each client has a message. `none` also stands for fuel that has run out.
  unfoldable pub io_loop : ℕ → ℕ → ℕ → List ℕ → ℕ → Receiver → Server T U L → Option Counted
  unfolding io_clients
  io_loop zero j client_num msg_cnts msg_clt_cnt t s = none
  io_loop (suc fuel) j client_num msg_cnts msg_clt_cnt t s =
      if client_num == msg_clt_cnt
      then io_clients j msg_cnts msg_clt_cnt t s
        >>= (λ r. io_loop fuel (j + length msg_cnts) client_num r.0 r.1 r.2 r.3)
      else some (msg_cnts, msg_clt_cnt, t, s)

  -- So many messages, from the j-th on, can be performed one after the other.
  abbrev pub Runs : ℕ → ℕ → Receiver → Server T U L → Type 0
  Runs zero j t s = Unit
  Runs (suc n) j t s =
      (u : Receiver) × (v : Server T U L) × (io_msg k (heap j).0 (heap j).1 c t s ≡ some (u, v))
      × Runs n (j + 1) u v

abbrev pub nonzeros : List ℕ → ℕ
nonzeros [] = 0
nonzeros (n ∷ ns) = let rest = nonzeros ns in if n == 0 then rest else rest + 1

abbrev pub less_one : List ℕ → List ℕ
less_one [] = []
less_one (n ∷ ns) = (n - 1) ∷ less_one ns

abbrev pub lowered : ℕ → List ℕ → List ℕ
lowered zero ns = ns
lowered (suc r) ns = lowered r (less_one ns)

abbrev pub AllAtLeast : ℕ → List ℕ → Type 0
AllAtLeast r [] = Unit
AllAtLeast r (n ∷ ns) = (r ≤ n) × (n < 2 ^ 32) × AllAtLeast r ns

abbrev pub SomeIs : ℕ → List ℕ → Type 0
SomeIs r [] = ⊥
SomeIs r (n ∷ ns) = (n ≡ r) ⊎ SomeIs r ns

nonzeros-le : (ns : List ℕ) → nonzeros ns ≤ length ns
nonzeros-le [] = omega arith
nonzeros-le (n ∷ ns) = elim (Bool-cases (n == 0)) [
  | inl e ↦ rw e (omega (arith, nonzeros-le ns))
  | inr e ↦ rw e (omega (arith, nonzeros-le ns))
]

nonzeros-lt : (ns : List ℕ) → SomeIs 0 ns → nonzeros ns < length ns
nonzeros-lt [] h = absurd h
nonzeros-lt (n ∷ ns) h = elim (Bool-cases (n == 0)) [
  | inl e ↦ rw e (omega (arith, nonzeros-le ns))
  | inr e ↦ elim h [
    | inl q ↦ absurd (ground arith)
    | inr r ↦ rw e (omega (arith, nonzeros-lt ns r))
  ]
]

nonzeros_all : (ns : List ℕ) (r : ℕ) → AllAtLeast (suc r) ns → nonzeros ns ≡ length ns
nonzeros_all [] r h = refl
nonzeros_all (n ∷ ns) r h =
    let e : (n == 0) ≡ false = ground arith in rw e (omega (arith, nonzeros_all ns r h.2))

less_one-AllAtLeast : (ns : List ℕ) (r : ℕ) → AllAtLeast (suc r) ns → AllAtLeast r (less_one ns)
less_one-AllAtLeast [] r h = tt
less_one-AllAtLeast (n ∷ ns) r h = (omega arith, omega arith, less_one-AllAtLeast ns r h.2)

less_one-SomeIs : (ns : List ℕ) (r : ℕ) → SomeIs (suc r) ns → SomeIs r (less_one ns)
less_one-SomeIs [] r h = h
less_one-SomeIs (n ∷ ns) r h = elim h [
  | inl q ↦ inl (omega arith)
  | inr s ↦ inr (less_one-SomeIs ns r s)
]

length-less_one : (ns : List ℕ) → length (less_one ns) ≡ length ns
length-less_one [] = refl
length-less_one (n ∷ ns) = ap suc (length-less_one ns)

decrement_lem : (n : ℕ) → 0 < n → n < 2 ^ 32 → decrement n ≡ n - 1
decrement_lem n pos small = omega arith

module _ {T U L : Type 0} (k : Setting T U L) (heap : ℕ → ℕ × ℕ) (c : Config) where
  -- A round takes one message of each client.
  io_clients-less_one :
      (ns : List ℕ) (j r m clt : ℕ) (t : Receiver) (s : Server T U L)
      → AllAtLeast (suc r) ns
      → length ns ≤ clt
      → clt < 2 ^ 32
      → Runs k heap c (length ns + m) j t s
      → (u : Receiver) × (v : Server T U L) × (io_clients k heap c j ns clt t s
          ≡ some (less_one ns, clt - (length ns - nonzeros (less_one ns)), u, v))
        × Runs k heap c m (j + length ns) u v
  unfolding io_clients
  io_clients-less_one [] j r m clt t s h le small runs =
      let same : 0 + m ≡ m = omega arith in
      let here : j ≡ j + 0 = omega arith in
      (
        t,
        s,
        rw (the_count clt) refl,
        subst (λ i. Runs k heap c m i t s) here (subst (λ x. Runs k heap c x j t s) same runs),
      )
    where
      the_count : (clt : ℕ) → clt - (0 - 0) ≡ clt
      the_count clt = omega arith
  io_clients-less_one (n ∷ ns) j r m clt t s h le small runs =
      let split : suc (length ns) + m ≡ suc (length ns + m) = omega arith in
      let (t', s', run, rest) = subst (λ x. Runs k heap c x j t s) split runs in
      let here : j + 1 + length ns ≡ j + suc (length ns) = omega arith in
      let less = decrement_lem n (omega arith) h.1 in
      let fewer = nonzeros-le (less_one ns) in
      let long = length-less_one ns in
      elim (Bool-cases (n - 1 == 0)) [
        | inl e ↦
            let less' = decrement_lem clt (omega arith) small in
            let (u, v, each, after) =
              io_clients-less_one ns (j + 1) r m (clt - 1) t' s' h.2 (omega arith) (omega arith)
                rest in
            (
              u,
              v,
              rw (run, less, e, less', each)
                  (ap (λ x. some ((n - 1) ∷ less_one ns, x, u, v)) (omega arith)),
              subst (λ i. Runs k heap c m i u v) here after,
            )
        | inr e ↦
            let (u, v, each, after) =
              io_clients-less_one ns (j + 1) r m clt t' s' h.2 (omega arith) small rest in
            (
              u,
              v,
              rw (run, less, e, each)
                  (ap (λ x. some ((n - 1) ∷ less_one ns, x, u, v)) (omega arith)),
              subst (λ i. Runs k heap c m i u v) here after,
            )
      ]

  io_loop-again :
      (fuel j m : ℕ) (ns : List ℕ) (t : Receiver) (s : Server T U L) (r : Counted k heap c)
      → io_clients k heap c j ns m t s ≡ some r
      → io_loop k heap c (suc fuel) j m ns m t s
        ≡ io_loop k heap c fuel (j + length ns) m r.0 r.1 r.2 r.3
  unfolding io_loop
  io_loop-again fuel j m ns t s r e = let go_on : (m == m) ≡ true = ground arith in rw (go_on, e)

  io_loop-stop :
      (fuel j m : ℕ) (ns : List ℕ) (clt : ℕ) (t : Receiver) (s : Server T U L)
      → (m == clt) ≡ false
      → io_loop k heap c (suc fuel) j m ns clt t s ≡ some (ns, clt, t, s)
  unfolding io_loop
  io_loop-stop fuel j m ns clt t s e = rw e

  -- When as many clients are counted as have messages that wait, each client has at least r of
  -- these, one has r, the counts and the number of clients are below 2 ^ 32, and r messages for
  -- each client can be performed one after the other, each with the addresses that malloc gives
  -- for it, the loop over the rounds ends after r rounds, has lowered each client's count by r,
  -- counts the clients that still have messages, and these are not all.
  pub io_loop-lowered :
      (r j : ℕ) (ns : List ℕ) (t : Receiver) (s : Server T U L)
      → AllAtLeast r ns
      → SomeIs r ns
      → length ns < 2 ^ 32
      → Runs k heap c (r * length ns) j t s
      → (u : Receiver) × (v : Server T U L) × (io_loop k heap c
            (suc r)
            j
            (length ns)
            ns
            (nonzeros ns)
            t
            s
          ≡ some (lowered r ns, nonzeros (lowered r ns), u, v))
        × (nonzeros (lowered r ns) < length ns)
  io_loop-lowered zero j ns t s h one small runs =
      let less = nonzeros-lt ns one in
      let stop : (length ns == nonzeros ns) ≡ false = ground arith in
      (t, s, io_loop-stop 0 j (length ns) ns (nonzeros ns) t s stop, less)
  io_loop-lowered (suc r) j ns t s h one small runs =
      let m = length ns in
      let fewer = nonzeros-le (less_one ns) in
      let long = length-less_one ns in
      let split : suc r * m ≡ m + r * m = omega arith in
      let (t', s', each, rest) =
        io_clients-less_one ns j r (r * m) m t s h (omega arith) small
          (subst (λ x. Runs k heap c x j t s) split runs) in
      let (u, v, loop, less) =
        io_loop-lowered r (j + m) (less_one ns) t' s' (less_one-AllAtLeast ns r h)
          (less_one-SomeIs ns r one) (omega arith)
          (subst (λ x. Runs k heap c (r * x) (j + m) t' s') (sym long) rest) in
      let left : m - (m - nonzeros (less_one ns)) ≡ nonzeros (less_one ns) = omega arith in
      (
        u,
        v,
        ap (λ x. io_loop k heap c (suc (suc r)) j m ns x t s) (nonzeros_all ns r h)
            ∙ io_loop-again (suc r) j m ns t s (less_one ns, nonzeros (less_one ns), t', s')
                (each ∙ ap (λ x. some (less_one ns, x, t', s')) left)
            ∙ ap
                (λ x.
                  io_loop k heap c (suc r) (j + m) x (less_one ns) (nonzeros (less_one ns)) t' s')
                (sym long)
            ∙ loop,
        omega arith,
      )
