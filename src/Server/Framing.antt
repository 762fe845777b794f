-- ===== src/Server/Framing.antt =====
-- server/server.c: each complete message of a region reaches the receiver, in order; the rest stays.
use native.Mathlib.Nat.{mod-eq_of_lt}
use cfio.Prelude.{
  ℕ, zero, suc, ◌+◌, ◌-◌, ◌%◌, ◌^◌, ◌<◌, ◌≤◌, ◌≡◌, refl, sym, ◌∙◌, ap, ◌⊎◌, inl, inr, Bool, true,
  false, some, List, [], ◌∷◌, ◌++◌, append_assoc, Bool-cases, if◌then◌else◌, ltb, length,
  length-append, get_elem?, take, drop, take-length, bind_congr, take-append, drop-append, drop-add,
  arith,
}
use cfio.Memory.{Bytes, encode, decode}
use cfio.Memory.Laws.{decode-encode}
use cfio.Buffer.{size_t_mod}
use cfio.Map.{Config, get_client_index_of_server}
use cfio.Message.{Request}
use cfio.Message.Wire.{wire, wire_size}
use cfio.Send.Refine.{length-wire}
use cfio.Buffer.{Buffer, Space, enough, not_enough, is_empty, clear, is_free_space_enough}
use cfio.Recv.{Receiver, ok, code_of, admit, accept, add_msg}
use cfio.Recv.Forward.{int_size_lem}
use cfio.Server.{Region, copied, copy_msgs, copy_data_to_list}

abbrev pub wires : List Request → Bytes
wires [] = []
wires (r ∷ rs) = wire r ++ wires rs

-- The receiver takes each of the messages in turn.
pub data Takes (c : Config) (client_id : ℕ) : List Request → Receiver → Receiver → Type 0 where
  done : {s : Receiver} → Takes c client_id [] s s
  next :
      {r : Request} {rs : List Request} {s t u : Receiver}
      → add_msg c client_id (wire_size r) (wire r) s ≡ some (ok, t)
      → Takes c client_id rs t u
      → Takes c client_id (r ∷ rs) s u

-- The bytes are not a whole message: its size is not there, or more bytes than there are.
abbrev pub IsPartial : Bytes → Bytes → Type 0
IsPartial rest behind =
    (length rest < 8)
    ⊎ ((length rest < decode (take 8 (rest ++ behind)))
        × (decode (take 8 (rest ++ behind)) < 2 ^ 63))

Space-cases : (s : Space) → (s ≡ enough) ⊎ (s ≡ not_enough)
Space-cases enough = inl refl
Space-cases not_enough = inr refl

-- What lies behind a message in the region makes no difference.
admit-prefix :
    (rank src n : ℕ) (xs ys : Bytes) (b : Buffer)
    → take n xs ≡ take n ys
    → code_of xs ≡ code_of ys
    → admit rank src n xs b ≡ admit rank src n ys b
admit-prefix rank src n xs ys b whole codes = elim (Space-cases (is_free_space_enough b n).0) [
  | inl e ↦ rw (admit, e, whole, codes)
  | inr e ↦ rw (admit, e)
]

accept-behind :
    (rank src : ℕ) (r : Request) (behind : Bytes) (b : Buffer)
    → wire_size r < 2 ^ 31
    → accept rank src (wire_size r) (wire r ++ behind) b ≡ accept rank src (wire_size r) (wire r) b
unfolding accept
accept-behind rank src r behind b short =
    let n = wire_size r in
    let l = sym (length-wire r) in
    let whole : take n (wire r ++ behind) ≡ take n (wire r) =
      take-append (wire r) behind n l ∙ sym (take-length (wire r) n l) in
    let codes : code_of (wire r ++ behind) ≡ code_of (wire r) = unfold encode in refl in
    rw (int_size_lem n short) (
      bind_congr (if is_empty b then clear b else some b) _ _
        (λ e. admit-prefix rank src n (wire r ++ behind) (wire r) e whole codes))

add_msg-behind :
    (c : Config) (client_id : ℕ) (r : Request) (behind : Bytes) (s : Receiver)
    → wire_size r < 2 ^ 31
    → add_msg c client_id (wire_size r) (wire r ++ behind) s
      ≡ add_msg c client_id (wire_size r) (wire r) s
unfolding add_msg
add_msg-behind c client_id r behind s short =
    bind_congr (get_elem? s.buffer (get_client_index_of_server c client_id)) _ _
      (λ b. rw (accept-behind s.rank client_id r behind b short) refl)

-- What the loop leaves when it has taken these messages.
record Copied (rs : List Request) (change ch : Bool) (g g' : Region) : Type 0 where
  region : g'.region ≡ g.region
  local_len : g'.local_len ≡ g.local_len
  copy_len : g'.copy_len ≡ g.copy_len + length (wires rs)
  msg_cnt : g'.msg_cnt ≡ g.msg_cnt + length rs
  stays : change ≡ true → ch ≡ true
  moves : (ch ≡ true) ⊎ (g'.copy_len ≡ g.copy_len)
  idle : rs ≡ [] → ch ≡ change

module _ (c : Config) (client_id : ℕ) (rest behind : Bytes) (partial : IsPartial rest behind) where
  -- The rest of a message is left alone.
  copy_msgs_partial :
      (n : ℕ) (change : Bool) (g : Region) (s : Receiver)
      → drop g.copy_len g.region ≡ rest ++ behind
      → g.local_len ≡ g.copy_len + length rest
      → g.local_len < 2 ^ 31
      → copy_msgs (suc n) c client_id change g s ≡ some (change, g, s)
  unfolding copy_msgs
  copy_msgs_partial n change g s at len small = elim partial [
    | inl short ↦ let t : ltb g.local_len (g.copy_len + 8) ≡ true = ground arith in rw t refl
    | inr (short, fits) ↦
        let size = decode (take 8 (rest ++ behind)) in
        let w : (g.copy_len + size) % size_t_mod ≡ g.copy_len + size = mod-eq_of_lt (omega arith) in
        let t : ltb g.local_len (g.copy_len + size) ≡ true = ground arith in
        elim (Bool-cases (ltb g.local_len (g.copy_len + 8))) [
          | inl a ↦ rw a refl
          | inr a ↦ rw (a, at, w, t) refl
        ]
  ]

  copy_msgs_next :
      (n : ℕ) (change : Bool) (g : Region) (r : Request) (more : Bytes) (s t : Receiver)
      → drop g.copy_len g.region ≡ wire r ++ more
      → g.copy_len + wire_size r ≤ g.local_len
      → g.local_len < 2 ^ 31
      → add_msg c client_id (wire_size r) (wire r) s ≡ some (ok, t)
      → copy_msgs (suc n) c client_id change g s
        ≡ copy_msgs n c client_id true (copied (wire_size r) g) t
  unfolding copy_msgs
  copy_msgs_next n change g r more s t at len small run =
      let size : decode (take 8 (wire r ++ more)) ≡ wire_size r =
        unfold encode in decode-encode 8 (wire_size r) (omega arith) in
      let w : (g.copy_len + wire_size r) % size_t_mod ≡ g.copy_len + wire_size r =
        mod-eq_of_lt (omega arith) in
      let a : ltb g.local_len (g.copy_len + 8) ≡ false = ground arith in
      let b : ltb g.local_len (g.copy_len + wire_size r) ≡ false = ground arith in
      let taken = add_msg-behind c client_id r more s (omega arith) ∙ run in
      rw (a, at, size, w, b, taken)
        (ap (λ x. copy_msgs n c client_id true (copied x g) t)
          (ap (λ x. decode (take 8 x)) at ∙ size))

  copy_msgs-Takes :
      (rs : List Request) (s u : Receiver)
      → Takes c client_id rs s u
      → (n : ℕ) (change : Bool) (g : Region)
      → drop g.copy_len g.region ≡ wires rs ++ (rest ++ behind)
      → g.local_len ≡ g.copy_len + length (wires rs) + length rest
      → g.local_len < 2 ^ 31
      → g.msg_cnt + length rs < 2 ^ 31
      → length (wires rs) < n
      → (ch : Bool) × (g' : Region) × (copy_msgs n c client_id change g s ≡ some (ch, g', u))
        × Copied rs change ch g g'
  copy_msgs-Takes rs s u takes zero change g at len small few fuel = absurd (omega arith)
  copy_msgs-Takes [] s u (done) (suc n) change g at len small few fuel = (
    change,
    g,
    copy_msgs_partial n change g s at (omega arith) small,
    record {
      region = refl;
      local_len = refl;
      copy_len = omega arith;
      msg_cnt = omega arith;
      stays = λ e. e;
      moves = inr refl;
      idle = λ e. refl;
    },
  )
  copy_msgs-Takes (r ∷ rs) s u (next {t = t} run takes) (suc n) change g at len small few fuel =
      let size = length-wire r in
      let both = length-append (wire r) (wires rs) in
      let split : drop g.copy_len g.region ≡ wire r ++ (wires rs ++ (rest ++ behind)) =
        at ∙ append_assoc (wire r) (wires rs) (rest ++ behind) in
      let step =
        copy_msgs_next n change g r (wires rs ++ (rest ++ behind)) s t split (omega arith) small
          run in
      let w : (g.copy_len + wire_size r) % 2 ^ 32 ≡ g.copy_len + wire_size r =
        mod-eq_of_lt (omega arith) in
      let count : (g.msg_cnt + 1) % 2 ^ 32 ≡ g.msg_cnt + 1 = mod-eq_of_lt (omega arith) in
      let g1 = copied (wire_size r) g in
      let at1 : drop g1.copy_len g1.region ≡ wires rs ++ (rest ++ behind) =
        rw (w, drop-add g.region g.copy_len (wire_size r), split)
          (drop-append (wire r) (wires rs ++ (rest ++ behind)) (wire_size r) (sym size)) in
      let (ch, g', all, p) =
        copy_msgs-Takes rs t u takes n true g1 at1 (omega arith) small (omega arith)
          (omega arith) in
      (
        ch,
        g',
        step ∙ all,
        record {
          region = p.region;
          local_len = p.local_len;
          copy_len = omega (arith, p.copy_len);
          msg_cnt = omega (arith, p.msg_cnt);
          stays = λ e. p.stays refl;
          moves = inl (p.stays refl);
          idle = λ e. absurd (ground arith);
        },
      )

  -- When nothing of a client's region is copied yet, its bytes are a run of requests and behind
  -- them a part of a message (fewer than 8 bytes, or fewer than the size that stands there, which
  -- is below 2 ^ 63), fewer than 2 ^ 31 bytes in all, the client's messages stay below 2 ^ 31 in
  -- number, there are no requests or the part is not longer than they are, so that memcpy moves it
  -- to a place apart, and the receiver takes the requests one after the other, _copy_data_to_list
  -- passes every assertion and leaves the receiver as it then is; the region begins with the part
  -- that is left, which is all that it counts, and as many messages more are counted as there were
  -- requests.
  pub copy_data_to_list-Takes :
      (rs : List Request) (s u : Receiver) (g : Region)
      → Takes c client_id rs s u
      → g.region ≡ wires rs ++ (rest ++ behind)
      → g.copy_len ≡ 0
      → g.local_len ≡ length (wires rs) + length rest
      → g.local_len < 2 ^ 31
      → g.msg_cnt + length rs < 2 ^ 31
      → (rs ≡ []) ⊎ (length rest ≤ length (wires rs))
      → (g' : Region) × (copy_data_to_list c client_id g s ≡ some (g', u))
        × (take (length rest) g'.region ≡ rest)
        × (g'.local_len ≡ length rest)
        × (g'.copy_len ≡ 0)
        × (g'.msg_cnt ≡ g.msg_cnt + length rs)
  unfolding copy_data_to_list
  copy_data_to_list-Takes rs s u g takes reg none_yet len small few apart =
      let at : drop g.copy_len g.region ≡ wires rs ++ (rest ++ behind) = rw none_yet reg in
      let (ch, g', run, p) =
        copy_msgs-Takes rs s u takes (g.local_len + 1) false g at (omega arith) small few
          (omega arith) in
      let left : drop g'.copy_len g'.region ≡ rest ++ behind =
        rw (p.copy_len, none_yet, p.region, reg)
          (drop-append (wires rs) (rest ++ behind) (0 + length (wires rs)) (omega arith)) in
      let amount : g'.local_len - g'.copy_len ≡ length rest =
        omega (arith, p.local_len, p.copy_len) in
      let first = take-append rest behind (length rest) refl in
      elim (Bool-cases ch) [
        | inl t ↦
            let behind_rest : length rest ≤ length (wires rs) = elim apart [
              | inl e ↦ let stuck : true ≡ false = sym t ∙ p.idle e in absurd (ground arith)
              | inr le ↦ le
            ] in
            let apart' : ltb g'.copy_len (g'.local_len - g'.copy_len) ≡ false =
              ground (arith, amount, p.copy_len) in
            (
              record g' {
                region =
                    take (length rest) (drop g'.copy_len g'.region) ++ drop (length rest) g'.region;
                local_len = length rest;
                copy_len = 0;
              },
              rw (run, t, apart', amount) refl,
              rw (left, first) (take-append rest (drop (length rest) g'.region) (length rest) refl),
              refl,
              refl,
              p.msg_cnt,
            )
        | inr f ↦
            let same : g'.copy_len ≡ g.copy_len = elim p.moves [
              | inl t ↦ absurd (ground arith)
              | inr e ↦ e
            ] in
            let zero_len : g'.copy_len ≡ 0 = same ∙ none_yet in
            let whole : g'.region ≡ rest ++ behind = rw zero_len at left in
            (
              g',
              rw (run, f) refl,
              rw (whole) first,
              omega (arith, amount, zero_len),
              zero_len,
              p.msg_cnt,
            )
      ]
