-- ===== src/Recv/Forward.antt =====
-- A request that a client sends is the request that its server reads.
use cfio.Prelude.{
  ℕ, ◌+◌, ◌^◌, ◌<◌, ◌≤◌, ◌≡◌, refl, sym, subst, ◌∙◌, ap, inl, inr, false, some, [], ◌++◌,
  append-nil, ltb, true, ◌%◌, ◌==◌, if◌then◌else◌, ◌>>=◌, length, take, take-length, arith,
  Bool-cases,
}
use cfio.Memory.{Bytes, encode, decode, load, store}
use cfio.Memory.Laws.{decode-encode, load-store}
use cfio.Buffer.{
  Buffer, limit, is_empty, clear, use_buf, used_buf_size, enough, is_free_space_enough, IsValid,
  HasRoom,
}
use cfio.Buffer.Room.{
  enough-HasRoom, use_buf-check_used, used-add-free, free_buf_size_flat, free_buf_size_round,
}
use cfio.Buffer.Retry.{restart}
use cfio.Buffer.Wait.{Releases, free_buf_size-lt}
use cfio.Buffer.Pack.{◌▸◌, int_to_size_t}
use native.Mathlib.Nat.{mod-eq_of_lt}
use cfio.Buffer.Pack.Packs.{store_use, HasRoom-mem, magic_ok_lem}
use cfio.Buffer.Pack.Unpacks.{▸-Unpacks, HasData}
use cfio.Message.{Request, create, def_dim, def_var, put_att, enddef, put_vara, close, func_final}
use cfio.Message.Wire.{code, body, wire, wire_size, IsWellFormed}
use cfio.Send.{send}
use cfio.Send.Refine.{send-wire, length-wire}
use cfio.Recv.{Msg, ok, code_of, admit, accept, seek, unpack_size_t, unpack_request}
use cfio.Recv.Decode.{unpack_size_t-Unpacks, unpack_request-Unpacks, code-IsInt}

-- The buffer as its reader finds it when it turns to a message just stored.
new_message :
    (b : Buffer) (n : ℕ)
    → IsValid b
    → HasRoom b n
    → let d = record (use_buf b n) { used_addr = b.free_addr } in
      IsValid d × (n ≤ used_buf_size d) × (b.free_addr + n ≤ limit d)
unfolding use_buf
new_message b n v r =
    let d : Buffer = unfold use_buf in record (use_buf b n) { used_addr = b.free_addr } in
    let w : IsValid d = ground arith in
    (
      w,
      ground (
        arith,
        used-add-free d w,
        free_buf_size_flat w,
        free_buf_size_round w,
        free_buf_size-lt b v,
      ),
      ground arith,
    )

-- The reader that is sent to a stored message finds its bytes.
pub seek-stored :
    (b : Buffer) (xs : Bytes) (n : ℕ)
    → n ≡ length xs
    → IsValid b
    → HasRoom b n
    → 0 < n
    → let c = use_buf (record b { mem = store b.mem b.free_addr xs }) n in
      let d = record c { used_addr = b.free_addr } in
      IsValid c × (seek b.free_addr c ≡ some d) × IsValid d × HasData d xs
unfolding seek
seek-stored b xs n e v r pos =
    let p = record b { mem = store b.mem b.free_addr xs } in
    let w : IsValid p = omega arith in
    let room = HasRoom-mem b (store b.mem b.free_addr xs) r in
    let stored = store_use b xs n 0 v e (subst (HasRoom b) (omega arith) r) in
    let (wd, used, high) = new_message p n w room in
    let inside = use_buf-check_used p n b.free_addr w room (omega arith) (omega arith) in
    (
      stored.valid,
      rw inside,
      wd,
      record {
        used = omega (arith, used);
        contiguous = omega (arith, high);
        bytes = rw stored.mem (load-store b.mem b.free_addr xs (length xs) refl);
      },
    )

restart_lem : (b : Buffer) → IsValid b → (if is_empty b then clear b else some b) ≡ some (restart b)
unfolding clear
restart_lem b v = elim (Bool-cases (is_empty b)) [ inl e ↦ rw (e, magic_ok_lem b v) | inr e ↦ rw e ]

pub restart-IsValid : (b : Buffer) → IsValid b → IsValid (restart b)
restart-IsValid b v = elim (Bool-cases (is_empty b)) [ inl e ↦ rw e (omega arith) | inr e ↦ rw e v ]

code_of-words :
    (n c : ℕ) (xs : Bytes) → code_of (encode 8 n ++ (encode 4 c ++ xs)) ≡ decode (encode 4 c)
unfolding encode
code_of-words n c xs = refl

code_of-wire : (r : Request) → code_of (wire r) ≡ code r
code_of-wire r =
    code_of-words (wire_size r) (code r) (body r)
    ∙ decode-encode 4 (code r) (omega (arith, code-IsInt r))

not_final : (r : Request) → (code r == func_final) ≡ false
not_final (create _ _ _) = refl
not_final (def_dim _ _ _ _) = refl
not_final (def_var _ _ _ _ _ _) = refl
not_final (put_att _ _ _ _ _ _) = refl
not_final (enddef _) = refl
not_final (put_vara _ _ _ _ _ _ _ _) = refl
not_final (close _) = refl

-- A size that an `int` holds is passed on unchanged.
pub int_size_lem : (n : ℕ) → n < 2 ^ 31 → int_to_size_t (n % 2 ^ 32) ≡ n
int_size_lem n h =
    let m : n % 2 ^ 32 ≡ n = mod-eq_of_lt (omega arith) in
    let t : ltb n (2 ^ 31) ≡ true = ground arith in rw (m, t) refl

-- What becomes of a request's bytes when the server's buffer has room for them.
pub accept-wire :
    (rank src : ℕ) (b : Buffer) (r : Request) {c : Buffer}
    → IsValid b
    → wire_size r < 2 ^ 31
    → is_free_space_enough (restart b) (wire_size r) ≡ (enough, c)
    → accept rank src (wire_size r) (wire r) b
      ≡ some (
        ok,
        some (record {
          func_code = code r;
          size = wire_size r;
          addr = c.free_addr;
          src = src;
          dst = rank;
        }),
        use_buf (record c { mem = store c.mem c.free_addr (wire r) }) (wire_size r),
      )
unfolding accept
accept-wire rank src b r {c} v short e =
    let all : take (wire_size r) (wire r) ≡ wire r =
      take-length (wire r) (wire_size r) (sym (length-wire r)) in
    let nonzero : (wire_size r == 0) ≡ false = ground arith in
    let moved : (is_free_space_enough (restart b) (wire_size r)).1 ≡ c = ap (λ p. p.1) e in
    rw (restart_lem b v, int_size_lem (wire_size r) short)
      (let delivered : admit rank src (wire_size r) (wire r) (restart b)
            ≡ some (
              ok,
              some (record {
                func_code = code r;
                size = wire_size r;
                addr = c.free_addr;
                src = src;
                dst = rank;
              }),
              use_buf (record c { mem = store c.mem c.free_addr (wire r) }) (wire_size r),
            ) =
          rw (admit, e, nonzero, code_of-wire r, not_final r, all, moved) in
        delivered)

-- A server that receives the bytes of a well-formed request, fewer than 2 ^ 31, with room for them in
-- the client's valid buffer, queues a message with the sender's number; from that message it unpacks the same
-- request, and the buffer stays valid.
pub accept-delivers :
    (rank src : ℕ) (b : Buffer) (r : Request)
    → IsValid b
    → IsWellFormed r
    → wire_size r < 2 ^ 31
    → (is_free_space_enough (restart b) (wire_size r)).0 ≡ enough
    → (msg : Msg) × (c d : Buffer) × (accept rank src (wire_size r) (wire r) b
        ≡ some (ok, some msg, c))
      × IsValid c
      × (msg.src ≡ src)
      × ((seek msg.addr c >>= (unpack_size_t ▸ (λ size. unpack_request))) ≡ some (r, d))
      × IsValid d
accept-delivers rank src b r v wf short e =
    let c = (is_free_space_enough (restart b) (wire_size r)).1 in
    let n = wire_size r in
    let same : is_free_space_enough (restart b) n ≡ (enough, c) = ap (λ s. (s, c)) e in
    let (room, kept) = enough-HasRoom (restart b) n (restart-IsValid b v) same in
    let l = length-wire r in
    let (vd, sought, ve, found) = seek-stored c (wire r) n (sym l) kept.valid room (omega arith) in
    let small : n < 2 ^ 64 = omega (arith, found.used, l, used-add-free _ ve, ve.fits) in
    let (f, run, t, rest) =
      ▸-Unpacks (λ size. unpack_request) (encode 8 n) (encode 4 (code r) ++ body r) n
        (unpack_size_t-Unpacks n small) (unpack_request-Unpacks r wf)
        (record (use_buf (record c { mem = store c.mem c.free_addr (wire r) }) n) {
          used_addr = c.free_addr;
        })
        [] ve (subst (HasData _) (sym (append-nil (wire r))) found) in
    (
      record { func_code = code r; size = n; addr = c.free_addr; src = src; dst = rank },
      use_buf (record c { mem = store c.mem c.free_addr (wire r) }) n,
      f,
      accept-wire rank src b r v short same,
      vd,
      refl,
      rw sought run,
      t.valid,
    )

-- A client's call that sends a well-formed request of fewer than 2 ^ 31 bytes, shorter than the
-- client's valid buffer, passes every assertion when the callback releases bytes and as many
-- rounds as the buffer has bytes are allowed; and when the bytes that then stand in the client's
-- buffer reach a server whose valid buffer has room, the server queues a message and unpacks from
-- it the same request. All buffers stay valid.
pub forward :
    (fuel : ℕ) (release : Buffer → Buffer) (rank src : ℕ) (client server : Buffer) (r : Request)
    → Releases release
    → IsValid client
    → client.size ≤ fuel
    → IsValid server
    → IsWellFormed r
    → wire_size r < client.size
    → wire_size r < 2 ^ 31
    → (is_free_space_enough (restart server) (wire_size r)).0 ≡ enough
    → (c d : Buffer) × (msg : Msg) × (e f : Buffer) × (send fuel release r client ≡ some d)
      × IsValid d
      × (accept rank src (wire_size r) (load d.mem c.free_addr (wire_size r)) server
          ≡ some (ok, some msg, e))
      × IsValid e
      × ((seek msg.addr e >>= (unpack_size_t ▸ (λ size. unpack_request))) ≡ some (r, f))
      × IsValid f
forward fuel release rank src client server r rel v h w wf fits short room =
    let (c, d, sent, vd, _, _, bytes, _, _) = send-wire fuel release client r rel v h wf fits in
    let (msg, e, f, accepted, ve, _, got, vf) = accept-delivers rank src server r w wf short room in
    (c, d, msg, e, f, sent, vd, rw bytes accepted, ve, got, vf)
