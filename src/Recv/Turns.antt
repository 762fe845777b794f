-- ===== src/Recv/Turns.antt =====
-- server/recv.c: the queues of messages, and whose turn it is.
use cfio.Prelude.{
  ℕ, zero, suc, ◌+◌, ◌%◌, ◌^◌, ◌<◌, ◌≡◌, refl, sym, ap, subst, true, some, List, [], ◌∷◌, ◌++◌,
  append-nil, ◌==◌, ==_iff, get_elem?, set, arith,
}
use cfio.Memory.{encode, store}
use cfio.Buffer.{Buffer, enough, is_free_space_enough, use_buf, IsValid}
use cfio.Buffer.Room.{enough-HasRoom, used-add-free}
use cfio.Buffer.Retry.{restart}
use cfio.Buffer.Pack.Unpacks.{HasData}
use cfio.Map.{Config, get_client_index_of_server}
use cfio.Message.{Request}
use cfio.Message.Wire.{code, body, wire, wire_size, IsWellFormed}
use cfio.Send.Refine.{length-wire}
use cfio.Recv.{
  Msg, Receiver, ok, accept, enqueue, add_msg, unpack_msg_size, unpack_request, split_first,
  take_first, get_first,
}
use cfio.Recv.Decode.{unpack_size_t-Unpacks, unpack_request-Unpacks}
use cfio.Recv.Forward.{accept-wire, seek-stored, restart-IsValid}

get_elem?-set :
    {A : Type 0} (xs : List A) (i : ℕ) (u v : A)
    → get_elem? xs i ≡ some u
    → get_elem? (set xs i v) i ≡ some v
get_elem?-set [] i u v h = absurd (ground arith)
get_elem?-set (x ∷ xs) zero u v h = refl
get_elem?-set (x ∷ xs) (suc i) u v h = get_elem?-set xs i u v h

-- The message that a request becomes in a buffer with room for it, and what its reader finds.
accepted_message :
    (rank src : ℕ) (b : Buffer) (r : Request)
    → IsValid b
    → IsWellFormed r
    → wire_size r < 2 ^ 31
    → (is_free_space_enough (restart b) (wire_size r)).0 ≡ enough
    → (addr : ℕ) × (c e f : Buffer) × (accept rank src (wire_size r) (wire r) b
        ≡ some (
          ok,
          some (record {
            func_code = code r;
            size = wire_size r;
            addr = addr;
            src = src;
            dst = rank;
          }),
          c,
        ))
      × (unpack_msg_size addr c ≡ some (wire_size r, e))
      × (unpack_request e ≡ some (r, f))
unfolding unpack_msg_size
accepted_message rank src b r v wf short e =
    let c = (is_free_space_enough (restart b) (wire_size r)).1 in
    let n = wire_size r in
    let same : is_free_space_enough (restart b) n ≡ (enough, c) = ap (λ s. (s, c)) e in
    let (room, kept) = enough-HasRoom (restart b) n (restart-IsValid b v) same in
    let l = length-wire r in
    let (vd, sought, ve, found) = seek-stored c (wire r) n (sym l) kept.valid room (omega arith) in
    let small : n < 2 ^ 64 = omega (arith, found.used, l, used-add-free _ ve, ve.fits) in
    let (g, size_read, t, rest) =
      unpack_size_t-Unpacks n small _ (encode 4 (code r) ++ body r) ve found in
    let (f, run, _, _) =
      unpack_request-Unpacks r wf g [] t.valid
        (subst (HasData g) (sym (append-nil (encode 4 (code r) ++ body r))) rest) in
    (
      c.free_addr,
      use_buf (record c { mem = store c.mem c.free_addr (wire r) }) n,
      g,
      f,
      accept-wire rank src b r v short same,
      rw sought size_read,
      run,
    )

enqueue_lem :
    (queues : List (List Msg)) (i : ℕ) (q : List Msg) (m : Msg)
    → get_elem? queues i ≡ some q
    → enqueue queues i (some m) ≡ set queues i (q ++ (m ∷ []))
enqueue_lem queues i q m h = rw (enqueue, h)

module _ (c : Config) where
  add_msg_lem :
      (src size : ℕ) (xs : List ℕ) (s : Receiver) (b d : Buffer) (q : List Msg) (m : Msg)
      → get_elem? s.buffer (get_client_index_of_server c src) ≡ some b
      → get_elem? s.msg_head (get_client_index_of_server c src) ≡ some q
      → accept s.rank src size xs b ≡ some (ok, some m, d)
      → add_msg c src size xs s
        ≡ some (
          ok,
          record s {
            buffer = set s.buffer (get_client_index_of_server c src) d;
            msg_head = set s.msg_head (get_client_index_of_server c src) (q ++ (m ∷ []));
          },
        )
  unfolding add_msg
  add_msg_lem src size xs s b d q m hb hq run =
      let i = get_client_index_of_server c src in
      rw (add_msg, hb, run)
        (ap (λ qs. some (ok, record s { buffer = set s.buffer i d; msg_head = qs }))
          (enqueue_lem s.msg_head i q m hq))

  get_first_lem :
      (s : Receiver) (b e : Buffer) (m : Msg) (rest : List Msg)
      → get_elem? s.msg_head s.client_get_index ≡ some (m ∷ rest)
      → get_elem? s.buffer (get_client_index_of_server c m.src) ≡ some b
      → unpack_msg_size m.addr b ≡ some (m.size, e)
      → get_first c s
        ≡ some (
          some m,
          record s {
            client_get_index = (s.client_get_index + 1) % s.client_num;
            buffer = set s.buffer (get_client_index_of_server c m.src) e;
            msg_head = set s.msg_head s.client_get_index rest;
          },
        )
  unfolding get_first split_first
  get_first_lem s b e m rest hq hb run =
      let whole : (m.size == m.size) ≡ true = (==_iff m.size m.size).1 refl in
      rw (get_first, hq, take_first, hb, run, split_first, whole)

  -- When a client whose queue is empty has the turn, and its valid buffer has room for a well-
  -- formed request of fewer than 2 ^ 31 bytes, cfio_recv_add_msg accepts the request's bytes, and
  -- cfio_recv_get_first then returns a message from that client, leaves its queue empty and passes
  -- the turn on; what the client's buffer then offers for unpacking is that request.
  pub get_first-add_msg :
      (s : Receiver) (src : ℕ) (r : Request) (b : Buffer)
      → get_elem? s.buffer (get_client_index_of_server c src) ≡ some b
      → get_elem? s.msg_head (get_client_index_of_server c src) ≡ some []
      → s.client_get_index ≡ get_client_index_of_server c src
      → IsValid b
      → IsWellFormed r
      → wire_size r < 2 ^ 31
      → (is_free_space_enough (restart b) (wire_size r)).0 ≡ enough
      → (m : Msg) × (t u : Receiver) × (e f : Buffer) × (add_msg c src (wire_size r) (wire r) s
          ≡ some (ok, t))
        × (get_first c t ≡ some (some m, u))
        × (m.src ≡ src)
        × (u.client_get_index ≡ (s.client_get_index + 1) % s.client_num)
        × (get_elem? u.msg_head s.client_get_index ≡ some [])
        × (get_elem? u.buffer (get_client_index_of_server c src) ≡ some e)
        × (unpack_request e ≡ some (r, f))
  get_first-add_msg s src r b hb hq turn v wf short room =
      let (addr, d, e, f, accepted, size_read, run) =
        accepted_message s.rank src b r v wf short room in
      let i = get_client_index_of_server c src in
      let m : Msg = record {
        func_code = code r;
        size = wire_size r;
        addr = addr;
        src = src;
        dst = s.rank;
      } in
      let t : Receiver = record s {
        buffer = set s.buffer i d;
        msg_head = set s.msg_head i (m ∷ []);
      } in
      let queued : get_elem? t.msg_head t.client_get_index ≡ some (m ∷ []) =
        rw turn (get_elem?-set s.msg_head i [] (m ∷ []) hq) in
      let held : get_elem? t.buffer i ≡ some d = get_elem?-set s.buffer i b d hb in
      (
        m,
        t,
        _,
        e,
        f,
        add_msg_lem src (wire_size r) (wire r) s b d [] m hb hq accepted,
        get_first_lem t d e m [] queued held size_read,
        refl,
        refl,
        get_elem?-set t.msg_head s.client_get_index (m ∷ []) [] queued,
        get_elem?-set t.buffer i d e held,
        run,
      )
