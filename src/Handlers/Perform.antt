-- ===== src/Handlers/Perform.antt =====
-- server/server.c: decode, which unpacks a message and calls the handler of its function code.
use cfio.Prelude.{ℕ, ◌≡◌, refl, Option, some, ◌>>=◌, none, get_elem?, set, arith}
use cfio.Memory.{load}
use cfio.Buffer.{Buffer}
use cfio.Buffer.Pack.{◌▸◌}
use cfio.Map.{Config, get_client_index_of_server}
use cfio.Message.{Request}
use cfio.Message.Wire.{wire_size}
use cfio.Recv.{
  Msg, ok, accept, seek, Receiver, unpack_size_t, unpack_msg_size, unpack_request, get_first,
}
use cfio.Api.Calls.{Arrives}
use cfio.Handlers.{Code, Server, Handled, Setting}
use cfio.Handlers.Define.{create, def_dim, def_var}
use cfio.Handlers.Enddef.{enddef}
use cfio.Handlers.Write.{put_att, put_vara, close}

bind-some :
    {A B : Type 0} (o : Option A) (f : A → Option B) (b : B)
    → (o >>= f) ≡ some b
    → (a : A) × (o ≡ some a) × (f a ≡ some b)
bind-some none f b e = absurd (ground arith)
bind-some (some a) f b e = (a, refl, e)

module _ {T U L : Type 0} (k : Setting T U L) (data_addr total_data : ℕ) where
  -- The handler of an unpacked request.
  abbrev pub perform : ℕ → Request → Server T U L → Handled T U L
  perform src (Request.create path cmode ncid) s = create k path cmode ncid s
  perform src (Request.def_dim ncid name len dimid) s = def_dim k ncid name len dimid s
  perform src (Request.def_var ncid name xtype ndims dimids varid) s =
      def_var k ncid name xtype ndims dimids varid s
  perform src (Request.put_att ncid varid name xtype len op) s =
      put_att k src ncid varid (record { name = name; xtype = xtype; len = len; bytes = op }) s
  perform src (Request.enddef ncid) s = enddef k src ncid s
  perform src (Request.put_vara ncid varid ndims start count data_len fp_type fp) s =
      put_vara k src ncid varid ndims start count fp data_addr total_data s
  perform src (Request.close ncid) s = close k src ncid s

  -- What the handler returns is not looked at. The buffer is that of the message's sender, behind the
  -- message's size.
  unfoldable pub decode_msg : Msg → Buffer → Server T U L → Option (Buffer × Server T U L)
  unfolding unpack_request create def_dim def_var put_att enddef put_vara close
  decode_msg msg b s =
      unpack_request b >>= (λ r. perform msg.src r.0 s >>= (λ done. some (r.1, done.1)))

  -- When the bytes that stand in the client's buffer reach the server, it queues a message, and
  -- decoding this leads to a state of the server.
  pub record Performs (rank src : ℕ) (server client : Buffer) (size : ℕ) (s after : Server T U L)
      : Type 0 where
    pub at : ℕ
    pub msg : Msg
    pub queued : Buffer
    pub msg_size : ℕ
    pub behind_size : Buffer
    pub released : Buffer
    pub accepted :
        accept rank src size (load client.mem at size) server ≡ some (ok, some msg, queued)
    pub size_read : unpack_msg_size msg.addr queued ≡ some (msg_size, behind_size)
    pub decoded : decode_msg msg behind_size s ≡ some (released, after)

  pub Arrives-Performs :
      (rank src : ℕ) (server client : Buffer) (r : Request) (s after : Server T U L)
      (a : Arrives rank src server client r) (code : Code)
      → perform a.msg.src r s ≡ some (code, after)
      → Performs rank src server client (wire_size r) s after
  unfolding decode_msg unpack_msg_size
  Arrives-Performs rank src server client r s after a code e =
      let (b, found, rest) =
        bind-some (seek a.msg.addr a.queued) (unpack_size_t ▸ (λ size. unpack_request))
          (r, a.released) a.unpacked in
      let (n, size_read, run) =
        bind-some (unpack_size_t b) (λ p. unpack_request p.1) (r, a.released) rest in
      record {
        at = a.at;
        msg = a.msg;
        queued = a.queued;
        msg_size = n.0;
        behind_size = n.1;
        released = a.released;
        accepted = a.accepted;
        size_read = rw found size_read;
        decoded = rw (run, e);
      }

  -- The next message is taken off its queue and performed; without one the pointer is a fault.
  unfoldable pub io_msg : Config → Receiver → Server T U L → Option (Receiver × Server T U L)
  unfolding get_first decode_msg
  io_msg c t s = get_first c t >>= (λ first. first.0 >>= (λ msg.
      let i = get_client_index_of_server c msg.src in
      get_elem? first.1.buffer i >>= (λ b.
        decode_msg msg b s
        >>= (λ r. some (record first.1 { buffer = set first.1.buffer i r.0 }, r.1)))))
