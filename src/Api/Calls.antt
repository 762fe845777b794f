-- ===== src/Api/Calls.antt =====
-- client/C/cfio.c: the request of a call reaches the server with the ids that the call returns.
use cfio.Prelude.{ℕ, ◌+◌, ◌^◌, ◌≡◌, ◌≢◌, ◌<◌, ◌≤◌, refl, true, none, some, List, ◌>>=◌}
use cfio.Memory.{Bytes, load}
use cfio.Table.{HashTable, search, IsSingle}
use cfio.Buffer.{Buffer, IsValid, enough, is_free_space_enough}
use cfio.Buffer.Retry.{restart}
use cfio.Buffer.Wait.{Releases}
use cfio.Buffer.Pack.{◌▸◌}
use cfio.Id.{Key, Val, Ids, done, nc_no_exist, nc_key, var_key, global_name, assign_dim, assign_var}
use cfio.Id.Inquire.{assign_att}
use cfio.Id.Remove.{Excludes, remove_nc_inq}
use cfio.Id.Open.{assign_nc_inq}
use cfio.Id.Named.{assign_dim-inq, assign_var-inq}
use cfio.Message.{Request}
use cfio.Message.Wire.{wire_size, IsWellFormed}
use cfio.Send.{send}
use cfio.Recv.{Msg, ok, accept, seek, unpack_size_t, unpack_request}
use cfio.Recv.Forward.{forward}
use cfio.Api.{Client, ints, create, def_dim, def_var, put_att, close, inq_dimid, inq_varid}

-- When the bytes of the request that stand in the client's buffer reach the server, it queues a message
-- and unpacks this request from it.
pub record Arrives (rank src : ℕ) (server client : Buffer) (r : Request) : Type 0 where
  pub at : ℕ
  pub msg : Msg
  pub queued : Buffer
  pub released : Buffer
  pub accepted :
      accept rank src (wire_size r) (load client.mem at (wire_size r)) server
      ≡ some (ok, some msg, queued)
  pub unpacked :
      (seek msg.addr queued >>= (unpack_size_t ▸ (λ size. unpack_request))) ≡ some (r, released)

-- A server and a client between which the request can go.
pub record Ready (fuel : ℕ) (release : Buffer → Buffer) (client server : Buffer) (r : Request)
    : Type 0 where
  pub releases : Releases release
  pub valid : IsValid client
  pub rounds : client.size ≤ fuel
  pub server_valid : IsValid server
  pub well_formed : IsWellFormed r
  pub fits : wire_size r < client.size
  pub small : wire_size r < 2 ^ 31
  pub room : (is_free_space_enough (restart server) (wire_size r)).0 ≡ enough

module _ (fuel : ℕ) (release : Buffer → Buffer) (rank src : ℕ) (server : Buffer) where
  pub send-Arrives :
      (b : Buffer) (r : Request)
      → Ready fuel release b server r
      → (d : Buffer) × (send fuel release r b ≡ some d) × IsValid d × Arrives rank src server d r
  send-Arrives b r y =
      let (c, d, msg, e, f, sent, vd, acc, _, got, _) =
        forward fuel release rank src b server r y.releases y.valid y.rounds y.server_valid
          y.well_formed y.fits y.small y.room in
      (
        d,
        sent,
        vd,
        record {
          at = c.free_addr;
          msg = msg;
          queued = e;
          released = f;
          accepted = acc;
          unpacked = got;
        },
      )

  module _ {T : Type 0} (h : HashTable Key Val T) (nc_global : ℕ) where
    -- When the file's ids give a dimension's name an id, cfio_def_dim returns that id, when the
    -- client's valid buffer is longer than the well-formed request, its callback releases bytes,
    -- as many rounds as it has bytes are allowed, and the server's valid buffer has room; the file
    -- then finds the dimension by its name with that id, the client's buffer is valid, and the
    -- server unpacks from the request's bytes the definition of this dimension with the same id.
    pub def_dim-Arrives :
        (s : Client T) (ncid : ℕ) (name : Bytes) (len id : ℕ) (t : Ids T)
        → assign_dim h nc_global s.ids ncid name ≡ (done id, t)
        → Ready fuel release s.buffer server (Request.def_dim ncid name len id)
        → (u : Client T) × (def_dim h nc_global fuel release ncid (some name) len true s
            ≡ some (done id, u))
          × (inq_dimid h nc_global fuel release ncid name u ≡ done id)
          × IsValid u.buffer
          × Arrives rank src server u.buffer (Request.def_dim ncid name len id)
    unfolding def_dim send
    def_dim-Arrives s ncid name len id t e y =
        let (d, sent, vd, a) = send-Arrives s.buffer (Request.def_dim ncid name len id) y in
        (
          record { ids = t; buffer = d },
          rw (e, sent) refl,
          assign_dim-inq h nc_global s.ids ncid name id t e,
          vd,
          a,
        )

    -- When the file's ids give a variable's name an id that is not zero, cfio_def_var returns that
    -- id, when the client's valid buffer is longer than the well-formed request, its callback
    -- releases bytes, as many rounds as it has bytes are allowed, and the server's valid buffer
    -- has room; the file then finds the variable by its name with that id, the client's buffer is
    -- valid, and the server unpacks from the request's bytes the definition of this variable with
    -- the same id.
    pub def_var-Arrives :
        (s : Client T) (ncid : ℕ) (name : Bytes) (xtype ndims : ℕ) (dimids : List ℕ) (id : ℕ)
        (t : Ids T)
        → assign_var h nc_global s.ids ncid name ndims dimids ≡ (done id, t)
        → id ≢ 0
        → Ready fuel release s.buffer server
            (Request.def_var ncid name xtype ndims (ints dimids) id)
        → (u : Client T) × (def_var h nc_global fuel release ncid
              (some name)
              xtype
              ndims
              dimids
              true
              s
            ≡ some (done id, u))
          × (inq_varid h nc_global fuel release ncid name u ≡ done id)
          × IsValid u.buffer
          × Arrives rank src server u.buffer
              (Request.def_var ncid name xtype ndims (ints dimids) id)
    unfolding def_var send
    def_var-Arrives s ncid name xtype ndims dimids id t e nz y =
        let (d, sent, vd, a) =
          send-Arrives s.buffer (Request.def_var ncid name xtype ndims (ints dimids) id) y in
        (
          record { ids = t; buffer = d },
          rw (e, sent) refl,
          assign_var-inq h nc_global s.ids ncid name ndims dimids id t nz e,
          vd,
          a,
        )

    -- When NC_GLOBAL is not zero and neither the next file's key nor that of its global attributes
    -- is in the table, cfio_create returns the next number, when the client's valid buffer is
    -- longer than the well-formed request, which has fewer than 2 ^ 31 bytes, its callback
    -- releases bytes, as many rounds as it has bytes are allowed, and the server's valid buffer
    -- has room; the file then has the variable "NC_GLOBAL" with the id NC_GLOBAL, the client's
    -- buffer is valid, and the server unpacks the creation of the file with that number.
    pub create-Arrives :
        (s : Client T) (path : Bytes) (cmode : ℕ)
        → nc_global ≢ 0
        → search h s.ids.assign_table (nc_key (s.ids.open_nc_a + 1)) ≡ none
        → search h s.ids.assign_table (var_key (s.ids.open_nc_a + 1) nc_global) ≡ none
        → Ready fuel release s.buffer server (Request.create path cmode (s.ids.open_nc_a + 1))
        → let ncid = s.ids.open_nc_a + 1 in
          (u : Client T) × (create h nc_global fuel release (some path) cmode true s
            ≡ some (done ncid, u))
          × (inq_varid h nc_global fuel release ncid global_name u ≡ done nc_global)
          × IsValid u.buffer
          × Arrives rank src server u.buffer (Request.create path cmode ncid)
    unfolding create send
    create-Arrives s path cmode nz free unused y =
        let ncid = s.ids.open_nc_a + 1 in
        let (t, e, named, _) = assign_nc_inq h nc_global s.ids nz free unused in
        let (d, sent, vd, a) = send-Arrives s.buffer (Request.create path cmode ncid) y in
        (record { ids = t; buffer = d }, rw (e, sent) refl, named, vd, a)

    -- When a file is in the table once, and none of its variables has the file's own key,
    -- cfio_close succeeds, when the client's valid buffer is longer than the well-formed request,
    -- which has fewer than 2 ^ 31 bytes, its callback releases bytes, as many rounds as it has
    -- bytes are allowed, and the server's valid buffer has room; the file's names are then not
    -- found, closing it again is an error that sends nothing, the client's buffer is valid, and
    -- the server unpacks the closing of the file.
    pub close-Arrives :
        (s : Client T) (ncid : ℕ) (val : Val) (name : Bytes)
        → search h s.ids.assign_table (nc_key ncid) ≡ some val
        → IsSingle (h.entries s.ids.assign_table (nc_key ncid))
        → Excludes val.link (nc_key ncid)
        → Ready fuel release s.buffer server (Request.close ncid)
        → (u : Client T) × (close h nc_global fuel release ncid s ≡ some (done 0, u))
          × (inq_dimid h nc_global fuel release ncid name u ≡ nc_no_exist)
          × (inq_varid h nc_global fuel release ncid name u ≡ nc_no_exist)
          × (close h nc_global fuel release ncid u ≡ some (nc_no_exist, u))
          × IsValid u.buffer
          × Arrives rank src server u.buffer (Request.close ncid)
    unfolding close send
    close-Arrives s ncid val name open_nc one x y =
        let (t, e, dim, var, again) = remove_nc_inq h s.ids ncid val name open_nc one x in
        let (d, sent, vd, a) = send-Arrives s.buffer (Request.close ncid) y in
        (record { ids = t; buffer = d }, rw (e, sent) refl, dim, var, rw again refl, vd, a)

    -- For a variable that is not in the table cfio_put_att returns CFIO_ERROR_NONE and changes no
    -- ids, when the client's valid buffer is longer than the well-formed request, which has fewer
    -- than 2 ^ 31 bytes, its callback releases bytes, as many rounds as it has bytes are allowed,
    -- and the server's valid buffer has room; the server unpacks the request for the attribute all
    -- the same.
    pub put_att-Arrives_unknown :
        (s : Client T) (ncid varid : ℕ) (name : Bytes) (xtype len : ℕ) (op : Bytes)
        → search h s.ids.assign_table (var_key ncid varid) ≡ none
        → Ready fuel release s.buffer server (Request.put_att ncid varid name xtype len op)
        → (u : Client T) × (put_att h nc_global fuel release ncid varid name xtype len op s
            ≡ some (done 0, u))
          × (u.ids ≡ s.ids)
          × Arrives rank src server u.buffer (Request.put_att ncid varid name xtype len op)
    unfolding put_att send assign_att
    put_att-Arrives_unknown s ncid varid name xtype len op e y =
        let (d, sent, vd, a) =
          send-Arrives s.buffer (Request.put_att ncid varid name xtype len op) y in
        (record s { buffer = d }, rw (assign_att, e, sent) refl, refl, a)
