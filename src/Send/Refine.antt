-- ===== src/Send/Refine.antt =====
-- client/C/send.c: every call stores exactly its request's bytes, in one piece.
use cfio.Prelude.{
  ℕ, ◌+◌, ◌*◌, ◌%◌, ◌^◌, ◌<◌, ◌≤◌, ◌≡◌, refl, sym, ◌∙◌, subst, ap, Option, some, [], ◌++◌, ◌==◌,
  if◌then◌else◌, inl, inr, length, length-append, arith, Bool-cases,
}
use mathlib.Core.Path.{fun_ext}
use cfio.Memory.{Bytes, encode, load, store}
use cfio.Memory.Laws.{length-encode, load-store}
use cfio.Buffer.{Buffer, limit, IsValid, HasRoom}
use cfio.Buffer.Wait.{Releases, ensure_free_space-HasRoom}
use cfio.Buffer.Pack.{Packer, ◌▹◌, pack_data_array, pack_str}
use cfio.Buffer.Pack.Packs.{
  Packs, ▹-Packs, pack_data-Packs, pack_data_array-Packs, pack_str-Packs, IsCString,
}
use cfio.Message.{
  Request, create, def_dim, def_var, put_att, enddef, put_vara, close, types_size, IsLen,
}
use cfio.Message.Wire.{array, cstring, dims, code, body, wire, wire_size, IsWellFormed}
use cfio.Send.{
  pack_int, pack_size_t, pack_header, pack_elements, skip, ensured, send, send_create, send_def_dim,
  send_def_var, send_put_att, send_enddef, send_put_vara, send_close,
}
use cfio.Send.Sizes.{
  create_size-eq, def_dim_size-eq, def_var_size-eq, put_att_size-eq, enddef_size-eq, close_size-eq,
  put_vara_size-eq,
}

pack_int-Packs : (x : ℕ) → Packs (pack_int x) (encode 4 x)
pack_int-Packs x = pack_data-Packs (encode 4 x) 4 (sym (length-encode 4 x))

pack_size_t-Packs : (x : ℕ) → Packs (pack_size_t x) (encode 8 x)
pack_size_t-Packs x = pack_data-Packs (encode 8 x) 8 (sym (length-encode 8 x))

int▹ : (x : ℕ) {p : Packer} (xs : Bytes) → Packs p xs → Packs (pack_int x ▹ p) (encode 4 x ++ xs)
int▹ x xs f = ▹-Packs (encode 4 x) xs (pack_int-Packs x) f

str▹ :
    (s : Bytes) {p : Packer} (xs : Bytes)
    → IsCString s
    → Packs p xs
    → Packs (pack_str s ▹ p) (cstring s ++ xs)
str▹ s xs h f = ▹-Packs (cstring s) xs (pack_str-Packs s h) f

skip-Packs : Packs skip []
skip-Packs b m v r = (
  b,
  refl,
  record {
    valid = v;
    room = record { free = omega arith; contiguous = omega arith };
    mem = unfold store in refl;
    next = λ _. omega arith;
    used = refl;
    size = refl;
    start = refl;
  },
)

header-Packs :
    (size code : ℕ) {p : Packer} (xs : Bytes)
    → Packs p xs
    → Packs (pack_header size code p) (encode 8 size ++ (encode 4 code ++ xs))
header-Packs size code xs f =
    ▹-Packs (encode 8 size) (encode 4 code ++ xs) (pack_size_t-Packs size) (int▹ code xs f)

-- The part of each function behind the header.
pack_body : Request → Packer
pack_body (create path cmode ncid) = pack_str path ▹ (pack_int cmode ▹ pack_int ncid)
pack_body (def_dim ncid name len dimid) =
    pack_int ncid ▹ (pack_str name ▹ (pack_size_t len ▹ pack_int dimid))
pack_body (def_var ncid name xtype ndims dimids varid) =
    pack_int ncid
    ▹ (pack_str name
        ▹ (pack_int xtype
            ▹ (pack_int ndims
                ▹ ((if ndims == 0 then skip else pack_data_array dimids ndims 4)
                    ▹ pack_int varid))))
pack_body (put_att ncid varid name xtype len op) =
    pack_int ncid
    ▹ (pack_int varid
        ▹ (pack_str name ▹ (pack_int xtype ▹ pack_elements (types_size xtype) op len)))
pack_body (enddef ncid) = pack_int ncid
pack_body (put_vara ncid varid ndims start count data_len fp_type fp) =
    pack_int ncid
    ▹ (pack_int varid
        ▹ (pack_data_array start ndims 8
            ▹ (pack_data_array count ndims 8
                ▹ (pack_int fp_type ▹ pack_elements (types_size fp_type) fp data_len))))
pack_body (close ncid) = pack_int ncid

pack_elements-Packs :
    (xs : Bytes) (len size : ℕ) {elem : Option ℕ}
    → elem ≡ some size
    → IsLen len
    → len * size ≡ length xs
    → Packs (pack_elements elem xs len) (array len xs)
pack_elements-Packs xs len size e l h =
    let small : len % 2 ^ 32 ≡ len = omega arith in
    rw (e, small) (pack_data_array-Packs xs len size l h)

dims-Packs :
    (ndims : ℕ) (xs : Bytes)
    → IsLen ndims
    → ndims * 4 ≡ length xs
    → Packs (if ndims == 0 then skip else pack_data_array xs ndims 4) (dims ndims xs)
dims-Packs ndims xs l e = elim (Bool-cases (ndims == 0)) [
  | inl z ↦ rw z skip-Packs
  | inr z ↦ rw z (pack_data_array-Packs xs ndims 4 l e)
]

pack_body-Packs : (r : Request) → IsWellFormed r → Packs (pack_body r) (body r)
unfolding pack_body
pack_body-Packs (create path cmode ncid) (s, c, n) =
    str▹ path (encode 4 cmode ++ encode 4 ncid) s (int▹ cmode (encode 4 ncid) (pack_int-Packs ncid))
pack_body-Packs (def_dim ncid name len dimid) (n, s, l, d) = int▹ ncid _ (
    str▹ name _ s
      (▹-Packs (encode 8 len) (encode 4 dimid) (pack_size_t-Packs len) (pack_int-Packs dimid)))
pack_body-Packs (def_var ncid name xtype ndims dimids varid) (n, s, x, l, e, v) = int▹ ncid _ (
    str▹ name _ s (
      int▹ xtype _ (
        int▹ ndims _ (
          ▹-Packs (dims ndims dimids) (encode 4 varid) (dims-Packs ndims dimids l e)
            (pack_int-Packs varid)))))
pack_body-Packs (put_att ncid varid name xtype len op) (n, v, s, x, l, (size, t, e)) = int▹ ncid _ (
    int▹ varid _
      (str▹ name _ s (int▹ xtype (array len op) (pack_elements-Packs op len size t l e))))
pack_body-Packs (enddef ncid) n = pack_int-Packs ncid
pack_body-Packs (put_vara ncid varid ndims start count data_len fp_type fp)
      (n, v, l, es, ec, dl, vol, t, (size, ts, ef)) =
    int▹ ncid _ (
      int▹ varid _ (
        ▹-Packs (array ndims start) _ (pack_data_array-Packs start ndims 8 l es) (
          ▹-Packs (array ndims count) _ (pack_data_array-Packs count ndims 8 l ec)
            (int▹ fp_type (array data_len fp) (pack_elements-Packs fp data_len size ts dl ef)))))
pack_body-Packs (close ncid) n = pack_int-Packs ncid

module _ (fuel : ℕ) (release : Buffer → Buffer) where
  -- Every call is the common shape: reserve the request's size, pack header and body.
  send-ensured :
      (r : Request)
      → IsWellFormed r
      → wire_size r < 2 ^ 63
      → send fuel release r
        ≡ ensured fuel release (wire_size r) (pack_header (wire_size r) (code r) (pack_body r))
  unfolding send send_create send_def_dim send_def_var send_put_att send_enddef send_put_vara
      send_close pack_body
  send-ensured (create path cmode ncid) (s, c, n) h = rw (create_size-eq path cmode ncid s h)
  send-ensured (def_dim ncid name len dimid) (n, s, l, d) h =
      rw (def_dim_size-eq ncid name len dimid s h)
  send-ensured (def_var ncid name xtype ndims dimids varid) (n, s, x, l, e, v) h =
      rw (def_var_size-eq ncid name xtype ndims dimids varid s l e h)
  send-ensured (put_att ncid varid name xtype len op) (n, v, s, x, l, (size, t, e)) h =
      fun_ext λ b. rw (t, put_att_size-eq ncid varid name xtype len op size s e h)
  send-ensured (enddef ncid) n h = rw (enddef_size-eq ncid)
  send-ensured (put_vara ncid varid ndims start count data_len fp_type fp)
        (n, v, l, es, ec, dl, vol, t, (size, ts, ef)) h =
      rw (
        ts,
        vol,
        put_vara_size-eq ncid varid ndims start count data_len fp_type fp size l es ec ef h,
      )
  send-ensured (close ncid) n h = rw (close_size-eq ncid)

pub length-wire : (r : Request) → length (wire r) ≡ wire_size r
length-wire r = omega (
  arith,
  length-append (encode 8 (wire_size r)) (encode 4 (code r) ++ body r),
  length-append (encode 4 (code r)) (body r),
  length-encode 8 (wire_size r),
  length-encode 4 (code r),
)

-- A call that sends a well-formed request, shorter than the valid buffer, passes every assertion
-- when the callback releases bytes and as many rounds as the buffer has bytes are allowed; it
-- stores the bytes of the request's layout in one piece inside the buffer, and nothing else, and
-- leaves the buffer valid.
pub send-wire :
    (fuel : ℕ) (release : Buffer → Buffer) (b : Buffer) (r : Request)
    → Releases release
    → IsValid b
    → b.size ≤ fuel
    → IsWellFormed r
    → wire_size r < b.size
    → (c d : Buffer) × (send fuel release r b ≡ some d)
      × IsValid d
      × (c.mem ≡ b.mem)
      × (d.mem ≡ store b.mem c.free_addr (wire r))
      × (load d.mem c.free_addr (wire_size r) ≡ wire r)
      × (d.start_addr ≤ c.free_addr)
      × (c.free_addr + wire_size r ≤ limit d)
send-wire fuel release b r rel v f wf h =
    let (c, run, w, room, mem) = ensure_free_space-HasRoom release rel fuel b (wire_size r) v h f in
    let l = length-wire r in
    let (d, run', p) =
      header-Packs (wire_size r) (code r) (body r) (pack_body-Packs r wf) c 0 w
        (subst (HasRoom c) (omega (arith, l)) room) in
    let stored = p.mem ∙ ap (λ m. store m c.free_addr (wire r)) mem in
    (
      c,
      d,
      rw (send-ensured fuel release r wf (omega arith), run) run',
      p.valid,
      mem,
      stored,
      rw stored (load-store b.mem c.free_addr (wire r) (wire_size r) (sym l)),
      omega (arith, p.start, w.free_low),
      omega (arith, p.start, p.size, room.contiguous),
    )
