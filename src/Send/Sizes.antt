-- ===== src/Send/Sizes.antt =====
-- client/C/send.c: the size that each function computes is the length of what it packs.
use cfio.Prelude.{
  ℕ, ◌+◌, ◌*◌, ◌^◌, ◌<◌, ◌≡◌, true, some, ◌==◌, inl, inr, ltb, if◌then◌else◌, length, length-append,
  arith, Bool-cases,
}
use cfio.Memory.{Bytes, encode}
use cfio.Memory.Laws.{length-encode}
use cfio.Buffer.Pack.{strlen}
use cfio.Buffer.Pack.Packs.{IsCString}
use cfio.Message.{create, def_dim, def_var, put_att, enddef, put_vara, close, IsLen}
use cfio.Message.Wire.{array, cstring, dims, wire_size}
use cfio.Send.{create_size, def_dim_size, def_var_size, put_att_size, ncid_size, put_vara_size}

pub length-array : (len : ℕ) (xs : Bytes) → length (array len xs) ≡ 4 + length xs
length-array len xs = omega (arith, length-append (encode 4 len) xs, length-encode 4 len)

pub length-cstring : (s : Bytes) → IsCString s → length (cstring s) ≡ 4 + (strlen s + 1)
length-cstring s h = omega (arith, length-array (strlen s + 1) s, h.ends)

pub length-dims :
    (ndims : ℕ) (xs : Bytes)
    → ndims * 4 ≡ length xs
    → length (dims ndims xs) ≡ (if ndims == 0 then 0 else ndims * 4 + 4)
length-dims ndims xs e = elim (Bool-cases (ndims == 0)) [
  | inl h ↦ rw h
  | inr h ↦ rw h (omega (arith, length-array ndims xs))
]

ruleset lengths = (length-append, length-encode)

module _ (path : Bytes) (cmode ncid : ℕ) where
  pub create_size-eq :
      IsCString path
      → wire_size (create path cmode ncid) < 2 ^ 63
      → create_size path ≡ wire_size (create path cmode ncid)
  create_size-eq s h = simp lengths (omega (arith, s.ends, simp lengths at h))

module _ (ncid : ℕ) (name : Bytes) (len dimid : ℕ) where
  pub def_dim_size-eq :
      IsCString name
      → wire_size (def_dim ncid name len dimid) < 2 ^ 63
      → def_dim_size name ≡ wire_size (def_dim ncid name len dimid)
  def_dim_size-eq s h = simp lengths (omega (arith, s.ends, simp lengths at h))

module _ (ncid : ℕ) (name : Bytes) (xtype ndims : ℕ) (dimids : Bytes) (varid : ℕ) where
  pub def_var_size-eq :
      IsCString name
      → IsLen ndims
      → ndims * 4 ≡ length dimids
      → wire_size (def_var ncid name xtype ndims dimids varid) < 2 ^ 63
      → def_var_size name ndims ≡ wire_size (def_var ncid name xtype ndims dimids varid)
  def_var_size-eq s l e h = elim (Bool-cases (ndims == 0)) [
    | inl z ↦ rw z (simp lengths (omega (arith, s.ends)))
    | inr z ↦
        let t : ltb ndims (2 ^ 31) ≡ true = ground arith in
        let big = rw z at h in rw (z, t) (simp lengths (omega (arith, s.ends, simp lengths at big)))
  ]

module _ (ncid varid : ℕ) (name : Bytes) (xtype len : ℕ) (op : Bytes) where
  pub put_att_size-eq :
      (size : ℕ)
      → IsCString name
      → len * size ≡ length op
      → wire_size (put_att ncid varid name xtype len op) < 2 ^ 63
      → put_att_size name len size ≡ wire_size (put_att ncid varid name xtype len op)
  put_att_size-eq size s e h = simp lengths (omega (arith, s.ends, simp lengths at h))

pub enddef_size-eq : (ncid : ℕ) → ncid_size ≡ wire_size (enddef ncid)
enddef_size-eq ncid = omega (arith, length-encode 4 ncid)

pub close_size-eq : (ncid : ℕ) → ncid_size ≡ wire_size (close ncid)
close_size-eq ncid = omega (arith, length-encode 4 ncid)

module _ (ncid varid ndims : ℕ) (start count : Bytes) (data_len fp_type : ℕ) (fp : Bytes) where
  pub put_vara_size-eq :
      (size : ℕ)
      → IsLen ndims
      → ndims * 8 ≡ length start
      → ndims * 8 ≡ length count
      → data_len * size ≡ length fp
      → wire_size (put_vara ncid varid ndims start count data_len fp_type fp) < 2 ^ 63
      → put_vara_size ndims data_len (some size)
        ≡ wire_size (put_vara ncid varid ndims start count data_len fp_type fp)
  put_vara_size-eq size l es ec ef h =
      let t : ltb ndims (2 ^ 31) ≡ true = ground arith in
      rw t (simp lengths (omega (arith, simp lengths at h)))
