-- ===== src/Recv/Decode.antt =====
-- server/recv.c: a server reads back the request that the bytes stand for.
use cfio.Prelude.{
  ℕ, ◌*◌, ◌^◌, ◌<◌, ◌≡◌, sym, ◌∙◌, ap, inl, inr, Option, some, [], ◌++◌, ◌==◌, length, arith,
  Bool-cases,
}
use cfio.Memory.{Bytes, encode, decode}
use cfio.Memory.Laws.{length-encode, decode-encode}
use cfio.Buffer.{Buffer, IsValid}
use cfio.Buffer.Pack.{Unpacker, ◌▸◌, return, unpack_data, unpack_data_array, unpack_str}
use cfio.Buffer.Pack.Packs.{IsCString}
use cfio.Buffer.Pack.Unpacks.{
  Unpacks, HasData, Taken, ▸-Unpacks, last-Unpacks, return-Unpacks, unpack_data-Unpacks,
  unpack_data_array-Unpacks, unpack_str-Unpacks, nil_of_length,
}
use cfio.Message.{Request, create, def_dim, def_var, put_att, enddef, put_vara, close, IsInt, IsLen}
use cfio.Message.Wire.{array, cstring, dims, code, body, IsWellFormed}
use cfio.Recv.{
  unpack_int, unpack_size_t, unpack_create, unpack_def_dim, unpack_def_var, unpack_put_att,
  unpack_enddef, unpack_put_vara, unpack_close, unpack_dims, unpack_elements, unpack_body,
  unpack_request,
}

unpack_word :
    (w x : ℕ)
    → x < 256 ^ w
    → Unpacks (unpack_data w ▸ (λ bytes. return (decode bytes))) (encode w x) x
unpack_word w x h b ys v d =
    let (c, run, t, rest) =
      last-Unpacks decode (encode w x) (encode w x)
        (unpack_data-Unpacks (encode w x) w (sym (length-encode w x))) b ys v d in
    (c, run ∙ ap (λ n. some (n, c)) (decode-encode w x h), t, rest)

pub unpack_int-Unpacks : (x : ℕ) → IsInt x → Unpacks unpack_int (encode 4 x) x
unfolding unpack_int
unpack_int-Unpacks x h = unpack_word 4 x (omega arith)

pub unpack_size_t-Unpacks : (x : ℕ) → x < 2 ^ 64 → Unpacks unpack_size_t (encode 8 x) x
unfolding unpack_size_t
unpack_size_t-Unpacks x h = unpack_word 8 x (omega arith)

int▸ :
    {A : Type 0} (x : ℕ) (f : ℕ → Unpacker A) (xs : Bytes) {r : A}
    → IsInt x
    → Unpacks (f x) xs r
    → Unpacks (unpack_int ▸ f) (encode 4 x ++ xs) r
int▸ x f xs h g = ▸-Unpacks f (encode 4 x) xs x (unpack_int-Unpacks x h) g

str▸ :
    {A : Type 0} (s : Bytes) (f : Bytes → Unpacker A) (xs : Bytes) {r : A}
    → IsCString s
    → Unpacks (f s) xs r
    → Unpacks (unpack_str ▸ f) (cstring s ++ xs) r
str▸ s f xs h g = ▸-Unpacks f (cstring s) xs s (unpack_str-Unpacks s h) g

array▸ :
    {A : Type 0} (len size : ℕ) (a : Bytes) (f : ℕ × Bytes → Unpacker A) (xs : Bytes) {r : A}
    → IsLen len
    → len * size ≡ length a
    → Unpacks (f (len, a)) xs r
    → Unpacks (unpack_data_array size ▸ f) (array len a ++ xs) r
array▸ len size a f xs l e g =
    ▸-Unpacks f (array len a) xs (len, a) (unpack_data_array-Unpacks a len size l e) g

last_int :
    {A : Type 0} (x : ℕ) (f : ℕ → A)
    → IsInt x
    → Unpacks (unpack_int ▸ (λ n. return (f n))) (encode 4 x) (f x)
last_int x f h = last-Unpacks f (encode 4 x) x (unpack_int-Unpacks x h)

elements-Unpacks :
    (len size : ℕ) (xs : Bytes) {elem : Option ℕ}
    → elem ≡ some size
    → IsLen len
    → len * size ≡ length xs
    → Unpacks (unpack_elements elem) (array len xs) (len, xs)
elements-Unpacks len size xs e l h = rw e (unpack_data_array-Unpacks xs len size l h)

-- The array of dimensions is left out when it is empty.
dims-Unpacks :
    (ndims : ℕ) (xs : Bytes)
    → IsLen ndims
    → ndims * 4 ≡ length xs
    → Unpacks (unpack_dims ndims) (dims ndims xs) (ndims, xs)
dims-Unpacks ndims xs l e = elim (Bool-cases (ndims == 0)) [
  | inl z ↦ rw (z, nil_of_length xs (ground arith)) (return-Unpacks (ndims, []))
  | inr z ↦ rw z (unpack_data_array-Unpacks xs ndims 4 l e)
]

pub unpack_body-Unpacks : (r : Request) → IsWellFormed r → Unpacks (unpack_body (code r)) (body r) r
unfolding unpack_create unpack_def_dim unpack_def_var unpack_put_att unpack_enddef unpack_put_vara
    unpack_close
unpack_body-Unpacks (create path cmode ncid) (s, c, n) =
    str▸ path _ (encode 4 cmode ++ encode 4 ncid) s
      (int▸ cmode _ (encode 4 ncid) c (last_int ncid (λ n. create path cmode n) n))
unpack_body-Unpacks (def_dim ncid name len dimid) (n, s, l, d) =
    int▸ ncid _ (cstring name ++ (encode 8 len ++ encode 4 dimid)) n (
      str▸ name _ (encode 8 len ++ encode 4 dimid) s (
        ▸-Unpacks _ (encode 8 len) (encode 4 dimid) len (unpack_size_t-Unpacks len l)
          (last_int dimid (λ i. def_dim ncid name len i) d)))
unpack_body-Unpacks (def_var ncid name xtype ndims dimids varid) (n, s, x, l, e, v) =
    int▸ ncid _ _ n (
      str▸ name _ _ s (
        int▸ xtype _ _ x (
          int▸ ndims _ (dims ndims dimids ++ encode 4 varid) (omega arith) (
            ▸-Unpacks _ (dims ndims dimids) (encode 4 varid) (ndims, dimids)
              (dims-Unpacks ndims dimids l e)
              (last_int varid (λ i. def_var ncid name xtype ndims dimids i) v)))))
unpack_body-Unpacks (put_att ncid varid name xtype len op) (n, v, s, x, l, (size, t, e)) =
    int▸ ncid _ _ n (
      int▸ varid _ _ v (
        str▸ name _ _ s (
          int▸ xtype _ (array len op) x (
            last-Unpacks (λ a. put_att ncid varid name xtype a.0 a.1) (array len op) (len, op)
              (elements-Unpacks len size op t l e)))))
unpack_body-Unpacks (enddef ncid) n = last_int ncid enddef n
unpack_body-Unpacks (put_vara ncid varid ndims start count data_len fp_type fp)
      (n, v, l, es, ec, dl, vol, t, (size, ts, ef)) =
    int▸ ncid _ _ n (
      int▸ varid _ _ v (
        array▸ ndims 8 start _ _ l es (
          array▸ ndims 8 count _ _ l ec (
            int▸ fp_type _ (array data_len fp) t (
              last-Unpacks (λ a. put_vara ncid varid ndims start count a.0 fp_type a.1)
                (array data_len fp) (data_len, fp) (elements-Unpacks data_len size fp ts dl ef))))))
unpack_body-Unpacks (close ncid) n = last_int ncid close n

pub code-IsInt : (r : Request) → IsInt (code r)
code-IsInt (create _ _ _) = omega arith
code-IsInt (def_dim _ _ _ _) = omega arith
code-IsInt (def_var _ _ _ _ _ _) = omega arith
code-IsInt (put_att _ _ _ _ _ _) = omega arith
code-IsInt (enddef _) = omega arith
code-IsInt (put_vara _ _ _ _ _ _ _ _) = omega arith
code-IsInt (close _) = omega arith

-- Where the used bytes of a valid buffer begin with the function code and the arguments of a well-
-- formed request, the server's dispatch and unpacking return that request, pass every assertion,
-- and release exactly those bytes.
pub unpack_request-Unpacks :
    (r : Request)
    → IsWellFormed r
    → (b : Buffer) (ys : Bytes) → IsValid b
    → HasData b ((encode 4 (code r) ++ body r) ++ ys)
    → (c : Buffer) × (unpack_request b ≡ some (r, c)) × Taken b c × HasData c ys
unfolding unpack_request
unpack_request-Unpacks r wf =
    int▸ (code r) unpack_body (body r) (code-IsInt r) (unpack_body-Unpacks r wf)
