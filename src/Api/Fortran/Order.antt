-- ===== src/Api/Fortran/Order.antt =====
-- client/C/cfio.c: the request that a write from Fortran becomes.
use cfio.Prelude.{
  ℕ, zero, suc, ◌+◌, ◌-◌, ◌%◌, ◌^◌, ◌<◌, ◌≤◌, ◌≡◌, refl, ◌∙◌, ap, true, some, List, ◌∷◌, ◌++◌, ltb,
  get_or, get_elem?, arith,
}
use cfio.Memory.{Bytes, encode, decode}
use cfio.Memory.Laws.{decode-encode}
use cfio.Table.{HashTable}
use cfio.Buffer.{Buffer, IsValid}
use cfio.Buffer.Pack.{int_to_size_t}
use cfio.Id.{Key, Val, done}
use cfio.Message.{Request, words}
use cfio.Send.{send}
use cfio.Api.{Client, put_vara}
use cfio.Api.Calls.{Arrives, Ready, send-Arrives}
use cfio.Api.Fortran.{reversed, size_ts, from_zero, put_vara_c}

words_step :
    (n x : ℕ) (xs : Bytes) → words (suc n) (encode 8 x ++ xs) ≡ decode (encode 8 x) ∷ words n xs
unfolding words encode
words_step n x xs = refl

words-reversed :
    (f : ℕ → ℕ) (n i : ℕ) (xs : List ℕ)
    → i < n
    → f (get_or xs (n - 1 - i) 0) < 2 ^ 64
    → get_elem? (words n (size_ts (reversed f n xs))) i ≡ some (f (get_or xs (n - 1 - i) 0))
unfolding reversed
words-reversed f zero i xs lt h = absurd (omega arith)
words-reversed f (suc n) zero xs lt h =
    let v = f (get_or xs n 0) in
    let e : suc n - 1 - 0 ≡ n = omega arith in
    rw (words_step n v (size_ts (reversed f n xs)), e)
      (ap (λ x. some x) (decode-encode 8 v (rw e at h)))
words-reversed f (suc n) (suc i) xs lt h =
    let v = f (get_or xs n 0) in
    let e : suc n - 1 - suc i ≡ n - 1 - i = omega arith in
    rw (words_step n v (size_ts (reversed f n xs)), e)
      (words-reversed f n i xs (omega arith) (rw e at h))

from_zero_lem : (x : ℕ) → 1 ≤ x → x < 2 ^ 31 → from_zero x ≡ x - 1
from_zero_lem x pos h =
    let e : x + 2 ^ 32 - 1 ≡ x - 1 + 2 ^ 32 = omega arith in
    let m : (x + 2 ^ 32 - 1) % 2 ^ 32 ≡ x - 1 = omega arith in
    let t : ltb (x - 1) (2 ^ 31) ≡ true = ground arith in rw (m, t) refl

int_to_size_t_lem : (x : ℕ) → x < 2 ^ 31 → int_to_size_t x ≡ x
int_to_size_t_lem x h = let t : ltb x (2 ^ 31) ≡ true = ground arith in rw t refl

module _ (fuel : ℕ) (release : Buffer → Buffer) (rank src : ℕ) (server : Buffer) {T : Type 0}
    (h : HashTable Key Val T) (nc_global : ℕ) where
  -- A write from Fortran succeeds and leaves the ids alone, when the client's valid buffer is
  -- longer than the well-formed request, which has fewer than 2 ^ 31 bytes, its callback releases
  -- bytes, as many rounds as it has bytes are allowed, and the server's valid buffer has room; the
  -- client's buffer is valid and the server unpacks the request, whose start in each dimension is
  -- one less than the start given for the dimension counted from the other end, when that is
  -- positive and less than 2 ^ 31, and whose count is the one given for that dimension, when less
  -- than 2 ^ 31.
  pub put_vara_c-Arrives :
      (s : Client T) (fp_type ncid varid ndims : ℕ) (start count : List ℕ) (data_len : ℕ)
      (fp : Bytes) (i : ℕ)
      → let starts = size_ts (reversed from_zero ndims start) in
        let counts = size_ts (reversed int_to_size_t ndims count) in
        Ready fuel release s.buffer server
          (Request.put_vara ncid varid ndims starts counts data_len fp_type fp)
        → i < ndims
        → 1 ≤ get_or start (ndims - 1 - i) 0
        → get_or start (ndims - 1 - i) 0 < 2 ^ 31
        → get_or count (ndims - 1 - i) 0 < 2 ^ 31
        → let starts = size_ts (reversed from_zero ndims start) in
          let counts = size_ts (reversed int_to_size_t ndims count) in
          (u : Client T) × (put_vara_c h nc_global fuel release fp_type ncid varid ndims start count
              fp s
            ≡ some (done 0, u))
          × (u.ids ≡ s.ids)
          × IsValid u.buffer
          × Arrives rank src server u.buffer
              (Request.put_vara ncid varid ndims starts counts data_len fp_type fp)
          × (get_elem? (words ndims starts) i ≡ some (get_or start (ndims - 1 - i) 0 - 1))
          × (get_elem? (words ndims counts) i ≡ some (get_or count (ndims - 1 - i) 0))
  unfolding put_vara_c put_vara send
  put_vara_c-Arrives s fp_type ncid varid ndims start count data_len fp i y lt pos low high =
      let starts = size_ts (reversed from_zero ndims start) in
      let counts = size_ts (reversed int_to_size_t ndims count) in
      let (d, sent, vd, a) =
        send-Arrives fuel release rank src server s.buffer
          (Request.put_vara ncid varid ndims starts counts data_len fp_type fp) y in
      let es = from_zero_lem (get_or start (ndims - 1 - i) 0) pos low in
      let ec = int_to_size_t_lem (get_or count (ndims - 1 - i) 0) high in
      (
        record s { buffer = d },
        rw sent refl,
        refl,
        vd,
        a,
        words-reversed from_zero ndims i start lt (omega (arith, es)) ∙ ap (λ x. some x) es,
        words-reversed int_to_size_t ndims i count lt (omega (arith, ec)) ∙ ap (λ x. some x) ec,
      )
