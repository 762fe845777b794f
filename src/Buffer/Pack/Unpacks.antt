-- ===== src/Buffer/Pack/Unpacks.antt =====
-- common/buffer.c: an unpacking step reads the bytes at `used_addr` and releases them.
use cfio.Prelude.{
  ℕ, zero, suc, ◌+◌, ◌*◌, ◌^◌, ◌<◌, ◌≤◌, ◌≡◌, refl, sym, subst, ◌∙◌, ap, inl, inr, true, some, leb,
  ◌==◌, arith, Bool-cases, [], ◌∷◌, ◌++◌, length, length-append, append_assoc,
}
use cfio.Memory.{Bytes, Memory, load, encode, decode}
use cfio.Memory.Laws.{length-encode, load-add, length-load, decode-encode}
use cfio.Buffer.{Buffer, limit, free_buf, used_buf_size, IsValid}
use cfio.Buffer.Room.{free_buf-IsValid, used-add-free, free_buf_size_flat, free_buf_size_round}
use cfio.Buffer.Pack.{
  Unpacker, ◌▸◌, return, unpack_data, unpack_data_array, unpack_str, get_buf_data, strlen,
  array_size,
}
use cfio.Buffer.Pack.Packs.{magic_ok_lem, array_size-eq, IsCString}

-- The used bytes begin with `xs`, in one piece.
pub record HasData (b : Buffer) (xs : Bytes) : Type 0 where
  pub used : length xs ≤ used_buf_size b
  pub contiguous : b.used_addr + length xs ≤ limit b
  pub bytes : load b.mem b.used_addr (length xs) ≡ xs

-- What unpacking leaves alone.
pub record Taken (b c : Buffer) : Type 0 where
  pub valid : IsValid c
  pub mem : c.mem ≡ b.mem
  pub free : c.free_addr ≡ b.free_addr
  pub size : c.size ≡ b.size
  pub start : c.start_addr ≡ b.start_addr

-- The step reads `xs`, returns `a`, and leaves the bytes behind `xs` to the next step.
abbrev pub Unpacks : {A : Type 0} → Unpacker A → Bytes → A → Type 0
Unpacks u xs a =
    (b : Buffer) (ys : Bytes)
    → IsValid b
    → HasData b (xs ++ ys)
    → (c : Buffer) × (u b ≡ some (a, c)) × Taken b c × HasData c ys

append-injective :
    (xs ys xs' ys' : Bytes)
    → length xs ≡ length xs'
    → xs ++ ys ≡ xs' ++ ys'
    → (xs ≡ xs') × (ys ≡ ys')
append-injective [] ys [] ys' l e = (refl, e)
append-injective [] ys (x ∷ xs') ys' l e = absurd (omega arith)
append-injective (x ∷ xs) ys [] ys' l e = absurd (omega arith)
append-injective (x ∷ xs) ys (x' ∷ xs') ys' l e =
    let (p, q) = append-injective xs ys xs' ys' (omega arith) (cc) in (cc, q)

used_buf_size-free_buf :
    (b : Buffer) (n : ℕ)
    → IsValid b
    → n ≤ used_buf_size b
    → used_buf_size (free_buf b n) + n ≡ used_buf_size b
unfolding free_buf
used_buf_size-free_buf b n v h =
    let w : IsValid (unfold free_buf in free_buf b n) =
      unfold free_buf in free_buf-IsValid n v (omega (arith, used-add-free b v)) in
    ground (
      arith,
      used-add-free b v,
      used-add-free (unfold free_buf in free_buf b n) w,
      free_buf_size_flat v,
      free_buf_size_round v,
      free_buf_size_flat w,
      free_buf_size_round w,
    )

free_buf-Taken :
    (b : Buffer) (n k : ℕ)
    → IsValid b
    → n + k ≤ used_buf_size b
    → b.used_addr + (n + k) ≤ limit b
    → let c = free_buf b n in
      (0 < k → c.used_addr ≡ b.used_addr + n)
      × (c.mem ≡ b.mem)
      × (c.free_addr ≡ b.free_addr)
      × (c.size ≡ b.size)
      × (c.start_addr ≡ b.start_addr)
      × (c.used_addr + k ≤ limit c)
unfolding free_buf
free_buf-Taken b n k v u r =
    (λ pos. ground arith, ground arith, ground arith, ground arith, ground arith, ground arith)

get_buf_data_lem : (b : Buffer) (n : ℕ) → get_buf_data b n ≡ load b.mem b.used_addr n
unfolding get_buf_data load
get_buf_data_lem b zero = refl
get_buf_data_lem b (suc n) = ground arith

load-nil : (m : Memory) (a : ℕ) → load m a 0 ≡ []
unfolding load
load-nil m a = refl

pub nil_of_length : (xs : Bytes) → length xs ≡ 0 → xs ≡ []
nil_of_length [] e = refl
nil_of_length (x ∷ xs) e = absurd (omega arith)

-- The bytes behind the first `n` are those that the next step reads.
load_rest :
    (b c : Buffer) (ys : Bytes) (n : ℕ)
    → (0 < length ys → c.used_addr ≡ b.used_addr + n)
    → c.mem ≡ b.mem
    → load b.mem (b.used_addr + n) (length ys) ≡ ys
    → load c.mem c.used_addr (length ys) ≡ ys
load_rest b c [] n next mem p = load-nil c.mem c.used_addr
load_rest b c (y ∷ ys) n next mem p = rw (mem, next (omega arith)) p

-- Reading the first `n` bytes and releasing them.
take_free :
    (b : Buffer) (xs ys : Bytes) (n : ℕ)
    → IsValid b
    → n ≡ length xs
    → HasData b (xs ++ ys)
    → (get_buf_data b n ≡ xs) × Taken b (free_buf b n) × HasData (free_buf b n) ys
take_free b xs ys n v e d =
    let l = length-append xs ys in
    let k = length ys in
    let parts =
      append-injective (load b.mem b.used_addr n) (load b.mem (b.used_addr + n) k) xs ys
        (length-load b.mem b.used_addr n ∙ e)
        (sym (load-add b.mem b.used_addr n k)
          ∙ ap (load b.mem b.used_addr) (omega arith)
          ∙ d.bytes) in
    let (next, mem, free, size, start, room) =
      free_buf-Taken b n k v (omega (arith, d.used)) (omega (arith, d.contiguous)) in
    (
      get_buf_data_lem b n ∙ parts.0,
      record {
        valid = free_buf-IsValid n v (omega (arith, d.used, used-add-free b v));
        mem = mem;
        free = free;
        size = size;
        start = start;
      },
      record {
        used = omega (arith, d.used, used_buf_size-free_buf b n v);
        contiguous = room;
        bytes = load_rest b (free_buf b n) ys n next mem parts.1;
      },
    )

Taken-trans : {b c d : Buffer} → Taken b c → Taken c d → Taken b d
Taken-trans p q = record {
  valid = q.valid;
  mem = q.mem ∙ p.mem;
  free = q.free ∙ p.free;
  size = q.size ∙ p.size;
  start = q.start ∙ p.start;
}

pub return-Unpacks : {A : Type 0} (a : A) → Unpacks (return a) [] a
return-Unpacks a b ys v d =
    (b, refl, record { valid = v; mem = refl; free = refl; size = refl; start = refl }, d)

-- Steps one after the other read their bytes one after the other.
pub ▸-Unpacks :
    {A B : Type 0} {u : Unpacker A} (f : A → Unpacker B) (xs ys : Bytes) (a : A) {r : B}
    → Unpacks u xs a
    → Unpacks (f a) ys r
    → Unpacks (u ▸ f) (xs ++ ys) r
▸-Unpacks f xs ys a g h b zs v d =
    let (c, run, t, rest) = g b (ys ++ zs) v (subst (HasData b) (append_assoc xs ys zs) d) in
    let (e, run', t', rest') = h c zs t.valid rest in (e, rw run run', Taken-trans t t', rest')

-- `cfio_buf_unpack_data` reads as many bytes as it is asked for.
pub unpack_data-Unpacks : (xs : Bytes) (n : ℕ) → n ≡ length xs → Unpacks (unpack_data n) xs xs
unfolding unpack_data
unpack_data-Unpacks xs n e b ys v d =
    let (bytes, taken, rest) = take_free b xs ys n v e d in
    let fits : leb n (used_buf_size b) ≡ true = ground (arith, d.used, length-append xs ys) in
    (free_buf b n, rw (magic_ok_lem b v, fits, bytes), taken, rest)

-- Where the used bytes of a valid buffer begin with a length, below 2 ^ 31, and the bytes of as
-- many elements, cfio_buf_unpack_data_array passes its assertions, returns both, and releases
-- exactly their bytes.
pub unpack_data_array-Unpacks :
    (xs : Bytes) (len size : ℕ)
    → len < 2 ^ 31
    → len * size ≡ length xs
    → (b : Buffer) (ys : Bytes) → IsValid b
    → HasData b ((encode 4 len ++ xs) ++ ys)
    → (c : Buffer) × (unpack_data_array size b ≡ some ((len, xs), c)) × Taken b c × HasData c ys
unfolding unpack_data_array
unpack_data_array-Unpacks xs len size small e b ys v d =
    let l4 : 4 ≡ length (encode 4 len) = sym (length-encode 4 len) in
    let total = length-append (encode 4 len) (xs ++ ys) in
    let part = length-append xs ys in
    let d' : HasData b (encode 4 len ++ (xs ++ ys)) =
      subst (HasData b) (append_assoc (encode 4 len) xs ys) d in
    let (word, taken, rest) = take_free b (encode 4 len) (xs ++ ys) 4 v l4 d' in
    let (bytes, taken', rest') = take_free (free_buf b 4) xs ys (length xs) taken.valid refl rest in
    let n : array_size len size ≡ length xs =
      array_size-eq len size (length xs) small e
        (omega (arith, rest.used, used-add-free (free_buf b 4) taken.valid, taken.size)) in
    let head : leb 4 (used_buf_size b) ≡ true = ground (arith, d'.used) in
    let tail : leb (length xs) (used_buf_size (free_buf b 4)) ≡ true = ground (arith, rest.used) in
    let back : decode (encode 4 len) ≡ len = decode-encode 4 len (omega arith) in
    elim (Bool-cases (len == 0)) [
      | inl zero_len ↦
          let nil : xs ≡ [] = nil_of_length xs (ground arith) in
          (
            free_buf b 4,
            rw (magic_ok_lem b v, head, word, back, zero_len, nil),
            taken,
            rw nil at rest,
          )
      | inr more ↦ (
        free_buf (free_buf b 4) (length xs),
        rw (magic_ok_lem b v, head, word, back, more, n, tail, bytes),
        Taken-trans taken taken',
        rest',
      )
    ]

pub unpack_str-Unpacks :
    (xs : Bytes) → IsCString xs → Unpacks unpack_str (encode 4 (strlen xs + 1) ++ xs) xs
unfolding unpack_str
unpack_str-Unpacks xs s b ys v d =
    let (c, run, t, rest) =
      unpack_data_array-Unpacks xs (strlen xs + 1) 1 s.small (omega (arith, s.ends)) b ys v d in
    (c, rw run, t, rest)

-- The last step's value goes into the result.
pub last-Unpacks :
    {A B : Type 0} {u : Unpacker A} (f : A → B) (xs : Bytes) (a : A)
    → Unpacks u xs a
    → Unpacks (u ▸ (λ x. return (f x))) xs (f a)
last-Unpacks f xs a g b ys v d = let (c, run, t, rest) = g b ys v d in (c, rw run, t, rest)
