-- ===== src/Io/Bitmap.antt =====
-- server/io.c: the bitmap of a pending request is full when each client of the server has sent it.
use Prim.Native.Nat.{bit_or}
use native.Mathlib.Decide.{ℕ_discrete}
use native.Mathlib.Nat.{pow-suc, zero-div}
use cfio.Prelude.{
  ℕ, zero, suc, ◌+◌, ◌-◌, ◌*◌, ◌/◌, ◌%◌, ◌^◌, ◌<◌, ◌≡◌, ◌≢◌, refl, sym, ◌∙◌, ap, ◌↔◌, inl, inr,
  Bool, true, false, some, [], ◌∷◌, ◌==◌, ==_iff, if◌then◌else◌, ltb, length, get_elem?, get_or,
  set, arith, Bool-cases,
}
use cfio.Memory.{Bytes}
use cfio.Map.{Config, client, server, proc_type, get_client_index_of_server, IsValid}
use cfio.Map.Pairing.{client_iff, client_num_lem, client_index-lt}
use cfio.Io.{add_bitmap, bytes_full, bitmap_full, new_bitmap, zero_bytes}
use cfio.Io.Bits.{bit, bit-or, or_small, full_bits}

module _ (bytes : Bytes) where
  abbrev pub byte_at : ℕ → ℕ
  byte_at q = get_or bytes q 0

  -- The `i`-th bit.
  abbrev pub flag : ℕ → ℕ
  flag i = bit (byte_at (i / 8)) (i % 8)

get_or-set_self : (xs : Bytes) (q v : ℕ) → q < length xs → get_or (set xs q v) q 0 ≡ v
get_or-set_self [] q v h = absurd (omega arith)
get_or-set_self (x ∷ xs) zero v h = refl
get_or-set_self (x ∷ xs) (suc q) v h = get_or-set_self xs q v (omega arith)

get_or-set_other : (xs : Bytes) (q p v : ℕ) → p ≢ q → get_or (set xs q v) p 0 ≡ get_or xs p 0
get_or-set_other [] q p v h = refl
get_or-set_other (x ∷ xs) zero zero v h = absurd (h refl)
get_or-set_other (x ∷ xs) zero (suc p) v h = refl
get_or-set_other (x ∷ xs) (suc q) zero v h = refl
get_or-set_other (x ∷ xs) (suc q) (suc p) v h = get_or-set_other xs q p v (omega arith)

length-set : (xs : Bytes) (q v : ℕ) → length (set xs q v) ≡ length xs
length-set [] q v = refl
length-set (x ∷ xs) zero v = refl
length-set (x ∷ xs) (suc q) v = ap suc (length-set xs q v)

get_elem?-get_or : (xs : Bytes) (q : ℕ) → q < length xs → get_elem? xs q ≡ some (get_or xs q 0)
get_elem?-get_or [] q h = absurd (omega arith)
get_elem?-get_or (x ∷ xs) zero h = refl
get_elem?-get_or (x ∷ xs) (suc q) h = get_elem?-get_or xs q (omega arith)

-- A bitmap for `n` clients: no bit behind the `n`-th is set.
pub record IsBitmap (n : ℕ) (bytes : Bytes) : Type 0 where
  pub size : length bytes ≡ n / 8 + 1
  pub byte : (q : ℕ) → byte_at bytes q < 256
  pub tail : byte_at bytes (n / 8) < 2 ^ (n % 8)

abbrev pub mark : Bytes → ℕ → Bytes
mark bytes i = set bytes (i / 8) (bit_or (byte_at bytes (i / 8)) (2 ^ (i % 8)) % 256)

pub mark-IsBitmap :
    (n : ℕ) (bytes : Bytes) (i : ℕ) → i < n → IsBitmap n bytes → IsBitmap n (mark bytes i)
mark-IsBitmap n bytes i h v =
    let q = i / 8 in
    let new = bit_or (byte_at bytes q) (2 ^ (i % 8)) % 256 in
    record {
      size = length-set bytes q new ∙ v.size;
      byte = λ p. elim (ℕ_discrete p q) [
        | yes e ↦ rw (e, get_or-set_self bytes q new (omega (arith, v.size))) (omega arith)
        | no ne ↦ rw (get_or-set_other bytes q p new ne) (v.byte p)
      ];
      tail = elim (ℕ_discrete (n / 8) q) [
        | yes e ↦
            rw (e, get_or-set_self bytes q new (omega (arith, v.size)))
              (or_small (byte_at bytes q) (n % 8) (i % 8) (v.byte q) (omega arith)
                (rw (sym e) (v.tail)) (omega arith))
        | no ne ↦ rw (get_or-set_other bytes q (n / 8) new ne) v.tail
      ];
    }

pub flag-mark :
    (n : ℕ) (bytes : Bytes) (i k : ℕ)
    → i < n
    → k < n
    → IsBitmap n bytes
    → flag (mark bytes i) k ≡ (if k == i then 1 else flag bytes k)
flag-mark n bytes i k hi hk v =
    let q = i / 8 in
    let new = bit_or (byte_at bytes q) (2 ^ (i % 8)) % 256 in
    elim (ℕ_discrete (k / 8) q) [
      | yes e ↦
          let written : byte_at (mark bytes i) (k / 8) ≡ new =
            rw e (get_or-set_self bytes q new (omega (arith, v.size))) in
          let same : (k % 8 == i % 8) ≡ (k == i) = ground arith in
          rw written (
            bit-or (byte_at bytes q) (i % 8) (k % 8) (v.byte q) (omega arith) (omega arith)
            ∙ rw (same, e))
      | no ne ↦
          let apart : (k == i) ≡ false = ground arith in
          rw (get_or-set_other bytes q (k / 8) new ne, apart)
    ]

get_or-zero_bytes : (n q : ℕ) → get_or (zero_bytes n) q 0 ≡ 0
unfolding zero_bytes
get_or-zero_bytes zero q = refl
get_or-zero_bytes (suc n) zero = refl
get_or-zero_bytes (suc n) (suc q) = get_or-zero_bytes n q

length-zero_bytes : (n : ℕ) → length (zero_bytes n) ≡ n
unfolding zero_bytes
length-zero_bytes zero = refl
length-zero_bytes (suc n) = ap suc (length-zero_bytes n)

two_pow_pos : (k : ℕ) → 0 < 2 ^ k
two_pow_pos zero = omega arith
two_pow_pos (suc k) = let e : 2 ^ suc k ≡ 2 ^ k * 2 = pow-suc 2 k in omega (arith, e, two_pow_pos k)

pub new_bitmap-IsBitmap : (n : ℕ) → IsBitmap n (new_bitmap n)
unfolding new_bitmap
new_bitmap-IsBitmap n = record {
  size = length-zero_bytes (n / 8 + 1);
  byte = λ q. rw (get_or-zero_bytes (n / 8 + 1) q) (omega arith);
  tail = rw (get_or-zero_bytes (n / 8 + 1) (n / 8)) (two_pow_pos (n % 8));
}

pub flag-new_bitmap : (n i : ℕ) → flag (new_bitmap n) i ≡ 0
unfolding new_bitmap
flag-new_bitmap n i = rw (get_or-zero_bytes (n / 8 + 1) (i / 8)) (zero_bit (i % 8))
  where
    zero_bit : (k : ℕ) → bit 0 k ≡ 0
    zero_bit k = let e : 0 / 2 ^ k ≡ 0 = zero-div (2 ^ k) in omega (arith, e)

-- The loop over the bytes always ends with an answer, and says whether all bits are set.
bytes_full-bytes :
    (head tail : ℕ) (bytes : Bytes)
    → length bytes ≡ head + 1
    → (r : Bool) × (bytes_full head tail bytes ≡ some r)
      × ((r ≡ true)
          ↔ (((q : ℕ) → q < head → byte_at bytes q ≡ 255) × (byte_at bytes head ≡ 2 ^ tail - 1)))
unfolding bytes_full
bytes_full-bytes head tail [] e = absurd (omega arith)
bytes_full-bytes zero tail (b ∷ bs) e = (
  b == 2 ^ tail - 1,
  refl,
  (
    λ t. (λ q lt. absurd (omega arith), (==_iff b (2 ^ tail - 1)).0 t),
    λ h. (==_iff b (2 ^ tail - 1)).1 h.1,
  ),
)
bytes_full-bytes (suc head) tail (b ∷ bs) e =
    let (r, run, (to, back)) = bytes_full-bytes head tail bs (omega arith) in
    elim (Bool-cases (b == 255)) [
      | inl t ↦ (
        r,
        rw t run,
        (
          λ h. (at_suc b bs head (to h).0 ((==_iff b 255).0 t), (to h).1),
          λ h. back (λ q lt. h.0 (suc q) (omega arith), h.1),
        ),
      )
      | inr f ↦
          (false, rw f refl, (λ h. absurd (ground arith), λ h. absurd (ground (arith, h.0 0))))
    ]
  where
    at_suc :
        (b : ℕ) (bs : Bytes) (head : ℕ)
        → ((q : ℕ) → q < head → byte_at bs q ≡ 255)
        → b ≡ 255
        → (q : ℕ) → q < suc head
        → byte_at (b ∷ bs) q ≡ 255
    at_suc b bs head h e zero lt = e
    at_suc b bs head h e (suc q) lt = h q (omega arith)

-- All bytes are full when all of the `n` bits are set.
bytes_iff :
    (n : ℕ) (bytes : Bytes)
    → IsBitmap n bytes
    → (((q : ℕ) → q < n / 8 → byte_at bytes q ≡ 255) × (byte_at bytes (n / 8) ≡ 2 ^ (n % 8) - 1))
      ↔ ((i : ℕ) → i < n → flag bytes i ≡ 1)
bytes_iff n bytes v = (
  λ h i lt. elim (ℕ_discrete (i / 8) (n / 8)) [
    | yes e ↦ rw e (
        (full_bits (byte_at bytes (n / 8)) (n % 8) (v.byte (n / 8)) (omega arith) v.tail).0 h.1
          (i % 8) (omega arith))
    | no ne ↦
        (full_bits (byte_at bytes (i / 8)) 8 (v.byte (i / 8)) (omega arith) (v.byte (i / 8))).0
          (h.0 (i / 8) (omega arith)) (i % 8) (omega arith)
  ],
  λ h. (
    λ q lt.
        (full_bits (byte_at bytes q) 8 (v.byte q) (omega arith) (v.byte q)).1
          (λ k hk. bit_at q k hk (h (q * 8 + k) (omega arith))),
    (full_bits (byte_at bytes (n / 8)) (n % 8) (v.byte (n / 8)) (omega arith) v.tail).1
        (λ k hk. bit_at (n / 8) k (omega arith) (h (n / 8 * 8 + k) (omega arith))),
  ),
)
  where
    bit_at : (q k : ℕ) → k < 8 → flag bytes (q * 8 + k) ≡ 1 → bit (byte_at bytes q) k ≡ 1
    bit_at q k hk h =
        let d : (q * 8 + k) / 8 ≡ q = omega arith in
        let m : (q * 8 + k) % 8 ≡ k = omega arith in rw (d, m) at h

module _ (c : Config) (server_id : ℕ) (v : IsValid c) (hs : proc_type c server_id ≡ server) where
  abbrev num : ℕ
  num = c.client_amount / c.server_amount

  pub add_bitmap-mark :
      (bytes : Bytes) (k : ℕ)
      → proc_type c k ≡ client
      → IsBitmap num bytes
      → add_bitmap c bytes k ≡ some (mark bytes (get_client_index_of_server c k))
  unfolding add_bitmap
  add_bitmap-mark bytes k hk b =
      let i = get_client_index_of_server c k in
      let lt : ltb k c.client_amount ≡ true = ground (arith, client_iff c k hk) in
      let found =
        get_elem?-get_or bytes (i / 8) (omega (arith, b.size, client_index-lt c k v hk)) in
      let rest : i - i / 8 * 8 ≡ i % 8 = omega arith in rw (lt, found, rest)

  -- The server finds the bitmap full exactly when each of its clients has its bit set.
  pub bitmap_full-flags :
      (bytes : Bytes)
      → IsBitmap num bytes
      → (r : Bool) × (bitmap_full c server_id bytes ≡ some r)
        × ((r ≡ true) ↔ ((i : ℕ) → i < num → flag bytes i ≡ 1))
  unfolding bitmap_full
  bitmap_full-flags bytes b =
      let (r, run, (to, back)) = bytes_full-bytes (num / 8) (num % 8) bytes b.size in
      let bits = bytes_iff num bytes b in
      let rest : num - num / 8 * 8 ≡ num % 8 = omega arith in
      (r, rw (client_num_lem c server_id hs, rest) run, (λ t. bits.0 (to t), λ h. back (bits.1 h)))
