-- ===== src/Memory/Laws.antt =====
-- What is stored is read back, and the rest of the memory is left alone.
use cfio.Prelude.{
  ℕ, zero, suc, ◌+◌, ◌*◌, ◌/◌, ◌^◌, ◌≤◌, ◌<◌, ◌≡◌, refl, ◌∙◌, ap, ◌⊎◌, [], ◌∷◌, ◌++◌, length, arith,
}
use mathlib.Core.Path.{ap₂}
use native.Mathlib.Nat.{pow-suc}
use cfio.Memory.{Memory, Bytes, poke, store, load, encode, decode}

pub store_apart :
    (m : Memory) (a : ℕ) (xs : Bytes) (q : ℕ) → (q < a) ⊎ (a + length xs ≤ q) → store m a xs q ≡ m q
unfolding store
store_apart m a [] q h = refl
store_apart m a (x ∷ xs) q h = store_apart (poke m a x) (a + 1) xs q (omega arith) ∙ ground arith

pub load_congr :
    (m m' : Memory) (a n : ℕ)
    → ((q : ℕ) → a ≤ q → q < a + n → m q ≡ m' q)
    → load m a n ≡ load m' a n
unfolding load
load_congr m m' a zero h = refl
load_congr m m' a (suc n) h =
    ap₂ ◌∷◌ (h a (omega arith) (omega arith))
      (load_congr m m' (a + 1) n (λ q lo hi. h q (omega arith) (omega arith)))

pub load-store_apart :
    (m : Memory) (a : ℕ) (xs : Bytes) (b n : ℕ)
    → (b + n ≤ a) ⊎ (a + length xs ≤ b)
    → load (store m a xs) b n ≡ load m b n
load-store_apart m a xs b n h =
    load_congr (store m a xs) m b n (λ q lo hi. store_apart m a xs q (omega arith))

pub load-store :
    (m : Memory) (a : ℕ) (xs : Bytes) (n : ℕ) → n ≡ length xs → load (store m a xs) a n ≡ xs
unfolding load store
load-store m a [] zero h = refl
load-store m a [] (suc n) h = absurd (omega arith)
load-store m a (x ∷ xs) zero h = absurd (omega arith)
load-store m a (x ∷ xs) (suc n) h =
    ap₂ ◌∷◌ (store_apart (poke m a x) (a + 1) xs a (omega arith) ∙ ground arith)
      (load-store (poke m a x) (a + 1) xs n (omega arith))

pub length-load : (m : Memory) (a n : ℕ) → length (load m a n) ≡ n
unfolding load
length-load m a zero = refl
length-load m a (suc n) = ap suc (length-load m (a + 1) n)

pub load-add : (m : Memory) (a k n : ℕ) → load m a (k + n) ≡ load m a k ++ load m (a + k) n
unfolding load
load-add m a zero n = ap₂ (load m) (omega arith) (omega arith)
load-add m a (suc k) n =
    ap (load m a) (let e : suc k + n ≡ suc (k + n) = omega arith in e)
    ∙ ap (λ r. m a ∷ r)
        (load-add m (a + 1) k n ∙ ap (λ b. load m (a + 1) k ++ load m b n) (omega arith))

pub store-append :
    (m : Memory) (a : ℕ) (xs ys : Bytes)
    → store m a (xs ++ ys) ≡ store (store m a xs) (a + length xs) ys
unfolding store
store-append m a [] ys = ap (λ b. store m b ys) (omega arith)
store-append m a (x ∷ xs) ys =
    store-append (poke m a x) (a + 1) xs ys
    ∙ ap (λ b. store (store (poke m a x) (a + 1) xs) b ys) (omega arith)

pub length-encode : (w x : ℕ) → length (encode w x) ≡ w
unfolding encode
length-encode zero x = refl
length-encode (suc w) x = ap suc (length-encode w (x / 256))

-- A number of `w` bytes survives the trip through memory.
pub decode-encode : (w x : ℕ) → x < 256 ^ w → decode (encode w x) ≡ x
unfolding encode decode
decode-encode zero x h = omega arith
decode-encode (suc w) x h =
    let e : 256 ^ suc w ≡ 256 ^ w * 256 = pow-suc 256 w in
    omega (arith, decode-encode w (x / 256) (omega (arith, e)))
