-- ===== src/Memory.antt =====
-- Byte memory as the C code sees it: addresses are numbers, `memcpy` is a store of a list of bytes,
-- and an integer is stored as its little-endian bytes (the layout of the x86-64 hosts it runs on).
pub mod Laws
use cfio.Prelude.{ℕ, zero, suc, ◌+◌, ◌*◌, ◌/◌, ◌%◌, List, [], ◌∷◌, ◌==◌, if◌then◌else◌}

abbrev pub Memory : Type 0
Memory = ℕ → ℕ

abbrev pub Bytes : Type 0
Bytes = List ℕ

abbrev pub poke : Memory → ℕ → ℕ → Memory
poke m a v q = if a == q then v else m q

-- memcpy into memory
unfoldable pub store : Memory → ℕ → Bytes → Memory
store m a [] = m
store m a (x ∷ xs) = store (poke m a x) (a + 1) xs

-- memcpy out of memory
unfoldable pub load : Memory → ℕ → ℕ → Bytes
load m a zero = []
load m a (suc n) = m a ∷ load m (a + 1) n

unfoldable pub encode : ℕ → ℕ → Bytes
encode zero x = []
encode (suc w) x = (x % 256) ∷ encode w (x / 256)

unfoldable pub decode : Bytes → ℕ
decode [] = 0
decode (b ∷ bs) = b + 256 * decode bs
