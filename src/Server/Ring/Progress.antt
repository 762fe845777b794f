-- ===== src/Server/Ring/Progress.antt =====
-- server/server.c: no byte of the used part is lost or read twice.
use cfio.Prelude.{
  ℕ, zero, suc, ◌+◌, ◌-◌, ◌%◌, ◌^◌, ◌<◌, ◌≤◌, ◌≡◌, refl, ap, ◌⊎◌, inl, inr, Bool, true, false, ◌||◌,
  some, if◌then◌else◌, ltb, leb, Bool-cases, arith,
}
use native.Mathlib.Nat.{mod-eq_of_lt}
use native.Mathlib.Decide.{dec_lt, dec_le}
use cfio.Buffer.{size_t_mod}
use cfio.Server.Ring.{
  BufAddr, Reader, transfer_msg_size_max, int_lt, smaller, difference, advance, transfer, next_read,
  read_data,
}

-- The bytes that are still to be read.
abbrev pub remaining : BufAddr → ℕ → ℕ
remaining addr read_addr =
    if leb addr.used_addr addr.free_addr || leb read_addr addr.free_addr
    then addr.free_addr - read_addr
    else (addr.end_addr - read_addr) + (addr.free_addr - addr.start_addr)

-- The address lies in the used part, which goes on at the start when it reaches the end. The end counts
-- only then: until the used part first goes over it, `end_addr` is where `cfio_buf_open` puts it, at the
-- start.
abbrev pub InUsed : BufAddr → ℕ → Type 0
InUsed addr a =
    (addr.start_addr ≤ a)
    × (addr.start_addr ≤ addr.free_addr)
    × (((addr.used_addr ≤ addr.free_addr) × (a ≤ addr.free_addr))
        ⊎ ((addr.free_addr < addr.used_addr)
            × ((a ≤ addr.free_addr) ⊎ ((addr.free_addr < a) × (a < addr.end_addr)))
            × (addr.free_addr < addr.end_addr)))

-- The addresses and the lengths are those of a 64-bit host with buffers of fewer than 2 ^ 31 bytes.
pub record IsSmall (addr : BufAddr) (size : ℕ) : Type 0 where
  pub high : addr.end_addr < 2 ^ 63
  pub low : addr.start_addr ≤ addr.end_addr
  pub high_free : addr.free_addr < 2 ^ 63
  pub span_free : addr.free_addr - addr.start_addr < 2 ^ 31
  pub span : addr.end_addr - addr.start_addr < 2 ^ 31
  pub region : size < 2 ^ 31

smaller_lem :
    (a b : ℕ)
    → a < 2 ^ 31
    → b < 2 ^ 31
    → (smaller a b ≤ a) × (smaller a b ≤ b) × ((smaller a b ≡ a) ⊎ (smaller a b ≡ b))
smaller_lem a b ha hb = ground arith

difference_lem : (a b : ℕ) → b ≤ a → a - b < 2 ^ 31 → difference a b ≡ a - b
difference_lem a b le h =
    let w : (size_t_mod + a - b) % size_t_mod ≡ a - b = omega arith in
    rw w (mod-eq_of_lt (omega arith))

advance_lem : (a n : ℕ) → n < 2 ^ 31 → a + n < 2 ^ 64 → advance a n ≡ a + n
advance_lem a n hn h = let t : ltb n (2 ^ 31) ≡ true = ground arith in rw t (mod-eq_of_lt h)

module _ {R : Type 0} (read : R → ℕ → ℕ → ℕ → R) (size : ℕ)
    (nothing : (r : R) (o a : ℕ) → read r o 0 a ≡ r)
    (split : (r : R) (o a m n : ℕ)
      → read (read r o m a) (o + m) n (a + m) ≡ read r o (m + n) a) where
  -- The pieces make up the whole.
  transfer-read :
      (n left o a : ℕ) (r : R)
      → left ≤ n
      → left < 2 ^ 31
      → o + left < 2 ^ 32
      → a + left < 2 ^ 32
      → transfer read size n left o a r ≡ some (a + left, read r o left a)
  unfolding transfer
  transfer-read zero left o a r h small ho ha =
      let e : left ≡ 0 = omega arith in rw (e, nothing r o a) (ap (λ x. some (x, r)) (omega arith))
  transfer-read (suc n) left o a r h small ho ha = elim (Bool-cases (int_lt 0 left)) [
    | inr f ↦
        let e : left ≡ 0 = ground arith in
        rw (e, nothing r o a) (ap (λ x. some (x, r)) (omega arith))
    | inl t ↦
        let now = if int_lt transfer_msg_size_max left then transfer_msg_size_max else left in
        let pos : 0 < now = ground arith in
        let le : now ≤ left = ground arith in
        let wo : (o + now) % 2 ^ 32 ≡ o + now = mod-eq_of_lt (omega arith) in
        let wa : (a + now) % 2 ^ 32 ≡ a + now = mod-eq_of_lt (omega arith) in
        let ih =
          transfer-read n (left - now) (o + now) (a + now) (read r o now a) (omega arith)
            (omega arith) (omega arith) (omega arith) in
        let whole : now + (left - now) ≡ left = omega arith in
        let end_len : a + now + (left - now) ≡ a + left = omega arith in
        rw (t, wo, wa, ih, split r o a now (left - now), whole, end_len) refl
  ]

  -- One piece of `length` bytes is read, and the address goes on.
  abbrev Reads : BufAddr → Reader R → ℕ → ℕ → Bool → Type 0
  Reads addr s length next_addr done =
      (next_read read size addr s ≡ (length, next_addr, done))
      × (length + s.local_len ≤ size)
      × (remaining addr next_addr + length ≡ remaining addr s.read_addr)
      × InUsed addr next_addr
      × ((0 < length) ⊎ (remaining addr s.read_addr ≡ 0) ⊎ (s.local_len ≡ size))

  next_read-flat :
      (addr : BufAddr) (s : Reader R)
      → IsSmall addr size
      → InUsed addr s.read_addr
      → s.local_len ≤ size
      → (addr.used_addr ≤ addr.free_addr) ⊎ (s.read_addr ≤ addr.free_addr)
      → (length next_addr : ℕ) × (done : Bool) × Reads addr s length next_addr done
  next_read-flat addr s small used room flat =
      let first : leb addr.used_addr addr.free_addr || leb s.read_addr addr.free_addr ≡ true =
        ground arith in
      let below : s.read_addr ≤ addr.free_addr = ground arith in
      let low : addr.start_addr ≤ s.read_addr = ground arith in
      let all = addr.free_addr - s.read_addr in
      let space = size - s.local_len in
      let d = difference_lem addr.free_addr s.read_addr below (omega (arith, small.span_free)) in
      let w : (2 ^ 32 + size - s.local_len) % 2 ^ 32 ≡ space = omega (arith, small.region) in
      let (le, le', is) =
        smaller_lem all space (omega (arith, small.span_free)) (omega (arith, small.region)) in
      let length = smaller all space in
      let a =
        advance_lem s.read_addr length (omega (arith, small.region))
          (omega (arith, small.high_free)) in
      let next : s.read_addr + length ≤ addr.free_addr = omega (arith, le) in
      let first' : leb addr.used_addr addr.free_addr || leb (s.read_addr + length) addr.free_addr
          ≡ true =
        ground arith in
      (
        length,
        s.read_addr + length,
        leb addr.free_addr (s.read_addr + length) || s.read_done,
        (
          rw (first, d, w, a) refl,
          omega (arith, le'),
          rw (first, first') (omega (arith, le)),
          ground arith,
          rw first (elim (dec_lt 0 length) [
            | yes lt ↦ inl lt
            | no le ↦ elim is [ inl e ↦ inr (inl (omega arith)) | inr e ↦ inr (inr (omega arith)) ]
          ]),
        ),
      )

  next_read-round :
      (addr : BufAddr) (s : Reader R)
      → IsSmall addr size
      → InUsed addr s.read_addr
      → s.local_len ≤ size
      → addr.free_addr < addr.used_addr
      → addr.free_addr < s.read_addr
      → (length next_addr : ℕ) × (done : Bool) × Reads addr s length next_addr done
  next_read-round addr s small used room back late =
      let first : leb addr.used_addr addr.free_addr || leb s.read_addr addr.free_addr ≡ false =
        ground arith in
      let below : s.read_addr < addr.end_addr = ground arith in
      let high : addr.free_addr < addr.end_addr = ground arith in
      let low : (addr.start_addr ≤ s.read_addr) × (addr.start_addr ≤ addr.free_addr) =
        ground arith in
      let all = addr.end_addr - s.read_addr in
      let space = size - s.local_len in
      let d =
        difference_lem addr.end_addr s.read_addr (omega arith) (omega (arith, small.span, low)) in
      let w : (2 ^ 32 + size - s.local_len) % 2 ^ 32 ≡ space = omega (arith, small.region) in
      let (le, le', is) =
        smaller_lem all space (omega (arith, small.span, low)) (omega (arith, small.region)) in
      let length = smaller all space in
      let a =
        advance_lem s.read_addr length (omega (arith, small.region)) (omega (arith, small.high)) in
      let progress : (0 < length) ⊎ (s.local_len ≡ size) = elim is [
        | inl e ↦ inl (omega arith)
        | inr e ↦ elim (dec_lt 0 length) [ yes lt ↦ inl lt | no le ↦ inr (omega arith) ]
      ] in
      let moves : (0 < length) ⊎ ((remaining addr s.read_addr ≡ 0) ⊎ (s.local_len ≡ size)) =
        elim progress [ inl lt ↦ inl lt | inr e ↦ inr (inr e) ] in
      elim (Bool-cases (leb addr.end_addr (s.read_addr + length))) [
        | inl t ↦
            let whole : length ≡ all = ground arith in
            let first' : leb addr.used_addr addr.free_addr || leb addr.start_addr addr.free_addr
                ≡ true =
              ground arith in
            (
              length,
              addr.start_addr,
              s.read_done,
              (
                rw (first, d, w, a, t) refl,
                omega (arith, le'),
                rw (first, first') (omega arith),
                ground arith,
                moves,
              ),
            )
        | inr f ↦
            let inside : s.read_addr + length < addr.end_addr = ground arith in
            let first' : leb addr.used_addr addr.free_addr
                  || leb (s.read_addr + length) addr.free_addr
                ≡ false =
              ground arith in
            (
              length,
              s.read_addr + length,
              s.read_done,
              (
                rw (first, d, w, a, f) refl,
                omega (arith, le'),
                rw (first, first') (omega arith),
                ground arith,
                moves,
              ),
            )
      ]

  next_read-any :
      (addr : BufAddr) (s : Reader R)
      → IsSmall addr size
      → InUsed addr s.read_addr
      → s.local_len ≤ size
      → (length next_addr : ℕ) × (done : Bool) × Reads addr s length next_addr done
  next_read-any addr s small used room = elim (dec_le addr.used_addr addr.free_addr) [
    | yes le ↦ next_read-flat addr s small used room (inl le)
    | no gt ↦ elim (dec_le s.read_addr addr.free_addr) [
      | yes le ↦ next_read-flat addr s small used room (inr le)
      | no late ↦ next_read-round addr s small used room (omega arith) (omega arith)
    ]
  ]

  -- When a transfer of no bytes changes nothing and two transfers of adjoining bytes are one, the
  -- client's start, end and free address are below 2 ^ 63, the end not before the start and the
  -- end and the free address less than 2 ^ 31 behind it, the region is shorter than 2 ^ 31 bytes
  -- and not overfull, and the reader's address lies in the used part, _read_data succeeds, whether
  -- the used part goes over the end or not: it transfers one stretch of the buffer to behind what
  -- is in the region, which is not overfull then; the reader's address is in the used part, and
  -- what is still to be read has become less by just what was transferred, which is at least a
  -- byte unless nothing was left or the region was full.
  pub read_data-remaining :
      (addr : BufAddr) (s : Reader R)
      → IsSmall addr size
      → InUsed addr s.read_addr
      → s.local_len ≤ size
      → (t : Reader R) × (length : ℕ) × (read_data read size addr s ≡ some t)
        × (t.local_len ≡ s.local_len + length)
        × (t.local_len ≤ size)
        × (t.region ≡ read s.region (s.read_addr - addr.start_addr) length s.local_len)
        × InUsed addr t.read_addr
        × (remaining addr t.read_addr + length ≡ remaining addr s.read_addr)
        × ((0 < length) ⊎ ((remaining addr s.read_addr ≡ 0) ⊎ (s.local_len ≡ size)))
  unfolding read_data
  read_data-remaining addr s small used room =
      let (length, next_addr, done, (e, fits, left, inside, moves)) =
        next_read-any addr s small used room in
      let within : (addr.start_addr ≤ s.read_addr) × (s.read_addr - addr.start_addr < 2 ^ 31) =
        ground (arith, small.span, small.span_free) in
      let o = difference_lem s.read_addr addr.start_addr within.0 (omega (arith, within)) in
      let run =
        transfer-read length length (s.read_addr - addr.start_addr) s.local_len s.region
          (omega arith) (omega (arith, small.region)) (omega (arith, small.region, within))
          (omega (arith, small.region)) in
      (
        record {
          read_addr = next_addr;
          read_done = done;
          local_len = s.local_len + length;
          region = read s.region (s.read_addr - addr.start_addr) length s.local_len;
        },
        length,
        rw (e, o, run) refl,
        refl,
        omega arith,
        refl,
        inside,
        left,
        moves,
      )
