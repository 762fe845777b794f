-- ===== src/Tests/Ring.antt =====
-- A client's buffer of 128 bytes whose used part goes over its end.
use cfio.Prelude.{
  ℕ, ◌+◌, ◌-◌, ◌%◌, ◌<◌, ◌≤◌, ◌≡◌, refl, sym, ◌∙◌, ap, ◌⊎◌, inl, inr, false, some, arith,
}
use cfio.Memory.{Memory, load, store}
use cfio.Memory.Laws.{length-load, load-add, store-append}
use cfio.Server.Ring.{BufAddr, Reader, read_data}
use cfio.Server.Ring.Progress.{remaining, InUsed, IsSmall, read_data-remaining}

abbrev client_memory : Memory
client_memory q = q % 256

-- The client's buffer starts at 1000 and the region at 5000.
abbrev read : Memory → ℕ → ℕ → ℕ → Memory
read r offset length at = store r (5000 + at) (load client_memory (1000 + offset) length)

read_nothing : (r : Memory) (o a : ℕ) → read r o 0 a ≡ r
unfolding load store
read_nothing r o a = refl

read_split : (r : Memory) (o a m n : ℕ) → read (read r o m a) (o + m) n (a + m) ≡ read r o (m + n) a
read_split r o a m n =
    let l = length-load client_memory (1000 + o) m in
    let from : 1000 + (o + m) ≡ 1000 + o + m = omega arith in
    let to : 5000 + (a + m) ≡ 5000 + a + m = omega arith in
    rw (from, to, load-add client_memory (1000 + o) m n)
      (sym (
        store-append r (5000 + a) (load client_memory (1000 + o) m)
          (load client_memory (1000 + o + m) n)
        ∙ ap
            (λ k.
              store (store r (5000 + a) (load client_memory (1000 + o) m)) (5000 + a + k)
                (load client_memory (1000 + o + m) n))
            l))

abbrev addr : BufAddr
addr = record { start_addr = 1000; end_addr = 1120; free_addr = 1030; used_addr = 1100 }

abbrev reader : Reader Memory
reader = record { read_addr = 1100; read_done = false; local_len = 10; region = client_memory }

addr-IsSmall : IsSmall addr 64
addr-IsSmall = record {
  high = omega arith;
  high_free = omega arith;
  span_free = omega arith;
  low = omega arith;
  span = omega arith;
  region = omega arith;
}

addr-InUsed : InUsed addr 1100
addr-InUsed =
    (omega arith, omega arith, inr (omega arith, inr (omega arith, omega arith), omega arith))

read_data-remaining_example :
    (t : Reader Memory) × (length : ℕ) × (read_data read 64 addr reader ≡ some t)
    × (t.local_len ≡ 10 + length)
    × (t.local_len ≤ 64)
    × (t.region ≡ read client_memory (1100 - 1000) length 10)
    × InUsed addr t.read_addr
    × (remaining addr t.read_addr + length ≡ remaining addr 1100)
    × ((0 < length) ⊎ ((remaining addr 1100 ≡ 0) ⊎ (reader.local_len ≡ 64)))
read_data-remaining_example =
    read_data-remaining read 64 read_nothing read_split addr reader addr-IsSmall addr-InUsed
      (omega arith)

-- The buffer as `cfio_buf_open` leaves it, with its first 30 bytes written.
abbrev unwrapped : BufAddr
unwrapped = record { start_addr = 1000; end_addr = 1000; free_addr = 1030; used_addr = 1000 }

unwrapped-IsSmall : IsSmall unwrapped 64
unwrapped-IsSmall = record {
  high = omega arith;
  low = omega arith;
  high_free = omega arith;
  span_free = omega arith;
  span = omega arith;
  region = omega arith;
}

unwrapped-InUsed : InUsed unwrapped 1000
unwrapped-InUsed = (omega arith, omega arith, inl (omega arith, omega arith))
