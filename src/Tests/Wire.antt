-- ===== src/Tests/Wire.antt =====
-- A request that defines a dimension, on its way from a client to a server.
use cfio.Prelude.{◌+◌, ◌^◌, ◌<◌, ◌≤◌, ◌≡◌, refl, some, [], ◌∷◌, ◌++◌, ◌>>=◌, arith}
use cfio.Memory.{encode, load, store}
use cfio.Buffer.{
  Buffer, limit, enough, is_free_space_enough, skip_tail, use_buf, free_buf_size, used_buf_size,
  IsValid,
}
use cfio.Buffer.Retry.{restart}
use cfio.Buffer.Pack.{◌▸◌, strlen}
use cfio.Buffer.Pack.Unpacks.{HasData, Taken}
use cfio.Message.{Request, def_dim}
use cfio.Message.Wire.{code, body, wire, wire_size, IsWellFormed}
use cfio.Send.{send}
use cfio.Send.Refine.{send-wire}
use cfio.Recv.{Msg, ok, accept, seek, unpack_size_t, unpack_request}
use cfio.Recv.Decode.{unpack_request-Unpacks}
use cfio.Recv.Forward.{forward}
use cfio.Tests.{buffer_at, late-IsValid, release_all, release_all-Releases, half-IsValid}

-- `cfio_def_dim(1, "ab", 10, &dimid)`
abbrev pub request : Request
request = def_dim 1 (97 ∷ 98 ∷ 0 ∷ []) 10 2

pub request-IsWellFormed : IsWellFormed request
unfolding strlen
request-IsWellFormed =
    (omega arith, record { ends = refl; small = omega arith }, omega arith, omega arith)

pub request_size : wire_size request ≡ 35
unfolding encode strlen
request_size = refl

pub request_short : wire_size request < 2 ^ 31
request_short = omega (arith, request_size)

send-wire_example :
    (c d : Buffer) × (send 128 release_all request (buffer_at 1000 1060) ≡ some d)
    × IsValid d
    × (c.mem ≡ (buffer_at 1000 1060).mem)
    × (d.mem ≡ store (buffer_at 1000 1060).mem c.free_addr (wire request))
    × (load d.mem c.free_addr (wire_size request) ≡ wire request)
    × (d.start_addr ≤ c.free_addr)
    × (c.free_addr + wire_size request ≤ limit d)
send-wire_example =
    send-wire 128 release_all (buffer_at 1000 1060) request release_all-Releases half-IsValid
      (omega arith) request-IsWellFormed (omega (arith, request_size))

pub room : (is_free_space_enough (restart (buffer_at 1100 1120)) (wire_size request)).0 ≡ enough
unfolding is_free_space_enough skip_tail use_buf free_buf_size encode strlen
room = refl

forward_example :
    (c d : Buffer) × (msg : Msg) × (e f : Buffer) × (send 128 release_all request
        (buffer_at 1000 1060)
      ≡ some d)
    × IsValid d
    × (accept 4 0
          (wire_size request)
          (load d.mem c.free_addr (wire_size request))
          (buffer_at 1100 1120)
        ≡ some (ok, some msg, e))
    × IsValid e
    × ((seek msg.addr e >>= (unpack_size_t ▸ (λ size. unpack_request))) ≡ some (request, f))
    × IsValid f
forward_example =
    forward 128 release_all 4 0 (buffer_at 1000 1060) (buffer_at 1100 1120) request
      release_all-Releases half-IsValid (omega arith) late-IsValid request-IsWellFormed
      (omega (arith, request_size)) request_short room

-- The same array, as it stands in a buffer.
abbrev filled : Buffer
filled = record (buffer_at 1100 1120) {
  mem = store (buffer_at 1100 1120).mem 1100 (encode 4 2 ++ (7 ∷ 0 ∷ 9 ∷ 0 ∷ []));
}

filled-HasData : HasData filled ((encode 4 2 ++ (7 ∷ 0 ∷ 9 ∷ 0 ∷ [])) ++ [])
unfolding encode store load used_buf_size
filled-HasData = record { used = omega arith; contiguous = omega arith; bytes = refl }

abbrev holding : Buffer
holding = record (buffer_at 1060 1120) {
  mem = store (buffer_at 1060 1120).mem 1060 (encode 4 (code request) ++ body request);
}

holding-HasData : HasData holding ((encode 4 (code request) ++ body request) ++ [])
unfolding encode store load used_buf_size strlen
holding-HasData = record { used = omega arith; contiguous = omega arith; bytes = refl }

unpack_request-Unpacks_example :
    (c : Buffer) × (unpack_request holding ≡ some (request, c)) × Taken holding c × HasData c []
unpack_request-Unpacks_example =
    unpack_request-Unpacks request request-IsWellFormed holding [] (omega arith) holding-HasData
