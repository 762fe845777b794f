-- ===== src/Tests/Turns.antt =====
-- A server of the grid performs the message of the client that has the turn.
use cfio.Prelude.{
  ℕ, ◌+◌, ◌*◌, ◌%◌, ◌<◌, ◌≡◌, ◌≢◌, refl, inl, some, List, [], ◌∷◌, get_elem?, length, arith,
}
use cfio.Handlers.{error_none, Server}
use cfio.Handlers.Perform.{io_msg}
use cfio.Handlers.Turn.{io_msg-add_msg}
use cfio.Handlers.Loop.{Runs, io_loop, io_loop-lowered, nonzeros, lowered}
use cfio.Handlers.Declared.{def_dim-declares}
use cfio.Id.{Key}
use cfio.Id.Server.{Entry}
use cfio.Io.{IoKey}
use cfio.Memory.{Bytes}
use cfio.Message.Wire.{wire, wire_size}
use cfio.Recv.{Receiver, ok, add_msg}
use cfio.Tests.{buffer_at, late-IsValid}
use cfio.Tests.Wire.{request, request-IsWellFormed, request_short, room}
use cfio.Tests.Grid.{grid}
use cfio.Tests.Queue.{receiver, second}
use cfio.Tests.Handlers.{setting}
use cfio.Tests.Requests.{file, opened-Holds, with_file}

two_nonzero : let two : ℕ = 2 in two ≢ 0
two_nonzero e = ground arith

-- The file with the dimension that the request defines.
abbrev with_ab : Server (Key → List Entry) (IoKey → List Bytes) ℕ
with_ab = record with_file {
  map_table =
      (def_dim-declares setting 2 1 file [] with_file (97 ∷ 98 ∷ 0 ∷ []) 10 2 opened-Holds
        two_nonzero).0;
}

io_msg-add_msg_example :
    (u v : Receiver) × (add_msg grid 4 (wire_size request) (wire request) receiver ≡ some (ok, u))
    × (io_msg setting 3000 4000 grid u with_file ≡ some (v, with_ab))
    × (v.client_get_index ≡ 2 % 2)
    × (get_elem? v.msg_head 1 ≡ some [])
io_msg-add_msg_example =
    io_msg-add_msg setting 3000 4000 grid receiver 4 request (buffer_at 1100 1120) with_file with_ab
      error_none (rw second refl) (rw second refl) (rw second refl) late-IsValid
      request-IsWellFormed request_short room
      (def_dim-declares setting 2 1 file [] with_file (97 ∷ 98 ∷ 0 ∷ []) 10 2 opened-Holds
        two_nonzero).1

abbrev delivered : Receiver
delivered =
    (io_msg-add_msg setting 3000 4000 grid receiver 4 request (buffer_at 1100 1120) with_file
      with_ab error_none (rw second refl) (rw second refl) (rw second refl) late-IsValid
      request-IsWellFormed request_short room
      (def_dim-declares setting 2 1 file [] with_file (97 ∷ 98 ∷ 0 ∷ []) 10 2 opened-Holds
        two_nonzero).1).0

-- Each message finds its data and the merged array at places of its own.
abbrev heap : ℕ → ℕ × ℕ
heap j = (3000 + 2000 * j, 4000 + 2000 * j)

one_message : Runs setting heap grid 1 0 delivered with_file
one_message =
    let p =
      io_msg-add_msg setting 3000 4000 grid receiver 4 request (buffer_at 1100 1120) with_file
        with_ab error_none (rw second refl) (rw second refl) (rw second refl) late-IsValid
        request-IsWellFormed request_short room
        (def_dim-declares setting 2 1 file [] with_file (97 ∷ 98 ∷ 0 ∷ []) 10 2 opened-Holds
          two_nonzero).1 in
    (p.1, with_ab, p.3, tt)

abbrev one_each : List ℕ
one_each = 1 ∷ []

io_loop-lowered_example :
    (u : Receiver) × (v : Server (Key → List Entry) (IoKey → List Bytes) ℕ) × (io_loop setting heap
        grid 2 0 1 one_each 1 delivered with_file
      ≡ some (0 ∷ [], 0, u, v))
    × (nonzeros (lowered 1 one_each) < length one_each)
io_loop-lowered_example =
    io_loop-lowered setting heap grid 1 0 one_each delivered with_file (omega arith) (inl refl)
      (omega arith) one_message
