-- ===== src/Tests/Queue.antt =====
-- A client sends a request when its turn has come.
use cfio.Prelude.{◌%◌, ◌≡◌, refl, some, [], ◌∷◌, get_elem?}
use cfio.Buffer.{Buffer}
use cfio.Map.{get_client_index_of_server}
use cfio.Message.Wire.{wire, wire_size}
use cfio.Recv.{Msg, Receiver, ok, add_msg, get_first, unpack_request}
use cfio.Recv.Turns.{get_first-add_msg}
use cfio.Tests.{buffer_at, late-IsValid}
use cfio.Tests.Wire.{request, request-IsWellFormed, request_short, room}
use cfio.Tests.Grid.{grid}

-- Process 7 serves the clients 1 and 4; the turn is with the second.
abbrev pub receiver : Receiver
receiver = record {
  rank = 7;
  client_num = 2;
  client_get_index = 1;
  buffer = buffer_at 1000 1000 ∷ buffer_at 1100 1120 ∷ [];
  msg_head = [] ∷ [] ∷ [];
}

pub second : get_client_index_of_server grid 4 ≡ 1
unfolding get_client_index_of_server
second = refl

get_first-add_msg_example :
    (m : Msg) × (t u : Receiver) × (e f : Buffer) × (add_msg grid 4
        (wire_size request)
        (wire request)
        receiver
      ≡ some (ok, t))
    × (get_first grid t ≡ some (some m, u))
    × (m.src ≡ 4)
    × (u.client_get_index ≡ 2 % 2)
    × (get_elem? u.msg_head 1 ≡ some [])
    × (get_elem? u.buffer (get_client_index_of_server grid 4) ≡ some e)
    × (unpack_request e ≡ some (request, f))
get_first-add_msg_example =
    get_first-add_msg grid receiver 4 request (buffer_at 1100 1120) (rw second refl)
      (rw second refl) (rw second refl) late-IsValid request-IsWellFormed request_short room
