-- ===== src/Handlers/Turn.antt =====
-- The next message of a server, from its arrival to the tables.
use cfio.Prelude.{ℕ, ◌+◌, ◌%◌, ◌^◌, ◌<◌, ◌≡◌, some, [], get_elem?, set}
use cfio.Buffer.{Buffer, IsValid, enough, is_free_space_enough}
use cfio.Buffer.Retry.{restart}
use cfio.Map.{Config, get_client_index_of_server}
use cfio.Message.{Request}
use cfio.Message.Wire.{wire, wire_size, IsWellFormed}
use cfio.Recv.{Receiver, ok, add_msg}
use cfio.Recv.Turns.{get_first-add_msg}
use cfio.Handlers.{Code, Server, Setting}
use cfio.Handlers.Perform.{perform, decode_msg, io_msg}

module _ {T U L : Type 0} (k : Setting T U L) (data_addr total_data : ℕ) (c : Config) where
  -- When a client whose queue is empty has the turn, its valid buffer has room for a well-formed
  -- request of fewer than 2 ^ 31 bytes, and the handler of this request gives a state of the
  -- server, cfio_recv_add_msg accepts the request's bytes, and the server then takes the message
  -- off and performs it, with this state; the queue is empty and the turn has passed on.
  pub io_msg-add_msg :
      (t : Receiver) (src : ℕ) (r : Request) (b : Buffer) (s after : Server T U L) (code : Code)
      → get_elem? t.buffer (get_client_index_of_server c src) ≡ some b
      → get_elem? t.msg_head (get_client_index_of_server c src) ≡ some []
      → t.client_get_index ≡ get_client_index_of_server c src
      → IsValid b
      → IsWellFormed r
      → wire_size r < 2 ^ 31
      → (is_free_space_enough (restart b) (wire_size r)).0 ≡ enough
      → perform k data_addr total_data src r s ≡ some (code, after)
      → (u v : Receiver) × (add_msg c src (wire_size r) (wire r) t ≡ some (ok, u))
        × (io_msg k data_addr total_data c u s ≡ some (v, after))
        × (v.client_get_index ≡ (t.client_get_index + 1) % t.client_num)
        × (get_elem? v.msg_head t.client_get_index ≡ some [])
  unfolding io_msg decode_msg
  io_msg-add_msg t src r b s after code held queue turn valid fit short room e =
      let (m, u, v, d, f, added, first, from, next, empty, there, got) =
        get_first-add_msg c t src r b held queue turn valid fit short room in
      let i = get_client_index_of_server c src in
      (
        u,
        record v { buffer = set v.buffer i f },
        added,
        rw (first, from, there, got, e),
        next,
        empty,
      )
