-- ===== src/Tests/Framing.antt =====
-- A region with one message and the first bytes of the next.
use cfio.Prelude.{◌+◌, ◌≡◌, refl, inl, inr, none, some, [], ◌∷◌, ◌++◌, length, take, arith}
use cfio.Memory.{Bytes, encode, decode}
use cfio.Buffer.{is_free_space_enough, skip_tail, use_buf, free_buf_size}
use cfio.Buffer.Pack.{strlen}
use cfio.Map.{get_client_index_of_server}
use cfio.Message.Wire.{wire, wire_size}
use cfio.Recv.{Receiver, ok, accept, add_msg}
use cfio.Server.{Region, copy_data_to_list}
use cfio.Server.Framing.{wires, Takes, copy_data_to_list-Takes}
use cfio.Tests.Wire.{request}
use cfio.Tests.Grid.{grid}
use cfio.Tests.Queue.{receiver}

abbrev partial : Bytes
partial = 35 ∷ 0 ∷ 0 ∷ []

abbrev region : Region
region = record {
  region = wires (request ∷ []) ++ (partial ++ (0 ∷ 0 ∷ []));
  local_len = 38;
  copy_len = 0;
  msg_cnt = 0;
  msg_clt_cnt = 0;
}

abbrev after : Receiver
unfolding add_msg
after = elim (add_msg grid 4 (wire_size request) (wire request) receiver) [
  | none ↦ receiver
  | some r ↦ r.1
]

run : add_msg grid 4 (wire_size request) (wire request) receiver ≡ some (ok, after)
unfolding after add_msg accept encode is_free_space_enough skip_tail use_buf free_buf_size strlen
    get_client_index_of_server decode
run = refl

takes : Takes grid 4 (request ∷ []) receiver after
takes = Takes.next run Takes.done

region_len : 38 ≡ length (wires (request ∷ [])) + 3
unfolding encode
region_len = refl

copy_data_to_list-Takes_example :
    (g : Region) × (copy_data_to_list grid 4 region receiver ≡ some (g, after))
    × (take 3 g.region ≡ partial)
    × (g.local_len ≡ 3)
    × (g.copy_len ≡ 0)
    × (g.msg_cnt ≡ 0 + 1)
copy_data_to_list-Takes_example =
    copy_data_to_list-Takes grid 4 partial (0 ∷ 0 ∷ []) (inl (omega arith)) (request ∷ []) receiver
      after region takes refl refl region_len (omega arith) (omega arith)
      (inr (omega (arith, region_len)))
