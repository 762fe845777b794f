-- ===== src/Server.antt =====
-- server/server.c: the messages in the bytes that a server read from a client's memory.
pub mod Framing
pub mod Ring
use cfio.Prelude.{
  ℕ, zero, suc, ◌+◌, ◌-◌, ◌%◌, ◌^◌, Bool, true, false, Option, none, some, List, [], ◌∷◌, ◌++◌,
  ◌==◌, if◌then◌else◌, ltb, leb, ◌>>=◌, take, drop,
}
use cfio.Memory.{Bytes, decode}
use cfio.Buffer.{size_t_mod}
use cfio.Buffer.Pack.{sizeof_size_t}
use cfio.Map.{Config}
use cfio.Recv.{Receiver, Status, recv_buf_full, unexpected_msg, ok, add_msg}

-- What the file keeps for one client, with the number of the clients that have messages. `region` is
-- the memory at `cfio_rdma_server_get_data`.
pub record Region : Type 0 where
  pub region : Bytes
  pub local_len : ℕ
  pub copy_len : ℕ
  pub msg_cnt : ℕ
  pub msg_clt_cnt : ℕ

-- The counters after a message was taken; each is an `int`.
abbrev pub copied : ℕ → Region → Region
copied msg_size g =
    let msg_cnt = (g.msg_cnt + 1) % 2 ^ 32 in
    record g {
      copy_len = (g.copy_len + msg_size) % 2 ^ 32;
      msg_cnt = msg_cnt;
      msg_clt_cnt = (g.msg_clt_cnt + (if msg_cnt == 1 then 1 else 0)) % 2 ^ 32;
    }

-- The loop, and whether a message was taken. `none` is a failed assertion or the end of the process.
unfoldable pub copy_msgs :
    ℕ → Config → ℕ → Bool → Region → Receiver → Option (Bool × Region × Receiver)
unfolding add_msg
copy_msgs zero c client_id change g s = none
copy_msgs (suc n) c client_id change g s =
    let at = drop g.copy_len g.region in
    let msg_size = decode (take sizeof_size_t at) in
    if ltb g.local_len (g.copy_len + sizeof_size_t)
    then some (change, g, s)
    else if ltb g.local_len ((g.copy_len + msg_size) % size_t_mod)
    then some (change, g, s)
    else add_msg c client_id msg_size at s >>= (λ r. elim r.0 [
      | recv_buf_full ↦ some (change, g, r.1)
      | unexpected_msg ↦ none
      | ok ↦ copy_msgs n c client_id true (copied msg_size g) r.1
    ])

-- What is left moves to the start of the region. `none` is a `memcpy` between places that overlap,
-- where it promises nothing.
abbrev pub move_rest : Region → Option Region
move_rest g =
    let rest = g.local_len - g.copy_len in
    if ltb g.copy_len rest
    then none
    else some (record g {
      region = take rest (drop g.copy_len g.region) ++ drop rest g.region;
      local_len = rest;
      copy_len = 0;
    })

-- Each message has a byte at least.
unfoldable pub copy_data_to_list : Config → ℕ → Region → Receiver → Option (Region × Receiver)
unfolding copy_msgs
copy_data_to_list c client_id g s =
    copy_msgs (g.local_len + 1) c client_id false g s
    >>= (λ r. (if r.0 then move_rest r.1 else some r.1) >>= (λ g'. some (g', r.2)))
