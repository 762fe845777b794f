-- ===== src/Recv.antt =====
-- server/recv.c, and `decode` of server/server.c: how a server buffers its clients' messages, takes
-- them off in turn, and reads the requests that they carry.
pub mod Decode
pub mod Forward
pub mod Turns
use cfio.Prelude.{
  ℕ, zero, suc, ◌+◌, ◌-◌, ◌/◌, ◌%◌, ◌^◌, Bool, true, false, Option, none, some, List, [], ◌∷◌, ◌++◌,
  ◌==◌, if◌then◌else◌, ◌>>=◌, get_elem?, set, take, drop,
}
use cfio.Memory.{Bytes, store, decode}
use cfio.Buffer.{
  Buffer, Space, enough, not_enough, is_empty, is_free_space_enough, use_buf, clear,
  check_used_addr,
}
use cfio.Buffer.Pack.{
  Unpacker, ◌▸◌, return, unpack_data, unpack_data_array, unpack_str, sizeof_int, sizeof_size_t,
  int_to_size_t,
}
use cfio.Map.{Config, get_client_index_of_server}
use cfio.Message.{
  Request, create, def_dim, def_var, put_att, enddef, put_vara, close, types_size, func_final,
  func_nc_create, func_nc_enddef, func_nc_close, func_nc_def_dim, func_nc_def_var, func_put_att,
  func_nc_put_vara,
}

-- `cfio_msg_t`, without the handles of the message-passing library.
pub record Msg : Type 0 where
  pub func_code : ℕ
  pub size : ℕ
  pub addr : ℕ
  pub src : ℕ
  pub dst : ℕ

-- The file's static variables: a buffer and a queue of messages for each client of the server.
pub record Receiver : Type 0 where
  pub rank : ℕ
  pub client_num : ℕ
  pub client_get_index : ℕ
  pub buffer : List Buffer
  pub msg_head : List (List Msg)

-- CFIO_RECV_BUF_FULL, CFIO_ERROR_UNEXPECTED_MSG and CFIO_ERROR_NONE
pub data Status : Type 0 where
  recv_buf_full unexpected_msg ok : Status

-- The `uint32_t` behind the message's size.
abbrev pub code_of : Bytes → ℕ
code_of bytes = decode (take sizeof_int (drop sizeof_size_t bytes))

-- What happens to a message once an empty buffer has been reset: its status, the message that is
-- queued, if one is, and the buffer. The first `size` bytes at the pointer are the message; `size` is the
-- function's `int` as it takes part in `size_t` arithmetic.
abbrev pub admit : ℕ → ℕ → ℕ → Bytes → Buffer → Option (Status × Option Msg × Buffer)
admit rank client_rank size bytes b =
    let (space, c) = is_free_space_enough b size in
    elim space [
      | not_enough ↦ some (recv_buf_full, none, c)
      | enough ↦
          if size == 0
          then some (unexpected_msg, none, c)
          else if code_of bytes == func_final
          then some (ok, none, c)
          else some (
            ok,
            some (record {
              func_code = code_of bytes;
              size = size;
              addr = c.free_addr;
              src = client_rank;
              dst = rank;
            }),
            use_buf (record c { mem = store c.mem c.free_addr (take size bytes) }) size,
          )
    ]

-- The function's parameter is an `int`: its caller's `size_t` is cut to 32 bits, and where the size is
-- used its sign is extended.
unfoldable pub accept : ℕ → ℕ → ℕ → Bytes → Buffer → Option (Status × Option Msg × Buffer)
accept rank client_rank size bytes b =
    let size = int_to_size_t (size % 2 ^ 32) in
    (if is_empty b then clear b else some b) >>= admit rank client_rank size bytes

abbrev pub enqueue : List (List Msg) → ℕ → Option Msg → List (List Msg)
enqueue queues i none = queues
enqueue queues i (some msg) = elim (get_elem? queues i) [
  | none ↦ queues
  | some q ↦ set queues i (q ++ (msg ∷ []))
]

-- `cfio_recv_add_msg`. `none` is an index out of range or a failed assertion.
unfoldable pub add_msg : Config → ℕ → ℕ → Bytes → Receiver → Option (Status × Receiver)
unfolding accept
add_msg c client_rank size bytes s =
    let i = get_client_index_of_server c client_rank in
    get_elem? s.buffer i >>= (λ b. accept s.rank client_rank size bytes b >>= (λ r.
      some (r.0, record s { buffer = set s.buffer i r.2; msg_head = enqueue s.msg_head i r.1 })))

-- The assertion, and the move of `used_addr` to the message.
unfoldable pub seek : ℕ → Buffer → Option Buffer
seek addr b =
    check_used_addr addr b >>= (λ used. if used then some (record b { used_addr = addr }) else none)

unfoldable pub unpack_size_t : Unpacker ℕ
unpack_size_t = unpack_data sizeof_size_t ▸ (λ bytes. return (decode bytes))

unfoldable pub unpack_int : Unpacker ℕ
unpack_int = unpack_data sizeof_int ▸ (λ bytes. return (decode bytes))

unfoldable pub unpack_msg_size : ℕ → Unpacker ℕ
unfolding seek unpack_size_t
unpack_msg_size addr b = seek addr b >>= unpack_size_t

-- What is left of a queue whose first message has its own size `size`: a message that is longer holds
-- several, and loses the first.
unfoldable pub split_first : Msg → ℕ → List Msg → Msg × List Msg
split_first msg size rest = if msg.size == size then (msg, rest) else (
  record { func_code = 0; size = 0; addr = msg.addr; src = msg.src; dst = msg.dst },
  record msg { size = msg.size - size; addr = msg.addr + size } ∷ rest,
)

abbrev take_first : Config → Receiver → Msg → List Msg → Option (Option Msg × Receiver)
take_first c s msg rest =
    let i = get_client_index_of_server c msg.src in
    get_elem? s.buffer i >>= (λ b. unpack_msg_size msg.addr b >>= (λ r.
      let (first, queue) = split_first msg r.0 rest in
      some (
        some first,
        record s {
          client_get_index = (s.client_get_index + 1) % s.client_num;
          buffer = set s.buffer i r.1;
          msg_head = set s.msg_head s.client_get_index queue;
        },
      )))

-- `cfio_recv_get_first`: the turn passes to the next client only when a message is found.
unfoldable pub get_first : Config → Receiver → Option (Option Msg × Receiver)
unfolding unpack_msg_size split_first
get_first c s =
    get_elem? s.msg_head s.client_get_index
    >>= (λ queue. elim queue [ [] ↦ some (none, s) | msg ∷ rest ↦ take_first c s msg rest ])

-- `sizeof(uint32_t)` is that of an `int`.
abbrev pub unpack_func_code : Unpacker ℕ
unpack_func_code = unpack_int

unfoldable pub unpack_create : Unpacker Request
unpack_create =
    unpack_str ▸ λ path. unpack_int ▸ λ cmode. unpack_int ▸ λ ncid. return (create path cmode ncid)

unfoldable pub unpack_def_dim : Unpacker Request
unpack_def_dim = unpack_int ▸ λ ncid. unpack_str ▸ λ name.
    unpack_size_t ▸ λ len. unpack_int ▸ λ dimid. return (def_dim ncid name len dimid)

-- Without dimensions no array is read, and the caller's pointer keeps its value.
abbrev pub unpack_dims : ℕ → Unpacker (ℕ × Bytes)
unpack_dims ndims = if ndims == 0 then return (ndims, []) else unpack_data_array sizeof_int

unfoldable pub unpack_def_var : Unpacker Request
unpack_def_var = unpack_int ▸ λ ncid. unpack_str ▸ λ name. unpack_int ▸ λ xtype.
    unpack_int ▸ λ ndims. unpack_dims ndims ▸ λ dims.
    unpack_int ▸ λ varid. return (def_var ncid name xtype dims.0 dims.1 varid)

-- A type that no case covers leaves the element size unset, which is a fault.
abbrev pub unpack_elements : Option ℕ → Unpacker (ℕ × Bytes)
unpack_elements none b = none
unpack_elements (some size) b = unpack_data_array size b

unfoldable pub unpack_put_att : Unpacker Request
unpack_put_att = unpack_int ▸ λ ncid. unpack_int ▸ λ varid. unpack_str ▸ λ name.
    unpack_int ▸ λ xtype.
    unpack_elements (types_size xtype) ▸ λ op. return (put_att ncid varid name xtype op.0 op.1)

unfoldable pub unpack_enddef : Unpacker Request
unpack_enddef = unpack_int ▸ λ ncid. return (enddef ncid)

-- `ndims` is what the second array says. Where no case of the switch applies no data is read; the
-- caller's pointers stay unset, which the model takes for a fault.
unfoldable pub unpack_put_vara : Unpacker Request
unpack_put_vara = unpack_int ▸ λ ncid. unpack_int ▸ λ varid.
    unpack_data_array sizeof_size_t ▸ λ start. unpack_data_array sizeof_size_t ▸ λ count.
    unpack_int ▸ λ fp_type. unpack_elements (types_size fp_type) ▸ λ fp.
    return (put_vara ncid varid count.0 start.1 count.1 fp.0 fp_type fp.1)

unfoldable pub unpack_close : Unpacker Request
unpack_close = unpack_int ▸ λ ncid. return (close ncid)

-- `decode` of server.c: the function code selects the handler, which unpacks its arguments. `none`
-- is an unexpected message.
abbrev pub unpack_body : ℕ → Unpacker Request
unpack_body code =
    if code == func_nc_create
    then unpack_create
    else if code == func_nc_def_dim
    then unpack_def_dim
    else if code == func_nc_def_var
    then unpack_def_var
    else if code == func_put_att
    then unpack_put_att
    else if code == func_nc_enddef
    then unpack_enddef
    else if code == func_nc_put_vara
    then unpack_put_vara
    else if code == func_nc_close
    then unpack_close
    else λ b. none

unfoldable pub unpack_request : Unpacker Request
unpack_request = unpack_func_code ▸ unpack_body
