-- ===== src/Lib.antt =====
-- CFIO: climate models forward their NetCDF calls from client processes to I/O server processes, which
-- carry them out while the clients go on computing.
--
-- A call on a client (src/client/C/cfio.c) takes ids for what it defines (src/common/id.c), packs a
-- message into the client's ring buffer (src/client/C/send.c, src/common/buffer.c, .h), and RDMA carries
-- the buffer's bytes to the server. The server copies each message into a buffer that it keeps for the
-- client (src/server/recv.c), takes the messages off in turn, decodes them (src/server/server.c) and
-- performs them (src/server/io.c). src/common/map.c says which server serves which client.
--
-- Prelude - shared names, Boolean tests, lists over native numbers, the bind of Option.
-- Memory - byte memory; memcpy is `store` and `load`, an integer in memory is `encode` and `decode`.
-- Buffer - src/common/buffer.h, its record, pointers and free-space tests. Buffer/Pack is
--   src/common/buffer.c, packing and unpacking. Room, Wait, Retry, Pack/Packs and Pack/Unpacks hold
--   the theorems.
-- Map - src/common/map.c, the static variables as a record; an `int` that overflows is a fault. Exact
--   has the search with numbers of any size. Clients, Pairing, Divisors, Factors, Search, Ints,
--   Settle and Init hold the theorems.
-- Message - src/common/msg.h and the element sizes of src/common/cfio_types.h. Message/Wire lays the
--   requests out as bytes, independently of the code that packs them.
-- Send - src/client/C/send.c, one definition for each cfio_send_ function, and `send` for all.
-- Recv - src/server/recv.c and the dispatch of src/server/server.c: `accept` and `add_msg` are
--   cfio_recv_add_msg, `get_first` is cfio_recv_get_first, `unpack_create` and the like are the
--   cfio_recv_unpack_ functions. Decode, Forward and Turns hold the theorems.
-- Id - the client's half of src/common/id.c, over a hash table that is a parameter. Id/Inquire
--   holds the look-ups; Id/Remove closes a file; Id/Server is the server's half.
--   Assign, Distinct, Named, Open and Remove hold the theorems.
-- Table - what the code relies on of the hash table of src/common/quickhash.h, as operations and laws.
-- Io - the parts of src/server/io.c that collect the clients' requests: the bitmap of the clients that
--   sent a request, the table of pending requests, and in Io/Merge the copy of the clients' blocks into
--   one array. Bitmap, Served, Pending, Merge/Place, Merge/PutVar and the modules below
--   Merge/Blocks hold the theorems.
-- Api - src/client/C/cfio.c, over Id and Send; Api/Fortran is its wrappers for Fortran. Api/Calls and
--   Api/Fortran/Order hold the theorems.
-- Server - _copy_data_to_list of src/server/server.c, which cuts the bytes of a client into messages, and
--   in Server/Ring its _read_data. Server/Framing and Server/Ring/Progress hold the theorems.
-- Handlers - the handlers of src/server/io.c, over the tables and the NetCDF library, which are
--   parameters. Define has cfio_io_create, cfio_io_def_dim and cfio_io_def_var, Enddef has _handle_def
--   and cfio_io_enddef, and Write has cfio_io_put_att, cfio_io_put_vara and cfio_io_close. Spec says
--   what the table stands for while a file is defined, Run what the library makes of the definitions,
--   and Collect when a request of all clients acts. Perform is decode of src/server/server.c, which
--   calls the handlers, and Loop is the rounds of cfio_comm over the clients' messages. Created, Declared, Requests,
--   Known, Ended, Protocol, Whole, Attached, Merged, Delivered, Turn and Loop hold the theorems.
-- Tests - concrete inputs.
--
-- Conventions. A pointer is a number and the buffer's record carries the memory it points into. An
-- `int` is its 32-bit pattern and a `size_t` a number whose wrap-around is written out. `none` is a
-- failed assertion or a fault. The model has the sizes and the byte order of x86-64. Addresses are
-- taken to lie below 2 ^ 63 (`Buffer.IsValid`), as on those hosts.
--
-- Fuel. The waiting loop of ensure_free_space calls back until enough bytes are free; the callback
-- is a parameter that releases at least a byte when any is in use, so that as many rounds as the
-- buffer has bytes are enough. The loops of src/common/map.c run on the bounds of their counters.
-- The rounds over the clients' messages end within as many as the client with the fewest messages has.
--
-- Not modelled: MPI and RDMA transfer (src/client/C/rdma_client.c, src/server/rdma_server.c), the
-- threads of src/server/server.c, the PnetCDF library (a parameter), functions that nothing calls, and
-- the failures of malloc other than that of cfio_buf_open.
pub mod Prelude
pub mod Memory
pub mod Table
pub mod Buffer
pub mod Map
pub mod Message
pub mod Send
pub mod Recv
pub mod Id
pub mod Io
pub mod Api
pub mod Server
pub mod Handlers
pub mod Tests
