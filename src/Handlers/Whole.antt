-- ===== src/Handlers/Whole.antt =====
-- server/io.c: a file from its creation to the end of its definitions.
use cfio.Prelude.{ℕ, ◌≡◌, ◌≢◌, refl, ◌⊎◌, true, false, none, some, List, []}
use cfio.Memory.{Bytes}
use cfio.Table.{search}
use cfio.Map.{server, proc_type, get_client_num_of_server, IsValid}
use cfio.Id.Server.{Nc, invalid}
use cfio.Io.Served.{Member, All, IsServed}
use cfio.Handlers.{error_none, Server, Setting}
use cfio.Handlers.Define.{create}
use cfio.Handlers.Enddef.{failed, enddef, enddef_key}
use cfio.Handlers.Created.{Absent, create-Holds}
use cfio.Handlers.Known.{Known}
use cfio.Handlers.Run.{define_all}
use cfio.Handlers.Ended.{file_of}
use cfio.Handlers.Requests.{DefineRequest, handle_each, declare_each, EachFit, handle_each-declares}
use cfio.Handlers.Collect.{each_client}
use cfio.Handlers.Protocol.{enddef-defines}

module _ {T U L : Type 0} (k : Setting T U L) (clients n : ℕ) (v : IsValid k.config)
    (hs : proc_type k.config k.server_id ≡ server)
    (num : get_client_num_of_server k.config k.server_id ≡ some clients)
    (some_clients : clients ≢ 0) (last : ℕ) (last_served : IsServed k.config k.server_id last) where
  -- On a server of a valid decomposition, in whose tables nothing of a file is: when the library
  -- creates the file, then further requests to create it and to define dimensions and variables
  -- arrive in any order and from any clients, with ids that are not 0 and variables behind their
  -- dimensions, and then each client of the server ends the definitions, all these requests return
  -- CFIO_ERROR_NONE; the library has then been given exactly the file, the first definition for
  -- each id, in the order of their arrival and with the ids that it gave to the dimensions before,
  -- and the end of the definitions, when it accepts these and gives the file an id other than -1.
  -- The table then has the file in data mode and each dimension and variable with the library's
  -- id, and the request to end is no longer pending.
  pub whole-defines :
      (s : Server T U L) (path : Bytes) (cmode nc_id : ℕ) (l : L) (rs : List DefineRequest)
      (js : List ℕ) (r : List (ℕ × ℕ) × List (ℕ × ℕ) × L) (ret : ℕ) (l' : L)
      → Absent k.map_ops s.map_table n
      → k.lib.create s.nc path cmode ≡ (k.lib.noerr, nc_id, l)
      → nc_id ≢ invalid
      → EachFit [] rs
      → define_all k nc_id (declare_each [] rs) [] [] l ≡ some r
      → k.lib.enddef r.2 nc_id ≡ (ret, l')
      → failed ret ≡ false
      → search k.io_ops s.io_table (enddef_key n) ≡ none
      → All (IsServed k.config k.server_id) js
      → All (λ i. i ≢ last) js
      → ((i : ℕ) → IsServed k.config k.server_id i → (i ≡ last) ⊎ Member i js)
      → (a : T) × (b : T) × (t : T) × (u : U) × (create k path cmode n s
          ≡ some (error_none, record s { map_table = a; nc = l }))
        × (handle_each k n rs (record s { map_table = a; nc = l })
            ≡ some (error_none, record s { map_table = b; nc = l }))
        × (each_client (λ i. enddef k i n) (record s { map_table = b; nc = l }) js last
            ≡ some (error_none, record s { map_table = t; io_table = u; nc = l' }))
        × Known k.map_ops t n
            (file_of n (record { nc_id = nc_id; define_mode = false }) (declare_each [] rs))
            r.0
            r.1
        × (search k.io_ops u (enddef_key n) ≡ none)
  whole-defines s path cmode nc_id l rs js r ret l' absent created made fit defined ended fine fresh
        served others every =
      let nc : Nc = record { nc_id = nc_id; define_mode = true } in
      let (a, first, empty) = create-Holds k clients n s path cmode nc_id l absent created in
      let (b, each, holds, ready) =
        handle_each-declares k clients n nc num some_clients (record s { map_table = a; nc = l }) []
          rs empty tt fit in
      let (t, u, done, known, gone) =
        enddef-defines k clients n nc (declare_each [] rs) v hs last last_served
          (record s { map_table = b; nc = l }) js r ret l' holds ready made refl defined ended fine
          fresh served others every in
      (a, b, t, u, first, each, done, known, gone)
