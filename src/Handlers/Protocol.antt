-- ===== src/Handlers/Protocol.antt =====
-- server/io.c: the requests that all clients send, from the definitions of a file to its end.
use cfio.Prelude.{ℕ, ◌≡◌, ◌≢◌, ◌∙◌, ◌⊎◌, true, false, none, some, List, []}
use cfio.Table.{IsSingle, search, search-del}
use cfio.Id.Remove.{
  Excludes, Distinct, EachSingle, Gone, del_each, del_each-entries, del_each-Gone, del-Gone,
}
use cfio.Message.{func_nc_close}
use cfio.Handlers.Created.{==_refl}
use cfio.Map.{server, proc_type, IsValid}
use cfio.Id.{nc_key}
use cfio.Id.Server.{Nc, Entry, invalid, get_nc, get_val}
use cfio.Io.{remove_client_io}
use cfio.Io.Served.{Member, All, IsServed}
use cfio.Handlers.{error_none, Server, Setting}
use cfio.Handlers.Enddef.{failed, end_file, enddef, enddef_key}
use cfio.Handlers.Write.{close_file, close, io_key}
use cfio.Handlers.Spec.{Definition, Holds}
use cfio.Handlers.Known.{Known}
use cfio.Handlers.Run.{define_all, IsReady}
use cfio.Handlers.Ended.{file_of, define_file-defines}
use cfio.Handlers.Collect.{each_client, collect-acts}

module _ {T U L : Type 0} (k : Setting T U L) (clients n : ℕ) (nc : Nc) (defs : List Definition)
    (v : IsValid k.config) (hs : proc_type k.config k.server_id ≡ server) (last : ℕ)
    (last_served : IsServed k.config k.server_id last) where
  pub enddef-defines :
      (s : Server T U L) (js : List ℕ) (r : List (ℕ × ℕ) × List (ℕ × ℕ) × L) (ret : ℕ) (l : L)
      → Holds k.map_ops clients s.map_table n nc defs
      → IsReady n defs
      → nc.nc_id ≢ invalid
      → nc.define_mode ≡ true
      → define_all k nc.nc_id defs [] [] s.nc ≡ some r
      → k.lib.enddef r.2 nc.nc_id ≡ (ret, l)
      → failed ret ≡ false
      → search k.io_ops s.io_table (enddef_key n) ≡ none
      → All (IsServed k.config k.server_id) js
      → All (λ i. i ≢ last) js
      → ((i : ℕ) → IsServed k.config k.server_id i → (i ≡ last) ⊎ Member i js)
      → (t : T) × (u : U) × (each_client (λ i. enddef k i n) s js last
          ≡ some (error_none, record s { map_table = t; io_table = u; nc = l }))
        × Known k.map_ops t n (file_of n (record nc { define_mode = false }) defs) r.0 r.1
        × (search k.io_ops u (enddef_key n) ≡ none)
  unfolding enddef end_file get_nc
  enddef-defines s js r ret l holds ready made mode e ended fine fresh served others every =
      let (u, each, gone) =
        collect-acts k (enddef_key n) (end_file k n) v hs last last_served s js fresh served others
          every in
      let (t, h, known) =
        define_file-defines k clients n nc defs made (record s { io_table = u }) r ret l holds ready
          e ended fine in
      (t, remove_client_io k.io_ops u (enddef_key n), each ∙ rw (holds.file, mode, h), known, gone)

module _ {T U L : Type 0} (k : Setting T U L) (n : ℕ) (v : IsValid k.config)
    (hs : proc_type k.config k.server_id ≡ server) (last : ℕ)
    (last_served : IsServed k.config k.server_id last) where
  -- On a server of a valid decomposition, where no request to close a file is pending, which is in
  -- the table once, being defined or with its definitions ended, with a list of the keys of its
  -- dimensions and variables that are different from one another and from the file's, each in the
  -- table at most once: when each client of the server closes the file, and the library closes it,
  -- each request returns CFIO_ERROR_NONE, the library closes the file once, and neither the file,
  -- nor any of its dimensions and variables, nor the request is then found.
  pub close-forgets :
      (s : Server T U L) (js : List ℕ) (val : Entry) (nc : Nc) (l : L)
      → search k.map_ops s.map_table (nc_key n) ≡ some val
      → val.nc ≡ some nc
      → IsSingle (k.map_ops.entries s.map_table (nc_key n))
      → Excludes val.link (nc_key n)
      → Distinct val.link
      → EachSingle k.map_ops s.map_table val.link
      → k.lib.close s.nc nc.nc_id ≡ (k.lib.noerr, l)
      → search k.io_ops s.io_table (io_key func_nc_close n 0) ≡ none
      → All (IsServed k.config k.server_id) js
      → All (λ i. i ≢ last) js
      → ((i : ℕ) → IsServed k.config k.server_id i → (i ≡ last) ⊎ Member i js)
      → (t : T) × (u : U) × (each_client (λ i. close k i n) s js last
          ≡ some (error_none, record s { map_table = t; io_table = u; nc = l }))
        × (search k.map_ops t (nc_key n) ≡ none)
        × Gone k.map_ops t val.link
        × (search k.io_ops u (io_key func_nc_close n 0) ≡ none)
  unfolding close close_file get_nc get_val
  close-forgets s js val nc l found is one x d ones closed fresh served others every =
      let key = io_key func_nc_close n 0 in
      let (u, each, gone) =
        collect-acts k key (close_file k n) v hs last last_served s js fresh served others every in
      let left = del_each k.map_ops s.map_table val.link in
      (
        k.map_ops.del left (nc_key n),
        remove_client_io k.io_ops u key,
        each ∙ rw (found, is, closed, ==_refl k.lib.noerr, found),
        search-del k.map_ops left (nc_key n)
            (rw (del_each-entries k.map_ops s.map_table val.link (nc_key n) x) one),
        del-Gone k.map_ops left (nc_key n) val.link x
            (del_each-Gone k.map_ops s.map_table val.link d ones),
        gone,
      )
