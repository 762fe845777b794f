-- ===== src/Handlers/Delivered.antt =====
-- A call on a client, from the ids that it takes to the table of the server that carries it out.
use cfio.Prelude.{
  ℕ, ◌%◌, ◌^◌, ◌<◌, ◌≡◌, ◌≢◌, refl, sym, subst, true, some, List, [], ◌∷◌, length, take-append,
  drop-append,
}
use cfio.Memory.{Bytes, encode}
use cfio.Memory.Laws.{length-encode, decode-encode}
use cfio.Table.{HashTable}
use cfio.Buffer.{Buffer, IsValid}
use cfio.Map.{get_client_num_of_server}
use cfio.Id.{Key, Val, Ids, done, assign_dim, assign_var}
use cfio.Id.Server.{Nc}
use cfio.Message.{Request}
use cfio.Message.Wire.{wire_size}
use cfio.Api.{Client, ints, def_dim, def_var, inq_dimid, inq_varid}
use cfio.Api.Calls.{Ready, def_dim-Arrives, def_var-Arrives}
use cfio.Handlers.{error_none, Server, Setting, int_words}
use cfio.Handlers.Spec.{dimension, variable, Definition, declare, Holds}
use cfio.Handlers.Declared.{NoZero, all_in, def_dim-declares, def_var-declares}
use cfio.Handlers.Perform.{Performs, Arrives-Performs}

-- Each is an `int`'s pattern.
abbrev pub EachInt : List ℕ → Type 0
EachInt [] = Unit
EachInt (x ∷ xs) = (x < 2 ^ 32) × EachInt xs

int_words-ints : (xs : List ℕ) → EachInt xs → int_words (length xs) (ints xs) ≡ xs
unfolding int_words
int_words-ints [] small = refl
int_words-ints (x ∷ xs) small = rw (
  take-append (encode 4 x) (ints xs) 4 (sym (length-encode 4 x)),
  drop-append (encode 4 x) (ints xs) 4 (sym (length-encode 4 x)),
  decode-encode 4 x small.0,
  int_words-ints xs small.1,
)

module _ {T U L S : Type 0} (k : Setting T U L) (data_addr total_data : ℕ) (fuel : ℕ)
    (release : Buffer → Buffer) (rank src : ℕ) (server : Buffer) (h : HashTable Key Val S)
    (nc_global clients : ℕ) (c : Client S) (s : Server T U L) (ncid : ℕ) (nc : Nc)
    (defs : List Definition) (holds : Holds k.map_ops clients s.map_table ncid nc defs) where
  -- When the file's ids on a client give a dimension's name an id that is not zero, and a server's
  -- table holds the file, cfio_def_dim returns that id, when the client's valid buffer is longer
  -- than the well-formed request, which has fewer than 2 ^ 31 bytes, its callback releases bytes,
  -- as many rounds as it has bytes are allowed, and the server's valid buffer has room; the file
  -- then finds the dimension by its name with that id and the client's buffer is valid. When the
  -- request's bytes reach the server, it decodes the message and performs the request, which
  -- changes its table only; the table then holds the file with this dimension, with the same id
  -- and name and the length as an int, unless it held one of that id.
  pub def_dim-Performs :
      (name : Bytes) (len id : ℕ) (t : Ids S)
      → assign_dim h nc_global c.ids ncid name ≡ (done id, t)
      → id ≢ 0
      → Ready fuel release c.buffer server (Request.def_dim ncid name len id)
      → (u : Client S) × (table : T) × (def_dim h nc_global fuel release ncid (some name) len true c
          ≡ some (done id, u))
        × (inq_dimid h nc_global fuel release ncid name u ≡ done id)
        × IsValid u.buffer
        × Performs k data_addr total_data rank src server u.buffer
            (wire_size (Request.def_dim ncid name len id))
            s
            (record s { map_table = table })
        × Holds k.map_ops clients table ncid nc (declare defs (dimension id name (len % 2 ^ 32)))
  def_dim-Performs name len id t assigned nz ready =
      let r = Request.def_dim ncid name len id in
      let (u, call, found, valid, a) =
        def_dim-Arrives fuel release rank src server h nc_global c ncid name len id t assigned
          ready in
      let (table, run, now) = def_dim-declares k clients ncid nc defs s name len id holds nz in
      (
        u,
        table,
        call,
        found,
        valid,
        Arrives-Performs k data_addr total_data rank src server u.buffer r s
            (record s { map_table = table }) a error_none run,
        now,
      )

  -- When the file's ids on a client give a variable's name an id that is not zero, and the table
  -- of a server, which has clients, holds the file with the variable's dimensions, whose ids are
  -- not zero and below 2 ^ 32, cfio_def_var returns that id, when the client's valid buffer is
  -- longer than the well-formed request, which has fewer than 2 ^ 31 bytes, its callback releases
  -- bytes, as many rounds as it has bytes are allowed, and the server's valid buffer has room; the
  -- file then finds the variable by its name with that id and the client's buffer is valid. When
  -- the request's bytes reach the server, it decodes the message and performs the request, which
  -- changes its table only; the table then holds the file with this variable, with the same id,
  -- name, type and dimensions, unless it held one of that id.
  pub def_var-Performs :
      (name : Bytes) (xtype : ℕ) (dimids : List ℕ) (id : ℕ) (t : Ids S)
      → assign_var h nc_global c.ids ncid name (length dimids) dimids ≡ (done id, t)
      → id ≢ 0
      → EachInt dimids
      → NoZero dimids
      → all_in defs dimids ≡ true
      → get_client_num_of_server k.config k.server_id ≡ some clients
      → clients ≢ 0
      → Ready fuel release c.buffer server
          (Request.def_var ncid name xtype (length dimids) (ints dimids) id)
      → (u : Client S) × (table : T) × (def_var h nc_global fuel release ncid
            (some name)
            xtype
            (length dimids)
            dimids
            true
            c
          ≡ some (done id, u))
        × (inq_varid h nc_global fuel release ncid name u ≡ done id)
        × IsValid u.buffer
        × Performs k data_addr total_data rank src server u.buffer
            (wire_size (Request.def_var ncid name xtype (length dimids) (ints dimids) id))
            s
            (record s { map_table = table })
        × Holds k.map_ops clients table ncid nc
            (declare defs (variable id name xtype (length dimids) dimids []))
  def_var-Performs name xtype dimids id t assigned nz small nonzero known num some_clients ready =
      let r = Request.def_var ncid name xtype (length dimids) (ints dimids) id in
      let same = int_words-ints dimids small in
      let (u, call, found, valid, a) =
        def_var-Arrives fuel release rank src server h nc_global c ncid name xtype (length dimids)
          dimids id t assigned nz ready in
      let (table, run, now) =
        def_var-declares k clients ncid nc defs s name xtype (length dimids) (ints dimids) id holds
          nz (rw same nonzero) num some_clients (rw same known) in
      (
        u,
        table,
        call,
        found,
        valid,
        Arrives-Performs k data_addr total_data rank src server u.buffer r s
            (record s { map_table = table }) a error_none run,
        subst
            (λ d.
              Holds k.map_ops clients table ncid nc
                (declare defs (variable id name xtype (length dimids) d [])))
            same now,
      )
