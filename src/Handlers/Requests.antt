-- ===== src/Handlers/Requests.antt =====
-- server/io.c: what the clients send before the end of a file's definitions, one request after the other.
use cfio.Prelude.{
  ℕ, ◌%◌, ◌^◌, ◌≡◌, ◌≢◌, refl, sym, inl, inr, true, none, some, List, [], ◌∷◌, ◌++◌, ◌==◌, ◌>>=◌,
  Bool-cases, arith,
}
use cfio.Memory.{Bytes}
use cfio.Map.{get_client_num_of_server}
use cfio.Id.Assign.{Option-cases}
use cfio.Id.Server.{Nc, get_nc}
use cfio.Handlers.{error_none, Server, Handled, Setting, unless_error, int_words}
use cfio.Handlers.Define.{create, def_dim, def_var}
use cfio.Handlers.Spec.{Definition, dimension, variable, key_of, known_as, declare, Holds}
use cfio.Handlers.Declared.{NoZero, all_in, def_dim-declares, def_var-declares}
use cfio.Handlers.Declare.{dim_keys_apart, var_keys_apart, dim_apart_var}
use cfio.Handlers.Run.{IsSound, Apart, IsReady}

pub data DefineRequest : Type 0 where
  create_again : (path : Bytes) (cmode : ℕ) → DefineRequest
  dim_request : (name : Bytes) (len id : ℕ) → DefineRequest
  var_request : (name : Bytes) (xtype ndims : ℕ) (dimids : Bytes) (id : ℕ) → DefineRequest

abbrev pub handle :
    {T U L : Type 0} → Setting T U L → ℕ → DefineRequest → Server T U L → Handled T U L
handle k n (create_again path cmode) s = create k path cmode n s
handle k n (dim_request name len id) s = def_dim k n name len id s
handle k n (var_request name xtype ndims dimids id) s = def_var k n name xtype ndims dimids id s

abbrev pub handle_each :
    {T U L : Type 0} → Setting T U L → ℕ → List DefineRequest → Server T U L → Handled T U L
handle_each k n [] s = some (error_none, s)
handle_each k n (r ∷ rs) s = handle k n r s >>= unless_error (λ u. handle_each k n rs u)

abbrev pub declare_request : List Definition → DefineRequest → List Definition
declare_request defs (create_again path cmode) = defs
declare_request defs (dim_request name len id) = declare defs (dimension id name (len % 2 ^ 32))
declare_request defs (var_request name xtype ndims dimids id) =
    declare defs (variable id name xtype ndims (int_words ndims dimids) [])

abbrev pub declare_each : List Definition → List DefineRequest → List Definition
declare_each defs [] = defs
declare_each defs (r ∷ rs) = declare_each (declare_request defs r) rs

-- No id is 0, and a variable's dimensions were defined before.
abbrev pub IsFit : List Definition → DefineRequest → Type 0
IsFit defs (create_again path cmode) = Unit
IsFit defs (dim_request name len id) = id ≢ 0
IsFit defs (var_request name xtype ndims dimids id) =
    (id ≢ 0) × NoZero (int_words ndims dimids) × (all_in defs (int_words ndims dimids) ≡ true)

abbrev pub EachFit : List Definition → List DefineRequest → Type 0
EachFit defs [] = Unit
EachFit defs (r ∷ rs) = IsFit defs r × EachFit (declare_request defs r) rs

-- A definition whose id is new has another key than those before it.
module _ (n : ℕ) where
  new_key :
      (e d : Definition) (defs : List Definition)
      → IsSound e
      → IsSound d
      → known_as (e ∷ defs) d ≡ none
      → (key_of n e ≢ key_of n d) × (known_as defs d ≡ none)
  new_key (dimension i m l) (dimension id name len) defs se sd h = elim (Bool-cases (i == id)) [
    | inl e ↦ absurd (ground arith)
    | inr e ↦ (dim_keys_apart n i id (λ q. ground arith), ground arith)
  ]
  new_key (dimension i m l) (variable id name xtype ndims dims atts) defs se sd h =
      (dim_apart_var n i id se, h)
  new_key (variable i m x r ds atts') (dimension id name len) defs se sd h =
      ((λ q. dim_apart_var n id i sd (sym q)), h)
  new_key (variable i m x r ds atts') (variable id name xtype ndims dims atts) defs se sd h =
      elim (Bool-cases (i == id)) [
        | inl e ↦ absurd (ground arith)
        | inr e ↦ (var_keys_apart n i id (λ q. ground arith), ground arith)
      ]

  Apart-append :
      (e d : Definition) (defs : List Definition)
      → Apart n e defs
      → key_of n e ≢ key_of n d
      → Apart n e (defs ++ (d ∷ []))
  Apart-append e d [] a ne = (ne, tt)
  Apart-append e d (x ∷ defs) a ne = (a.0, Apart-append e d defs a.1 ne)

  IsReady-append :
      (defs : List Definition) (d : Definition)
      → IsReady n defs
      → IsSound d
      → known_as defs d ≡ none
      → IsReady n (defs ++ (d ∷ []))
  IsReady-append [] d r s h = (s, tt, tt)
  IsReady-append (e ∷ defs) d r s h =
      let (ne, rest) = new_key e d defs r.0 s h in
      (r.0, Apart-append e d defs r.1 ne, IsReady-append defs d r.2 s rest)

  pub declare-IsReady :
      (defs : List Definition) (d : Definition)
      → IsReady n defs
      → IsSound d
      → IsReady n (declare defs d)
  declare-IsReady defs d r s = elim (Option-cases (known_as defs d)) [
    | inl e ↦ rw (declare, e) (IsReady-append defs d r s e)
    | inr (old, e) ↦ rw (declare, e) r
  ]

  pub declare_request-IsReady :
      (defs : List Definition) (r : DefineRequest)
      → IsReady n defs
      → IsFit defs r
      → IsReady n (declare_request defs r)
  declare_request-IsReady defs (create_again path cmode) ready fit = ready
  declare_request-IsReady defs (dim_request name len id) ready fit =
      declare-IsReady defs (dimension id name (len % 2 ^ 32)) ready fit
  declare_request-IsReady defs (var_request name xtype ndims dimids id) ready fit =
      declare-IsReady defs (variable id name xtype ndims (int_words ndims dimids) []) ready
        (fit.0, fit.1)

module _ {T U L : Type 0} (k : Setting T U L) (clients n : ℕ) (nc : Nc)
    (num : get_client_num_of_server k.config k.server_id ≡ some clients)
    (some_clients : clients ≢ 0) where
  handle-declares :
      (s : Server T U L) (defs : List Definition) (r : DefineRequest)
      → Holds k.map_ops clients s.map_table n nc defs
      → IsFit defs r
      → (t : T) × (handle k n r s ≡ some (error_none, record s { map_table = t }))
        × Holds k.map_ops clients t n nc (declare_request defs r)
  unfolding create get_nc
  handle-declares s defs (create_again path cmode) holds fit = (s.map_table, rw holds.file, holds)
  handle-declares s defs (dim_request name len id) holds fit =
      def_dim-declares k clients n nc defs s name len id holds fit
  handle-declares s defs (var_request name xtype ndims dimids id) holds fit =
      def_var-declares k clients n nc defs s name xtype ndims dimids id holds fit.0 fit.1 num
        some_clients fit.2

  -- While the table holds a file with a list of definitions, which have different keys and ids
  -- other than 0, and nothing else under its keys, requests to create the file again and to define
  -- dimensions and variables, with ids other than 0, variables behind their dimensions and a
  -- server that has clients, return CFIO_ERROR_NONE and leave the library alone; the table then
  -- holds the file with the definitions of those ids that were not there added in the order of
  -- arrival, and no two definitions have the same key.
  pub handle_each-declares :
      (s : Server T U L) (defs : List Definition) (rs : List DefineRequest)
      → Holds k.map_ops clients s.map_table n nc defs
      → IsReady n defs
      → EachFit defs rs
      → (t : T) × (handle_each k n rs s ≡ some (error_none, record s { map_table = t }))
        × Holds k.map_ops clients t n nc (declare_each defs rs)
        × IsReady n (declare_each defs rs)
  handle_each-declares s defs [] holds ready fit = (s.map_table, refl, holds, ready)
  handle_each-declares s defs (r ∷ rs) holds ready fit =
      let (t, h, now) = handle-declares s defs r holds fit.0 in
      let (u, each, after, still) =
        handle_each-declares (record s { map_table = t }) (declare_request defs r) rs now
          (declare_request-IsReady n defs r ready fit.0) fit.1 in
      (u, rw h each, after, still)
