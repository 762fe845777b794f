-- ===== src/Id/Server/Laws.antt =====
-- common/id.c: what a server finds after a change.
use cfio.Prelude.{ℕ, ◌≡◌, Option, some, [], ◌∷◌, ◌++◌, get_elem?, set}
use cfio.Table.{HashTable, search}
use cfio.Id.{Key, Att, var_key}
use cfio.Id.Server.{Variable, Data, Entry, put_var, put_att}

module _ {T : Type 0} (h : HashTable Key Entry T) where
  pub put_var-found :
      (t : T) (n id i : ℕ) (sent : Data) (val : Entry) (var : Variable) (old : Option Data)
      → search h t (var_key n id) ≡ some val
      → val.var ≡ some var
      → get_elem? var.recv_data i ≡ some old
      → put_var h t n id i sent
        ≡ some (
            some (
              h.write t (var_key n id) (record val {
                var = some (record var { recv_data = set var.recv_data i (some sent) });
              })))
  unfolding put_var
  put_var-found t n id i sent val var old e v o = rw (e, v, o)

  pub put_att-found :
      (t : T) (n id : ℕ) (att : Att) (val : Entry) (var : Variable)
      → search h t (var_key n id) ≡ some val
      → val.var ≡ some var
      → put_att h t n id att
        ≡ some (
            some (
              h.write t
                (var_key n id)
                (record val { var = some (record var { att_head = var.att_head ++ (att ∷ []) }) })))
  unfolding put_att
  put_att-found t n id att val var e v = rw (e, v)
