-- ===== src/Map/Pairing.antt =====
-- common/map.c: `cfio_map_get_clients`, `cfio_map_get_server_of_client` and
-- `cfio_map_get_client_index_of_server` describe one pairing of clients with servers.
use cfio.Prelude.{
  ℕ, zero, suc, ◌+◌, ◌-◌, ◌*◌, ◌/◌, ◌<◌, ◌≤◌, ◌≡◌, refl, sym, ◌∙◌, ap, some, List, length,
  get_elem?, arith,
}
use cfio.Map.{
  Config, client, server, proc_type, get_server_index, get_client_num_of_server, client_at,
  clients_from, get_clients, get_client_index_of_server, get_server_of_client, IsValid,
}
use cfio.Map.Clients.{
  px, py, clients_per_server, client_at-lt, server-client_at, index-client_at, home_index,
  server_lem, home_index-lt, index-lt, client_at-home,
}

length-clients_from : (c : Config) (index i n : ℕ) → length (clients_from c index i n) ≡ n
unfolding clients_from
length-clients_from c index i zero = refl
length-clients_from c index i (suc n) = ap suc (length-clients_from c index (i + 1) n)

get-clients_from :
    (c : Config) (index i n k : ℕ)
    → k < n
    → get_elem? (clients_from c index i n) k ≡ some (client_at c index (i + k))
unfolding clients_from
get-clients_from c index i zero k h = absurd (omega arith)
get-clients_from c index i (suc n) zero h = ap (λ j. some (client_at c index j)) (omega arith)
get-clients_from c index i (suc n) (suc k) h =
    get-clients_from c index (i + 1) n k (omega arith)
    ∙ ap (λ j. some (client_at c index j)) (omega arith)

-- A process number is a client's, a server's or neither's by its range.
pub client_iff : (c : Config) (id : ℕ) → proc_type c id ≡ client → id < c.client_amount
unfolding proc_type
client_iff c id h = ground arith

server_range :
    (c : Config) (id : ℕ)
    → proc_type c id ≡ server
    → (c.client_amount ≤ id) × (id - c.client_amount < c.server_amount)
unfolding proc_type
server_range c id h = (ground arith, ground arith)

client_of_lt : (c : Config) (id : ℕ) → id < c.client_amount → proc_type c id ≡ client
unfolding proc_type
client_of_lt c id h = ground arith

server_of_lt :
    (c : Config) (index : ℕ)
    → index < c.server_amount
    → proc_type c (index + c.client_amount) ≡ server
unfolding proc_type
server_of_lt c index h = ground arith

get_clients_lem :
    (c : Config) (id : ℕ)
    → proc_type c id ≡ server
    → get_clients c id
      ≡ some (clients_from c (id - c.client_amount) 0 (c.client_amount / c.server_amount))
unfolding get_clients get_server_index get_client_num_of_server
get_clients_lem c id h = ground arith

pub client_num_lem :
    (c : Config) (id : ℕ)
    → proc_type c id ≡ server
    → get_client_num_of_server c id ≡ some (c.client_amount / c.server_amount)
unfolding get_client_num_of_server
client_num_lem c id h = ground arith

pub client_index-lt :
    (c : Config) (k : ℕ)
    → IsValid c
    → proc_type c k ≡ client
    → get_client_index_of_server c k < c.client_amount / c.server_amount
client_index-lt c k v h = omega (arith, clients_per_server c v, index-lt c v k (client_iff c k h))

-- In a valid decomposition a server has as many clients as cfio_map_get_client_num_of_server says,
-- and each process in its list is a client that finds this server, and finds its own position in
-- the list as its index.
pub get_clients-server :
    (c : Config) (id i : ℕ)
    → IsValid c
    → proc_type c id ≡ server
    → i < c.client_amount / c.server_amount
    → (l : List ℕ) × (k : ℕ) × (get_clients c id ≡ some l)
      × (get_client_num_of_server c id ≡ some (length l))
      × (get_elem? l i ≡ some k)
      × (proc_type c k ≡ client)
      × (get_server_of_client c k ≡ id)
      × (get_client_index_of_server c k ≡ i)
get_clients-server c id i v h hi =
    let (lo, hs) = server_range c id h in
    let index = id - c.client_amount in
    let n = c.client_amount / c.server_amount in
    let hp : i < px c v * py c v = omega (arith, clients_per_server c v) in
    (
      clients_from c index 0 n,
      client_at c index i,
      get_clients_lem c id h,
      client_num_lem c id h ∙ ap some (sym (length-clients_from c index 0 n)),
      get-clients_from c index 0 n i hi ∙ ap (λ j. some (client_at c index j)) (omega arith),
      client_of_lt c (client_at c index i) (client_at-lt c v index i hs hp),
      server-client_at c v index i hs hp ∙ omega arith,
      index-client_at c v index i hs hp,
    )

-- In a valid decomposition the server of a client is a server, and its list of clients holds the
-- client at the index that cfio_map_get_client_index_of_server gives.
pub client-get_clients :
    (c : Config) (k : ℕ)
    → IsValid c
    → proc_type c k ≡ client
    → (l : List ℕ) × (proc_type c (get_server_of_client c k) ≡ server)
      × (get_clients c (get_server_of_client c k) ≡ some l)
      × (get_elem? l (get_client_index_of_server c k) ≡ some k)
client-get_clients c k v h =
    let lt = client_iff c k h in
    let index = home_index c v k lt in
    let n = c.client_amount / c.server_amount in
    let i = get_client_index_of_server c k in
    let s : proc_type c (get_server_of_client c k) ≡ server =
      rw (server_lem c v k lt) (server_of_lt c index (home_index-lt c v k lt)) in
    let same : get_server_of_client c k - c.client_amount ≡ index =
      omega (arith, server_lem c v k lt) in
    (
      clients_from c index 0 n,
      s,
      get_clients_lem c (get_server_of_client c k) s ∙ ap (λ j. some (clients_from c j 0 n)) same,
      get-clients_from c index 0 n i (omega (arith, clients_per_server c v, index-lt c v k lt))
          ∙ ap (λ j. some (client_at c index j)) (let e : 0 + i ≡ i = omega arith in e)
          ∙ ap some (client_at-home c v k lt),
    )
