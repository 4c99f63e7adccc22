-- ===== src/CpKeepalive/Connection.antt =====
-- db_keepalive_init_connection: the socket, its local port and its connection, with the tries.
pub mod Sockets
use bk_solution_doorbell.Base.{
  ℕ, zero, suc, ◌+◌, ◌*◌, ◌%◌, ◌^◌, ◌≤◌, ◌≡◌, refl, Bool, true, false, Option, none, some, List, [],
  ◌∷◌, ◌++◌, arith, if◌then◌else◌, bit_and, All, All-append,
}
use bk_solution_doorbell.CpKeepalive.{
  Env, Action, open_socket, set_timeout, bind_port, connect_to, close_socket,
}

-- DB_KEEPALIVE_CP_BIND_PORT_START and DB_KEEPALIVE_CP_BIND_PORT_COUNT.
abbrev pub bind_port_start : ℕ
bind_port_start = 4096

abbrev pub bind_port_count : ℕ
bind_port_count = 17

-- DB_KEEPALIVE_MAX_RETRY_CNT.
abbrev pub max_retry_cnt : ℕ
max_retry_cnt = 5

-- What the calls of one try return; `bound i port` is whether the `i`-th bind succeeds.
pub record Attempt : Type 0 where
  pub opened : Option ℕ
  pub bound : (i port : ℕ) → Bool
  pub connected : Bool

abbrev pub next_seed : ℕ → ℕ
next_seed seed = bit_and ((seed * 1103515245 + 12345) % 4294967296) 2147483647

abbrev pub port_of : (seed : ℕ) → ℕ
port_of seed = (bind_port_start + seed % bind_port_count) % 65536

-- The loop over `bind_attempt`, with the tries that are left: whether one succeeded, and `s_bind_seed`.
unfoldable pub bind_loop :
    (left i : ℕ) (bound : (i port : ℕ) → Bool) (seed : ℕ) → Bool × ℕ × List Action
bind_loop zero i bound seed = (false, seed, [])
bind_loop (suc left) i bound seed =
    let seed' = next_seed seed in
    let port = port_of seed' in
    let (ok, last, acts) = bind_loop left (i + 1) bound seed' in
    if bound i port
    then (true, seed', bind_port port true ∷ [])
    else (ok, last, bind_port port false ∷ acts)

-- One round of the loop over `retry_cnt` with a socket.
unfoldable pub attempt_with :
    (sock : ℕ) (server : List ℕ) (port : ℕ) → Attempt → (seed : ℕ) → Bool × ℕ × List Action
unfolding bind_loop
attempt_with sock server port a seed =
    let (bound, seed', binds) = bind_loop bind_port_count 0 a.bound seed in
    let prepared = set_timeout 3000 ∷ binds in
    if bound
    then (if a.connected
        then (true, seed', prepared ++ (connect_to server port true ∷ []))
        else (false, seed', prepared ++ (connect_to server port false ∷ close_socket sock ∷ [])))
    else (false, seed', prepared ++ (close_socket sock ∷ []))

-- One round, from the result of `socket` on: the socket if it is connected.
unfoldable pub attempt_on :
    Option ℕ → (server : List ℕ) (port : ℕ) → Attempt → (seed : ℕ) → Option ℕ × ℕ × List Action
unfolding attempt_with
attempt_on none server port a seed = (none, seed, open_socket none ∷ [])
attempt_on (some sock) server port a seed =
    let (ok, seed', acts) = attempt_with sock server port a seed in
    (if ok then some sock else none, seed', open_socket (some sock) ∷ acts)

unfoldable pub attempt :
    (server : List ℕ) (port : ℕ) → Attempt → (seed : ℕ) → Option ℕ × ℕ × List Action
unfolding attempt_on
attempt server port a seed = attempt_on a.opened server port a seed

-- A connected socket ends the loop over `retry_cnt`.
abbrev pub or_else :
    Option ℕ → (seed : ℕ) → List Action → Option ℕ × ℕ × List Action → Option ℕ × ℕ × List Action
or_else none seed acts later = (later.0, later.1, acts ++ later.2)
or_else (some n) seed acts later = (some n, seed, acts)

-- The loop over `retry_cnt`, with the rounds that are left and their number so far.
unfoldable pub connect_loop :
    (left i : ℕ) (server : List ℕ) (port : ℕ) (world : ℕ → Attempt) (seed : ℕ)
    → Option ℕ × ℕ × List Action
unfolding attempt
connect_loop zero i server port world seed = (none, seed, [])
connect_loop (suc left) i server port world seed =
    let (sock, seed', acts) = attempt server port (world i) seed in
    let (sock', last, rest) = connect_loop left (i + 1) server port world seed' in
    or_else sock seed' acts (sock', last, rest)

-- db_keepalive_init_connection: BK_OK exactly if the environment then has a socket.
unfoldable pub init_connection : (world : ℕ → Attempt) (seed : ℕ) → Env → Env × ℕ × List Action
unfolding connect_loop
init_connection world seed e =
    let (sock, seed', acts) = connect_loop max_retry_cnt 0 e.server e.port world seed in
    (record e { sock = sock }, seed', acts)
