-- ===== src/CpKeepalive/Connection/Sockets.antt =====
-- The sockets, the ports and the number of the tries to connect.
use bk_solution_doorbell.Base.{
  ℕ, zero, suc, ◌+◌, ◌≤◌, ◌≡◌, refl, ap, ◌∙◌, ◌==◌, if◌then◌else◌, inl, inr, Bool, true, false,
  Option, none, some, List, [], ◌∷◌, ◌++◌, arith, All, All-append, Bool-cases,
}
use bk_solution_doorbell.CpKeepalive.{Env, Action, open_socket, bind_port, connect_to, close_socket}
use bk_solution_doorbell.CpKeepalive.Connection.{
  Attempt, bind_loop, attempt_with, attempt_on, attempt, or_else, connect_loop, init_connection,
  port_of, next_seed,
}

-- DB_KEEPALIVE_CP_BIND_PORT_START to DB_KEEPALIVE_CP_BIND_PORT_END.
abbrev pub PortInRange : Action → Type 0
PortInRange (bind_port port ok) = (4096 ≤ port) × (port ≤ 4112)
PortInRange _ = Unit

-- The sockets that are open after some calls, the latest first.
abbrev pub drop_socket : ℕ → List ℕ → List ℕ
drop_socket n [] = []
drop_socket n (x ∷ xs) = if x == n then xs else x ∷ drop_socket n xs

abbrev pub open_after : List Action → List ℕ → List ℕ
open_after [] socks = socks
open_after (open_socket (some n) ∷ acts) socks = open_after acts (n ∷ socks)
open_after (close_socket n ∷ acts) socks = open_after acts (drop_socket n socks)
open_after (_ ∷ acts) socks = open_after acts socks

abbrev pub connects : List Action → ℕ
connects [] = 0
connects (connect_to server port ok ∷ acts) = suc (connects acts)
connects (_ ∷ acts) = connects acts

-- How many calls of `connect` succeed.
abbrev pub joins : List Action → ℕ
joins [] = 0
joins (connect_to server port true ∷ acts) = suc (joins acts)
joins (_ ∷ acts) = joins acts

abbrev pub one_of : Option ℕ → ℕ
one_of none = 0
one_of (some n) = 1

-- A socket that is kept, before others.
abbrev pub with_socket : Option ℕ → List ℕ → List ℕ
with_socket none socks = socks
with_socket (some n) socks = n ∷ socks

open_after-append :
    (xs ys : List Action) (socks : List ℕ)
    → open_after (xs ++ ys) socks ≡ open_after ys (open_after xs socks)
open_after-append [] ys socks = refl
open_after-append (open_socket (some n) ∷ xs) ys socks = open_after-append xs ys (n ∷ socks)
open_after-append (close_socket n ∷ xs) ys socks = open_after-append xs ys (drop_socket n socks)
open_after-append (open_socket none ∷ xs) ys socks = open_after-append xs ys socks
open_after-append (_ ∷ xs) ys socks = open_after-append xs ys socks

joins-append : (xs ys : List Action) → joins (xs ++ ys) ≡ joins xs + joins ys
joins-append [] ys = omega arith
joins-append (x ∷ xs) ys = ground (arith, joins-append xs ys)

drop_socket-first : (n : ℕ) (socks : List ℕ) → drop_socket n (n ∷ socks) ≡ socks
drop_socket-first n socks = ground arith

connects-append : (xs ys : List Action) → connects (xs ++ ys) ≡ connects xs + connects ys
connects-append [] ys = omega arith
connects-append (x ∷ xs) ys = ground (arith, connects-append xs ys)

port-InRange : (seed : ℕ) → (4096 ≤ port_of seed) × (port_of seed ≤ 4112)
port-InRange seed = (omega arith, omega arith)

-- Binding opens, closes and connects nothing.
abbrev Binds : List Action → Type 0
Binds acts =
    All PortInRange acts
    × ((socks : List ℕ) → open_after acts socks ≡ socks)
    × (joins acts ≡ 0)
    × (connects acts ≡ 0)

bind_loop-Binds :
    (left i : ℕ) (bound : (i port : ℕ) → Bool) (seed : ℕ) → Binds (bind_loop left i bound seed).2
unfolding bind_loop
bind_loop-Binds zero i bound seed = (tt, (λ socks. refl), refl, refl)
bind_loop-Binds (suc left) i bound seed =
    let seed' = next_seed seed in
    let h = port-InRange seed' in
    let ih = bind_loop-Binds left (i + 1) bound seed' in
    elim (Bool-cases (bound i (port_of seed'))) [
      | inl k ↦ rw k ((h, tt), (λ socks. refl), refl, refl)
      | inr k ↦ rw k ((h, ih.0), ih.1, ih.2, ih.3)
    ]

-- Besides the sockets that were open before, exactly the result is open; one call of `connect` succeeded if there is one and none
-- if not, with at most some calls of `connect`.
abbrev Settled : ℕ → Option ℕ × ℕ × List Action → Type 0
Settled n r =
    All PortInRange r.2
    × ((socks : List ℕ) → open_after r.2 socks ≡ with_socket r.0 socks)
    × (joins r.2 ≡ one_of r.0)
    × (connects r.2 ≤ n)

tail-Settled :
    (acts rest : List Action)
    → Binds acts
    → All PortInRange rest
    → All PortInRange (acts ++ rest)
      × ((socks : List ℕ) → open_after (acts ++ rest) socks ≡ open_after rest socks)
      × (joins (acts ++ rest) ≡ joins rest)
      × (connects (acts ++ rest) ≡ connects rest)
tail-Settled acts rest h k = (
  All-append PortInRange acts rest h.0 k,
  λ socks. open_after-append acts rest socks ∙ ap (open_after rest) (h.1 socks),
  omega (arith, joins-append acts rest, h.2),
  omega (arith, connects-append acts rest, h.3),
)

attempt-Settled :
    (opened : Option ℕ) (server : List ℕ) (port : ℕ) (a : Attempt) (seed : ℕ)
    → Settled 1 (attempt_on opened server port a seed)
unfolding attempt_on attempt_with
attempt-Settled none server port a seed = ((tt, tt), (λ socks. refl), refl, omega arith)
attempt-Settled (some sock) server port a seed =
    let binds = (bind_loop 17 0 a.bound seed).2 in
    let h = bind_loop-Binds 17 0 a.bound seed in
    let up = tail-Settled binds (connect_to server port true ∷ []) h (tt, tt) in
    let down =
      tail-Settled binds (connect_to server port false ∷ close_socket sock ∷ []) h (tt, (tt, tt)) in
    let unbound = tail-Settled binds (close_socket sock ∷ []) h (tt, tt) in
    let back = drop_socket-first sock in
    elim (Bool-cases (bind_loop 17 0 a.bound seed).0) [
      | inl k ↦ elim (Bool-cases a.connected) [
        | inl c ↦
            rw (k, c) ((tt, (tt, up.0)), (λ socks. up.1 (sock ∷ socks)), up.2, omega (arith, up.3))
        | inr c ↦
            rw (k, c)
              (
                (tt, (tt, down.0)),
                (λ socks. down.1 (sock ∷ socks) ∙ back socks),
                down.2,
                omega (arith, down.3),
              )
      ]
      | inr k ↦ rw k (
        (tt, (tt, unbound.0)),
        (λ socks. unbound.1 (sock ∷ socks) ∙ back socks),
        unbound.2,
        omega (arith, unbound.3),
      )
    ]

or_else-Settled :
    (n : ℕ) (sock : Option ℕ) (seed : ℕ) (acts : List Action) (later : Option ℕ × ℕ × List Action)
    → Settled 1 (sock, seed, acts)
    → Settled n later
    → Settled (suc n) (or_else sock seed acts later)
or_else-Settled n none seed acts later h k = (
  All-append PortInRange acts later.2 h.0 k.0,
  (λ socks. open_after-append acts later.2 socks ∙ ap (open_after later.2) (h.1 socks) ∙ k.1 socks),
  omega (arith, joins-append acts later.2, h.2, k.2),
  omega (arith, connects-append acts later.2, h.3, k.3),
)
or_else-Settled n (some s) seed acts later h k = (h.0, h.1, h.2, omega (arith, h.3))

connect_loop-Settled :
    (left i : ℕ) (server : List ℕ) (port : ℕ) (world : ℕ → Attempt) (seed : ℕ)
    → Settled left (connect_loop left i server port world seed)
unfolding connect_loop attempt
connect_loop-Settled zero i server port world seed = (tt, (λ socks. refl), refl, omega arith)
connect_loop-Settled (suc left) i server port world seed =
    let (sock, seed', acts) = attempt_on (world i).opened server port (world i) seed in
    or_else-Settled left sock seed' acts (connect_loop left (i + 1) server port world seed')
      (attempt-Settled (world i).opened server port (world i) seed)
      (connect_loop-Settled left (i + 1) server port world seed')

-- Whatever the calls return, the connection is tried at most five times, every local port that is tried
-- lies between 0x1000 and 0x1010, and besides the sockets that were open before exactly the one that the environment
-- then has is open, if it has one: every other that was opened is closed. Of the calls of `connect` exactly one succeeds if
-- the environment then has a socket, and none if not.
pub init_connection-Settled :
    (world : ℕ → Attempt) (seed : ℕ) (e : Env) (socks : List ℕ)
    → let r = init_connection world seed e in
      All PortInRange r.2
      × (open_after r.2 socks ≡ with_socket r.0.sock socks)
      × (joins r.2 ≡ one_of r.0.sock)
      × (connects r.2 ≤ 5)
unfolding init_connection
init_connection-Settled world seed e socks =
    let (ports, sockets, joined, tried) = connect_loop-Settled 5 0 e.server e.port world seed in
    (ports, sockets socks, joined, tried)
