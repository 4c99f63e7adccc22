-- ===== src/CpKeepalive/Ipc/Balance.antt =====
-- What the coprocessor allocates for the keepalive, and frees.
use bk_solution_doorbell.CpKeepalive.Ipc.{Step, keepalive_start, step}
use bk_solution_doorbell.Base.{
  ℕ, zero, suc, ◌+◌, ◌≡◌, refl, Bool, true, false, not, ◌||◌, Option, none, some, List, [], ◌∷◌,
  ◌++◌, arith, take, if◌then◌else◌,
}
use bk_solution_doorbell.DbPack
use bk_solution_doorbell.CpKeepalive.Connection.{
  bind_loop, next_seed, attempt_on, attempt_with, attempt, or_else, connect_loop, Attempt,
}
use bk_solution_doorbell.CpKeepalive.{
  Env, Cfg, InitResults, Action, cp_init, init_rest, cp_start, cp_stop, cp_deinit, zeroed,
  connect_to, close_socket, malloc_buffer, free_buffer, init_semaphore, deinit_semaphore,
  init_timer, deinit_timer,
}

-- What is allocated.
pub data Res : Type 0 where
  buffer semaphore timer : Res

abbrev one_if : Bool → ℕ
one_if b = if b then 1 else 0

-- How many the environment points to.
abbrev pub held : Res → Env → ℕ
held buffer e = one_if e.has_rx_buffer + one_if e.has_rx_raw_buffer
held semaphore e = one_if e.has_sema
held timer e = one_if e.has_timer

abbrev pub takes : Res → Action → ℕ
takes buffer (malloc_buffer true) = 1
takes semaphore (init_semaphore true) = 1
takes timer (init_timer v true) = 1
takes _ _ = 0

abbrev pub gives : Res → Action → ℕ
gives buffer free_buffer = 1
gives semaphore deinit_semaphore = 1
gives timer deinit_timer = 1
gives _ _ = 0

-- How many were allocated and freed.
abbrev pub taken : Res → List Action → ℕ
taken r [] = 0
taken r (a ∷ acts) = takes r a + taken r acts

abbrev pub given : Res → List Action → ℕ
given r [] = 0
given r (a ∷ acts) = gives r a + given r acts

pub taken-append : (r : Res) (xs ys : List Action) → taken r (xs ++ ys) ≡ taken r xs + taken r ys
taken-append r [] ys = omega arith
taken-append r (x ∷ xs) ys = omega (arith, taken-append r xs ys)

pub given-append : (r : Res) (xs ys : List Action) → given r (xs ++ ys) ≡ given r xs + given r ys
given-append r [] ys = omega arith
given-append r (x ∷ xs) ys = omega (arith, given-append r xs ys)

abbrev pub Balanced : Res → Env → Env × List Action → Type 0
Balanced r e x = held r e + taken r x.1 ≡ held r x.0 + given r x.1

deinit-Balanced : (r : Res) (e : Env) → Balanced r e (cp_deinit e)
unfolding cp_deinit zeroed
deinit-Balanced r e = ground arith

init_rest-Balanced :
    (r : Res) (i : InitResults) (e : Env)
    → e.has_rx_buffer ≡ true
    → e.has_rx_raw_buffer ≡ true
    → e.has_sema ≡ false
    → e.has_timer ≡ false
    → let x = init_rest i e in Balanced r e (x.1, x.2)
unfolding init_rest DbPack.init DbPack.deinit
init_rest-Balanced r i e h k l m = ground arith

-- Whether the environment points to anything that is allocated.
abbrev pub has_any : Env → Bool
has_any e = e.has_rx_buffer || e.has_rx_raw_buffer || e.has_sema || e.has_timer

-- An environment without a keepalive and without its sending thread points to nothing.
abbrev pub IsClean : Env → Type 0
IsClean e = (e.ongoing || e.has_tx || not (has_any e)) ≡ true

-- A start is refused, or the sending thread of the last keepalive has ended.
abbrev pub IsFitting : Step → Env → Type 0
IsFitting (keepalive_start cfg i created) e = (e.ongoing || not e.has_tx) ≡ true
IsFitting _ e = Unit

abbrev pub AllFit : List Step → Env → Type 0
AllFit [] e = Unit
AllFit (x ∷ xs) e = IsFitting x e × AllFit xs (step x e).0

abbrev pub Sound : Res → Env → Env × List Action → Type 0
Sound r e x = Balanced r e x × IsClean x.0

init_rest-Sound :
    (r : Res) (i : InitResults) (e : Env)
    → e.has_tx ≡ false
    → e.has_rx_buffer ≡ true
    → e.has_rx_raw_buffer ≡ true
    → e.has_sema ≡ false
    → e.has_timer ≡ false
    → let x = init_rest i e in Sound r e (x.1, x.2)
unfolding init_rest DbPack.init DbPack.deinit
init_rest-Sound r i e h k l m n = ground arith

pub start-Sound :
    (r : Res) (created : Bool) (e : Env)
    → IsClean e
    → let x = cp_start created e in Sound r e (x.1, x.2)
unfolding cp_start
start-Sound r created e h = ground arith

pub stop-Sound : (r : Res) (e : Env) → IsClean e → Sound r e (cp_stop e)
unfolding cp_stop cp_deinit zeroed
stop-Sound r e h = ground arith

pub deinit-Sound : (r : Res) (e : Env) → Sound r e (cp_deinit e)
unfolding cp_deinit zeroed
deinit-Sound r e = ground arith

held_nothing : (r : Res) (e : Env) → has_any e ≡ false → held r e ≡ 0
held_nothing r e h = ground arith

pub init-Sound :
    (r : Res) (cfg : Cfg) (i : InitResults) (created : Bool) (e : Env)
    → IsClean e
    → IsFitting (keepalive_start cfg i created) e
    → let x = cp_init (some cfg) i e in Sound r e (x.1, x.2)
unfolding cp_init zeroed
init-Sound r cfg i created e h k =
    let e1 = record (zeroed e.pack) {
      server = take 31 cfg.server;
      port = cfg.port;
      interval_ms = 30000;
      has_rx_buffer = true;
      has_rx_raw_buffer = true;
    } in
    let rest = init_rest-Sound r i e1 refl refl refl refl refl in
    ground (arith, rest, held_nothing r e)

pub chain-Balanced :
    (r : Res) (e e1 e2 : Env) (xs ys : List Action)
    → Balanced r e (e1, xs)
    → Balanced r e1 (e2, ys)
    → Balanced r e (e2, xs ++ ys)
chain-Balanced r e e1 e2 xs ys h k = omega (arith, taken-append r xs ys, given-append r xs ys, h, k)

-- Calls that allocate and free nothing.
abbrev pub IsNeutral : Res → List Action → Type 0
IsNeutral r acts = (taken r acts ≡ 0) × (given r acts ≡ 0)

pub IsNeutral-append :
    (r : Res) (xs ys : List Action) → IsNeutral r xs → IsNeutral r ys → IsNeutral r (xs ++ ys)
IsNeutral-append r xs ys h k =
    (omega (arith, taken-append r xs ys, h.0, k.0), omega (arith, given-append r xs ys, h.1, k.1))

bind_loop-IsNeutral :
    (r : Res) (left i : ℕ) (bound : (i port : ℕ) → Bool) (seed : ℕ)
    → IsNeutral r (bind_loop left i bound seed).2
unfolding bind_loop
bind_loop-IsNeutral r zero i bound seed = (refl, refl)
bind_loop-IsNeutral r (suc left) i bound seed =
    ground (arith, bind_loop-IsNeutral r left (i + 1) bound (next_seed seed))

attempt-IsNeutral :
    (r : Res) (opened : Option ℕ) (server : List ℕ) (port : ℕ) (a : Attempt) (seed : ℕ)
    → IsNeutral r (attempt_on opened server port a seed).2
unfolding attempt_on attempt_with
attempt-IsNeutral r none server port a seed = ground arith
attempt-IsNeutral r (some sock) server port a seed =
    let h = bind_loop-IsNeutral r 17 0 a.bound seed in
    let binds = (bind_loop 17 0 a.bound seed).2 in
    let up = IsNeutral-append r binds (connect_to server port true ∷ []) h (ground arith) in
    let down =
      IsNeutral-append r binds (connect_to server port false ∷ close_socket sock ∷ []) h
        (ground arith) in
    let unbound = IsNeutral-append r binds (close_socket sock ∷ []) h (ground arith) in
    ground (arith, up, down, unbound)

or_else-IsNeutral :
    (r : Res) (sock : Option ℕ) (seed : ℕ) (acts : List Action) (later : Option ℕ × ℕ × List Action)
    → IsNeutral r acts
    → IsNeutral r later.2
    → IsNeutral r (or_else sock seed acts later).2
or_else-IsNeutral r none seed acts later h k = IsNeutral-append r acts later.2 h k
or_else-IsNeutral r (some s) seed acts later h k = h

pub connect_loop-IsNeutral :
    (r : Res) (left i : ℕ) (server : List ℕ) (port : ℕ) (world : ℕ → Attempt) (seed : ℕ)
    → IsNeutral r (connect_loop left i server port world seed).2
unfolding connect_loop attempt
connect_loop-IsNeutral r zero i server port world seed = (refl, refl)
connect_loop-IsNeutral r (suc left) i server port world seed =
    let (sock, seed', acts) = attempt_on (world i).opened server port (world i) seed in
    or_else-IsNeutral r sock seed' acts (connect_loop left (i + 1) server port world seed')
      (attempt-IsNeutral r (world i).opened server port (world i) seed)
      (connect_loop-IsNeutral r left (i + 1) server port world seed')
