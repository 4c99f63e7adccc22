-- ===== src/CpKeepalive/Ipc/Whole.antt =====
-- The balance over sequences of messages and of starts and ends of the sending thread, and how it is lost.
use bk_solution_doorbell.Base.{
  ℕ, ◌+◌, ◌≡◌, refl, inl, inr, true, false, Option, some, List, [], ◌∷◌, arith, Bool-cases,
}
use bk_solution_doorbell.DbPack
use bk_solution_doorbell.CpKeepalive.{
  Env, Cfg, InitResults, create_rx, set_filter, cp_init, init_rest, cp_start, cp_stop, cp_deinit,
  zeroed,
}
use bk_solution_doorbell.CpKeepalive.Connection.{init_connection}
use bk_solution_doorbell.CpKeepalive.Receive.{has_sock}
use bk_solution_doorbell.CpKeepalive.Transmit.{
  TxResults, lost, tx_connected, tx_start, init_rx, start_sleep, set_up_timer,
}
use bk_solution_doorbell.CpKeepalive.Ipc.{
  Step, can_begin, keepalive_start, keepalive_stop, tx_starts, tx_exits, step, run,
}
use bk_solution_doorbell.CpKeepalive.Ipc.Balance.{
  Res, buffer, semaphore, held, taken, given, taken-append, given-append, Sound, IsClean, IsNeutral,
  IsFitting, AllFit, chain-Balanced, IsNeutral-append, connect_loop-IsNeutral, init-Sound,
  start-Sound, stop-Sound, deinit-Sound,
}

lost-IsNeutral : (r : Res) → IsNeutral r lost
lost-IsNeutral r = ground arith

create-IsNeutral : (r : Res) → IsNeutral r (create_rx false ∷ [])
create-IsNeutral r = ground arith

rx_fails-Sound :
    (r : Res) (x : TxResults) (e : Env)
    → x.created ≡ false
    → let y = tx_connected x e in (Sound r e (y.1, y.2)) × (y.0 ≡ false)
unfolding tx_connected init_rx
rx_fails-Sound r x e h =
    let (acts, clean) = deinit-Sound r e in
    let cleaned = (cp_deinit e).1 in
    rw h (
      (
        omega (
          arith,
          taken-append r cleaned lost,
          given-append r cleaned lost,
          lost-IsNeutral r,
          create-IsNeutral r,
          acts,
        ),
        clean,
      ),
      refl,
    )

rx_runs-Sound :
    (r : Res) (x : TxResults) (e : Env)
    → x.created ≡ true
    → e.has_tx ≡ true
    → e.has_timer ≡ false
    → let y = tx_connected x e in Sound r e (y.1, y.2)
unfolding tx_connected init_rx start_sleep set_up_timer
rx_runs-Sound r x e h k l = ground arith

connected-Sound :
    (r : Res) (x : TxResults) (e : Env)
    → e.has_tx ≡ true
    → e.has_timer ≡ false
    → let y = tx_connected x e in Sound r e (y.1, y.2)
connected-Sound r x e h k = elim (Bool-cases x.created) [
  | inl c ↦ rx_runs-Sound r x e c h k
  | inr c ↦ (rx_fails-Sound r x e c).0
]

filter-IsNeutral :
    (r : Res) (server : List ℕ) (port : ℕ) → IsNeutral r (set_filter server port ∷ [])
filter-IsNeutral r server port = ground arith

held-sock : (r : Res) (s : Option ℕ) (e : Env) → held r (record e { sock = s }) ≡ held r e
held-sock r s e = ground arith

tx-IsClean : (e : Env) → e.has_tx ≡ true → IsClean e
tx-IsClean e h = ground arith

tx_start-Sound :
    (r : Res) (x : TxResults) (e : Env)
    → e.has_tx ≡ true
    → e.has_timer ≡ false
    → let y = tx_start x e in Sound r e (y.1, y.2)
unfolding tx_start init_connection
tx_start-Sound r x e h k =
    let c = init_connection x.world x.seed e in
    let acts =
      IsNeutral-append r (set_filter e.server e.port ∷ []) c.2 (filter-IsNeutral r e.server e.port)
        (connect_loop-IsNeutral r 5 0 e.server e.port x.world x.seed) in
    let y = tx_connected x c.0 in
    let later = connected-Sound r x c.0 h k in
    let gone = set_filter e.server e.port ∷ c.2 in
    elim (Bool-cases (has_sock c.0)) [
      | inl s ↦ rw s (
        omega (
          arith,
          taken-append r gone y.2,
          given-append r gone y.2,
          acts,
          later.0,
          held-sock r c.0.sock e,
        ),
        later.1,
      )
      | inr s ↦ rw s (
        omega (
          arith,
          taken-append r gone lost,
          given-append r gone lost,
          acts,
          lost-IsNeutral r,
          held-sock r c.0.sock e,
        ),
        tx-IsClean e h,
      )
    ]

idle-Sound : (r : Res) (e : Env) → IsClean e → Sound r e (e, [])
idle-Sound r e h = (omega arith, h)

begin-flags : (e : Env) → can_begin e ≡ true → (e.has_tx ≡ true) × (e.has_timer ≡ false)
begin-flags e h = ground arith

step-Sound : (r : Res) (x : Step) (e : Env) → IsClean e → IsFitting x e → Sound r e (step x e)
unfolding step
step-Sound r (keepalive_start cfg i created) e h k =
    let a = cp_init (some cfg) i e in
    let b = cp_start created a.1 in
    let first = init-Sound r cfg i created e h k in
    let second = start-Sound r created a.1 first.1 in
    elim (Bool-cases a.0) [
      | inl s ↦ rw s (chain-Balanced r e a.1 b.1 a.2 b.2 first.0 second.0, second.1)
      | inr s ↦ rw s first
    ]
step-Sound r keepalive_stop e h k = stop-Sound r e h
step-Sound r (tx_starts t) e h k =
    let a = tx_start t e in
    let b = cp_deinit a.1 in
    elim (Bool-cases (can_begin e)) [
      | inl on ↦
          let (tx, bare) = begin-flags e on in
          let first = tx_start-Sound r t e tx bare in
          let second = deinit-Sound r a.1 in
          elim (Bool-cases a.0) [
            | inl s ↦ rw (on, s) first
            | inr s ↦ rw (on, s) (chain-Balanced r e a.1 b.0 a.2 b.1 first.0 second.0, second.1)
          ]
      | inr off ↦ rw off (omega arith, h)
    ]
step-Sound r tx_exits e h k = elim (Bool-cases e.has_tx) [
  | inl on ↦ simp on (deinit-Sound r e)
  | inr off ↦ (let idle = idle-Sound r e h in simp off (simp off at idle))
]

run-Sound : (r : Res) (xs : List Step) (e : Env) → IsClean e → AllFit xs e → Sound r e (run xs e)
unfolding run
run-Sound r [] e h k = idle-Sound r e h
run-Sound r (x ∷ xs) e h k =
    let a = step x e in
    let b = run xs a.0 in
    let first = step-Sound r x e h k.0 in
    let rest = run-Sound r xs a.0 first.1 k.1 in
    (chain-Balanced r e a.0 b.0 a.1 b.1 first.0 rest.0, rest.1)

-- Since start-up, after any messages and any starts and ends of the sending thread, as many buffers,
-- semaphores and timers were allocated as were freed and as the environment still points to, provided that
-- no start arrives between a stop and the end of the sending thread.
pub run-Balanced :
    (r : Res) (pack : Option DbPack.Chan) (xs : List Step)
    → AllFit xs (zeroed pack)
    → let x = run xs (zeroed pack) in taken r x.1 ≡ held r x.0 + given r x.1
unfolding zeroed
run-Balanced r pack xs h =
    let at_boot : held r (zeroed pack) ≡ 0 = ground arith in
    omega (arith, at_boot, (run-Sound r xs (zeroed pack) refl h).0)

-- A keepalive is stopped and, before its sending thread has ended, started again, with every call
-- successful. The two messages free nothing, allocate two buffers and a semaphore, and leave the
-- environment pointing to just as many: what the first keepalive held is lost.
pub restart_leaks :
    (e : Env) (chan : DbPack.Chan) (cfg : Cfg)
    → e.ongoing ≡ true
    → e.has_tx ≡ true
    → e.pack ≡ some chan
    → let a : DbPack.Allocs = record { chan = true; cbuf = true; tbuf = true } in
      let i : InitResults = record {
        rx_buffer = true;
        rx_raw_buffer = true;
        pack = a;
        sema = true;
      } in
      let x = run (keepalive_stop ∷ keepalive_start cfg i true ∷ []) e in
      (given buffer x.1 ≡ 0)
      × (taken buffer x.1 ≡ 2)
      × (held buffer x.0 ≡ 2)
      × (given semaphore x.1 ≡ 0)
      × (taken semaphore x.1 ≡ 1)
      × (held semaphore x.0 ≡ 1)
unfolding run step cp_stop cp_init init_rest cp_start zeroed DbPack.init
restart_leaks e chan cfg h k l = ground arith
