-- ===== src/Command/Leak.antt =====
-- Timers that the keep-alive commands lose.
use bk_solution_doorbell.Base.{
  ℕ, zero, suc, ◌+◌, ◌≡◌, ◌≢◌, refl, ◌∙◌, true, false, Option, none, some, List, [], ◌∷◌, ◌++◌,
  arith,
}
use bk_solution_doorbell.Command.{
  State, Results, Action, event_report, cmd_server_init, keep_alive_start_timer,
  keep_alive_stop_timer, cmd_server_deinit, restart_timer, set_up, CmdInfo,
}
use bk_solution_doorbell.Command.Handler.{
  dispatch, cmd_recive_callback, get32, Arrival, run, keep_alive,
}
use bk_solution_doorbell.Command.Timer.{AllSucceed, IsRequest, set_ups, removals}

set_ups-append : (xs ys : List Action) → set_ups (xs ++ ys) ≡ set_ups xs + set_ups ys
set_ups-append [] ys = omega arith
set_ups-append (x ∷ xs) ys = ground (arith, set_ups-append xs ys)

removals-append : (xs ys : List Action) → removals (xs ++ ys) ≡ removals xs + removals ys
removals-append [] ys = omega arith
removals-append (x ∷ xs) ys = ground (arith, removals-append xs ys)

-- One request, as its structure and its timers.
abbrev Did : (s : State) → State × List Action → Option CmdInfo × List Action → Type 0
Did s r k = (r.0.info ≡ k.0) × (set_ups r.1 ≡ set_ups k.1) × (removals r.1 ≡ removals k.1)

request-Did :
    (param : ℕ) (a : Arrival) (info : Option CmdInfo) (s : State)
    → IsRequest param a
    → s.info ≡ info
    → Did s (cmd_recive_callback a.cmd a.length a.results s) (keep_alive param a.results info)
unfolding cmd_recive_callback dispatch event_report
request-Did param a info s (h, k, l) e =
    let acts = (keep_alive (get32 a.cmd 4) a.results info).1 in
    let reply = event_report (get32 a.cmd 0) 0 0 in
    rw (h, k, ← l, e)
      (refl, omega (arith, set_ups-append acts reply), omega (arith, removals-append acts reply))

on-keep_alive :
    (ms : ℕ) (r : Results)
    → ms ≢ 0
    → AllSucceed r
    → let k = keep_alive ms r none in
      (k.0 ≡ some (record { has_handle = true; intval_ms = ms }))
      × (set_ups k.1 ≡ 1)
      × (removals k.1 ≡ 0)
unfolding keep_alive cmd_server_init keep_alive_start_timer keep_alive_stop_timer cmd_server_deinit
    restart_timer set_up
on-keep_alive ms r h k = ground arith

off-keep_alive :
    (r : Results) (i : CmdInfo)
    → let k = keep_alive 0 r (some i) in (k.0 ≡ none) × (set_ups k.1 ≡ 0) × (removals k.1 ≡ 0)
unfolding keep_alive cmd_server_init keep_alive_start_timer keep_alive_stop_timer cmd_server_deinit
off-keep_alive r i = ground arith

-- Some rounds of two commands.
abbrev pub rounds : ℕ → (on off : Arrival) → List Arrival
rounds zero on off = []
rounds (suc n) on off = on ∷ off ∷ rounds n on off

-- While there is no keep-alive timer, each round of a request for one, all of whose calls succeed,
-- and a request with parameter 0 sets up a timer that is never removed: after n rounds nothing
-- points to a timer, n timers were set up and none was deinitialised.
pub rounds_leak :
    (n ms : ℕ) (on off : Arrival) (s : State)
    → ms ≢ 0
    → IsRequest ms on
    → IsRequest 0 off
    → AllSucceed on.results
    → s.info ≡ none
    → let r = run (rounds n on off) s in (r.0.info ≡ none) × (set_ups r.1 ≡ n) × (removals r.1 ≡ 0)
unfolding run
rounds_leak zero ms on off s h k l m e = (e, refl, refl)
rounds_leak (suc n) ms on off s h k l m e =
    let (s1, acts1) = cmd_recive_callback on.cmd on.length on.results s in
    let (s2, acts2) = cmd_recive_callback off.cmd off.length off.results s1 in
    let timer : CmdInfo = record { has_handle = true; intval_ms = ms } in
    let rest = run (rounds n on off) s2 in
    let first = request-Did ms on none s k e in
    let on_info = on-keep_alive ms on.results h m in
    let second = request-Did 0 off (some timer) s1 l (first.0 ∙ on_info.0) in
    let off_info = off-keep_alive off.results timer in
    let ih = rounds_leak n ms on off s2 h k l m (second.0 ∙ off_info.0) in
    (
      ih.0,
      omega (
        arith,
        set_ups-append acts1 (acts2 ++ rest.1),
        set_ups-append acts2 rest.1,
        first.1,
        on_info.1,
        second.1,
        off_info.1,
        ih.1,
      ),
      omega (
        arith,
        removals-append acts1 (acts2 ++ rest.1),
        removals-append acts2 rest.1,
        first.2,
        on_info.2,
        second.2,
        off_info.2,
        ih.2,
      ),
    )

-- The calls of a request whose old timer is removed but whose new one cannot be set up.
abbrev pub SetUpFails : Results → Type 0
SetUpFails r = (r.deinit ≡ true) × (r.init ≡ false)

failed-keep_alive :
    (old ms : ℕ) (r : Results)
    → old ≢ 0
    → ms ≢ 0
    → old ≢ ms
    → SetUpFails r
    → let k = keep_alive ms r (some (record { has_handle = true; intval_ms = old })) in
      (k.0 ≡ some (record { has_handle = false; intval_ms = old }))
      × (set_ups k.1 ≡ 0)
      × (removals k.1 ≡ 1)
unfolding keep_alive cmd_server_init keep_alive_start_timer keep_alive_stop_timer cmd_server_deinit
    restart_timer set_up
failed-keep_alive old ms r h k l m = ground arith

again-keep_alive :
    (old : ℕ) (r : Results)
    → old ≢ 0
    → let i : CmdInfo = record { has_handle = false; intval_ms = old } in
      let k = keep_alive old r (some i) in (k.0 ≡ some i) × (set_ups k.1 ≡ 0) × (removals k.1 ≡ 0)
unfolding keep_alive cmd_server_init keep_alive_start_timer keep_alive_stop_timer cmd_server_deinit
    restart_timer set_up
again-keep_alive old r h = ground arith

-- A request for another period whose set-up fails after the old timer was removed leaves the old period
-- recorded. A later request for the old period then sets up no timer, whatever the calls would return: of
-- the two requests the one call that changes the timers is the removal.
pub failed_period_stays :
    (old ms : ℕ) (a b : Arrival) (s : State)
    → old ≢ 0
    → ms ≢ 0
    → old ≢ ms
    → IsRequest ms a
    → SetUpFails a.results
    → IsRequest old b
    → s.info ≡ some (record { has_handle = true; intval_ms = old })
    → let r = run (a ∷ b ∷ []) s in
      (r.0.info ≡ some (record { has_handle = false; intval_ms = old }))
      × (set_ups r.1 ≡ 0)
      × (removals r.1 ≡ 1)
unfolding run
failed_period_stays old ms a b s h k l m n o e =
    let (s1, acts1) = cmd_recive_callback a.cmd a.length a.results s in
    let (s2, acts2) = cmd_recive_callback b.cmd b.length b.results s1 in
    let before : CmdInfo = record { has_handle = true; intval_ms = old } in
    let left : CmdInfo = record { has_handle = false; intval_ms = old } in
    let first = request-Did ms a (some before) s m e in
    let a_info = failed-keep_alive old ms a.results h k l n in
    let second = request-Did old b (some left) s1 o (first.0 ∙ a_info.0) in
    let b_info = again-keep_alive old b.results h in
    (
      second.0 ∙ b_info.0,
      omega (
        arith,
        set_ups-append acts1 (acts2 ++ []),
        set_ups-append acts2 [],
        first.1,
        a_info.1,
        second.1,
        b_info.1,
      ),
      omega (
        arith,
        removals-append acts1 (acts2 ++ []),
        removals-append acts2 [],
        first.2,
        a_info.2,
        second.2,
        b_info.2,
      ),
    )
