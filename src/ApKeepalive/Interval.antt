-- ===== src/ApKeepalive/Interval.antt =====
-- The period of the timer and the time since the last command.
use bk_solution_doorbell.Message.{Service}
use bk_solution_doorbell.Base.{
  ℕ, zero, suc, ◌+◌, ◌-◌, ◌%◌, ◌^◌, ◌≤◌, ◌<◌, ◌≡◌, Bool, Option, none, some, List, [], ◌∷◌, arith,
  All, All-append,
}
use bk_solution_doorbell.ApKeepalive.{
  on_keepalive_disconnection, on_service_start_success, send_cmd_to_callback, timer_handler,
  stop_service_if_running, start_service_from_flash, State, boot, Action, init_timer, TimerResults,
  restart, clamp, ℤ, pos, negsuc, time_diff,
}
use bk_solution_doorbell.ApKeepalive.Calls.{
  NetInfo, send_keepalive, set_value, stop_mm_status_check, update_timestamp, handle_wakeup_reason,
  Reason, WakeupResults, Call, ticks, disconnects, service_starts, wakes, starts_check, stops_check,
  updates, service_stops, types, cli_cmd, step, run, loaded_interval, start_mm_status_check,
  set_keepalive_interval,
}

-- From one second to five minutes.
abbrev pub InRange : ℕ → Type 0
InRange v = (1000 ≤ v) × (v ≤ 300000)

abbrev pub TimerInRange : Action → Type 0
TimerInRange (init_timer v ok) = InRange v
TimerInRange _ = Unit

clamp-InRange : (v : ℕ) → InRange (clamp v)
clamp-InRange v = ground arith

loaded_interval-InRange :
    (flash : Option ℕ) (old : ℕ) → InRange old → InRange (loaded_interval flash old)
loaded_interval-InRange none old h = h
loaded_interval-InRange (some v) old h = ground arith

restart-InRange :
    (t : TimerResults) (s : State)
    → InRange s.interval_ms
    → InRange (restart t s).0.interval_ms × All TimerInRange (restart t s).1
unfolding restart
restart-InRange t s h = ground arith

-- For two times below 2 ^ 64 the time since the last command is their difference modulo 2 ^ 64,
-- also when the clock has wrapped around.
pub time_diff_wraps :
    (now last : ℕ)
    → now < 2 ^ 64
    → last < 2 ^ 64
    → time_diff now last ≡ (now + 2 ^ 64 - last) % 2 ^ 64
unfolding time_diff
time_diff_wraps now last h k = ground arith

check-InRange :
    (flash : Option ℕ) (t : TimerResults) (s : State)
    → InRange s.interval_ms
    → InRange (start_mm_status_check flash t s).1.interval_ms
      × All TimerInRange (start_mm_status_check flash t s).2
unfolding start_mm_status_check
check-InRange flash t s h = ground (arith, loaded_interval-InRange flash s.interval_ms h)

tick-InRange :
    (mm_status now : ℕ) (flash : Option Service) (posted : Bool) (s : State)
    → InRange s.interval_ms
    → InRange (timer_handler mm_status now flash posted s).0.interval_ms
      × All TimerInRange (timer_handler mm_status now flash posted s).1
unfolding timer_handler stop_service_if_running
tick-InRange mm_status now flash posted s h = ground arith

wake-InRange :
    (reason : Option Reason) (w : WakeupResults) (s : State)
    → InRange s.interval_ms
    → InRange (handle_wakeup_reason reason w s).0.interval_ms
      × All TimerInRange (handle_wakeup_reason reason w s).1
unfolding handle_wakeup_reason start_service_from_flash
wake-InRange reason w s h = ground arith

send-InRange :
    (info : Option NetInfo) (sent : Bool) (t : TimerResults) (s : State)
    → InRange s.interval_ms
    → InRange (send_keepalive info sent t s).0.interval_ms
      × All TimerInRange (send_keepalive info sent t s).1
unfolding send_keepalive stop_mm_status_check
send-InRange info sent t s h = ground arith

value-InRange :
    (v : ℤ) (t : TimerResults) (s : State)
    → InRange s.interval_ms
    → InRange (set_value v t s).0.interval_ms × All TimerInRange (set_value v t s).1
unfolding set_value
value-InRange (negsuc n) t s h = (h, tt)
value-InRange (pos zero) t s h = (h, tt)
value-InRange (pos (suc n)) t s h =
    let r = restart-InRange t (record s { interval_ms = clamp (suc n) }) (clamp-InRange (suc n)) in
    (r.0, (tt, r.1))

module _ (atoi : List ℕ → ℤ) where
  cli-InRange :
      (argv : List (List ℕ)) (t : TimerResults) (s : State)
      → InRange s.interval_ms
      → InRange (cli_cmd atoi argv t s).0.interval_ms × All TimerInRange (cli_cmd atoi argv t s).1
  unfolding cli_cmd set_keepalive_interval
  cli-InRange [] t s h = (h, tt)
  cli-InRange (a ∷ []) t s h = (h, tt)
  cli-InRange (a ∷ b ∷ []) t s h = (h, tt)
  cli-InRange (a ∷ b ∷ c ∷ argv) t s h = ground (arith, value-InRange (atoi c) t s h)

  step-InRange :
      (c : Call) (s : State)
      → InRange s.interval_ms
      → InRange (step atoi c s).0.interval_ms × All TimerInRange (step atoi c s).1
  unfolding step on_keepalive_disconnection start_service_from_flash on_service_start_success
      send_cmd_to_callback stop_mm_status_check update_timestamp
  step-InRange (ticks mm_status now flash posted) s h = tick-InRange mm_status now flash posted s h
  step-InRange (disconnects flash posted) s h = ground arith
  step-InRange (service_starts alloc) s h = ground arith
  step-InRange (wakes reason w) s h = wake-InRange reason w s h
  step-InRange (starts_check flash t) s h = check-InRange flash t s h
  step-InRange (stops_check t) s h = ground arith
  step-InRange (updates now) s h = (h, tt)
  step-InRange (service_stops info sent t) s h = send-InRange info sent t s h
  step-InRange (types argv t) s h = cli-InRange argv t s h

  run-InRange :
      (cs : List Call) (s : State)
      → InRange s.interval_ms
      → InRange (run atoi cs s).0.interval_ms × All TimerInRange (run atoi cs s).1
  unfolding run
  run-InRange [] s h = (h, tt)
  run-InRange (c ∷ cs) s h =
      let (small, first) = step-InRange c s h in
      let (small', rest) = run-InRange cs (step atoi c s).0 small in
      (
        small',
        All-append TimerInRange (step atoi c s).1 (run atoi cs (step atoi c s).0).1 first rest,
      )

  -- After any calls since start-up the interval is between one second and five minutes, whatever the
  -- command line asked for and the flash held, and so is the period of every timer that was set up.
  pub boot-InRange :
      (cs : List Call)
      → InRange (run atoi cs boot).0.interval_ms × All TimerInRange (run atoi cs boot).1
  unfolding boot
  boot-InRange cs = run-InRange cs boot (omega arith, omega arith)
