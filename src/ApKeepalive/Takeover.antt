-- ===== src/ApKeepalive/Takeover.antt =====
-- How often the coprocessor is asked to take over, and a takeover that never comes.
use bk_solution_doorbell.Base.{
  ℕ, suc, ◌+◌, ◌≤◌, ◌≡◌, refl, ap, ◌∙◌, Bool, true, false, Option, some, List, [], ◌∷◌, ◌++◌, arith,
  ◌==◌, if◌then◌else◌, map, append-nil,
}
use bk_solution_doorbell.Message.{Service, lan_udp, lan_tcp}
use bk_solution_doorbell.ApKeepalive.{
  State, Action, init_timer, start_timer, stop_timer, deinit_timer, save_interval, post, stop_cp,
  start_cp, command, delete_flash, TimerResults, restart, ℤ, timer_handler, stop_service_if_running,
  is_recent, start_service_from_flash, on_keepalive_disconnection, on_service_start_success,
  send_cmd_to_callback,
}
use bk_solution_doorbell.ApKeepalive.Calls.{
  Call, ticks, disconnects, service_starts, wakes, starts_check, stops_check, updates,
  service_stops, types, cli_cmd, step, run, start_mm_status_check, set_keepalive_interval,
  set_value, Reason, WakeupResults, handle_wakeup_reason, stop_mm_status_check, update_timestamp,
  NetInfo, send_keepalive,
}

abbrev pub one_if : Bool → ℕ
one_if b = if b then 1 else 0

-- How often the coprocessor was asked to keep the connection.
abbrev pub takeovers : List Action → ℕ
takeovers [] = 0
takeovers (start_cp ip port ok ∷ acts) = suc (takeovers acts)
takeovers (_ ∷ acts) = takeovers acts

-- How often the timer saw no multimedia service.
abbrev pub idle_ticks : List Call → ℕ
idle_ticks [] = 0
idle_ticks (ticks mm_status now flash posted ∷ cs) = one_if (mm_status == 0) + idle_ticks cs
idle_ticks (_ ∷ cs) = idle_ticks cs

takeovers-append : (xs ys : List Action) → takeovers (xs ++ ys) ≡ takeovers xs + takeovers ys
takeovers-append [] ys = omega arith
takeovers-append (init_timer v r ∷ xs) ys = omega (arith, takeovers-append xs ys)
takeovers-append (start_timer r ∷ xs) ys = omega (arith, takeovers-append xs ys)
takeovers-append (stop_timer r ∷ xs) ys = omega (arith, takeovers-append xs ys)
takeovers-append (deinit_timer r ∷ xs) ys = omega (arith, takeovers-append xs ys)
takeovers-append (save_interval v ∷ xs) ys = omega (arith, takeovers-append xs ys)
takeovers-append (post e r ∷ xs) ys = omega (arith, takeovers-append xs ys)
takeovers-append (stop_cp r ∷ xs) ys = omega (arith, takeovers-append xs ys)
takeovers-append (start_cp ip port r ∷ xs) ys = omega (arith, takeovers-append xs ys)
takeovers-append (command b ∷ xs) ys = omega (arith, takeovers-append xs ys)
takeovers-append (delete_flash ∷ xs) ys = omega (arith, takeovers-append xs ys)

abbrev Spent : ℕ → State → State × List Action → Type 0
Spent n s r = takeovers r.1 + one_if r.0.pending_keepalive ≤ n + one_if s.pending_keepalive

restart-Spent : (t : TimerResults) (s : State) → Spent 0 s (restart t s)
unfolding restart
restart-Spent t s = ground arith

value-Spent : (v : ℤ) (t : TimerResults) (s : State) → Spent 0 s (set_value v t s)
unfolding set_value restart
value-Spent v t s = ground arith

tick-Spent :
    (mm_status now : ℕ) (flash : Option Service) (posted : Bool) (s : State)
    → Spent (one_if (mm_status == 0)) s (timer_handler mm_status now flash posted s)
unfolding timer_handler stop_service_if_running
tick-Spent mm_status now flash posted s = ground arith

wake-Spent :
    (reason : Option Reason) (w : WakeupResults) (s : State)
    → Spent 0 s (handle_wakeup_reason reason w s)
unfolding handle_wakeup_reason start_service_from_flash
wake-Spent reason w s = ground arith

check-Spent :
    (flash : Option ℕ) (t : TimerResults) (s : State)
    → let r = start_mm_status_check flash t s in Spent 0 s (r.1, r.2)
unfolding start_mm_status_check
check-Spent flash t s = ground arith

send-Spent :
    (info : Option NetInfo) (sent : Bool) (t : TimerResults) (s : State)
    → Spent 0 s (send_keepalive info sent t s)
unfolding send_keepalive stop_mm_status_check
send-Spent info sent t s = ground arith

module _ (atoi : List ℕ → ℤ) where
  cli-Spent :
      (argv : List (List ℕ)) (t : TimerResults) (s : State) → Spent 0 s (cli_cmd atoi argv t s)
  unfolding cli_cmd set_keepalive_interval
  cli-Spent [] t s = omega arith
  cli-Spent (a ∷ []) t s = omega arith
  cli-Spent (a ∷ b ∷ []) t s = omega arith
  cli-Spent (a ∷ b ∷ c ∷ argv) t s = ground (arith, value-Spent (atoi c) t s)

  step-Spent : (c : Call) (s : State) → Spent (idle_ticks (c ∷ [])) s (step atoi c s)
  unfolding step on_keepalive_disconnection start_service_from_flash on_service_start_success
      send_cmd_to_callback stop_mm_status_check update_timestamp
  step-Spent (ticks mm_status now flash posted) s =
      omega (arith, tick-Spent mm_status now flash posted s)
  step-Spent (disconnects flash posted) s = ground arith
  step-Spent (service_starts alloc) s = ground arith
  step-Spent (wakes reason w) s = wake-Spent reason w s
  step-Spent (starts_check flash t) s = check-Spent flash t s
  step-Spent (stops_check t) s = ground arith
  step-Spent (updates now) s = omega arith
  step-Spent (service_stops info sent t) s = send-Spent info sent t s
  step-Spent (types argv t) s = cli-Spent argv t s

  idle_ticks-cons :
      (c : Call) (cs : List Call) → idle_ticks (c ∷ cs) ≡ idle_ticks (c ∷ []) + idle_ticks cs
  idle_ticks-cons c cs = ground arith

  -- In any sequence of calls from any state the coprocessor is asked to keep the connection at most once
  -- for each tick of the timer that found no multimedia service active, and once more if a request was
  -- pending before; a request that is still pending at the end counts.
  pub takeovers-idle_ticks :
      (cs : List Call) (s : State)
      → takeovers (run atoi cs s).1 + one_if (run atoi cs s).0.pending_keepalive
        ≤ idle_ticks cs + one_if s.pending_keepalive
  unfolding run
  takeovers-idle_ticks [] s = omega arith
  takeovers-idle_ticks (c ∷ cs) s =
      let s' = (step atoi c s).0 in
      omega (
        arith,
        idle_ticks-cons c cs,
        step-Spent c s,
        takeovers-idle_ticks cs s',
        takeovers-append (step atoi c s).1 (run atoi cs s').1,
      )

-- Whether a stop of the service that the flash names can be asked for.
abbrev pub can_stop : Option Service → (posted : Bool) → Bool
can_stop (some lan_udp) posted = posted
can_stop (some lan_tcp) posted = posted
can_stop _ posted = false

-- What the timer finds when it runs.
pub record Tick : Type 0 where
  pub mm_status : ℕ
  pub now : ℕ
  pub flash : Option Service
  pub posted : Bool

abbrev pub only_ticks : List Tick → List Call
only_ticks = map (λ k. ticks k.mm_status k.now k.flash k.posted)

-- How many messages reached the queue.
abbrev pub posts : List Action → ℕ
posts [] = 0
posts (post e ok ∷ acts) = one_if ok + posts acts
posts (_ ∷ acts) = posts acts

module _ (atoi : List ℕ → ℤ) where
  pending_tick :
      (mm_status now : ℕ) (flash : Option Service) (posted : Bool) (s : State)
      → s.pending_keepalive ≡ true
      → timer_handler mm_status now flash posted s ≡ (s, [])
  unfolding timer_handler stop_service_if_running
  pending_tick mm_status now flash posted s h = ground arith

  pending_ticks :
      (ks : List Tick) (s : State)
      → s.pending_keepalive ≡ true
      → run atoi (only_ticks ks) s ≡ (s, [])
  unfolding run step
  pending_ticks [] s h = refl
  pending_ticks (k ∷ ks) s h =
      rw (pending_tick k.mm_status k.now k.flash k.posted s h, pending_ticks ks s h) refl

  failed_tick :
      (now : ℕ) (flash : Option Service) (posted : Bool) (s : State)
      → is_recent now s ≡ false
      → s.pending_keepalive ≡ false
      → can_stop flash posted ≡ false
      → let r = timer_handler 0 now flash posted s in
        (r.0 ≡ record s { pending_keepalive = true }) × (posts r.1 ≡ 0)
  unfolding timer_handler stop_service_if_running
  failed_tick now flash posted s h k l = ground arith

  -- The timer finds no multimedia service, the last command is not recent and no request is pending, but
  -- it cannot ask for a stop: the flash has no service of the local network, cannot be read, or the queue
  -- is full. Then it marks a request as pending although nobody was asked, and however often the timer
  -- runs from there on, whatever it finds, no message is posted and nothing else changes.
  pub ticks_silent :
      (now : ℕ) (flash : Option Service) (posted : Bool) (ks : List Tick) (s : State)
      → is_recent now s ≡ false
      → s.pending_keepalive ≡ false
      → can_stop flash posted ≡ false
      → let r = run atoi (ticks 0 now flash posted ∷ only_ticks ks) s in
        (r.0 ≡ record s { pending_keepalive = true }) × (posts r.1 ≡ 0)
  unfolding run step
  ticks_silent now flash posted ks s h k l =
      let (s', acts) = timer_handler 0 now flash posted s in
      let (state, silent) = failed_tick now flash posted s h k l in
      let rest = pending_ticks ks s' (ap (λ s'. s'.pending_keepalive) state) in
      (
        ap (λ r. r.0) rest ∙ state,
        ap (λ r. posts (acts ++ r.1)) rest ∙ ap posts (append-nil acts) ∙ silent,
      )
