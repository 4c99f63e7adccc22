-- ===== src/ApKeepalive/Calls.antt =====
-- projects/doorbell_lp/ap/keepalive/db_keepalive.c: the wake-ups, the start and the end of the check, the
-- request to the coprocessor and the command line, and all calls into the file.
use bk_solution_doorbell.Base.{
  ℕ, zero, suc, Bool, true, false, ◌&&◌, ◌||◌, Option, none, some, List, [], ◌∷◌, ◌++◌, leb,
  if◌then◌else◌,
}
use bk_solution_doorbell.Message.{ble_disable, Service}
use bk_solution_doorbell.ApKeepalive.{
  interval_word, Action, State, TimerResults, check_min_interval_ms, clamp, deinit_timer,
  delete_flash, init_timer, interval_max_ms, is_empty, negsuc, on_keepalive_disconnection,
  on_service_start_success, pos, post, restart, same_text, save_interval, start_cp,
  start_service_from_flash, start_timer, stop_cp, stop_timer, timer_handler, wake_up_request, ℤ,
}

-- The values of `POWERUP_FLAGS`, and any other.
pub data Reason : Type 0 where
  power_wakeup multimedia_wakeup_host keepalive_disconnection keepalive_fail_wakeup : Reason
  unknown_reason : Reason

-- The results that db_keepalive_handle_wakeup_reason sees.
pub record WakeupResults : Type 0 where
  pub ble_posted : Bool
  pub stopped : Bool
  pub flash : Option Service
  pub posted : Bool

-- db_keepalive_handle_wakeup_reason; `none` is `pl_wakeup_env == NULL`.
unfoldable pub handle_wakeup_reason : Option Reason → WakeupResults → State → State × List Action
unfolding start_service_from_flash
handle_wakeup_reason none w s = (s, [])
handle_wakeup_reason (some power_wakeup) w s =
    (record s { pending_wakeup_cmd = 0 }, delete_flash ∷ [])
handle_wakeup_reason (some multimedia_wakeup_host) w s =
    let s' = record s { pending_wakeup_cmd = 0 } in
    let (started, acts) = start_service_from_flash w.flash w.posted in
    if w.ble_posted
    then (if w.stopped
        then (
          if started then record s' { pending_wakeup_cmd = wake_up_request } else s',
          post ble_disable true ∷ stop_cp true ∷ acts,
        )
        else (s', post ble_disable true ∷ stop_cp false ∷ []))
    else (s', post ble_disable false ∷ [])
handle_wakeup_reason (some keepalive_disconnection) w s = (
  record s { pending_wakeup_cmd = 0; pending_keepalive = false },
  (start_service_from_flash w.flash w.posted).1,
)
handle_wakeup_reason (some keepalive_fail_wakeup) w s =
    if w.ble_posted
    then (
      record s { pending_wakeup_cmd = 0; pending_keepalive = false },
      post ble_disable true ∷ (start_service_from_flash w.flash w.posted).1,
    )
    else (record s { pending_wakeup_cmd = 0 }, post ble_disable false ∷ [])
handle_wakeup_reason (some unknown_reason) w s = (record s { pending_wakeup_cmd = 0 }, [])

abbrev pub loaded_interval : Option ℕ → ℕ → ℕ
loaded_interval none old = old
loaded_interval (some v) old =
    if leb check_min_interval_ms v && leb v interval_max_ms then v else old

unfoldable pub start_mm_status_check :
    (flash_interval : Option ℕ) → TimerResults → State → Bool × State × List Action
start_mm_status_check flash_interval t s =
    let s' = if s.interval_loaded then s else record s {
      interval_loaded = true;
      interval_ms = loaded_interval flash_interval s.interval_ms;
    } in
    if s.timer_started
    then (true, s, [])
    else if t.init
    then (if t.start
        then (
          true,
          record s' { timer_started = true },
          init_timer s'.interval_ms true ∷ start_timer true ∷ [],
        )
        else (
          false,
          s',
          init_timer s'.interval_ms true ∷ start_timer false ∷ deinit_timer t.deinit ∷ [],
        ))
    else (false, s', init_timer s'.interval_ms false ∷ [])

unfoldable pub update_timestamp : (now : ℕ) → State → State
update_timestamp now s = record s { last_update = now }

unfoldable pub stop_mm_status_check : TimerResults → State → State × List Action
stop_mm_status_check t s =
    if s.timer_started
    then (record s { timer_started = false }, stop_timer t.stop ∷ deinit_timer t.deinit ∷ [])
    else (s, [])

-- `ntwk_server_net_info_t`, the two strings that are read.
pub record NetInfo : Type 0 where
  pub ip_addr : List ℕ
  pub cmd_port : List ℕ

unfoldable pub send_keepalive :
    (info : Option NetInfo) → (sent : Bool) → TimerResults → State → State × List Action
unfolding stop_mm_status_check
send_keepalive info sent t s =
    let s' = record s { pending_keepalive = false } in
    if s.pending_keepalive
    then elim info [
      | none ↦ (s', [])
      | some i ↦
          if is_empty i.ip_addr || is_empty i.cmd_port
          then (s', [])
          else if sent
          then (let (s″, acts) = stop_mm_status_check t s' in
              (s″, start_cp i.ip_addr i.cmd_port true ∷ acts))
          else (s', start_cp i.ip_addr i.cmd_port false ∷ [])
    ]
    else (s, [])

-- The calls into the file: from the timer, the message loop, the command handler, start-up and the
-- command line.
pub data Call : Type 0 where
  ticks : (mm_status now : ℕ) → (flash : Option Service) → (posted : Bool) → Call
  disconnects : (flash : Option Service) → (posted : Bool) → Call
  service_starts : (alloc : Bool) → Call
  wakes : Option Reason → WakeupResults → Call
  starts_check : (flash_interval : Option ℕ) → TimerResults → Call
  stops_check : TimerResults → Call
  updates : (now : ℕ) → Call
  service_stops : (info : Option NetInfo) → (sent : Bool) → TimerResults → Call
  types : (argv : List (List ℕ)) → TimerResults → Call

-- db_set_keepalive_interval from the value of `atoi` on.
unfoldable pub set_value : (val : ℤ) → TimerResults → State → State × List Action
unfolding restart
set_value (negsuc n) t s = (s, [])
set_value (pos zero) t s = (s, [])
set_value (pos (suc n)) t s =
    let v = clamp (suc n) in
    let (s', acts) = restart t (record s { interval_ms = v }) in (s', save_interval v ∷ acts)

module _ (atoi : List ℕ → ℤ) where
  -- db_set_keepalive_interval; `none` is NULL.
  unfoldable pub set_keepalive_interval :
      (text : Option (List ℕ)) → TimerResults → State → State × List Action
  unfolding set_value
  set_keepalive_interval none t s = (s, [])
  set_keepalive_interval (some text) t s =
      if is_empty text then (s, []) else set_value (atoi text) t s

  -- db_keepalive_cli_cmd, with the words of the command line.
  unfoldable pub cli_cmd : (argv : List (List ℕ)) → TimerResults → State → State × List Action
  unfolding set_keepalive_interval
  cli_cmd [] t s = (s, [])
  cli_cmd (a ∷ []) t s = (s, [])
  cli_cmd (a ∷ b ∷ []) t s = (s, [])
  cli_cmd (a ∷ b ∷ c ∷ argv) t s =
      if same_text b interval_word then set_keepalive_interval (some c) t s else (s, [])

  -- One call into the file.
  unfoldable pub step : Call → State → State × List Action
  unfolding timer_handler on_keepalive_disconnection on_service_start_success handle_wakeup_reason
      start_mm_status_check stop_mm_status_check update_timestamp send_keepalive cli_cmd
  step (ticks mm_status now flash posted) s = timer_handler mm_status now flash posted s
  step (disconnects flash posted) s = on_keepalive_disconnection flash posted s
  step (service_starts alloc) s = on_service_start_success alloc s
  step (wakes reason w) s = handle_wakeup_reason reason w s
  step (starts_check flash_interval t) s =
      let (started, s', acts) = start_mm_status_check flash_interval t s in (s', acts)
  step (stops_check t) s = stop_mm_status_check t s
  step (updates now) s = (update_timestamp now s, [])
  step (service_stops info sent t) s = send_keepalive info sent t s
  step (types argv t) s = cli_cmd argv t s

  -- A sequence of calls, and every call that leaves the file.
  unfoldable pub run : List Call → State → State × List Action
  unfolding step
  run [] s = (s, [])
  run (c ∷ cs) s = let (s1, acts) = step c s in let (s2, rest) = run cs s1 in (s2, acts ++ rest)
