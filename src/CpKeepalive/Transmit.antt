-- ===== src/CpKeepalive/Transmit.antt =====
-- The sending thread: the connection, the sleep of the host, the heartbeats and the end.
use bk_solution_doorbell.Base.{ℕ, Bool, true, false, List, [], ◌∷◌, ◌++◌, ltb, if◌then◌else◌}
use bk_solution_doorbell.CpKeepalive.{
  Env, Action, cp_deinit, create_rx, init_timer, start_timer, set_filter, set_wakeup_reason,
  wakeup_host, keepalive_disconnection, keepalive_fail_wakeup, send_disconnection, power_down_host,
  start_lv_sleep, register_alarm, unregister_alarm,
}
use bk_solution_doorbell.CpKeepalive.Connection.{Attempt, init_connection}
use bk_solution_doorbell.CpKeepalive.Receive.{event_report, has_sock}

-- What the thread's calls return, up to its loop.
pub record TxResults : Type 0 where
  pub world : ℕ → Attempt
  pub seed : ℕ
  pub created : Bool
  pub init : Bool
  pub start : Bool

-- One round of the loop behind its wait: whether another thread has ended the keepalive by then, what the
-- wait returned, and the time.
pub record Wait : Type 0 where
  pub ended : Bool
  pub got : Bool
  pub now : ℕ

-- db_keepalive_set_keepalive_rtc: an interval below 500 ms sets no alarm.
unfoldable pub set_keepalive_rtc : Env → List Action
set_keepalive_rtc e =
    if ltb e.interval_ms 500 then [] else unregister_alarm ∷ register_alarm e.interval_ms ∷ []

-- db_keepalive_start_lv_sleep.
unfoldable pub start_sleep : Env → Env × List Action
start_sleep e =
    if e.low_voltage then (e, []) else (record e { low_voltage = true }, start_lv_sleep ∷ [])

-- db_keepalive_init_rx: on a failure it has called db_keepalive_cp_deinit already.
unfoldable pub init_rx : (created : Bool) → Env → Bool × Env × List Action
unfolding cp_deinit
init_rx created e =
    let (e', acts) = cp_deinit e in
    if created
    then (true, record e { has_rx = true }, create_rx true ∷ [])
    else (false, e', create_rx false ∷ acts)

-- The keepalive's timer in db_keepalive_tx_handler.
unfoldable pub set_up_timer : (init start : Bool) → Env → Bool × Env × List Action
set_up_timer init start e =
    let e' = record e { has_timer = true } in
    if init
    then (if start then (true, e', init_timer e.interval_ms true ∷ start_timer true ∷ []) else (
      false,
      e',
      init_timer e.interval_ms true ∷ start_timer false ∷ wakeup_host keepalive_fail_wakeup ∷ [],
    ))
    else (false, e, init_timer e.interval_ms false ∷ wakeup_host keepalive_fail_wakeup ∷ [])

abbrev pub lost : List Action
lost = set_wakeup_reason keepalive_disconnection ∷ send_disconnection ∷ []

-- db_keepalive_tx_handler from the receiving thread on up to its loop: `false` goes to `_exit`.
unfoldable pub tx_connected : TxResults → Env → Bool × Env × List Action
unfolding init_rx start_sleep set_up_timer
tx_connected r e =
    let (ok2, e2, acts2) = init_rx r.created e in
    let (e3, acts3) = start_sleep e2 in
    let (ok4, e4, acts4) = set_up_timer r.init r.start e3 in
    if ok2
    then (ok4, e4, acts2 ++ (power_down_host ∷ (acts3 ++ acts4)))
    else (false, e2, acts2 ++ lost)

-- db_keepalive_tx_handler up to its loop: `false` goes to `_exit`.
unfoldable pub tx_start : TxResults → Env → Bool × Env × List Action
unfolding init_connection tx_connected
tx_start r e =
    let (e1, seed, acts1) = init_connection r.world r.seed e in
    let (ok, e2, acts2) = tx_connected r e1 in
    let before = set_filter e.server e.port ∷ acts1 in
    if has_sock e1 then (ok, e2, before ++ acts2) else (false, e1, before ++ lost)

module _ (crc8 : List ℕ → ℕ → ℕ) where
  -- db_keepalive_send_heartbeat.
  unfoldable pub send_heartbeat : (now : ℕ) → Env → Env × List Action
  unfolding event_report
  send_heartbeat now e = event_report crc8 17 0 0 now e

  -- The loop over its waits; at the end of the list it still waits, else `true` is its end.
  unfoldable pub tx_loop : List Wait → Env → Bool × Env × List Action
  unfolding set_keepalive_rtc send_heartbeat
  tx_loop [] e = if e.ongoing then (false, e, set_keepalive_rtc e) else (true, e, [])
  tx_loop (w ∷ ws) e =
      let (e1, beat) = send_heartbeat w.now e in
      let (left, e2, rest) = tx_loop ws e1 in
      let stopped = record e { ongoing = false } in
      if e.ongoing
      then (if w.ended
          then (true, stopped, set_keepalive_rtc e)
          else if w.got
          then (left, e2, set_keepalive_rtc e ++ (beat ++ rest))
          else (true, e, set_keepalive_rtc e))
      else (true, e, [])

  -- db_keepalive_tx_handler: the start, the first heartbeat, the loop and the end.
  unfoldable pub tx_handler : TxResults → (now : ℕ) → List Wait → Env → Bool × Env × List Action
  unfolding tx_start tx_loop send_heartbeat cp_deinit
  tx_handler r now ws e =
      let (ok, e1, acts1) = tx_start r e in
      let (e2, beat) = if e1.ongoing then send_heartbeat now e1 else (e1, []) in
      let (left, e3, acts3) = tx_loop ws e2 in
      let (e4, acts4) = cp_deinit e1 in
      let (e5, acts5) = cp_deinit e3 in
      if ok
      then (if left
          then (true, e5, acts1 ++ (beat ++ (acts3 ++ acts5)))
          else (false, e3, acts1 ++ (beat ++ acts3)))
      else (true, e4, acts1 ++ acts4)
