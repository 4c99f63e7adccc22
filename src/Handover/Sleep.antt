-- ===== src/Handover/Sleep.antt =====
-- From an idle multimedia side to the coprocessor.
use bk_solution_doorbell.Base.{
  ℕ, ◌≡◌, ap, ◌∙◌, true, false, Option, none, some, List, [], ◌∷◌, arith, if◌then◌else◌,
}
use bk_solution_doorbell.Message.{
  Dbevt, Service, service_none, lan_udp, lan_tcp, p2p_cs2, lan_udp_service_stop,
  lan_tcp_service_stop,
}
use bk_solution_doorbell.ApKeepalive.{
  State, post, start_cp, stop_timer, deinit_timer, is_recent, is_empty, ℤ, timer_handler,
  stop_service_if_running,
}
use bk_solution_doorbell.ApKeepalive.Calls.{
  ticks, NetInfo, run, step, send_keepalive, stop_mm_status_check,
}
use bk_solution_doorbell.Core.{transfer_deinit, Options, message_loop, message_handle}
use bk_solution_doorbell.Command
use bk_solution_doorbell.Command.Handler
use bk_solution_doorbell.Command.Handler.{Arrival}
use bk_solution_doorbell.Command.Votes.{all_off, bitmap, devices_after, mm_status_follows}
use bk_solution_doorbell.Core
use bk_solution_doorbell.Handover.{Env, System, call, arrive}

-- The services that the keepalive can stop, with the message for it.
abbrev pub stop_of : Service → Option Dbevt
stop_of lan_udp = some lan_udp_service_stop
stop_of lan_tcp = some lan_tcp_service_stop
stop_of service_none = none
stop_of p2p_cs2 = none

abbrev pub still : Service → State → System
still running s = record { running = running; keepalive = s; actions = []; effects = [] }

-- The address of the server is known.
abbrev pub IsKnown : NetInfo → Type 0
IsKnown i = (is_empty i.ip_addr ≡ false) × (is_empty i.cmd_port ≡ false)

tick_hands_over :
    (atoi : List ℕ → ℤ) (o : Options) (env : Env) (i : NetInfo) (now : ℕ)
    (service running : Service) (stop : Dbevt) (s : State)
    → stop_of service ≡ some stop
    → is_recent now s ≡ false
    → s.pending_keepalive ≡ false
    → env.info ≡ some i
    → IsKnown i
    → env.sent ≡ true
    → let x = call atoi o env (ticks 0 now (some service) true) (still running s) in
      (x.running ≡ running)
      × (x.actions
          ≡ post stop true
            ∷ start_cp i.ip_addr i.cmd_port true
            ∷ (if s.timer_started
                then stop_timer env.timer.stop ∷ deinit_timer env.timer.deinit ∷ []
                else []))
      × (x.keepalive ≡ record s { timer_started = false })
      × (x.effects ≡ transfer_deinit service ∷ Core.send_keepalive ∷ [])
unfolding call arrive run step timer_handler stop_service_if_running message_loop message_handle
    send_keepalive stop_mm_status_check
tick_hands_over atoi o env i now lan_udp running stop s h k l m n p = ground arith
tick_hands_over atoi o env i now lan_tcp running stop s h k l m n p = ground arith
tick_hands_over atoi o env i now service_none running stop s h k l m n p = absurd (cc h)
tick_hands_over atoi o env i now p2p_cs2 running stop s h k l m n p = absurd (cc h)

-- When every device is off after the commands that came, the last command is not recent, no request
-- is pending, the flash names a service of the local network and the server's address, and the
-- message and the call to the coprocessor get through, then the message that the timer posts makes
-- the loop stop that service and ask the coprocessor to keep the connection to that server.
-- Afterwards no request is pending, the timer does not run, and nothing else was asked of the
-- coprocessor.
pub idle_hands_over :
    (atoi : List ℕ → ℤ) (o : Options) (env : Env) (i : NetInfo) (as' : List Arrival) (now : ℕ)
    (service running : Service) (stop : Dbevt) (s : State)
    → devices_after as' all_off ≡ all_off
    → stop_of service ≡ some stop
    → is_recent now s ≡ false
    → s.pending_keepalive ≡ false
    → env.info ≡ some i
    → IsKnown i
    → env.sent ≡ true
    → let mm_status = (Handler.run as' Command.boot).0.mm_status in
      let x = call atoi o env (ticks mm_status now (some service) true) (still running s) in
      (x.running ≡ running)
      × (x.actions
          ≡ post stop true
            ∷ start_cp i.ip_addr i.cmd_port true
            ∷ (if s.timer_started
                then stop_timer env.timer.stop ∷ deinit_timer env.timer.deinit ∷ []
                else []))
      × (x.keepalive ≡ record s { timer_started = false })
      × (x.effects ≡ transfer_deinit service ∷ Core.send_keepalive ∷ [])
idle_hands_over atoi o env i as' now service running stop s d h k l m n p =
    let idle = mm_status_follows as' ∙ ap bitmap d in
    rw idle (tick_hands_over atoi o env i now service running stop s h k l m n p)
