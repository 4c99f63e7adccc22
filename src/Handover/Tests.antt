-- ===== src/Handover/Tests.antt =====
-- One sleep and one wake-up of the whole multimedia side.
use bk_solution_doorbell.Base.{ℕ, ◌≡◌, refl, true, false, none, some, List, [], ◌∷◌, if◌then◌else◌}
use bk_solution_doorbell.Message.{lan_tcp, lan_tcp_service_stop, service_none}
use bk_solution_doorbell.ApKeepalive
use bk_solution_doorbell.ApKeepalive.{
  ℤ, pos, post, start_cp, stop_timer, deinit_timer, TimerResults,
}
use bk_solution_doorbell.ApKeepalive.Calls.{ticks, wakes, multimedia_wakeup_host, NetInfo}
use bk_solution_doorbell.Command
use bk_solution_doorbell.Command.Handler
use bk_solution_doorbell.Command.{evt_bytes}
use bk_solution_doorbell.Command.Handler.{Arrival}
use bk_solution_doorbell.Core
use bk_solution_doorbell.Core.{transfer_deinit, Options}
use bk_solution_doorbell.Handover.{Env, call, command_events}
use bk_solution_doorbell.Handover.Sleep.{still, idle_hands_over}
use bk_solution_doorbell.Handover.Wake.{woken, started, connects, wake_answered}

abbrev zero_text : List ℕ → ℤ
zero_text text = pos 0

abbrev options : Options
options = record { client = true; cs2 = false; bluetooth = true; bluetooth_host = false }

abbrev server : NetInfo
server = record { ip_addr = 49 ∷ []; cmd_port = 56 ∷ [] }

abbrev env : Env
env = record {
  alloc = true;
  flash_interval = none;
  info = some server;
  sent = true;
  timer = record { init = true; start = true; stop = true; deinit = true };
}

abbrev fine : Command.Results
fine = record { ret = 0; alloc = true; init = true; start = true; stop = true; deinit = true }

idle_hands_over_example :
    let mm_status = (Handler.run [] Command.boot).0.mm_status in
    let x =
      call zero_text options env
        (ticks mm_status 5000 (some lan_tcp) true)
        (still lan_tcp ApKeepalive.boot) in
    (x.running ≡ lan_tcp)
    × (x.actions
        ≡ post lan_tcp_service_stop true
          ∷ start_cp (49 ∷ []) (56 ∷ []) true
          ∷ (if ApKeepalive.boot.timer_started
              then stop_timer true ∷ deinit_timer true ∷ []
              else []))
    × (x.keepalive ≡ record ApKeepalive.boot { timer_started = false })
    × (x.effects ≡ transfer_deinit lan_tcp ∷ Core.send_keepalive ∷ [])
unfolding ApKeepalive.boot
idle_hands_over_example =
    idle_hands_over zero_text options env server [] 5000 lan_tcp lan_tcp lan_tcp_service_stop
      ApKeepalive.boot refl refl refl refl refl (refl, refl) refl

wake_answered_example :
    let wake = wakes (some multimedia_wakeup_host) (woken lan_tcp) in
    let x =
      connects zero_text options env 2
        (call zero_text options env wake (still service_none ApKeepalive.boot)) in
    (x.running ≡ lan_tcp)
    × (started x.effects ≡ lan_tcp ∷ [])
    × (command_events fine x.actions
        ≡ Command.update_timestamp ∷ Command.ctrl_send (evt_bytes 19 0 0) ∷ [])
wake_answered_example =
    wake_answered zero_text options env fine lan_tcp 1 ApKeepalive.boot refl refl
