-- ===== src/Handover/Wake.antt =====
-- From a wake-up by the coprocessor to the answer for the remote side.
use bk_solution_doorbell.Base.{
  ℕ, zero, suc, append-nil, append_assoc, ◌≡◌, refl, ap, ◌∙◌, sym, length, Bool, true, false, some,
  List, [], ◌∷◌, ◌++◌, arith,
}
use bk_solution_doorbell.Message.{
  Service, service_none, lan_udp, lan_tcp, p2p_cs2, remote_device_connected,
}
use bk_solution_doorbell.ApKeepalive.{
  State, Action, command, ℤ, start_service_from_flash, on_service_start_success,
  send_cmd_to_callback,
}
use bk_solution_doorbell.ApKeepalive.Calls.{
  wakes, multimedia_wakeup_host, WakeupResults, run, step, handle_wakeup_reason,
  start_mm_status_check,
}
use bk_solution_doorbell.Command
use bk_solution_doorbell.Command.Handler
use bk_solution_doorbell.Command.{evt_bytes}
use bk_solution_doorbell.Core.{
  Options, Msg, Effect, transfer_init, message_loop, message_handle, start_request,
}
use bk_solution_doorbell.Handover.{Env, System, call, arrive, memory, command_events}
use bk_solution_doorbell.Handover.Sleep.{still}

abbrev pub is_lan : Service → Bool
is_lan lan_udp = true
is_lan lan_tcp = true
is_lan service_none = false
is_lan p2p_cs2 = false

-- The transfer services that were started.
abbrev pub started : List Effect → List Service
started [] = []
started (transfer_init s param ∷ es) = s ∷ started es
started (_ ∷ es) = started es

-- The results of a wake-up in which every call succeeds.
abbrev pub woken : Service → WakeupResults
woken service = record { ble_posted = true; stopped = true; flash = some service; posted = true }

-- The remote device is announced as connected.
abbrev pub connected : Msg
connected = record { event = remote_device_connected; param = 0 }

-- What the remote side got, and whether a wake-up is still to be answered.
abbrev IsAnswered : Command.Results → Service → System → Type 0
IsAnswered r service x =
    (x.running ≡ service)
    × (started x.effects ≡ service ∷ [])
    × (command_events r x.actions
        ≡ Command.update_timestamp ∷ Command.ctrl_send (evt_bytes 19 0 0) ∷ [])
    × (x.keepalive.pending_wakeup_cmd ≡ 0)

first-IsAnswered :
    (atoi : List ℕ → ℤ) (o : Options) (env : Env) (r : Command.Results) (service : Service)
    (s : State)
    → is_lan service ≡ true
    → env.alloc ≡ true
    → let wake = wakes (some multimedia_wakeup_host) (woken service) in
      IsAnswered r service
        (arrive atoi o env (connected ∷ []) (call atoi o env wake (still service_none s)))
unfolding call arrive run step handle_wakeup_reason start_service_from_flash message_loop
    message_handle start_request on_service_start_success send_cmd_to_callback start_mm_status_check
    command_events Handler.cmd_recive_callback Handler.dispatch Command.event_report
first-IsAnswered atoi o env r service s h k = ground arith

started-append : (xs ys : List Effect) → started (xs ++ ys) ≡ started xs ++ started ys
started-append [] ys = refl
started-append (x ∷ xs) ys = ground (arith, started-append xs ys)

command_events-append :
    (r : Command.Results) (xs ys : List Action)
    → command_events r (xs ++ ys) ≡ command_events r xs ++ command_events r ys
unfolding command_events
command_events-append r [] ys = refl
command_events-append r (command bytes ∷ xs) ys =
    let (s', acts) = Handler.cmd_recive_callback (memory bytes) (length bytes) r Command.boot in
    ap (◌++◌ acts) (command_events-append r xs ys)
    ∙ sym (append_assoc acts (command_events r xs) (command_events r ys))
command_events-append r (_ ∷ xs) ys = command_events-append r xs ys

connected-Quiet :
    (atoi : List ℕ → ℤ) (o : Options) (env : Env) (r : Command.Results) (running : Service)
    (s : State)
    → s.pending_wakeup_cmd ≡ 0
    → let x = arrive atoi o env (connected ∷ []) (still running s) in
      (x.running ≡ running)
      × (started x.effects ≡ [])
      × (command_events r x.actions ≡ [])
      × (x.keepalive.pending_wakeup_cmd ≡ 0)
unfolding arrive run step message_loop message_handle on_service_start_success start_mm_status_check
    command_events
connected-Quiet atoi o env r running s h = ground arith

-- The remote device is announced as connected some times.
unfoldable pub connects : (atoi : List ℕ → ℤ) → Options → Env → ℕ → System → System
unfolding arrive
connects atoi o env zero x = x
connects atoi o env (suc n) x = connects atoi o env n (arrive atoi o env (connected ∷ []) x)

connects-IsAnswered :
    (atoi : List ℕ → ℤ) (o : Options) (env : Env) (r : Command.Results) (service : Service) (n : ℕ)
    (x : System)
    → IsAnswered r service x
    → IsAnswered r service (connects atoi o env n x)
unfolding connects
connects-IsAnswered atoi o env r service zero x h = h
connects-IsAnswered atoi o env r service (suc n) x h =
    let y = arrive atoi o env (connected ∷ []) (still x.running x.keepalive) in
    let (running, quiet, silent, pending) =
      connected-Quiet atoi o env r x.running x.keepalive h.3 in
    connects-IsAnswered atoi o env r service n (arrive atoi o env (connected ∷ []) x) (
      h.0,
      started-append x.effects y.effects ∙ rw (quiet, append-nil (started x.effects)) h.1,
      command_events-append r x.actions y.actions
          ∙ rw (silent, append-nil (command_events r x.actions)) h.2,
      pending,
    )

-- The coprocessor wakes the multimedia side up for its remote device, no service runs, the calls of
-- the start-up succeed, a service of the local network is in the flash, and there is memory for the
-- command. Then, however often the remote device is announced as connected, once at least, that
-- service runs and was started once, and the remote side got one answer to the wake-up request and
-- no other event.
pub wake_answered :
    (atoi : List ℕ → ℤ) (o : Options) (env : Env) (r : Command.Results) (service : Service) (n : ℕ)
    (s : State)
    → is_lan service ≡ true
    → env.alloc ≡ true
    → let wake = wakes (some multimedia_wakeup_host) (woken service) in
      let x = connects atoi o env (suc n) (call atoi o env wake (still service_none s)) in
      (x.running ≡ service)
      × (started x.effects ≡ service ∷ [])
      × (command_events r x.actions
          ≡ Command.update_timestamp ∷ Command.ctrl_send (evt_bytes 19 0 0) ∷ [])
unfolding connects
wake_answered atoi o env r service n s h k =
    let wake = wakes (some multimedia_wakeup_host) (woken service) in
    let first = arrive atoi o env (connected ∷ []) (call atoi o env wake (still service_none s)) in
    let answered =
      connects-IsAnswered atoi o env r service n first
        (first-IsAnswered atoi o env r service s h k) in
    (answered.0, answered.1, answered.2)
