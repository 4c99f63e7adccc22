-- ===== src/Handover.antt =====
-- The multimedia side as a whole: components/smart_lock/src/doorbell_core.c and doorbell_cmd.c with
-- projects/doorbell_lp/ap/keepalive/db_keepalive.c. The messages that the keepalive posts reach the message
-- loop in their order, and the loop calls back into the keepalive and the commands.
pub mod Sleep
pub mod Wake
mod Tests
use bk_solution_doorbell.Base.{
  ℕ, Bool, true, false, Option, none, some, List, [], ◌∷◌, ◌++◌, map, get_elem?, length,
}
use bk_solution_doorbell.Message.{Service}
use bk_solution_doorbell.ApKeepalive
use bk_solution_doorbell.ApKeepalive.Calls
use bk_solution_doorbell.ApKeepalive.{Action, post, command, TimerResults, ℤ}
use bk_solution_doorbell.ApKeepalive.Calls.{
  Call, service_starts, starts_check, service_stops, NetInfo,
}
use bk_solution_doorbell.Command
use bk_solution_doorbell.Command.Handler
use bk_solution_doorbell.Core.{
  Options, Msg, Effect, service_start_success, start_mm_status_check, send_keepalive, message_loop,
}

-- What the keepalive's calls from the message loop find.
pub record Env : Type 0 where
  pub alloc : Bool
  pub flash_interval : Option ℕ
  pub info : Option NetInfo
  pub sent : Bool
  pub timer : TimerResults

-- The messages in the queue after some calls.
abbrev pub posted_msgs : List Action → List Msg
posted_msgs [] = []
posted_msgs (post e true ∷ acts) = record { event = e; param = 0 } ∷ posted_msgs acts
posted_msgs (_ ∷ acts) = posted_msgs acts

-- The calls from the message loop into the keepalive.
abbrev pub calls_of : Env → List Effect → List Call
calls_of env [] = []
calls_of env (service_start_success ∷ es) = service_starts env.alloc ∷ calls_of env es
calls_of env (start_mm_status_check ∷ es) =
    starts_check env.flash_interval env.timer ∷ calls_of env es
calls_of env (send_keepalive ∷ es) = service_stops env.info env.sent env.timer ∷ calls_of env es
calls_of env (_ ∷ es) = calls_of env es

-- The message loop and the keepalive, and what they did.
pub record System : Type 0 where
  pub running : Service
  pub keepalive : ApKeepalive.State
  pub actions : List Action
  pub effects : List Effect

-- The loop handles some messages.
unfoldable pub arrive : (atoi : List ℕ → ℤ) → Options → Env → List Msg → System → System
unfolding message_loop Calls.run
arrive atoi o env ms x =
    let (left, running, es) = message_loop o ms x.running in
    let (s, acts) = Calls.run atoi (calls_of env es) x.keepalive in
    record {
      running = running;
      keepalive = s;
      actions = x.actions ++ acts;
      effects = x.effects ++ es;
    }

-- A call of the keepalive, and what the loop makes of the messages that it posts.
unfoldable pub call : (atoi : List ℕ → ℤ) → Options → Env → Call → System → System
unfolding arrive Calls.step
call atoi o env c x =
    let (s, acts) = Calls.step atoi c x.keepalive in
    arrive atoi o env (posted_msgs acts) (record {
      running = x.running;
      keepalive = s;
      actions = x.actions ++ acts;
      effects = x.effects;
    })

-- The bytes of a command, as the command handler reads them.
abbrev pub memory : List ℕ → ℕ → ℕ
memory bytes i = elim (get_elem? bytes i) [ none ↦ 0 | some b ↦ b ]

-- What the command handler sends for the commands that the keepalive gives it.
unfoldable pub command_events : Command.Results → List Action → List Command.Action
unfolding Handler.cmd_recive_callback
command_events r [] = []
command_events r (command bytes ∷ acts) =
    (Handler.cmd_recive_callback (memory bytes) (length bytes) r Command.boot).1
    ++ command_events r acts
command_events r (_ ∷ acts) = command_events r acts
