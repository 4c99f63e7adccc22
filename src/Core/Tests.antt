-- ===== src/Core/Tests.antt =====
-- Two start requests, and a thread that cannot be created.
use bk_solution_doorbell.Base.{◌≡◌, refl, true, false, none, some, List, [], ◌∷◌}
use bk_solution_doorbell.Message.{
  Dbevt, service_none, lan_tcp_service_start_request, lan_udp_service_start_request,
  remote_device_disconnected,
}
use bk_solution_doorbell.Core.{Options, Msg, DbInfo, fresh, InitResults, message_loop, send_msg}
use bk_solution_doorbell.Core.Services.{transfer_inits}
use bk_solution_doorbell.Core.Lifecycle.{tries, thread_failure_lasts}

abbrev client : Options
client = record { client = true; cs2 = false; bluetooth = true; bluetooth_host = false }

abbrev msg : Dbevt → Msg
msg e = record { event = e; param = 0 }

abbrev some_msgs : List Msg
some_msgs =
    msg lan_tcp_service_start_request
    ∷ msg lan_udp_service_start_request
    ∷ msg remote_device_disconnected
    ∷ msg lan_udp_service_start_request
    ∷ []

some_inits : transfer_inits (message_loop client some_msgs service_none).2 ≡ 2
unfolding message_loop
some_inits = refl

abbrev no_thread : InitResults
no_thread = record { alloc = true; queue = true; thread = false }

abbrev all_well : InitResults
all_well = record { alloc = true; queue = true; thread = true }

thread_failure_lasts_example :
    let i : DbInfo = record fresh { has_queue = true } in
    (tries client (no_thread ∷ all_well ∷ []) none ≡ (some i, []))
    × (send_msg true i ≡ (true, true))
thread_failure_lasts_example = thread_failure_lasts client no_thread (all_well ∷ []) refl refl refl
