-- ===== src/Core.antt =====
-- components/smart_lock/src/doorbell_core.c: the doorbell's message loop, its start and its end.
-- The build options CONFIG_NTWK_CLIENT_SERVICE_ENABLE, CONFIG_INTEGRATION_DOORBELL_CS2,
-- CONFIG_BLUETOOTH_AP and CONFIG_BLUETOOTH_HOST_ONLY and what calls of the SDK return are arguments.
pub mod Services
pub mod Lifecycle
mod Tests
use bk_solution_doorbell.Base.{
  ℕ, ◌+◌, ◌/◌, ◌%◌, Bool, true, false, Option, none, some, List, [], ◌∷◌, ◌++◌, if◌then◌else◌,
}
use bk_solution_doorbell.Message.{
  Dbevt, wifi_station_connect, wifi_station_connected, wifi_station_disconnected,
  p2p_cs2_service_start_request, p2p_cs2_service_start_response, lan_udp_service_start_request,
  lan_udp_service_start_response, lan_tcp_service_start_request, lan_tcp_service_start_response,
  wifi_soft_ap_turning_on, remote_device_connected, remote_device_disconnected, start_wifi_station,
  start_tcp_service, start_boarding_event, ble_disable, sdp, exit, image_tcp_service_disconnected,
  voice_event, set_server_net_info, lan_tcp_service_stop, lan_udp_service_stop, Service,
  service_none, p2p_cs2, lan_udp, lan_tcp,
}

pub record Options : Type 0 where
  pub client : Bool
  pub cs2 : Bool
  pub bluetooth : Bool
  pub bluetooth_host : Bool

-- `doorbell_msg_t`.
pub record Msg : Type 0 where
  pub event : Dbevt
  pub param : ℕ

-- The calls that leave the file. A service is named by its value: "udp_service", "tcp_service" and
-- "cs2_service"; `sdp_start` has the ports of the service that it names,
-- and `notify_ip` the address of the interface that runs.
pub data Effect : Type 0 where
  wifi_connect : (boarding_info : ℕ) → Effect
  notify : (opcode status : ℕ) → Effect
  notify_ip : (opcode : ℕ) → Effect
  save_service : Service → Effect
  transfer_init : Service → (param : ℕ) → Effect
  transfer_deinit : Service → Effect
  sdp_start : Service → Effect
  sdp_reload : (ms : ℕ) → Effect
  sdp_stop bluetooth_deinit video_turn_off audio_turn_off : Effect
  service_start_success start_mm_status_check send_keepalive : Effect
  devices_init audio_device_init boarding_init : Effect

-- A start request of the local network.
unfoldable pub start_request : Options → Service → (running : Service) → Service × List Effect
start_request o s service_none =
    (s, (if o.client then save_service s ∷ [] else []) ++ (transfer_init s 0 ∷ []))
start_request o s running = (running, [])

unfoldable pub cs2_start_request :
    Options → (param : ℕ) → (running : Service) → Service × List Effect
cs2_start_request o param service_none =
    if o.cs2 then (p2p_cs2, transfer_init p2p_cs2 param ∷ []) else (service_none, [])
cs2_start_request o param running = (running, [])

-- What runs for the services of the local network in a build without the client service.
abbrev pub if_lan : Options → (running : Service) → Effect → List Effect
if_lan o lan_udp e = if o.client then [] else e ∷ []
if_lan o lan_tcp e = if o.client then [] else e ∷ []
if_lan o service_none e = []
if_lan o p2p_cs2 e = []

-- One message of doorbell_message_handle; `false` leaves the loop.
unfoldable pub message_handle :
    Options → Dbevt → (param : ℕ) → (running : Service) → Bool × Service × List Effect
unfolding start_request cs2_start_request
message_handle o wifi_station_connect param s = (true, s, wifi_connect param ∷ [])
message_handle o wifi_station_connected param s = (true, s, notify_ip 1 ∷ [])
message_handle o wifi_station_disconnected param s = (true, s, [])
message_handle o wifi_soft_ap_turning_on param s = (true, s, [])
message_handle o lan_udp_service_start_request param s =
    let (s', es) = start_request o lan_udp s in (true, s', es)
message_handle o lan_udp_service_start_response param s =
    (true, s, (if o.client then [] else sdp_start lan_udp ∷ []) ++ (notify 3 0 ∷ []))
message_handle o lan_tcp_service_start_request param s =
    let (s', es) = start_request o lan_tcp s in (true, s', es)
message_handle o lan_tcp_service_start_response param s =
    (true, s, (if o.client then [] else sdp_start lan_tcp ∷ []) ++ (notify 4 0 ∷ []))
message_handle o p2p_cs2_service_start_request param s =
    let (s', es) = cs2_start_request o param s in (true, s', es)
message_handle o p2p_cs2_service_start_response param s = (true, s, notify 9 0 ∷ [])
message_handle o start_boarding_event param s =
    (true, s, notify (param % 65536) (param / 65536) ∷ [])
message_handle o ble_disable param s = (true, s, if o.bluetooth then bluetooth_deinit ∷ [] else [])
message_handle o remote_device_connected param s =
    (true, s, if_lan o s (sdp_reload 60000) ++ (service_start_success ∷ start_mm_status_check ∷ []))
message_handle o remote_device_disconnected param s = (
  true,
  if o.client then service_none else s,
  video_turn_off ∷ audio_turn_off ∷ if_lan o s (sdp_start s),
)
message_handle o image_tcp_service_disconnected param s =
    (true, s, video_turn_off ∷ if_lan o s (sdp_start s))
message_handle o set_server_net_info param s = (true, s, notify 17 0 ∷ [])
message_handle o lan_tcp_service_stop param s =
    (true, s, transfer_deinit lan_tcp ∷ send_keepalive ∷ [])
message_handle o lan_udp_service_stop param s =
    (true, s, transfer_deinit lan_udp ∷ send_keepalive ∷ [])
message_handle o exit param s = (false, s, if o.client then [] else sdp_stop ∷ [])
message_handle o start_wifi_station param s = (true, s, [])
message_handle o start_tcp_service param s = (true, s, [])
message_handle o sdp param s = (true, s, [])
message_handle o voice_event param s = (true, s, [])

-- `db_info`, as far as the loop's start and end go.
pub record DbInfo : Type 0 where
  pub enabled : Bool
  pub service : Service
  pub has_thd : Bool
  pub has_queue : Bool

abbrev pub fresh : DbInfo
fresh = record { enabled = false; service = service_none; has_thd = false; has_queue = false }

-- What the calls of doorbell_core_init return.
pub record InitResults : Type 0 where
  pub alloc : Bool
  pub queue : Bool
  pub thread : Bool

-- doorbell_core_init for a structure that exists.
unfoldable pub core_init_info : Options → InitResults → DbInfo → DbInfo × List Effect
core_init_info o r i =
    if i.has_queue
    then (i, [])
    else if i.has_thd
    then (i, [])
    else if r.queue
    then (if r.thread
        then (
          record i { enabled = true; has_thd = true; has_queue = true },
          devices_init ∷ audio_device_init ∷ (if o.bluetooth_host then boarding_init ∷ [] else []),
        )
        else (record i { has_queue = true }, []))
    else (i, [])

-- doorbell_core_init; `none` is `db_info == NULL`.
unfoldable pub core_init : Options → InitResults → Option DbInfo → Option DbInfo × List Effect
unfolding core_init_info
core_init o r none =
    if r.alloc then (let (i, es) = core_init_info o r fresh in (some i, es)) else (none, [])
core_init o r (some i) = let (i', es) = core_init_info o r i in (some i', es)

-- doorbell_send_msg for a structure that exists: whether it returns BK_OK, and whether the message is in
-- the queue.
unfoldable pub send_msg : (pushed : Bool) → DbInfo → Bool × Bool
send_msg pushed i = if i.has_queue then (pushed, pushed) else (true, false)

-- The code behind the loop. `returns` is whether `rtos_delete_thread(NULL)` returns to the thread that it
-- deletes.
unfoldable pub loop_exit : (returns : Bool) → DbInfo → DbInfo
loop_exit returns i =
    if returns
    then record i { has_queue = false; has_thd = false }
    else record i { has_queue = false }

-- doorbell_message_handle over the messages that arrive; `true` is a loop that was left.
unfoldable pub message_loop :
    Options → List Msg → (running : Service) → Bool × Service × List Effect
unfolding message_handle
message_loop o [] s = (false, s, [])
message_loop o (m ∷ ms) s =
    let (goes_on, s', es) = message_handle o m.event m.param s in
    let (left, last, rest) = message_loop o ms s' in
    if goes_on then (left, last, es ++ rest) else (true, s', es)
