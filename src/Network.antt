-- ===== src/Network.antt =====
-- components/smart_lock/src/doorbell_network_transfer.c: what the events of the SDK's network transfer
-- service mean for the doorbell, and which channels are connected. `client` is the build option
-- CONFIG_NTWK_CLIENT_SERVICE_ENABLE, and `number` gives the channels the values of the SDK's enum; both are
-- arguments.
pub mod Channels
pub mod Announce
pub mod Transfer
mod Tests
use bk_solution_doorbell.Base.{
  ℕ, ◌%◌, ◌^◌, ◌||◌, Bool, true, false, Option, none, some, List, [], ◌∷◌, ◌++◌, ◌==◌,
  if◌then◌else◌, bit_and, bit_or, bit_not,
}
use bk_solution_doorbell.Message.{
  Dbevt, p2p_cs2_service_start_response, lan_udp_service_start_response,
  lan_tcp_service_start_response, remote_device_connected, remote_device_disconnected,
  image_tcp_service_disconnected,
}

-- `chan_type_t`; `other` is a further value.
pub data Channel : Type 0 where
  ctrl video audio other : Channel

-- `db_ntwk_type_t`.
pub data NtwkType : Type 0 where
  none_type tcp udp cs2 : NtwkType

abbrev pub is_ctrl : Channel → Bool
is_ctrl ctrl = true
is_ctrl video = false
is_ctrl audio = false
is_ctrl other = false

-- `event->code`; `unhandled` is any other code.
pub data Code : Type 0 where
  start connected disconnected stop unhandled : Code

-- `ntwk_trans_event_t`, with the test of its `param`.
pub record TransEvent : Type 0 where
  pub code : Code
  pub chan_type : Channel
  pub not_conn : Bool

abbrev pub start_response : NtwkType → Channel → Option Dbevt
start_response cs2 ctrl = some p2p_cs2_service_start_response
start_response tcp video = some lan_tcp_service_start_response
start_response udp video = some lan_udp_service_start_response
start_response _ _ = none

-- The test of the three names that `db_ntwk_type_t` has.
abbrev pub is_known : NtwkType → Bool
is_known none_type = false
is_known tcp = true
is_known udp = true
is_known cs2 = true

-- Without the client service, the control channel alone counts, and not for cs2.
abbrev pub server_connected : NtwkType → Channel → Option Dbevt
server_connected tcp ctrl = some remote_device_connected
server_connected udp ctrl = some remote_device_connected
server_connected _ _ = none

-- `not_conn` is `param == ENOTCONN`.
abbrev pub unless_not_conn : Bool → Option Dbevt
unless_not_conn not_conn = if not_conn then none else some remote_device_disconnected

abbrev pub disconnected_message : NtwkType → Channel → (not_conn : Bool) → Option Dbevt
disconnected_message tcp ctrl e = some remote_device_disconnected
disconnected_message udp ctrl e = some remote_device_disconnected
disconnected_message cs2 ctrl e = some remote_device_disconnected
disconnected_message tcp video e =
    if e then some image_tcp_service_disconnected else some remote_device_disconnected
disconnected_message udp video e = unless_not_conn e
disconnected_message tcp audio e = unless_not_conn e
disconnected_message udp audio e = unless_not_conn e
disconnected_message _ _ e = none

abbrev pub stop_message : NtwkType → Channel → (not_conn : Bool) → Option Dbevt
stop_message tcp ctrl e = unless_not_conn e
stop_message udp ctrl e = unless_not_conn e
stop_message cs2 ctrl e = some remote_device_disconnected
stop_message _ _ e = none

module _ (client : Bool) (number : Channel → ℕ) where
  -- `1 << c`.
  abbrev pub bit : Channel → ℕ
  bit c = 2 ^ number c

  -- ALL_CHAN_MASK.
  abbrev pub all_chan_mask : ℕ
  all_chan_mask = bit_or (bit_or (bit ctrl) (bit video)) (bit audio)

  abbrev pub check_all_channels_connected : ℕ → Bool
  check_all_channels_connected mask = bit_and mask all_chan_mask == all_chan_mask

  abbrev pub set_chan_connected : Channel → ℕ → ℕ
  set_chan_connected c mask = bit_or mask (bit c) % 256

  abbrev pub clear_chan_connected : Channel → ℕ → ℕ
  clear_chan_connected c mask = bit_and mask (bit_not (bit c)) % 256

  -- The mask after the reset that opens the start and stop handlers.
  abbrev pub reset_for : Channel → ℕ → ℕ
  reset_for c mask = if client then if is_ctrl c then 0 else mask else mask

  unfoldable pub handle_start_event : NtwkType → Channel → ℕ → Option Dbevt × ℕ
  handle_start_event t c mask = (start_response t c, reset_for c mask)

  abbrev pub client_connected : NtwkType → Channel → ℕ → Option Dbevt × ℕ
  client_connected t c mask =
      let mask' = set_chan_connected c mask in
      (
        if check_all_channels_connected mask'
            then if is_known t then some remote_device_connected else none
            else none,
        mask',
      )

  unfoldable pub handle_connected_event : NtwkType → Channel → ℕ → Option Dbevt × ℕ
  handle_connected_event t other mask = (none, mask)
  handle_connected_event t ctrl mask =
      if client then client_connected t ctrl mask else (server_connected t ctrl, mask)
  handle_connected_event t video mask =
      if client then client_connected t video mask else (server_connected t video, mask)
  handle_connected_event t audio mask =
      if client then client_connected t audio mask else (server_connected t audio, mask)

  unfoldable pub handle_disconnected_event :
      NtwkType → Channel → (not_conn : Bool) → ℕ → Option Dbevt × ℕ
  handle_disconnected_event t c e mask =
      (disconnected_message t c e, if client then clear_chan_connected c mask else mask)

  unfoldable pub handle_stop_event : NtwkType → Channel → (not_conn : Bool) → ℕ → Option Dbevt × ℕ
  handle_stop_event t c e mask = (stop_message t c e, reset_for c mask)

  -- doorbell_bk_net_msg_evt_handle with a service and an event: the message that is sent, and the mask.
  unfoldable pub msg_evt_handle : NtwkType → TransEvent → ℕ → Option Dbevt × ℕ
  unfolding handle_start_event handle_connected_event handle_disconnected_event handle_stop_event
  msg_evt_handle t event mask = elim event.code [
    | start ↦ handle_start_event t event.chan_type mask
    | connected ↦ handle_connected_event t event.chan_type mask
    | disconnected ↦ handle_disconnected_event t event.chan_type event.not_conn mask
    | stop ↦ handle_stop_event t event.chan_type event.not_conn mask
    | unhandled ↦ (none, mask)
  ]
