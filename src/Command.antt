-- ===== src/Command.antt =====
-- components/smart_lock/src/doorbell_cmd.c: the commands of the remote side, the keep-alive timer and
-- the bitmap of active multimedia services.
-- What calls of the SDK and of the device files return is an argument, as are the bytes from the start
-- of the command on, beyond its length too. The dual stream option is off.
pub mod Handler
pub mod Reply
pub mod Votes
pub mod SdkTimers
pub mod Timer
pub mod Leak
mod Tests
use bk_solution_doorbell.Base.{
  ℕ, zero, suc, ◌+◌, ◌-◌, ◌*◌, ◌%◌, bit_and, bit_or, Bool, true, false, not, ◌&&◌, Option, none,
  some, List, [], ◌∷◌, ◌++◌, ◌==◌, ltb, leb, if◌then◌else◌,
}
use bk_solution_doorbell.Message.{
  Dbevt, lan_udp_service_start_request, lan_tcp_service_start_request, put16, put32,
}

-- `dbcmd_t`, and any other number.
pub data Opcode : Type 0 where
  set_service_type set_keep_alive : Opcode
  get_supported_camera_devices get_supported_lcd_devices : Opcode
  get_supported_mic_devices get_supported_speaker_devices : Opcode
  set_camera_turn_on set_camera_turn_off get_camera_status : Opcode
  set_audio_turn_on set_audio_turn_off get_audio_status : Opcode
  set_lcd_turn_on set_lcd_turn_off get_lcd_status : Opcode
  set_acoustics keep_alive_request keep_alive_response wake_up_request : Opcode
  png unknown_opcode : Opcode

abbrev pub opcode_of : ℕ → Opcode
opcode_of n =
    if n == 1
    then set_service_type
    else if n == 2
    then set_keep_alive
    else if n == 3
    then get_supported_camera_devices
    else if n == 4
    then get_supported_lcd_devices
    else if n == 5
    then get_supported_mic_devices
    else if n == 6
    then get_supported_speaker_devices
    else if n == 7
    then set_camera_turn_on
    else if n == 8
    then set_camera_turn_off
    else if n == 9
    then get_camera_status
    else if n == 10
    then set_audio_turn_on
    else if n == 11
    then set_audio_turn_off
    else if n == 12
    then get_audio_status
    else if n == 13
    then set_lcd_turn_on
    else if n == 14
    then set_lcd_turn_off
    else if n == 15
    then get_lcd_status
    else if n == 16
    then set_acoustics
    else if n == 17
    then keep_alive_request
    else if n == 18
    then keep_alive_response
    else if n == 19
    then wake_up_request
    else if n == 100
    then png
    else unknown_opcode

-- `db_cmd_info_t`: whether the timer's handle is set, and its period. The timer itself is the SDK's; `SdkTimers` follows it
-- through the calls.
pub record CmdInfo : Type 0 where
  pub has_handle : Bool
  pub intval_ms : ℕ

-- `db_cmd_info` and `mm_service_status`.
pub record State : Type 0 where
  pub info : Option CmdInfo
  pub mm_status : ℕ

unfoldable pub boot : State
boot = record { info = none; mm_status = 0 }

pub record CameraParameters : Type 0 where
  pub id : ℕ
  pub width : ℕ
  pub height : ℕ
  pub format : ℕ
  pub protocol : ℕ
  pub rotate : ℕ

-- The fields that the handler sets; it does not set `asr`.
pub record AudioParameters : Type 0 where
  pub aec : ℕ
  pub uac : ℕ
  pub rmt_recorder_sample_rate : ℕ
  pub rmt_player_sample_rate : ℕ
  pub rmt_recoder_fmt : ℕ
  pub rmt_player_fmt : ℕ

pub record DisplayParameters : Type 0 where
  pub id : ℕ
  pub rotate_angle : ℕ
  pub pixel_format : ℕ

-- The calls that leave the file, in order; the timer's with what they returned.
pub data Action : Type 0 where
  update_timestamp : Action
  ctrl_send : List ℕ → Action
  post : Dbevt → Action
  init_timer : (time_ms : ℕ) → Bool → Action
  start_timer stop_timer deinit_timer : Bool → Action
  camera_turn_on : CameraParameters → Action
  audio_turn_on : AudioParameters → Action
  display_turn_on : DisplayParameters → Action
  camera_turn_off audio_turn_off display_turn_off : Action
  video_transfer_turn_on video_transfer_turn_off : Action
  report_supported_cameras report_supported_lcds report_lcd_status : (opcode : ℕ) → Action
  audio_acoustics : (kind param : ℕ) → Action

-- What the calls of one command return: `ret` is the device's, an `int` as 32 bits.
pub record Results : Type 0 where
  pub ret : ℕ
  pub alloc : Bool
  pub init : Bool
  pub start : Bool
  pub stop : Bool
  pub deinit : Bool

abbrev pub evt_bytes : (opcode status flags : ℕ) → List ℕ
evt_bytes opcode status flags = put32 opcode ++ (status % 256 ∷ (put16 flags ++ put16 0))

-- doorbell_transmission_event_report for a whole event.
unfoldable pub event_report : (opcode status flags : ℕ) → List Action
event_report opcode status flags = ctrl_send (evt_bytes opcode status flags) ∷ []

-- doorbell_keep_alive_timer_handler.
unfoldable pub heartbeat : List Action
heartbeat = ctrl_send (evt_bytes 4278190081 0 0) ∷ []

-- The part of doorbell_keep_alive_start_timer that sets the timer up.
unfoldable pub set_up : (time_ms : ℕ) → Results → CmdInfo → Bool × CmdInfo × List Action
set_up time_ms r i =
    let i' : CmdInfo = record { has_handle = true; intval_ms = time_ms } in
    if r.init
    then (r.start, i', init_timer time_ms true ∷ start_timer r.start ∷ [])
    else (false, i, init_timer time_ms false ∷ [])

-- doorbell_keep_alive_start_timer for a structure that exists.
unfoldable pub restart_timer : (time_ms : ℕ) → Results → CmdInfo → Bool × CmdInfo × List Action
unfolding set_up
restart_timer time_ms r i =
    let bare = record i { has_handle = false } in
    if i.intval_ms == 0
    then set_up time_ms r i
    else if i.intval_ms == time_ms
    then (true, i, [])
    else if i.has_handle
    then (if r.deinit
        then (let (ok, i', acts) = set_up time_ms r bare in (ok, i', deinit_timer true ∷ acts))
        else (false, i, deinit_timer false ∷ []))
    else set_up time_ms r i

unfoldable pub keep_alive_start_timer :
    (time_ms : ℕ) → Results → Option CmdInfo → Bool × Option CmdInfo × List Action
unfolding restart_timer
keep_alive_start_timer time_ms r none = (false, none, [])
keep_alive_start_timer time_ms r (some i) =
    let (ok, i', acts) = restart_timer time_ms r i in (ok, some i', acts)

unfoldable pub keep_alive_stop_timer : Results → Option CmdInfo → Bool × List Action
keep_alive_stop_timer r none = (false, [])
keep_alive_stop_timer r (some i) = (r.stop, stop_timer r.stop ∷ [])

unfoldable pub cmd_server_init : (alloc : Bool) → Option CmdInfo → Bool × Option CmdInfo
cmd_server_init alloc (some i) = (false, some i)
cmd_server_init alloc none =
    if alloc then (true, some (record { has_handle = false; intval_ms = 0 })) else (false, none)

unfoldable pub cmd_server_deinit : Option CmdInfo → Bool × Option CmdInfo
cmd_server_deinit none = (false, none)
cmd_server_deinit (some i) = (true, none)
