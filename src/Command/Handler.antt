-- ===== src/Command/Handler.antt =====
-- components/smart_lock/src/doorbell_cmd.c: the votes for the services and the handler of the commands.
use bk_solution_doorbell.Base.{
  ℕ, ◌+◌, ◌-◌, ◌*◌, ◌%◌, bit_and, bit_or, Bool, true, false, ◌&&◌, Option, none, some, List, [],
  ◌∷◌, ◌++◌, ◌==◌, ltb, if◌then◌else◌,
}
use bk_solution_doorbell.Message.{lan_udp_service_start_request, lan_tcp_service_start_request}
use bk_solution_doorbell.Command.{
  Action, AudioParameters, CameraParameters, CmdInfo, DisplayParameters, Opcode, Results, State,
  audio_acoustics, audio_turn_off, audio_turn_on, camera_turn_off, camera_turn_on,
  cmd_server_deinit, cmd_server_init, ctrl_send, display_turn_off, display_turn_on, event_report,
  evt_bytes, get_audio_status, get_camera_status, get_lcd_status, get_supported_camera_devices,
  get_supported_lcd_devices, get_supported_mic_devices, get_supported_speaker_devices,
  keep_alive_request, keep_alive_response, keep_alive_start_timer, keep_alive_stop_timer, opcode_of,
  png, post, report_lcd_status, report_supported_cameras, report_supported_lcds, set_acoustics,
  set_audio_turn_off, set_audio_turn_on, set_camera_turn_off, set_camera_turn_on, set_keep_alive,
  set_lcd_turn_off, set_lcd_turn_on, set_service_type, unknown_opcode, update_timestamp,
  video_transfer_turn_off, video_transfer_turn_on, wake_up_request,
}

-- `mm_status_bit_t`, and any other number.
pub data ServiceBit : Type 0 where
  camera_bit audio_bit lcd_bit other_bit : ServiceBit

abbrev pub mask_of : ServiceBit → Option ℕ
mask_of camera_bit = some 1
mask_of audio_bit = some 2
mask_of lcd_bit = some 4
mask_of other_bit = none

-- The new `mm_service_status`.
unfoldable pub mm_service_vote : ServiceBit → (vote_add : Bool) → (status : ℕ) → ℕ
mm_service_vote b vote_add status = elim (mask_of b) [
  | none ↦ status
  | some mask ↦ if vote_add then bit_or status mask else bit_and status (4294967295 - mask)
]

-- STREAM_TO_UINT8, STREAM_TO_UINT16 and STREAM_TO_UINT32 at a position.
abbrev pub get8 : (ℕ → ℕ) → ℕ → ℕ
get8 cmd i = cmd i % 256

abbrev pub get16 : (ℕ → ℕ) → ℕ → ℕ
get16 cmd i = get8 cmd i + 256 * get8 cmd (i + 1)

abbrev pub get32 : (ℕ → ℕ) → ℕ → ℕ
get32 cmd i =
    get8 cmd i + 256 * get8 cmd (i + 1) + 65536 * get8 cmd (i + 2) + 16777216 * get8 cmd (i + 3)

-- Whether the bytes from a position on start with a text, as `os_strncmp` with the text's length says.
abbrev pub starts_with : (ℕ → ℕ) → ℕ → List ℕ → Bool
starts_with cmd i [] = true
starts_with cmd i (b ∷ bs) = get8 cmd i == b && starts_with cmd (i + 1) bs

-- "doorbell-udp" and "doorbell-tcp".
abbrev pub doorbell_udp : List ℕ
doorbell_udp = 100 ∷ 111 ∷ 111 ∷ 114 ∷ 98 ∷ 101 ∷ 108 ∷ 108 ∷ 45 ∷ 117 ∷ 100 ∷ 112 ∷ []

abbrev pub doorbell_tcp : List ℕ
doorbell_tcp = 100 ∷ 111 ∷ 111 ∷ 114 ∷ 98 ∷ 101 ∷ 108 ∷ 108 ∷ 45 ∷ 116 ∷ 99 ∷ 112 ∷ []

-- The bytes of the command: opcode at 0, param at 4, length at 8, payload from 10 on.
unfoldable pub camera_parameters : (ℕ → ℕ) → CameraParameters
camera_parameters cmd = record {
  id = get32 cmd 4 % 65536;
  width = get16 cmd 10;
  height = get16 cmd 12;
  format = get16 cmd 14;
  protocol = get16 cmd 16;
  rotate = if ltb 8 (get16 cmd 8) then get16 cmd 18 else 65535;
}

unfoldable pub audio_parameters : (ℕ → ℕ) → AudioParameters
audio_parameters cmd = record {
  aec = get8 cmd 10;
  uac = get8 cmd 11;
  rmt_recorder_sample_rate = get32 cmd 12;
  rmt_player_sample_rate = get32 cmd 16;
  rmt_recoder_fmt = get8 cmd 20;
  rmt_player_fmt = get8 cmd 21;
}

-- `pixel_format` has 8 bits.
unfoldable pub display_parameters : (ℕ → ℕ) → DisplayParameters
display_parameters cmd = record {
  id = get16 cmd 10;
  rotate_angle = get16 cmd 12;
  pixel_format = get16 cmd 14 % 256;
}

-- DBCMD_SET_SERVICE_TYPE.
unfoldable pub service_type : (ℕ → ℕ) → List Action
service_type cmd =
    let op = get32 cmd 0 in
    if starts_with cmd 10 doorbell_udp
    then post lan_udp_service_start_request ∷ ctrl_send (evt_bytes op 0 0) ∷ []
    else if starts_with cmd 10 doorbell_tcp
    then post lan_tcp_service_start_request ∷ ctrl_send (evt_bytes op 0 0) ∷ []
    else ctrl_send (evt_bytes op 1 0) ∷ []

-- DBCMD_SET_KEEP_ALIVE, without the reply.
unfoldable pub keep_alive : (param : ℕ) → Results → Option CmdInfo → Option CmdInfo × List Action
unfolding cmd_server_init keep_alive_start_timer keep_alive_stop_timer cmd_server_deinit
keep_alive param r info =
    let (started, info', acts) = keep_alive_start_timer param r (cmd_server_init r.alloc info).1 in
    if param == 0
    then ((cmd_server_deinit info).1, (keep_alive_stop_timer r info).1)
    else (info', acts)

-- The vote of a device call: it counts if the call succeeded.
abbrev pub vote_if : (ret : ℕ) → ServiceBit → Bool → State → State
vote_if ret b vote_add s =
    if ret == 0 then record s { mm_status = mm_service_vote b vote_add s.mm_status } else s

-- The switch of doorbell_transmission_cmd_recive_callback.
unfoldable pub dispatch : Opcode → (ℕ → ℕ) → Results → State → State × List Action
unfolding event_report keep_alive service_type
dispatch set_service_type cmd r s = (s, service_type cmd)
dispatch set_keep_alive cmd r s =
    let (info', acts) = keep_alive (get32 cmd 4) r s.info in
    (record s { info = info' }, acts ++ event_report (get32 cmd 0) 0 0)
dispatch get_supported_camera_devices cmd r s = (s, report_supported_cameras (get32 cmd 0) ∷ [])
dispatch set_camera_turn_on cmd r s = (
  vote_if r.ret camera_bit true s,
  camera_turn_on (camera_parameters cmd)
      ∷ video_transfer_turn_on
      ∷ event_report (get32 cmd 0) r.ret 0,
)
dispatch set_camera_turn_off cmd r s = (
  vote_if r.ret camera_bit false s,
  video_transfer_turn_off ∷ camera_turn_off ∷ event_report (get32 cmd 0) r.ret 0,
)
dispatch get_camera_status cmd r s = (s, [])
dispatch set_audio_turn_on cmd r s = (
  vote_if r.ret audio_bit true s,
  audio_turn_on (audio_parameters cmd) ∷ event_report (get32 cmd 0) r.ret 0,
)
dispatch set_audio_turn_off cmd r s =
    (vote_if r.ret audio_bit false s, audio_turn_off ∷ event_report (get32 cmd 0) r.ret 0)
dispatch get_audio_status cmd r s = (s, [])
dispatch set_lcd_turn_on cmd r s = (
  vote_if r.ret lcd_bit true s,
  display_turn_on (display_parameters cmd) ∷ event_report (get32 cmd 0) r.ret 0,
)
dispatch set_lcd_turn_off cmd r s =
    (vote_if r.ret lcd_bit false s, display_turn_off ∷ event_report (get32 cmd 0) r.ret 0)
dispatch get_supported_lcd_devices cmd r s = (s, report_supported_lcds (get32 cmd 0) ∷ [])
dispatch get_lcd_status cmd r s = (s, report_lcd_status (get32 cmd 0) ∷ [])
dispatch png cmd r s = (s, event_report (get32 cmd 0) 0 0)
dispatch set_acoustics cmd r s =
    (s, audio_acoustics (get32 cmd 4) (get32 cmd 10) ∷ event_report (get32 cmd 0) r.ret 0)
dispatch wake_up_request cmd r s = (s, event_report (get32 cmd 0) 0 0)
dispatch get_supported_mic_devices cmd r s = (s, event_report (get32 cmd 0) 12 0)
dispatch get_supported_speaker_devices cmd r s = (s, event_report (get32 cmd 0) 12 0)
dispatch keep_alive_request cmd r s = (s, event_report (get32 cmd 0) 12 0)
dispatch keep_alive_response cmd r s = (s, event_report (get32 cmd 0) 12 0)
dispatch unknown_opcode cmd r s = (s, event_report (get32 cmd 0) 12 0)

-- doorbell_transmission_cmd_recive_callback.
unfoldable pub cmd_recive_callback :
    (cmd : ℕ → ℕ) (length : ℕ) → Results → State → State × List Action
unfolding dispatch
cmd_recive_callback cmd length r s =
    let (s', acts) = dispatch (opcode_of (get32 cmd 0)) cmd r s in
    if ltb length 10 then (s, []) else (s', update_timestamp ∷ acts)

-- A command as it arrives, with what its calls return.
pub record Arrival : Type 0 where
  pub cmd : ℕ → ℕ
  pub length : ℕ
  pub results : Results

-- Some commands, one after the other.
unfoldable pub run : List Arrival → State → State × List Action
unfolding cmd_recive_callback
run [] s = (s, [])
run (a ∷ as') s =
    let (s1, acts) = cmd_recive_callback a.cmd a.length a.results s in
    let (s2, rest) = run as' s1 in (s2, acts ++ rest)
