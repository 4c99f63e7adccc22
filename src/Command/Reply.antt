-- ===== src/Command/Reply.antt =====
-- What a command is answered, and what it is read from.
use bk_solution_doorbell.Base.{
  ℕ, ◌+◌, ◌*◌, ◌%◌, ◌≤◌, ◌<◌, ◌≡◌, refl, ap, ◌∙◌, inl, inr, ◌||◌, Option, none, some, List, [], ◌∷◌,
  ◌++◌, arith, ltb, if◌then◌else◌, Bool-cases,
}
use bk_solution_doorbell.Message.{put32}
use bk_solution_doorbell.Command.{
  Opcode, opcode_of, State, Results, Action, ctrl_send, event_report, cmd_server_init,
  keep_alive_start_timer, keep_alive_stop_timer, cmd_server_deinit, restart_timer, set_up, CmdInfo,
  set_service_type, set_keep_alive, get_supported_camera_devices, get_supported_lcd_devices,
  get_supported_mic_devices, get_supported_speaker_devices, set_camera_turn_on, set_camera_turn_off,
  get_camera_status, set_audio_turn_on, set_audio_turn_off, get_audio_status, set_lcd_turn_on,
  set_lcd_turn_off, get_lcd_status, set_acoustics, keep_alive_request, keep_alive_response,
  wake_up_request, png, unknown_opcode,
}
use bk_solution_doorbell.Command.Handler.{
  dispatch, cmd_recive_callback, get32, get8, service_type, keep_alive, doorbell_udp, doorbell_tcp,
  starts_with,
}

-- The events that go to the remote side.
abbrev pub sends : List Action → List (List ℕ)
sends [] = []
sends (ctrl_send e ∷ acts) = e ∷ sends acts
sends (_ ∷ acts) = sends acts

-- The status of the answer; `none` is no answer from this file.
abbrev pub answer : Opcode → (cmd : ℕ → ℕ) → (ret : ℕ) → Option ℕ
answer set_service_type cmd ret =
    if starts_with cmd 10 doorbell_udp || starts_with cmd 10 doorbell_tcp then some 0 else some 1
answer set_keep_alive cmd ret = some 0
answer png cmd ret = some 0
answer wake_up_request cmd ret = some 0
answer set_camera_turn_on cmd ret = some ret
answer set_camera_turn_off cmd ret = some ret
answer set_audio_turn_on cmd ret = some ret
answer set_audio_turn_off cmd ret = some ret
answer set_lcd_turn_on cmd ret = some ret
answer set_lcd_turn_off cmd ret = some ret
answer set_acoustics cmd ret = some ret
answer get_supported_mic_devices cmd ret = some 12
answer get_supported_speaker_devices cmd ret = some 12
answer keep_alive_request cmd ret = some 12
answer keep_alive_response cmd ret = some 12
answer unknown_opcode cmd ret = some 12
answer get_supported_camera_devices cmd ret = none
answer get_supported_lcd_devices cmd ret = none
answer get_lcd_status cmd ret = none
answer get_camera_status cmd ret = none
answer get_audio_status cmd ret = none

-- The answer with the four bytes of the command's opcode.
abbrev pub answer_bytes : (ℕ → ℕ) → Option ℕ → List (List ℕ)
answer_bytes cmd none = []
answer_bytes cmd (some status) =
    (get8 cmd 0 ∷ get8 cmd 1 ∷ get8 cmd 2 ∷ get8 cmd 3 ∷ (status % 256) ∷ 0 ∷ 0 ∷ 0 ∷ 0 ∷ []) ∷ []

four_bytes :
    (a b c d : ℕ)
    → a < 256
    → b < 256
    → c < 256
    → d < 256
    → put32 (a + 256 * b + 65536 * c + 16777216 * d) ≡ a ∷ b ∷ c ∷ d ∷ []
four_bytes a b c d h0 h1 h2 h3 = ground arith

put32-get32 :
    (cmd : ℕ → ℕ) → put32 (get32 cmd 0) ≡ get8 cmd 0 ∷ get8 cmd 1 ∷ get8 cmd 2 ∷ get8 cmd 3 ∷ []
put32-get32 cmd =
    four_bytes (get8 cmd 0) (get8 cmd 1) (get8 cmd 2) (get8 cmd 3) (omega arith) (omega arith)
      (omega arith) (omega arith)

report-answer :
    (cmd : ℕ → ℕ) (status : ℕ)
    → sends (event_report (get32 cmd 0) status 0) ≡ answer_bytes cmd (some status)
unfolding event_report
report-answer cmd status =
    ap (λ (op : List ℕ). (op ++ (status % 256 ∷ 0 ∷ 0 ∷ 0 ∷ 0 ∷ [])) ∷ []) (put32-get32 cmd)

keep_alive-quiet :
    (param : ℕ) (r : Results) (info : Option CmdInfo) (rest : List Action)
    → sends ((keep_alive param r info).1 ++ rest) ≡ sends rest
unfolding keep_alive cmd_server_init keep_alive_start_timer keep_alive_stop_timer cmd_server_deinit
    restart_timer set_up
keep_alive-quiet param r info rest = ground arith

service_type-answer :
    (cmd : ℕ → ℕ) (ret : ℕ)
    → sends (service_type cmd) ≡ answer_bytes cmd (answer set_service_type cmd ret)
unfolding service_type event_report
service_type-answer cmd ret = elim (Bool-cases (starts_with cmd 10 doorbell_udp)) [
  | inl e ↦ rw e (report-answer cmd 0)
  | inr e ↦ elim (Bool-cases (starts_with cmd 10 doorbell_tcp)) [
    | inl k ↦ rw (e, k) (report-answer cmd 0)
    | inr k ↦ rw (e, k) (report-answer cmd 1)
  ]
]

dispatch-answer :
    (op : Opcode) (cmd : ℕ → ℕ) (r : Results) (s : State)
    → sends (dispatch op cmd r s).1 ≡ answer_bytes cmd (answer op cmd r.ret)
unfolding dispatch
dispatch-answer set_service_type cmd r s = service_type-answer cmd r.ret
dispatch-answer set_keep_alive cmd r s =
    keep_alive-quiet (get32 cmd 4) r s.info (event_report (get32 cmd 0) 0 0) ∙ report-answer cmd 0
dispatch-answer png cmd r s = report-answer cmd 0
dispatch-answer wake_up_request cmd r s = report-answer cmd 0
dispatch-answer set_camera_turn_on cmd r s = report-answer cmd r.ret
dispatch-answer set_camera_turn_off cmd r s = report-answer cmd r.ret
dispatch-answer set_audio_turn_on cmd r s = report-answer cmd r.ret
dispatch-answer set_audio_turn_off cmd r s = report-answer cmd r.ret
dispatch-answer set_lcd_turn_on cmd r s = report-answer cmd r.ret
dispatch-answer set_lcd_turn_off cmd r s = report-answer cmd r.ret
dispatch-answer set_acoustics cmd r s = report-answer cmd r.ret
dispatch-answer get_supported_mic_devices cmd r s = report-answer cmd 12
dispatch-answer get_supported_speaker_devices cmd r s = report-answer cmd 12
dispatch-answer keep_alive_request cmd r s = report-answer cmd 12
dispatch-answer keep_alive_response cmd r s = report-answer cmd 12
dispatch-answer unknown_opcode cmd r s = report-answer cmd 12
dispatch-answer get_supported_camera_devices cmd r s = refl
dispatch-answer get_supported_lcd_devices cmd r s = refl
dispatch-answer get_lcd_status cmd r s = refl
dispatch-answer get_camera_status cmd r s = refl
dispatch-answer get_audio_status cmd r s = refl

-- A command shorter than its head has no answer. Any other has exactly one event as an answer: the bytes
-- of the command's opcode, then the low byte of what the device call returned, or 0, or 1 for an unknown
-- service type, or 12 for an unknown command, then no flags and an empty payload. Commands for the state of
-- the camera and of the audio have none, and the three that list devices leave it to the device files.
pub cmd_recive_callback_answers :
    (cmd : ℕ → ℕ) (length : ℕ) (r : Results) (s : State)
    → sends (cmd_recive_callback cmd length r s).1
      ≡ answer_bytes cmd
          (if ltb length 10 then none else answer (opcode_of (get32 cmd 0)) cmd r.ret)
unfolding cmd_recive_callback
cmd_recive_callback_answers cmd length r s = elim (Bool-cases (ltb length 10)) [
  | inl e ↦ rw e refl
  | inr e ↦ rw e (dispatch-answer (opcode_of (get32 cmd 0)) cmd r s)
]

-- Beyond the head the number of bytes that arrived is not looked at: a command of exactly ten bytes has
-- the same effects as one that goes on, with the parameters read from the memory behind it.
pub length_ignored :
    (cmd : ℕ → ℕ) (length : ℕ) (r : Results) (s : State)
    → 10 ≤ length
    → cmd_recive_callback cmd length r s ≡ cmd_recive_callback cmd 10 r s
unfolding cmd_recive_callback
length_ignored cmd length r s h = elim (Bool-cases (ltb length 10)) [
  | inl e ↦ absurd (ground arith)
  | inr e ↦ rw e refl
]
