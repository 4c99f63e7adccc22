-- ===== src/Devices/Commands.antt =====
-- The commands with the devices: `ret` of a command's handler is what the device functions return.
pub mod Effects
pub mod Steps
pub mod Bits
pub mod Lasting
pub mod Disconnect
use bk_solution_doorbell.Base.{ℕ, ◌≡◌, Bool, true, false, List, [], ◌∷◌, ◌==◌, ltb, if◌then◌else◌}
use bk_solution_doorbell.FrameQueue.Node.{Format}
use bk_solution_doorbell.Command
use bk_solution_doorbell.Command.{
  Opcode, opcode_of, Results, set_camera_turn_on, set_camera_turn_off, set_lcd_turn_on,
  set_lcd_turn_off, set_audio_turn_on, set_audio_turn_off, set_acoustics,
}
use bk_solution_doorbell.Command.Handler.{
  get32, camera_parameters, display_parameters, audio_parameters, cmd_recive_callback, Arrival,
}
use bk_solution_doorbell.Audio
use bk_solution_doorbell.Audio.{audio_turn_on, audio_turn_off}
use bk_solution_doorbell.Devices.{CameraType, Ret, ok, bk_fail, failed, Calls, is_ok}
use bk_solution_doorbell.Devices.System
use bk_solution_doorbell.Devices.System.{
  camera_on, camera_off, transfer_on, transfer_off, display_on, display_off, apply, start,
}

-- The states of the device files.
pub record Board : Type 0 where
  pub devices : System.State
  pub audio : Audio.Info

-- Those and the state of doorbell_cmd.c.
pub record State : Type 0 where
  pub cmd : Command.State
  pub board : Board

abbrev pub boot : CameraType → Format → State
unfolding Command.boot
boot cam_type format = record {
  cmd = Command.boot;
  board = record { devices = start cam_type format; audio = Audio.zeroed };
}

-- A command that arrives, with what the calls of the device functions return.
pub record Request : Type 0 where
  pub arrival : Arrival
  pub calls : Calls
  pub audio_calls : Audio.Calls

-- Numbers for what the device functions return, of which 0 is BK_OK.
abbrev pub IsCode : (Ret → ℕ) → Type 0
IsCode code = (r : Ret) → (code r == 0) ≡ is_ok r

abbrev pub of_bool : Bool → Ret
of_bool true = ok
of_bool false = bk_fail

-- The calls of the handler for the camera, the display and the audio. doorbell_audio_acoustics returns -1,
-- and the result of a command that calls no device is not looked at.
unfoldable pub device_calls : Opcode → (cmd : ℕ → ℕ) → Request → Board → Ret × Board
unfolding apply audio_turn_on audio_turn_off
device_calls set_camera_turn_on cmd r b =
    let (ret, d, _) = apply (camera_on (camera_parameters cmd)) r.calls b.devices in
    let (_, d', _) = apply transfer_on r.calls d in (ret, record b { devices = d' })
device_calls set_camera_turn_off cmd r b =
    let (_, d, _) = apply transfer_off r.calls b.devices in
    let (ret, d', _) = apply camera_off r.calls d in (ret, record b { devices = d' })
device_calls set_lcd_turn_on cmd r b =
    let (ret, d, _) = apply (display_on (display_parameters cmd)) r.calls b.devices in
    (ret, record b { devices = d })
device_calls set_lcd_turn_off cmd r b =
    let (ret, d, _) = apply display_off r.calls b.devices in (ret, record b { devices = d })
device_calls set_audio_turn_on cmd r b =
    let (ret, a, _) = audio_turn_on (audio_parameters cmd) r.audio_calls b.audio in
    (of_bool ret, record b { audio = a })
device_calls set_audio_turn_off cmd r b =
    let (ret, a, _) = audio_turn_off r.audio_calls b.audio in (of_bool ret, record b { audio = a })
device_calls set_acoustics cmd r b = (failed, b)
device_calls _ cmd r b = (ok, b)

module _ (code : Ret → ℕ) where
  -- The arrival with the result of its device call.
  abbrev pub answered : Request → Board → Arrival
  answered r b =
      let a = r.arrival in
      let (ret, _) = device_calls (opcode_of (get32 a.cmd 0)) a.cmd r b in
      record a { results = record (a.results) { ret = code ret } }

  -- A command with its device calls. A command that is too short makes none.
  unfoldable pub serve : Request → State → State
  unfolding device_calls cmd_recive_callback
  serve r s =
      let a = answered r s.board in
      let (_, b) = device_calls (opcode_of (get32 a.cmd 0)) a.cmd r s.board in
      record {
        cmd = (cmd_recive_callback a.cmd a.length a.results s.cmd).0;
        board = if ltb a.length 10 then s.board else b;
      }

  unfoldable pub serve_all : List Request → State → State
  unfolding serve
  serve_all [] s = s
  serve_all (r ∷ rs) s = serve_all rs (serve r s)
