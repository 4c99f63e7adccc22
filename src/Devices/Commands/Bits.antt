-- ===== src/Devices/Commands/Bits.antt =====
-- The service bitmap against the devices themselves.
use bk_solution_doorbell.Base.{
  ℕ, ◌≡◌, ◌≢◌, refl, Bool, true, false, none, List, All, arith, if◌then◌else◌,
}
use bk_solution_doorbell.FrameQueue.Node.{Format}
use bk_solution_doorbell.Command
use bk_solution_doorbell.Command.{
  Opcode, opcode_of, set_service_type, set_keep_alive, get_supported_camera_devices,
  get_supported_lcd_devices, get_supported_mic_devices, get_supported_speaker_devices,
  set_camera_turn_on, set_camera_turn_off, get_camera_status, set_audio_turn_on, set_audio_turn_off,
  get_audio_status, set_lcd_turn_on, set_lcd_turn_off, get_lcd_status, set_acoustics,
  keep_alive_request, keep_alive_response, wake_up_request, png, unknown_opcode,
}
use bk_solution_doorbell.Command.Handler.{camera_parameters, display_parameters, audio_parameters}
use bk_solution_doorbell.Command.Votes
use bk_solution_doorbell.Command.Votes.{all_off, bitmap, switched, after, arrival-bitmap}
use bk_solution_doorbell.Audio.{audio_turn_on, audio_turn_off}
use bk_solution_doorbell.Devices.{CameraType, Ret, is_ok}
use bk_solution_doorbell.Devices.System.{transfer_off, apply}
use bk_solution_doorbell.Devices.Commands.{
  Board, State, boot, Request, IsCode, of_bool, device_calls, serve_all,
}
use bk_solution_doorbell.Devices.Commands.Effects.{
  camera_on-effect, camera_off-effect, display_on-effect, display_off-effect, audio_on-effect,
  audio_off-effect,
}
use bk_solution_doorbell.Devices.Commands.Steps.{opcode, serve_all-HasBits}

-- The bits against the devices: the camera's bit is set only if the camera is open, the display's bit is set if the display is
-- open, and the audio's bit is set exactly if the audio is on.
abbrev pub Agrees : Votes.Devices → Board → Type 0
Agrees d b =
    (d.camera ≡ true → b.devices.info.handle ≡ true)
    × (b.devices.info.lcd_device ≡ true → d.lcd ≡ true)
    × (d.audio ≡ b.audio.audio_enable)

abbrev pub HasService : Request → Type 0
HasService r = r.audio_calls.service ≢ none

-- What the effects of one call say of the bits after it.
module _ (ok : Bool) (d : Votes.Devices) (b b' : Board) (k : Agrees d b) where
  camera_on-Agrees :
      (ok ≡ true → b'.devices.info.handle ≡ true)
      → (b.devices.info.handle ≡ true → b'.devices.info.handle ≡ true)
      → b'.devices.info.lcd_device ≡ b.devices.info.lcd_device
      → b'.audio ≡ b.audio
      → Agrees (if ok then switched set_camera_turn_on d else d) b'
  camera_on-Agrees h l m n = ground (arith, k)

  camera_off-Agrees :
      (ok ≡ false → b'.devices.info.handle ≡ b.devices.info.handle)
      → b'.devices.info.lcd_device ≡ b.devices.info.lcd_device
      → b'.audio ≡ b.audio
      → Agrees (if ok then switched set_camera_turn_off d else d) b'
  camera_off-Agrees h l m = ground (arith, k)

  lcd_on-Agrees :
      b'.devices.info.handle ≡ b.devices.info.handle
      → (b'.devices.info.lcd_device ≡ true → ok ≡ false → b.devices.info.lcd_device ≡ true)
      → b'.audio ≡ b.audio
      → Agrees (if ok then switched set_lcd_turn_on d else d) b'
  lcd_on-Agrees h l m = ground (arith, k)

  lcd_off-Agrees :
      b'.devices.info.handle ≡ b.devices.info.handle
      → (b'.devices.info.lcd_device ≡ true → (ok ≡ false) × (b.devices.info.lcd_device ≡ true))
      → b'.audio ≡ b.audio
      → Agrees (if ok then switched set_lcd_turn_off d else d) b'
  lcd_off-Agrees h l m = ground (arith, k)

  audio_on-Agrees :
      b'.devices ≡ b.devices
      → b'.audio.audio_enable ≡ (if ok then true else b.audio.audio_enable)
      → Agrees (if ok then switched set_audio_turn_on d else d) b'
  audio_on-Agrees h l = ground (arith, k)

  audio_off-Agrees :
      b'.devices ≡ b.devices
      → b'.audio.audio_enable ≡ (if ok then false else b.audio.audio_enable)
      → Agrees (if ok then switched set_audio_turn_off d else d) b'
  audio_off-Agrees h l = ground (arith, k)

is_ok-of_bool : (b : Bool) → is_ok (of_bool b) ≡ b
is_ok-of_bool true = refl
is_ok-of_bool false = refl

device_calls-Agrees :
    (op : Opcode) (cmd : ℕ → ℕ) (r : Request) (d : Votes.Devices) (b : Board)
    → HasService r
    → Agrees d b
    → let (ret, b') = device_calls op cmd r b in Agrees (if is_ok ret then switched op d else d) b'
unfolding device_calls
device_calls-Agrees set_camera_turn_on cmd r d b h k =
    let e = camera_on-effect (camera_parameters cmd) r.calls b.devices in
    camera_on-Agrees _ d b (device_calls set_camera_turn_on cmd r b).1 k e.0 e.1 e.2 refl
device_calls-Agrees set_camera_turn_off cmd r d b h k =
    let e = camera_off-effect r.calls (apply transfer_off r.calls b.devices).1 in
    camera_off-Agrees _ d b (device_calls set_camera_turn_off cmd r b).1 k e.0 e.1 refl
device_calls-Agrees set_lcd_turn_on cmd r d b h k =
    let e = display_on-effect (display_parameters cmd) r.calls b.devices in
    lcd_on-Agrees _ d b (device_calls set_lcd_turn_on cmd r b).1 k e.0 e.1 refl
device_calls-Agrees set_lcd_turn_off cmd r d b h k =
    let e = display_off-effect r.calls b.devices in
    lcd_off-Agrees _ d b (device_calls set_lcd_turn_off cmd r b).1 k e.0 e.1 refl
device_calls-Agrees set_audio_turn_on cmd r d b h k =
    let (ret, a, _) = audio_turn_on (audio_parameters cmd) r.audio_calls b.audio in
    rw (is_ok-of_bool ret) (
      audio_on-Agrees ret d b (device_calls set_audio_turn_on cmd r b).1 k refl
        (audio_on-effect (audio_parameters cmd) r.audio_calls b.audio h))
device_calls-Agrees set_audio_turn_off cmd r d b h k =
    let (ret, a, _) = audio_turn_off r.audio_calls b.audio in
    rw (is_ok-of_bool ret) (
      audio_off-Agrees ret d b (device_calls set_audio_turn_off cmd r b).1 k refl
        (audio_off-effect r.audio_calls b.audio h))
device_calls-Agrees _ cmd r d b h k = k

-- The bitmap is that of some bits that agree with the devices.
abbrev pub IsTrue : State → Type 0
IsTrue s = (d : Votes.Devices) × ((s.cmd.mm_status ≡ bitmap d) × Agrees d s.board)

-- After any commands since start-up, whatever the calls of the device functions return, as long as the network
-- transfer has a service, the status that the keepalive timer reads is the bitmap of three bits that agree with the devices
-- themselves: the camera's is set only if the camera is open, the display's is set if the display is open, and
-- the audio's is set exactly if the audio is on.
pub serve_all-Agrees :
    (code : Ret → ℕ) (cam_type : CameraType) (format : Format) (rs : List Request)
    → IsCode code
    → All HasService rs
    → IsTrue (serve_all code rs (boot cam_type format))
unfolding Command.boot
serve_all-Agrees code cam_type format rs codes h =
    serve_all-HasBits code codes Agrees HasService
      (λ r d b. device_calls-Agrees (opcode r) r.arrival.cmd r d b) rs (boot cam_type format) h
      (all_off, (refl, (λ x. x, λ x. x, refl)))
