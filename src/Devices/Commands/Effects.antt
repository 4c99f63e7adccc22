-- ===== src/Devices/Commands/Effects.antt =====
-- What a command does to the devices, as far as their bits depend on it.
use bk_solution_doorbell.Base.{
  ◌≡◌, ◌≢◌, refl, ap, ◌∙◌, inl, inr, true, false, Option, none, arith, if◌then◌else◌, Bool-cases,
}
use bk_solution_doorbell.FrameQueue.Node.{h264}
use bk_solution_doorbell.Command.{CameraParameters, DisplayParameters, AudioParameters}
use bk_solution_doorbell.YuvDisplay.{Yuv}
use bk_solution_doorbell.Audio
use bk_solution_doorbell.Audio.Config.{VoiceCfg, voice_cfg}
use bk_solution_doorbell.Audio.{
  audio_turn_on, audio_turn_off, turn_on_with, make_all, start_all, take_down,
}
use bk_solution_doorbell.Devices.{LcdType, hw_rotate, Ret, Info, Calls, is_ok}
use bk_solution_doorbell.Devices.Cameras.{
  h264_encode_turn_on, turn_on, open_display, open_pipeline, camera_open, open_camera,
  camera_turn_on, camera_turn_off,
}
use bk_solution_doorbell.Devices.Display.{
  rotate_mode, new_display, display_error, start_display, open_lcd, display_turn_on,
  display_turn_off,
}
use bk_solution_doorbell.Devices.Handles.Decoding.{mjpeg_decode_open-SameDevices}
use bk_solution_doorbell.Devices.System.{
  State, camera_on, camera_off, display_on, display_off, apply,
}

-- The handle of the camera is kept.
abbrev SameCamera : Info → Info → Type 0
SameCamera i i' = (i'.handle ≡ i.handle) × (i'.lcd_device ≡ i.lcd_device)

h264-SameCamera :
    (p : CameraParameters) (c : Calls) (i : Info) → SameCamera i (h264_encode_turn_on p c i).1
unfolding h264_encode_turn_on
h264-SameCamera p c i = ground arith

open_display-SameCamera :
    (p : CameraParameters) (c : Calls) (i : Info) (y : Option Yuv)
    → SameCamera i (open_display p c i y).1
unfolding open_display
open_display-SameCamera p c i y =
    ground (arith, mjpeg_decode_open-SameDevices hw_rotate p.rotate c i y)

open_pipeline-SameCamera :
    (p : CameraParameters) (c : Calls) (i : Info) (y : Option Yuv)
    → SameCamera i (open_pipeline p c i y).1
unfolding open_pipeline
open_pipeline-SameCamera p c i y = ground (
  arith,
  h264-SameCamera p c i,
  open_display-SameCamera p c i y,
  open_display-SameCamera p c (h264_encode_turn_on p c i).1 y,
)

turn_on-handle :
    (p : CameraParameters) (c : Calls) (i : Info)
    → let (on, i', _) = turn_on p c i in (i'.handle ≡ on) × (i'.lcd_device ≡ i.lcd_device)
unfolding turn_on
turn_on-handle p c i = ground arith

-- After BK_OK the handle of the camera is set, and the display is left alone.
abbrev Opens : Info → Ret → Info → Type 0
Opens i ret i' = (is_ok ret ≡ true → i'.handle ≡ true) × (i'.lcd_device ≡ i.lcd_device)

camera_open-Opens :
    (p : CameraParameters) (c : Calls) (i : Info) (y : Option Yuv)
    → let (ret, i', _, _) = camera_open p c i y in Opens i ret i'
unfolding camera_open
camera_open-Opens p c i y =
    let i0 = record i { transfer_format = h264 } in
    ground (arith, turn_on-handle p c i0, open_pipeline-SameCamera p c (turn_on p c i0).1 y)

open_camera-Opens :
    (p : CameraParameters) (c : Calls) (i : Info) (y : Option Yuv)
    → let (ret, i', _, _) = open_camera p c i y in Opens i ret i'
unfolding open_camera
open_camera-Opens p c i y = ground (arith, camera_open-Opens p c i y)

-- A turn-on of the camera keeps an open camera, and after BK_OK the camera is open.
pub camera_on-effect :
    (p : CameraParameters) (c : Calls) (s : State)
    → let (ret, s', _) = apply (camera_on p) c s in
      (is_ok ret ≡ true → s'.info.handle ≡ true)
      × (s.info.handle ≡ true → s'.info.handle ≡ true)
      × (s'.info.lcd_device ≡ s.info.lcd_device)
unfolding apply camera_turn_on
camera_on-effect p c s = ground (arith, open_camera-Opens p c s.info s.yuv)

-- A turn-off of the camera that does not return BK_OK keeps the handle.
pub camera_off-effect :
    (c : Calls) (s : State)
    → let (ret, s', _) = apply camera_off c s in
      (is_ok ret ≡ false → s'.info.handle ≡ s.info.handle)
      × (s'.info.lcd_device ≡ s.info.lcd_device)
unfolding apply camera_turn_off
camera_off-effect c s = ground arith

abbrev Shows : Info → Ret → Info → Type 0
Shows i ret i' =
    (i'.handle ≡ i.handle) × (i'.lcd_device ≡ true → is_ok ret ≡ false → i.lcd_device ≡ true)

start_display-Shows :
    (p : DisplayParameters) (c : Calls) (i : Info) (y : Option Yuv)
    → let (ret, i', _, _) = start_display p c i y in Shows i ret i'
unfolding start_display display_error
start_display-Shows p c i y =
    ground (arith, mjpeg_decode_open-SameDevices (rotate_mode p.pixel_format) p.rotate_angle c i y)

open_lcd-Shows :
    (type : LcdType) (p : DisplayParameters) (c : Calls) (i : Info) (y : Option Yuv)
    → let (ret, i', _, _) = open_lcd type p c i y in Shows i ret i'
unfolding open_lcd new_display
open_lcd-Shows type p c i y =
    ground (arith, start_display-Shows p c (record i { display_ctlr_handle = true }) y)

-- A turn-on of the display leaves the camera alone, and sets the device only with BK_OK.
pub display_on-effect :
    (p : DisplayParameters) (c : Calls) (s : State)
    → let (ret, s', _) = apply (display_on p) c s in Shows s.info ret s'.info
unfolding apply display_turn_on
display_on-effect p c s = ground (arith, λ (type : LcdType). open_lcd-Shows type p c s.info s.yuv)

-- After a turn-off of the display the device is set only if it was, and nothing was done.
pub display_off-effect :
    (c : Calls) (s : State)
    → let (ret, s', _) = apply display_off c s in
      (s'.info.handle ≡ s.info.handle)
      × (s'.info.lcd_device ≡ true → (is_ok ret ≡ false) × (s.info.lcd_device ≡ true))
unfolding apply display_turn_off
display_off-effect c s = ground arith

turn_on_with-effect :
    (o : Option VoiceCfg) (c : Audio.Calls) (a : Audio.Info)
    → c.service ≢ none
    → let (ret, a', _) = turn_on_with o c a in
      a'.audio_enable ≡ (if ret then true else a.audio_enable)
unfolding turn_on_with make_all start_all take_down
turn_on_with-effect o c a h = ground arith

-- While there is a service, the audio is on after BK_OK of a turn-on, and otherwise as before.
pub audio_on-effect :
    (p : AudioParameters) (c : Audio.Calls) (a : Audio.Info)
    → c.service ≢ none
    → let (ret, a', _) = audio_turn_on p c a in
      a'.audio_enable ≡ (if ret then true else a.audio_enable)
unfolding audio_turn_on
audio_on-effect p c a h = elim (Bool-cases a.audio_enable) [
  | inl e ↦ simp e refl
  | inr e ↦
      let ret = (turn_on_with (voice_cfg p) c a).0 in
      simp e (turn_on_with-effect (voice_cfg p) c a h ∙ ap (λ x. if ret then true else x) e)
]

pub audio_off-effect :
    (c : Audio.Calls) (a : Audio.Info)
    → c.service ≢ none
    → let (ret, a', _) = audio_turn_off c a in
      a'.audio_enable ≡ (if ret then false else a.audio_enable)
unfolding audio_turn_off take_down
audio_off-effect c a h = ground arith
