-- ===== src/Devices/Switch.antt =====
-- Another kind of camera while the display is open.
use bk_solution_doorbell.Base.{◌≡◌, ◌≢◌, true, false, Option, some, arith, ◌==◌}
use bk_solution_doorbell.FrameQueue.Node.{h264}
use bk_solution_doorbell.YuvDisplay.{Yuv}
use bk_solution_doorbell.Command.{CameraParameters}
use bk_solution_doorbell.Devices.{Info, Calls, is_ok, uvc_camera}
use bk_solution_doorbell.Devices.Decoder.{
  open_decoder, mjpeg_decode_open, mjpeg_decode_close, close_decoder,
}
use bk_solution_doorbell.Devices.Cameras.{
  uvc_device_id, h264_encode_turn_on, turn_on, open_display, open_pipeline, camera_open,
  open_camera, camera_turn_on, camera_turn_off,
}
use bk_solution_doorbell.Devices.Display.{display_turn_off}
use bk_solution_doorbell.Devices.Handles.{displays_deleted}
use bk_solution_doorbell.Devices.System.{State, camera_on, camera_off, display_off, apply}

-- A thread for YUV frames that runs with a handle of the controller.
abbrev pub IsShowing : Yuv → Type 0
IsShowing y = (y.task_running ≡ true) × (y.display_handle ≡ true)

-- The display is open, with its controller, and its thread for YUV frames runs with a handle of it.
abbrev pub ShowsYuv : Yuv → State → Type 0
ShowsYuv y s =
    (s.yuv ≡ some y)
    × (s.info.lcd_device ≡ true)
    × (s.info.lcd_id ≢ 0)
    × (s.info.display_ctlr_handle ≡ true)
    × IsShowing y

off-ShowsYuv :
    (c : Calls) (y : Yuv) (s : State)
    → ShowsYuv y s
    → is_ok (apply camera_off c s).0 ≡ true
    → let s' = (apply camera_off c s).1 in ShowsYuv y s' × (s'.info.handle ≡ false)
unfolding apply camera_turn_off
off-ShowsYuv c y s h k = ground arith

-- A USB camera leaves the thread and the display alone.
abbrev Keeps : Info → Option Yuv → Info → Option Yuv → Type 0
Keeps i y i' y' =
    (y' ≡ y)
    × (i'.cam_type ≡ i.cam_type)
    × (i'.lcd_device ≡ i.lcd_device)
    × (i'.lcd_id ≡ i.lcd_id)
    × (i'.display_ctlr_handle ≡ i.display_ctlr_handle)

open_display-Keeps :
    (p : CameraParameters) (c : Calls) (i : Info) (y : Option Yuv)
    → i.cam_type ≡ uvc_camera
    → let (_, i', y', _) = open_display p c i y in Keeps i y i' y'
unfolding open_display mjpeg_decode_open open_decoder
open_display-Keeps p c i y h = ground arith

h264-Keeps :
    (p : CameraParameters) (c : Calls) (i : Info) (y : Option Yuv)
    → let (_, i', _) = h264_encode_turn_on p c i in Keeps i y i' y
unfolding h264_encode_turn_on
h264-Keeps p c i y = ground arith

open_pipeline-Keeps :
    (p : CameraParameters) (c : Calls) (i : Info) (y : Option Yuv)
    → i.cam_type ≡ uvc_camera
    → let (_, i', y', _) = open_pipeline p c i y in Keeps i y i' y'
unfolding open_pipeline
open_pipeline-Keeps p c i y h = ground (
  arith,
  h264-Keeps p c i y,
  open_display-Keeps p c i y,
  open_display-Keeps p c (h264_encode_turn_on p c i).1 y,
)

turn_on-uvc :
    (p : CameraParameters) (c : Calls) (i : Info)
    → (p.id == uvc_device_id) ≡ true
    → let (_, i', _) = turn_on p c i in
      (i'.cam_type ≡ uvc_camera)
      × (i'.lcd_device ≡ i.lcd_device)
      × (i'.lcd_id ≡ i.lcd_id)
      × (i'.display_ctlr_handle ≡ i.display_ctlr_handle)
unfolding turn_on
turn_on-uvc p c i h = ground arith

camera_open-uvc :
    (p : CameraParameters) (c : Calls) (i : Info) (y : Option Yuv)
    → (p.id == uvc_device_id) ≡ true
    → let (ret, i', y', _) = camera_open p c i y in
      is_ok ret ≡ true
      → (y' ≡ y)
        × (i'.cam_type ≡ uvc_camera)
        × (i'.lcd_device ≡ i.lcd_device)
        × (i'.lcd_id ≡ i.lcd_id)
        × (i'.display_ctlr_handle ≡ i.display_ctlr_handle)
unfolding camera_open
camera_open-uvc p c i y h =
    let i0 = record i { transfer_format = h264 } in
    ground (arith, turn_on-uvc p c i0 h, open_pipeline-Keeps p c (turn_on p c i0).1 y)

on-ShowsYuv :
    (p : CameraParameters) (c : Calls) (y : Yuv) (s : State)
    → (p.id == uvc_device_id) ≡ true
    → ShowsYuv y s
    → s.info.handle ≡ false
    → is_ok (apply (camera_on p) c s).0 ≡ true
    → let s' = (apply (camera_on p) c s).1 in ShowsYuv y s' × (s'.info.cam_type ≡ uvc_camera)
unfolding apply camera_turn_on open_camera
on-ShowsYuv p c y s h k l m = ground (arith, camera_open-uvc p c s.info s.yuv h)

closed_display :
    (c : Calls) (y : Yuv) (s : State)
    → ShowsYuv y s
    → s.info.cam_type ≡ uvc_camera
    → let (_, s', acts) = apply display_off c s in
      (displays_deleted acts ≡ 1) × (s'.info.display_ctlr_handle ≡ false) × (s'.yuv ≡ some y)
unfolding apply display_turn_off mjpeg_decode_close close_decoder
closed_display c y s h k = ground arith

-- The display is open for YUV frames of one camera, with its controller, and the thread for these frames runs with a handle
-- of that controller. That camera is turned off, a USB camera is turned on, both with success, and the display is turned off:
-- turning the display off deletes a controller once and keeps no handle, but the thread runs on with its handle.
pub switch_dangles :
    (p : CameraParameters) (off on display : Calls) (y : Yuv) (s : State)
    → (p.id == uvc_device_id) ≡ true
    → ShowsYuv y s
    → is_ok (apply camera_off off s).0 ≡ true
    → is_ok (apply (camera_on p) on (apply camera_off off s).1).0 ≡ true
    → let (_, s', acts) =
        apply display_off display (apply (camera_on p) on (apply camera_off off s).1).1 in
      (displays_deleted acts ≡ 1)
      × (s'.info.display_ctlr_handle ≡ false)
      × (s'.yuv ≡ some y)
      × IsShowing y
switch_dangles p off on display y s h k l m =
    let s1 = (apply camera_off off s).1 in
    let s2 = (apply (camera_on p) on s1).1 in
    let first = off-ShowsYuv off y s k l in
    let second = on-ShowsYuv p on y s1 h first.0 first.1 m in
    let (deleted, cleared, kept) = closed_display display y s2 second.0 second.1 in
    (deleted, cleared, kept, k.4)
