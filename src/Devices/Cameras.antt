-- ===== src/Devices/Cameras.antt =====
-- components/smart_lock/src/camera/doorbell_camera.c, and the camera in
-- components/smart_lock/src/doorbell_devices.c.
use bk_solution_doorbell.Base.{
  ℕ, Bool, true, false, not, ◌&&◌, ◌||◌, Option, none, some, List, [], ◌∷◌, ◌++◌, map, ◌==◌,
  if◌then◌else◌,
}
use bk_solution_doorbell.FrameQueue.Node.{mjpeg, h264}
use bk_solution_doorbell.Camera.{
  uvc_camera_turn_on, uvc_camera_turn_off, dvp_camera_turn_on, dvp_camera_turn_off,
}
use bk_solution_doorbell.Command.{CameraParameters}
use bk_solution_doorbell.YuvDisplay.{Yuv, get_rotate_angle}
use bk_solution_doorbell.Devices.{
  uvc_camera, dvp_camera, other_camera, hw_rotate, Ret, ok, bk_fail, inval, unsupported, generic,
  failed, Info, Action, queue_init_all, queue_clear_all, bluetooth_deinit, register_consumer,
  unregister_consumer, camera, flash_register, flash_unregister, pipeline_new, open_h264e,
  close_h264e, Calls, consumer_decoder, of_result, is_ok,
}
use bk_solution_doorbell.Devices.Decoder.{mjpeg_decode_open}

-- UVC_DEVICE_ID.
abbrev pub uvc_device_id : ℕ
uvc_device_id = 65014

-- doorbell_h264_encode_turn_on. The angle is chosen as get_rotate_angle does.
unfoldable pub h264_encode_turn_on : CameraParameters → Calls → Info → Ret × Info × List Action
unfolding get_rotate_angle
h264_encode_turn_on p c i =
    let i' = record i { video_pipeline_handle = true } in
    let register = register_consumer mjpeg consumer_decoder in
    let made = if i.video_pipeline_handle then [] else pipeline_new true ∷ [] in
    let encode = open_h264e p.width p.height (get_rotate_angle p.rotate) c.open_h264e in
    if i.video_pipeline_handle || c.pipeline_new
    then (of_result c.open_h264e, i', register ∷ (made ++ (encode ∷ [])))
    else (
      failed,
      i,
      register ∷ pipeline_new false ∷ unregister_consumer mjpeg consumer_decoder ∷ [],
    )

-- The camera that doorbell_camera_open turns on.
unfoldable pub turn_on : CameraParameters → Calls → Info → Bool × Info × List Action
unfolding uvc_camera_turn_on dvp_camera_turn_on
turn_on p c i =
    let (uvc, _, uvc_acts) = uvc_camera_turn_on c.config p.width p.height c.camera in
    let (dvp, dvp_acts) = dvp_camera_turn_on c.gpio c.camera in
    if p.id == uvc_device_id
    then (uvc, record i { cam_type = uvc_camera; handle = uvc }, map camera uvc_acts)
    else (dvp, record i { cam_type = dvp_camera; handle = dvp }, map camera dvp_acts)

-- The end of doorbell_camera_open: the decoder, if there is a display.
unfoldable pub open_display :
    CameraParameters → Calls → Info → Option Yuv → Ret × Info × Option Yuv × List Action
unfolding mjpeg_decode_open
open_display p c i y =
    if i.display_ctlr_handle then mjpeg_decode_open hw_rotate p.rotate c i y else (ok, i, y, [])

-- doorbell_camera_open from the encoder on, for the camera that it has turned on.
unfoldable pub open_pipeline :
    CameraParameters → Calls → Info → Option Yuv → Ret × Info × Option Yuv × List Action
unfolding h264_encode_turn_on open_display
open_pipeline p c i y =
    let (ret, i1, acts1) = h264_encode_turn_on p c i in
    let (ret2, i2, y2, acts2) = open_display p c i1 y in
    if p.id == uvc_device_id
    then (if is_ok ret then (ret2, i2, y2, acts1 ++ acts2) else (ret, i1, y, acts1))
    else open_display p c i y

-- doorbell_camera_open.
unfoldable pub camera_open :
    CameraParameters → Calls → Info → Option Yuv → Ret × Info × Option Yuv × List Action
unfolding turn_on open_pipeline
camera_open p c i y =
    let (on, i1, acts1) = turn_on p c (record i { transfer_format = h264 }) in
    let (ret, i2, y2, acts2) = open_pipeline p c i1 y in
    if p.format == 0
    then (unsupported, i, y, [])
    else if on
    then (ret, i2, y2, acts1 ++ acts2)
    else (inval, i1, y, acts1)

-- The camera that doorbell_camera_close turns off.
unfoldable pub turn_off : Calls → Info → Bool × List Action
unfolding uvc_camera_turn_off dvp_camera_turn_off
turn_off c i =
    let (uvc, uvc_acts) = uvc_camera_turn_off c.camera in
    let (dvp, dvp_acts) = dvp_camera_turn_off c.gpio c.camera in
    elim i.cam_type [
      | uvc_camera ↦ (uvc, map camera uvc_acts)
      | dvp_camera ↦ (dvp, map camera dvp_acts)
      | other_camera ↦ (dvp, map camera dvp_acts)
    ]

-- doorbell_camera_close.
unfoldable pub camera_close : Calls → Info → Ret × List Action
unfolding turn_off
camera_close c i =
    let (off, acts) = turn_off c i in
    let encoder = if i.video_pipeline_handle then close_h264e c.close_h264e ∷ [] else [] in
    let unregister = if i.lcd_device then [] else unregister_consumer mjpeg consumer_decoder ∷ [] in
    if i.video_pipeline_handle && not c.close_h264e
    then (generic, encoder)
    else (of_result off, encoder ++ (acts ++ unregister))

abbrev pub if_bluetooth : Calls → List Action
if_bluetooth c = if c.bluetooth then bluetooth_deinit ∷ [] else []

-- doorbell_camera_turn_on for a structure that exists and a camera that is off.
unfoldable pub open_camera :
    CameraParameters → Calls → Info → Option Yuv → Ret × Info × Option Yuv × List Action
unfolding camera_open
open_camera p c i y =
    let (ret, i', y', acts) = camera_open p c i y in
    let notify = if is_ok ret then flash_register ∷ [] else [] in
    if c.queue_init
    then (ret, i', y', if_bluetooth c ++ (queue_init_all true ∷ (acts ++ notify)))
    else (failed, i, y, if_bluetooth c ++ (queue_init_all false ∷ []))

-- doorbell_camera_turn_on.
unfoldable pub camera_turn_on :
    CameraParameters
    → Calls
    → Option Info
    → Option Yuv
    → Ret × Option Info × Option Yuv × List Action
unfolding open_camera
camera_turn_on p c none y = (bk_fail, none, y, [])
camera_turn_on p c (some i) y =
    let (ret, i', y', acts) = open_camera p c i y in
    if i.handle then (ok, some i, y, []) else (ret, some i', y', acts)

-- doorbell_camera_turn_off.
unfoldable pub camera_turn_off : Calls → Option Info → Ret × Option Info × List Action
unfolding camera_close
camera_turn_off c none = (ok, none, [])
camera_turn_off c (some i) =
    let (ret, acts) = camera_close c i in
    let clear = if i.display_ctlr_handle then [] else queue_clear_all ∷ [] in
    if not i.handle
    then (ok, some i, [])
    else if is_ok ret
    then (ok, some (record i { handle = false }), acts ++ (flash_unregister ∷ clear))
    else (ret, some i, acts)
