-- ===== src/Devices/Decoder.antt =====
-- components/smart_lock/src/decoder/mjpeg_decoder.c: how the decoder of MJPEG frames, or the display of YUV frames
-- in its place, is opened and closed, and where decoded frames go.
use bk_solution_doorbell.Base.{
  ℕ, Bool, true, false, not, ◌&&◌, ◌||◌, Option, none, some, List, [], ◌∷◌, ◌++◌, map,
  if◌then◌else◌,
}
use bk_solution_doorbell.FrameQueue.Node.{mjpeg}
use bk_solution_doorbell.YuvDisplay.{
  Yuv, get_rotate_angle, yuv_display_open, yuv_display_close, yuv_display_is_running,
}
use bk_solution_doorbell.Devices.{
  CameraType, uvc_camera, dvp_camera, other_camera, RotateMode, Ret, ok, failed, Info, Action,
  register_consumer, unregister_consumer, yuv_display, pipeline_new, open_rotate, close_rotate,
  Calls, consumer_decoder, of_err, of_result,
}

-- `dec_end_type_t`.
pub data DecEnd : Type 0 where
  hw_dec_end sw_dec_end other_end : DecEnd

pub data FrameEffect : Type 0 where
  display_flush : (frame : ℕ) → Bool → FrameEffect
  display_free : (frame : ℕ) → FrameEffect

-- A decoded frame for the display: `display` is whether there is a device structure with a display.
abbrev pub show : (display flush : Bool) → (frame : ℕ) → List FrameEffect
show display flush frame =
    if display
    then display_flush frame flush ∷ (if flush then [] else display_free frame ∷ [])
    else display_free frame ∷ []

-- decode_complete. The log of its end apart, it does nothing for another type.
unfoldable pub decode_complete :
    DecEnd → (result : Bool) → (out_frame : Option ℕ) → (display flush : Bool) → List FrameEffect
decode_complete format_type result none display flush = []
decode_complete format_type result (some frame) display flush =
    if not result then display_free frame ∷ [] else elim format_type [
      | hw_dec_end ↦ show display flush frame
      | sw_dec_end ↦ show display flush frame
      | other_end ↦ []
    ]

-- The case of a camera whose frames have to be decoded. get_rotate_angle stands in this file too.
unfoldable pub open_decoder : RotateMode → (angle : ℕ) → Calls → Info → Ret × Info × List Action
unfolding get_rotate_angle
open_decoder rot angle c i =
    let i' = record i { video_pipeline_handle = true } in
    let register = register_consumer mjpeg consumer_decoder in
    let unregister = unregister_consumer mjpeg consumer_decoder in
    let made = if i.video_pipeline_handle then [] else pipeline_new true ∷ [] in
    let rotate = open_rotate rot (get_rotate_angle angle) c.open_rotate in
    if i.video_pipeline_handle || c.pipeline_new
    then (
      of_result c.open_rotate,
      i',
      register ∷ (made ++ (rotate ∷ (if c.open_rotate then [] else unregister ∷ []))),
    )
    else (failed, i, register ∷ pipeline_new false ∷ unregister ∷ [])

-- mjpeg_decode_open.
unfoldable pub mjpeg_decode_open :
    RotateMode → (angle : ℕ) → Calls → Info → Option Yuv → Ret × Info × Option Yuv × List Action
unfolding yuv_display_open open_decoder
mjpeg_decode_open rot angle c i y = elim i.cam_type [
  | dvp_camera ↦
      let (err, y', acts) = yuv_display_open i.display_ctlr_handle angle c.yuv_display y in
      (of_err err, i, y', map yuv_display acts)
  | uvc_camera ↦ let (ret, i', acts) = open_decoder rot angle c i in (ret, i', y, acts)
  | other_camera ↦ (ok, i, y, [])
]

-- The case of mjpeg_decode_close that closes the rotation.
unfoldable pub close_decoder : Calls → Info → Ret × List Action
close_decoder c i =
    if i.video_pipeline_handle
    then (
      of_result c.close_rotate,
      close_rotate c.close_rotate
          ∷ (if i.handle then [] else unregister_consumer mjpeg consumer_decoder ∷ []),
    )
    else (ok, [])

abbrev pub is_dvp : CameraType → Bool
is_dvp dvp_camera = true
is_dvp uvc_camera = false
is_dvp other_camera = false

-- mjpeg_decode_close.
unfoldable pub mjpeg_decode_close : Calls → Info → Option Yuv → Ret × Option Yuv × List Action
unfolding yuv_display_close yuv_display_is_running close_decoder
mjpeg_decode_close c i y =
    let (err, y', acts) = yuv_display_close c.yuv_display c.remaining y in
    let (ret, acts') = close_decoder c i in
    if is_dvp i.cam_type && yuv_display_is_running y
    then (of_err err, y', map yuv_display acts)
    else (ret, y, acts')
