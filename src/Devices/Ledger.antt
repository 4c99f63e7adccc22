-- ===== src/Devices/Ledger.antt =====
-- No call for a device loses a display controller or a pipeline.
use bk_solution_doorbell.Base.{
  ◌+◌, ◌≡◌, refl, ◌∙◌, inl, inr, Bool, true, false, Option, some, List, [], ◌∷◌, ◌++◌, arith,
  if◌then◌else◌, Bool-cases, Option-cases,
}
use bk_solution_doorbell.FrameQueue.Node.{Format, h264}
use bk_solution_doorbell.Command.{CameraParameters, DisplayParameters}
use bk_solution_doorbell.YuvDisplay.{Yuv}
use bk_solution_doorbell.Devices.{
  CameraType, hw_rotate, LcdType, Info, TransCfg, Action, queue_init_all, bluetooth_deinit,
  unregister_consumer, Calls, consumer_transmission,
}
use bk_solution_doorbell.Devices.Cameras.{
  h264_encode_turn_on, turn_on, open_display, open_pipeline, camera_open, if_bluetooth, open_camera,
  camera_turn_on, camera_turn_off,
}
use bk_solution_doorbell.Devices.Display.{
  rotate_mode, new_display, display_error, start_display, open_lcd, is_open, display_turn_on,
  display_turn_off,
}
use bk_solution_doorbell.Devices.System.{
  State, start, Op, camera_on, camera_off, transfer_on, transfer_off, display_on, display_off, kept,
  apply, Call, run,
}
use bk_solution_doorbell.Devices.Transfer.{
  devices_start, devices_stop, video_transfer_turn_on, video_transfer_turn_off,
}
use bk_solution_doorbell.Devices.Handles.{
  one_if, displays_made, displays_deleted, pipelines_made, Accounts, Accounts-append,
  IsQuiet-Accounts,
}
use bk_solution_doorbell.Devices.Handles.Decoding.{mjpeg_decode_open-SameDevices}
use bk_solution_doorbell.Devices.Handles.Capture.{camera_turn_on-Accounts, camera_turn_off-Accounts}
use bk_solution_doorbell.Devices.Handles.Showing.{start_display-Accounts, display_turn_off-Accounts}

-- The display's controller exists exactly while its device is set.
abbrev pub IsPaired : Info → Type 0
IsPaired i = i.display_ctlr_handle ≡ i.lcd_device

open_lcd-Accounts :
    (type : LcdType) (p : DisplayParameters) (c : Calls) (i : Info) (y : Option Yuv)
    → i.display_ctlr_handle ≡ false
    → let (_, i', _, acts) = open_lcd type p c i y in Accounts i i' acts
unfolding open_lcd new_display
open_lcd-Accounts type p c i y h =
    ground (arith, start_display-Accounts p c (record i { display_ctlr_handle = true }) y refl)

start_display-IsPaired :
    (p : DisplayParameters) (c : Calls) (i : Info) (y : Option Yuv)
    → i.display_ctlr_handle ≡ true
    → i.lcd_device ≡ false
    → IsPaired (start_display p c i y).1
unfolding start_display display_error
start_display-IsPaired p c i y h k =
    ground (arith, mjpeg_decode_open-SameDevices (rotate_mode p.pixel_format) p.rotate_angle c i y)

open_lcd-IsPaired :
    (type : LcdType) (p : DisplayParameters) (c : Calls) (i : Info) (y : Option Yuv)
    → i.display_ctlr_handle ≡ false
    → i.lcd_device ≡ false
    → IsPaired (open_lcd type p c i y).1
unfolding open_lcd new_display
open_lcd-IsPaired type p c i y h k =
    ground (arith, start_display-IsPaired p c (record i { display_ctlr_handle = true }) y refl k)

-- What follows the first calls of doorbell_display_turn_on.
prefix-Accounts :
    (b : Bool) (i i' : Info) (acts : List Action)
    → Accounts i i' acts
    → Accounts i i' (queue_init_all true ∷ ((if b then bluetooth_deinit ∷ [] else []) ++ acts))
prefix-Accounts b i i' acts h = ground (arith, h)

-- A call keeps the pairing and accounts for the handles.
abbrev pub Fine : Info → Info → List Action → Type 0
Fine i i' acts = IsPaired i' × Accounts i i' acts

not_open : (i : Info) → is_open i ≡ false → i.lcd_device ≡ false
not_open i h = ground arith

opened-Fine :
    (p : DisplayParameters) (c : Calls) (i : Info) (y : Option Yuv) (type : LcdType)
    → IsPaired i
    → is_open i ≡ false
    → let (_, i', _, acts) = open_lcd type p c i y in
      Fine i i' (queue_init_all true ∷ (if_bluetooth c ++ acts))
opened-Fine p c i y type h k =
    let (_, i', _, acts) = open_lcd type p c i y in
    let l = not_open i k in
    (
      open_lcd-IsPaired type p c i y (h ∙ l) l,
      prefix-Accounts c.bluetooth i i' acts (open_lcd-Accounts type p c i y (h ∙ l)),
    )

not_found : (c : Calls) (i : Info) → Accounts i i (queue_init_all true ∷ if_bluetooth c)
not_found c i = ground arith

display_turn_on-Fine :
    (p : DisplayParameters) (c : Calls) (i : Info) (y : Option Yuv)
    → IsPaired i
    → let (_, i', _, acts) = display_turn_on p c i y in Fine i i' acts
unfolding display_turn_on
display_turn_on-Fine p c i y h = elim (Bool-cases c.queue_init) [
  | inr e ↦ simp e (h, IsQuiet-Accounts i (queue_init_all false ∷ []) (refl, refl, refl))
  | inl e ↦ elim (Bool-cases (is_open i)) [
    | inl k ↦ simp (e, k) (h, IsQuiet-Accounts i (queue_init_all true ∷ []) (refl, refl, refl))
    | inr k ↦ elim (Option-cases c.lcd) [
      | inl l ↦ simp (e, k, l) (h, not_found c i)
      | inr (type, l) ↦ simp (e, k, l) (opened-Fine p c i y type h k)
    ]
  ]
]

-- The display and its device are left alone.
abbrev SameDisplay : Info → Info → Type 0
SameDisplay i i' = (i'.display_ctlr_handle ≡ i.display_ctlr_handle) × (i'.lcd_device ≡ i.lcd_device)

h264-SameDisplay :
    (p : CameraParameters) (c : Calls) (i : Info) → SameDisplay i (h264_encode_turn_on p c i).1
unfolding h264_encode_turn_on
h264-SameDisplay p c i = ground arith

turn_on-SameDisplay :
    (p : CameraParameters) (c : Calls) (i : Info) → SameDisplay i (turn_on p c i).1
unfolding turn_on
turn_on-SameDisplay p c i = ground arith

open_display-SameDisplay :
    (p : CameraParameters) (c : Calls) (i : Info) (y : Option Yuv)
    → SameDisplay i (open_display p c i y).1
unfolding open_display
open_display-SameDisplay p c i y =
    ground (arith, mjpeg_decode_open-SameDevices hw_rotate p.rotate c i y)

open_pipeline-SameDisplay :
    (p : CameraParameters) (c : Calls) (i : Info) (y : Option Yuv)
    → SameDisplay i (open_pipeline p c i y).1
unfolding open_pipeline
open_pipeline-SameDisplay p c i y = ground (
  arith,
  h264-SameDisplay p c i,
  open_display-SameDisplay p c i y,
  open_display-SameDisplay p c (h264_encode_turn_on p c i).1 y,
)

camera_open-SameDisplay :
    (p : CameraParameters) (c : Calls) (i : Info) (y : Option Yuv)
    → SameDisplay i (camera_open p c i y).1
unfolding camera_open
camera_open-SameDisplay p c i y =
    let i0 = record i { transfer_format = h264 } in
    ground (arith, turn_on-SameDisplay p c i0, open_pipeline-SameDisplay p c (turn_on p c i0).1 y)

camera_turn_on-IsPaired :
    (p : CameraParameters) (c : Calls) (i : Info) (y : Option Yuv)
    → IsPaired i
    → IsPaired (kept i (camera_turn_on p c (some i) y).1)
unfolding camera_turn_on open_camera
camera_turn_on-IsPaired p c i y h = ground (arith, camera_open-SameDisplay p c i y)

camera_turn_off-IsPaired :
    (c : Calls) (i : Info) → IsPaired i → IsPaired (kept i (camera_turn_off c (some i)).1)
unfolding camera_turn_off
camera_turn_off-IsPaired c i h = ground arith

display_turn_off-Fine :
    (c : Calls) (i : Info) (y : Option Yuv)
    → IsPaired i
    → let (_, i', _, acts) = display_turn_off c i y in Fine i i' acts
unfolding display_turn_off
display_turn_off-Fine c i y h = ground (arith, display_turn_off-Accounts c i y h)

-- The calls of the transfer make and delete none.
start-IsQuiet :
    (f : Format) (c : Calls) (t : Option TransCfg) (i : Info) → Accounts i i (devices_start f c t).2
unfolding devices_start devices_stop
start-IsQuiet f c t i = ground arith

stop-IsQuiet : (t : Option TransCfg) (i : Info) → Accounts i i (devices_stop t).2
unfolding devices_stop
stop-IsQuiet t i = ground arith

transfer_on-Accounts :
    (c : Calls) (i : Info) (t : Option TransCfg)
    → Accounts i i (video_transfer_turn_on c (some i) t).2
unfolding video_transfer_turn_on
transfer_on-Accounts c i t = ground (arith, start-IsQuiet i.transfer_format c t i)

transfer_off-Accounts :
    (i : Info) (t : Option TransCfg) → Accounts i i (video_transfer_turn_off (some i) t).2
unfolding video_transfer_turn_off
transfer_off-Accounts i t =
    let acts = (devices_stop t).2 in
    let last = unregister_consumer i.transfer_format consumer_transmission ∷ [] in
    ground (arith, Accounts-append i i i acts last (stop-IsQuiet t i))

apply-Fine :
    (op : Op) (c : Calls) (s : State)
    → IsPaired s.info
    → let (_, s', acts) = apply op c s in Fine s.info s'.info acts
unfolding apply
apply-Fine (camera_on p) c s h =
    (camera_turn_on-IsPaired p c s.info s.yuv h, camera_turn_on-Accounts p c s.info s.yuv)
apply-Fine camera_off c s h =
    (camera_turn_off-IsPaired c s.info h, camera_turn_off-Accounts c s.info)
apply-Fine transfer_on c s h = (h, transfer_on-Accounts c s.info s.trans)
apply-Fine transfer_off c s h = (h, transfer_off-Accounts s.info s.trans)
apply-Fine (display_on p) c s h = display_turn_on-Fine p c s.info s.yuv h
apply-Fine display_off c s h = display_turn_off-Fine c s.info s.yuv h

run-Fine :
    (xs : List Call) (s : State)
    → IsPaired s.info
    → let (s', acts) = run xs s in Fine s.info s'.info acts
unfolding run
run-Fine [] s h = (h, IsQuiet-Accounts s.info [] (refl, refl, refl))
run-Fine (x ∷ xs) s h =
    let (_, s1, acts) = apply x.op x.calls s in
    let (s2, rest) = run xs s1 in
    let first = apply-Fine x.op x.calls s h in
    let second = run-Fine xs s1 first.0 in
    (second.0, Accounts-append s.info s1.info s2.info acts rest first.1 second.1)

-- After any calls for the camera, the display and the transfer since doorbell_devices_init, in any order and
-- whatever fails in them, every display controller that was made was deleted again except the one that
-- `display_ctlr_handle` holds, which it does exactly while `lcd_device` is set; and the one video pipeline that was made, if
-- any, is the one that `video_pipeline_handle` holds.
pub run-keeps_handles :
    (cam_type : CameraType) (format : Format) (xs : List Call)
    → let (s, acts) = run xs (start cam_type format) in
      (s.info.display_ctlr_handle ≡ s.info.lcd_device)
      × (displays_made acts ≡ displays_deleted acts + one_if s.info.display_ctlr_handle)
      × (pipelines_made acts ≡ one_if s.info.video_pipeline_handle)
run-keeps_handles cam_type format xs =
    let fine = run-Fine xs (start cam_type format) refl in
    (fine.0, omega (arith, fine.1.0), omega (arith, fine.1.1))
