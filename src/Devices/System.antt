-- ===== src/Devices/System.antt =====
-- The devices together: what the commands and the message loop ask of them, one call after the other.
use bk_solution_doorbell.Base.{Option, none, some, List, [], ◌∷◌, ◌++◌}
use bk_solution_doorbell.FrameQueue.Node.{Format}
use bk_solution_doorbell.Command.{CameraParameters, DisplayParameters}
use bk_solution_doorbell.YuvDisplay.{Yuv}
use bk_solution_doorbell.Devices.{Ret, CameraType, Info, TransCfg, Action, Calls, zeroed}
use bk_solution_doorbell.Devices.Cameras.{camera_turn_on, camera_turn_off}
use bk_solution_doorbell.Devices.Display.{display_turn_on, display_turn_off}
use bk_solution_doorbell.Devices.Transfer.{video_transfer_turn_on, video_transfer_turn_off}

-- `db_device_info`, which exists once doorbell_devices_init has succeeded, `s_db_trans_cfg` and `s_yuv_display`.
pub record State : Type 0 where
  pub info : Info
  pub trans : Option TransCfg
  pub yuv : Option Yuv

-- The state after doorbell_devices_init.
abbrev pub start : CameraType → Format → State
start cam_type format = record { info = zeroed cam_type format; trans = none; yuv = none }

pub data Op : Type 0 where
  camera_on : CameraParameters → Op
  display_on : DisplayParameters → Op
  camera_off transfer_on transfer_off display_off : Op

-- The structure, which the functions do not free.
abbrev pub kept : Info → Option Info → Info
kept i none = i
kept i (some i') = i'

unfoldable pub apply : Op → Calls → State → Ret × State × List Action
unfolding camera_turn_on camera_turn_off display_turn_on display_turn_off video_transfer_turn_on
    video_transfer_turn_off
apply (camera_on p) c s =
    let (ret, i, y, acts) = camera_turn_on p c (some s.info) s.yuv in
    (ret, record s { info = kept s.info i; yuv = y }, acts)
apply camera_off c s =
    let (ret, i, acts) = camera_turn_off c (some s.info) in
    (ret, record s { info = kept s.info i }, acts)
apply transfer_on c s =
    let (ret, t, acts) = video_transfer_turn_on c (some s.info) s.trans in
    (ret, record s { trans = t }, acts)
apply transfer_off c s =
    let (ret, t, acts) = video_transfer_turn_off (some s.info) s.trans in
    (ret, record s { trans = t }, acts)
apply (display_on p) c s =
    let (ret, i, y, acts) = display_turn_on p c s.info s.yuv in
    (ret, record s { info = i; yuv = y }, acts)
apply display_off c s =
    let (ret, i, y, acts) = display_turn_off c s.info s.yuv in
    (ret, record s { info = i; yuv = y }, acts)

-- One call, with what its own calls return.
pub record Call : Type 0 where
  pub op : Op
  pub calls : Calls

unfoldable pub run : List Call → State → State × List Action
unfolding apply
run [] s = (s, [])
run (x ∷ xs) s =
    let (_, s1, acts) = apply x.op x.calls s in let (s2, rest) = run xs s1 in (s2, acts ++ rest)
