-- ===== src/Devices.antt =====
-- components/smart_lock/src/doorbell_devices.c, camera/doorbell_camera.c and decoder/mjpeg_decoder.c: the
-- camera, the display and the video transfer. Here their state and the calls that leave the files;
-- `Decoder`, `Cameras`, `Display` and `Transfer` have the operations. What calls of the SDK and of the frame
-- queue return is an argument. Both kinds of camera are built in, as in every configuration.
pub mod Decoder
pub mod Cameras
pub mod Display
pub mod Transfer
pub mod System
pub mod Handles
pub mod Ledger
pub mod Backlog
pub mod Sending
pub mod Stuck
pub mod Switch
pub mod Commands
mod Tests
use bk_solution_doorbell.Base.{ℕ, Bool, true, false, Option, none, some, List, [], ◌∷◌}
use bk_solution_doorbell.FrameQueue.Node.{Format}
use bk_solution_doorbell.Camera
use bk_solution_doorbell.Camera.Modes
use bk_solution_doorbell.YuvDisplay
use bk_solution_doorbell.YuvDisplay.{Yuv, Rotate}

-- `camera_type_t`, as far as the files tell its values apart.
pub data CameraType : Type 0 where
  uvc_camera dvp_camera other_camera : CameraType

-- The type of an LCD.
pub data LcdType : Type 0 where
  lcd_rgb lcd_mcu8080 lcd_other : LcdType

-- `media_rotate_mode_t`.
pub data RotateMode : Type 0 where
  none_rotate sw_rotate hw_rotate : RotateMode

-- What the operations return: BK_OK, AVDK_ERR_OK and EVT_STATUS_OK are 0, and `failed` is the error of a
-- call that is passed on.
pub data Ret : Type 0 where
  ok bk_fail no_mem inval unsupported generic evt_error evt_already failed : Ret

-- `db_device_info_t`; of a handle or a pointer, whether it is set.
pub record Info : Type 0 where
  pub lcd_id : ℕ
  pub lcd_device : Bool
  pub video_pipeline_handle : Bool
  pub display_ctlr_handle : Bool
  pub cam_type : CameraType
  pub transfer_format : Format
  pub handle : Bool

-- `db_trans_cfg_t`; `transfer_thread` is whether the thread runs.
pub record TransCfg : Type 0 where
  pub enable : Bool
  pub img_format : Format
  pub sem : Bool
  pub transfer_thread : Bool

-- The calls that leave the files, with what they returned.
pub data Action : Type 0 where
  queue_init_all : Bool → Action
  queue_clear_all bluetooth_deinit : Action
  register_consumer unregister_consumer : Format → (consumer_id : ℕ) → Action
  camera : Camera.Action → Action
  yuv_display : YuvDisplay.Action → Action
  flash_register flash_unregister : Action
  pipeline_new : Bool → Action
  open_h264e : (width height : ℕ) → Rotate → Bool → Action
  close_h264e : Bool → Action
  open_rotate : RotateMode → Rotate → Bool → Action
  close_rotate : Bool → Action
  pipeline_delete : Action
  ldo_open ldo_close backlight_open backlight_close : Action
  display_new : LcdType → Bool → Action
  display_open : Bool → Action
  display_close display_delete : Action
  trans_malloc init_semaphore create_thread : Bool → Action
  get_semaphore deinit_semaphore trans_free : Action
  wifi_media_mode : Bool → Action
  video_quality_sd video_quality_hd : Action

-- What the calls of one operation return. `bluetooth` and `gpio` are options of the build, `config` is
-- the SDK's configuration of a USB camera, `lcd` what get_lcd_device_by_id finds, and
-- `remaining` the YUV frames left in their queue.
pub record Calls : Type 0 where
  pub bluetooth : Bool
  pub gpio : Bool
  pub config : Camera.Modes.Config
  pub queue_init : Bool
  pub camera : Camera.Calls
  pub yuv_display : YuvDisplay.Calls
  pub remaining : List ℕ
  pub pipeline_new : Bool
  pub open_h264e : Bool
  pub close_h264e : Bool
  pub open_rotate : Bool
  pub close_rotate : Bool
  pub lcd : Option LcdType
  pub display_new : Bool
  pub display_open : Bool
  pub trans_malloc : Bool
  pub trans_semaphore : Bool
  pub trans_thread : Bool

abbrev pub consumer_transmission : ℕ
consumer_transmission = 1

abbrev pub consumer_decoder : ℕ
consumer_decoder = 2

abbrev pub of_result : Bool → Ret
of_result b = elim b [ true ↦ ok | false ↦ failed ]

abbrev pub of_err : YuvDisplay.Err → Ret
of_err YuvDisplay.ok = ok
of_err YuvDisplay.failed = failed
of_err YuvDisplay.no_mem = no_mem

-- `ret == BK_OK`.
abbrev pub is_ok : Ret → Bool
is_ok ok = true
is_ok _ = false

-- The structure after os_memset; the values that zero stands for are the SDK's.
abbrev pub zeroed : CameraType → Format → Info
zeroed cam_type format = record {
  lcd_id = 0;
  lcd_device = false;
  video_pipeline_handle = false;
  display_ctlr_handle = false;
  cam_type = cam_type;
  transfer_format = format;
  handle = false;
}

-- doorbell_devices_init.
unfoldable pub devices_init :
    (alloc : Bool) → CameraType → Format → Option Info → Bool × Option Info
devices_init alloc cam_type format (some i) = (true, some (zeroed cam_type format))
devices_init alloc cam_type format none = elim alloc [
  | true ↦ (true, some (zeroed cam_type format))
  | false ↦ (false, none)
]

-- doorbell_devices_deinit.
unfoldable pub devices_deinit : Option Info → Option Info × List Action
devices_deinit none = (none, [])
devices_deinit (some i) =
    (none, elim i.video_pipeline_handle [ true ↦ pipeline_delete ∷ [] | false ↦ [] ])
