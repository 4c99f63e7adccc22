-- ===== src/Camera/Modes.antt =====
-- components/smart_lock/src/camera/uvc.c: the check of a resolution and a frame rate against what the
-- camera on the port lists.
use bk_solution_doorbell.Base.{
  ℕ, zero, suc, ◌+◌, ◌%◌, Bool, true, false, ◌&&◌, ◌||◌, Option, none, some, ◌==◌, if◌then◌else◌,
}

-- `image_format_t`, as far as the switch of the file tells its values apart.
pub data ImageFormat : Type 0 where
  image_yuv image_mjpeg image_h264 image_h265 other_image : ImageFormat

-- One entry of `mjpeg_frame`, `yuv_frame`, `h264_frame` or `h265_frame`.
pub record Frame : Type 0 where
  pub width : ℕ
  pub height : ℕ
  pub fps_num : ℕ
  pub fps : ℕ → ℕ

-- `all_frame` of the device, with the numbers of entries.
pub record Brief : Type 0 where
  pub frame : ImageFormat → ℕ → Frame
  pub frame_num : ImageFormat → ℕ

-- The fields of `bk_cam_uvc_config_t` that the checks use.
pub record Config : Type 0 where
  pub width : ℕ
  pub height : ℕ
  pub fps : ℕ
  pub img_format : ImageFormat

-- The inner loop, with `left` entries left from `i` on: the new `fps_flag`.
abbrev pub fps_loop : (resolution : Bool) (want : ℕ) → Frame → (left i : ℕ) → (flag : Bool) → Bool
fps_loop resolution want f zero i flag = flag
fps_loop resolution want f (suc left) i flag =
    fps_loop resolution want f left (i + 1) (flag || (resolution && (f.fps i == want)))

abbrev pub same_size : Config → Frame → Bool
same_size c f = (f.width == c.width) && (f.height == c.height)

-- The outer loop of the checks, with `left` entries left from `index` on. At its head
-- `resolution_flag` is false, since the loop is left when it becomes true.
abbrev pub frame_loop : (ℕ → Frame) → Config → (left index : ℕ) → (fps_flag : Bool) → Bool × Config
frame_loop frames c zero index fps_flag = (false, c)
frame_loop frames c (suc left) index fps_flag =
    let f = frames index in
    let resolution = same_size c f in
    let flag = fps_loop resolution c.fps f f.fps_num 0 fps_flag in
    let rest = frame_loop frames c left (index + 1) flag in
    if resolution then (true, if flag then c else record c { fps = f.fps 0 }) else rest

-- uvc_check_mjpeg_config; `frame_num` has 8 bits.
unfoldable pub check_mjpeg_config : Brief → Config → Bool × Config
check_mjpeg_config d c = frame_loop (d.frame image_mjpeg) c (d.frame_num image_mjpeg % 256) 0 false

unfoldable pub check_yuv_config : Brief → Config → Bool × Config
check_yuv_config d c = frame_loop (d.frame image_yuv) c (d.frame_num image_yuv % 256) 0 false

unfoldable pub check_h264_config : Brief → Config → Bool × Config
check_h264_config d c = frame_loop (d.frame image_h264) c (d.frame_num image_h264 % 256) 0 false

-- uvc_check_h265_config; the code does not set `frame_num` here.
unfoldable pub check_h265_config : Brief → Config → Bool × Config
check_h265_config d c = frame_loop (d.frame image_h265) c 0 0 false

-- The switch of uvc_checkout_port_info.
unfoldable pub check_config : ImageFormat → Brief → Config → Bool × Config
unfolding check_mjpeg_config check_yuv_config check_h264_config check_h265_config
check_config image_yuv d c = check_yuv_config d c
check_config image_mjpeg d c = check_mjpeg_config d c
check_config image_h264 d c = check_h264_config d c
check_config image_h265 d c = check_h265_config d c
check_config other_image d c = (true, c)

-- uvc_checkout_port_info; `none` is a port that cannot be checked.
unfoldable pub checkout_port_info : Option Brief → Config → Bool × Config
unfolding check_config
checkout_port_info none c = (false, c)
checkout_port_info (some d) c = check_config c.img_format d c
