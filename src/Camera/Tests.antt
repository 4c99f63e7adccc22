-- ===== src/Camera/Tests.antt =====
-- A USB camera with two modes.
use bk_solution_doorbell.Base.{
  ℕ, ◌≡◌, refl, true, false, some, ◌==◌, if◌then◌else◌, get_or, [], ◌∷◌,
}
use bk_solution_doorbell.Camera.Modes.{
  Frame, Brief, Config, ImageFormat, image_mjpeg, checkout_port_info,
}
use bk_solution_doorbell.Camera.Choice.{Chooses, looked_at, checkout_port_info-Chooses}
use bk_solution_doorbell.Camera.{Calls, uvc_camera_turn_on, uvc_camera_turn_off}
use bk_solution_doorbell.Camera.Rig.{after, idle, running, uvc-Settled}

abbrev rates : ℕ → ℕ
rates i = get_or (30 ∷ 25 ∷ 20 ∷ []) i 0

abbrev modes : ImageFormat → ℕ → Frame
modes f i =
    if i == 0
    then record { width = 640; height = 480; fps_num = 2; fps = rates }
    else record { width = 864; height = 480; fps_num = 3; fps = rates }

abbrev device : Brief
device = record { frame = modes; frame_num = λ _. 2 }

abbrev wanted : (fps : ℕ) → Config
wanted fps = record { width = 864; height = 480; fps = fps; img_format = image_mjpeg }

listed_rate : checkout_port_info (some device) (wanted 20) ≡ (true, wanted 20)
unfolding checkout_port_info
listed_rate = refl

other_rate : checkout_port_info (some device) (wanted 15) ≡ (true, wanted 30)
unfolding checkout_port_info
other_rate = refl

checkout_port_info-Chooses_example :
    Chooses
      (device.frame image_mjpeg)
      (looked_at device image_mjpeg)
      (wanted 15)
      (checkout_port_info (some device) (wanted 15))
checkout_port_info-Chooses_example = checkout_port_info-Chooses device (wanted 15) (cc)

abbrev open_fails : Calls
open_fails = record {
  semaphore = true;
  connected = false;
  wait = true;
  port_info = true;
  device = device;
  ctlr_new = true;
  camera_open = false;
  camera_close = true;
  camera_delete = true;
}

uvc-Settled_example :
    let (ok, _, acts) = uvc_camera_turn_on (wanted 30) 640 480 open_fails in
    let (closed, acts') = uvc_camera_turn_off open_fails in
    (after acts idle ≡ (if ok then running true else idle))
    × (after acts' (running true) ≡ (if closed then idle else running true))
uvc-Settled_example = uvc-Settled (wanted 30) 640 480 open_fails refl
