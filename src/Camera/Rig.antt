-- ===== src/Camera/Rig.antt =====
-- What the calls to the SDK leave behind when a camera is turned on or off.
use bk_solution_doorbell.Base.{
  ℕ, ◌+◌, ◌-◌, ◌≡◌, Bool, true, false, List, [], ◌∷◌, arith, if◌then◌else◌,
}
use bk_solution_doorbell.Camera.Modes.{Config}
use bk_solution_doorbell.Camera.{
  Action, Calls, init_semaphore, ctlr_new, camera_open, camera_close, camera_delete,
  register_connect, unregister_connect, deinit_semaphore, power_on, power_down, uvc_camera_power_on,
  uvc_camera_power_off, uvc_open, uvc_camera_turn_on, uvc_camera_turn_off, dvp_camera_turn_on,
  dvp_camera_turn_off,
}

-- Whether the port has power, whether the callback is registered, and how many semaphores and controllers there are and
-- how many controllers are open.
pub record Rig : Type 0 where
  pub powered : Bool
  pub callback : Bool
  pub semaphores : ℕ
  pub controllers : ℕ
  pub opened : ℕ

-- What one call changes. A failed call changes nothing.
abbrev pub apply : Action → Rig → Rig
apply (init_semaphore true) g = record g { semaphores = g.semaphores + 1 }
apply deinit_semaphore g = record g { semaphores = g.semaphores - 1 }
apply register_connect g = record g { callback = true }
apply unregister_connect g = record g { callback = false }
apply power_on g = record g { powered = true }
apply power_down g = record g { powered = false }
apply (ctlr_new true) g = record g { controllers = g.controllers + 1 }
apply (camera_open true) g = record g { opened = g.opened + 1 }
apply (camera_close true) g = record g { opened = g.opened - 1 }
apply (camera_delete true) g = record g { controllers = g.controllers - 1 }
apply _ g = g

abbrev pub after : List Action → Rig → Rig
after [] g = g
after (a ∷ as') g = after as' (apply a g)

abbrev pub idle : Rig
idle = record { powered = false; callback = false; semaphores = 0; controllers = 0; opened = 0 }

abbrev pub running : (callback : Bool) → Rig
running callback = record {
  powered = true;
  callback = callback;
  semaphores = 0;
  controllers = 1;
  opened = 1;
}

-- When bk_camera_delete succeeds, turning a USB camera on ends, whatever the other calls
-- return, with the handle of one open controller on a powered port if it succeeds, and otherwise with the port off
-- and no controller, callback or semaphore left. A turn-off that succeeds ends there too.
pub uvc-Settled :
    (config : Config) (width height : ℕ) (c : Calls)
    → c.camera_delete ≡ true
    → let (ok, _, acts) = uvc_camera_turn_on config width height c in
      let (closed, acts') = uvc_camera_turn_off c in
      (after acts idle ≡ (if ok then running true else idle))
      × (after acts' (running true) ≡ (if closed then idle else running true))
unfolding uvc_camera_turn_on uvc_camera_power_on uvc_camera_power_off uvc_open uvc_camera_turn_off
uvc-Settled config width height c h = ground arith

-- The same of a DVP camera, whose power is that of its pin.
pub dvp-Settled :
    (gpio : Bool) (c : Calls)
    → c.camera_delete ≡ true
    → let (ok, acts) = dvp_camera_turn_on gpio c in
      let (closed, acts') = dvp_camera_turn_off gpio c in
      let on = record (running false) { powered = gpio } in
      (after acts idle ≡ (if ok then on else idle))
      × (after acts' on ≡ (if closed then idle else on))
unfolding dvp_camera_turn_on dvp_camera_turn_off
dvp-Settled gpio c h = ground arith
