-- ===== src/Camera.antt =====
-- components/smart_lock/src/camera/uvc.c and dvp.c: how a USB and a DVP camera are turned on and off.
-- `Modes` chooses the resolution and the frame rate; what calls of the SDK return are arguments.
pub mod Modes
pub mod Choice
pub mod Rig
mod Tests
use bk_solution_doorbell.Base.{
  ℕ, Bool, true, false, Option, none, some, List, [], ◌∷◌, ◌++◌, if◌then◌else◌,
}
use bk_solution_doorbell.Camera.Modes.{Brief, Config, checkout_port_info}

-- The calls that leave the files, with what they returned.
pub data Action : Type 0 where
  init_semaphore wait_connected check_device ctlr_new camera_open : Bool → Action
  camera_close camera_delete : Bool → Action
  register_connect unregister_connect deinit_semaphore : Action
  power_on power_down : Action

-- What the calls of one operation return. `device` is what `usb_device_param` of the port describes,
-- `port_info` whether the second look at the port gives one.
pub record Calls : Type 0 where
  pub semaphore : Bool
  pub connected : Bool
  pub wait : Bool
  pub port_info : Bool
  pub device : Brief
  pub ctlr_new : Bool
  pub camera_open : Bool
  pub camera_close : Bool
  pub camera_delete : Bool

-- uvc_camera_power_on.
unfoldable pub uvc_camera_power_on : Calls → Bool × List Action
uvc_camera_power_on c =
    if c.semaphore
    then (if c.connected
        then (
          true,
          init_semaphore true
              ∷ register_connect
              ∷ power_on
              ∷ check_device true
              ∷ deinit_semaphore
              ∷ [],
        )
        else (
          c.wait,
          init_semaphore true
              ∷ register_connect
              ∷ power_on
              ∷ check_device false
              ∷ wait_connected c.wait
              ∷ deinit_semaphore
              ∷ [],
        ))
    else (false, init_semaphore false ∷ [])

unfoldable pub uvc_camera_power_off : List Action
uvc_camera_power_off = unregister_connect ∷ power_down ∷ []

-- What follows the check of the port in uvc_camera_turn_on.
unfoldable pub uvc_open : Calls → Bool × List Action
unfolding uvc_camera_power_off
uvc_open c =
    if c.ctlr_new
    then (if c.camera_open then (true, ctlr_new true ∷ camera_open true ∷ []) else (
      false,
      ctlr_new true ∷ camera_open false ∷ camera_delete c.camera_delete ∷ uvc_camera_power_off,
    ))
    else (false, ctlr_new false ∷ uvc_camera_power_off)

-- uvc_camera_turn_on for parameters that exist: whether there is a handle, and the configuration
-- that the controller gets. `config` is BK_UVC_864X480_30FPS_MJPEG_CONFIG.
unfoldable pub uvc_camera_turn_on :
    (config : Config) (width height : ℕ) → Calls → Bool × Config × List Action
unfolding uvc_camera_power_on uvc_camera_power_off checkout_port_info uvc_open
uvc_camera_turn_on config width height c =
    let user = record config { width = width; height = height } in
    let (powered, acts) = uvc_camera_power_on c in
    let device : Option Brief = if c.port_info then some c.device else none in
    let (fits, user') = checkout_port_info device user in
    let (ok, acts') = uvc_open c in
    if powered
    then (if fits
        then (ok, user', acts ++ (check_device c.port_info ∷ acts'))
        else (false, user', acts ++ (check_device c.port_info ∷ uvc_camera_power_off)))
    else (false, user, acts ++ uvc_camera_power_off)

-- uvc_camera_turn_off for a handle.
unfoldable pub uvc_camera_turn_off : Calls → Bool × List Action
unfolding uvc_camera_power_off
uvc_camera_turn_off c =
    if c.camera_close
    then (if c.camera_delete
        then (true, camera_close true ∷ camera_delete true ∷ uvc_camera_power_off)
        else (false, camera_close true ∷ camera_delete false ∷ []))
    else (false, camera_close false ∷ [])

-- The power pin, if there is one.
abbrev pub if_gpio : (gpio : Bool) → Action → List Action
if_gpio gpio a = if gpio then a ∷ [] else []

-- dvp_camera_turn_on for parameters that exist. `gpio` is whether CONFIG_DVP_CTRL_POWER_GPIO_ID
-- names a pin.
unfoldable pub dvp_camera_turn_on : (gpio : Bool) → Calls → Bool × List Action
dvp_camera_turn_on gpio c =
    if c.ctlr_new
    then (if c.camera_open
        then (true, if_gpio gpio power_on ++ (ctlr_new true ∷ camera_open true ∷ []))
        else (
          false,
          if_gpio gpio power_on
              ++ (ctlr_new true
                  ∷ camera_open false
                  ∷ camera_delete c.camera_delete
                  ∷ if_gpio gpio power_down),
        ))
    else (false, if_gpio gpio power_on ++ (ctlr_new false ∷ if_gpio gpio power_down))

-- dvp_camera_turn_off for a handle.
unfoldable pub dvp_camera_turn_off : (gpio : Bool) → Calls → Bool × List Action
dvp_camera_turn_off gpio c =
    if c.camera_close
    then (if c.camera_delete
        then (true, camera_close true ∷ camera_delete true ∷ if_gpio gpio power_down)
        else (false, camera_close true ∷ camera_delete false ∷ []))
    else (false, camera_close false ∷ [])
