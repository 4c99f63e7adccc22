-- ===== src/Devices/Display.antt =====
-- components/smart_lock/src/doorbell_devices.c: the display.
use bk_solution_doorbell.Base.{
  ℕ, Bool, true, false, not, ◌||◌, Option, none, some, List, [], ◌∷◌, ◌++◌, ◌==◌, if◌then◌else◌,
}
use bk_solution_doorbell.Command.{DisplayParameters}
use bk_solution_doorbell.YuvDisplay.{Yuv}
use bk_solution_doorbell.Devices.{
  LcdType, lcd_other, RotateMode, hw_rotate, sw_rotate, none_rotate, Ret, ok, bk_fail, evt_error,
  evt_already, failed, Info, Action, queue_init_all, queue_clear_all, ldo_open, ldo_close,
  backlight_open, backlight_close, display_new, display_open, display_close, display_delete, Calls,
  is_ok,
}
use bk_solution_doorbell.Devices.Decoder.{mjpeg_decode_open, mjpeg_decode_close}
use bk_solution_doorbell.Devices.Cameras.{if_bluetooth}

abbrev pub rotate_mode : (pixel_format : ℕ) → RotateMode
rotate_mode f = if f == 0 then hw_rotate else if f == 1 then sw_rotate else none_rotate

-- The new controller of a display: the result that doorbell_display_turn_on looks at.
unfoldable pub new_display : LcdType → Calls → Ret × List Action
new_display lcd_other c = (bk_fail, [])
new_display type c = (if c.display_new then ok else failed, display_new type c.display_new ∷ [])

-- The label `error` of doorbell_display_turn_on.
unfoldable pub display_error : Calls → Info → Option Yuv → Ret × Info × Option Yuv × List Action
unfolding mjpeg_decode_close
display_error c i y =
    let (_, y', acts) = mjpeg_decode_close c i y in
    (evt_error, record i { display_ctlr_handle = false }, y', acts ++ (display_delete ∷ []))

-- doorbell_display_turn_on from bk_display_open on, for the controller that it has made.
unfoldable pub start_display :
    DisplayParameters → Calls → Info → Option Yuv → Ret × Info × Option Yuv × List Action
unfolding mjpeg_decode_open display_error
start_display p c i y =
    let (ret, i1, y1, acts) = mjpeg_decode_open (rotate_mode p.pixel_format) p.rotate_angle c i y in
    let (r0, i0, y0, acts0) = display_error c i y in
    let (r2, i2, y2, acts2) = display_error c i1 y1 in
    if not c.display_open
    then (r0, i0, y0, display_open false ∷ acts0)
    else if not (is_ok ret)
    then (r2, i2, y2, display_open true ∷ (acts ++ acts2))
    else (
      ok,
      record i1 { lcd_id = p.id; lcd_device = true },
      y1,
      display_open true ∷ (acts ++ (backlight_open ∷ [])),
    )

-- doorbell_display_turn_on from the look-up of the device on, for one that it finds.
unfoldable pub open_lcd :
    LcdType → DisplayParameters → Calls → Info → Option Yuv → Ret × Info × Option Yuv × List Action
unfolding new_display start_display
open_lcd type p c i y =
    let (ret, made) = new_display type c in
    let (ret', i', y', acts) = start_display p c (record i { display_ctlr_handle = true }) y in
    if is_ok ret then (ret', i', y', ldo_open ∷ (made ++ acts)) else (ret, i, y, ldo_open ∷ made)

abbrev pub is_open : Info → Bool
is_open i = not (i.lcd_id == 0) || i.lcd_device

-- doorbell_display_turn_on, for a structure that exists.
unfoldable pub display_turn_on :
    DisplayParameters → Calls → Info → Option Yuv → Ret × Info × Option Yuv × List Action
unfolding open_lcd
display_turn_on p c i y =
    if not c.queue_init
    then (evt_error, i, y, queue_init_all false ∷ [])
    else if is_open i
    then (evt_already, i, y, queue_init_all true ∷ [])
    else elim c.lcd [
      | none ↦ (evt_error, i, y, queue_init_all true ∷ if_bluetooth c)
      | some type ↦
          let (ret, i', y', acts) = open_lcd type p c i y in
          (ret, i', y', queue_init_all true ∷ (if_bluetooth c ++ acts))
    ]

-- doorbell_display_turn_off, for a structure that exists.
unfoldable pub display_turn_off : Calls → Info → Option Yuv → Ret × Info × Option Yuv × List Action
unfolding mjpeg_decode_close
display_turn_off c i y =
    let (ret, y', acts) = mjpeg_decode_close c i y in
    let clear = if i.handle then [] else queue_clear_all ∷ [] in
    if (i.lcd_id == 0) || not i.lcd_device then (evt_already, i, y, []) else (
      ret,
      record i { lcd_id = 0; lcd_device = false; display_ctlr_handle = false },
      y',
      backlight_close ∷ (acts ++ (display_close ∷ display_delete ∷ ldo_close ∷ clear)),
    )
