-- ===== src/Devices/Handles/Showing.antt =====
-- The display commands (`Devices/Display.antt`) against the handles they use.
use bk_solution_doorbell.Base.{
  ◌≡◌, ◌∙◌, inl, inr, true, Option, [], ◌∷◌, arith, if◌then◌else◌, Bool-cases,
}
use bk_solution_doorbell.Command.{DisplayParameters}
use bk_solution_doorbell.YuvDisplay.{Yuv}
use bk_solution_doorbell.Devices.{
  Info, queue_clear_all, ldo_close, backlight_open, display_close, display_delete, Calls, is_ok,
}
use bk_solution_doorbell.Devices.Decoder.{mjpeg_decode_open, mjpeg_decode_close}
use bk_solution_doorbell.Devices.Display.{
  rotate_mode, display_error, start_display, display_turn_off,
}
use bk_solution_doorbell.Devices.Handles.{
  displays_made-append, displays_deleted-append, pipelines_made-append, Accounts, Accounts-append,
}
use bk_solution_doorbell.Devices.Handles.Decoding.{
  mjpeg_decode_open-Accounts, mjpeg_decode_close-IsQuiet, mjpeg_decode_open-SameDevices,
}

display_error-Accounts :
    (c : Calls) (i : Info) (y : Option Yuv)
    → i.display_ctlr_handle ≡ true
    → let (_, i', _, acts) = display_error c i y in Accounts i i' acts
unfolding display_error
display_error-Accounts c i y h =
    let acts = (mjpeg_decode_close c i y).2 in
    ground (
      arith,
      mjpeg_decode_close-IsQuiet c i y,
      displays_made-append acts (display_delete ∷ []),
      displays_deleted-append acts (display_delete ∷ []),
      pipelines_made-append acts (display_delete ∷ []),
    )

pub start_display-Accounts :
    (p : DisplayParameters) (c : Calls) (i : Info) (y : Option Yuv)
    → i.display_ctlr_handle ≡ true
    → let (_, i', _, acts) = start_display p c i y in Accounts i i' acts
unfolding start_display
start_display-Accounts p c i y h =
    let mode = rotate_mode p.pixel_format in
    let (ret, i1, y1, acts) = mjpeg_decode_open mode p.rotate_angle c i y in
    let (_, i2, _, acts2) = display_error c i1 y1 in
    let i3 = record i1 { lcd_id = p.id; lcd_device = true } in
    let first = mjpeg_decode_open-Accounts mode p.rotate_angle c i y in
    let shown = (mjpeg_decode_open-SameDevices mode p.rotate_angle c i y).0 ∙ h in
    let failed_later =
      Accounts-append i i1 i2 acts acts2 first (display_error-Accounts c i1 y1 shown) in
    let succeeded = Accounts-append i i1 i3 acts (backlight_open ∷ []) first (omega arith) in
    elim (Bool-cases c.display_open) [
      | inl e ↦ elim (Bool-cases (is_ok ret)) [
        | inl k ↦ simp (e, k) succeeded
        | inr k ↦ simp (e, k) failed_later
      ]
      | inr e ↦ simp e (display_error-Accounts c i y h)
    ]

pub display_turn_off-Accounts :
    (c : Calls) (i : Info) (y : Option Yuv)
    → i.display_ctlr_handle ≡ i.lcd_device
    → let (_, i', _, acts) = display_turn_off c i y in Accounts i i' acts
unfolding display_turn_off
display_turn_off-Accounts c i y h =
    let acts = (mjpeg_decode_close c i y).2 in
    let rest =
      display_close
      ∷ display_delete
      ∷ ldo_close
      ∷ (if i.handle then [] else queue_clear_all ∷ []) in
    ground (
      arith,
      mjpeg_decode_close-IsQuiet c i y,
      displays_made-append acts rest,
      displays_deleted-append acts rest,
      pipelines_made-append acts rest,
    )
