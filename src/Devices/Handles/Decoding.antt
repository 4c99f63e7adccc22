-- ===== src/Devices/Handles/Decoding.antt =====
-- The MJPEG decoder (`Devices/Decoder.antt`) against the handles to its pipeline.
use bk_solution_doorbell.Base.{ℕ, ◌≡◌, Option, arith}
use bk_solution_doorbell.YuvDisplay.{Yuv, yuv_display_open, yuv_display_close}
use bk_solution_doorbell.Devices.{RotateMode, Info, Calls}
use bk_solution_doorbell.Devices.Decoder.{
  open_decoder, mjpeg_decode_open, close_decoder, mjpeg_decode_close,
}
use bk_solution_doorbell.Devices.Handles.{Accounts, IsQuiet, yuv-IsQuiet}

open_decoder-Accounts :
    (rot : RotateMode) (angle : ℕ) (c : Calls) (i : Info)
    → let (_, i', acts) = open_decoder rot angle c i in Accounts i i' acts
unfolding open_decoder
open_decoder-Accounts rot angle c i = ground arith

pub mjpeg_decode_open-Accounts :
    (rot : RotateMode) (angle : ℕ) (c : Calls) (i : Info) (y : Option Yuv)
    → let (_, i', _, acts) = mjpeg_decode_open rot angle c i y in Accounts i i' acts
unfolding mjpeg_decode_open
mjpeg_decode_open-Accounts rot angle c i y = ground (
  arith,
  open_decoder-Accounts rot angle c i,
  yuv-IsQuiet (yuv_display_open i.display_ctlr_handle angle c.yuv_display y).2,
)

pub mjpeg_decode_close-IsQuiet :
    (c : Calls) (i : Info) (y : Option Yuv) → IsQuiet (mjpeg_decode_close c i y).2
unfolding mjpeg_decode_close close_decoder
mjpeg_decode_close-IsQuiet c i y =
    ground (arith, yuv-IsQuiet (yuv_display_close c.yuv_display c.remaining y).2)

-- The fields that the decoder leaves alone.
abbrev pub SameDevices : Info → Info → Type 0
SameDevices i i' =
    (i'.display_ctlr_handle ≡ i.display_ctlr_handle)
    × (i'.lcd_device ≡ i.lcd_device)
    × (i'.lcd_id ≡ i.lcd_id)
    × (i'.handle ≡ i.handle)

pub mjpeg_decode_open-SameDevices :
    (rot : RotateMode) (angle : ℕ) (c : Calls) (i : Info) (y : Option Yuv)
    → SameDevices i (mjpeg_decode_open rot angle c i y).1
unfolding mjpeg_decode_open open_decoder
mjpeg_decode_open-SameDevices rot angle c i y = ground arith
