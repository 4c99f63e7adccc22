-- ===== src/Devices/Commands/Lasting.antt =====
-- Bits of the service bitmap that stay when their device is off.
use bk_solution_doorbell.Base.{
  ℕ, ◌≡◌, ◌≢◌, refl, ap, ◌∙◌, Bool, true, false, not, ◌||◌, List, ◌∷◌, All, arith, ◌==◌, ltb,
  if◌then◌else◌,
}
use bk_solution_doorbell.Command.{
  Opcode, set_camera_turn_on, set_camera_turn_off, set_audio_turn_on, set_audio_turn_off,
  set_lcd_turn_on, set_lcd_turn_off,
}
use bk_solution_doorbell.Command.Handler.{camera_parameters}
use bk_solution_doorbell.Command.Votes
use bk_solution_doorbell.Command.Votes.{all_off, bitmap, switched, after, arrival-bitmap}
use bk_solution_doorbell.Devices.{Ret, is_ok}
use bk_solution_doorbell.Devices.System.{transfer_off, apply}
use bk_solution_doorbell.Devices.Commands.{
  Board, State, Request, IsCode, device_calls, answered, serve, serve_all,
}
use bk_solution_doorbell.Devices.Commands.Effects.{camera_on-effect, camera_off-effect}
use bk_solution_doorbell.Devices.{Info, uvc_camera}
use bk_solution_doorbell.Devices.Decoder.{mjpeg_decode_close, close_decoder}
use bk_solution_doorbell.Devices.Display.{display_turn_off}
use bk_solution_doorbell.Devices.Commands.Steps.{opcode, serve_all-HasBits}

-- The display is off with its bit set.
abbrev pub LcdLost : Votes.Devices → Board → Type 0
LcdLost d b = (d.lcd ≡ true) × (b.devices.info.lcd_device ≡ false)

abbrev pub NoLcdOn : Request → Type 0
NoLcdOn r = opcode r ≢ set_lcd_turn_on

off-lcd :
    (cmd : ℕ → ℕ) (r : Request) (b : Board)
    → b.devices.info.lcd_device ≡ false
    → let (ret, b') = device_calls set_lcd_turn_off cmd r b in
      (is_ok ret ≡ false) × (b'.devices.info.lcd_device ≡ false)
unfolding device_calls apply display_turn_off
off-lcd cmd r b h = ground arith

kept_lcd :
    (good : Bool) (d : Votes.Devices) (op : Opcode)
    → op ≢ set_lcd_turn_on
    → op ≢ set_lcd_turn_off
    → (if good then switched op d else d).lcd ≡ d.lcd
kept_lcd good d op h l = ground arith

device_calls-LcdLost :
    (op : Opcode) (cmd : ℕ → ℕ) (r : Request) (d : Votes.Devices) (b : Board)
    → op ≢ set_lcd_turn_on
    → LcdLost d b
    → let (ret, b') = device_calls op cmd r b in LcdLost (if is_ok ret then switched op d else d) b'
unfolding device_calls
device_calls-LcdLost set_lcd_turn_on cmd r d b h k = absurd (h refl)
device_calls-LcdLost set_lcd_turn_off cmd r d b h k =
    let e = off-lcd cmd r b k.1 in simp e.0 (k.0, e.1)
device_calls-LcdLost set_camera_turn_on cmd r d b h k =
    let e = camera_on-effect (camera_parameters cmd) r.calls b.devices in
    let (ret, _) = device_calls set_camera_turn_on cmd r b in
    (kept_lcd (is_ok ret) d set_camera_turn_on (cc) (cc) ∙ k.0, e.2 ∙ k.1)
device_calls-LcdLost set_camera_turn_off cmd r d b h k =
    let e = camera_off-effect r.calls (apply transfer_off r.calls b.devices).1 in
    let (ret, _) = device_calls set_camera_turn_off cmd r b in
    (kept_lcd (is_ok ret) d set_camera_turn_off (cc) (cc) ∙ k.0, e.1 ∙ k.1)
device_calls-LcdLost set_audio_turn_on cmd r d b h k =
    let (ret, _) = device_calls set_audio_turn_on cmd r b in
    (kept_lcd (is_ok ret) d set_audio_turn_on (cc) (cc) ∙ k.0, k.1)
device_calls-LcdLost set_audio_turn_off cmd r d b h k =
    let (ret, _) = device_calls set_audio_turn_off cmd r b in
    (kept_lcd (is_ok ret) d set_audio_turn_off (cc) (cc) ∙ k.0, k.1)
device_calls-LcdLost _ cmd r d b h k = k

-- The decoder's rotation fails to close.
abbrev pub CloseFails : Request → Info → Type 0
CloseFails r i =
    (i.cam_type ≡ uvc_camera) × (i.video_pipeline_handle ≡ true) × (r.calls.close_rotate ≡ false)

failing-lcd :
    (cmd : ℕ → ℕ) (r : Request) (b : Board)
    → b.devices.info.lcd_id ≢ 0
    → CloseFails r b.devices.info
    → let (ret, b') = device_calls set_lcd_turn_off cmd r b in
      (is_ok ret ≡ false) × (b'.devices.info.lcd_device ≡ false)
unfolding device_calls apply display_turn_off mjpeg_decode_close close_decoder
failing-lcd cmd r b h k = ground arith

switched_none : (short : Bool) (d d' : Votes.Devices) → (if short || not false then d else d') ≡ d
switched_none short d d' = ground arith

-- A command that is long enough and whose device call fails changes the devices alone.
failed-HasBits :
    (code : Ret → ℕ) (P : Votes.Devices → Board → Type 0) (r : Request) (s : State)
    (d : Votes.Devices)
    → IsCode code
    → ltb r.arrival.length 10 ≡ false
    → s.cmd.mm_status ≡ bitmap d
    → let (ret, b) = device_calls (opcode r) r.arrival.cmd r s.board in
      is_ok ret ≡ false
      → P d b
      → (d' : Votes.Devices) × (((serve code r s).cmd.mm_status ≡ bitmap d')
          × P d' (serve code r s).board)
unfolding serve
failed-HasBits code P r s d codes short e bad k =
    let a = answered code r s.board in
    let (ret, b) = device_calls (opcode r) r.arrival.cmd r s.board in
    let zero : (code ret == 0) ≡ false = codes ret ∙ bad in
    let same : after a d ≡ d =
      simp zero (switched_none (ltb r.arrival.length 10) d (switched (opcode r) d)) in
    (d, (arrival-bitmap a s.cmd d e ∙ ap bitmap same, simp short k))

-- When a turn-off command of an open display fails because the decoder's rotation cannot be closed, the
-- display is off but its bit stays set, until a command turns the display on: every other command, further turn-off
-- commands too, leaves it so.
pub lcd_bit_lasts :
    (code : Ret → ℕ) (r : Request) (rs : List Request) (s : State) (d : Votes.Devices)
    → IsCode code
    → opcode r ≡ set_lcd_turn_off
    → ltb r.arrival.length 10 ≡ false
    → s.cmd.mm_status ≡ bitmap d
    → d.lcd ≡ true
    → s.board.devices.info.lcd_id ≢ 0
    → CloseFails r s.board.devices.info
    → All NoLcdOn rs
    → let s' = serve_all code (r ∷ rs) s in
      (d' : Votes.Devices) × ((s'.cmd.mm_status ≡ bitmap d') × LcdLost d' s'.board)
unfolding serve_all
lcd_bit_lasts code r rs s d codes o short e l id fails h =
    let f = failing-lcd r.arrival.cmd r s.board id fails in
    let bad : is_ok (device_calls (opcode r) r.arrival.cmd r s.board).0 ≡ false = simp o f.0 in
    let off : (device_calls (opcode r) r.arrival.cmd r s.board).1.devices.info.lcd_device ≡ false =
      simp o f.1 in
    serve_all-HasBits code codes LcdLost NoLcdOn
      (λ q d' b. device_calls-LcdLost (opcode q) q.arrival.cmd q d' b) rs (serve code r s) h
      (failed-HasBits code LcdLost r s d codes short e bad (l, off))
