-- ===== src/Devices/Sending.antt =====
-- The transfer's thread at the frame queue, and where decoded frames go.
use bk_solution_doorbell.Base.{
  ℕ, suc, ◌+◌, ◌≡◌, ◌≢◌, Bool, some, List, [], ◌∷◌, ◌++◌, arith, if◌then◌else◌,
}
use bk_solution_doorbell.FrameQueue.Queue.{Queue}
use bk_solution_doorbell.Devices.Decoder.{
  DecEnd, hw_dec_end, sw_dec_end, other_end, decode_complete, display_flush, display_free, show,
}
use bk_solution_doorbell.Devices.Decoder
use bk_solution_doorbell.Devices.Transfer.{FrameEffect}
use bk_solution_doorbell.Devices.Backlog.{backlog, sent, given_back, Listens}

-- One event: what was sent, the backlog and what was accepted, and whether the thread is registered.
abbrev pub Streams : Queue → Queue → List FrameEffect → List ℕ → Type 0
Streams q q' acts more =
    Listens q' × (sent acts ++ backlog q' ≡ backlog q ++ more) × (given_back acts ≡ sent acts)

abbrev one_if : Bool → ℕ
one_if b = if b then 1 else 0

-- How often a decoded frame is freed or taken by the display.
abbrev pub gives : List Decoder.FrameEffect → ℕ
gives [] = 0
gives (display_flush f ok ∷ es) = one_if ok + gives es
gives (display_free f ∷ es) = suc (gives es)

-- A decoded frame of the hardware or the software decoder is freed or taken by the display exactly once,
-- whatever the result of the decoding, whether there is a display, and whether it takes the frame.
pub decode_complete-once :
    (type : DecEnd) (result : Bool) (frame : ℕ) (display flush : Bool)
    → type ≢ other_end
    → gives (decode_complete type result (some frame) display flush) ≡ 1
unfolding decode_complete
decode_complete-once type result frame display flush h = ground arith
