-- ===== src/Command/Votes.antt =====
-- The bitmap of multimedia services against the devices that are on.
use bk_solution_doorbell.Base.{
  ℕ, ◌+◌, ◌*◌, ◌≡◌, refl, ap, ◌∙◌, inl, inr, Bool, true, false, not, ◌||◌, List, [], ◌∷◌, arith,
  ◌==◌, ltb, if◌then◌else◌, Bool-cases,
}
use bk_solution_doorbell.Command.{
  Opcode, opcode_of, State, boot, Results, set_camera_turn_on, set_camera_turn_off,
  set_audio_turn_on, set_audio_turn_off, set_lcd_turn_on, set_lcd_turn_off,
}
use bk_solution_doorbell.Command.Handler.{
  ServiceBit, camera_bit, audio_bit, lcd_bit, other_bit, mm_service_vote, vote_if, dispatch,
  cmd_recive_callback, Arrival, run, get32,
}

-- The devices that are on.
pub record Devices : Type 0 where
  pub camera : Bool
  pub audio : Bool
  pub lcd : Bool

abbrev pub all_off : Devices
all_off = record { camera = false; audio = false; lcd = false }

abbrev bit_if : Bool → ℕ
bit_if b = if b then 1 else 0

abbrev pub bitmap : Devices → ℕ
bitmap d = bit_if d.camera + 2 * bit_if d.audio + 4 * bit_if d.lcd

-- What one command that is long enough does to them: only a call that succeeded counts.
abbrev pub switched : Opcode → Devices → Devices
switched set_camera_turn_on d = record d { camera = true }
switched set_camera_turn_off d = record d { camera = false }
switched set_audio_turn_on d = record d { audio = true }
switched set_audio_turn_off d = record d { audio = false }
switched set_lcd_turn_on d = record d { lcd = true }
switched set_lcd_turn_off d = record d { lcd = false }
switched _ d = d

abbrev pub after : Arrival → Devices → Devices
after a d =
    if ltb a.length 10 || not (a.results.ret == 0)
    then d
    else switched (opcode_of (get32 a.cmd 0)) d

abbrev pub devices_after : List Arrival → Devices → Devices
devices_after [] d = d
devices_after (a ∷ as') d = devices_after as' (after a d)

abbrev pub set_device : ServiceBit → Bool → Devices → Devices
set_device camera_bit on d = record d { camera = on }
set_device audio_bit on d = record d { audio = on }
set_device lcd_bit on d = record d { lcd = on }
set_device other_bit on d = d

vote_bitmap_of :
    (b : ServiceBit) (on c a l : Bool)
    → let d : Devices = record { camera = c; audio = a; lcd = l } in
      mm_service_vote b on (bitmap d) ≡ bitmap (set_device b on d)
unfolding mm_service_vote
vote_bitmap_of b on c a l = ground arith

vote_bitmap :
    (b : ServiceBit) (on : Bool) (d : Devices)
    → mm_service_vote b on (bitmap d) ≡ bitmap (set_device b on d)
vote_bitmap b on d = vote_bitmap_of b on d.camera d.audio d.lcd

vote_if-bitmap :
    (ret : ℕ) (b : ServiceBit) (on : Bool) (s : State) (d : Devices)
    → s.mm_status ≡ bitmap d
    → (vote_if ret b on s).mm_status ≡ bitmap (if ret == 0 then set_device b on d else d)
vote_if-bitmap ret b on s d h = elim (Bool-cases (ret == 0)) [
  | inl e ↦ rw (e, h) (vote_bitmap b on d)
  | inr e ↦ rw e h
]

same-if : {A : Type 0} (b : Bool) (d : A) → d ≡ (if b then d else d)
same-if b d = ground arith

dispatch-bitmap :
    (op : Opcode) (cmd : ℕ → ℕ) (r : Results) (s : State) (d : Devices)
    → s.mm_status ≡ bitmap d
    → (dispatch op cmd r s).0.mm_status ≡ bitmap (if r.ret == 0 then switched op d else d)
unfolding dispatch
dispatch-bitmap set_camera_turn_on cmd r s d h = vote_if-bitmap r.ret camera_bit true s d h
dispatch-bitmap set_camera_turn_off cmd r s d h = vote_if-bitmap r.ret camera_bit false s d h
dispatch-bitmap set_audio_turn_on cmd r s d h = vote_if-bitmap r.ret audio_bit true s d h
dispatch-bitmap set_audio_turn_off cmd r s d h = vote_if-bitmap r.ret audio_bit false s d h
dispatch-bitmap set_lcd_turn_on cmd r s d h = vote_if-bitmap r.ret lcd_bit true s d h
dispatch-bitmap set_lcd_turn_off cmd r s d h = vote_if-bitmap r.ret lcd_bit false s d h
dispatch-bitmap _ cmd r s d h = h ∙ ap bitmap (same-if (r.ret == 0) d)

pub arrival-bitmap :
    (a : Arrival) (s : State) (d : Devices)
    → s.mm_status ≡ bitmap d
    → (cmd_recive_callback a.cmd a.length a.results s).0.mm_status ≡ bitmap (after a d)
unfolding cmd_recive_callback
arrival-bitmap a s d h =
    let step = dispatch-bitmap (opcode_of (get32 a.cmd 0)) a.cmd a.results s d h in
    elim (Bool-cases (ltb a.length 10)) [
      | inl e ↦ rw e h
      | inr e ↦ elim (Bool-cases (a.results.ret == 0)) [
        | inl k ↦ rw (e, k) (rw k at step)
        | inr k ↦ rw (e, k) (rw k at step)
      ]
    ]

run-bitmap :
    (as' : List Arrival) (s : State) (d : Devices)
    → s.mm_status ≡ bitmap d
    → (run as' s).0.mm_status ≡ bitmap (devices_after as' d)
unfolding run
run-bitmap [] s d h = h
run-bitmap (a ∷ as') s d h =
    run-bitmap as' (cmd_recive_callback a.cmd a.length a.results s).0 (after a d)
      (arrival-bitmap a s d h)

-- After any commands since start-up the status that the keepalive timer reads has exactly the bits of the
-- devices that are on: bit 0 for the camera, bit 1 for the audio and bit 2 for the display, where a device
-- is on after a turn-on command whose call succeeded until a turn-off command whose call succeeded.
pub mm_status_follows :
    (as' : List Arrival) → (run as' boot).0.mm_status ≡ bitmap (devices_after as' all_off)
unfolding boot
mm_status_follows as' = run-bitmap as' boot all_off refl

bitmap-off : (d : Devices) → (bitmap d == 0) ≡ not (d.camera || d.audio || d.lcd)
bitmap-off d = ground arith
