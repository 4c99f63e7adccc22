-- ===== src/YuvDisplay/Task.antt =====
-- components/smart_lock/src/yuv_display/yuv_display.c: yuv_display_task_main and what it calls.
pub mod Frames
use bk_solution_doorbell.Base.{
  ℕ, Bool, true, false, Option, none, some, List, [], ◌∷◌, ◌++◌, if◌then◌else◌,
}
use bk_solution_doorbell.YuvDisplay.{Yuv, rotates}

-- `rotate_output_frame`, and the thread's `processing_frame`.
pub record Task : Type 0 where
  pub rotate_output_frame : Option ℕ
  pub processing_frame : Option ℕ

unfoldable pub started : Task
started = record { rotate_output_frame = none; processing_frame = none }

-- What the thread does with frames: those of the frame queue, which it gets, releases or hands to the display,
-- and those that the rotation writes to. A display that takes a frame frees it itself, later.
pub data Effect : Type 0 where
  get_frame release_frame : (frame : ℕ) → Effect
  flush : (frame : ℕ) → Bool → Effect
  display_malloc : Option ℕ → Effect
  flush_rotated : (frame : ℕ) → Bool → Effect
  display_free : (frame : ℕ) → Effect
  config_rott enable_rott : Bool → Effect

-- One round of the loop: what was popped from the queue, the frame that the frame queue gives
-- if it is asked, and what the other calls return.
pub data Event : Type 0 where
  stop frame_ready no_message : Event

pub record Round : Type 0 where
  pub popped : Event
  pub frame : Option ℕ
  pub malloc : Option ℕ
  pub config : Bool
  pub enable : Bool
  pub flush : Bool
  pub flush_rotated : Bool

-- The rotation of a frame, with an output frame.
abbrev pub start_rotation : Round → Bool × List Effect
start_rotation r =
    if r.config
    then (r.enable, config_rott true ∷ enable_rott r.enable ∷ [])
    else (false, config_rott false ∷ [])

-- The case of yuv_display_process_frame that rotates: the result, and the output frame.
unfoldable pub process_rotated : Round → (output : Option ℕ) → Bool × Option ℕ × List Effect
process_rotated r (some out) = let (ok, es) = start_rotation r in (ok, some out, es)
process_rotated r none = elim r.malloc [
  | none ↦ (false, none, display_malloc none ∷ [])
  | some out ↦ let (ok, es) = start_rotation r in (ok, some out, display_malloc (some out) ∷ es)
]

-- yuv_display_process_frame for a frame.
unfoldable pub process_frame :
    Yuv → Round → (frame : ℕ) → (output : Option ℕ) → Bool × Option ℕ × List Effect
unfolding rotates process_rotated
process_frame y r frame output =
    if rotates y
    then process_rotated r output
    else if y.display_handle
    then (if r.flush
        then (true, output, flush frame true ∷ [])
        else (false, output, flush frame false ∷ release_frame frame ∷ []))
    else (true, output, release_frame frame ∷ [])

abbrev pub release_if : Option ℕ → List Effect
release_if none = []
release_if (some frame) = release_frame frame ∷ []

-- yuv_display_rotation_complete: the new output frame.
unfoldable pub rotation_complete :
    Yuv → Round → (src : Option ℕ) → (output : Option ℕ) → Option ℕ × List Effect
rotation_complete y r src none = (none, [])
rotation_complete y r src (some out) = (
  none,
  release_if src
      ++ (if y.display_handle
          then flush_rotated out r.flush_rotated
            ∷ (if r.flush_rotated then [] else display_free out ∷ [])
          else display_free out ∷ []),
)

-- The switch over the message, for one that does not stop the loop.
unfoldable pub on_message : Yuv → Round → Task → Task × List Effect
unfolding rotation_complete
on_message y r t = elim r.popped [
  | frame_ready ↦
      let (out, es) = rotation_complete y r t.processing_frame t.rotate_output_frame in
      (record { rotate_output_frame = out; processing_frame = none }, es)
  | stop ↦ (t, [])
  | no_message ↦ (t, [])
]

-- A frame that the frame queue gave.
unfoldable pub take_frame : Yuv → Round → (frame : ℕ) → (output : Option ℕ) → Task × List Effect
unfolding process_frame rotates
take_frame y r frame output =
    let (ok, out, es) = process_frame y r frame output in
    if ok
    then (
      record {
        rotate_output_frame = out;
        processing_frame = if rotates y then some frame else none;
      },
      get_frame frame ∷ es,
    )
    else (
      record { rotate_output_frame = out; processing_frame = none },
      get_frame frame ∷ (es ++ (release_frame frame ∷ [])),
    )

-- The part of a round that looks for a new frame.
unfoldable pub next_frame : Yuv → Round → Task → Task × List Effect
unfolding take_frame
next_frame y r t = elim t.processing_frame [
  | some frame ↦ (t, [])
  | none ↦ elim r.frame [ none ↦ (t, []) | some frame ↦ take_frame y r frame t.rotate_output_frame ]
]

-- What follows the label `exit`.
unfoldable pub task_exit : Task → Task × List Effect
unfolding started
task_exit t = (
  started,
  release_if t.processing_frame
      ++ elim t.rotate_output_frame [ none ↦ [] | some out ↦ display_free out ∷ [] ],
)

-- One round; `false` leaves the loop.
unfoldable pub task_round : Yuv → Round → Task → Bool × Task × List Effect
unfolding on_message next_frame
task_round y r t = elim r.popped [
  | stop ↦ (false, t, [])
  | frame_ready ↦
      let (t1, es1) = on_message y r t in
      let (t2, es2) = next_frame y r t1 in (true, t2, es1 ++ es2)
  | no_message ↦
      let (t1, es1) = on_message y r t in
      let (t2, es2) = next_frame y r t1 in (true, t2, es1 ++ es2)
]

-- yuv_display_task_main over some rounds, up to a stop message.
unfoldable pub task_main : Yuv → List Round → Task → Task × List Effect
unfolding task_round task_exit
task_main y [] t = (t, [])
task_main y (r ∷ rs) t =
    let (go, t', es) = task_round y r t in
    let (t'', es') = task_main y rs t' in
    let (t_end, es_end) = task_exit t' in if go then (t'', es ++ es') else (t_end, es ++ es_end)
