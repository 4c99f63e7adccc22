-- ===== src/YuvDisplay/Task/Frames.antt =====
-- Where the frames of the display thread go.
use bk_solution_doorbell.Base.{
  ℕ, ◌+◌, ◌≡◌, refl, Bool, true, false, Option, none, some, List, [], ◌∷◌, ◌++◌, ◌==◌, arith,
  if◌then◌else◌,
}
use bk_solution_doorbell.YuvDisplay.{Yuv, rotates}
use bk_solution_doorbell.YuvDisplay.Task.{
  Task, started, Effect, get_frame, release_frame, flush, Round, process_rotated, process_frame,
  rotation_complete, on_message, take_frame, next_frame, task_exit, task_round, task_main,
}

abbrev one_if : Bool → ℕ
one_if b = if b then 1 else 0

-- How often a frame was got, and how often it was given away: released or taken by the display.
abbrev pub gets : (frame : ℕ) → List Effect → ℕ
gets f [] = 0
gets f (get_frame g ∷ es) = one_if (g == f) + gets f es
gets f (_ ∷ es) = gets f es

abbrev pub gives : (frame : ℕ) → List Effect → ℕ
gives f [] = 0
gives f (release_frame g ∷ es) = one_if (g == f) + gives f es
gives f (flush g true ∷ es) = one_if (g == f) + gives f es
gives f (_ ∷ es) = gives f es

-- How often the display refused it.
abbrev pub refusals : (frame : ℕ) → List Effect → ℕ
refusals f [] = 0
refusals f (flush g false ∷ es) = one_if (g == f) + refusals f es
refusals f (_ ∷ es) = refusals f es

abbrev pub held : (frame : ℕ) → Option ℕ → ℕ
held f none = 0
held f (some g) = one_if (g == f)

gets-append : (f : ℕ) (xs ys : List Effect) → gets f (xs ++ ys) ≡ gets f xs + gets f ys
gets-append f [] ys = omega arith
gets-append f (x ∷ xs) ys = ground (arith, gets-append f xs ys)

gives-append : (f : ℕ) (xs ys : List Effect) → gives f (xs ++ ys) ≡ gives f xs + gives f ys
gives-append f [] ys = omega arith
gives-append f (x ∷ xs) ys = ground (arith, gives-append f xs ys)

refusals-append :
    (f : ℕ) (xs ys : List Effect) → refusals f (xs ++ ys) ≡ refusals f xs + refusals f ys
refusals-append f [] ys = omega arith
refusals-append f (x ∷ xs) ys = ground (arith, refusals-append f xs ys)

-- A frame that waits for its rotation has an output frame.
abbrev pub HasOutput : Task → Type 0
HasOutput t = t.rotate_output_frame ≡ none → t.processing_frame ≡ none

-- What is given away and what is held after some effects, against what was held and got.
abbrev pub Moves : (f : ℕ) → (before : Task) → (after : Task) → List Effect → Type 0
Moves f t t' es =
    gives f es + held f t'.processing_frame ≡ held f t.processing_frame + gets f es + refusals f es

on_message-Moves :
    (f : ℕ) (y : Yuv) (r : Round) (t : Task)
    → HasOutput t
    → let (t', es) = on_message y r t in Moves f t t' es × HasOutput t'
unfolding on_message rotation_complete
on_message-Moves f y r t h = ground arith

take_frame-Moves :
    (f : ℕ) (y : Yuv) (r : Round) (frame : ℕ) (t : Task)
    → t.processing_frame ≡ none
    → let (t', es) = take_frame y r frame t.rotate_output_frame in Moves f t t' es × HasOutput t'
unfolding take_frame process_frame process_rotated rotates
take_frame-Moves f y r frame t h = ground arith

next_frame-Moves :
    (f : ℕ) (y : Yuv) (r : Round) (t : Task)
    → HasOutput t
    → let (t', es) = next_frame y r t in Moves f t t' es × HasOutput t'
unfolding next_frame
next_frame-Moves f y r t h = ground (arith, λ (frame : ℕ). take_frame-Moves f y r frame t)

Moves-append :
    (f : ℕ) (a b c : Task) (xs ys : List Effect)
    → Moves f a b xs
    → Moves f b c ys
    → Moves f a c (xs ++ ys)
Moves-append f a b c xs ys h k =
    omega (arith, gets-append f xs ys, gives-append f xs ys, refusals-append f xs ys, h, k)

round_parts :
    (f : ℕ) (y : Yuv) (r : Round) (t : Task)
    → HasOutput t
    → let (t1, es1) = on_message y r t in
      let (t2, es2) = next_frame y r t1 in Moves f t t2 (es1 ++ es2) × HasOutput t2
round_parts f y r t h =
    let (t1, es1) = on_message y r t in
    let (t2, es2) = next_frame y r t1 in
    let first = on_message-Moves f y r t h in
    let second = next_frame-Moves f y r t1 first.1 in
    (Moves-append f t t1 t2 es1 es2 first.0 second.0, second.1)

round-Moves :
    (f : ℕ) (y : Yuv) (r : Round) (t : Task)
    → HasOutput t
    → let (_, t', es) = task_round y r t in Moves f t t' es × HasOutput t'
unfolding task_round
round-Moves f y r t h = ground (arith, round_parts f y r t h)

exit-Moves : (f : ℕ) (t : Task) → let (t', es) = task_exit t in Moves f t t' es × HasOutput t'
unfolding task_exit started
exit-Moves f t = ground arith

main-Moves :
    (f : ℕ) (y : Yuv) (rs : List Round) (t : Task)
    → HasOutput t
    → let (t', es) = task_main y rs t in Moves f t t' es
unfolding task_main
main-Moves f y [] t h = omega arith
main-Moves f y (r ∷ rs) t h =
    let (go, t1, es1) = task_round y r t in
    let (t2, es2) = task_main y rs t1 in
    let (t3, es3) = task_exit t1 in
    let first = round-Moves f y r t h in
    ground (
      arith,
      Moves-append f t t1 t2 es1 es2 first.0 (main-Moves f y rs t1 first.1),
      Moves-append f t t1 t3 es1 es3 first.0 (exit-Moves f t1).0,
    )

-- Whatever is popped, got and returned in the rounds of the display thread, the releases of a frame and the
-- flushes of it that the display accepts, and the frame if it waits for its rotation, are as many as the times
-- that the thread got it and the flushes of it that the display refused: a refused frame is released twice, any
-- other frame once.
pub task_main-Moves :
    (frame : ℕ) (y : Yuv) (rs : List Round)
    → let (t, es) = task_main y rs started in
      gives frame es + held frame t.processing_frame ≡ gets frame es + refusals frame es
unfolding started
task_main-Moves frame y rs = omega (arith, main-Moves frame y rs started (λ h. refl))
