-- ===== src/Command/SdkTimers.antt =====
-- The timers of the SDK, as the calls of components/smart_lock/src/doorbell_cmd.c leave them.
use bk_solution_doorbell.Base.{
  ℕ, ◌≡◌, refl, Bool, true, false, Option, none, some, List, [], ◌∷◌, ◌++◌, if◌then◌else◌,
}
use bk_solution_doorbell.Command.{
  Action, init_timer, start_timer, stop_timer, deinit_timer, CmdInfo,
}

-- A timer of the SDK: its period, and whether it runs.
pub record SdkTimer : Type 0 where
  pub period : ℕ
  pub running : Bool

abbrev pub set_running : Bool → List SdkTimer → List SdkTimer
set_running b [] = []
set_running b (t ∷ ts) = record t { running = b } ∷ ts

abbrev pub removed : List SdkTimer → List SdkTimer
removed [] = []
removed (t ∷ ts) = ts

-- The timers of the SDK after some calls, the latest first. A new timer does not run yet, and the calls that start, stop and
-- remove are for the latest, which is the one in the structure; a call that fails changes nothing.
abbrev pub timers_after : List Action → List SdkTimer → List SdkTimer
timers_after [] ts = ts
timers_after (init_timer ms true ∷ acts) ts =
    timers_after acts (record { period = ms; running = false } ∷ ts)
timers_after (start_timer true ∷ acts) ts = timers_after acts (set_running true ts)
timers_after (stop_timer true ∷ acts) ts = timers_after acts (set_running false ts)
timers_after (deinit_timer true ∷ acts) ts = timers_after acts (removed ts)
timers_after (_ ∷ acts) ts = timers_after acts ts

-- The periods of the timers that run.
abbrev pub running_periods : List SdkTimer → List ℕ
running_periods [] = []
running_periods (t ∷ ts) = if t.running then t.period ∷ running_periods ts else running_periods ts

-- The period that a request asks for, if any.
abbrev pub wanted_periods : Option CmdInfo → List ℕ
wanted_periods none = []
wanted_periods (some i) = i.intval_ms ∷ []

pub timers_after-append :
    (xs ys : List Action) (ts : List SdkTimer)
    → timers_after (xs ++ ys) ts ≡ timers_after ys (timers_after xs ts)
timers_after-append [] ys ts = refl
timers_after-append (init_timer ms true ∷ xs) ys ts =
    timers_after-append xs ys (record { period = ms; running = false } ∷ ts)
timers_after-append (start_timer true ∷ xs) ys ts = timers_after-append xs ys (set_running true ts)
timers_after-append (stop_timer true ∷ xs) ys ts = timers_after-append xs ys (set_running false ts)
timers_after-append (deinit_timer true ∷ xs) ys ts = timers_after-append xs ys (removed ts)
timers_after-append (init_timer ms false ∷ xs) ys ts = timers_after-append xs ys ts
timers_after-append (start_timer false ∷ xs) ys ts = timers_after-append xs ys ts
timers_after-append (stop_timer false ∷ xs) ys ts = timers_after-append xs ys ts
timers_after-append (deinit_timer false ∷ xs) ys ts = timers_after-append xs ys ts
timers_after-append (_ ∷ xs) ys ts = timers_after-append xs ys ts

-- The structure and the timers agree: the latest timer is the one of the structure and runs with its period, and no other runs.
abbrev pub Matches : Option CmdInfo → List SdkTimer → Type 0
Matches none ts = running_periods ts ≡ []
Matches (some i) [] = ⊥
Matches (some i) (t ∷ ts) =
    (t.period ≡ i.intval_ms) × (t.running ≡ true) × (running_periods ts ≡ [])

pub Matches-wanted_periods :
    (info : Option CmdInfo) (ts : List SdkTimer)
    → Matches info ts
    → running_periods ts ≡ wanted_periods info
Matches-wanted_periods none ts h = h
Matches-wanted_periods (some i) [] h = elim h [ ]
Matches-wanted_periods (some i) (t ∷ ts) (h, k, l) = rw (k, h, l) refl
