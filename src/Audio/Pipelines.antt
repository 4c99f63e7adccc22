-- ===== src/Audio/Pipelines.antt =====
-- The voice pipelines that exist, against the handles to them.
use bk_solution_doorbell.Base.{
  All, ℕ, ◌+◌, ◌-◌, ◌≡◌, ◌≢◌, refl, sym, ap, ◌∙◌, Bool, true, false, not, ◌&&◌, ◌||◌, Option, none,
  List, [], ◌∷◌, ◌++◌, arith, if◌then◌else◌,
}
use bk_solution_doorbell.Command.{AudioParameters}
use bk_solution_doorbell.Audio.Config.{VoiceCfg, voice_cfg}
use bk_solution_doorbell.Audio.{
  Info, zeroed, Action, voice_init, read_init, write_init, read_deinit, write_deinit, voice_deinit,
  Calls, take_down, audio_turn_off, start_all, make_all, turn_on_with, audio_turn_on,
}

-- How many of each exist.
pub record Pipelines : Type 0 where
  pub voices : ℕ
  pub readers : ℕ
  pub writers : ℕ

abbrev pub apply : Action → Pipelines → Pipelines
apply (voice_init _ true) n = record n { voices = n.voices + 1 }
apply (read_init true) n = record n { readers = n.readers + 1 }
apply (write_init true) n = record n { writers = n.writers + 1 }
apply voice_deinit n = record n { voices = n.voices - 1 }
apply read_deinit n = record n { readers = n.readers - 1 }
apply write_deinit n = record n { writers = n.writers - 1 }
apply _ n = n

abbrev pub after : List Action → Pipelines → Pipelines
after [] n = n
after (a ∷ acts) n = after acts (apply a n)

-- The audio is on with all its pipelines, or off with none.
abbrev pub level : Bool → Info
level b = record {
  audio_enable = b;
  voice_handle = b;
  voice_read_handle = b;
  voice_write_handle = b;
}

abbrev pub count : Bool → ℕ
count b = if b then 1 else 0

abbrev pub owned : Bool → Pipelines
owned b = record { voices = count b; readers = count b; writers = count b }

turn_on-level :
    (o : Option VoiceCfg) (c : Calls)
    → c.service ≢ none
    → let (ret, i, acts) = turn_on_with o c (level false) in
      (i ≡ level ret) × (after acts (owned false) ≡ owned ret)
unfolding turn_on_with make_all start_all take_down
turn_on-level o c h = ground arith

turn_off-level :
    (c : Calls)
    → c.service ≢ none
    → let (ret, i, acts) = audio_turn_off c (level true) in
      (i ≡ level (not ret)) × (after acts (owned true) ≡ owned (not ret))
unfolding audio_turn_off take_down
turn_off-level c h = ground arith

turn_on_again :
    (p : AudioParameters) (c : Calls) → audio_turn_on p c (level true) ≡ (false, level true, [])
unfolding audio_turn_on
turn_on_again p c = refl

turn_off_again : (c : Calls) → audio_turn_off c (level false) ≡ (false, level false, [])
unfolding audio_turn_off
turn_off_again c = refl

-- A call for the audio, with what its own calls return.
pub data Op : Type 0 where
  turn_on : AudioParameters → Calls → Op
  turn_off : Calls → Op

abbrev pub HasService : Op → Type 0
HasService (turn_on p c) = c.service ≢ none
HasService (turn_off c) = c.service ≢ none

abbrev pub perform : Op → Info → Bool × Info × List Action
perform (turn_on p c) i = audio_turn_on p c i
perform (turn_off c) i = audio_turn_off c i

-- Whether the audio is on after a call that returned `ret`.
abbrev pub is_on : Op → (ret was : Bool) → Bool
is_on (turn_on p c) ret was = was || ret
is_on (turn_off c) ret was = was && not ret

perform-level :
    (op : Op) (b : Bool)
    → HasService op
    → let (ret, i, acts) = perform op (level b) in
      (i ≡ level (is_on op ret b)) × (after acts (owned b) ≡ owned (is_on op ret b))
unfolding audio_turn_on audio_turn_off
perform-level (turn_on p c) true h = (refl, refl)
perform-level (turn_on p c) false h = turn_on-level (voice_cfg p) c h
perform-level (turn_off c) true h = turn_off-level c h
perform-level (turn_off c) false h = (refl, refl)

-- Some calls, and whether the audio is on after them.
unfoldable pub run : List Op → Info → Info × List Action
unfolding audio_turn_on audio_turn_off
run [] i = (i, [])
run (op ∷ ops) i =
    let (_, i1, acts) = perform op i in let (i2, rest) = run ops i1 in (i2, acts ++ rest)

after-append : (xs ys : List Action) (n : Pipelines) → after (xs ++ ys) n ≡ after ys (after xs n)
after-append [] ys n = refl
after-append (x ∷ xs) ys n = after-append xs ys (apply x n)

run-level :
    (ops : List Op) (b : Bool)
    → All HasService ops
    → let (i, acts) = run ops (level b) in
      (b' : Bool) × ((i ≡ level b') × (after acts (owned b) ≡ owned b'))
unfolding run
run-level [] b h = (b, (refl, refl))
run-level (op ∷ ops) b h =
    let (ret, i1, acts) = perform op (level b) in
    let first = perform-level op b h.0 in
    let (b2, (e, k)) = run-level ops (is_on op ret b) h.1 in
    (b2, (rw first.0 e, after-append acts (run ops i1).1 (owned b) ∙ rw (first.1, first.0) k))

-- While the network transfer has a service at each call, after any calls that turn the audio on or off, whatever
-- fails in them, either `audio_enable` is set and there is exactly one of each voice pipeline, with its handle, or it is not set and
-- there is none.
pub run-owned :
    (ops : List Op) (b : Bool)
    → All HasService ops
    → let (i, acts) = run ops (level b) in
      (i ≡ level i.audio_enable) × (after acts (owned b) ≡ owned i.audio_enable)
run-owned ops b h =
    let (b', (e, k)) = run-level ops b h in
    let on : (run ops (level b)).0.audio_enable ≡ b' = ap (λ (i : Info). i.audio_enable) e in
    (e ∙ ap level (sym on), k ∙ ap owned (sym on))

-- Turning the audio off while the network transfer has no service keeps the pipelines, and a later turn-on that
-- succeeds makes new ones over the handles: two of each exist, and turning off deletes one.
pub no_service_leaks :
    (p : AudioParameters) (off on off' : Calls)
    → off.service ≡ none
    → on.service ≢ none
    → off'.service ≢ none
    → (audio_turn_on p on zeroed).0 ≡ true
    → let (r1, i1, a1) = audio_turn_off off (level true) in
      let (r2, i2, a2) = audio_turn_on p on i1 in
      let (r3, i3, a3) = audio_turn_off off' i2 in
      (r1 ≡ false)
      × (r2 ≡ true)
      × (r3 ≡ true)
      × (i3 ≡ zeroed)
      × (after (a1 ++ (a2 ++ a3)) (owned true) ≡ owned true)
unfolding audio_turn_off audio_turn_on turn_on_with make_all start_all take_down
no_service_leaks p off on off' h k l m = ground arith
