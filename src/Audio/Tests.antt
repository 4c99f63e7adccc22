-- ===== src/Audio/Tests.antt =====
-- The audio, on and off.
use bk_solution_doorbell.Base.{ℕ, ◌≡◌, refl, Bool, true, false, some, List, [], ◌∷◌}
use bk_solution_doorbell.Command.{AudioParameters}
use bk_solution_doorbell.Audio.Config.{voice_cfg}
use bk_solution_doorbell.Audio.Format.{Suits, voice_cfg-Suits}
use bk_solution_doorbell.Audio.{Calls}
use bk_solution_doorbell.Audio.Pipelines.{
  Op, turn_on, turn_off, run, level, owned, after, run-owned,
}

abbrev parameters : (fmt : ℕ) → AudioParameters
parameters fmt = record {
  aec = 1;
  uac = 0;
  rmt_recorder_sample_rate = 16000;
  rmt_player_sample_rate = 8000;
  rmt_recoder_fmt = fmt;
  rmt_player_fmt = 2;
}

abbrev calls : (read_init : Bool) → Calls
calls read_init = record {
  voice_init = true;
  read_init = read_init;
  write_init = true;
  voice_start = true;
  read_start = true;
  write_start = true;
  service = some true;
}

voice_cfg-Suits_example : Suits (parameters 1) (voice_cfg (parameters 1))
voice_cfg-Suits_example = voice_cfg-Suits (parameters 1)

abbrev some_calls : List Op
some_calls =
    turn_on (parameters 1) (calls false)
    ∷ turn_on (parameters 1) (calls true)
    ∷ turn_off (calls true)
    ∷ turn_on (parameters 2) (calls true)
    ∷ []

some_calls_on : (run some_calls (level false)).0 ≡ level true
unfolding run
some_calls_on = refl

run-owned_example :
    let (i, acts) = run some_calls (level false) in
    (i ≡ level i.audio_enable) × (after acts (owned false) ≡ owned i.audio_enable)
run-owned_example = run-owned some_calls false ((cc), ((cc), ((cc), ((cc), tt))))
