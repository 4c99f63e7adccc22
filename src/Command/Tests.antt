-- ===== src/Command/Tests.antt =====
-- Commands of one remote device.
use bk_solution_doorbell.Base.{
  ℕ, ◌≡◌, refl, true, none, List, [], ◌∷◌, arith, get_or, ltb, if◌then◌else◌,
}
use bk_solution_doorbell.Command.{Results, boot, opcode_of}
use bk_solution_doorbell.Command.Handler.{Arrival, get32, cmd_recive_callback, mm_service_vote, run}
use bk_solution_doorbell.Command.Reply.{sends, answer, answer_bytes, cmd_recive_callback_answers}
use bk_solution_doorbell.Command.Votes.{all_off, bitmap, devices_after, mm_status_follows}
use bk_solution_doorbell.Command.Timer.{wanted_after, AllSucceed, timer_follows, set_ups, removals}
use bk_solution_doorbell.Command.SdkTimers.{timers_after, running_periods, wanted_periods}
use bk_solution_doorbell.Command.Leak.{rounds, rounds_leak}

abbrev fine : Results
fine = record { ret = 0; alloc = true; init = true; start = true; stop = true; deinit = true }

-- A command with an opcode and a parameter below 256 and no payload.
abbrev bytes : (opcode param : ℕ) → ℕ → ℕ
bytes opcode param i = get_or (opcode ∷ 0 ∷ 0 ∷ 0 ∷ param ∷ []) i 0

abbrev arrival : (opcode param : ℕ) → Arrival
arrival opcode param = record { cmd = bytes opcode param; length = 10; results = fine }

abbrev some_commands : List Arrival
some_commands = arrival 7 0 ∷ arrival 10 0 ∷ arrival 2 5 ∷ arrival 8 0 ∷ []

abbrev timer_commands : List Arrival
timer_commands = arrival 2 5 ∷ arrival 2 0 ∷ arrival 2 7 ∷ arrival 2 9 ∷ []

some_status : (run some_commands boot).0.mm_status ≡ 2
unfolding run boot mm_service_vote
some_status = refl

unknown_sends :
    sends (cmd_recive_callback (bytes 99 0) 10 fine boot).1
    ≡ (99 ∷ 0 ∷ 0 ∷ 0 ∷ 12 ∷ 0 ∷ 0 ∷ 0 ∷ 0 ∷ []) ∷ []
unfolding cmd_recive_callback boot
unknown_sends = refl

cmd_recive_callback_answers_example :
    sends (cmd_recive_callback (bytes 7 1) 10 fine boot).1
    ≡ answer_bytes
        (bytes 7 1)
        (if ltb 10 10 then none else answer (opcode_of (get32 (bytes 7 1) 0)) (bytes 7 1) fine.ret)
cmd_recive_callback_answers_example = cmd_recive_callback_answers (bytes 7 1) 10 fine boot

mm_status_follows_example :
    (run some_commands boot).0.mm_status ≡ bitmap (devices_after some_commands all_off)
mm_status_follows_example = mm_status_follows some_commands

fine_succeeds : AllSucceed fine
fine_succeeds = (refl, refl, refl, refl, refl)

timer_follows_example :
    let (s, acts) = run timer_commands boot in
    (s.info ≡ wanted_after timer_commands none)
    × (running_periods (timers_after acts []) ≡ wanted_periods (wanted_after timer_commands none))
timer_follows_example =
    timer_follows timer_commands
      (fine_succeeds, (fine_succeeds, (fine_succeeds, (fine_succeeds, tt))))

rounds_leak_example :
    let r = run (rounds 3 (arrival 2 5) (arrival 2 0)) boot in
    (r.0.info ≡ none) × (set_ups r.1 ≡ 3) × (removals r.1 ≡ 0)
unfolding boot
rounds_leak_example =
    rounds_leak 3 5 (arrival 2 5) (arrival 2 0) boot (λ e. omega (arith, e)) (refl, refl, refl)
      (refl, refl, refl) fine_succeeds refl
