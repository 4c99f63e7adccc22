-- ===== src/ApKeepalive/Tests.antt =====
-- A sleep, a wake-up and a wrong flash on the multimedia side.
use bk_solution_doorbell.Base.{
  ℕ, ◌+◌, ◌-◌, ◌*◌, ◌≤◌, ◌≡◌, refl, true, none, some, List, [], ◌∷◌, All,
}
use bk_solution_doorbell.Message.{lan_tcp}
use bk_solution_doorbell.ApKeepalive.{ℤ, pos, boot, TimerResults, interval_word}
use bk_solution_doorbell.ApKeepalive.Calls.{
  NetInfo, Call, ticks, starts_check, service_stops, types, run,
}
use bk_solution_doorbell.ApKeepalive.Interval.{InRange, TimerInRange, boot-InRange}
use bk_solution_doorbell.ApKeepalive.Takeover.{
  takeovers, idle_ticks, one_if, takeovers-idle_ticks, Tick,
}

-- The digits of a number, without a sign or spaces.
abbrev number : ℕ → List ℕ → ℕ
number n [] = n
number n (d ∷ ds) = number (n * 10 + (d - 48)) ds

abbrev to_int : List ℕ → ℤ
to_int text = pos (number 0 text)

abbrev fine : TimerResults
fine = record { init = true; start = true; stop = true; deinit = true }

abbrev server : NetInfo
server = record { ip_addr = 49 ∷ []; cmd_port = 56 ∷ [] }

-- "ka interval 9", below the minimum.
abbrev short : List (List ℕ)
short = (107 ∷ 97 ∷ []) ∷ interval_word ∷ (57 ∷ []) ∷ []

abbrev sleeps : List Call
sleeps =
    starts_check none fine
    ∷ types short fine
    ∷ ticks 0 5000 (some lan_tcp) true
    ∷ ticks 0 6000 (some lan_tcp) true
    ∷ service_stops (some server) true fine
    ∷ []

sleeps-interval : (run to_int sleeps boot).0.interval_ms ≡ 1000
unfolding run boot
sleeps-interval = refl

sleeps-takeovers : takeovers (run to_int sleeps boot).1 ≡ 1
unfolding run boot
sleeps-takeovers = refl

boot-InRange_example :
    InRange (run to_int sleeps boot).0.interval_ms × All TimerInRange (run to_int sleeps boot).1
boot-InRange_example = boot-InRange to_int sleeps

takeovers-idle_ticks_example :
    takeovers (run to_int sleeps boot).1 + one_if (run to_int sleeps boot).0.pending_keepalive
    ≤ idle_ticks sleeps + one_if boot.pending_keepalive
takeovers-idle_ticks_example = takeovers-idle_ticks to_int sleeps boot

abbrev later : List Tick
later = record { mm_status = 0; now = 9000; flash = some lan_tcp; posted = true } ∷ []
