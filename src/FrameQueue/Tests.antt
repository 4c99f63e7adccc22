-- ===== src/FrameQueue/Tests.antt =====
-- A queue in use, and the theorems at it.
use bk_solution_doorbell.Base.{
  ℕ, ◌+◌, ◌≡◌, inl, inr, refl, true, false, Option, none, some, List, [], ◌∷◌, arith, ◌==◌,
  if◌then◌else◌,
}
use bk_solution_doorbell.FrameQueue.Node.{
  mjpeg, yuv, Pool, encode, display, bk_ok, bk_fail, consumer_idx, wants,
}
use bk_solution_doorbell.FrameQueue.Queue.{ConsumerInfo, Queue, no_consumer, cleared}
use bk_solution_doorbell.FrameQueue.Producer.{FrameHeader, blank_header, complete}
use bk_solution_doorbell.FrameQueue.Consumer.{
  returned, get_frame, release_frame, unregister_consumer,
}
use bk_solution_doorbell.FrameQueue.Admin.{frame_count, init}
use bk_solution_doorbell.FrameQueue.State.{
  State, Call, mallocs, completes, cancels, gets, releases, clears, step,
}
use bk_solution_doorbell.FrameQueue.Mailbox.{pending}
use bk_solution_doorbell.FrameQueue.Mailbox.Delivery.{
  get_delivers, complete_delivers, release_delivers, unregister_others,
}
use bk_solution_doorbell.FrameQueue.Buffers.{returns, stake}
use bk_solution_doorbell.FrameQueue.Buffers.Ledger.{
  HasFormats, held, run, run_balances, obtained_along,
}
use bk_solution_doorbell.FrameQueue.Buffers.Exclusive.{IsExclusive, run-IsExclusive}
use bk_solution_doorbell.FrameQueue.Invariant.{IsValid, IsCountable, step-IsValid}
use bk_solution_doorbell.FrameQueue.Setup.{init_again}

-- Two consumers; one free node, one that the producer holds, one frame that consumer 1 holds and
-- consumer 2 has not seen, and one frame that nobody has seen.
abbrev first_consumer : ConsumerInfo
first_consumer = record { consumer_id = 1; get_count = 1; release_count = 0; enabled = true }

abbrev second_consumer : ConsumerInfo
second_consumer = record { consumer_id = 2; get_count = 0; release_count = 0; enabled = true }

abbrev sample : Queue
sample = record {
  count = 4;
  format = mjpeg;
  free_list =
      record {
        addr = 1;
        frame = none;
        ref_count = 0;
        consumer_mask = 0;
        accessed_mask = 0;
        timestamp = 0;
        create_time = 0;
        in_use = false;
      }
      ∷ record {
        addr = 2;
        frame = some 200;
        ref_count = 0;
        consumer_mask = 0;
        accessed_mask = 0;
        timestamp = 5;
        create_time = 0;
        in_use = true;
      }
      ∷ [];
  ready_list =
      record {
        addr = 3;
        frame = some 300;
        ref_count = 1;
        consumer_mask = 3;
        accessed_mask = 1;
        timestamp = 3;
        create_time = 0;
        in_use = false;
      }
      ∷ record {
        addr = 4;
        frame = some 400;
        ref_count = 0;
        consumer_mask = 3;
        accessed_mask = 0;
        timestamp = 4;
        create_time = 0;
        in_use = false;
      }
      ∷ [];
  active_consumers = 3;
  consumers =
      first_consumer ∷ second_consumer ∷ no_consumer ∷ no_consumer ∷ no_consumer ∷ no_consumer
      ∷ no_consumer ∷ no_consumer ∷ [];
  signals = 2;
  total_malloc = 3;
  total_complete = 2;
  total_free = 0;
}

abbrev in_use : State
in_use = record { queue = λ i. if i == 0 then sample else cleared mjpeg; freed = [] }

get_delivers_example :
    let (out, q', freed) = get_frame 1 none 0 [] sample in
    let (out0, q0, freed0) = get_frame 1 (some 0) 0 [] sample in
    (out ≡ returned (some 400))
    × (pending 1 q'.ready_list ≡ [])
    × (out0 ≡ returned (some 400))
    × (pending 1 q0.ready_list ≡ [])
unfolding consumer_idx wants
get_delivers_example = get_delivers 1 0 0 none [] sample refl refl

abbrev header : FrameHeader
header = blank_header

complete_delivers_example :
    pending 2 (complete (some 200) header 7 8 sample).1.ready_list
    ≡ some 300 ∷ some 400 ∷ some 200 ∷ []
unfolding complete wants
complete_delivers_example = complete_delivers 2 200 header 7 8 sample refl

release_delivers_example :
    pending 2 (release_frame mjpeg 1 (some 300) sample).1.ready_list ≡ some 300 ∷ some 400 ∷ []
unfolding wants
release_delivers_example = release_delivers 2 mjpeg 1 (some 300) sample

unregister_others_example :
    pending 2 (unregister_consumer 1 sample).1.ready_list ≡ some 300 ∷ some 400 ∷ []
unfolding wants
unregister_others_example = unregister_others 1 2 sample (omega arith) (omega arith) refl

in_use-HasFormats : HasFormats in_use
unfolding cleared
in_use-HasFormats = record {
  first = λ _. refl;
  second = λ h. absurd (h refl);
  third = λ h. absurd (h refl);
}

abbrev calls : List Call
calls =
    gets mjpeg 2
    ∷ mallocs mjpeg (some 500) 9
    ∷ releases mjpeg 2 (some 300)
    ∷ releases mjpeg 1 (some 300)
    ∷ completes mjpeg (some 500) header 10 11
    ∷ cancels mjpeg (some 200)
    ∷ clears
    ∷ []

run_balances_example :
    held encode 500 (run calls in_use) + returns encode 500 (run calls in_use).freed
    ≡ held encode 500 in_use
      + returns encode 500 in_use.freed
      + obtained_along encode 500 calls in_use
run_balances_example = run_balances encode 500 calls in_use in_use-HasFormats

abbrev few : List Call
few =
    mallocs mjpeg (some 500) 9
    ∷ gets mjpeg 2
    ∷ releases mjpeg 2 (some 300)
    ∷ cancels mjpeg (some 200)
    ∷ []

in_use-IsExclusive : IsExclusive in_use
unfolding stake cleared
in_use-IsExclusive encode b = ground arith
in_use-IsExclusive display b = omega arith

new_buffer : (p : Pool) → held p 500 in_use ≡ 0
unfolding stake cleared
new_buffer encode = refl
new_buffer display = refl

run-IsExclusive_example : IsExclusive (run few in_use)
run-IsExclusive_example =
    run-IsExclusive few in_use in_use-HasFormats (new_buffer, (tt, (tt, (tt, tt))))
      in_use-IsExclusive

sample-IsCountable : IsCountable sample
sample-IsCountable = (omega arith, (omega arith, tt))

sample-IsValid : IsValid sample
sample-IsValid = record {
  idle = (
    record { unreferenced = refl; filled = inl refl },
    (record { unreferenced = refl; filled = inr refl }, tt),
  );
  ready = (
    record { finished = refl; framed = refl; live = refl },
    (record { finished = refl; framed = refl; live = refl }, tt),
  );
}

step-IsValid_example : IsValid ((step (releases mjpeg 1 (some 300)) in_use).queue 0)
step-IsValid_example =
    step-IsValid (releases mjpeg 1 (some 300)) in_use 0 sample-IsCountable sample-IsValid

abbrev addresses : ℕ → Option ℕ
addresses i = some (100 + i)

init_again_example :
    let (status, q') = init yuv bk_fail addresses 9 (cleared mjpeg) in
    (status ≡ bk_fail)
    × (q'.free_list ≡ [])
    × (q'.ready_list ≡ [])
    × (init yuv bk_ok addresses 10 q' ≡ (bk_ok, q'))
unfolding cleared frame_count
init_again_example =
    init_again yuv bk_fail addresses addresses 9 10 (cleared mjpeg) bk_ok refl (λ e. cc e)
      (λ e. omega (arith, e))
