-- ===== src/FrameQueue/Consumer.antt =====
-- The consumer's side: frame_queue_v2_register_consumer, frame_queue_v2_unregister_consumer,
-- frame_queue_v2_get_frame, frame_queue_v2_release_frame.
use bk_solution_doorbell.Base.{
  ℕ, ◌+◌, ◌-◌, ◌%◌, bit_and, bit_or, bit_not, Bool, true, false, ◌&&◌, ◌||◌, Option, none, some,
  List, [], ◌∷◌, ◌++◌, ◌==◌, leb, if◌then◌else◌, get_or, set, length,
}
use bk_solution_doorbell.FrameQueue.Node.{
  Format, Status, bk_ok, bk_fail, Node, wants, all_accessed, reset, frame_is, consumer_idx, inc32,
  Cursor, find, put_back, unlinked, sweep,
}
use bk_solution_doorbell.FrameQueue.Queue.{ConsumerInfo, Queue, Freed, no_consumer}
use bk_solution_doorbell.FrameQueue.Producer.{free_frame}

abbrev pub at_consumer : ℕ → (ConsumerInfo → ConsumerInfo) → List ConsumerInfo → List ConsumerInfo
at_consumer i f infos = set infos i (f (get_or infos i no_consumer))

-- A frame that was completed while nobody was registered.
abbrev pub orphan : Node → Node × Bool
orphan n = (n, n.consumer_mask == 0 && n.ref_count == 0)

unfoldable pub register_at : ℕ → ℕ → Queue → Queue
unfolding sweep
register_at i consumer_id q =
    let (ready, free) = sweep orphan q.ready_list q.free_list in
    record q {
      free_list = free;
      ready_list = ready;
      active_consumers = bit_or q.active_consumers consumer_id;
      consumers =
          at_consumer i
            (λ _. record {
              consumer_id = consumer_id;
              get_count = 0;
              release_count = 0;
              enabled = true;
            })
            q.consumers;
    }

unfoldable pub register_consumer : (consumer_id : ℕ) → Queue → Status × Queue × Freed
unfolding consumer_idx register_at
register_consumer consumer_id q = elim (consumer_idx consumer_id) [
  | none ↦ (bk_fail, q, [])
  | some i ↦ (bk_ok, register_at i consumer_id q, [])
]

abbrev pub without : ℕ → Node → Node
without consumer_id n = record n { consumer_mask = bit_and n.consumer_mask (bit_not consumer_id) }

-- What unregistering does to one ready node.
unfoldable pub forget : ℕ → Node → Node × Bool
unfolding wants
forget consumer_id n =
    let n' = without consumer_id n in
    if wants consumer_id n
    then (n', n'.ref_count == 0 && (n'.consumer_mask == 0 || all_accessed n'))
    else (n, false)

unfoldable pub unregister_at : ℕ → ℕ → Queue → Queue
unfolding sweep forget
unregister_at i consumer_id q =
    let (ready, free) = sweep (forget consumer_id) q.ready_list q.free_list in
    record q {
      free_list = free;
      ready_list = ready;
      active_consumers = bit_and q.active_consumers (bit_not consumer_id);
      consumers = at_consumer i (λ c. record c { enabled = false }) q.consumers;
      total_free = (q.total_free + (length q.ready_list - length ready)) % 4294967296;
    }

unfoldable pub unregister_consumer : (consumer_id : ℕ) → Queue → Status × Queue × Freed
unfolding consumer_idx unregister_at
unregister_consumer consumer_id q = elim (consumer_idx consumer_id) [
  | none ↦ (bk_fail, q, [])
  | some i ↦ (bk_ok, unregister_at i consumer_id q, [])
]

abbrev pub enabled_at : ℕ → Queue → Bool
enabled_at i q = (get_or q.consumers i no_consumer).enabled

abbrev pub taken : ℕ → Node → Node
taken consumer_id n = record n {
  ref_count = inc32 n.ref_count;
  accessed_mask = bit_or n.accessed_mask consumer_id;
}

-- Step 1 of the retry loop, one critical section.
unfoldable pub search_ready : ℕ → ℕ → Queue → Option ℕ × Queue × Bool
unfolding find wants
search_ready i consumer_id q = elim (find (wants consumer_id) q.ready_list) [
  | none ↦ (none, q, false)
  | some c ↦ (
    c.node.frame,
    record q {
      ready_list = put_back c (taken consumer_id c.node);
      consumers =
          at_consumer i (λ (info : ConsumerInfo). record info { get_count = inc32 info.get_count })
            q.consumers;
    },
    true,
  )
]

-- One wait for the semaphore: what `rtos_get_semaphore` returns, what the other tasks do to the queue before the next
-- search, and the time gone by since the call when it is read after that search.
pub record Wait : Type 0 where
  pub woken : Bool
  pub others : Queue → Queue
  pub elapsed : ℕ

-- The call has returned, or it is blocked on the semaphore after the given waits.
pub data Outcome : Type 0 where
  returned : Option ℕ → Outcome
  waiting : Outcome

-- `timeout` is `none` for BEKEN_WAIT_FOREVER.
abbrev pub expired : Option ℕ → ℕ → Bool
expired none elapsed = false
expired (some timeout) elapsed = leb timeout elapsed

-- The retry loop; `elapsed` is the time gone by when it is read after the first search.
unfoldable pub get_loop :
    ℕ → ℕ → (timeout : Option ℕ) → (elapsed : ℕ) → List Wait → Queue → Outcome × Queue
unfolding search_ready
get_loop i consumer_id timeout elapsed [] q =
    let (frame, q', found) = search_ready i consumer_id q in
    if found
    then (returned frame, q')
    else if expired timeout elapsed
    then (returned none, q')
    else (waiting, q')
get_loop i consumer_id timeout elapsed (w ∷ ws) q =
    let (frame, q', found) = search_ready i consumer_id q in
    let again = get_loop i consumer_id timeout w.elapsed ws (w.others q') in
    if found
    then (returned frame, q')
    else if expired timeout elapsed
    then (returned none, q')
    else if w.woken
    then again
    else (returned none, w.others q')

unfoldable pub get_frame :
    (consumer_id : ℕ) (timeout : Option ℕ) (elapsed : ℕ)
    → List Wait
    → Queue
    → Outcome × Queue × Freed
unfolding consumer_idx get_loop
get_frame consumer_id timeout elapsed waits q = elim (consumer_idx consumer_id) [
  | none ↦ (returned none, q, [])
  | some i ↦
      let (out, q') = get_loop i consumer_id timeout elapsed waits q in
      if enabled_at i q then (out, q', []) else (returned none, q, [])
]

abbrev pub dropped : Node → Node
dropped n = record n { ref_count = n.ref_count - 1 }

abbrev pub count_release : ℕ → Queue → Queue
count_release i q = record q {
  consumers =
      at_consumer i
        (λ (info : ConsumerInfo). record info { release_count = inc32 info.release_count })
        q.consumers;
}

unfoldable pub release_found : Format → ℕ → Queue → Cursor → Queue × Freed
unfolding reset free_frame
release_found format i q c =
    let n = dropped c.node in
    let q' = count_release i q in
    if n.ref_count == 0 && all_accessed n
    then (
      record q' {
        ready_list = unlinked c;
        free_list = q.free_list ++ (reset (record n { frame = none }) ∷ []);
        total_free = inc32 q.total_free;
      },
      free_frame format n.frame,
    )
    else (record q' { ready_list = put_back c n }, [])

unfoldable pub release_frame :
    Format → (consumer_id : ℕ) → (frame : Option ℕ) → Queue → Unit {0} × Queue × Freed
unfolding consumer_idx find release_found
release_frame format consumer_id none q = (tt, q, [])
release_frame format consumer_id (some frame) q = elim (consumer_idx consumer_id) [
  | none ↦ (tt, q, [])
  | some i ↦ elim (find (frame_is frame) q.ready_list) [
    | none ↦ (tt, q, [])
    | some c ↦ let (q', freed) = release_found format i q c in (tt, q', freed)
  ]
]
