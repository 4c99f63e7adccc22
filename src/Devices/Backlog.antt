-- ===== src/Devices/Backlog.antt =====
-- The frames that wait for the transfer's thread in the frame queue, beside a producer that completes frames.
use bk_solution_doorbell.Base.{
  ℕ, ◌≡◌, refl, sym, ap, ◌∙◌, true, Option, none, some, List, [], ◌∷◌, ◌++◌, arith, get_or,
  append-nil, inl, inr, Option-cases,
}
use bk_solution_doorbell.FrameQueue.Node.{
  Format, bk_ok, has, wants, find, frame_is, consumer_idx, inc32, Cursor,
}
use bk_solution_doorbell.FrameQueue.Queue.{Queue, ConsumerInfo, no_consumer}
use bk_solution_doorbell.FrameQueue.Producer.{FrameHeader, complete, complete_found, holds}
use bk_solution_doorbell.FrameQueue.Consumer.{
  Outcome, returned, waiting, at_consumer, enabled_at, search_ready, get_loop, get_frame,
  release_found,
}
use bk_solution_doorbell.FrameQueue.Consumer
use bk_solution_doorbell.FrameQueue.Mailbox.{pending}
use bk_solution_doorbell.FrameQueue.Mailbox.Delivery.{
  first_of_mail, rest_of_mail, posted, without_mail, complete_delivers, release_delivers,
}
use bk_solution_doorbell.Devices.Transfer.{
  DebugFields, Counters, FrameEffect, video_send, release_frame, transfer_round, got_of, released,
  task_entry,
}

-- A producer completes a frame, or the thread's loop turns once.
pub data Event : Type 0 where
  completes : (frame : ℕ) → FrameHeader → (t₁ t₂ : ℕ) → Event
  turns : (elapsed length before after : ℕ) → Event

-- The frames of a mailbox that have a buffer.
abbrev pub somes : List (Option ℕ) → List ℕ
somes [] = []
somes (none ∷ fs) = somes fs
somes (some f ∷ fs) = f ∷ somes fs

-- The frames that wait for the thread, the next one first.
abbrev pub backlog : Queue → List ℕ
backlog q = somes (pending 1 q.ready_list)

abbrev pub sent : List FrameEffect → List ℕ
sent [] = []
sent (video_send f length ∷ es) = f ∷ sent es
sent (release_frame f ∷ es) = sent es

abbrev pub given_back : List FrameEffect → List ℕ
given_back [] = []
given_back (video_send f length ∷ es) = given_back es
given_back (release_frame f ∷ es) = f ∷ given_back es

-- The frame that a call of frame_queue_v2_complete puts into the queue.
abbrev pub accepted : Event → Queue → List ℕ
accepted (completes frame header t₁ t₂) q = elim ((complete (some frame) header t₁ t₂ q).0) [
  | bk_ok ↦ frame ∷ []
  | _ ↦ []
]
accepted (turns elapsed length before after) q = []

module _ (fields : DebugFields) (format : Format) where
  unfoldable pub happens : Event → Queue → Counters → Queue × Counters × List FrameEffect
  unfolding task_entry
  happens (completes frame header t₁ t₂) q k = ((complete (some frame) header t₁ t₂ q).1, k, [])
  happens (turns elapsed length before after) q k =
      task_entry fields format elapsed length before after q k

  -- Some events: the queue, the counters, what the thread did, and the frames that the queue accepted.
  unfoldable pub stream :
      List Event → Queue → Counters → Queue × Counters × List FrameEffect × List ℕ
  unfolding happens
  stream [] q k = (q, k, [], [])
  stream (e ∷ es) q k =
      let (q1, k1, acts) = happens e q k in
      let (q2, k2, rest, more) = stream es q1 k1 in (q2, k2, acts ++ rest, accepted e q ++ more)

somes-append : (xs ys : List (Option ℕ)) → somes (xs ++ ys) ≡ somes xs ++ somes ys
somes-append [] ys = refl
somes-append (none ∷ xs) ys = somes-append xs ys
somes-append (some f ∷ xs) ys = ap (λ zs. f ∷ zs) (somes-append xs ys)

pub sent-append : (xs ys : List FrameEffect) → sent (xs ++ ys) ≡ sent xs ++ sent ys
sent-append [] ys = refl
sent-append (video_send f length ∷ xs) ys = ap (λ zs. f ∷ zs) (sent-append xs ys)
sent-append (release_frame f ∷ xs) ys = sent-append xs ys

pub given_back-append :
    (xs ys : List FrameEffect) → given_back (xs ++ ys) ≡ given_back xs ++ given_back ys
given_back-append [] ys = refl
given_back-append (video_send f length ∷ xs) ys = given_back-append xs ys
given_back-append (release_frame f ∷ xs) ys = ap (λ zs. f ∷ zs) (given_back-append xs ys)

-- The thread is registered: its place is enabled and its bit is set.
abbrev pub Listens : Queue → Type 0
Listens q = (enabled_at 0 q ≡ true) × (has q.active_consumers 1 ≡ true)

at_consumer-enabled :
    (f : ConsumerInfo → ConsumerInfo) (infos : List ConsumerInfo)
    → ((c : ConsumerInfo) → (f c).enabled ≡ c.enabled)
    → (get_or (at_consumer 0 f infos) 0 no_consumer).enabled ≡ (get_or infos 0 no_consumer).enabled
at_consumer-enabled f [] h = refl
at_consumer-enabled f (c ∷ infos) h = h c

search-Listens : (q : Queue) → Listens q → Listens (search_ready 0 1 q).1
unfolding search_ready
search-Listens q (h, k) = elim (Option-cases (find (wants 1) q.ready_list)) [
  | inl e ↦ rw (e, search_ready) (h, k)
  | inr (c, e) ↦
      rw (e, search_ready)
        (
          at_consumer-enabled (λ (c : ConsumerInfo). record c { get_count = inc32 c.get_count })
                q.consumers (λ c. refl)
              ∙ h,
          k,
        )
]

loop-Listens :
    (elapsed : ℕ) (q : Queue) → Listens q → Listens (get_loop 0 1 (some 50) elapsed [] q).1
unfolding get_loop
loop-Listens elapsed q h = ground (arith, search-Listens q h)

pub get-Listens :
    (elapsed : ℕ) (q : Queue) → Listens q → Listens (get_frame 1 (some 50) elapsed [] q).1
unfolding get_frame consumer_idx
get-Listens elapsed q h = rw (h.0) (loop-Listens elapsed q h)

release_found-Listens :
    (format : Format) (q : Queue) (c : Cursor) → Listens q → Listens (release_found format 0 q c).0
unfolding release_found
release_found-Listens format q c (h, k) =
    let same =
      at_consumer-enabled (λ (c : ConsumerInfo). record c { release_count = inc32 c.release_count })
        q.consumers (λ c. refl) in
    ground (arith, same ∙ h, k)

release-Listens :
    (format : Format) (frame : ℕ) (q : Queue)
    → Listens q
    → Listens (Consumer.release_frame format 1 (some frame) q).1
unfolding Consumer.release_frame consumer_idx
release-Listens format frame q h = elim (Option-cases (find (frame_is frame) q.ready_list)) [
  | inl e ↦ rw (e, Consumer.release_frame) h
  | inr (c, e) ↦ rw (e, Consumer.release_frame) (release_found-Listens format q c h)
]

pub released-Listens :
    (format : Format) (es : List FrameEffect) (q : Queue)
    → Listens q
    → Listens (released format es q)
released-Listens format [] q h = h
released-Listens format (video_send frame length ∷ es) q h = released-Listens format es q h
released-Listens format (release_frame frame ∷ es) q h =
    released-Listens format es (Consumer.release_frame format 1 (some frame) q).1
      (release-Listens format frame q h)

pub released-pending :
    (format : Format) (es : List FrameEffect) (q : Queue)
    → pending 1 (released format es q).ready_list ≡ pending 1 q.ready_list
released-pending format [] q = refl
released-pending format (video_send frame length ∷ es) q = released-pending format es q
released-pending format (release_frame frame ∷ es) q =
    released-pending format es (Consumer.release_frame format 1 (some frame) q).1
    ∙ release_delivers 1 format 1 (some frame) q

pub complete-Listens :
    (frame : ℕ) (header : FrameHeader) (t₁ t₂ : ℕ) (q : Queue)
    → Listens q
    → Listens (complete (some frame) header t₁ t₂ q).1
unfolding complete complete_found
complete-Listens frame header t₁ t₂ q h = elim (Option-cases (find (holds frame) q.free_list)) [
  | inl e ↦ rw (e, complete) h
  | inr (c, e) ↦ rw (e, complete) h
]

-- A frame that the queue accepts goes behind the backlog, and a refused one changes nothing.
pub complete-backlog :
    (frame : ℕ) (header : FrameHeader) (t₁ t₂ : ℕ) (q : Queue)
    → Listens q
    → backlog (complete (some frame) header t₁ t₂ q).1
      ≡ backlog q ++ accepted (completes frame header t₁ t₂) q
unfolding complete
complete-backlog frame header t₁ t₂ q h = elim (Option-cases (find (holds frame) q.free_list)) [
  | inl e ↦
      let same : backlog (complete (some frame) header t₁ t₂ q).1 ≡ backlog q =
        rw (e, complete) refl in
      let refused : accepted (completes frame header t₁ t₂) q ≡ [] =
        rw (e, complete, accepted) refl in
      same ∙ sym (append-nil (backlog q)) ∙ ap (◌++◌ (backlog q)) (sym refused)
  | inr (c, e) ↦
      let delivered = complete_delivers 1 frame header t₁ t₂ q (rw (e, complete) refl) in
      let posted : posted 1 q frame ≡ some frame ∷ [] = rw (h.1) refl in
      let whole = ap somes (delivered ∙ ap (◌++◌ (pending 1 q.ready_list)) posted) in
      let split = somes-append (pending 1 q.ready_list) (some frame ∷ []) in
      let taken : accepted (completes frame header t₁ t₂) q ≡ frame ∷ [] =
        rw (e, complete, accepted) refl in
      whole ∙ split ∙ ap (◌++◌ (backlog q)) (sym taken)
]

module _ (fields : DebugFields) where
  -- What the thread does with the answer of the queue, for a mailbox.
  pub turn_sends :
      (w : Outcome) (mail : List (Option ℕ)) (length before after : ℕ) (k : Counters)
      → got_of w length before after ≡ none
      → let acts =
          (transfer_round fields (got_of (first_of_mail w mail) length before after) k).1 in
        (sent acts ++ somes (rest_of_mail mail) ≡ somes mail) × (given_back acts ≡ sent acts)
  unfolding transfer_round
  turn_sends w [] length before after k h = rw h (refl, refl)
  turn_sends w (none ∷ mail) length before after k h = (refl, refl)
  turn_sends w (some f ∷ mail) length before after k h = (refl, refl)

  pub without_mail-none :
      (elapsed length before after : ℕ)
      → got_of (without_mail (some 50) elapsed) length before after ≡ none
  without_mail-none elapsed length before after = ground arith
