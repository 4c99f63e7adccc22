-- ===== src/FrameQueue/Mailbox/Delivery.antt =====
-- Each function on one queue, as the consumers' mailboxes see it.
use bk_solution_doorbell.Base.{
  ℕ, ◌<◌, ◌^◌, ◌≡◌, refl, sym, ap, ◌∙◌, inl, inr, Bool, true, false, ◌&&◌, Option, none, some, List,
  [], ◌∷◌, ◌++◌, arith, Bool-cases, Option-cases, if◌then◌else◌, ◌==◌, All, bit_and, zero-bit_and,
  bit_and-zero,
}
use bk_solution_doorbell.FrameQueue.Node.{
  Format, bk_ok, Node, has, wants, all_accessed, frame_is, consumer_idx, Cursor, find, sweep,
}
use bk_solution_doorbell.FrameQueue.Queue.{Queue}
use bk_solution_doorbell.FrameQueue.Producer.{FrameHeader, complete, holds}
use bk_solution_doorbell.FrameQueue.Consumer.{
  Outcome, Wait, returned, waiting, expired, enabled_at, taken, dropped, orphan, register_consumer,
  register_at, forget, unregister_consumer, unregister_at, search_ready, get_frame, get_loop,
  release_frame, release_found,
}
use bk_solution_doorbell.FrameQueue.Scan.{find-Splits, find-none, All-sweep}
use bk_solution_doorbell.FrameQueue.Mailbox.{
  letter, pending, pending-append, pending-put_back, pending-unlinked, pending-found, pending-sweep,
}
use bk_solution_doorbell.FrameQueue.Mailbox.Letters.{
  wants-all_accessed, wants-taken_self, wants-taken_other, wants-without, wants-without_self,
  no_letters,
}

-- What consumer `d` finds after a frame is completed.
abbrev pub posted : ℕ → Queue → ℕ → List (Option ℕ)
posted d q frame = if has q.active_consumers d then some frame ∷ [] else []

holds_frame : (frame : ℕ) (n : Node) → holds frame n ≡ true → n.frame ≡ some frame
holds_frame frame n h = ground arith

new_letter :
    (d frame : ℕ) (n : Node)
    → n.accessed_mask ≡ 0
    → n.frame ≡ some frame
    → pending d (n ∷ []) ≡ (if has n.consumer_mask d then some frame ∷ [] else [])
unfolding wants
new_letter d frame n a f = ground (arith, a, f, zero-bit_and d)

-- A frame that `complete` accepts goes to the end of the mailbox of each consumer that is active, and of
-- no other.
pub complete_delivers :
    (d frame : ℕ) (header : FrameHeader) (t₁ t₂ : ℕ) (q : Queue)
    → (complete (some frame) header t₁ t₂ q).0 ≡ bk_ok
    → pending d (complete (some frame) header t₁ t₂ q).1.ready_list
      ≡ pending d q.ready_list ++ posted d q frame
unfolding complete
complete_delivers d frame header t₁ t₂ q h = elim (Option-cases (find (holds frame) q.free_list)) [
  | inl e ↦ cc (rw (e, complete) at h)
  | inr (c, e) ↦
      let hit = (find-Splits (holds frame) q.free_list c e).hit in
      rw (e, complete)
        (pending-append d q.ready_list _
          ∙ ap (◌++◌ (pending d q.ready_list))
              (new_letter d frame _ refl (holds_frame frame c.node hit)))
]

-- A search by a consumer gives the first frame of its mailbox and takes it out; `empty` is what an empty one gives.
abbrev pub first_of_mail : (empty : Outcome) → List (Option ℕ) → Outcome
first_of_mail empty [] = empty
first_of_mail empty (f ∷ fs) = returned f

abbrev pub rest_of_mail : List (Option ℕ) → List (Option ℕ)
rest_of_mail [] = []
rest_of_mail (f ∷ fs) = fs

search_delivers :
    (i d : ℕ) (empty : Outcome) (q : Queue)
    → let (frame, q', found) = search_ready i d q in
      ((if found then returned frame else empty) ≡ first_of_mail empty (pending d q.ready_list))
      × (pending d q'.ready_list ≡ rest_of_mail (pending d q.ready_list))
unfolding search_ready
search_delivers i d empty q = elim (Option-cases (find (wants d) q.ready_list)) [
  | inl e ↦
      let nothing = no_letters d q.ready_list (find-none (wants d) q.ready_list e) in
      rw (e, search_ready, nothing) (refl, refl)
  | inr (c, e) ↦
      let split = find-Splits (wants d) q.ready_list c e in
      let before = no_letters d c.before split.first in
      let mail : pending d q.ready_list ≡ c.node.frame ∷ pending d c.after =
        pending-found d (wants d) q.ready_list c e ∙ rw (before, split.hit) refl in
      rw (e, search_ready, mail)
        (
          refl,
          pending-put_back d c (taken d c.node)
              ∙ rw (before, wants-taken_self d c.node split.hit) refl,
        )
]

search_others :
    (i e d : ℕ) (q : Queue)
    → bit_and e d ≡ 0
    → pending d (search_ready i e q).1.ready_list ≡ pending d q.ready_list
unfolding search_ready
search_others i e d q h = elim (Option-cases (find (wants e) q.ready_list)) [
  | inl f ↦ rw (f, search_ready) refl
  | inr (c, f) ↦
      rw (f, search_ready)
        (pending-put_back d c (taken e c.node)
          ∙ rw (wants-taken_other e d c.node h) (sym (pending-found d (wants e) q.ready_list c f)))
]

-- What a call gives for an empty mailbox before its first wait.
abbrev pub without_mail : (timeout : Option ℕ) (elapsed : ℕ) → Outcome
without_mail timeout elapsed = if expired timeout elapsed then returned none else waiting

-- The first frame of a mailbox, or NULL.
abbrev pub first_or_none : List (Option ℕ) → Option ℕ
first_or_none [] = none
first_or_none (f ∷ fs) = f

without_mail_zero : (elapsed : ℕ) → without_mail (some 0) elapsed ≡ returned none
without_mail_zero elapsed = ground arith

first_at_once :
    (elapsed : ℕ) (mail : List (Option ℕ))
    → first_of_mail (without_mail (some 0) elapsed) mail ≡ returned (first_or_none mail)
first_at_once elapsed [] = without_mail_zero elapsed
first_at_once elapsed (f ∷ fs) = refl

loop_delivers :
    (d i : ℕ) (timeout : Option ℕ) (elapsed : ℕ) (q : Queue)
    → let (out, q') = get_loop i d timeout elapsed [] q in
      (out ≡ first_of_mail (without_mail timeout elapsed) (pending d q.ready_list))
      × (pending d q'.ready_list ≡ rest_of_mail (pending d q.ready_list))
unfolding get_loop
loop_delivers d i timeout elapsed q =
    ground (arith, search_delivers i d (without_mail timeout elapsed) q)

-- With timeout 0 no wait is reached.
loop_at_once :
    (d i elapsed : ℕ) (ws : List Wait) (q : Queue)
    → get_loop i d (some 0) elapsed ws q ≡ get_loop i d (some 0) elapsed [] q
unfolding get_loop
loop_at_once d i elapsed [] q = refl
loop_at_once d i elapsed (w ∷ ws) q = ground arith

-- A call of `get_frame` by an enabled consumer whose mailbox has a frame gives the first one and takes it out, before
-- any wait. With an empty mailbox it gives NULL if its timeout has passed when the time is read, and else is
-- blocked until the semaphore is given or the timeout passes. In particular a call with timeout 0 always returns before any wait, with the
-- first frame of the mailbox, which it takes out, or with NULL.
pub get_delivers :
    (d i elapsed : ℕ) (timeout : Option ℕ) (ws : List Wait) (q : Queue)
    → consumer_idx d ≡ some i
    → enabled_at i q ≡ true
    → let (out, q', freed) = get_frame d timeout elapsed [] q in
      let (out0, q0, freed0) = get_frame d (some 0) elapsed ws q in
      (out ≡ first_of_mail (without_mail timeout elapsed) (pending d q.ready_list))
      × (pending d q'.ready_list ≡ rest_of_mail (pending d q.ready_list))
      × (out0 ≡ returned (first_or_none (pending d q.ready_list)))
      × (pending d q0.ready_list ≡ rest_of_mail (pending d q.ready_list))
unfolding get_frame
get_delivers d i elapsed timeout ws q h k =
    let mail = pending d q.ready_list in
    let first = loop_delivers d i timeout elapsed q in
    let at_once = loop_delivers d i (some 0) elapsed q in
    rw (h, k, get_frame, loop_at_once d i elapsed ws q)
      (first.0, first.1, at_once.0 ∙ first_at_once elapsed mail, at_once.1)

-- A call of `get_frame` that does not wait leaves the mailboxes of all other consumers, with no common
-- bit, as they were.
pub get_others :
    (e d elapsed : ℕ) (timeout : Option ℕ) (q : Queue)
    → bit_and e d ≡ 0
    → pending d (get_frame e timeout elapsed [] q).1.ready_list ≡ pending d q.ready_list
unfolding get_frame get_loop
get_others e d elapsed timeout q h = elim (Option-cases (consumer_idx e)) [
  | inl f ↦ rw (f, get_frame) refl
  | inr (i, f) ↦ rw (f, get_frame) (ground (arith, search_others i e d q h))
]

letter-all_accessed : (d : ℕ) (n : Node) → all_accessed n ≡ true → letter d n ≡ []
letter-all_accessed d n h = rw (wants-all_accessed d n h)

letter_dropped : (d : ℕ) (n : Node) → letter d (dropped n) ≡ letter d n
unfolding wants
letter_dropped d n = refl

release_found_delivers :
    (d : ℕ) (format : Format) (i : ℕ) (q : Queue) (test : Node → Bool) (c : Cursor)
    → find test q.ready_list ≡ some c
    → pending d (release_found format i q c).0.ready_list ≡ pending d q.ready_list
unfolding release_found
release_found_delivers d format i q test c e =
    elim (Bool-cases ((dropped c.node).ref_count == 0 && all_accessed (dropped c.node))) [
      | inl done ↦ rw done (
          pending-unlinked d c
          ∙ sym (
              pending-found d test q.ready_list c e
              ∙ rw (letter-all_accessed d c.node (ground arith)) refl))
      | inr more ↦ rw more (
          pending-put_back d c (dropped c.node)
          ∙ rw (letter_dropped d c.node) (sym (pending-found d test q.ready_list c e)))
    ]

-- Releasing a frame takes nothing out of any mailbox: a frame that some consumer is still to see is
-- not recycled.
pub release_delivers :
    (d : ℕ) (format : Format) (consumer_id : ℕ) (frame : Option ℕ) (q : Queue)
    → pending d (release_frame format consumer_id frame q).1.ready_list ≡ pending d q.ready_list
unfolding release_frame release_found
release_delivers d format consumer_id none q = refl
release_delivers d format consumer_id (some frame) q =
    elim (Option-cases (consumer_idx consumer_id)) [
      | inl g ↦ rw (g, release_frame) refl
      | inr (i, g) ↦ elim (Option-cases (find (frame_is frame) q.ready_list)) [
        | inl e ↦ rw (g, e, release_frame) refl
        | inr (c, e) ↦
            rw (g, e, release_frame) (release_found_delivers d format i q (frame_is frame) c e)
      ]
    ]

letter-orphan : (d : ℕ) (n : Node) → (orphan n).1 ≡ true → letter d n ≡ []
unfolding wants
letter-orphan d n h = ground (arith, zero-bit_and d)

-- Registering a consumer changes no mailbox.
pub register_delivers :
    (d consumer_id : ℕ) (q : Queue)
    → pending d (register_consumer consumer_id q).1.ready_list ≡ pending d q.ready_list
unfolding register_consumer register_at
register_delivers d consumer_id q = elim (Option-cases (consumer_idx consumer_id)) [
  | inl e ↦ rw (e, register_consumer) refl
  | inr (i, e) ↦
      rw (e, register_consumer)
        (pending-sweep d orphan (λ n _. refl) (letter-orphan d) q.ready_list q.free_list)
]

letter-forget :
    (e d : ℕ) (n : Node)
    → e < 2 ^ 32
    → d < 2 ^ 32
    → bit_and e d ≡ 0
    → letter d (forget e n).0 ≡ letter d n
unfolding forget
letter-forget e d n he hd h = elim (Bool-cases (wants e n)) [
  | inl w ↦ rw (w, wants-without e d n he hd h) refl
  | inr w ↦ rw w refl
]

forget_done : (e : ℕ) (n : Node) → (forget e n).1 ≡ true → all_accessed (forget e n).0 ≡ true
unfolding forget
forget_done e n m = ground (arith, bit_and-zero n.accessed_mask)

forget_self :
    (d : ℕ) (n : Node) → d < 2 ^ 32 → (forget d n).1 ≡ false → wants d (forget d n).0 ≡ false
unfolding forget
forget_self d n hd m = elim (Bool-cases (wants d n)) [
  | inl w ↦ rw (w, forget) (wants-without_self d n hd)
  | inr w ↦ rw (w, forget) w
]

forget_moved :
    (e d : ℕ) (n : Node)
    → e < 2 ^ 32
    → d < 2 ^ 32
    → bit_and e d ≡ 0
    → (forget e n).1 ≡ true
    → letter d n ≡ []
forget_moved e d n he hd h m =
    sym (letter-forget e d n he hd h) ∙ letter-all_accessed d (forget e n).0 (forget_done e n m)

-- Unregistering a consumer leaves the mailboxes of all other consumers as they were. The two are 32-bit
-- numbers without a common bit.
pub unregister_others :
    (e d : ℕ) (q : Queue)
    → e < 2 ^ 32
    → d < 2 ^ 32
    → bit_and e d ≡ 0
    → pending d (unregister_consumer e q).1.ready_list ≡ pending d q.ready_list
unfolding unregister_consumer unregister_at
unregister_others e d q he hd h = elim (Option-cases (consumer_idx e)) [
  | inl f ↦ rw (f, unregister_consumer) refl
  | inr (i, f) ↦
      rw (f, unregister_consumer)
        (pending-sweep d (forget e) (λ n _. letter-forget e d n he hd h)
          (λ n. forget_moved e d n he hd h) q.ready_list q.free_list)
]

All-Unit : (ns : List Node) → All (λ _. Unit {0}) ns
All-Unit [] = tt
All-Unit (n ∷ ns) = (tt, All-Unit ns)

-- Unregistering a consumer, a 32-bit number with one of the lower 8 bits, empties its own mailbox.
pub unregister_empties :
    (d i : ℕ) (q : Queue)
    → d < 2 ^ 32
    → consumer_idx d ≡ some i
    → pending d (unregister_consumer d q).1.ready_list ≡ []
unfolding unregister_consumer unregister_at
unregister_empties d i q hd h =
    rw (h, unregister_consumer)
      (no_letters d (sweep (forget d) q.ready_list q.free_list).0
        (All-sweep (λ _. Unit {0}) (λ n. wants d n ≡ false) (λ _. Unit {0}) (forget d)
          (λ n _ m. forget_self d n hd m) (λ _ _. tt) q.ready_list q.free_list
          (All-Unit q.ready_list) (All-Unit q.free_list)).0)
