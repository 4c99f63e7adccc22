-- ===== src/FrameQueue/Invariant.antt =====
-- The well-formedness of a queue under the calls.
use bk_solution_doorbell.Base.{
  ℕ, ◌<◌, ◌≡◌, ◌⊎◌, refl, subst, inl, inr, Bool, true, false, not, ◌&&◌, ◌||◌, Option, none, some,
  List, [], ◌∷◌, map, arith, Option-cases, Bool-cases, ◌==◌, All, zero-bit_and, of_some_eq,
}
use bk_solution_doorbell.FrameQueue.Node.{
  Format, Node, frame_is, wants, reset, consumer_idx, Cursor, find, sweep, all_accessed,
}
use bk_solution_doorbell.FrameQueue.Queue.{Queue}
use bk_solution_doorbell.FrameQueue.Producer.{
  FrameHeader, claim, claim_ready, may_drop, obtain, fill, malloc, complete, cancel, holds, Claim,
}
use bk_solution_doorbell.FrameQueue.Consumer.{
  orphan, register_consumer, register_at, forget, unregister_consumer, unregister_at, search_ready,
  get_frame, get_loop, release_frame, release_found, dropped, taken,
}
use bk_solution_doorbell.FrameQueue.Admin.{clear, strip, unheld}
use bk_solution_doorbell.FrameQueue.Scan.{
  All-found, All-put_back, All-unlinked, All-add_tail, All-sweep, find-Splits,
}
use bk_solution_doorbell.FrameQueue.State.{State, Call, step}
use bk_solution_doorbell.FrameQueue.Lift.{IsRespected, step_lift}

abbrev pub is_some : Option ℕ → Bool
is_some none = false
is_some (some f) = true

-- A node of the free list: nobody holds a reference, and the producer writes to a buffer that is there.
pub record IsIdle (n : Node) : Type 0 where
  pub unreferenced : n.ref_count ≡ 0
  pub filled : (n.in_use ≡ false) ⊎ (is_some n.frame ≡ true)

-- The node is held, or some consumer is still to see it, or it was completed for nobody.
abbrev pub is_live : Node → Bool
is_live n = not (n.ref_count == 0) || (n.consumer_mask == 0) || not (all_accessed n)

-- A node of the ready list: a frame that the producer has finished with, and that is not done.
pub record IsReady (n : Node) : Type 0 where
  pub finished : n.in_use ≡ false
  pub framed : is_some n.frame ≡ true
  pub live : is_live n ≡ true

pub record IsValid (q : Queue) : Type 0 where
  pub idle : All IsIdle q.free_list
  pub ready : All IsReady q.ready_list

-- No reference counter is at the limit of its 32 bits.
abbrev pub IsCountable : Queue → Type 0
IsCountable q = All (λ n. n.ref_count < 4294967295) q.ready_list

abbrev KeepsValid : Queue → Queue → Type 0
KeepsValid q q' = IsCountable q → IsValid q → IsValid q'

reset-IsIdle : (n : Node) → IsIdle (reset n)
unfolding reset
reset-IsIdle n = record { unreferenced = refl; filled = inl refl }

complete-IsValid :
    (frame : Option ℕ) (header : FrameHeader) (t₁ t₂ : ℕ) (q : Queue)
    → IsValid q
    → IsValid (complete frame header t₁ t₂ q).1
unfolding complete
complete-IsValid none header t₁ t₂ q v = v
complete-IsValid (some frame) header t₁ t₂ q v =
    elim (Option-cases (find (holds frame) q.free_list)) [
      | inl e ↦ rw (e, complete) v
      | inr (c, e) ↦
          let parts = All-found IsIdle (holds frame) q.free_list c e v.idle in
          let hit = (find-Splits (holds frame) q.free_list c e).hit in
          rw (e, complete)
            (record {
              idle = All-unlinked IsIdle c parts.0 parts.2;
              ready = All-add_tail IsReady q.ready_list _ v.ready (record {
                finished = refl;
                framed = ground arith;
                live = ground (arith, zero-bit_and q.active_consumers);
              });
            })
    ]

search-IsValid : (i consumer_id : ℕ) (q : Queue) → KeepsValid q (search_ready i consumer_id q).1
unfolding search_ready
search-IsValid i consumer_id q k v = elim (Option-cases (find (wants consumer_id) q.ready_list)) [
  | inl e ↦ rw (e, search_ready) v
  | inr (c, e) ↦
      let parts = All-found IsReady (wants consumer_id) q.ready_list c e v.ready in
      let counts =
        All-found (λ n. n.ref_count < 4294967295) (wants consumer_id) q.ready_list c e k in
      rw (e, search_ready)
        (record {
          idle = v.idle;
          ready =
              All-put_back IsReady c (taken consumer_id c.node) parts.0
                (record {
                  finished = parts.1.finished;
                  framed = parts.1.framed;
                  live = ground (arith, counts);
                })
                parts.2;
        })
]

get-IsValid : (consumer_id : ℕ) (q : Queue) → KeepsValid q (get_frame consumer_id none 0 [] q).1
unfolding get_frame get_loop
get-IsValid consumer_id q k v = elim (Option-cases (consumer_idx consumer_id)) [
  | inl d ↦ rw (d, get_frame) v
  | inr (i, d) ↦ rw (d, get_frame) (ground (arith, search-IsValid i consumer_id q k v))
]

cancel-IsValid :
    (format : Format) (frame : Option ℕ) (q : Queue) → IsValid q → IsValid (cancel format frame q).1
unfolding cancel
cancel-IsValid format none q v = v
cancel-IsValid format (some frame) q v = elim (Option-cases (find (holds frame) q.free_list)) [
  | inl e ↦ rw (e, cancel) v
  | inr (c, e) ↦
      let parts = All-found IsIdle (holds frame) q.free_list c e v.idle in
      rw (e, cancel)
        (record {
          idle =
              All-put_back IsIdle c (record c.node { frame = none; in_use = false }) parts.0
                (record { unreferenced = parts.1.unreferenced; filled = inl refl }) parts.2;
          ready = v.ready;
        })
]

release_found-IsValid :
    (format : Format) (i : ℕ) (q : Queue) (test : Node → Bool) (c : Cursor)
    → find test q.ready_list ≡ some c
    → IsValid q
    → IsValid (release_found format i q c).0
unfolding release_found
release_found-IsValid format i q test c e v =
    let parts = All-found IsReady test q.ready_list c e v.ready in
    let n = dropped c.node in
    elim (Bool-cases (n.ref_count == 0 && all_accessed n)) [
      | inl done ↦ rw done (record {
        idle =
            All-add_tail IsIdle q.free_list (reset (record n { frame = none })) v.idle
              (reset-IsIdle (record n { frame = none }));
        ready = All-unlinked IsReady c parts.0 parts.2;
      })
      | inr more ↦ rw more (record {
        idle = v.idle;
        ready =
            All-put_back IsReady c n parts.0
              (record {
                finished = parts.1.finished;
                framed = parts.1.framed;
                live = ground (arith, more);
              })
              parts.2;
      })
    ]

release-IsValid :
    (format : Format) (consumer_id : ℕ) (frame : Option ℕ) (q : Queue)
    → IsValid q
    → IsValid (release_frame format consumer_id frame q).1
unfolding release_frame
release-IsValid format consumer_id none q v = v
release-IsValid format consumer_id (some frame) q v =
    elim (Option-cases (consumer_idx consumer_id)) [
      | inl d ↦ rw (d, release_frame) v
      | inr (i, d) ↦ elim (Option-cases (find (frame_is frame) q.ready_list)) [
        | inl e ↦ rw (d, e, release_frame) v
        | inr (c, e) ↦
            rw (d, e, release_frame) (release_found-IsValid format i q (frame_is frame) c e v)
      ]
    ]

register-IsValid :
    (consumer_id : ℕ) (q : Queue) → IsValid q → IsValid (register_consumer consumer_id q).1
unfolding register_consumer register_at
register-IsValid consumer_id q v = elim (Option-cases (consumer_idx consumer_id)) [
  | inl d ↦ rw (d, register_consumer) v
  | inr (i, d) ↦
      let lists =
        All-sweep IsReady IsReady IsIdle orphan (λ n h _. h) (λ n _. reset-IsIdle n) q.ready_list
          q.free_list v.ready v.idle in
      rw (d, register_consumer) (record { idle = lists.1; ready = lists.0 })
]

forget-IsReady :
    (consumer_id : ℕ) (n : Node)
    → IsReady n
    → (forget consumer_id n).1 ≡ false
    → IsReady (forget consumer_id n).0
unfolding forget
forget-IsReady consumer_id n h e = ground arith

unregister-IsValid :
    (consumer_id : ℕ) (q : Queue) → IsValid q → IsValid (unregister_consumer consumer_id q).1
unfolding unregister_consumer unregister_at
unregister-IsValid consumer_id q v = elim (Option-cases (consumer_idx consumer_id)) [
  | inl d ↦ rw (d, unregister_consumer) v
  | inr (i, d) ↦
      let lists =
        All-sweep IsReady IsReady IsIdle (forget consumer_id) (forget-IsReady consumer_id)
          (λ n _. reset-IsIdle (forget consumer_id n).0) q.ready_list q.free_list v.ready v.idle in
      rw (d, unregister_consumer) (record { idle = lists.1; ready = lists.0 })
]

strip-IsIdle : (ns : List Node) → All IsIdle ns → All IsIdle (map strip ns)
unfolding strip
strip-IsIdle [] h = tt
strip-IsIdle (n ∷ ns) h =
    (record { unreferenced = h.0.unreferenced; filled = inl refl }, strip-IsIdle ns h.1)

clear-IsValid : (q : Queue) → IsValid q → IsValid (clear q).0
unfolding clear
clear-IsValid q v = elim (Bool-cases (q.count == 0)) [
  | inl e ↦ rw (e, clear) v
  | inr e ↦
      let lists =
        All-sweep IsReady IsReady IsIdle unheld (λ n h _. h) (λ n _. reset-IsIdle n) q.ready_list
          q.free_list v.ready v.idle in
      rw (e, clear)
        (record {
          idle = strip-IsIdle (sweep unheld q.ready_list q.free_list).1 lists.1;
          ready = lists.0;
        })
]

-- The parts of a reservation: the reserved node is idle but for its buffer, and it has one if it was
-- ready.
record IsClaim (k : Claim) : Type 0 where
  before : All IsIdle k.cursor.before
  after : All IsIdle k.cursor.after
  unreferenced : k.cursor.node.ref_count ≡ 0
  ready : All IsReady k.ready

claim_ready-IsClaim :
    (format : Format) (q : Queue) (k : Claim)
    → claim_ready format q ≡ some k
    → IsValid q
    → IsClaim k
unfolding claim_ready
claim_ready-IsClaim format q k h v =
    elim (Option-cases (find (λ n. n.ref_count == 0) q.ready_list)) [
      | inl d ↦ ground (arith, d)
      | inr (c, d) ↦
          let parts = All-found IsReady (λ n. n.ref_count == 0) q.ready_list c d v.ready in
          let hit = (find-Splits (λ n. n.ref_count == 0) q.ready_list c d).hit in
          elim (Bool-cases (may_drop format)) [
            | inl m ↦ subst IsClaim (of_some_eq (rw (m, d, claim_ready) at h)) (record {
              before = tt;
              after = v.idle;
              unreferenced = ground arith;
              ready = All-unlinked IsReady c parts.0 parts.2;
            })
            | inr m ↦ cc (rw (m, claim_ready) at h)
          ]
    ]

claim-IsClaim :
    (format : Format) (q : Queue) (k : Claim) → claim format q ≡ some k → IsValid q → IsClaim k
unfolding claim
claim-IsClaim format q k h v = elim (Option-cases (find (λ n. not n.in_use) q.free_list)) [
  | inl e ↦ claim_ready-IsClaim format q k (rw (e, claim) at h) v
  | inr (c, e) ↦
      let parts = All-found IsIdle (λ n. not n.in_use) q.free_list c e v.idle in
      subst IsClaim (of_some_eq (rw (e, claim) at h)) (record {
        before = parts.0;
        after = parts.2;
        unreferenced = parts.1.unreferenced;
        ready = v.ready;
      })
]

fill-IsValid :
    (q : Queue) (now : ℕ) (k : Claim) (buffer : Option ℕ)
    → IsClaim k
    → IsValid (fill q now k buffer).1
unfolding fill
fill-IsValid q now k none h = record {
  idle =
      All-put_back IsIdle k.cursor (record k.cursor.node { in_use = false }) h.before
        (record { unreferenced = h.unreferenced; filled = inl refl }) h.after;
  ready = h.ready;
}
fill-IsValid q now k (some frame) h = record {
  idle =
      All-put_back IsIdle k.cursor _ h.before (record { unreferenced = refl; filled = inr refl })
        h.after;
  ready = h.ready;
}

malloc-IsValid :
    (format : Format) (buffer : Option ℕ) (now : ℕ) (q : Queue)
    → IsValid q
    → IsValid (malloc format buffer now q).1
unfolding malloc
malloc-IsValid format buffer now q v = elim (Option-cases (claim format q)) [
  | inl e ↦ rw (e, malloc) v
  | inr (k, e) ↦
      rw (e, malloc)
        (fill-IsValid q now k (obtain format buffer k.cursor.node) (claim-IsClaim format q k e v))
]

KeepsValid-IsRespected : IsRespected KeepsValid
KeepsValid-IsRespected = record {
  untouched = λ q k v. v;
  on_malloc = λ format buffer now q k. malloc-IsValid format buffer now q;
  on_complete = λ frame header t₁ t₂ q k. complete-IsValid frame header t₁ t₂ q;
  on_cancel = λ format frame q k. cancel-IsValid format frame q;
  on_get = get-IsValid;
  on_release = λ format consumer_id frame q k. release-IsValid format consumer_id frame q;
  on_register = λ consumer_id q k. register-IsValid consumer_id q;
  on_unregister = λ consumer_id q k. unregister-IsValid consumer_id q;
  on_clear = λ q k. clear-IsValid q;
}

-- Every call keeps every queue well formed, if no reference counter of the queue is at its limit:
-- free nodes are unreferenced, and one that the producer holds has its buffer; ready nodes are not the
-- producer's, have a buffer, and are held, still to be seen by a consumer, or completed for nobody, so
-- no finished frame stays in the ready list.
pub step-IsValid :
    (c : Call) (s : State) (j : ℕ)
    → IsCountable (s.queue j)
    → IsValid (s.queue j)
    → IsValid ((step c s).queue j)
step-IsValid = step_lift KeepsValid KeepsValid-IsRespected
