-- ===== src/FrameQueue/Nodes.antt =====
-- The frame nodes of a queue, in its two lists.
use bk_solution_doorbell.Base.{
  ℕ, ◌+◌, ◌≡◌, refl, ap, ◌∙◌, inl, inr, Bool, not, Option, none, some, List, [], ◌∷◌, map, arith,
  Option-cases, Bool-cases, ◌==◌,
}
use bk_solution_doorbell.FrameQueue.Node.{
  Format, Node, frame_is, wants, reset, consumer_idx, Cursor, find, sweep,
}
use bk_solution_doorbell.FrameQueue.Queue.{Queue}
use bk_solution_doorbell.FrameQueue.Producer.{
  FrameHeader, claim, claim_ready, obtain, fill, malloc, complete, cancel, holds, Claim,
}
use bk_solution_doorbell.FrameQueue.Consumer.{
  orphan, register_consumer, register_at, forget, unregister_consumer, unregister_at, search_ready,
  get_frame, get_loop, release_frame, release_found, dropped,
}
use bk_solution_doorbell.FrameQueue.Admin.{clear, strip, unheld}
use bk_solution_doorbell.FrameQueue.Scan.{
  total, total-append, total-put_back, total-unlinked, total-found, total-sweep,
}
use bk_solution_doorbell.FrameQueue.State.{State, Call, step}
use bk_solution_doorbell.FrameQueue.Lift.{IsRespected, step_lift}

-- The nodes of both lists, each counted by the weight of its address.
abbrev pub places : (ℕ → ℕ) → Queue → ℕ
places v q = total (λ n. v n.addr) q.free_list + total (λ n. v n.addr) q.ready_list

-- The same nodes, each as often, in some order and in either list.
abbrev pub SameNodes : Queue → Queue → Type 0
SameNodes q q' = (v : ℕ → ℕ) → places v q' ≡ places v q

module _ (v : ℕ → ℕ) where
  abbrev w : Node → ℕ
  w n = v n.addr

  places-complete :
      (frame : Option ℕ) (header : FrameHeader) (t₁ t₂ : ℕ) (q : Queue)
      → places v (complete frame header t₁ t₂ q).1 ≡ places v q
  unfolding complete
  places-complete none header t₁ t₂ q = refl
  places-complete (some frame) header t₁ t₂ q =
      elim (Option-cases (find (holds frame) q.free_list)) [
        | inl e ↦ rw (e, complete) refl
        | inr (c, e) ↦
            rw (e, complete)
              (omega (
                arith,
                total-found w (holds frame) q.free_list c e,
                total-unlinked w c,
                total-append w,
              ))
      ]

  places-cancel :
      (format : Format) (frame : Option ℕ) (q : Queue)
      → places v (cancel format frame q).1 ≡ places v q
  unfolding cancel
  places-cancel format none q = refl
  places-cancel format (some frame) q = elim (Option-cases (find (holds frame) q.free_list)) [
    | inl e ↦ rw (e, cancel) refl
    | inr (c, e) ↦
        rw (e, cancel)
          (omega (arith, total-found w (holds frame) q.free_list c e, total-put_back w c))
  ]

  places-release_found :
      (format : Format) (i : ℕ) (q : Queue) (test : Node → Bool) (c : Cursor)
      → find test q.ready_list ≡ some c
      → places v (release_found format i q c).0 ≡ places v q
  unfolding release_found
  places-release_found format i q test c e = ground (
    arith,
    total-found w test q.ready_list c e,
    total-put_back w c (dropped c.node),
    total-unlinked w c,
    total-append w q.free_list (reset (record (dropped c.node) { frame = none }) ∷ []),
  )

  release_places :
      (format : Format) (consumer_id : ℕ) (frame : Option ℕ) (q : Queue)
      → places v (release_frame format consumer_id frame q).1 ≡ places v q
  unfolding release_frame
  release_places format consumer_id none q = refl
  release_places format consumer_id (some frame) q =
      elim (Option-cases (consumer_idx consumer_id)) [
        | inl d ↦ rw (d, release_frame) refl
        | inr (i, d) ↦ elim (Option-cases (find (frame_is frame) q.ready_list)) [
          | inl e ↦ rw (d, e, release_frame) refl
          | inr (c, e) ↦
              rw (d, e, release_frame) (places-release_found format i q (frame_is frame) c e)
        ]
      ]

  search_places :
      (i consumer_id : ℕ) (q : Queue) → places v (search_ready i consumer_id q).1 ≡ places v q
  unfolding search_ready
  search_places i consumer_id q = elim (Option-cases (find (wants consumer_id) q.ready_list)) [
    | inl e ↦ rw (e, search_ready) refl
    | inr (c, e) ↦
        rw (e, search_ready)
          (omega (arith, total-found w (wants consumer_id) q.ready_list c e, total-put_back w c))
  ]

  get_places :
      (consumer_id : ℕ) (q : Queue) → places v (get_frame consumer_id none 0 [] q).1 ≡ places v q
  unfolding get_frame get_loop
  get_places consumer_id q = elim (Option-cases (consumer_idx consumer_id)) [
    | inl d ↦ rw (d, get_frame) refl
    | inr (i, d) ↦ rw (d, get_frame) (ground (arith, search_places i consumer_id q))
  ]

  register_places :
      (consumer_id : ℕ) (q : Queue) → places v (register_consumer consumer_id q).1 ≡ places v q
  unfolding register_consumer register_at reset
  register_places consumer_id q = elim (Option-cases (consumer_idx consumer_id)) [
    | inl d ↦ rw (d, register_consumer) refl
    | inr (i, d) ↦
        rw (d, register_consumer)
          (omega (arith, total-sweep w orphan (λ n. refl) (λ n. refl) q.ready_list q.free_list))
  ]

  forget-addr : (consumer_id : ℕ) (n : Node) → (forget consumer_id n).0.addr ≡ n.addr
  unfolding forget
  forget-addr consumer_id n = ground arith

  unregister_places :
      (consumer_id : ℕ) (q : Queue) → places v (unregister_consumer consumer_id q).1 ≡ places v q
  unfolding unregister_consumer unregister_at reset
  unregister_places consumer_id q = elim (Option-cases (consumer_idx consumer_id)) [
    | inl d ↦ rw (d, unregister_consumer) refl
    | inr (i, d) ↦
        rw (d, unregister_consumer)
          (omega (
            arith,
            total-sweep w (forget consumer_id) (λ n. ap v (forget-addr consumer_id n)) (λ n. refl)
                q.ready_list q.free_list,
          ))
  ]

  total-strip : (ns : List Node) → total w (map strip ns) ≡ total w ns
  unfolding strip
  total-strip [] = refl
  total-strip (n ∷ ns) = omega (arith, total-strip ns)

  places-clear : (q : Queue) → places v (clear q).0 ≡ places v q
  unfolding clear reset
  places-clear q = elim (Bool-cases (q.count == 0)) [
    | inl e ↦ rw (e, clear) refl
    | inr e ↦
        rw (e, clear)
          (omega (
            arith,
            total-sweep w unheld (λ n. refl) (λ n. refl) q.ready_list q.free_list,
            total-strip (sweep unheld q.ready_list q.free_list).1,
          ))
  ]

  claim-places :
      (format : Format) (q : Queue) (k : Claim)
      → claim format q ≡ some k
      → total w k.cursor.before + v k.cursor.node.addr + total w k.cursor.after + total w k.ready
        ≡ places v q
  unfolding claim claim_ready
  claim-places format q k h = elim (Option-cases (find (λ n. not n.in_use) q.free_list)) [
    | inl e ↦ elim (Option-cases (find (λ n. n.ref_count == 0) q.ready_list)) [
      | inl d ↦ ground (arith, d, e)
      | inr (c, d) ↦
          ground (arith, total-found w (λ n. n.ref_count == 0) q.ready_list c d, total-unlinked w c)
    ]
    | inr (c, e) ↦ ground (arith, total-found w (λ n. not n.in_use) q.free_list c e)
  ]

  places-fill :
      (q : Queue) (now : ℕ) (k : Claim) (buffer : Option ℕ)
      → places v (fill q now k buffer).1
        ≡ total w k.cursor.before + v k.cursor.node.addr + total w k.cursor.after + total w k.ready
  unfolding fill
  places-fill q now k none = omega (arith, total-put_back w k.cursor)
  places-fill q now k (some frame) = omega (arith, total-put_back w k.cursor)

  places-malloc :
      (format : Format) (buffer : Option ℕ) (now : ℕ) (q : Queue)
      → places v (malloc format buffer now q).1 ≡ places v q
  unfolding malloc
  places-malloc format buffer now q = elim (Option-cases (claim format q)) [
    | inl e ↦ rw (e, malloc) refl
    | inr (k, e) ↦
        rw (e, malloc)
          (places-fill q now k (obtain format buffer k.cursor.node) ∙ claim-places format q k e)
  ]

SameNodes-IsRespected : IsRespected SameNodes
SameNodes-IsRespected = record {
  untouched = λ q v. refl;
  on_malloc = λ format buffer now q v. places-malloc v format buffer now q;
  on_complete = λ frame header t₁ t₂ q v. places-complete v frame header t₁ t₂ q;
  on_cancel = λ format frame q v. places-cancel v format frame q;
  on_get = λ consumer_id q v. get_places v consumer_id q;
  on_release = λ format consumer_id frame q v. release_places v format consumer_id frame q;
  on_register = λ consumer_id q v. register_places v consumer_id q;
  on_unregister = λ consumer_id q v. unregister_places v consumer_id q;
  on_clear = λ q v. places-clear v q;
}

-- No call loses, makes up or duplicates a frame node: in each queue, the nodes of the free list and
-- the ready list together have the same addresses, each as often, after the call as before it.
pub step-SameNodes : (c : Call) (s : State) (j : ℕ) → SameNodes (s.queue j) ((step c s).queue j)
step-SameNodes = step_lift SameNodes SameNodes-IsRespected
