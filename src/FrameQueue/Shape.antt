-- ===== src/FrameQueue/Shape.antt =====
-- No call between init and deinit changes whether a queue is initialised, or its format.
use bk_solution_doorbell.Base.{
  [], ℕ, ◌≡◌, refl, Option, none, some, arith, Option-cases, Bool-cases, ◌==◌, inl, inr,
}
use bk_solution_doorbell.FrameQueue.Node.{Format, wants, consumer_idx, find, frame_is, Cursor}
use bk_solution_doorbell.FrameQueue.Queue.{Queue}
use bk_solution_doorbell.FrameQueue.Producer
use bk_solution_doorbell.FrameQueue.Producer.{
  FrameHeader, fill, complete_found, cancel_found, holds, claim, obtain, Claim,
}
use bk_solution_doorbell.FrameQueue.Consumer
use bk_solution_doorbell.FrameQueue.Consumer.{
  returned, register_at, unregister_at, search_ready, get_loop, release_found,
}
use bk_solution_doorbell.FrameQueue.Admin
use bk_solution_doorbell.FrameQueue.State.{State, Call, step}
use bk_solution_doorbell.FrameQueue.Lift.{IsRespected, step_lift}

pub record SameShape (q q' : Queue) : Type 0 where
  pub same_count : q'.count ≡ q.count
  pub same_format : q'.format ≡ q.format

fill-SameShape : (q : Queue) (now : ℕ) (k : Claim) (f : Option ℕ) → SameShape q (fill q now k f).1
unfolding fill
fill-SameShape q now k none = record { same_count = refl; same_format = refl }
fill-SameShape q now k (some f) = record { same_count = refl; same_format = refl }

malloc-SameShape :
    (format : Format) (buffer : Option ℕ) (now : ℕ) (q : Queue)
    → SameShape q (Producer.malloc format buffer now q).1
unfolding Producer.malloc
malloc-SameShape format buffer now q = elim (Option-cases (claim format q)) [
  | inl e ↦ rw (e, Producer.malloc) (record { same_count = refl; same_format = refl })
  | inr (k, e) ↦
      rw (e, Producer.malloc) (fill-SameShape q now k (obtain format buffer k.cursor.node))
]

complete-SameShape :
    (frame : Option ℕ) (header : FrameHeader) (t₁ t₂ : ℕ) (q : Queue)
    → SameShape q (Producer.complete frame header t₁ t₂ q).1
unfolding Producer.complete
complete-SameShape none header t₁ t₂ q = record { same_count = refl; same_format = refl }
complete-SameShape (some frame) header t₁ t₂ q =
    elim (Option-cases (find (holds frame) q.free_list)) [
      | inl e ↦ rw (e, Producer.complete) (record { same_count = refl; same_format = refl })
      | inr (c, e) ↦ rw (e, Producer.complete) (record { same_count = refl; same_format = refl })
    ]

cancel-SameShape :
    (format : Format) (frame : Option ℕ) (q : Queue)
    → SameShape q (Producer.cancel format frame q).1
unfolding Producer.cancel
cancel-SameShape format none q = record { same_count = refl; same_format = refl }
cancel-SameShape format (some frame) q = elim (Option-cases (find (holds frame) q.free_list)) [
  | inl e ↦ rw (e, Producer.cancel) (record { same_count = refl; same_format = refl })
  | inr (c, e) ↦ rw (e, Producer.cancel) (record { same_count = refl; same_format = refl })
]

search-SameShape : (i consumer_id : ℕ) (q : Queue) → SameShape q (search_ready i consumer_id q).1
unfolding search_ready
search-SameShape i consumer_id q = elim (Option-cases (find (wants consumer_id) q.ready_list)) [
  | inl e ↦ rw (e, search_ready) (record { same_count = refl; same_format = refl })
  | inr (c, e) ↦ rw (e, search_ready) (record { same_count = refl; same_format = refl })
]

get-SameShape :
    (consumer_id : ℕ) (timeout : Option ℕ) (elapsed : ℕ) (q : Queue)
    → SameShape q (Consumer.get_frame consumer_id timeout elapsed [] q).1
unfolding Consumer.get_frame get_loop
get-SameShape consumer_id timeout elapsed q = elim (Option-cases (consumer_idx consumer_id)) [
  | inl d ↦ rw (d, Consumer.get_frame) (record { same_count = refl; same_format = refl })
  | inr (i, d) ↦ rw (d, Consumer.get_frame) (ground (arith, search-SameShape i consumer_id q))
]

release_found-SameShape :
    (format : Format) (i : ℕ) (q : Queue) (c : Cursor) → SameShape q (release_found format i q c).0
unfolding release_found
release_found-SameShape format i q c = ground arith

release-SameShape :
    (format : Format) (consumer_id : ℕ) (frame : Option ℕ) (q : Queue)
    → SameShape q (Consumer.release_frame format consumer_id frame q).1
unfolding Consumer.release_frame
release-SameShape format consumer_id none q = record { same_count = refl; same_format = refl }
release-SameShape format consumer_id (some frame) q =
    elim (Option-cases (consumer_idx consumer_id)) [
      | inl d ↦ rw (d, Consumer.release_frame) (record { same_count = refl; same_format = refl })
      | inr (i, d) ↦ elim (Option-cases (find (frame_is frame) q.ready_list)) [
        | inl e ↦
            rw (d, e, Consumer.release_frame) (record { same_count = refl; same_format = refl })
        | inr (c, e) ↦ rw (d, e, Consumer.release_frame) (release_found-SameShape format i q c)
      ]
    ]

register-SameShape :
    (consumer_id : ℕ) (q : Queue) → SameShape q (Consumer.register_consumer consumer_id q).1
unfolding Consumer.register_consumer
register-SameShape consumer_id q = elim (Option-cases (consumer_idx consumer_id)) [
  | inl d ↦ rw (d, Consumer.register_consumer) (record { same_count = refl; same_format = refl })
  | inr (i, d) ↦
      rw (d, Consumer.register_consumer) (record { same_count = refl; same_format = refl })
]

unregister-SameShape :
    (consumer_id : ℕ) (q : Queue) → SameShape q (Consumer.unregister_consumer consumer_id q).1
unfolding Consumer.unregister_consumer
unregister-SameShape consumer_id q = elim (Option-cases (consumer_idx consumer_id)) [
  | inl d ↦ rw (d, Consumer.unregister_consumer) (record { same_count = refl; same_format = refl })
  | inr (i, d) ↦
      rw (d, Consumer.unregister_consumer) (record { same_count = refl; same_format = refl })
]

clear-SameShape : (q : Queue) → SameShape q (Admin.clear q).0
unfolding Admin.clear
clear-SameShape q = elim (Bool-cases (q.count == 0)) [
  | inl e ↦ rw (e, Admin.clear) (record { same_count = refl; same_format = refl })
  | inr e ↦ rw (e, Admin.clear) (record { same_count = refl; same_format = refl })
]

SameShape-IsRespected : IsRespected SameShape
SameShape-IsRespected = record {
  untouched = λ q. record { same_count = refl; same_format = refl };
  on_malloc = malloc-SameShape;
  on_complete = complete-SameShape;
  on_cancel = cancel-SameShape;
  on_get = λ consumer_id. get-SameShape consumer_id none 0;
  on_release = release-SameShape;
  on_register = register-SameShape;
  on_unregister = unregister-SameShape;
  on_clear = clear-SameShape;
}

pub step-SameShape : (c : Call) (s : State) (j : ℕ) → SameShape (s.queue j) ((step c s).queue j)
step-SameShape = step_lift SameShape SameShape-IsRespected
