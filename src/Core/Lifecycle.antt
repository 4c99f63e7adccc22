-- ===== src/Core/Lifecycle.antt =====
-- The doorbell's loop does not come back.
use bk_solution_doorbell.Base.{
  ◌≡◌, refl, Bool, true, false, Option, none, some, List, [], ◌∷◌, ◌++◌, arith, if◌then◌else◌,
}
use bk_solution_doorbell.Core.{
  Options, Effect, DbInfo, fresh, InitResults, core_init, core_init_info, loop_exit, send_msg,
}

-- Several tries to start the doorbell, one after the other.
unfoldable pub tries : Options → List InitResults → Option DbInfo → Option DbInfo × List Effect
unfolding core_init
tries o [] i = (i, [])
tries o (r ∷ rs) i =
    let (i', es) = core_init o r i in let (last, rest) = tries o rs i' in (last, es ++ rest)

refused :
    (o : Options) (r : InitResults) (i : DbInfo)
    → (if i.has_queue then true else i.has_thd) ≡ true
    → core_init_info o r i ≡ (i, [])
unfolding core_init_info
refused o r i h = ground arith

tries_refused :
    (o : Options) (rs : List InitResults) (i : DbInfo)
    → (if i.has_queue then true else i.has_thd) ≡ true
    → tries o rs (some i) ≡ (some i, [])
unfolding tries core_init
tries_refused o [] i h = refl
tries_refused o (r ∷ rs) i h = rw (refused o r i h, tries_refused o rs i h) refl

-- When at the first try the structure and the message queue can be created but the thread cannot,
-- the queue stays: every later try to start the doorbell changes nothing and initialises no device,
-- whatever the calls would return, while messages that fit are accepted into the queue that nobody
-- reads.
pub thread_failure_lasts :
    (o : Options) (r : InitResults) (rs : List InitResults)
    → r.alloc ≡ true
    → r.queue ≡ true
    → r.thread ≡ false
    → let i : DbInfo = record fresh { has_queue = true } in
      (tries o (r ∷ rs) none ≡ (some i, [])) × (send_msg true i ≡ (true, true))
unfolding tries core_init core_init_info send_msg
thread_failure_lasts o r rs h k l =
    rw (h, k, l, tries_refused o rs (record fresh { has_queue = true }) refl) (refl, refl)

-- When the thread that ends does not return from its own deletion, its handle stays: after the loop was
-- left every later try to start the doorbell changes nothing, and a message is reported as sent although it
-- is put nowhere.
pub tries_after_exit :
    (o : Options) (pushed : Bool) (i : DbInfo) (rs : List InitResults)
    → i.has_thd ≡ true
    → let i' = loop_exit false i in
      (tries o rs (some i') ≡ (some i', [])) × (send_msg pushed i' ≡ (true, false))
unfolding loop_exit send_msg
tries_after_exit o pushed i rs h = (tries_refused o rs (loop_exit false i) h, refl)
