-- ===== src/FrameQueue/Admin.antt =====
-- The life of one queue: frame_queue_v2_init, frame_queue_v2_deinit, one round of
-- frame_queue_v2_clear_all, frame_queue_v2_get_stats.
use bk_solution_doorbell.Base.{
  ℕ, zero, suc, Bool, false, Option, none, some, List, [], ◌∷◌, ◌++◌, map, ◌==◌, if◌then◌else◌,
  length,
}
use bk_solution_doorbell.FrameQueue.Node.{
  Format, mjpeg, h264, yuv, other, Status, bk_ok, Node, sweep,
}
use bk_solution_doorbell.FrameQueue.Queue.{Queue, Freed, cleared}
use bk_solution_doorbell.FrameQueue.Producer.{free_frame}

unfoldable pub frame_count : Format → ℕ
frame_count mjpeg = 4
frame_count h264 = 6
frame_count yuv = 3
frame_count (other _) = 0

-- `frame_node_create(NULL)` at the address that `os_malloc` returned.
abbrev pub fresh_node : ℕ → (now : ℕ) → Node
fresh_node addr now = record {
  addr = addr;
  frame = none;
  ref_count = 0;
  consumer_mask = 0;
  accessed_mask = 0;
  timestamp = 0;
  create_time = now;
  in_use = false;
}

-- `for (i = 0; i < frame_count; i++)`: `alloc i` is what `os_malloc` returns in round `i`. A round
-- whose allocation fails adds nothing.
unfoldable pub create_nodes : ℕ → ℕ → (alloc : ℕ → Option ℕ) → (now : ℕ) → List Node → List Node
create_nodes zero i alloc now free = free
create_nodes (suc left) i alloc now free =
    create_nodes left (suc i) alloc now
      (elim (alloc i) [ none ↦ free | some addr ↦ free ++ (fresh_node addr now ∷ []) ])

-- `semaphore` is what `rtos_init_semaphore` returns. The two calls of `frame_list_init` cannot fail:
-- they are given addresses.
unfoldable pub init :
    Format → (semaphore : Status) → (alloc : ℕ → Option ℕ) → (now : ℕ) → Queue → Status × Queue
unfolding frame_count create_nodes cleared
init format semaphore alloc now q =
    if q.count == 0
    then elim semaphore [
      | bk_ok ↦ (
        bk_ok,
        record (cleared format) {
          count = frame_count format;
          free_list = create_nodes (frame_count format) 0 alloc now [];
        },
      )
      | failed ↦ (failed, record (cleared format) { count = frame_count format })
    ]
    else (bk_ok, q)

-- `frame_node_destroy` on each node that `frame_list_pop_head` gives.
unfoldable pub destroy_all : Format → List Node → Freed
unfolding free_frame
destroy_all format [] = []
destroy_all format (n ∷ ns) = free_frame format n.frame ++ destroy_all format ns

unfoldable pub deinit : Format → Queue → Status × Queue × Freed
unfolding destroy_all cleared
deinit format q =
    if q.count == 0
    then (bk_ok, q, [])
    else (bk_ok, cleared mjpeg, destroy_all format q.free_list ++ destroy_all format q.ready_list)

abbrev pub unheld : Node → Node × Bool
unheld n = (n, n.ref_count == 0)

-- The second walk of `frame_queue_v2_clear_all`, along the free list.
unfoldable pub strip : Node → Node
strip n = record n { frame = none; in_use = false }

-- One round of the loop of `frame_queue_v2_clear_all`; the pool is that of `q.format`.
unfoldable pub clear : Queue → Queue × Freed
unfolding sweep strip destroy_all
clear q =
    let (ready, free) = sweep unheld q.ready_list q.free_list in
    if q.count == 0
    then (q, [])
    else (record q { ready_list = ready; free_list = map strip free }, destroy_all q.format free)

-- What frame_queue_v2_get_stats stores through its pointers.
pub record Stats : Type 0 where
  pub free_count : ℕ
  pub ready_count : ℕ
  pub total_malloc : ℕ
  pub total_complete : ℕ
  pub total_free : ℕ

unfoldable pub get_stats : Queue → Option Stats
get_stats q =
    if q.count == 0
    then none
    else some (record {
      free_count = length q.free_list;
      ready_count = length q.ready_list;
      total_malloc = q.total_malloc;
      total_complete = q.total_complete;
      total_free = q.total_free;
    })
