-- ===== src/FrameQueue/Producer.antt =====
-- The producer's side: frame_queue_v2_malloc, frame_queue_v2_complete, frame_queue_v2_cancel.
use bk_solution_doorbell.Base.{
  ℕ, ◌+◌, Bool, true, false, not, ◌&&◌, Option, none, some, List, [], ◌∷◌, ◌++◌, ◌==◌, ltb,
  if◌then◌else◌,
}
use bk_solution_doorbell.FrameQueue.Node.{
  Format, mjpeg, h264, yuv, other, pool_of, Status, bk_ok, bk_fail, Node, frame_is,
  count_active_consumers, inc32, Cursor, find, put_back, unlinked,
}
use bk_solution_doorbell.FrameQueue.Queue.{Queue, Freed}

-- The fields of `frame_buffer_t` that the file writes or reads.
pub record FrameHeader : Type 0 where
  pub type : ℕ
  pub fmt : ℕ
  pub crc : ℕ
  pub timestamp : ℕ
  pub width : ℕ
  pub height : ℕ
  pub length : ℕ
  pub sequence : ℕ
  pub h264_type : ℕ

abbrev pub blank_header : FrameHeader
blank_header = record {
  type = 0;
  fmt = 0;
  crc = 0;
  timestamp = 0;
  width = 0;
  height = 0;
  length = 0;
  sequence = 0;
  h264_type = 0;
}

abbrev pub may_drop : Format → Bool
may_drop mjpeg = true
may_drop h264 = false
may_drop yuv = true
may_drop (other _) = false

abbrev pub claimed : Node → Node
claimed n = record n { in_use = true }

-- The node that the critical section of `malloc` reserves: its place in the free list afterwards,
-- and the ready list that is left.
pub record Claim : Type 0 where
  pub cursor : Cursor
  pub ready : List Node

unfoldable pub claim_ready : Format → Queue → Option Claim
claim_ready format q =
    if may_drop format
    then elim (find (λ n. n.ref_count == 0) q.ready_list) [
      | none ↦ none
      | some c ↦ some (record {
        cursor = record { before = []; node = claimed c.node; after = q.free_list };
        ready = unlinked c;
      })
    ]
    else none

unfoldable pub claim : Format → Queue → Option Claim
unfolding claim_ready find
claim format q = elim (find (λ n. not n.in_use) q.free_list) [
  | none ↦ claim_ready format q
  | some c ↦ some (record { cursor = record c { node = claimed c.node }; ready = q.ready_list })
]

-- The node's buffer, or a new one. `buffer` is what `frame_buffer_encode_malloc` or
-- `frame_buffer_display_malloc` returns, if it is called.
unfoldable pub obtain : Format → Option ℕ → Node → Option ℕ
unfolding pool_of
obtain format buffer n = elim n.frame [
  | none ↦ elim (pool_of format) [ none ↦ none | some _ ↦ buffer ]
  | some f ↦ some f
]

-- What follows the critical section. Without a buffer the reservation is taken back.
unfoldable pub fill : Queue → (now : ℕ) → Claim → Option ℕ → Option (ℕ × FrameHeader) × Queue
fill q now k none = (
  none,
  record q {
    free_list = put_back k.cursor (record k.cursor.node { in_use = false });
    ready_list = k.ready;
  },
)
fill q now k (some frame) = (
  some (frame, blank_header),
  record q {
    free_list = put_back k.cursor (record k.cursor.node {
      frame = some frame;
      ref_count = 0;
      accessed_mask = 0;
      timestamp = now;
    });
    ready_list = k.ready;
    total_malloc = inc32 q.total_malloc;
  },
)

unfoldable pub malloc :
    Format → (buffer : Option ℕ) → (now : ℕ) → Queue → Option (ℕ × FrameHeader) × Queue × Freed
unfolding claim obtain fill
malloc format buffer now q = elim (claim format q) [
  | none ↦ (none, q, [])
  | some k ↦ let (r, q') = fill q now k (obtain format buffer k.cursor.node) in (r, q', [])
]

-- The node that the producer holds with this buffer.
abbrev pub holds : ℕ → Node → Bool
holds frame n = n.in_use && frame_is frame n

abbrev pub signal_count : ℕ → ℕ
signal_count consumer_count = if ltb 0 consumer_count then consumer_count else 1

-- `header` is what the producer has stored in the frame; `t₁` and `t₂` are two readings of the clock.
unfoldable pub complete_found : FrameHeader → (t₁ t₂ : ℕ) → Queue → Cursor → Queue
unfolding count_active_consumers
complete_found header t₁ t₂ q c = record q {
  free_list = unlinked c;
  ready_list =
      q.ready_list
      ++ (record c.node {
        in_use = false;
        accessed_mask = 0;
        timestamp = if ltb 0 header.timestamp then header.timestamp else t₁;
        create_time = t₂;
        consumer_mask = q.active_consumers;
      }
          ∷ []);
  signals = q.signals + signal_count (count_active_consumers q.active_consumers);
  total_complete = inc32 q.total_complete;
}

unfoldable pub complete :
    (frame : Option ℕ) → FrameHeader → (t₁ t₂ : ℕ) → Queue → Status × Queue × Freed
unfolding complete_found find
complete none header t₁ t₂ q = (bk_fail, q, [])
complete (some frame) header t₁ t₂ q = elim (find (holds frame) q.free_list) [
  | none ↦ (bk_fail, q, [])
  | some c ↦ (bk_ok, complete_found header t₁ t₂ q c, [])
]

-- `switch (format)` with a free in each case.
unfoldable pub free_frame : Format → Option ℕ → Freed
unfolding pool_of
free_frame format none = []
free_frame format (some frame) = elim (pool_of format) [
  | none ↦ []
  | some pool ↦ (pool, frame) ∷ []
]

unfoldable pub cancel_found : Queue → Cursor → Queue
cancel_found q c = record q {
  free_list = put_back c (record c.node { frame = none; in_use = false });
  total_free = inc32 q.total_free;
}

unfoldable pub cancel : Format → (frame : Option ℕ) → Queue → Status × Queue × Freed
unfolding cancel_found find free_frame
cancel format none q = (bk_fail, q, [])
cancel format (some frame) q = elim (find (holds frame) q.free_list) [
  | none ↦ (bk_fail, q, [])
  | some c ↦ (bk_ok, cancel_found q c, free_frame format c.node.frame)
]
