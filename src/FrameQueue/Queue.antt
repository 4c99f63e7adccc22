-- ===== src/FrameQueue/Queue.antt =====
-- One frame queue, `frame_queue_v2_t`.
use bk_solution_doorbell.Base.{ℕ, Bool, false, List, [], ◌∷◌}
use bk_solution_doorbell.FrameQueue.Node.{Format, Pool, Node}

pub record ConsumerInfo : Type 0 where
  pub consumer_id : ℕ
  pub get_count : ℕ
  pub release_count : ℕ
  pub enabled : Bool

-- `signals` counts the calls of `rtos_set_semaphore` on `frame_ready`.
pub record Queue : Type 0 where
  pub count : ℕ
  pub format : Format
  pub free_list : List Node
  pub ready_list : List Node
  pub active_consumers : ℕ
  pub consumers : List ConsumerInfo
  pub signals : ℕ
  pub total_malloc : ℕ
  pub total_complete : ℕ
  pub total_free : ℕ

-- The buffers handed to `frame_buffer_encode_free` or `frame_buffer_display_free`, in order.
abbrev pub Freed : Type 0
Freed = List (Pool × ℕ)

abbrev pub no_consumer : ConsumerInfo
no_consumer = record { consumer_id = 0; get_count = 0; release_count = 0; enabled = false }

-- `frame_queue_v2[index]` after `os_memset(…, 0, …)`; the format's zero is IMAGE_MJPEG or another
-- value, which no function reads while `count` is 0.
unfoldable pub cleared : Format → Queue
cleared format = record {
  count = 0;
  format = format;
  free_list = [];
  ready_list = [];
  active_consumers = 0;
  consumers =
      no_consumer ∷ no_consumer ∷ no_consumer ∷ no_consumer ∷ no_consumer ∷ no_consumer
      ∷ no_consumer ∷ no_consumer ∷ [];
  signals = 0;
  total_malloc = 0;
  total_complete = 0;
  total_free = 0;
}
