-- ===== src/FrameQueue/Node.antt =====
-- Frame nodes, image formats, consumer masks, and the walks along a frame list.
-- A list is modelled by its nodes from head to tail, and a pointer by a number; `FrameList` has
-- the pointer operations of the source.
use bk_solution_doorbell.Base.{
  ℕ, zero, suc, ◌+◌, ◌%◌, ◌/◌, ◌^◌, bit_and, Bool, false, not, ◌&&◌, Option, none, some, List, [],
  ◌∷◌, ◌++◌, ◌==◌, if◌then◌else◌,
}

-- `image_format_t`, as far as the switches of the file tell its values apart.
pub data Format : Type 0 where
  mjpeg h264 yuv : Format
  other : ℕ → Format

-- Which of the SDK's two buffer pools a frame buffer belongs to.
pub data Pool : Type 0 where
  encode display : Pool

-- The pool from which `frame_queue_v2_malloc` takes buffers of a format, and to which every
-- `switch (format)` of the file gives them back; `none` is the `default` case.
unfoldable pub pool_of : Format → Option Pool
pool_of mjpeg = some encode
pool_of h264 = some encode
pool_of yuv = some display
pool_of (other _) = none

unfoldable pub list_index : Format → Option ℕ
list_index mjpeg = some 0
list_index h264 = some 1
list_index yuv = some 2
list_index (other _) = none

-- `bk_err_t`.
pub data Status : Type 0 where
  bk_ok bk_fail bk_err_no_mem : Status

-- `frame_node_t` without its links. `addr` is the node's address, `frame` the buffer's address.
pub record Node : Type 0 where
  pub addr : ℕ
  pub frame : Option ℕ
  pub ref_count : ℕ
  pub consumer_mask : ℕ
  pub accessed_mask : ℕ
  pub timestamp : ℕ
  pub create_time : ℕ
  pub in_use : Bool

-- `mask & bits`, as a condition.
abbrev pub has : ℕ → ℕ → Bool
has mask bits = not (bit_and mask bits == 0)

-- The test of `frame_queue_v2_get_frame` and `frame_queue_v2_unregister_consumer`: the consumer is
-- to see the frame and has not yet.
unfoldable pub wants : ℕ → Node → Bool
wants consumer_id n = has n.consumer_mask consumer_id && not (has n.accessed_mask consumer_id)

-- `(node->accessed_mask & node->consumer_mask) == node->consumer_mask`.
abbrev pub all_accessed : Node → Bool
all_accessed n = bit_and n.accessed_mask n.consumer_mask == n.consumer_mask

-- The reset of a node that goes back to the free list. Its buffer stays.
unfoldable pub reset : Node → Node
reset n = record n {
  ref_count = 0;
  consumer_mask = 0;
  accessed_mask = 0;
  timestamp = 0;
  in_use = false;
}

abbrev pub frame_is : ℕ → Node → Bool
frame_is frame n = elim n.frame [ none ↦ false | some f ↦ f == frame ]

-- `while (mask) { count += mask & 1; mask >>= 1; }`, for the rounds that a 32-bit mask can take.
unfoldable pub count_bits : ℕ → ℕ → ℕ
count_bits zero mask = 0
count_bits (suc rounds) mask =
    let rest = count_bits rounds (mask / 2) in if mask == 0 then 0 else mask % 2 + rest

unfoldable pub count_active_consumers : ℕ → ℕ
unfolding count_bits
count_active_consumers mask = count_bits 32 mask

-- `for (i = 0; i < 8; i++) if (consumer_id & (1 << i)) { consumer_idx = i; break; }`.
unfoldable pub consumer_idx_from : ℕ → ℕ → ℕ → Option ℕ
consumer_idx_from zero i consumer_id = none
consumer_idx_from (suc left) i consumer_id =
    let rest = consumer_idx_from left (i + 1) consumer_id in
    if has consumer_id (2 ^ i) then some i else rest

unfoldable pub consumer_idx : ℕ → Option ℕ
unfolding consumer_idx_from
consumer_idx consumer_id = consumer_idx_from 8 0 consumer_id

-- `x++` on a `uint32_t`.
abbrev pub inc32 : ℕ → ℕ
inc32 x = (x + 1) % 4294967296

-- A list around the first node that passes a test.
pub record Cursor : Type 0 where
  pub before : List Node
  pub node : Node
  pub after : List Node

abbrev pub push_before : Node → Option Cursor → Option Cursor
push_before n none = none
push_before n (some c) = some (record c { before = n ∷ c.before })

-- The walk `while (temp != NULL) { if (test) { …; break; } temp = temp->next; }`.
unfoldable pub find : (Node → Bool) → List Node → Option Cursor
find test [] = none
find test (n ∷ ns) =
    let rest = push_before n (find test ns) in
    if test n then some (record { before = []; node = n; after = ns }) else rest

-- The list with the node that was found written back as `n`, and the list without it.
abbrev pub put_back : Cursor → Node → List Node
put_back c n = c.before ++ (n ∷ c.after)

abbrev pub unlinked : Cursor → List Node
unlinked c = c.before ++ c.after

-- The walk along a ready list that may take the node at hand out and append it to the free list:
-- `visit` gives the node as it is afterwards, and whether it is moved.
unfoldable pub sweep : (Node → Node × Bool) → List Node → List Node → List Node × List Node
sweep visit [] free = ([], free)
sweep visit (n ∷ ns) free =
    let (n', move) = visit n in
    let (ready, free') = sweep visit ns (if move then free ++ (reset n' ∷ []) else free) in
    (if move then ready else n' ∷ ready, free')
