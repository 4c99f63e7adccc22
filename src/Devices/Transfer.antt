-- ===== src/Devices/Transfer.antt =====
-- components/smart_lock/src/doorbell_devices.c: the transfer of video frames to the network, and its thread.
use bk_solution_doorbell.Base.{
  ℕ, ◌+◌, ◌-◌, ◌%◌, ◌^◌, Bool, true, false, not, Option, none, some, List, [], ◌∷◌, ◌++◌, ltb,
  if◌then◌else◌,
}
use bk_solution_doorbell.FrameQueue.Node.{Format}
use bk_solution_doorbell.FrameQueue.Queue.{Queue}
use bk_solution_doorbell.FrameQueue.Consumer
use bk_solution_doorbell.FrameQueue.Consumer.{Outcome, returned, waiting, get_frame}
use bk_solution_doorbell.Devices.{
  Ret, ok, bk_fail, no_mem, Info, TransCfg, Action, register_consumer, unregister_consumer,
  trans_malloc, init_semaphore, create_thread, get_semaphore, deinit_semaphore, trans_free,
  wifi_media_mode, video_quality_sd, video_quality_hd, Calls, consumer_transmission,
}

-- doorbell_devices_stop. A thread that runs ends, and clears its handle, before it gives the semaphore.
unfoldable pub devices_stop : Option TransCfg → Ret × Option TransCfg × List Action
devices_stop none = (ok, none, [])
devices_stop (some t) =
    if t.enable
    then (
      ok,
      none,
      get_semaphore
          ∷ wifi_media_mode false
          ∷ video_quality_hd
          ∷ ((if t.sem then deinit_semaphore ∷ [] else []) ++ (trans_free ∷ [])),
    )
    else (bk_fail, some t, [])

-- The label `error` of doorbell_devices_start.
abbrev pub start_error : TransCfg → List Action → Ret × Option TransCfg × List Action
start_error t acts = let (_, t', acts') = devices_stop (some t) in (bk_fail, t', acts ++ acts')

-- doorbell_devices_start. The thread sets `enable` before it gives the semaphore.
unfoldable pub devices_start :
    Format → Calls → Option TransCfg → Ret × Option TransCfg × List Action
unfolding devices_stop
devices_start format c (some t) = (ok, some t, [])
devices_start format c none =
    let t : TransCfg = record {
      enable = false;
      img_format = format;
      sem = c.trans_semaphore;
      transfer_thread = false;
    } in
    if not c.trans_malloc
    then (no_mem, none, trans_malloc false ∷ [])
    else if not c.trans_semaphore
    then start_error t (trans_malloc true ∷ init_semaphore false ∷ [])
    else if not c.trans_thread
    then start_error t (trans_malloc true ∷ init_semaphore true ∷ create_thread false ∷ [])
    else (
      ok,
      some (record t { enable = true; transfer_thread = true }),
      trans_malloc true
          ∷ init_semaphore true
          ∷ create_thread true
          ∷ get_semaphore
          ∷ wifi_media_mode true
          ∷ video_quality_sd
          ∷ [],
    )

-- doorbell_video_transfer_turn_on.
unfoldable pub video_transfer_turn_on :
    Calls → Option Info → Option TransCfg → Ret × Option TransCfg × List Action
unfolding devices_start
video_transfer_turn_on c none t = (bk_fail, t, [])
video_transfer_turn_on c (some i) t =
    let (ret, t', acts) = devices_start i.transfer_format c t in
    if i.handle
    then (ret, t', register_consumer i.transfer_format consumer_transmission ∷ acts)
    else (bk_fail, t, [])

-- doorbell_video_transfer_turn_off.
unfoldable pub video_transfer_turn_off :
    Option Info → Option TransCfg → Ret × Option TransCfg × List Action
unfolding devices_stop
video_transfer_turn_off none t = (ok, t, [])
video_transfer_turn_off (some i) t =
    let (ret, t', acts) = devices_stop t in
    if i.handle
    then (ret, t', acts ++ (unregister_consumer i.transfer_format consumer_transmission ∷ []))
    else (ok, t, [])

-- A frame that the frame queue gives, and the time around its sending.
pub record Got : Type 0 where
  pub frame : ℕ
  pub length : ℕ
  pub before : ℕ
  pub after : ℕ

-- The counters of `media_debug` that the thread keeps, and `log_enable`.
pub record Counters : Type 0 where
  pub begin_trs : Bool
  pub end_trs : Bool
  pub meantimes : ℕ
  pub fps_wifi : ℕ
  pub wifi_kbps : ℕ
  pub log_enable : ℕ

-- What the counters keep of a number: `media_debug_t` is the SDK's.
pub record DebugFields : Type 0 where
  pub meantimes : ℕ → ℕ
  pub fps_wifi : ℕ → ℕ
  pub wifi_kbps : ℕ → ℕ

-- What the thread does with frames.
pub data FrameEffect : Type 0 where
  video_send : (frame length : ℕ) → FrameEffect
  release_frame : (frame : ℕ) → FrameEffect

-- One round of doorbell_devices_task_entry; `none` is a wait for a frame that ends without one. The
-- times `before` and `after` have 32 bits, `log_enable` 8.
unfoldable pub transfer_round : DebugFields → Option Got → Counters → Counters × List FrameEffect
transfer_round fields none k = (
  record k {
    log_enable = if ltb 100 ((k.log_enable + 1) % 256) then 0 else (k.log_enable + 1) % 256;
  },
  [],
)
transfer_round fields (some g) k = (
  record {
    begin_trs = false;
    end_trs = true;
    meantimes = fields.meantimes (k.meantimes + (g.after + (2 ^ 32 - g.before)) % 2 ^ 32);
    fps_wifi = fields.fps_wifi (k.fps_wifi + 1);
    wifi_kbps = fields.wifi_kbps (k.wifi_kbps + g.length);
    log_enable = 0;
  },
  video_send g.frame g.length ∷ release_frame g.frame ∷ [],
)

-- What a call of frame_queue_v2_get_frame gives the thread.
abbrev pub got_of : Outcome → (length before after : ℕ) → Option Got
got_of (returned (some frame)) length before after =
    some (record { frame = frame; length = length; before = before; after = after })
got_of (returned none) length before after = none
got_of waiting length before after = none

-- The calls of frame_queue_v2_release_frame among what the thread does, on the queue.
abbrev pub released : Format → List FrameEffect → Queue → Queue
released format [] q = q
released format (video_send frame length ∷ es) q = released format es q
released format (release_frame frame ∷ es) q =
    released format es (Consumer.release_frame format consumer_transmission (some frame) q).1

-- One round on the frame queue: the time gone by after the search, the frame's length, and the time around its sending. While the
-- call is blocked nothing happens; it searches again in the next round.
unfoldable pub task_entry :
    DebugFields
    → Format
    → (elapsed length before after : ℕ) → Queue
    → Counters
    → Queue × Counters × List FrameEffect
unfolding transfer_round
task_entry fields format elapsed length before after q k =
    let (out, q', _) = get_frame consumer_transmission (some 50) elapsed [] q in
    let (k', es) = transfer_round fields (got_of out length before after) k in
    (released format es q', k', es)
