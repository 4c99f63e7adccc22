-- ===== src/Devices/Stuck.antt =====
-- States of the devices that later calls cannot leave.
use bk_solution_doorbell.Base.{
  ◌≡◌, refl, ◌∙◌, inl, inr, true, false, ◌&&◌, none, some, List, [], ◌∷◌, arith, Bool-cases,
}
use bk_solution_doorbell.Devices.{
  ok, bk_fail, Info, TransCfg, register_consumer, Calls, consumer_transmission,
}
use bk_solution_doorbell.Devices.Transfer.{
  devices_start, devices_stop, video_transfer_turn_on, video_transfer_turn_off,
}
use bk_solution_doorbell.Devices.System.{
  State, Op, camera_on, camera_off, transfer_on, transfer_off, display_on, display_off, apply, Call,
  run,
}

-- A configuration without a thread is left.
abbrev pub IsStuck : TransCfg → State → Type 0
IsStuck t s = (s.trans ≡ some t) × (t.enable ≡ false)

-- With it the transfer is turned on in name only, and cannot be turned off.
stuck_on :
    (c : Calls) (s : State) (t : TransCfg)
    → IsStuck t s
    → s.info.handle ≡ true
    → let (ret, s', acts) = apply transfer_on c s in
      (ret ≡ ok)
      × (s'.trans ≡ s.trans)
      × (acts ≡ register_consumer s.info.transfer_format consumer_transmission ∷ [])
unfolding apply video_transfer_turn_on devices_start
stuck_on c s t (e, h) k = simp (e, k) (refl, refl, refl)

stuck_off :
    (c : Calls) (s : State) (t : TransCfg)
    → IsStuck t s
    → s.info.handle ≡ true
    → let (ret, s', _) = apply transfer_off c s in (ret ≡ bk_fail) × (s'.trans ≡ s.trans)
unfolding apply video_transfer_turn_off devices_stop
stuck_off c s t (e, h) k = simp (e, k, h) (refl, refl)

closed_camera :
    (c : Calls) (s : State)
    → s.info.handle ≡ false
    → ((apply transfer_on c s).1.trans ≡ s.trans) × ((apply transfer_off c s).1.trans ≡ s.trans)
unfolding apply video_transfer_turn_on video_transfer_turn_off
closed_camera c s k = simp k (refl, refl)

apply-stuck :
    (op : Op) (c : Calls) (s : State) (t : TransCfg)
    → IsStuck t s
    → (apply op c s).1.trans ≡ s.trans
unfolding apply
apply-stuck (camera_on p) c s t h = refl
apply-stuck camera_off c s t h = refl
apply-stuck (display_on p) c s t h = refl
apply-stuck display_off c s t h = refl
apply-stuck transfer_on c s t h = elim (Bool-cases s.info.handle) [
  | inl k ↦ (stuck_on c s t h k).1
  | inr k ↦ (closed_camera c s k).0
]
apply-stuck transfer_off c s t h = elim (Bool-cases s.info.handle) [
  | inl k ↦ (stuck_off c s t h k).1
  | inr k ↦ (closed_camera c s k).1
]

run-IsStuck : (xs : List Call) (s : State) (t : TransCfg) → IsStuck t s → IsStuck t (run xs s).0
unfolding run
run-IsStuck [] s t h = h
run-IsStuck (x ∷ xs) s t h =
    run-IsStuck xs (apply x.op x.calls s).1 t (apply-stuck x.op x.calls s t h ∙ h.0, h.1)

-- What a failed start leaves.
abbrev left_over : Info → Calls → TransCfg
left_over i c = record {
  enable = false;
  img_format = i.transfer_format;
  sem = c.trans_semaphore;
  transfer_thread = false;
}

failed_start :
    (c : Calls) (s : State)
    → s.trans ≡ none
    → s.info.handle ≡ true
    → c.trans_malloc ≡ true
    → c.trans_semaphore && c.trans_thread ≡ false
    → let (ret, s', _) = apply transfer_on c s in (ret ≡ bk_fail) × IsStuck (left_over s.info c) s'
unfolding apply video_transfer_turn_on devices_start devices_stop
failed_start c s h k l m = elim (Bool-cases c.trans_semaphore) [
  | inl e ↦
      let n : c.trans_thread ≡ false = ground (arith, m, e) in
      simp (h, k, l, e, n) (refl, (refl, refl))
  | inr e ↦ simp (h, k, l, e) (refl, (refl, refl))
]

-- When the semaphore or the thread of the video transfer cannot be created, the failed turn-on leaves a
-- configuration behind that no later calls, in any order, remove: while the camera is open, every
-- later turn-on then returns BK_OK but only registers the consumer and starts no thread, and every turn-off fails.
pub failed_start_lasts :
    (c : Calls) (s : State) (xs : List Call) (c' : Calls)
    → s.trans ≡ none
    → s.info.handle ≡ true
    → c.trans_malloc ≡ true
    → c.trans_semaphore && c.trans_thread ≡ false
    → (run xs (apply transfer_on c s).1).0.info.handle ≡ true
    → let (ret, s1, _) = apply transfer_on c s in
      let s2 = (run xs s1).0 in
      let (ret_on, _, acts) = apply transfer_on c' s2 in
      let (ret_off, _, _) = apply transfer_off c' s2 in
      (ret ≡ bk_fail)
      × (ret_on ≡ ok)
      × (acts ≡ register_consumer s2.info.transfer_format consumer_transmission ∷ [])
      × (ret_off ≡ bk_fail)
failed_start_lasts c s xs c' h k l m n =
    let (ret, s1, _) = apply transfer_on c s in
    let (bad, stuck) = failed_start c s h k l m in
    let s2 = (run xs s1).0 in
    let t = left_over s.info c in
    let still = run-IsStuck xs s1 t stuck in
    let on = stuck_on c' s2 t still n in
    let off = stuck_off c' s2 t still n in (bad, on.0, on.2, off.0)
