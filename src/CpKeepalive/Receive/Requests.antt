-- ===== src/CpKeepalive/Receive/Requests.antt =====
-- Wake-up requests among the messages that the receiving thread unpacks.
use bk_solution_doorbell.Base.{
  ℕ, suc, ◌+◌, ◌%◌, ◌≡◌, refl, inl, inr, Bool, true, false, some, List, [], ◌∷◌, ◌++◌, arith, ◌==◌,
  ltb, if◌then◌else◌, Bool-cases, length,
}
use bk_solution_doorbell.Message.{put16, put32}
use bk_solution_doorbell.DbPack
use bk_solution_doorbell.DbPack.{
  Chan, Event, recv, crc_mismatch, Outcome, done, overflow, out_of_fuel, unpack, head_size, room,
}
use bk_solution_doorbell.CpKeepalive.{Env, Action, wakeup_host, multimedia_wakeup_host}
use bk_solution_doorbell.CpKeepalive.Receive.{
  opcode_at, report_on, event_report, cmd_recive_callback, unpack_callback, callbacks,
}

-- How often the host is woken up for its remote device.
abbrev pub wake_ups : List Action → ℕ
wake_ups [] = 0
wake_ups (wakeup_host multimedia_wakeup_host ∷ acts) = suc (wake_ups acts)
wake_ups (_ ∷ acts) = wake_ups acts

pub wake_ups-append : (xs ys : List Action) → wake_ups (xs ++ ys) ≡ wake_ups xs + wake_ups ys
wake_ups-append [] ys = omega arith
wake_ups-append (x ∷ xs) ys = ground (arith, wake_ups-append xs ys)

-- Whether a message is a wake-up request.
abbrev pub is_request : List ℕ → Bool
is_request cmd = if ltb (length cmd) 10 then false else opcode_at cmd == 19

abbrev pub one_if : Bool → ℕ
one_if b = if b then 1 else 0

-- How many of the messages in some events are wake-up requests.
abbrev pub requests : List Event → ℕ
requests [] = 0
requests (crc_mismatch ∷ es) = requests es
requests (recv cmd ∷ es) = one_if (is_request cmd) + requests es

-- A receiving side that runs: the same but for the sequence number that it sends with.
abbrev pub Runs : Chan → Env → Type 0
Runs chan e =
    (e.ongoing ≡ true)
    × ((k : ℕ) × (e.sock ≡ some k))
    × ((n : ℕ) × (e.pack ≡ some (record chan { sequence = n })))

module _ (crc8 : List ℕ → ℕ → ℕ) (now : ℕ) where
  abbrev Quiet : Chan → Env × List Action → Type 0
  Quiet chan r = (wake_ups r.1 ≡ 0) × Runs chan r.0

  report_on-Quiet :
      (sock : ℕ) (event : List ℕ) (chan : Chan) (n : ℕ) (e : Env)
      → Runs chan e
      → Quiet chan (report_on crc8 sock now event (record chan { sequence = n }) e)
  unfolding report_on DbPack.pack
  report_on-Quiet sock event chan n e h = elim (Bool-cases (ltb chan.tsize (length event))) [
    | inl k ↦ rw (report_on, k) (refl, h)
    | inr k ↦ rw (report_on, k) (refl, (h.0, h.1, ((n + 1) % 65536, refl)))
  ]

  event_report-Quiet :
      (opcode status flags : ℕ) (chan : Chan) (e : Env)
      → Runs chan e
      → Quiet chan (event_report crc8 opcode status flags now e)
  unfolding event_report
  event_report-Quiet opcode status flags chan e h =
      let event = put32 opcode ++ (status % 256 ∷ (put16 flags ++ put16 0)) in
      let (sock, k) = h.1 in
      let (n, p) = h.2 in simp (event_report, k, p) (report_on-Quiet sock event chan n e h)

  callback-Counts :
      (cmd : List ℕ) (chan : Chan) (e : Env)
      → Runs chan e
      → let r = unpack_callback crc8 now cmd e in
        (wake_ups r.1 ≡ one_if (is_request cmd)) × Runs chan r.0
  unfolding unpack_callback cmd_recive_callback
  callback-Counts cmd chan e h = elim (Bool-cases (ltb (length cmd) 10)) [
    | inl a ↦ rw a (refl, h)
    | inr a ↦ elim (Bool-cases (opcode_at cmd == 18)) [
      | inl b ↦ (ground arith, rw (a, b) h)
      | inr b ↦ elim (Bool-cases (opcode_at cmd == 19)) [
        | inl c ↦ rw (a, b, c) (refl, h)
        | inr c ↦ rw (a, b, c) (event_report-Quiet (opcode_at cmd) 12 0 chan e h)
      ]
    ]
  ]

  pub callbacks-Count :
      (es : List Event) (chan : Chan) (e : Env)
      → Runs chan e
      → let r = callbacks crc8 now es e in (wake_ups r.1 ≡ requests es) × Runs chan r.0
  unfolding callbacks
  callbacks-Count [] chan e h = (refl, h)
  callbacks-Count (crc_mismatch ∷ es) chan e h = callbacks-Count es chan e h
  callbacks-Count (recv cmd ∷ es) chan e h =
      let (e1, acts) = unpack_callback crc8 now cmd e in
      let (one, runs) = callback-Counts cmd chan e h in
      let (more, runs') = callbacks-Count es chan e1 runs in
      (omega (arith, wake_ups-append acts (callbacks crc8 now es e1).1, one, more), runs')
