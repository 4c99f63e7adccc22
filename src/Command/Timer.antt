-- ===== src/Command/Timer.antt =====
-- The keep-alive timer over sequences of commands.
use bk_solution_doorbell.Base.{
  ℕ, suc, ◌≡◌, ◌≢◌, refl, ap, ◌∙◌, inl, inr, Bool, true, false, Option, none, some, List, [], ◌∷◌,
  arith, ◌==◌, ltb, if◌then◌else◌, Bool-cases, All,
}
use bk_solution_doorbell.Command.{
  set_service_type, set_camera_turn_on, set_camera_turn_off, set_audio_turn_on, set_audio_turn_off,
  set_lcd_turn_on, set_lcd_turn_off, set_keep_alive, Opcode, opcode_of, State, boot, Results,
  event_report, Action, init_timer, deinit_timer, cmd_server_init, keep_alive_start_timer,
  keep_alive_stop_timer, cmd_server_deinit, restart_timer, set_up, CmdInfo,
}
use bk_solution_doorbell.Command.SdkTimers.{
  SdkTimer, timers_after, running_periods, wanted_periods, timers_after-append, Matches,
  Matches-wanted_periods,
}
use bk_solution_doorbell.Command.Handler.{
  ServiceBit, vote_if, camera_bit, audio_bit, lcd_bit, dispatch, cmd_recive_callback, get32,
  Arrival, run, keep_alive, service_type,
}

-- Every call for the timer and the allocation succeeds.
abbrev pub AllSucceed : Results → Type 0
AllSucceed r =
    (r.alloc ≡ true) × (r.init ≡ true) × (r.start ≡ true) × (r.stop ≡ true) × (r.deinit ≡ true)

-- The timer that a request asks for: none, or one with the period of the request.
abbrev pub wanted : (param : ℕ) → Option CmdInfo
wanted param = if param == 0 then none else some (record { has_handle = true; intval_ms = param })

-- A structure that exists has a timer with a period.
abbrev pub IsSetUp : Option CmdInfo → Type 0
IsSetUp none = Unit
IsSetUp (some i) = (i.has_handle ≡ true) × (i.intval_ms ≢ 0)

-- How many timers of the SDK a sequence of calls leaves behind, beyond those that it found.
abbrev pub set_ups : List Action → ℕ
set_ups [] = 0
set_ups (init_timer v true ∷ acts) = suc (set_ups acts)
set_ups (_ ∷ acts) = set_ups acts

abbrev pub removals : List Action → ℕ
removals [] = 0
removals (deinit_timer true ∷ acts) = suc (removals acts)
removals (_ ∷ acts) = removals acts

keep_alive-Matches :
    (param : ℕ) (r : Results) (info : Option CmdInfo) (ts : List SdkTimer)
    → AllSucceed r
    → IsSetUp info
    → Matches info ts
    → let (info', acts) = keep_alive param r info in Matches info' (timers_after acts ts)
unfolding keep_alive cmd_server_init keep_alive_start_timer keep_alive_stop_timer cmd_server_deinit
    restart_timer set_up
keep_alive-Matches param r none ts h k m = ground arith
keep_alive-Matches param r (some i) [] h k m = elim m [ ]
keep_alive-Matches param r (some i) (t ∷ ts) h k m = ground arith

keep_alive-wanted :
    (param : ℕ) (r : Results) (info : Option CmdInfo)
    → AllSucceed r
    → IsSetUp info
    → (keep_alive param r info).0 ≡ wanted param
unfolding keep_alive cmd_server_init keep_alive_start_timer keep_alive_stop_timer cmd_server_deinit
    restart_timer set_up
keep_alive-wanted param r none h k = ground arith
keep_alive-wanted param r (some i) h k = ground arith

wanted-IsSetUp : (param : ℕ) → IsSetUp (wanted param)
wanted-IsSetUp param = ground arith

-- A request for the keep-alive timer with a parameter.
abbrev pub IsRequest : (param : ℕ) → Arrival → Type 0
IsRequest param a =
    (ltb a.length 10 ≡ false)
    × (opcode_of (get32 a.cmd 0) ≡ set_keep_alive)
    × (get32 a.cmd 4 ≡ param)

request-info :
    (param : ℕ) (a : Arrival) (s : State)
    → IsRequest param a
    → (cmd_recive_callback a.cmd a.length a.results s).0.info
      ≡ (keep_alive param a.results s.info).0
unfolding cmd_recive_callback dispatch
request-info param a s (h, k, l) = rw (h, k, ← l) refl

-- The timer that the latest request asks for.
abbrev pub wanted_next : Opcode → (cmd : ℕ → ℕ) → Option CmdInfo → Option CmdInfo
wanted_next set_keep_alive cmd info = wanted (get32 cmd 4)
wanted_next _ cmd info = info

abbrev pub wanted_after : List Arrival → Option CmdInfo → Option CmdInfo
wanted_after [] info = info
wanted_after (a ∷ as') info =
    wanted_after as'
      (if ltb a.length 10 then info else wanted_next (opcode_of (get32 a.cmd 0)) a.cmd info)

vote-info :
    (ret : ℕ) (b : ServiceBit) (on : Bool) (s : State)
    → IsSetUp s.info
    → ((vote_if ret b on s).info ≡ s.info) × IsSetUp s.info
vote-info ret b on s k = (ground arith, k)

dispatch-wanted :
    (op : Opcode) (cmd : ℕ → ℕ) (r : Results) (s : State)
    → AllSucceed r
    → IsSetUp s.info
    → ((dispatch op cmd r s).0.info ≡ wanted_next op cmd s.info)
      × IsSetUp (wanted_next op cmd s.info)
unfolding dispatch
dispatch-wanted set_keep_alive cmd r s h k =
    (keep_alive-wanted (get32 cmd 4) r s.info h k, wanted-IsSetUp (get32 cmd 4))
dispatch-wanted set_camera_turn_on cmd r s h k = vote-info r.ret camera_bit true s k
dispatch-wanted set_camera_turn_off cmd r s h k = vote-info r.ret camera_bit false s k
dispatch-wanted set_audio_turn_on cmd r s h k = vote-info r.ret audio_bit true s k
dispatch-wanted set_audio_turn_off cmd r s h k = vote-info r.ret audio_bit false s k
dispatch-wanted set_lcd_turn_on cmd r s h k = vote-info r.ret lcd_bit true s k
dispatch-wanted set_lcd_turn_off cmd r s h k = vote-info r.ret lcd_bit false s k
dispatch-wanted _ cmd r s h k = (refl, k)

run-wanted :
    (as' : List Arrival) (s : State)
    → All (λ (a : Arrival). AllSucceed a.results) as'
    → IsSetUp s.info
    → (run as' s).0.info ≡ wanted_after as' s.info
unfolding run cmd_recive_callback
run-wanted [] s h k = refl
run-wanted (a ∷ as') s h k =
    let (same, set_up) = dispatch-wanted (opcode_of (get32 a.cmd 0)) a.cmd a.results s h.0 k in
    let s' = (dispatch (opcode_of (get32 a.cmd 0)) a.cmd a.results s).0 in
    elim (Bool-cases (ltb a.length 10)) [
      | inl e ↦ rw e (run-wanted as' s h.1 k)
      | inr e ↦ rw e (run-wanted as' s' h.1 (rw same set_up) ∙ ap (wanted_after as') same)
    ]

service_type-timers : (cmd : ℕ → ℕ) (ts : List SdkTimer) → timers_after (service_type cmd) ts ≡ ts
unfolding service_type
service_type-timers cmd ts = ground arith

dispatch-Matches :
    (op : Opcode) (cmd : ℕ → ℕ) (r : Results) (s : State) (ts : List SdkTimer)
    → AllSucceed r
    → IsSetUp s.info
    → Matches s.info ts
    → let (s', acts) = dispatch op cmd r s in Matches s'.info (timers_after acts ts)
unfolding dispatch event_report
dispatch-Matches set_keep_alive cmd r s ts h k m =
    let (info', acts) = keep_alive (get32 cmd 4) r s.info in
    rw (timers_after-append acts (event_report (get32 cmd 0) 0 0) ts)
      (keep_alive-Matches (get32 cmd 4) r s.info ts h k m)
dispatch-Matches set_service_type cmd r s ts h k m = rw (service_type-timers cmd ts) m
dispatch-Matches set_camera_turn_on cmd r s ts h k m =
    rw ((vote-info r.ret camera_bit true s k).0) m
dispatch-Matches set_camera_turn_off cmd r s ts h k m =
    rw ((vote-info r.ret camera_bit false s k).0) m
dispatch-Matches set_audio_turn_on cmd r s ts h k m = rw ((vote-info r.ret audio_bit true s k).0) m
dispatch-Matches set_audio_turn_off cmd r s ts h k m =
    rw ((vote-info r.ret audio_bit false s k).0) m
dispatch-Matches set_lcd_turn_on cmd r s ts h k m = rw ((vote-info r.ret lcd_bit true s k).0) m
dispatch-Matches set_lcd_turn_off cmd r s ts h k m = rw ((vote-info r.ret lcd_bit false s k).0) m
dispatch-Matches _ cmd r s ts h k m = m

run-Matches :
    (as' : List Arrival) (s : State) (ts : List SdkTimer)
    → All (λ (a : Arrival). AllSucceed a.results) as'
    → IsSetUp s.info
    → Matches s.info ts
    → let (s', acts) = run as' s in Matches s'.info (timers_after acts ts)
unfolding run cmd_recive_callback
run-Matches [] s ts h k m = m
run-Matches (a ∷ as') s ts h k m =
    let op = opcode_of (get32 a.cmd 0) in
    let (s1, acts) = dispatch op a.cmd a.results s in
    let (same, set_up) = dispatch-wanted op a.cmd a.results s h.0 k in
    let first = dispatch-Matches op a.cmd a.results s ts h.0 k m in
    let second = run-Matches as' s1 (timers_after acts ts) h.1 (rw same set_up) first in
    elim (Bool-cases (ltb a.length 10)) [
      | inl e ↦ rw e (run-Matches as' s ts h.1 k m)
      | inr e ↦ rw (e, timers_after-append acts (run as' s1).1 ts) second
    ]

-- After any commands since start-up, while every call for the timer and every allocation succeeds,
-- the timers of the SDK that run are exactly the one of the latest request: none runs if there was no request or
-- its parameter was 0, and otherwise one alone, with exactly the period that was asked for; the structure has the same period.
pub timer_follows :
    (as' : List Arrival)
    → All (λ (a : Arrival). AllSucceed a.results) as'
    → let (s, acts) = run as' boot in
      (s.info ≡ wanted_after as' none)
      × (running_periods (timers_after acts []) ≡ wanted_periods (wanted_after as' none))
unfolding boot
timer_follows as' h =
    let same = run-wanted as' boot h tt in
    let ts = timers_after (run as' boot).1 [] in
    (
      same,
      Matches-wanted_periods (run as' boot).0.info ts (run-Matches as' boot [] h tt refl)
          ∙ ap wanted_periods same,
    )
