-- ===== src/ApKeepalive.antt =====
-- projects/doorbell_lp/ap/keepalive/db_keepalive.c: when the multimedia side goes to sleep and leaves
-- the connection to the coprocessor, and what it does when it wakes up.
-- What calls of the SDK, of the flash store and of the message queue return is an argument of each
-- function. A number of milliseconds from `rtos_get_time` is below 2 ^ 64. `atoi` is an argument.
pub mod Calls
pub mod Interval
pub mod Takeover
mod Tests
use bk_solution_doorbell.Base.{
  ℕ, zero, suc, ◌+◌, ◌-◌, Bool, true, false, ◌&&◌, ◌||◌, Option, none, some, List, [], ◌∷◌, ◌++◌,
  ◌==◌, ltb, leb, if◌then◌else◌,
}
use bk_solution_doorbell.Message.{
  Dbevt, ble_disable, lan_tcp_service_stop, lan_udp_service_stop, lan_tcp_service_start_request,
  lan_udp_service_start_request, Service, service_none, p2p_cs2, lan_udp, lan_tcp, put16, put32,
}

abbrev pub check_min_interval_ms : ℕ
check_min_interval_ms = 1000

abbrev pub interval_max_ms : ℕ
interval_max_ms = 300000

abbrev pub max_u64 : ℕ
max_u64 = 18446744073709551615

abbrev pub wake_up_request : ℕ
wake_up_request = 19

-- The file's static variables; the timer's own fields are the SDK's.
pub record State : Type 0 where
  pub timer_started : Bool
  pub interval_ms : ℕ
  pub interval_loaded : Bool
  pub last_update : ℕ
  pub pending_keepalive : Bool
  pub pending_wakeup_cmd : ℕ

unfoldable pub boot : State
boot = record {
  timer_started = false;
  interval_ms = 5000;
  interval_loaded = false;
  last_update = 0;
  pending_keepalive = false;
  pending_wakeup_cmd = 0;
}

-- The calls that leave the file, in order, each with what it returned where that is read.
pub data Action : Type 0 where
  init_timer : (interval_ms : ℕ) → Bool → Action
  start_timer stop_timer deinit_timer : Bool → Action
  save_interval : ℕ → Action
  post : Dbevt → Bool → Action
  stop_cp : Bool → Action
  start_cp : (ip port : List ℕ) → Bool → Action
  command : List ℕ → Action
  delete_flash : Action

-- What the timer's functions return.
pub record TimerResults : Type 0 where
  pub init : Bool
  pub start : Bool
  pub stop : Bool
  pub deinit : Bool

-- The part of db_set_keepalive_interval for a timer that runs.
unfoldable pub restart : TimerResults → State → State × List Action
restart t s =
    let restarted = record s { timer_started = false } in
    if s.timer_started
    then (if t.stop
        then (if t.deinit
            then (if t.init
                then (if t.start
                    then (
                      s,
                      stop_timer true
                          ∷ deinit_timer true
                          ∷ init_timer s.interval_ms true
                          ∷ start_timer true
                          ∷ [],
                    )
                    else (
                      restarted,
                      stop_timer true
                          ∷ deinit_timer true
                          ∷ init_timer s.interval_ms true
                          ∷ start_timer false
                          ∷ deinit_timer true
                          ∷ [],
                    ))
                else (
                  restarted,
                  stop_timer true ∷ deinit_timer true ∷ init_timer s.interval_ms false ∷ [],
                ))
            else (s, stop_timer true ∷ deinit_timer false ∷ []))
        else (s, stop_timer false ∷ []))
    else (s, [])

abbrev pub clamp : ℕ → ℕ
clamp v =
    let low = if ltb v check_min_interval_ms then check_min_interval_ms else v in
    if ltb interval_max_ms low then interval_max_ms else low

-- An `int`: `negsuc n` is -(n + 1).
pub data ℤ : Type 0 where
  pos negsuc : ℕ → ℤ

abbrev pub is_empty : List ℕ → Bool
is_empty [] = true
is_empty (b ∷ bs) = b == 0

abbrev pub same_text : List ℕ → List ℕ → Bool
same_text [] [] = true
same_text [] (b ∷ bs) = false
same_text (a ∷ as') [] = false
same_text (a ∷ as') (b ∷ bs) = a == b && same_text as' bs

-- "interval".
abbrev pub interval_word : List ℕ
interval_word = 105 ∷ 110 ∷ 116 ∷ 101 ∷ 114 ∷ 118 ∷ 97 ∷ 108 ∷ []

-- The time since the last command; the second case is the wrap-around of the clock.
unfoldable pub time_diff : (now last : ℕ) → ℕ
time_diff now last = if leb last now then now - last else (max_u64 - last) + now + 1

abbrev pub is_recent : (now : ℕ) → State → Bool
is_recent now s =
    if s.last_update == 0 then false else ltb (time_diff now s.last_update) check_min_interval_ms

unfoldable pub stop_service_if_running :
    (flash : Option Service) → (posted : Bool) → State → Bool × State × List Action
stop_service_if_running flash posted s =
    let stop : Dbevt → Bool × State × List Action = λ e.
      if posted
      then (true, record s { pending_keepalive = true }, post e true ∷ [])
      else (false, s, post e false ∷ []) in
    if s.pending_keepalive then (true, s, []) else elim flash [
      | none ↦ (false, s, [])
      | some service_none ↦ (false, s, [])
      | some p2p_cs2 ↦ (false, s, [])
      | some lan_udp ↦ stop lan_udp_service_stop
      | some lan_tcp ↦ stop lan_tcp_service_stop
    ]

-- db_keepalive_mm_status_check_timer_handler.
unfoldable pub timer_handler :
    (mm_status now : ℕ) → (flash : Option Service) → (posted : Bool) → State → State × List Action
unfolding stop_service_if_running time_diff
timer_handler mm_status now flash posted s =
    let (stopping, s', acts) = stop_service_if_running flash posted s in
    if mm_status == 0
    then (if is_recent now s
        then (s, [])
        else if stopping
        then (s', acts)
        else (record s' { pending_keepalive = true }, acts))
    else (s, [])

unfoldable pub start_service_from_flash :
    (flash : Option Service) → (posted : Bool) → Bool × List Action
start_service_from_flash flash posted = elim flash [
  | none ↦ (false, [])
  | some service_none ↦ (false, [])
  | some p2p_cs2 ↦ (false, [])
  | some lan_udp ↦ (posted, post lan_udp_service_start_request posted ∷ [])
  | some lan_tcp ↦ (posted, post lan_tcp_service_start_request posted ∷ [])
]

-- db_keepalive_send_cmd_to_callback without a payload; the callback is doorbell_cmd.c's.
unfoldable pub send_cmd_to_callback : (opcode param : ℕ) → (alloc : Bool) → List Action
send_cmd_to_callback opcode param alloc =
    if alloc then command (put32 opcode ++ (put32 param ++ put16 0)) ∷ [] else []

unfoldable pub on_keepalive_disconnection :
    (flash : Option Service) → (posted : Bool) → State → State × List Action
unfolding start_service_from_flash
on_keepalive_disconnection flash posted s =
    (record s { pending_keepalive = false }, (start_service_from_flash flash posted).1)

unfoldable pub on_service_start_success : (alloc : Bool) → State → State × List Action
unfolding send_cmd_to_callback
on_service_start_success alloc s = if s.pending_wakeup_cmd == 0 then (s, []) else (
  record s { pending_wakeup_cmd = 0 },
  if s.pending_wakeup_cmd == wake_up_request
      then send_cmd_to_callback wake_up_request 0 alloc
      else [],
)
