-- ===== src/CpKeepalive.antt =====
-- projects/doorbell_lp/cp/keepalive/db_keepalive.{h,c}: the coprocessor keeps the connection to the server
-- while the multimedia side sleeps. The parent has the module's state and what starts and ends it,
-- Connection the socket, Receive the receiving thread and Transmit the sending one.
-- What calls of the SDK return is an argument.
pub mod Connection
pub mod Receive
pub mod Transmit
pub mod Ipc
mod Tests
use bk_solution_doorbell.Base.{
  ℕ, ◌+◌, Bool, true, false, not, Option, none, some, List, [], ◌∷◌, ◌++◌, if◌then◌else◌, take,
}
use bk_solution_doorbell.DbPack

-- DB_KEEPALIVE_MSG_BUFFER_SIZE.
abbrev pub msg_buffer_size : ℕ
msg_buffer_size = 1460

-- `POWERUP_FLAGS`, as far as this side gives a reason.
pub data WakeReason : Type 0 where
  multimedia_wakeup_host keepalive_disconnection keepalive_fail_wakeup : WakeReason

-- The calls that leave the file, in order, with what they returned where that is read.
pub data Action : Type 0 where
  malloc_buffer : Bool → Action
  free_buffer : Action
  pack_init : DbPack.Status → Action
  pack_deinit : Action
  init_semaphore : Bool → Action
  post_semaphore deinit_semaphore : Action
  init_timer : (interval_ms : ℕ) → Bool → Action
  start_timer : Bool → Action
  stop_timer deinit_timer : Action
  create_tx create_rx : Bool → Action
  open_socket : Option ℕ → Action
  set_timeout : (ms : ℕ) → Action
  bind_port : (port : ℕ) → Bool → Action
  connect_to : (server : List ℕ) (port : ℕ) → Bool → Action
  close_socket : ℕ → Action
  send_bytes : (sock : ℕ) → List ℕ → Action
  set_filter : (server : List ℕ) (port : ℕ) → Action
  clear_filter : Action
  register_alarm : (interval_ms : ℕ) → Action
  unregister_alarm : Action
  start_lv_sleep exit_lv_sleep power_down_host : Action
  wakeup_host set_wakeup_reason : WakeReason → Action
  send_disconnection : Action

-- `db_keepalive_env_t`, with the channel of db_pack. `sock` is `none` for a negative number, and a handle
-- or a pointer is whether it is set. The zero that os_memset gives `lp_state` is not PM_MODE_LOW_VOLTAGE.
pub record Env : Type 0 where
  pub ongoing : Bool
  pub sock : Option ℕ
  pub server : List ℕ
  pub port : ℕ
  pub interval_ms : ℕ
  pub has_timer : Bool
  pub has_tx : Bool
  pub has_rx : Bool
  pub has_sema : Bool
  pub has_rx_buffer : Bool
  pub has_rx_raw_buffer : Bool
  pub low_voltage : Bool
  pub pack : Option DbPack.Chan

-- All fields zero, by the initialiser or by os_memset.
unfoldable pub zeroed : Option DbPack.Chan → Env
zeroed pack = record {
  ongoing = false;
  sock = some 0;
  server = [];
  port = 0;
  interval_ms = 0;
  has_timer = false;
  has_tx = false;
  has_rx = false;
  has_sema = false;
  has_rx_buffer = false;
  has_rx_raw_buffer = false;
  low_voltage = false;
  pack = pack;
}

-- `db_ipc_keepalive_cfg_t`; the text of `server` ends before its zero byte.
pub record Cfg : Type 0 where
  pub server : List ℕ
  pub port : ℕ

-- What the calls of db_keepalive_cp_init return.
pub record InitResults : Type 0 where
  pub rx_buffer : Bool
  pub rx_raw_buffer : Bool
  pub pack : DbPack.Allocs
  pub sema : Bool

abbrev pub is_ok : DbPack.Status → Bool
is_ok DbPack.bk_ok = true
is_ok DbPack.bk_err_no_mem = false

-- The part of db_keepalive_cp_init behind the two buffers.
unfoldable pub init_rest : InitResults → Env → Bool × Env × List Action
unfolding DbPack.init DbPack.deinit
init_rest r e =
    let (status, chan, freed) = DbPack.init msg_buffer_size msg_buffer_size r.pack e.pack in
    let bare = record e { has_rx_buffer = false; has_rx_raw_buffer = false; pack = chan } in
    let give_up = free_buffer ∷ free_buffer ∷ [] in
    if is_ok status
    then (if r.sema
        then (
          true,
          record e {
            pack = chan;
            has_sema = true;
            ongoing = true;
            sock = none;
            low_voltage = false;
          },
          pack_init status ∷ init_semaphore true ∷ [],
        )
        else (
          false,
          record bare { pack = (DbPack.deinit chan).1 },
          pack_init status ∷ init_semaphore false ∷ pack_deinit ∷ give_up,
        ))
    else (false, bare, pack_init status ∷ give_up)

-- db_keepalive_cp_init; the first `none` is `cfg == NULL`.
unfoldable pub cp_init : Option Cfg → InitResults → Env → Bool × Env × List Action
unfolding zeroed init_rest
cp_init none r e = (false, e, [])
cp_init (some cfg) r e =
    let e1 = record (zeroed e.pack) {
      server = take 31 cfg.server;
      port = cfg.port;
      interval_ms = 30000;
    } in
    let e2 = record e1 { has_rx_buffer = true; has_rx_raw_buffer = true } in
    let (ok, e3, acts) = init_rest r e2 in
    if e.ongoing
    then (false, e, [])
    else if r.rx_buffer
    then (if r.rx_raw_buffer
        then (ok, e3, malloc_buffer true ∷ malloc_buffer true ∷ acts)
        else (false, e1, malloc_buffer true ∷ malloc_buffer false ∷ free_buffer ∷ []))
    else (false, e1, malloc_buffer false ∷ [])

-- db_keepalive_cp_start.
unfoldable pub cp_start : (created : Bool) → Env → Bool × Env × List Action
cp_start created e =
    if e.ongoing
    then (if created
        then (true, record e { has_tx = true }, create_tx true ∷ [])
        else (false, e, create_tx false ∷ []))
    else (false, e, [])

-- db_keepalive_sema_post_safe.
abbrev pub sema_post_safe : Env → List Action
sema_post_safe e = if e.has_sema then post_semaphore ∷ [] else []

abbrev pub act_if : Bool → List Action → List Action
act_if b acts = if b then acts else []

abbrev pub close_of : Option ℕ → List Action
close_of none = []
close_of (some n) = close_socket n ∷ []

-- db_keepalive_cp_deinit; it always returns BK_OK.
unfoldable pub cp_deinit : Env → Env × List Action
unfolding zeroed DbPack.deinit
cp_deinit e = (
  zeroed (DbPack.deinit e.pack).1,
  unregister_alarm
      ∷ (sema_post_safe e
          ++ (act_if e.low_voltage (exit_lv_sleep ∷ [])
              ++ (act_if e.has_timer (stop_timer ∷ deinit_timer ∷ [])
                  ++ (close_of e.sock
                      ++ (pack_deinit
                          ∷ (act_if e.has_rx_buffer (free_buffer ∷ [])
                              ++ (act_if e.has_rx_raw_buffer (free_buffer ∷ [])
                                  ++ (act_if e.has_sema (deinit_semaphore ∷ [])
                                      ++ (clear_filter ∷ []))))))))),
)

-- db_keepalive_cp_stop.
unfoldable pub cp_stop : Env → Env × List Action
unfolding cp_deinit
cp_stop e =
    let e' = record e { ongoing = false } in
    if e.has_tx
    then (e', sema_post_safe e)
    else (let (e″, acts) = cp_deinit e' in (e″, sema_post_safe e ++ acts))
