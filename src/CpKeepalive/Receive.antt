-- ===== src/CpKeepalive/Receive.antt =====
-- What the coprocessor receives: the retries on the socket, the commands and the receiving thread. The
-- checksum `crc8` and the clock are arguments.
pub mod Requests
pub mod Wire
pub mod Retries
use bk_solution_doorbell.Base.{
  ℕ, zero, suc, ◌+◌, ◌*◌, ◌%◌, Bool, true, false, ◌&&◌, Option, none, some, List, [], ◌∷◌, ◌++◌,
  ◌==◌, ltb, if◌then◌else◌, length,
}
use bk_solution_doorbell.Message.{put16, put32}
use bk_solution_doorbell.DbPack
use bk_solution_doorbell.DbPack.{byte_at}
use bk_solution_doorbell.CpKeepalive.{
  Env, Action, send_bytes, wakeup_host, multimedia_wakeup_host, keepalive_fail_wakeup,
  sema_post_safe,
}

-- What one call of `recv` returns: bytes, 0, an error that asks to try again, or another error.
pub data Recv : Type 0 where
  got : List ℕ → Recv
  closed would_block failed : Recv

-- The result of db_keepalive_recv_raw_data: 0 with the bytes, -1 or -2.
pub data RawData : Type 0 where
  received : List ℕ → RawData
  max_retries broken : RawData

abbrev pub raw_of : Recv → (retry : RawData) → RawData
raw_of (got b) retry = received b
raw_of closed retry = broken
raw_of would_block retry = retry
raw_of failed retry = broken

-- The code at `rx_retry`, with the retries that are left; `world i` is the result of the `i`-th call.
unfoldable pub recv_raw_loop : (left i : ℕ) (world : ℕ → Recv) → RawData
recv_raw_loop zero i world = raw_of (world i) max_retries
recv_raw_loop (suc left) i world = raw_of (world i) (recv_raw_loop left (i + 1) world)

-- db_keepalive_recv_raw_data, with DB_KEEPALIVE_RX_MAX_RETRY_CNT retries.
unfoldable pub recv_raw_data : (world : ℕ → Recv) → RawData
unfolding recv_raw_loop
recv_raw_data world = recv_raw_loop 20 0 world

abbrev pub opcode_at : List ℕ → ℕ
opcode_at b = byte_at b 0 + 256 * byte_at b 1 + 65536 * byte_at b 2 + 16777216 * byte_at b 3

-- The sockets of a closed connection are negative.
abbrev pub has_sock : Env → Bool
has_sock e = elim e.sock [ none ↦ false | some n ↦ true ]

-- What was done before comes first.
abbrev pub with_actions : List Action → Option (Env × List Action) → Option (Env × List Action)
with_actions acts none = none
with_actions acts (some r) = some (r.0, acts ++ r.1)

module _ (crc8 : List ℕ → ℕ → ℕ) where
  -- doorbell_transmission_event_report with a socket and a channel.
  unfoldable pub report_on : (sock now : ℕ) (event : List ℕ) → DbPack.Chan → Env → Env × List Action
  unfolding DbPack.pack
  report_on sock now event chan e = elim (DbPack.pack crc8 now chan event) [
    | none ↦ (e, [])
    | some sent ↦ (record e { pack = some sent.1 }, send_bytes sock sent.0 ∷ [])
  ]

  -- doorbell_transmission_event_report and, with opcode 17, db_keepalive_send_heartbeat.
  unfoldable pub event_report : (opcode status flags now : ℕ) → Env → Env × List Action
  unfolding report_on
  event_report opcode status flags now e =
      let event = put32 opcode ++ (status % 256 ∷ (put16 flags ++ put16 0)) in
      elim e.sock [
        | none ↦ (e, [])
        | some sock ↦ elim e.pack [ none ↦ (e, []) | some chan ↦ report_on sock now event chan e ]
      ]

  -- db_tx_cmd_recive_callback.
  unfoldable pub cmd_recive_callback : (now : ℕ) (cmd : List ℕ) → Env → Env × List Action
  unfolding event_report
  cmd_recive_callback now cmd e =
      if ltb (length cmd) 10
      then (e, [])
      else if opcode_at cmd == 19
      then (e, wakeup_host multimedia_wakeup_host ∷ [])
      else event_report (opcode_at cmd) 12 0 now e

  -- db_keepalive_unpack_callback.
  unfoldable pub unpack_callback : (now : ℕ) (cmd : List ℕ) → Env → Env × List Action
  unfolding cmd_recive_callback
  unpack_callback now cmd e =
      if ltb (length cmd) 10
      then (e, [])
      else if opcode_at cmd == 18
      then (e, [])
      else cmd_recive_callback now cmd e

  -- The callbacks of one call of db_pack_unpack.
  unfoldable pub callbacks : (now : ℕ) → List DbPack.Event → Env → Env × List Action
  unfolding unpack_callback
  callbacks now [] e = (e, [])
  callbacks now (DbPack.crc_mismatch ∷ es) e = callbacks now es e
  callbacks now (DbPack.recv cmd ∷ es) e =
      let (e1, acts) = unpack_callback now cmd e in
      let (e2, rest) = callbacks now es e1 in (e2, acts ++ rest)

  abbrev pub after_unpack :
      (now : ℕ) → DbPack.Chan → DbPack.Outcome → Env → Option (Env × List Action)
  after_unpack now chan (DbPack.done cache left es) e =
      some (callbacks now es (record e { pack = some (record chan { cache = cache }) }))
  after_unpack now chan DbPack.overflow e = none
  after_unpack now chan DbPack.out_of_fuel e = none

  -- db_pack_unpack on what was received; `none` is a copy that leaves the cache.
  unfoldable pub take_in : (now : ℕ) → List ℕ → Env → Option (Env × List Action)
  unfolding callbacks DbPack.unpack
  take_in now b e = elim e.pack [
    | none ↦ some (e, [])
    | some chan ↦ elim (DbPack.unpack crc8 chan b) [
      | none ↦ some (e, [])
      | some out ↦ after_unpack now chan out e
    ]
  ]

  -- The end of db_keepalive_rx_handler.
  abbrev pub rx_exit : Env → Env × List Action
  rx_exit e = (record e { ongoing = false; has_rx = false }, sema_post_safe e)

  abbrev pub and_then :
      Option (Env × List Action) → (Env → Option (Env × List Action)) → Option (Env × List Action)
  and_then none next = none
  and_then (some r) next = with_actions r.1 (next r.0)

  -- db_keepalive_rx_handler over what it receives one after the other, as long as no other thread ends
  -- it; at the end of the list it still waits.
  unfoldable pub rx_handler : (now : ℕ) → List RawData → Env → Option (Env × List Action)
  unfolding take_in
  rx_handler now [] e = some (e, [])
  rx_handler now (max_retries ∷ rs) e =
      if e.ongoing && has_sock e
      then (let (e', acts) = rx_exit e in some (e', wakeup_host keepalive_fail_wakeup ∷ acts))
      else some (rx_exit e)
  rx_handler now (broken ∷ rs) e = some (rx_exit e)
  rx_handler now (received b ∷ rs) e =
      let next = and_then (take_in now b e) (rx_handler now rs) in
      if e.ongoing && has_sock e then next else some (rx_exit e)
