-- ===== src/CpKeepalive/Tests.antt =====
-- A wake-up request on the wire, a connection at the second try, and a restart.
use bk_solution_doorbell.Base.{
  ℕ, zero, ◌+◌, ◌≤◌, ◌≡◌, refl, true, false, none, some, List, [], ◌∷◌, ◌++◌, arith, map, All,
}
use bk_solution_doorbell.DbPack
use bk_solution_doorbell.DbPack.{Chan, fresh_chan}
use bk_solution_doorbell.DbPack.Drain.Stream.{join}
use bk_solution_doorbell.DbPack.Pack.{cut, send_all}
use bk_solution_doorbell.CpKeepalive.{
  Env, Cfg, InitResults, zeroed, cp_stop, cp_deinit, unregister_alarm, close_socket, pack_deinit,
  clear_filter,
}
use bk_solution_doorbell.CpKeepalive.Connection.{Attempt, init_connection}
use bk_solution_doorbell.CpKeepalive.Connection.Sockets.{
  PortInRange, open_after, with_socket, joins, connects, one_of, init_connection-Settled,
}
use bk_solution_doorbell.CpKeepalive.Receive.{received, rx_handler}
use bk_solution_doorbell.CpKeepalive.Receive.Wire.{Wakes, wake_messages, rx_handler-Wakes}
use bk_solution_doorbell.CpKeepalive.Transmit.{TxResults}
use bk_solution_doorbell.CpKeepalive.Ipc.{
  Step, keepalive_start, keepalive_stop, tx_starts, tx_exits, run,
}
use bk_solution_doorbell.CpKeepalive.Ipc.Balance.{buffer, semaphore, held, taken, given}
use bk_solution_doorbell.CpKeepalive.Ipc.Whole.{run-Balanced, restart_leaks}

abbrev no_crc : List ℕ → ℕ → ℕ
no_crc bytes start = 0

abbrev chan : Chan
chan = fresh_chan 1460 1460

-- A wake-up request and an unknown command, with the times at which they are sent.
abbrev request : List ℕ
request = 19 ∷ 0 ∷ 0 ∷ 0 ∷ 0 ∷ 0 ∷ 0 ∷ 0 ∷ 0 ∷ 0 ∷ []

abbrev unknown : List ℕ
unknown = 99 ∷ 0 ∷ 0 ∷ 0 ∷ 0 ∷ 0 ∷ 0 ∷ 0 ∷ 0 ∷ 0 ∷ []

abbrev messages : List (ℕ × List ℕ)
messages = (5, request) ∷ (6, unknown) ∷ []

abbrev head : (now sequence : ℕ) → List ℕ
head now sequence = 213 ∷ 240 ∷ 1 ∷ 0 ∷ now ∷ 0 ∷ 0 ∷ 0 ∷ sequence ∷ 0 ∷ 10 ∷ 0 ∷ 0 ∷ 0 ∷ 0 ∷ 0 ∷ []

abbrev packets : List (List ℕ)
packets = (head 5 1 ++ request) ∷ (head 6 2 ++ unknown) ∷ []

packets_sent : send_all no_crc chan messages ≡ some packets
unfolding send_all DbPack.pack
packets_sent = refl

abbrev running : Env
running = record (zeroed (some chan)) {
  ongoing = true;
  sock = some 3;
  has_tx = true;
  has_rx = true;
}

-- Cut within the first header, and within the second message.
rx_handler-Wakes_example :
    Wakes
      (wake_messages messages)
      (rx_handler no_crc 7 (map received (cut (3 ∷ 40 ∷ []) (join packets))) running)
unfolding zeroed
rx_handler-Wakes_example =
    rx_handler-Wakes no_crc (λ bytes. omega arith) 7 (3 ∷ 40 ∷ []) chan chan messages packets 3
      running (omega arith) (omega arith)
      ((omega arith, omega arith), ((omega arith, omega arith), tt)) refl packets_sent refl refl
      refl

-- The first connect fails, the second succeeds.
abbrev world : ℕ → Attempt
world zero = record { opened = some 3; bound = λ i port. true; connected = false }
world _ = record { opened = some 4; bound = λ i port. true; connected = true }

init_connection-Settled_example :
    let r = init_connection world 0 (zeroed none) in
    All PortInRange r.2
    × (open_after r.2 (9 ∷ []) ≡ with_socket r.0.sock (9 ∷ []))
    × (joins r.2 ≡ one_of r.0.sock)
    × (connects r.2 ≤ 5)
init_connection-Settled_example = init_connection-Settled world 0 (zeroed none) (9 ∷ [])

abbrev cfg : Cfg
cfg = record { server = 49 ∷ []; port = 8 }

abbrev all_well : InitResults
all_well = record {
  rx_buffer = true;
  rx_raw_buffer = true;
  pack = record { chan = true; cbuf = true; tbuf = true };
  sema = true;
}

abbrev tx : TxResults
tx = record { world = world; seed = 0; created = true; init = true; start = true }

abbrev life : List Step
life = keepalive_start cfg all_well true ∷ tx_starts tx ∷ keepalive_stop ∷ tx_exits ∷ []

run-Balanced_example :
    let x = run life (zeroed none) in taken buffer x.1 ≡ held buffer x.0 + given buffer x.1
unfolding zeroed
run-Balanced_example = run-Balanced buffer none life (refl, (tt, (tt, (tt, tt))))

restart_leaks_example :
    let x = run (keepalive_stop ∷ keepalive_start cfg all_well true ∷ []) running in
    (given buffer x.1 ≡ 0)
    × (taken buffer x.1 ≡ 2)
    × (held buffer x.0 ≡ 2)
    × (given semaphore x.1 ≡ 0)
    × (taken semaphore x.1 ≡ 1)
    × (held semaphore x.0 ≡ 1)
unfolding zeroed
restart_leaks_example = restart_leaks running chan cfg refl refl refl

-- A stop when nothing runs closes descriptor 0, which the zeroed environment seems to have.
rest_closes :
    (cp_stop (zeroed none)).1 ≡ unregister_alarm ∷ close_socket 0 ∷ pack_deinit ∷ clear_filter ∷ []
unfolding cp_stop cp_deinit zeroed
rest_closes = refl
