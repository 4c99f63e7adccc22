-- ===== src/CpKeepalive/Ipc.antt =====
-- projects/doorbell_lp/cp/db_ipc_msg/db_ipc_msg.c: the keepalive's messages from the multimedia side, and
-- what the coprocessor holds for them.
pub mod Balance
pub mod Whole
use bk_solution_doorbell.Base.{
  ℕ, zero, suc, ◌+◌, ◌≡◌, refl, ap, ◌∙◌, sym, Bool, true, false, not, ◌||◌, ◌&&◌, Option, none,
  some, List, [], ◌∷◌, ◌++◌, arith, if◌then◌else◌,
}
use bk_solution_doorbell.DbPack
use bk_solution_doorbell.CpKeepalive.Transmit.{
  TxResults, tx_start, init_rx, start_sleep, set_up_timer,
}
use bk_solution_doorbell.CpKeepalive.Connection.{init_connection}
use bk_solution_doorbell.CpKeepalive.{
  Env, Cfg, InitResults, Action, cp_init, init_rest, cp_start, cp_stop, cp_deinit, zeroed, is_ok,
  act_if, close_of, sema_post_safe, malloc_buffer, free_buffer, init_semaphore, deinit_semaphore,
  init_timer, deinit_timer,
}

-- The messages, with what the calls for them return, and the start and the end of the sending thread.
pub data Step : Type 0 where
  keepalive_start : Cfg → InitResults → (created : Bool) → Step
  keepalive_stop : Step
  tx_starts : TxResults → Step
  tx_exits : Step

-- A thread that was created begins once: it has no timer yet.
abbrev pub can_begin : Env → Bool
can_begin e = e.has_tx && not e.has_timer

-- The cases of db_ipc_msg_handler for the keepalive, and the parts of db_keepalive_tx_handler before and
-- behind its loop.
unfoldable pub step : Step → Env → Env × List Action
unfolding cp_init cp_start cp_stop cp_deinit tx_start
step (keepalive_start cfg r created) e =
    let (ok, e1, acts) = cp_init (some cfg) r e in
    let (started, e2, acts') = cp_start created e1 in if ok then (e2, acts ++ acts') else (e1, acts)
step keepalive_stop e = cp_stop e
step (tx_starts r) e =
    let (ok, e1, acts) = tx_start r e in
    let (e2, acts') = cp_deinit e1 in
    if can_begin e then (if ok then (e1, acts) else (e2, acts ++ acts')) else (e, [])
step tx_exits e = if e.has_tx then cp_deinit e else (e, [])

unfoldable pub run : List Step → Env → Env × List Action
unfolding step
run [] e = (e, [])
run (x ∷ xs) e = let (e1, acts) = step x e in let (e2, rest) = run xs e1 in (e2, acts ++ rest)
