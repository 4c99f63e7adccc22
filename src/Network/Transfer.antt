-- ===== src/Network/Transfer.antt =====
-- components/smart_lock/src/doorbell_network_transfer.c: the start and the end of the network service. What
-- the flash gives for the server is an argument.
use bk_solution_doorbell.Base.{ℕ, ◌≡◌, Bool, true, false, List, [], ◌∷◌, ◌++◌, arith, if◌then◌else◌}
use bk_solution_doorbell.Network.{Channel, ctrl, video, audio, NtwkType, none_type, tcp, udp, cs2}

-- The names "tcp_service", "udp_service" and "cs2_service", and any other as `none_type`.
abbrev pub is_service : NtwkType → Bool
is_service none_type = false
is_service tcp = true
is_service udp = true
is_service cs2 = true

-- The calls of the SDK, in order; a parameter of 0 is NULL.
pub data TransferCall : Type 0 where
  set_server_net_info register_msg_event_cb : TransferCall
  service_init service_deinit : NtwkType → TransferCall
  register_recv_cb chan_stop : Channel → TransferCall
  chan_start : Channel → (param : ℕ) → TransferCall

-- Only the control channel of "cs2_service" gets the parameter.
abbrev pub ctrl_param : NtwkType → ℕ → ℕ
ctrl_param cs2 param = param
ctrl_param none_type param = 0
ctrl_param tcp param = 0
ctrl_param udp param = 0

-- doorbell_network_transfer_start.
unfoldable pub transfer_start : NtwkType → (param : ℕ) → List TransferCall
transfer_start name param =
    register_msg_event_cb
    ∷ register_recv_cb ctrl
    ∷ chan_start ctrl (ctrl_param name param)
    ∷ register_recv_cb video
    ∷ chan_start video 0
    ∷ register_recv_cb audio
    ∷ chan_start audio 0
    ∷ []

-- doorbell_network_transfer_stop.
unfoldable pub transfer_stop : List TransferCall
transfer_stop = chan_stop ctrl ∷ chan_stop video ∷ chan_stop audio ∷ []

-- doorbell_bk_network_transfer_init; `got_info` is read in a build with the client service.
unfoldable pub transfer_init :
    (client got_info : Bool) → NtwkType → (param : ℕ) → Bool × List TransferCall
unfolding transfer_start
transfer_init client got_info name param =
    let first = if client then set_server_net_info ∷ [] else [] in
    let ready = if client then got_info else true in
    if ready
    then (if is_service name
        then (true, first ++ (service_init name ∷ transfer_start name param))
        else (false, first))
    else (false, [])

-- doorbell_bk_network_transfer_deinit.
unfoldable pub transfer_deinit : NtwkType → Bool × List TransferCall
unfolding transfer_stop
transfer_deinit name =
    if is_service name
    then (true, transfer_stop ++ (service_deinit name ∷ []))
    else (false, transfer_stop)

-- The channels that are started, and those that are stopped.
abbrev pub started : List TransferCall → List Channel
started [] = []
started (chan_start c param ∷ cs) = c ∷ started cs
started (_ ∷ cs) = started cs

abbrev pub stopped : List TransferCall → List Channel
stopped [] = []
stopped (chan_stop c ∷ cs) = c ∷ stopped cs
stopped (_ ∷ cs) = stopped cs

-- A start that succeeds starts exactly the channels that the end of the service stops, and the one that
-- fails starts none.
pub transfer_init-deinit :
    (client got_info : Bool) (name : NtwkType) (param : ℕ)
    → let r = transfer_init client got_info name param in
      started r.1 ≡ (if r.0 then stopped (transfer_deinit name).1 else [])
unfolding transfer_init transfer_start transfer_deinit transfer_stop
transfer_init-deinit client got_info name param = ground arith
