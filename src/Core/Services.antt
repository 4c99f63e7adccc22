-- ===== src/Core/Services.antt =====
-- How often the network service is started.
use bk_solution_doorbell.Base.{
  ℕ, suc, ◌+◌, ◌≤◌, ◌≡◌, Bool, true, false, List, [], ◌∷◌, ◌++◌, arith, if◌then◌else◌,
}
use bk_solution_doorbell.Message.{
  lan_udp_service_start_request, lan_tcp_service_start_request, p2p_cs2_service_start_request,
  Dbevt, remote_device_disconnected, Service, service_none, p2p_cs2, lan_udp, lan_tcp,
}
use bk_solution_doorbell.Core.{
  Options, Msg, Effect, transfer_init, message_handle, start_request, cs2_start_request,
  message_loop,
}

abbrev pub transfer_inits : List Effect → ℕ
transfer_inits [] = 0
transfer_inits (transfer_init s param ∷ es) = suc (transfer_inits es)
transfer_inits (_ ∷ es) = transfer_inits es

-- The messages that tell of the remote device's end.
abbrev pub is_end : Dbevt → Bool
is_end remote_device_disconnected = true
is_end _ = false

abbrev pub ends : List Msg → ℕ
ends [] = 0
ends (m ∷ ms) = (if is_end m.event then 1 else 0) + ends ms

abbrev free : Service → ℕ
free service_none = 1
free p2p_cs2 = 0
free lan_udp = 0
free lan_tcp = 0

transfer_inits-append :
    (xs ys : List Effect) → transfer_inits (xs ++ ys) ≡ transfer_inits xs + transfer_inits ys
transfer_inits-append [] ys = omega arith
transfer_inits-append (x ∷ xs) ys = ground (arith, transfer_inits-append xs ys)

message-Free :
    (o : Options) (e : Dbevt) (param : ℕ) (s : Service)
    → let r = message_handle o e param s in
      transfer_inits r.2 + free r.1 ≤ (if o.client then (if is_end e then 1 else 0) else 0) + free s
unfolding message_handle start_request cs2_start_request
message-Free o e param s = ground arith

loop-Free :
    (o : Options) (ms : List Msg) (s : Service)
    → let r = message_loop o ms s in
      transfer_inits r.2 + free r.1 ≤ (if o.client then ends ms else 0) + free s
unfolding message_loop
loop-Free o [] s = omega arith
loop-Free o (m ∷ ms) s =
    let (goes_on, s', es) = message_handle o m.event m.param s in
    let rest = message_loop o ms s' in
    ground
      (arith, message-Free o m.event m.param s, loop-Free o ms s', transfer_inits-append es rest.2)

-- In a build without the client service the messages that arrive start the network service at most once
-- since the start of the loop. With it, they start it at most once more than the remote device went away.
pub transfer_inits-ends :
    (o : Options) (ms : List Msg)
    → transfer_inits (message_loop o ms service_none).2 ≤ suc (if o.client then ends ms else 0)
transfer_inits-ends o ms = omega (arith, loop-Free o ms service_none)

-- The messages that start a service of the local network.
abbrev pub is_request : Dbevt → Bool
is_request lan_udp_service_start_request = true
is_request lan_tcp_service_start_request = true
is_request p2p_cs2_service_start_request = true
is_request _ = false

-- While a service is recorded, whether its start succeeded or not, a request for a service does nothing.
pub request_refused :
    (o : Options) (e : Dbevt) (param : ℕ) (s : Service)
    → is_request e ≡ true
    → free s ≡ 0
    → message_handle o e param s ≡ (true, s, [])
unfolding message_handle start_request cs2_start_request
request_refused o e param s h k = ground arith
